-- ===== src/Profile/Derived/Again.antt =====
-- What a computation of a derived field leaves behind rests when it is computed again.
use bike_doc.Prelude.{
  String, Bool, true, false, some, List, ◌≡◌, ◌∙◌, arith, refl, Bool-cases, inl, inr, sym, ap,
  or_else,
}
use bike_doc.Profile.Tree.{Json, is_null, Path_}
use bike_doc.Profile.Projection.{path_eq}
use bike_doc.Profile.Claims.{Resolution, Bike, get_resolution, new_resolution}
use bike_doc.Profile.Derived.{Derivation, is_unset_as, open_conflicts, resolution_at}
use bike_doc.Profile.Derived.Updates.{written_here, written_elsewhere}
use bike_doc.Profile.Derived.Settled.{rests, IsUpdated, is_settled}

-- The resolutions of the other fields are the same.
abbrev pub SameElsewhere : Path_ → Bike → Bike → Type 0
SameElsewhere path b b' =
    (q : Path_)
    → path_eq path q ≡ false
    → get_resolution q b'.resolutions ≡ get_resolution q b.resolutions

module _ (x : Derivation) (path : Path_) (value : Json) (dispute : Bool) (reason : String)
    (forgets keeps : Bool) (sources : List Resolution) (b : Bike) where
  pub updated_elsewhere :
      (w : Bool) (b' : Bike)
      → IsUpdated x path value dispute reason forgets keeps sources b w b'
      → SameElsewhere path b b'
  updated_elsewhere w b' (inl u) q h = ap (λ (y : Bike). get_resolution q y.resolutions) u.1
  updated_elsewhere w b' (inr (s, _, v, _, _)) q h = written_elsewhere path value s q b b' v h

  settled_rests :
      (s : Resolution) (keep : Bool) (b' : Bike)
      → resolution_at path b' ≡ s
      → is_settled value dispute (open_conflicts dispute sources) s ≡ true
      → (is_unset_as dispute (open_conflicts dispute sources) s ≡ true → keep ≡ true)
      → rests x path value dispute reason forgets keep sources b' ≡ true
  settled_rests s keep b' e h k = elim (Bool-cases (is_null value)) [
    | inl n ↦ rw n (ground (arith, k (sym (rw n refl) ∙ h)))
    | inr n ↦ rw (n, e) (ground (arith, h, n))
  ]

  pub updated_rests :
      (w keep : Bool) (b' : Bike)
      → IsUpdated x path value dispute reason forgets keeps sources b w b'
      → (b' ≡ b → keep ≡ keeps)
      → ((s : Resolution)
          → get_resolution path b'.resolutions ≡ some s
          → is_unset_as dispute (open_conflicts dispute sources) s ≡ true
          → keep ≡ true)
      → rests x path value dispute reason forgets keep sources b' ≡ true
  updated_rests w keep b' (inl u) same k = rw (same u.1, u.1) u.2
  updated_rests w keep b' (inr (s, _, v, settled, _)) same k =
      let here = written_here path value s b b' v in
      settled_rests s keep b' (ap (λ y. or_else y (new_resolution path)) here) settled (k s here)
