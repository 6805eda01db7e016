-- ===== src/Profile/Recompute/Counts.antt =====
-- Computing a drivetrain count again changes nothing.
use bike_doc.Prelude.{
  Bool, true, false, not, ◌&&◌, some, List, [], ◌∷◌, ◌≡◌, ◌∙◌, refl, arith, Bool-cases, inl, inr,
  ap, is_some, All, eq_refl,
}
use bike_doc.Profile.Tree.{Json, null, text, number, flag, dict, is_null, is_dict, Path_, json_eq}
use bike_doc.Profile.Claims.{Resolution, Bike, get_resolution}
use bike_doc.Profile.Derived.{
  Derivation, is_resolved, sources_of, open_conflicts, is_unset_as, resolution_at, any_disputed,
}
use bike_doc.Profile.Derived.Again.{SameElsewhere, updated_elsewhere, updated_rests}
use bike_doc.Profile.Derived.Settled.{rests, update_settled, update-IsUpdated, IsUpdated}
use bike_doc.Profile.Recompute.Again.{SameAt, sources_same}
use bike_doc.Profile.Recompute.{agreed, values_of, is_value_in, recompute_count}

-- Values that are no objects
abbrev pub ArePlain : List Resolution → Type 0
ArePlain rs = All (λ r. is_dict r.current_value ≡ false) rs

abbrev pub PlainValues : List Json → Type 0
PlainValues js = All (λ j. is_dict j ≡ false) js

pub plain-json_eq : (j : Json) → is_dict j ≡ false → json_eq j j ≡ true
unfolding json_eq
plain-json_eq null h = refl
plain-json_eq (text s) h = eq_refl s
plain-json_eq (number n) h = ground arith
plain-json_eq (flag true) h = refl
plain-json_eq (flag false) h = refl
plain-json_eq (dict f) h = cc

pub plain_values : (rs : List Resolution) → ArePlain rs → PlainValues (values_of rs)
plain_values [] p = tt
plain_values (r ∷ rs) p =
    elim (Bool-cases (
      is_resolved r.resolution_state
      && not (is_null r.current_value)
      && not (is_value_in r.current_value (values_of rs)))) [
        | inl h ↦ rw h (p.0, plain_values rs p.1)
        | inr h ↦ rw h (plain_values rs p.1)
      ]

pub plain_agreed : (d : Bool) (js : List Json) → PlainValues js → is_dict (agreed d js).0 ≡ false
plain_agreed d [] p = refl
plain_agreed true (j ∷ []) p = refl
plain_agreed false (j ∷ []) p = p.0
plain_agreed d (j ∷ k ∷ js) p = refl

-- What the sources say of the count
abbrev pub tallied : List Resolution → Json × Bool
tallied sources = agreed (any_disputed sources) (values_of sources)

module _ (x : Derivation) (path : Path_) (source_paths : List Path_) where
  pub count_keeps : List Resolution → Bike → Bool
  count_keeps sources b =
      is_some (get_resolution path b.resolutions)
      && is_unset_as (tallied sources).1 (open_conflicts (tallied sources).1 sources)
          (resolution_at path b)

  -- Whether the count stays as it is, with these sources
  pub rests_with : List Resolution → Bike → Bool
  unfolding count_keeps
  rests_with sources b =
      rests x path (tallied sources).0 (tallied sources).1
        "derived_from_resolved_drivetrain_components" true (count_keeps sources b) sources b

  abbrev pub count_rests : Bike → Bool
  count_rests b = rests_with (sources_of source_paths b.resolutions) b

  -- The sources of the count are no objects.
  abbrev pub ArePlainSources : Bike → Type 0
  ArePlainSources b = ArePlain (sources_of source_paths b.resolutions)

  pub count_rested :
      (b : Bike) → count_rests b ≡ true → recompute_count x path source_paths b ≡ some (false, b)
  unfolding recompute_count rests_with count_keeps
  count_rested b h =
      let sources = sources_of source_paths b.resolutions in
      update_settled x path (tallied sources).0 (tallied sources).1
        "derived_from_resolved_drivetrain_components" true (count_keeps sources b) sources b h

  pub count_rests_same :
      (b b' : Bike) → SameAt (path ∷ source_paths) b b' → count_rests b' ≡ count_rests b
  unfolding rests_with count_keeps
  count_rests_same b b' s = rw (s.0, sources_same source_paths b b' s.1) refl

  pub count_IsUpdated :
      (b : Bike) (w : Bool) (b' : Bike)
      → ArePlainSources b
      → recompute_count x path source_paths b ≡ some (w, b')
      → IsUpdated x path
          (tallied (sources_of source_paths b.resolutions)).0
          (tallied (sources_of source_paths b.resolutions)).1
          "derived_from_resolved_drivetrain_components"
          true
          (count_keeps (sources_of source_paths b.resolutions) b)
          (sources_of source_paths b.resolutions)
          b
          w
          b'
  unfolding recompute_count count_keeps
  count_IsUpdated b w b' plain e =
      let sources = sources_of source_paths b.resolutions in
      update-IsUpdated x path (tallied sources).0 (tallied sources).1
        "derived_from_resolved_drivetrain_components" true (count_keeps sources b) sources b w b'
        (λ n.
          plain-json_eq (tallied sources).0
            (plain_agreed (any_disputed sources) (values_of sources) (plain_values sources plain)))
        e

  pub count_elsewhere :
      (b : Bike) (w : Bool) (b' : Bike)
      → ArePlainSources b
      → recompute_count x path source_paths b ≡ some (w, b')
      → SameElsewhere path b b'
  count_elsewhere b w b' plain e =
      let sources = sources_of source_paths b.resolutions in
      updated_elsewhere x path (tallied sources).0 (tallied sources).1
        "derived_from_resolved_drivetrain_components" true (count_keeps sources b) sources b w b'
        (count_IsUpdated b w b' plain e)

  rests_with_same :
      (b b' : Bike)
      → SameAt source_paths b b'
      → count_rests b' ≡ rests_with (sources_of source_paths b.resolutions) b'
  rests_with_same b b' s = ap (λ y. rests_with y b') (sources_same source_paths b b' s)

  keeps_unset :
      (sources : List Resolution) (b' : Bike) (s : Resolution)
      → get_resolution path b'.resolutions ≡ some s
      → is_unset_as (tallied sources).1 (open_conflicts (tallied sources).1 sources) s ≡ true
      → count_keeps sources b' ≡ true
  unfolding count_keeps
  keeps_unset sources b' s e h = rw e h

  -- A count that was computed rests.
  pub count_again :
      (b : Bike) (w : Bool) (b' : Bike)
      → ArePlainSources b
      → (SameElsewhere path b b' → SameAt source_paths b b')
      → recompute_count x path source_paths b ≡ some (w, b')
      → count_rests b' ≡ true
  unfolding rests_with
  count_again b w b' plain apart e =
      let sources = sources_of source_paths b.resolutions in
      rests_with_same b b' (apart (count_elsewhere b w b' plain e))
      ∙ updated_rests x path (tallied sources).0 (tallied sources).1
          "derived_from_resolved_drivetrain_components" true (count_keeps sources b) sources b w
          (count_keeps sources b') b' (count_IsUpdated b w b' plain e)
          (λ same. ap (count_keeps sources) same) (λ s here h. keeps_unset sources b' s here h)
