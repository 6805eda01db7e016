-- ===== src/Profile/Manual/Stale.antt =====
-- A value that the projection lost while its resolution kept it.
use bike_doc.Prelude.{
  Bool, Option, none, List, [], ◌∷◌, All, inl, inr, true, false, some, ◌≡◌, ◌∙◌, ap, subst, or_else,
  arith, sym,
}
use bike_doc.Profile.Tree.{Json, Path_, null, is_dict, technical_value}
use bike_doc.Profile.Projection.{path_eq, with_technical_value}
use bike_doc.Profile.Claims.{Resolution, Bike, resolved, get_resolution, new_resolution}
use bike_doc.Profile.Derived.{Derivation, resolution_at}
use bike_doc.Profile.Recompute.Counts.{plain-json_eq}
use bike_doc.Profile.Claims.Found.{get-save_other}
use bike_doc.Profile.Derived.Updates.{resolution_at_path, written_elsewhere}
use bike_doc.Profile.Recompute.Steps.{then_also-some}
use bike_doc.Profile.Manual.Writes.{
  IsProper, IsHeld, manual_outcome, manual_resolution, is_known, claim_accepted, write_known,
}
use bike_doc.Profile.Manual.{NewClaim, is_clear, apply_manual_claim, apply_each}

resolved_known :
    (c : NewClaim) (r : Resolution)
    → r.resolution_state ≡ resolved
    → r.current_value ≡ c.value
    → is_dict c.value ≡ false
    → is_clear c ≡ false
    → is_known c r ≡ true
resolved_known c r state same plain edit =
    rw (edit, same, state) (ground (arith, plain-json_eq c.value plain))

held_elsewhere :
    (r : Resolution) (q : Path_) (b b' : Bike)
    → IsHeld r b b'
    → path_eq r.field_path q ≡ false
    → get_resolution q b'.resolutions ≡ get_resolution q b.resolutions
held_elsewhere r q b b' (_, inl same) h = ap (get_resolution q) same
held_elsewhere r q b b' (_, inr (s, fact, _, saved)) h =
    ap (get_resolution q) saved
    ∙ get-save_other s q b.resolutions (ap (λ y. path_eq y q) fact.3 ∙ h)

-- A proper claim on another field than the given one
abbrev pub IsElsewhere : Path_ → NewClaim → Type 0
IsElsewhere q c = IsProper c × (path_eq c.field_path q ≡ false)

-- A manual claim leaves the resolutions of the other fields as they are, also of those whose value it
-- takes from the projection.
claim_elsewhere :
    (x : Derivation) (c : NewClaim) (q : Path_) (b b' : Bike) (w : Bool)
    → IsElsewhere q c
    → apply_manual_claim x c b ≡ some (w, b')
    → get_resolution q b'.resolutions ≡ get_resolution q b.resolutions
claim_elsewhere x c q b b' w (proper, h) e = elim (manual_outcome x c b b' w proper e) [
  | inl (_, _, held) ↦
      held_elsewhere (resolution_at c.field_path b) q b b' held
        (ap (λ y. path_eq y q) (resolution_at_path c.field_path b) ∙ h)
  | inr (_, _, v) ↦
      written_elsewhere c.field_path c.value
        (manual_resolution x.now c (resolution_at c.field_path b)) q b b' v h
]

each_elsewhere :
    (x : Derivation) (cs : List NewClaim) (q : Path_) (b b' : Bike) (w : Bool)
    → All (IsElsewhere q) cs
    → apply_each x cs b ≡ some (w, b')
    → get_resolution q b'.resolutions ≡ get_resolution q b.resolutions
unfolding apply_each
each_elsewhere x [] q b b' w a e =
    ap
      (λ (y : Option (Bool × Bike)). elim y [
        | none ↦ get_resolution q b'.resolutions
        | some z ↦ get_resolution q z.1.resolutions
      ])
      (sym e)
each_elsewhere x (c ∷ cs) q b b' w a e =
    let (u, b₁, v, e₁, e₂, _) =
      then_also-some (apply_manual_claim x c b) (apply_each x cs) w b' e in
    each_elsewhere x cs q b₁ b' v a.1 e₂ ∙ claim_elsewhere x c q b b₁ u a.0 e₁

edit_found :
    (x : Derivation) (c : NewClaim) (b : Bike) (s : Resolution) (next : Json)
    → is_clear c ≡ false
    → is_dict c.value ≡ false
    → get_resolution c.field_path b.resolutions ≡ some s
    → s.resolution_state ≡ resolved
    → s.current_value ≡ c.value
    → with_technical_value x.registry b.technical_profile c.field_path c.value ≡ some next
    → (b' : Bike) × (apply_manual_claim x c b ≡ some (false, b'))
      × (b'.technical_profile ≡ b.technical_profile)
edit_found x c b s next edit plain e state same fits =
    let here : resolution_at c.field_path b ≡ s =
      ap (λ y. or_else y (new_resolution c.field_path)) e in
    let known : is_known c (resolution_at c.field_path b) ≡ true =
      subst (λ y. is_known c y ≡ true) (sym here) (resolved_known c s state same plain edit) in
    let (b', written, held) = write_known x.now c next b known in
    (b', claim_accepted x c b b' false next fits ∙ ap some written, held.0)

-- An edit is lost where the resolution of its field was resolved with that very value, and manual
-- claims on other fields have left the projection without it: the claims do not retire the resolution,
-- so that the edit succeeds, reports no change, and leaves the projection without the value. The value
-- is not an object, the projection would accept it, and the claims of clears have no value.
pub stale_edit_lost :
    (x : Derivation) (c : NewClaim) (cs : List NewClaim) (b b₁ : Bike) (w : Bool) (s : Resolution)
    (next : Json)
    → is_clear c ≡ false
    → is_dict c.value ≡ false
    → get_resolution c.field_path b.resolutions ≡ some s
    → s.resolution_state ≡ resolved
    → s.current_value ≡ c.value
    → All (IsElsewhere c.field_path) cs
    → apply_each x cs b ≡ some (w, b₁)
    → technical_value c.field_path b₁.technical_profile ≡ null
    → with_technical_value x.registry b₁.technical_profile c.field_path c.value ≡ some next
    → (b₂ : Bike) × (apply_manual_claim x c b₁ ≡ some (false, b₂))
      × (technical_value c.field_path b₂.technical_profile ≡ null)
stale_edit_lost x c cs b b₁ w s next edit plain e state same others applied missing fits =
    let kept : get_resolution c.field_path b₁.resolutions ≡ some s =
      each_elsewhere x cs c.field_path b b₁ w others applied ∙ e in
    let (b₂, f, profile) = edit_found x c b₁ s next edit plain kept state same fits in
    (b₂, f, ap (technical_value c.field_path) profile ∙ missing)
