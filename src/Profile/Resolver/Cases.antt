-- ===== src/Profile/Resolver/Cases.antt =====
-- The ways in which one round of the resolver's loop ends.
use bike_doc.Prelude.{
  ℕ, String, Bool, true, false, Option, none, some, ◌≡◌, ◌⊎◌, ◌∙◌, arith, refl, Bool-cases, inl,
  inr, if◌then◌else◌, sym, text_is,
}
use bike_doc.Profile.Tree.{json_eq}
use bike_doc.Profile.Claims.{
  Claim, Disposition, pending, applied, supporting, conflict, Confidence, Resolution, Bike,
  FieldDefinition, FieldPolicy, Resolver, save_resolution, one_of,
}
use bike_doc.Profile.Gates.{aside, eligible, verdict}
use bike_doc.Profile.Application.{apply_claim}
use bike_doc.Profile.Resolver.{
  judge, resolve_claim, note_claim, effective_confidence, can_supersede, current_is_unknown, is_low,
  changed, supported, disputed_by,
}

-- The value of a resolution with its source and its claim
abbrev pub SameFact : Resolution → Resolution → Type 0
SameFact r s =
    (s.current_value ≡ r.current_value)
    × (s.source_type ≡ r.source_type)
    × (s.current_claim_id ≡ r.current_claim_id)
    × (s.field_path ≡ r.field_path)

-- The profile keeps its projection, and the resolution that was judged at most its fact.
abbrev pub IsNoted : Resolution → Bool → Bike → Bike → Type 0
IsNoted r w b b' =
    (b'.technical_profile ≡ b.technical_profile)
    × (((w ≡ false) × (b'.resolutions ≡ b.resolutions))
        ⊎ ((s : Resolution) × SameFact r s
            × (w ≡ true)
            × (b'.resolutions ≡ save_resolution s b.resolutions)))

pub note_claim-IsNoted :
    (c : Claim) (d : Disposition) (reason : String) (change : Option Resolution) (r : Resolution)
    (b b' : Bike) (w : Bool)
    → ((s : Resolution) → change ≡ some s → SameFact r s)
    → ◌≡◌ {A = Option (Bool × Bike)} (some (note_claim c d reason change b)) (some (w, b'))
    → IsNoted r w b b'
unfolding note_claim
note_claim-IsNoted c d reason none r b b' w f e = (ground arith, inl (ground arith, ground arith))
note_claim-IsNoted c d reason (some s) r b b' w f e =
    (ground arith, inr (s, f s refl, ground arith, ground arith))

supported_change :
    (c : Claim) (confidence : Confidence) (r s : Resolution) (known : Bool)
    → (if known then none else some (supported c confidence r)) ≡ some s
    → SameFact r s
supported_change c confidence r s known e = ground arith

disputed_change :
    (c : Claim) (r s : Resolution) (known : Bool)
    → (if known then none else some (disputed_by c r)) ≡ some s
    → SameFact r s
disputed_change c r s known e = ground arith

-- The claim is applied, to a field without a value or over one that it may replace.
abbrev pub IsTaken :
    Resolver → Claim → FieldDefinition → FieldPolicy → ℕ → Resolution → Bool → Bike → Bike → Type 0
IsTaken x c d p score r w b b' =
    (reason : String) × (confidence : Confidence) × (w ≡ true)
    × (apply_claim x c reason confidence r b ≡ some b')
    × ((current_is_unknown r ≡ true) ⊎ (can_supersede d p score c r ≡ true))

changed_inversion :
    (o : Option Bike) (w : Bool) (b' : Bike) → changed o ≡ some (w, b') → (w ≡ true) × (o ≡ some b')
changed_inversion none w b' e = cc
changed_inversion (some b) w b' e = ground arith

module _ (x : Resolver) (c : Claim) (d : FieldDefinition) (p : FieldPolicy) (score : ℕ)
    (r : Resolution) (b : Bike) where
  judge_low :
      current_is_unknown r ≡ true
      → is_low (effective_confidence score p) ≡ true
      → judge x c d p score r b ≡ some (note_claim c pending "below_auto_fill_threshold" none b)
  unfolding judge
  judge_low u l = rw (u, judge) (rw l refl)

  judge_fill :
      current_is_unknown r ≡ true
      → is_low (effective_confidence score p) ≡ false
      → judge x c d p score r b
        ≡ changed (apply_claim x c "auto_fill_policy_satisfied" (effective_confidence score p) r b)
  unfolding judge
  judge_fill u l = rw (u, judge) (rw l refl)

  judge_current :
      current_is_unknown r ≡ false
      → text_is r.current_claim_id c.id ≡ true
      → judge x c d p score r b ≡ some (note_claim c applied "current_resolution_claim" none b)
  unfolding judge
  judge_current u h = rw (u, judge) (rw h refl)

  judge_supporting :
      current_is_unknown r ≡ false
      → text_is r.current_claim_id c.id ≡ false
      → json_eq c.value r.current_value ≡ true
      → judge x c d p score r b
        ≡ some (
            note_claim c supporting "matches_current_resolution"
              (if one_of r.supporting_claim_ids c.id
                then none
                else some (supported c (effective_confidence score p) r))
              b)
  unfolding judge
  judge_supporting u h v = rw (u, judge) (rw h (rw v refl))

  judge_replace :
      current_is_unknown r ≡ false
      → text_is r.current_claim_id c.id ≡ false
      → json_eq c.value r.current_value ≡ false
      → can_supersede d p score c r ≡ true
      → judge x c d p score r b
        ≡ changed (
            apply_claim x c "newer_installed_evidence_superseded_current"
              (effective_confidence score p)
              r
              b)
  unfolding judge
  judge_replace u h v k = rw (u, judge) (rw h (rw v (rw k refl)))

  judge_conflict :
      current_is_unknown r ≡ false
      → text_is r.current_claim_id c.id ≡ false
      → json_eq c.value r.current_value ≡ false
      → can_supersede d p score c r ≡ false
      → judge x c d p score r b
        ≡ some (
            note_claim c conflict "current_resolution_retained_by_field_policy"
              (if one_of r.conflicting_claim_ids c.id then none else some (disputed_by c r))
              b)
  unfolding judge
  judge_conflict u h v k = rw (u, judge) (rw h (rw v (rw k refl)))

  judge_known :
      (w : Bool) (b' : Bike)
      → current_is_unknown r ≡ false
      → text_is r.current_claim_id c.id ≡ false
      → judge x c d p score r b ≡ some (w, b')
      → IsNoted r w b b' ⊎ IsTaken x c d p score r w b b'
  judge_known w b' u h e = elim (Bool-cases (json_eq c.value r.current_value)) [
    | inl v ↦ inl (
        note_claim-IsNoted c supporting "matches_current_resolution" _ r b b' w
          (λ s f.
            supported_change c (effective_confidence score p) r s
              (one_of r.supporting_claim_ids c.id) f)
          (sym (judge_supporting u h v) ∙ e))
    | inr v ↦ elim (Bool-cases (can_supersede d p score c r)) [
      | inl k ↦ inr (
        "newer_installed_evidence_superseded_current",
        effective_confidence score p,
        (changed_inversion _ w b' (sym (judge_replace u h v k) ∙ e)).0,
        (changed_inversion _ w b' (sym (judge_replace u h v k) ∙ e)).1,
        inr k,
      )
      | inr k ↦ inl (
          note_claim-IsNoted c conflict "current_resolution_retained_by_field_policy" _ r b b' w
            (λ s f. disputed_change c r s (one_of r.conflicting_claim_ids c.id) f)
            (sym (judge_conflict u h v k) ∙ e))
    ]
  ]

  pub judge-cases :
      (w : Bool) (b' : Bike)
      → judge x c d p score r b ≡ some (w, b')
      → IsNoted r w b b' ⊎ IsTaken x c d p score r w b b'
  judge-cases w b' e = elim (Bool-cases (current_is_unknown r)) [
    | inl u ↦ elim (Bool-cases (is_low (effective_confidence score p))) [
      | inl l ↦ inl (
          note_claim-IsNoted c pending "below_auto_fill_threshold" none r b b' w (λ s f. cc f)
            (sym (judge_low u l) ∙ e))
      | inr l ↦ inr (
        "auto_fill_policy_satisfied",
        effective_confidence score p,
        (changed_inversion _ w b' (sym (judge_fill u l) ∙ e)).0,
        (changed_inversion _ w b' (sym (judge_fill u l) ∙ e)).1,
        inl u,
      )
    ]
    | inr u ↦ elim (Bool-cases (text_is r.current_claim_id c.id)) [
      | inl h ↦ inl (
          note_claim-IsNoted c applied "current_resolution_claim" none r b b' w (λ s f. cc f)
            (sym (judge_current u h) ∙ e))
      | inr h ↦ judge_known w b' u h e
    ]
  ]

pub resolve_aside :
    (x : Resolver) (c : Claim) (b : Bike) (d : Disposition) (reason : String)
    → verdict x c b ≡ aside d reason
    → resolve_claim x c b ≡ some (note_claim c d reason none b)
unfolding resolve_claim
resolve_aside x c b d reason e = rw (e, resolve_claim) refl

pub resolve_eligible :
    (x : Resolver) (c : Claim) (b : Bike) (d : FieldDefinition) (p : FieldPolicy) (n : ℕ)
    (r : Resolution)
    → verdict x c b ≡ eligible d p n r
    → resolve_claim x c b ≡ judge x c d p n r b
unfolding resolve_claim
resolve_eligible x c b d p n r e = rw (e, resolve_claim) refl
