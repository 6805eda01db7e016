-- ===== src/Profile/Resolver/Passed.antt =====
-- What the gates of the resolver have found of a claim that passed them.
use bike_doc.Prelude.{
  ℕ, String, Bool, true, false, not, ◌&&◌, Option, none, some, [], ◌∷◌, ◌≡◌, ◌∙◌, arith, refl,
  Option-cases, inl, inr, if◌then◌else◌, sym, ap, subst, or_else,
}
use bike_doc.Profile.Tree.{is_text, technical_value}
use bike_doc.Profile.Projection.{position_of}
use bike_doc.Profile.Claims.{
  Claim, Resolution, Bike, FieldDefinition, FieldPolicy, Resolver, get_resolution, new_resolution,
  active_policy_for, valid_field, is_shadow, pending,
}
use bike_doc.Profile.Claims.Found.{get_resolution_path}
use bike_doc.Profile.Gates.{
  Verdict, aside, eligible, verdict, installed_verdict, is_installed, is_blocked, requires_disc,
  component_is_absent,
}

-- What an eligible claim has passed.
pub record IsEligible (x : Resolver) (c : Claim) (b : Bike) (d : FieldDefinition) (p : FieldPolicy)
    (score : ℕ) (r : Resolution) : Type 0 where
  pub definition : x.definition c.field_path ≡ some d
  pub value : x.accepts c.field_path c.value ≡ true
  pub policy : active_policy_for x d c ≡ some p
  pub model_score : c.model_score ≡ some score
  pub installed : is_installed c ≡ true
  pub enabled : is_shadow x.mode ≡ false
  pub unblocked : is_blocked c r ≡ false
  pub resolution :
      r ≡ or_else (get_resolution c.field_path b.resolutions) (new_resolution c.field_path)

abbrev resolution_of : Claim → Bike → Resolution
resolution_of c b =
    or_else (get_resolution c.field_path b.resolutions) (new_resolution c.field_path)

valid_definition :
    (x : Resolver) (c : Claim) (d : FieldDefinition)
    → valid_field x c ≡ some d
    → x.definition c.field_path ≡ some d
unfolding valid_field
valid_definition x c d e = ground arith

valid_value :
    (x : Resolver) (c : Claim) (d : FieldDefinition)
    → valid_field x c ≡ some d
    → x.accepts c.field_path c.value ≡ true
unfolding valid_field
valid_value x c d e = ground arith

-- The last three gates, after those of the projection.
passed :
    (disc absent off late : Bool) (v : Verdict) (d : FieldDefinition) (p : FieldPolicy) (n : ℕ)
    (r : Resolution)
    → (if disc
        then aside pending "disc_mechanism_not_resolved"
        else if absent
        then aside pending "component_is_resolved_absent"
        else if off
        then aside pending "shadow_policy"
        else if late
        then aside pending "observed_before_manual_clear_barrier"
        else v)
      ≡ eligible d p n r
    → (off ≡ false) × (late ≡ false) × (v ≡ eligible d p n r)
passed disc absent off late v d p n r e = ground arith

installed_passed :
    (d' : FieldDefinition) (o : Option FieldPolicy) (c : Claim) (r' : Resolution)
    (d : FieldDefinition) (p : FieldPolicy) (n : ℕ) (r : Resolution)
    → installed_verdict d' o c r' ≡ eligible d p n r
    → (d' ≡ d) × (o ≡ some p) × (c.model_score ≡ some n) × (is_installed c ≡ true) × (r' ≡ r)
unfolding installed_verdict
installed_passed d' none c r' d p n r e = ground arith
installed_passed d' (some p') c r' d p n r e = ground arith

verdict_found :
    (x : Resolver) (c : Claim) (b : Bike) (d : FieldDefinition)
    → valid_field x c ≡ some d
    → verdict x c b ≡ (
        if requires_disc c
          && not (
              is_text
                (technical_value
                  ("brakes" ∷ position_of c.field_path ∷ "mechanism" ∷ [])
                  b.technical_profile)
                "disc")
        then aside pending "disc_mechanism_not_resolved"
        else if component_is_absent x.registry b.technical_profile c.field_path
        then aside pending "component_is_resolved_absent"
        else if is_shadow x.mode
        then aside pending "shadow_policy"
        else if is_blocked c (resolution_of c b)
        then aside pending "observed_before_manual_clear_barrier"
        else installed_verdict d (active_policy_for x d c) c (resolution_of c b))
unfolding verdict
verdict_found x c b d e = rw (e, verdict) refl

verdict_invalid :
    (x : Resolver) (c : Claim) (b : Bike)
    → valid_field x c ≡ none
    → (reason : String) × (d : _) × (verdict x c b ≡ aside d reason)
unfolding verdict
verdict_invalid x c b e = rw (e, verdict) (_, _, refl)

pub verdict-IsEligible :
    (x : Resolver) (c : Claim) (b : Bike) (d : FieldDefinition) (p : FieldPolicy) (n : ℕ)
    (r : Resolution)
    → verdict x c b ≡ eligible d p n r
    → IsEligible x c b d p n r
verdict-IsEligible x c b d p n r e = elim (Option-cases (valid_field x c)) [
  | inl v ↦ absurd (let (_, _, y) = verdict_invalid x c b v in cc (e, y))
  | inr (d', v) ↦
      let (off, late, y) =
        passed _ (component_is_absent x.registry b.technical_profile c.field_path)
          (is_shadow x.mode) (is_blocked c (resolution_of c b))
          (installed_verdict d' (active_policy_for x d' c) c (resolution_of c b)) d p n r
          (sym (verdict_found x c b d' v) ∙ e) in
      let (same, policy, score, installed, at) =
        installed_passed d' (active_policy_for x d' c) c (resolution_of c b) d p n r y in
      record {
        definition = valid_definition x c d' v ∙ ap some same;
        value = valid_value x c d' v;
        policy = subst (λ y. active_policy_for x y c ≡ some p) same policy;
        model_score = score;
        installed = installed;
        enabled = off;
        unblocked = subst (λ y. is_blocked c y ≡ false) at late;
        resolution = sym at;
      }
]

pub eligible_path :
    (x : Resolver) (c : Claim) (b : Bike) (d : FieldDefinition) (p : FieldPolicy) (n : ℕ)
    (r : Resolution)
    → IsEligible x c b d p n r
    → r.field_path ≡ c.field_path
eligible_path x c b d p n r v = elim (Option-cases (get_resolution c.field_path b.resolutions)) [
  | inl e ↦
      ap (λ (y : Resolution). y.field_path)
        (v.resolution ∙ ap (λ y. or_else y (new_resolution c.field_path)) e)
  | inr (s, e) ↦
      ap (λ (y : Resolution). y.field_path)
        (v.resolution ∙ ap (λ y. or_else y (new_resolution c.field_path)) e)
      ∙ get_resolution_path c.field_path b.resolutions s e
]

-- A claim is judged against the resolution of its field.
pub eligible_found :
    (x : Resolver) (c : Claim) (b : Bike) (d : FieldDefinition) (p : FieldPolicy) (n : ℕ)
    (r s : Resolution)
    → IsEligible x c b d p n r
    → get_resolution c.field_path b.resolutions ≡ some s
    → r ≡ s
eligible_found x c b d p n r s v e =
    v.resolution ∙ ap (λ y. or_else y (new_resolution c.field_path)) e
