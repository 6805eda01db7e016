-- ===== src/Profile/Gates.antt =====
-- The conditions of ProfileInferenceResolver.resolve (services/profile_inference_resolution.py) under
-- which a claim is set aside before it is judged.
use bike_doc.Prelude.{
  ℕ, String, Bool, false, not, ◌&&◌, ◌||◌, Option, none, some, List, [], ◌∷◌, ◌++◌, leb, str_eq,
  text_is, is_some, or_else, if◌then◌else◌, map,
}
use bike_doc.Profile.Tree.{Json, is_text, Path_, technical_value}
use bike_doc.Profile.Projection.{path_eq, ends_in, position_of, absence_dependents}
use bike_doc.Profile.Claims.{
  Disposition, pending, rejected, Claim, Resolution, Bike, FieldDefinition, FieldPolicy, Resolver,
  valid_field, active_policy_for, is_shadow, get_resolution, new_resolution,
}

-- What the gates make of a claim: set aside, with a disposition and its reason, or eligible, with the
-- definition and the policy of its field, its score and the resolution.
pub data Verdict : Type 0 where
  aside : Disposition → String → Verdict
  eligible : FieldDefinition → FieldPolicy → ℕ → Resolution → Verdict

-- ".name." is in the path.
abbrev pub is_inner : String → Path_ → Bool
is_inner name [] = false
is_inner name (p ∷ []) = false
is_inner name (p ∷ q ∷ []) = false
is_inner name (p ∷ q ∷ r ∷ ps) = str_eq q name || is_inner name (q ∷ r ∷ ps)

abbrev pub last_is : String → Path_ → Bool
last_is name [] = false
last_is name (p ∷ []) = str_eq p name
last_is name (p ∷ q ∷ ps) = last_is name (q ∷ ps)

-- _requires_resolved_disc_mechanism
abbrev pub requires_disc : Claim → Bool
requires_disc c =
    is_inner "rotor" c.field_path
    && not (ends_in "presence" c.field_path && is_text c.value "absent")

abbrev pub is_path : List Path_ → Path_ → Bool
is_path [] path = false
is_path (p ∷ ps) path = path_eq p path || is_path ps path

-- The prefixes of a path but itself.
abbrev pub proper_prefixes : Path_ → List Path_
proper_prefixes [] = []
proper_prefixes (p ∷ []) = []
proper_prefixes (p ∷ q ∷ ps) = (p ∷ []) ∷ map (λ qs. p ∷ qs) (proper_prefixes (q ∷ ps))

abbrev pub reads_absent : Json → Path_ → Bool
reads_absent j component = is_text (technical_value (component ++ "presence" ∷ []) j) "absent"

abbrev pub any_absent : List Path_ → Json → List Path_ → Bool
any_absent registry j [] = false
any_absent registry j (c ∷ cs) =
    (is_path registry (c ++ "presence" ∷ []) && reads_absent j c) || any_absent registry j cs

abbrev pub rear_shock : Path_
rear_shock = "suspension" ∷ "rear_shock" ∷ []

-- _component_presence_is_absent
unfoldable pub component_is_absent : List Path_ → Json → Path_ → Bool
unfolding technical_value
component_is_absent registry j path =
    not (last_is "presence" path)
    && (any_absent registry j (proper_prefixes path)
        || (is_path (absence_dependents rear_shock) path && reads_absent j rear_shock))

-- claim_is_blocked_by_clear_barrier
abbrev pub is_blocked : Claim → Resolution → Bool
is_blocked c r = elim r.manual_clear_barrier_at [
  | none ↦ false
  | some barrier ↦ leb c.observed_at barrier
]

-- _is_eligible_installed_claim, but for the policy and the score
abbrev pub is_installed : Claim → Bool
is_installed c =
    text_is c.scope_assumption "installed_on_target_bike"
    && is_some c.evidence_basis
    && text_is c.visibility "clear"

-- _pending_reason
abbrev pub pending_reason : Claim → Option FieldPolicy → String
pending_reason c p =
    if not (is_some p)
    then "no_active_field_policy"
    else if not (text_is c.scope_assumption "installed_on_target_bike")
    then "not_installed_on_target_bike"
    else if not (text_is c.visibility "clear")
    then "visibility_not_clear"
    else if not (text_is c.evidence_basis "direct_visual")
    then "evidence_not_direct_visual"
    else "below_auto_fill_threshold"

-- The last gate: an installed claim with a policy and a score is eligible.
unfoldable pub installed_verdict :
    FieldDefinition → Option FieldPolicy → Claim → Resolution → Verdict
installed_verdict d none c r = aside pending (pending_reason c none)
installed_verdict d (some p) c r = elim c.model_score [
  | none ↦ aside pending (pending_reason c (some p))
  | some score ↦
      if is_installed c then eligible d p score r else aside pending (pending_reason c (some p))
]

-- The gates in their order.
unfoldable pub verdict : Resolver → Claim → Bike → Verdict
unfolding valid_field component_is_absent get_resolution installed_verdict active_policy_for
verdict x c b = elim (valid_field x c) [
  | none ↦ aside rejected "invalid_field_scope_or_evidence"
  | some d ↦
      let r : Resolution =
        or_else (get_resolution c.field_path b.resolutions) (new_resolution c.field_path) in
      if requires_disc c
        && not (
            is_text
              (technical_value ("brakes" ∷ position_of c.field_path ∷ "mechanism" ∷ [])
                b.technical_profile)
              "disc")
      then aside pending "disc_mechanism_not_resolved"
      else if component_is_absent x.registry b.technical_profile c.field_path
      then aside pending "component_is_resolved_absent"
      else if is_shadow x.mode
      then aside pending "shadow_policy"
      else if is_blocked c r
      then aside pending "observed_before_manual_clear_barrier"
      else installed_verdict d (active_policy_for x d c) c r
]
