-- ===== src/Profile/Policies/Deployed.antt =====
-- What from_deployment makes active.
use bike_doc.Prelude.{
  ℕ, String, Bool, true, false, not, ◌&&◌, Option, none, some, List, [], ◌∷◌, ◌≡◌, ◌∙◌, arith, refl,
  sym, ap, Bool-cases, Option-cases, inl, inr, if◌then◌else◌, All, str_eq, eq_iff,
}
use bike_doc.Profile.Tree.{Path_}
use bike_doc.Profile.Claims.Found.{path_eq_sound}
use bike_doc.Profile.Claims.{shadow, provisional, evaluated, is_promoted, is_fit, one_of}
use bike_doc.Profile.Policies.{
  RegisteredField, Entry, has_key, find_entry, is_configured, configured_error, Active, active,
  raised, active_policies, activate, field_error, PolicyError, not_canonical, PolicyResult, loaded,
  invalid, unknown_mode, from_deployment, bootstrap_v1,
}

-- The field takes policies for images, and the evidence class is permitted and fits it.
abbrev pub is_admissible : (Path_ → Option RegisteredField) → Entry → Bool
is_admissible fields e = elim (fields e.field_path) [
  | none ↦ false
  | some f ↦
      one_of f.definition.permitted_evidence_bases e.evidence_class
      && is_fit f.definition e.evidence_class
      && f.image_auto_fill
]

-- The entry, if it is promoted
abbrev pub promoted_of : Option Entry → Option Entry
promoted_of none = none
promoted_of (some e) = if is_promoted e.policy then some e else none

passed_field :
    (dup : Bool) (f : RegisteredField) (basis : String)
    → field_error dup f basis ≡ none
    → (dup ≡ false)
      × ((one_of f.definition.permitted_evidence_bases basis
            && is_fit f.definition basis
            && f.image_auto_fill)
          ≡ true)
passed_field dup f basis h = ground arith

active_of : (es found : List Entry) → active es ≡ active found → found ≡ es
active_of es found h = ap (λ (y : Active). elim y [ active z ↦ z | raised _ ↦ es ]) (sym h)

activated :
    (o : Option PolicyError) (e : Entry) (rest : Active) (found : List Entry)
    → activate o e rest ≡ active found
    → (es : List Entry) × (o ≡ none)
      × (rest ≡ active es)
      × (found ≡ (if is_promoted e.policy then e ∷ es else es))
activated (some error) e rest found h = cc h
activated none e (raised error) found h = cc h
activated none e (active es) found h = (es, refl, refl, active_of _ found h)

key_sound :
    (path : Path_) (basis : String) (e : Entry)
    → has_key path basis e ≡ true
    → (e.field_path ≡ path) × (e.evidence_class ≡ basis)
key_sound path basis e h = (
  path_eq_sound e.field_path path (ground (arith, h)),
  (eq_iff e.evidence_class basis).0 (ground (arith, h)),
)

find_other :
    (path : Path_) (basis : String) (e : Entry) (es : List Entry)
    → has_key path basis e ≡ false
    → find_entry path basis (e ∷ es) ≡ find_entry path basis es
unfolding find_entry
find_other path basis e es k = rw k refl

find_skip :
    (path : Path_) (basis : String) (e : Entry) (es : List Entry)
    → has_key path basis e ≡ false
    → find_entry path basis (if is_promoted e.policy then e ∷ es else es) ≡ find_entry path basis es
find_skip path basis e es k = elim (Bool-cases (is_promoted e.policy)) [
  | inl h ↦ rw h (find_other path basis e es k)
  | inr h ↦ rw h refl
]

module _ (fields : Path_ → Option RegisteredField) where
  unknown_field :
      (seen : List Entry) (e : Entry)
      → fields e.field_path ≡ none
      → configured_error fields seen e ≡ some not_canonical
  unfolding configured_error
  unknown_field seen e n = rw (n, configured_error) refl

  known_field :
      (seen : List Entry) (e : Entry) (f : RegisteredField)
      → fields e.field_path ≡ some f
      → configured_error fields seen e
        ≡ field_error (is_configured e.field_path e.evidence_class seen) f e.evidence_class
  unfolding configured_error
  known_field seen e f n = rw (n, configured_error) refl

  passed :
      (seen : List Entry) (e : Entry)
      → configured_error fields seen e ≡ none
      → (is_configured e.field_path e.evidence_class seen ≡ false) × (is_admissible fields e ≡ true)
  passed seen e h = elim (Option-cases (fields e.field_path)) [
    | inl n ↦ cc (h, unknown_field seen e n)
    | inr (f, n) ↦
        let (new, fits) =
          passed_field (is_configured e.field_path e.evidence_class seen) f e.evidence_class
            (sym (known_field seen e f n) ∙ h) in
        (new, rw (n, is_admissible) fits)
  ]

  next_active :
      (seen es found : List Entry) (e : Entry)
      → active_policies fields seen (e ∷ es) ≡ active found
      → (rest : List Entry) × (configured_error fields seen e ≡ none)
        × (active_policies fields (e ∷ seen) es ≡ active rest)
        × (found ≡ (if is_promoted e.policy then e ∷ rest else rest))
  unfolding active_policies
  next_active seen es found e h =
      activated (configured_error fields seen e) e (active_policies fields (e ∷ seen) es) found h

  -- A key that was seen is not that of the next policy.
  next_key :
      (path : Path_) (basis : String) (seen : List Entry) (e : Entry)
      → is_configured path basis seen ≡ true
      → is_configured e.field_path e.evidence_class seen ≡ false
      → has_key path basis e ≡ false
  next_key path basis seen e k free = elim (Bool-cases (has_key path basis e)) [
    | inr h ↦ h
    | inl h ↦
        let (p, b) = key_sound path basis e h in
        cc (
          k,
          free,
          ap (λ y. is_configured y e.evidence_class seen) p,
          ap (λ y. is_configured path y seen) b,
        )
  ]

  seen_absent :
      (path : Path_) (basis : String) (seen es found : List Entry)
      → is_configured path basis seen ≡ true
      → active_policies fields seen es ≡ active found
      → find_entry path basis found ≡ none
  unfolding active_policies find_entry
  seen_absent path basis seen [] found k h = ap (find_entry path basis) (active_of [] found h)
  seen_absent path basis seen (e ∷ es) found k h =
      let (rest, free, later, is) = next_active seen es found e h in
      ap (find_entry path basis) is
      ∙ find_skip path basis e rest (next_key path basis seen e k (passed seen e free).0)
      ∙ seen_absent path basis (e ∷ seen) es rest (ground (arith, k)) later

  found_here :
      (path : Path_) (basis : String) (seen es rest : List Entry) (e : Entry)
      → has_key path basis e ≡ true
      → active_policies fields (e ∷ seen) es ≡ active rest
      → find_entry path basis (if is_promoted e.policy then e ∷ rest else rest)
        ≡ promoted_of (find_entry path basis (e ∷ es))
  unfolding find_entry
  found_here path basis seen es rest e k later = elim (Bool-cases (is_promoted e.policy)) [
    | inl h ↦ rw (k, h) (rw k refl)
    | inr h ↦ rw (k, h) (seen_absent path basis (e ∷ seen) es rest (ground (arith, k)) later)
  ]

  active_found :
      (path : Path_) (basis : String) (seen es found : List Entry)
      → active_policies fields seen es ≡ active found
      → find_entry path basis found ≡ promoted_of (find_entry path basis es)
  unfolding active_policies find_entry
  active_found path basis seen [] found h = ap (find_entry path basis) (active_of [] found h)
  active_found path basis seen (e ∷ es) found h =
      let (rest, free, later, is) = next_active seen es found e h in
      ap (find_entry path basis) is ∙ elim (Bool-cases (has_key path basis e)) [
        | inl k ↦ found_here path basis seen es rest e k later
        | inr k ↦
            find_skip path basis e rest k
            ∙ active_found path basis (e ∷ seen) es rest later
            ∙ ap promoted_of (sym (find_other path basis e es k))
      ]

  All-admissible :
      (seen es found : List Entry)
      → active_policies fields seen es ≡ active found
      → All (λ e. is_admissible fields e ≡ true) es
  unfolding active_policies
  All-admissible seen [] found h = tt
  All-admissible seen (e ∷ es) found h =
      let (rest, free, later, is) = next_active seen es found e h in
      ((passed seen e free).1, All-admissible (e ∷ seen) es rest later)

abbrev is_evaluating : PolicyResult → Bool
is_evaluating (loaded evaluated es) = true
is_evaluating _ = false

deployed :
    (is_off is_bootstrap is_known : Bool) (bundle : List Entry) (r : Active) (found : List Entry)
    → (if is_off
        then loaded shadow []
        else if is_bootstrap
        then loaded provisional bundle
        else if not is_known
        then invalid unknown_mode
        else elim r [ raised error ↦ invalid error | active es ↦ loaded evaluated es ])
      ≡ loaded evaluated found
    → r ≡ active found
deployed true b k bundle r found h = cc (ap is_evaluating h)
deployed false true k bundle r found h = cc (ap is_evaluating h)
deployed false false false bundle r found h = cc h
deployed false false true bundle (raised error) found h = cc h
deployed false false true bundle (active es) found h =
    ap (λ (y : PolicyResult). elim y [ loaded _ z ↦ active z | invalid _ ↦ active es ]) h

-- An evaluated deployment is safe by construction: if it loads, every configured policy is admissible,
-- that is on a canonical field that takes values from images, for an evidence class that is permitted
-- and fits the field; and the policy that is active for a field and an evidence class is the one
-- configured for them, if it is promoted, has passed the precision gate and the regression evidence
-- and has an accepted baseline, and none otherwise.
pub from_deployment_active :
    (unit : ℕ) (registry : List (Path_ × RegisteredField)) (fields : Path_ → Option RegisteredField)
    (mode : String) (es found : List Entry)
    → from_deployment unit registry fields mode es ≡ loaded evaluated found
    → All (λ e. is_admissible fields e ≡ true) es
      × ((path : Path_) (basis : String)
          → find_entry path basis found ≡ promoted_of (find_entry path basis es))
unfolding from_deployment
from_deployment_active unit registry fields mode es found h =
    let r =
      deployed (str_eq mode "shadow") (str_eq mode "bootstrap-v1")
        (one_of ("evaluated" ∷ "production" ∷ []) mode) (bootstrap_v1 unit registry)
        (active_policies fields [] es) found h in
    (
      All-admissible fields [] es found r,
      λ path basis. active_found fields path basis [] es found r,
    )
