-- ===== src/Profile/Manual/Reads.antt =====
-- A value that is written by hand is read back.
use bike_doc.Prelude.{
  Bool, true, false, Option, none, some, List, [], ◌∷◌, ◌≡◌, ◌∙◌, arith, refl, Bool-cases,
  Option-cases, inl, inr, sym, ap, subst, or_else, eq_iff,
}
use bike_doc.Profile.Tree.{
  Json, null, text, number, flag, dict, is_null, is_dict, Path_, json_eq, technical_value,
}
use bike_doc.Profile.Tree.Keeps.{is_scalar}
use bike_doc.Profile.Projection.{path_eq}
use bike_doc.Profile.Claims.{
  Resolution, Bike, FieldDefinition, get_resolution, new_resolution, save_resolution, one_of,
}
use bike_doc.Profile.Claims.Found.{path_eq_sound, get-save_same, get-save_other}
use bike_doc.Profile.Gates.{is_path}
use bike_doc.Profile.Derived.{Derivation, resolution_at}
use bike_doc.Profile.Recompute.{recompute_derived}
use bike_doc.Profile.Recompute.Agrees.{
  HasDerived, HasPlainValues, plain_counts, Agrees-plain, scalar_plain,
}
use bike_doc.Profile.Recompute.Elsewhere.{IsOriginal, recompute_derived_reads}
use bike_doc.Profile.Recompute.Steps.{then_also-some}
use bike_doc.Profile.Resolver.Agrees.{IsFlat, Agrees, found_agrees}
use bike_doc.Profile.Resolver.Written.{written_reads}
use bike_doc.Profile.Revision.{Profile}
use bike_doc.Profile.Revision.Saves.{saved-some, put_bike}
use bike_doc.Profile.Manual.Writes.{IsProper, manual_outcome}
use bike_doc.Profile.Manual.{
  NewClaim, is_clear, apply_manual_claim, apply_each, apply_manual_claims,
}

scalar_sound : (j k : Json) → is_scalar k ≡ true → json_eq j k ≡ true → j ≡ k
unfolding json_eq
scalar_sound (text s) (text t) h e = ap text ((eq_iff s t).0 e)
scalar_sound (number m) (number n) h e = ap number (ground (arith, e))
scalar_sound (flag true) (flag true) h e = refl
scalar_sound (flag false) (flag false) h e = refl
scalar_sound (flag true) (flag false) h e = cc e
scalar_sound (flag false) (flag true) h e = cc e
scalar_sound j null h e = cc h
scalar_sound j (dict f) h e = cc h
scalar_sound null (text t) h e = cc e
scalar_sound null (number t) h e = cc e
scalar_sound null (flag t) h e = cc e
scalar_sound (text s) (number t) h e = cc e
scalar_sound (text s) (flag t) h e = cc e
scalar_sound (number s) (text t) h e = cc e
scalar_sound (number s) (flag t) h e = cc e
scalar_sound (flag s) (text t) h e = cc e
scalar_sound (flag s) (number t) h e = cc e
scalar_sound (dict s) (text t) h e = cc e
scalar_sound (dict s) (number t) h e = cc e
scalar_sound (dict s) (flag t) h e = cc e

pub scalar_null : (j : Json) → is_scalar j ≡ true → is_null j ≡ false
scalar_null null h = cc h
scalar_null (text s) h = refl
scalar_null (number n) h = refl
scalar_null (flag y) h = refl
scalar_null (dict f) h = refl

current_plain :
    (path : Path_) (b : Bike)
    → HasPlainValues b
    → is_dict (resolution_at path b).current_value ≡ false
current_plain path b h = elim (Option-cases (get_resolution path b.resolutions)) [
  | inl e ↦ ap (λ y. is_dict (or_else y (new_resolution path)).current_value) e
  | inr (s, e) ↦ ap (λ y. is_dict (or_else y (new_resolution path)).current_value) e ∙ h path s e
]

found_saved :
    (t s : Resolution) (q : Path_) (b b' : Bike)
    → b'.resolutions ≡ save_resolution t b.resolutions
    → path_eq t.field_path q ≡ true
    → get_resolution q b'.resolutions ≡ some s
    → s ≡ t
found_saved t s q b b' saved here f = cc (
  f,
  ap (λ y. get_resolution q y) saved,
  subst (λ y. get_resolution y (save_resolution t b.resolutions) ≡ some t)
      (path_eq_sound t.field_path q here) (get-save_same t b.resolutions),
)

saved_plain :
    (t : Resolution) (b b' : Bike)
    → b'.resolutions ≡ save_resolution t b.resolutions
    → is_dict t.current_value ≡ false
    → HasPlainValues b
    → HasPlainValues b'
saved_plain t b b' saved plain h q s f = elim (Bool-cases (path_eq t.field_path q)) [
  | inr other ↦
      h q s (
        sym (get-save_other t q b.resolutions other) ∙ sym (ap (λ y. get_resolution q y) saved) ∙ f)
  | inl here ↦
      ap (λ (y : Resolution). is_dict y.current_value) (found_saved t s q b b' saved here f) ∙ plain
]

-- No value becomes an object.
pub claim_plain :
    (x : Derivation) (c : NewClaim) (b b' : Bike) (w : Bool)
    → IsProper c
    → is_dict c.value ≡ false
    → HasPlainValues b
    → apply_manual_claim x c b ≡ some (w, b')
    → HasPlainValues b'
claim_plain x c b b' w proper plain h e = elim (manual_outcome x c b b' w proper e) [
  | inr (_, _, v) ↦ saved_plain _ b b' v.resolutions (ap is_dict v.value_at ∙ plain) h
  | inl (_, _, (_, inl same)) ↦ λ q s f. h q s (sym (ap (λ y. get_resolution q y) same) ∙ f)
  | inl (_, _, (_, inr (t, fact, _, saved))) ↦
      saved_plain t b b' saved (ap is_dict fact.0 ∙ current_plain c.field_path b h) h
]

module _ (x : Derivation) (c : NewClaim) (b b' : Bike) (w : Bool) (flat : IsFlat x.registry)
    (canonical : is_path x.registry c.field_path ≡ true) (edit : is_clear c ≡ false)
    (scalar : is_scalar c.value ≡ true) where
  edit-IsProper : IsProper c
  edit-IsProper h = cc (h, edit)

  -- An edit is read back.
  claim_reads :
      Agrees x.registry b
      → apply_manual_claim x c b ≡ some (w, b')
      → technical_value c.field_path b'.technical_profile ≡ c.value
  claim_reads before e = elim (manual_outcome x c b b' w edit-IsProper e) [
    | inr (_, _, v) ↦ written_reads c.field_path c.value _ b b' v flat canonical
    | inl (_, known, held) ↦
        let r = resolution_at c.field_path b in
        let same : r.current_value ≡ c.value =
          scalar_sound r.current_value c.value scalar (ground (arith, known, edit)) in
        ap (technical_value c.field_path) held.0
        ∙ (found_agrees x.registry c.field_path b b' before r canonical refl).agree
            (ap is_null same ∙ scalar_null c.value scalar)
        ∙ same
  ]

-- The fields as the canonical table has them, for writes by hand: the paths are leaves that part from
-- each other, the derived fields are among them and not written by hand, and a value is normalized to a
-- text, a number or a flag.
pub record IsManualTable (registry : List Path_) (definition : Path_ → Option FieldDefinition)
    (normalize : Path_ → Json → Option Json) : Type 0 where
  pub flat : IsFlat registry
  pub fields : HasDerived registry
  pub defined :
      (p : Path_) (d : FieldDefinition) → definition p ≡ some d → is_path registry p ≡ true
  pub original :
      (p : Path_) (d : FieldDefinition)
      → definition p ≡ some d
      → one_of ("derived" ∷ "user_managed" ∷ []) d.volatility_class ≡ false
      → IsOriginal p
  pub normal : (p : Path_) (value v : Json) → normalize p value ≡ some v → is_scalar v ≡ true

pub one_claim :
    (x : Derivation) (c : NewClaim) (b b' : Bike) (w : Bool)
    → apply_each x (c ∷ []) b ≡ some (w, b')
    → (u : Bool) × (apply_manual_claim x c b ≡ some (u, b'))
unfolding apply_each
one_claim x c b b' w e =
    let (u, b₁, v, e₁, e₂, _) =
      then_also-some (apply_manual_claim x c b) (apply_each x []) w b' e in
    let same : b₁ ≡ b' =
      ap (λ (y : Option (Bool × Bike)). elim y [ none ↦ b₁ | some z ↦ z.1 ]) e₂ in
    (u, e₁ ∙ ap (λ y. some (u, y)) same)

module _ (x : Derivation) (definition : Path_ → Option FieldDefinition)
    (normalize : Path_ → Json → Option Json)
    (table : IsManualTable x.registry definition normalize) where
  pub one_edit_reads :
      (c : NewClaim) (p p' : Profile) (w : Bool)
      → is_path x.registry c.field_path ≡ true
      → IsOriginal c.field_path
      → is_clear c ≡ false
      → is_scalar c.value ≡ true
      → Agrees x.registry p.bike
      → apply_manual_claims x (c ∷ []) p ≡ some (w, p')
      → technical_value c.field_path p'.bike.technical_profile ≡ c.value
  unfolding apply_manual_claims
  one_edit_reads c p p' w canonical original edit scalar before e =
      let (b', m, done) = saved-some x.now p _ w p' e in
      let (u, b₁, v, e₁, e₂, _) =
        then_also-some (apply_each x (c ∷ []) p.bike) (recompute_derived x) w b' m in
      let (t, f) = one_claim x c p.bike b₁ u e₁ in
      ap (λ (y : Bike). technical_value c.field_path y.technical_profile)
        (put_bike x.now p p' w b' done)
      ∙ recompute_derived_reads x c.field_path original table.flat table.fields canonical b₁ b' v
          (plain_counts x b₁ (
            claim_plain x c p.bike b₁ t (λ h. cc (h, edit)) (scalar_plain c.value (λ n. scalar))
              (Agrees-plain x.registry p.bike before) f))
          e₂
      ∙ claim_reads x c p.bike b₁ t table.flat canonical edit scalar before f
