-- ===== src/Profile/Manual/Accepted.antt =====
-- When a manual value is accepted, and what is then read.
use bike_doc.Prelude.{
  String, Bool, true, false, Option, none, some, [], ◌∷◌, ◌≡◌, ◌∙◌, refl, Bool-cases, Option-cases,
  inl, inr, if◌then◌else◌, sym, ap,
}
use bike_doc.Profile.Tree.{Json, null, is_null, Path_, technical_value}
use bike_doc.Profile.Claims.{FieldDefinition, one_of}
use bike_doc.Profile.Derived.{Derivation}
use bike_doc.Profile.Resolver.Agrees.{Agrees}
use bike_doc.Profile.Revision.{Profile}
use bike_doc.Profile.Manual.Reads.{IsManualTable, one_edit_reads}
use bike_doc.Profile.Manual.{
  is_clear, apply_manual_claims, new_manual_claim, set_manual_technical_value, unknown_field,
  read_only, invalid_value, invalid_profile, ManualResult, wrote, failed,
}

module _ (x : Derivation) (definition : Path_ → Option FieldDefinition)
    (normalize : Path_ → Json → Option Json) (id : String) (path : Path_) (value : Json)
    (correction : Bool) (p : Profile) where
  abbrev written : ManualResult
  written = set_manual_technical_value x definition normalize id path value correction p

  -- The value in its normal form; a clear has none.
  abbrev pub normal : Option Json
  normal = if is_null value then some null else normalize path value

  abbrev pub is_locked : FieldDefinition → Bool
  is_locked d = one_of ("derived" ∷ "user_managed" ∷ []) d.volatility_class

  set_unknown : definition path ≡ none → written ≡ failed unknown_field
  unfolding set_manual_technical_value
  set_unknown e = rw (e, set_manual_technical_value) refl

  set_locked :
      (d : FieldDefinition)
      → definition path ≡ some d
      → is_locked d ≡ true
      → written ≡ failed read_only
  unfolding set_manual_technical_value
  set_locked d e l = rw (e, set_manual_technical_value) (rw l refl)

  set_invalid :
      (d : FieldDefinition)
      → definition path ≡ some d
      → is_locked d ≡ false
      → normal ≡ none
      → written ≡ failed invalid_value
  unfolding set_manual_technical_value
  set_invalid d e l n = rw (e, set_manual_technical_value) (rw l (rw n refl))

  set_refused :
      (d : FieldDefinition) (v : Json)
      → definition path ≡ some d
      → is_locked d ≡ false
      → normal ≡ some v
      → apply_manual_claims x (new_manual_claim id path value v correction ∷ []) p ≡ none
      → written ≡ failed invalid_profile
  unfolding set_manual_technical_value
  set_refused d v e l n a = rw (e, set_manual_technical_value) (rw l (rw n (rw a refl)))

  set_accepted :
      (d : FieldDefinition) (v : Json) (w : Bool) (p' : Profile)
      → definition path ≡ some d
      → is_locked d ≡ false
      → normal ≡ some v
      → apply_manual_claims x (new_manual_claim id path value v correction ∷ []) p ≡ some (w, p')
      → written ≡ wrote p'
  unfolding set_manual_technical_value
  set_accepted d v w p' e l n a = rw (e, set_manual_technical_value) (rw l (rw n (rw a refl)))

  -- What an accepted value has passed.
  pub set-wrote :
      (p' : Profile)
      → written ≡ wrote p'
      → (d : FieldDefinition) × (v : Json) × (w : Bool) × (definition path ≡ some d)
        × (is_locked d ≡ false)
        × (normal ≡ some v)
        × (apply_manual_claims x (new_manual_claim id path value v correction ∷ []) p
            ≡ some (w, p'))
  set-wrote p' e = elim (Option-cases (definition path)) [
    | inl f ↦ cc (e, set_unknown f)
    | inr (d, f) ↦ elim (Bool-cases (is_locked d)) [
      | inl l ↦ cc (e, set_locked d f l)
      | inr l ↦ elim (Option-cases normal) [
        | inl g ↦ cc (e, set_invalid d f l g)
        | inr (v, g) ↦
            elim (Option-cases
              (apply_manual_claims x (new_manual_claim id path value v correction ∷ []) p)) [
                | inl a ↦ cc (e, set_refused d v f l g a)
                | inr ((w, p''), a) ↦
                    let same : p'' ≡ p' = cc (e, set_accepted d v w p'' f l g a) in
                    (d, v, w, f, l, g, a ∙ ap (λ y. some (w, y)) same)
              ]
      ]
    ]
  ]

  edit_normal : (v : Json) → is_null value ≡ false → normal ≡ some v → normalize path value ≡ some v
  edit_normal v n g = sym (rw n refl) ∙ g

edit_claim :
    (id : String) (path : Path_) (value v : Json) (correction : Bool)
    → is_null value ≡ false
    → is_clear (new_manual_claim id path value v correction) ≡ false
edit_claim id path value v correction n = rw n refl

-- A value that is written by hand and accepted is read back in its normal form, after the derived facts
-- are computed too. The resolutions agreed with the projection before; the canonical paths are leaves
-- that part from each other, the derived fields are among them and are not written by hand, and a
-- value is normalized to a text, a number or a flag.
pub manual_edit_reads :
    (x : Derivation) (definition : Path_ → Option FieldDefinition)
    (normalize : Path_ → Json → Option Json) (id : String) (path : Path_) (value : Json)
    (correction : Bool) (p p' : Profile)
    → IsManualTable x.registry definition normalize
    → Agrees x.registry p.bike
    → is_null value ≡ false
    → set_manual_technical_value x definition normalize id path value correction p ≡ wrote p'
    → normalize path value ≡ some (technical_value path p'.bike.technical_profile)
manual_edit_reads x definition normalize id path value correction p p' table before n e =
    let (d, v, w, f, l, m, a) = set-wrote x definition normalize id path value correction p p' e in
    let g : normalize path value ≡ some v =
      edit_normal x definition normalize id path value correction p v n m in
    let scalar = table.normal path value v g in
    g
    ∙ ap some (
        sym (
          one_edit_reads x definition normalize table (new_manual_claim id path value v correction)
            p p' w (table.defined path d f) (table.original path d f l)
            (edit_claim id path value v correction n) scalar before a))
