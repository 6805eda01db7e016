-- ===== src/Profile/Projection/Plain.antt =====
-- A write that clears nothing keeps every other leaf.
use bike_doc.Prelude.{
  String, true, false, ◌≡◌, some, List, [], ◌∷◌, str_eq, if◌then◌else◌, arith, refl, sym, ap, ◌∙◌,
  Bool-cases, inl, inr, eq_iff,
}
use bike_doc.Profile.Tree.{
  Json, null, text, number, flag, dict, Fields, nil, cons, Path_, is_null, has_field, get_field,
  set_field, technical_value, set_value,
}
use bike_doc.Profile.Tree.Paths.{diverges, get-set_field, get-set_other}
use bike_doc.Profile.Tree.Keeps.{technical_value_null}
use bike_doc.Profile.Projection.{
  empty_technical_projection, set_defaults, started_from, apply_value, with_technical_value,
  clears_component, clears_rotor,
}
use bike_doc.Profile.Projection.Keeps.{
  is_unset, null_of, unset_null, technical_value-set_other, accepted_value,
}

missing : (k : String) (f : Fields) → has_field k f ≡ false → get_field k f ≡ null
unfolding get_field
missing k nil h = refl
missing k (cons l v f) h = elim (Bool-cases (str_eq l k)) [
  | inl b ↦ cc (h, b)
  | inr b ↦ rw b (missing k f (ground arith))
]

module _ (q : String) (qs : Path_) where
  -- A default at another path is not seen.
  read-set_default :
      (k : String) (w : Json) (f : Fields)
      → is_null (technical_value (q ∷ qs) (dict (cons k w nil))) ≡ true
      → technical_value (q ∷ qs) (dict (if has_field k f then f else set_field k w f))
        ≡ technical_value (q ∷ qs) (dict f)
  unfolding technical_value get_field
  read-set_default k w f h = elim (Bool-cases (has_field k f)) [
    | inl b ↦ rw b refl
    | inr b ↦ elim (Bool-cases (str_eq k q)) [
      | inr other ↦ rw b (ap (technical_value qs) (get-set_other q k w f other))
      | inl same ↦
          let here : k ≡ q = (eq_iff k q).0 same in
          rw b (
            ap (λ x. technical_value qs (get_field x (set_field k w f))) (sym here)
            ∙ ap (technical_value qs) (get-set_field k w f)
            ∙ null_of (technical_value qs w) (ground arith)
            ∙ sym (technical_value_null qs)
            ∙ ap (technical_value qs) (sym (ap (λ x. get_field x f) (sym here) ∙ missing k f b)))
    ]
  ]

  read-set_defaults :
      (d f : Fields)
      → is_unset (q ∷ qs) d ≡ true
      → technical_value (q ∷ qs) (dict (set_defaults d f)) ≡ technical_value (q ∷ qs) (dict f)
  unfolding set_defaults
  read-set_defaults nil f h = refl
  read-set_defaults (cons k w d) f h =
      read-set_defaults d (if has_field k f then f else set_field k w f) (ground arith)
      ∙ read-set_default k w f (ground arith)

  read-started_from :
      (j : Json)
      → is_unset (q ∷ qs) empty_technical_projection ≡ true
      → technical_value (q ∷ qs) (started_from j) ≡ technical_value (q ∷ qs) j
  unfolding started_from technical_value get_field
  read-started_from (dict (cons k w f)) h =
      read-set_defaults empty_technical_projection (cons k w f) h
  read-started_from (dict nil) h =
      unset_null (flag true) q qs refl empty_technical_projection h ∙ sym (technical_value_null qs)
  read-started_from null h = unset_null (flag true) q qs refl empty_technical_projection h
  read-started_from (text t) h = unset_null (flag true) q qs refl empty_technical_projection h
  read-started_from (number n) h = unset_null (flag true) q qs refl empty_technical_projection h
  read-started_from (flag y) h = unset_null (flag true) q qs refl empty_technical_projection h

apply_value_plain :
    (registry : List Path_) (path : Path_) (value j : Json)
    → clears_component path value ≡ false
    → clears_rotor path value ≡ false
    → apply_value registry path value j ≡ set_value path value j
unfolding apply_value
apply_value_plain registry path value j c r = rw (c, r) refl

-- An accepted write that clears neither a component nor a rotor keeps what every path reads that parts
-- from the written one and has no default.
pub with_technical_value_plain :
    (registry : List Path_) (projection : Json) (path : Path_) (value next : Json) (other : Path_)
    → clears_component path value ≡ false
    → clears_rotor path value ≡ false
    → diverges path other ≡ true
    → is_unset other empty_technical_projection ≡ true
    → with_technical_value registry projection path value ≡ some next
    → technical_value other next ≡ technical_value other projection
with_technical_value_plain registry projection [] value next [] c r d u e = cc d
with_technical_value_plain registry projection (p ∷ ps) value next [] c r d u e = cc d
with_technical_value_plain registry projection path value next (q ∷ qs) c r d u e =
    ap (technical_value (q ∷ qs)) (
      accepted_value registry projection path value next e
      ∙ apply_value_plain registry path value (started_from projection) c r)
    ∙ technical_value-set_other path (q ∷ qs) value (started_from projection) d
    ∙ read-started_from q qs projection u
