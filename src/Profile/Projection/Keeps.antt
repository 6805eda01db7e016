-- ===== src/Profile/Projection/Keeps.antt =====
-- What with_technical_value does to the values at other paths.
use bike_doc.Prelude.{
  String, Bool, true, ◌&&◌, ◌≡◌, ◌⊎◌, some, List, [], ◌∷◌, str_eq, if◌then◌else◌, arith, refl, sym,
  ap, ◌∙◌, Bool-cases, inl, inr, eq_iff, filter,
}
use bike_doc.Profile.Tree.{
  Json, null, text, number, flag, dict, Fields, nil, cons, Path_, is_null, has_field, get_field,
  set_field, technical_value, set_value, remove_value,
}
use bike_doc.Profile.Tree.Paths.{diverges, get-set_field, get-set_other}
use bike_doc.Profile.Tree.Keeps.{
  is_scalar, Remains, Remains-ap, technical_value_null, remove_value-Remains, prune_at-Remains,
}
use bike_doc.Profile.Projection.{
  is_below, absence_dependents, remove_all, clear_component_leaves, empty_technical_projection,
  set_defaults, started_from, apply_value, validate_technical_projection, with_technical_value,
  clears_component, clears_rotor, rotor_of, component_of,
}

-- No default stands at the path.
abbrev pub is_unset : Path_ → Fields → Bool
is_unset path nil = true
is_unset path (cons k w d) = is_null (technical_value path (dict (cons k w nil))) && is_unset path d

pub null_of : (j : Json) → is_null j ≡ true → j ≡ null
null_of null h = refl
null_of (text s) h = cc
null_of (number n) h = cc
null_of (flag y) h = cc
null_of (dict f) h = cc

fresh :
    (p q : String) (ps qs : Path_) (w : Json)
    → (diverges ps qs ≡ true → technical_value qs (set_value ps w null) ≡ technical_value qs null)
    → diverges (p ∷ ps) (q ∷ qs) ≡ true
    → technical_value qs (get_field q (cons p (set_value ps w null) nil)) ≡ null
unfolding get_field
fresh p q ps qs w f h = elim (Bool-cases (str_eq p q)) [
  | inl b ↦ rw b (f (ground arith) ∙ technical_value_null qs)
  | inr b ↦ rw b (technical_value_null qs)
]

pub technical_value-set_other :
    (ps qs : Path_) (w j : Json)
    → diverges ps qs ≡ true
    → technical_value qs (set_value ps w j) ≡ technical_value qs j
unfolding technical_value set_value
technical_value-set_other [] qs w j h = cc
technical_value-set_other (p ∷ ps) [] w j h = cc
technical_value-set_other (p ∷ ps) (q ∷ qs) w (dict f) h = elim (Bool-cases (str_eq p q)) [
  | inr other ↦ ap (technical_value qs) (get-set_other q p _ f other)
  | inl same ↦ rw (← (eq_iff p q).0 same) (
      ap (technical_value qs) (get-set_field p (set_value ps w (get_field p f)) f)
      ∙ technical_value-set_other ps qs w (get_field p f) (ground arith))
]
technical_value-set_other (p ∷ ps) (q ∷ qs) w null h =
    fresh p q ps qs w (λ k. technical_value-set_other ps qs w null k) h
technical_value-set_other (p ∷ ps) (q ∷ qs) w (text s) h =
    fresh p q ps qs w (λ k. technical_value-set_other ps qs w null k) h
technical_value-set_other (p ∷ ps) (q ∷ qs) w (number n) h =
    fresh p q ps qs w (λ k. technical_value-set_other ps qs w null k) h
technical_value-set_other (p ∷ ps) (q ∷ qs) w (flag y) h =
    fresh p q ps qs w (λ k. technical_value-set_other ps qs w null k) h

module _ (v : Json) (q : String) (qs : Path_) (s : is_scalar v ≡ true) where
  set_default-Remains :
      (k : String) (w : Json) (f : Fields)
      → is_null (technical_value (q ∷ qs) (dict (cons k w nil))) ≡ true
      → Remains v (q ∷ qs) (dict f)
      → Remains v (q ∷ qs) (dict (if has_field k f then f else set_field k w f))
  unfolding technical_value get_field
  set_default-Remains k w f h kept = elim (Bool-cases (has_field k f)) [
    | inl b ↦ rw b kept
    | inr b ↦ elim (Bool-cases (str_eq k q)) [
      | inr other ↦ rw b (Remains-ap v qs _ _ (get-set_other q k w f other) kept)
      | inl same ↦ rw b (
          Remains-ap v qs w _
            (ap (λ x. get_field x (set_field k w f)) (sym ((eq_iff k q).0 same))
              ∙ get-set_field k w f)
            (inr (null_of (technical_value qs w) (ground arith))))
    ]
  ]

  set_defaults-Remains :
      (d f : Fields)
      → is_unset (q ∷ qs) d ≡ true
      → Remains v (q ∷ qs) (dict f)
      → Remains v (q ∷ qs) (dict (set_defaults d f))
  unfolding set_defaults
  set_defaults-Remains nil f h kept = kept
  set_defaults-Remains (cons k w d) f h kept =
      set_defaults-Remains d (if has_field k f then f else set_field k w f) (ground arith)
        (set_default-Remains k w f (ground arith) kept)

  pub unset_null :
      (d : Fields) → is_unset (q ∷ qs) d ≡ true → technical_value (q ∷ qs) (dict d) ≡ null
  unfolding technical_value get_field
  unset_null nil h = technical_value_null qs
  unset_null (cons k w d) h = elim (Bool-cases (str_eq k q)) [
    | inl b ↦ rw b (null_of (technical_value qs w) (ground arith))
    | inr b ↦ rw b (unset_null d (ground arith))
  ]

  started_from-Remains :
      (j : Json)
      → is_unset (q ∷ qs) empty_technical_projection ≡ true
      → Remains v (q ∷ qs) j
      → Remains v (q ∷ qs) (started_from j)
  unfolding started_from
  started_from-Remains (dict (cons k w f)) h kept =
      set_defaults-Remains empty_technical_projection (cons k w f) h kept
  started_from-Remains (dict nil) h kept = inr (unset_null empty_technical_projection h)
  started_from-Remains null h kept = inr (unset_null empty_technical_projection h)
  started_from-Remains (text t) h kept = inr (unset_null empty_technical_projection h)
  started_from-Remains (number n) h kept = inr (unset_null empty_technical_projection h)
  started_from-Remains (flag y) h kept = inr (unset_null empty_technical_projection h)

  remove_all-Remains :
      (ps : List Path_) (j : Json) → Remains v (q ∷ qs) j → Remains v (q ∷ qs) (remove_all ps j)
  unfolding remove_all
  remove_all-Remains [] j kept = kept
  remove_all-Remains (p ∷ ps) j kept =
      remove_all-Remains ps (remove_value p j) (remove_value-Remains v p (q ∷ qs) j s kept)

  clear-Remains :
      (registry : List Path_) (c : Path_) (j : Json)
      → Remains v (q ∷ qs) j
      → Remains v (q ∷ qs) (clear_component_leaves registry c j)
  unfolding clear_component_leaves
  clear-Remains registry c j kept = prune_at-Remains v c (q ∷ qs) _ s (
      remove_all-Remains (absence_dependents c) _
        (remove_all-Remains (filter (is_below c) registry) j kept))

  module _ (registry : List Path_) (path : Path_) (value : Json)
      (apart : diverges path (q ∷ qs) ≡ true) where
    set-Remains : (j : Json) → Remains v (q ∷ qs) j → Remains v (q ∷ qs) (set_value path value j)
    set-Remains j (inl e) = inl (technical_value-set_other path (q ∷ qs) value j apart ∙ e)
    set-Remains j (inr e) = inr (technical_value-set_other path (q ∷ qs) value j apart ∙ e)

    component-Remains :
        (j : Json)
        → Remains v (q ∷ qs) j
        → Remains v (q ∷ qs) (
            if clears_component path value
            then set_value path value
                (clear_component_leaves registry (component_of path) (set_value path value j))
            else set_value path value j)
    component-Remains j kept = elim (Bool-cases (clears_component path value)) [
      | inl b ↦
          rw b (set-Remains _ (clear-Remains registry (component_of path) _ (set-Remains j kept)))
      | inr b ↦ rw b (set-Remains j kept)
    ]

    apply_value-Remains :
        (j : Json) → Remains v (q ∷ qs) j → Remains v (q ∷ qs) (apply_value registry path value j)
    unfolding apply_value
    apply_value-Remains j kept = elim (Bool-cases (clears_rotor path value)) [
      | inl b ↦ rw b (clear-Remains registry (rotor_of path) _ (component-Remains j kept))
      | inr b ↦ rw b (component-Remains j kept)
    ]

pub accepted_value :
    (registry : List Path_) (projection : Json) (path : Path_) (value next : Json)
    → with_technical_value registry projection path value ≡ some next
    → next ≡ apply_value registry path value (started_from projection)
unfolding with_technical_value
accepted_value registry projection path value next e =
    elim (Bool-cases
      (validate_technical_projection (apply_value registry path value (started_from projection)))) [
        | inl b ↦ cc (e, b)
        | inr b ↦ cc (e, b)
      ]

-- A write at one path leaves the leaves at other paths alone or takes them away, and never alters
-- them: where a path that parts from the written one, and has no default, read a text, a number or a
-- flag, it reads the same after an accepted write, or nothing.
pub with_technical_value_keeps :
    (registry : List Path_) (projection : Json) (path : Path_) (value next : Json) (other : Path_)
    (leaf : Json)
    → diverges path other ≡ true
    → is_unset other empty_technical_projection ≡ true
    → is_scalar leaf ≡ true
    → technical_value other projection ≡ leaf
    → with_technical_value registry projection path value ≡ some next
    → (technical_value other next ≡ leaf) ⊎ (technical_value other next ≡ null)
with_technical_value_keeps registry projection [] value next [] leaf d u s r e = cc d
with_technical_value_keeps registry projection (p ∷ ps) value next [] leaf d u s r e = cc d
with_technical_value_keeps registry projection path value next (q ∷ qs) leaf d u s r e =
    Remains-ap leaf (q ∷ qs) _ _ (accepted_value registry projection path value next e) (
      apply_value-Remains leaf q qs s registry path value d (started_from projection)
        (started_from-Remains leaf q qs s projection u (inl r)))
