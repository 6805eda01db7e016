-- ===== src/Profile/Tree/Keeps.antt =====
-- A leaf of a projection while the values at other paths are removed and empty dictionaries pruned.
use bike_doc.Prelude.{
  String, Bool, true, false, ◌≡◌, ◌⊎◌, [], ◌∷◌, str_eq, arith, refl, sym, ap, ◌∙◌, Bool-cases, inl,
  inr, eq_iff, subst,
}
use bike_doc.Profile.Tree.{
  Json, null, text, number, flag, dict, Fields, nil, cons, Path_, is_dict, get_field, set_field,
  remove_field, technical_value, change_child, remove_value, prune_at, keep_unless_empty,
  remove_empty_descendants,
}
use bike_doc.Profile.Tree.Paths.{get-set_field, get-remove_other, get-change_other}

get-remove_field : (k : String) (f : Fields) → get_field k (remove_field k f) ≡ null
unfolding get_field remove_field
get-remove_field k nil = refl
get-remove_field k (cons l w f) = ground (arith, get-remove_field k f)

pub technical_value_null : (qs : Path_) → technical_value qs null ≡ null
unfolding technical_value
technical_value_null [] = refl
technical_value_null (q ∷ qs) = refl

abbrev pub is_scalar : Json → Bool
is_scalar (text s) = true
is_scalar (number n) = true
is_scalar (flag y) = true
is_scalar _ = false

module _ (v : Json) where
  -- The path reads the value, or nothing.
  abbrev pub Remains : Path_ → Json → Type 0
  Remains qs j = (technical_value qs j ≡ v) ⊎ (technical_value qs j ≡ null)

  pub Remains-ap : (qs : Path_) (j j' : Json) → j' ≡ j → Remains qs j → Remains qs j'
  Remains-ap qs j j' e h = subst (Remains qs) (sym e) h

  Remains-null : (qs : Path_) → Remains qs null
  Remains-null qs = inr (technical_value_null qs)

  no_dict : {A : Type 0} (f : Fields) → is_scalar v ≡ true → Remains [] (dict f) → A
  unfolding technical_value
  no_dict f s (inl e) = ground arith
  no_dict f s (inr e) = ground arith

  -- A change of the child at one key.
  kept_changed :
      (p : String) (new : Json) (f : Fields) (q : String) (qs : Path_)
      → (Remains qs (get_field p f) → Remains qs new)
      → Remains qs (get_field q f)
      → Remains qs (get_field q (change_child p new f))
  unfolding change_child
  kept_changed p new f q qs h k = elim (Bool-cases (str_eq p q)) [
    | inr other ↦ Remains-ap qs _ _ (get-change_other q p new f other) k
    | inl same ↦ elim (Bool-cases (is_dict (get_field p f))) [
      | inr d ↦ rw d k
      | inl d ↦ rw d (
          Remains-ap qs new _
            (ap (λ x. get_field x (set_field p new f)) (sym ((eq_iff p q).0 same))
              ∙ get-set_field p new f)
            (h (subst (λ x. Remains qs (get_field x f)) (sym ((eq_iff p q).0 same)) k)))
    ]
  ]

  kept_gone :
      (p : String) (f : Fields) (q : String) (qs : Path_)
      → str_eq p q ≡ true
      → Remains qs (get_field q (remove_field p f))
  kept_gone p f q qs same =
      Remains-ap qs null _
        (ap (λ x. get_field x (remove_field p f)) (sym ((eq_iff p q).0 same))
          ∙ get-remove_field p f)
        (Remains-null qs)

  kept_removed :
      (p : String) (f : Fields) (q : String) (qs : Path_)
      → Remains qs (get_field q f)
      → Remains qs (get_field q (remove_field p f))
  kept_removed p f q qs k = elim (Bool-cases (str_eq p q)) [
    | inr other ↦ Remains-ap qs _ _ (get-remove_other q p f other) k
    | inl same ↦ kept_gone p f q qs same
  ]

  pub remove_value-Remains :
      (ps qs : Path_) (j : Json)
      → is_scalar v ≡ true
      → Remains qs j
      → Remains qs (remove_value ps j)
  unfolding technical_value remove_value
  remove_value-Remains [] qs j s k = k
  remove_value-Remains (p ∷ []) [] (dict f) s k = no_dict f s k
  remove_value-Remains (p ∷ []) (q ∷ qs) (dict f) s k = kept_removed p f q qs k
  remove_value-Remains (p ∷ r ∷ ps) [] (dict f) s k = no_dict f s k
  remove_value-Remains (p ∷ r ∷ ps) (q ∷ qs) (dict f) s k =
      kept_changed p (remove_value (r ∷ ps) (get_field p f)) f q qs
        (λ h. remove_value-Remains (r ∷ ps) qs (get_field p f) s h) k
  remove_value-Remains (p ∷ []) qs null s k = k
  remove_value-Remains (p ∷ []) qs (text t) s k = k
  remove_value-Remains (p ∷ []) qs (number n) s k = k
  remove_value-Remains (p ∷ []) qs (flag y) s k = k
  remove_value-Remains (p ∷ r ∷ ps) qs null s k = k
  remove_value-Remains (p ∷ r ∷ ps) qs (text t) s k = k
  remove_value-Remains (p ∷ r ∷ ps) qs (number n) s k = k
  remove_value-Remains (p ∷ r ∷ ps) qs (flag y) s k = k

  kept_cons :
      (k : String) (j : Json) (f f' : Fields) (q : String) (qs : Path_)
      → (Remains qs (get_field q f) → Remains qs (get_field q f'))
      → Remains qs (get_field q (cons k j f))
      → Remains qs (get_field q (cons k j f'))
  unfolding get_field
  kept_cons k j f f' q qs h = elim (Bool-cases (str_eq k q)) [
    | inl b ↦ rw b (λ x. x)
    | inr b ↦ rw b h
  ]

  kept_dict :
      (f f' : Fields) (q : String) (qs : Path_)
      → (Remains qs (get_field q f) → Remains qs (get_field q f'))
      → Remains (q ∷ qs) (dict f)
      → Remains (q ∷ qs) (dict f')
  unfolding technical_value
  kept_dict f f' q qs h k = h k

  kept_unless :
      (l : String) (g g' rest f : Fields) (q : String) (qs : Path_)
      → (Remains qs (dict g) → Remains qs (dict g'))
      → (Remains qs (get_field q f) → Remains qs (get_field q rest))
      → Remains qs (get_field q (cons l (dict g) f))
      → Remains qs (get_field q (keep_unless_empty l g' rest))
  unfolding get_field
  kept_unless l g nil rest f q qs h1 h2 = elim (Bool-cases (str_eq l q)) [
    | inl b ↦ rw b (λ k. kept_gone l rest q qs b)
    | inr b ↦ rw b (λ k. Remains-ap qs _ _ (get-remove_other q l rest b) (h2 k))
  ]
  kept_unless l g (cons m j g') rest f q qs h1 h2 = elim (Bool-cases (str_eq l q)) [
    | inl b ↦ rw b h1
    | inr b ↦ rw b h2
  ]

  pub remove_empty_descendants-Remains :
      (f : Fields) (q : String) (qs : Path_)
      → is_scalar v ≡ true
      → Remains qs (get_field q f)
      → Remains qs (get_field q (remove_empty_descendants f))
  unfolding remove_empty_descendants
  remove_empty_descendants-Remains nil q qs s k = k
  remove_empty_descendants-Remains (cons l null f) q qs s k =
      kept_cons l null f (remove_empty_descendants f) q qs
        (λ h. remove_empty_descendants-Remains f q qs s h) k
  remove_empty_descendants-Remains (cons l (text t) f) q qs s k =
      kept_cons l (text t) f (remove_empty_descendants f) q qs
        (λ h. remove_empty_descendants-Remains f q qs s h) k
  remove_empty_descendants-Remains (cons l (number n) f) q qs s k =
      kept_cons l (number n) f (remove_empty_descendants f) q qs
        (λ h. remove_empty_descendants-Remains f q qs s h) k
  remove_empty_descendants-Remains (cons l (flag y) f) q qs s k =
      kept_cons l (flag y) f (remove_empty_descendants f) q qs
        (λ h. remove_empty_descendants-Remains f q qs s h) k
  remove_empty_descendants-Remains (cons l (dict g) f) q [] s k =
      kept_unless l g (remove_empty_descendants g) (remove_empty_descendants f) f q []
        (λ h. no_dict g s h) (λ h. remove_empty_descendants-Remains f q [] s h) k
  remove_empty_descendants-Remains (cons l (dict g) f) q (r ∷ qs) s k =
      kept_unless l g (remove_empty_descendants g) (remove_empty_descendants f) f q (r ∷ qs)
        (kept_dict g (remove_empty_descendants g) r qs
          (λ h. remove_empty_descendants-Remains g r qs s h))
        (λ h. remove_empty_descendants-Remains f q (r ∷ qs) s h) k

  pub prune_at-Remains :
      (ps qs : Path_) (j : Json) → is_scalar v ≡ true → Remains qs j → Remains qs (prune_at ps j)
  unfolding prune_at
  prune_at-Remains [] [] (dict f) s k = no_dict f s k
  prune_at-Remains [] (q ∷ qs) (dict f) s k =
      kept_dict f (remove_empty_descendants f) q qs
        (λ h. remove_empty_descendants-Remains f q qs s h) k
  prune_at-Remains [] qs null s k = k
  prune_at-Remains [] qs (text t) s k = k
  prune_at-Remains [] qs (number n) s k = k
  prune_at-Remains [] qs (flag y) s k = k
  prune_at-Remains (p ∷ ps) [] (dict f) s k = no_dict f s k
  prune_at-Remains (p ∷ ps) (q ∷ qs) (dict f) s k =
      kept_dict f (change_child p (prune_at ps (get_field p f)) f) q qs
        (λ h.
          kept_changed p (prune_at ps (get_field p f)) f q qs
            (λ i. prune_at-Remains ps qs (get_field p f) s i) h)
        k
  prune_at-Remains (p ∷ ps) qs null s k = k
  prune_at-Remains (p ∷ ps) qs (text t) s k = k
  prune_at-Remains (p ∷ ps) qs (number n) s k = k
  prune_at-Remains (p ∷ ps) qs (flag y) s k = k
