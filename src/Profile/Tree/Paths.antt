-- ===== src/Profile/Tree/Paths.antt =====
-- Reading a projection after a change at a path.
use bike_doc.Prelude.{
  String, Bool, true, false, ◌≡◌, [], ◌∷◌, str_eq, if◌then◌else◌, arith, refl, ap, ◌∙◌, Bool-cases,
  inl, inr, eq_iff, eq_refl,
}
use bike_doc.Profile.Tree.{
  Json, null, text, number, flag, dict, Fields, nil, cons, Path_, is_dict, get_field, set_field,
  remove_field, technical_value, set_value, change_child, remove_value, prune_at,
}

pub get-set_field : (k : String) (v : Json) (f : Fields) → get_field k (set_field k v f) ≡ v
unfolding get_field set_field
get-set_field k v nil = ground (arith, eq_refl k)
get-set_field k v (cons l w f) = ground (arith, get-set_field k v f)

pub get-set_other :
    (k l : String) (v : Json) (f : Fields)
    → str_eq l k ≡ false
    → get_field k (set_field l v f) ≡ get_field k f
unfolding get_field set_field
get-set_other k l v nil h = ground arith
get-set_other k l v (cons m w f) h =
    ground (arith, get-set_other k l v f, eq_iff m l, eq_iff m k, eq_iff l k)

pub get-remove_other :
    (k l : String) (f : Fields)
    → str_eq l k ≡ false
    → get_field k (remove_field l f) ≡ get_field k f
unfolding get_field remove_field
get-remove_other k l nil h = refl
get-remove_other k l (cons m w f) h =
    ground (arith, get-remove_other k l f, eq_iff m l, eq_iff m k, eq_iff l k)

pub get-change_other :
    (k l : String) (v : Json) (f : Fields)
    → str_eq l k ≡ false
    → get_field k (change_child l v f) ≡ get_field k f
unfolding change_child
get-change_other k l v f h = elim (Bool-cases (is_dict (get_field l f))) [
  | inl d ↦ rw d (get-set_other k l v f h)
  | inr d ↦ rw d refl
]

-- What is written at a path is read there.
pub technical_value-set_value :
    (ps : Path_) (v j : Json) → technical_value ps (set_value ps v j) ≡ v
unfolding technical_value set_value
technical_value-set_value [] v j = refl
technical_value-set_value (p ∷ ps) v (dict f) =
    ap (technical_value ps) (get-set_field p (set_value ps v (get_field p f)) f)
    ∙ technical_value-set_value ps v (get_field p f)
technical_value-set_value (p ∷ ps) v null = rw (eq_refl p) (technical_value-set_value ps v null)
technical_value-set_value (p ∷ ps) v (text s) = rw (eq_refl p) (technical_value-set_value ps v null)
technical_value-set_value (p ∷ ps) v (number n) =
    rw (eq_refl p) (technical_value-set_value ps v null)
technical_value-set_value (p ∷ ps) v (flag y) = rw (eq_refl p) (technical_value-set_value ps v null)

-- The two paths part at some key.
abbrev pub diverges : Path_ → Path_ → Bool
diverges [] qs = false
diverges (p ∷ ps) [] = false
diverges (p ∷ ps) (q ∷ qs) = if str_eq p q then diverges ps qs else true

-- A change of the child at a key reads through elsewhere.
read_changed :
    (p : String) (new : Json) (f : Fields) (q : String) (qs : Path_)
    → (str_eq p q ≡ true → technical_value qs new ≡ technical_value qs (get_field p f))
    → technical_value qs (get_field q (change_child p new f)) ≡ technical_value qs (get_field q f)
unfolding change_child
read_changed p new f q qs h = elim (Bool-cases (str_eq p q)) [
  | inr other ↦ ap (technical_value qs) (get-change_other q p new f other)
  | inl same ↦ rw (← (eq_iff p q).0 same) (elim (Bool-cases (is_dict (get_field p f))) [
    | inl d ↦ rw d (ap (technical_value qs) (get-set_field p new f) ∙ h same)
    | inr d ↦ rw d refl
  ])
]

pub technical_value-remove_value :
    (ps qs : Path_) (j : Json)
    → diverges ps qs ≡ true
    → technical_value qs (remove_value ps j) ≡ technical_value qs j
unfolding technical_value remove_value
technical_value-remove_value [] qs j h = cc
technical_value-remove_value (p ∷ ps) [] j h = cc
technical_value-remove_value (p ∷ []) (q ∷ qs) (dict f) h =
    ap (technical_value qs) (get-remove_other q p f (ground arith))
technical_value-remove_value (p ∷ r ∷ ps) (q ∷ qs) (dict f) h =
    read_changed p (remove_value (r ∷ ps) (get_field p f)) f q qs
      λ same. technical_value-remove_value (r ∷ ps) qs (get_field p f) (ground arith)
technical_value-remove_value (p ∷ []) (q ∷ qs) null h = refl
technical_value-remove_value (p ∷ []) (q ∷ qs) (text s) h = refl
technical_value-remove_value (p ∷ []) (q ∷ qs) (number n) h = refl
technical_value-remove_value (p ∷ []) (q ∷ qs) (flag y) h = refl
technical_value-remove_value (p ∷ r ∷ ps) (q ∷ qs) null h = refl
technical_value-remove_value (p ∷ r ∷ ps) (q ∷ qs) (text s) h = refl
technical_value-remove_value (p ∷ r ∷ ps) (q ∷ qs) (number n) h = refl
technical_value-remove_value (p ∷ r ∷ ps) (q ∷ qs) (flag y) h = refl

pub technical_value-prune_at :
    (ps qs : Path_) (j : Json)
    → diverges ps qs ≡ true
    → technical_value qs (prune_at ps j) ≡ technical_value qs j
unfolding technical_value prune_at
technical_value-prune_at [] qs j h = cc
technical_value-prune_at (p ∷ ps) [] j h = cc
technical_value-prune_at (p ∷ ps) (q ∷ qs) (dict f) h =
    read_changed p (prune_at ps (get_field p f)) f q qs
      λ same. technical_value-prune_at ps qs (get_field p f) (ground arith)
technical_value-prune_at (p ∷ ps) (q ∷ qs) null h = refl
technical_value-prune_at (p ∷ ps) (q ∷ qs) (text s) h = refl
technical_value-prune_at (p ∷ ps) (q ∷ qs) (number n) h = refl
technical_value-prune_at (p ∷ ps) (q ∷ qs) (flag y) h = refl
