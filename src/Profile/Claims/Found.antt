-- ===== src/Profile/Claims/Found.antt =====
-- The resolutions of a bike by their field.
use bike_doc.Prelude.{
  true, false, some, List, [], ◌∷◌, ◌≡◌, arith, refl, Bool-cases, inl, inr, eq_iff, eq_refl,
}
use bike_doc.Profile.Tree.{Path_}
use bike_doc.Profile.Projection.{path_eq}
use bike_doc.Profile.Claims.{Resolution, get_resolution, save_resolution}

pub path_eq_refl : (p : Path_) → path_eq p p ≡ true
path_eq_refl [] = refl
path_eq_refl (x ∷ p) = rw (eq_refl x, path_eq_refl p) refl

pub path_eq_sound : (p q : Path_) → path_eq p q ≡ true → p ≡ q
path_eq_sound [] [] h = refl
path_eq_sound [] (y ∷ q) h = cc
path_eq_sound (x ∷ p) [] h = cc
path_eq_sound (x ∷ p) (y ∷ q) h = ground (arith, eq_iff x y, path_eq_sound p q)

pub get_resolution_path :
    (q : Path_) (rs : List Resolution) (r : Resolution)
    → get_resolution q rs ≡ some r
    → r.field_path ≡ q
unfolding get_resolution
get_resolution_path q [] r e = cc
get_resolution_path q (s ∷ rs) r e = elim (Bool-cases (path_eq s.field_path q)) [
  | inl b ↦ ground (arith, path_eq_sound s.field_path q, b, e)
  | inr b ↦ get_resolution_path q rs r (ground (arith, b, e))
]

pub get-save_same :
    (r : Resolution) (rs : List Resolution)
    → get_resolution r.field_path (save_resolution r rs) ≡ some r
unfolding get_resolution save_resolution
get-save_same r [] = rw (path_eq_refl r.field_path) refl
get-save_same r (s ∷ rs) = elim (Bool-cases (path_eq s.field_path r.field_path)) [
  | inl b ↦ rw (b, path_eq_refl r.field_path) refl
  | inr b ↦ rw (b, b) (get-save_same r rs)
]

pub get-save_other :
    (r : Resolution) (q : Path_) (rs : List Resolution)
    → path_eq r.field_path q ≡ false
    → get_resolution q (save_resolution r rs) ≡ get_resolution q rs
unfolding get_resolution save_resolution
get-save_other r q [] h = rw h refl
get-save_other r q (s ∷ rs) h = elim (Bool-cases (path_eq s.field_path r.field_path)) [
  | inl b ↦ rw (b, h, path_eq_sound s.field_path r.field_path b, h) refl
  | inr b ↦ rw (b, get-save_other r q rs h) refl
]
