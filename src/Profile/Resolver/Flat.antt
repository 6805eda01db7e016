-- ===== src/Profile/Resolver/Flat.antt =====
-- A table of paths is checked to be flat by a test of every pair.
use bike_doc.Prelude.{
  Bool, true, not, ◌&&◌, ◌||◌, List, [], ◌∷◌, ◌≡◌, ◌∙◌, arith, ap, sym, Bool-cases, inl, inr,
}
use bike_doc.Profile.Tree.{Path_}
use bike_doc.Profile.Tree.Paths.{diverges}
use bike_doc.Profile.Projection.{path_eq, ends_in, rotor_of, empty_technical_projection}
use bike_doc.Profile.Projection.Keeps.{is_unset}
use bike_doc.Profile.Claims.Found.{path_eq_sound}
use bike_doc.Profile.Gates.{is_path}
use bike_doc.Profile.Resolver.Agrees.{IsFlat}

abbrev all_of : (Path_ → Bool) → List Path_ → Bool
all_of f [] = true
all_of f (p ∷ ps) = f p && all_of f ps

all_of_member :
    (f : Path_ → Bool) (ps : List Path_) (p : Path_)
    → all_of f ps ≡ true
    → is_path ps p ≡ true
    → f p ≡ true
all_of_member f [] p h m = cc m
all_of_member f (q ∷ ps) p h m = elim (Bool-cases (path_eq q p)) [
  | inl e ↦ ap f (sym (path_eq_sound q p e)) ∙ ground (arith, h)
  | inr e ↦ all_of_member f ps p (ground (arith, h)) (ground (arith, m, e))
]

abbrev parts_from : Path_ → Path_ → Bool
parts_from p q = path_eq p q || diverges p q

abbrev is_leaf : Path_ → Bool
is_leaf p =
    is_unset p empty_technical_projection
    && (not (ends_in "mechanism" p) || diverges (rotor_of p) p)

-- Whether the paths part from each other and from every default
abbrev pub is_flat : List Path_ → Bool
is_flat registry = all_of (λ p. all_of (parts_from p) registry) registry && all_of is_leaf registry

pub is_flat-IsFlat : (registry : List Path_) → is_flat registry ≡ true → IsFlat registry
is_flat-IsFlat registry h =
    let apart : all_of (λ p. all_of (parts_from p) registry) registry ≡ true = ground (arith, h) in
    let leaves : all_of is_leaf registry ≡ true = ground (arith, h) in
    record {
      apart = λ p q hp hq e.
          let one = all_of_member (λ p. all_of (parts_from p) registry) registry p apart hp in
          let both = all_of_member (parts_from p) registry q one hq in ground (arith, both, e);
      leaf = λ q hq. let here = all_of_member is_leaf registry q leaves hq in ground (arith, here);
      rotor = λ p value hp.
          let here = all_of_member is_leaf registry p leaves hp in ground (arith, here);
    }
