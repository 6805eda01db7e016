-- ===== src/Profile/Resolver/Agrees.antt =====
-- The resolutions of a bike and its projection say the same.
use bike_doc.Prelude.{
  Bool, true, false, not, ◌&&◌, Option, some, List, ◌≡◌, ◌∙◌, Bool-cases, Option-cases, inl, inr,
  sym, ap, subst, or_else,
}
use bike_doc.Profile.Tree.{Json, is_null, Path_, technical_value}
use bike_doc.Profile.Tree.Paths.{diverges}
use bike_doc.Profile.Tree.Keeps.{is_scalar}
use bike_doc.Profile.Projection.{path_eq, clears_rotor, rotor_of, empty_technical_projection}
use bike_doc.Profile.Projection.Keeps.{is_unset}
use bike_doc.Profile.Claims.{Resolution, Bike, get_resolution, save_resolution, new_resolution}
use bike_doc.Profile.Claims.Found.{path_eq_sound, get-save_same, get-save_other}
use bike_doc.Profile.Gates.{is_path}
use bike_doc.Profile.Resolver.Cases.{IsNoted}

-- The canonical paths are leaves: they part from each other and from every default, and a mechanism is
-- not on the path of its rotor.
pub record IsFlat (registry : List Path_) : Type 0 where
  pub apart :
      (p q : Path_)
      → is_path registry p ≡ true
      → is_path registry q ≡ true
      → path_eq p q ≡ false
      → diverges p q ≡ true
  pub leaf : (q : Path_) → is_path registry q ≡ true → is_unset q empty_technical_projection ≡ true
  pub rotor :
      (p : Path_) (value : Json)
      → is_path registry p ≡ true
      → (clears_rotor p value && not (diverges (rotor_of p) p)) ≡ false

-- A resolution of a canonical field, whose value, if it has one, is a leaf that the projection reads
-- too.
pub record Agreement (registry : List Path_) (b : Bike) (q : Path_) (s : Resolution) : Type 0 where
  pub known : is_path registry q ≡ true
  pub scalar : is_null s.current_value ≡ false → is_scalar s.current_value ≡ true
  pub agree :
      is_null s.current_value ≡ false → technical_value q b.technical_profile ≡ s.current_value

-- Every resolution agrees with the projection.
abbrev pub Agrees : List Path_ → Bike → Type 0
Agrees registry b =
    (q : Path_) (s : Resolution)
    → get_resolution q b.resolutions ≡ some s
    → Agreement registry b q s

module _ (registry : List Path_) (path : Path_) (b b' : Bike) (before : Agrees registry b) where
  pub same_projection :
      (q : Path_) (s : Resolution)
      → b'.technical_profile ≡ b.technical_profile
      → Agreement registry b q s
      → Agreement registry b' q s
  same_projection q s e v = record {
    known = v.known;
    scalar = v.scalar;
    agree = λ h. ap (technical_value q) e ∙ v.agree h;
  }

  pub same_value :
      (q : Path_) (r s : Resolution)
      → s.current_value ≡ r.current_value
      → Agreement registry b q r
      → Agreement registry b q s
  same_value q r s e v = record {
    known = v.known;
    scalar = λ h.
        subst (λ y. is_scalar y ≡ true) (sym e) (v.scalar (subst (λ y. is_null y ≡ false) e h));
    agree = λ h. v.agree (subst (λ y. is_null y ≡ false) e h) ∙ sym e;
  }

  -- A field without a resolution has no value to agree with.
  pub found_agrees :
      (r : Resolution)
      → is_path registry path ≡ true
      → r ≡ or_else (get_resolution path b.resolutions) (new_resolution path)
      → Agreement registry b path r
  found_agrees r canonical at = elim (Option-cases (get_resolution path b.resolutions)) [
    | inr (s, e) ↦
        same_value path s r
          (ap (λ (y : Resolution). y.current_value)
            (at ∙ ap (λ y. or_else y (new_resolution path)) e))
          (before path s e)
    | inl e ↦
        same_value path (new_resolution path) r
          (ap (λ (y : Resolution). y.current_value)
            (at ∙ ap (λ y. or_else y (new_resolution path)) e))
          (record { known = canonical; scalar = λ h. cc h; agree = λ h. cc h })
  ]

  pub noted-Agrees :
      (r : Resolution) (w : Bool)
      → IsNoted r w b b'
      → r.field_path ≡ path
      → Agreement registry b path r
      → Agrees registry b'
  noted-Agrees r w (e, inl (_, same)) at v q s f =
      same_projection q s e (before q s (ap (λ y. get_resolution q y) (sym same) ∙ f))
  noted-Agrees r w (e, inr (t, fact, _, saved)) at v q s f =
      elim (Bool-cases (path_eq t.field_path q)) [
        | inr other ↦ same_projection q s e (
            before q s (
              sym (get-save_other t q b.resolutions other)
              ∙ ap (λ y. get_resolution q y) (sym saved)
              ∙ f))
        | inl here ↦
            let same : t.field_path ≡ q = path_eq_sound t.field_path q here in
            let found : get_resolution q b'.resolutions ≡ some t =
              ap (λ y. get_resolution q y) saved
              ∙ subst (λ y. get_resolution y (save_resolution t b.resolutions) ≡ some t) same
                  (get-save_same t b.resolutions) in
            let same_path : path ≡ q = sym at ∙ sym fact.3 ∙ same in
            same_projection q s e (
              same_value q r s (ap (λ (y : Resolution). y.current_value) (one s t f found) ∙ fact.0)
                (subst (λ y. Agreement registry b y r) same_path v))
      ]
    where
      one : {o : Option Resolution} (s t : Resolution) → o ≡ some s → o ≡ some t → s ≡ t
      one s t f g = cc (f, g)
