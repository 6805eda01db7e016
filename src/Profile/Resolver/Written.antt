-- ===== src/Profile/Resolver/Written.antt =====
-- Resolutions and projection still agree after a write that clears nothing.
use bike_doc.Prelude.{true, false, some, List, ◌≡◌, ◌∙◌, Bool-cases, inl, inr, sym, ap, subst}
use bike_doc.Profile.Tree.{Json, is_null, Path_, technical_value}
use bike_doc.Profile.Tree.Keeps.{is_scalar}
use bike_doc.Profile.Projection.{path_eq, clears_component, clears_rotor}
use bike_doc.Profile.Projection.Reads.{with_technical_value_reads}
use bike_doc.Profile.Projection.Plain.{with_technical_value_plain}
use bike_doc.Profile.Claims.{Resolution, Bike, get_resolution}
use bike_doc.Profile.Claims.Found.{path_eq_sound}
use bike_doc.Profile.Gates.{is_path}
use bike_doc.Profile.Derived.Updates.{IsWritten, written_here, written_elsewhere}
use bike_doc.Profile.Resolver.Agrees.{IsFlat, Agreement, Agrees}

module _ {registry : List Path_} (path : Path_) (value : Json) (s : Resolution) (b b' : Bike)
    (v : IsWritten registry path value s b b') (flat : IsFlat registry)
    (canonical : is_path registry path ≡ true) where
  pub written_reads : technical_value path b'.technical_profile ≡ value
  written_reads =
      ap (technical_value path) v.profile
      ∙ with_technical_value_reads registry b.technical_profile path value v.next
          (flat.rotor path value canonical) v.projected

  module _ (component : clears_component path value ≡ false)
      (rotor : clears_rotor path value ≡ false) where
    pub written_reads_other :
        (q : Path_)
        → is_path registry q ≡ true
        → path_eq path q ≡ false
        → technical_value q b'.technical_profile ≡ technical_value q b.technical_profile
    written_reads_other q known other =
        ap (technical_value q) v.profile
        ∙ with_technical_value_plain registry b.technical_profile path value v.next q component
            rotor (flat.apart path q canonical known other) (flat.leaf q known) v.projected

    at_written :
        (t : Resolution)
        → (is_null value ≡ false → is_scalar value ≡ true)
        → t ≡ s
        → Agreement registry b' path t
    at_written t scalar e =
        let same : t.current_value ≡ value =
          ap (λ (y : Resolution). y.current_value) e ∙ v.value_at in
        record {
          known = canonical;
          scalar = λ n. ap is_scalar same ∙ scalar (ap is_null (sym same) ∙ n);
          agree = λ n. written_reads ∙ sym same;
        }

    one : (t : Resolution) → get_resolution path b'.resolutions ≡ some t → t ≡ s
    one t f = cc (f, written_here path value s b b' v)

    pub written-Agrees :
        (is_null value ≡ false → is_scalar value ≡ true) → Agrees registry b → Agrees registry b'
    written-Agrees scalar before q t f = elim (Bool-cases (path_eq path q)) [
      | inl h ↦
          let same : path ≡ q = path_eq_sound path q h in
          subst (λ y. Agreement registry b' y t) same
            (at_written t scalar (one t (ap (λ y. get_resolution y b'.resolutions) same ∙ f)))
      | inr h ↦
          let old = before q t (sym (written_elsewhere path value s q b b' v h) ∙ f) in
          record {
            known = old.known;
            scalar = old.scalar;
            agree = λ n. written_reads_other q old.known h ∙ old.agree n;
          }
    ]
