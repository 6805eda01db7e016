-- ===== src/Profile/Resolver/Invariant.antt =====
-- The resolutions still agree with the projection after a claim, and after a batch.
use bike_doc.Prelude.{
  true, false, Option, some, ◌≡◌, ◌∙◌, refl, Bool-cases, Option-cases, inl, inr, sym, ap, subst,
}
use bike_doc.Profile.Tree.{Json, null, is_null, Path_, technical_value}
use bike_doc.Profile.Tree.Keeps.{is_scalar}
use bike_doc.Profile.Projection.{path_eq}
use bike_doc.Profile.Projection.Reads.{with_technical_value_reads}
use bike_doc.Profile.Projection.Keeps.{with_technical_value_keeps}
use bike_doc.Profile.Claims.{Claim, Confidence, Resolution, Bike, Resolver, get_resolution}
use bike_doc.Profile.Claims.Found.{path_eq_refl, path_eq_sound, get-save_other}
use bike_doc.Profile.Gates.{is_path}
use bike_doc.Profile.Application.{retired, is_lost, retire_invalidated, applied_resolution}
use bike_doc.Profile.Application.Applied.{IsApplied, applied_elsewhere, applied_here}
use bike_doc.Profile.Application.Lost.{retire_lost, retire_none}
use bike_doc.Profile.Resolver.Agrees.{IsFlat, Agreement, Agrees}

one_of_two : {o : Option Resolution} (s t : Resolution) → o ≡ some s → o ≡ some t → s ≡ t
one_of_two s t f g = cc (f, g)

lost_between :
    (previous next leaf : Json) (q : Path_)
    → technical_value q previous ≡ leaf
    → is_null leaf ≡ false
    → technical_value q next ≡ null
    → is_lost previous next q ≡ true
lost_between previous next leaf q e n f = rw (e, f, n) refl

module _ (x : Resolver) (c : Claim) (b b' : Bike) (flat : IsFlat x.registry)
    (canonical : is_path x.registry c.field_path ≡ true) (scalar : is_scalar c.value ≡ true)
    (before : Agrees x.registry b) (confidence : Confidence) (r : Resolution)
    (v : IsApplied x c confidence r b b') (at : r.field_path ≡ c.field_path) where
  kept : Bike
  kept =
      retire_invalidated x.now b.technical_profile v.next c.field_path x.registry
        (record b { claims = v.claims })

  -- At the field of the claim
  here_agrees :
      (s : Resolution)
      → get_resolution c.field_path b'.resolutions ≡ some s
      → Agreement x.registry b' c.field_path s
  here_agrees s f =
      let same : s.current_value ≡ c.value =
        ap (λ (y : Resolution). y.current_value)
          (one_of_two s _ f (applied_here x c confidence r b b' v at)) in
      record {
        known = canonical;
        scalar = λ h. ap is_scalar same ∙ scalar;
        agree = λ h.
            ap (technical_value c.field_path) v.profile
            ∙ with_technical_value_reads x.registry b.technical_profile c.field_path c.value v.next
                (flat.rotor c.field_path c.value canonical) v.projected
            ∙ sym same;
      }

  module _ (q : Path_) (other : path_eq c.field_path q ≡ false) where
    read_kept : get_resolution q b'.resolutions ≡ get_resolution q kept.resolutions
    unfolding kept
    read_kept =
        ap (λ y. get_resolution q y) v.resolutions
        ∙ get-save_other (applied_resolution x.now c confidence r) q kept.resolutions
            (ap (λ y. path_eq y q) at ∙ other)

    away : path_eq q c.field_path ≡ false
    away = elim (Bool-cases (path_eq q c.field_path)) [
      | inr h ↦ h
      | inl h ↦ cc (other, path_eq_refl q, path_eq_sound q c.field_path h)
    ]

    -- A value that stays is still read.
    stays_agrees :
        (t : Resolution)
        → get_resolution q b.resolutions ≡ some t
        → get_resolution q b'.resolutions ≡ some t
        → is_null t.current_value ≡ false
        → technical_value q b'.technical_profile ≡ t.current_value
    unfolding kept
    stays_agrees t e f n =
        let old : Agreement x.registry b q t = before q t e in
        elim (with_technical_value_keeps x.registry b.technical_profile c.field_path c.value v.next
          q t.current_value (flat.apart c.field_path q canonical old.known other)
          (flat.leaf q old.known) (old.scalar n) (old.agree n) v.projected) [
            | inl g ↦ ap (technical_value q) v.profile ∙ g
            | inr g ↦
                let lost : is_lost b.technical_profile v.next q ≡ true =
                  lost_between b.technical_profile v.next t.current_value q (old.agree n) n g in
                let gone =
                  retire_lost x.now b.technical_profile v.next c.field_path q x.registry t
                    (record b { claims = v.claims }) e n lost away old.known in
                let same : t ≡ retired x.now t =
                  one_of_two t (retired x.now t) (sym read_kept ∙ f) gone in
                cc (n, ap (λ (y : Resolution). is_null y.current_value) same)
          ]

    there_agrees :
        (s : Resolution) → get_resolution q b'.resolutions ≡ some s → Agreement x.registry b' q s
    unfolding kept
    there_agrees s f = elim (Option-cases (get_resolution q b.resolutions)) [
      | inl n ↦ cc (
        f,
        read_kept,
        retire_none x.now b.technical_profile v.next c.field_path q x.registry s
            (record b { claims = v.claims }) n,
      )
      | inr (t, e) ↦
          let old : Agreement x.registry b q t = before q t e in
          elim (applied_elsewhere x c confidence r t q b b' v at other e) [
            | inl g ↦
                let same : s ≡ t = one_of_two s t f g in
                subst (Agreement x.registry b' q) (sym same) (record {
                  known = old.known;
                  scalar = old.scalar;
                  agree = λ n. stays_agrees t e g n;
                })
            | inr (g, _) ↦
                subst (Agreement x.registry b' q) (sym (one_of_two s (retired x.now t) f g))
                  (record { known = old.known; scalar = λ n. cc n; agree = λ n. cc n })
          ]
    ]

  pub applied-Agrees : Agrees x.registry b'
  applied-Agrees q s f = elim (Bool-cases (path_eq c.field_path q)) [
    | inr other ↦ there_agrees q other s f
    | inl here ↦
        let same : c.field_path ≡ q = path_eq_sound c.field_path q here in
        subst (λ y. Agreement x.registry b' y s) same
          (here_agrees s (ap (λ y. get_resolution y b'.resolutions) same ∙ f))
  ]
