-- ===== src/Profile/Resolver/Barred.antt =====
-- A field that was cleared by hand, and the claims that were observed before.
use bike_doc.Prelude.{
  ℕ, Bool, true, false, not, ◌||◌, some, List, [], ◌∷◌, ◌≡◌, ◌∙◌, arith, refl, Bool-cases, inl, inr,
  sym, ap, order_by, All, All-order_by, leb,
}
use bike_doc.Profile.Tree.{is_null, Path_}
use bike_doc.Profile.Projection.{path_eq}
use bike_doc.Profile.Claims.{
  Claim, Resolution, Bike, FieldDefinition, FieldPolicy, Resolver, get_resolution,
}
use bike_doc.Profile.Claims.Found.{path_eq_sound, get-save_other}
use bike_doc.Profile.Gates.{Verdict, aside, eligible, verdict, is_blocked}
use bike_doc.Profile.Application.Applied.{apply_claim-IsApplied}
use bike_doc.Profile.Application.Unset.{applied_unset}
use bike_doc.Profile.Resolver.{resolve_claim, resolve_claims, resolve, resolution_order}
use bike_doc.Profile.Resolver.Cases.{IsNoted, judge-cases, resolve_eligible}
use bike_doc.Profile.Resolver.Passed.{IsEligible, verdict-IsEligible, eligible_path, eligible_found}
use bike_doc.Profile.Resolver.Unchanged.{aside_same, claims_step}

-- A claim on another field, or one that was observed no later than that
abbrev pub is_past : ℕ → Path_ → Claim → Bool
is_past t q c = not (path_eq c.field_path q) || leb c.observed_at t

module _ (x : Resolver) (q : Path_) (r : Resolution) (t : ℕ)
    (barrier : r.manual_clear_barrier_at ≡ some t) (empty : is_null r.current_value ≡ true) where
  noted_elsewhere :
      (r0 : Resolution) (w : Bool) (b b' : Bike)
      → IsNoted r0 w b b'
      → path_eq r0.field_path q ≡ false
      → get_resolution q b.resolutions ≡ some r
      → get_resolution q b'.resolutions ≡ some r
  noted_elsewhere r0 w b b' (_, inl (_, same)) h e = ap (λ y. get_resolution q y) same ∙ e
  noted_elsewhere r0 w b b' (_, inr (s, fact, _, saved)) h e =
      ap (λ y. get_resolution q y) saved
      ∙ get-save_other s q b.resolutions (ap (λ y. path_eq y q) fact.3 ∙ h)
      ∙ e

  -- An eligible claim is on another field.
  eligible_elsewhere :
      (c : Claim) (b : Bike) (d : FieldDefinition) (p : FieldPolicy) (n : ℕ) (r0 : Resolution)
      → IsEligible x c b d p n r0
      → is_past t q c ≡ true
      → get_resolution q b.resolutions ≡ some r
      → path_eq c.field_path q ≡ false
  eligible_elsewhere c b d p n r0 v past e = elim (Bool-cases (path_eq c.field_path q)) [
    | inr h ↦ h
    | inl h ↦
        let here : r0 ≡ r =
          eligible_found x c b d p n r0 r v
            (ap (λ y. get_resolution y b.resolutions) (path_eq_sound c.field_path q h) ∙ e) in
        let late : is_blocked c r ≡ true = rw barrier (ground (arith, past, h)) in
        cc (late, v.unblocked, here)
  ]

  claim_barred :
      (c : Claim) (b b' : Bike) (w : Bool) (v : Verdict)
      → verdict x c b ≡ v
      → resolve_claim x c b ≡ some (w, b')
      → is_past t q c ≡ true
      → get_resolution q b.resolutions ≡ some r
      → get_resolution q b'.resolutions ≡ some r
  claim_barred c b b' w (aside d reason) h y past e =
      ap (λ z. get_resolution q z) (aside_same x c b b' w d reason h y).resolutions ∙ e
  claim_barred c b b' w (eligible d p n r0) h y past e =
      let v = verdict-IsEligible x c b d p n r0 h in
      let at = eligible_path x c b d p n r0 v in
      let other = eligible_elsewhere c b d p n r0 v past e in
      elim (judge-cases x c d p n r0 b w b' (sym (resolve_eligible x c b d p n r0 h) ∙ y)) [
        | inl noted ↦ noted_elsewhere r0 w b b' noted (ap (λ z. path_eq z q) at ∙ other) e
        | inr (reason, confidence, _, a, _) ↦
            applied_unset x c confidence r0 r q b b'
              (apply_claim-IsApplied x c reason confidence r0 b b' a) at other e empty
      ]

  claims_barred :
      (cs : List Claim) (b b' : Bike) (w : Bool)
      → resolve_claims x cs b ≡ some (w, b')
      → All (λ c. is_past t q c ≡ true) cs
      → get_resolution q b.resolutions ≡ some r
      → get_resolution q b'.resolutions ≡ some r
  unfolding resolve_claims
  claims_barred [] b b' w e past f =
      let same : b' ≡ b = ground arith in ap (λ (y : Bike). get_resolution q y.resolutions) same ∙ f
  claims_barred (c ∷ cs) b b' w e past f =
      let (v, b1, m, g, h, _) = claims_step x c cs b b' w e in
      claims_barred cs b1 b' m h past.1 (claim_barred c b b1 v (verdict x c b) refl g past.0 f)

  -- No claim that was observed before the barrier changes the field.
  pub resolve_barred :
      (cs : List Claim) (b b' : Bike) (w : Bool)
      → resolve x cs b ≡ some (w, b')
      → All (λ c. is_past t q c ≡ true) cs
      → get_resolution q b.resolutions ≡ some r
      → get_resolution q b'.resolutions ≡ some r
  unfolding resolve
  resolve_barred cs b b' w e past f =
      claims_barred (order_by resolution_order cs) b b' w e
        (All-order_by (λ c. is_past t q c ≡ true) resolution_order cs past) f
