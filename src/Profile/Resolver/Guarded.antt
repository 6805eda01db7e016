-- ===== src/Profile/Resolver/Guarded.antt =====
-- When the resolver may change the value of a field that has one.
use bike_doc.Prelude.{
  ℕ, Bool, true, false, none, some, ◌≡◌, ◌⊎◌, ◌∙◌, arith, refl, Bool-cases, inl, inr, sym, ap,
  subst,
}
use bike_doc.Profile.Tree.{is_null, Path_, technical_value}
use bike_doc.Profile.Projection.{path_eq}
use bike_doc.Profile.Claims.{
  Claim, Resolution, Bike, FieldDefinition, FieldPolicy, Resolver, get_resolution, save_resolution,
}
use bike_doc.Profile.Claims.Found.{path_eq_sound, get-save_same, get-save_other}
use bike_doc.Profile.Gates.{Verdict, aside, eligible, verdict}
use bike_doc.Profile.Application.{retired, applied_resolution}
use bike_doc.Profile.Application.Applied.{apply_claim-IsApplied, applied_elsewhere, applied_here}
use bike_doc.Profile.Resolver.{
  resolve_claim, can_supersede, current_is_unknown, is_source, is_after, reaches,
}
use bike_doc.Profile.Resolver.Cases.{
  SameFact, IsNoted, IsTaken, judge-cases, resolve_aside, resolve_eligible, note_claim-IsNoted,
}
use bike_doc.Profile.Resolver.Passed.{IsEligible, verdict-IsEligible, eligible_path, eligible_found}

-- An installed claim that is newer, from a source that may replace the old one, with a score over the
-- threshold, takes the place of a value.
pub record IsReplaced (x : Resolver) (c : Claim) (b : Bike) (r : Resolution) : Type 0 where
  pub d : FieldDefinition
  pub p : FieldPolicy
  pub score : ℕ
  pub eligible_claim : IsEligible x c b d p score r
  pub source : is_source d.image_auto_supersedes r.source_type ≡ true
  pub newer_claim : is_after c.observed_at r.observed_at ≡ true
  pub score_reached : reaches p.auto_overwrite_threshold score ≡ true

-- What a claim makes of the resolution of a field that has a value.
abbrev pub Guarded : Resolver → Claim → Bike → Bike → Path_ → Resolution → Resolution → Type 0
Guarded x c b b' q r s =
    SameFact r s
    ⊎ (((s ≡ retired x.now r) × (is_null (technical_value q b'.technical_profile) ≡ true))
        ⊎ ((c.field_path ≡ q) × (s.current_value ≡ c.value) × IsReplaced x c b r))

supersede-IsReplaced :
    (x : Resolver) (c : Claim) (b : Bike) (d : FieldDefinition) (p : FieldPolicy) (score : ℕ)
    (r : Resolution)
    → IsEligible x c b d p score r
    → can_supersede d p score c r ≡ true
    → IsReplaced x c b r
unfolding can_supersede
supersede-IsReplaced x c b d p score r v h = record {
  d = d;
  p = p;
  score = score;
  eligible_claim = v;
  source = ground arith;
  newer_claim = ground arith;
  score_reached = ground arith;
}

SameFact-refl : (r : Resolution) → SameFact r r
SameFact-refl r = (refl, refl, refl, refl)

noted_guarded :
    (q : Path_) (r0 r : Resolution) (w : Bool) (b b' : Bike)
    → IsNoted r0 w b b'
    → (path_eq r0.field_path q ≡ true → r0 ≡ r)
    → get_resolution q b.resolutions ≡ some r
    → (s : Resolution) × (get_resolution q b'.resolutions ≡ some s) × SameFact r s
noted_guarded q r0 r w b b' (_, inl (_, same)) here e =
    (r, ap (λ y. get_resolution q y) same ∙ e, SameFact-refl r)
noted_guarded q r0 r w b b' (_, inr (s, fact, _, saved)) here e =
    elim (Bool-cases (path_eq s.field_path q)) [
      | inr h ↦ (
        r,
        ap (λ y. get_resolution q y) saved ∙ get-save_other s q b.resolutions h ∙ e,
        SameFact-refl r,
      )
      | inl h ↦ (
        s,
        ap (λ y. get_resolution q y) saved
            ∙ subst (λ y. get_resolution y (save_resolution s b.resolutions) ≡ some s)
                (path_eq_sound s.field_path q h) (get-save_same s b.resolutions),
        subst (λ y. SameFact y s) (here (ap (λ y. path_eq y q) (sym fact.3) ∙ h)) fact,
      )
    ]

IsReplaced-value :
    (x : Resolver) (c : Claim) (b : Bike) (d : FieldDefinition) (p : FieldPolicy) (n : ℕ)
    (r : Resolution)
    → IsEligible x c b d p n r
    → (current_is_unknown r ≡ true) ⊎ (can_supersede d p n c r ≡ true)
    → is_null r.current_value ≡ false
    → IsReplaced x c b r
IsReplaced-value x c b d p n r v (inl u) k = absurd (ground arith)
IsReplaced-value x c b d p n r v (inr h) k = supersede-IsReplaced x c b d p n r v h

module _ (x : Resolver) (c : Claim) (b b' : Bike) (q : Path_) (r : Resolution) where
  abbrev After : Type 0
  After = (s : Resolution) × (get_resolution q b'.resolutions ≡ some s) × Guarded x c b b' q r s

  -- The claim is judged against the resolution that stands at the field.
  judged_here :
      (d : FieldDefinition) (p : FieldPolicy) (n : ℕ) (r0 : Resolution)
      → IsEligible x c b d p n r0
      → get_resolution q b.resolutions ≡ some r
      → path_eq c.field_path q ≡ true
      → r0 ≡ r
  judged_here d p n r0 v e h =
      eligible_found x c b d p n r0 r v
        (ap (λ y. get_resolution y b.resolutions) (path_eq_sound c.field_path q h) ∙ e)

  taken_guarded :
      (d : FieldDefinition) (p : FieldPolicy) (n : ℕ) (r0 : Resolution) (w : Bool)
      → IsEligible x c b d p n r0
      → IsTaken x c d p n r0 w b b'
      → get_resolution q b.resolutions ≡ some r
      → is_null r.current_value ≡ false
      → After
  taken_guarded d p n r0 w v (reason, confidence, _, a, why) e k =
      let done = apply_claim-IsApplied x c reason confidence r0 b b' a in
      let at = eligible_path x c b d p n r0 v in
      elim (Bool-cases (path_eq c.field_path q)) [
        | inr h ↦ elim (applied_elsewhere x c confidence r0 r q b b' done at h e) [
          | inl f ↦ (r, f, inl (SameFact-refl r))
          | inr (f, l) ↦ (retired x.now r, f, inr (inl (refl, l)))
        ]
        | inl h ↦
            let same : c.field_path ≡ q = path_eq_sound c.field_path q h in
            (
              applied_resolution x.now c confidence r0,
              ap (λ y. get_resolution y b'.resolutions) (sym same)
                  ∙ applied_here x c confidence r0 b b' done at,
              inr (
                  inr (
                    same,
                    refl,
                    let here = judged_here d p n r0 v e h in
                        IsReplaced-value x c b d p n r (subst (IsEligible x c b d p n) here v)
                          (subst
                            (λ y. (current_is_unknown y ≡ true) ⊎ (can_supersede d p n c y ≡ true))
                            here why)
                          k,
                  )),
            )
      ]

  noted_after :
      (r0 : Resolution) (w : Bool)
      → IsNoted r0 w b b'
      → (path_eq r0.field_path q ≡ true → r0 ≡ r)
      → get_resolution q b.resolutions ≡ some r
      → After
  noted_after r0 w h here e =
      let (s, f, same) = noted_guarded q r0 r w b b' h here e in (s, f, inl same)

  by_verdict :
      (v : Verdict) (w : Bool)
      → verdict x c b ≡ v
      → resolve_claim x c b ≡ some (w, b')
      → get_resolution q b.resolutions ≡ some r
      → is_null r.current_value ≡ false
      → After
  by_verdict (aside d reason) w h y e k =
      noted_after r w
        (note_claim-IsNoted c d reason none r b b' w (λ s f. cc f)
          (sym (resolve_aside x c b d reason h) ∙ y))
        (λ at. refl) e
  by_verdict (eligible d p n r0) w h y e k =
      let v = verdict-IsEligible x c b d p n r0 h in
      elim (judge-cases x c d p n r0 b w b' (sym (resolve_eligible x c b d p n r0 h) ∙ y)) [
        | inr taken ↦ taken_guarded d p n r0 w v taken e k
        | inl noted ↦
            noted_after r0 w noted
              (λ at.
                judged_here d p n r0 v e
                  (ap (λ z. path_eq z q) (sym (eligible_path x c b d p n r0 v)) ∙ at))
              e
      ]

-- One claim changes what is known of a field that has a value in two ways only. Either the field lost
-- its value in the new projection, and its resolution is reset. Or the claim is on that very field, an
-- installed claim that passed every gate, is newer, comes where the field lets an image take the place
-- of the old source, and has a score that reaches the threshold to overwrite; the new value is the
-- claim's. In all other cases the value, its source and its claim stay.
pub resolve_claim-Guarded :
    (x : Resolver) (c : Claim) (b b' : Bike) (w : Bool) (q : Path_) (r : Resolution)
    → get_resolution q b.resolutions ≡ some r
    → is_null r.current_value ≡ false
    → resolve_claim x c b ≡ some (w, b')
    → (s : Resolution) × (get_resolution q b'.resolutions ≡ some s) × Guarded x c b b' q r s
resolve_claim-Guarded x c b b' w q r e k y = by_verdict x c b b' q r (verdict x c b) w refl y e k
