-- ===== src/Profile/Resolver/Unchanged.antt =====
-- When the resolver reports that nothing changed, and the shadow policy.
use bike_doc.Prelude.{
  String, Bool, true, false, ◌||◌, Option, none, some, List, [], ◌∷◌, ◌≡◌, ◌∙◌, arith, refl,
  Option-cases, inl, inr, sym, subst, order_by,
}
use bike_doc.Profile.Claims.{Disposition, Claim, Resolution, Bike, Resolver, is_shadow}
use bike_doc.Profile.Gates.{Verdict, aside, eligible, verdict}
use bike_doc.Profile.Resolver.{resolve_claim, resolve_claims, resolve, note_claim, resolution_order}
use bike_doc.Profile.Resolver.Cases.{IsNoted, judge-cases, resolve_aside, resolve_eligible}
use bike_doc.Profile.Resolver.Passed.{verdict-IsEligible}

-- The projection and the resolutions are as they were.
pub record IsSameProfile (b b' : Bike) : Type 0 where
  pub profile : b'.technical_profile ≡ b.technical_profile
  pub resolutions : b'.resolutions ≡ b.resolutions

neither : (v m : Bool) → false ≡ (v || m) → (v ≡ false) × (m ≡ false)
neither v m h = ground arith

noted_false : (r : Resolution) (b b' : Bike) → IsNoted r false b b' → IsSameProfile b b'
noted_false r b b' (p, inl (_, e)) = record { profile = p; resolutions = e }
noted_false r b b' (_, inr (_, _, h, _)) = cc h

-- A claim that is set aside changes nothing of the profile.
pub aside_same :
    (x : Resolver) (c : Claim) (b b' : Bike) (w : Bool) (d : Disposition) (reason : String)
    → verdict x c b ≡ aside d reason
    → resolve_claim x c b ≡ some (w, b')
    → IsSameProfile b b'
unfolding note_claim
aside_same x c b b' w d reason h e =
    let done : ◌≡◌ {A = Option (Bool × Bike)} (some (note_claim c d reason none b)) (some (w, b')) =
      sym (resolve_aside x c b d reason h) ∙ e in
    record { profile = ground arith; resolutions = ground arith }

module _ (x : Resolver) where
  claim_unchanged :
      (c : Claim) (b b' : Bike) (v : Verdict)
      → verdict x c b ≡ v
      → resolve_claim x c b ≡ some (false, b')
      → IsSameProfile b b'
  claim_unchanged c b b' (aside d reason) h e = aside_same x c b b' false d reason h e
  claim_unchanged c b b' (eligible d p n r) h e =
      elim (judge-cases x c d p n r b false b' (sym (resolve_eligible x c b d p n r h) ∙ e)) [
        | inl noted ↦ noted_false r b b' noted
        | inr (_, _, w, _, _) ↦ cc w
      ]

  claims_next :
      (c : Claim) (cs : List Claim) (b b1 b2 : Bike) (w m : Bool)
      → resolve_claim x c b ≡ some (w, b1)
      → resolve_claims x cs b1 ≡ some (m, b2)
      → resolve_claims x (c ∷ cs) b ≡ some (w || m, b2)
  unfolding resolve_claims
  claims_next c cs b b1 b2 w m e f = rw (e, resolve_claims) (rw f refl)

  claims_stop :
      (c : Claim) (cs : List Claim) (b : Bike)
      → resolve_claim x c b ≡ none
      → resolve_claims x (c ∷ cs) b ≡ none
  unfolding resolve_claims
  claims_stop c cs b e = rw (e, resolve_claims) refl

  claims_stop_later :
      (c : Claim) (cs : List Claim) (b b1 : Bike) (w : Bool)
      → resolve_claim x c b ≡ some (w, b1)
      → resolve_claims x cs b1 ≡ none
      → resolve_claims x (c ∷ cs) b ≡ none
  unfolding resolve_claims
  claims_stop_later c cs b b1 w e f = rw (e, resolve_claims) (rw f refl)

  -- The loop goes from claim to claim.
  pub claims_step :
      (c : Claim) (cs : List Claim) (b b' : Bike) (w : Bool)
      → resolve_claims x (c ∷ cs) b ≡ some (w, b')
      → (v : Bool) × (b1 : Bike) × (m : Bool) × (resolve_claim x c b ≡ some (v, b1))
        × (resolve_claims x cs b1 ≡ some (m, b'))
        × (w ≡ (v || m))
  claims_step c cs b b' w e = elim (Option-cases (resolve_claim x c b)) [
    | inl n ↦ cc (e, claims_stop c cs b n)
    | inr ((v, b1), f) ↦ elim (Option-cases (resolve_claims x cs b1)) [
      | inl n ↦ cc (e, claims_stop_later c cs b b1 v f n)
      | inr ((m, b2), g) ↦
          let h : ◌≡◌ {A = Option (Bool × Bike)} (some (v || m, b2)) (some (w, b')) =
            sym (claims_next c cs b b1 b2 v m f g) ∙ e in
          (
            v,
            b1,
            m,
            f,
            subst (λ y. resolve_claims x cs b1 ≡ some (m, y)) (ground arith) g,
            ground arith,
          )
    ]
  ]

  same_then : (b b1 b2 : Bike) → IsSameProfile b b1 → IsSameProfile b1 b2 → IsSameProfile b b2
  same_then b b1 b2 v w = record {
    profile = w.profile ∙ v.profile;
    resolutions = w.resolutions ∙ v.resolutions;
  }

  claims_unchanged :
      (cs : List Claim) (b b' : Bike)
      → resolve_claims x cs b ≡ some (false, b')
      → IsSameProfile b b'
  unfolding resolve_claims
  claims_unchanged [] b b' e = record { profile = ground arith; resolutions = ground arith }
  claims_unchanged (c ∷ cs) b b' e =
      let (v, b1, m, f, g, h) = claims_step c cs b b' false e in
      let (k, l) = neither v m h in
      same_then b b1 b'
        (claim_unchanged c b b1 (verdict x c b) refl
          (subst (λ y. resolve_claim x c b ≡ some (y, b1)) k f))
        (claims_unchanged cs b1 b' (subst (λ y. resolve_claims x cs b1 ≡ some (y, b')) l g))

  shadow_claim :
      (c : Claim) (b : Bike) (v : Verdict)
      → verdict x c b ≡ v
      → is_shadow x.mode ≡ true
      → (b' : Bike) × (resolve_claim x c b ≡ some (false, b'))
  unfolding note_claim
  shadow_claim c b (aside d reason) h s = (_, resolve_aside x c b d reason h)
  shadow_claim c b (eligible d p n r) h s = cc (s, (verdict-IsEligible x c b d p n r h).enabled)

  shadow_claims :
      (cs : List Claim) (b : Bike)
      → is_shadow x.mode ≡ true
      → (b' : Bike) × (resolve_claims x cs b ≡ some (false, b'))
  unfolding resolve_claims
  shadow_claims [] b s = (b, refl)
  shadow_claims (c ∷ cs) b s =
      let (b1, e) = shadow_claim c b (verdict x c b) refl s in
      let (b2, f) = shadow_claims cs b1 s in (b2, claims_next c cs b b1 b2 false false e f)

-- A batch of claims that reports no change has left the projection and every resolution as they were.
pub resolve_unchanged :
    (x : Resolver) (cs : List Claim) (b b' : Bike)
    → resolve x cs b ≡ some (false, b')
    → IsSameProfile b b'
unfolding resolve
resolve_unchanged x cs b b' e = claims_unchanged x (order_by resolution_order cs) b b' e

-- Under the shadow policy every batch of claims succeeds, reports no change, and leaves the projection
-- and every resolution as they were.
pub resolve_shadow :
    (x : Resolver) (cs : List Claim) (b : Bike)
    → is_shadow x.mode ≡ true
    → (b' : Bike) × (resolve x cs b ≡ some (false, b')) × IsSameProfile b b'
unfolding resolve
resolve_shadow x cs b s =
    let (b', e) = shadow_claims x (order_by resolution_order cs) b s in
    (b', e, claims_unchanged x (order_by resolution_order cs) b b' e)
