-- ===== src/Profile/Resolver/Loop.antt =====
-- The agreement of resolutions and projection, through the loop of the resolver.
use bike_doc.Prelude.{
  Bool, true, some, List, [], ◌∷◌, ◌≡◌, ◌∙◌, refl, inl, inr, sym, ap, subst, order_by, arith,
}
use bike_doc.Profile.Tree.{Json, Path_, technical_value}
use bike_doc.Profile.Tree.Keeps.{is_scalar}
use bike_doc.Profile.Claims.{Claim, Bike, FieldDefinition, Resolver, get_resolution}
use bike_doc.Profile.Gates.{Verdict, aside, eligible, verdict, is_path}
use bike_doc.Profile.Application.Applied.{apply_claim-IsApplied}
use bike_doc.Profile.Resolver.{resolve_claim, resolve_claims, resolve, resolution_order}
use bike_doc.Profile.Resolver.Cases.{judge-cases, resolve_eligible}
use bike_doc.Profile.Resolver.Passed.{verdict-IsEligible, eligible_path}
use bike_doc.Profile.Resolver.Unchanged.{IsSameProfile, aside_same, claims_step}
use bike_doc.Profile.Resolver.Agrees.{IsFlat, Agrees, found_agrees, noted-Agrees}
use bike_doc.Profile.Resolver.Invariant.{applied-Agrees}

-- The table of canonical fields: its paths are leaves, and a value that it accepts is a text, a number
-- or a flag.
pub record IsCanonical (x : Resolver) : Type 0 where
  pub flat : IsFlat x.registry
  pub defined :
      (p : Path_) (d : FieldDefinition) → x.definition p ≡ some d → is_path x.registry p ≡ true
  pub accepted : (p : Path_) (value : Json) → x.accepts p value ≡ true → is_scalar value ≡ true

same-Agrees :
    (x : Resolver) (b b' : Bike) → IsSameProfile b b' → Agrees x.registry b → Agrees x.registry b'
same-Agrees x b b' same before q s f =
    let v = before q s (ap (λ y. get_resolution q y) (sym same.resolutions) ∙ f) in
    record {
      known = v.known;
      scalar = v.scalar;
      agree = λ n. ap (technical_value q) same.profile ∙ v.agree n;
    }

module _ (x : Resolver) (table : IsCanonical x) where
  claim-Agrees :
      (c : Claim) (b b' : Bike) (w : Bool) (v : Verdict)
      → verdict x c b ≡ v
      → resolve_claim x c b ≡ some (w, b')
      → Agrees x.registry b
      → Agrees x.registry b'
  claim-Agrees c b b' w (aside d reason) h e before =
      same-Agrees x b b' (aside_same x c b b' w d reason h e) before
  claim-Agrees c b b' w (eligible d p n r) h e before =
      let v = verdict-IsEligible x c b d p n r h in
      let at = eligible_path x c b d p n r v in
      let canonical = table.defined c.field_path d v.definition in
      let scalar = table.accepted c.field_path c.value v.value in
      elim (judge-cases x c d p n r b w b' (sym (resolve_eligible x c b d p n r h) ∙ e)) [
        | inl noted ↦
            noted-Agrees x.registry c.field_path b b' before r w noted at
              (found_agrees x.registry c.field_path b b' before r canonical v.resolution)
        | inr (reason, confidence, _, a, _) ↦
            applied-Agrees x c b b' table.flat canonical scalar before confidence r
              (apply_claim-IsApplied x c reason confidence r b b' a) at
      ]

  claims_agree :
      (cs : List Claim) (b b' : Bike) (w : Bool)
      → resolve_claims x cs b ≡ some (w, b')
      → Agrees x.registry b
      → Agrees x.registry b'
  unfolding resolve_claims
  claims_agree [] b b' w e before = subst (Agrees x.registry) (ground arith) before
  claims_agree (c ∷ cs) b b' w e before =
      let (v, b1, m, f, g, _) = claims_step x c cs b b' w e in
      claims_agree cs b1 b' m g (claim-Agrees c b b1 v (verdict x c b) refl f before)

-- A batch of claims keeps the resolutions and the projection in agreement: if every resolution with a
-- value is of a canonical field and has the text, number or flag that the projection reads there, then the
-- same holds after the batch, whichever claims are applied, and whatever they retire. The canonical
-- paths are leaves that part from each other, and the table accepts only texts, numbers and flags.
pub resolve-Agrees :
    (x : Resolver) (cs : List Claim) (b b' : Bike) (w : Bool)
    → IsCanonical x
    → Agrees x.registry b
    → resolve x cs b ≡ some (w, b')
    → Agrees x.registry b'
unfolding resolve
resolve-Agrees x cs b b' w table before e =
    claims_agree x table (order_by resolution_order cs) b b' w e before
