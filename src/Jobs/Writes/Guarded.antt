-- ===== src/Jobs/Writes/Guarded.antt =====
-- The writes of the repository and the triggers of migrations 0009 and 0012.
use bike_doc.Prelude.{
  ℕ, ◌≤◌, String, Bool, ◌≡◌, Option, some, true, arith, sym, ap, subst, inl, inr,
}
use bike_doc.Jobs.Row.{Job, TransportError, is_waiting}
use bike_doc.Jobs.Values.{
  JobSnapshot, JobOutcome, final, retry, Definition, policy, refused, DeliveryResolution, from_row,
  PublicationClaim,
}
use bike_doc.Jobs.Constraints.{IsPermitted}
use bike_doc.Jobs.Validity.{IsSound}
use bike_doc.Jobs.Delivery.{finish, apply_outcome_row, is_current, resolve_defined, resolve_row}
use bike_doc.Jobs.Delivery.Shape.{resolve_row-cases}
use bike_doc.Jobs.Publication.{
  claim_row, confirm_publication_row, fail_publication_row, advance_publication_row,
}
use bike_doc.Jobs.Recovery.{
  recover_expired_row, require_fence, DiagnosticExecution, cross_boundary_row,
}
use bike_doc.Jobs.Writes.{
  Write, claims, confirms, fails, resolves, outcomes, advances, recovers, crosses,
}

IsPermitted-refl : (j : Job) → IsPermitted j j
IsPermitted-refl j = ground arith

module _ (j : Job) (now : ℕ) (v : IsSound j) (t : j.updated_at ≤ now) where
  claim_row-IsPermitted : (d : ℕ) (token : String) → IsPermitted j (claim_row d now token j).1
  unfolding claim_row
  claim_row-IsPermitted d token = ground arith

  confirm-IsPermitted :
      (c : PublicationClaim) (j' : Job)
      → confirm_publication_row c now j ≡ some j'
      → IsPermitted j j'
  unfolding confirm_publication_row
  confirm-IsPermitted c j' e = ground arith

  apply-IsPermitted :
      (token : String) (o : JobOutcome) (j' : Job)
      → apply_outcome_row token o now j ≡ some j'
      → IsPermitted j j'
  unfolding apply_outcome_row finish is_current
  apply-IsPermitted token (final f x) j' e = ground arith
  apply-IsPermitted token (retry x d) j' e = ground arith

  fail-IsPermitted :
      (c : PublicationClaim) (r : TransportError) (d : ℕ) (j' : Job)
      → fail_publication_row c r d now j ≡ some j'
      → IsPermitted j j'
  unfolding fail_publication_row
  fail-IsPermitted c r d j' e = ground arith

  advance-IsPermitted :
      (g : ℕ) (b : Option ℕ) (coalesce : Bool) (j' : Job)
      → advance_publication_row g b coalesce now j ≡ some j'
      → IsPermitted j j'
  unfolding advance_publication_row
  advance-IsPermitted g b coalesce j' e = ground arith

  recover-IsPermitted :
      (token : String) (o : JobOutcome) (j' : Job)
      → recover_expired_row token o now j ≡ some (some j')
      → IsPermitted j j'
  unfolding recover_expired_row finish
  recover-IsPermitted token (final f x) j' e = ground arith
  recover-IsPermitted token (retry x d) j' e = ground arith

  cross-IsPermitted :
      (x : DiagnosticExecution) (then_ later : ℕ) (j' : Job)
      → cross_boundary_row x now then_ later j ≡ some j'
      → IsPermitted j j'
  unfolding cross_boundary_row require_fence
  cross-IsPermitted x then_ later j' e = ground arith

  resolve_defined-IsPermitted :
      (d : Definition) (token : String)
      → is_waiting j.state ≡ true
      → IsPermitted j (resolve_defined d j now token).1
  unfolding resolve_defined
  resolve_defined-IsPermitted (refused x) token s = ground arith
  resolve_defined-IsPermitted (policy p) token s = ground arith

  resolve-IsPermitted :
      (g : ℕ) (w : String) (validate : JobSnapshot → Definition) (token : String)
      (r : DeliveryResolution) (j' : Job)
      → resolve_row g w validate now token j ≡ some (r, j')
      → IsPermitted j j'
  resolve-IsPermitted g w validate token r j' e =
      elim (resolve_row-cases g w validate now token j (r, j') e) [
        | inl (same, _) ↦ subst (IsPermitted j) (sym same) (IsPermitted-refl j)
        | inr (s, _, x) ↦
            subst (IsPermitted j) (sym (ap (λ (y : DeliveryResolution × Job). y.1) x))
              (resolve_defined-IsPermitted (validate (from_row j)) token s)
      ]

-- No write of the repository to a sound row, at a time not before its last update, is refused by the
-- table's triggers: the definition, a
-- terminal outcome, the first start, the effect boundary and its owner, and the deadline of a
-- token never change, and no counter decreases.
pub Write-IsPermitted :
    {now : ℕ} {j j' : Job} → Write now j j' → j.updated_at ≤ now → IsSound j → IsPermitted j j'
Write-IsPermitted {now} {j} (claims d token h) t v = claim_row-IsPermitted j now v t d token
Write-IsPermitted {now} {j} (confirms c {j' = k} e) t v = confirm-IsPermitted j now v t c k e
Write-IsPermitted {now} {j} (fails c r d {j' = k} e) t v = fail-IsPermitted j now v t c r d k e
Write-IsPermitted {now} {j} (resolves g w f token r {j' = k} p l e) t v =
    resolve-IsPermitted j now v t g w f token r k e
Write-IsPermitted {now} {j} (outcomes token o {j' = k} e) t v =
    apply-IsPermitted j now v t token o k e
Write-IsPermitted {now} {j} (advances g b c {j' = k} e) t v =
    advance-IsPermitted j now v t g b c k e
Write-IsPermitted {now} {j} (recovers token o {j' = k} e) t v =
    recover-IsPermitted j now v t token o k e
Write-IsPermitted {now} {j} (crosses x a b {j' = k} le e) t v =
    cross-IsPermitted j now v t x a b k e
