-- ===== src/Jobs/Validity.antt =====
-- The writes of the repository, the CHECK constraints of the table, and what later writes rely on.
use bike_doc.Prelude.{
  ℕ, ◌≤◌, ◌<◌, String, ◌≡◌, true, false, Option, some, arith, Bool, is_some, ◌&&◌, text_is→some,
  subst, sym, ap, Bool-cases, inl, inr, refl, ltb, leb,
}
use Prim.Native.String.{count}
use bike_doc.Jobs.Row.{Job, TransportError, is_terminal, is_waiting, attempts_exhausted}
use bike_doc.Jobs.Values.{
  JobOutcome, is_retry, final, retry, death, PublicationClaim, ExecutionPolicy, Definition, policy,
  refused, JobSnapshot, from_row, DeliveryResolution,
}
use bike_doc.Jobs.Constraints.{IsValid, IsConsistent}
use bike_doc.Jobs.Delivery.{
  finish, is_current, claim_execution, resolve_defined, resolve_row, apply_outcome_row,
}
use bike_doc.Jobs.Delivery.Shape.{resolve_row-cases}
use bike_doc.Jobs.Publication.{
  claim_row, confirm_publication_row, fail_publication_row, advance_publication_row,
}
use bike_doc.Jobs.Recovery.{
  recover_expired_row, require_fence, DiagnosticExecution, cross_boundary_row,
}

-- Both halves of what a stored row satisfies.
pub record IsSound (j : Job) : Type 0 where
  pub valid : IsValid j
  pub open valid use *
  pub consistent : IsConsistent j
  pub open consistent use *

module _ (j : Job) (now : ℕ) (v : IsSound j) (t : j.updated_at ≤ now) where
  pub claim_execution-IsSound :
      (p : ExecutionPolicy) (token : String)
      → 0 < p.hard_duration
      → count token ≡ 32
      → j.attempt_count < j.attempt_limit
      → is_waiting j.state ≡ true
      → IsSound (claim_execution j p now token)
  unfolding claim_execution
  claim_execution-IsSound p token d l a s = ground arith

  pub claim_row-IsSound : (d : ℕ) (token : String) → IsSound (claim_row d now token j).1
  unfolding claim_row
  claim_row-IsSound d token = ground arith

  pub confirm-IsSound :
      (c : PublicationClaim) (j' : Job) → confirm_publication_row c now j ≡ some j' → IsSound j'
  unfolding confirm_publication_row
  confirm-IsSound c j' e = ground arith

  pub fail-IsSound :
      (c : PublicationClaim) (r : TransportError) (d : ℕ) (j' : Job)
      → fail_publication_row c r d now j ≡ some j'
      → IsSound j'
  unfolding fail_publication_row
  fail-IsSound c r d j' e = ground arith

  pub advance-IsSound :
      (g : ℕ) (b : Option ℕ) (coalesce : Bool) (j' : Job)
      → advance_publication_row g b coalesce now j ≡ some j'
      → IsSound j'
  unfolding advance_publication_row
  advance-IsSound g b coalesce j' e = ground arith

  pub finish-IsSound :
      (o : JobOutcome)
      → is_terminal j.state ≡ false
      → (is_retry o && is_some j.effect_boundary_at) ≡ false
      → IsSound (finish j o now)
  unfolding finish
  finish-IsSound (final f x) s b = ground arith
  finish-IsSound (retry x d) s b = ground arith

  pub apply-IsSound :
      (token : String) (o : JobOutcome) (j' : Job)
      → apply_outcome_row token o now j ≡ some j'
      → IsSound j'
  unfolding apply_outcome_row finish is_current
  apply-IsSound token (final f x) j' e = ground arith
  apply-IsSound token (retry x d) j' e = ground arith

  pub recover-IsSound :
      (token : String) (o : JobOutcome) (j' : Job)
      → recover_expired_row token o now j ≡ some (some j')
      → IsSound j'
  unfolding recover_expired_row finish
  recover-IsSound token (final f x) j' e = ground arith
  recover-IsSound token (retry x d) j' e = ground arith

  pub cross-IsSound :
      (x : DiagnosticExecution) (then_ later : ℕ) (j' : Job)
      → now ≤ then_
      → cross_boundary_row x now then_ later j ≡ some j'
      → IsSound j'
  unfolding cross_boundary_row require_fence
  cross-IsSound x then_ later j' le e = ground (arith, text_is→some j.execution_token x.token)

  pub resolve_defined-IsSound :
      (d : Definition) (token : String)
      → ((p : ExecutionPolicy) → d ≡ policy p → 0 < p.hard_duration)
      → count token ≡ 32
      → is_waiting j.state ≡ true
      → IsSound (resolve_defined d j now token).1
  unfolding resolve_defined
  resolve_defined-IsSound (refused x) token d l s =
      finish-IsSound (final death (some x)) (ground arith) refl
  resolve_defined-IsSound (policy p) token d l s = elim (Bool-cases (ltb now j.eligible_at)) [
    | inl e ↦ rw e v
    | inr e ↦ rw e (elim (Bool-cases (leb j.attempt_limit j.attempt_count)) [
      | inl f ↦ rw f (finish-IsSound (final death (some attempts_exhausted)) (ground arith) refl)
      | inr f ↦ rw f (claim_execution-IsSound p token (d p refl) l (ground arith) s)
    ])
  ]

  pub resolve-IsSound :
      (g : ℕ) (w : String) (validate : JobSnapshot → Definition) (token : String)
      (r : DeliveryResolution) (j' : Job)
      → ((s : JobSnapshot) (p : ExecutionPolicy) → validate s ≡ policy p → 0 < p.hard_duration)
      → count token ≡ 32
      → resolve_row g w validate now token j ≡ some (r, j')
      → IsSound j'
  resolve-IsSound g w validate token r j' d l e =
      elim (resolve_row-cases g w validate now token j (r, j') e) [
        | inl (same, _) ↦ rw same v
        | inr (s, _, x) ↦
            subst IsSound (sym (ap (λ (y : DeliveryResolution × Job). y.1) x))
              (resolve_defined-IsSound (validate (from_row j)) token (d (from_row j)) l s)
      ]
