-- ===== src/Jobs/Writes/Refines.antt =====
-- A job as the abstract machine that a producer thinks of, and the writes of the repository as its
-- steps. The machine forgets tokens, deadlines, generations, claims and times.
use bike_doc.Prelude.{
  ℕ, ◌+◌, String, Bool, ◌≡◌, Option, some, true, false, not, ◌&&◌, ◌||◌, arith, sym, ap, subst, inl,
  inr, ltb, ◌==◌, is_some,
}
use bike_doc.Jobs.Row.{Job, State, TransportError, is_waiting, is_terminal}
use bike_doc.Jobs.Values.{
  JobSnapshot, JobOutcome, final, retry, Definition, policy, refused, DeliveryResolution, from_row,
  PublicationClaim,
}
use bike_doc.Jobs.Validity.{IsSound}
use bike_doc.Jobs.Delivery.{
  finish, apply_outcome_row, is_current, resolve_defined, resolve_row, claim_execution,
}
use bike_doc.Jobs.Delivery.Shape.{resolve_row-cases}
use bike_doc.Jobs.Publication.{
  claim_row, confirm_publication_row, fail_publication_row, advance_publication_row,
}
use bike_doc.Jobs.Recovery.{
  recover_expired_row, require_fence, DiagnosticExecution, cross_boundary_row,
}
use bike_doc.Jobs.Writes.{
  Write, claims, confirms, fails, resolves, outcomes, advances, recovers, crosses,
}

-- With the executions so far: waiting for one, in one that has or has not crossed the boundary, or
-- at the end.
pub data Machine : Type 0 where
  waiting : ℕ → Machine
  executing : ℕ → Bool → Machine
  ended : ℕ → State → Machine

abbrev pub view_of : State → ℕ → Bool → Machine
view_of State.queued n c = waiting n
view_of State.retrying n c = waiting n
view_of State.running n c = executing n c
view_of s n c = ended n s

abbrev pub view : Job → Machine
view j = view_of j.state j.attempt_count (is_some j.effect_boundary_at)

abbrev pub same_end : State → State → Bool
same_end State.succeeded State.succeeded = true
same_end State.interrupted State.interrupted = true
same_end State.dead State.dead = true
same_end _ _ = false

-- The steps that the machine may take with so many executions allowed. An execution starts while one
-- is left and has not crossed the boundary; what crossed it is not given back; what waits can end
-- only dead; the end stays.
abbrev pub may_step : ℕ → Machine → Machine → Bool
may_step limit (waiting n) (waiting m) = n == m
may_step limit (waiting n) (executing m c) = ltb n limit && (m == n + 1) && not c
may_step limit (waiting n) (ended m s) = (n == m) && same_end s State.dead
may_step limit (executing n c) (executing m d) = (n == m) && (not c || d)
may_step limit (executing n c) (waiting m) = (n == m) && not c && ltb n limit
may_step limit (executing n c) (ended m s) = (n == m) && is_terminal s
may_step limit (ended n s) (ended m t) = (n == m) && same_end s t
may_step limit (ended n s) _ = false

may_stay : (j : Job) → may_step j.attempt_limit (view j) (view j) ≡ true
may_stay j = ground arith

abbrev Refines : Job → Job → Type 0
Refines j j' = may_step j.attempt_limit (view j) (view j') ≡ true

module _ (j : Job) (now : ℕ) (v : IsSound j) where
  confirm_publication_row-Refines :
      (c : PublicationClaim) (j' : Job) → confirm_publication_row c now j ≡ some j' → Refines j j'
  unfolding confirm_publication_row
  confirm_publication_row-Refines c j' e = ground arith

  fail_publication_row-Refines :
      (c : PublicationClaim) (r : TransportError) (d : ℕ) (j' : Job)
      → fail_publication_row c r d now j ≡ some j'
      → Refines j j'
  unfolding fail_publication_row
  fail_publication_row-Refines c r d j' e = ground arith

  claim_row-Refines : (d : ℕ) (token : String) → Refines j (claim_row d now token j).1
  unfolding claim_row
  claim_row-Refines d token = may_stay j

  apply_outcome_row-Refines :
      (token : String) (o : JobOutcome) (j' : Job)
      → apply_outcome_row token o now j ≡ some j'
      → Refines j j'
  unfolding apply_outcome_row finish is_current
  apply_outcome_row-Refines token (final f x) j' e = ground arith
  apply_outcome_row-Refines token (retry x d) j' e = ground arith

  advance_publication_row-Refines :
      (g : ℕ) (b : Option ℕ) (coalesce : Bool) (j' : Job)
      → advance_publication_row g b coalesce now j ≡ some j'
      → Refines j j'
  unfolding advance_publication_row
  advance_publication_row-Refines g b coalesce j' e = ground arith

  recover_expired_row-Refines :
      (token : String) (o : JobOutcome) (j' : Job)
      → recover_expired_row token o now j ≡ some (some j')
      → Refines j j'
  unfolding recover_expired_row finish
  recover_expired_row-Refines token (final f x) j' e = ground arith
  recover_expired_row-Refines token (retry x d) j' e = ground arith

  cross_boundary_row-Refines :
      (x : DiagnosticExecution) (then_ later : ℕ) (j' : Job)
      → cross_boundary_row x now then_ later j ≡ some j'
      → Refines j j'
  unfolding cross_boundary_row require_fence
  cross_boundary_row-Refines x then_ later j' e = ground arith

  resolve_defined-Refines :
      (d : Definition) (token : String)
      → is_waiting j.state ≡ true
      → Refines j (resolve_defined d j now token).1
  unfolding resolve_defined finish claim_execution
  resolve_defined-Refines (refused x) token s = ground arith
  resolve_defined-Refines (policy p) token s = ground arith

  resolve_row-Refines :
      (g : ℕ) (w : String) (validate : JobSnapshot → Definition) (token : String)
      (r : DeliveryResolution) (j' : Job)
      → resolve_row g w validate now token j ≡ some (r, j')
      → Refines j j'
  resolve_row-Refines g w validate token r j' e =
      elim (resolve_row-cases g w validate now token j (r, j') e) [
        | inl (same, _) ↦ subst (Refines j) (sym same) (may_stay j)
        | inr (s, _, x) ↦
            subst (Refines j) (sym (ap (λ (y : DeliveryResolution × Job). y.1) x))
              (resolve_defined-Refines (validate (from_row j)) token s)
      ]

-- The repository implements the machine: on a sound row each of its writes is a step that the
-- machine may take, or leaves the machine's state as it is.
pub Write_refines :
    {now : ℕ} {j j' : Job}
    → Write now j j'
    → IsSound j
    → may_step j.attempt_limit (view j) (view j') ≡ true
Write_refines {now} {j} (claims d token h) v = claim_row-Refines j now v d token
Write_refines {now} {j} (confirms c {j' = k} e) v = confirm_publication_row-Refines j now v c k e
Write_refines {now} {j} (fails c r d {j' = k} e) v = fail_publication_row-Refines j now v c r d k e
Write_refines {now} {j} (resolves g w f token r {j' = k} p l e) v =
    resolve_row-Refines j now v g w f token r k e
Write_refines {now} {j} (outcomes token o {j' = k} e) v =
    apply_outcome_row-Refines j now v token o k e
Write_refines {now} {j} (advances g b c {j' = k} e) v =
    advance_publication_row-Refines j now v g b c k e
Write_refines {now} {j} (recovers token o {j' = k} e) v =
    recover_expired_row-Refines j now v token o k e
Write_refines {now} {j} (crosses x a b {j' = k} le e) v =
    cross_boundary_row-Refines j now v x a b k e
