-- ===== src/Jobs/Writes.antt =====
-- The writes that BackgroundJobRepository and the execution fence make to one locked row at one
-- time, with what each takes for granted of its caller.
pub mod Guarded
pub mod History
pub mod Refines
pub mod Settled
use Prim.Native.String.{count}
use bike_doc.Prelude.{ℕ, ◌≤◌, ◌<◌, String, Bool, ◌≡◌, true, Option, some}
use bike_doc.Jobs.Row.{Job, TransportError}
use bike_doc.Jobs.Values.{
  JobSnapshot, JobOutcome, ExecutionPolicy, Definition, policy, PublicationClaim,
  DeliveryResolution,
}
use bike_doc.Jobs.Delivery.{resolve_row, apply_outcome_row}
use bike_doc.Jobs.Publication.{
  is_publishable, claim_row, confirm_publication_row, fail_publication_row, advance_publication_row,
}
use bike_doc.Jobs.Recovery.{recover_expired_row, DiagnosticExecution, cross_boundary_row}
use bike_doc.Jobs.Validity.{
  IsSound, claim_row-IsSound, confirm-IsSound, fail-IsSound, advance-IsSound, apply-IsSound,
  recover-IsSound, cross-IsSound, resolve-IsSound,
}

-- A validator's policies went through `ExecutionPolicy.__post_init__`.
abbrev pub Positive : (JobSnapshot → Definition) → Type 0
Positive validate =
    (s : JobSnapshot) (p : ExecutionPolicy) → validate s ≡ policy p → 0 < p.hard_duration

pub data Write (now : ℕ) (j : Job) : Job → Type 0 where
  claims :
      (d : ℕ) (token : String)
      → is_publishable now j ≡ true
      → Write now j (claim_row d now token j).1
  confirms :
      (c : PublicationClaim) {j' : Job} → confirm_publication_row c now j ≡ some j' → Write now j j'
  fails :
      (c : PublicationClaim) (r : TransportError) (d : ℕ) {j' : Job}
      → fail_publication_row c r d now j ≡ some j'
      → Write now j j'
  resolves :
      (g : ℕ) (w : String) (validate : JobSnapshot → Definition) (token : String)
      (r : DeliveryResolution) {j' : Job}
      → Positive validate
      → count token ≡ 32
      → resolve_row g w validate now token j ≡ some (r, j')
      → Write now j j'
  outcomes :
      (token : String) (o : JobOutcome) {j' : Job}
      → apply_outcome_row token o now j ≡ some j'
      → Write now j j'
  advances :
      (g : ℕ) (before : Option ℕ) (coalesce : Bool) {j' : Job}
      → advance_publication_row g before coalesce now j ≡ some j'
      → Write now j j'
  recovers :
      (token : String) (o : JobOutcome) {j' : Job}
      → recover_expired_row token o now j ≡ some (some j')
      → Write now j j'
  crosses :
      (x : DiagnosticExecution) (then_ later : ℕ) {j' : Job}
      → now ≤ then_
      → cross_boundary_row x now then_ later j ≡ some j'
      → Write now j j'

-- Every write of the repository to a sound row, at a time not before its last update, leaves a sound
-- row: it keeps the CHECK constraints, and what the next write relies on.
pub Write-IsSound :
    {now : ℕ} {j j' : Job} → Write now j j' → j.updated_at ≤ now → IsSound j → IsSound j'
Write-IsSound {now} {j} (claims d token h) t v = claim_row-IsSound j now v t d token
Write-IsSound {now} {j} (confirms c {j' = k} e) t v = confirm-IsSound j now v t c k e
Write-IsSound {now} {j} (fails c r d {j' = k} e) t v = fail-IsSound j now v t c r d k e
Write-IsSound {now} {j} (resolves g w f token r {j' = k} p l e) t v =
    resolve-IsSound j now v t g w f token r k p l e
Write-IsSound {now} {j} (outcomes token o {j' = k} e) t v = apply-IsSound j now v t token o k e
Write-IsSound {now} {j} (advances g b c {j' = k} e) t v = advance-IsSound j now v t g b c k e
Write-IsSound {now} {j} (recovers token o {j' = k} e) t v = recover-IsSound j now v t token o k e
Write-IsSound {now} {j} (crosses x a b {j' = k} le e) t v = cross-IsSound j now v t x a b k le e
