-- ===== src/Jobs/Delivery/Fencing.antt =====
-- Who may settle an execution: the token and the deadline of apply_outcome and recover_expired.
use bike_doc.Prelude.{ℕ, ◌≤◌, String, ◌≡◌, ◌≢◌, true, none, some, arith, eq_iff}
use bike_doc.Jobs.Row.{Job, is_running}
use bike_doc.Jobs.Values.{
  JobSnapshot, JobOutcome, Definition, DeliveryResolution, ResolutionKind, ExecutionPolicy,
}
use bike_doc.Jobs.Delivery.{
  is_current, apply_outcome_row, claim_execution, resolve_row, resolve_running,
}
use bike_doc.Jobs.Recovery.{recover_expired_row}

-- The token of an earlier execution settles nothing after a new claim.
pub claim_fences :
    (old token : String) (p : ExecutionPolicy) (o : JobOutcome) (now later : ℕ) (j : Job)
    → old ≢ token
    → apply_outcome_row old o later (claim_execution j p now token) ≡ none
unfolding apply_outcome_row is_current claim_execution
claim_fences old token p o now later j ne = ground (arith, eq_iff token old)

-- An execution is settled by its worker strictly before the deadline or recovered from the deadline
-- on: where the recovery of one time is accepted, no worker's outcome of that time or later is.
pub recover_excludes_apply :
    (t t' : String) (o o' : JobOutcome) (now later : ℕ) (j j' : Job)
    → now ≤ later
    → recover_expired_row t o now j ≡ some (some j')
    → apply_outcome_row t' o' later j ≡ none
unfolding apply_outcome_row is_current recover_expired_row
recover_excludes_apply t t' o o' now later j j' le e = ground arith

-- While an execution is within its deadline, a delivery for the job leaves the row alone and is
-- not answered EXECUTABLE.
pub resolve_row_exclusive :
    (g : ℕ) (w : String) (validate : JobSnapshot → Definition) (now : ℕ) (token : String) (j : Job)
    (r : DeliveryResolution) (j' : Job)
    → is_running j.state ≡ true
    → resolve_row g w validate now token j ≡ some (r, j')
    → (j' ≡ j) × (r.kind ≢ ResolutionKind.executable)
unfolding resolve_row resolve_running
resolve_row_exclusive g w validate now token j r j' s e = ground arith
