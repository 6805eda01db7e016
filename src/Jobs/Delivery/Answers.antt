-- ===== src/Jobs/Delivery/Answers.antt =====
-- What a delivery is answered by resolve_delivery, and its assertions.
use bike_doc.Prelude.{
  ℕ, ◌+◌, ◌≤◌, ◌<◌, String, ◌≡◌, true, false, none, some, arith, refl, eq_refl, Option, Bool,
  is_none, ◌&&◌,
}
use bike_doc.Jobs.Row.{Job, is_running, is_waiting, succeeded}
use bike_doc.Jobs.Values.{
  JobSnapshot, final, success, Definition, policy, refused, DeliveryResolution, ResolutionKind,
  ExecutionPolicy, from_row,
}
use bike_doc.Jobs.Validity.{IsSound}
use bike_doc.Jobs.Delivery.{
  finish, is_current, apply_outcome_row, claim_execution, resolve_row, resolve_running,
  resolve_defined, resolution,
}

-- The kinds whose answer must carry the time to wait for.
abbrev pub waits : ResolutionKind → Bool
waits ResolutionKind.early = true
waits ResolutionKind.running = true
waits _ = false

-- The answer is there, shows the row as it was written, and has a time where one is awaited.
abbrev pub IsAnswered : Option (DeliveryResolution × Job) → Type 0
IsAnswered none = ⊥
IsAnswered (some x) =
    (x.0.job ≡ some (from_row x.1)) × ((waits x.0.kind && is_none x.0.wait_until) ≡ false)

resolve_defined-IsAnswered :
    (d : Definition) (j : Job) (now : ℕ) (token : String)
    → IsAnswered (some (resolve_defined d j now token))
unfolding resolve_defined
resolve_defined-IsAnswered (refused x) j now token = (refl, refl)
resolve_defined-IsAnswered (policy p) j now token = ground arith

running_deadline :
    (j : Job) → IsSound j → is_running j.state ≡ true → (d : ℕ) × (j.execution_deadline ≡ some d)
running_deadline j v s = ground arith

resolve_running-IsAnswered :
    (j : Job) (now : ℕ) → IsSound j → is_running j.state ≡ true → IsAnswered (resolve_running j now)
unfolding resolve_running
resolve_running-IsAnswered j now v s =
    let (d, e) = running_deadline j v s in rw (e, resolve_running) (refl, ground arith)

-- On a sound row resolve_delivery fails no assertion, and its answer meets those of the worker: it
-- carries the job as it was written, and a time to wait for if the kind is EARLY or RUNNING.
pub resolve_row-IsAnswered :
    (g : ℕ) (w : String) (validate : JobSnapshot → Definition) (now : ℕ) (token : String) (j : Job)
    → IsSound j
    → IsAnswered (resolve_row g w validate now token j)
unfolding resolve_row
resolve_row-IsAnswered g w validate now token j v = ground (
  arith,
  resolve_running-IsAnswered j now v,
  resolve_defined-IsAnswered (validate (from_row j)) j now token,
)

-- A sound, due job with an attempt left, whose definition is accepted, is executed by a delivery of its current generation, under the
-- deadline of its policy, and the worker that then succeeds before the deadline ends the job.
pub due_job_succeeds :
    (j : Job) (validate : JobSnapshot → Definition) (p : ExecutionPolicy) (now later : ℕ)
    (token : String)
    → IsSound j
    → is_waiting j.state ≡ true
    → j.eligible_at ≤ now
    → j.attempt_count < j.attempt_limit
    → validate (from_row j) ≡ policy p
    → later < now + p.hard_duration
    → (r : DeliveryResolution) × (j' : Job) × (j'' : Job) × (resolve_row j.desired_generation
          j.workload_class validate now token j
        ≡ some (r, j'))
      × (r.kind ≡ ResolutionKind.executable)
      × (apply_outcome_row token (final success none) later j' ≡ some j'')
      × (j''.state ≡ succeeded)
      × (j''.attempt_count ≡ j.attempt_count + 1)
unfolding resolve_row resolve_defined apply_outcome_row is_current claim_execution finish
due_job_succeeds j validate p now later token v s e a d l =
    let j' : Job = claim_execution j p now token in
    (
      resolution ResolutionKind.executable j' none,
      j',
      finish j' (final success none) later,
      ground (arith, eq_refl j.workload_class),
      refl,
      ground (arith, eq_refl token),
      refl,
      refl,
    )
