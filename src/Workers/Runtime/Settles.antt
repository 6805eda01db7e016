-- ===== src/Workers/Runtime/Settles.antt =====
-- The acknowledgement of deliveries by PullWorker (workers/runtime.py).
use bike_doc.Prelude.{
  Option, ℕ, ◌<◌, String, subst, ◌≡◌, ◌≢◌, ◌⊎◌, true, false, none, some, arith, refl, inl, inr, sym,
  ◌∙◌, ap, is_some, leb, Bool-cases, is_none, ◌&&◌,
}
use bike_doc.Jobs.Row.{Job, is_terminal}
use bike_doc.Jobs.Values.{
  JobSnapshot, Definition, DeliveryResolution, ResolutionKind, from_row, JobOutcome, final, retry,
}
use bike_doc.Jobs.Validity.{IsSound}
use bike_doc.Jobs.Delivery.{
  resolve_row, resolve_running, resolve_defined, claim_execution, resolution, finish,
  apply_outcome_row,
}
use bike_doc.Jobs.Delivery.Answers.{IsAnswered, resolve_row-IsAnswered, waits}
use bike_doc.Jobs.Table.{Table, lock, apply_outcome, flush}
use bike_doc.Jobs.Table.Laws.{lock-flush_self, on_locked-cases}
use bike_doc.Workers.Runtime.{
  ack, terminate, unsettled, nak, settle, execute, Action, HandlerEnd, delay_until, resolved,
  execute_job, settle_persisted, finish_execution,
}
use bike_doc.Workers.Policy.{HandlerPolicy}

-- The execution that an answer starts has its deadline and its token.
executable-IsClaimed :
    (g : ℕ) (w : String) (validate : JobSnapshot → Definition) (now : ℕ) (token : String) (j : Job)
    (r : DeliveryResolution) (j' : Job)
    → resolve_row g w validate now token j ≡ some (r, j')
    → r.kind ≡ ResolutionKind.executable
    → (is_some j'.execution_deadline ≡ true) × (is_some j'.execution_token ≡ true)
unfolding resolve_row resolve_running resolve_defined claim_execution
executable-IsClaimed g w validate now token j r j' e k = ground arith

module _ (p : HandlerPolicy) (end : HandlerEnd) (claimed finished applied settled : ℕ)
    (t : Table) where
  -- What the worker does ends with a settlement, not with a failed assertion.
  abbrev pub IsDone : Action → Type 0
  IsDone (settle s) = Unit
  IsDone (execute job) = execute_job p job end claimed finished applied settled t ≢ none

  execute_job-some :
      (job : JobSnapshot)
      → is_some job.execution_deadline ≡ true
      → is_some job.execution_token ≡ true
      → execute_job p job end claimed finished applied settled t ≢ none
  unfolding execute_job
  execute_job-some job d k = ground arith

  resolved-IsDone :
      (recovery_delay now : ℕ) (kind : ResolutionKind) (j : Job) (wait : Option ℕ)
      → (waits kind && is_none wait) ≡ false
      → (kind ≡ ResolutionKind.executable
          → (is_some j.execution_deadline ≡ true) × (is_some j.execution_token ≡ true))
      → (a : Action) × (resolved recovery_delay now (resolution kind j wait) ≡ some a) × IsDone a
  unfolding resolved
  resolved-IsDone d now ResolutionKind.terminal j wait h c = (settle ack, refl, tt)
  resolved-IsDone d now ResolutionKind.stale j wait h c = (settle ack, refl, tt)
  resolved-IsDone d now ResolutionKind.exhausted j wait h c = (settle ack, refl, tt)
  resolved-IsDone d now ResolutionKind.prohibited j wait h c = (settle terminate, refl, tt)
  resolved-IsDone d now ResolutionKind.missing j wait h c = (settle terminate, refl, tt)
  resolved-IsDone d now ResolutionKind.definition_failure j wait h c = (settle terminate, refl, tt)
  resolved-IsDone d now ResolutionKind.early j none h c = cc h
  resolved-IsDone d now ResolutionKind.early j (some at) h c =
      (settle (nak (delay_until at now)), refl, tt)
  resolved-IsDone d now ResolutionKind.running j none h c = cc h
  resolved-IsDone d now ResolutionKind.running j (some at) h c =
      (settle (nak (delay_until at now)), refl, tt)
  resolved-IsDone d now ResolutionKind.recovery_wait j wait h c = (settle (nak d), refl, tt)
  resolved-IsDone d now ResolutionKind.executable j wait h c =
      (execute (from_row j), refl, execute_job-some (from_row j) (c refl).0 (c refl).1)

  -- The worker meets no answer that fails its assertions: whatever a delivery of a sound row is
  -- answered, _resolved settles it or executes the job, and the execution finds the deadline and the
  -- token that it asserts, however its handler ends.
  pub resolved_total :
      (g : ℕ) (w : String) (validate : JobSnapshot → Definition) (now : ℕ) (token : String)
      (j : Job) (recovery_delay later : ℕ) (r : DeliveryResolution) (j' : Job)
      → IsSound j
      → resolve_row g w validate now token j ≡ some (r, j')
      → (a : Action) × (resolved recovery_delay later r ≡ some a) × IsDone a
  resolved_total g w validate now token j recovery_delay later r j' v e =
      let (shown, waits_) =
        subst IsAnswered e (resolve_row-IsAnswered g w validate now token j v) in
      let same : r ≡ resolution r.kind j' r.wait_until =
        ap (λ x. record { kind = r.kind; job = x; wait_until = r.wait_until }) shown in
      subst (λ y. (a : Action) × (resolved recovery_delay later y ≡ some a) × IsDone a) (sym same)
        (resolved-IsDone recovery_delay later r.kind j' r.wait_until waits_
          (executable-IsClaimed g w validate now token j r j' e))

-- A delivery that is acknowledged without an execution leaves a job that has ended, or one that
-- has meanwhile raised a newer notification.
pub resolved_ack :
    (g : ℕ) (w : String) (validate : JobSnapshot → Definition) (now : ℕ) (token : String) (j : Job)
    (recovery_delay later : ℕ) (r : DeliveryResolution) (j' : Job)
    → resolve_row g w validate now token j ≡ some (r, j')
    → resolved recovery_delay later r ≡ some (settle ack)
    → (is_terminal j'.state ≡ true) ⊎ (g < j'.desired_generation)
unfolding resolve_row resolved
resolved_ack g w validate now token j recovery_delay later r j' e a = ground arith

-- The row that an accepted outcome leaves is acknowledged only if it has ended.
applied-settled :
    (j j' : Job) (token : String) (o : JobOutcome) (now later : ℕ)
    → apply_outcome_row token o now j ≡ some j'
    → settle_persisted later (some j') ≡ ack
    → is_terminal j'.state ≡ true
unfolding apply_outcome_row finish settle_persisted
applied-settled j j' token (final f x) now later e h = ground arith
applied-settled j j' token (retry x d) now later e h = ground arith

apply_outcome_row-id :
    (j j' : Job) (token : String) (o : JobOutcome) (now : ℕ)
    → apply_outcome_row token o now j ≡ some j'
    → j'.id ≡ j.id
unfolding apply_outcome_row finish
apply_outcome_row-id j j' token (final f x) now e = ground arith
apply_outcome_row-id j j' token (retry x d) now e = ground arith

module _ (job : JobSnapshot) (token : String) (deadline : ℕ) (o : JobOutcome) where
  finish_execution-late :
      (finished applied settled : ℕ) (t : Table)
      → leb deadline finished ≡ true
      → finish_execution job token deadline o finished applied settled t ≡ (unsettled, t)
  unfolding finish_execution
  finish_execution-late finished applied settled t h = rw h

  finish_execution-refused :
      (finished applied settled : ℕ) (t : Table)
      → leb deadline finished ≡ false
      → apply_outcome job.id token o applied t ≡ (false, t)
      → finish_execution job token deadline o finished applied settled t ≡ (unsettled, t)
  unfolding finish_execution
  finish_execution-refused finished applied settled t h e = rw (h, e)

  finish_execution-applied :
      (finished applied settled : ℕ) (t t' : Table)
      → leb deadline finished ≡ false
      → apply_outcome job.id token o applied t ≡ (true, t')
      → finish_execution job token deadline o finished applied settled t
        ≡ (settle_persisted settled (lock job.id t'), t')
  unfolding finish_execution
  finish_execution-applied finished applied settled t t' h e = rw (h, e)

-- A delivery that is acknowledged after an execution leaves a job that has ended.
pub finish_execution_ack :
    (job : JobSnapshot) (token : String) (deadline : ℕ) (o : JobOutcome)
    (finished applied settled : ℕ) (t : Table)
    → (finish_execution job token deadline o finished applied settled t).0 ≡ ack
    → (row : Job) × (lock job.id
          (finish_execution job token deadline o finished applied settled t).1
        ≡ some row)
      × (is_terminal row.state ≡ true)
unfolding apply_outcome
finish_execution_ack job token deadline o finished applied settled t a =
    elim (Bool-cases (leb deadline finished)) [
      | inl h ↦ cc (finish_execution-late job token deadline o finished applied settled t h, a)
      | inr h ↦ elim (on_locked-cases job.id (apply_outcome_row token o applied) t) [
        | inl n ↦
            cc (finish_execution-refused job token deadline o finished applied settled t h n, a)
        | inr (j, j', e, x, w) ↦
            let t' : Table = flush job.id j' t in
            let read : lock job.id t' ≡ some j' =
              lock-flush_self job.id j j' t e (apply_outcome_row-id j j' token o applied x) in
            let done =
              finish_execution-applied job token deadline o finished applied settled t t' h w in
            (
              j',
              rw done read,
              applied-settled j j' token o applied settled x
                  (sym (ap (settle_persisted settled) read) ∙ sym (ap (λ y. y.0) done) ∙ a),
            )
      ]
    ]
