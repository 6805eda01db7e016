-- ===== src/Jobs/Table.antt =====
-- BackgroundJobRepository over the whole table (repositories/background_jobs.py). A transaction is
-- one step: each method locks its row for as long as it runs.
pub mod Scan
pub mod Laws
pub mod Records
pub mod Steps
pub mod Identity
pub mod Keyed
pub mod Claims
pub mod Calls
use Prim.Native.String.{compare}
use Prim.Native.Nat.{Ordering}
use bike_doc.Prelude.{
  ℕ, String, Bool, true, false, not, ◌&&◌, Option, none, some, List, [], ◌∷◌, ◌++◌, ltb, ◌==◌,
  str_eq, if◌then◌else◌, take,
}
use bike_doc.Jobs.Row.{Job, JobInput, JobRecord, new_job, TransportError}
use bike_doc.Jobs.Values.{
  JobSnapshot, from_row, Definition, DeliveryResolution, ResolutionKind, JobOutcome, is_success,
  PublicationClaim, batch_limit, bounded_duration,
}
use bike_doc.Jobs.Delivery.{resolve_row, apply_outcome_row}
use bike_doc.Jobs.Publication.{
  is_publishable, claim_row, confirm_publication_row, fail_publication_row, advance_publication_row,
}
use bike_doc.Jobs.Recovery.{
  may_delete, recover_expired_row, DiagnosticExecution, cross_boundary_row,
}

abbrev pub Table : Type 0
Table = List Job

-- _lock
unfoldable pub lock : String → Table → Option Job
lock id [] = none
lock id (j ∷ t) = if str_eq j.id id then some j else lock id t

-- The flush of one row under its primary key.
unfoldable pub flush : String → Job → Table → Table
flush id new [] = []
flush id new (j ∷ t) = if str_eq j.id id then new ∷ t else j ∷ flush id new t

-- A method that locks a row and either writes it and answers True, or answers False.
unfoldable pub on_locked : String → (Job → Option Job) → Table → Bool × Table
unfolding lock flush
on_locked id f t = elim (lock id t) [
  | none ↦ (false, t)
  | some row ↦ elim (f row) [ none ↦ (false, t) | some new ↦ (true, flush id new t) ]
]

unfoldable pub apply_outcome : String → String → JobOutcome → ℕ → Table → Bool × Table
unfolding on_locked
apply_outcome id token outcome now = on_locked id (apply_outcome_row token outcome now)

unfoldable pub confirm_publication : PublicationClaim → ℕ → Table → Bool × Table
unfolding on_locked
confirm_publication claim now = on_locked claim.job_id (confirm_publication_row claim now)

-- `none` is the ValueError of the retry delay.
unfoldable pub fail_publication :
    PublicationClaim → TransportError → ℕ → ℕ → Table → Option (Bool × Table)
unfolding on_locked bounded_duration
fail_publication claim error retry_after now t =
    if bounded_duration retry_after
    then some (on_locked claim.job_id (fail_publication_row claim error retry_after now) t)
    else none

unfoldable pub advance_publication : String → ℕ → Option ℕ → Bool → ℕ → Table → Bool × Table
unfolding on_locked
advance_publication id observed before coalesce now =
    on_locked id (advance_publication_row observed before coalesce now)

-- resolve_delivery; `none` is a failed assertion.
unfoldable pub resolve_delivery :
    String
    → ℕ
    → String
    → (JobSnapshot → Definition)
    → ℕ
    → String
    → Table
    → Option (DeliveryResolution × Table)
unfolding lock flush
resolve_delivery id generation workload validate now token t = elim (lock id t) [
  | none ↦ some (record { kind = ResolutionKind.missing; job = none; wait_until = none }, t)
  | some row ↦ elim (resolve_row generation workload validate now token row) [
    | none ↦ none
    | some (r, new) ↦ some (r, flush id new t)
  ]
]

-- recover_expired. The ValueError for an outcome of success, `none`, is raised before the row is locked.
unfoldable pub recover_expired : String → String → JobOutcome → ℕ → Table → Option (Bool × Table)
unfolding on_locked
recover_expired id token outcome now t = elim (lock id t) [
  | none ↦ if is_success outcome then none else some (false, t)
  | some row ↦ elim (recover_expired_row token outcome now row) [
    | none ↦ none
    | some none ↦ some (false, t)
    | some (some new) ↦ some (true, flush id new t)
  ]
]

-- cross_boundary; `none` is the StaleDiagnosticExecutionError, a missing row included.
unfoldable pub cross_boundary : DiagnosticExecution → ℕ → ℕ → ℕ → Table → Option Table
cross_boundary e now then_ later t = elim (lock e.job_id t) [
  | none ↦ none
  | some row ↦ elim (cross_boundary_row e now then_ later row) [
    | none ↦ none
    | some new ↦ some (flush e.job_id new t)
  ]
]

-- session.delete of the locked row
unfoldable pub remove : String → Table → Table
remove id [] = []
remove id (j ∷ t) = if str_eq j.id id then t else j ∷ remove id t

unfoldable pub delete_retained : String → ℕ → Table → Bool × Table
unfolding lock remove
delete_retained id before t = elim (lock id t) [
  | none ↦ (false, t)
  | some row ↦ if may_delete before row then (true, remove id t) else (false, t)
]

-- The equality of two JSONB objects.
unfoldable pub input_eq : JobInput → JobInput → Bool
input_eq [] [] = true
input_eq ((k, v) ∷ xs) ((l, w) ∷ ys) = str_eq k l && str_eq v w && input_eq xs ys
input_eq _ _ = false

-- uq_background_jobs_identity
unfoldable pub has_identity : String → String → Job → Bool
has_identity kind key j = str_eq j.job_kind kind && str_eq j.deduplication_key key

unfoldable pub find_identity : String → String → Table → Option Job
unfolding has_identity
find_identity kind key [] = none
find_identity kind key (j ∷ t) =
    if has_identity kind key j then some j else find_identity kind key t

-- Whether the stored row has every value of the definition.
unfoldable pub same_definition : JobRecord → Job → Bool
unfolding input_eq
same_definition d j =
    str_eq j.job_kind d.job_kind
    && str_eq j.workload_class d.workload_class
    && (j.input_version == d.input_version)
    && input_eq j.input d.input
    && str_eq j.deduplication_key d.deduplication_key
    && (j.attempt_limit == d.attempt_limit)

pub data RecordResult : Type 0 where
  recorded : JobSnapshot → RecordResult
  definition_conflict : RecordResult

-- The answer about the row that holds the identity.
unfoldable pub recorded_as : JobRecord → Job → RecordResult
unfolding same_definition
recorded_as d row = if same_definition d row then recorded (from_row row) else definition_conflict

-- record: insert unless the identity is taken, then compare with the row that holds it. `id` is the
-- generated ULID, and the new row stands last.
unfoldable pub record_job : String → ℕ → JobRecord → Table → RecordResult × Table
unfolding find_identity recorded_as new_job
record_job id now d t = elim (find_identity d.job_kind d.deduplication_key t) [
  | none ↦ (recorded_as d (new_job id now d), t ++ new_job id now d ∷ [])
  | some row ↦ (recorded_as d row, t)
]
