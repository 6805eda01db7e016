-- ===== src/Jobs/Constraints.antt =====
-- What PostgreSQL enforces of a background_jobs row: the CHECK constraints of
-- apps/api/src/bike_doc_api/models/background_job.py, and the BEFORE UPDATE triggers of migrations
-- 0009 and 0012. The constraints on the spelling of the identity columns are not modelled.
use Prim.Native.String.{count}
use bike_doc.Prelude.{
  ℕ, ◌≤◌, ◌<◌, String, Bool, true, false, Option, none, some, ◌≡◌, is_some, is_none, ◌==◌, ◌&&◌,
  str_eq,
}
use bike_doc.Jobs.Row.{Job, is_terminal, is_running, is_waiting}

-- ck_background_jobs_publication_claim
abbrev pub ClaimCheck : Option String → Option ℕ → Option ℕ → ℕ → Type 0
ClaimCheck none none none desired = Unit
ClaimCheck (some t) (some g) (some u) desired = (1 ≤ g) × (g ≤ desired)
ClaimCheck _ _ _ desired = ⊥

-- ck_background_jobs_execution, for the columns of an execution
abbrev pub ExecutionCheck : Bool → Option String → Option ℕ → Option ℕ → Type 0
ExecutionCheck true (some t) (some s) (some d) = Unit
ExecutionCheck false none none none = Unit
ExecutionCheck _ _ _ _ = ⊥

-- ck_background_jobs_deadline, for a row with an execution token
abbrev pub DeadlineCheck : Option String → Option ℕ → Option ℕ → Option ℕ → ℕ → Type 0
DeadlineCheck none started deadline first attempts = Unit
DeadlineCheck (some t) (some s) (some d) (some f) attempts = (0 < attempts) × (s < d) × (f ≤ s)
DeadlineCheck _ _ _ _ attempts = ⊥

-- `column >= bound`, true of NULL
abbrev pub NotBefore : ℕ → Option ℕ → Type 0
NotBefore bound none = Unit
NotBefore bound (some t) = bound ≤ t

-- `later >= earlier`, where NULL stands for no constraint
abbrev pub Ordered : Option ℕ → Option ℕ → Type 0
Ordered none later = Unit
Ordered (some a) none = Unit
Ordered (some a) (some b) = a ≤ b

-- A time that is not in the future.
abbrev pub NotAfter : Option ℕ → ℕ → Type 0
NotAfter none now = Unit
NotAfter (some t) now = t ≤ now

-- `effect_boundary_at IS NULL OR first_started_at IS NOT NULL`, and the order of the two
abbrev pub BoundaryCheck : Option ℕ → Option ℕ → Type 0
BoundaryCheck none first = Unit
BoundaryCheck (some b) none = ⊥
BoundaryCheck (some b) (some f) = f ≤ b

abbrev pub TokenLength : Option String → Type 0
TokenLength none = Unit
TokenLength (some t) = count t ≡ 32

-- ck_background_jobs_effect_token
abbrev pub EffectCheck : Option String → Option ℕ → Type 0
EffectCheck none boundary = Unit
EffectCheck (some t) none = ⊥
EffectCheck (some t) (some b) = count t ≡ 32

-- The CHECK constraints of one row.
pub record IsValid (j : Job) : Type 0 where
  pub attempts : j.attempt_count ≤ j.attempt_limit
  pub attempt_limits : (1 ≤ j.attempt_limit) × (j.attempt_limit ≤ 100)
  pub generations : (1 ≤ j.desired_generation) × (j.confirmed_generation ≤ j.desired_generation)
  pub claim :
      ClaimCheck j.publication_claim_token j.publication_claim_generation j.publication_claim_until
        j.desired_generation
  pub confirmation : (j.confirmed_generation == 0) ≡ is_none j.publication_confirmed_at
  pub terminal : is_terminal j.state ≡ is_some j.terminal_at
  pub execution :
      ExecutionCheck
        (is_running j.state)
        j.execution_token
        j.execution_started_at
        j.execution_deadline
  pub deadline :
      DeadlineCheck j.execution_token j.execution_started_at j.execution_deadline j.first_started_at
        j.attempt_count
  pub first_start : (j.attempt_count == 0) ≡ is_none j.first_started_at
  pub updated : j.created_at ≤ j.updated_at
  pub eligible : j.created_at ≤ j.eligible_at
  pub publication_eligible : j.created_at ≤ j.publication_eligible_at
  pub started : NotBefore j.created_at j.first_started_at
  pub ended : NotBefore j.created_at j.terminal_at × Ordered j.first_started_at j.terminal_at
  pub boundary : BoundaryCheck j.effect_boundary_at j.first_started_at
  pub effect : EffectCheck j.effect_boundary_token j.effect_boundary_at

-- What the writers keep beyond the constraints: the columns that they later compare with the clock
-- or copy into a constrained column, and that a job past its effect boundary waits for no attempt.
pub record IsConsistent (j : Job) : Type 0 where
  pub start_known : NotAfter j.first_started_at j.updated_at
  pub token_length : TokenLength j.execution_token
  pub crossed : (is_some j.effect_boundary_at && is_waiting j.state) ≡ false

-- The columns of a terminal row that protect_background_job freezes.
pub record SameOutcome (old new : Job) : Type 0 where
  pub state : new.state ≡ old.state
  pub terminal_at : new.terminal_at ≡ old.terminal_at
  pub attempt_count : new.attempt_count ≡ old.attempt_count
  pub eligible_at : new.eligible_at ≡ old.eligible_at
  pub execution_token : new.execution_token ≡ old.execution_token
  pub latest_error_category : new.latest_error_category ≡ old.latest_error_category
  pub effect_boundary_at : new.effect_boundary_at ≡ old.effect_boundary_at
  pub desired_generation : new.desired_generation ≡ old.desired_generation

-- A terminal row keeps its outcome.
abbrev pub OutcomeKept : Bool → Job → Job → Type 0
OutcomeKept true old new = SameOutcome old new
OutcomeKept false old new = Unit

-- A column that is set once.
abbrev pub Kept : Option ℕ → Option ℕ → Type 0
Kept none new = Unit
Kept (some t) new = new ≡ some t

abbrev pub SameDeadline : Bool → Job → Job → Type 0
SameDeadline true old new =
    (new.execution_started_at ≡ old.execution_started_at)
    × (new.execution_deadline ≡ old.execution_deadline)
SameDeadline false old new = Unit

-- While the token stays, so do the start and the deadline.
abbrev pub DeadlineKept : Option String → Option String → Job → Job → Type 0
DeadlineKept (some s) (some t) old new = SameDeadline (str_eq s t) old new
DeadlineKept _ _ old new = Unit

-- Once the boundary is set, its owner stays.
abbrev pub OwnerKept : Option ℕ → Option String → Option String → Type 0
OwnerKept none old new = Unit
OwnerKept (some t) old new = new ≡ old

-- The row value comparisons of protect_background_job and protect_diagnostic_effect_token, as what
-- holds of an update that raises nothing.
pub record IsPermitted (old new : Job) : Type 0 where
  pub id : new.id ≡ old.id
  pub job_kind : new.job_kind ≡ old.job_kind
  pub workload_class : new.workload_class ≡ old.workload_class
  pub input_version : new.input_version ≡ old.input_version
  pub input : new.input ≡ old.input
  pub deduplication_key : new.deduplication_key ≡ old.deduplication_key
  pub attempt_limit : new.attempt_limit ≡ old.attempt_limit
  pub created_at : new.created_at ≡ old.created_at
  pub desired_grows : old.desired_generation ≤ new.desired_generation
  pub confirmed_grows : old.confirmed_generation ≤ new.confirmed_generation
  pub attempts_grow : old.attempt_count ≤ new.attempt_count
  pub outcome_kept : OutcomeKept (is_terminal old.state) old new
  pub first_start_kept : Kept old.first_started_at new.first_started_at
  pub boundary_kept : Kept old.effect_boundary_at new.effect_boundary_at
  pub deadline_kept : DeadlineKept old.execution_token new.execution_token old new
  pub owner_kept :
      OwnerKept old.effect_boundary_at old.effect_boundary_token new.effect_boundary_token
