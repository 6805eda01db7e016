-- ===== src/Maintenance.antt =====
-- The passes of JobMaintenance (maintenance/runtime.py) and the pages of reconstruct
-- (maintenance/reconstruction.py). `now` gives the time of the database when a job is written, and
-- `unlocked` the rows that no other transaction holds. `none` is an exception, after which the
-- transaction is rolled back.
pub mod Frame
pub mod Live
use mathlib.Core.Option
use bike_doc.Prelude.{
  ℕ, ◌+◌, String, Bool, true, false, ◌&&◌, Option, none, some, List, [], ◌∷◌, ◌==◌, str_eq, max,
  if◌then◌else◌, leb,
}
use bike_doc.Jobs.Row.{Job, TransportError, unavailable, timeout, rejected}
use bike_doc.Jobs.Values.{JobSnapshot, from_row, JobOutcome, PublicationClaim}
use bike_doc.Jobs.Recovery.{expired, no_progress, retention}
use bike_doc.Jobs.Table.{
  Table, confirm_publication, fail_publication, recover_expired, advance_publication,
  delete_retained,
}
use bike_doc.Jobs.Table.Scan.{claim_scan, reconstruction_page}

-- ReconciliationPolicy
pub record RecoveryPolicy : Type 0 where
  pub expired_outcome : JobSnapshot → Option JobOutcome
  pub may_republish : JobSnapshot → Bool

-- The mapping of a kind and a version to its policy
abbrev pub Policies : Type 0
Policies = List ((String × ℕ) × RecoveryPolicy)

unfoldable pub find_policy : Policies → Job → Option RecoveryPolicy
find_policy [] job = none
find_policy (((kind, version), p) ∷ ps) job =
    if str_eq job.job_kind kind && (job.input_version == version)
    then some p
    else find_policy ps job

-- The keys of the mapping
abbrev pub keys : Policies → List (String × ℕ)
keys [] = []
keys ((k, p) ∷ ps) = k ∷ keys ps

-- How the broker answers a publication.
pub data Answer : Type 0 where
  acknowledged timed_out refused : Answer

-- The error of an attempt; a workload without a subject is rejected and not sent.
unfoldable pub publish_error : Bool → Answer → Option TransportError
publish_error false a = some rejected
publish_error true acknowledged = none
publish_error true timed_out = some timeout
publish_error true refused = some unavailable

-- _publish; `delay` is the backoff.
unfoldable pub publish :
    (String → Bool) → Answer → ℕ → ℕ → PublicationClaim → Table → Option (Bool × Table)
unfolding publish_error confirm_publication fail_publication
publish has_subject answer delay now claim t =
    elim (publish_error (has_subject claim.workload_class) answer) [
      | none ↦ some (true, (confirm_publication claim now t).1)
      | some e ↦ Option.map (λ r. (false, r.1)) (fail_publication claim e delay now t)
    ]

abbrev pub any_failed : List Bool → Bool
any_failed [] = false
any_failed (true ∷ rs) = any_failed rs
any_failed (false ∷ rs) = true

abbrev pub capped : ℕ → ℕ
capped n = if leb 20 n then 20 else n + 1

-- The failure rounds after the results of a batch, at most 20.
unfoldable pub next_rounds : ℕ → List Bool → ℕ
next_rounds rounds [] = rounds
next_rounds rounds (r ∷ rs) = if any_failed (r ∷ rs) then capped rounds else 0

-- The outcome that the policy of a job decides, if there is one.
unfoldable pub recovery_of : Policies → Job → Option JobOutcome
unfolding find_policy
recovery_of ps job = elim (find_policy ps job) [
  | none ↦ none
  | some p ↦ p.expired_outcome (from_row job)
]

unfoldable pub recover_with : String → ℕ → Option JobOutcome → Option String → Table → Option Table
unfolding recover_expired
recover_with id now (some o) (some token) t =
    Option.map (λ r. r.1) (recover_expired id token o now t)
recover_with id now (some o) none t = some t
recover_with id now none token t = some t

-- One candidate of the expiry scan.
unfoldable pub recover_one : Policies → (Job → ℕ) → Job → Table → Option Table
unfolding recovery_of recover_with
recover_one ps now job t = recover_with job.id (now job) (recovery_of ps job) job.execution_token t

unfoldable pub recover_all : Policies → (Job → ℕ) → List Job → Table → Option Table
unfolding recover_one
recover_all ps now [] t = some t
recover_all ps now (j ∷ js) t = elim (recover_one ps now j t) [
  | none ↦ none
  | some t' ↦ recover_all ps now js t'
]

-- One candidate of the no-progress scan, or of a page of the reconstruction.
unfoldable pub republish_one : Policies → Option ℕ → Bool → (Job → ℕ) → Job → Table → Bool × Table
unfolding find_policy advance_publication
republish_one ps before coalesce now job t = elim (find_policy ps job) [
  | none ↦ (false, t)
  | some p ↦
      if p.may_republish (from_row job)
      then advance_publication job.id job.desired_generation before coalesce (now job) t
      else (false, t)
]

abbrev pub counted : Bool → ℕ → ℕ
counted true n = n + 1
counted false n = n

-- The loop over the candidates, and how many it changed.
unfoldable pub republish_all : Policies → Option ℕ → Bool → (Job → ℕ) → List Job → Table → ℕ × Table
unfolding republish_one
republish_all ps before coalesce now [] t = (0, t)
republish_all ps before coalesce now (j ∷ js) t =
    let (changed, t') = republish_one ps before coalesce now j t in
    let (n, t'') = republish_all ps before coalesce now js t' in (counted changed n, t'')

-- reconcile_once, its first transaction, which is reached with at least one policy: `at` is the time of the process and `scanned` that of the
-- database at the scan.
unfoldable pub recover_pass : Policies → ℕ → ℕ → ℕ → (Job → Bool) → (Job → ℕ) → Table → Option Table
unfolding claim_scan recover_all
recover_pass ps at limit scanned unlocked now t =
    elim (claim_scan expired at limit (some (keys ps)) scanned unlocked t) [
      | none ↦ none
      | some js ↦ recover_all ps now js t
    ]

-- reconcile_once, its second transaction
unfoldable pub repair_pass :
    Policies → ℕ → ℕ → ℕ → (Job → Bool) → (Job → ℕ) → Table → Option (ℕ × Table)
unfolding claim_scan republish_all
repair_pass ps horizon limit scanned unlocked now t =
    elim (claim_scan no_progress horizon limit (some (keys ps)) scanned unlocked t) [
      | none ↦ none
      | some js ↦ some (republish_all ps (some horizon) false now js t)
    ]

unfoldable pub delete_all : ℕ → List Job → Table → ℕ × Table
unfolding delete_retained
delete_all before [] t = (0, t)
delete_all before (j ∷ js) t =
    let (gone, t') = delete_retained j.id before t in
    let (n, t'') = delete_all before js t' in (counted gone n, t'')

-- cleanup_once
unfoldable pub cleanup_once : ℕ → ℕ → ℕ → (Job → Bool) → Table → Option (ℕ × Table)
unfolding claim_scan delete_all
cleanup_once before limit scanned unlocked t =
    elim (claim_scan retention before limit none scanned unlocked t) [
      | none ↦ none
      | some js ↦ some (delete_all before js t)
    ]

-- One page of reconstruct: the page, and what it changed.
unfoldable pub reconstruct_page :
    Policies → String → ℕ → ℕ → (Job → ℕ) → Table → Option (List Job × (ℕ × Table))
unfolding reconstruction_page republish_all
reconstruct_page ps after limit started now t = elim (reconstruction_page after limit started t) [
  | none ↦ none
  | some js ↦ some (js, republish_all ps none true now js t)
]
