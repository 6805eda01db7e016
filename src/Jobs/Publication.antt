-- ===== src/Jobs/Publication.antt =====
-- The publication half of BackgroundJobRepository (repositories/background_jobs.py): claims of
-- notifications, their confirmation and failure, and the advance of a generation. Each function
-- takes the locked row and the time read after the lock; `none` is the answer False.
pub mod Intent
use bike_doc.Prelude.{
  ℕ, ◌+◌, String, Bool, true, false, not, ◌&&◌, ◌||◌, Option, none, some, max, ltb, leb, ◌==◌,
  if◌then◌else◌, is_some, text_is, number_is,
}
use bike_doc.Jobs.Row.{Job, TransportError, is_waiting}
use bike_doc.Jobs.Values.{PublicationClaim}

-- A claim that no one holds any more: NULL, or at most `now`.
abbrev pub claim_expired : Option ℕ → ℕ → Bool
claim_expired none now = true
claim_expired (some until) now = leb until now

-- The WHERE clause of claim_publications.
unfoldable pub is_publishable : ℕ → Job → Bool
is_publishable now row =
    ltb row.confirmed_generation row.desired_generation
    && leb row.publication_eligible_at now
    && claim_expired row.publication_claim_until now

-- What claim_publications writes to each row that its query selects.
unfoldable pub claim_row : ℕ → ℕ → String → Job → PublicationClaim × Job
claim_row claim_duration now token row = (
  record {
    job_id = row.id;
    workload_class = row.workload_class;
    generation = row.desired_generation;
    token = token;
    until = now + claim_duration;
  },
  record row {
    publication_claim_token = some token;
    publication_claim_generation = some row.desired_generation;
    publication_claim_until = some (now + claim_duration);
    updated_at = now;
  },
)

-- `publication_claim_until is not None and publication_claim_until > now`
abbrev claim_live : Option ℕ → ℕ → Bool
claim_live none now = false
claim_live (some until) now = ltb now until

-- _matches_publication, on a row that is not None
unfoldable pub matches_publication : Job → PublicationClaim → ℕ → Bool
matches_publication row claim now =
    text_is row.publication_claim_token claim.token
    && number_is row.publication_claim_generation claim.generation
    && claim_live row.publication_claim_until now

-- _clear_publication_claim
abbrev clear_publication_claim : Job → Job
clear_publication_claim row = record row {
  publication_claim_token = none;
  publication_claim_generation = none;
  publication_claim_until = none;
}

unfoldable pub confirm_publication_row : PublicationClaim → ℕ → Job → Option Job
unfolding matches_publication
confirm_publication_row claim now row =
    if not (matches_publication row claim now)
    then none
    else some (record (clear_publication_claim row) {
      confirmed_generation = max row.confirmed_generation claim.generation;
      publication_confirmed_at = some now;
      transport_error = none;
      updated_at = now;
    })

unfoldable pub fail_publication_row : PublicationClaim → TransportError → ℕ → ℕ → Job → Option Job
unfolding matches_publication
fail_publication_row claim error retry_after now row =
    if not (matches_publication row claim now)
    then none
    else some (record (clear_publication_claim row) {
      transport_error = some error;
      publication_eligible_at = now + retry_after;
      updated_at = now;
    })

-- `no_progress_before is not None and row.updated_at > no_progress_before`
abbrev progressed_after : Option ℕ → ℕ → Bool
progressed_after none updated = false
progressed_after (some before) updated = ltb before updated

-- The refusals of advance_publication.
unfoldable pub may_not_advance : ℕ → Option ℕ → Bool → ℕ → Job → Bool
may_not_advance observed no_progress_before coalesce_pending now row =
    not (is_waiting row.state)
    || is_some row.effect_boundary_at
    || ltb now row.eligible_at
    || leb row.attempt_limit row.attempt_count
    || (coalesce_pending
        && not (row.confirmed_generation == row.desired_generation)
        && not (number_is row.publication_claim_generation row.desired_generation))
    || is_some row.execution_deadline
    || not (row.desired_generation == observed)
    || progressed_after no_progress_before row.updated_at

unfoldable pub advance_publication_row : ℕ → Option ℕ → Bool → ℕ → Job → Option Job
unfolding may_not_advance
advance_publication_row observed no_progress_before coalesce_pending now row =
    if may_not_advance observed no_progress_before coalesce_pending now row
    then none
    else some (record row {
      desired_generation = row.desired_generation + 1;
      publication_eligible_at = now;
      updated_at = now;
    })
