-- ===== src/Tests/Publication.antt =====
-- What is proved of publication and retention, at the rows of one job.
use bike_doc.Prelude.{◌<◌, ◌≡◌, ◌⊎◌, refl, true, false, none, some, arith}
use bike_doc.Jobs.Row.{Job}
use bike_doc.Jobs.Values.{ResolutionKind}
use bike_doc.Jobs.Delivery.{resolution, resolve_row}
use bike_doc.Jobs.Publication.{is_publishable, confirm_publication_row, advance_publication_row}
use bike_doc.Jobs.Publication.Intent.{advance_survives_confirm}
use bike_doc.Jobs.Recovery.{expired, no_progress, is_candidate, may_delete}
use bike_doc.Jobs.Recovery.Retention.{may_delete_inert}
use bike_doc.Tests.Rows.{token_two, claimed_job, retained_job, first_claim, claimed_job-IsSound}
use bike_doc.Tests.History.{accepts_all}

-- The claimed job, advanced while the broker is asked, and confirmed for its first generation.
advanced_job : Job
advanced_job = record claimed_job {
  desired_generation = 2;
  publication_eligible_at = 120;
  updated_at = 120;
}

confirmed_job : Job
unfolding advanced_job
confirmed_job = record advanced_job {
  publication_claim_token = none;
  publication_claim_generation = none;
  publication_claim_until = none;
  confirmed_generation = 1;
  publication_confirmed_at = some 130;
  updated_at = 130;
}

advances_job : advance_publication_row 1 (some 110) false 120 claimed_job ≡ some advanced_job
unfolding advance_publication_row advanced_job
advances_job = refl

confirms_advanced : confirm_publication_row first_claim 130 advanced_job ≡ some confirmed_job
unfolding confirm_publication_row advanced_job confirmed_job
confirms_advanced = refl

advance_survives_confirm_example :
    (confirmed_job.confirmed_generation < confirmed_job.desired_generation)
    × (is_publishable 130 confirmed_job ≡ true)
advance_survives_confirm_example =
    advance_survives_confirm first_claim 1 (some 110) false 120 130 claimed_job advanced_job
      confirmed_job claimed_job-IsSound (omega arith) (omega arith) advances_job confirms_advanced

may_delete_inert_example :
    (retained_job ≡ retained_job)
    × ((ResolutionKind.terminal ≡ ResolutionKind.terminal)
        ⊎ (ResolutionKind.terminal ≡ ResolutionKind.prohibited))
    × (confirm_publication_row first_claim 900 retained_job ≡ none)
    × (is_publishable 900 retained_job ≡ false)
    × (is_candidate expired 500 900 retained_job ≡ false)
    × (is_candidate no_progress 500 900 retained_job ≡ false)
unfolding may_delete resolve_row
may_delete_inert_example =
    may_delete_inert 500 retained_job 1 "diagnostic" accepts_all 900 token_two first_claim
      (resolution ResolutionKind.terminal retained_job none) retained_job refl refl
