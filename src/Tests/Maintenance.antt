-- ===== src/Tests/Maintenance.antt =====
-- Passes of maintenance over a table of two jobs, and what is proved of them there.
use bike_doc.Prelude.{inl, inr, ◌≡◌, refl, true, none, some, [], ◌∷◌}
use bike_doc.Jobs.Row.{Job, retrying, execution_lost}
use bike_doc.Jobs.Recovery.{may_delete}
use bike_doc.Jobs.Table.{lock}
use bike_doc.Workers.Policy.{diagnostic_expired, diagnostic_republish}
use bike_doc.Maintenance.{Policies, recover_pass, cleanup_once}
use bike_doc.Maintenance.Frame.{cleanup_once-kept}
use bike_doc.Maintenance.Live.{recover_pass_live}
use bike_doc.Tests.Rows.{running_job, retained_job, succeeded_job}

abbrev policies : Policies
policies =
    (
      ("diagnostic_turn", 1),
      record {
        expired_outcome = λ s. some (diagnostic_expired 60 s);
        may_republish = diagnostic_republish;
      },
    )
    ∷ []

-- Another execution, whose deadline passed.
abbrev lost_job : Job
lost_job = record running_job {
  id = "job_2";
  deduplication_key = "turn_2";
  execution_deadline = some 140;
}

abbrev found_job : Job
found_job = record lost_job {
  state = retrying;
  eligible_at = 210;
  execution_started_at = none;
  execution_deadline = none;
  execution_token = none;
  latest_error_category = some execution_lost;
  desired_generation = 2;
  publication_eligible_at = 210;
  updated_at = 150;
}

recovers_other :
    recover_pass policies 150 10 150 (λ j. true) (λ j. 150) (running_job ∷ lost_job ∷ [])
    ≡ some (running_job ∷ found_job ∷ [])
unfolding recover_pass bike_doc.Jobs.Recovery.recover_expired_row diagnostic_expired
recovers_other = refl

recover_pass_live_example : lock "job_1" (running_job ∷ found_job ∷ []) ≡ some running_job
unfolding lock
recover_pass_live_example =
    recover_pass_live policies 150 10 150 (λ j. true) (λ j. 150) (running_job ∷ lost_job ∷ [])
      (running_job ∷ found_job ∷ []) "job_1" running_job recovers_other refl (λ k. refl)

-- The second job has no confirmed publication, and is kept.
abbrev kept_job : Job
kept_job = record succeeded_job { id = "job_2"; deduplication_key = "turn_2" }

cleans_up :
    cleanup_once 500 10 900 (λ j. true) (retained_job ∷ kept_job ∷ []) ≡ some (1, kept_job ∷ [])
unfolding cleanup_once may_delete
cleans_up = refl

cleanup_once-kept_example : lock "job_2" (kept_job ∷ []) ≡ some kept_job
unfolding lock may_delete
cleanup_once-kept_example =
    cleanup_once-kept 500 10 900 1 (λ j. true) (retained_job ∷ kept_job ∷ []) (kept_job ∷ [])
      "job_2" kept_job cleans_up refl (inr (inr (inr (inl λ h. cc h))))
