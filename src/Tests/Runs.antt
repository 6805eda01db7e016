-- ===== src/Tests/Runs.antt =====
-- A run of calls on the table, from the producer to the deletion, and the tests of the table.
use bike_doc.Prelude.{true, ℕ, ◌≡◌, refl, none, arith, List, [], ◌∷◌}
use bike_doc.Jobs.Values.{final, success}
use bike_doc.Jobs.Table.{
  delete_retained, apply_outcome, cross_boundary, resolve_delivery, record_job, confirm_publication,
  lock,
}
use bike_doc.Jobs.Row.{JobRecord, new_job}
use bike_doc.Jobs.Table.Scan.{claim_publications}
use bike_doc.Jobs.Publication.{confirm_publication_row}
use bike_doc.Jobs.Delivery.{resolve_row, apply_outcome_row}
use bike_doc.Jobs.Recovery.{cross_boundary_row, may_delete}
use bike_doc.Jobs.Table.Steps.{IsGood}
use bike_doc.Jobs.Table.Calls.{
  Call, call, producing, claiming, confirming, resolving, settling, crossing, deleting, run,
  Scheduled, run-IsGood,
}
use bike_doc.Tests.Rows.{
  token_one, token_two, first_claim, token_one_length, instruction, lost_execution,
}
use bike_doc.Tests.History.{accepts_all, accepts_all-Positive}

abbrev second_instruction : JobRecord
second_instruction = record instruction { deduplication_key = "turn_2" }

abbrev life : List (ℕ × Call)
life =
    (100, producing "job_1" instruction)
    ∷ (105, claiming 10 55 (λ j. token_two) (λ j. true))
    ∷ (108, confirming first_claim)
    ∷ (110, resolving "job_1" 1 "diagnostic" accepts_all token_one)
    ∷ (120, crossing lost_execution 120 120)
    ∷ (150, settling "job_1" token_one (final success none))
    ∷ (160, producing "job_2" second_instruction)
    ∷ (300, deleting "job_1" 200)
    ∷ []

-- The terminal job, whose publication was claimed and confirmed, is deleted, and the second one stays.
run-life : run life [] ≡ new_job "job_2" 160 second_instruction ∷ []
unfolding run call claim_publications confirm_publication delete_retained apply_outcome
    cross_boundary resolve_delivery record_job resolve_row cross_boundary_row apply_outcome_row
    confirm_publication_row may_delete new_job
run-life = refl

life-Scheduled : Scheduled life []
unfolding call claim_publications confirm_publication delete_retained apply_outcome cross_boundary
    resolve_delivery record_job resolve_row cross_boundary_row apply_outcome_row
    confirm_publication_row may_delete new_job lock
life-Scheduled = (
  (refl, omega arith, omega arith),
  tt,
  (
    tt,
    (omega arith, tt),
    (
      tt,
      (omega arith, tt),
      (
        (accepts_all-Positive, token_one_length),
        (omega arith, tt),
        (
          omega arith,
          (omega arith, tt),
          (
            tt,
            (omega arith, tt),
            (
              (refl, omega arith, omega arith),
              (omega arith, tt),
              (tt, (omega arith, (omega arith, tt)), tt),
            ),
          ),
        ),
      ),
    ),
  ),
)

run-IsGood_example : IsGood (run life [])
run-IsGood_example = run-IsGood life life-Scheduled
