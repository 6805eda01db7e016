-- ===== src/Tests/Workers.antt =====
-- What is proved of the workers, at the rows of one job.
use bike_doc.Prelude.{◌+◌, ◌≡◌, refl, true, false, none, some, [], ◌∷◌}
use bike_doc.Jobs.Row.{Job, attempts_exhausted}
use bike_doc.Jobs.Values.{final, death, success, ResolutionKind, from_row}
use bike_doc.Jobs.Delivery.{resolution, resolve_row}
use bike_doc.Jobs.Publication.{is_publishable, claim_expired, advance_publication_row}
use bike_doc.Jobs.Recovery.{is_candidate}
use bike_doc.Workers.Policy.{diagnostic_republish}
use bike_doc.Workers.Policy.Recovers.{diagnostic_republish_advances}
use bike_doc.Workers.Registry.{
  HandlerDefinition, HandlerRegistry, handler_registry, select, validate,
}
use bike_doc.Workers.Registry.Selects.{executable_selects}
use bike_doc.Workers.Runtime.{Action, outcome, resolved}
use bike_doc.Workers.Runtime.Settles.{IsDone, resolved_total}
use bike_doc.Tests.Rows.{
  token_one, queued_job, running_job, published_job, published_job-IsSound, queued_job-IsSound,
}
use bike_doc.Tests.History.{accepts_all}

-- A definition of the diagnostic workload, with every input accepted.
abbrev diagnostic_definition : HandlerDefinition
diagnostic_definition = record {
  kind = "diagnostic_turn";
  version = 1;
  workload = "diagnostic";
  accepts = λ x. true;
  supports = λ x. true;
  policy_ = record {
    attempt_limit = 3;
    max_retry_delay = 50;
    hard_duration = 100;
    timeout_grace = 5;
    settlement_reserve = 5;
    timeout_outcome = final death (some attempts_exhausted);
  };
}

abbrev diagnostic_registry : HandlerRegistry
diagnostic_registry = record { workload = "diagnostic"; definitions = diagnostic_definition ∷ [] }

registry_accepted :
    handler_registry "diagnostic" (diagnostic_definition ∷ []) ≡ some diagnostic_registry
unfolding handler_registry
registry_accepted = refl

registry_refused :
    handler_registry "diagnostic" (diagnostic_definition ∷ diagnostic_definition ∷ []) ≡ none
unfolding handler_registry
registry_refused = refl

diagnostic_republish_advances_example :
    (j' : Job) × (diagnostic_republish (from_row published_job) ≡ true)
    × (advance_publication_row 1 (some 300) false 400 published_job ≡ some j')
    × (j'.desired_generation ≡ 1 + 1)
    × (is_publishable 400 j' ≡ claim_expired none 400)
unfolding is_candidate
diagnostic_republish_advances_example =
    diagnostic_republish_advances published_job 300 400 published_job-IsSound refl

executable_selects_example :
    (d : HandlerDefinition) × (select diagnostic_registry (from_row running_job) ≡ some d)
    × (running_job.execution_deadline ≡ some (110 + d.policy_.hard_duration))
unfolding resolve_row validate
executable_selects_example =
    executable_selects diagnostic_registry 1 "diagnostic" 110 token_one queued_job
      (resolution ResolutionKind.executable running_job none) running_job refl refl

resolved_total_example :
    (a : Action) × (resolved 60 111 (resolution ResolutionKind.executable running_job none)
      ≡ some a)
    × IsDone diagnostic_definition.policy_
        (outcome (final success none))
        111
        150
        151
        152
        (running_job ∷ [])
        a
unfolding resolve_row
resolved_total_example =
    resolved_total diagnostic_definition.policy_ (outcome (final success none)) 111 150 151 152
      (running_job ∷ []) 1 "diagnostic" accepts_all 110 token_one queued_job 60 111
      (resolution ResolutionKind.executable running_job none) running_job queued_job-IsSound refl
