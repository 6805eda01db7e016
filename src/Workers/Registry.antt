-- ===== src/Workers/Registry.antt =====
-- HandlerRegistry and HandlerDefinition (workers/registry.py): the allowlist of typed definitions.
pub mod Selects
use bike_doc.Prelude.{
  ℕ, String, Bool, true, false, not, ◌&&◌, ◌||◌, Option, none, some, List, [], ◌∷◌, ◌++◌, ◌==◌,
  str_eq, if◌then◌else◌, is_some,
}
use bike_doc.Jobs.Row.{
  JobInput, JobError, input_invalid, permanent_failure, version_unsupported, definition_unknown,
}
use bike_doc.Jobs.Values.{JobSnapshot, Definition, policy, refused}
use bike_doc.Workers.Policy.{HandlerPolicy}

-- The input model's validation is given by the definition, and so are the instructions that it supports: all
-- of them, unless ProfileDefinition.validate overrides.
pub record HandlerDefinition : Type 0 where
  pub kind : String
  pub version : ℕ
  pub workload : String
  pub accepts : JobInput → Bool
  pub supports : JobInput → Bool
  pub policy_ : HandlerPolicy

-- HandlerDefinition.validate, and the override of ProfileDefinition after it
unfoldable pub validate_definition : HandlerDefinition → JobSnapshot → Definition
validate_definition d job =
    if not (d.accepts job.input)
    then refused input_invalid
    else if not (job.attempt_limit == d.policy_.attempt_limit)
    then refused permanent_failure
    else if not (d.supports job.input)
    then refused version_unsupported
    else policy (record { hard_duration = d.policy_.hard_duration })

pub record HandlerRegistry : Type 0 where
  pub workload : String
  pub definitions : List HandlerDefinition

abbrev pub is_key : String → ℕ → HandlerDefinition → Bool
is_key kind version d = str_eq d.kind kind && (d.version == version)

-- self._definitions.get((kind, version))
unfoldable pub find_definition : String → ℕ → List HandlerDefinition → Option HandlerDefinition
find_definition kind version [] = none
find_definition kind version (d ∷ ds) =
    if is_key kind version d then some d else find_definition kind version ds

-- select; `none` is the KeyError.
unfoldable pub select : HandlerRegistry → JobSnapshot → Option HandlerDefinition
unfolding find_definition
select r job = find_definition job.job_kind job.input_version r.definitions

unfoldable pub knows_kind : String → List HandlerDefinition → Bool
knows_kind kind [] = false
knows_kind kind (d ∷ ds) =
    let rest = knows_kind kind ds in if str_eq d.kind kind then true else rest

-- HandlerRegistry.__init__; `none` is the ValueError.
unfoldable pub register :
    String → List HandlerDefinition → List HandlerDefinition → Option (List HandlerDefinition)
unfolding find_definition
register workload [] known = some known
register workload (d ∷ ds) known =
    let rest = register workload ds (known ++ d ∷ []) in
    if not (str_eq d.workload workload) || is_some (find_definition d.kind d.version known)
    then none
    else rest

unfoldable pub handler_registry : String → List HandlerDefinition → Option HandlerRegistry
unfolding register
handler_registry workload [] = none
handler_registry workload (d ∷ ds) =
    if str_eq workload "" then none else elim (register workload (d ∷ ds) []) [
      | none ↦ none
      | some known ↦ some (record { workload = workload; definitions = known })
    ]

-- HandlerRegistry.validate, from the lookup on
unfoldable pub validate_found :
    HandlerRegistry → JobSnapshot → Option HandlerDefinition → Definition
unfolding validate_definition knows_kind
validate_found r job (some d) = validate_definition d job
validate_found r job none =
    refused
      (if knows_kind job.job_kind r.definitions then version_unsupported else definition_unknown)

-- HandlerRegistry.validate
unfoldable pub validate : HandlerRegistry → JobSnapshot → Definition
unfolding select validate_found
validate r job =
    if not (str_eq job.workload_class r.workload)
    then refused permanent_failure
    else validate_found r job (select r job)
