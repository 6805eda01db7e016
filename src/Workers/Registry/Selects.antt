-- ===== src/Workers/Registry/Selects.antt =====
-- HandlerRegistry.validate and HandlerRegistry.select on the same job.
use bike_doc.Prelude.{ℕ, ◌+◌, String, ◌≡◌, Option, none, some, arith, refl, inl, inr, ap, ◌∙◌}
use bike_doc.Jobs.Row.{Job}
use bike_doc.Jobs.Values.{
  JobSnapshot, Definition, policy, refused, from_row, DeliveryResolution, ResolutionKind,
  ExecutionPolicy,
}
use bike_doc.Jobs.Delivery.{resolve_row, resolve_defined, claim_execution}
use bike_doc.Jobs.Delivery.Shape.{resolve_row-cases, is_defined_kind}
use bike_doc.Workers.Registry.{HandlerDefinition, HandlerRegistry, select, validate, validate_found}

found :
    (r : HandlerRegistry) (job : JobSnapshot) (p : ExecutionPolicy) (o : Option HandlerDefinition)
    → validate_found r job o ≡ policy p
    → (d : HandlerDefinition) × (o ≡ some d) × (p.hard_duration ≡ d.policy_.hard_duration)
unfolding validate_found
found r job p (some d) e = (d, refl, ground arith)
found r job p none e = cc

validate-found :
    (r : HandlerRegistry) (job : JobSnapshot) (p : ExecutionPolicy)
    → validate r job ≡ policy p
    → validate_found r job (select r job) ≡ policy p
unfolding validate
validate-found r job p e = ground arith

resolve_defined-executable :
    (d : Definition) (j : Job) (now : ℕ) (token : String) (x : DeliveryResolution) (j' : Job)
    → (x, j') ≡ resolve_defined d j now token
    → x.kind ≡ ResolutionKind.executable
    → (p : ExecutionPolicy) × (d ≡ policy p) × (j' ≡ claim_execution j p now token)
unfolding resolve_defined
resolve_defined-executable (refused y) j now token x j' e k = ground arith
resolve_defined-executable (policy p) j now token x j' e k = (p, refl, ground arith)

select-claim :
    (r : HandlerRegistry) (j : Job) (p : ExecutionPolicy) (now : ℕ) (token : String)
    → (select r (from_row (claim_execution j p now token)) ≡ select r (from_row j))
      × ((claim_execution j p now token).execution_deadline ≡ some (now + p.hard_duration))
unfolding claim_execution select
select-claim r j p now token = (refl, refl)

-- A job that the registry's validator lets run is executed by the definition that it selects then,
-- under that definition's hard duration: `select` raises no KeyError.
pub executable_selects :
    (r : HandlerRegistry) (g : ℕ) (w : String) (now : ℕ) (token : String) (j : Job)
    (x : DeliveryResolution) (j' : Job)
    → resolve_row g w (validate r) now token j ≡ some (x, j')
    → x.kind ≡ ResolutionKind.executable
    → (d : HandlerDefinition) × (select r (from_row j') ≡ some d)
      × (j'.execution_deadline ≡ some (now + d.policy_.hard_duration))
executable_selects r g w now token j x j' e k =
    elim (resolve_row-cases g w (validate r) now token j (x, j') e) [
      | inl (_, other) ↦ absurd (ground (arith, ap is_defined_kind k))
      | inr (_, _, y) ↦
          let (p, valid, claimed) =
            resolve_defined-executable (validate r (from_row j)) j now token x j' y k in
          let (d, chosen, same) =
            found r (from_row j) p (select r (from_row j))
              (validate-found r (from_row j) p valid) in
          let (kept, deadline) = select-claim r j p now token in
          (
            d,
            ap (λ z. select r (from_row z)) claimed ∙ kept ∙ chosen,
            ap (λ z. z.execution_deadline) claimed ∙ deadline ∙ ap (λ h. some (now + h)) same,
          )
    ]
