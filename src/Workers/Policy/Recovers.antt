-- ===== src/Workers/Policy/Recovers.antt =====
-- What the recovery policies achieve through recover_expired and advance_publication.
use bike_doc.Prelude.{
  leb, if◌then◌else◌, ℕ, ◌+◌, String, ◌≡◌, true, false, none, some, arith, refl, eq_refl, is_some,
}
use bike_doc.Jobs.Row.{Job, State, is_terminal, retrying, interrupted, dead}
use bike_doc.Jobs.Values.{from_row}
use bike_doc.Jobs.Validity.{IsSound}
use bike_doc.Jobs.Delivery.{finish}
use bike_doc.Jobs.Publication.{is_publishable, claim_expired, advance_publication_row}
use bike_doc.Jobs.Recovery.{expired, no_progress, is_candidate, recover_expired_row, notify_again}
use bike_doc.Workers.Policy.{diagnostic_expired, diagnostic_republish}

-- The state to which the policy takes a lost execution, before the product is asked
abbrev pub lost_state : Job → State
lost_state j =
    if is_some j.effect_boundary_at
    then interrupted
    else if leb j.attempt_limit j.attempt_count
    then dead
    else retrying

-- What recovery makes of the row of a lost execution.
pub record IsRecovered (j j' : Job) : Type 0 where
  pub state : j'.state ≡ lost_state j
  pub notified : is_terminal j'.state ≡ false → j'.desired_generation ≡ j.desired_generation + 1
  pub fenced : j'.execution_token ≡ none
  pub attempts : j'.attempt_count ≡ j.attempt_count
  pub boundary : j'.effect_boundary_at ≡ j.effect_boundary_at
  pub same_job : (j'.id ≡ j.id) × (j'.job_kind ≡ j.job_kind) × (j'.input ≡ j.input)

-- The outcome of the policy is accepted for each diagnostic execution of a sound row that an expiry
-- scan selects. This is the row before the product is asked (Repairs.Terminalize).
pub expired_row_recovers :
    (j : Job) (token : String) (delay before now : ℕ)
    → IsSound j
    → j.execution_token ≡ some token
    → is_candidate expired before now j ≡ true
    → (j' : Job) × (recover_expired_row token (diagnostic_expired delay (from_row j)) now j
        ≡ some (some j'))
      × IsRecovered j j'
unfolding recover_expired_row is_candidate diagnostic_expired finish
expired_row_recovers j token delay before now v t c = (
  notify_again (finish j (diagnostic_expired delay (from_row j)) now),
  ground (arith, eq_refl token),
  ground arith,
)

-- Each stalled diagnostic job with a sound row that a no-progress scan selects gets a new notification: the policy
-- lets it, the advance of the generation that the scan saw is accepted, and the job is due for
-- publication unless a publisher still holds a claim.
pub diagnostic_republish_advances :
    (j : Job) (before now : ℕ)
    → IsSound j
    → is_candidate no_progress before now j ≡ true
    → (j' : Job) × (diagnostic_republish (from_row j) ≡ true)
      × (advance_publication_row j.desired_generation (some before) false now j ≡ some j')
      × (j'.desired_generation ≡ j.desired_generation + 1)
      × (is_publishable now j' ≡ claim_expired j.publication_claim_until now)
unfolding advance_publication_row is_candidate diagnostic_republish is_publishable
diagnostic_republish_advances j before now v c = (
  record j {
    desired_generation = j.desired_generation + 1;
    publication_eligible_at = now;
    updated_at = now;
  },
  ground arith,
  ground arith,
  refl,
  ground arith,
)
