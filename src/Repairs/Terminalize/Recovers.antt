-- ===== src/Repairs/Terminalize/Recovers.antt =====
-- recover_expired of DiagnosticJobRepository with the diagnostic policy: what becomes of a lost
-- execution and of its turn.
use bike_doc.Prelude.{
  ℕ, ◌≤◌, String, Bool, true, false, ◌&&◌, ◌≡◌, none, some, arith, refl, ◌∙◌, ap, str_eq,
  Bool-cases, inl, inr, if◌then◌else◌, ◌⊎◌, eq_refl, is_some,
}
use bike_doc.Jobs.Row.{Job, JobInput, State, succeeded, interrupted, is_terminal}
use bike_doc.Jobs.Values.{JobOutcome, from_row}
use bike_doc.Jobs.Validity.{IsSound, recover-IsSound}
use bike_doc.Jobs.Recovery.{expired, is_candidate, recover_expired_row}
use bike_doc.Jobs.Table.{lock, flush}
use bike_doc.Jobs.Table.Laws.{lock-id, lock-flush_self}
use bike_doc.Repairs.Model.{Turn, Product}
use bike_doc.Repairs.Terminalize.{
  turn_of, transition, persist_profile, persist_transition, is_failed, is_completed,
  recover_product_expired,
}
use bike_doc.Repairs.Terminalize.Completes.{completions, terminalize_turn-IsCompleted}
use bike_doc.Repairs.Terminalize.Outcome.{
  persist_profile-events, terminalize_found, transition_failed, persist_some,
}
use bike_doc.Workers.Policy.{diagnostic_expired}
use bike_doc.Workers.Policy.Recovers.{lost_state, expired_row_recovers}

-- A lost execution of the job of a turn: a completed turn proves that it was processed, unless an
-- attempt is left.
abbrev pub state_after : Job → Bool → State
state_after row completed =
    if is_terminal (lost_state row) && completed then succeeded else lost_state row

failed_state :
    (row : Job) (s : State)
    → s ≡ lost_state row
    → is_failed s ≡ true
    → is_terminal (lost_state row) ≡ true
failed_state row s e h = ground arith

open_state :
    (row : Job) (s : State)
    → s ≡ lost_state row
    → is_failed s ≡ false
    → is_terminal (lost_state row) ≡ false
open_state row s e h = ground arith

settled_state :
    {A B : Type 0} (row lost : Job) (s : State) (b : Bool)
    → lost.state ≡ lost_state row
    → lost.effect_boundary_at ≡ row.effect_boundary_at
    → is_failed lost.state ≡ true
    → ((b ≡ true) × (s ≡ succeeded) × A)
      ⊎ ((b ≡ false)
          × (s ≡ (if is_some lost.effect_boundary_at then interrupted else lost.state))
          × B)
    → s ≡ state_after row b
settled_state row lost s b e x h (inl (y, z, _)) = ground (arith, e, x, h, y, z)
settled_state row lost s b e x h (inr (y, z, _)) = ground (arith, e, x, h, y, z)

-- The end of the recovery: the row that is stored, and the log
pub record IsSettled (turn : Turn) (row : Job) (p : Product) (stored : Job) (p' : Product)
    : Type 0 where
  pub state : stored.state ≡ state_after row (is_completed turn.id p.events)
  pub completes :
      completions turn.id p'.events
      ≡ (if is_terminal (lost_state row) then 1 else completions turn.id p.events)
  pub fenced : stored.execution_token ≡ none
  pub attempts : stored.attempt_count ≡ row.attempt_count
  pub sound : IsSound stored

module _ (is_turn_id : String → Bool) (is_profile_input : JobInput → Bool) where
  product_recovered :
      (id token : String) (o : JobOutcome) (now : ℕ) (p p' : Product) (row row' : Job)
      → lock id p.jobs ≡ some row
      → recover_expired_row token o now row ≡ some (some row')
      → persist_transition is_turn_id is_profile_input row' p ≡ some p'
      → recover_product_expired is_turn_id is_profile_input id token o now p ≡ some (true, p')
  unfolding recover_product_expired
  product_recovered id token o now p p' row row' e f g =
      rw (e, recover_product_expired) (rw f (rw g refl))

  transition_open :
      (row : Job) (p : Product)
      → is_failed row.state ≡ false
      → transition is_turn_id is_profile_input row p
        ≡ some (row, persist_profile is_profile_input row p)
  unfolding transition
  transition_open row p h = ground (arith, h)

  turn_of-input :
      (j k : Job) (p : Product)
      → k.input ≡ j.input
      → turn_of is_turn_id k p ≡ turn_of is_turn_id j p
  unfolding turn_of
  turn_of-input j k p e = rw e refl

  diagnostic_of :
      (j k : Job)
      → k.job_kind ≡ j.job_kind
      → j.job_kind ≡ "diagnostic_turn"
      → is_failed k.state ≡ true
      → (str_eq k.job_kind "diagnostic_turn" && is_failed k.state) ≡ true
  diagnostic_of j k e h f =
      ground (arith, f, ap (λ x. str_eq x "diagnostic_turn") (e ∙ h), eq_refl "diagnostic_turn")

  stored_in :
      (id : String) (p q : Product) (row stored : Job)
      → lock id p.jobs ≡ some row
      → q.jobs ≡ p.jobs
      → stored.id ≡ row.id
      → lock id (flush stored.id stored q.jobs) ≡ some stored
  stored_in id p q row stored e table same =
      ap (λ k. lock id (flush k stored q.jobs)) (same ∙ lock-id id p.jobs row e)
      ∙ ap (λ t. lock id (flush id stored t)) table
      ∙ lock-flush_self id row stored p.jobs e same

  -- A lost execution of the job of a diagnostic turn, with a sound row that an expiry scan selects,
  -- is recovered by the diagnostic policy, and its turn with it: the call succeeds; the job is retried if it has not
  -- crossed the effect boundary and has an attempt left, and otherwise it has succeeded if its turn
  -- was completed already, is interrupted if it had crossed the boundary, and is dead if not; where
  -- it ends, the log has exactly one completion of the turn, if it had at most one before. The
  -- stored row is sound, the token of the execution is void, and no attempt is added.
  pub diagnostic_expired_recovers :
      (id token : String) (delay before now : ℕ) (p : Product) (row : Job) (turn : Turn)
      → IsSound row
      → row.updated_at ≤ now
      → lock id p.jobs ≡ some row
      → row.job_kind ≡ "diagnostic_turn"
      → row.execution_token ≡ some token
      → is_candidate expired before now row ≡ true
      → turn_of is_turn_id row p ≡ some turn
      → completions turn.id p.events ≤ 1
      → (stored : Job) × (p' : Product) × (recover_product_expired is_turn_id is_profile_input id
            token
            (diagnostic_expired delay (from_row row))
            now
            p
          ≡ some (true, p'))
        × (lock id p'.jobs ≡ some stored)
        × IsSettled turn row p stored p'
  diagnostic_expired_recovers id token delay before now p row turn v le e kind tok c g once =
      let o : JobOutcome = diagnostic_expired delay (from_row row) in
      let (lost, f, r) = expired_row_recovers row token delay before now v tok c in
      let w : IsSound lost = recover-IsSound row now v le token o lost f in
      elim (Bool-cases (is_failed lost.state)) [
        | inl h ↦
            let (stored, q, t, done) = terminalize_turn-IsCompleted turn lost p w h once in
            let (events, jobs) = persist_profile-events is_turn_id is_profile_input stored q in
            let q' : Product = persist_profile is_profile_input stored q in
            (
              stored,
              record q' { jobs = flush stored.id stored q'.jobs },
              product_recovered id token o now p _ row lost e f (
                  persist_some is_turn_id is_profile_input lost stored p q' (
                    transition_failed is_turn_id is_profile_input lost stored p q
                      (diagnostic_of row lost r.same_job.1 kind h)
                      (terminalize_found is_turn_id is_profile_input lost p turn
                          (turn_of-input row lost p r.same_job.2 ∙ g)
                        ∙ t))),
              stored_in id p q' row stored e (jobs ∙ done.jobs) (done.same_job ∙ r.same_job.0),
              record {
                state =
                    settled_state row lost stored.state (is_completed turn.id p.events) r.state
                      r.boundary h done.outcome;
                completes =
                    ap (completions turn.id) events
                    ∙ done.once
                    ∙ rw (failed_state row lost.state r.state h) refl;
                fenced = done.fenced ∙ r.fenced;
                attempts = done.attempts ∙ r.attempts;
                sound = done.sound;
              },
            )
        | inr h ↦
            let (events, jobs) = persist_profile-events is_turn_id is_profile_input lost p in
            let q' : Product = persist_profile is_profile_input lost p in
            (
              lost,
              record q' { jobs = flush lost.id lost q'.jobs },
              product_recovered id token o now p _ row lost e f (
                  persist_some is_turn_id is_profile_input lost lost p q'
                    (transition_open lost p h)),
              stored_in id p q' row lost e jobs r.same_job.0,
              record {
                state = r.state ∙ rw (open_state row lost.state r.state h) refl;
                completes =
                    ap (completions turn.id) events ∙ rw (open_state row lost.state r.state h) refl;
                fenced = r.fenced;
                attempts = r.attempts;
                sound = w;
              },
            )
      ]
