-- ===== src/Repairs/Terminalize/Outcome.antt =====
-- apply_outcome of DiagnosticJobRepository: the job and its turn end in one transaction.
use bike_doc.Prelude.{ℕ, ◌≤◌, String, Bool, true, ◌&&◌, ◌≡◌, some, arith, refl, ◌∙◌, ap, str_eq}
use bike_doc.Jobs.Row.{Job, JobInput, is_terminal}
use bike_doc.Jobs.Values.{JobOutcome, final, retry}
use bike_doc.Jobs.Validity.{IsSound, apply-IsSound}
use bike_doc.Jobs.Delivery.{apply_outcome_row, finish}
use bike_doc.Jobs.Table.{lock, flush}
use bike_doc.Jobs.Table.Laws.{lock-id, lock-flush_self}
use bike_doc.Repairs.Model.{Turn, Product}
use bike_doc.Repairs.Terminalize.{
  terminalize, terminalize_turn, turn_of, transition, persist_profile, persist_transition,
  is_failed, apply_product_outcome,
}
use bike_doc.Repairs.Terminalize.Completes.{completions, terminalize_turn-IsCompleted}

pub failed_of :
    (row : Job)
    → (str_eq row.job_kind "diagnostic_turn" && is_failed row.state) ≡ true
    → is_failed row.state ≡ true
failed_of row h = ground arith

applied_id :
    (token : String) (o : JobOutcome) (now : ℕ) (j j' : Job)
    → apply_outcome_row token o now j ≡ some j'
    → j'.id ≡ j.id
unfolding apply_outcome_row finish
applied_id token (final f x) now j j' e = ground arith
applied_id token (retry x d) now j j' e = ground arith

module _ (is_turn_id : String → Bool) (is_profile_input : JobInput → Bool) where
  pub persist_profile-events :
      (row : Job) (p : Product)
      → ((persist_profile is_profile_input row p).events ≡ p.events)
        × ((persist_profile is_profile_input row p).jobs ≡ p.jobs)
  unfolding persist_profile
  persist_profile-events row p = ground arith

  pub terminalize_found :
      (row : Job) (p : Product) (t : Turn)
      → turn_of is_turn_id row p ≡ some t
      → terminalize is_turn_id row p ≡ terminalize_turn t row p
  unfolding terminalize
  terminalize_found row p t e = rw (e, terminalize) refl

  pub transition_failed :
      (row row' : Job) (p p' : Product)
      → (str_eq row.job_kind "diagnostic_turn" && is_failed row.state) ≡ true
      → terminalize is_turn_id row p ≡ some (row', p')
      → transition is_turn_id is_profile_input row p
        ≡ some (row', persist_profile is_profile_input row' p')
  unfolding transition
  transition_failed row row' p p' h e = rw (h, transition) (rw e refl)

  pub persist_some :
      (row row' : Job) (p p' : Product)
      → transition is_turn_id is_profile_input row p ≡ some (row', p')
      → persist_transition is_turn_id is_profile_input row p
        ≡ some (record p' { jobs = flush row'.id row' p'.jobs })
  unfolding persist_transition
  persist_some row row' p p' e = rw (persist_transition, e) refl

  product_applied :
      (id token : String) (o : JobOutcome) (now : ℕ) (p p' : Product) (row row' : Job)
      → lock id p.jobs ≡ some row
      → apply_outcome_row token o now row ≡ some row'
      → persist_transition is_turn_id is_profile_input row' p ≡ some p'
      → apply_product_outcome is_turn_id is_profile_input id token o now p ≡ some (true, p')
  unfolding apply_product_outcome
  product_applied id token o now p p' row row' e f g =
      rw (e, apply_product_outcome) (rw f (rw g refl))

  -- An accepted outcome by which a diagnostic job fails ends its turn with it: the call succeeds,
  -- the log has exactly one completion of the turn if it had at most one before, and the job is
  -- stored as a sound terminal row.
  pub apply_product_outcome_completes :
      (id token : String) (o : JobOutcome) (now : ℕ) (p : Product) (row ended : Job) (turn : Turn)
      → IsSound row
      → row.updated_at ≤ now
      → lock id p.jobs ≡ some row
      → apply_outcome_row token o now row ≡ some ended
      → (str_eq ended.job_kind "diagnostic_turn" && is_failed ended.state) ≡ true
      → turn_of is_turn_id ended p ≡ some turn
      → completions turn.id p.events ≤ 1
      → (stored : Job) × (p' : Product) × (apply_product_outcome is_turn_id is_profile_input id
            token o now p
          ≡ some (true, p'))
        × (completions turn.id p'.events ≡ 1)
        × (lock id p'.jobs ≡ some stored)
        × (is_terminal stored.state ≡ true)
        × IsSound stored
  apply_product_outcome_completes id token o now p row ended turn v le e f h g c =
      let (stored, q, t, done) =
        terminalize_turn-IsCompleted turn ended p (apply-IsSound row now v le token o ended f)
          (failed_of ended h) c in
      let (events, jobs) = persist_profile-events stored q in
      let same : stored.id ≡ row.id = done.same_job ∙ applied_id token o now row ended f in
      let q' : Product = persist_profile is_profile_input stored q in
      let table : q'.jobs ≡ p.jobs = jobs ∙ done.jobs in
      let key : stored.id ≡ id = same ∙ lock-id id p.jobs row e in
      (
        stored,
        record q' { jobs = flush stored.id stored q'.jobs },
        product_applied id token o now p _ row ended e f (
            persist_some ended stored p q'
              (transition_failed ended stored p q h (terminalize_found ended p turn g ∙ t))),
        ap (completions turn.id) events ∙ done.once,
        rw (key, table) (lock-flush_self id row stored p.jobs e same),
        done.ended,
        done.sound,
      )
