-- ===== src/Repairs/Accept/Cases.antt =====
-- The ways accept_turn can end.
use bike_doc.Prelude.{
  true, false, ◌≡◌, Option, none, some, arith, refl, Option-cases, inl, inr, ◌∙◌, ap, sym, str_eq,
  ◌⊎◌,
}
use bike_doc.Jobs.Table.{Table}
use bike_doc.Repairs.Model.{Turn, Product, get_by_client_turn_id}
use bike_doc.Repairs.Request.{
  TurnRequest, Acceptance, AcceptError, Accepted, AcceptResult, accepted, refused,
  validate_artifacts,
}
use bike_doc.Repairs.Producers.{stored, raised, record_turn_jobs}
use bike_doc.Repairs.Producers.Stored.{Produced-cases}
use bike_doc.Repairs.Accept.{
  replay_of, acceptance_snapshot, create_turn_started, commit_turn, preflight, accept_locked,
  accept_turn,
}

module _ (a : Acceptance) (request : TurnRequest) where
  replay_unknown :
      (p : Product)
      → get_by_client_turn_id request.client_turn_id p.turns ≡ none
      → replay_of a.request_hash request p ≡ none
  unfolding replay_of
  replay_unknown p e = rw (e, replay_of) refl

  pub replay_known :
      (p : Product) (t : Turn)
      → get_by_client_turn_id request.client_turn_id p.turns ≡ some t
      → str_eq t.request_hash a.request_hash ≡ true
      → replay_of a.request_hash request p
        ≡ some (
            accepted
              (record { turn = t; session = acceptance_snapshot p.repair t; is_replay = true }))
  unfolding replay_of
  replay_known p t e h = rw (e, replay_of) (rw h refl)

  pub preflight_replay :
      (p : Product) (r : AcceptResult)
      → replay_of a.request_hash request p ≡ some r
      → preflight a request p ≡ some r
  unfolding preflight
  preflight_replay p r e = rw (e, preflight) refl

  -- What preflight answers is no acceptance of a new turn.
  pub preflight_old :
      (p : Product) (x : Accepted) → preflight a request p ≡ some (accepted x) → x.is_replay ≡ true
  unfolding preflight replay_of
  preflight_old p x e = ground arith

  locked_known :
      (p : Product) (r : AcceptResult)
      → preflight a request p ≡ some r
      → accept_locked a request p ≡ (r, p)
  unfolding accept_locked
  locked_known p r e = rw (e, accept_locked) refl

  pub turn_known :
      (seen p : Product) (r : AcceptResult)
      → preflight a request seen ≡ some r
      → accept_turn a request (some seen) (some p) ≡ (r, some p)
  unfolding accept_turn
  turn_known seen p r e = rw (e, accept_turn) refl

  turn_locked :
      (seen p : Product)
      → preflight a request seen ≡ none
      → accept_turn a request (some seen) (some p)
        ≡ ((accept_locked a request p).0, some (accept_locked a request p).1)
  unfolding accept_turn
  turn_locked seen p e = rw (e, accept_turn) refl

  -- The turn and the session that a new turn makes.
  unfoldable pub new_turn : Product → Turn
  unfolding create_turn_started
  new_turn p = (create_turn_started a request p).0

  unfoldable pub with_turn : Product → Table → Product
  unfolding create_turn_started
  with_turn p t = record (create_turn_started a request p).1 { jobs = t }

  abbrev pub new_answer : Product → AcceptResult
  unfolding create_turn_started acceptance_snapshot
  new_answer p = accepted (record {
    turn = new_turn p;
    session = acceptance_snapshot (create_turn_started a request p).1.repair (new_turn p);
    is_replay = false;
  })

  commit_raised :
      (p : Product) (e : AcceptError)
      → record_turn_jobs a request p.jobs ≡ raised e
      → commit_turn a request p ≡ (refused e, p)
  unfolding commit_turn create_turn_started new_turn with_turn
  commit_raised p e x = rw (x, commit_turn) refl

  commit_stored :
      (p : Product) (t : Table)
      → record_turn_jobs a request p.jobs ≡ stored t
      → commit_turn a request p ≡ (new_answer p, with_turn p t)
  unfolding commit_turn create_turn_started new_turn with_turn
  commit_stored p t x = rw (x, commit_turn) refl

  locked_invalid :
      (p : Product) (e : AcceptError)
      → preflight a request p ≡ none
      → validate_artifacts a.get_artifact p.repair.id request.artifact_ids ≡ some e
      → accept_locked a request p ≡ (refused e, p)
  unfolding accept_locked
  locked_invalid p e x y = rw (x, accept_locked) (rw y refl)

  locked_commit :
      (p : Product)
      → preflight a request p ≡ none
      → validate_artifacts a.get_artifact p.repair.id request.artifact_ids ≡ none
      → accept_locked a request p ≡ commit_turn a request p
  unfolding accept_locked
  locked_commit p x y = rw (x, accept_locked) (rw y refl)

  -- Under the lock: an answer with nothing written, or a new turn with its jobs.
  accept_locked-cases :
      (p : Product)
      → ((accept_locked a request p).1 ≡ p)
          × ((x : Accepted)
              → (accept_locked a request p).0 ≡ accepted x
              → preflight a request p ≡ some (accepted x))
        ⊎ ((t : Table) × (record_turn_jobs a request p.jobs ≡ stored t)
            × (preflight a request p ≡ none)
            × (accept_locked a request p ≡ (new_answer p, with_turn p t)))
  accept_locked-cases p = elim (Option-cases (preflight a request p)) [
    | inr (r, e) ↦ inl (ap (λ w. w.1) (locked_known p r e), λ x h. cc (h, locked_known p r e, e))
    | inl n ↦
        elim (Option-cases (validate_artifacts a.get_artifact p.repair.id request.artifact_ids)) [
          | inr (e, y) ↦
              inl (ap (λ w. w.1) (locked_invalid p e n y), λ x h. cc (h, locked_invalid p e n y))
          | inl y ↦ elim (Produced-cases (record_turn_jobs a request p.jobs)) [
            | inr (e, z) ↦
                let w : accept_locked a request p ≡ (refused e, p) =
                  locked_commit p n y ∙ commit_raised p e z in
                inl (ap (λ v. v.1) w, λ x h. cc (h, w))
            | inl (t, z) ↦ inr (t, z, n, locked_commit p n y ∙ commit_stored p t z)
          ]
        ]
  ]

  -- What accept_turn answers, when the session is there before the lock and under it.
  pub accept_turn-cases :
      (seen p : Product)
      → ((accept_turn a request (some seen) (some p)).1 ≡ some p)
          × ((x : Accepted)
              → (accept_turn a request (some seen) (some p)).0 ≡ accepted x
              → (preflight a request seen ≡ some (accepted x))
                ⊎ (preflight a request p ≡ some (accepted x)))
        ⊎ ((t : Table) × (record_turn_jobs a request p.jobs ≡ stored t)
            × (preflight a request p ≡ none)
            × (accept_turn a request (some seen) (some p) ≡ (new_answer p, some (with_turn p t))))
  accept_turn-cases seen p = elim (Option-cases (preflight a request seen)) [
    | inr (r, e) ↦
        inl (ap (λ w. w.1) (turn_known seen p r e), λ x h. inl (cc (h, turn_known seen p r e, e)))
    | inl n ↦ elim (accept_locked-cases p) [
      | inl (same, old) ↦ inl (
        ap (λ w. w.1) (turn_locked seen p n) ∙ ap some same,
        λ x h. inr (old x (sym (ap (λ w. w.0) (turn_locked seen p n)) ∙ h)),
      )
      | inr (t, z, y, w) ↦ inr (t, z, y, turn_locked seen p n ∙ ap (λ v. (v.0, some v.1)) w)
    ]
  ]

  pub new_inversion :
      (p p' : Product) (t : Table) (x : Accepted) (w : AcceptResult × Option Product)
      → w ≡ (new_answer p, some (with_turn p t))
      → w ≡ (accepted x, some p')
      → (x.turn ≡ new_turn p) × (p' ≡ with_turn p t)
  unfolding new_answer
  new_inversion p p' t x w e f = (cc, cc)

  pub old_inversion :
      (p p' : Product) (x : Accepted) (w : AcceptResult × Option Product)
      → w.1 ≡ some p
      → w ≡ (accepted x, some p')
      → (w.0 ≡ accepted x) × (p' ≡ p)
  old_inversion p p' x w e f = (cc, cc)
