-- ===== src/Repairs/Terminalize/Completes.antt =====
-- The completion of a turn by the end of its job.
use bike_doc.Prelude.{
  ℕ, ◌+◌, ◌≤◌, String, Bool, true, false, ◌≡◌, none, some, List, [], ◌∷◌, ◌++◌, arith, refl,
  Bool-cases, inl, inr, ◌∙◌, ap, eq_refl, is_some, if◌then◌else◌, ◌⊎◌,
}
use bike_doc.Jobs.Row.{Job, succeeded, interrupted, is_terminal}
use bike_doc.Jobs.Validity.{IsSound}
use bike_doc.Repairs.Model.{Turn, SessionEvent, Product, Status, awaiting_user}
use bike_doc.Repairs.Terminalize.{
  append_diagnostic_completion, completes, is_completed, interrupted_if_crossed, terminalize_turn,
  is_failed,
}

-- How many events complete the turn.
abbrev pub completions : String → List SessionEvent → ℕ
completions turn [] = 0
completions turn (e ∷ es) = (if completes turn e then 1 else 0) + completions turn es

completions-append :
    (turn : String) (xs ys : List SessionEvent)
    → completions turn (xs ++ ys) ≡ completions turn xs + completions turn ys
completions-append turn [] ys = omega arith
completions-append turn (x ∷ xs) ys = omega (arith, completions-append turn xs ys)

completions-is_completed :
    (turn : String) (es : List SessionEvent)
    → is_completed turn es ≡ false
    → completions turn es ≡ 0
unfolding is_completed
completions-is_completed turn [] h = refl
completions-is_completed turn (e ∷ es) h = ground (arith, completions-is_completed turn es)

is_completed-completions :
    (turn : String) (es : List SessionEvent) → is_completed turn es ≡ true → 1 ≤ completions turn es
unfolding is_completed
is_completed-completions turn [] h = cc
is_completed-completions turn (e ∷ es) h = ground (arith, is_completed-completions turn es)

completions-appended :
    (turn : String) (s : Status) (now : ℕ) (b : Bool) (p : Product)
    → completions turn (append_diagnostic_completion turn s now b p).events
      ≡ completions turn p.events + 1
unfolding append_diagnostic_completion
completions-appended turn s now true p =
    completions-append turn p.events _
    ∙ ap (λ n. completions turn p.events + n) (ground (arith, eq_refl turn))
completions-appended turn s now false p =
    completions-append turn p.events _
    ∙ ap (λ n. completions turn p.events + n) (ground (arith, eq_refl turn))

module _ (turn : Turn) (row : Job) (p : Product) where
  -- The row that the end of a job stores is terminal, and sound if it was.
  interrupted_if_crossed-IsSound :
      IsSound row → is_failed row.state ≡ true → IsSound (interrupted_if_crossed row)
  unfolding interrupted_if_crossed
  interrupted_if_crossed-IsSound v h = ground arith

  crossed_failed : is_failed row.state ≡ true → is_failed (interrupted_if_crossed row).state ≡ true
  unfolding interrupted_if_crossed
  crossed_failed h = ground arith

  crossed_id : (interrupted_if_crossed row).id ≡ row.id
  unfolding interrupted_if_crossed
  crossed_id = ground arith

  crossed_token : (interrupted_if_crossed row).execution_token ≡ row.execution_token
  unfolding interrupted_if_crossed
  crossed_token = ground arith

  crossed_attempts : (interrupted_if_crossed row).attempt_count ≡ row.attempt_count
  unfolding interrupted_if_crossed
  crossed_attempts = ground arith

  failed_at : IsSound row → is_failed row.state ≡ true → (t : ℕ) × (row.terminal_at ≡ some t)
  failed_at v h = ground arith

  crossed_at : (interrupted_if_crossed row).terminal_at ≡ row.terminal_at
  unfolding interrupted_if_crossed
  crossed_at = ground arith

  terminalize_again :
      is_completed turn.id p.events ≡ true
      → terminalize_turn turn row p
        ≡ some (
          record (interrupted_if_crossed row) { state = succeeded; latest_error_category = none },
          p,
        )
  unfolding terminalize_turn
  terminalize_again h = rw (terminalize_turn, h) refl

  terminalize_first :
      (t : ℕ)
      → is_completed turn.id p.events ≡ false
      → row.terminal_at ≡ some t
      → terminalize_turn turn row p
        ≡ some (
          interrupted_if_crossed row,
          append_diagnostic_completion turn.id awaiting_user t true p,
        )
  unfolding terminalize_turn
  terminalize_first t h e = rw (terminalize_turn, h) (rw (crossed_at ∙ e) refl)

  settled-IsSound :
      IsSound row
      → is_failed row.state ≡ true
      → IsSound
          (record (interrupted_if_crossed row) { state = succeeded; latest_error_category = none })
  unfolding interrupted_if_crossed
  settled-IsSound v h = ground arith

  -- What the end of the job of a turn does: exactly one completion of the turn is in the log, and
  -- the stored row is a sound terminal one of the same job. If the turn was completed before, the
  -- product stays and the job has succeeded. Otherwise the session waits for its user, and the job
  -- is interrupted if it had crossed the effect boundary.
  pub record IsCompleted (row' : Job) (p' : Product) : Type 0 where
    pub once : completions turn.id p'.events ≡ 1
    pub sound : IsSound row'
    pub ended : is_terminal row'.state ≡ true
    pub same_job : row'.id ≡ row.id
    pub jobs : p'.jobs ≡ p.jobs
    pub fenced : row'.execution_token ≡ row.execution_token
    pub attempts : row'.attempt_count ≡ row.attempt_count
    pub outcome :
        ((is_completed turn.id p.events ≡ true) × (row'.state ≡ succeeded) × (p' ≡ p))
        ⊎ ((is_completed turn.id p.events ≡ false)
            × (row'.state ≡ (if is_some row.effect_boundary_at then interrupted else row.state))
            × (p'.repair.status ≡ awaiting_user))

  crossed_state :
      is_failed row.state ≡ true
      → (interrupted_if_crossed row).state
        ≡ (if is_some row.effect_boundary_at then interrupted else row.state)
  unfolding interrupted_if_crossed
  crossed_state h = ground arith

  pub terminalize_turn-IsCompleted :
      IsSound row
      → is_failed row.state ≡ true
      → completions turn.id p.events ≤ 1
      → (row' : Job) × (p' : Product) × (terminalize_turn turn row p ≡ some (row', p'))
        × IsCompleted row' p'
  unfolding append_diagnostic_completion
  terminalize_turn-IsCompleted v h c = elim (Bool-cases (is_completed turn.id p.events)) [
    | inl b ↦ (
      _,
      p,
      terminalize_again b,
      record {
        once = omega (arith, is_completed-completions turn.id p.events b);
        sound = settled-IsSound v h;
        ended = refl;
        same_job = crossed_id;
        jobs = refl;
        fenced = crossed_token;
        attempts = crossed_attempts;
        outcome = inl (b, refl, refl);
      },
    )
    | inr b ↦
        let (t, e) = failed_at v h in
        (
          _,
          _,
          terminalize_first t b e,
          record {
            once =
                completions-appended turn.id awaiting_user t true p
                ∙ ap (λ n. n + 1) (completions-is_completed turn.id p.events b);
            sound = interrupted_if_crossed-IsSound v h;
            ended = ground (arith, crossed_failed h);
            same_job = crossed_id;
            jobs = refl;
            fenced = crossed_token;
            attempts = crossed_attempts;
            outcome = inr (b, crossed_state h, refl);
          },
        )
  ]
