-- ===== src/Events/Log.antt =====
-- The order of the event log (repositories/events.py) and the cursors of streams.
use bike_doc.Prelude.{
  ℕ, ◌+◌, ◌≤◌, ◌<◌, String, Option, List, [], ◌∷◌, ◌++◌, ◌≡◌, refl, arith, All, filter,
}
use bike_doc.Events.{Event, EventLog, append_for_session, newer}

-- Sequences grow along the log.
abbrev pub Increasing : List Event → Type 0
Increasing [] = Unit
Increasing (e ∷ es) = All (λ f. e.sequence < f.sequence) es × Increasing es

-- The log is in order, and the session's latest sequence bounds it.
pub record IsLog (s : EventLog) : Type 0 where
  pub bounded : All (λ e. e.sequence ≤ s.latest_event_sequence) s.events
  pub increasing : Increasing s.events

bounded-snoc :
    (n : ℕ) (es : List Event) (e : Event)
    → All (λ f. f.sequence ≤ n) es
    → e.sequence ≡ n + 1
    → All (λ f. f.sequence ≤ n + 1) (es ++ e ∷ [])
bounded-snoc n [] e a x = (omega arith, tt)
bounded-snoc n (f ∷ es) e a x = (omega (arith, a.0), bounded-snoc n es e a.1 x)

above-snoc :
    (g : Event) (n : ℕ) (es : List Event) (e : Event)
    → All (λ f. g.sequence < f.sequence) es
    → g.sequence ≤ n
    → e.sequence ≡ n + 1
    → All (λ f. g.sequence < f.sequence) (es ++ e ∷ [])
above-snoc g n [] e a b x = (omega arith, tt)
above-snoc g n (f ∷ es) e a b x = (a.0, above-snoc g n es e a.1 b x)

Increasing-snoc :
    (n : ℕ) (es : List Event) (e : Event)
    → All (λ f. f.sequence ≤ n) es
    → Increasing es
    → e.sequence ≡ n + 1
    → Increasing (es ++ e ∷ [])
Increasing-snoc n [] e a i x = (tt, tt)
Increasing-snoc n (f ∷ es) e a i x =
    (above-snoc f n es e i.0 a.0 x, Increasing-snoc n es e a.1 i.1 x)

newer-snoc :
    (after : ℕ) (es : List Event) (e : Event)
    → after < e.sequence
    → newer after (es ++ e ∷ []) ≡ newer after es ++ e ∷ []
unfolding newer filter
newer-snoc after [] e h = ground arith
newer-snoc after (f ∷ es) e h = ground (arith, newer-snoc after es e h)

-- An appended event keeps the log in order and bounded by the latest sequence, and every stream
-- whose cursor is not past the log before it is given the event, after all that it was given
-- before.
pub append_for_session-IsLog :
    (kind content : String) (turn : Option String) (s : EventLog) (after : ℕ)
    → IsLog s
    → after ≤ s.latest_event_sequence
    → IsLog (append_for_session kind content turn s).1
      × (newer after (append_for_session kind content turn s).1.events
          ≡ newer after s.events ++ (append_for_session kind content turn s).0 ∷ [])
unfolding append_for_session
append_for_session-IsLog kind content turn s after v h =
    let e : Event = (append_for_session kind content turn s).0 in
    (
      record {
        bounded = bounded-snoc s.latest_event_sequence s.events e v.bounded refl;
        increasing = Increasing-snoc s.latest_event_sequence s.events e v.bounded v.increasing refl;
      },
      newer-snoc after s.events e (omega arith),
    )
