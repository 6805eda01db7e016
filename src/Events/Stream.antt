-- ===== src/Events/Stream.antt =====
-- A stream from its opening to its replay: prepare_stream, append_for_session and
-- _iter_replay_events together (services/events.py, repositories/events.py).
use mathlib.Core.List.{append-nil, append_assoc}
use bike_doc.Prelude.{
  ℕ, ◌≤◌, ◌<◌, ltb, false, String, Option, none, some, List, [], ◌∷◌, ◌++◌, ◌≡◌, ◌∙◌, refl, sym, ap,
  arith, All, order_by, insert_by_first, length, subst,
}
use bike_doc.Events.{
  Event, EventLog, append_for_session, newer, iter_replay_events, Number, EventStream, opened,
  resolve_after_sequence, accept_cursor, prepare_stream,
}
use bike_doc.Events.Log.{Increasing, IsLog, append_for_session-IsLog}
use bike_doc.Events.Order.{earlier}
use bike_doc.Events.Replay.{replay_sorted}

-- What an event says: its kind, its content and its turn.
abbrev pub Entry : Type 0
Entry = String × String × Option String

-- The entries are appended one after the other; the events that this writes, and the log.
unfoldable pub append_entries : List Entry → EventLog → List Event × EventLog
unfolding append_for_session
append_entries [] s = ([], s)
append_entries ((kind, content, turn) ∷ xs) s =
    let (e, s₁) = append_for_session kind content turn s in
    let (es, s₂) = append_entries xs s₁ in (e ∷ es, s₂)

latest-append :
    (kind content : String) (turn : Option String) (s : EventLog) (after : ℕ)
    → after ≤ s.latest_event_sequence
    → after ≤ (append_for_session kind content turn s).1.latest_event_sequence
unfolding append_for_session
latest-append kind content turn s after h = omega arith

pub append_entries-IsLog :
    (xs : List Entry) (s : EventLog) (after : ℕ)
    → IsLog s
    → after ≤ s.latest_event_sequence
    → IsLog (append_entries xs s).1
      × (newer after (append_entries xs s).1.events
          ≡ newer after s.events ++ (append_entries xs s).0)
unfolding append_entries
append_entries-IsLog [] s after v h = (v, sym (append-nil (newer after s.events)))
append_entries-IsLog ((kind, content, turn) ∷ xs) s after v h =
    let (v₁, n₁) = append_for_session-IsLog kind content turn s after v h in
    let s₁ : EventLog = (append_for_session kind content turn s).1 in
    let (v₂, n₂) =
      append_entries-IsLog xs s₁ after v₁ (latest-append kind content turn s after h) in
    (
      v₂,
      n₂
          ∙ ap (λ x. x ++ (append_entries xs s₁).0) n₁
          ∙ append_assoc (newer after s.events) ((append_for_session kind content turn s).0 ∷ [])
              (append_entries xs s₁).0,
    )

not_before :
    (e : Event) (es : List Event)
    → All (λ f. e.sequence < f.sequence) es
    → All (λ f. ltb f.sequence e.sequence ≡ false) es
not_before e [] a = tt
not_before e (f ∷ es) a = (ground arith, not_before e es a.1)

-- A log in order is what its sort gives.
order_by-same : (es : List Event) → Increasing es → order_by earlier es ≡ es
unfolding order_by
order_by-same [] i = refl
order_by-same (e ∷ es) i =
    rw (order_by-same es i.1) (insert_by_first earlier e es (not_before e es i.0))

replay_log :
    (rounds limit cursor : ℕ) (s : EventLog)
    → IsLog s
    → 1 ≤ limit
    → length (newer cursor s.events) < rounds
    → iter_replay_events rounds limit cursor s ≡ newer cursor s.events
replay_log rounds limit cursor s v l h =
    let same : order_by earlier s.events ≡ s.events = order_by-same s.events v.increasing in
    replay_sorted s rounds limit cursor (subst Increasing (sym same) v.increasing) l
      (subst (λ x. length (newer cursor x) < rounds) (sym same) h)
    ∙ ap (newer cursor) same

module _ (int : String → Option Number) (str : Number → String) where
  -- A stream opens only on a session that is there, from a cursor that its log has reached.
  opened-cursor :
      (owned : Option EventLog) (after last : Option String) (timeout : ℕ) (e : EventStream)
      → prepare_stream int str owned after last timeout ≡ opened e
      → (s : EventLog) × (owned ≡ some s) × (e.after_sequence ≤ s.latest_event_sequence)
  unfolding prepare_stream resolve_after_sequence accept_cursor
  opened-cursor none after last timeout e h = ground arith
  opened-cursor (some s) after last timeout e h = (s, refl, ground arith)

  -- A stream that opens loses no event: the session was there, and whatever is appended between the
  -- opening and the replay, the replay from the cursor of the stream yields the events of the
  -- session that were newer than the cursor and then every appended one, in order. The log of an
  -- owned session is in order and bounded by its latest sequence, which every append keeps, the log does
  -- not grow during the replay itself, a page holds at least one event, and the rounds are more than
  -- the events to yield.
  pub prepare_stream_replays :
      (owned : Option EventLog) (after last : Option String) (timeout : ℕ) (e : EventStream)
      (xs : List Entry) (rounds limit : ℕ)
      → prepare_stream int str owned after last timeout ≡ opened e
      → ((s : EventLog) → owned ≡ some s → IsLog s)
      → ((s : EventLog)
          → owned ≡ some s
          → length (newer e.after_sequence (append_entries xs s).1.events) < rounds)
      → 1 ≤ limit
      → (s : EventLog) × (owned ≡ some s)
        × (iter_replay_events rounds limit e.after_sequence (append_entries xs s).1
            ≡ newer e.after_sequence s.events ++ (append_entries xs s).0)
  prepare_stream_replays owned after last timeout e xs rounds limit h logs enough l =
      let (s, there, reached) = opened-cursor owned after last timeout e h in
      let (v, n) = append_entries-IsLog xs s e.after_sequence (logs s there) reached in
      (
        s,
        there,
        replay_log rounds limit e.after_sequence (append_entries xs s).1 v l (enough s there) ∙ n,
      )
