-- ===== src/Events.antt =====
-- The event log of a repair session: RepairSessionEventRepository (repositories/events.py), and the
-- cursor and the opening of a stream (services/events.py). A session is its row and its own events.
pub mod Log
pub mod Order
pub mod Replay
pub mod Stream
use bike_doc.Prelude.{
  ℕ, ◌+◌, String, Bool, true, false, not, ◌||◌, ◌&&◌, Option, none, some, List, [], ◌∷◌, ◌++◌, ltb,
  leb, str_eq, if◌then◌else◌, take, filter, order_by, zero, suc, length,
}

-- A row of repair_session_events; the content is the validated JSON of its data.
pub record Event : Type 0 where
  pub sequence : ℕ
  pub turn_id : Option String
  pub kind : String
  pub content : String

-- The row of the session, as far as the log reads and writes it, and the events of the session.
pub record EventLog : Type 0 where
  pub id : String
  pub user_id : String
  pub latest_event_sequence : ℕ
  pub events : List Event

-- append_for_session, on the session that it locked
unfoldable pub append_for_session : String → String → Option String → EventLog → Event × EventLog
append_for_session kind content turn s =
    let event : Event = record {
      sequence = s.latest_event_sequence + 1;
      turn_id = turn;
      kind = kind;
      content = content;
    } in
    (
      event,
      record s {
        latest_event_sequence = s.latest_event_sequence + 1;
        events = s.events ++ event ∷ [];
      },
    )

-- The WHERE clause of list_after_sequence
unfoldable pub newer : ℕ → List Event → List Event
unfolding filter
newer after events = filter (λ e. ltb after e.sequence) events

unfoldable pub list_after_sequence : ℕ → ℕ → EventLog → List Event
unfolding newer order_by
list_after_sequence after limit s =
    take limit (order_by (λ e f. ltb e.sequence f.sequence) (newer after s.events))

-- The cursor after the events that a page yields.
abbrev pub last_sequence : ℕ → List Event → ℕ
last_sequence cursor [] = cursor
last_sequence cursor (e ∷ es) = last_sequence e.sequence es

-- One round of the loop: nothing is left, or the page is the last one, or the rest follows it.
unfoldable pub page_then : ℕ → List Event → List Event → List Event
page_then limit [] rest = []
page_then limit (e ∷ es) rest = if ltb (length (e ∷ es)) limit then e ∷ es else (e ∷ es) ++ rest

-- _iter_replay_events, on a log that does not grow meanwhile. Each round of the loop takes one of
-- the rounds that are given.
unfoldable pub iter_replay_events : ℕ → ℕ → ℕ → EventLog → List Event
unfolding list_after_sequence page_then
iter_replay_events zero limit cursor s = []
iter_replay_events (suc rounds) limit cursor s =
    let page : List Event = list_after_sequence cursor limit s in
    page_then limit page (iter_replay_events rounds limit (last_sequence cursor page) s)

-- REPLAY_BATCH_SIZE
abbrev pub replay_batch_size : ℕ
replay_batch_size = 100

-- What `int` reads and `str` prints.
pub data Number : Type 0 where
  natural : ℕ → Number
  negative : ℕ → Number

pub data StreamError : Type 0 where
  validation_failed not_found : StreamError

pub data StreamResult (A : Type 0) : Type 0 where
  opened : A → StreamResult A
  refused : StreamError → StreamResult A

-- EventStream
pub record EventStream : Type 0 where
  pub repair_session_id : String
  pub after_sequence : ℕ
  pub timeout_seconds : ℕ

-- Decimal numbers are read and printed by Python, `int` and `str` of the source.
module _ (int : String → Option Number) (str : Number → String) where
  -- The last checks of _resolve_after_sequence, on a parsed cursor.
  unfoldable pub accept_cursor : String → Number → ℕ → Option ℕ
  accept_cursor cursor (negative n) latest = none
  accept_cursor cursor (natural n) latest =
      if not (str_eq (str (natural n)) cursor) || ltb latest n then none else some n

  -- _resolve_after_sequence; `none` is the ValidationAppError.
  unfoldable pub resolve_after_sequence : Option String → Option String → ℕ → Option ℕ
  unfolding accept_cursor
  resolve_after_sequence after last latest =
      let cursor : Option String = elim after [ none ↦ last | some a ↦ some a ] in
      elim cursor [
        | none ↦ some latest
        | some text ↦ elim (int text) [ none ↦ none | some n ↦ accept_cursor text n latest ]
      ]

  -- prepare_stream, with the session that get_owned looks up
  unfoldable pub prepare_stream :
      Option EventLog → Option String → Option String → ℕ → StreamResult EventStream
  unfolding resolve_after_sequence
  prepare_stream owned after last timeout =
      if ltb timeout 5 || ltb 120 timeout then refused validation_failed else elim owned [
        | none ↦ refused not_found
        | some s ↦ elim (resolve_after_sequence after last s.latest_event_sequence) [
          | none ↦ refused validation_failed
          | some n ↦
              opened
                (record { repair_session_id = s.id; after_sequence = n; timeout_seconds = timeout })
        ]
      ]
