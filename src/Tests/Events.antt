-- ===== src/Tests/Events.antt =====
-- A session with one event, a second one appended, and a stream from the start of its log.
use mathlib.Core.List.{Perm}
use bike_doc.Prelude.{
  List, subst, ℕ, ◌<◌, length, String, ◌≡◌, refl, none, some, arith, [], ◌∷◌, ◌++◌, Option, str_eq,
  if◌then◌else◌,
}
use bike_doc.Events.{
  Event, EventLog, append_for_session, newer, Number, natural, negative, EventStream, opened,
  prepare_stream, iter_replay_events,
}
use bike_doc.Events.Replay.{iter_replay_events_lem}
use bike_doc.Events.Order.{IsDistinct}
use bike_doc.Events.Stream.{Entry, append_entries, prepare_stream_replays}
use bike_doc.Events.Log.{Increasing, IsLog, append_for_session-IsLog}

abbrev first_event : Event
first_event = record { sequence = 1; turn_id = none; kind = "turn.accepted"; content = "{}" }

abbrev log : EventLog
log = record {
  id = "session_1";
  user_id = "user_1";
  latest_event_sequence = 1;
  events = first_event ∷ [];
}

log-IsLog : IsLog log
log-IsLog = record { bounded = (omega arith, tt); increasing = (tt, tt) }

append_for_session-IsLog_example :
    IsLog (append_for_session "heartbeat" "{}" none log).1
    × (newer 0 (append_for_session "heartbeat" "{}" none log).1.events
        ≡ newer 0 (first_event ∷ []) ++ (append_for_session "heartbeat" "{}" none log).0 ∷ [])
append_for_session-IsLog_example =
    append_for_session-IsLog "heartbeat" "{}" none log 0 log-IsLog (omega arith)

-- Two numbers, read and printed.
abbrev int : String → Option Number
int text =
    if str_eq text "0"
    then some (natural 0)
    else if str_eq text "-1"
    then some (negative 1)
    else none

abbrev str : Number → String
str (natural n) = "0"
str (negative n) = "-1"

abbrev stream : EventStream
stream = record { repair_session_id = "session_1"; after_sequence = 0; timeout_seconds = 30 }

some_log : (s s' : EventLog) → some s ≡ some s' → s ≡ s'
some_log s s' e = cc

opens : prepare_stream int str (some log) (some "0") none 30 ≡ opened stream
unfolding prepare_stream
opens = refl

-- Two events are appended after the stream has opened.
abbrev entries : List Entry
entries = ("heartbeat", "{}", none) ∷ ("turn.completed", "{}", some "turn_1") ∷ []

few_entries : length (newer 0 (append_entries entries log).1.events) < 4
unfolding newer append_entries
few_entries = omega arith

prepare_stream_replays_example :
    (s : EventLog) × (some log ≡ some s)
    × (iter_replay_events 4 2 0 (append_entries entries s).1
        ≡ newer 0 s.events ++ (append_entries entries s).0)
prepare_stream_replays_example =
    prepare_stream_replays int str (some log) (some "0") none 30 stream entries 4 2 opens
      (λ s e. subst IsLog (some_log log s e) log-IsLog)
      (λ s e.
        subst (λ x. length (newer 0 (append_entries entries x).1.events) < 4) (some_log log s e)
          few_entries)
      (omega arith)

-- A log of three events, whose rows stand in another order, read in pages of two.
abbrev event_at : ℕ → Event
event_at n = record { sequence = n; turn_id = none; kind = "heartbeat"; content = "{}" }

abbrev long_log : EventLog
long_log = record log {
  latest_event_sequence = 7;
  events = event_at 7 ∷ event_at 2 ∷ event_at 4 ∷ [];
}

distinct : IsDistinct long_log.events
distinct = ((ground arith, (ground arith, tt)), ((ground arith, tt), (tt, tt)))

few_events : length (newer 1 long_log.events) < 4
unfolding newer
few_events = omega arith

iter_replay_events_lem_example :
    Perm (newer 1 long_log.events) (iter_replay_events 4 2 1 long_log)
    × Increasing (iter_replay_events 4 2 1 long_log)
iter_replay_events_lem_example =
    iter_replay_events_lem 4 2 1 long_log distinct (omega arith) few_events
