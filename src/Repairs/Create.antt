-- ===== src/Repairs/Create.antt =====
-- RepairSessionService.create_session (services/repair_sessions.py), with the lookups and the insert of
-- repositories/repair_sessions.py. The lookup reads the table as it was committed then, and the insert
-- meets the rows that were committed since.
pub mod Once
use bike_doc.Prelude.{
  ℕ, String, Bool, true, false, ◌&&◌, ◌||◌, Option, none, some, List, [], ◌∷◌, ◌++◌, str_eq,
  text_is, is_none, if◌then◌else◌,
}
use bike_doc.Profile.Tree.{Json}
use bike_doc.Repairs.Model.{Status, created}
use bike_doc.Safety.Flags.{Phase, diagnostic, SafetyState, ok, SafetyFlag}

-- A row of repair_sessions, with the columns that a creation sets
pub record SessionRow : Type 0 where
  pub id : String
  pub user_id : String
  pub bike_id : String
  pub client_session_id : Option String
  pub request_hash : Option String
  pub phase : Phase
  pub status : Status
  pub safety_state : SafetyState
  pub current_input_request : Option String
  pub execution_progress : Option Json
  pub active_safety_flags : List SafetyFlag
  pub latest_event_sequence : ℕ

pub record BikeRow : Type 0 where
  pub id : String
  pub user_id : String
  pub deleted_at : Option ℕ

-- RepairSessionCreate
pub record CreateRequest : Type 0 where
  pub bike_id : String
  pub client_session_id : Option String

-- The user, the digest of the request and the fresh id of one call
pub record Creation : Type 0 where
  pub user_id : String
  pub request_hash : String
  pub session_id : String

pub data CreateError : Type 0 where
  conflicting_request missing_bike integrity_error : CreateError

pub data CreateResult : Type 0 where
  returned : SessionRow → CreateResult
  rejected : CreateError → CreateResult

-- BikeRepository.get_owned_active
unfoldable pub get_owned_active : String → String → List BikeRow → Option BikeRow
get_owned_active bike user [] = none
get_owned_active bike user (b ∷ bs) =
    if str_eq b.id bike && str_eq b.user_id user && is_none b.deleted_at
    then some b
    else get_owned_active bike user bs

-- get_by_client_session_id
unfoldable pub get_by_client_session_id : String → String → List SessionRow → Option SessionRow
get_by_client_session_id user client [] = none
get_by_client_session_id user client (s ∷ ss) =
    if str_eq s.user_id user && text_is s.client_session_id client
    then some s
    else get_by_client_session_id user client ss

-- The unique indexes: the key of a row, and its client's id where it has one
abbrev pub same_client : SessionRow → SessionRow → Bool
same_client r s = elim r.client_session_id [
  | none ↦ false
  | some client ↦ str_eq s.user_id r.user_id && text_is s.client_session_id client
]

abbrev pub is_clash : SessionRow → SessionRow → Bool
is_clash r s = str_eq s.id r.id || same_client r s

abbrev pub is_taken : SessionRow → List SessionRow → Bool
is_taken r [] = false
is_taken r (s ∷ ss) = is_clash r s || is_taken r ss

-- RepairSessionRepository.add; `none` is the violation of a unique index.
unfoldable pub add_session : SessionRow → List SessionRow → Option (List SessionRow)
add_session r rows = if is_taken r rows then none else some (rows ++ r ∷ [])

abbrev pub new_session : Creation → CreateRequest → String → SessionRow
new_session a q bike = record {
  id = a.session_id;
  user_id = a.user_id;
  bike_id = bike;
  client_session_id = q.client_session_id;
  request_hash = elim q.client_session_id [ none ↦ none | some client ↦ some a.request_hash ];
  phase = diagnostic;
  status = Status.created;
  safety_state = ok;
  current_input_request = none;
  execution_progress = none;
  active_safety_flags = [];
  latest_event_sequence = 0;
}

-- The answer from a row with the client's id
abbrev pub answer_of : Creation → SessionRow → CreateResult
answer_of a s =
    if text_is s.request_hash a.request_hash then returned s else rejected conflicting_request

-- The first lookup, where the request has a client's id
unfoldable pub known_session : Creation → CreateRequest → List SessionRow → Option SessionRow
unfolding get_by_client_session_id
known_session a q rows = elim q.client_session_id [
  | none ↦ none
  | some client ↦ get_by_client_session_id a.user_id client rows
]

-- The insert, and the lookup after a violation
unfoldable pub insert_session :
    Creation → CreateRequest → String → List SessionRow → CreateResult × List SessionRow
unfolding add_session known_session
insert_session a q bike rows =
    let row : SessionRow = new_session a q bike in
    elim (add_session row rows) [
      | some rows' ↦ (returned row, rows')
      | none ↦ elim (known_session a q rows) [
        | none ↦ (rejected integrity_error, rows)
        | some s ↦ (answer_of a s, rows)
      ]
    ]

-- create_session, which reads `before` and writes to `rows`
unfoldable pub create_session :
    Creation
    → CreateRequest
    → List BikeRow
    → List SessionRow
    → List SessionRow
    → CreateResult × List SessionRow
unfolding known_session get_owned_active insert_session
create_session a q bikes before rows = elim (known_session a q before) [
  | some s ↦ (answer_of a s, rows)
  | none ↦ elim (get_owned_active q.bike_id a.user_id bikes) [
    | none ↦ (rejected missing_bike, rows)
    | some bike ↦ insert_session a q bike.id rows
  ]
]
