-- ===== src/Tests/Create.antt =====
-- Two creations with one client's id, both of which looked it up before either was stored.
use bike_doc.Prelude.{none, some, List, [], ◌∷◌, ◌≡◌, refl}
use bike_doc.Repairs.Create.{
  SessionRow, BikeRow, CreateRequest, Creation, returned, rejected, conflicting_request,
  get_owned_active, new_session, create_session,
}
use bike_doc.Repairs.Create.Once.{create_session_once}

abbrev bikes : List BikeRow
bikes =
    record { id = "bike_1"; user_id = "user_1"; deleted_at = some 20 }
    ∷ record { id = "bike_2"; user_id = "user_1"; deleted_at = none }
    ∷ []

abbrev request : CreateRequest
request = record { bike_id = "bike_2"; client_session_id = some "client_1" }

abbrev first : Creation
first = record { user_id = "user_1"; request_hash = "digest_1"; session_id = "rs_1" }

abbrev second : Creation
second = record first { session_id = "rs_2" }

abbrev stored : SessionRow
stored = new_session first request "bike_2"

creates_first : create_session first request bikes [] [] ≡ (returned stored, stored ∷ [])
unfolding create_session
creates_first = refl

finds_bike :
    get_owned_active "bike_2" "user_1" bikes
    ≡ some (record { id = "bike_2"; user_id = "user_1"; deleted_at = none })
unfolding get_owned_active
finds_bike = refl

-- Another request under the same id is a conflict.
refuses_other :
    create_session (record second { request_hash = "digest_2" }) request bikes [] (stored ∷ [])
    ≡ (rejected conflicting_request, stored ∷ [])
unfolding create_session
refuses_other = refl

create_session_once_example :
    create_session second request bikes [] (stored ∷ []) ≡ (returned stored, stored ∷ [])
create_session_once_example =
    create_session_once first second request request "client_1" bikes bikes [] [] [] []
      (stored ∷ []) (stored ∷ []) stored
      (record { id = "bike_2"; user_id = "user_1"; deleted_at = none }) refl refl refl refl refl
      finds_bike creates_first
