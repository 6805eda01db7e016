-- ===== src/Repairs/Create/Once.antt =====
-- One session for each client's id.
use bike_doc.Prelude.{
  String, Bool, true, false, ◌&&◌, Option, none, some, List, [], ◌∷◌, ◌++◌, ◌≡◌, ◌∙◌, str_eq,
  text_is, if◌then◌else◌, arith, refl, sym, ap, Bool-cases, Option-cases, inl, inr, eq_refl, subst,
  eq_iff,
}
use bike_doc.Repairs.Create.{
  SessionRow, BikeRow, CreateRequest, Creation, CreateResult, returned, rejected,
  conflicting_request, missing_bike, integrity_error, get_owned_active, get_by_client_session_id,
  is_taken, add_session, new_session, answer_of, known_session, insert_session, create_session,
}

module _ (user client : String) where
  abbrev lookup : List SessionRow → Option SessionRow
  lookup = get_by_client_session_id user client

  abbrev is_of : SessionRow → Bool
  is_of s = str_eq s.user_id user && text_is s.client_session_id client

  -- What is found stays found when rows are added.
  lookup_later :
      (rows more : List SessionRow) (s : SessionRow)
      → lookup rows ≡ some s
      → lookup (rows ++ more) ≡ some s
  unfolding get_by_client_session_id
  lookup_later [] more s e = cc
  lookup_later (r ∷ rows) more s e = elim (Bool-cases (is_of r)) [
    | inl h ↦ rw h (sym (rw h refl) ∙ e)
    | inr h ↦ rw h (lookup_later rows more s (ground (arith, e, h)))
  ]

  lookup_added :
      (rows : List SessionRow) (r : SessionRow)
      → is_of r ≡ true
      → lookup rows ≡ none
      → lookup (rows ++ r ∷ []) ≡ some r
  unfolding get_by_client_session_id
  lookup_added [] r h e = rw h refl
  lookup_added (s ∷ rows) r h e = elim (Bool-cases (is_of s)) [
    | inl k ↦ cc (e, k)
    | inr k ↦ rw k (lookup_added rows r h (ground (arith, e, k)))
  ]

  -- A row with the client's id is in the way of another one.
  lookup_taken :
      (rows : List SessionRow) (r s : SessionRow)
      → r.user_id ≡ user
      → r.client_session_id ≡ some client
      → lookup rows ≡ some s
      → is_taken r rows ≡ true
  unfolding get_by_client_session_id
  lookup_taken [] r s u c e = cc
  lookup_taken (t ∷ rows) r s u c e = elim (Bool-cases (is_of t)) [
    | inl k ↦ rw (u, c) (ground (arith, k))
    | inr k ↦ let rest = lookup_taken rows r s u c (ground (arith, e, k)) in ground (arith, rest)
  ]

  lookup_free :
      (rows : List SessionRow) (r : SessionRow)
      → r.user_id ≡ user
      → r.client_session_id ≡ some client
      → is_taken r rows ≡ false
      → lookup rows ≡ none
  lookup_free rows r u c h = elim (Option-cases (lookup rows)) [
    | inl e ↦ e
    | inr (s, e) ↦ cc (h, lookup_taken rows r s u c e)
  ]

text_is-some : (o : Option String) (t : String) → text_is o t ≡ true → o ≡ some t
text_is-some none t h = cc h
text_is-some (some s) t h = ap some ((eq_iff s t).0 h)

returned_if :
    (h : Bool) (t s : SessionRow)
    → (if h then returned t else rejected conflicting_request) ≡ returned s
    → (h ≡ true) × (t ≡ s)
returned_if true t s e =
    (refl, ap (λ (r : CreateResult). elim r [ returned y ↦ y | rejected _ ↦ t ]) e)
returned_if false t s e = cc e

answer_returned :
    (a : Creation) (t s : SessionRow)
    → answer_of a t ≡ returned s
    → (t ≡ s) × (t.request_hash ≡ some a.request_hash)
answer_returned a t s e =
    let (h, same) = returned_if (text_is t.request_hash a.request_hash) t s e in
    (same, text_is-some t.request_hash a.request_hash h)

module _ (a : Creation) (q : CreateRequest) (bikes : List BikeRow)
    (before rows : List SessionRow) where
  session_known :
      (t : SessionRow)
      → known_session a q before ≡ some t
      → create_session a q bikes before rows ≡ (answer_of a t, rows)
  unfolding create_session
  session_known t e = rw (e, create_session) refl

  session_homeless :
      known_session a q before ≡ none
      → get_owned_active q.bike_id a.user_id bikes ≡ none
      → create_session a q bikes before rows ≡ (rejected missing_bike, rows)
  unfolding create_session
  session_homeless e n = rw (e, create_session) (rw n refl)

  session_inserted :
      (bike : BikeRow)
      → known_session a q before ≡ none
      → get_owned_active q.bike_id a.user_id bikes ≡ some bike
      → create_session a q bikes before rows ≡ insert_session a q bike.id rows
  unfolding create_session
  session_inserted bike e n = rw (e, create_session) (rw n refl)

module _ (a : Creation) (q : CreateRequest) (bike : String) (rows : List SessionRow) where
  insert_new :
      is_taken (new_session a q bike) rows ≡ false
      → insert_session a q bike rows
        ≡ (returned (new_session a q bike), rows ++ new_session a q bike ∷ [])
  unfolding insert_session add_session
  insert_new h = rw (h, insert_session) refl

  insert_known :
      (t : SessionRow)
      → is_taken (new_session a q bike) rows ≡ true
      → known_session a q rows ≡ some t
      → insert_session a q bike rows ≡ (answer_of a t, rows)
  unfolding insert_session add_session
  insert_known t h e = rw (h, insert_session) (rw e refl)

  insert_clash :
      is_taken (new_session a q bike) rows ≡ true
      → known_session a q rows ≡ none
      → insert_session a q bike rows ≡ (rejected integrity_error, rows)
  unfolding insert_session add_session
  insert_clash h e = rw (h, insert_session) (rw e refl)

-- The client's id of a request
known_by :
    (a : Creation) (q : CreateRequest) (client : String) (rows : List SessionRow)
    → q.client_session_id ≡ some client
    → known_session a q rows ≡ get_by_client_session_id a.user_id client rows
unfolding known_session
known_by a q client rows e = rw e refl

-- The session that was answered stands under the client's id, with the digest of the request.
abbrev IsStored : Creation → String → SessionRow → List SessionRow → Type 0
IsStored a client s rows =
    (get_by_client_session_id a.user_id client rows ≡ some s)
    × (s.request_hash ≡ some a.request_hash)

module _ (a : Creation) (q : CreateRequest) (client : String)
    (key : q.client_session_id ≡ some client) where
  answered :
      (t s : SessionRow) (rows rows' : List SessionRow)
      → get_by_client_session_id a.user_id client rows ≡ some t
      → ◌≡◌ {A = CreateResult × List SessionRow} (answer_of a t, rows) (returned s, rows')
      → IsStored a client s rows'
  answered t s rows rows' e f =
      let (same, hash) =
        answer_returned a t s (ap (λ (y : CreateResult × List SessionRow). y.0) f) in
      (
        subst (λ y. get_by_client_session_id a.user_id client y ≡ some s)
            (ap (λ (y : CreateResult × List SessionRow). y.1) f) (e ∙ ap some same),
        subst (λ (y : SessionRow). y.request_hash ≡ some a.request_hash) same hash,
      )

  inserted :
      (bike : String) (s : SessionRow) (rows rows' : List SessionRow)
      → insert_session a q bike rows ≡ (returned s, rows')
      → IsStored a client s rows'
  inserted bike s rows rows' f =
      let row = new_session a q bike in
      elim (Bool-cases (is_taken row rows)) [
        | inl h ↦ elim (Option-cases (known_session a q rows)) [
          | inl n ↦ cc (
              ap (λ (y : CreateResult × List SessionRow). y.0)
                (sym (insert_clash a q bike rows h n) ∙ f))
          | inr (t, e) ↦
              answered t s rows rows' (sym (known_by a q client rows key) ∙ e)
                (sym (insert_known a q bike rows t h e) ∙ f)
        ]
        | inr h ↦
            let done = sym (insert_new a q bike rows h) ∙ f in
            let same : row ≡ s =
              ap
                (λ (y : CreateResult × List SessionRow). elim y.0 [
                  | returned t ↦ t
                  | rejected _ ↦ s
                ])
                done in
            let free = lookup_free a.user_id client rows row refl key h in
            (
              subst (λ y. get_by_client_session_id a.user_id client y ≡ some s)
                  (ap (λ (y : CreateResult × List SessionRow). y.1) done)
                  (lookup_added a.user_id client rows row
                      (rw (key, eq_refl a.user_id, eq_refl client) refl) free
                    ∙ ap some same),
              subst (λ (y : SessionRow). y.request_hash ≡ some a.request_hash) same (rw key refl),
            )
      ]

  -- A creation that answers with a session has it stored.
  create_stores :
      (bikes : List BikeRow) (before more rows rows' : List SessionRow) (s : SessionRow)
      → rows ≡ before ++ more
      → create_session a q bikes before rows ≡ (returned s, rows')
      → IsStored a client s rows'
  create_stores bikes before more rows rows' s later e =
      elim (Option-cases (known_session a q before)) [
        | inr (t, f) ↦
            answered t s rows rows'
              (ap (get_by_client_session_id a.user_id client) later
                ∙ lookup_later a.user_id client before more t
                    (sym (known_by a q client before key) ∙ f))
              (sym (session_known a q bikes before rows t f) ∙ e)
        | inl f ↦ elim (Option-cases (get_owned_active q.bike_id a.user_id bikes)) [
          | inl n ↦ cc (
              ap (λ (y : CreateResult × List SessionRow). y.0)
                (sym (session_homeless a q bikes before rows f n) ∙ e))
          | inr (bike, n) ↦
              inserted bike.id s rows rows'
                (sym (session_inserted a q bikes before rows bike f n) ∙ e)
        ]
      ]

  -- A stored session is the answer to every later call, whatever that call has read.
  stored_answers :
      (bikes : List BikeRow) (before more rows : List SessionRow) (s : SessionRow) (bike : BikeRow)
      → rows ≡ before ++ more
      → get_by_client_session_id a.user_id client rows ≡ some s
      → get_owned_active q.bike_id a.user_id bikes ≡ some bike
      → create_session a q bikes before rows ≡ (answer_of a s, rows)
  stored_answers bikes before more rows s bike later e home =
      elim (Option-cases (known_session a q before)) [
        | inr (t, f) ↦
            let found : get_by_client_session_id a.user_id client rows ≡ some t =
              ap (get_by_client_session_id a.user_id client) later
              ∙ lookup_later a.user_id client before more t
                  (sym (known_by a q client before key) ∙ f) in
            let same : t ≡ s = cc (found, e) in
            session_known a q bikes before rows t f ∙ ap (λ y. (answer_of a y, rows)) same
        | inl f ↦
            session_inserted a q bikes before rows bike f home
            ∙ insert_known a q bike.id rows s
                (lookup_taken a.user_id client rows (new_session a q bike.id) s refl key e)
                (known_by a q client rows key ∙ e)
      ]

hash_answer :
    (a b : Creation) (s : SessionRow)
    → s.request_hash ≡ some a.request_hash
    → answer_of b s
      ≡ (if str_eq a.request_hash b.request_hash then returned s else rejected conflicting_request)
hash_answer a b s h = rw h refl

-- One session for a client's id, whatever the order of concurrent calls: once a creation has answered
-- with a session, every further call of the same user with that id changes no row, and gets that
-- session if its request has the same digest, and a conflict if not. It does not matter whether the
-- calls looked the id up before the session was there. Rows are only added, and the bike of the further
-- call is found.
pub create_session_once :
    (a b : Creation) (q q' : CreateRequest) (client : String) (bikes bikes' : List BikeRow)
    (before more rows before' more' rows' : List SessionRow) (s : SessionRow) (bike : BikeRow)
    → q.client_session_id ≡ some client
    → q'.client_session_id ≡ some client
    → b.user_id ≡ a.user_id
    → rows ≡ before ++ more
    → rows' ≡ before' ++ more'
    → get_owned_active q'.bike_id b.user_id bikes' ≡ some bike
    → create_session a q bikes before rows ≡ (returned s, rows')
    → create_session b q' bikes' before' rows' ≡ (
      if str_eq a.request_hash b.request_hash then returned s else rejected conflicting_request,
      rows',
    )
create_session_once a b q q' client bikes bikes' before more rows before' more' rows' s bike key
      key' user later later' home e =
    let (found, hash) = create_stores a q client key bikes before more rows rows' s later e in
    stored_answers b q' client key' bikes' before' more' rows' s bike later'
      (ap (λ u. get_by_client_session_id u client rows') user ∙ found) home
    ∙ ap (λ y. (y, rows')) (hash_answer a b s hash)
