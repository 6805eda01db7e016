-- ===== src/Repairs/Accept/Durable.antt =====
-- What an accepted turn leaves behind, and what accepting it again does.
use bike_doc.Prelude.{
  ◌+◌, String, true, false, ◌≡◌, none, some, List, [], ◌∷◌, ◌++◌, arith, refl, Option-cases, inl,
  inr, str_eq, eq_refl,
}
use bike_doc.Jobs.Table.{Table}
use bike_doc.Safety.Flags.{diagnostic}
use bike_doc.Repairs.Model.{Status, Turn, turn_started, Product, get_by_client_turn_id}
use bike_doc.Repairs.Request.{TurnRequest, Acceptance, Accepted, AcceptResult, accepted}
use bike_doc.Repairs.Producers.{stored, record_turn_jobs}
use bike_doc.Repairs.Producers.Stored.{AreStored, record_turn_jobs-AreStored}
use bike_doc.Repairs.Accept.{
  replay_of, acceptance_snapshot, create_turn_started, preflight, accept_turn,
}
use bike_doc.Repairs.Accept.Cases.{
  replay_known, preflight_replay, preflight_old, turn_known, accept_turn-cases, new_inversion,
  old_inversion, new_turn, with_turn,
}

-- What a newly accepted turn leaves behind.
pub record IsDurable (a : Acceptance) (request : TurnRequest) (p p' : Product) (turn : Turn)
    : Type 0 where
  pub turns : p'.turns ≡ p.turns ++ turn ∷ []
  pub events :
      p'.events
      ≡ p.events
        ++ record {
          sequence = p.repair.latest_event_sequence + 1;
          turn_id = some turn.id;
          content = turn_started turn.id diagnostic;
        }
          ∷ []
  pub latest : p'.repair.latest_event_sequence ≡ p.repair.latest_event_sequence + 1
  pub status : p'.repair.status ≡ Status.running
  pub turn_id : turn.id ≡ a.turn_id
  pub jobs : AreStored a request p'.jobs

new-IsDurable :
    (a : Acceptance) (request : TurnRequest) (p : Product) (t : Table)
    → AreStored a request t
    → IsDurable a request p (with_turn a request p t) (new_turn a request p)
unfolding create_turn_started new_turn with_turn
new-IsDurable a request p t v = record {
  turns = refl;
  events = refl;
  latest = refl;
  status = refl;
  turn_id = refl;
  jobs = v;
}

-- An acceptance that is no replay made a new turn.
accepted_new :
    (a : Acceptance) (request : TurnRequest) (seen p p' : Product) (x : Accepted)
    → accept_turn a request (some seen) (some p) ≡ (accepted x, some p')
    → x.is_replay ≡ false
    → (t : Table) × (record_turn_jobs a request p.jobs ≡ stored t)
      × (preflight a request p ≡ none)
      × (x.turn ≡ new_turn a request p)
      × (p' ≡ with_turn a request p t)
accepted_new a request seen p p' x e h =
    let w = accept_turn a request (some seen) (some p) in
    elim (accept_turn-cases a request seen p) [
      | inl (same, old) ↦ absurd (elim (old x (old_inversion a request p p' x w same e).0) [
        | inl y ↦ cc (preflight_old a request seen x y, h)
        | inr y ↦ cc (preflight_old a request p x y, h)
      ])
      | inr (t, z, y, v) ↦
          let (turn, product) = new_inversion a request p p' t x w v e in (t, z, y, turn, product)
    ]

-- A turn that is accepted, and is no replay, is in the session with its start event at the next
-- sequence, the session runs, and the job table has the diagnostic job of the turn and, where the
-- request has images, its profile job, each with the definition that was asked for.
pub accept_turn-IsDurable :
    (a : Acceptance) (request : TurnRequest) (seen p p' : Product) (x : Accepted)
    → accept_turn a request (some seen) (some p) ≡ (accepted x, some p')
    → x.is_replay ≡ false
    → IsDurable a request p p' x.turn
accept_turn-IsDurable a request seen p p' x e h =
    let (t, z, _, turn, product) = accepted_new a request seen p p' x e h in
    rw (turn, product)
      (new-IsDurable a request p t (record_turn_jobs-AreStored a request p.jobs t z))

get_by_client_turn_id-append :
    (client : String) (ts : List Turn) (t : Turn)
    → get_by_client_turn_id client ts ≡ none
    → str_eq t.client_turn_id client ≡ true
    → get_by_client_turn_id client (ts ++ t ∷ []) ≡ some t
unfolding get_by_client_turn_id
get_by_client_turn_id-append client [] t n h = ground arith
get_by_client_turn_id-append client (u ∷ ts) t n h =
    ground (arith, get_by_client_turn_id-append client ts t)

replay_answers :
    (a : Acceptance) (request : TurnRequest) (p : Product) (t : Turn)
    → get_by_client_turn_id request.client_turn_id p.turns ≡ some t
    → (r : AcceptResult) × (replay_of a.request_hash request p ≡ some r)
unfolding replay_of
replay_answers a request p t e = rw (e, replay_of) (_, refl)

preflight_unknown :
    (a : Acceptance) (request : TurnRequest) (p : Product)
    → preflight a request p ≡ none
    → get_by_client_turn_id request.client_turn_id p.turns ≡ none
preflight_unknown a request p e =
    elim (Option-cases (get_by_client_turn_id request.client_turn_id p.turns)) [
      | inl n ↦ n
      | inr (t, y) ↦
          let (r, z) = replay_answers a request p t y in cc (e, preflight_replay a request p r z)
    ]

new_turn_known :
    (a : Acceptance) (request : TurnRequest) (p : Product) (t : Table)
    → get_by_client_turn_id request.client_turn_id p.turns ≡ none
    → get_by_client_turn_id request.client_turn_id (with_turn a request p t).turns
      ≡ some (new_turn a request p)
unfolding with_turn new_turn
new_turn_known a request p t n =
    get_by_client_turn_id-append request.client_turn_id p.turns (new_turn a request p) n
      (eq_refl request.client_turn_id)

new_turn_hash :
    (a a' : Acceptance) (request : TurnRequest) (p : Product)
    → a'.request_hash ≡ a.request_hash
    → str_eq (new_turn a request p).request_hash a'.request_hash ≡ true
unfolding new_turn
new_turn_hash a a' request p e = rw e (eq_refl a.request_hash)

-- The retry of an accepted turn, with the same request and whatever fresh ids and settings, answers
-- the same turn, marks it as a replay, and changes nothing: no second turn, event or job.
pub accept_turn_replays :
    (a a' : Acceptance) (request : TurnRequest) (seen p p' : Product) (x : Accepted)
    → accept_turn a request (some seen) (some p) ≡ (accepted x, some p')
    → x.is_replay ≡ false
    → a'.request_hash ≡ a.request_hash
    → accept_turn a' request (some p') (some p') ≡ (
      accepted (record {
        turn = x.turn;
        session = acceptance_snapshot p'.repair x.turn;
        is_replay = true;
      }),
      some p',
    )
accept_turn_replays a a' request seen p p' x e h k =
    let (t, _, y, turn, product) = accepted_new a request seen p p' x e h in
    rw (turn, product)
      (let q : Product = with_turn a request p t in
        turn_known a' request q q _ (
          preflight_replay a' request q _ (
            replay_known a' request q (new_turn a request p)
              (new_turn_known a request p t (preflight_unknown a request p y))
              (new_turn_hash a a' request p k))))
