-- ===== src/Events/Replay.antt =====
-- The paging loop of the replay (_iter_replay_events of services/events.py).
use mathlib.Core.List.{Perm}
use bike_doc.Prelude.{
  subst, ℕ, zero, suc, ◌+◌, ◌≤◌, ◌<◌, List, [], ◌∷◌, ◌++◌, ◌≡◌, refl, arith, filter, order_by, take,
  drop, length, take-drop, take_short, length-take-drop, ltb, ap, sym, ◌∙◌, Bool-cases, inl, inr,
}
use bike_doc.Events.{
  Event, EventLog, newer, list_after_sequence, last_sequence, page_then, iter_replay_events,
}
use bike_doc.Events.Log.{Increasing}
use bike_doc.Events.Order.{
  After, newer-order_by, earlier, IsDistinct, order_by-Increasing, order_by-Perm, length-order_by,
}

newer-all : (n : ℕ) (es : List Event) → After n es → newer n es ≡ es
unfolding newer filter
newer-all n [] a = refl
newer-all n (e ∷ es) a = ground (arith, newer-all n es a.1, a.0)

newer-newer : (m n : ℕ) (es : List Event) → m ≤ n → newer n (newer m es) ≡ newer n es
unfolding newer filter
newer-newer m n [] h = refl
newer-newer m n (e ∷ es) h = ground (arith, newer-newer m n es h)

newer-After : (n : ℕ) (es : List Event) → After n (newer n es)
unfolding newer filter
newer-After n [] = tt
newer-After n (e ∷ es) = elim (Bool-cases (ltb n e.sequence)) [
  | inl h ↦ rw h (ground arith, newer-After n es)
  | inr h ↦ rw h (newer-After n es)
]

After-newer : (m n : ℕ) (es : List Event) → After m es → After m (newer n es)
unfolding newer filter
After-newer m n [] a = tt
After-newer m n (e ∷ es) a = elim (Bool-cases (ltb n e.sequence)) [
  | inl h ↦ rw h (a.0, After-newer m n es a.1)
  | inr h ↦ rw h (After-newer m n es a.1)
]

Increasing-newer : (n : ℕ) (es : List Event) → Increasing es → Increasing (newer n es)
unfolding newer filter
Increasing-newer n [] i = tt
Increasing-newer n (e ∷ es) i = elim (Bool-cases (ltb n e.sequence)) [
  | inl h ↦ rw h (After-newer e.sequence n es i.0, Increasing-newer n es i.1)
  | inr h ↦ rw h (Increasing-newer n es i.1)
]

last_sequence-le :
    (n k : ℕ) (es : List Event) → Increasing es → After n es → n ≤ last_sequence n (take k es)
last_sequence-le n zero es i a = omega arith
last_sequence-le n (suc k) [] i a = omega arith
last_sequence-le n (suc k) (e ∷ es) i a =
    omega (arith, last_sequence-le e.sequence k es i.1 i.0, a.0)

newer-drops : (n : ℕ) (e : Event) (es : List Event) → e.sequence ≤ n → newer n (e ∷ es) ≡ newer n es
unfolding newer filter
newer-drops n e es h = ground arith

-- After a page, what is newer than its last event is what the page left.
newer-last_sequence :
    (n k : ℕ) (es : List Event)
    → Increasing es
    → After n es
    → newer (last_sequence n (take k es)) es ≡ drop k es
newer-last_sequence n zero es i a = newer-all n es a
newer-last_sequence n (suc k) [] i a = newer-all n [] tt
newer-last_sequence n (suc k) (e ∷ es) i a =
    newer-drops (last_sequence e.sequence (take k es)) e es
      (last_sequence-le e.sequence k es i.1 i.0)
    ∙ newer-last_sequence e.sequence k es i.1 i.0

page_then_lem :
    (limit : ℕ) (page rest es : List Event)
    → 1 ≤ limit
    → page ≡ take limit es
    → (limit ≤ length page → rest ≡ drop limit es)
    → page_then limit page rest ≡ es
unfolding page_then
page_then_lem limit [] rest es l e h = e ∙ take_short limit es (rw (← e) (omega arith))
page_then_lem limit (f ∷ fs) rest es l e h = elim (Bool-cases (ltb (length (f ∷ fs)) limit)) [
  | inl short ↦ rw short (e ∙ take_short limit es (rw (← e) (ground arith)))
  | inr full ↦ rw full (
      ap (λ x. (f ∷ fs) ++ x) (h (ground arith))
      ∙ ap (λ x. x ++ drop limit es) e
      ∙ take-drop limit es)
]

length-drop-lt :
    (limit : ℕ) (page es : List Event)
    → page ≡ take limit es
    → limit ≤ length page
    → length (drop limit es) + limit ≤ length es
length-drop-lt limit page es e h =
    omega (arith, length-take-drop limit es, ap (λ (x : List Event). length x) e)

module _ (s : EventLog) where
  -- The retained events in order of their sequence
  abbrev pub sorted : List Event
  sorted = order_by earlier s.events

  list_after_sequence_lem :
      (after limit : ℕ) → list_after_sequence after limit s ≡ take limit (newer after sorted)
  unfolding list_after_sequence
  list_after_sequence_lem after limit = ap (take limit) (sym (newer-order_by after s.events))

  newer_after_page :
      (cursor limit : ℕ)
      → Increasing sorted
      → newer (last_sequence cursor (take limit (newer cursor sorted))) sorted
        ≡ drop limit (newer cursor sorted)
  newer_after_page cursor limit v =
      let es : List Event = newer cursor sorted in
      let i : Increasing es = Increasing-newer cursor sorted v in
      let a : After cursor es = newer-After cursor sorted in
      sym (
        newer-newer cursor (last_sequence cursor (take limit es)) sorted
          (last_sequence-le cursor limit es i a))
      ∙ newer-last_sequence cursor limit es i a

  pub replay_sorted :
      (rounds limit cursor : ℕ)
      → Increasing sorted
      → 1 ≤ limit
      → length (newer cursor sorted) < rounds
      → iter_replay_events rounds limit cursor s ≡ newer cursor sorted
  unfolding iter_replay_events
  replay_sorted zero limit cursor v l h = absurd (omega arith)
  replay_sorted (suc rounds) limit cursor v l h =
      let page : List Event = list_after_sequence cursor limit s in
      let es : List Event = newer cursor sorted in
      let e : page ≡ take limit es = list_after_sequence_lem cursor limit in
      let left : newer (last_sequence cursor page) sorted ≡ drop limit es =
        ap (λ x. newer (last_sequence cursor x) sorted) e ∙ newer_after_page cursor limit v in
      page_then_lem limit page _ es l e λ full.
        replay_sorted rounds limit (last_sequence cursor page) v l (
          omega
            (arith, length-drop-lt limit page es e full, ap (λ (x : List Event). length x) left))
        ∙ left

-- On a log that does not grow meanwhile, in which no two events have one sequence, in whatever order the
-- rows stand, the replay ends and yields the events newer than the cursor, each exactly once, in the order of their
-- sequences: with pages of at least one event, as many rounds as there are newer events, and one
-- more, are enough.
pub iter_replay_events_lem :
    (rounds limit cursor : ℕ) (s : EventLog)
    → IsDistinct s.events
    → 1 ≤ limit
    → length (newer cursor s.events) < rounds
    → Perm (newer cursor s.events) (iter_replay_events rounds limit cursor s)
      × Increasing (iter_replay_events rounds limit cursor s)
iter_replay_events_lem rounds limit cursor s d l h =
    let v : Increasing (sorted s) = order_by-Increasing s.events d in
    let at : newer cursor (sorted s) ≡ order_by earlier (newer cursor s.events) =
      newer-order_by cursor s.events in
    let done : iter_replay_events rounds limit cursor s ≡ newer cursor (sorted s) =
      replay_sorted s rounds limit cursor v l (
        omega (
          arith,
          h,
          length-order_by (newer cursor s.events),
          ap (λ (x : List Event). length x) at,
        )) in
    (
      subst (λ x. Perm (newer cursor s.events) x) (sym (done ∙ at))
          (order_by-Perm (newer cursor s.events)),
      subst Increasing (sym done) (Increasing-newer cursor (sorted s) v),
    )
