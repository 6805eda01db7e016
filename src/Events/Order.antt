-- ===== src/Events/Order.antt =====
-- The order of the pages of a replay: ORDER BY sequence of list_after_sequence
-- (repositories/events.py).
use mathlib.Core.List.{Perm}
use mathlib.Core.List.Perm
use bike_doc.Prelude.{
  ◌≢◌, if◌then◌else◌, insert_by, All-order_by, ℕ, suc, ◌≤◌, ◌<◌, Bool, List, [], ◌∷◌, ◌≡◌, refl,
  arith, All, filter, order_by, length, ltb, Bool-cases, inl, inr,
}
use bike_doc.Events.{Event, newer}
use bike_doc.Events.Log.{Increasing}

abbrev pub earlier : Event → Event → Bool
earlier e f = ltb e.sequence f.sequence

-- Each event of the list comes after the cursor.
abbrev pub After : ℕ → List Event → Type 0
After n = All (λ e. n < e.sequence)

pub After-le : (m n : ℕ) (es : List Event) → m ≤ n → After n es → After m es
After-le m n [] h a = tt
After-le m n (e ∷ es) h a = (omega (arith, a.0), After-le m n es h a.1)

-- Sorting commutes with the WHERE clause of a page.
newer-insert :
    (n : ℕ) (e : Event) (es : List Event)
    → newer n (insert_by earlier e es)
      ≡ (if ltb n e.sequence then insert_by earlier e (newer n es) else newer n es)
unfolding newer filter insert_by
newer-insert n e [] = ground arith
newer-insert n e (f ∷ es) = ground (arith, newer-insert n e es)

pub newer-order_by :
    (n : ℕ) (es : List Event) → newer n (order_by earlier es) ≡ order_by earlier (newer n es)
unfolding newer filter order_by
newer-order_by n [] = refl
newer-order_by n (e ∷ es) = elim (Bool-cases (ltb n e.sequence)) [
  | inl h ↦ rw (newer-insert n e (order_by earlier es)) (rw (h, newer-order_by n es) refl)
  | inr h ↦ rw (newer-insert n e (order_by earlier es)) (rw (h, newer-order_by n es) refl)
]

-- No two events of the list have one sequence: the unique index of models/event.py.
abbrev pub IsDistinct : List Event → Type 0
IsDistinct [] = Unit
IsDistinct (e ∷ es) = All (λ f. e.sequence ≢ f.sequence) es × IsDistinct es

insert-After :
    (n : ℕ) (e : Event) (es : List Event)
    → n < e.sequence
    → After n es
    → After n (insert_by earlier e es)
unfolding insert_by
insert-After n e [] h a = (h, tt)
insert-After n e (f ∷ es) h a = elim (Bool-cases (ltb f.sequence e.sequence)) [
  | inl l ↦ rw l (a.0, insert-After n e es h a.1)
  | inr l ↦ rw l (h, a)
]

insert-Increasing :
    (e : Event) (es : List Event)
    → All (λ f. e.sequence ≢ f.sequence) es
    → Increasing es
    → Increasing (insert_by earlier e es)
unfolding insert_by
insert-Increasing e [] d i = (tt, tt)
insert-Increasing e (f ∷ es) d i = elim (Bool-cases (ltb f.sequence e.sequence)) [
  | inl l ↦ rw l (insert-After f.sequence e es (ground arith) i.0, insert-Increasing e es d.1 i.1)
  | inr l ↦
      let h : e.sequence < f.sequence = ground (arith, d.0) in
      rw l ((h, After-le e.sequence f.sequence es (omega arith) i.0), i)
]

pub order_by-Increasing : (es : List Event) → IsDistinct es → Increasing (order_by earlier es)
unfolding order_by
order_by-Increasing [] d = tt
order_by-Increasing (e ∷ es) d =
    insert-Increasing e (order_by earlier es)
      (All-order_by (λ f. e.sequence ≢ f.sequence) earlier es d.0) (order_by-Increasing es d.1)

insert-Perm : (e : Event) (es : List Event) → Perm (e ∷ es) (insert_by earlier e es)
unfolding insert_by
insert-Perm e [] = Perm.refl (e ∷ [])
insert-Perm e (f ∷ es) = elim (Bool-cases (ltb f.sequence e.sequence)) [
  | inl l ↦ rw l (Perm.trans (Perm.swap f e es) (Perm.cons f (insert-Perm e es)))
  | inr l ↦ rw l (Perm.refl (e ∷ f ∷ es))
]

pub order_by-Perm : (es : List Event) → Perm es (order_by earlier es)
unfolding order_by
order_by-Perm [] = Perm.refl []
order_by-Perm (e ∷ es) =
    Perm.trans (Perm.cons e (order_by-Perm es)) (insert-Perm e (order_by earlier es))

length-insert : (e : Event) (es : List Event) → length (insert_by earlier e es) ≡ suc (length es)
unfolding insert_by
length-insert e [] = refl
length-insert e (f ∷ es) = ground (arith, length-insert e es)

pub length-order_by : (es : List Event) → length (order_by earlier es) ≡ length es
unfolding order_by
length-order_by [] = refl
length-order_by (e ∷ es) = omega (arith, length-insert e (order_by earlier es), length-order_by es)
