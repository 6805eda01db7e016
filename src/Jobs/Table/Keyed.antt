-- ===== src/Jobs/Table/Keyed.antt =====
-- The primary key of the table: no two rows have one id.
use bike_doc.Prelude.{
  ℕ, String, Bool, false, ◌≡◌, none, some, List, [], ◌∷◌, ◌++◌, str_eq, eq_iff, eq_refl, arith, sym,
  ap, inl, inr, Bool-cases, ◌∙◌, All, All-append, filter, filter-All, insert_by, insert_by-All,
  order_by, All-order_by, take, All-take, zero, suc, subst,
}
use bike_doc.Jobs.Row.{Job}
use bike_doc.Jobs.Table.{Table, lock, flush, remove}
use bike_doc.Jobs.Table.Laws.{All-flush, All-remove, lock-head, lock-tail, lock-flush}

-- The row has another id.
abbrev pub Other : String → Job → Type 0
Other id j = str_eq id j.id ≡ false

-- The rows have different ids.
abbrev pub IsKeyed : List Job → Type 0
IsKeyed [] = Unit
IsKeyed (j ∷ t) = All (Other j.id) t × IsKeyed t

Other-sym : (i j : Job) → Other i.id j → Other j.id i
Other-sym i j h = ground (arith, eq_iff i.id j.id, eq_iff j.id i.id)

pub IsKeyed-flush :
    (id : String) (new : Job) (t : Table) → new.id ≡ id → IsKeyed t → IsKeyed (flush id new t)
unfolding flush
IsKeyed-flush id new [] e k = tt
IsKeyed-flush id new (i ∷ t) e k = elim (Bool-cases (str_eq i.id id)) [
  | inl h ↦
      let same : i.id ≡ new.id = (eq_iff i.id id).0 h ∙ sym e in
      rw h (subst (λ x. All (Other x) t) same k.0, k.1)
  | inr h ↦
      rw h
        (All-flush (Other i.id) id new t (ap (str_eq i.id) e ∙ h) k.0, IsKeyed-flush id new t e k.1)
]

pub IsKeyed-remove : (id : String) (t : Table) → IsKeyed t → IsKeyed (remove id t)
unfolding remove
IsKeyed-remove id [] k = tt
IsKeyed-remove id (i ∷ t) k = elim (Bool-cases (str_eq i.id id)) [
  | inl h ↦ rw h k.1
  | inr h ↦ rw h (All-remove (Other i.id) id t k.0, IsKeyed-remove id t k.1)
]

lock-cons_none :
    (id : String) (i : Job) (t : Table)
    → lock id (i ∷ t) ≡ none
    → (str_eq i.id id ≡ false) × (lock id t ≡ none)
unfolding lock
lock-cons_none id i t n = ground arith

-- A row with an id that no row has
pub IsKeyed-snoc : (j : Job) (t : Table) → lock j.id t ≡ none → IsKeyed t → IsKeyed (t ++ j ∷ [])
IsKeyed-snoc j [] n k = (tt, tt)
IsKeyed-snoc j (i ∷ t) n k =
    let (other, rest) = lock-cons_none j.id i t n in
    (All-append (Other i.id) t (j ∷ []) k.0 (other, tt), IsKeyed-snoc j t rest k.1)

-- A selection has different ids, too.
pub IsKeyed-filter : (p : Job → Bool) (t : List Job) → IsKeyed t → IsKeyed (filter p t)
unfolding filter
IsKeyed-filter p [] k = tt
IsKeyed-filter p (j ∷ t) k = elim (Bool-cases (p j)) [
  | inl h ↦ rw h (filter-All (Other j.id) p t k.0, IsKeyed-filter p t k.1)
  | inr h ↦ rw h (IsKeyed-filter p t k.1)
]

IsKeyed-insert :
    (before : Job → Job → Bool) (j : Job) (t : List Job)
    → All (Other j.id) t
    → IsKeyed t
    → IsKeyed (insert_by before j t)
unfolding insert_by
IsKeyed-insert before j [] a k = (tt, tt)
IsKeyed-insert before j (i ∷ t) a k = elim (Bool-cases (before i j)) [
  | inl h ↦ rw h (
    insert_by-All (Other i.id) before j t (Other-sym j i a.0) k.0,
    IsKeyed-insert before j t a.1 k.1,
  )
  | inr h ↦ rw h (a, k)
]

pub IsKeyed-order_by :
    (before : Job → Job → Bool) (t : List Job) → IsKeyed t → IsKeyed (order_by before t)
unfolding order_by
IsKeyed-order_by before [] k = tt
IsKeyed-order_by before (j ∷ t) k =
    IsKeyed-insert before j (order_by before t) (All-order_by (Other j.id) before t k.0)
      (IsKeyed-order_by before t k.1)

pub IsKeyed-take : (n : ℕ) (t : List Job) → IsKeyed t → IsKeyed (take n t)
IsKeyed-take zero t k = tt
IsKeyed-take (suc n) [] k = tt
IsKeyed-take (suc n) (j ∷ t) k = (All-take (Other j.id) n t k.0, IsKeyed-take n t k.1)

-- The row is the one that the lock of its id finds.
abbrev pub IsHere : Table → Job → Type 0
IsHere t j = lock j.id t ≡ some j

IsHere-cons :
    (j : Job) (t : Table) (js : List Job)
    → All (Other j.id) js
    → All (IsHere t) js
    → All (IsHere (j ∷ t)) js
IsHere-cons j t [] a h = tt
IsHere-cons j t (k ∷ js) a h = (lock-tail k.id j t a.0 ∙ h.0, IsHere-cons j t js a.1 h.1)

pub IsKeyed-IsHere : (t : Table) → IsKeyed t → All (IsHere t) t
IsKeyed-IsHere [] k = tt
IsKeyed-IsHere (j ∷ t) k =
    (lock-head j.id j t (eq_refl j.id), IsHere-cons j t t k.0 (IsKeyed-IsHere t k.1))

-- A write leaves the other rows where they are.
pub IsHere-flush :
    (i : Job) (new : Job) (t : Table) (js : List Job)
    → new.id ≡ i.id
    → All (Other i.id) js
    → All (IsHere t) js
    → All (IsHere (flush i.id new t)) js
IsHere-flush i new t [] e a h = tt
IsHere-flush i new t (k ∷ js) e a h =
    (lock-flush k.id i.id new t e ∙ rw a.0 h.0, IsHere-flush i new t js e a.1 h.1)
