-- ===== src/Jobs/Table/Laws.antt =====
-- Reading a table after a write, a deletion or an insertion.
use bike_doc.Prelude.{
  String, true, false, ◌≡◌, Option, none, some, [], ◌∷◌, ◌++◌, str_eq, eq_iff, if◌then◌else◌, arith,
  refl, ◌∙◌, Option-cases, eq_refl, ◌⊎◌, Bool-cases, All, subst, sym, inl, inr, is_some,
}
use bike_doc.Jobs.Row.{Job}
use bike_doc.Jobs.Table.{Table, lock, flush, remove, on_locked}

-- The row under a key has that key.
pub lock-id : (k : String) (t : Table) (j : Job) → lock k t ≡ some j → j.id ≡ k
unfolding lock
lock-id k [] j e = cc
lock-id k (i ∷ t) j e = ground (arith, eq_iff i.id k, lock-id k t j)

-- A flush under a key is read back under it, and under no other.
pub lock-flush :
    (k i : String) (new : Job) (t : Table)
    → new.id ≡ i
    → lock k (flush i new t)
      ≡ (if str_eq i k then (if is_some (lock i t) then some new else none) else lock k t)
unfolding lock flush
lock-flush k i new [] e = ground arith
lock-flush k i new (j ∷ t) e =
    ground
      (arith, eq_iff j.id i, eq_iff j.id k, eq_iff i k, eq_iff new.id k, lock-flush k i new t e)

module _ (i : String) (f : Job → Option Job) (t : Table) where
  pub on_locked-missing : lock i t ≡ none → on_locked i f t ≡ (false, t)
  unfolding on_locked
  on_locked-missing e = rw (e, on_locked)

  pub on_locked-refused : (j : Job) → lock i t ≡ some j → f j ≡ none → on_locked i f t ≡ (false, t)
  unfolding on_locked
  on_locked-refused j e r = rw (e, on_locked) (rw r)

  pub on_locked-written :
      (j j' : Job) → lock i t ≡ some j → f j ≡ some j' → on_locked i f t ≡ (true, flush i j' t)
  unfolding on_locked
  on_locked-written j j' e w = rw (e, on_locked) (rw w)

-- A locked write either changes nothing or writes what the row's function gives.
pub on_locked-cases :
    (i : String) (f : Job → Option Job) (t : Table)
    → (on_locked i f t ≡ (false, t))
      ⊎ ((j : Job) × (j' : Job) × (lock i t ≡ some j)
          × (f j ≡ some j')
          × (on_locked i f t ≡ (true, flush i j' t)))
on_locked-cases i f t = elim (Option-cases (lock i t)) [
  | inl e ↦ inl (on_locked-missing i f t e)
  | inr (j, e) ↦ elim (Option-cases (f j)) [
    | inl n ↦ inl (on_locked-refused i f t j e n)
    | inr (j', x) ↦ inr (j, j', e, x, on_locked-written i f t j j' e x)
  ]
]

-- The row that is written is the row that is read next.
pub lock-flush_self :
    (i : String) (j j' : Job) (t : Table)
    → lock i t ≡ some j
    → j'.id ≡ j.id
    → lock i (flush i j' t) ≡ some j'
lock-flush_self i j j' t e same =
    lock-flush i i j' t (same ∙ lock-id i t j e) ∙ rw (eq_refl i) (rw e refl)

-- A write to a locked row leaves every other row as it was.
pub on_locked-frame :
    (i k : String) (f : Job → Option Job) (t : Table)
    → ((j j' : Job) → f j ≡ some j' → j'.id ≡ j.id)
    → str_eq i k ≡ false
    → lock k (on_locked i f t).1 ≡ lock k t
on_locked-frame i k f t keep ne = elim (Option-cases (lock i t)) [
  | inl e ↦ rw (on_locked-missing i f t e) refl
  | inr (j, e) ↦ elim (Option-cases (f j)) [
    | inl r ↦ rw (on_locked-refused i f t j e r) refl
    | inr (j', w) ↦
        rw (on_locked-written i f t j j' e w)
          (lock-flush k i j' t (keep j j' w ∙ lock-id i t j e) ∙ rw ne)
  ]
]

-- Deleting the row of a key leaves every other row as it was.
pub lock-remove : (k i : String) (t : Table) → str_eq i k ≡ false → lock k (remove i t) ≡ lock k t
unfolding lock remove
lock-remove k i [] ne = refl
lock-remove k i (j ∷ t) ne =
    ground (arith, eq_iff j.id i, eq_iff j.id k, eq_iff i k, lock-remove k i t ne)

pub lock-append :
    (k : String) (t u : Table)
    → lock k (t ++ u) ≡ (if is_some (lock k t) then lock k t else lock k u)
unfolding lock
lock-append k [] u = refl
lock-append k (j ∷ t) u = ground (arith, lock-append k t u)

pub some_eq : (i j : Job) → some i ≡ some j → i ≡ j
some_eq i j h = cc

pub lock-head :
    (id : String) (j : Job) (t : Table) → str_eq j.id id ≡ true → lock id (j ∷ t) ≡ some j
unfolding lock
lock-head id j t h = rw h

pub lock-tail :
    (id : String) (j : Job) (t : Table) → str_eq j.id id ≡ false → lock id (j ∷ t) ≡ lock id t
unfolding lock
lock-tail id j t h = rw h

-- Predicates of the rows.
module _ (P : Job → Type 0) where
  pub All-lock : (id : String) (t : Table) (j : Job) → All P t → lock id t ≡ some j → P j
  unfolding lock
  All-lock id [] j a e = cc
  All-lock id (i ∷ t) j a e = elim (Bool-cases (str_eq i.id id)) [
    | inl h ↦ subst P (some_eq i j (sym (lock-head id i t h) ∙ e)) a.0
    | inr h ↦ All-lock id t j a.1 (sym (lock-tail id i t h) ∙ e)
  ]

  pub All-flush : (id : String) (new : Job) (t : Table) → P new → All P t → All P (flush id new t)
  unfolding flush
  All-flush id new [] p a = tt
  All-flush id new (j ∷ t) p a = elim (Bool-cases (str_eq j.id id)) [
    | inl h ↦ rw h (p, a.1)
    | inr h ↦ rw h (a.0, All-flush id new t p a.1)
  ]

  pub All-remove : (id : String) (t : Table) → All P t → All P (remove id t)
  unfolding remove
  All-remove id [] a = tt
  All-remove id (j ∷ t) a = elim (Bool-cases (str_eq j.id id)) [
    | inl h ↦ rw h a.1
    | inr h ↦ rw h (a.0, All-remove id t a.1)
  ]
