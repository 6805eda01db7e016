-- ===== src/Jobs/Table/Identity.antt =====
-- The identity of a job in the table: its kind and its deduplication key.
use bike_doc.Prelude.{
  String, false, ◌≡◌, none, some, [], ◌∷◌, ◌++◌, str_eq, eq_iff, arith, refl, inl, inr, Bool-cases,
  subst, sym, ◌∙◌,
}
use bike_doc.Jobs.Row.{Job}
use bike_doc.Jobs.Constraints.{IsPermitted}
use bike_doc.Jobs.Table.{Table, lock, flush, remove, find_identity, has_identity}
use bike_doc.Jobs.Table.Laws.{lock-head, lock-tail, some_eq}

-- No two rows have one identity: uq_background_jobs_identity.
abbrev pub UniqueIdentity : Table → Type 0
UniqueIdentity [] = Unit
UniqueIdentity (j ∷ t) = (find_identity j.job_kind j.deduplication_key t ≡ none) × UniqueIdentity t

identity_kept :
    (j j' : Job) (kind key : String)
    → IsPermitted j j'
    → has_identity kind key j' ≡ has_identity kind key j
unfolding has_identity
identity_kept j j' kind key p = rw (p.job_kind, p.deduplication_key) refl

-- A write finds what it found before under every other identity, and nothing new.
find_identity-flush :
    (kind key id : String) (j j' : Job) (t : Table)
    → lock id t ≡ some j
    → IsPermitted j j'
    → find_identity kind key t ≡ none
    → find_identity kind key (flush id j' t) ≡ none
unfolding find_identity flush lock
find_identity-flush kind key id j j' [] e p n = cc
find_identity-flush kind key id j j' (i ∷ t) e p n =
    ground (arith, identity_kept j j' kind key p, find_identity-flush kind key id j j' t)

pub UniqueIdentity-flush :
    (id : String) (j j' : Job) (t : Table)
    → lock id t ≡ some j
    → IsPermitted j j'
    → UniqueIdentity t
    → UniqueIdentity (flush id j' t)
unfolding flush lock
UniqueIdentity-flush id j j' [] e p u = tt
UniqueIdentity-flush id j j' (i ∷ t) e p u = elim (Bool-cases (str_eq i.id id)) [
  | inl h ↦
      let same : i ≡ j = some_eq i j (sym (lock-head id i t h) ∙ e) in
      rw h (
        rw (p.job_kind, p.deduplication_key)
            (subst (λ x. find_identity x.job_kind x.deduplication_key t ≡ none) same u.0),
        u.1,
      )
  | inr h ↦
      let rest : lock id t ≡ some j = sym (lock-tail id i t h) ∙ e in
      rw h (
        find_identity-flush i.job_kind i.deduplication_key id j j' t rest p u.0,
        UniqueIdentity-flush id j j' t rest p u.1,
      )
]

find_identity-remove :
    (kind key id : String) (t : Table)
    → find_identity kind key t ≡ none
    → find_identity kind key (remove id t) ≡ none
unfolding find_identity remove
find_identity-remove kind key id [] n = refl
find_identity-remove kind key id (j ∷ t) n = ground (arith, find_identity-remove kind key id t)

pub UniqueIdentity-remove :
    (id : String) (t : Table) → UniqueIdentity t → UniqueIdentity (remove id t)
unfolding remove
UniqueIdentity-remove id [] u = tt
UniqueIdentity-remove id (j ∷ t) u = elim (Bool-cases (str_eq j.id id)) [
  | inl h ↦ rw h u.1
  | inr h ↦
      rw h (
        find_identity-remove j.job_kind j.deduplication_key id t u.0,
        UniqueIdentity-remove id t u.1,
      )
]

find_identity-snoc :
    (kind key : String) (t : Table) (j : Job)
    → find_identity kind key t ≡ none
    → has_identity kind key j ≡ false
    → find_identity kind key (t ++ j ∷ []) ≡ none
unfolding find_identity
find_identity-snoc kind key [] j n h = rw h
find_identity-snoc kind key (i ∷ t) j n h = ground (arith, find_identity-snoc kind key t j)

has_identity-sym :
    (i j : Job)
    → has_identity j.job_kind j.deduplication_key i ≡ false
    → has_identity i.job_kind i.deduplication_key j ≡ false
unfolding has_identity
has_identity-sym i j h = ground (
  arith,
  eq_iff i.job_kind j.job_kind,
  eq_iff j.job_kind i.job_kind,
  eq_iff i.deduplication_key j.deduplication_key,
  eq_iff j.deduplication_key i.deduplication_key,
)

find_identity-cons :
    (kind key : String) (i : Job) (t : Table)
    → find_identity kind key (i ∷ t) ≡ none
    → (has_identity kind key i ≡ false) × (find_identity kind key t ≡ none)
unfolding find_identity
find_identity-cons kind key i t n = ground arith

pub UniqueIdentity-snoc :
    (j : Job) (t : Table)
    → UniqueIdentity t
    → find_identity j.job_kind j.deduplication_key t ≡ none
    → UniqueIdentity (t ++ j ∷ [])
unfolding find_identity
UniqueIdentity-snoc j [] u n = (refl, tt)
UniqueIdentity-snoc j (i ∷ t) u n =
    let (other, rest) = find_identity-cons j.job_kind j.deduplication_key i t n in
    (
      find_identity-snoc i.job_kind i.deduplication_key t j u.0 (has_identity-sym i j other),
      UniqueIdentity-snoc j t u.1 rest,
    )
