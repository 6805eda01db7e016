-- ===== src/Jobs/Table/Steps.antt =====
-- The table as a transition system: the committed writes of producers, workers, maintenance and
-- deletion, in any order.
use bike_doc.Prelude.{
  none, ◌∙◌, ℕ, ◌≤◌, String, ◌≡◌, some, [], arith, inl, inr, All, All-append, Option-cases,
  Bool-cases,
}
use bike_doc.Jobs.Row.{Job, JobRecord, new_job}
use bike_doc.Jobs.Validity.{IsSound}
use bike_doc.Jobs.Recovery.{may_delete}
use bike_doc.Jobs.Writes.{Write, Write-IsSound}
use bike_doc.Jobs.Writes.Guarded.{Write-IsPermitted}
use bike_doc.Jobs.Table.{Table, lock, flush, delete_retained, record_job, find_identity}
use bike_doc.Jobs.Table.Laws.{All-lock, All-flush, All-remove, lock-id}
use bike_doc.Jobs.Table.Keyed.{IsKeyed, IsKeyed-flush, IsKeyed-remove, IsKeyed-snoc}
use bike_doc.Jobs.Table.Identity.{
  UniqueIdentity, UniqueIdentity-flush, UniqueIdentity-remove, UniqueIdentity-snoc,
}
use bike_doc.Jobs.Table.Records.{record_job-new, record_job-known}

pub record IsGood (t : Table) : Type 0 where
  pub sound : All IsSound t
  pub unique : UniqueIdentity t
  pub keyed : IsKeyed t

-- Every row was written at or before `now`.
abbrev pub Past : ℕ → Table → Type 0
Past now = All (λ j. j.updated_at ≤ now)

pub data TableStep (now : ℕ) (t : Table) : Table → Type 0 where
  writes :
      (id : String) (j : Job) {j' : Job}
      → lock id t ≡ some j
      → Write now j j'
      → TableStep now t (flush id j' t)
  records :
      (id : String) (d : JobRecord)
      → lock id t ≡ none
      → 1 ≤ d.attempt_limit
      → d.attempt_limit ≤ 100
      → TableStep now t (record_job id now d t).1
  deletes : (id : String) (before : ℕ) → TableStep now t (delete_retained id before t).1

new_job-IsSound :
    (id : String) (now : ℕ) (d : JobRecord)
    → 1 ≤ d.attempt_limit
    → d.attempt_limit ≤ 100
    → IsSound (new_job id now d)
unfolding new_job
new_job-IsSound id now d l h = ground arith

record_job-IsGood :
    (id : String) (now : ℕ) (d : JobRecord) (t : Table)
    → lock id t ≡ none
    → 1 ≤ d.attempt_limit
    → d.attempt_limit ≤ 100
    → IsGood t
    → IsGood (record_job id now d t).1
unfolding new_job
record_job-IsGood id now d t new l h g =
    elim (Option-cases (find_identity d.job_kind d.deduplication_key t)) [
      | inl e ↦ rw (record_job-new id now d t e) (record {
        sound = All-append IsSound t _ g.sound (new_job-IsSound id now d l h, tt);
        unique = UniqueIdentity-snoc (new_job id now d) t g.unique e;
        keyed = IsKeyed-snoc (new_job id now d) t new g.keyed;
      })
      | inr (j, e) ↦ rw (record_job-known id now d t j e) g
    ]

delete-IsGood :
    (id : String) (before : ℕ) (t : Table) → IsGood t → IsGood (delete_retained id before t).1
unfolding delete_retained
delete-IsGood id before t g = elim (Option-cases (lock id t)) [
  | inl e ↦ rw (e, delete_retained) g
  | inr (j, e) ↦
      rw (e, delete_retained)
        (elim (Bool-cases (may_delete before j)) [
          | inl h ↦ rw h (record {
            sound = All-remove IsSound id t g.sound;
            unique = UniqueIdentity-remove id t g.unique;
            keyed = IsKeyed-remove id t g.keyed;
          })
          | inr h ↦ rw h g
        ])
]

-- Whatever the repository commits, every row satisfies the table's CHECK constraints and no two
-- rows share an identity or an id. The id of a new row is a new one.
pub TableStep-IsGood :
    {now : ℕ} {t t' : Table} → TableStep now t t' → Past now t → IsGood t → IsGood t'
TableStep-IsGood {now} {t} (writes id j {j' = k} e w) past g =
    let v : IsSound j = All-lock IsSound id t j g.sound e in
    let at : j.updated_at ≤ now = All-lock (λ x. x.updated_at ≤ now) id t j past e in
    record {
      sound = All-flush IsSound id k t (Write-IsSound w at v) g.sound;
      unique = UniqueIdentity-flush id j k t e (Write-IsPermitted w at v) g.unique;
      keyed = IsKeyed-flush id k t ((Write-IsPermitted w at v).id ∙ lock-id id t j e) g.keyed;
    }
TableStep-IsGood {now} {t} (records id d new l h) past g = record_job-IsGood id now d t new l h g
TableStep-IsGood {now} {t} (deletes id before) past g = delete-IsGood id before t g

-- `Reach t`: committed steps lead from the empty table to `t`.
pub data Reach : Table → Type 0 where
  empty : Reach []
  next : (now : ℕ) {t t' : Table} → Reach t → Past now t → TableStep now t t' → Reach t'

-- So it holds of every table that the operations can reach.
pub Reach-IsGood : {t : Table} → Reach t → IsGood t
Reach-IsGood empty = record { sound = tt; unique = tt; keyed = tt }
Reach-IsGood (next now r past s) = TableStep-IsGood s past (Reach-IsGood r)
