-- ===== src/Jobs/Table/Records.antt =====
-- Producers: the method record, on the table.
use bike_doc.Prelude.{
  ℕ, String, true, false, ◌≡◌, none, some, ◌⊎◌, [], ◌∷◌, ◌++◌, eq_iff, eq_refl, arith, refl,
  Option-cases, Bool-cases, subst, ◌∙◌, inl, inr, ap,
}
use bike_doc.Jobs.Row.{Job, JobInput, JobRecord, new_job}
use bike_doc.Jobs.Values.{from_row}
use bike_doc.Jobs.Table.{
  Table, has_identity, find_identity, input_eq, same_definition, recorded, definition_conflict,
  recorded_as, record_job,
}

pub find_identity-append :
    (kind key : String) (t : Table) (j : Job)
    → find_identity kind key t ≡ none
    → has_identity kind key j ≡ true
    → find_identity kind key (t ++ j ∷ []) ≡ some j
unfolding find_identity
find_identity-append kind key [] j n h = rw h
find_identity-append kind key (i ∷ t) j n h = ground (arith, find_identity-append kind key t j)

pub new_job-identity :
    (id : String) (now : ℕ) (d : JobRecord)
    → has_identity d.job_kind d.deduplication_key (new_job id now d) ≡ true
unfolding has_identity new_job
new_job-identity id now d = ground (arith, eq_refl d.job_kind, eq_refl d.deduplication_key)

module _ (id : String) (now : ℕ) (d : JobRecord) (t : Table) where
  pub record_job-new :
      find_identity d.job_kind d.deduplication_key t ≡ none
      → record_job id now d t ≡ (recorded_as d (new_job id now d), t ++ new_job id now d ∷ [])
  unfolding record_job
  record_job-new e = rw (e, record_job)

  pub record_job-known :
      (j : Job)
      → find_identity d.job_kind d.deduplication_key t ≡ some j
      → record_job id now d t ≡ (recorded_as d j, t)
  unfolding record_job
  record_job-known j e = rw (e, record_job)

-- Recording the same instruction again, under whatever fresh id and whenever, answers the same and
-- changes nothing.
pub record_job_idempotent :
    (id id' : String) (now now' : ℕ) (d : JobRecord) (t : Table)
    → record_job id' now' d (record_job id now d t).1 ≡ record_job id now d t
record_job_idempotent id id' now now' d t =
    elim (Option-cases (find_identity d.job_kind d.deduplication_key t)) [
      | inl e ↦ rw (record_job-new id now d t e) (
          record_job-known id' now' d _ (new_job id now d) (
            find_identity-append d.job_kind d.deduplication_key t (new_job id now d) e
              (new_job-identity id now d)))
      | inr (j, e) ↦ rw (record_job-known id now d t j e) (record_job-known id' now' d t j e)
    ]

input_eq_refl : (xs : JobInput) → input_eq xs xs ≡ true
unfolding input_eq
input_eq_refl [] = refl
input_eq_refl ((k, v) ∷ xs) = ground (arith, eq_refl k, eq_refl v, input_eq_refl xs)

input_eq→eq : (xs ys : JobInput) → input_eq xs ys ≡ true → xs ≡ ys
unfolding input_eq
input_eq→eq [] [] h = refl
input_eq→eq [] (y ∷ ys) h = cc
input_eq→eq (x ∷ xs) [] h = cc
input_eq→eq ((k, v) ∷ xs) ((l, w) ∷ ys) h =
    ground (arith, eq_iff k l, eq_iff v w, input_eq→eq xs ys)

-- The definition that a stored row carries.
abbrev pub definition : Job → JobRecord
definition j = record {
  job_kind = j.job_kind;
  workload_class = j.workload_class;
  input_version = j.input_version;
  input = j.input;
  deduplication_key = j.deduplication_key;
  attempt_limit = j.attempt_limit;
}

same_definition_refl : (j : Job) → same_definition (definition j) j ≡ true
unfolding same_definition
same_definition_refl j = ground (
  arith,
  eq_refl j.job_kind,
  eq_refl j.workload_class,
  input_eq_refl j.input,
  eq_refl j.deduplication_key,
)

same_definition→eq : (d : JobRecord) (j : Job) → same_definition d j ≡ true → definition j ≡ d
unfolding same_definition
same_definition→eq d j h = ground (
  arith,
  eq_iff j.job_kind d.job_kind,
  eq_iff j.workload_class d.workload_class,
  input_eq→eq j.input d.input,
  eq_iff j.deduplication_key d.deduplication_key,
)

recorded_as-same :
    (d : JobRecord) (j : Job) → same_definition d j ≡ true → recorded_as d j ≡ recorded (from_row j)
unfolding recorded_as
recorded_as-same d j h = rw h

recorded_as-other :
    (d : JobRecord) (j : Job) → same_definition d j ≡ false → recorded_as d j ≡ definition_conflict
unfolding recorded_as
recorded_as-other d j h = rw h

definition-new_job : (id : String) (now : ℕ) (d : JobRecord) → definition (new_job id now d) ≡ d
unfolding new_job
definition-new_job id now d = refl

recorded_as-new :
    (id : String) (now : ℕ) (d : JobRecord)
    → recorded_as d (new_job id now d) ≡ recorded (from_row (new_job id now d))
recorded_as-new id now d = recorded_as-same d (new_job id now d) (
    subst (λ e. same_definition e (new_job id now d) ≡ true) (definition-new_job id now d)
      (same_definition_refl (new_job id now d)))

-- An accepted instruction stands in the table under its identity, with exactly the definition that
-- was supplied; a conflict changes nothing.
pub record_job_lem :
    (id : String) (now : ℕ) (d : JobRecord) (t : Table)
    → ((j : Job) × ((record_job id now d t).0 ≡ recorded (from_row j))
        × (find_identity d.job_kind d.deduplication_key (record_job id now d t).1 ≡ some j)
        × (definition j ≡ d))
      ⊎ (record_job id now d t ≡ (definition_conflict, t))
record_job_lem id now d t = elim (Option-cases (find_identity d.job_kind d.deduplication_key t)) [
  | inl e ↦
      let j : Job = new_job id now d in
      inl (
        j,
        rw (record_job-new id now d t e) (recorded_as-new id now d),
        rw (record_job-new id now d t e)
            (find_identity-append d.job_kind d.deduplication_key t j e (new_job-identity id now d)),
        definition-new_job id now d,
      )
  | inr (j, e) ↦ elim (Bool-cases (same_definition d j)) [
    | inl same ↦ inl (
      j,
      rw (record_job-known id now d t j e) (recorded_as-same d j same),
      rw (record_job-known id now d t j e) e,
      same_definition→eq d j same,
    )
    | inr other ↦
        inr (record_job-known id now d t j e ∙ ap (λ r. (r, t)) (recorded_as-other d j other))
  ]
]
