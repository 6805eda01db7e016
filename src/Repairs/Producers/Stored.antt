-- ===== src/Repairs/Producers/Stored.antt =====
-- What the producers of a turn leave in the job table.
use bike_doc.Prelude.{
  ℕ, String, false, ◌≡◌, some, [], ◌∷◌, ◌++◌, arith, refl, Option-cases, Bool-cases, inl, inr, ◌⊎◌,
  if◌then◌else◌, subst, ◌∙◌, ap, sym, leb, ◌&&◌,
}
use bike_doc.Jobs.Row.{Job, JobRecord}
use bike_doc.Jobs.Values.{JobSnapshot, from_row}
use bike_doc.Jobs.Table.{
  RecordResult, Table, find_identity, record_job, recorded, definition_conflict,
}
use bike_doc.Jobs.Table.Records.{record_job_lem, record_job-new, record_job-known, definition}
use bike_doc.Repairs.Request.{TurnRequest, Acceptance, AcceptError, has_images}
use bike_doc.Repairs.Producers.{
  Produced, stored, raised, produced, record_turn_jobs, record_diagnostic_turn,
  record_profile_inference, diagnostic_record, profile_record,
}

find_identity-kept :
    (kind key : String) (t u : Table) (j : Job)
    → find_identity kind key t ≡ some j
    → find_identity kind key (t ++ u) ≡ some j
unfolding find_identity
find_identity-kept kind key [] u j e = cc
find_identity-kept kind key (i ∷ t) u j e = ground (arith, find_identity-kept kind key t u j)

-- A later record leaves a stored job where it is.
find_identity-record_job :
    (kind key id : String) (now : ℕ) (d : JobRecord) (t : Table) (j : Job)
    → find_identity kind key t ≡ some j
    → find_identity kind key (record_job id now d t).1 ≡ some j
find_identity-record_job kind key id now d t j e =
    elim (Option-cases (find_identity d.job_kind d.deduplication_key t)) [
      | inl n ↦ rw (record_job-new id now d t n) (find_identity-kept kind key t _ j e)
      | inr (i, f) ↦ rw (record_job-known id now d t i f) e
    ]

-- A stored instruction: the table has a job of its identity with its definition.
abbrev pub IsStored : JobRecord → Table → Type 0
IsStored d t =
    (j : Job) × (find_identity d.job_kind d.deduplication_key t ≡ some j) × (definition j ≡ d)

stored_table :
    (r : RecordResult × Table) (s : JobSnapshot) (t : Table)
    → r.0 ≡ recorded s
    → produced r ≡ stored t
    → r.1 ≡ t
stored_table (recorded x, u) s t e h = cc
stored_table (definition_conflict, u) s t e h = cc

produced-IsStored :
    (id : String) (now : ℕ) (d : JobRecord) (t t' : Table)
    → produced (record_job id now d t) ≡ stored t'
    → IsStored d t' × ((record_job id now d t).1 ≡ t')
produced-IsStored id now d t t' h = elim (record_job_lem id now d t) [
  | inl (j, e, f, g) ↦
      let same : (record_job id now d t).1 ≡ t' =
        stored_table (record_job id now d t) (from_row j) t' e h in
      ((j, ap (find_identity d.job_kind d.deduplication_key) (sym same) ∙ f, g), same)
  | inr e ↦ cc (h, ap produced e)
]

diagnostic-IsStored :
    (id : String) (now : ℕ) (turn : String) (limit : ℕ) (t t' : Table)
    → record_diagnostic_turn id now turn limit t ≡ stored t'
    → IsStored (diagnostic_record turn limit) t'
unfolding record_diagnostic_turn
diagnostic-IsStored id now turn limit t t' h = elim (Bool-cases (leb 1 limit && leb limit 100)) [
  | inl b ↦ (produced-IsStored id now (diagnostic_record turn limit) t t' (rw b at h)).0
  | inr b ↦ cc (h, b)
]

profile-stored :
    (id : String) (now : ℕ) (turn version key : String) (limit : ℕ) (t t' : Table)
    → record_profile_inference id now turn version key limit t ≡ stored t'
    → IsStored (profile_record turn version key limit) t'
      × ((record_job id now (profile_record turn version key limit) t).1 ≡ t')
unfolding record_profile_inference
profile-stored id now turn version key limit t t' h =
    elim (Bool-cases (leb 1 limit && leb limit 5)) [
      | inl b ↦ produced-IsStored id now (profile_record turn version key limit) t t' (rw b at h)
      | inr b ↦ cc (h, b)
    ]

IsStored-later :
    (d e : JobRecord) (id : String) (now : ℕ) (t t' : Table)
    → IsStored d t
    → (record_job id now e t).1 ≡ t'
    → IsStored d t'
IsStored-later d e id now t t' (j, f, g) same = (
  j,
  ap (find_identity d.job_kind d.deduplication_key) (sym same)
      ∙ find_identity-record_job d.job_kind d.deduplication_key id now e t j f,
  g,
)

-- What the jobs of an accepted turn are: the diagnostic job, and with images the profile job.
pub record AreStored (a : Acceptance) (request : TurnRequest) (t : Table) : Type 0 where
  pub diagnostic_stored : IsStored (diagnostic_record a.turn_id a.diagnostic_attempt_limit) t
  pub profile_stored :
      (has_images request.artifact_ids ≡ false)
      ⊎ IsStored
          (profile_record a.turn_id a.profile_extractor_version a.profile_deduplication_key
            a.profile_max_attempts)
          t

pub Produced-cases :
    (x : Produced) → ((t : Table) × (x ≡ stored t)) ⊎ ((e : AcceptError) × (x ≡ raised e))
Produced-cases (stored t) = inl (t, refl)
Produced-cases (raised e) = inr (e, refl)

stored_eq : (t u : Table) → stored t ≡ stored u → t ≡ u
stored_eq t u e = cc

module _ (a : Acceptance) (request : TurnRequest) (t : Table) where
  turn_jobs_raised :
      (e : AcceptError)
      → record_diagnostic_turn a.diagnostic_job_id a.now a.turn_id a.diagnostic_attempt_limit t
        ≡ raised e
      → record_turn_jobs a request t ≡ raised e
  unfolding record_turn_jobs
  turn_jobs_raised e x = rw (record_turn_jobs, x) refl

  turn_jobs_stored :
      (u : Table)
      → record_diagnostic_turn a.diagnostic_job_id a.now a.turn_id a.diagnostic_attempt_limit t
        ≡ stored u
      → record_turn_jobs a request t ≡ (
          if has_images request.artifact_ids
          then record_profile_inference a.profile_job_id a.now a.turn_id a.profile_extractor_version
              a.profile_deduplication_key a.profile_max_attempts u
          else stored u)
  unfolding record_turn_jobs
  turn_jobs_stored u x = rw (record_turn_jobs, x) refl

  pub record_turn_jobs-AreStored :
      (t' : Table) → record_turn_jobs a request t ≡ stored t' → AreStored a request t'
  record_turn_jobs-AreStored t' h =
      elim (Produced-cases
        (record_diagnostic_turn a.diagnostic_job_id a.now a.turn_id a.diagnostic_attempt_limit t)) [
          | inr (e, x) ↦ cc (h, turn_jobs_raised e x)
          | inl (u, x) ↦
              let d = diagnostic_record a.turn_id a.diagnostic_attempt_limit in
              let v : IsStored d u =
                diagnostic-IsStored a.diagnostic_job_id a.now a.turn_id a.diagnostic_attempt_limit t
                  u x in
              elim (Bool-cases (has_images request.artifact_ids)) [
                | inr b ↦
                    let same : u ≡ t' = stored_eq u t' (cc (turn_jobs_stored u x, b, h)) in
                    record { diagnostic_stored = subst (IsStored d) same v; profile_stored = inl b }
                | inl b ↦
                    let (w, same) =
                      profile-stored a.profile_job_id a.now a.turn_id a.profile_extractor_version
                        a.profile_deduplication_key a.profile_max_attempts u t'
                        (cc (turn_jobs_stored u x, b, h)) in
                    record {
                      diagnostic_stored =
                          IsStored-later d
                            (profile_record a.turn_id a.profile_extractor_version
                              a.profile_deduplication_key a.profile_max_attempts)
                            a.profile_job_id a.now u t' v same;
                      profile_stored = inr w;
                    }
              ]
        ]
