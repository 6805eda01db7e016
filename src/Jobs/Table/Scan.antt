-- ===== src/Jobs/Table/Scan.antt =====
-- The scans of repositories/background_jobs.py: bounded, ordered selections of rows that no other
-- transaction holds (SKIP LOCKED). Ids are ULIDs, whose order is that of their characters.
use Prim.Native.String.{compare}
use Prim.Native.Nat.{Ordering}
use bike_doc.Prelude.{
  ℕ, String, Bool, true, false, ◌&&◌, ◌||◌, Option, none, some, List, [], ◌∷◌, ltb, leb, ◌==◌,
  str_eq, if◌then◌else◌, take, filter, order_by,
}
use bike_doc.Jobs.Row.{Job}
use bike_doc.Jobs.Values.{PublicationClaim, batch_limit, bounded_duration}
use bike_doc.Jobs.Publication.{is_publishable, claim_row}
use bike_doc.Jobs.Recovery.{Purpose, expired, no_progress, retention, is_candidate}
use bike_doc.Jobs.Table.{Table, flush}

abbrev pub text_lt : String → String → Bool
text_lt s t = elim (compare s t) [ Ordering.lt ↦ true | _ ↦ false ]

-- ORDER BY a time, then id
abbrev earlier : ℕ → Job → ℕ → Job → Bool
earlier a j b k = ltb a b || ((a == b) && text_lt j.id k.id)

abbrev column : Option ℕ → ℕ
column none = 0
column (some t) = t

-- The ORDER BY of claim_scan; a candidate's column is not NULL.
unfoldable pub scan_order : Purpose → Job → Job → Bool
scan_order expired j k = earlier (column j.execution_deadline) j (column k.execution_deadline) k
scan_order no_progress j k = earlier j.updated_at j k.updated_at k
scan_order retention j k = earlier (column j.terminal_at) j (column k.terminal_at) k

-- The allowlist of job kinds and versions; None is no restriction.
abbrev pub is_defined : Option (List (String × ℕ)) → Job → Bool
is_defined none j = true
is_defined (some []) j = false
is_defined (some ((kind, version) ∷ rest)) j =
    (str_eq j.job_kind kind && (j.input_version == version)) || is_defined (some rest) j

-- claim_scan; `none` is the ValueError of the batch limit.
unfoldable pub claim_scan :
    Purpose → ℕ → ℕ → Option (List (String × ℕ)) → ℕ → (Job → Bool) → Table → Option (List Job)
unfolding batch_limit is_candidate filter order_by scan_order
claim_scan purpose before limit definitions now unlocked t =
    if batch_limit limit
    then some (
        take limit (
          order_by (scan_order purpose) (
            filter
              (λ j. is_defined definitions j && is_candidate purpose before now j && unlocked j)
              t)))
    else none

unfoldable pub due_order : Job → Job → Bool
due_order j k = earlier j.publication_eligible_at j k.publication_eligible_at k

-- The rows that claim_publications locks.
unfoldable pub publishable : ℕ → ℕ → (Job → Bool) → Table → List Job
unfolding filter order_by due_order is_publishable
publishable limit now unlocked t =
    take limit (order_by due_order (filter (λ j. is_publishable now j && unlocked j) t))

-- The loop of claim_publications. `token` gives the uuid4 drawn for a row.
unfoldable pub claim_rows :
    ℕ → ℕ → (Job → String) → List Job → Table → List PublicationClaim × Table
unfolding claim_row flush
claim_rows duration now token [] t = ([], t)
claim_rows duration now token (j ∷ js) t =
    let (claim, row) = claim_row duration now (token j) j in
    let (claims, t') = claim_rows duration now token js (flush j.id row t) in (claim ∷ claims, t')

-- claim_publications; `none` is the ValueError of the limit or of the duration.
unfoldable pub claim_publications :
    ℕ → ℕ → ℕ → (Job → String) → (Job → Bool) → Table → Option (List PublicationClaim × Table)
unfolding publishable claim_rows batch_limit bounded_duration
claim_publications limit duration now token unlocked t =
    if batch_limit limit && bounded_duration duration
    then some (claim_rows duration now token (publishable limit now unlocked t) t)
    else none

-- reconstruction_page, keyed on the id
unfoldable pub reconstruction_page : String → ℕ → ℕ → Table → Option (List Job)
unfolding batch_limit filter order_by
reconstruction_page after limit accepted_before t =
    if batch_limit limit
    then some (
        take limit (
          order_by (λ j k. text_lt j.id k.id)
            (filter (λ j. text_lt after j.id && leb j.created_at accepted_before) t)))
    else none
