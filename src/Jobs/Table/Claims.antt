-- ===== src/Jobs/Table/Claims.antt =====
-- claim_publications: each row that it selects is the row of the table under its id, and is written once.
use bike_doc.Prelude.{
  ℕ, ◌≤◌, String, Bool, true, ◌&&◌, ◌≡◌, List, [], ◌∷◌, arith, refl, All, All-take, All-order_by,
  All-filter, filter-All,
}
use bike_doc.Jobs.Row.{Job}
use bike_doc.Jobs.Publication.{is_publishable, claim_row}
use bike_doc.Jobs.Writes.{claims}
use bike_doc.Jobs.Table.{Table, flush}
use bike_doc.Jobs.Table.Laws.{All-flush}
use bike_doc.Jobs.Table.Scan.{publishable, due_order, claim_rows}
use bike_doc.Jobs.Table.Keyed.{
  IsKeyed, IsKeyed-filter, IsKeyed-order_by, IsKeyed-take, IsHere, IsKeyed-IsHere, IsHere-flush,
}
use bike_doc.Jobs.Table.Steps.{Reach, Past, next, writes}

-- The row may be claimed.
abbrev IsDue : ℕ → Job → Type 0
IsDue now j = is_publishable now j ≡ true

and_left : (a b : Bool) → (a && b) ≡ true → a ≡ true
and_left a b h = ground arith

module _ (limit now : ℕ) (unlocked : Job → Bool) (t : Table) where
  publishable-IsDue : All (IsDue now) (publishable limit now unlocked t)
  unfolding publishable
  publishable-IsDue = All-take (IsDue now) limit _ (
      All-order_by (IsDue now) due_order _ (
        All-filter (IsDue now) (λ j. is_publishable now j && unlocked j) t
          (λ j h. and_left (is_publishable now j) (unlocked j) h)))

  publishable-IsKeyed : IsKeyed t → IsKeyed (publishable limit now unlocked t)
  unfolding publishable
  publishable-IsKeyed k = IsKeyed-take limit _ (IsKeyed-order_by due_order _ (IsKeyed-filter _ t k))

  publishable-IsHere : IsKeyed t → All (IsHere t) (publishable limit now unlocked t)
  unfolding publishable
  publishable-IsHere k =
      All-take (IsHere t) limit _
        (All-order_by (IsHere t) due_order _ (filter-All (IsHere t) _ t (IsKeyed-IsHere t k)))

claimed_now : (d now : ℕ) (token : String) (j : Job) → (claim_row d now token j).1.updated_at ≤ now
unfolding claim_row
claimed_now d now token j = omega arith

claimed_id : (d now : ℕ) (token : String) (j : Job) → (claim_row d now token j).1.id ≡ j.id
unfolding claim_row
claimed_id d now token j = refl

claim_rows-Reach :
    (d now : ℕ) (token : Job → String) (js : List Job) (t : Table)
    → All (IsDue now) js
    → All (IsHere t) js
    → IsKeyed js
    → Reach t
    → Past now t
    → Reach (claim_rows d now token js t).1
unfolding claim_rows
claim_rows-Reach d now token [] t due here k r past = r
claim_rows-Reach d now token (j ∷ js) t due here k r past =
    let row : Job = (claim_row d now (token j) j).1 in
    claim_rows-Reach d now token js (flush j.id row t) due.1
      (IsHere-flush j row t js (claimed_id d now (token j) j) k.0 here.1) k.1
      (next now r past (writes j.id j here.0 (claims d (token j) due.0)))
      (All-flush (λ x. x.updated_at ≤ now) j.id row t (claimed_now d now (token j) j) past)

-- The claim of publications leads from a reachable table with a key to a reachable one.
pub claimed-Reach :
    (limit d now : ℕ) (token : Job → String) (unlocked : Job → Bool) (t : Table)
    → IsKeyed t
    → Reach t
    → Past now t
    → Reach (claim_rows d now token (publishable limit now unlocked t) t).1
claimed-Reach limit d now token unlocked t k r past =
    claim_rows-Reach d now token (publishable limit now unlocked t) t
      (publishable-IsDue limit now unlocked t) (publishable-IsHere limit now unlocked t k)
      (publishable-IsKeyed limit now unlocked t k) r past
