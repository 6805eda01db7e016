-- ===== src/Maintenance/Frame.antt =====
-- What a pass of maintenance leaves alone: the jobs that it did not select or may not delete.
use bike_doc.Prelude.{
  ◌<◌, ◌≢◌, ◌⊎◌, ℕ, String, Bool, true, false, Option, none, some, List, [], ◌∷◌, str_eq, ◌≡◌, refl,
  arith, inl, inr, Option-cases, Bool-cases, All, ◌∙◌, ap, sym, eq_iff,
}
use bike_doc.Jobs.Row.{Job, is_terminal}
use bike_doc.Jobs.Values.{from_row}
use bike_doc.Jobs.Publication.{advance_publication_row}
use bike_doc.Jobs.Table.Scan.{claim_scan}
use bike_doc.Jobs.Recovery.{retention, may_delete}
use bike_doc.Jobs.Table.{Table, lock, advance_publication, delete_retained}
use bike_doc.Jobs.Table.Laws.{on_locked-frame, lock-remove}
use bike_doc.Maintenance.{
  Policies, find_policy, republish_one, republish_all, delete_all, cleanup_once,
}

advance-id :
    (g : ℕ) (b : Option ℕ) (c : Bool) (now : ℕ) (j j' : Job)
    → advance_publication_row g b c now j ≡ some j'
    → j'.id ≡ j.id
unfolding advance_publication_row
advance-id g b c now j j' e = ground arith

republish_one-frame :
    (ps : Policies) (b : Option ℕ) (c : Bool) (now : Job → ℕ) (j : Job) (t : Table) (id : String)
    → str_eq j.id id ≡ false
    → lock id (republish_one ps b c now j t).1 ≡ lock id t
unfolding republish_one advance_publication
republish_one-frame ps b c now j t id ne = elim (Option-cases (find_policy ps j)) [
  | inl e ↦ rw (e, republish_one) refl
  | inr (p, e) ↦
      rw (e, republish_one)
        (elim (Bool-cases (p.may_republish (from_row j))) [
          | inl h ↦ rw h (
              on_locked-frame j.id id (advance_publication_row j.desired_generation b c (now j)) t
                (λ x x' y. advance-id j.desired_generation b c (now j) x x' y) ne)
          | inr h ↦ rw h refl
        ])
]

-- No job of the list has the id.
abbrev pub Spared : String → List Job → Type 0
Spared id = All (λ j. str_eq j.id id ≡ false)

-- Republication leaves each job alone that is not among its candidates.
pub republish_all-frame :
    (ps : Policies) (b : Option ℕ) (c : Bool) (now : Job → ℕ) (js : List Job) (t : Table)
    (id : String)
    → Spared id js
    → lock id (republish_all ps b c now js t).1 ≡ lock id t
unfolding republish_all
republish_all-frame ps b c now [] t id s = refl
republish_all-frame ps b c now (j ∷ js) t id s =
    republish_all-frame ps b c now js (republish_one ps b c now j t).1 id s.1
    ∙ republish_one-frame ps b c now j t id s.0

-- Two rows that the recheck tells apart have two ids.
deleted_other :
    (before : ℕ) (k id : String) (t : Table) (i j : Job)
    → lock k t ≡ some i
    → lock id t ≡ some j
    → may_delete before i ≡ true
    → may_delete before j ≡ false
    → str_eq k id ≡ false
deleted_other before k id t i j f e d h = elim (Bool-cases (str_eq k id)) [
  | inl same ↦ cc (ap (λ x. lock x t) ((eq_iff k id).0 same), f, e, d, h)
  | inr other ↦ other
]

delete_retained-kept :
    (before : ℕ) (k id : String) (t : Table) (j : Job)
    → lock id t ≡ some j
    → may_delete before j ≡ false
    → lock id (delete_retained k before t).1 ≡ some j
unfolding delete_retained
delete_retained-kept before k id t j e h = elim (Option-cases (lock k t)) [
  | inl n ↦ rw (n, delete_retained) e
  | inr (i, f) ↦
      rw (f, delete_retained)
        (elim (Bool-cases (may_delete before i)) [
          | inl d ↦ rw d (lock-remove id k t (deleted_other before k id t i j f e d h) ∙ e)
          | inr d ↦ rw d e
        ])
]

delete_all-kept :
    (before : ℕ) (js : List Job) (t : Table) (id : String) (j : Job)
    → lock id t ≡ some j
    → may_delete before j ≡ false
    → lock id (delete_all before js t).1 ≡ some j
unfolding delete_all
delete_all-kept before [] t id j e h = e
delete_all-kept before (k ∷ ks) t id j e h =
    delete_all-kept before ks (delete_retained k.id before t).1 id j
      (delete_retained-kept before k.id id t j e h) h

module _ (before limit scanned : ℕ) (unlocked : Job → Bool) (t : Table) where
  cleanup_once-none :
      claim_scan retention before limit none scanned unlocked t ≡ none
      → cleanup_once before limit scanned unlocked t ≡ none
  unfolding cleanup_once
  cleanup_once-none x = rw (x, cleanup_once) refl

  cleanup_once-some :
      (js : List Job)
      → claim_scan retention before limit none scanned unlocked t ≡ some js
      → cleanup_once before limit scanned unlocked t ≡ some (delete_all before js t)
  unfolding cleanup_once
  cleanup_once-some js x = rw (x, cleanup_once) refl

some_pair : {A : Type 0} (n : A) (t : Table) (x : A × Table) → some (n, t) ≡ some x → x.1 ≡ t
some_pair n t x e = cc

-- Something still asks for the job: it has not ended, or ended or was written after the limit, or a publication
-- of it is claimed or not confirmed.
abbrev pub IsNeeded : ℕ → Job → Type 0
IsNeeded before j =
    (is_terminal j.state ≡ false)
    ⊎ ((at : ℕ) × (j.terminal_at ≡ some at) × (before < at))
    ⊎ (before < j.updated_at)
    ⊎ (j.confirmed_generation ≢ j.desired_generation)
    ⊎ (j.publication_claim_token ≢ none)

needed-kept : (before : ℕ) (j : Job) → IsNeeded before j → may_delete before j ≡ false
unfolding may_delete
needed-kept before j h = ground arith

-- A cleanup keeps, as it is, each job that has not ended, that ended or was written after the limit,
-- or whose publication is claimed or not confirmed.
pub cleanup_once-kept :
    (before limit scanned n : ℕ) (unlocked : Job → Bool) (t t' : Table) (id : String) (j : Job)
    → cleanup_once before limit scanned unlocked t ≡ some (n, t')
    → lock id t ≡ some j
    → IsNeeded before j
    → lock id t' ≡ some j
cleanup_once-kept before limit scanned n unlocked t t' id j done e h =
    elim (Option-cases (claim_scan retention before limit none scanned unlocked t)) [
      | inl x ↦ cc (done, cleanup_once-none before limit scanned unlocked t x)
      | inr (js, x) ↦
          let same : (delete_all before js t).1 ≡ t' =
            some_pair n t' (delete_all before js t)
              (sym done ∙ cleanup_once-some before limit scanned unlocked t js x) in
          ap (lock id) (sym same) ∙ delete_all-kept before js t id j e (needed-kept before j h)
    ]
