-- ===== src/Maintenance/Live.antt =====
-- What a recovery pass does to executions that are within their deadline.
use mathlib.Core.Option
use bike_doc.Prelude.{
  ℕ, String, Bool, true, false, Option, none, some, List, [], ◌∷◌, str_eq, ◌≡◌, refl, arith,
  if◌then◌else◌, inl, inr, Option-cases, Bool-cases, ◌∙◌, ap, sym, eq_iff,
}
use bike_doc.Jobs.Row.{Job}
use bike_doc.Jobs.Values.{is_success, JobOutcome, final, retry}
use bike_doc.Jobs.Delivery.{finish}
use bike_doc.Jobs.Table.Scan.{claim_scan}
use bike_doc.Jobs.Recovery.{expired, has_passed, recover_expired_row}
use bike_doc.Jobs.Table.{Table, lock, flush, recover_expired}
use bike_doc.Jobs.Table.Laws.{lock-flush, lock-id}
use bike_doc.Maintenance.{
  Policies, keys, recovery_of, recover_with, recover_one, recover_all, recover_pass,
}

some_pair : {A : Type 0} (n : A) (t : Table) (x : A × Table) → some (n, t) ≡ some x → x.1 ≡ t
some_pair n t x e = cc

recover-id :
    (token : String) (o : JobOutcome) (now : ℕ) (j j' : Job)
    → recover_expired_row token o now j ≡ some (some j')
    → j'.id ≡ j.id
unfolding recover_expired_row finish
recover-id token (final f x) now j j' e = ground arith
recover-id token (retry x d) now j j' e = ground arith

recover_live :
    (token : String) (o : JobOutcome) (now : ℕ) (j j' : Job)
    → has_passed j.execution_deadline now ≡ false
    → recover_expired_row token o now j ≡ some (some j')
    → ⊥
unfolding recover_expired_row
recover_live token o now j j' h e = ground arith

module _ (k id token : String) (o : JobOutcome) (now : ℕ) (t : Table) where
  recover_missing :
      lock k t ≡ none
      → recover_expired k token o now t ≡ (if is_success o then none else some (false, t))
  unfolding recover_expired
  recover_missing e = rw (e, recover_expired) refl

  recover_raised :
      (i : Job)
      → lock k t ≡ some i
      → recover_expired_row token o now i ≡ none
      → recover_expired k token o now t ≡ none
  unfolding recover_expired
  recover_raised i e f = rw (e, recover_expired) (rw f refl)

  recover_refused :
      (i : Job)
      → lock k t ≡ some i
      → recover_expired_row token o now i ≡ some none
      → recover_expired k token o now t ≡ some (false, t)
  unfolding recover_expired
  recover_refused i e f = rw (e, recover_expired) (rw f refl)

  recover_written :
      (i i' : Job)
      → lock k t ≡ some i
      → recover_expired_row token o now i ≡ some (some i')
      → recover_expired k token o now t ≡ some (true, flush k i' t)
  unfolding recover_expired
  recover_written i i' e f = rw (e, recover_expired) (rw f refl)

  -- A recovery under any key leaves a live execution alone.
  recover_expired_live :
      (j : Job) (r : Bool) (t' : Table)
      → lock id t ≡ some j
      → has_passed j.execution_deadline now ≡ false
      → recover_expired k token o now t ≡ some (r, t')
      → lock id t' ≡ some j
  recover_expired_live j r t' e h done = elim (Option-cases (lock k t)) [
    | inl n ↦ elim (Bool-cases (is_success o)) [
      | inl b ↦ cc (done, recover_missing n, b)
      | inr b ↦ cc (done, recover_missing n, b, e)
    ]
    | inr (i, f) ↦ elim (Option-cases (recover_expired_row token o now i)) [
      | inl n ↦ cc (done, recover_raised i f n)
      | inr (x, y) ↦ elim (Option-cases x) [
        | inl n ↦ cc (done, recover_refused i f (y ∙ ap some n), e)
        | inr (i', z) ↦ elim (Bool-cases (str_eq k id)) [
          | inl same ↦ absurd (
              recover_live token o now i i'
                (cc (ap (λ w. lock w t) ((eq_iff k id).0 same), f, e, h)) (y ∙ ap some z))
          | inr other ↦
              let write : recover_expired k token o now t ≡ some (true, flush k i' t) =
                recover_written i i' f (y ∙ ap some z) in
              let kept : i'.id ≡ k =
                recover-id token o now i i' (y ∙ ap some z) ∙ lock-id k t i f in
              let same : t' ≡ flush k i' t =
                some_pair true (flush k i' t) (r, t') (sym write ∙ done) in
              ap (lock id) same ∙ lock-flush id k i' t kept ∙ rw other e
        ]
      ]
    ]
  ]

module _ (ps : Policies) (now : Job → ℕ) (k : Job) (ks : List Job) (t : Table) where
  recover_all-none : recover_one ps now k t ≡ none → recover_all ps now (k ∷ ks) t ≡ none
  unfolding recover_all
  recover_all-none x = rw (recover_all, x) refl

  recover_all-some :
      (u : Table)
      → recover_one ps now k t ≡ some u
      → recover_all ps now (k ∷ ks) t ≡ recover_all ps now ks u
  unfolding recover_all
  recover_all-some u x = rw (recover_all, x) refl

module _ (ps : Policies) (at limit scanned : ℕ) (unlocked : Job → Bool) (now : Job → ℕ)
    (t : Table) where
  recover_pass-none :
      claim_scan expired at limit (some (keys ps)) scanned unlocked t ≡ none
      → recover_pass ps at limit scanned unlocked now t ≡ none
  unfolding recover_pass
  recover_pass-none x = rw (x, recover_pass) refl

  recover_pass-some :
      (js : List Job)
      → claim_scan expired at limit (some (keys ps)) scanned unlocked t ≡ some js
      → recover_pass ps at limit scanned unlocked now t ≡ recover_all ps now js t
  unfolding recover_pass
  recover_pass-some js x = rw (x, recover_pass) refl

written_table :
    (x : Option (Bool × Table)) (t' : Table)
    → Option.map (λ r. r.1) x ≡ some t'
    → (r : Bool) × (x ≡ some (r, t'))
written_table none t' e = cc
written_table (some (r, u)) t' e = (r, cc)

recover_with_live :
    (k : String) (now : ℕ) (o : Option JobOutcome) (token : Option String) (t t' : Table)
    (id : String) (j : Job)
    → recover_with k now o token t ≡ some t'
    → lock id t ≡ some j
    → has_passed j.execution_deadline now ≡ false
    → lock id t' ≡ some j
unfolding recover_with
recover_with_live k now (some o) (some token) t t' id j done e h =
    let (r, x) = written_table (recover_expired k token o now t) t' done in
    recover_expired_live k id token o now t j r t' e h x
recover_with_live k now (some o) none t t' id j done e h = cc
recover_with_live k now none token t t' id j done e h = cc

recover_one_live :
    (ps : Policies) (now : Job → ℕ) (k : Job) (t t' : Table) (id : String) (j : Job)
    → recover_one ps now k t ≡ some t'
    → lock id t ≡ some j
    → has_passed j.execution_deadline (now k) ≡ false
    → lock id t' ≡ some j
unfolding recover_one
recover_one_live ps now k t t' id j done e h =
    recover_with_live k.id (now k) (recovery_of ps k) k.execution_token t t' id j done e h

recover_all_live :
    (ps : Policies) (now : Job → ℕ) (ks : List Job) (t t' : Table) (id : String) (j : Job)
    → recover_all ps now ks t ≡ some t'
    → lock id t ≡ some j
    → ((k : Job) → has_passed j.execution_deadline (now k) ≡ false)
    → lock id t' ≡ some j
unfolding recover_all
recover_all_live ps now [] t t' id j done e h = cc
recover_all_live ps now (k ∷ ks) t t' id j done e h = elim (Option-cases (recover_one ps now k t)) [
  | inl n ↦ cc (done, recover_all-none ps now k ks t n)
  | inr (u, x) ↦
      recover_all_live ps now ks u t' id j (sym (recover_all-some ps now k ks t u x) ∙ done)
        (recover_one_live ps now k t u id j x e (h k)) h
]

-- A recovery pass leaves each execution alone whose deadline is after every time at which the pass
-- writes, whatever rows its scan selected and whatever the policies answer.
pub recover_pass_live :
    (ps : Policies) (at limit scanned : ℕ) (unlocked : Job → Bool) (now : Job → ℕ) (t t' : Table)
    (id : String) (j : Job)
    → recover_pass ps at limit scanned unlocked now t ≡ some t'
    → lock id t ≡ some j
    → ((k : Job) → has_passed j.execution_deadline (now k) ≡ false)
    → lock id t' ≡ some j
recover_pass_live ps at limit scanned unlocked now t t' id j done e h =
    elim (Option-cases (claim_scan expired at limit (some (keys ps)) scanned unlocked t)) [
      | inl x ↦ cc (done, recover_pass-none ps at limit scanned unlocked now t x)
      | inr (js, x) ↦
          recover_all_live ps now js t t' id j
            (sym (recover_pass-some ps at limit scanned unlocked now t js x) ∙ done) e h
    ]
