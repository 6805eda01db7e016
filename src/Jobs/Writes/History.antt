-- ===== src/Jobs/Writes/History.antt =====
-- A row under any sequence of writes by any number of workers and maintenance loops, in any order,
-- at times that never run back.
use bike_doc.Prelude.{
  ℕ, ◌+◌, ◌≤◌, String, ◌≡◌, true, false, some, arith, refl, subst, is_some, ◌∙◌, ap, inl, inr,
}
use bike_doc.Jobs.Row.{Job, State, is_terminal, is_waiting}
use bike_doc.Jobs.Values.{
  JobSnapshot, Definition, policy, refused, from_row, DeliveryResolution, ResolutionKind, final,
  retry,
}
use bike_doc.Jobs.Constraints.{IsPermitted, OutcomeKept, SameOutcome}
use bike_doc.Jobs.Validity.{IsSound}
use bike_doc.Jobs.Delivery.{resolve_row, resolve_defined, apply_outcome_row, finish}
use bike_doc.Jobs.Delivery.Shape.{resolve_row-cases, is_defined_kind}
use bike_doc.Jobs.Publication.{
  claim_row, confirm_publication_row, fail_publication_row, advance_publication_row,
}
use bike_doc.Jobs.Recovery.{recover_expired_row, cross_boundary_row}
use bike_doc.Jobs.Writes.{
  Write, claims, confirms, fails, resolves, outcomes, advances, recovers, crosses, Write-IsSound,
}
use bike_doc.Jobs.Writes.Guarded.{Write-IsPermitted}

-- How many executions an answer starts.
abbrev pub starts : ResolutionKind → ℕ
starts ResolutionKind.executable = 1
starts _ = 0

-- How many executions a write starts.
abbrev pub started : {now : ℕ} {j j' : Job} → Write now j j' → ℕ
started (resolves g w validate token r p l e) = starts r.kind
started _ = 0

-- `History j k n`: writes have brought the row from `j` to `k`, and have started `n` executions.
pub data History (j : Job) : Job → ℕ → Type 0 where
  here : History j j 0
  next :
      (now n m : ℕ) {k l : Job}
      → History j k n
      → (w : Write now k l) → k.updated_at ≤ now
      → m ≡ n + started w
      → History j l m

pub History-IsSound : {j k : Job} {n : ℕ} → History j k n → IsSound j → IsSound k
History-IsSound here v = v
History-IsSound (next now n m h w t e) v = Write-IsSound w t (History-IsSound h v)

terminal_not_waiting : (s : State) → is_terminal s ≡ true → is_waiting s ≡ false
terminal_not_waiting s h = ground arith

resolve_defined-starts :
    (d : Definition) (j : Job) (now : ℕ) (token : String) (r : DeliveryResolution) (j' : Job)
    → (r, j') ≡ resolve_defined d j now token
    → j'.attempt_count ≡ j.attempt_count + starts r.kind
unfolding resolve_defined
resolve_defined-starts (refused x) j now token r j' e = ground arith
resolve_defined-starts (policy p) j now token r j' e = ground arith

kept-starts : (k : ResolutionKind) → is_defined_kind k ≡ false → starts k ≡ 0
kept-starts k h = ground arith

-- An execution is started of a waiting row alone, and is counted as an attempt.
resolve_row-starts :
    (g : ℕ) (w : String) (validate : JobSnapshot → Definition) (now : ℕ) (token : String) (j : Job)
    (r : DeliveryResolution) (j' : Job)
    → resolve_row g w validate now token j ≡ some (r, j')
    → (j'.attempt_count ≡ j.attempt_count + starts r.kind)
      × (is_waiting j.state ≡ false → starts r.kind ≡ 0)
resolve_row-starts g w validate now token j r j' e =
    elim (resolve_row-cases g w validate now token j (r, j') e) [
      | inl (same, k) ↦
          let z : starts r.kind ≡ 0 = kept-starts r.kind k in
          (omega (arith, ap (λ (x : Job). x.attempt_count) same), λ _. z)
      | inr (s, _, x) ↦ (resolve_defined-starts (validate (from_row j)) j now token r j' x, λ h. cc)
    ]

-- The attempt counter counts the executions started.
Write-attempts :
    {now : ℕ} {j j' : Job} (w : Write now j j')
    → (j'.attempt_count ≡ j.attempt_count + started w)
      × (is_waiting j.state ≡ false → started w ≡ 0)
unfolding claim_row confirm_publication_row fail_publication_row advance_publication_row
    cross_boundary_row apply_outcome_row recover_expired_row finish
Write-attempts (claims d token h) = (ground arith, λ _. refl)
Write-attempts (confirms c e) = (ground arith, λ _. refl)
Write-attempts (fails c r d e) = (ground arith, λ _. refl)
Write-attempts {now} {j} {j'} (resolves g w f token r p l e) =
    resolve_row-starts g w f now token j r j' e
Write-attempts (outcomes token (final f x) e) = (ground arith, λ _. refl)
Write-attempts (outcomes token (retry x d) e) = (ground arith, λ _. refl)
Write-attempts (advances g b c e) = (ground arith, λ _. refl)
Write-attempts (recovers token (final f x) e) = (ground arith, λ _. refl)
Write-attempts (recovers token (retry x d) e) = (ground arith, λ _. refl)
Write-attempts (crosses x a b le e) = (ground arith, λ _. refl)

History-attempts : {j k : Job} {n : ℕ} → History j k n → k.attempt_count ≡ j.attempt_count + n
History-attempts here = omega arith
History-attempts (next now n m h w t e) = omega (arith, History-attempts h, (Write-attempts w).0)

History-limit : {j k : Job} {n : ℕ} → History j k n → IsSound j → k.attempt_limit ≡ j.attempt_limit
History-limit here v = refl
History-limit (next now n m h w t e) v =
    (Write-IsPermitted w t (History-IsSound h v)).attempt_limit ∙ History-limit h v

-- However writes interleave from a sound row on, at times that do not run back, they start at most
-- as many executions as the row has attempts left.
pub executions_bounded :
    {j k : Job} {n : ℕ} → History j k n → IsSound j → j.attempt_count + n ≤ j.attempt_limit
executions_bounded h v =
    omega (arith, History-attempts h, History-limit h v, (History-IsSound h v).attempts)

boundary_of :
    (k l : Job)
    → IsPermitted k l
    → is_some k.effect_boundary_at ≡ true
    → (l.effect_boundary_at ≡ k.effect_boundary_at)
      × (l.effect_boundary_token ≡ k.effect_boundary_token)
boundary_of k l p b = ground arith

outcome_of : (k l : Job) → IsPermitted k l → is_terminal k.state ≡ true → SameOutcome k l
outcome_of k l p b = subst (λ x. OutcomeKept x k l) b p.outcome_kept

crossed_not_waiting :
    (k : Job) → IsSound k → is_some k.effect_boundary_at ≡ true → is_waiting k.state ≡ false
crossed_not_waiting k v b = ground arith

-- Once a sound row has crossed the effect boundary, no sequence of writes, at times that do not run
-- back, starts an execution of the job again, and the boundary and its owner stay.
pub boundary_final :
    {j k : Job} {n : ℕ}
    → History j k n
    → IsSound j
    → is_some j.effect_boundary_at ≡ true
    → (n ≡ 0)
      × (k.effect_boundary_at ≡ j.effect_boundary_at)
      × (k.effect_boundary_token ≡ j.effect_boundary_token)
boundary_final here v b = (refl, refl, refl)
boundary_final (next now n m {k} {l} h w t e) v b =
    let (z, at, by) = boundary_final h v b in
    let kv : IsSound k = History-IsSound h v in
    let kb : is_some k.effect_boundary_at ≡ true = rw at b in
    let (kept_at, kept_by) = boundary_of k l (Write-IsPermitted w t kv) kb in
    (omega (arith, (Write-attempts w).1 (crossed_not_waiting k kv kb)), kept_at ∙ at, kept_by ∙ by)

-- A terminal outcome of a sound row is final: no sequence of writes, at times that do not run back,
-- changes it or starts an execution.
pub outcome_final :
    {j k : Job} {n : ℕ}
    → History j k n
    → IsSound j
    → is_terminal j.state ≡ true
    → (n ≡ 0) × SameOutcome j k
outcome_final here v s = (refl, ground arith)
outcome_final (next now n m {k} {l} h w t e) v s =
    let (z, same) = outcome_final h v s in
    let kv : IsSound k = History-IsSound h v in
    let ks : is_terminal k.state ≡ true = rw same.state s in
    let permitted : SameOutcome k l = outcome_of k l (Write-IsPermitted w t kv) ks in
    (omega (arith, (Write-attempts w).1 (terminal_not_waiting k.state ks)), ground arith)
