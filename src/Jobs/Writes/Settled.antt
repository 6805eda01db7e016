-- ===== src/Jobs/Writes/Settled.antt =====
-- An execution that was settled, under any later writes to its row.
use bike_doc.Prelude.{
  ℕ, String, ◌≡◌, ◌≢◌, false, none, some, arith, text_is, eq_iff, inl, inr, ap, ◌∙◌,
}
use bike_doc.Jobs.Row.{Job}
use bike_doc.Jobs.Values.{
  JobSnapshot, Definition, policy, refused, from_row, DeliveryResolution, JobOutcome, final, retry,
}
use bike_doc.Jobs.Delivery.{
  resolve_row, resolve_defined, claim_execution, apply_outcome_row, is_current, finish,
}
use bike_doc.Jobs.Delivery.Shape.{resolve_row-cases}
use bike_doc.Jobs.Publication.{
  claim_row, confirm_publication_row, fail_publication_row, advance_publication_row,
}
use bike_doc.Jobs.Recovery.{recover_expired_row, cross_boundary_row}
use bike_doc.Jobs.Writes.{
  Write, claims, confirms, fails, resolves, outcomes, advances, recovers, crosses,
}
use bike_doc.Jobs.Writes.History.{History, here, next}

-- The delivery does not draw the token for a new execution.
abbrev pub DrawsOther : String → {now : ℕ} {j j' : Job} → Write now j j' → Type 0
DrawsOther t (resolves g w validate token r p l e) = token ≢ t
DrawsOther t _ = Unit

-- No delivery of the history draws the token.
abbrev pub IsUnused : String → {j k : Job} {n : ℕ} → History j k n → Type 0
IsUnused t here = Unit
IsUnused t (next now n m h w at e) = IsUnused t h × DrawsOther t w

resolve_defined-other :
    (d : Definition) (j : Job) (now : ℕ) (token t : String) (r : DeliveryResolution) (j' : Job)
    → token ≢ t
    → text_is j.execution_token t ≡ false
    → (r, j') ≡ resolve_defined d j now token
    → text_is j'.execution_token t ≡ false
unfolding resolve_defined claim_execution finish
resolve_defined-other (refused x) j now token t r j' ne h e = ground arith
resolve_defined-other (policy p) j now token t r j' ne h e = ground (arith, eq_iff token t)

resolve_row-other :
    (g : ℕ) (w : String) (validate : JobSnapshot → Definition) (now : ℕ) (token t : String)
    (j : Job) (r : DeliveryResolution) (j' : Job)
    → token ≢ t
    → text_is j.execution_token t ≡ false
    → resolve_row g w validate now token j ≡ some (r, j')
    → text_is j'.execution_token t ≡ false
resolve_row-other g w validate now token t j r j' ne h e =
    elim (resolve_row-cases g w validate now token j (r, j') e) [
      | inl (same, _) ↦ ap (λ (x : Job). text_is x.execution_token t) same ∙ h
      | inr (_, _, x) ↦ resolve_defined-other (validate (from_row j)) j now token t r j' ne h x
    ]

-- A row that has not the token gets it from no write but a delivery that draws it.
Write-other :
    (t : String) {now : ℕ} {j j' : Job} (w : Write now j j')
    → DrawsOther t w
    → text_is j.execution_token t ≡ false
    → text_is j'.execution_token t ≡ false
unfolding claim_row confirm_publication_row fail_publication_row advance_publication_row
    cross_boundary_row apply_outcome_row recover_expired_row finish
Write-other t (claims d token h) u n = ground arith
Write-other t (confirms c e) u n = ground arith
Write-other t (fails c r d e) u n = ground arith
Write-other t {now} {j} {j'} (resolves g w f token r p l e) u n =
    resolve_row-other g w f now token t j r j' u n e
Write-other t (outcomes token (final f x) e) u n = ground arith
Write-other t (outcomes token (retry x d) e) u n = ground arith
Write-other t (advances g b c e) u n = ground arith
Write-other t (recovers token (final f x) e) u n = ground arith
Write-other t (recovers token (retry x d) e) u n = ground arith
Write-other t (crosses x a b le e) u n = ground arith

History-other :
    (t : String) {j k : Job} {n : ℕ} (h : History j k n)
    → IsUnused t h
    → text_is j.execution_token t ≡ false
    → text_is k.execution_token t ≡ false
History-other t here u v = v
History-other t (next now n m h w at e) u v = Write-other t w u.1 (History-other t h u.0 v)

applied-other :
    (t t' : String) (o : JobOutcome) (now : ℕ) (j j' : Job)
    → apply_outcome_row t o now j ≡ some j'
    → text_is j'.execution_token t' ≡ false
unfolding apply_outcome_row is_current finish
applied-other t t' (final f x) now j j' e = ground arith
applied-other t t' (retry x d) now j j' e = ground arith

other_refused :
    (t : String) (o : JobOutcome) (now : ℕ) (j : Job)
    → text_is j.execution_token t ≡ false
    → apply_outcome_row t o now j ≡ none
unfolding apply_outcome_row is_current
other_refused t o now j h = ground arith

-- At most one outcome is applied for an execution: once one is, a second outcome with the same token is
-- refused at whatever time, whatever writes have come between, at times that do not run back, retries and
-- new executions of the job included. No later delivery draws the token again.
pub apply_outcome_once :
    (t : String) (o o' : JobOutcome) (now later : ℕ) (j : Job) {j' k : Job} {n : ℕ}
    (h : History j' k n)
    → apply_outcome_row t o now j ≡ some j'
    → IsUnused t h
    → apply_outcome_row t o' later k ≡ none
apply_outcome_once t o o' now later j {j'} {k} h e u =
    other_refused t o' later k (History-other t h u (applied-other t t o now j j' e))
