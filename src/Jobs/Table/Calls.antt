-- ===== src/Jobs/Table/Calls.antt =====
-- Every method of the base repository that writes, and the crossing of the effect boundary, as a call
-- on the table, and what any sequence of calls keeps. A call that raises is rolled back by its caller's transaction.
use Prim.Native.String.{count}
use bike_doc.Prelude.{
  ◌&&◌, ℕ, ◌≤◌, String, Bool, ◌≡◌, Option, none, some, List, [], ◌∷◌, ap, ◌∙◌, inl, inr,
  Option-cases, Bool-cases,
}
use bike_doc.Jobs.Row.{Job, JobRecord, TransportError}
use bike_doc.Jobs.Values.{
  JobSnapshot, Definition, JobOutcome, is_success, PublicationClaim, bounded_duration, batch_limit,
}
use bike_doc.Jobs.Delivery.{resolve_row, apply_outcome_row}
use bike_doc.Jobs.Publication.{
  confirm_publication_row, fail_publication_row, advance_publication_row,
}
use bike_doc.Jobs.Recovery.{recover_expired_row, DiagnosticExecution, cross_boundary_row}
use bike_doc.Jobs.Writes.{
  Write, Positive, confirms, fails, resolves, outcomes, advances, recovers, crosses,
}
use bike_doc.Jobs.Table.{
  recover_expired, cross_boundary, Table, lock, on_locked, record_job, delete_retained,
  resolve_delivery, apply_outcome, confirm_publication, fail_publication, advance_publication,
}
use bike_doc.Jobs.Table.Scan.{claim_publications}
use bike_doc.Jobs.Table.Claims.{claimed-Reach}
use bike_doc.Jobs.Table.Laws.{on_locked-missing, on_locked-refused, on_locked-written}
use bike_doc.Jobs.Table.Steps.{
  IsGood, Reach-IsGood, Past, Reach, empty, next, writes, records, deletes,
}

pub data Call : Type 0 where
  producing : String → JobRecord → Call
  claiming : ℕ → ℕ → (Job → String) → (Job → Bool) → Call
  confirming : PublicationClaim → Call
  failing : PublicationClaim → TransportError → ℕ → Call
  resolving : String → ℕ → String → (JobSnapshot → Definition) → String → Call
  settling : String → String → JobOutcome → Call
  advancing : String → ℕ → Option ℕ → Bool → Call
  recovering : String → String → JobOutcome → Call
  crossing : DiagnosticExecution → ℕ → ℕ → Call
  deleting : String → ℕ → Call

-- The table after a call that may raise.
abbrev after {ℓ} : {A : Type ℓ} → (A → Table) → Table → Option A → Table
after f t none = t
after f t (some a) = f a

unfoldable pub call : ℕ → Call → Table → Table
call now (producing id d) t = (record_job id now d t).1
call now (claiming limit d token unlocked) t =
    after (λ x. x.1) t (claim_publications limit d now token unlocked t)
call now (confirming c) t = (confirm_publication c now t).1
call now (failing c e delay) t = after (λ x. x.1) t (fail_publication c e delay now t)
call now (resolving id g w validate token) t =
    after (λ x. x.1) t (resolve_delivery id g w validate now token t)
call now (settling id token o) t = (apply_outcome id token o now t).1
call now (advancing id g before coalesce) t = (advance_publication id g before coalesce now t).1
call now (recovering id token o) t = after (λ x. x.1) t (recover_expired id token o now t)
call now (crossing e then_ later) t = after (λ x. x) t (cross_boundary e now then_ later t)
call now (deleting id before) t = (delete_retained id before t).1

-- What the callers grant: a generated id is new, the services bound the attempt limit, validated
-- policies are positive, a token is the hex of a UUID, and the clock does not run back within a call.
abbrev pub Granted : ℕ → Call → Table → Type 0
Granted now (producing id d) t =
    (lock id t ≡ none) × (1 ≤ d.attempt_limit) × (d.attempt_limit ≤ 100)
Granted now (resolving id g w validate token) t = Positive validate × (count token ≡ 32)
Granted now (crossing e then_ later) t = now ≤ then_
Granted now _ t = Unit

on_locked-Reach :
    (now : ℕ) (id : String) (f : Job → Option Job) (t : Table)
    → ((j j' : Job) → f j ≡ some j' → Write now j j')
    → Reach t
    → Past now t
    → Reach (on_locked id f t).1
on_locked-Reach now id f t w r past = elim (Option-cases (lock id t)) [
  | inl e ↦ rw (on_locked-missing id f t e) r
  | inr (j, e) ↦ elim (Option-cases (f j)) [
    | inl n ↦ rw (on_locked-refused id f t j e n) r
    | inr (j', x) ↦
        rw (on_locked-written id f t j j' e x) (next now r past (writes id j e (w j j' x)))
  ]
]

fail_publication-Reach :
    (now : ℕ) (c : PublicationClaim) (e : TransportError) (delay : ℕ) (t : Table)
    → Reach t
    → Past now t
    → Reach (call now (failing c e delay) t)
unfolding call fail_publication
fail_publication-Reach now c e delay t r past = elim (Bool-cases (bounded_duration delay)) [
  | inl b ↦ rw b (
      on_locked-Reach now c.job_id (fail_publication_row c e delay now) t
        (λ j j' x. fails c e delay x) r past)
  | inr b ↦ rw b r
]

resolve_delivery-Reach :
    (now : ℕ) (id : String) (g : ℕ) (w : String) (validate : JobSnapshot → Definition)
    (token : String) (t : Table)
    → Positive validate
    → count token ≡ 32
    → Reach t
    → Past now t
    → Reach (call now (resolving id g w validate token) t)
unfolding call resolve_delivery
resolve_delivery-Reach now id g w validate token t p l r past = elim (Option-cases (lock id t)) [
  | inl e ↦ rw (e, resolve_delivery) r
  | inr (j, e) ↦
      rw (e, resolve_delivery)
        (elim (Option-cases (resolve_row g w validate now token j)) [
          | inl n ↦ rw n r
          | inr ((d, j'), x) ↦
              rw x (next now r past (writes id j e (resolves g w validate token d p l x)))
        ])
]

recover_expired-Reach :
    (now : ℕ) (id token : String) (o : JobOutcome) (t : Table)
    → Reach t
    → Past now t
    → Reach (call now (recovering id token o) t)
unfolding call recover_expired
recover_expired-Reach now id token o t r past = elim (Option-cases (lock id t)) [
  | inl e ↦
      rw (e, recover_expired) (elim (Bool-cases (is_success o)) [ inl b ↦ rw b r | inr b ↦ rw b r ])
  | inr (j, e) ↦
      rw (e, recover_expired)
        (elim (Option-cases (recover_expired_row token o now j)) [
          | inl n ↦ rw n r
          | inr (x, y) ↦ elim (Option-cases x) [
            | inl n ↦ rw (y, n) r
            | inr (j', z) ↦
                rw (y, z) (next now r past (writes id j e (recovers token o (y ∙ ap some z))))
          ]
        ])
]

cross_boundary-Reach :
    (now : ℕ) (x : DiagnosticExecution) (then_ later : ℕ) (t : Table)
    → now ≤ then_
    → Reach t
    → Past now t
    → Reach (call now (crossing x then_ later) t)
unfolding call cross_boundary
cross_boundary-Reach now x then_ later t le r past = elim (Option-cases (lock x.job_id t)) [
  | inl e ↦ rw (e, cross_boundary) r
  | inr (j, e) ↦
      rw (e, cross_boundary)
        (elim (Option-cases (cross_boundary_row x now then_ later j)) [
          | inl n ↦ rw n r
          | inr (j', y) ↦ rw y (next now r past (writes x.job_id j e (crosses x then_ later le y)))
        ])
]

claim_publications-Reach :
    (limit d now : ℕ) (token : Job → String) (unlocked : Job → Bool) (t : Table)
    → Reach t
    → Past now t
    → Reach (call now (claiming limit d token unlocked) t)
unfolding call claim_publications
claim_publications-Reach limit d now token unlocked t r past =
    elim (Bool-cases (batch_limit limit && bounded_duration d)) [
      | inl h ↦ rw h (claimed-Reach limit d now token unlocked t (Reach-IsGood r).keyed r past)
      | inr h ↦ rw h r
    ]

-- Every call of a repository method leads from a reachable table to a reachable one, so what holds
-- of the reachable tables holds after any sequence of calls.
pub call-Reach :
    (now : ℕ) (c : Call) (t : Table) → Granted now c t → Reach t → Past now t → Reach (call now c t)
unfolding call confirm_publication apply_outcome advance_publication
call-Reach now (producing id d) t g r past = next now r past (records id d g.0 g.1 g.2)
call-Reach now (claiming limit d token unlocked) t g r past =
    claim_publications-Reach limit d now token unlocked t r past
call-Reach now (confirming c) t g r past =
    on_locked-Reach now c.job_id (confirm_publication_row c now) t (λ j j' x. confirms c x) r past
call-Reach now (failing c e delay) t g r past = fail_publication-Reach now c e delay t r past
call-Reach now (resolving id n w validate token) t g r past =
    resolve_delivery-Reach now id n w validate token t g.0 g.1 r past
call-Reach now (settling id token o) t g r past =
    on_locked-Reach now id (apply_outcome_row token o now) t (λ j j' x. outcomes token o x) r past
call-Reach now (advancing id n before coalesce) t g r past =
    on_locked-Reach now id (advance_publication_row n before coalesce now) t
      (λ j j' x. advances n before coalesce x) r past
call-Reach now (recovering id token o) t g r past = recover_expired-Reach now id token o t r past
call-Reach now (crossing x then_ later) t g r past =
    cross_boundary-Reach now x then_ later t g r past
call-Reach now (deleting id before) t g r past = next now r past (deletes id before)

-- Calls one after the other, each at its time.
unfoldable pub run : List (ℕ × Call) → Table → Table
unfolding call
run [] t = t
run ((now, c) ∷ cs) t = run cs (call now c t)

-- Each call is made with what its caller grants, at a time that no row was written after.
abbrev pub Scheduled : List (ℕ × Call) → Table → Type 0
Scheduled [] t = Unit
Scheduled ((now, c) ∷ cs) t = Granted now c t × Past now t × Scheduled cs (call now c t)

run-Reach : (cs : List (ℕ × Call)) (t : Table) → Scheduled cs t → Reach t → Reach (run cs t)
unfolding run
run-Reach [] t s r = r
run-Reach ((now, c) ∷ cs) t s r = run-Reach cs (call now c t) s.2 (call-Reach now c t s.0 r s.1)

-- After any calls of the methods of the base repository that write and of the crossing of the boundary,
-- the claim of publications included, on an empty table, each made with what its caller grants at a
-- time that no row was written after, every row is sound, which includes the CHECK constraints, and no
-- two rows share an identity or an id.
pub run-IsGood : (cs : List (ℕ × Call)) → Scheduled cs [] → IsGood (run cs [])
run-IsGood cs s = Reach-IsGood (run-Reach cs [] s empty)
