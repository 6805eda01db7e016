-- ===== src/Jobs/Recovery/Retention.antt =====
-- What delete_retained can lose (repositories/background_jobs.py).
use bike_doc.Prelude.{ℕ, String, ◌≡◌, ◌⊎◌, true, false, none, some, arith}
use bike_doc.Jobs.Row.{Job}
use bike_doc.Jobs.Values.{
  JobSnapshot, Definition, DeliveryResolution, ResolutionKind, PublicationClaim,
}
use bike_doc.Jobs.Delivery.{resolve_row}
use bike_doc.Jobs.Publication.{is_publishable, confirm_publication_row}
use bike_doc.Jobs.Recovery.{expired, no_progress, is_candidate, may_delete}

-- A row that may be deleted is inert: whatever delivery of it comes late is settled without a
-- write, as TERMINAL or PROHIBITED, no claim of it can be confirmed, and no scan for publication or
-- recovery selects it.
pub may_delete_inert :
    (before : ℕ) (j : Job) (g : ℕ) (w : String) (validate : JobSnapshot → Definition) (now : ℕ)
    (token : String) (c : PublicationClaim) (r : DeliveryResolution) (j' : Job)
    → may_delete before j ≡ true
    → resolve_row g w validate now token j ≡ some (r, j')
    → (j' ≡ j)
      × ((r.kind ≡ ResolutionKind.terminal) ⊎ (r.kind ≡ ResolutionKind.prohibited))
      × (confirm_publication_row c now j ≡ none)
      × (is_publishable now j ≡ false)
      × (is_candidate expired before now j ≡ false)
      × (is_candidate no_progress before now j ≡ false)
unfolding resolve_row confirm_publication_row is_publishable is_candidate may_delete
may_delete_inert before j g w validate now token c r j' h e =
    (ground arith, ground arith, ground arith, ground arith, ground arith, ground arith)
