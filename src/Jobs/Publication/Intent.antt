-- ===== src/Jobs/Publication/Intent.antt =====
-- The notification intent of a job: desired_generation above confirmed_generation.
use bike_doc.Prelude.{
  ℕ, ◌+◌, ◌≤◌, ◌<◌, String, Bool, ◌≡◌, ◌≢◌, true, false, none, some, arith, eq_refl, eq_iff, Option,
  refl, max,
}
use bike_doc.Jobs.Row.{Job, TransportError}
use bike_doc.Jobs.Values.{PublicationClaim}
use bike_doc.Jobs.Validity.{IsSound}
use bike_doc.Jobs.Publication.{
  is_publishable, claim_row, confirm_publication_row, fail_publication_row, advance_publication_row,
}

-- Where a sound row is advanced after a publisher claimed it, for a generation that was current then,
-- an accepted confirmation of that claim leaves the advanced intent open, and the job publishable at
-- once.
pub advance_survives_confirm :
    (claim : PublicationClaim) (g : ℕ) (before : Option ℕ) (coalesce : Bool) (now later : ℕ)
    (j j' j'' : Job)
    → IsSound j
    → claim.generation ≤ j.desired_generation
    → now ≤ later
    → advance_publication_row g before coalesce now j ≡ some j'
    → confirm_publication_row claim later j' ≡ some j''
    → (j''.confirmed_generation < j''.desired_generation) × (is_publishable later j'' ≡ true)
unfolding advance_publication_row confirm_publication_row is_publishable
advance_survives_confirm claim g before coalesce now later j j' j'' v le t e f = ground arith

-- A claimed row is claimed by no other scan until the claim runs out.
pub claim_row_exclusive :
    (d now later : ℕ) (token : String) (j : Job)
    → later < now + d
    → is_publishable later (claim_row d now token j).1 ≡ false
unfolding is_publishable claim_row
claim_row_exclusive d now later token j h = ground arith

-- A claim of a sound row that is confirmed before it runs out closes the intent of its generation, and is spent: neither
-- it nor its failure is accepted again.
pub claim_confirm_closes :
    (d now later last : ℕ) (token : String) (r : TransportError) (retry : ℕ) (j : Job)
    → IsSound j
    → later < now + d
    → (j' : Job) × (confirm_publication_row
          (claim_row d now token j).0
          later
          (claim_row d now token j).1
        ≡ some j')
      × (j'.confirmed_generation ≡ j'.desired_generation)
      × (is_publishable last j' ≡ false)
      × (confirm_publication_row (claim_row d now token j).0 last j' ≡ none)
      × (fail_publication_row (claim_row d now token j).0 r retry last j' ≡ none)
unfolding is_publishable claim_row confirm_publication_row fail_publication_row
claim_confirm_closes d now later last token r retry j v h = (
  record (claim_row d now token j).1 {
    publication_claim_token = none;
    publication_claim_generation = none;
    publication_claim_until = none;
    confirmed_generation = max j.confirmed_generation j.desired_generation;
    publication_confirmed_at = some later;
    transport_error = none;
    updated_at = later;
  },
  ground (arith, eq_refl token),
  ground arith,
  ground arith,
  refl,
  refl,
)

-- A claim that ran out and was taken over by another token confirms and fails nothing.
pub claim_row_fences :
    (d d' now now' later : ℕ) (old token : String) (r : TransportError) (retry : ℕ) (j j' : Job)
    → old ≢ token
    → (confirm_publication_row (claim_row d now old j).0 later (claim_row d' now' token j').1
        ≡ none)
      × (fail_publication_row (claim_row d now old j).0 r retry later (claim_row d' now' token j').1
          ≡ none)
unfolding claim_row confirm_publication_row fail_publication_row
claim_row_fences d d' now now' later old token r retry j j' ne =
    (ground (arith, eq_iff token old), ground (arith, eq_iff token old))
