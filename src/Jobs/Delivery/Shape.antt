-- ===== src/Jobs/Delivery/Shape.antt =====
-- What resolve_delivery can do to a row.
use bike_doc.Prelude.{ℕ, String, ◌≡◌, true, false, some, false, Bool, arith, ◌⊎◌}
use bike_doc.Jobs.Row.{Job, is_waiting}
use bike_doc.Jobs.Values.{JobSnapshot, Definition, DeliveryResolution, ResolutionKind, from_row}
use bike_doc.Jobs.Delivery.{resolve_row, resolve_running, resolve_defined}

-- The kinds that resolve_defined answers.
abbrev pub is_defined_kind : ResolutionKind → Bool
is_defined_kind ResolutionKind.executable = true
is_defined_kind ResolutionKind.early = true
is_defined_kind ResolutionKind.definition_failure = true
is_defined_kind ResolutionKind.exhausted = true
is_defined_kind _ = false

resolve_running-kept :
    (now : ℕ) (j : Job) (x : DeliveryResolution × Job)
    → resolve_running j now ≡ some x
    → (x.1 ≡ j) × (is_defined_kind x.0.kind ≡ false)
unfolding resolve_running
resolve_running-kept now j x e = ground arith

-- The row is as it was, or it waited and the delivery named its current generation.
pub resolve_row-cases :
    (g : ℕ) (w : String) (validate : JobSnapshot → Definition) (now : ℕ) (token : String) (j : Job)
    (x : DeliveryResolution × Job)
    → resolve_row g w validate now token j ≡ some x
    → ((x.1 ≡ j) × (is_defined_kind x.0.kind ≡ false))
      ⊎ ((is_waiting j.state ≡ true)
          × (g ≡ j.desired_generation)
          × (x ≡ resolve_defined (validate (from_row j)) j now token))
unfolding resolve_row
resolve_row-cases g w validate now token j x e = ground (arith, resolve_running-kept now j x)
