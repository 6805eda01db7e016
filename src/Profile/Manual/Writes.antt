-- ===== src/Profile/Manual/Writes.antt =====
-- What one manual claim does to a profile.
use bike_doc.Prelude.{
  ℕ, Bool, true, false, ◌&&◌, Option, none, some, List, ◌≡◌, ◌⊎◌, ◌∙◌, arith, refl, ◌++◌, [], ◌∷◌,
  Bool-cases, Option-cases, inl, inr, if◌then◌else◌, sym, ap, subst,
}
use bike_doc.Profile.Tree.{Json, null, json_eq}
use bike_doc.Profile.Projection.{with_technical_value}
use bike_doc.Profile.Claims.{Claim, Resolution, Bike, save_resolution}
use bike_doc.Profile.Derived.{Derivation, is_resolved, resolution_at}
use bike_doc.Profile.Derived.Updates.{IsWritten, resolution_at_path}
use bike_doc.Profile.Resolver.Cases.{SameFact}
use bike_doc.Profile.Manual.{
  NewClaim, is_clear, is_cleared, supersede_manually, reject_current_model_claim,
  cleared_resolution, edited_resolution, support_claim, write_claim, write_manual,
  apply_manual_claim,
}

-- The claims of clears have no value.
abbrev pub IsProper : NewClaim → Type 0
IsProper c = is_clear c ≡ true → c.value ≡ null

-- The field already is what the claim says of it.
abbrev pub is_known : NewClaim → Resolution → Bool
is_known c r =
    if is_clear c
    then is_cleared r.resolution_state
    else json_eq r.current_value c.value && is_resolved r.resolution_state

-- The resolution that a manual claim writes
abbrev pub manual_resolution : ℕ → NewClaim → Resolution → Resolution
manual_resolution at c r =
    if is_clear c then cleared_resolution at c r else edited_resolution at c r

-- The projection stays, and the resolution keeps its value, its state, its source and its claim.
abbrev pub IsHeld : Resolution → Bike → Bike → Type 0
IsHeld r b b' =
    (b'.technical_profile ≡ b.technical_profile)
    × ((b'.resolutions ≡ b.resolutions)
        ⊎ ((s : Resolution) × SameFact r s
            × (s.resolution_state ≡ r.resolution_state)
            × (b'.resolutions ≡ save_resolution s b.resolutions)))

abbrev mark_for : NewClaim → Resolution → List Claim → List Claim
mark_for c r =
    if is_clear c
    then supersede_manually r
    else if c.explicit_correction
    then reject_current_model_claim r
    else supersede_manually r

module _ (at : ℕ) (c : NewClaim) (candidate : Json) (b : Bike) where
  abbrev here : Resolution
  here = resolution_at c.field_path b

  clear_known :
      is_clear c ≡ true
      → is_cleared here.resolution_state ≡ true
      → write_manual at c candidate b
        ≡ (false, support_claim at c "matches_existing_manual_clear" none b)
  unfolding write_manual
  clear_known k h = rw (k, write_manual) (rw h refl)

  clear_new :
      is_clear c ≡ true
      → is_cleared here.resolution_state ≡ false
      → write_manual at c candidate b ≡ (
        true,
        write_claim at c (supersede_manually here) (cleared_resolution at c here) candidate b,
      )
  unfolding write_manual
  clear_new k h = rw (k, write_manual) (rw h refl)

  edit_known :
      is_clear c ≡ false
      → (json_eq here.current_value c.value && is_resolved here.resolution_state) ≡ true
      → write_manual at c candidate b ≡ (
        false,
        support_claim at c "matches_current_manual_resolution"
            (some (record here { supporting_claim_ids = here.supporting_claim_ids ++ c.id ∷ [] }))
            b,
      )
  unfolding write_manual
  edit_known k h = rw (k, write_manual) (rw h refl)

  edit_new :
      is_clear c ≡ false
      → (json_eq here.current_value c.value && is_resolved here.resolution_state) ≡ false
      → write_manual at c candidate b ≡ (
        true,
        write_claim at c
            (if c.explicit_correction
              then reject_current_model_claim here
              else supersede_manually here)
            (edited_resolution at c here)
            candidate
            b,
      )
  unfolding write_manual
  edit_new k h = rw (k, write_manual) (rw h refl)

  pub write_known :
      is_known c here ≡ true
      → (b' : Bike) × (write_manual at c candidate b ≡ (false, b')) × IsHeld here b b'
  unfolding support_claim
  write_known h = elim (Bool-cases (is_clear c)) [
    | inl k ↦ (_, clear_known k (ground (arith, h, k)), (refl, inl refl))
    | inr k ↦ (
      _,
      edit_known k (ground (arith, h, k)),
      (refl, inr (_, (refl, refl, refl, refl), refl, refl)),
    )
  ]

  write_new :
      is_known c here ≡ false
      → write_manual at c candidate b
        ≡ (true, write_claim at c (mark_for c here) (manual_resolution at c here) candidate b)
  write_new h = elim (Bool-cases (is_clear c)) [
    | inl k ↦ clear_new k (ground (arith, h, k)) ∙ rw k refl
    | inr k ↦ edit_new k (ground (arith, h, k)) ∙ rw k refl
  ]

resolution_value :
    (at : ℕ) (c : NewClaim) (r : Resolution)
    → IsProper c
    → (manual_resolution at c r).current_value ≡ c.value
resolution_value at c r proper = elim (Bool-cases (is_clear c)) [
  | inl k ↦ rw (k, proper k) refl
  | inr k ↦ rw k refl
]

resolution_path :
    (at : ℕ) (c : NewClaim) (r : Resolution) → (manual_resolution at c r).field_path ≡ r.field_path
resolution_path at c r = elim (Bool-cases (is_clear c)) [ inl k ↦ rw k refl | inr k ↦ rw k refl ]

some_of : {y z : Bool × Bike} → ◌≡◌ {A = Option (Bool × Bike)} (some y) (some z) → y ≡ z
some_of {y} {z} e = ap (λ (o : Option (Bool × Bike)). elim o [ none ↦ y | some t ↦ t ]) e

module _ (x : Derivation) (c : NewClaim) (b b' : Bike) (w : Bool) where
  -- The two outcomes of a manual claim
  abbrev pub Outcome : Type 0
  Outcome =
      ((w ≡ false)
        × (is_known c (resolution_at c.field_path b) ≡ true)
        × IsHeld (resolution_at c.field_path b) b b')
      ⊎ ((w ≡ true)
          × (is_known c (resolution_at c.field_path b) ≡ false)
          × IsWritten x.registry c.field_path c.value
              (manual_resolution x.now c (resolution_at c.field_path b)) b b')

  claim_refused :
      with_technical_value x.registry b.technical_profile c.field_path c.value ≡ none
      → apply_manual_claim x c b ≡ none
  unfolding apply_manual_claim
  claim_refused e = rw (e, apply_manual_claim) refl

  pub claim_accepted :
      (next : Json)
      → with_technical_value x.registry b.technical_profile c.field_path c.value ≡ some next
      → apply_manual_claim x c b ≡ some (write_manual x.now c next b)
  unfolding apply_manual_claim
  claim_accepted next e = rw (e, apply_manual_claim) refl

  known_outcome :
      (next : Json)
      → is_known c (resolution_at c.field_path b) ≡ true
      → write_manual x.now c next b ≡ (w, b')
      → Outcome
  known_outcome next h e =
      let (b₁, f, held) = write_known x.now c next b h in
      let same = sym f ∙ e in
      inl (
        sym (ap (λ (y : Bool × Bike). y.0) same),
        h,
        subst (λ y. IsHeld (resolution_at c.field_path b) b y) (ap (λ (y : Bool × Bike). y.1) same)
            held,
      )

  new_outcome :
      (next : Json)
      → IsProper c
      → with_technical_value x.registry b.technical_profile c.field_path c.value ≡ some next
      → is_known c (resolution_at c.field_path b) ≡ false
      → write_manual x.now c next b ≡ (w, b')
      → Outcome
  unfolding write_claim
  new_outcome next proper n h e =
      let same = sym (write_new x.now c next b h) ∙ e in
      inr (
        sym (ap (λ (y : Bool × Bike). y.0) same),
        h,
        record {
          next = next;
          projected = n;
          profile = sym (ap (λ (y : Bool × Bike). y.1.technical_profile) same);
          resolutions = sym (ap (λ (y : Bool × Bike). y.1.resolutions) same);
          at =
              resolution_path x.now c (resolution_at c.field_path b)
              ∙ resolution_at_path c.field_path b;
          value_at = resolution_value x.now c (resolution_at c.field_path b) proper;
        },
      )

  -- A manual claim either finds what it says, or writes it.
  pub manual_outcome : IsProper c → apply_manual_claim x c b ≡ some (w, b') → Outcome
  manual_outcome proper e =
      elim (Option-cases
        (with_technical_value x.registry b.technical_profile c.field_path c.value)) [
          | inl n ↦ cc (e, claim_refused n)
          | inr (next, n) ↦
              let done : write_manual x.now c next b ≡ (w, b') =
                some_of (sym (claim_accepted next n) ∙ e) in
              elim (Bool-cases (is_known c (resolution_at c.field_path b))) [
                | inl h ↦ known_outcome next h done
                | inr h ↦ new_outcome next proper n h done
              ]
        ]
