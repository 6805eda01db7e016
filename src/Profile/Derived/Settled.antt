-- ===== src/Profile/Derived/Settled.antt =====
-- A derived field that has been computed is settled: computing it again changes nothing.
use bike_doc.Prelude.{
  ◌++◌, String, Bool, true, false, ◌&&◌, ◌||◌, Option, none, some, List, [], ◌∷◌, ◌≡◌, ◌⊎◌, ◌∙◌,
  arith, refl, Bool-cases, inl, inr, if◌then◌else◌, sym, ap, subst, or_else, eq_refl,
}
use bike_doc.Profile.Tree.{Json, null, is_null, Path_, json_eq}
use bike_doc.Profile.Claims.{Resolution, Bike}
use bike_doc.Profile.Application.{supersede_current_claim}
use bike_doc.Profile.Projection.Keeps.{null_of}
use bike_doc.Profile.Derived.{
  Derivation, is_empty, is_resolved, is_unset_as, unset, unset_derived, set_derived,
  derived_resolution, open_conflicts, write_derived, derived_claim, latest_observed, update_derived,
  resolution_at, ids_eq, state_eq, open_state,
}
use bike_doc.Profile.Derived.Updates.{IsWritten, resolution_at_path, write_derived-IsWritten}

ids_eq_refl : (xs : List String) → ids_eq xs xs ≡ true
ids_eq_refl [] = refl
ids_eq_refl (x ∷ xs) = rw (eq_refl x, ids_eq_refl xs) refl

unset_settled :
    (dispute : Bool) (ids : List String)
    → (state_eq (open_state dispute) (open_state dispute) && ids_eq ids ids) ≡ true
unset_settled true ids = ids_eq_refl ids
unset_settled false ids = ids_eq_refl ids

-- The resolution says what was found.
abbrev pub is_settled : Json → Bool → List String → Resolution → Bool
is_settled value dispute conflicts r =
    if is_null value
    then is_unset_as dispute conflicts r
    else json_eq r.current_value value && is_resolved r.resolution_state

module _ (x : Derivation) (path : Path_) (value : Json) (dispute : Bool) (reason : String)
    (forgets keeps : Bool) (sources : List Resolution) (b : Bike) where
  update_empty :
      is_empty sources ≡ true
      → update_derived x path (value, dispute) reason forgets keeps sources b ≡ some (false, b)
  unfolding update_derived
  update_empty h = rw (h, update_derived) refl

  update_set :
      is_empty sources ≡ false
      → is_null value ≡ false
      → update_derived x path (value, dispute) reason forgets keeps sources b
        ≡ set_derived x path value reason sources (resolution_at path b) b
  unfolding update_derived
  update_set h n = rw (h, update_derived) (rw n refl)

  update_keeps :
      is_empty sources ≡ false
      → is_null value ≡ true
      → keeps ≡ true
      → update_derived x path (value, dispute) reason forgets keeps sources b ≡ some (false, b)
  unfolding update_derived
  update_keeps h n k = rw (h, update_derived) (rw n (rw k refl))

  update_unset :
      is_empty sources ≡ false
      → is_null value ≡ true
      → keeps ≡ false
      → update_derived x path (value, dispute) reason forgets keeps sources b
        ≡ unset_derived x path dispute
            (open_conflicts dispute sources)
            forgets
            (resolution_at path b)
            b
  unfolding update_derived
  update_unset h n k = rw (h, update_derived) (rw n (rw k refl))

  set_known :
      (json_eq (resolution_at path b).current_value value
          && is_resolved (resolution_at path b).resolution_state)
        ≡ true
      → set_derived x path value reason sources (resolution_at path b) b ≡ some (false, b)
  unfolding set_derived
  set_known h = rw (h, set_derived) refl

  -- Whether the computation leaves the profile as it is
  abbrev pub rests : Bool
  rests =
      is_empty sources
      || (if is_null value
          then keeps
          else json_eq (resolution_at path b).current_value value
            && is_resolved (resolution_at path b).resolution_state)

  -- What the computation leaves behind, if it changes the profile
  abbrev pub IsUpdated : Bool → Bike → Type 0
  IsUpdated w b' =
      ((w ≡ false) × (b' ≡ b) × (rests ≡ true))
      ⊎ ((s : Resolution) × (w ≡ true)
          × IsWritten x.registry path value s b b'
          × (is_settled value dispute (open_conflicts dispute sources) s ≡ true)
          × (is_empty sources ≡ false))

  stays :
      (w : Bool) (b' : Bike)
      → rests ≡ true
      → ◌≡◌ {A = Option (Bool × Bike)} (some (false, b)) (some (w, b'))
      → (w ≡ false) × (b' ≡ b) × (rests ≡ true)
  stays w b' h e = (
    ap (λ (y : Option (Bool × Bike)). elim y [ none ↦ w | some z ↦ z.0 ]) (sym e),
    ap (λ (y : Option (Bool × Bike)). elim y [ none ↦ b | some z ↦ z.1 ]) (sym e),
    h,
  )

  -- A settled field stays.
  pub update_settled :
      rests ≡ true
      → update_derived x path (value, dispute) reason forgets keeps sources b ≡ some (false, b)
  update_settled h = elim (Bool-cases (is_empty sources)) [
    | inl e ↦ update_empty e
    | inr e ↦ elim (Bool-cases (is_null value)) [
      | inl n ↦ update_keeps e n (ground (arith, e, n, h))
      | inr n ↦ update_set e n ∙ set_known (ground (arith, e, n, h))
    ]
  ]

  set_new :
      (json_eq (resolution_at path b).current_value value
          && is_resolved (resolution_at path b).resolution_state)
        ≡ false
      → set_derived x path value reason sources (resolution_at path b) b
        ≡ write_derived x.registry path value
            (derived_resolution x path value
              (or_else (latest_observed none sources) x.now)
              (resolution_at path b))
            (supersede_current_claim (resolution_at path b) b.claims
              ++ derived_claim x path value reason (or_else (latest_observed none sources) x.now)
                ∷ [])
            b
  unfolding set_derived
  set_new h = rw (h, set_derived) refl

  set-IsUpdated :
      (w : Bool) (b' : Bike)
      → is_empty sources ≡ false
      → is_null value ≡ false
      → json_eq value value ≡ true
      → set_derived x path value reason sources (resolution_at path b) b ≡ some (w, b')
      → IsUpdated w b'
  set-IsUpdated w b' h n same e =
      elim (Bool-cases (
        json_eq (resolution_at path b).current_value value
        && is_resolved (resolution_at path b).resolution_state)) [
          | inl k ↦ inl (stays w b' (rw (h, n, k) refl) (sym (set_known k) ∙ e))
          | inr k ↦
              let (done, v) =
                write_derived-IsWritten x.registry path value _ _ b b' w (resolution_at_path path b)
                  refl (sym (set_new k) ∙ e) in
              inr (_, done, v, rw (n, same) refl, h)
        ]

  unset-IsUpdated :
      (w : Bool) (b' : Bike)
      → is_empty sources ≡ false
      → value ≡ null
      → unset_derived x path dispute
          (open_conflicts dispute sources)
          forgets
          (resolution_at path b)
          b
        ≡ some (w, b')
      → IsUpdated w b'
  unfolding unset_derived
  unset-IsUpdated w b' h n e =
      let (done, v) =
        write_derived-IsWritten x.registry path null _ _ b b' w (resolution_at_path path b) refl
          e in
      inr (
        unset x dispute (open_conflicts dispute sources) forgets (resolution_at path b),
        done,
        subst
            (λ y.
              IsWritten x.registry path y
                (unset x dispute (open_conflicts dispute sources) forgets (resolution_at path b)) b
                b')
            (sym n) v,
        rw n (unset_settled dispute (open_conflicts dispute sources)),
        h,
      )

  -- The computation leaves the profile as it is, or writes the field so that it is settled.
  pub update-IsUpdated :
      (w : Bool) (b' : Bike)
      → (is_null value ≡ false → json_eq value value ≡ true)
      → update_derived x path (value, dispute) reason forgets keeps sources b ≡ some (w, b')
      → IsUpdated w b'
  update-IsUpdated w b' same e = elim (Bool-cases (is_empty sources)) [
    | inl h ↦ inl (stays w b' (rw h refl) (sym (update_empty h) ∙ e))
    | inr h ↦ elim (Bool-cases (is_null value)) [
      | inr n ↦ set-IsUpdated w b' h n (same n) (sym (update_set h n) ∙ e)
      | inl n ↦ elim (Bool-cases keeps) [
        | inl k ↦ inl (stays w b' (rw (h, n, k) refl) (sym (update_keeps h n k) ∙ e))
        | inr k ↦ unset-IsUpdated w b' h (null_of value n) (sym (update_unset h n k) ∙ e)
      ]
    ]
  ]
