-- ===== src/Profile/Derived/Updates.antt =====
-- What the two branches of a derived field leave behind.
use bike_doc.Prelude.{
  Bool, true, false, Option, none, some, List, ◌≡◌, ◌∙◌, refl, Option-cases, inl, inr, sym, ap,
  subst, or_else,
}
use bike_doc.Profile.Tree.{Json, Path_}
use bike_doc.Profile.Projection.{path_eq, with_technical_value}
use bike_doc.Profile.Claims.{
  Claim, Resolution, Bike, get_resolution, save_resolution, new_resolution,
}
use bike_doc.Profile.Claims.Found.{get_resolution_path, get-save_same, get-save_other}
use bike_doc.Profile.Derived.{write_derived, resolution_at}

-- One derived field is written: its resolution is this one, and the projection has this value there.
pub record IsWritten (registry : List Path_) (path : Path_) (value : Json) (s : Resolution)
    (b b' : Bike) : Type 0 where
  pub next : Json
  pub projected : with_technical_value registry b.technical_profile path value ≡ some next
  pub profile : b'.technical_profile ≡ next
  pub resolutions : b'.resolutions ≡ save_resolution s b.resolutions
  pub at : s.field_path ≡ path
  pub value_at : s.current_value ≡ value

pub resolution_at_path : (path : Path_) (b : Bike) → (resolution_at path b).field_path ≡ path
resolution_at_path path b = elim (Option-cases (get_resolution path b.resolutions)) [
  | inl e ↦ ap (λ y. (or_else y (new_resolution path)).field_path) e
  | inr (s, e) ↦
      ap (λ y. (or_else y (new_resolution path)).field_path) e
      ∙ get_resolution_path path b.resolutions s e
]

-- The resolution of the field, after it is written
pub written_here :
    {registry : List Path_} (path : Path_) (value : Json) (s : Resolution) (b b' : Bike)
    → IsWritten registry path value s b b'
    → get_resolution path b'.resolutions ≡ some s
written_here path value s b b' v =
    ap (λ y. get_resolution path y) v.resolutions
    ∙ subst (λ y. get_resolution y (save_resolution s b.resolutions) ≡ some s) v.at
        (get-save_same s b.resolutions)

pub written_elsewhere :
    {registry : List Path_} (path : Path_) (value : Json) (s : Resolution) (q : Path_) (b b' : Bike)
    → IsWritten registry path value s b b'
    → path_eq path q ≡ false
    → get_resolution q b'.resolutions ≡ get_resolution q b.resolutions
written_elsewhere path value s q b b' v h =
    ap (λ y. get_resolution q y) v.resolutions
    ∙ get-save_other s q b.resolutions (ap (λ y. path_eq y q) v.at ∙ h)

module _ (registry : List Path_) (path : Path_) (value : Json) (s : Resolution)
    (claims : List Claim) (b b' : Bike) (w : Bool) (at : s.field_path ≡ path)
    (value_at : s.current_value ≡ value) where
  write_refused :
      with_technical_value registry b.technical_profile path value ≡ none
      → write_derived registry path value s claims b ≡ none
  unfolding write_derived
  write_refused e = rw (e, write_derived) refl

  write_found :
      (next : Json)
      → with_technical_value registry b.technical_profile path value ≡ some next
      → write_derived registry path value s claims b
        ≡ some (
          true,
          record {
            technical_profile = next;
            resolutions = save_resolution s b.resolutions;
            claims = claims;
          },
        )
  unfolding write_derived
  write_found next e = rw (e, write_derived) refl

  pub write_derived-IsWritten :
      write_derived registry path value s claims b ≡ some (w, b')
      → (w ≡ true) × IsWritten registry path value s b b'
  write_derived-IsWritten e =
      elim (Option-cases (with_technical_value registry b.technical_profile path value)) [
        | inl n ↦ cc (e, write_refused n)
        | inr (next, n) ↦
            let done = sym (write_found next n) ∙ e in
            (
              ap (λ (y : Option (Bool × Bike)). elim y [ none ↦ w | some z ↦ z.0 ]) (sym done),
              record {
                next = next;
                projected = n;
                profile =
                    ap
                      (λ (y : Option (Bool × Bike)). elim y [
                        | none ↦ b.technical_profile
                        | some z ↦ z.1.technical_profile
                      ])
                      (sym done);
                resolutions =
                    ap
                      (λ (y : Option (Bool × Bike)). elim y [
                        | none ↦ b.resolutions
                        | some z ↦ z.1.resolutions
                      ])
                      (sym done);
                at = at;
                value_at = value_at;
              },
            )
      ]
