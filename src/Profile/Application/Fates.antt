-- ===== src/Profile/Application/Fates.antt =====
-- What becomes of a field's resolution in _retire_invalidated_resolutions.
use bike_doc.Prelude.{
  ℕ, Bool, true, false, not, ◌||◌, Option, none, some, List, [], ◌∷◌, ◌≡◌, ◌⊎◌, ◌∙◌, arith, refl,
  Bool-cases, Option-cases, inl, inr, sym, ap,
}
use bike_doc.Profile.Tree.{Json, is_null, Path_}
use bike_doc.Profile.Projection.{path_eq}
use bike_doc.Profile.Claims.{Resolution, Bike, get_resolution, save_resolution}
use bike_doc.Profile.Claims.Found.{
  path_eq_sound, get_resolution_path, get-save_same, get-save_other,
}
use bike_doc.Profile.Application.{retired, is_lost, retire_one, retire_invalidated}

both_false : (x y : Bool) → (x || not y) ≡ false → (x ≡ false) × (y ≡ true)
both_false x y h = ground arith

module _ (now : ℕ) (previous next : Json) (retained q : Path_) (r : Resolution) where
  -- The resolution is as it was, or reset since its field lost its value.
  abbrev pub Fate : Bike → Type 0
  Fate b =
      (get_resolution q b.resolutions ≡ some r)
      ⊎ ((get_resolution q b.resolutions ≡ some (retired now r))
          × (is_lost previous next q ≡ true)
          × (path_eq q retained ≡ false))

  pub retire_found :
      (p : Path_) (s : Resolution) (b : Bike)
      → get_resolution p b.resolutions ≡ some s
      → (path_eq p retained || not (is_lost previous next p)) ≡ false
      → is_null s.current_value ≡ false
      → (retire_one now previous next retained p b).resolutions
        ≡ save_resolution (retired now s) b.resolutions
  unfolding retire_one
  retire_found p s b e h n = rw h (rw e (rw n refl))

  pub retire_kept :
      (p : Path_) (b : Bike)
      → ((retire_one now previous next retained p b).resolutions ≡ b.resolutions)
        ⊎ ((s : Resolution) × (get_resolution p b.resolutions ≡ some s)
            × ((path_eq p retained || not (is_lost previous next p)) ≡ false)
            × (is_null s.current_value ≡ false))
  unfolding retire_one
  retire_kept p b = elim (Bool-cases (path_eq p retained || not (is_lost previous next p))) [
    | inl h ↦ inl (rw h refl)
    | inr h ↦ elim (Option-cases (get_resolution p b.resolutions)) [
      | inl e ↦ inl (rw h (rw e refl))
      | inr (s, e) ↦ elim (Bool-cases (is_null s.current_value)) [
        | inl n ↦ inl (rw h (rw e (rw n refl)))
        | inr n ↦ inr (s, e, h, n)
      ]
    ]
  ]

  pub retire_same :
      (p : Path_) (s t : Resolution) (b : Bike)
      → get_resolution p b.resolutions ≡ some s
      → get_resolution q b.resolutions ≡ some t
      → path_eq p q ≡ true
      → get_resolution q (save_resolution (retired now s) b.resolutions) ≡ some (retired now t)
  retire_same p s t b e f h =
      let same : p ≡ q = path_eq_sound p q h in
      let at : s.field_path ≡ q = get_resolution_path p b.resolutions s e ∙ same in
      let one : ◌≡◌ {A = Option Resolution} (some s) (some t) =
        sym e ∙ ap (λ x. get_resolution x b.resolutions) same ∙ f in
      ap (λ x. get_resolution x (save_resolution (retired now s) b.resolutions)) (sym at)
      ∙ get-save_same (retired now s) b.resolutions
      ∙ ap (λ (x : Option Resolution). elim x [ none ↦ none | some y ↦ some (retired now y) ]) one

  retire_other :
      (p : Path_) (s t : Resolution) (b : Bike)
      → get_resolution p b.resolutions ≡ some s
      → get_resolution q b.resolutions ≡ some t
      → path_eq p q ≡ false
      → get_resolution q (save_resolution (retired now s) b.resolutions) ≡ some t
  retire_other p s t b e f h =
      get-save_other (retired now s) q b.resolutions
        (ap (λ x. path_eq x q) (get_resolution_path p b.resolutions s e) ∙ h)
      ∙ f

  lost_at :
      (p : Path_)
      → (path_eq p retained || not (is_lost previous next p)) ≡ false
      → path_eq p q ≡ true
      → is_lost previous next q ≡ true
  lost_at p h at =
      let same : p ≡ q = path_eq_sound p q at in
      ap (is_lost previous next) (sym same)
      ∙ (both_false (path_eq p retained) (is_lost previous next p) h).1

  kept_apart :
      (p : Path_)
      → (path_eq p retained || not (is_lost previous next p)) ≡ false
      → path_eq p q ≡ true
      → path_eq q retained ≡ false
  kept_apart p h at =
      ap (λ x. path_eq x retained) (sym (path_eq_sound p q at))
      ∙ (both_false (path_eq p retained) (is_lost previous next p) h).0

  value_at :
      (p : Path_) (s t : Resolution) (b : Bike)
      → get_resolution p b.resolutions ≡ some s
      → get_resolution q b.resolutions ≡ some t
      → path_eq p q ≡ true
      → is_null t.current_value ≡ is_null s.current_value
  value_at p s t b e f at =
      ap (λ (x : Option Resolution). elim x [ none ↦ true | some y ↦ is_null y.current_value ])
        (sym f ∙ ap (λ x. get_resolution x b.resolutions) (sym (path_eq_sound p q at)) ∙ e)

  -- One round leaves the resolution of the field alone, or resets it.
  pub retire_step :
      (p : Path_) (t : Resolution) (b : Bike)
      → get_resolution q b.resolutions ≡ some t
      → (get_resolution q (retire_one now previous next retained p b).resolutions ≡ some t)
        ⊎ ((get_resolution q (retire_one now previous next retained p b).resolutions
              ≡ some (retired now t))
            × (is_lost previous next q ≡ true)
            × (path_eq q retained ≡ false)
            × (is_null t.current_value ≡ false))
  retire_step p t b f = elim (retire_kept p b) [
    | inl same ↦ inl (ap (λ x. get_resolution q x) same ∙ f)
    | inr (s, e, h, n) ↦
        let saved = retire_found p s b e h n in
        elim (Bool-cases (path_eq p q)) [
          | inr other ↦ inl (ap (λ x. get_resolution q x) saved ∙ retire_other p s t b e f other)
          | inl at ↦ inr (
            ap (λ x. get_resolution q x) saved ∙ retire_same p s t b e f at,
            lost_at p h at,
            kept_apart p h at,
            value_at p s t b e f at ∙ n,
          )
        ]
  ]

  retire_one-Fate :
      (p : Path_) (b : Bike) → Fate b → Fate (retire_one now previous next retained p b)
  retire_one-Fate p b (inl f) = elim (retire_step p r b f) [
    | inl e ↦ inl e
    | inr (e, l, d, _) ↦ inr (e, l, d)
  ]
  retire_one-Fate p b (inr (f, l, d)) = elim (retire_step p (retired now r) b f) [
    | inl e ↦ inr (e, l, d)
    | inr (_, _, _, n) ↦ cc n
  ]

  pub retire_invalidated-Fate :
      (ps : List Path_) (b : Bike)
      → Fate b
      → Fate (retire_invalidated now previous next retained ps b)
  unfolding retire_invalidated
  retire_invalidated-Fate [] b f = f
  retire_invalidated-Fate (p ∷ ps) b f =
      retire_invalidated-Fate ps (retire_one now previous next retained p b) (retire_one-Fate p b f)
