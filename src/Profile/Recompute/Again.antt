-- ===== src/Profile/Recompute/Again.antt =====
-- Computing the derived facts again changes nothing.
use bike_doc.Prelude.{
  String, Bool, true, false, not, ◌&&◌, ◌||◌, some, List, [], ◌∷◌, ◌≡◌, ◌⊎◌, ◌∙◌, refl, Bool-cases,
  inl, inr, ap, or_else, is_none, All, eq_refl,
}
use bike_doc.Profile.Tree.{Json, text, is_null, Path_, json_eq}
use bike_doc.Profile.Claims.{Resolution, Bike, get_resolution, new_resolution}
use bike_doc.Profile.Derived.{
  Derivation, sources_of, with_source, open_conflicts, is_unset_as, resolution_at,
}
use bike_doc.Profile.Derived.Again.{SameElsewhere, updated_elsewhere, updated_rests}
use bike_doc.Profile.Derived.Settled.{rests, update_settled, update-IsUpdated, IsUpdated}
use bike_doc.Profile.Recompute.{
  legacy_summary, brake_fact, brake_facts, summarised, summary_of, both_text, is_rim, brake_summary,
  recompute_brake_summary,
}

-- The resolutions at these paths are the same.
abbrev pub SameAt : List Path_ → Bike → Bike → Type 0
SameAt qs b b' = All (λ q. get_resolution q b'.resolutions ≡ get_resolution q b.resolutions) qs

pub sources_same :
    (ps : List Path_) (b b' : Bike)
    → SameAt ps b b'
    → sources_of ps b'.resolutions ≡ sources_of ps b.resolutions
sources_same [] b b' s = refl
sources_same (p ∷ ps) b b' s =
    ap (λ y. with_source y (sources_of ps b'.resolutions)) s.0
    ∙ ap (with_source (get_resolution p b.resolutions)) (sources_same ps b b' s.1)

pub resolution_same :
    (p : Path_) (b b' : Bike)
    → get_resolution p b'.resolutions ≡ get_resolution p b.resolutions
    → resolution_at p b' ≡ resolution_at p b
resolution_same p b b' e = ap (λ y. or_else y (new_resolution p)) e

pub brake_keeps : Bike → Bool
brake_keeps b =
    (is_none (get_resolution legacy_summary b.resolutions) && not (summarised b).1)
    || is_unset_as (summarised b).1
        (open_conflicts (summarised b).1 (sources_of brake_facts b.resolutions))
        (resolution_at legacy_summary b)

-- Whether the brake summary stays as it is.
pub brake_rests : Derivation → Bike → Bool
unfolding brake_keeps
brake_rests x b =
    rests x legacy_summary (summarised b).0 (summarised b).1
      "derived_from_resolved_brake_components" false (brake_keeps b)
      (sources_of brake_facts b.resolutions) b

summarised_same : (b b' : Bike) → SameAt brake_facts b b' → summarised b' ≡ summarised b
unfolding summarised
summarised_same b b' s = rw (sources_same brake_facts b b' s, s.0, s.1.0, s.1.1.0, s.1.1.1.0) refl

-- No value, or one of the named summaries
abbrev pub IsNamed : Json → Type 0
IsNamed j = (is_null j ≡ true) ⊎ ((s : String) × (j ≡ text s))

brake_summary-IsNamed : (fm fa rm ra : Json) → IsNamed (brake_summary fm fa rm ra)
unfolding brake_summary
brake_summary-IsNamed fm fa rm ra =
    elim (Bool-cases (both_text fm rm "disc" && both_text fa ra "mechanical")) [
      | inl h ↦ inr ("mechanical_disc", rw h refl)
      | inr h ↦ elim (Bool-cases (both_text fm rm "disc" && both_text fa ra "hydraulic")) [
        | inl k ↦ inr ("hydraulic_disc", rw (h, k) refl)
        | inr k ↦ elim (Bool-cases (is_rim fm && is_rim rm)) [
          | inl l ↦ inr ("rim", rw (h, k, l) refl)
          | inr l ↦ inl (rw (h, k, l) refl)
        ]
      ]
    ]

pub summary_of-IsNamed : (d : Bool) (fm fa rm ra : Json) → IsNamed (summary_of d fm fa rm ra).0
summary_of-IsNamed true fm fa rm ra = inl refl
summary_of-IsNamed false fm fa rm ra = brake_summary-IsNamed fm fa rm ra

IsNamed-json_eq : (j : Json) → IsNamed j → is_null j ≡ false → json_eq j j ≡ true
unfolding json_eq
IsNamed-json_eq j (inl h) n = cc
IsNamed-json_eq j (inr (s, e)) n = rw e (eq_refl s)

summary_json :
    (b : Bike) → is_null (summarised b).0 ≡ false → json_eq (summarised b).0 (summarised b).0 ≡ true
unfolding summarised
summary_json b h = IsNamed-json_eq (summarised b).0 (summary_of-IsNamed _ _ _ _ _) h

pub brake_rests_same :
    (x : Derivation) (b b' : Bike)
    → SameAt (legacy_summary ∷ brake_facts) b b'
    → brake_rests x b' ≡ brake_rests x b
unfolding brake_rests brake_keeps
brake_rests_same x b b' s =
    rw (s.0, sources_same brake_facts b b' s.1, summarised_same b b' s.1) refl

pub brake_rested :
    (x : Derivation) (b : Bike)
    → brake_rests x b ≡ true
    → recompute_brake_summary x b ≡ some (false, b)
unfolding recompute_brake_summary brake_rests brake_keeps
brake_rested x b h =
    update_settled x legacy_summary (summarised b).0 (summarised b).1
      "derived_from_resolved_brake_components" false (brake_keeps b)
      (sources_of brake_facts b.resolutions) b h

pub brake_IsUpdated :
    (x : Derivation) (b : Bike) (w : Bool) (b' : Bike)
    → recompute_brake_summary x b ≡ some (w, b')
    → IsUpdated x legacy_summary
        (summarised b).0
        (summarised b).1
        "derived_from_resolved_brake_components"
        false
        (brake_keeps b)
        (sources_of brake_facts b.resolutions)
        b
        w
        b'
unfolding recompute_brake_summary brake_keeps
brake_IsUpdated x b w b' e =
    update-IsUpdated x legacy_summary (summarised b).0 (summarised b).1
      "derived_from_resolved_brake_components" false (brake_keeps b)
      (sources_of brake_facts b.resolutions) b w b' (summary_json b) e

pub brake_elsewhere :
    (x : Derivation) (b : Bike) (w : Bool) (b' : Bike)
    → recompute_brake_summary x b ≡ some (w, b')
    → SameElsewhere legacy_summary b b'
brake_elsewhere x b w b' e =
    updated_elsewhere x legacy_summary (summarised b).0 (summarised b).1
      "derived_from_resolved_brake_components" false (brake_keeps b)
      (sources_of brake_facts b.resolutions) b w b' (brake_IsUpdated x b w b' e)

abbrev facts_elsewhere : (b b' : Bike) → SameElsewhere legacy_summary b b' → SameAt brake_facts b b'
facts_elsewhere b b' s = (
  s (brake_fact "front" "mechanism") refl,
  (
    s (brake_fact "front" "actuation") refl,
    (s (brake_fact "rear" "mechanism") refl, (s (brake_fact "rear" "actuation") refl, tt)),
  ),
)

keeps_unset :
    (b b' : Bike) (s : Resolution)
    → SameAt brake_facts b b'
    → get_resolution legacy_summary b'.resolutions ≡ some s
    → is_unset_as
        (summarised b).1
        (open_conflicts (summarised b).1 (sources_of brake_facts b.resolutions))
        s
      ≡ true
    → brake_keeps b' ≡ true
unfolding brake_keeps
keeps_unset b b' s same e h =
    rw (summarised_same b b' same, sources_same brake_facts b b' same, e) h

brake_rests_at :
    (x : Derivation) (b b' : Bike)
    → SameAt brake_facts b b'
    → brake_rests x b'
      ≡ rests x legacy_summary
          (summarised b).0
          (summarised b).1
          "derived_from_resolved_brake_components"
          false
          (brake_keeps b')
          (sources_of brake_facts b.resolutions)
          b'
unfolding brake_rests brake_keeps
brake_rests_at x b b' same = rw (summarised_same b b' same, sources_same brake_facts b b' same) refl

-- A brake summary that was computed rests.
pub brake_again :
    (x : Derivation) (b : Bike) (w : Bool) (b' : Bike)
    → recompute_brake_summary x b ≡ some (w, b')
    → brake_rests x b' ≡ true
brake_again x b w b' e =
    let same = facts_elsewhere b b' (brake_elsewhere x b w b' e) in
    brake_rests_at x b b' same
    ∙ updated_rests x legacy_summary (summarised b).0 (summarised b).1
        "derived_from_resolved_brake_components" false (brake_keeps b)
        (sources_of brake_facts b.resolutions) b w (brake_keeps b') b' (brake_IsUpdated x b w b' e)
        (λ same_bike. ap brake_keeps same_bike) (λ s here h. keeps_unset b b' s same here h)
