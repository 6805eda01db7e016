-- ===== src/Profile/Projection/Reads.antt =====
-- Reading a projection after with_technical_value.
use bike_doc.Prelude.{
  true, false, not, ◌&&◌, ◌≡◌, some, List, [], ◌∷◌, if◌then◌else◌, arith, refl, ap, ◌∙◌, Bool-cases,
  inl, inr, eq_iff, filter,
}
use bike_doc.Profile.Tree.{Json, Path_, technical_value, set_value, remove_value}
use bike_doc.Profile.Tree.Paths.{
  diverges, technical_value-set_value, technical_value-remove_value, technical_value-prune_at,
}
use bike_doc.Profile.Projection.{
  is_below, absence_dependents, remove_all, clear_component_leaves, started_from, apply_value,
  validate_technical_projection, with_technical_value, clears_component, clears_rotor, rotor_of,
  component_of,
}

diverges_below : (c p q : Path_) → is_below c p ≡ true → diverges c q ≡ true → diverges p q ≡ true
diverges_below [] p q b h = cc
diverges_below (x ∷ c) [] q b h = cc
diverges_below (x ∷ c) (y ∷ p) [] b h = cc
diverges_below (x ∷ c) (y ∷ p) (z ∷ q) b h =
    ground (arith, eq_iff x y, eq_iff x z, eq_iff y z, diverges_below c p q)

-- Every path of the list leaves the path alone.
abbrev AllDiverge : List Path_ → Path_ → Type 0
AllDiverge [] q = Unit
AllDiverge (p ∷ ps) q = (diverges p q ≡ true) × AllDiverge ps q

AllDiverge-filter :
    (c q : Path_) (registry : List Path_)
    → diverges c q ≡ true
    → AllDiverge (filter (is_below c) registry) q
unfolding filter
AllDiverge-filter c q [] h = tt
AllDiverge-filter c q (p ∷ ps) h = elim (Bool-cases (is_below c p)) [
  | inl b ↦ rw b (diverges_below c p q b h, AllDiverge-filter c q ps h)
  | inr b ↦ rw b (AllDiverge-filter c q ps h)
]

read-remove_all :
    (ps : List Path_) (q : Path_) (j : Json)
    → AllDiverge ps q
    → technical_value q (remove_all ps j) ≡ technical_value q j
unfolding remove_all
read-remove_all [] q j a = refl
read-remove_all (p ∷ ps) q j a =
    read-remove_all ps q (remove_value p j) a.1 ∙ technical_value-remove_value p q j a.0

-- Clearing a component is not seen at a path that parts from it, unless it is a dependent one.
pub read-clear_component_leaves :
    (registry : List Path_) (c q : Path_) (j : Json)
    → diverges c q ≡ true
    → AllDiverge (absence_dependents c) q
    → technical_value q (clear_component_leaves registry c j) ≡ technical_value q j
unfolding clear_component_leaves
read-clear_component_leaves registry c q j h a =
    technical_value-prune_at c q _ h
    ∙ read-remove_all (absence_dependents c) q _ a
    ∙ read-remove_all (filter (is_below c) registry) q j (AllDiverge-filter c q registry h)

rotor_dependents : (path q : Path_) → AllDiverge (absence_dependents (rotor_of path)) q
rotor_dependents path q = tt

module _ (registry : List Path_) (path : Path_) (value j : Json) where
  read_component :
      technical_value path (
        if clears_component path value
        then set_value path value
            (clear_component_leaves registry (component_of path) (set_value path value j))
        else set_value path value j)
      ≡ value
  read_component = elim (Bool-cases (clears_component path value)) [
    | inl b ↦ rw b (technical_value-set_value path value _)
    | inr b ↦ rw b (technical_value-set_value path value j)
  ]

  read-apply_value :
      (clears_rotor path value && not (diverges (rotor_of path) path)) ≡ false
      → technical_value path (apply_value registry path value j) ≡ value
  unfolding apply_value
  read-apply_value h = elim (Bool-cases (clears_rotor path value)) [
    | inr b ↦ rw b read_component
    | inl b ↦ rw b (
        read-clear_component_leaves registry (rotor_of path) path _ (ground arith)
          (rotor_dependents path path)
        ∙ read_component)
  ]

-- Write and read: a value that with_technical_value accepts at a path is read there, an absence
-- that clears its component included. A mechanism that clears the rotor of its position must not
-- itself stand on the rotor's path.
pub with_technical_value_reads :
    (registry : List Path_) (projection : Json) (path : Path_) (value next : Json)
    → (clears_rotor path value && not (diverges (rotor_of path) path)) ≡ false
    → with_technical_value registry projection path value ≡ some next
    → technical_value path next ≡ value
unfolding with_technical_value
with_technical_value_reads registry projection path value next h e =
    elim (Bool-cases
      (validate_technical_projection (apply_value registry path value (started_from projection)))) [
        | inl b ↦
            ap (technical_value path) (cc (e, b))
            ∙ read-apply_value registry path value (started_from projection) h
        | inr b ↦ cc (e, b)
      ]
