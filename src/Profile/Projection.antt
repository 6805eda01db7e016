-- ===== src/Profile/Projection.antt =====
-- with_technical_value and its invariants (services/profile_resolution.py). `registry` is the list of
-- the canonical field paths (services/profile_registry.py), whatever they are.
pub mod Reads
pub mod Keeps
pub mod Plain
use bike_doc.Prelude.{
  ℕ, String, Bool, true, false, not, ◌&&◌, ◌||◌, Option, none, some, List, [], ◌∷◌, ◌++◌, str_eq,
  if◌then◌else◌, map, filter,
}
use bike_doc.Profile.Tree.{
  Json, null, text, dict, Fields, nil, cons, Path_, is_dict, is_null, is_text, get_field, has_field,
  set_field, technical_value, set_value, remove_value, prune_at, has_resolved_specification,
}

-- empty_technical_projection
unfoldable pub empty_technical_projection : Fields
empty_technical_projection = cons "schema_version" (text "bike_profile.v2") (
    cons "identity" (dict nil) (
      cons "frame" (dict nil) (
        cons "brakes" (dict (cons "front" (dict nil) (cons "rear" (dict nil) nil))) (
          cons "drivetrain" (dict nil) (
            cons "rolling_system" (dict (cons "front" (dict nil) (cons "rear" (dict nil) nil))) (
              cons "suspension" (dict nil) (
                cons "cockpit" (dict nil)
                  (cons "seating" (dict nil) (cons "electric_assist" (dict nil) nil)))))))))

-- setdefault for each default
unfoldable pub set_defaults : Fields → Fields → Fields
unfolding set_field
set_defaults nil f = f
set_defaults (cons k v d) f = set_defaults d (if has_field k f then f else set_field k v f)

-- The copy that with_technical_value starts from.
unfoldable pub started_from : Json → Json
unfolding empty_technical_projection set_defaults
started_from (dict (cons k v f)) = dict (set_defaults empty_technical_projection (cons k v f))
started_from _ = dict empty_technical_projection

abbrev pub path_eq : Path_ → Path_ → Bool
path_eq [] [] = true
path_eq (p ∷ ps) (q ∷ qs) = str_eq p q && path_eq ps qs
path_eq _ _ = false

-- field_path.startswith(f"{component_path}.")
abbrev pub is_below : Path_ → Path_ → Bool
is_below [] [] = false
is_below [] (q ∷ qs) = true
is_below (p ∷ ps) [] = false
is_below (p ∷ ps) (q ∷ qs) = str_eq p q && is_below ps qs

-- field_path.endswith(f".{name}")
abbrev pub ends_in : String → Path_ → Bool
ends_in name [] = false
ends_in name (p ∷ []) = false
ends_in name (p ∷ q ∷ []) = str_eq q name
ends_in name (p ∷ q ∷ r ∷ ps) = ends_in name (q ∷ r ∷ ps)

-- The path without its last part
abbrev pub component_of : Path_ → Path_
component_of [] = []
component_of (p ∷ []) = []
component_of (p ∷ q ∷ ps) = p ∷ component_of (q ∷ ps)

-- parts[1]
abbrev pub position_of : Path_ → String
position_of (p ∷ q ∷ ps) = q
position_of _ = ""

-- COMPONENT_ABSENCE_DEPENDENT_FIELD_PATHS
abbrev pub absence_dependents : Path_ → List Path_
absence_dependents component =
    if path_eq component ("suspension" ∷ "rear_shock" ∷ [])
    then ("suspension" ∷ "rear_travel_mm" ∷ []) ∷ []
    else []

unfoldable pub remove_all : List Path_ → Json → Json
unfolding remove_value
remove_all [] j = j
remove_all (p ∷ ps) j = remove_all ps (remove_value p j)

-- _clear_component_leaves
unfoldable pub clear_component_leaves : List Path_ → Path_ → Json → Json
unfolding remove_all prune_at filter
clear_component_leaves registry component j = prune_at component (
    remove_all (absence_dependents component) (remove_all (filter (is_below component) registry) j))

abbrev pub at_positions : List String → List String → String → List Path_
at_positions [] cs system = []
at_positions (p ∷ ps) cs system = map (λ c. system ∷ p ∷ c ∷ []) cs ++ at_positions ps cs system

abbrev pub positions : List String
positions = "front" ∷ "rear" ∷ []

-- _PRESENCE_COMPONENT_PATHS
unfoldable pub presence_component_paths : List Path_
presence_component_paths =
    ("brakes" ∷ "front" ∷ [])
      ∷ ("brakes" ∷ "rear" ∷ [])
      ∷ at_positions positions ("control" ∷ "brake_unit" ∷ "rotor" ∷ []) "brakes"
    ++ (at_positions positions ("wheel" ∷ "rim" ∷ "tire" ∷ "hub" ∷ []) "rolling_system"
        ++ (map (λ c. "drivetrain" ∷ c ∷ [])
              ("front_shifter" ∷ "rear_shifter" ∷ "front_derailleur" ∷ "rear_derailleur"
                ∷ "crankset" ∷ "rear_cluster" ∷ "chain" ∷ "belt" ∷ "gear_unit" ∷ "bottom_bracket"
                ∷ [])
            ++ (("suspension" ∷ "rear_shock" ∷ [])
                ∷ ("seating" ∷ "seatpost" ∷ [])
                ∷ ("electric_assist" ∷ [])
                ∷ [])))

-- A component that is absent has no resolved specification.
abbrev pub absence_respected : Json → Bool
absence_respected (dict f) =
    not (is_text (get_field "presence" f) "absent") || not (has_resolved_specification f)
absence_respected _ = true

abbrev pub all_respected : List Path_ → Json → Bool
all_respected [] j = true
all_respected (p ∷ ps) j = absence_respected (technical_value p j) && all_respected ps j

abbrev pub has_rotor_specification : Fields → Bool
has_rotor_specification nil = false
has_rotor_specification (cons k v f) =
    (not (str_eq k "presence") && not (is_null v)) || has_rotor_specification f

-- The two rules on the rotor of one position.
abbrev pub rotor_respected : Json → Json → Bool
rotor_respected mechanism (dict rotor) =
    not (is_text (get_field "presence" rotor) "present" && not (is_text mechanism "disc"))
    && not
        (not (is_null mechanism) && not (is_text mechanism "disc") && has_rotor_specification rotor)
rotor_respected mechanism _ = true

abbrev pub brake_leaf : String → String → Json → Json
brake_leaf position leaf = technical_value ("brakes" ∷ position ∷ leaf ∷ [])

-- validate_technical_projection: whether it raises nothing.
unfoldable pub validate_technical_projection : Json → Bool
unfolding technical_value get_field has_resolved_specification presence_component_paths
validate_technical_projection j =
    let front : Json = brake_leaf "front" "mechanism" j in
    let rear : Json = brake_leaf "rear" "mechanism" j in
    let front_actuation : Json = brake_leaf "front" "actuation" j in
    let rear_actuation : Json = brake_leaf "rear" "actuation" j in
    is_text (technical_value ("schema_version" ∷ []) j) "bike_profile.v2"
    && all_respected presence_component_paths j
    && not (is_text front "coaster" || is_text front_actuation "none")
    && not (is_text rear "coaster" && not (is_null rear_actuation || is_text rear_actuation "none"))
    && not (is_text rear_actuation "none" && not (is_null rear || is_text rear "coaster"))
    && rotor_respected front (brake_leaf "front" "rotor" j)
    && rotor_respected rear (brake_leaf "rear" "rotor" j)

-- The value is an absence, which clears the component.
abbrev pub clears_component : Path_ → Json → Bool
clears_component path value = ends_in "presence" path && is_text value "absent"

-- The value is another mechanism than a disc, which clears the rotor.
abbrev pub clears_rotor : Path_ → Json → Bool
clears_rotor path value = ends_in "mechanism" path && not (is_text value "disc")

abbrev pub rotor_of : Path_ → Path_
rotor_of path = "brakes" ∷ position_of path ∷ "rotor" ∷ []

-- The projection that with_technical_value validates.
unfoldable pub apply_value : List Path_ → Path_ → Json → Json → Json
unfolding set_value clear_component_leaves
apply_value registry path value j =
    let leaf : Json = set_value path value j in
    let present : Json =
      if clears_component path value
      then set_value path value (clear_component_leaves registry (component_of path) leaf)
      else leaf in
    if clears_rotor path value
    then clear_component_leaves registry (rotor_of path) present
    else present

-- with_technical_value; `none` is the ValueError.
unfoldable pub with_technical_value : List Path_ → Json → Path_ → Json → Option Json
unfolding started_from apply_value validate_technical_projection
with_technical_value registry projection path value =
    let result : Json = apply_value registry path value (started_from projection) in
    if validate_technical_projection result then some result else none
