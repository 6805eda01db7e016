-- ===== src/Tests/Profile.antt =====
-- The mechanism of a front brake, and the absence of a rear shock that had a travel.
use bike_doc.Prelude.{◌⊎◌, List, [], ◌∷◌, some, ◌≡◌, refl}
use bike_doc.Profile.Tree.{null, Json, text, number, dict, nil, cons, Path_, technical_value}
use bike_doc.Profile.Projection.{with_technical_value}
use bike_doc.Profile.Projection.{empty_technical_projection}
use bike_doc.Profile.Projection.Keeps.{with_technical_value_keeps}
use bike_doc.Profile.Projection.Reads.{with_technical_value_reads}

abbrev pub shock_presence : Path_
shock_presence = "suspension" ∷ "rear_shock" ∷ "presence" ∷ []

abbrev pub shock_stroke : Path_
shock_stroke = "suspension" ∷ "rear_shock" ∷ "stroke_mm" ∷ []

abbrev rear_travel : Path_
rear_travel = "suspension" ∷ "rear_travel_mm" ∷ []

abbrev pub registry : List Path_
registry = shock_presence ∷ shock_stroke ∷ rear_travel ∷ []

abbrev with_shock : Json
with_shock = dict (
    cons "schema_version" (text "bike_profile.v2") (
      cons "suspension"
        (dict (
          cons "rear_shock" (dict (cons "stroke_mm" (number 55) nil))
            (cons "rear_travel_mm" (number 140) nil)))
        nil))

abbrev by_position : Json
by_position = dict (cons "front" (dict nil) (cons "rear" (dict nil) nil))

abbrev without_shock : Json
without_shock = dict (
    cons "schema_version" (text "bike_profile.v2") (
      cons "suspension" (dict (cons "rear_shock" (dict (cons "presence" (text "absent") nil)) nil))
        (cons "identity" (dict nil) (
          cons "frame" (dict nil) (
            cons "brakes" by_position (
              cons "drivetrain" (dict nil) (
                cons "rolling_system" by_position (
                  cons "cockpit" (dict nil)
                    (cons "seating" (dict nil) (cons "electric_assist" (dict nil) nil))))))))))

-- The absence takes the stroke and the travel with it.
removes_shock :
    with_technical_value registry with_shock shock_presence (text "absent") ≡ some without_shock
unfolding with_technical_value
removes_shock = refl

with_technical_value_reads_example : technical_value shock_presence without_shock ≡ text "absent"
with_technical_value_reads_example =
    with_technical_value_reads registry with_shock shock_presence (text "absent") without_shock refl
      removes_shock

with_technical_value_keeps_example :
    (technical_value rear_travel without_shock ≡ number 140)
    ⊎ (technical_value rear_travel without_shock ≡ null)
unfolding technical_value empty_technical_projection
with_technical_value_keeps_example =
    with_technical_value_keeps registry with_shock shock_presence (text "absent") without_shock
      rear_travel (number 140) refl refl refl refl removes_shock
