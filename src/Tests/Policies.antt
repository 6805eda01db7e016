-- ===== src/Tests/Policies.antt =====
-- A deployment with a promoted policy and one that has no accepted baseline.
use bike_doc.Prelude.{
  String, true, Option, none, some, [], ◌∷◌, ◌≡◌, refl, All, if◌then◌else◌, ◌||◌,
}
use bike_doc.Profile.Tree.{Path_}
use bike_doc.Profile.Projection.{path_eq}
use bike_doc.Profile.Claims.{evaluated}
use bike_doc.Profile.Policies.{
  RegisteredField, Entry, find_entry, loaded, invalid, not_permitted, from_deployment, bootstrap_v1,
}
use bike_doc.Profile.Policies.Deployed.{is_admissible, promoted_of, from_deployment_active}
use bike_doc.Tests.Manual.{material, written_by_hand}

abbrev frame_field : RegisteredField
frame_field = record {
  definition = record written_by_hand {
    permitted_evidence_bases = "direct_visual" ∷ "derived_visual" ∷ [];
  };
  image_auto_fill = true;
  policy_bundle = "visual_descriptive";
}

abbrev colour : Path_
colour = "frame" ∷ "color" ∷ []

abbrev fields : Path_ → Option RegisteredField
fields path = if path_eq material path || path_eq colour path then some frame_field else none

abbrev promoted : Entry
promoted = record {
  field_path = material;
  evidence_class = "direct_visual";
  policy = record {
    auto_fill_threshold = 9200;
    auto_overwrite_threshold = some 9700;
    precision_gate_passed = true;
    accepted_baseline_version = some "v1";
    regression_evidence_passed = true;
    promoted = true;
  };
}

abbrev unqualified : Entry
unqualified = record promoted {
  field_path = colour;
  policy = record promoted.policy { accepted_baseline_version = none };
}

loads_promoted :
    from_deployment 100 [] fields "evaluated" (unqualified ∷ promoted ∷ [])
    ≡ loaded evaluated (promoted ∷ [])
unfolding from_deployment
loads_promoted = refl

-- A class that is not permitted stops the deployment.
refuses_class :
    from_deployment 100 [] fields "production"
      (record promoted { evidence_class = "readable_marking" } ∷ [])
    ≡ invalid not_permitted
unfolding from_deployment
refuses_class = refl

-- The bootstrap leaves the derived class out.
bootstraps_frame :
    bootstrap_v1 100 ((material, frame_field) ∷ [])
    ≡ record promoted {
      policy = record promoted.policy {
        auto_fill_threshold = 9000;
        auto_overwrite_threshold = none;
        accepted_baseline_version = some "programmatic";
      };
    }
      ∷ []
unfolding bootstrap_v1
bootstraps_frame = refl

from_deployment_active_example :
    All (λ e. is_admissible fields e ≡ true) (unqualified ∷ promoted ∷ [])
    × ((path : Path_) (basis : String)
        → find_entry path basis (promoted ∷ [])
          ≡ promoted_of (find_entry path basis (unqualified ∷ promoted ∷ [])))
from_deployment_active_example =
    from_deployment_active 100 [] fields "evaluated" (unqualified ∷ promoted ∷ []) (promoted ∷ [])
      loads_promoted
