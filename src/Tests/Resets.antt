-- ===== src/Tests/Resets.antt =====
-- core/reset.py at concrete inputs.
use sciguard_autopilot.Base.{
  ◌≡◌, refl, String, true, false, none, some, [], ◌∷◌, All, contains, if◌then◌else◌, ◌==◌,
}
use sciguard_autopilot.Base.Json.{null, nil, cons, str, arr}
use sciguard_autopilot.DataHub.{text, dumped, Aspect, AspectType}
use sciguard_autopilot.DataHub.Store.{Memory, memory}
use sciguard_autopilot.MetadataWriter.{new_association}
use sciguard_autopilot.Enforcement.{native_targets}
use sciguard_autopilot.Reset.{
  Artifacts, owns, dataset_props, plan_from, owned_artifacts, reset_targets, delete_all,
  reset_datasets, reset_plan, reset_incident_metadata,
}
use sciguard_autopilot.Reset.Frame.{Untouched}
use sciguard_autopilot.Reset.Owned.{reset_of, reset_incident_metadata-others}

abbrev held : Aspect
held = record {
  name = none;
  custom_properties = some (
      ("owner", text "ana")
      ∷ ("sciguard:incident_id", text "INC-1")
      ∷ ("sciguard:status", text "QUARANTINED")
      ∷ (
        "sciguard:controlled_urns",
        dumped (arr (cons (str "urn:model") (cons (str "urn:report") nil))),
      )
      ∷ ("sciguard:native_deployment_urn", text "urn:service")
      ∷ []);
  fields = null;
}

-- The control asset, the model and the deployment are held by INC-1.
abbrev graph : Memory
graph = record {
  tags = λ v. some (new_association "urn:li:tag:sciguard:quarantined" ∷ []);
  aspects = λ k v.
      if contains v ("urn:control" ∷ "urn:model" ∷ "urn:service" ∷ []) then some held else none;
}

abbrev erased : String → Memory → Memory
erased u g = record {
  tags = λ v. if u == v then none else g.tags v;
  aspects = λ k v. if u == v then none else g.aspects k v;
}

aspects-erased :
    (u v : String) (k : AspectType) (g : Memory)
    → (u == v) ≡ false
    → (erased u g).aspects k v ≡ g.aspects k v
aspects-erased u v k g h = rw h refl

tags-erased : (u v : String) (g : Memory) → (u == v) ≡ false → (erased u g).tags v ≡ g.tags v
tags-erased u v g h = rw h refl

-- The incident is there, a decision log is not.
abbrev artifacts : Artifacts memory
artifacts = record {
  incident_urn = λ id. "urn:li:incident:INC-1";
  decision_log_urn = λ id. "urn:li:document:INC-1";
  incident_type = λ g u. some (some "SCIENTIFIC_DECISION_INTEGRITY");
  log_incident = λ g u. none;
  delete_entity = erased;
  aspect-delete_entity = aspects-erased;
  tags-delete_entity = tags-erased;
}

reset_both :
    reset_of (reset_incident_metadata memory artifacts "urn:control" "INC-1" graph).0
    ≡ "urn:model" ∷ "urn:control" ∷ []
unfolding reset_incident_metadata reset_plan plan_from owned_artifacts reset_targets delete_all
    reset_datasets native_targets
reset_both = refl

reset_incident_metadata-others_example :
    Untouched memory "urn:report" graph
      (reset_incident_metadata memory artifacts "urn:control" "INC-1" graph).1
    × All
        (λ (u : String). owns "INC-1" (dataset_props memory graph u) ≡ true)
        (reset_of (reset_incident_metadata memory artifacts "urn:control" "INC-1" graph).0)
reset_incident_metadata-others_example =
    reset_incident_metadata-others memory artifacts "urn:control" "INC-1" "urn:report" graph (
      unfold reset_incident_metadata reset_plan plan_from owned_artifacts reset_targets delete_all
        reset_datasets native_targets in
      refl)
