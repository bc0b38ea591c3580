-- ===== src/Recovery/Release.antt =====
-- How `evaluate` of core/recovery.py releases the controlled datasets.
use sciguard_autopilot.DataHub.Values.{properties_in}
use sciguard_autopilot.DataHub.Values.{iterated_value}
use sciguard_autopilot.DataHub.Values.{loads, value_at}
use sciguard_autopilot.Base.{String, some, List, [], ◌∷◌, if◌then◌else◌, type_error, Result, ◌==◌}
use sciguard_autopilot.Base.Exec.{Exec, ◌>>◌, pure, raise}
use sciguard_autopilot.Base.Json.{Json, str, arr, nil, str_array}
use sciguard_autopilot.DataHub.{text, dumped, Properties, dataset_properties, Client}
use sciguard_autopilot.MetadataWriter.{add_tags, remove_tags, add_custom_properties}
use sciguard_autopilot.Enforcement.{
  at_risk_tag, quarantined_tag, resolved_tag, mirror_native_projection_state,
}

-- the properties of a released dataset
unfoldable pub resolved_updates : List String → Properties
resolved_updates evidence =
    ("sciguard:incident_state", text "RESOLVED")
    ∷ ("sciguard:status", text "resolved")
    ∷ ("sciguard:policy_decision", text "ALLOW")
    ∷ ("sciguard:catalog_status", text "RESOLVED")
    ∷ ("sciguard:enforcement_actions", dumped (arr nil))
    ∷ ("sciguard:resume_authorized", text "true")
    ∷ ("sciguard:recovery_evidence_ids", dumped (str_array evidence))
    ∷ []

-- `json.loads(props.get("sciguard:controlled_urns", ...))`, as the loop reads it
unfoldable pub controlled_urns : String → Properties → Result (List Json)
controlled_urns control_urn props =
    iterated_value
      (loads (value_at "sciguard:controlled_urns" (str_array (control_urn ∷ [])) props))

-- `if urn != self.control_urn` and the write below it
abbrev pub resolve_properties : (c : Client) → String → List String → String → c.Graph → c.Graph
resolve_properties c control_urn evidence urn g =
    if urn == control_urn then g else (add_custom_properties c urn (resolved_updates evidence) g).1

abbrev pub resolve_tags : (c : Client) → String → c.Graph → c.Graph
resolve_tags c urn g =
    (add_tags c urn (resolved_tag ∷ [])
      (remove_tags c urn (at_risk_tag ∷ quarantined_tag ∷ []) g).1).1

module _ (c : Client) where
  open c use {Graph, get_aspect}

  -- the body of the loop over the controlled URNs
  unfoldable pub release : String → List String → String → Exec Graph (List String)
  release control_urn evidence urn g =
      let existing = properties_in (get_aspect g dataset_properties urn) in
      mirror_native_projection_state c existing (resolved_updates evidence) (some resolved_tag)
        (resolve_tags c urn (resolve_properties c control_urn evidence urn g))

  -- A client refuses a URN that is no text.
  unfoldable pub release_all : String → List String → List Json → Exec Graph (Unit {0})
  release_all control_urn evidence [] = pure tt
  release_all control_urn evidence (str urn ∷ urns) = do
    release control_urn evidence urn
    release_all control_urn evidence urns
  release_all control_urn evidence (_ ∷ urns) = raise (type_error "URN is no text")
