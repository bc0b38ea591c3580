-- ===== src/Investigation.antt =====
-- core/investigation_models.py: evidence, hypotheses, and what an investigation reports.
use sciguard_autopilot.Base.{ℕ, String, Bool, Option, List, [], ◌∷◌, if◌then◌else◌}
use Prim.Native.Char.{code}
use Prim.Native.String.{[] as no_text, ◌∷◌ as put_before}
use sciguard_autopilot.Base.{nat_eq}
use sciguard_autopilot.Base.Dict.{Dict}
use sciguard_autopilot.Base.Texts.{lower}
use sciguard_autopilot.Base.Json.{Json, Fields, end, field, str, obj}

pub data EvidenceSource : Type 0 where
  datahub_catalog local_artifact : EvidenceSource

abbrev pub source_value : EvidenceSource → String
source_value datahub_catalog = "DATAHUB_CATALOG"
source_value local_artifact = "LOCAL_ARTIFACT"

pub data HypothesisStatus : Type 0 where
  hypothesis_proposed confirmed hypothesis_rejected inconclusive : HypothesisStatus

abbrev pub hypothesis_status_value : HypothesisStatus → String
hypothesis_status_value hypothesis_proposed = "PROPOSED"
hypothesis_status_value confirmed = "CONFIRMED"
hypothesis_status_value hypothesis_rejected = "REJECTED"
hypothesis_status_value inconclusive = "INCONCLUSIVE"

pub record Evidence : Type 0 where
  pub evidence_id : String
  pub source : EvidenceSource
  pub kind : String
  pub summary : String
  pub payload : Dict Json

abbrev pub to_fields : Dict Json → Fields
to_fields [] = end
to_fields ((k, v) ∷ d) = field k v (to_fields d)

-- `text.replace("_", "-")`
abbrev pub dashed : String → String
dashed no_text = no_text
dashed (put_before c s) =
    let rest = dashed s in if nat_eq (code c) 95 then put_before "-" rest else put_before c rest

-- `Evidence.create`
unfoldable pub create_evidence :
    (String → Json → String) → EvidenceSource → String → String → Dict Json → Evidence
unfolding lower
create_evidence stable_evidence_id source kind summary payload = record {
  evidence_id = stable_evidence_id (dashed (lower kind)) (
      obj (
        to_fields (
          ("source", str (source_value source))
          ∷ ("kind", str kind)
          ∷ ("payload", obj (to_fields payload))
          ∷ [])));
  source = source;
  kind = kind;
  summary = summary;
  payload = payload;
}

pub record AssetContext : Type 0 where
  pub urn : String
  pub name : String
  pub degree : ℕ
  pub owners : List String
  pub tags : List String
  pub terms : List String
  pub properties : Dict String
  pub assertion_history : List (Dict Json)
  pub assertions_supported : Bool

pub record InvestigationResult : Type 0 where
  pub available : Bool
  pub start_urn : String
  pub assets : List AssetContext
  pub suspect_sources : List String
  pub evidence : List Evidence
  pub degraded_reason : Option String

pub record RealityCheckResult : Type 0 where
  pub available : Bool
  pub evidence : List Evidence
  pub degraded_reason : Option String

pub record Hypothesis : Type 0 where
  pub id : String
  pub claim : String
  pub assigned_actor : String
  pub investigation_contract : String
  pub required_evidence_kinds : List String

pub record InvestigationCase : Type 0 where
  pub incident_id : String
  pub signal_id : Option String
  pub signal_evidence_ids : List String
  pub symptom : String
  pub candidate_id : String
  pub rank_before : ℕ
  pub rank_after : ℕ
  pub pipeline_status : String
  pub start_asset_name : String
  pub hypotheses : List Hypothesis

pub record HypothesisResolution : Type 0 where
  pub hypothesis_id : String
  pub status : HypothesisStatus
  pub rationale : String
  pub evidence_ids : List String

pub record RootCause : Type 0 where
  pub batch_id : String
  pub instrument_firmware_before : String
  pub instrument_firmware_after : String
  pub expected_unit : String
  pub observed_units : List String
  pub normalization_version : String
  pub affected_rows : ℕ
  pub explanation : String

pub record InvestigationReport : Type 0 where
  pub incident_id : String
  pub root_cause_confirmed : Bool
  pub root_cause : Option RootCause
  pub resolutions : List HypothesisResolution
  pub degraded : Bool
  pub degraded_reason : Option String
