-- ===== src/Repair/Templates.antt =====
-- The texts of the artifacts in core/repair.py, line by line: the two states of the normalizer that
-- the patch stands between, and the three test files.
use sciguard_autopilot.Base.{String, List, [], ◌∷◌}
use Prim.Native.String.{◌++◌ as concat}

-- the lines, each with its line end
abbrev pub lines_text : List String → String
lines_text [] = ""
lines_text (l ∷ ls) = concat l (concat "\n" (lines_text ls))

-- `{unit!r}`, of a unit without quotes and control characters
abbrev quoted : String → String
quoted s = concat "'" (concat s "'")

-- `before` and `after` of `_normalizer_patch`
unfoldable pub normalizer_before : String
normalizer_before = lines_text (
    "def normalize_tg(value: float, unit: str) -> float:"
    ∷ "    # v1 trusted the destination column label and silently copied mixed units."
    ∷ "    return float(value)" ∷ [])

unfoldable pub normalizer_after : String → String
normalizer_after unit = lines_text (
    "class UnitContractError(ValueError):"
    ∷ "    \"\"\"Raised when an experimental value violates the declared unit contract.\"\"\""
    ∷ ""
    ∷ ""
    ∷ "def normalize_tg(value: float, unit: str) -> float:"
    ∷ (concat "    \"\"\"Normalize Tg into " (concat unit (" or reject an unknown unit.\"\"\"")))
    ∷ ""
    ∷ "    normalized = unit.strip()"
    ∷ (concat "    if normalized == \"" (concat unit ("\":")))
    ∷ "        return float(value)"
    ∷ "    if normalized == \"K\":"
    ∷ "        return round(float(value) - 273.15, 6)"
    ∷ "    raise UnitContractError("
    ∷ (concat "        f\"unsupported Tg unit {unit!r}; expected "
        (concat (quoted unit) (" or 'K'\"")))
    ∷ "    )"
    ∷ [])

-- `_contract_test`
unfoldable pub contract_test_text : String → String
contract_test_text unit = lines_text (
    "from pipeline.normalize import UnitContractError, normalize_tg"
    ∷ ""
    ∷ ""
    ∷ "def test_kelvin_and_celsius_normalize_to_the_same_scientific_value() -> None:"
    ∷ "    assert normalize_tg(373.15, \"K\") == 100.0"
    ∷ (concat "    assert normalize_tg(100.0, \"" (concat unit ("\") == 100.0")))
    ∷ ""
    ∷ ""
    ∷ "def test_unknown_unit_fails_closed() -> None:"
    ∷ "    try:"
    ∷ "        normalize_tg(100.0, \"degF\")"
    ∷ "    except UnitContractError:"
    ∷ "        return"
    ∷ "    raise AssertionError(\"unknown units must not be silently accepted\")"
    ∷ [])

-- `_scientific_regression_test`
unfoldable pub scientific_regression_test_text : String
scientific_regression_test_text = lines_text (
    "import hashlib" ∷ "from pathlib import Path" ∷ ""
    ∷ "from pipeline.decision import load_candidates, rank_candidates"
    ∷ "from pipeline.normalize import normalize_tg" ∷ "" ∷ ""
    ∷ "FIXTURE = Path(__file__).parents[1] / \"data\" / \"b042_decision_fixture.csv\""
    ∷ "FIXTURE_SHA256 = \"ca676efb3b969a48c7f7ce4f9b5ea3d507a86d40cee161a8bb57b9b06cf550c6\"" ∷ ""
    ∷ ""
    ∷ "def test_candidate_ranking_fails_before_and_matches_trusted_baseline_after_repair() -> None:"
    ∷ "    assert hashlib.sha256(FIXTURE.read_bytes()).hexdigest() == FIXTURE_SHA256"
    ∷ "    candidates = load_candidates(FIXTURE)" ∷ "" ∷ "    legacy_ranks = rank_candidates("
    ∷ "        candidates," ∷ "        normalizer=lambda value, unit: float(value)," ∷ "    )"
    ∷ "    repaired_ranks = rank_candidates(candidates, normalizer=normalize_tg)"
    ∷ "    trusted_ranks = {" ∷ "        candidate.candidate_id: candidate.trusted_rank"
    ∷ "        for candidate in candidates" ∷ "    }" ∷ ""
    ∷ "    assert legacy_ranks[\"P-204\"] == 1" ∷ "    assert legacy_ranks != trusted_ranks"
    ∷ "    assert repaired_ranks[\"P-204\"] == 18" ∷ "    assert repaired_ranks == trusted_ranks"
    ∷ [])

-- `_safe_branch_test`
unfoldable pub safe_branch_test_text : String
safe_branch_test_text = lines_text (
    "import hashlib" ∷ "from pathlib import Path" ∷ "" ∷ "from pipeline.decision import ("
    ∷ "    load_candidates," ∷ "    molecular_weight_artifact,"
    ∷ "    publish_molecular_weight_artifact," ∷ "    rank_candidates," ∷ ")"
    ∷ "from pipeline.normalize import normalize_tg" ∷ "" ∷ ""
    ∷ "FIXTURE = Path(__file__).parents[1] / \"data\" / \"b042_decision_fixture.csv\""
    ∷ "TRUSTED_MW_SHA256 = \"2ff3a5d0b93e3ee65aa8601e391057443edbba42b7f09b02a8cd37d3e16538e6\""
    ∷ "" ∷ "" ∷ "def test_repair_preserves_and_republishes_the_real_molecular_weight_artifact("
    ∷ "    tmp_path: Path," ∷ ") -> None:" ∷ "    candidates = load_candidates(FIXTURE)"
    ∷ "    before = molecular_weight_artifact(candidates)" ∷ ""
    ∷ "    # Execute the repaired Tg decision path before rendering the independent MW branch."
    ∷ "    repaired_ranks = rank_candidates(candidates, normalizer=normalize_tg)"
    ∷ "    assert repaired_ranks[\"P-204\"] == 18"
    ∷ "    after = molecular_weight_artifact(candidates)" ∷ ""
    ∷ "    assert hashlib.sha256(before).hexdigest() == TRUSTED_MW_SHA256"
    ∷ "    assert after == before" ∷ "    destination = tmp_path / \"molecular_weight_report.json\""
    ∷ "    receipt_sha256 = publish_molecular_weight_artifact(candidates, destination)"
    ∷ "    assert destination.read_bytes() == before"
    ∷ "    assert receipt_sha256 == TRUSTED_MW_SHA256" ∷ [])
