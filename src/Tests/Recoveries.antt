-- ===== src/Tests/Recoveries.antt =====
-- core/recovery.py at concrete inputs.
use sciguard_autopilot.DataHub.Values.{properties_in}
use sciguard_autopilot.DataHub.Values.{text_at}
use sciguard_autopilot.Base.{
  ℕ, ◌≡◌, refl, true, false, none, some, List, [], ◌∷◌, All, Result, ok, err,
}
use sciguard_autopilot.Base.Texts.{lower}
use sciguard_autopilot.Base.Json.{null, bool, obj, arr, field, end, nil, cons, str_array}
use sciguard_autopilot.Events.{emit_if}
use sciguard_autopilot.DataHub.{Value_discrete, text, dumped, Aspect}
use sciguard_autopilot.DataHub.Store.{Memory, memory}
use sciguard_autopilot.MetadataWriter.{
  dict_eq, covers, new_association, add_tags, remove_tags, add_custom_properties,
  add_aspect_custom_properties,
}
use sciguard_autopilot.Enforcement.{
  World, native_targets, clear_tags, retag, mirror_targets, mirror_native_projection_state,
}
use sciguard_autopilot.Enforcement.Controls.{dataset}
use sciguard_autopilot.Recovery.History.{consecutive_clean}
use sciguard_autopilot.Recovery.Checks.{
  pass, RecoveryCheck, RecoveryResult, RecoveryController, judge,
}
use sciguard_autopilot.Recovery.Release.{resolved_updates, controlled_urns, release, release_all}
use sciguard_autopilot.Recovery.Evaluate.{
  opening, recovery_updates, recovery_result, resume_incident, persist, evaluate,
}
use sciguard_autopilot.Recovery.Gate.{may_resume, resume_allowed-evaluate}
use sciguard_autopilot.Recovery.Streak.{streak, clean_run_count-evaluate, evaluate-persists}
use sciguard_autopilot.Recovery.Released.{IsReleased, evaluate-IsReleased}

abbrev clock : ℕ → ℕ
clock n = n

abbrev controller : RecoveryController
controller = record {
  control_urn = "urn:source";
  policy = record {
    required_checks = "units" ∷ "source" ∷ [];
    consecutive_clean_runs = 2;
    allow_one_clean_with_human_approval = false;
  };
}

abbrev checks : List RecoveryCheck
checks =
    record { check_id = "units"; status = pass; evidence_ids = "e1" ∷ [] }
    ∷ record { check_id = "source"; status = pass; evidence_ids = "e2" ∷ [] }
    ∷ []

-- An incident with one clean run so far.
abbrev persisted : Aspect
persisted = record {
  name = none;
  custom_properties = some (
      ("sciguard:incident_id", text "INC-1")
      ∷ ("sciguard:incident_state", text "RECOVERY_PENDING")
      ∷ ("sciguard:controlled_urns", dumped (str_array ("urn:source" ∷ "urn:model" ∷ [])))
      ∷ ("sciguard:recovery_history", dumped (arr (cons (obj (field "clean" (bool true) end)) nil)))
      ∷ []);
  fields = null;
}

abbrev graph : Memory
graph = record {
  tags = λ v. some (new_association "urn:li:tag:sciguard:quarantined" ∷ []);
  aspects = λ k v. some persisted;
}

abbrev world : World memory
world = (graph, none)

abbrev run : Result RecoveryResult × World memory
run = evaluate memory clock controller checks none (some "resume at once") (some "INC-1") world

abbrev no_result : RecoveryResult
no_result = record {
  incident_id = "";
  resume_allowed = false;
  incident_state = "";
  missing_checks = [];
  failed_checks = [];
  clean_run_count = 0;
  human_approval_used = false;
  approval_receipt_id = none;
  approval_identity_assurance = none;
  approval_production_authorized = false;
  llm_instruction_ignored = false;
}

abbrev result_or : RecoveryResult → Result RecoveryResult → RecoveryResult
result_or r (ok r') = r'
result_or r (err _) = r

abbrev result : RecoveryResult
result = result_or no_result run.0

run_returns : run ≡ (ok result, run.1)
unfolding evaluate persist resume_incident release_all release controlled_urns resolved_updates
    recovery_result recovery_updates opening judge consecutive_clean mirror_targets
    mirror_native_projection_state native_targets retag clear_tags add_tags remove_tags
    add_custom_properties add_aspect_custom_properties dict_eq covers Value_discrete emit_if lower
run_returns = refl

run_resumes : result.resume_allowed ≡ true
unfolding evaluate persist resume_incident release_all release controlled_urns resolved_updates
    recovery_result recovery_updates opening judge consecutive_clean mirror_targets
    mirror_native_projection_state native_targets retag clear_tags add_tags remove_tags
    add_custom_properties add_aspect_custom_properties dict_eq covers Value_discrete emit_if lower
run_resumes = refl

resume_allowed-evaluate_example :
    result.resume_allowed ≡ may_resume controller.policy checks none result.clean_run_count
resume_allowed-evaluate_example =
    resume_allowed-evaluate memory clock controller checks none (some "resume at once")
      (some "INC-1") world run.1 result run_returns

clean_run_count-evaluate_example : result.clean_run_count ≡ 2
clean_run_count-evaluate_example =
    clean_run_count-evaluate memory clock controller checks none (some "resume at once")
      (some "INC-1") world run.1 result 1 run_returns (unfold streak consecutive_clean in refl)

evaluate-persists_example :
    (let after = properties_in (dataset memory "urn:source" run.1.0) in
      (streak after ≡ ok result.clean_run_count)
      × (text_at "sciguard:incident_state" "" after ≡ result.incident_state)
      × (text_at "sciguard:incident_id" "" after ≡ result.incident_id))
evaluate-persists_example =
    evaluate-persists memory clock controller checks none (some "resume at once") (some "INC-1")
      world run.1 result run_returns

evaluate-IsReleased_example : All (IsReleased memory run.1.0) ("urn:source" ∷ "urn:model" ∷ [])
evaluate-IsReleased_example =
    evaluate-IsReleased memory clock controller checks none (some "resume at once") (some "INC-1")
      world run.1 result ("urn:source" ∷ "urn:model" ∷ []) refl run_returns run_resumes
