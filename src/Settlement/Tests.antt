-- ===== src/Settlement/Tests.antt =====
-- The results of concrete runs.
use subagent.Common.{◌≡◌, refl, true, false, none, some, [], ◌∷◌, arith}
use subagent.Lifecycle.{RunStopReason}
use subagent.Runner.{
  ProcessRunResult, sigterm, timeout_fires, disk_check_starts, disk_check_ends, low, closes,
  groups_settle, spawned, run, finished, result_of,
}
use subagent.Runner.Ending.{IsClassified, run-spawned-Settles}
use subagent.Settlement.{Evidence, SessionMode, process_success}
use subagent.Settlement.Result.{
  RunResult, RunTaskState, result_of_run, has_consistent_result_status,
  normalize_accepted_cancellation,
}
use subagent.Settlement.Consistency.{
  IsUnmixed, result_of_run-consistent, accepted_cancellation-consistent, mixed_end-inconsistent,
}

abbrev evidence : Evidence
evidence = record {
  terminal_effect_scope_error = false;
  effect_profile = false;
  expected_skill_sha256 = false;
  activation_receipt = false;
  skill_snapshot_binding = false;
  skill_snapshot_activation_receipt = false;
  recursive_delegation_receipt = true;
  system_skill_source = false;
  system_skill_activation_receipt = false;
  researcher_bounded = false;
  strict_research_output = false;
  strict_research_outputs_match = false;
  final_output_mode = true;
  final_message = false;
  session_mode = SessionMode.ephemeral;
  parsed_session_id = false;
  child_failure = none;
}

abbrev timed_out_end : ProcessRunResult
timed_out_end = record {
  exit_code = none;
  stop_signal = some sigterm;
  timed_out = true;
  cancelled = false;
  resource_exhausted = false;
  stop_reason = RunStopReason.timeout;
}

-- The end of a run that times out, then finds the disk full while it is being terminated.
abbrev mixed_end : ProcessRunResult
mixed_end = record {
  exit_code = none;
  stop_signal = some sigterm;
  timed_out = true;
  cancelled = false;
  resource_exhausted = true;
  stop_reason = RunStopReason.resource_exhausted;
}

mixed_end-reached :
    (run (spawned true true) (
      timeout_fires
      ∷ disk_check_starts
      ∷ disk_check_ends low
      ∷ closes
      ∷ groups_settle true none (some sigterm)
      ∷ [])).settled
    ≡ some mixed_end
unfolding run spawned finished result_of
mixed_end-reached = refl

timed_out_end-reached :
    (run
      (spawned true false)
      (timeout_fires ∷ closes ∷ groups_settle true none (some sigterm) ∷ [])).settled
    ≡ some timed_out_end
unfolding run spawned finished result_of
timed_out_end-reached = refl

timed_out_end-IsClassified : IsClassified timed_out_end
timed_out_end-IsClassified =
    run-spawned-Settles true false
      (timeout_fires ∷ closes ∷ groups_settle true none (some sigterm) ∷ []) timed_out_end
      timed_out_end-reached

timed_out_end-IsUnmixed : IsUnmixed timed_out_end
unfolding process_success
timed_out_end-IsUnmixed = record {
  on_timed_out = λ _. refl;
  on_cancelled = λ h. ground arith;
  on_success = λ h. ground arith;
}

result_of_run-consistent_example :
    has_consistent_result_status (result_of_run evidence timed_out_end) ≡ true
result_of_run-consistent_example =
    result_of_run-consistent evidence timed_out_end timed_out_end-IsClassified
      timed_out_end-IsUnmixed

mixed_end-inconsistent_example :
    has_consistent_result_status (result_of_run evidence mixed_end) ≡ false
mixed_end-inconsistent_example = mixed_end-inconsistent evidence mixed_end refl refl refl

abbrev cancelled_state : RunTaskState
cancelled_state = record {
  cancel_requested = true;
  child_started = true;
  result = some (result_of_run evidence mixed_end);
  error = none;
}

mixed_end-IsClassified : IsClassified mixed_end
mixed_end-IsClassified = record {
  on_completed = λ h. ground (arith, h);
  on_failed = λ h. ground (arith, h);
  on_cancelled = λ h. ground (arith, h);
  on_timeout = λ h. ground (arith, h);
  on_resource_exhausted = λ h. refl;
  on_spawn_error = λ h. ground (arith, h);
}

accepted_cancellation-consistent_example :
    (r' : RunResult) × ((normalize_accepted_cancellation cancelled_state).result ≡ some r')
    × (r'.stop_reason ≡ RunStopReason.cancelled)
    × (has_consistent_result_status r' ≡ true)
accepted_cancellation-consistent_example =
    accepted_cancellation-consistent evidence mixed_end cancelled_state mixed_end-IsClassified refl
      refl refl
