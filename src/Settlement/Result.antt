-- ===== src/Settlement/Result.antt =====
-- src/runSubagent.ts and src/runTask.ts: the fields of a run's result that say how it ended, and
-- the test of a terminal record.
use subagent.Common.{
  ℕ, String, Bool, true, false, not, ◌&&◌, ◌||◌, Option, none, some, if◌then◌else◌, is_blank,
  FailureReasonCode,
}
use subagent.Lifecycle.{
  RunStopReason, RunStatus, terminal_run_task_status, is_timeout_reason, is_cancelled_reason,
}
use subagent.Runner.{ProcessRunResult, is_zero}
use subagent.Settlement.{
  Evidence, Taxonomy, run_error_taxonomy, classified, is_success, session_established,
  missing_final_output, activation_confirmed, is_some, skill_snapshot_activation_confirmed,
  system_skill_activation_confirmed,
}

pub record RunResult : Type 0 where
  pub status : RunStatus
  pub success : Bool
  pub exit_code : Option ℕ
  pub timed_out : Bool
  pub stop_reason : RunStopReason
  pub error_class : Option String
  pub reason_code : Option FailureReasonCode

unfoldable pub activation_failed : Evidence → Bool
activation_failed v =
    not (activation_confirmed v)
    || not (skill_snapshot_activation_confirmed v)
    || not v.recursive_delegation_receipt
    || not (system_skill_activation_confirmed v)

-- The child's own failure, or else the first activation that is missing.
unfoldable pub failure_code : Evidence → Option FailureReasonCode
failure_code v =
    if is_some v.child_failure
    then v.child_failure
    else if not (skill_snapshot_activation_confirmed v)
    then some FailureReasonCode.skill_snapshot_activation_failed
    else if not v.recursive_delegation_receipt
    then some FailureReasonCode.recursive_delegation_activation_failed
    else if not (system_skill_activation_confirmed v)
    then some FailureReasonCode.system_skill_activation_failed
    else if not (activation_confirmed v)
    then some (
        if v.effect_profile
        then FailureReasonCode.effect_profile_activation_failed
        else FailureReasonCode.skill_content_mismatch)
    else none

unfoldable pub taxonomy_of : Evidence → ProcessRunResult → Taxonomy
taxonomy_of v p =
    if v.terminal_effect_scope_error
    then classified "authoring_effect_scope_drift" FailureReasonCode.authoring_effect_scope_drift
    else run_error_taxonomy record {
      success = is_success v p;
      cancelled = p.cancelled;
      timed_out = p.timed_out;
      stop_reason = p.stop_reason;
      exit_code = p.exit_code;
      stop_signal = p.stop_signal;
      session_mode = v.session_mode;
      session_established = session_established v p;
      missing_final_output = missing_final_output v p;
      resource_exhausted = p.resource_exhausted;
      activation_failed = activation_failed v;
      child_failure_reason_code = failure_code v;
    }

unfoldable pub status_of : Evidence → ProcessRunResult → RunStatus
status_of v p =
    if p.cancelled
    then RunStatus.cancelled
    else if p.timed_out
    then RunStatus.timed_out
    else if is_success v p
    then RunStatus.completed
    else RunStatus.failed

unfoldable pub result_of_run : Evidence → ProcessRunResult → RunResult
unfolding status_of
result_of_run v p = record {
  status = status_of v p;
  success = is_success v p;
  exit_code = p.exit_code;
  timed_out = p.timed_out;
  stop_reason = p.stop_reason;
  error_class = (taxonomy_of v p).error_class;
  reason_code = (taxonomy_of v p).reason_code;
}

-- The fields of `RunTaskState` that the normalisation reads and writes; `error` says that an error
-- took the place of the result.
pub record RunTaskState : Type 0 where
  pub cancel_requested : Bool
  pub child_started : Bool
  pub result : Option RunResult
  pub error : Option FailureReasonCode

unfoldable pub cancelled_result : RunResult → RunResult
cancelled_result r = record r {
  status = RunStatus.cancelled;
  success = false;
  timed_out = false;
  stop_reason = RunStopReason.cancelled;
  error_class = none;
  reason_code = none;
}

unfoldable pub cancel_result : RunTaskState → Option RunResult → RunTaskState
unfolding cancelled_result
cancel_result s none = s
cancel_result s (some r) =
    if is_cancelled_reason r.stop_reason
    then (if s.child_started
        then s
        else record s { result = none; error = some FailureReasonCode.local_capacity_exhausted })
    else record s { result = some (cancelled_result r) }

unfoldable pub normalize_accepted_cancellation : RunTaskState → RunTaskState
unfolding cancel_result
normalize_accepted_cancellation s = if s.cancel_requested then cancel_result s s.result else s

abbrev pub is_completed_reason : RunStopReason → Bool
is_completed_reason RunStopReason.completed = true
is_completed_reason _ = false

abbrev pub status_eq : RunStatus → RunStatus → Bool
status_eq RunStatus.working RunStatus.working = true
status_eq RunStatus.input_required RunStatus.input_required = true
status_eq RunStatus.completed RunStatus.completed = true
status_eq RunStatus.failed RunStatus.failed = true
status_eq RunStatus.cancelled RunStatus.cancelled = true
status_eq RunStatus.timed_out RunStatus.timed_out = true
status_eq _ _ = false

abbrev pub is_nonempty : Option String → Bool
is_nonempty none = false
is_nonempty (some text) = not (is_blank text)

unfoldable pub consistent_for : RunStatus → RunResult → Bool
consistent_for RunStatus.completed r =
    r.success
    && is_zero r.exit_code
    && not r.timed_out
    && is_completed_reason r.stop_reason
    && not (is_some r.error_class)
    && not (is_some r.reason_code)
consistent_for RunStatus.failed r =
    not r.success
    && not r.timed_out
    && not (is_cancelled_reason r.stop_reason)
    && not (is_timeout_reason r.stop_reason)
    && is_nonempty r.error_class
    && is_some r.reason_code
consistent_for RunStatus.cancelled r =
    not r.success && not r.timed_out && is_cancelled_reason r.stop_reason
consistent_for RunStatus.timed_out r =
    not r.success && r.timed_out && is_timeout_reason r.stop_reason
consistent_for _ r = false

-- `hasConsistentResultStatus` on the record of a run whose child has started, with no error.
unfoldable pub has_consistent_result_status : RunResult → Bool
unfolding consistent_for terminal_run_task_status
has_consistent_result_status r =
    status_eq
      (terminal_run_task_status record {
        success = r.success;
        timed_out = r.timed_out;
        stop_reason = r.stop_reason;
        status = none;
      })
      r.status
    && consistent_for r.status r
