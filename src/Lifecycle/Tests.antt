-- ===== src/Lifecycle/Tests.antt =====
-- Terminal states of concrete results.
use subagent.Common.{◌≡◌, refl, false, none, some, arith}
use subagent.Lifecycle.{
  RunStopReason, TerminalStatusInput, terminal_run_task_status, terminal_run_task_event_details,
  event_of, status-matches-event,
}

abbrev failed_run : TerminalStatusInput
failed_run = record {
  success = false;
  timed_out = false;
  stop_reason = RunStopReason.spawn_error;
  status = none;
}

status-matches-event_example :
    event_of (terminal_run_task_status failed_run)
    ≡ some (terminal_run_task_event_details false RunStopReason.spawn_error)
status-matches-event_example = status-matches-event failed_run refl (λ h. ground arith)
