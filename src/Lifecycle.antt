-- ===== src/Lifecycle.antt =====
-- src/runLifecycle.ts: the terminal status and the terminal event of a run.
mod Tests
use Prim.Native.String.{◌++◌ as str_append}
use subagent.Common.{
  ◌≡◌, ◌≢◌, Bool, true, false, ◌||◌, Option, none, some, String, arith, if◌then◌else◌, ◌↔◌,
}

-- `RunStopReason` and `RunStatus` of src/types.ts.
pub data RunStopReason : Type 0 where
  completed failed timeout cancelled spawn_error resource_exhausted : RunStopReason

pub data RunStatus : Type 0 where
  working input_required completed failed cancelled timed_out : RunStatus

-- `RunTaskActivePhase`.
pub data Phase : Type 0 where
  starting queued awaiting_child_event running_silent running input_required cancelling timed_out
        cancelled completed failed :
      Phase

-- `RunTaskTerminalEventName`.
pub data TerminalEvent : Type 0 where
  cancellation_settled timeout completed failed : TerminalEvent

pub record TerminalStatusInput : Type 0 where
  pub success : Bool
  pub timed_out : Bool
  pub stop_reason : RunStopReason
  pub status : Option RunStatus

pub record TerminalEventDetails : Type 0 where
  pub phase : Phase
  pub event : TerminalEvent
  pub text : String
  pub progress_message : String

abbrev pub is_cancelled_reason : RunStopReason → Bool
is_cancelled_reason RunStopReason.cancelled = true
is_cancelled_reason _ = false

abbrev pub is_timeout_reason : RunStopReason → Bool
is_timeout_reason RunStopReason.timeout = true
is_timeout_reason _ = false

abbrev is_cancelled_status : Option RunStatus → Bool
is_cancelled_status (some RunStatus.cancelled) = true
is_cancelled_status _ = false

abbrev is_timed_out_status : Option RunStatus → Bool
is_timed_out_status (some RunStatus.timed_out) = true
is_timed_out_status _ = false

unfoldable pub terminal_run_task_status : TerminalStatusInput → RunStatus
terminal_run_task_status r =
    if is_cancelled_reason r.stop_reason || is_cancelled_status r.status
    then RunStatus.cancelled
    else if r.timed_out || is_timeout_reason r.stop_reason || is_timed_out_status r.status
    then RunStatus.timed_out
    else if r.success
    then RunStatus.completed
    else RunStatus.failed

unfoldable pub terminal_run_task_event_details : Bool → RunStopReason → TerminalEventDetails
terminal_run_task_event_details success reason =
    if is_cancelled_reason reason
    then record {
      phase = Phase.cancelled;
      event = TerminalEvent.cancellation_settled;
      text = "[cancellation_settled] run cancelled";
      progress_message = "run cancelled";
    }
    else if is_timeout_reason reason
    then record {
      phase = Phase.timed_out;
      event = TerminalEvent.timeout;
      text = "[timeout] run timed out";
      progress_message = "run timed out";
    }
    else if success
    then record {
      phase = Phase.completed;
      event = TerminalEvent.completed;
      text = "[completed] run completed";
      progress_message = "run completed";
    }
    else record {
      phase = Phase.failed;
      event = TerminalEvent.failed;
      text = "[failed] run failed";
      progress_message = "run failed";
    }

-- What a terminal event says: its name in brackets, and the run's end in words.
abbrev announced : String → String → String
announced name said = str_append "[" (str_append name (str_append "] " said))

-- The terminal event that stands for a terminal status.
abbrev event_of : RunStatus → Option TerminalEventDetails
event_of RunStatus.completed = some record {
  phase = Phase.completed;
  event = TerminalEvent.completed;
  text = announced "completed" "run completed";
  progress_message = "run completed";
}
event_of RunStatus.failed = some record {
  phase = Phase.failed;
  event = TerminalEvent.failed;
  text = announced "failed" "run failed";
  progress_message = "run failed";
}
event_of RunStatus.cancelled = some record {
  phase = Phase.cancelled;
  event = TerminalEvent.cancellation_settled;
  text = announced "cancellation_settled" "run cancelled";
  progress_message = "run cancelled";
}
event_of RunStatus.timed_out = some record {
  phase = Phase.timed_out;
  event = TerminalEvent.timeout;
  text = announced "timeout" "run timed out";
  progress_message = "run timed out";
}
event_of RunStatus.working = none
event_of RunStatus.input_required = none

-- For a result whose flags agree with its stop reason, the status and the event tell the same end:
-- where `timed_out` is set only with the stop reason for it and no status was given before, the
-- terminal event is the one that stands for the terminal status, in its phase, its name, its text
-- and its progress message.
pub status-matches-event :
    (r : TerminalStatusInput)
    → r.status ≡ none
    → (r.timed_out ≡ true → r.stop_reason ≡ RunStopReason.timeout)
    → event_of (terminal_run_task_status r)
      ≡ some (terminal_run_task_event_details r.success r.stop_reason)
unfolding terminal_run_task_status terminal_run_task_event_details
status-matches-event r e h = ground arith

-- A run is reported completed exactly when it succeeded and neither its stop reason nor a status
-- given before says that it was cancelled or timed out.
pub completed_iff :
    (r : TerminalStatusInput)
    → (terminal_run_task_status r ≡ RunStatus.completed) ↔ (
        (r.success ≡ true)
        × (r.timed_out ≡ false)
        × (r.stop_reason ≢ RunStopReason.cancelled)
        × (r.stop_reason ≢ RunStopReason.timeout)
        × (r.status ≢ some RunStatus.cancelled)
        × (r.status ≢ some RunStatus.timed_out))
unfolding terminal_run_task_status
completed_iff r = ground arith
