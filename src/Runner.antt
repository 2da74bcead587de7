-- ===== src/Runner.antt =====
-- src/processRunner.ts: `runChildProcess` after the child is spawned, as a state machine over the
-- events of its timers, its child and its callbacks (on a platform with process groups).
pub mod Ending
mod Exit
pub mod Termination
pub mod Settling
mod Tests
use subagent.Common.{
  ℕ, ◌≡◌, Bool, true, false, not, ◌&&◌, ◌||◌, Option, none, some, List, [], ◌∷◌, ◌++◌, nat_eq,
  if◌then◌else◌,
}
use subagent.Lifecycle.{RunStopReason}

pub data Signal : Type 0 where
  sigterm sigkill other_signal : Signal

-- `ProcessRunResult` without its duration.
pub record ProcessRunResult : Type 0 where
  pub exit_code : Option ℕ
  pub stop_signal : Option Signal
  pub timed_out : Bool
  pub cancelled : Bool
  pub resource_exhausted : Bool
  pub stop_reason : RunStopReason

-- One call of `signalOwnedProcessGroups`: the signal, and whether the child's own group is meant too.
pub record GroupSignal : Type 0 where
  pub signal : Signal
  pub with_child_group : Bool

-- The variables of `runChildProcess`. `signals` are those of `signalChild` and `group_signals` those
-- to the process groups, oldest first; a timer or a listener that is set is `armed`. The settlement of
-- the process groups is started once, and waits for their end before it kills them.
pub record Runner : Type 0 where
  pub timed_out : Bool
  pub cancelled : Bool
  pub resource_exhausted : Bool
  pub closed : Bool
  pub spawn_error : Bool
  pub spawn_observation_error : Bool
  pub output_error : Bool
  pub termination_started : Bool
  pub last_signal_sent : Option Signal
  pub signals : List Signal
  pub group_signals : List GroupSignal
  pub settlement_started : Bool
  pub settlement_waits : Bool
  pub exit_armed : Bool
  pub timeout_armed : Bool
  pub kill_armed : Bool
  pub force_armed : Bool
  pub abort_armed : Bool
  pub disk_armed : Bool
  pub disk_check_in_flight : Bool
  pub settled : Option ProcessRunResult

-- The state once the listeners and timers are set: `limited` says that there is a timeout, and
-- `guarded` that there is a disk reserve to watch.
unfoldable pub spawned : Bool → Bool → Runner
spawned limited guarded = record {
  timed_out = false;
  cancelled = false;
  resource_exhausted = false;
  closed = false;
  spawn_error = false;
  spawn_observation_error = false;
  output_error = false;
  termination_started = false;
  last_signal_sent = none;
  signals = [];
  group_signals = [];
  settlement_started = false;
  settlement_waits = false;
  exit_armed = true;
  timeout_armed = limited;
  kill_armed = false;
  force_armed = false;
  abort_armed = true;
  disk_armed = guarded;
  disk_check_in_flight = false;
  settled = none;
}

pub data DiskCheck : Type 0 where
  enough low check_failed : DiskCheck

pub data Event : Type 0 where
  -- the owner's commit or its release frame failed
  spawn_rejected : Event
  -- the child's `error` event
  spawn_failed : Event
  timeout_fires aborts : Event
  disk_check_starts : Event
  disk_check_ends : DiskCheck → Event
  -- a line or a stream failed; whether for lack of disk space
  output_fails : Bool → Event
  kill_fires : Event
  -- whether all process groups are gone
  force_fires : Bool → Event
  closes : Event
  -- `settleEpisodeProcessGroups` begins, at the child's exit or close, and says whether all process
  -- groups are gone; later its grace ends and it kills them
  settlement_starts : Bool → Event
  settlement_kills : Event
  -- the settlement of the process groups after `close`: whether they are gone, the exit code and
  -- the signal of the child
  groups_settle : Bool → Option ℕ → Option Signal → Event

abbrev pub is_zero : Option ℕ → Bool
is_zero none = false
is_zero (some n) = nat_eq n 0

unfoldable pub stop_reason_of : Runner → Option ℕ → RunStopReason
stop_reason_of s code =
    if s.spawn_error
    then RunStopReason.spawn_error
    else if s.resource_exhausted
    then RunStopReason.resource_exhausted
    else if s.timed_out
    then RunStopReason.timeout
    else if s.cancelled
    then RunStopReason.cancelled
    else if is_zero code && not s.output_error
    then RunStopReason.completed
    else RunStopReason.failed

unfoldable pub result_of : Runner → Option ℕ → Option Signal → ProcessRunResult
unfolding stop_reason_of
result_of s code signal = record {
  exit_code = if s.spawn_error then none else code;
  stop_signal = if s.spawn_error then none else signal;
  timed_out = s.timed_out;
  cancelled = s.cancelled;
  resource_exhausted = s.resource_exhausted;
  stop_reason = stop_reason_of s code;
}

-- `finish` on a run that is not settled: the result is fixed and every timer is cleared.
unfoldable pub finished : Runner → Option ℕ → Option Signal → Runner
finished s code signal = record s {
  settled = some (result_of s code signal);
  timeout_armed = false;
  kill_armed = false;
  force_armed = false;
  abort_armed = false;
  disk_armed = false;
  exit_armed = false;
}

-- What `finish` makes of the promise of a run, once the output lines queued before it are done: their
-- chain itself fails only with the failed spawn observation.
pub data RunPromise : Type 0 where
  unsettled rejects : RunPromise
  resolves : ProcessRunResult → RunPromise

unfoldable pub run_promise : Runner → RunPromise
run_promise s = elim s.settled [
  | none ↦ unsettled
  | some r ↦ if s.spawn_observation_error then rejects else resolves r
]

finish_if : Option ProcessRunResult → Runner → Option ℕ → Option Signal → Runner
finish_if (some r) s code signal = s
finish_if none s code signal = finished s code signal

unfoldable pub finish : Runner → Option ℕ → Option Signal → Runner
unfolding finish_if
finish s code signal = finish_if s.settled s code signal

signal_child : Runner → Signal → Runner
signal_child s signal = record s {
  last_signal_sent = some signal;
  signals = s.signals ++ signal ∷ [];
}

signal_groups : Runner → Signal → Bool → Runner
signal_groups s signal with_child_group = record s {
  group_signals =
      s.group_signals ++ record { signal = signal; with_child_group = with_child_group } ∷ [];
}

unfoldable pub start_graceful_termination : Runner → Runner
unfolding signal_child signal_groups
start_graceful_termination s =
    if s.termination_started
    then s
    else record (signal_groups (signal_child s sigterm) sigterm false) {
      termination_started = true;
      kill_armed = true;
      force_armed = true;
    }

abbrev pub is_settled : Runner → Bool
is_settled s = elim s.settled [ none ↦ false | some r ↦ true ]

end_disk_check : Runner → DiskCheck → Runner
unfolding start_graceful_termination
end_disk_check s enough = record s { disk_check_in_flight = false }
end_disk_check s low =
    start_graceful_termination
      (record s { disk_check_in_flight = false; resource_exhausted = true })
end_disk_check s check_failed =
    start_graceful_termination (record s { disk_check_in_flight = false; output_error = true })

-- `cleanupOnParentExit`, at the exit of the process that runs the child: nothing follows it.
unfoldable pub cleanup_on_parent_exit : Runner → Runner
unfolding signal_child signal_groups
cleanup_on_parent_exit s =
    if not s.exit_armed
    then s
    else if not (is_settled s) && not s.closed
    then signal_groups (signal_child s sigkill) sigkill true
    else signal_groups s sigkill true

-- `settleEpisodeProcessGroups` on its first call, on its later ones, and after its first wait.
unfoldable pub start_settlement : Runner → Bool → Runner
unfolding signal_groups
start_settlement s absent =
    if s.settlement_started
    then s
    else if absent
    then record s { settlement_started = true }
    else if s.termination_started
    then record s { settlement_started = true; settlement_waits = true }
    else record (signal_groups s sigterm true) {
      settlement_started = true;
      settlement_waits = true;
    }

unfoldable pub kill_groups : Runner → Runner
unfolding signal_groups
kill_groups s =
    if s.settlement_waits
    then record (signal_groups s sigkill true) { settlement_waits = false }
    else s

unfoldable pub step : Runner → Event → Runner
unfolding start_graceful_termination signal_child signal_groups finish end_disk_check
    start_settlement kill_groups
step s spawn_rejected =
    start_graceful_termination (record s { spawn_observation_error = true; output_error = true })
step s spawn_failed = record s { spawn_error = true }
step s timeout_fires =
    if s.timeout_armed
    then start_graceful_termination (record s { timed_out = true; timeout_armed = false })
    else s
step s aborts =
    if s.abort_armed
    then (if is_settled s || s.closed
        then record s { abort_armed = false }
        else start_graceful_termination (record s { cancelled = true; abort_armed = false }))
    else s
step s disk_check_starts =
    if not s.disk_armed || s.disk_check_in_flight || is_settled s || s.resource_exhausted
    then s
    else record s { disk_check_in_flight = true }
step s (disk_check_ends outcome) = if s.disk_check_in_flight then end_disk_check s outcome else s
step s (output_fails for_space) =
    start_graceful_termination
      (record s { output_error = true; resource_exhausted = s.resource_exhausted || for_space })
step s kill_fires =
    if s.kill_armed
    then (if s.closed
        then signal_groups (signal_groups (record s { kill_armed = false }) sigkill true) sigkill
            false
        else signal_groups (signal_child (record s { kill_armed = false }) sigkill) sigkill false)
    else s
step s (force_fires groups_absent) =
    if s.force_armed
    then (if s.closed
        then record s { force_armed = false }
        else finish
            (record s { force_armed = false; output_error = s.output_error || not groups_absent })
            none s.last_signal_sent)
    else s
step s closes = record s { closed = true }
step s (settlement_starts absent) = start_settlement s absent
step s settlement_kills = kill_groups s
step s (groups_settle gone code signal) =
    if s.closed
    then (if gone
        then finish s code signal
        else finish (record s { output_error = true }) none none)
    else s

unfoldable pub run : Runner → List Event → Runner
unfolding step
run s [] = s
run s (e ∷ es) = run (step s e) es
