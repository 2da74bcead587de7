-- ===== src/Runner/Exit.antt =====
-- src/processRunner.ts: the listener of the process's exit stays until the run has settled.
use subagent.Common.{
  ◌≡◌, refl, Bool, true, false, not, Option, none, some, List, [], ◌∷◌, arith, ℕ, ◌||◌,
  if◌then◌else◌,
}
use subagent.Runner.{
  signal_groups, start_settlement, kill_groups, settlement_starts, settlement_kills, finish_if,
  finish, finished, start_graceful_termination, signal_child, is_settled, Signal, end_disk_check,
  Runner, Event, spawn_rejected, spawn_failed, timeout_fires, aborts, disk_check_starts,
  disk_check_ends, output_fails, kill_fires, force_fires, closes, groups_settle, enough, low,
  check_failed, ProcessRunResult, step, run,
}

-- The listener is there, or the run has settled.
abbrev pub IsArmed : Runner → Type 0
IsArmed s = (s.exit_armed || is_settled s) ≡ true

finish_if-IsArmed :
    (o : Option ProcessRunResult) (s : Runner) (code : Option ℕ) (signal : Option Signal)
    → s.settled ≡ o
    → IsArmed (finish_if o s code signal)
unfolding finish_if finished
finish_if-IsArmed (some r) s code signal e = ground (arith, e)
finish_if-IsArmed none s code signal e = refl

finish-IsArmed :
    (s : Runner) (code : Option ℕ) (signal : Option Signal) → IsArmed (finish s code signal)
unfolding finish
finish-IsArmed s code signal = finish_if-IsArmed s.settled s code signal refl

if-IsArmed : (b : Bool) (s t : Runner) → IsArmed s → IsArmed t → IsArmed (if b then s else t)
if-IsArmed true s t h k = h
if-IsArmed false s t h k = k

graceful-IsArmed : (s : Runner) → IsArmed s → IsArmed (start_graceful_termination s)
unfolding start_graceful_termination signal_child signal_groups
graceful-IsArmed s h = if-IsArmed s.termination_started s _ h h

step-IsArmed : (s : Runner) (e : Event) → IsArmed s → IsArmed (step s e)
unfolding step signal_child signal_groups end_disk_check start_settlement kill_groups
step-IsArmed s spawn_rejected h = graceful-IsArmed _ h
step-IsArmed s spawn_failed h = h
step-IsArmed s timeout_fires h = if-IsArmed s.timeout_armed _ s (graceful-IsArmed _ h) h
step-IsArmed s aborts h =
    if-IsArmed s.abort_armed _ s
      (if-IsArmed (is_settled s || s.closed) _ _ h (graceful-IsArmed _ h)) h
step-IsArmed s disk_check_starts h = if-IsArmed _ s _ h h
step-IsArmed s (disk_check_ends enough) h = if-IsArmed s.disk_check_in_flight _ s h h
step-IsArmed s (disk_check_ends low) h =
    if-IsArmed s.disk_check_in_flight _ s (graceful-IsArmed _ h) h
step-IsArmed s (disk_check_ends check_failed) h =
    if-IsArmed s.disk_check_in_flight _ s (graceful-IsArmed _ h) h
step-IsArmed s (output_fails for_space) h = graceful-IsArmed _ h
step-IsArmed s kill_fires h = if-IsArmed s.kill_armed _ s (if-IsArmed s.closed _ _ h h) h
step-IsArmed s (force_fires gone) h =
    if-IsArmed s.force_armed _ s
      (if-IsArmed s.closed _ _ h (
        finish-IsArmed (record s { force_armed = false; output_error = s.output_error || not gone })
          none s.last_signal_sent))
      h
step-IsArmed s closes h = h
step-IsArmed s (settlement_starts absent) h =
    if-IsArmed s.settlement_started _ _ h
      (if-IsArmed absent _ _ h (if-IsArmed s.termination_started _ _ h h))
step-IsArmed s settlement_kills h = if-IsArmed s.settlement_waits _ s h h
step-IsArmed s (groups_settle gone code signal) h =
    if-IsArmed s.closed _ s
      (if-IsArmed gone _ _ (finish-IsArmed s code signal)
        (finish-IsArmed (record s { output_error = true }) none none))
      h

pub run-IsArmed : (s : Runner) (es : List Event) → IsArmed s → IsArmed (run s es)
unfolding run
run-IsArmed s [] h = h
run-IsArmed s (e ∷ es) h = run-IsArmed (step s e) es (step-IsArmed s e h)
