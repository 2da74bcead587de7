-- ===== src/Runner/Ending.antt =====
-- src/processRunner.ts: a run settles once, and its stop reason follows its flags.
use subagent.Common.{
  ◌≡◌, refl, Bool, true, false, Option, none, some, List, [], ◌∷◌, arith, inl, inr, ℕ, ◌||◌, subst,
  Bool-cases, if◌then◌else◌,
}
use subagent.Lifecycle.{RunStopReason}
use subagent.Runner.{
  result_of, finish_if, finish, finished, start_graceful_termination, is_settled, Signal, Runner,
  Event, spawn_rejected, spawn_failed, timeout_fires, aborts, disk_check_starts, disk_check_ends,
  start_settlement, kill_groups, signal_groups, settlement_starts, settlement_kills, output_fails,
  kill_fires, force_fires, closes, groups_settle, enough, low, check_failed, ProcessRunResult,
  spawned, step, run, is_zero,
}

step-settled :
    (s : Runner) (e : Event) (r : ProcessRunResult)
    → s.settled ≡ some r
    → (step s e).settled ≡ some r
unfolding step start_settlement kill_groups
step-settled s (disk_check_ends enough) r h = ground arith
step-settled s (disk_check_ends low) r h = ground arith
step-settled s (disk_check_ends check_failed) r h = ground arith
step-settled s (groups_settle gone code signal) r h = ground arith
step-settled s (settlement_starts absent) r h = ground arith
step-settled s settlement_kills r h = ground arith
step-settled s _ r h = ground arith

-- The first result is the only one: whatever fires later, it does not change.
pub run-settled :
    (s : Runner) (es : List Event) (r : ProcessRunResult)
    → s.settled ≡ some r
    → (run s es).settled ≡ some r
unfolding run
run-settled s [] r h = h
run-settled s (e ∷ es) r h = run-settled (step s e) es r (step-settled s e r h)

-- What the fields of a result say of its stop reason.
pub record IsClassified (r : ProcessRunResult) : Type 0 where
  pub on_completed :
      (r.stop_reason ≡ RunStopReason.completed)
      → (is_zero r.exit_code ≡ true)
        × (r.timed_out ≡ false)
        × (r.cancelled ≡ false)
        × (r.resource_exhausted ≡ false)
  pub on_failed :
      (r.stop_reason ≡ RunStopReason.failed)
      → (r.timed_out ≡ false) × (r.cancelled ≡ false) × (r.resource_exhausted ≡ false)
  pub on_cancelled :
      (r.stop_reason ≡ RunStopReason.cancelled)
      → (r.cancelled ≡ true) × (r.timed_out ≡ false) × (r.resource_exhausted ≡ false)
  pub on_timeout :
      (r.stop_reason ≡ RunStopReason.timeout)
      → (r.timed_out ≡ true) × (r.resource_exhausted ≡ false)
  pub on_resource_exhausted :
      (r.stop_reason ≡ RunStopReason.resource_exhausted) → r.resource_exhausted ≡ true
  pub on_spawn_error :
      (r.stop_reason ≡ RunStopReason.spawn_error) → (r.exit_code ≡ none) × (r.stop_signal ≡ none)

-- A state whose result, if it has one, is classified.
abbrev pub Settles : Runner → Type 0
Settles s = (r : ProcessRunResult) → s.settled ≡ some r → IsClassified r

result_of-IsClassified :
    (s : Runner) (code : Option ℕ) (signal : Option Signal) → IsClassified (result_of s code signal)
unfolding result_of
result_of-IsClassified s code signal = record {
  on_completed = ground arith;
  on_failed = ground arith;
  on_cancelled = ground arith;
  on_timeout = ground arith;
  on_resource_exhausted = ground arith;
  on_spawn_error = ground arith;
}

finish_if-Settles :
    (o : Option ProcessRunResult) (s : Runner) (code : Option ℕ) (signal : Option Signal)
    → s.settled ≡ o
    → Settles s
    → Settles (finish_if o s code signal)
unfolding finish_if finished
finish_if-Settles (some x) s code signal e h = h
finish_if-Settles none s code signal e h =
    λ r q. subst IsClassified (cc q) (result_of-IsClassified s code signal)

finish-Settles :
    (s : Runner) (code : Option ℕ) (signal : Option Signal)
    → Settles s
    → Settles (finish s code signal)
unfolding finish
finish-Settles s code signal h = finish_if-Settles s.settled s code signal refl h

graceful-Settles : (s : Runner) → Settles s → Settles (start_graceful_termination s)
unfolding start_graceful_termination
graceful-Settles s h = elim (Bool-cases s.termination_started) [
  | inl e ↦ rw (e, start_graceful_termination) h
  | inr e ↦ rw (e, start_graceful_termination) h
]

if-Settles : (b : Bool) (s t : Runner) → Settles s → Settles t → Settles (if b then s else t)
if-Settles true s t h k = h
if-Settles false s t h k = k

step-Settles : (s : Runner) (e : Event) → Settles s → Settles (step s e)
unfolding step start_settlement kill_groups signal_groups
step-Settles s spawn_rejected h = graceful-Settles _ h
step-Settles s spawn_failed h = h
step-Settles s timeout_fires h = if-Settles s.timeout_armed _ s (graceful-Settles _ h) h
step-Settles s aborts h =
    if-Settles s.abort_armed _ s
      (if-Settles (is_settled s || s.closed) _ _ h (graceful-Settles _ h)) h
step-Settles s disk_check_starts h = if-Settles _ s _ h h
step-Settles s (disk_check_ends enough) h = if-Settles s.disk_check_in_flight _ s h h
step-Settles s (disk_check_ends low) h =
    if-Settles s.disk_check_in_flight _ s (graceful-Settles _ h) h
step-Settles s (disk_check_ends check_failed) h =
    if-Settles s.disk_check_in_flight _ s (graceful-Settles _ h) h
step-Settles s (output_fails for_space) h = graceful-Settles _ h
step-Settles s kill_fires h = if-Settles s.kill_armed _ s (if-Settles s.closed _ _ h h) h
step-Settles s (force_fires gone) h =
    if-Settles s.force_armed _ s
      (if-Settles s.closed _ _ h (finish-Settles _ none s.last_signal_sent h)) h
step-Settles s closes h = h
step-Settles s (settlement_starts absent) h =
    if-Settles s.settlement_started _ _ h
      (if-Settles absent _ _ h (if-Settles s.termination_started _ _ h h))
step-Settles s settlement_kills h = if-Settles s.settlement_waits _ s h h
step-Settles s (groups_settle gone code signal) h =
    if-Settles s.closed _ s
      (if-Settles gone _ _ (finish-Settles s code signal h) (finish-Settles _ none none h)) h

run-Settles : (s : Runner) (es : List Event) → Settles s → Settles (run s es)
unfolding run
run-Settles s [] h = h
run-Settles s (e ∷ es) h = run-Settles (step s e) es (step-Settles s e h)

-- Whatever happens to a spawned child, the result that it settles with is classified: its stop
-- reason is completed only with exit code 0 and no flag set, cancelled or timeout only with that
-- flag and none that goes before it, and after a spawn error it has no exit code and no signal.
pub run-spawned-Settles :
    (limited guarded : Bool) (es : List Event) → Settles (run (spawned limited guarded) es)
unfolding spawned
run-spawned-Settles limited guarded es = run-Settles _ es (λ r q. cc)
