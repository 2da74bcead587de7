-- ===== src/Runner/Tests.antt =====
-- Runs of the state machine on concrete events.
use subagent.Common.{◌≡◌, refl, true, false, none, some, List, [], ◌∷◌}
use subagent.Lifecycle.{RunStopReason}
use subagent.Runner.{
  cleanup_on_parent_exit, run_promise, rejects, spawn_rejected, Runner, Event, timeout_fires,
  kill_fires, force_fires, closes, groups_settle, sigterm, sigkill, is_settled, spawned, step, run,
  finished, result_of,
}
use subagent.Runner.Ending.{Settles, run-spawned-Settles}
use subagent.Runner.Settling.{termination_ends}

abbrev stubborn : List Event
stubborn = timeout_fires ∷ kill_fires ∷ force_fires false ∷ []

abbrev stubborn_end : Runner
stubborn_end = run (spawned true false) stubborn

stubborn-signals : stubborn_end.signals ≡ sigterm ∷ sigkill ∷ []
unfolding run spawned finished result_of
stubborn-signals = refl

stubborn-stop :
    (step stubborn_end closes).settled
    ≡ some record {
      exit_code = none;
      stop_signal = some sigkill;
      timed_out = true;
      cancelled = false;
      resource_exhausted = false;
      stop_reason = RunStopReason.timeout;
    }
unfolding run spawned finished result_of
stubborn-stop = refl

-- The process exits while its child is being terminated.
orphaned-signals :
    (cleanup_on_parent_exit (run (spawned true false) (timeout_fires ∷ []))).signals
    ≡ sigterm ∷ sigkill ∷ []
unfolding run spawned cleanup_on_parent_exit
orphaned-signals = refl

-- A run whose owner did not commit settles, and its promise is rejected.
unobserved-run_promise :
    run_promise
      (run (spawned false false) (spawn_rejected ∷ closes ∷ groups_settle true none none ∷ []))
    ≡ rejects
unfolding run spawned finished result_of run_promise
unobserved-run_promise = refl

run-spawned-Settles_example : Settles stubborn_end
run-spawned-Settles_example = run-spawned-Settles true false stubborn

termination_ends_example :
    is_settled (
      run
        (run (spawned true false) (timeout_fires ∷ []))
        (force_fires false ∷ groups_settle true none none ∷ []))
    ≡ true
unfolding run spawned finished result_of
termination_ends_example =
    termination_ends true false (timeout_fires ∷ []) true false none none refl
