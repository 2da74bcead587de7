-- ===== src/Runner/Settling.antt =====
-- src/processRunner.ts: a termination that has started ends.
use subagent.Common.{
  ◌≡◌, refl, Bool, true, false, not, Option, none, some, List, [], ◌∷◌, arith, ℕ, ◌||◌,
  if◌then◌else◌, if-satisfies,
}
use subagent.Runner.{
  finish_if, finish, finished, is_settled, Signal, Runner, Event, force_fires, groups_settle,
  ProcessRunResult, spawned, step, run,
}
use subagent.Runner.Termination.{run-spawned-IsConsistent}

finish_if-is_settled :
    (o : Option ProcessRunResult) (s : Runner) (code : Option ℕ) (signal : Option Signal)
    → s.settled ≡ o
    → is_settled (finish_if o s code signal) ≡ true
unfolding finish_if finished
finish_if-is_settled (some r) s code signal e = rw e refl
finish_if-is_settled none s code signal e = refl

finish-is_settled :
    (s : Runner) (code : Option ℕ) (signal : Option Signal)
    → is_settled (finish s code signal) ≡ true
unfolding finish
finish-is_settled s code signal = finish_if-is_settled s.settled s code signal refl

settle-is_settled :
    (s : Runner) (gone : Bool) (code : Option ℕ) (signal : Option Signal)
    → (s.closed || is_settled s) ≡ true
    → is_settled (step s (groups_settle gone code signal)) ≡ true
unfolding step
settle-is_settled s gone code signal h =
    let unresolved = record s { output_error = true } in
    if-satisfies (λ t. is_settled t ≡ true) s.closed
      (if gone then finish s code signal else finish unresolved none none) s
      (λ _.
        if-satisfies (λ t. is_settled t ≡ true) gone _ _ (λ _. finish-is_settled s code signal)
          (λ _. finish-is_settled unresolved none none))
      (λ c. ground (arith, c))

or-right : (a b : Bool) → b ≡ true → (a || b) ≡ true
or-right a b h = ground arith

force-is_settled :
    (s : Runner) (gone : Bool)
    → (s.force_armed || s.closed || is_settled s) ≡ true
    → ((step s (force_fires gone)).closed || is_settled (step s (force_fires gone))) ≡ true
unfolding step
force-is_settled s gone h =
    let forced = record s { force_armed = false; output_error = s.output_error || not gone } in
    let disarmed = record s { force_armed = false } in
    if-satisfies (λ t. (t.closed || is_settled t) ≡ true) s.force_armed
      (if s.closed then disarmed else finish forced none s.last_signal_sent) s
      (λ _.
        if-satisfies (λ t. (t.closed || is_settled t) ≡ true) s.closed disarmed _
          (λ c. ground (arith, c))
          (λ _. or-right _ _ (finish-is_settled forced none s.last_signal_sent)))
      (λ f. ground (arith, f))

-- In every run whose termination has started, once the force timer fires and the process groups'
-- settlement is then reported (which follows the child's close), the run is settled, whether or
-- not its processes are gone and whichever code and signal the child had.
pub termination_ends :
    (limited guarded : Bool) (es : List Event) (gone absent : Bool) (code : Option ℕ)
    (signal : Option Signal)
    → (run (spawned limited guarded) es).termination_started ≡ true
    → is_settled (
        run
          (run (spawned limited guarded) es)
          (force_fires absent ∷ groups_settle gone code signal ∷ []))
      ≡ true
unfolding run
termination_ends limited guarded es gone absent code signal h =
    let s = run (spawned limited guarded) es in
    settle-is_settled (step s (force_fires absent)) gone code signal
      (force-is_settled s absent ((run-spawned-IsConsistent limited guarded es).0.will_end h))
