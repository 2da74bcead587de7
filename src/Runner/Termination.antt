-- ===== src/Runner/Termination.antt =====
-- src/processRunner.ts: SIGTERM comes first, and SIGKILL once and after it.
use subagent.Common.{
  ◌≡◌, ◌⊎◌, inl, inr, Bool-cases, subst, refl, Bool, true, false, not, ◌&&◌, Option, none, some,
  List, [], ◌∷◌, ◌++◌, arith, ℕ, ◌||◌, if◌then◌else◌,
}
use subagent.Runner.Exit.{IsArmed, run-IsArmed}
use subagent.Runner.{
  signal_groups, GroupSignal, start_settlement, kill_groups, settlement_starts, settlement_kills,
  cleanup_on_parent_exit, finish_if, finish, finished, start_graceful_termination, signal_child,
  is_settled, Signal, sigterm, sigkill, end_disk_check, Runner, Event, spawn_rejected, spawn_failed,
  timeout_fires, aborts, disk_check_starts, disk_check_ends, output_fails, kill_fires, force_fires,
  closes, groups_settle, enough, low, check_failed, ProcessRunResult, spawned, step, run,
}

-- How far the termination of a child has come.
pub data IsEscalating : Bool → Bool → Bool → List Signal → Type 0 where
  idle : IsEscalating false false false []
  terminating : {kill force : Bool} → IsEscalating true kill force (sigterm ∷ [])
  killed : {force : Bool} → IsEscalating true false force (sigterm ∷ sigkill ∷ [])

-- A child whose termination has started has its force timer, has closed, or its run is settled; a
-- run that timed out, was cancelled or ran out of disk has started its termination.
pub record IsConsistent (s : Runner) : Type 0 where
  pub escalation : IsEscalating s.termination_started s.kill_armed s.force_armed s.signals
  pub will_end : s.termination_started ≡ true → (s.force_armed || s.closed || is_settled s) ≡ true
  pub has_started :
      (s.timed_out || s.cancelled || s.resource_exhausted) ≡ true → s.termination_started ≡ true

spawned-IsConsistent : (limited guarded : Bool) → IsConsistent (spawned limited guarded)
unfolding spawned
spawned-IsConsistent limited guarded = record {
  escalation = idle;
  will_end = λ h. ground arith;
  has_started = λ h. ground arith;
}

pub disarmed :
    {t k f : Bool} {ss : List Signal} → IsEscalating t k f ss → IsEscalating t false false ss
disarmed idle = idle
disarmed terminating = terminating
disarmed killed = killed

force_off : {t k f : Bool} {ss : List Signal} → IsEscalating t k f ss → IsEscalating t k false ss
force_off idle = idle
force_off terminating = terminating
force_off killed = killed

not_started-idle : {t k f : Bool} {ss : List Signal} → IsEscalating t k f ss → t ≡ false → ss ≡ []
not_started-idle idle e = refl
not_started-idle terminating e = ground arith
not_started-idle killed e = ground arith

pub started : {ss : List Signal} → ss ≡ [] → IsEscalating true true true (ss ++ sigterm ∷ [])
started e = rw e terminating

if-IsConsistent :
    (b : Bool) (s t : Runner)
    → (b ≡ true → IsConsistent s)
    → (b ≡ false → IsConsistent t)
    → IsConsistent (if b then s else t)
if-IsConsistent true s t h k = h refl
if-IsConsistent false s t h k = k refl

graceful-IsConsistent :
    (s : Runner)
    → IsEscalating s.termination_started s.kill_armed s.force_armed s.signals
    → (s.termination_started ≡ true → (s.force_armed || s.closed || is_settled s) ≡ true)
    → IsConsistent (start_graceful_termination s)
unfolding start_graceful_termination signal_child signal_groups
graceful-IsConsistent s h w =
    if-IsConsistent s.termination_started s _
      (λ e. record { escalation = h; will_end = w; has_started = λ _. e })
      (λ e. record {
        escalation = started (not_started-idle h e);
        will_end = λ _. refl;
        has_started = λ _. refl;
      })

finish_if-IsConsistent :
    (o : Option ProcessRunResult) (s : Runner) (code : Option ℕ) (signal : Option Signal)
    → s.settled ≡ o
    → IsEscalating s.termination_started s.kill_armed s.force_armed s.signals
    → ((s.timed_out || s.cancelled || s.resource_exhausted) ≡ true → s.termination_started ≡ true)
    → IsConsistent (finish_if o s code signal)
unfolding finish_if finished
finish_if-IsConsistent (some r) s code signal e h k = record {
  escalation = h;
  will_end = λ _. ground (arith, e);
  has_started = k;
}
finish_if-IsConsistent none s code signal e h k = record {
  escalation = disarmed h;
  will_end = λ _. ground arith;
  has_started = k;
}

finish-IsConsistent :
    (s : Runner) (code : Option ℕ) (signal : Option Signal)
    → IsEscalating s.termination_started s.kill_armed s.force_armed s.signals
    → ((s.timed_out || s.cancelled || s.resource_exhausted) ≡ true → s.termination_started ≡ true)
    → IsConsistent (finish s code signal)
unfolding finish
finish-IsConsistent s code signal h k = finish_if-IsConsistent s.settled s code signal refl h k

kill-escalates :
    {t k f : Bool} {ss : List Signal}
    → IsEscalating t k f ss
    → k ≡ true
    → IsEscalating t false f (ss ++ sigkill ∷ [])
kill-escalates idle e = ground arith
kill-escalates terminating e = killed
kill-escalates killed e = ground arith

kill_off : {t k f : Bool} {ss : List Signal} → IsEscalating t k f ss → IsEscalating t false f ss
kill_off idle = idle
kill_off terminating = terminating
kill_off killed = killed

same_run :
    (s : Runner) (g : List GroupSignal) (started waits : Bool)
    → IsConsistent s
    → IsConsistent
        (record s { group_signals = g; settlement_started = started; settlement_waits = waits })
same_run s g started waits h = record {
  escalation = h.escalation;
  will_end = h.will_end;
  has_started = h.has_started;
}

step-IsConsistent : (s : Runner) (e : Event) → IsConsistent s → IsConsistent (step s e)
unfolding step signal_child signal_groups end_disk_check start_settlement kill_groups
step-IsConsistent s spawn_rejected h = graceful-IsConsistent _ h.escalation h.will_end
step-IsConsistent s spawn_failed h = record {
  escalation = h.escalation;
  will_end = h.will_end;
  has_started = h.has_started;
}
step-IsConsistent s timeout_fires h =
    if-IsConsistent s.timeout_armed _ s (λ _. graceful-IsConsistent _ h.escalation h.will_end)
      (λ _. h)
step-IsConsistent s aborts h =
    if-IsConsistent s.abort_armed _ s
      (λ _.
        if-IsConsistent (is_settled s || s.closed) _ _
          (λ _. record {
            escalation = h.escalation;
            will_end = h.will_end;
            has_started = h.has_started;
          })
          (λ _. graceful-IsConsistent _ h.escalation h.will_end))
      (λ _. h)
step-IsConsistent s disk_check_starts h =
    if-IsConsistent
      (not s.disk_armed || s.disk_check_in_flight || is_settled s || s.resource_exhausted) s
      (record s { disk_check_in_flight = true }) (λ _. h)
      (λ _. record {
        escalation = h.escalation;
        will_end = h.will_end;
        has_started = h.has_started;
      })
step-IsConsistent s (disk_check_ends enough) h =
    if-IsConsistent s.disk_check_in_flight _ s
      (λ _. record {
        escalation = h.escalation;
        will_end = h.will_end;
        has_started = h.has_started;
      })
      (λ _. h)
step-IsConsistent s (disk_check_ends low) h =
    if-IsConsistent s.disk_check_in_flight _ s
      (λ _. graceful-IsConsistent _ h.escalation h.will_end) (λ _. h)
step-IsConsistent s (disk_check_ends check_failed) h =
    if-IsConsistent s.disk_check_in_flight _ s
      (λ _. graceful-IsConsistent _ h.escalation h.will_end) (λ _. h)
step-IsConsistent s (output_fails for_space) h = graceful-IsConsistent _ h.escalation h.will_end
step-IsConsistent s kill_fires h =
    if-IsConsistent s.kill_armed _ s
      (λ k.
        if-IsConsistent s.closed _ _
          (λ _. record {
            escalation = kill_off h.escalation;
            will_end = h.will_end;
            has_started = h.has_started;
          })
          (λ _. record {
            escalation = kill-escalates h.escalation k;
            will_end = h.will_end;
            has_started = h.has_started;
          }))
      (λ _. h)
step-IsConsistent s (force_fires gone) h =
    if-IsConsistent s.force_armed _ s
      (λ _.
        if-IsConsistent s.closed _ _
          (λ c. record {
            escalation = force_off h.escalation;
            will_end = λ _. ground (arith, c);
            has_started = h.has_started;
          })
          (λ _.
            finish-IsConsistent
              (record s { force_armed = false; output_error = s.output_error || not gone }) none
              s.last_signal_sent (force_off h.escalation) h.has_started))
      (λ _. h)
step-IsConsistent s closes h = record {
  escalation = h.escalation;
  will_end = λ _. ground arith;
  has_started = h.has_started;
}
step-IsConsistent s (settlement_starts absent) h =
    if-IsConsistent s.settlement_started s _ (λ _. h)
      (λ _.
        if-IsConsistent absent _ _ (λ _. same_run s _ _ _ h)
          (λ _.
            if-IsConsistent s.termination_started _ _ (λ _. same_run s _ _ _ h)
              (λ _. same_run s _ _ _ h)))
step-IsConsistent s settlement_kills h =
    if-IsConsistent s.settlement_waits _ s (λ _. same_run s _ _ _ h) (λ _. h)
step-IsConsistent s (groups_settle gone code signal) h =
    if-IsConsistent s.closed _ s
      (λ _.
        if-IsConsistent gone _ _ (λ _. finish-IsConsistent s code signal h.escalation h.has_started)
          (λ _.
            finish-IsConsistent (record s { output_error = true }) none none h.escalation
              h.has_started))
      (λ _. h)

run-IsConsistent : (s : Runner) (es : List Event) → IsConsistent s → IsConsistent (run s es)
unfolding run
run-IsConsistent s [] h = h
run-IsConsistent s (e ∷ es) h = run-IsConsistent (step s e) es (step-IsConsistent s e h)

-- The signals of `signalChild` after the exit of the process that runs the child.
pub data IsKilled : List Signal → Type 0 where
  at_once : IsKilled (sigkill ∷ [])
  while_terminating : IsKilled (sigterm ∷ sigkill ∷ [])
  again : IsKilled (sigterm ∷ sigkill ∷ sigkill ∷ [])

-- At that exit a child that has not closed and whose run has not settled gets a SIGKILL.
abbrev pub IsCleaned : Runner → Type 0
IsCleaned s = ((is_settled s || s.closed) ≡ true) ⊎ IsKilled (cleanup_on_parent_exit s).signals

escalation-IsKilled :
    {t k f : Bool} {ss : List Signal} → IsEscalating t k f ss → IsKilled (ss ++ sigkill ∷ [])
escalation-IsKilled idle = at_once
escalation-IsKilled terminating = while_terminating
escalation-IsKilled killed = again

armed-IsCleaned : (s : Runner) → IsArmed s → IsConsistent s → IsCleaned s
unfolding cleanup_on_parent_exit signal_child signal_groups
armed-IsCleaned s h c = elim (Bool-cases (is_settled s || s.closed)) [
  | inl e ↦ inl e
  | inr e ↦ inr (
      subst IsKilled (killed_too (ground (arith, h, e)) (ground (arith, e)))
        (escalation-IsKilled c.escalation))
]
  where
    killed_too :
        s.exit_armed ≡ true
        → (not (is_settled s) && not s.closed) ≡ true
        → (s.signals ++ sigkill ∷ []) ≡ (cleanup_on_parent_exit s).signals
    killed_too a b = rw (a, b) refl

pub run-spawned-IsConsistent :
    (limited guarded : Bool) (es : List Event)
    → IsConsistent (run (spawned limited guarded) es) × IsCleaned (run (spawned limited guarded) es)
unfolding spawned
run-spawned-IsConsistent limited guarded es =
    let c = run-IsConsistent _ es (spawned-IsConsistent limited guarded) in
    (c, armed-IsCleaned _ (run-IsArmed (spawned limited guarded) es refl) c)
