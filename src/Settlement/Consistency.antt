-- ===== src/Settlement/Consistency.antt =====
-- src/runSubagent.ts and src/runTask.ts: which results pass the test of a terminal record.
use subagent.Common.{
  ◌≡◌, refl, Bool, true, false, not, ◌&&◌, some, arith, inl, inr, Bool-cases, if◌then◌else◌,
  is_blank, String, ◌||◌, subst, sym, FailureReasonCode,
}
use subagent.Lifecycle.{RunStopReason, is_cancelled_reason, is_timeout_reason}
use subagent.Runner.{ProcessRunResult, is_zero}
use subagent.Settlement.{
  Evidence, Taxonomy, TaxonomyInput, run_error_taxonomy, failure_taxonomy, classified, is_success,
  is_resource_reason, is_activation_failure, is_spawn_reason, is_fresh, is_nonzero, process_success,
  is_some,
}
use subagent.Runner.Ending.{IsClassified}
use subagent.Settlement.Result.{
  RunResult, RunTaskState, taxonomy_of, status_of, result_of_run, is_nonempty,
  normalize_accepted_cancellation, has_consistent_result_status, cancelled_result, cancel_result,
}

record IsNamed (t : Taxonomy) : Type 0 where
  has_class : is_nonempty t.error_class ≡ true
  has_code : is_some t.reason_code ≡ true

if-IsNamed : (b : Bool) (s t : Taxonomy) → IsNamed s → IsNamed t → IsNamed (if b then s else t)
if-IsNamed true s t h k = h
if-IsNamed false s t h k = k

classified-IsNamed :
    (name : String) (code : FailureReasonCode)
    → is_nonempty (some name) ≡ true
    → IsNamed (classified name code)
classified-IsNamed name code h = record { has_class = h; has_code = refl }

failure_taxonomy-IsNamed : (i : TaxonomyInput) → IsNamed (failure_taxonomy i)
unfolding failure_taxonomy is_blank
failure_taxonomy-IsNamed i =
    if-IsNamed (i.timed_out || is_timeout_reason i.stop_reason) _ _ (classified-IsNamed _ _ refl) (
      if-IsNamed (i.resource_exhausted || is_resource_reason i.stop_reason) _ _
        (classified-IsNamed _ _ refl)
        (if-IsNamed (i.activation_failed || is_activation_failure i.child_failure_reason_code) _ _
          (classified-IsNamed _ _ refl)
          (if-IsNamed (is_spawn_reason i.stop_reason) _ _ (classified-IsNamed _ _ refl) (
            if-IsNamed (is_fresh i.session_mode && not i.session_established && is_zero i.exit_code)
              _ _ (classified-IsNamed _ _ refl)
              (if-IsNamed (i.missing_final_output) _ _ (classified-IsNamed _ _ refl) (
                if-IsNamed (is_nonzero i.exit_code) _ _ (classified-IsNamed _ _ refl) (
                  if-IsNamed (is_some i.stop_signal) _ _ (classified-IsNamed _ _ refl)
                    (classified-IsNamed _ _ refl))))))))

run_error_taxonomy-failed :
    (i : TaxonomyInput)
    → i.success ≡ false
    → i.cancelled ≡ false
    → run_error_taxonomy i ≡ failure_taxonomy i
unfolding run_error_taxonomy
run_error_taxonomy-failed i h k = ground (arith, h, k)

taxonomy-IsNamed :
    (i : TaxonomyInput) → i.success ≡ false → i.cancelled ≡ false → IsNamed (run_error_taxonomy i)
taxonomy-IsNamed i h k =
    subst IsNamed (sym (run_error_taxonomy-failed i h k)) (failure_taxonomy-IsNamed i)

is_success-parts :
    (v : Evidence) (p : ProcessRunResult)
    → is_success v p ≡ true
    → (process_success p ≡ true) × (v.terminal_effect_scope_error ≡ false)
unfolding is_success
is_success-parts v p h = ground (arith, h)

taxonomy_of-none :
    (v : Evidence) (p : ProcessRunResult)
    → is_success v p ≡ true
    → (is_some (taxonomy_of v p).error_class ≡ false)
      × (is_some (taxonomy_of v p).reason_code ≡ false)
unfolding taxonomy_of run_error_taxonomy
taxonomy_of-none v p h = rw (h, (is_success-parts v p h).1) (refl, refl)

taxonomy_of-IsNamed :
    (v : Evidence) (p : ProcessRunResult)
    → is_success v p ≡ false
    → p.cancelled ≡ false
    → IsNamed (taxonomy_of v p)
unfolding taxonomy_of is_blank
taxonomy_of-IsNamed v p h k =
    if-IsNamed v.terminal_effect_scope_error _ _ (classified-IsNamed _ _ refl)
      (taxonomy-IsNamed _ h k)

-- A process end whose flags say no more than its stop reason does.
pub record IsUnmixed (p : ProcessRunResult) : Type 0 where
  pub on_timed_out : p.timed_out ≡ true → p.stop_reason ≡ RunStopReason.timeout
  pub on_cancelled : p.cancelled ≡ true → p.stop_reason ≡ RunStopReason.cancelled
  pub on_success : process_success p ≡ true → p.stop_reason ≡ RunStopReason.completed

-- The result of a process end that is classified passes the test of a terminal record, whatever
-- the run knows of its child, where the flags timed out and cancelled are set only with the stop
-- reason for each, and an end that counts as a success has the stop reason completed.
pub result_of_run-consistent :
    (v : Evidence) (p : ProcessRunResult)
    → IsClassified p
    → IsUnmixed p
    → has_consistent_result_status (result_of_run v p) ≡ true
unfolding has_consistent_result_status result_of_run status_of process_success
result_of_run-consistent v p c u = elim (Bool-cases (is_success v p)) [
  | inl s ↦ ground (arith, s, is_success-parts v p s, u.on_success, taxonomy_of-none v p s)
  | inr s ↦ elim (Bool-cases p.cancelled) [
    | inl k ↦ ground (arith, s, k, u.on_cancelled, u.on_timed_out)
    | inr k ↦ ground (
      arith,
      s,
      k,
      u.on_timed_out,
      c.on_cancelled,
      c.on_timeout,
      (taxonomy_of-IsNamed v p s k).has_class,
      (taxonomy_of-IsNamed v p s k).has_code,
    )
  ]
]

cancel_kept :
    (s : RunTaskState) (r : RunResult)
    → s.cancel_requested ≡ true
    → s.child_started ≡ true
    → s.result ≡ some r
    → is_cancelled_reason r.stop_reason ≡ true
    → (normalize_accepted_cancellation s).result ≡ some r
unfolding normalize_accepted_cancellation cancel_result
cancel_kept s r q b e c = ground (arith, q, b, e, c)

cancel_replaced :
    (s : RunTaskState) (r : RunResult)
    → s.cancel_requested ≡ true
    → s.result ≡ some r
    → is_cancelled_reason r.stop_reason ≡ false
    → (normalize_accepted_cancellation s).result ≡ some (cancelled_result r)
unfolding normalize_accepted_cancellation cancel_result
cancel_replaced s r q e c = ground (arith, q, e, c)

-- A result that is not already cancelled is replaced.
cancellation-consistent :
    (s : RunTaskState) (r : RunResult)
    → s.cancel_requested ≡ true
    → s.child_started ≡ true
    → s.result ≡ some r
    → (r.stop_reason ≡ RunStopReason.cancelled → has_consistent_result_status r ≡ true)
    → (r' : RunResult) × ((normalize_accepted_cancellation s).result ≡ some r')
      × (r'.stop_reason ≡ RunStopReason.cancelled)
      × (has_consistent_result_status r' ≡ true)
unfolding normalize_accepted_cancellation cancel_result cancelled_result
    has_consistent_result_status
cancellation-consistent s r q b e h = elim (Bool-cases (is_cancelled_reason r.stop_reason)) [
  | inl c ↦ (r, cancel_kept s r q b e c, ground (arith, c), h (ground (arith, c)))
  | inr c ↦ (cancelled_result r, cancel_replaced s r q e c, refl, refl)
]

cancelled-IsUnmixed :
    (p : ProcessRunResult) → IsClassified p → p.stop_reason ≡ RunStopReason.cancelled → IsUnmixed p
unfolding process_success
cancelled-IsUnmixed p c e = record {
  on_timed_out = λ h. ground (arith, h, c.on_cancelled e);
  on_cancelled = λ h. e;
  on_success = λ h. ground (arith, h, c.on_cancelled e);
}

-- A cancellation that was accepted while the child ran leaves a cancelled result that passes the
-- test of a terminal record, where the run's result before it was the one of a classified process
-- end: whichever end that was, also one whose own result fails the test, and whatever the run knows
-- of its child.
pub accepted_cancellation-consistent :
    (v : Evidence) (p : ProcessRunResult) (s : RunTaskState)
    → IsClassified p
    → s.cancel_requested ≡ true
    → s.child_started ≡ true
    → s.result ≡ some (result_of_run v p)
    → (r' : RunResult) × ((normalize_accepted_cancellation s).result ≡ some r')
      × (r'.stop_reason ≡ RunStopReason.cancelled)
      × (has_consistent_result_status r' ≡ true)
unfolding result_of_run
accepted_cancellation-consistent v p s c q b e =
    cancellation-consistent s (result_of_run v p) q b e
      (λ k. result_of_run-consistent v p c (cancelled-IsUnmixed p c k))

-- The result of a process that timed out, was not cancelled, and has the stop reason for a full
-- disk fails the test of a terminal record, whatever the run knows of its child.
pub mixed_end-inconsistent :
    (v : Evidence) (p : ProcessRunResult)
    → p.timed_out ≡ true
    → p.cancelled ≡ false
    → p.stop_reason ≡ RunStopReason.resource_exhausted
    → has_consistent_result_status (result_of_run v p) ≡ false
unfolding has_consistent_result_status result_of_run status_of
mixed_end-inconsistent v p t k e = ground (arith, t, k, e)
