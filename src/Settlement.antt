-- ===== src/Settlement.antt =====
-- src/runSubagent.ts and src/runTask.ts: the result of a run from the way its process ended, the
-- normalisation of an accepted cancellation, and the test that a terminal record must pass.
mod Result
mod Consistency
mod Tests
use subagent.Common.{
  ℕ, String, Bool, true, false, not, ◌&&◌, ◌||◌, Option, none, some, nat_eq, if◌then◌else◌,
  FailureReasonCode,
}
use subagent.Lifecycle.{RunStopReason, is_timeout_reason}
use subagent.Runner.{ProcessRunResult, Signal, is_zero}

pub data SessionMode : Type 0 where
  ephemeral fresh resume : SessionMode

-- What a run knows of its child besides how its process ended.
pub record Evidence : Type 0 where
  pub terminal_effect_scope_error : Bool
  pub effect_profile : Bool
  pub expected_skill_sha256 : Bool
  pub activation_receipt : Bool
  pub skill_snapshot_binding : Bool
  pub skill_snapshot_activation_receipt : Bool
  pub recursive_delegation_receipt : Bool
  pub system_skill_source : Bool
  pub system_skill_activation_receipt : Bool
  pub researcher_bounded : Bool
  pub strict_research_output : Bool
  pub strict_research_outputs_match : Bool
  pub final_output_mode : Bool
  pub final_message : Bool
  pub session_mode : SessionMode
  pub parsed_session_id : Bool
  pub child_failure : Option FailureReasonCode

unfoldable process_success : ProcessRunResult → Bool
process_success p =
    is_zero p.exit_code && not p.timed_out && not p.cancelled && not p.resource_exhausted

unfoldable activation_confirmed : Evidence → Bool
activation_confirmed v = not (v.effect_profile || v.expected_skill_sha256) || v.activation_receipt

unfoldable skill_snapshot_activation_confirmed : Evidence → Bool
skill_snapshot_activation_confirmed v =
    not v.skill_snapshot_binding || v.skill_snapshot_activation_receipt

unfoldable system_skill_activation_confirmed : Evidence → Bool
system_skill_activation_confirmed v = not v.system_skill_source || v.system_skill_activation_receipt

abbrev is_fresh : SessionMode → Bool
is_fresh fresh = true
is_fresh _ = false

unfoldable session_established : Evidence → ProcessRunResult → Bool
unfolding process_success
session_established v p = elim v.session_mode [
  | fresh ↦ v.parsed_session_id
  | resume ↦ process_success p
  | ephemeral ↦ false
]

unfoldable missing_final_output : Evidence → ProcessRunResult → Bool
unfolding process_success
missing_final_output v p =
    process_success p
    && v.final_output_mode
    && (if v.researcher_bounded then not v.strict_research_output else not v.final_message)

unfoldable controller_completion_confirmed : Evidence → Bool
controller_completion_confirmed v =
    not v.researcher_bounded || v.strict_research_output && v.strict_research_outputs_match

unfoldable is_success : Evidence → ProcessRunResult → Bool
unfolding process_success
is_success v p =
    process_success p
    && not v.terminal_effect_scope_error
    && activation_confirmed v
    && skill_snapshot_activation_confirmed v
    && v.recursive_delegation_receipt
    && system_skill_activation_confirmed v
    && controller_completion_confirmed v
    && not (missing_final_output v p)
    && (not (is_fresh v.session_mode) || session_established v p)

abbrev pub is_activation_failure : Option FailureReasonCode → Bool
is_activation_failure (some FailureReasonCode.effect_profile_activation_failed) = true
is_activation_failure (some FailureReasonCode.skill_content_mismatch) = true
is_activation_failure (some FailureReasonCode.system_skill_activation_failed) = true
is_activation_failure _ = false

abbrev pub or_code : Option FailureReasonCode → FailureReasonCode → FailureReasonCode
or_code none code = code
or_code (some given) code = given

-- The arguments of `runErrorTaxonomy`.
pub record TaxonomyInput : Type 0 where
  pub success : Bool
  pub cancelled : Bool
  pub timed_out : Bool
  pub stop_reason : RunStopReason
  pub exit_code : Option ℕ
  pub stop_signal : Option Signal
  pub session_mode : SessionMode
  pub session_established : Bool
  pub missing_final_output : Bool
  pub resource_exhausted : Bool
  pub activation_failed : Bool
  pub child_failure_reason_code : Option FailureReasonCode

pub record Taxonomy : Type 0 where
  pub error_class : Option String
  pub reason_code : Option FailureReasonCode

abbrev pub classified : String → FailureReasonCode → Taxonomy
classified name code = record { error_class = some name; reason_code = some code }

abbrev pub is_resource_reason : RunStopReason → Bool
is_resource_reason RunStopReason.resource_exhausted = true
is_resource_reason _ = false

abbrev pub is_spawn_reason : RunStopReason → Bool
is_spawn_reason RunStopReason.spawn_error = true
is_spawn_reason _ = false

abbrev pub is_nonzero : Option ℕ → Bool
is_nonzero none = false
is_nonzero (some n) = not (nat_eq n 0)

abbrev pub is_some {ℓ} : {A : Type ℓ} → Option A → Bool
is_some none = false
is_some (some a) = true

-- The taxonomy of a run that neither succeeded nor was cancelled.
unfoldable failure_taxonomy : TaxonomyInput → Taxonomy
failure_taxonomy i =
    if i.timed_out || is_timeout_reason i.stop_reason
    then classified "timeout" FailureReasonCode.timeout
    else if i.resource_exhausted || is_resource_reason i.stop_reason
    then classified "resource_exhausted" FailureReasonCode.disk_reserve_exhausted
    else if i.activation_failed || is_activation_failure i.child_failure_reason_code
    then classified "capability_unavailable"
        (or_code i.child_failure_reason_code FailureReasonCode.effect_profile_activation_failed)
    else if is_spawn_reason i.stop_reason
    then classified "unknown_error" FailureReasonCode.spawn_error
    else if is_fresh i.session_mode && not i.session_established && is_zero i.exit_code
    then classified "missing_session_id" FailureReasonCode.missing_session_id
    else if i.missing_final_output
    then classified "missing_final_output" FailureReasonCode.missing_final_output
    else if is_nonzero i.exit_code
    then classified "nonzero_exit"
        (or_code i.child_failure_reason_code FailureReasonCode.nonzero_exit)
    else if is_some i.stop_signal
    then classified "signal_terminated" FailureReasonCode.process_signal_terminated
    else classified "unknown_error" FailureReasonCode.unknown_error

unfoldable run_error_taxonomy : TaxonomyInput → Taxonomy
run_error_taxonomy i =
    if i.success || i.cancelled
    then record { error_class = none; reason_code = none }
    else failure_taxonomy i
