-- ===== src/Common/Outcome.antt =====
-- src/types.ts: the reason codes of a failure, and what a call that can throw returns.
use mathlib.Core.Bool.{Bool, true, false}
use mathlib.Core.Path.{◌≡◌}

-- `FailureReasonCode`.
pub data FailureReasonCode : Type 0 where
  child_entrypoint_missing child_entrypoint_not_file : FailureReasonCode
  config_missing_default_model_class cancelled_before_first_output : FailureReasonCode
  cwd_inaccessible cwd_not_absolute cwd_not_directory disk_reserve_exhausted : FailureReasonCode
  handler_error client_start_id_conflict client_start_id_fenced : FailureReasonCode
  invalid_output_mode invalid_packet_policy invalid_model invalid_model_class : FailureReasonCode
  model_class_unhealthy invalid_resume_mode invalid_session_id : FailureReasonCode
  invalid_session_key invalid_skill invalid_thinking_level : FailureReasonCode
  invalid_effect_profile authoring_effect_scope_invalid : FailureReasonCode
  authoring_effect_scope_drift invalid_expected_skill_sha256 : FailureReasonCode
  effect_profile_unsupported skill_binding_unsupported : FailureReasonCode
  effect_profile_activation_failed skill_content_mismatch : FailureReasonCode
  invalid_skill_snapshot_binding skill_snapshot_not_found skill_snapshot_altered : FailureReasonCode
  skill_snapshot_reference_mismatch skill_snapshot_reference_closed : FailureReasonCode
  skill_snapshot_activation_failed invalid_timeout_ms invalid_max_output_tokens : FailureReasonCode
  invalid_wait_ms local_capacity_exhausted local_queue_exhausted : FailureReasonCode
  missing_session_id missing_final_output nonzero_exit packet_required_invalid : FailureReasonCode
  packet_required_missing packet_required_not_ready prompt_missing : FailureReasonCode
  raw_session_id_unsupported recursive_control_invalid recursive_depth_exceeded : FailureReasonCode
  run_not_accepting_input run_liveness_unknown run_not_found : FailureReasonCode
  run_subagent_timeout_unsupported input_request_already_answered : FailureReasonCode
  input_request_already_closed input_request_already_timed_out : FailureReasonCode
  input_request_not_found input_request_not_part_of_run : FailureReasonCode
  input_response_id_conflict session_already_exists session_already_running : FailureReasonCode
  session_cwd_mismatch session_does_not_exist session_ledger_invalid : FailureReasonCode
  session_commit_invalid session_manifest_invalid session_skill_mismatch : FailureReasonCode
  server_restarted_active_run spawn_error timeout usage_limit_reached : FailureReasonCode
  process_signal_terminated recursive_delegation_reauthorization_required : FailureReasonCode
  recursive_delegation_effect_conflict recursive_delegation_activation_failed : FailureReasonCode
  recursive_delegation_unsupported system_skill_activation_failed unknown_error : FailureReasonCode
  unknown_validation_error : FailureReasonCode

-- What a call throws: a `ValidationError` with its reason code, a file-system error by its code,
-- or any other error. Message texts are left out.
pub data Failure : Type 0 where
  validation : FailureReasonCode → Failure
  enoent eexist thrown : Failure

pub data Result {ℓ} (A : Type ℓ) : Type ℓ where
  ok : A → Result A
  err : Failure → Result A

abbrev pub is_ok {ℓ} : {A : Type ℓ} → Result A → Bool
is_ok (ok a) = true
is_ok (err e) = false

-- `reasonCode` of what was thrown.
abbrev pub reason_of : Failure → FailureReasonCode
reason_of (validation c) = c
reason_of _ = unknown_validation_error

-- A call, and what follows it where it returns.
abbrev pub try {ℓ κ} : {A : Type ℓ} {B : Type κ} → Result A → (A → Result B) → Result B
try (ok a) f = f a
try (err e) f = err e

pub ok_injective {ℓ} : {A : Type ℓ} {x y : A} → ok x ≡ ok y → x ≡ y
ok_injective h = cc
