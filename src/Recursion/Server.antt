-- ===== src/Recursion/Server.antt =====
-- src/recursiveControl.ts: the receipt of an attempt, and the answer to a line.
use subagent.Common.{
  ℕ, String, Bool, true, false, ◌&&◌, Option, none, some, ◌++◌, leb, codes, if◌then◌else◌, Result,
  ok, err, reason_of, FailureReasonCode,
}
use subagent.Common.Json.{Json, null, num, str, obj, Fields, end, field, get, canonical_json}
use subagent.Common.State.{M}
use subagent.Recursion.{
  Platform, RecursiveRpcMethod, delegate, rejoin, RecursiveCallerContext, Envelope, Handle,
}
use subagent.Recursion.Caller.{validate_envelope}

pub record RecursiveDelegateAttemptReceipt : Type 0 where
  pub request_id : String
  pub request_sha256 : String
  pub task_sha256 : Option String
  pub task_size_bytes : Option ℕ
  pub public_request : Json

abbrev pub text_or_null : Option String → Json
text_or_null none = null
text_or_null (some s) = str s

abbrev pub number_or_null : Option ℕ → Json
number_or_null none = null
number_or_null (some n) = num n

abbrev pub with_field : String → Option Json → Fields → Fields
with_field key none rest = rest
with_field key (some v) rest = field key v rest

abbrev pub with_skill : Option String → Fields → Fields
with_skill none rest = rest
with_skill (some s) rest = field "system_skill_name" (str s) rest

-- `RECURSIVE_DELEGATE_PUBLIC_PARAM_FIELDS` of the parameters, those that they have.
unfoldable pub public_fields : Json → Fields
public_fields params = with_field "cwd" (get "cwd" params) (
    with_field "model_class" (get "model_class" params) (
      with_field "skill_name" (get "skill_name" params) (
        with_field "output_mode" (get "output_mode" params) (
          with_field "wait_ms" (get "wait_ms" params)
            (with_field "timeout_ms" (get "timeout_ms" params) end)))))

abbrev pub task_of : Option Json → Option String
task_of (some (str s)) = some s
task_of _ = none

abbrev pub task_sha256_of : Platform → Option String → Option String
task_sha256_of p none = none
task_sha256_of p (some task) = some (p.sha256 (codes task))

abbrev pub task_size_of : Platform → Option String → Option ℕ
task_size_of p none = none
task_size_of p (some task) = some (p.byte_length task)

unfoldable pub public_request_of : Platform → RecursiveCallerContext → Json → Json
public_request_of p caller params = obj (
    field "method" (str "delegate") (
      field "parent_run_id" (str caller.parent_run_id) (
        field "root_run_id" (str caller.root_run_id) (
          field "recursion_depth" (num caller.recursion_depth) (
            with_skill caller.system_skill_name (
              field "task_sha256" (text_or_null (task_sha256_of p (task_of (get "prompt" params))))
                (field "task_size_bytes"
                  (number_or_null (task_size_of p (task_of (get "prompt" params))))
                  (public_fields params))))))))

unfoldable pub recursive_delegate_attempt_receipt :
    Platform → String → RecursiveCallerContext → Json → RecursiveDelegateAttemptReceipt
recursive_delegate_attempt_receipt p id caller params = record {
  request_id = id;
  request_sha256 = p.sha256 (
      codes "subagent007.recursive_delegate_request.v1\n"
      ++ canonical_json (public_request_of p caller params));
  task_sha256 = task_sha256_of p (task_of (get "prompt" params));
  task_size_bytes = task_size_of p (task_of (get "prompt" params));
  public_request = public_request_of p caller params;
}

-- An answer: of a handler, a rejection with the receipt of the attempt, or no valid request.
pub data RpcOutcome : Type 0 where
  answered : Json → RpcOutcome
  rejected : FailureReasonCode → Option RecursiveDelegateAttemptReceipt → RpcOutcome
  refused : FailureReasonCode → RpcOutcome

pub record RecursiveRpcResponse : Type 0 where
  pub id : String
  pub outcome : RpcOutcome

pub record RecursiveControlHandlers (S : Type 0) : Type 0 where
  pub on_delegate : RecursiveCallerContext → Json → M S Json
  pub on_rejoin : RecursiveCallerContext → Json → M S Json

abbrev pub is_delegate : RecursiveRpcMethod → Bool
is_delegate delegate = true
is_delegate rejoin = false

abbrev pub attempt_of : Platform → Envelope → Option RecursiveDelegateAttemptReceipt
attempt_of p e =
    if is_delegate e.method
    then some (recursive_delegate_attempt_receipt p e.id e.caller e.params)
    else none

module _ {S : Type 0} where
  abbrev pub handler_of :
      RecursiveControlHandlers S → RecursiveRpcMethod → RecursiveCallerContext → Json → M S Json
  handler_of handlers delegate = handlers.on_delegate
  handler_of handlers rejoin = handlers.on_rejoin

  abbrev pub respond : Platform → Envelope → Result Json × S → RecursiveRpcResponse × S
  respond p e (ok result, s) = (record { id = e.id; outcome = answered result }, s)
  respond p e (err f, s) =
      (record { id = e.id; outcome = rejected (reason_of f) (attempt_of p e) }, s)

  unfoldable pub handle_envelope :
      Platform
      → Handle
      → RecursiveControlHandlers S
      → String
      → Result Envelope
      → S
      → RecursiveRpcResponse × S
  handle_envelope p handle handlers random (err f) s =
      (record { id = random; outcome = refused (reason_of f) }, s)
  handle_envelope p handle handlers random (ok e) s =
      if is_delegate e.method && leb handle.max_depth e.caller.recursion_depth
      then (
        record {
          id = e.id;
          outcome = rejected FailureReasonCode.recursive_depth_exceeded (attempt_of p e);
        },
        s,
      )
      else respond p e (handler_of handlers e.method e.caller e.params s)

  -- `handleRpcLine` on a parsed line, or on one that is not JSON, with its two random ids.
  unfoldable pub handle_rpc_line :
      Platform
      → Handle
      → RecursiveControlHandlers S
      → String
      → String
      → Option Json
      → S
      → RecursiveRpcResponse × S
  handle_rpc_line p handle handlers random spare none s =
      (record { id = random; outcome = refused FailureReasonCode.unknown_validation_error }, s)
  handle_rpc_line p handle handlers random spare (some line) s =
      handle_envelope p handle handlers random (validate_envelope spare handle.token (some line)) s
