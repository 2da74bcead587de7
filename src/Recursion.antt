-- ===== src/Recursion.antt =====
-- src/recursiveControl.ts: what a child asks of the server over the control socket.
mod Caller
mod Server
mod Child
mod Delegation
mod Lineage
mod RoundTrip
mod Tests
use subagent.Common.{
  ℕ, String, ◌==◌, Bool, true, false, not, ◌&&◌, ◌||◌, Option, none, some, List, [], ◌∷◌, ◌++◌, leb,
  nat_eq, all, codes, trim, is_blank, is_alnum, if◌then◌else◌, Result, ok, err, Failure, validation,
  try, reason_of, FailureReasonCode,
}
use subagent.Common.Json.{
  Json, null, bool, num, frac, str, arr, obj, Fields, end, field, get, canonical_json,
}
use subagent.Common.State.{M}

-- SHA-256 of a text by its code points, and the length of its UTF-8 form.
pub record Platform : Type 0 where
  pub sha256 : List ℕ → String
  pub byte_length : String → ℕ

pub data Scope : Type 0 where
  selected_only : Scope

pub data RecursiveRpcMethod : Type 0 where
  delegate rejoin : RecursiveRpcMethod

pub record RecursiveCallerContext : Type 0 where
  pub parent_run_id : String
  pub root_run_id : String
  pub recursion_depth : ℕ
  pub system_skill_name : Option String
  pub specialist_catalogue_scope : Option Scope
  pub governing_model_class : Option String

abbrev pub control_invalid : Failure
control_invalid = validation FailureReasonCode.recursive_control_invalid

pub record Envelope : Type 0 where
  pub id : String
  pub method : RecursiveRpcMethod
  pub caller : RecursiveCallerContext
  pub params : Json

pub record Handle : Type 0 where
  pub token : String
  pub max_depth : ℕ
