-- ===== src/Recursion/Delegation.antt =====
-- src/server.ts and src/runTask.ts: the server's handler of a delegation, and the lineage of a run.
use subagent.Common.{
  ℕ, suc, String, ◌==◌, Bool, true, false, not, ◌&&◌, Option, none, some, List, [], ◌∷◌, nat_eq,
  if◌then◌else◌, Result, ok, err, validation, FailureReasonCode,
}
use subagent.Common.Json.{Json, str, get}
use subagent.Common.State.{M}
use subagent.Recursion.{Platform, Scope, RecursiveCallerContext, control_invalid, Handle}
use subagent.Recursion.Server.{handle_rpc_line}

-- The fields of an active run that a delegation reads, its receipts as they are once observed.
pub record RunTask : Type 0 where
  pub run_id : String
  pub parent_run_id : Option String
  pub root_run_id : String
  pub recursion_depth : ℕ
  pub is_active : Bool
  pub delegation_enabled : Bool
  pub governing_model_class : Option String
  pub system_skill_receipt : Option String
  pub specialist_catalogue_scope : Option Scope
  pub skill_snapshot_binding : Option String
  pub snapshot_skill_receipt : Option String

unfoldable pub find_task : String → List RunTask → Option RunTask
find_task run_id [] = none
find_task run_id (t ∷ ts) =
    let rest = find_task run_id ts in if t.run_id == run_id then some t else rest

abbrev pub same_text : Option String → Option String → Bool
same_text none none = true
same_text (some a) (some b) = a == b
same_text _ _ = false

abbrev pub same_scope : Option Scope → Option Scope → Bool
same_scope none none = true
same_scope (some a) (some b) = true
same_scope _ _ = false

abbrev pub is_present {ℓ} : {A : Type ℓ} → Option A → Bool
is_present none = false
is_present (some a) = true

abbrev pub same_presence : Option String → Option String → Bool
same_presence none none = true
same_presence (some a) (some b) = true
same_presence _ _ = false

-- The checks of `activeRecursiveCaller` on the run that it finds.
abbrev pub is_caller : RunTask → RecursiveCallerContext → Bool
is_caller t caller =
    t.is_active
    && t.root_run_id == caller.root_run_id
    && nat_eq t.recursion_depth caller.recursion_depth
    && t.delegation_enabled

abbrev pub checked_caller : Option RunTask → RecursiveCallerContext → Result RunTask
checked_caller none caller = err control_invalid
checked_caller (some t) caller = if is_caller t caller then ok t else err control_invalid

unfoldable pub active_recursive_caller : RecursiveCallerContext → List RunTask → Result RunTask
active_recursive_caller caller tasks = checked_caller (find_task caller.parent_run_id tasks) caller

-- `params.skill_name !== undefined && params.skill_name !== inheritedSkillName`.
abbrev pub is_other_skill : Option Json → String → Bool
is_other_skill none skill = false
is_other_skill (some (str s)) skill = not (s == skill)
is_other_skill (some _) skill = true

abbrev pub snapshot_check : Option String → Option String → Option Json → Result (Unit {0})
snapshot_check none receipt skill = ok tt
snapshot_check (some b) none skill =
    err (validation FailureReasonCode.skill_snapshot_activation_failed)
snapshot_check (some b) (some inherited) skill =
    if is_other_skill skill inherited
    then err (validation FailureReasonCode.invalid_skill_snapshot_binding)
    else ok tt

-- The checks of the handler on the parent of a delegation.
unfoldable pub authorize : RunTask → RecursiveCallerContext → Json → Result (Unit {0})
authorize parent caller params =
    if not (
      same_presence caller.system_skill_name parent.governing_model_class
      && same_text caller.governing_model_class parent.governing_model_class)
    then err control_invalid
    else if is_present parent.governing_model_class && is_present (get "model_class" params)
    then err control_invalid
    else if not (same_text caller.system_skill_name parent.system_skill_receipt)
    then err control_invalid
    else if not (same_scope caller.specialist_catalogue_scope parent.specialist_catalogue_scope)
    then err control_invalid
    else snapshot_check parent.skill_snapshot_binding parent.snapshot_skill_receipt
        (get "skill_name" params)

-- What `scheduleRunTask` makes of a request: a new run, without its lineage, and its view, or a
-- failure.
abbrev pub Schedule : Type 0
Schedule = RunTask → Json → List RunTask → Result (RunTask × Json)

-- `lineageForRecursiveDelegate`.
unfoldable pub lineage_for_recursive_delegate : RunTask → RunTask → RunTask
lineage_for_recursive_delegate parent t = record t {
  parent_run_id = some parent.run_id;
  root_run_id = parent.root_run_id;
  recursion_depth = suc parent.recursion_depth;
}

abbrev pub scheduled : RunTask → List RunTask → Result (RunTask × Json) → Result Json × List RunTask
scheduled parent tasks (ok started) =
    (ok started.1, lineage_for_recursive_delegate parent started.0 ∷ tasks)
scheduled parent tasks (err e) = (err e, tasks)

abbrev pub delegated :
    Schedule → RunTask → Json → List RunTask → Result (Unit {0}) → Result Json × List RunTask
delegated schedule parent params tasks (ok u) =
    scheduled parent tasks (schedule parent params tasks)
delegated schedule parent params tasks (err e) = (err e, tasks)

abbrev pub delegate_from :
    Schedule → Result RunTask → RecursiveCallerContext → Json → M (List RunTask) Json
delegate_from schedule (ok parent) caller params tasks =
    delegated schedule parent params tasks (authorize parent caller params)
delegate_from schedule (err e) caller params tasks = (err e, tasks)

unfoldable pub delegate_run : Schedule → RecursiveCallerContext → Json → M (List RunTask) Json
delegate_run schedule caller params tasks =
    delegate_from schedule (active_recursive_caller caller tasks) caller params tasks

-- What can happen to the runs: a line on the socket, or a run that ends.
pub data ControlEvent : Type 0 where
  line_received : Option Json → ControlEvent
  run_ended : String → ControlEvent

unfoldable pub end_run : String → List RunTask → List RunTask
end_run run_id [] = []
end_run run_id (t ∷ ts) =
    let rest = end_run run_id ts in
    (if t.run_id == run_id then record t { is_active = false } else t) ∷ rest

-- The rejoin of a run reads the runs and starts none.
unfoldable pub control_step :
    Platform
    → Handle
    → Schedule
    → (RecursiveCallerContext → Json → List RunTask → Result Json)
    → ControlEvent
    → List RunTask
    → List RunTask
control_step p handle schedule rejoined (line_received line) tasks =
    (handle_rpc_line p handle
      (record {
        on_delegate = delegate_run schedule;
        on_rejoin = λ caller params s. (rejoined caller params s, s);
      })
      "line" "envelope" line tasks).1
control_step p handle schedule rejoined (run_ended run_id) tasks = end_run run_id tasks

abbrev pub control_steps :
    Platform
    → Handle
    → Schedule
    → (RecursiveCallerContext → Json → List RunTask → Result Json)
    → List ControlEvent
    → List RunTask
    → List RunTask
control_steps p handle schedule rejoined [] tasks = tasks
control_steps p handle schedule rejoined (e ∷ es) tasks =
    control_steps p handle schedule rejoined es (control_step p handle schedule rejoined e tasks)
