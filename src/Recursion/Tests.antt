-- ===== src/Recursion/Tests.antt =====
-- A root run that delegates, at a limit of one level.
use subagent.Common.{
  String, true, Option, none, some, List, [], ◌∷◌, ok, ◌≡◌, refl, is_blank, arith,
}
use subagent.Common.Json.{Json, null, str, obj, end, field}
use subagent.Recursion.{Platform, selected_only, delegate, Handle}
use subagent.Recursion.Caller.{validate_envelope, is_skill_name}
use subagent.Recursion.Child.{ChildLineage, recursive_control_config_for_child, request_of}
use subagent.Recursion.Delegation.{
  RunTask, Schedule, ControlEvent, line_received, run_ended, control_steps,
}
use subagent.Recursion.Lineage.{IsLineage, as_root, control_steps-IsLineage}
use subagent.Recursion.RoundTrip.{caller_of, envelope-request}

abbrev platform : Platform
platform = record { sha256 = λ s. "hash"; byte_length = λ s. 4 }

abbrev handle : Handle
handle = record { token = "token"; max_depth = 1 }

abbrev task : String → RunTask
task run_id = record {
  run_id = run_id;
  parent_run_id = none;
  root_run_id = run_id;
  recursion_depth = 0;
  is_active = true;
  delegation_enabled = true;
  governing_model_class = some "B";
  system_skill_receipt = some "pda";
  specialist_catalogue_scope = some selected_only;
  skill_snapshot_binding = none;
  snapshot_skill_receipt = none;
}

-- Every request is scheduled, as a run with the text of its prompt for an id.
abbrev schedule : Schedule
schedule parent (obj (field key (str prompt) rest)) tasks = ok (task prompt, null)
schedule parent params tasks = ok (task "run", null)

abbrev input : ChildLineage
input = record {
  run_id = "root";
  root_run_id = none;
  recursion_depth = none;
  system_skill_name = some "pda";
  specialist_catalogue_scope = some selected_only;
  governing_model_class = some "B";
}

-- A delegation by the child of the root, one that claims to be a deeper run, and a line that is no
-- JSON.
abbrev line : Option Json
line = some (
    request_of (recursive_control_config_for_child handle input) delegate "id"
      (obj (field "prompt" (str "child") end)))

abbrev deeper : Option Json
deeper = some (
    request_of
      (recursive_control_config_for_child handle
        (record input { run_id = "child"; root_run_id = some "root"; recursion_depth = some 1 }))
      delegate "id" (obj (field "prompt" (str "grandchild") end)))

abbrev events : List ControlEvent
events = line_received line ∷ line_received deeper ∷ line_received none ∷ run_ended "child" ∷ []

control_steps-IsLineage_example : IsLineage 1 (
    control_steps platform handle schedule
      (λ caller params tasks. ok null)
      events
      (task "root" ∷ []))
control_steps-IsLineage_example =
    control_steps-IsLineage platform handle schedule (λ caller params tasks. ok null) events
      (task "root" ∷ []) (as_root refl refl refl, omega arith, tt)

envelope-request_example :
    validate_envelope "spare" "token" (
      some (
        request_of
          (recursive_control_config_for_child handle input)
          delegate
          "id"
          (obj (field "prompt" (str "child") end))))
    ≡ ok (record {
      id = "id";
      method = delegate;
      caller = caller_of input;
      params = obj (field "prompt" (str "child") end);
    })
unfolding is_blank is_skill_name
envelope-request_example =
    envelope-request handle input delegate "id" "spare" (field "prompt" (str "child") end)
      (refl, refl) (refl, refl) (refl, refl) refl refl refl
