-- ===== src/Recursion/Child.antt =====
-- src/recursiveControl.ts: what a child is given, and the request that it sends.
use subagent.Common.{ℕ, String, ◌==◌, Option, none, some, if◌then◌else◌}
use subagent.Common.Json.{Json, num, str, obj, end, field}
use subagent.Recursion.{
  Scope, selected_only, RecursiveRpcMethod, delegate, rejoin, RecursiveCallerContext, Handle,
}
use subagent.Recursion.Server.{with_field}

-- A text that is not empty.
abbrev pub filled : Option String → Option String
filled none = none
filled (some s) = if s == "" then none else some s

-- What a child is given of its lineage, and the token.
pub record RecursiveControlChildConfig : Type 0 where
  pub token : String
  pub caller : RecursiveCallerContext

-- The arguments of `recursiveControlConfigForChild`.
pub record ChildLineage : Type 0 where
  pub run_id : String
  pub root_run_id : Option String
  pub recursion_depth : Option ℕ
  pub system_skill_name : Option String
  pub specialist_catalogue_scope : Option Scope
  pub governing_model_class : Option String

abbrev pub or_else {ℓ} : {A : Type ℓ} → Option A → A → A
or_else none d = d
or_else (some a) d = a

-- With the server started.
unfoldable pub recursive_control_config_for_child :
    Handle → ChildLineage → RecursiveControlChildConfig
recursive_control_config_for_child handle input = record {
  token = handle.token;
  caller = record {
    parent_run_id = input.run_id;
    root_run_id = or_else input.root_run_id input.run_id;
    recursion_depth = or_else input.recursion_depth 0;
    system_skill_name = filled input.system_skill_name;
    specialist_catalogue_scope = input.specialist_catalogue_scope;
    governing_model_class = filled input.governing_model_class;
  };
}

abbrev pub scope_json : Option Scope → Option Json
scope_json none = none
scope_json (some selected_only) = some (str "selected_only")

abbrev pub text_json : Option String → Option Json
text_json none = none
text_json (some s) = some (str s)

abbrev pub method_text : RecursiveRpcMethod → String
method_text delegate = "delegate"
method_text rejoin = "rejoin"

-- The request that `callRecursiveControl` sends.
unfoldable pub request_of : RecursiveControlChildConfig → RecursiveRpcMethod → String → Json → Json
request_of config method id params = obj (
    field "id" (str id) (
      field "token" (str config.token) (
        field "method" (str (method_text method)) (
          field "caller"
            (obj (
              field "parent_run_id" (str config.caller.parent_run_id) (
                field "root_run_id" (str config.caller.root_run_id) (
                  field "recursion_depth" (num config.caller.recursion_depth) (
                    with_field "system_skill_name"
                      (text_json (filled config.caller.system_skill_name))
                      (with_field "specialist_catalogue_scope"
                        (scope_json config.caller.specialist_catalogue_scope)
                        (with_field "governing_model_class"
                          (text_json (filled config.caller.governing_model_class)) end)))))))
            (field "params" params end)))))
