-- ===== src/Recursion/RoundTrip.antt =====
-- src/recursiveControl.ts: the server reads back what a child of its own sends.
use subagent.Common.{
  ℕ, String, ◌==◌, Bool, true, false, Option, none, some, codes, trim, is_blank, ok, arith, ◌≡◌,
  refl, subst, eq_refl, eq-false_of_ne,
}
use subagent.Common.Json.{Json, str, num, obj, Fields, end, field}
use subagent.Recursion.{
  Scope, selected_only, RecursiveRpcMethod, delegate, rejoin, RecursiveCallerContext, Handle,
}
use subagent.Recursion.Caller.{
  model_classes, includes, is_skill_name, validate_skill_name, as_record, nonempty_string,
  nonnegative_integer, checked_scope, checked_class, is_governed, validate_lineage, validate_caller,
  envelope_id, method_of, validate_envelope,
}
use subagent.Recursion.Server.{with_field}
use subagent.Recursion.Child.{
  ChildLineage, or_else, filled, recursive_control_config_for_child, scope_json, text_json,
  method_text, request_of,
}

-- A text without white space around it, and with a character.
abbrev pub IsClean : String → Type 0
IsClean s = (trim s ≡ s) × (is_blank s ≡ false)

abbrev pub is_skill : Option String → Bool
is_skill none = true
is_skill (some s) = is_skill_name (codes s)

abbrev pub is_class : Option String → Bool
is_class none = true
is_class (some s) = includes model_classes s

skill-filled : (s : String) → is_skill_name (codes s) ≡ true → (s == "") ≡ false
unfolding is_skill_name
skill-filled s h =
    eq-false_of_ne s "" (λ e. ground (arith, subst (λ t. is_skill_name (codes t) ≡ true) e h))

class-filled : (s : String) → includes model_classes s ≡ true → (s == "") ≡ false
class-filled s h =
    eq-false_of_ne s "" (λ e. ground (arith, subst (λ t. includes model_classes t ≡ true) e h))

nonempty-clean : (s : String) → IsClean s → nonempty_string (some (str s)) ≡ ok s
unfolding nonempty_string
nonempty-clean s h = rw (h.1, h.0) refl

-- What a child sends of its caller.
abbrev caller_json : RecursiveCallerContext → Json
caller_json c = obj (
    field "parent_run_id" (str c.parent_run_id) (
      field "root_run_id" (str c.root_run_id) (
        field "recursion_depth" (num c.recursion_depth) (
          with_field "system_skill_name" (text_json (filled c.system_skill_name)) (
            with_field "specialist_catalogue_scope" (scope_json c.specialist_catalogue_scope) (
              with_field "governing_model_class" (text_json (filled c.governing_model_class))
                end))))))

caller-read :
    (parent root : String) (depth : ℕ) (skill : Option String) (scope : Option Scope)
    (class : Option String)
    → IsClean parent
    → IsClean root
    → is_governed skill scope class ≡ true
    → is_skill skill ≡ true
    → is_class class ≡ true
    → validate_caller (
        some (
          caller_json (record {
            parent_run_id = parent;
            root_run_id = root;
            recursion_depth = depth;
            system_skill_name = filled skill;
            specialist_catalogue_scope = scope;
            governing_model_class = filled class;
          })))
      ≡ ok (record {
        parent_run_id = parent;
        root_run_id = root;
        recursion_depth = depth;
        system_skill_name = skill;
        specialist_catalogue_scope = scope;
        governing_model_class = class;
      })
unfolding validate_caller as_record validate_skill_name checked_scope checked_class validate_lineage
    nonnegative_integer
caller-read parent root depth none none none p r g s c =
    rw (nonempty-clean parent p, nonempty-clean root r) refl
caller-read parent root depth (some k) none (some m) p r g s c =
    rw
      (
        skill-filled k s,
        class-filled m c,
        skill-filled k s,
        class-filled m c,
        s,
        c,
        nonempty-clean parent p,
        nonempty-clean root r,
      )
      refl
caller-read parent root depth (some k) (some selected_only) (some m) p r g s c =
    rw
      (
        skill-filled k s,
        class-filled m c,
        skill-filled k s,
        class-filled m c,
        s,
        c,
        nonempty-clean parent p,
        nonempty-clean root r,
      )
      refl
caller-read parent root depth none (some o) class p r g s c = ground (arith, g)
caller-read parent root depth none none (some m) p r g s c = ground (arith, g)
caller-read parent root depth (some k) scope none p r g s c = ground (arith, g)

-- The caller that a child's configuration names.
abbrev pub caller_of : ChildLineage → RecursiveCallerContext
caller_of input = record {
  parent_run_id = input.run_id;
  root_run_id = or_else input.root_run_id input.run_id;
  recursion_depth = or_else input.recursion_depth 0;
  system_skill_name = input.system_skill_name;
  specialist_catalogue_scope = input.specialist_catalogue_scope;
  governing_model_class = input.governing_model_class;
}

method_read :
    (method : RecursiveRpcMethod) → method_of (some (str (method_text method))) ≡ ok method
unfolding method_of
method_read delegate = refl
method_read rejoin = refl

-- A request that a child sends with its configuration passes the server's checks, and is read as the
-- lineage that the configuration was made of: where the ids are trimmed and not blank, the skill and
-- the model class are valid and come together, a scope comes with them, and the parameters are an
-- object.
pub envelope-request :
    (handle : Handle) (input : ChildLineage) (method : RecursiveRpcMethod) (id spare : String)
    (params : Fields)
    → IsClean id
    → IsClean input.run_id
    → IsClean (or_else input.root_run_id input.run_id)
    → is_governed input.system_skill_name input.specialist_catalogue_scope
        input.governing_model_class
      ≡ true
    → is_skill input.system_skill_name ≡ true
    → is_class input.governing_model_class ≡ true
    → validate_envelope spare handle.token
        (some (request_of (recursive_control_config_for_child handle input) method id (obj params)))
      ≡ ok (record { id = id; method = method; caller = caller_of input; params = obj params })
unfolding validate_envelope request_of recursive_control_config_for_child as_record envelope_id
envelope-request handle input method id spare params i p r g s c =
    rw
      (
        eq_refl handle.token,
        method_read method,
        i.1,
        i.0,
        caller-read input.run_id (or_else input.root_run_id input.run_id)
            (or_else input.recursion_depth 0) input.system_skill_name
            input.specialist_catalogue_scope input.governing_model_class p r g s c,
      )
      refl
