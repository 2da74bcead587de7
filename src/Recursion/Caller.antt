-- ===== src/Recursion/Caller.antt =====
-- src/recursiveControl.ts and src/skillBinding.ts: the checks of a request and of its caller.
use subagent.Common.{
  ℕ, String, ◌==◌, Bool, true, false, not, ◌&&◌, ◌||◌, Option, none, some, List, [], ◌∷◌, nat_eq,
  all, codes, trim, is_blank, is_alnum, if◌then◌else◌, Result, ok, err, validation, try,
  FailureReasonCode,
}
use subagent.Common.Json.{Json, null, num, str, obj, get}
use subagent.Recursion.{
  Scope, selected_only, RecursiveRpcMethod, delegate, rejoin, RecursiveCallerContext,
  control_invalid, Envelope,
}

-- `MODEL_CLASSES`.
abbrev pub model_classes : List String
model_classes = "A" ∷ "B" ∷ "C" ∷ "D" ∷ "E" ∷ "Z1" ∷ "Z2" ∷ "Z3" ∷ "Z4" ∷ []

abbrev pub includes : List String → String → Bool
includes [] s = false
includes (x ∷ xs) s = x == s || includes xs s

-- `[A-Za-z0-9_-]`.
abbrev pub is_word : ℕ → Bool
is_word c = is_alnum c || nat_eq c b'_' || nat_eq c b'-'

abbrev pub is_name : List ℕ → Bool
is_name [] = false
is_name (c ∷ cs) = is_alnum c && all is_word cs

abbrev pub is_name_rest : List ℕ → Bool
is_name_rest [] = true
is_name_rest (c ∷ cs) =
    let rest = is_name_rest cs in (is_word c && rest) || (nat_eq c b':' && is_name cs)

-- `SKILL_NAME_PATTERN`.
unfoldable pub is_skill_name : List ℕ → Bool
is_skill_name [] = false
is_skill_name (c ∷ cs) = is_alnum c && is_name_rest cs

unfoldable pub validate_skill_name : Option Json → Result (Option String)
validate_skill_name none = ok none
validate_skill_name (some null) = ok none
validate_skill_name (some (str s)) =
    if is_skill_name (codes s)
    then ok (some s)
    else err (validation FailureReasonCode.invalid_skill)
validate_skill_name (some _) = err (validation FailureReasonCode.invalid_skill)

unfoldable pub as_record : Option Json → Result Json
as_record (some (obj fs)) = ok (obj fs)
as_record _ = err control_invalid

unfoldable pub nonempty_string : Option Json → Result String
nonempty_string (some (str s)) = if is_blank s then err control_invalid else ok (trim s)
nonempty_string _ = err control_invalid

unfoldable pub nonnegative_integer : Option Json → Result ℕ
nonnegative_integer (some (num n)) = ok n
nonnegative_integer _ = err control_invalid

unfoldable pub checked_scope : Option Json → Result (Option Scope)
checked_scope none = ok none
checked_scope (some (str s)) =
    if s == "selected_only" then ok (some selected_only) else err control_invalid
checked_scope (some _) = err control_invalid

unfoldable pub checked_class : Option Json → Result (Option String)
checked_class none = ok none
checked_class (some (str s)) = if includes model_classes s then ok (some s) else err control_invalid
checked_class (some _) = err control_invalid

-- A model class comes with a governing skill, and a scope not without one.
abbrev pub is_governed : Option String → Option Scope → Option String → Bool
is_governed none none none = true
is_governed (some skill) scope (some class) = true
is_governed _ _ _ = false

unfoldable pub validate_lineage :
    Json → Option String → Option Scope → Option String → Result RecursiveCallerContext
validate_lineage caller skill scope class =
    try (nonempty_string (get "parent_run_id" caller)) (λ parent.
      try (nonempty_string (get "root_run_id" caller)) (λ root.
        try (nonnegative_integer (get "recursion_depth" caller)) (λ depth. ok (record {
          parent_run_id = parent;
          root_run_id = root;
          recursion_depth = depth;
          system_skill_name = skill;
          specialist_catalogue_scope = scope;
          governing_model_class = class;
        }))))

unfoldable pub validate_caller : Option Json → Result RecursiveCallerContext
validate_caller value = try (as_record value) (λ caller.
    try (validate_skill_name (get "system_skill_name" caller)) (λ skill.
      try (checked_scope (get "specialist_catalogue_scope" caller)) (λ scope.
        try (checked_class (get "governing_model_class" caller)) (λ class.
          if is_governed skill scope class
          then validate_lineage caller skill scope class
          else err control_invalid))))

abbrev pub is_text : Option Json → String → Bool
is_text (some (str s)) t = s == t
is_text _ t = false

-- The id of a request, or a random one.
unfoldable pub envelope_id : Option Json → String → String
envelope_id (some (str s)) random = if is_blank s then random else trim s
envelope_id _ random = random

unfoldable pub method_of : Option Json → Result RecursiveRpcMethod
method_of (some (str s)) =
    if s == "delegate"
    then ok delegate
    else if s == "rejoin"
    then ok rejoin
    else err control_invalid
method_of _ = err control_invalid

unfoldable pub validate_envelope : String → String → Option Json → Result Envelope
validate_envelope random token value = try (as_record value) (λ envelope.
    if not (is_text (get "token" envelope) token)
    then err control_invalid
    else try (method_of (get "method" envelope)) (λ method.
      try (validate_caller (get "caller" envelope)) (λ caller.
        try (as_record (get "params" envelope)) (λ params. ok (record {
          id = envelope_id (get "id" envelope) random;
          method = method;
          caller = caller;
          params = params;
        })))))
