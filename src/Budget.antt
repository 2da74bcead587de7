-- ===== src/Budget.antt =====
-- src/env.ts and src/timeoutBudget.ts: the times that a run is given.
mod Laws
mod Tests
use subagent.Common.{
  ℕ, String, Bool, not, ◌||◌, Option, none, some, ◌+◌, ◌-◌, max, ltb, if◌then◌else◌, is_blank,
}

-- `parse_number` is `Number(raw)`, where that is a safe integer that is not negative.
module _ (parse_number : String → Option ℕ) where
  -- A minimum is never negative here, so a text that is no natural number gives the fallback.
  at_least : ℕ → ℕ → Option ℕ → ℕ
  at_least fallback minimum none = fallback
  at_least fallback minimum (some parsed) = if ltb parsed minimum then fallback else parsed

  -- `safeIntegerFromEnv`, with the variable's value in place of its name.
  unfoldable pub safe_integer_from_env : Option String → ℕ → ℕ → ℕ
  unfolding at_least is_blank
  safe_integer_from_env none fallback minimum = fallback
  safe_integer_from_env (some raw) fallback minimum =
      if is_blank raw then fallback else at_least fallback minimum (parse_number raw)

pub record TimeoutBudgetOptions : Type 0 where
  pub min_requested_timeout_ms : Option ℕ
  pub response_headroom_ms : Option ℕ
  pub kill_grace_ms : Option ℕ
  pub force_grace_ms : Option ℕ

-- The environment variables of the budget.
pub record Environment : Type 0 where
  pub env_min_requested : Option String
  pub env_response_headroom : Option String
  pub env_kill_grace : Option String
  pub env_force_grace : Option String

pub record ResolvedOptions : Type 0 where
  pub min_requested_timeout_ms : ℕ
  pub response_headroom_ms : ℕ
  pub kill_grace_ms : ℕ
  pub force_grace_ms : ℕ

pub record TimeoutBudget : Type 0 where
  pub requested_timeout_ms : Option ℕ
  pub resolved_timeout_ms : Option ℕ
  pub min_requested_timeout_ms : ℕ
  pub effective_timeout_ms : Option ℕ
  pub response_headroom_ms : ℕ
  pub kill_grace_ms : ℕ
  pub force_grace_ms : ℕ

-- `given ?? fallback`.
abbrev pub or_else : Option ℕ → ℕ → ℕ
or_else none fallback = fallback
or_else (some given) fallback = given

unfoldable pub resolve_options :
    (String → Option ℕ) → Environment → TimeoutBudgetOptions → ResolvedOptions
resolve_options parse e o = record {
  min_requested_timeout_ms =
      or_else o.min_requested_timeout_ms (safe_integer_from_env parse e.env_min_requested 0 0);
  response_headroom_ms =
      or_else o.response_headroom_ms (safe_integer_from_env parse e.env_response_headroom 5000 0);
  kill_grace_ms = or_else o.kill_grace_ms (safe_integer_from_env parse e.env_kill_grace 1000 0);
  force_grace_ms = or_else o.force_grace_ms (safe_integer_from_env parse e.env_force_grace 1000 0);
}

unfoldable pub reserved_timeout_ms : ResolvedOptions → ℕ
reserved_timeout_ms r = r.response_headroom_ms + r.kill_grace_ms + r.force_grace_ms

-- The least time that is left for the child, in milliseconds.
abbrev pub min_effective_timeout_ms : ℕ
min_effective_timeout_ms = 1

budget_for : Option ℕ → ResolvedOptions → TimeoutBudget
unfolding reserved_timeout_ms
budget_for none r = record {
  requested_timeout_ms = none;
  resolved_timeout_ms = none;
  min_requested_timeout_ms = r.min_requested_timeout_ms;
  effective_timeout_ms = none;
  response_headroom_ms = r.response_headroom_ms;
  kill_grace_ms = r.kill_grace_ms;
  force_grace_ms = r.force_grace_ms;
}
budget_for (some requested) r =
    let resolved = max requested r.min_requested_timeout_ms in
    record {
      requested_timeout_ms = some requested;
      resolved_timeout_ms = some resolved;
      min_requested_timeout_ms = r.min_requested_timeout_ms;
      effective_timeout_ms = some (max min_effective_timeout_ms (resolved - reserved_timeout_ms r));
      response_headroom_ms = r.response_headroom_ms;
      kill_grace_ms = r.kill_grace_ms;
      force_grace_ms = r.force_grace_ms;
    }

-- The child's time is what the reserve leaves of the resolved time, and 1 where it leaves less;
-- subtraction of the source can go below 0, where the maximum with 1 gives the same.
unfoldable pub compute_timeout_budget :
    (String → Option ℕ) → Environment → Option ℕ → TimeoutBudgetOptions → TimeoutBudget
unfolding budget_for resolve_options
compute_timeout_budget parse e requested o = budget_for requested (resolve_options parse e o)

unfoldable pub minimum_requested_timeout_ms :
    (String → Option ℕ) → Environment → TimeoutBudgetOptions → ℕ
unfolding resolve_options reserved_timeout_ms
minimum_requested_timeout_ms parse e o =
    let r = resolve_options parse e o in
    max r.min_requested_timeout_ms (reserved_timeout_ms r + min_effective_timeout_ms)
