-- ===== src/Budget/Tests.antt =====
-- Budgets of concrete requests.
use subagent.Common.{ℕ, String, ◌≡◌, refl, Option, none, some, ◌+◌, ◌≤◌, arith, ◌↔◌}
use subagent.Budget.{
  Environment, TimeoutBudgetOptions, compute_timeout_budget, minimum_requested_timeout_ms,
  safe_integer_from_env,
}
use subagent.Budget.Laws.{reserved_of, budget-fits, minimum-least}

abbrev parse : String → Option ℕ
parse text = some 2000

abbrev environment : Environment
environment = record {
  env_min_requested = none;
  env_response_headroom = some "";
  env_kill_grace = some "2000";
  env_force_grace = none;
}

abbrev options : TimeoutBudgetOptions
options = record {
  min_requested_timeout_ms = none;
  response_headroom_ms = none;
  kill_grace_ms = none;
  force_grace_ms = some 500;
}

published_minimum : minimum_requested_timeout_ms parse environment options ≡ 7501
unfolding minimum_requested_timeout_ms safe_integer_from_env
published_minimum = refl

budget-fits_example :
    (effective : ℕ) × ((compute_timeout_budget parse environment
        (some 60000)
        options).effective_timeout_ms
      ≡ some effective)
    × (effective + reserved_of (compute_timeout_budget parse environment (some 60000) options)
        ≡ 60000)
    × (1 ≤ effective)
budget-fits_example = budget-fits parse environment options 60000 (omega (arith, published_minimum))

minimum-least_example :
    (1 + reserved_of (compute_timeout_budget parse environment (some 100) options) ≤ 100)
    ↔ (minimum_requested_timeout_ms parse environment options ≤ 100)
unfolding compute_timeout_budget safe_integer_from_env
minimum-least_example = minimum-least parse environment options 100 1 refl
