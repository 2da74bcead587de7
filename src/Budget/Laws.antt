-- ===== src/Budget/Laws.antt =====
-- src/timeoutBudget.ts: the child's time and the times reserved after it fit the request.
use subagent.Common.{ℕ, String, ◌≡◌, Option, some, ◌+◌, ◌≤◌, max, arith, ◌↔◌, refl}
use subagent.Budget.{
  Environment, TimeoutBudgetOptions, TimeoutBudget, ResolvedOptions, resolve_options,
  reserved_timeout_ms, compute_timeout_budget, minimum_requested_timeout_ms, budget_for,
}

-- What a budget reserves after the child's own time.
abbrev pub reserved_of : TimeoutBudget → ℕ
reserved_of b = b.response_headroom_ms + b.kill_grace_ms + b.force_grace_ms

fits :
    (r : ResolvedOptions) (requested : ℕ)
    → max r.min_requested_timeout_ms (reserved_timeout_ms r + 1) ≤ requested
    → (effective : ℕ) × ((budget_for (some requested) r).effective_timeout_ms ≡ some effective)
      × (effective + reserved_of (budget_for (some requested) r) ≡ requested)
      × (1 ≤ effective)
unfolding budget_for reserved_timeout_ms
fits r requested h = (_, refl, omega (arith, h), omega (arith, h))

-- A run that asks for at least the published minimum gets exactly what it asked for: its child's
-- time and the times reserved after it add up to the request, and the child's time is not 0.
pub budget-fits :
    (parse : String → Option ℕ) (e : Environment) (o : TimeoutBudgetOptions) (requested : ℕ)
    → minimum_requested_timeout_ms parse e o ≤ requested
    → (effective : ℕ) × ((compute_timeout_budget parse e (some requested) o).effective_timeout_ms
        ≡ some effective)
      × (effective + reserved_of (compute_timeout_budget parse e (some requested) o) ≡ requested)
      × (1 ≤ effective)
unfolding minimum_requested_timeout_ms compute_timeout_budget
budget-fits parse e o requested h = fits (resolve_options parse e o) requested h

least :
    (r : ResolvedOptions) (requested effective : ℕ)
    → (budget_for (some requested) r).effective_timeout_ms ≡ some effective
    → (effective + reserved_of (budget_for (some requested) r) ≤ requested)
      ↔ (max r.min_requested_timeout_ms (reserved_timeout_ms r + 1) ≤ requested)
unfolding budget_for reserved_timeout_ms
least r requested effective h = grind (arith, h)

-- The published minimum is exact: the child's time and the times reserved after it stay within the
-- request if and only if the request is at least that minimum.
pub minimum-least :
    (parse : String → Option ℕ) (e : Environment) (o : TimeoutBudgetOptions)
    (requested effective : ℕ)
    → (compute_timeout_budget parse e (some requested) o).effective_timeout_ms ≡ some effective
    → (effective + reserved_of (compute_timeout_budget parse e (some requested) o) ≤ requested)
      ↔ (minimum_requested_timeout_ms parse e o ≤ requested)
unfolding minimum_requested_timeout_ms compute_timeout_budget
minimum-least parse e o requested effective h =
    least (resolve_options parse e o) requested effective h
