-- ===== src/Dispatch/Tests.antt =====
-- A call that is claimed, and whose result arrives twice.
use subagent.Common.{◌≡◌, ◌≤◌, true, [], ◌∷◌, List}
use subagent.Dispatch.{
  DispatchEvent, claim_answered, result_arrives, result_answered, dispatch_steps, mediator,
}
use subagent.Dispatch.Accounting.{dispatch-IsAccounted}

abbrev twice : List DispatchEvent
twice =
    claim_answered "c1" "web_search" true
    ∷ result_arrives "c1" "web_search"
    ∷ result_arrives "c1" "web_search"
    ∷ result_answered "c1" true
    ∷ []

dispatch-IsAccounted_example :
    (((dispatch_steps twice mediator).calls "c1").in_flight ≤ 1)
    × (((dispatch_steps twice mediator).calls "c1").in_flight ≡ 1
        → ((dispatch_steps twice mediator).calls "c1").claimed ≡ true)
    × (((dispatch_steps twice mediator).calls "c1").accepted_results
        ≤ ((dispatch_steps twice mediator).calls "c1").accepted_claims)
dispatch-IsAccounted_example = dispatch-IsAccounted twice "c1"
