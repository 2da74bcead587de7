-- ===== src/Dispatch.antt =====
-- src/researchDispatchMediator.ts: the web calls of a research run, claimed before and recorded after.
mod Accounting
mod Tests
use subagent.Common.{
  ℕ, zero, suc, ◌+◌, ◌-◌, String, ◌==◌, Bool, true, false, not, ◌&&◌, ◌||◌, List, [], ◌∷◌,
  if◌then◌else◌,
}

-- What is known of one tool call: whether it is in the two sets of the mediator, how many of its
-- results are with the controller, and how many claims and results the controller has accepted.
pub record Dispatch : Type 0 where
  pub claimed : Bool
  pub recording : Bool
  pub in_flight : ℕ
  pub accepted_claims : ℕ
  pub accepted_results : ℕ

pub record Mediator : Type 0 where
  pub calls : String → Dispatch

-- What happens to the mediator: the controller answers a claim or a result, with its success, where a
-- call that fails counts as without; and a result arrives, which goes to the controller if it may.
pub data DispatchEvent : Type 0 where
  claim_answered : (id tool : String) → Bool → DispatchEvent
  result_arrives : (id tool : String) → DispatchEvent
  result_answered : (id : String) → Bool → DispatchEvent

-- `RESEARCH_WEB_TOOLS`.
abbrev pub is_web_tool : String → Bool
is_web_tool tool = tool == "web_search" || tool == "web_read"

abbrev pub set_call : String → Dispatch → Mediator → Mediator
set_call id d m = record m { calls = λ q. if q == id then d else m.calls q }

-- The end of `claim`.
unfoldable pub claim_end : Bool → Dispatch → Dispatch
claim_end false d = d
claim_end true d = record d { claimed = true; accepted_claims = suc d.accepted_claims }

-- The start of `record`, up to the call of the controller, or its refusal.
unfoldable pub record_start : Dispatch → Dispatch
record_start d =
    if not d.claimed || d.recording
    then d
    else record d { recording = true; in_flight = suc d.in_flight }

abbrev pub is_waiting : ℕ → Bool
is_waiting zero = false
is_waiting (suc n) = true

-- The end of `record` for a result that is with the controller, its `finally` included.
unfoldable pub record_end : Bool → Dispatch → Dispatch
record_end true d = record d {
  claimed = false;
  recording = false;
  in_flight = d.in_flight - 1;
  accepted_results = suc d.accepted_results;
}
record_end false d = record d { recording = false; in_flight = d.in_flight - 1 }

unfoldable pub dispatch_step : DispatchEvent → Mediator → Mediator
dispatch_step (claim_answered id tool success) m =
    if is_web_tool tool then set_call id (claim_end success (m.calls id)) m else m
dispatch_step (result_arrives id tool) m =
    if is_web_tool tool then set_call id (record_start (m.calls id)) m else m
dispatch_step (result_answered id success) m =
    if is_waiting (m.calls id).in_flight then set_call id (record_end success (m.calls id)) m else m

unfoldable pub dispatch_steps : List DispatchEvent → Mediator → Mediator
dispatch_steps [] m = m
dispatch_steps (e ∷ es) m = dispatch_steps es (dispatch_step e m)

unfoldable pub mediator : Mediator
mediator = record {
  calls = λ id. record {
    claimed = false;
    recording = false;
    in_flight = 0;
    accepted_claims = 0;
    accepted_results = 0;
  };
}
