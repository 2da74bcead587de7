-- ===== src/Dispatch/Accounting.antt =====
-- src/researchDispatchMediator.ts: every accepted result has an accepted claim of its own.
use subagent.Common.{
  ℕ, ◌+◌, ◌≤◌, String, ◌==◌, Bool, true, false, not, ◌||◌, List, [], ◌∷◌, if-satisfies, arith, ◌≡◌,
  refl,
}
use subagent.Dispatch.{
  Dispatch, Mediator, DispatchEvent, claim_answered, result_arrives, result_answered, is_web_tool,
  set_call, claim_end, record_start, is_waiting, record_end, dispatch_step, dispatch_steps,
  mediator,
}

abbrev one_if : Bool → ℕ
one_if true = 1
one_if false = 0

-- A result is with the controller exactly while the call is recording, which it is only while it is
-- claimed; and the claims cover the results and the claim that is open.
record IsAccounted (d : Dispatch) : Type 0 where
  flight_eq : d.in_flight ≡ one_if d.recording
  recording_claimed : d.recording ≡ true → d.claimed ≡ true
  covered : d.accepted_results + one_if d.claimed ≤ d.accepted_claims

claim_end-IsAccounted : (b : Bool) (d : Dispatch) → IsAccounted d → IsAccounted (claim_end b d)
unfolding claim_end
claim_end-IsAccounted false d h = h
claim_end-IsAccounted true d h = record {
  flight_eq = h.flight_eq;
  recording_claimed = λ e. refl;
  covered = ground (arith, h.covered);
}

record_start-IsAccounted : (d : Dispatch) → IsAccounted d → IsAccounted (record_start d)
unfolding record_start
record_start-IsAccounted d h =
    if-satisfies IsAccounted (not d.claimed || d.recording) _ _ (λ e. h)
      (λ e. record {
        flight_eq = ground (arith, e, h.flight_eq);
        recording_claimed = λ g. ground (arith, e);
        covered = h.covered;
      })

record_end-IsAccounted :
    (b : Bool) (d : Dispatch)
    → is_waiting d.in_flight ≡ true
    → IsAccounted d
    → IsAccounted (record_end b d)
unfolding record_end
record_end-IsAccounted false d w h = record {
  flight_eq = ground (arith, h.flight_eq, w);
  recording_claimed = λ e. ground (arith, e);
  covered = h.covered;
}
record_end-IsAccounted true d w h = record {
  flight_eq = ground (arith, h.flight_eq, w);
  recording_claimed = λ e. ground (arith, e);
  covered = ground (arith, h.covered, h.recording_claimed (ground (arith, h.flight_eq, w)));
}

set_call-IsAccounted :
    (id : String) (d : Dispatch) (m : Mediator)
    → IsAccounted d
    → ((q : String) → IsAccounted (m.calls q))
    → (q : String) → IsAccounted ((set_call id d m).calls q)
set_call-IsAccounted id d m h k q = if-satisfies IsAccounted (q == id) _ _ (λ e. h) (λ e. k q)

step-IsAccounted :
    (e : DispatchEvent) (m : Mediator)
    → ((q : String) → IsAccounted (m.calls q))
    → (q : String) → IsAccounted ((dispatch_step e m).calls q)
unfolding dispatch_step
step-IsAccounted (claim_answered id tool success) m h q =
    if-satisfies (λ (n : Mediator). IsAccounted (n.calls q)) (is_web_tool tool) _ _
      (λ e. set_call-IsAccounted id _ m (claim_end-IsAccounted success (m.calls id) (h id)) h q)
      (λ e. h q)
step-IsAccounted (result_arrives id tool) m h q =
    if-satisfies (λ (n : Mediator). IsAccounted (n.calls q)) (is_web_tool tool) _ _
      (λ e. set_call-IsAccounted id _ m (record_start-IsAccounted (m.calls id) (h id)) h q)
      (λ e. h q)
step-IsAccounted (result_answered id success) m h q =
    if-satisfies (λ (n : Mediator). IsAccounted (n.calls q)) (is_waiting (m.calls id).in_flight) _ _
      (λ e. set_call-IsAccounted id _ m (record_end-IsAccounted success (m.calls id) e (h id)) h q)
      (λ e. h q)

mediator-IsAccounted : (q : String) → IsAccounted (mediator.calls q)
unfolding mediator
mediator-IsAccounted q = record {
  flight_eq = refl;
  recording_claimed = λ e. ground (arith, e);
  covered = omega arith;
}

steps-IsAccounted :
    (es : List DispatchEvent) (m : Mediator)
    → ((q : String) → IsAccounted (m.calls q))
    → (q : String) → IsAccounted ((dispatch_steps es m).calls q)
unfolding dispatch_steps
steps-IsAccounted [] m h q = h q
steps-IsAccounted (e ∷ es) m h q =
    steps-IsAccounted es (dispatch_step e m) (step-IsAccounted e m h) q

-- Over any order of answered claims, arriving results and answered results, from a new mediator on,
-- every tool call has one result at most with the controller, and only while it is claimed; and the
-- controller has accepted no more results of it than claims.
pub dispatch-IsAccounted :
    (es : List DispatchEvent) (id : String)
    → (((dispatch_steps es mediator).calls id).in_flight ≤ 1)
      × (((dispatch_steps es mediator).calls id).in_flight ≡ 1
          → ((dispatch_steps es mediator).calls id).claimed ≡ true)
      × (((dispatch_steps es mediator).calls id).accepted_results
          ≤ ((dispatch_steps es mediator).calls id).accepted_claims)
dispatch-IsAccounted es id =
    let h = steps-IsAccounted es mediator mediator-IsAccounted id in
    (
      ground (arith, h.flight_eq),
      (λ e. h.recording_claimed (ground (arith, e, h.flight_eq))),
      ground (arith, h.covered),
    )
