-- ===== src/Children/Order.antt =====
-- src/activeChildLease.ts: the queue gives leases in the order of admission, and the pump ends.
use subagent.Common.{
  String, ◌≡◌, Bool, true, false, Option, none, some, List, [], ◌∷◌, ltb, ◌≤◌, if-satisfies, Result,
  ok, err, arith, refl, All, inl, inr, Bool-cases, subst, ◌≢◌,
}
use subagent.Children.{LocalRun, State, Owner}
use subagent.Children.Queue.{
  local_queue_head, earlier, round_on, pump_round, promoted, after_promotion, after_release,
  promote_local_queue_head, release_owned_queue_ticket,
}

earlier-le :
    (r : LocalRun) (o : Option LocalRun)
    → (earlier r o).ticket.owner_sequence ≤ r.ticket.owner_sequence
unfolding earlier
earlier-le r none = omega arith
earlier-le r (some q) =
    if-satisfies (λ t. t.ticket.owner_sequence ≤ r.ticket.owner_sequence) _ q r
      (λ b. ground (arith, b)) (λ _. omega arith)

earlier-le_other :
    (r q : LocalRun) → (earlier r (some q)).ticket.owner_sequence ≤ q.ticket.owner_sequence
unfolding earlier
earlier-le_other r q =
    if-satisfies (λ t. t.ticket.owner_sequence ≤ q.ticket.owner_sequence)
      (ltb q.ticket.owner_sequence r.ticket.owner_sequence) q r (λ _. omega arith)
      (λ b. ground (arith, b))

-- A run that has no later number than any other.
abbrev pub IsFirst : LocalRun → List LocalRun → Type 0
IsFirst r rs = All (λ q. r.ticket.owner_sequence ≤ q.ticket.owner_sequence) rs

IsFirst-weaken :
    (r q : LocalRun) (rs : List LocalRun)
    → r.ticket.owner_sequence ≤ q.ticket.owner_sequence
    → IsFirst q rs
    → IsFirst r rs
IsFirst-weaken r q [] h k = tt
IsFirst-weaken r q (p ∷ rs) h k = (omega (arith, h, k.0), IsFirst-weaken r q rs h k.1)

head-IsFirst_from :
    (r : LocalRun) (rs : List LocalRun) (o : Option LocalRun)
    → local_queue_head rs ≡ o
    → ((q : LocalRun) → local_queue_head rs ≡ some q → IsFirst q rs)
    → IsFirst (earlier r o) rs
unfolding local_queue_head earlier
head-IsFirst_from r [] none e h = tt
head-IsFirst_from r [] (some q) e h = tt
head-IsFirst_from r (p ∷ rs) none e h = ground arith
head-IsFirst_from r (p ∷ rs) (some q) e h =
    IsFirst-weaken (earlier r (some q)) q (p ∷ rs) (earlier-le_other r q) (h q e)

the_same : (a b : LocalRun) → some a ≡ some b → a ≡ b
the_same a b h = ground (arith, h)

head-IsFirst : (rs : List LocalRun) (r : LocalRun) → local_queue_head rs ≡ some r → IsFirst r rs
unfolding local_queue_head
head-IsFirst [] r h = tt
head-IsFirst (p ∷ rs) r h =
    let first = head-IsFirst_from p rs (local_queue_head rs) refl (head-IsFirst rs) in
    subst (λ t. IsFirst t (p ∷ rs)) (the_same _ _ h) (earlier-le p (local_queue_head rs), first)

after_promotion-promoted :
    (r : LocalRun) (t : Result Bool × State) (run_id : String)
    → (after_promotion r t).0 ≡ promoted run_id
    → r.ticket.run_id ≡ run_id
unfolding after_promotion
after_promotion-promoted r (ok true, s) run_id h = ground (arith, h)
after_promotion-promoted r (ok false, s) run_id h = ground (arith, h)
after_promotion-promoted r (err e, s) run_id h = ground (arith, h)

after_release-promoted :
    (r : LocalRun) (t : Result (Unit {0}) × State) (run_id : String)
    → (after_release r t).0 ≢ promoted run_id
unfolding after_release
after_release-promoted r (ok u, s) run_id h = ground (arith, h)
after_release-promoted r (err e, s) run_id h = ground (arith, h)

-- The head of the queue, as a round finds it when it gives it a lease.
pub record IsServed (s : State) (r : LocalRun) (run_id : String) : Type 0 where
  pub is_head : local_queue_head s.local_runs ≡ some r
  pub has_id : r.ticket.run_id ≡ run_id
  pub is_ready : r.ready ≡ true
  pub is_wanted : r.cancelled ≡ false
  pub is_first : IsFirst r s.local_runs

IsServed-from :
    (o : Owner) (id : String) (s : State) (head : Option LocalRun) (run_id : String)
    → local_queue_head s.local_runs ≡ head
    → (round_on o id head s).0 ≡ promoted run_id
    → (r : LocalRun) × IsServed s r run_id
unfolding round_on
IsServed-from o id s none run_id e h = ground (arith, h)
IsServed-from o id s (some r) run_id e h = elim (Bool-cases r.ready) [
  | inr b ↦ ground (arith, b, h)
  | inl b ↦ elim (Bool-cases r.cancelled) [
    | inl c ↦ absurd (
        after_release-promoted r (release_owned_queue_ticket o r.ticket.run_id s) run_id
          (ground (arith, b, c, h)))
    | inr c ↦ (
      r,
      record {
        is_head = e;
        has_id =
            after_promotion-promoted r (promote_local_queue_head o id r s) run_id
              (ground (arith, b, c, h));
        is_ready = b;
        is_wanted = c;
        is_first = head-IsFirst s.local_runs r e;
      },
    )
  ]
]

-- A round of the pump gives a lease only to a run that waits for one and is not cancelled, and
-- whose sequence number is no greater than that of any run in the queue of the owner.
pub round-serves_first :
    (o : Owner) (id : String) (s : State) (run_id : String)
    → (pump_round o id s).0 ≡ promoted run_id
    → (r : LocalRun) × IsServed s r run_id
unfolding pump_round
round-serves_first o id s run_id h =
    IsServed-from o id s (local_queue_head s.local_runs) run_id refl h
