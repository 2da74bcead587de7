-- ===== src/Children/Pump.antt =====
-- src/activeChildLease.ts: the loop of the pump ends.
use subagent.Common.{
  ℕ, zero, suc, String, ◌≡◌, Bool, true, false, not, Option, none, some, List, [], ◌∷◌, ◌≤◌, ◌<◌,
  length, length-filter-le, if-satisfies, Result, ok, err, arith, refl, eq_refl, Bool-cases, inl,
  inr, subst, ltb, ap, sym, ◌∙◌,
}
use subagent.Children.{LocalRun, State, Owner, Ticket, lock_attempts, write_active_lease}
use subagent.Children.Capacity.{locked-preserves}
use subagent.Children.Queue.{
  local_queue_head, earlier, remove_local, round_on, pump_round, pump_owner_queue, Round, goes_on,
  after_promotion, after_release, is_capacity, promote_locked, promote_limited,
  promote_local_queue_head, release_owned_queue_ticket, release_ticket,
}

remove-le : (run_id : String) (rs : List LocalRun) → length (remove_local run_id rs) ≤ length rs
remove-le run_id rs = length-filter-le _ rs

remove-lt_later :
    (run_id : String) (p : LocalRun) (rs : List LocalRun)
    → length (remove_local run_id rs) < length rs
    → length (remove_local run_id (p ∷ rs)) < length (p ∷ rs)
remove-lt_later run_id p rs h = ground (arith, h)

remove-lt_here :
    (p : LocalRun) (rs : List LocalRun)
    → length (remove_local p.ticket.run_id (p ∷ rs)) < length (p ∷ rs)
remove-lt_here p rs = ground (arith, remove-le p.ticket.run_id rs, eq_refl p.ticket.run_id)

the_same : (a b : LocalRun) → some a ≡ some b → a ≡ b
the_same a b h = ground (arith, h)

remove-lt_from :
    (p : LocalRun) (rs : List LocalRun) (o : Option LocalRun)
    → local_queue_head rs ≡ o
    → ((r : LocalRun)
        → local_queue_head rs ≡ some r
        → length (remove_local r.ticket.run_id rs) < length rs)
    → length (remove_local (earlier p o).ticket.run_id (p ∷ rs)) < length (p ∷ rs)
unfolding earlier
remove-lt_from p rs none e h = remove-lt_here p rs
remove-lt_from p rs (some q) e h =
    if-satisfies (λ t. length (remove_local t.ticket.run_id (p ∷ rs)) < length (p ∷ rs))
      (ltb q.ticket.owner_sequence p.ticket.owner_sequence) q p
      (λ _. remove-lt_later q.ticket.run_id p rs (h q e)) (λ _. remove-lt_here p rs)

remove_head-lt :
    (rs : List LocalRun) (r : LocalRun)
    → local_queue_head rs ≡ some r
    → length (remove_local r.ticket.run_id rs) < length rs
unfolding local_queue_head
remove_head-lt [] r h = ground (arith, h)
remove_head-lt (p ∷ rs) r h =
    subst (λ t. length (remove_local t.ticket.run_id (p ∷ rs)) < length (p ∷ rs)) (the_same _ _ h)
      (remove-lt_from p rs (local_queue_head rs) refl (remove_head-lt rs))

promote_limited-local :
    (o : Owner) (id : String) (r : LocalRun) (s : State)
    → (promote_limited o id r s).1.local_runs ≡ s.local_runs
unfolding promote_limited write_active_lease
promote_limited-local o id r s = ground arith

promote_locked-local :
    (o : Owner) (id : String) (r : LocalRun) (s : State)
    → (promote_locked o id r s).1.local_runs ≡ s.local_runs
unfolding promote_locked
promote_locked-local o id r s = ground (arith, promote_limited-local o id r s)

promote-local :
    (o : Owner) (id : String) (r : LocalRun) (s : State)
    → (promote_local_queue_head o id r s).1.local_runs ≡ s.local_runs
unfolding promote_local_queue_head
promote-local o id r s =
    locked-preserves (λ t. t.local_runs ≡ s.local_runs) (promote_locked o id r)
      (λ t h. promote_locked-local o id r t ∙ h) lock_attempts s refl

after_promotion-local :
    (r : LocalRun) (t : Result Bool × State) (rs : List LocalRun)
    → t.1.local_runs ≡ rs
    → goes_on (after_promotion r t).0 ≡ true
    → (after_promotion r t).1.local_runs ≡ remove_local r.ticket.run_id rs
unfolding after_promotion
after_promotion-local r (ok true, s) rs e h = ap (remove_local r.ticket.run_id) e
after_promotion-local r (ok false, s) rs e h = ground (arith, h)
after_promotion-local r (err c, s) rs e h = elim (Bool-cases (is_capacity c)) [
  | inl b ↦ ground (arith, b, h)
  | inr b ↦ rw b (ap (remove_local r.ticket.run_id) e)
]

release_ticket-local :
    (o : Owner) (run_id : String) (t : Option Ticket) (s : State)
    → (release_ticket o run_id t s).1.local_runs ≡ s.local_runs
unfolding release_ticket
release_ticket-local o run_id none s = ground arith
release_ticket-local o run_id (some t) s = ground arith

after_release-local : (r : LocalRun) (t : Result (Unit {0}) × State) → (after_release r t).1 ≡ t.1
unfolding after_release
after_release-local r (ok u, s) = refl
after_release-local r (err e, s) = refl

release-local :
    (o : Owner) (run_id : String) (s : State)
    → (release_owned_queue_ticket o run_id s).1.local_runs ≡ remove_local run_id s.local_runs
unfolding release_owned_queue_ticket
release-local o run_id s = release_ticket-local o run_id _ _

round_on-local :
    (o : Owner) (id : String) (s : State) (r : LocalRun)
    → goes_on (round_on o id (some r) s).0 ≡ true
    → (round_on o id (some r) s).1.local_runs ≡ remove_local r.ticket.run_id s.local_runs
unfolding round_on
round_on-local o id s r h = elim (Bool-cases r.ready) [
  | inr b ↦ ground (arith, b, h)
  | inl b ↦ elim (Bool-cases r.cancelled) [
    | inl c ↦ ground (
      arith,
      b,
      c,
      after_release-local r (release_owned_queue_ticket o r.ticket.run_id s),
      release-local o r.ticket.run_id s,
    )
    | inr c ↦ ground (
      arith,
      b,
      c,
      h,
      after_promotion-local r (promote_local_queue_head o id r s) s.local_runs
          (promote-local o id r s),
    )
  ]
]

round_on-shrinks :
    (o : Owner) (id : String) (s : State) (head : Option LocalRun)
    → local_queue_head s.local_runs ≡ head
    → goes_on (round_on o id head s).0 ≡ true
    → length (round_on o id head s).1.local_runs < length s.local_runs
unfolding round_on
round_on-shrinks o id s none e h = ground (arith, h)
round_on-shrinks o id s (some r) e h =
    subst (λ rs. length rs < length s.local_runs) (sym (round_on-local o id s r h))
      (remove_head-lt s.local_runs r e)

-- Whether the rounds of a pump end with one that stops it.
abbrev pub has_stopped : List Round → Bool
has_stopped [] = false
has_stopped (one ∷ []) = not (goes_on one)
has_stopped (one ∷ rounds) = has_stopped rounds

abbrev StopsAt : List Round × State → Type 0
StopsAt t = has_stopped t.0 ≡ true

stops_later :
    (one : Round) (rounds : List Round)
    → has_stopped rounds ≡ true
    → has_stopped (one ∷ rounds) ≡ true
stops_later one [] h = ground arith
stops_later one (two ∷ rounds) h = h

-- The pump always comes to a round that stops it, within one round more than there are waiting
-- runs.
pub pump-stops :
    (fuel : ℕ) (o : Owner) (ids : ℕ → String) (s : State)
    → length s.local_runs < fuel
    → has_stopped (pump_owner_queue fuel o ids s).0 ≡ true
unfolding pump_owner_queue pump_round
pump-stops zero o ids s h = ground (arith, h)
pump-stops (suc fuel) o ids s h =
    let one = pump_round o (ids fuel) s in
    let rest = pump_owner_queue fuel o ids one.1 in
    if-satisfies StopsAt (goes_on one.0) (one.0 ∷ rest.0, rest.1) (one.0 ∷ [], one.1)
      (λ g. stops_later one.0 rest.0 (
        pump-stops fuel o ids one.1 (
          omega
            (arith, h, round_on-shrinks o (ids fuel) s (local_queue_head s.local_runs) refl g))))
      (λ g. ground (arith, g))
