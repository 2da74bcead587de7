-- ===== src/Children/Capacity.antt =====
-- src/activeChildLease.ts: no operation takes the leases or the tickets over their limits.
use subagent.Common.{
  ℕ, zero, suc, String, ◌==◌, Bool, true, false, not, ◌||◌, Option, none, some, List, ltb, leb,
  nat_eq, ◌≤◌, length, length-filter-le, if-satisfies, Result, ok, err, validation, eexist, enoent,
  thrown, arith,
}
use subagent.Common.State.{M}
use subagent.Children.{
  Ticket, TicketFile, LeaseFile, LocalRun, State, Owner, prune_stale_leases, queue_ticket_records,
  lease_stays, ticket_stays, write_active_lease, enqueue, admit_locked, retry, with_capacity_lock,
  lock_attempts, admit_active_child,
}
use subagent.Children.Queue.{
  release_ticket, release_owned_queue_ticket, read_queue_ticket, remove_ticket, promote_locked,
  owns, promote_local_queue_head, after_promotion, after_release, round_on, pump_round,
  promote_limited, is_capacity, pump_owner_queue, goes_on, local_queue_head,
}

-- The leases and the tickets are within their limits.
pub record IsWithin (o : Owner) (s : State) : Type 0 where
  pub leases_within : length s.leases ≤ o.max_active
  pub tickets_within : length s.tickets ≤ o.max_queued

abbrev EndsWithin : {A : Type 0} → Owner → A × State → Type 0
EndsWithin o t = IsWithin o t.1

prune-le : (o : Owner) (files : List LeaseFile) → length (prune_stale_leases o files) ≤ length files
unfolding prune_stale_leases
prune-le o files = length-filter-le (lease_stays o) files

sweep-le :
    (o : Owner) (files : List TicketFile) → length (queue_ticket_records o files) ≤ length files
unfolding queue_ticket_records
sweep-le o files = length-filter-le (ticket_stays o) files

enqueue-IsWithin :
    (o : Owner) (run_id : String) (s : State)
    → length s.leases ≤ o.max_active
    → suc (length s.tickets) ≤ o.max_queued
    → IsWithin o (enqueue o run_id s).1
unfolding enqueue
enqueue-IsWithin o run_id s h k =
    if-satisfies (EndsWithin o) _ _ _
      (λ _. record { leases_within = h; tickets_within = omega (arith, k) })
      (λ _. record { leases_within = h; tickets_within = k })

admit_locked-IsWithin :
    (o : Owner) (id run_id : String) (allow : Bool) (s : State)
    → IsWithin o s
    → IsWithin o (admit_locked o id run_id allow s).1
unfolding admit_locked write_active_lease
admit_locked-IsWithin o id run_id allow s h =
    let pruned = prune-le o s.leases in
    let swept = sweep-le o s.tickets in
    if-satisfies (EndsWithin o) (ltb (length (prune_stale_leases o s.leases)) o.max_active) _ _
      (λ b. record { leases_within = ground (arith, b); tickets_within = h.tickets_within })
      (λ _.
        if-satisfies (EndsWithin o) (not allow || leb o.max_queued 0) _ _
          (λ _. record {
            leases_within = omega (arith, pruned, h.leases_within);
            tickets_within = h.tickets_within;
          })
          (λ _.
            if-satisfies (EndsWithin o)
              (leb o.max_queued (length (queue_ticket_records o s.tickets))) _ _
              (λ _. record {
                leases_within = omega (arith, pruned, h.leases_within);
                tickets_within = omega (arith, swept, h.tickets_within);
              })
              (λ b.
                enqueue-IsWithin o run_id
                  (record s {
                    leases = prune_stale_leases o s.leases;
                    tickets = queue_ticket_records o s.tickets;
                  })
                  (omega (arith, pruned, h.leases_within)) (ground (arith, b)))))

retry-preserves :
    {A : Type 0} (P : State → Type 0) (again : M State A) (r : Result A × State)
    → ((t : State) → P t → P (again t).1)
    → P r.1
    → P (retry again r).1
unfolding retry
retry-preserves P again (ok a, t) g h = h
retry-preserves P again (err eexist, t) g h = g t h
retry-preserves P again (err enoent, t) g h = h
retry-preserves P again (err thrown, t) g h = h
retry-preserves P again (err (validation c), t) g h = h

-- What an operation preserves, its attempts under the lock preserve.
pub locked-preserves :
    {A : Type 0} (P : State → Type 0) (op : M State A)
    → ((s : State) → P s → P (op s).1)
    → (n : ℕ) (s : State) → P s
    → P (with_capacity_lock n op s).1
unfolding with_capacity_lock
locked-preserves P op f zero s h = h
locked-preserves P op f (suc n) s h =
    retry-preserves P (with_capacity_lock n op) (op s) (λ t. locked-preserves P op f n t) (f s h)

-- Admission keeps the leases and the tickets within their limits.
pub admit-IsWithin :
    (o : Owner) (id run_id : String) (allow : Bool) (s : State)
    → IsWithin o s
    → IsWithin o (admit_active_child o id run_id allow s).1
unfolding admit_active_child
admit-IsWithin o id run_id allow s h =
    if-satisfies (EndsWithin o) (nat_eq o.max_active 0) _ _ (λ _. h)
      (λ _.
        locked-preserves (IsWithin o) (admit_locked o id run_id allow)
          (admit_locked-IsWithin o id run_id allow) lock_attempts s h)

remove-le :
    (run_id : String) (files : List TicketFile) → length (remove_ticket run_id files) ≤ length files
remove-le run_id files = length-filter-le _ files

release_ticket-IsWithin :
    (o : Owner) (run_id : String) (t : Option Ticket) (s : State)
    → IsWithin o s
    → IsWithin o (release_ticket o run_id t s).1
unfolding release_ticket
release_ticket-IsWithin o run_id none s h =
    if-satisfies (EndsWithin o) _ (err thrown, s) (ok tt, s) (λ _. h) (λ _. h)
release_ticket-IsWithin o run_id (some t) s h =
    if-satisfies (EndsWithin o) (not (t.run_id == run_id) || not (t.owner_id == o.owner_id)) _ _
      (λ _. h)
      (λ _. record {
        leases_within = h.leases_within;
        tickets_within = omega (arith, remove-le run_id s.tickets, h.tickets_within);
      })

release-IsWithin :
    (o : Owner) (run_id : String) (s : State)
    → IsWithin o s
    → IsWithin o (release_owned_queue_ticket o run_id s).1
unfolding release_owned_queue_ticket
release-IsWithin o run_id s h =
    release_ticket-IsWithin o run_id (read_queue_ticket run_id s.tickets) _
      (record { leases_within = h.leases_within; tickets_within = h.tickets_within })

promote_limited-IsWithin :
    (o : Owner) (id : String) (r : LocalRun) (s : State)
    → IsWithin o s
    → IsWithin o (promote_limited o id r s).1
unfolding promote_limited write_active_lease
promote_limited-IsWithin o id r s h =
    let pruned = prune-le o s.leases in
    let removed = remove-le r.ticket.run_id s.tickets in
    if-satisfies (EndsWithin o) (ltb (length (prune_stale_leases o s.leases)) o.max_active) _ _
      (λ b. record {
        leases_within = ground (arith, b);
        tickets_within = omega (arith, removed, h.tickets_within);
      })
      (λ _. record {
        leases_within = omega (arith, pruned, h.leases_within);
        tickets_within = h.tickets_within;
      })

promote_locked-IsWithin :
    (o : Owner) (id : String) (r : LocalRun) (s : State)
    → IsWithin o s
    → IsWithin o (promote_locked o id r s).1
unfolding promote_locked
promote_locked-IsWithin o id r s h =
    if-satisfies (EndsWithin o) (not (owns o r (read_queue_ticket r.ticket.run_id s.tickets))) _ _
      (λ _. h)
      (λ _.
        if-satisfies (EndsWithin o) r.cancelled _ _ (λ _. h)
          (λ _.
            if-satisfies (EndsWithin o) (nat_eq o.max_active 0) _ _
              (λ _. record {
                leases_within = h.leases_within;
                tickets_within =
                    omega (arith, remove-le r.ticket.run_id s.tickets, h.tickets_within);
              })
              (λ _. promote_limited-IsWithin o id r s h)))

after_promotion-IsWithin :
    (o : Owner) (r : LocalRun) (t : Result Bool × State)
    → EndsWithin o t
    → EndsWithin o (after_promotion r t)
unfolding after_promotion
after_promotion-IsWithin o r (ok true, s) h = record {
  leases_within = h.leases_within;
  tickets_within = h.tickets_within;
}
after_promotion-IsWithin o r (ok false, s) h = h
after_promotion-IsWithin o r (err e, s) h =
    if-satisfies (EndsWithin o) (is_capacity e) _ _ (λ _. h)
      (λ _. record { leases_within = h.leases_within; tickets_within = h.tickets_within })

after_release-IsWithin :
    (o : Owner) (r : LocalRun) (t : Result (Unit {0}) × State)
    → EndsWithin o t
    → EndsWithin o (after_release r t)
unfolding after_release
after_release-IsWithin o r (ok u, s) h = h
after_release-IsWithin o r (err e, s) h = h

round_on-IsWithin :
    (o : Owner) (id : String) (r : Option LocalRun) (s : State)
    → IsWithin o s
    → EndsWithin o (round_on o id r s)
unfolding round_on promote_local_queue_head
round_on-IsWithin o id none s h = h
round_on-IsWithin o id (some r) s h =
    if-satisfies (EndsWithin o) (not r.ready) _ _ (λ _. h)
      (λ _.
        if-satisfies (EndsWithin o) r.cancelled _ _
          (λ _. after_release-IsWithin o r _ (release-IsWithin o r.ticket.run_id s h))
          (λ _. after_promotion-IsWithin o r _ (
            locked-preserves (IsWithin o) (promote_locked o id r) (promote_locked-IsWithin o id r)
              lock_attempts s h)))

pub round-IsWithin :
    (o : Owner) (id : String) (s : State) → IsWithin o s → IsWithin o (pump_round o id s).1
unfolding pump_round
round-IsWithin o id s h = round_on-IsWithin o id (local_queue_head s.local_runs) s h

-- The pump keeps the leases and the tickets within their limits, however long it runs.
pub pump-IsWithin :
    (fuel : ℕ) (o : Owner) (ids : ℕ → String) (s : State)
    → IsWithin o s
    → IsWithin o (pump_owner_queue fuel o ids s).1
unfolding pump_owner_queue
pump-IsWithin zero o ids s h = h
pump-IsWithin (suc fuel) o ids s h =
    let one = round-IsWithin o (ids fuel) s h in
    if-satisfies (EndsWithin o) (goes_on (pump_round o (ids fuel) s).0) _ _
      (λ _. pump-IsWithin fuel o ids (pump_round o (ids fuel) s).1 one) (λ _. one)
