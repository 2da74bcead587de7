-- ===== src/Children/Queue.antt =====
-- src/activeChildLease.ts: tickets, their promotion to leases, and the owner's pump.
use subagent.Common.{
  ℕ, zero, suc, String, ◌==◌, Bool, true, false, not, ◌&&◌, ◌||◌, Option, none, some, List, [], ◌∷◌,
  ltb, nat_eq, length, filter, find, if◌then◌else◌, Result, ok, err, Failure, validation, thrown,
  FailureReasonCode,
}
use subagent.Common.State.{M}
use subagent.Children.{
  lease, unreadable, Ticket, TicketFile, LocalRun, State, Owner, prune_stale_leases,
  write_active_lease, with_capacity_lock, lock_attempts,
}

-- `readQueueTicket` on the ticket file of a run: `none` where there is none or none is readable.
unfoldable pub read_queue_ticket : String → List TicketFile → Option Ticket
read_queue_ticket run_id [] = none
read_queue_ticket run_id (file ∷ files) =
    let later = read_queue_ticket run_id files in
    if file.run_id == run_id then file.record_of else later

unfoldable pub path_exists : String → List TicketFile → Bool
path_exists run_id [] = false
path_exists run_id (file ∷ files) = file.run_id == run_id || path_exists run_id files

abbrev pub remove_ticket : String → List TicketFile → List TicketFile
remove_ticket run_id files = filter (λ file. not (file.run_id == run_id)) files

abbrev pub remove_local : String → List LocalRun → List LocalRun
remove_local run_id runs = filter (λ r. not (r.ticket.run_id == run_id)) runs

unfoldable pub release_ticket : Owner → String → Option Ticket → M State (Unit {0})
unfolding path_exists
release_ticket o run_id none s =
    if path_exists run_id s.tickets then (err thrown, s) else (ok tt, s)
release_ticket o run_id (some t) s =
    if not (t.run_id == run_id) || not (t.owner_id == o.owner_id)
    then (err thrown, s)
    else (ok tt, record s { tickets = remove_ticket run_id s.tickets })

-- The run is forgotten before its ticket is looked at.
unfoldable pub release_owned_queue_ticket : Owner → String → M State (Unit {0})
unfolding release_ticket
release_owned_queue_ticket o run_id s =
    release_ticket o run_id (read_queue_ticket run_id s.tickets)
      (record s { local_runs = remove_local run_id s.local_runs })

unfoldable pub get_local : String → List LocalRun → Option LocalRun
get_local run_id rs = find (λ r. r.ticket.run_id == run_id) rs

unfoldable pub mark_ready : String → List LocalRun → List LocalRun
mark_ready run_id [] = []
mark_ready run_id (r ∷ rs) =
    (if r.ticket.run_id == run_id then record r { ready = true } else r) ∷ mark_ready run_id rs

unfoldable pub wait_for : String → Option LocalRun → M State (Unit {0})
unfolding mark_ready
wait_for run_id none s = (err (validation FailureReasonCode.local_capacity_exhausted), s)
wait_for run_id (some r) s =
    if r.ready
    then (err (validation FailureReasonCode.local_capacity_exhausted), s)
    else (ok tt, record s { local_runs = mark_ready run_id s.local_runs })

-- `waitForLease` up to its registration: the run may be promoted from now on.
unfoldable pub wait_for_lease : String → M State (Unit {0})
unfolding wait_for get_local
wait_for_lease run_id s = wait_for run_id (get_local run_id s.local_runs) s

unfoldable pub mark_cancelled : String → List LocalRun → List LocalRun
mark_cancelled run_id [] = []
mark_cancelled run_id (r ∷ rs) =
    (if r.ticket.run_id == run_id then record r { cancelled = true } else r)
    ∷ mark_cancelled run_id rs

-- The abort of the signal that a waiting run gave.
unfoldable pub abort_wait : String → State → State
unfolding mark_cancelled
abort_wait run_id s = record s { local_runs = mark_cancelled run_id s.local_runs }

unfoldable pub earlier : LocalRun → Option LocalRun → LocalRun
earlier r none = r
earlier r (some q) = if ltb q.ticket.owner_sequence r.ticket.owner_sequence then q else r

-- `localQueueHead`: the least sequence number, and the first of those that have it.
unfoldable pub local_queue_head : List LocalRun → Option LocalRun
unfolding earlier
local_queue_head [] = none
local_queue_head (r ∷ rs) = some (earlier r (local_queue_head rs))

abbrev pub owns : Owner → LocalRun → Option Ticket → Bool
owns o r none = false
owns o r (some t) = t.owner_id == o.owner_id && t.run_id == r.ticket.run_id

-- The promotion where there is a limit: a lease is written before the ticket is removed.
unfoldable pub promote_limited : Owner → String → LocalRun → M State Bool
unfolding write_active_lease
promote_limited o id r s =
    let pruned = record s { leases = prune_stale_leases o s.leases } in
    if ltb (length pruned.leases) o.max_active
    then (
      ok true,
      record (write_active_lease o id r.ticket.run_id pruned) {
        tickets = remove_ticket r.ticket.run_id s.tickets;
      },
    )
    else (ok false, pruned)

-- What `promoteLocalQueueHead` does under the lock; `true` is a lease. No cancellation comes in
-- between its steps here: one that does is met by the next round of the pump.
unfoldable pub promote_locked : Owner → String → LocalRun → M State Bool
unfolding promote_limited
promote_locked o id r s =
    if not (owns o r (read_queue_ticket r.ticket.run_id s.tickets))
    then (err thrown, s)
    else if r.cancelled
    then (ok false, s)
    else if nat_eq o.max_active 0
    then (ok true, record s { tickets = remove_ticket r.ticket.run_id s.tickets })
    else promote_limited o id r s

unfoldable pub promote_local_queue_head : Owner → String → LocalRun → M State Bool
unfolding promote_locked
promote_local_queue_head o id r = with_capacity_lock lock_attempts (promote_locked o id r)

-- What became of the head of the queue in one round of the pump.
pub data Round : Type 0 where
  promoted rejected released : String → Round
  stopped waits release_failed : Round

abbrev pub is_capacity : Failure → Bool
is_capacity (validation FailureReasonCode.local_capacity_exhausted) = true
is_capacity _ = false

unfoldable pub after_promotion : LocalRun → Result Bool × State → Round × State
after_promotion r (ok true, s) =
    (promoted r.ticket.run_id, record s { local_runs = remove_local r.ticket.run_id s.local_runs })
after_promotion r (ok false, s) = (waits, s)
after_promotion r (err e, s) = if is_capacity e then (waits, s) else (
  rejected r.ticket.run_id,
  record s { local_runs = remove_local r.ticket.run_id s.local_runs },
)

unfoldable pub after_release : LocalRun → Result (Unit {0}) × State → Round × State
after_release r (ok u, s) = (released r.ticket.run_id, s)
after_release r (err e, s) = (release_failed, s)

unfoldable pub round_on : Owner → String → Option LocalRun → State → Round × State
unfolding after_promotion after_release
round_on o id none s = (stopped, s)
round_on o id (some r) s =
    if not r.ready
    then (stopped, s)
    else if r.cancelled
    then after_release r (release_owned_queue_ticket o r.ticket.run_id s)
    else after_promotion r (promote_local_queue_head o id r s)

-- One round of the loop of `pumpOwnerQueue`, with `id` for the random name of a new lease.
unfoldable pub pump_round : Owner → String → State → Round × State
unfolding round_on local_queue_head
pump_round o id s = round_on o id (local_queue_head s.local_runs) s

abbrev pub goes_on : Round → Bool
goes_on stopped = false
goes_on waits = false
goes_on release_failed = false
goes_on _ = true

-- The loop on fuel, with a random name for each round; each round that goes on forgets a run, so
-- fuel above the number of waiting runs is enough.
unfoldable pub pump_owner_queue : ℕ → Owner → (ℕ → String) → State → List Round × State
pump_owner_queue zero o ids s = ([], s)
pump_owner_queue (suc fuel) o ids s =
    let one = pump_round o (ids fuel) s in
    let rest = pump_owner_queue fuel o ids one.1 in
    if goes_on one.0 then (one.0 ∷ rest.0, rest.1) else (one.0 ∷ [], one.1)

-- The release of a lease whose file is readable or gone: its file is removed.
unfoldable pub release_active_lease : String → State → State
release_active_lease id s = record s {
  leases =
      filter (λ file. elim file [ lease l ↦ not (l.owner_id == id) | unreadable name ↦ true ])
        s.leases;
}
