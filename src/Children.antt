-- ===== src/Children.antt =====
-- src/activeChildLease.ts: the leases of running children and the queue of runs that wait for one.
mod Queue
mod Capacity
mod Order
mod Liveness
mod Pump
mod Tests
use subagent.Common.{
  ℕ, zero, suc, ◌+◌, String, ◌==◌, Bool, true, false, not, ◌&&◌, ◌||◌, Option, none, some, List, [],
  ◌∷◌, ltb, leb, nat_eq, length, filter, find, if◌then◌else◌, Result, ok, err, Failure, validation,
  eexist, thrown, FailureReasonCode,
}
use subagent.Common.State.{M, ◌>>=◌, ◌>>◌, return, fail, bind}

pub record Lease : Type 0 where
  pub owner_id : String
  pub pid : ℕ
  pub run_id : Option String

-- A lease file; one that is not readable is attributed to a run by its name, or to none.
pub data LeaseFile : Type 0 where
  lease : Lease → LeaseFile
  unreadable : Option String → LeaseFile

pub record Ticket : Type 0 where
  pub owner_id : String
  pub pid : ℕ
  pub run_id : String
  pub owner_sequence : ℕ

-- A ticket file: the run that names it, and its record where that is readable.
pub record TicketFile : Type 0 where
  pub run_id : String
  pub record_of : Option Ticket

-- `LocalQueuedRun`; `cancelled` says that it was cancelled or that its signal was aborted.
pub record LocalRun : Type 0 where
  pub ticket : Ticket
  pub ready : Bool
  pub cancelled : Bool

-- The two directories and the owner's own memory, in the order of insertion.
pub record State : Type 0 where
  pub leases : List LeaseFile
  pub tickets : List TicketFile
  pub local_runs : List LocalRun
  pub next_owner_sequence : ℕ

-- The owner process, its limits, and what the platform says of a process.
pub record Owner : Type 0 where
  pub owner_id : String
  pub pid : ℕ
  pub max_active : ℕ
  pub max_queued : ℕ
  pub is_gone : ℕ → Bool

pub data Admission : Type 0 where
  active queued : Admission

abbrev lease_stays : Owner → LeaseFile → Bool
lease_stays o (lease l) = not (o.is_gone l.pid)
lease_stays o (unreadable name) = true

-- `pruneStaleLeases`: what it returns is what it leaves.
unfoldable pub prune_stale_leases : Owner → List LeaseFile → List LeaseFile
prune_stale_leases o files = filter (lease_stays o) files

abbrev ticket_stays : Owner → TicketFile → Bool
ticket_stays o file = elim file.record_of [ none ↦ true | some t ↦ not (o.is_gone t.pid) ]

-- `queueTicketRecords`: what it returns is what it leaves.
unfoldable pub queue_ticket_records : Owner → List TicketFile → List TicketFile
queue_ticket_records o files = filter (ticket_stays o) files

unfoldable pub write_active_lease : Owner → String → String → State → State
write_active_lease o id run_id s = record s {
  leases = lease record { owner_id = id; pid = o.pid; run_id = some run_id } ∷ s.leases;
}

has_ticket_file : String → List TicketFile → Bool
has_ticket_file run_id [] = false
has_ticket_file run_id (file ∷ files) = file.run_id == run_id || has_ticket_file run_id files

-- A map keeps the place of a key that it has.
set_local : LocalRun → List LocalRun → List LocalRun
set_local run [] = run ∷ []
set_local run (r ∷ rs) =
    let later = r ∷ set_local run rs in
    if r.ticket.run_id == run.ticket.run_id then run ∷ rs else later

-- The ticket is published and the run remembered; the sequence number is used up either way.
enqueue : Owner → String → M State Admission
unfolding has_ticket_file set_local
enqueue o run_id s =
    let t : Ticket = record {
      owner_id = o.owner_id;
      pid = o.pid;
      run_id = run_id;
      owner_sequence = s.next_owner_sequence;
    } in
    if has_ticket_file run_id s.tickets
    then (err eexist, record s { next_owner_sequence = suc s.next_owner_sequence })
    else (
      ok queued,
      record s {
        tickets = record { run_id = run_id; record_of = some t } ∷ s.tickets;
        local_runs =
            set_local (record { ticket = t; ready = false; cancelled = false }) s.local_runs;
        next_owner_sequence = suc s.next_owner_sequence;
      },
    )

-- What `admitActiveChild` does under the lock, with `id` for the new lease's random name.
admit_locked : Owner → String → String → Bool → M State Admission
unfolding enqueue
admit_locked o id run_id allow_queue s =
    let pruned = record s { leases = prune_stale_leases o s.leases } in
    let swept = record pruned { tickets = queue_ticket_records o s.tickets } in
    if ltb (length pruned.leases) o.max_active
    then (ok active, write_active_lease o id run_id pruned)
    else if not allow_queue || leb o.max_queued 0
    then (err (validation FailureReasonCode.local_capacity_exhausted), pruned)
    else if leb o.max_queued (length swept.tickets)
    then (err (validation FailureReasonCode.local_queue_exhausted), swept)
    else enqueue o run_id swept

-- The attempts of `withCapacityLock` where no other process holds the lock: an `EEXIST` of the
-- operation itself is taken for a held lock, and tried again.
retry : {A : Type 0} → M State A → Result A × State → Result A × State
retry again (err eexist, s) = again s
retry again (r, s) = (r, s)

unfoldable pub with_capacity_lock : {A : Type 0} → ℕ → M State A → M State A
unfolding retry
with_capacity_lock zero op s = (err (validation FailureReasonCode.local_capacity_exhausted), s)
with_capacity_lock (suc attempts) op s = retry (with_capacity_lock attempts op) (op s)

-- `LOCK_ATTEMPTS`.
abbrev pub lock_attempts : ℕ
lock_attempts = 100

unfoldable pub admit_active_child : Owner → String → String → Bool → M State Admission
unfolding admit_locked with_capacity_lock
admit_active_child o id run_id allow_queue s =
    if nat_eq o.max_active 0
    then (ok active, s)
    else with_capacity_lock lock_attempts (admit_locked o id run_id allow_queue) s
