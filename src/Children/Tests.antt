-- ===== src/Children/Tests.antt =====
-- A full owner with two waiting runs.
use subagent.Common.{
  All, false, some, none, List, ◌∷◌, String, ◌≡◌, refl, true, [], arith, err, validation,
  FailureReasonCode, nat_eq,
}
use subagent.Children.{
  LeaseFile, lease, unreadable, Owner, State, LocalRun, admit_active_child, with_capacity_lock,
  prune_stale_leases, queue_ticket_records, write_active_lease,
}
use subagent.Children.Capacity.{IsWithin, admit-IsWithin, pump-IsWithin}
use subagent.Children.Order.{IsServed, round-serves_first}
use subagent.Children.Liveness.{active_child_lease_liveness, may_be_live, absent_sound}
use subagent.Children.Pump.{has_stopped, pump-stops}
use subagent.Children.Queue.{
  pump_round, pump_owner_queue, wait_for_lease, release_active_lease, promote_local_queue_head,
  read_queue_ticket,
}

abbrev owner : Owner
owner = record {
  owner_id = "owner";
  pid = 7;
  max_active = 1;
  max_queued = 2;
  is_gone = λ pid. nat_eq pid 9;
}

abbrev empty : State
empty = record { leases = []; tickets = []; local_runs = []; next_owner_sequence = 0 }

admit : String → State → State
admit run_id s = (admit_active_child owner run_id run_id true s).1

wait : String → State → State
wait run_id s = (wait_for_lease run_id s).1

-- One run holds the lease, and `b` and `c` wait.
full : State
unfolding admit wait
full = wait "c" (wait "b" (admit "c" (admit "b" (admit "a" empty))))

refused :
    (admit_active_child owner "d" "d" true full).0
    ≡ err (validation FailureReasonCode.local_queue_exhausted)
unfolding full admit_active_child with_capacity_lock wait_for_lease prune_stale_leases
    queue_ticket_records write_active_lease
refused = refl

full-IsWithin : IsWithin owner full
unfolding full admit_active_child with_capacity_lock wait_for_lease prune_stale_leases
    queue_ticket_records write_active_lease
full-IsWithin = record { leases_within = omega arith; tickets_within = omega arith }

admit-IsWithin_example : IsWithin owner (admit_active_child owner "d" "d" true full).1
admit-IsWithin_example = admit-IsWithin owner "d" "d" true full full-IsWithin

pump-IsWithin_example : IsWithin owner (pump_owner_queue 3 owner (λ n. "lease") full).1
pump-IsWithin_example = pump-IsWithin 3 owner (λ n. "lease") full full-IsWithin

freed : State
unfolding full
freed = release_active_lease "a" full

round-serves_first_example : (r : LocalRun) × IsServed freed r "b"
unfolding freed full admit_active_child with_capacity_lock wait_for_lease prune_stale_leases
    queue_ticket_records write_active_lease pump_round promote_local_queue_head read_queue_ticket
    release_active_lease
round-serves_first_example = round-serves_first owner "lease" freed "b" refl

pump-stops_example : has_stopped (pump_owner_queue 3 owner (λ n. "lease") freed).0 ≡ true
unfolding freed full admit_active_child with_capacity_lock wait_for_lease prune_stale_leases
    queue_ticket_records write_active_lease release_active_lease
pump-stops_example = pump-stops 3 owner (λ n. "lease") freed (omega arith)

abbrev foreign : List LeaseFile
foreign =
    lease record { owner_id = "x"; pid = 9; run_id = some "a" }
    ∷ unreadable (some "b")
    ∷ lease record { owner_id = "y"; pid = 7; run_id = none }
    ∷ []

absent_sound_example : All (λ f. may_be_live owner "a" f ≡ false) foreign
unfolding active_child_lease_liveness
absent_sound_example = absent_sound owner "a" foreign refl
