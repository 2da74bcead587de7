-- ===== src/Children/Liveness.antt =====
-- src/activeChildLease.ts: what the scan of the lease files says of a run.
use subagent.Common.{
  Option, if◌then◌else◌, String, ◌==◌, ◌≡◌, Bool, true, false, not, ◌&&◌, none, some, List, [], ◌∷◌,
  All, arith,
}
use subagent.Children.{LeaseFile, lease, unreadable, Owner}

pub data Liveness : Type 0 where
  live absent unknown : Liveness

abbrev pub is_run : String → Option String → Bool
is_run run_id none = false
is_run run_id (some other) = other == run_id

abbrev pub or_unknown : Liveness → Liveness
or_unknown absent = unknown
or_unknown found = found

-- `activeChildLeaseLiveness`: what the scan of the lease files finds of a run.
unfoldable pub active_child_lease_liveness : Owner → String → List LeaseFile → Liveness
active_child_lease_liveness o run_id [] = absent
active_child_lease_liveness o run_id (unreadable none ∷ files) =
    or_unknown (active_child_lease_liveness o run_id files)
active_child_lease_liveness o run_id (unreadable (some name) ∷ files) =
    let rest = active_child_lease_liveness o run_id files in if name == run_id then live else rest
active_child_lease_liveness o run_id (lease l ∷ files) =
    let rest = active_child_lease_liveness o run_id files in
    if o.is_gone l.pid then rest else if is_run run_id l.run_id then live else rest

-- A file that may be the lease of a run's child: a lease of that run whose process may be alive, or
-- one that is not readable and is named for that run or for none.
abbrev pub may_be_live : Owner → String → LeaseFile → Bool
may_be_live o run_id (lease l) = not (o.is_gone l.pid) && is_run run_id l.run_id
may_be_live o run_id (unreadable none) = true
may_be_live o run_id (unreadable (some name)) = name == run_id

-- The scan finds a run absent only where no file may be the lease of its child.
pub absent_sound :
    (o : Owner) (run_id : String) (files : List LeaseFile)
    → active_child_lease_liveness o run_id files ≡ absent
    → All (λ f. may_be_live o run_id f ≡ false) files
unfolding active_child_lease_liveness
absent_sound o run_id [] h = tt
absent_sound o run_id (lease l ∷ files) h =
    (ground (arith, h), absent_sound o run_id files (ground (arith, h)))
absent_sound o run_id (unreadable none ∷ files) h = ground (arith, h)
absent_sound o run_id (unreadable (some name) ∷ files) h =
    (ground (arith, h), absent_sound o run_id files (ground (arith, h)))
