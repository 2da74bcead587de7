-- ===== src/Session/Lock.antt =====
-- src/session.ts: the lock file of a session, step by step for any number of processes.
mod Exclusion
mod Tests
use subagent.Common.{
  ℕ, Bool, true, false, not, ◌&&◌, Option, none, some, List, [], ◌∷◌, nat_eq, leb, if◌then◌else◌,
}

-- The fields of an owner that are read; a host is this one or another.
pub record LockOwner : Type 0 where
  pub pid : ℕ
  pub is_local : Bool
  pub owner_id : ℕ

-- Where a process is in `acquireLock` and the release: before a write, in its first or its second
-- attempt, before the read of a lock that exists, before the removal of a stale lock, in its
-- operation, and before the removal of its own lock.
pub data Place : Type 0 where
  trying found : Bool → Place
  suspects holds releasing done failed : Place

-- The lock file, whose content may be unreadable, what is known of the processes, and their ids.
pub record Locking : Type 0 where
  pub lock : Option (Option LockOwner)
  pub gone : ℕ → Bool
  pub owner_ids : ℕ → ℕ
  pub place : ℕ → Place

abbrev pub own : ℕ → Locking → LockOwner
own p s = record { pid = p; is_local = true; owner_id = s.owner_ids p }

unfoldable pub is_stale_local_lock : Option LockOwner → Locking → Bool
is_stale_local_lock none s = false
is_stale_local_lock (some o) s = o.is_local && leb 1 o.pid && s.gone o.pid

abbrev pub move : ℕ → Place → Option (Option LockOwner) → Locking → Locking
move p to lock s = record s { lock = lock; place = λ q. if nat_eq q p then to else s.place q }

-- The exclusive write.
abbrev pub create : ℕ → Bool → Option (Option LockOwner) → Locking → Locking
create p again none s = move p holds (some (some (own p s))) s
create p again (some o) s = move p (found again) (some o) s

-- `readLockOwner`: no owner where the file is gone or cannot be read.
abbrev pub owner_in : Option (Option LockOwner) → Option LockOwner
owner_in none = none
owner_in (some o) = o

abbrev pub is_own : ℕ → Option LockOwner → Locking → Bool
is_own p none s = false
is_own p (some o) s = nat_eq o.owner_id (s.owner_ids p)

-- The read of the release: nothing is left to do where the file is gone.
unfoldable pub read_at_release : ℕ → Option (Option LockOwner) → Locking → Locking
read_at_release p none s = move p done none s
read_at_release p (some o) s =
    if is_own p o s then move p releasing (some o) s else move p failed (some o) s

unfoldable pub lock_step_at : ℕ → Place → Locking → Locking
lock_step_at p (trying again) s = create p again s.lock s
lock_step_at p (found again) s =
    if not again && is_stale_local_lock (owner_in s.lock) s
    then move p suspects s.lock s
    else move p failed s.lock s
lock_step_at p suspects s = move p (trying true) none s
lock_step_at p holds s = read_at_release p s.lock s
lock_step_at p releasing s = move p done none s
lock_step_at p done s = s
lock_step_at p failed s = s

-- The next step of a process that is not gone.
unfoldable pub lock_step : ℕ → Locking → Locking
lock_step p s = if s.gone p then s else lock_step_at p (s.place p) s

unfoldable pub lock_steps : List ℕ → Locking → Locking
lock_steps [] s = s
lock_steps (p ∷ ps) s = lock_steps ps (lock_step p s)

unfoldable pub unlocked : (ℕ → ℕ) → Locking
unlocked ids = record { lock = none; gone = λ p. false; owner_ids = ids; place = λ p. trying false }
