-- ===== src/ClaimLock.antt =====
-- src/runClaimLock.ts: the lock of a run's claim, as the steps of the processes that want it.
mod Exclusion
mod Tests
use subagent.Common.{
  ℕ, zero, suc, Bool, true, false, ◌&&◌, Option, none, some, List, [], ◌∷◌, nat_eq, leb,
  if◌then◌else◌,
}

-- What a lock file holds: the process that wrote it, and its nonce, as the number that its 24
-- hexadecimal digits write. Only these processes write the file, so it parses.
pub record RunClaimLockOwner : Type 0 where
  pub pid : ℕ
  pub nonce : ℕ

-- Where a process is: about to link its lock, to read the one that it met, to read it again, to
-- unlink it, in its operation, or about to unlink its own. A number is how many attempts are left.
pub data Place : Type 0 where
  waiting checking : ℕ → Place
  suspects removing : ℕ → RunClaimLockOwner → Place
  holds releasing done failed : Place

-- The lock file of one run, the place of each process, and which processes are gone.
pub record World : Type 0 where
  pub lock : Option RunClaimLockOwner
  pub place : ℕ → Place
  pub gone : ℕ → Bool
  pub nonces : ℕ → ℕ

unfoldable pub mine : ℕ → World → RunClaimLockOwner
mine p s = record { pid = p; nonce = s.nonces p }

unfoldable pub owner_eq : RunClaimLockOwner → RunClaimLockOwner → Bool
owner_eq a b = nat_eq a.pid b.pid && nat_eq a.nonce b.nonce

-- The place of one process is set, and the lock is what it then is.
unfoldable pub move : ℕ → Place → Option RunClaimLockOwner → World → World
move p to lock s = record s { lock = lock; place = λ q. if nat_eq q p then to else s.place q }

-- `fs.link` of the process's own lock file.
unfoldable pub link : ℕ → ℕ → Option RunClaimLockOwner → World → World
unfolding move mine
link p n none s = move p holds (some (mine p s)) s
link p n (some b) s = move p (checking n) (some b) s

-- `decodeOwner` refuses a process id that is not a safe integer from 1.
unfoldable pub is_decoded : RunClaimLockOwner → Bool
is_decoded b = leb 1 b.pid && leb b.pid 9007199254740991

-- The first read of `tryRemoveDefinitelyAbandonedLock`.
unfoldable pub inspect : ℕ → ℕ → Option RunClaimLockOwner → World → World
unfolding move is_decoded
inspect p n none s = move p (waiting n) none s
inspect p n (some b) s =
    if is_decoded b && s.gone b.pid
    then move p (suspects n b) (some b) s
    else move p (waiting n) (some b) s

-- Its second read, which must find the same bytes.
unfoldable pub reread : ℕ → ℕ → RunClaimLockOwner → Option RunClaimLockOwner → World → World
unfolding move owner_eq
reread p n b none s = move p (waiting n) none s
reread p n b (some c) s =
    if owner_eq c b then move p (removing n b) (some c) s else move p (waiting n) (some c) s

-- The read of `releaseRunClaimLock`.
unfoldable pub release_read : ℕ → Option RunClaimLockOwner → World → World
unfolding move mine owner_eq
release_read p none s = move p failed none s
release_read p (some c) s =
    if owner_eq c (mine p s) then move p releasing (some c) s else move p failed (some c) s

unfoldable pub act_at : ℕ → Place → World → World
unfolding link inspect reread release_read
act_at p (waiting zero) s = move p failed s.lock s
act_at p (waiting (suc n)) s = link p n s.lock s
act_at p (checking n) s = inspect p n s.lock s
act_at p (suspects n b) s = reread p n b s.lock s
act_at p (removing n b) s = move p (waiting n) none s
act_at p holds s = release_read p s.lock s
act_at p releasing s = move p done none s
act_at p done s = s
act_at p failed s = s

-- The next step of a process; one that is gone takes none.
unfoldable pub act : ℕ → World → World
unfolding act_at
act p s = if s.gone p then s else act_at p (s.place p) s

-- The steps of the processes in the order of a schedule.
unfoldable pub run : List ℕ → World → World
unfolding act
run [] s = s
run (p ∷ ps) s = run ps (act p s)

-- `LOCK_WAIT_ATTEMPTS`.
abbrev pub lock_wait_attempts : ℕ
lock_wait_attempts = 400

-- No process has begun.
unfoldable pub fresh : (ℕ → ℕ) → World
fresh nonces = record {
  lock = none;
  place = λ p. waiting lock_wait_attempts;
  gone = λ p. false;
  nonces = nonces;
}
