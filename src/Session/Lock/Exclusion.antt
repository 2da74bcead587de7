-- ===== src/Session/Lock/Exclusion.antt =====
-- src/session.ts: who holds the lock of a session while no process dies.
use subagent.Common.{
  ℕ, ◌≡◌, Bool, true, false, not, ◌&&◌, Option, none, some, List, [], ◌∷◌, nat_eq, if-satisfies,
  arith, refl, ap, Bool-cases, inl, inr,
}
use subagent.Session.Lock.{
  LockOwner, Place, trying, found, suspects, holds, releasing, done, failed, Locking, own,
  is_stale_local_lock, move, create, owner_in, read_at_release, lock_step_at, lock_step, lock_steps,
  unlocked,
}

-- A place at which a process has the lock.
abbrev pub is_holding : Place → Bool
is_holding holds = true
is_holding releasing = true
is_holding _ = false

abbrev is_suspecting : Place → Bool
is_suspecting suspects = true
is_suspecting _ = false

-- Every process that has the lock finds its own owner in it, and none is about to remove another's.
record IsExclusive (s : Locking) : Type 0 where
  no_gone : (p : ℕ) → s.gone p ≡ false
  no_remover : (p : ℕ) → is_suspecting (s.place p) ≡ false
  has_lock : (p : ℕ) → is_holding (s.place p) ≡ true → s.lock ≡ some (some (own p s))

stay :
    (p : ℕ) (to : Place) (lock : Option (Option LockOwner)) (s : Locking)
    → s.lock ≡ lock
    → is_suspecting to ≡ false
    → (is_holding to ≡ true → lock ≡ some (some (own p s)))
    → IsExclusive s
    → IsExclusive (move p to lock s)
stay p to lock s e r k h = record {
  no_gone = h.no_gone;
  no_remover = λ q. ground (arith, r, h.no_remover q);
  has_lock = λ q g. ground (arith, e, k, g, h.has_lock q);
}

create-IsExclusive :
    (p : ℕ) (again : Bool) (lock : Option (Option LockOwner)) (s : Locking)
    → s.lock ≡ lock
    → IsExclusive s
    → IsExclusive (create p again lock s)
create-IsExclusive p again none s e h = record {
  no_gone = h.no_gone;
  no_remover = λ q. ground (arith, h.no_remover q);
  has_lock = λ q g. ground (arith, e, g, h.has_lock q);
}
create-IsExclusive p again (some o) s e h =
    stay p (found again) (some o) s e refl (λ k. ground (arith, k)) h

not_stale : (o : Option LockOwner) (s : Locking) → IsExclusive s → is_stale_local_lock o s ≡ false
unfolding is_stale_local_lock
not_stale none s h = refl
not_stale (some o) s h = ground (arith, h.no_gone o.pid)

holders-same :
    (s : Locking) (p q : ℕ)
    → IsExclusive s
    → is_holding (s.place p) ≡ true
    → is_holding (s.place q) ≡ true
    → p ≡ q
holders-same s p q h a b = ground (arith, h.has_lock p a, h.has_lock q b)

-- A process that has the lock gives it up.
leave-IsExclusive :
    (p : ℕ) (to : Place) (s : Locking)
    → is_holding to ≡ false
    → is_suspecting to ≡ false
    → is_holding (s.place p) ≡ true
    → IsExclusive s
    → IsExclusive (move p to none s)
leave-IsExclusive p to s n r k h = record {
  no_gone = h.no_gone;
  no_remover = λ q. ground (arith, r, h.no_remover q);
  has_lock = λ q g. elim (Bool-cases (nat_eq q p)) [
    | inl e ↦ ground (arith, e, g, n)
    | inr e ↦ ground (arith, e, holders-same s p q h k (ground (arith, e, g)))
  ];
}

read_at_release-IsExclusive :
    (p : ℕ) (s : Locking)
    → is_holding (s.place p) ≡ true
    → IsExclusive s
    → IsExclusive (read_at_release p s.lock s)
unfolding read_at_release
read_at_release-IsExclusive p s k h = rw (h.has_lock p k) (
    if-satisfies IsExclusive (nat_eq (s.owner_ids p) (s.owner_ids p)) _ _
      (λ g. stay p releasing (some (some (own p s))) s (h.has_lock p k) refl (λ _. refl) h)
      (λ g.
        stay p failed (some (some (own p s))) s (h.has_lock p k) refl (λ c. ground (arith, c)) h))

lock_step_at-IsExclusive :
    (p : ℕ) (here : Place) (s : Locking)
    → s.place p ≡ here
    → IsExclusive s
    → IsExclusive (lock_step_at p here s)
unfolding lock_step_at
lock_step_at-IsExclusive p (trying again) s e h = create-IsExclusive p again s.lock s refl h
lock_step_at-IsExclusive p (found again) s e h =
    if-satisfies IsExclusive (not again && is_stale_local_lock (owner_in s.lock) s) _ _
      (λ g. ground (arith, g, not_stale (owner_in s.lock) s h))
      (λ g. stay p failed s.lock s refl refl (λ k. ground (arith, k)) h)
lock_step_at-IsExclusive p suspects s e h = ground (arith, e, h.no_remover p)
lock_step_at-IsExclusive p holds s e h = read_at_release-IsExclusive p s (ap is_holding e) h
lock_step_at-IsExclusive p releasing s e h =
    leave-IsExclusive p done s refl refl (ap is_holding e) h
lock_step_at-IsExclusive p done s e h = h
lock_step_at-IsExclusive p failed s e h = h

lock_steps-IsExclusive : (ps : List ℕ) (s : Locking) → IsExclusive s → IsExclusive (lock_steps ps s)
unfolding lock_steps lock_step
lock_steps-IsExclusive [] s h = h
lock_steps-IsExclusive (p ∷ ps) s h = lock_steps-IsExclusive ps (lock_step p s) (
    if-satisfies IsExclusive (s.gone p) s _ (λ _. h)
      (λ _. lock_step_at-IsExclusive p (s.place p) s refl h))

unlocked-IsExclusive : (ids : ℕ → ℕ) → IsExclusive (unlocked ids)
unfolding unlocked
unlocked-IsExclusive ids = record {
  no_gone = λ p. refl;
  no_remover = λ p. refl;
  has_lock = λ p g. ground (arith, g);
}

-- While no process dies, two processes never run in one session at once: in every order of their
-- steps from the first on, two that are in their operation or at the end of their release are one.
pub one_runner :
    (ids : ℕ → ℕ) (schedule : List ℕ) (p q : ℕ)
    → is_holding ((lock_steps schedule (unlocked ids)).place p) ≡ true
    → is_holding ((lock_steps schedule (unlocked ids)).place q) ≡ true
    → p ≡ q
one_runner ids schedule p q a b =
    holders-same (lock_steps schedule (unlocked ids)) p q
      (lock_steps-IsExclusive schedule (unlocked ids) (unlocked-IsExclusive ids)) a b
