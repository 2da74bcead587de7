-- ===== src/ClaimLock/Exclusion.antt =====
-- src/runClaimLock.ts: who holds the lock while no process dies, and what happens when one does.
use subagent.Common.{
  ℕ, zero, suc, ◌≡◌, Bool, leb, ◌&&◌, true, false, Option, none, some, List, [], ◌∷◌, nat_eq,
  if-satisfies, arith, refl, ap, Bool-cases, inl, inr,
}
use subagent.ClaimLock.{
  RunClaimLockOwner, Place, waiting, checking, suspects, removing, holds, releasing, done, failed,
  World, mine, owner_eq, is_decoded, move, link, inspect, release_read, act_at, act, run, fresh,
}

-- A place at which a process has the lock.
abbrev pub is_holding : Place → Bool
is_holding holds = true
is_holding releasing = true
is_holding _ = false

abbrev is_removing : Place → Bool
is_removing (suspects n b) = true
is_removing (removing n b) = true
is_removing _ = false

-- Every process that has the lock finds its own bytes in it, and none removes another's.
record IsExclusive (s : World) : Type 0 where
  no_gone : (p : ℕ) → s.gone p ≡ false
  no_remover : (p : ℕ) → is_removing (s.place p) ≡ false
  has_lock : (p : ℕ) → is_holding (s.place p) ≡ true → s.lock ≡ some (mine p s)

-- A move that leaves the lock, to a place that has it only where the process has it.
stay :
    (p : ℕ) (to : Place) (lock : Option RunClaimLockOwner) (s : World)
    → s.lock ≡ lock
    → is_removing to ≡ false
    → (is_holding to ≡ true → lock ≡ some (mine p s))
    → IsExclusive s
    → IsExclusive (move p to lock s)
unfolding move mine
stay p to lock s e r k h = record {
  no_gone = h.no_gone;
  no_remover = λ q. ground (arith, r, h.no_remover q);
  has_lock = λ q g. ground (arith, e, k, g, h.has_lock q);
}

link-IsExclusive :
    (p n : ℕ) (lock : Option RunClaimLockOwner) (s : World)
    → s.lock ≡ lock
    → IsExclusive s
    → IsExclusive (link p n lock s)
unfolding link move mine
link-IsExclusive p n none s e h = record {
  no_gone = h.no_gone;
  no_remover = λ q. ground (arith, h.no_remover q);
  has_lock = λ q g. ground (arith, e, g, h.has_lock q);
}
link-IsExclusive p n (some b) s e h =
    stay p (checking n) (some b) s e refl (λ k. ground (arith, k)) h

inspect-IsExclusive :
    (p n : ℕ) (lock : Option RunClaimLockOwner) (s : World)
    → s.lock ≡ lock
    → IsExclusive s
    → IsExclusive (inspect p n lock s)
unfolding inspect
inspect-IsExclusive p n none s e h = stay p (waiting n) none s e refl (λ k. ground (arith, k)) h
inspect-IsExclusive p n (some b) s e h =
    if-satisfies IsExclusive (is_decoded b && s.gone b.pid) _ _
      (λ g. ground (arith, g, h.no_gone b.pid))
      (λ _. stay p (waiting n) (some b) s e refl (λ k. ground (arith, k)) h)

owner_eq-eq : (a b : RunClaimLockOwner) → owner_eq a b ≡ true → a ≡ b
unfolding owner_eq
owner_eq-eq a b h = ground (arith, h)

release_read-IsExclusive :
    (p : ℕ) (lock : Option RunClaimLockOwner) (s : World)
    → s.lock ≡ lock
    → IsExclusive s
    → IsExclusive (release_read p lock s)
unfolding release_read
release_read-IsExclusive p none s e h = stay p failed none s e refl (λ k. ground (arith, k)) h
release_read-IsExclusive p (some c) s e h =
    if-satisfies IsExclusive (owner_eq c (mine p s)) _ _
      (λ g. stay p releasing (some c) s e refl (λ _. ap some (owner_eq-eq c (mine p s) g)) h)
      (λ _. stay p failed (some c) s e refl (λ k. ground (arith, k)) h)

holders-same :
    (s : World) (p q : ℕ)
    → IsExclusive s
    → is_holding (s.place p) ≡ true
    → is_holding (s.place q) ≡ true
    → p ≡ q
unfolding mine
holders-same s p q h a b = ground (arith, h.has_lock p a, h.has_lock q b)

release-IsExclusive :
    (p : ℕ) (s : World)
    → is_holding (s.place p) ≡ true
    → IsExclusive s
    → IsExclusive (move p done none s)
unfolding move mine
release-IsExclusive p s k h = record {
  no_gone = h.no_gone;
  no_remover = λ q. ground (arith, h.no_remover q);
  has_lock = λ q g. elim (Bool-cases (nat_eq q p)) [
    | inl e ↦ ground (arith, e, g)
    | inr e ↦ ground (arith, e, holders-same s p q h k (ground (arith, e, g)))
  ];
}

act_at-IsExclusive :
    (p : ℕ) (here : Place) (s : World)
    → s.place p ≡ here
    → IsExclusive s
    → IsExclusive (act_at p here s)
unfolding act_at
act_at-IsExclusive p (waiting zero) s e h =
    stay p failed s.lock s refl refl (λ k. ground (arith, k)) h
act_at-IsExclusive p (waiting (suc n)) s e h = link-IsExclusive p n s.lock s refl h
act_at-IsExclusive p (checking n) s e h = inspect-IsExclusive p n s.lock s refl h
act_at-IsExclusive p (suspects n b) s e h = ground (arith, e, h.no_remover p)
act_at-IsExclusive p (removing n b) s e h = ground (arith, e, h.no_remover p)
act_at-IsExclusive p holds s e h = release_read-IsExclusive p s.lock s refl h
act_at-IsExclusive p releasing s e h = release-IsExclusive p s (ground (arith, e)) h
act_at-IsExclusive p done s e h = h
act_at-IsExclusive p failed s e h = h

run-IsExclusive : (ps : List ℕ) (s : World) → IsExclusive s → IsExclusive (run ps s)
unfolding run act
run-IsExclusive [] s h = h
run-IsExclusive (p ∷ ps) s h = run-IsExclusive ps (act p s) (
    if-satisfies IsExclusive (s.gone p) s _ (λ _. h)
      (λ _. act_at-IsExclusive p (s.place p) s refl h))

fresh-IsExclusive : (nonces : ℕ → ℕ) → IsExclusive (fresh nonces)
unfolding fresh
fresh-IsExclusive nonces = record {
  no_gone = λ p. refl;
  no_remover = λ p. refl;
  has_lock = λ p g. ground (arith, g);
}

-- While no process dies, two processes never hold the lock of a claim at once: in every order of
-- their steps, from the first on, processes that are at their operation or at the end of their
-- release are one process.
pub one_holder :
    (nonces : ℕ → ℕ) (schedule : List ℕ) (p q : ℕ)
    → is_holding ((run schedule (fresh nonces)).place p) ≡ true
    → is_holding ((run schedule (fresh nonces)).place q) ≡ true
    → p ≡ q
one_holder nonces schedule p q a b =
    holders-same (run schedule (fresh nonces)) p q
      (run-IsExclusive schedule (fresh nonces) (fresh-IsExclusive nonces)) a b

-- Process w, which is gone, has left its lock; each process waits for it with two attempts or more.
unfoldable pub abandoned : (ℕ → ℕ) → (ℕ → ℕ) → ℕ → World
abandoned nonces attempts w = record {
  lock = some record { pid = w; nonce = nonces w };
  place = λ p. waiting (suc (suc (attempts p)));
  gone = λ p. nat_eq p w;
  nonces = nonces;
}

-- Each meets the abandoned lock and reads it twice; p unlinks it and takes the lock; q unlinks
-- that one and takes the lock.
abbrev pub both_remove : ℕ → ℕ → List ℕ
both_remove p q = p ∷ q ∷ p ∷ q ∷ p ∷ q ∷ p ∷ p ∷ q ∷ q ∷ []

-- Where the writer of a lock is gone, and its process id is one that the program accepts, any two
-- other processes that wait for the lock with two attempts left or more can come to hold it at
-- once, whatever the nonces: each unlinks the path after its second read, and the second of them
-- unlinks the lock of the first.
pub abandoned-two_hold :
    (nonces attempts : ℕ → ℕ) (w p q : ℕ)
    → nat_eq p q ≡ false
    → nat_eq q p ≡ false
    → nat_eq p w ≡ false
    → nat_eq q w ≡ false
    → leb 1 w ≡ true
    → leb w 9007199254740991 ≡ true
    → ((run (both_remove p q) (abandoned nonces attempts w)).place p ≡ holds)
      × ((run (both_remove p q) (abandoned nonces attempts w)).place q ≡ holds)
unfolding run abandoned owner_eq
abandoned-two_hold nonces attempts w p q pq qp pw qw low high =
    ground (arith, pq, qp, pw, qw, low, high)
