-- ===== src/Session/Lock/Tests.antt =====
-- Schedules of two runs of one session.
use subagent.Common.{ℕ, nat_eq, true, false, some, [], ◌∷◌, ◌≡◌, refl}
use subagent.Session.Lock.{
  Locking, trying, holds, lock_steps, lock_step, lock_step_at, unlocked, is_stale_local_lock,
}
use subagent.Session.Lock.Exclusion.{one_runner}

abbrev runner : ℕ
runner = 2

one_runner_example : runner ≡ runner
unfolding lock_steps lock_step lock_step_at unlocked is_stale_local_lock
one_runner_example = one_runner (λ p. p) (2 ∷ 1 ∷ 1 ∷ []) runner runner refl refl

-- A lock that a process left behind when it died.
abbrev left_behind : Locking
left_behind = record {
  lock = some (some (record { pid = 3; is_local = true; owner_id = 9 }));
  gone = λ p. nat_eq p 3;
  owner_ids = λ p. p;
  place = λ p. trying false;
}

-- Two processes that both read it remove one lock each, the second one that of the first.
left_behind-both :
    ((lock_steps (1 ∷ 1 ∷ 2 ∷ 2 ∷ 1 ∷ 1 ∷ 2 ∷ 2 ∷ []) left_behind).place 1 ≡ holds)
    × ((lock_steps (1 ∷ 1 ∷ 2 ∷ 2 ∷ 1 ∷ 1 ∷ 2 ∷ 2 ∷ []) left_behind).place 2 ≡ holds)
unfolding lock_steps lock_step lock_step_at is_stale_local_lock
left_behind-both = (refl, refl)
