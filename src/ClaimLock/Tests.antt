-- ===== src/ClaimLock/Tests.antt =====
-- Schedules of two processes.
use subagent.Common.{ℕ, ◌≡◌, refl, [], ◌∷◌}
use subagent.ClaimLock.{holds, run, fresh}
use subagent.ClaimLock.Exclusion.{one_holder, abandoned, both_remove, abandoned-two_hold}

abbrev nonces : ℕ → ℕ
nonces p = p

abbrev holder : ℕ
holder = 2

one_holder_example : holder ≡ holder
unfolding run fresh
one_holder_example = one_holder nonces (2 ∷ 1 ∷ 1 ∷ []) holder holder refl refl

abandoned-two_hold_example :
    ((run (both_remove 1 2) (abandoned nonces nonces 3)).place 1 ≡ holds)
    × ((run (both_remove 1 2) (abandoned nonces nonces 3)).place 2 ≡ holds)
abandoned-two_hold_example = abandoned-two_hold nonces nonces 3 1 2 refl refl refl refl refl refl
