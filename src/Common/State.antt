-- ===== src/Common/State.antt =====
-- Calls that change a state and can throw: the state is kept when a call throws.
use mathlib.Core.Bool.{Bool, true, false}
use subagent.Common.Outcome.{Result, ok, err, Failure}

abbrev pub M {ℓ} : Type 0 → Type ℓ → Type ℓ
M S A = S → Result A × S

infixl 5 ◌>>=◌ ◌>>◌
abbrev pub bind {ℓ κ} :
    {S : Type 0} {A : Type ℓ} {B : Type κ} → Result A × S → (A → M S B) → Result B × S
bind (ok a, s) f = f a s
bind (err e, s) f = (err e, s)

abbrev pub ◌>>=◌ {ℓ κ} : {S : Type 0} {A : Type ℓ} {B : Type κ} → M S A → (A → M S B) → M S B
◌>>=◌ m f s = bind (m s) f

abbrev pub ◌>>◌ {ℓ} : {S : Type 0} {B : Type ℓ} → M S (Unit {0}) → M S B → M S B
◌>>◌ m k s = bind (m s) (λ _. k)

abbrev pub return {ℓ} : {S : Type 0} {A : Type ℓ} → A → M S A
return a s = (ok a, s)

abbrev pub fail {ℓ} : {S : Type 0} {A : Type ℓ} → Failure → M S A
fail e s = (err e, s)

-- A result that was computed without changing the state.
abbrev pub lift {ℓ} : {S : Type 0} {A : Type ℓ} → Result A → M S A
lift r s = (r, s)

abbrev pub guard : {S : Type 0} → Bool → Failure → M S (Unit {0})
guard true e s = (ok tt, s)
guard false e s = (err e, s)
