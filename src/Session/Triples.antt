-- ===== src/Session/Triples.antt =====
-- How a step leaves the directory, whether it ends or is cut off: the rules for each kind of step.
use subagent.Common.{ℕ, zero, suc, ◌+◌, ◌≤◌, Result, ok, err, arith}
use subagent.Common.State.{M, bind}
use subagent.Session.{SessionDir, World, write, write_with, finally_of}

-- A step that began with `start` writes left and makes `cost` at most: where it ends, `Q` holds of
-- the directory; where it fails, `I` holds and the writes had run out.
abbrev pub Runs {ℓ} :
    {A : Type ℓ} → (SessionDir → Type 0) → (SessionDir → Type 0) → ℕ → ℕ → Result A × World → Type 0
Runs I Q cost start (ok a, w) = Q w.dir × (start ≤ w.writes + cost)
Runs I Q cost start (err e, w) = I w.dir × (start ≤ cost)

module _ (I : SessionDir → Type 0) where
  pub bind-Runs :
      (Q R : SessionDir → Type 0) (m n start : ℕ) (x : Result (Unit {0}) × World)
      (f : Unit {0} → M World (Unit {0}))
      → Runs I Q m start x
      → ((w : World) → Q w.dir → Runs I R n w.writes (f tt w))
      → Runs I R (m + n) start (bind x f)
  bind-Runs Q R m n start (err e, w) f h k = (h.0, omega (arith, h.1))
  bind-Runs Q R m n start (ok u, w) f h k = later (f tt w) (k w h.0)
    where
      later : (y : Result (Unit {0}) × World) → Runs I R n w.writes y → Runs I R (m + n) start y
      later (ok v, t) g = (g.0, omega (arith, h.1, g.1))
      later (err e, t) g = (g.0, omega (arith, h.1, g.1))

  pub write-Runs :
      (Q : SessionDir → Type 0) (f : SessionDir → SessionDir) (w : World)
      → I w.dir
      → Q (f w.dir)
      → Runs I Q 1 w.writes (write f w)
  unfolding write write_with
  write-Runs Q f w h k = at w.writes
    where
      at : (n : ℕ) → Runs I Q 1 n (write_with f w.dir n)
      at zero = (h, omega arith)
      at (suc n) = (k, omega arith)

  -- The last part of a `finally` runs from `Q` where the first one ends, and from `I` where not.
  pub finally-Runs :
      (Q R : SessionDir → Type 0) (m n start : ℕ) (x : Result (Unit {0}) × World)
      (k : M World (Unit {0}))
      → Runs I Q m start x
      → ((w : World) → Q w.dir → Runs I R n w.writes (k w))
      → ((w : World) → I w.dir → Runs I I n w.writes (k w))
      → Runs I R (m + n) start (finally_of x.0 (k x.1))
  unfolding finally_of
  finally-Runs Q R m n start (ok u, w) k h g e = later (k w) (g w h.0)
    where
      later :
          (y : Result (Unit {0}) × World)
          → Runs I R n w.writes y
          → Runs I R (m + n) start (finally_of (ok u) y)
      later (ok v, t) a = (a.0, omega (arith, h.1, a.1))
      later (err c, t) a = (a.0, omega (arith, h.1, a.1))
  finally-Runs Q R m n start (err c, w) k h g e = later (k w) (e w h.0)
    where
      later :
          (y : Result (Unit {0}) × World)
          → Runs I I n w.writes y
          → Runs I R (m + n) start (finally_of (err c) y)
      later (ok v, t) a = (a.0, omega (arith, h.1))
      later (err b, t) a = (a.0, omega (arith, h.1))

  -- A step may be given a higher cost and a weaker end.
  pub weaken-Runs :
      (Q R : SessionDir → Type 0) (m n start : ℕ) (x : Result (Unit {0}) × World)
      → m ≤ n
      → ((d : SessionDir) → Q d → R d)
      → Runs I Q m start x
      → Runs I R n start x
  weaken-Runs Q R m n start (ok u, w) l k h = (k w.dir h.0, omega (arith, l, h.1))
  weaken-Runs Q R m n start (err e, w) l k h = (h.0, omega (arith, l, h.1))
