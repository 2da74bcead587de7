-- ===== src/Session/Ledger/Steps.antt =====
-- src/session.ts: recovery, reconciliation and the last removal, from a ledger and a manifest that agree.
use subagent.Common.{
  ℕ, zero, suc, String, true, Option, none, some, List, [], ◌∷◌, ◌++◌, if◌then◌else◌, Result, ok,
  err, arith, ◌≡◌, refl, sym, subst,
}
use subagent.Common.State.{M, bind}
use subagent.Session.{
  stands_in_attempt, SessionManifest, SessionRunRecord, PendingSessionCommit, SessionDir, World,
  Platform, write, write_with,
}
use subagent.Session.Commit.{find_record, recover, recover_from}
use subagent.Session.Triples.{Runs}
use subagent.Session.Recovery.{IsLaidOut, IsPending, IsDone}
use subagent.Session.Recovery.Crash.{recover-Runs}
use subagent.Session.Run.{
  reconcile, reconcile_from, reconcile_manifest_with_ledger, remove_attempt, is_cleaned,
  clean_attempt,
}
use subagent.Session.Ledger.{
  IsPlatform, IsHistory, IsConsistent, IsSound, settled, prepared_by, Done-IsSound,
}

-- How a step that may fail leaves the directory.
abbrev pub Leaves {ℓ} :
    {A : Type ℓ} → (SessionDir → Type 0) → (A → SessionDir → Type 0) → Result A × World → Type 0
Leaves I Q (ok a, w) = Q a w.dir
Leaves I Q (err e, w) = I w.dir

pub bind-Leaves {ℓ κ} :
    {A : Type ℓ} {B : Type κ} (I : SessionDir → Type 0) (Q : A → SessionDir → Type 0)
    (R : B → SessionDir → Type 0) (x : Result A × World) (f : A → M World B)
    → Leaves I Q x
    → ((a : A) (w : World) → Q a w.dir → Leaves I R (f a w))
    → Leaves I R (bind x f)
bind-Leaves I Q R (ok a, w) f h k = k a w h
bind-Leaves I Q R (err e, w) f h k = h

module _ (p : Platform) (f : IsPlatform p) where
  abbrev pub Sound : SessionDir → Type 0
  Sound = IsSound p

  abbrev pub Settled : SessionDir → Type 0
  Settled d = (d.pending ≡ none) × IsConsistent p d.ledger d.manifest

  -- After the attempt of a run: nothing is pending, or the commit of this attempt is.
  pub data IsAfter (run_id : String) (d : SessionDir) : Type 0 where
    kept : Settled d → IsAfter run_id d
    left :
        (c : PendingSessionCommit) (base : List SessionRunRecord) (before : Option SessionManifest)
        → IsPending p c base before d
        → IsLaidOut p c
        → find_record c.run_record.run_id base ≡ none
        → IsHistory p (base ++ c.run_record ∷ []) c.next_manifest
        → stands_in_attempt p c.attempt_subagent_session_id run_id ≡ true
        → IsAfter run_id d

  pub after-IsSound : (run_id : String) (d : SessionDir) → IsAfter run_id d → Sound d
  after-IsSound run_id d (kept h) = settled h.0 h.1
  after-IsSound run_id d (left c base before h l u g s) = prepared_by c base before h l u g

  pub recover-Leaves : (w : World) → Sound w.dir → Leaves Sound (λ _ d. Settled d) (recover p w)
  unfolding recover recover_from
  recover-Leaves w (settled h k) =
      subst (λ o. Leaves Sound (λ _ d. Settled d) (recover_from p o w)) (sym h) (h, k)
  recover-Leaves w (prepared_by c base before h l u g) =
      leaves _ (recover-Runs p c base before l u w.dir w.writes h)
    where
      leaves :
          (x : Result (Unit {0}) × World)
          → Runs (IsPending p c base before) (IsDone p c base before) 9 w.writes x
          → Leaves Sound (λ _ d. Settled d) x
      leaves (ok v, t) k = (k.0.no_pending, Done-IsSound p c base before t.dir g k.0)
      leaves (err e, t) k = prepared_by c base before k.0 l u g

  -- Where they agree, the manifest is taken as it is.
  pub reconcile-eq : (w : World) → Settled w.dir → reconcile w ≡ (ok w.dir.manifest, w)
  unfolding reconcile reconcile_manifest_with_ledger
  reconcile-eq w h = of w.dir.manifest h.1
    where
      of :
          (o : Option SessionManifest)
          → IsConsistent p w.dir.ledger o
          → reconcile_from o w ≡ (ok o, w)
      of none k = refl
      of (some m) k = ground (arith, k.count_eq)

  pub clean-IsSound :
      (run_id : String) (w : World) → IsAfter run_id w.dir → Sound (clean_attempt p run_id w).1.dir
  unfolding clean_attempt write write_with
  clean-IsSound run_id w (kept h) =
      subst
        (λ o.
          Sound
            (if is_cleaned p run_id o then write (remove_attempt p run_id) w else (ok tt, w)).1.dir)
        (sym h.0) (of w.writes)
    where
      of : (n : ℕ) → Sound (write_with (remove_attempt p run_id) w.dir n).1.dir
      of zero = settled h.0 h.1
      of (suc n) = settled h.0 h.1
  clean-IsSound run_id w (left c base before h l u g s) =
      subst
        (λ o.
          Sound
            (if is_cleaned p run_id o then write (remove_attempt p run_id) w else (ok tt, w)).1.dir)
        (sym h.pending_eq) (rw (l.inside, s) (prepared_by c base before h l u g))
