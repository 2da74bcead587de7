-- ===== src/Session/Ledger/Reconcile.antt =====
-- src/session.ts: a manifest that is behind its ledger.
use subagent.Common.{
  ℕ, zero, suc, ◌≤◌, ◌<◌, Option, none, some, length, nat_eq, ltb, if-satisfies, Result, ok, err,
  arith, ◌≡◌, refl,
}
use subagent.Common.State.{bind, return}
use subagent.Session.{SessionManifest, SessionRunRecord, World, write, write_with}
use subagent.Session.Run.{
  last_of, is_not_created, is_other_session, reconciled, reconcile_last,
  reconcile_manifest_with_ledger,
}

-- The outcome for a manifest and a world: an error with nothing written, or a manifest that counts
-- the records, is of the same session and is the one on disk, over the same ledger.
abbrev pub IsReconciled : SessionManifest → World → Result (Option SessionManifest) × World → Type 0
IsReconciled m w (err e, v) = v.dir ≡ w.dir
IsReconciled m w (ok none, v) = ⊥
IsReconciled m w (ok (some n), v) =
    (n.run_count ≡ length w.dir.ledger)
    × (m.run_count ≤ n.run_count)
    × (n.subagent_session_id ≡ m.subagent_session_id)
    × (v.dir.manifest ≡ some n)
    × (v.dir.ledger ≡ w.dir.ledger)

written-IsReconciled :
    (m : SessionManifest) (last : SessionRunRecord) (w : World)
    → m.run_count < length w.dir.ledger
    → IsReconciled m w (
        bind
          (write (λ d. record d { manifest = some (reconciled m w.dir.ledger last) }) w)
          (λ _. return (some (reconciled m w.dir.ledger last))))
unfolding write write_with reconciled
written-IsReconciled m last w h = of w.writes
  where
    of :
        (n : ℕ)
        → IsReconciled m w (
            bind
              (write_with
                (λ d. record d { manifest = some (reconciled m w.dir.ledger last) })
                w.dir
                n)
              (λ _. return (some (reconciled m w.dir.ledger last))))
    of zero = refl
    of (suc n) = (refl, omega (arith, h), refl, refl, refl)

last-IsReconciled :
    (m : SessionManifest) (w : World) (o : Option SessionRunRecord)
    → m.run_count < length w.dir.ledger
    → IsReconciled m w (reconcile_last m w.dir.ledger o w)
unfolding reconcile_last
last-IsReconciled m w none h = refl
last-IsReconciled m w (some last) h =
    if-satisfies (IsReconciled m w) (is_not_created last.action) _ _ (λ e. refl)
      (λ e.
        if-satisfies (IsReconciled m w)
          (is_other_session last.subagent_session_id m.subagent_session_id) _ _ (λ g. refl)
          (λ g. written-IsReconciled m last w h))

-- With the manifest on disk, reconciliation either fails and writes nothing, or returns the manifest
-- that is then on disk, with as many runs as the ledger has records and no fewer than before, of the
-- same session file, and leaves the ledger as it was.
pub reconcile-IsReconciled :
    (m : SessionManifest) (w : World)
    → w.dir.manifest ≡ some m
    → IsReconciled m w (reconcile_manifest_with_ledger m w)
unfolding reconcile_manifest_with_ledger
reconcile-IsReconciled m w h =
    if-satisfies (IsReconciled m w) (nat_eq (length w.dir.ledger) m.run_count) _ _
      (λ e. (ground (arith, e), omega arith, refl, h, refl))
      (λ e.
        if-satisfies (IsReconciled m w) (ltb (length w.dir.ledger) m.run_count) _ _ (λ g. refl)
          (λ g. last-IsReconciled m w (last_of w.dir.ledger) (ground (arith, e, g))))
