-- ===== src/Session/Ledger/Runs.antt =====
-- src/session.ts: every run keeps the ledger and the manifest together, wherever it is cut off.
use subagent.Common.{
  ℕ, zero, suc, String, Option, none, some, Result, ok, err, arith, ◌≡◌, refl, sym, subst,
}
use subagent.Common.State.{bind, lift}
use subagent.Session.{
  run_id_of, attempt_path, SessionManifest, SessionDir, World, Platform, write, write_with, finally,
  finally_of,
}
use subagent.Session.Commit.{recover}
use subagent.Session.Request.{SessionRequest, admit_request}
use subagent.Session.Run.{
  Launch, ChildResult, Child, reconcile, sequence_of, is_session_success, committed_id,
  run_record_of, next_manifest_of, settle_run, run_attempt, run_admitted, run_locked,
}
use subagent.Session.Ledger.{IsPlatform, IsAttempt, IsNonce, IsConsistent, IsSound, settled}
use subagent.Session.Ledger.Steps.{
  Leaves, IsAfter, kept, recover-Leaves, reconcile-eq, clean-IsSound,
}
use subagent.Session.Ledger.Attempt.{
  settle_ids-IsAfter, record_for, created-IsCommitted, resumed-IsCommitted, IsCommitted,
}

finally-world : (r : Result (Unit {0})) (x : Result (Unit {0}) × World) → (finally_of r x).1 ≡ x.1
unfolding finally_of
finally-world r (ok u, w) = refl
finally-world r (err e, w) = refl

module _ (p : Platform) (f : IsPlatform p) (q : SessionRequest) (launch : Launch)
    (hex : IsNonce launch.nonce) where
  abbrev Sound : SessionDir → Type 0
  Sound = IsSound p

  abbrev Settled : SessionDir → Type 0
  Settled d = (d.pending ≡ none) × IsConsistent p d.ledger d.manifest

  abbrev id_for : Option SessionManifest → String
  id_for manifest = run_id_of p (sequence_of manifest) launch.nonce

  abbrev After : Option SessionManifest → SessionDir → Type 0
  After manifest = IsAfter p f (id_for manifest)

  -- A session file that the child of a new session reports is a file of the attempt.
  abbrev pub Reports : ChildResult → Type 0
  Reports child = (s : String) → child.session_id ≡ some s → IsAttempt p (id_for none) s

  settle_run-IsAfter :
      (child : ChildResult) (manifest : Option SessionManifest) (w : World)
      → (manifest ≡ none → Reports child)
      → w.dir.pending ≡ none
      → w.dir.manifest ≡ manifest
      → IsConsistent p w.dir.ledger manifest
      → After manifest (settle_run p q launch child manifest (id_for manifest) w).1.dir
  unfolding settle_run run_record_of
  settle_run-IsAfter child none w reports h e k =
      settle_ids-IsAfter p f (record_for p f q launch hex child none)
        (next_manifest_of q launch child none)
        (committed_id p (is_session_success q child child.session_id) none child.session_id)
        child.session_id w (h, rw e k)
        (λ i a g j s.
          created-IsCommitted p f q launch hex child w.dir i a k (reports refl a j)
            (ground (arith, g, j, s)) j s)
  settle_run-IsAfter child (some m) w reports h e k =
      settle_ids-IsAfter p f (record_for p f q launch hex child (some m))
        (next_manifest_of q launch child (some m)) (some m.subagent_session_id)
        (some (attempt_path p (id_for (some m)) m.subagent_session_id)) w (h, rw e k)
        (λ i a g j s.
          placed i a (ground (arith, g)) (ground (arith, j))
            (resumed-IsCommitted p f q launch hex child w.dir m k s))
    where
      placed :
          (i a : String)
          → m.subagent_session_id ≡ i
          → attempt_path p (id_for (some m)) m.subagent_session_id ≡ a
          → IsCommitted p f
              (record_for p f q launch hex child (some m))
              (next_manifest_of q launch child (some m) m.subagent_session_id)
              (attempt_path p (id_for (some m)) m.subagent_session_id)
              w.dir
          → IsCommitted p f
              (record_for p f q launch hex child (some m))
              (next_manifest_of q launch child (some m) i)
              a
              w.dir
      placed i a g j c =
          subst
            (λ x.
              IsCommitted p f (record_for p f q launch hex child (some m))
                (next_manifest_of q launch child (some m) x) a w.dir)
            g
            (subst
              (λ x.
                IsCommitted p f (record_for p f q launch hex child (some m))
                  (next_manifest_of q launch child (some m) m.subagent_session_id) x w.dir)
              j c)

  module _ (child : Child) (reports : (d : SessionDir) → Reports (child none d)) where
    run_attempt-IsAfter :
        (manifest : Option SessionManifest) (w : World)
        → w.dir.pending ≡ none
        → w.dir.manifest ≡ manifest
        → IsConsistent p w.dir.ledger manifest
        → After manifest (run_attempt p q launch child manifest (id_for manifest) w).1.dir
    unfolding run_attempt write write_with
    run_attempt-IsAfter manifest w h e k = of w.writes
      where
        of :
            (n : ℕ)
            → After manifest
                (bind
                  (write_with (λ d. record d { files = (child manifest w.dir).files }) w.dir n)
                  (λ _.
                    settle_run p q launch (child manifest w.dir) manifest (id_for manifest))).1.dir
        of zero = kept (h, rw e k)
        of (suc n) =
            settle_run-IsAfter (child manifest w.dir) manifest
              (record { dir = record w.dir { files = (child manifest w.dir).files }; writes = n })
              (λ g. subst (λ m. Reports (child m w.dir)) (sym g) (reports w.dir)) h e k

    run_admitted-IsSound :
        (manifest : Option SessionManifest) (w : World)
        → w.dir.pending ≡ none
        → w.dir.manifest ≡ manifest
        → IsConsistent p w.dir.ledger manifest
        → Sound (run_admitted p q launch child manifest w).1.dir
    unfolding run_admitted finally
    run_admitted-IsSound manifest w h e k =
        subst (λ v. Sound v.dir) (sym (finally-world _ _))
          (clean-IsSound p f (id_for manifest) _ (run_attempt-IsAfter manifest w h e k))

    pub run_locked-IsSound : (w : World) → Sound w.dir → Sound (run_locked p q launch child w).1.dir
    unfolding run_locked
    run_locked-IsSound w h = recovered (recover p w) (recover-Leaves p f w h)
      where
        admitted :
            (r : Result (Unit {0})) (v : World)
            → Settled v.dir
            → Sound (bind (r, v) (λ _. run_admitted p q launch child v.dir.manifest)).1.dir
        admitted (ok u) v k = run_admitted-IsSound v.dir.manifest v k.0 refl k.1
        admitted (err e) v k = settled k.0 k.1

        recovered :
            (x : Result (Unit {0}) × World)
            → Leaves Sound (λ _ d. Settled d) x
            → Sound
                (bind x (λ _ v. bind (reconcile v) (λ manifest t.
                  bind
                    (lift (admit_request manifest q) t)
                    (λ _. run_admitted p q launch child manifest)))).1.dir
        recovered (err e, v) k = k
        recovered (ok u, v) k =
            rw (reconcile-eq p f v k) (admitted (admit_request v.dir.manifest q) v k)
