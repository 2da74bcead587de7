-- ===== src/Session/Recovery/Steps.antt =====
-- src/session.ts: each step of `applyPendingCommit` from the state in which the one before it ends.
use subagent.Common.{
  false, not, Option, none, some, List, if◌then◌else◌, err, arith, ◌≡◌, inl, inr, ◌∙◌, if-satisfies,
  eq_refl,
}
use subagent.Session.{
  SessionManifest, SessionRunRecord, PendingSessionCommit, SessionDir, World, Platform, write,
  finally, text_eq,
}
use subagent.Session.Commit.{
  set_file, canonical_of, staged_of, sha256_file, copy_attempt, publish_copy, publish_attempt_file,
  commit_invalid,
}
use subagent.Session.Triples.{Runs, bind-Runs, write-Runs, finally-Runs}
use subagent.Session.Same.{text_eq_refl, text_eq-eq}
use subagent.Session.Recovery.{
  IsLaidOut, canonical_hash, attempt_hash, IsPending, IsPublished, IsReady, IsStaged,
  staged_free-canonical, staged-IsPending, staged-IsReady,
}

module _ (p : Platform) (c : PendingSessionCommit) (base : List SessionRunRecord)
    (before : Option SessionManifest) (l : IsLaidOut p c) where
  abbrev pub Pending : SessionDir → Type 0
  Pending = IsPending p c base before

  abbrev pub Published : SessionDir → Type 0
  Published = IsPublished p c base before

  copied-IsStaged :
      (d : SessionDir)
      → IsReady p c base before d
      → IsStaged p c base before
          (set_file (staged_of p c) (d.files c.attempt_subagent_session_id) d)
  copied-IsStaged d h = (
    staged-IsReady p c base before l (d.files c.attempt_subagent_session_id) d h,
    ground (arith, eq_refl (staged_of p c), h.2),
  )

  rename-hash :
      (d : SessionDir)
      → canonical_hash p c
          (set_file (staged_of p c) none (set_file (canonical_of c) (d.files (staged_of p c)) d))
        ≡ sha256_file p (staged_of p c) d
  rename-hash d = ground (arith, l.canonical_staged, eq_refl (canonical_of c))

  renamed-IsPublished :
      (d : SessionDir)
      → IsStaged p c base before d
      → Published
          (set_file (staged_of p c) none (set_file (canonical_of c) (d.files (staged_of p c)) d))
  renamed-IsPublished d h = (
    record {
      pending_eq = h.0.0.pending_eq;
      publishable = inl (rename-hash d ∙ h.1);
      ledger_eq = h.0.0.ledger_eq;
      manifest_eq = h.0.0.manifest_eq;
    },
    rename-hash d ∙ h.1,
  )

  staged-IsPublished : (d : SessionDir) → Published d → Published (set_file (staged_of p c) none d)
  staged-IsPublished d h = (
    staged-IsPending p c base before l none d h.0,
    staged_free-canonical p c base before l none d ∙ h.1,
  )

  copy_attempt-Runs :
      (w : World)
      → IsReady p c base before w.dir
      → Runs Pending Published 2 w.writes (copy_attempt p c w)
  unfolding copy_attempt
  copy_attempt-Runs w h =
      bind-Runs Pending (IsStaged p c base before) Published 1 1 w.writes _ _
        (write-Runs Pending (IsStaged p c base before) _ w h.0 (copied-IsStaged w.dir h))
        (λ v k. write-Runs Pending Published _ v k.0.0 (renamed-IsPublished v.dir k))

  publish_copy-Runs :
      (w : World)
      → IsReady p c base before w.dir
      → Runs Pending Published 4 w.writes (publish_copy p c w)
  unfolding publish_copy finally
  publish_copy-Runs w h =
      bind-Runs Pending (IsReady p c base before) Published 1 3 w.writes _ _
        (write-Runs Pending (IsReady p c base before) _ w h.0
          (staged-IsReady p c base before l none w.dir h))
        (λ v k.
          finally-Runs Pending Published Published 2 1 v.writes (copy_attempt p c v)
            (write (set_file (staged_of p c) none)) (copy_attempt-Runs v k)
            (λ u g.
              write-Runs Pending Published (set_file (staged_of p c) none) u g.0
                (staged-IsPublished u.dir g))
            (λ u g.
              write-Runs Pending Pending (set_file (staged_of p c) none) u g
                (staged-IsPending p c base before l none u.dir g)))

  -- Without the successor in its place, the commit is ready to be published.
  unpublished-IsReady :
      (d : SessionDir)
      → Pending d
      → text_eq (canonical_hash p c d) (some c.successor_sha256) ≡ false
      → IsReady p c base before d
  unpublished-IsReady d h k = elim h.publishable [
    | inl e ↦ ground (arith, e, k, text_eq_refl (some c.successor_sha256))
    | inr (e, g) ↦ (h, e, g)
  ]

  pub publish-Runs :
      (w : World) → Pending w.dir → Runs Pending Published 4 w.writes (publish_attempt_file p c w)
  unfolding publish_attempt_file
  publish-Runs w h =
      if-satisfies (Runs Pending Published 4 w.writes)
        (text_eq (canonical_hash p c w.dir) (some c.successor_sha256)) _ _
        (λ e. ((h, text_eq-eq _ _ e), omega arith)) (λ e. changed (unpublished-IsReady w.dir h e))
    where
      changed :
          IsReady p c base before w.dir
          → Runs Pending Published 4 w.writes (
              if not (text_eq (canonical_hash p c w.dir) c.predecessor_sha256)
              then (err commit_invalid, w)
              else if not (text_eq (attempt_hash p c w.dir) (some c.successor_sha256))
              then (err commit_invalid, w)
              else publish_copy p c w)
      changed r =
          rw (r.1, r.2, text_eq_refl c.predecessor_sha256, text_eq_refl (some c.successor_sha256))
            (publish_copy-Runs w r)
