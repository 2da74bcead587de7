-- ===== src/Session/Recovery/Apply.antt =====
-- src/session.ts: `applyPendingCommit` from its first step to its last.
use subagent.Common.{Option, none, some, List, [], ◌∷◌, ◌++◌, arith, ◌≡◌, inl, inr, refl, ap, ◌∙◌}
use subagent.Session.{
  SessionManifest, SessionRunRecord, PendingSessionCommit, SessionDir, World, Platform, write,
}
use subagent.Session.Commit.{
  set_file, remove_directory_of, staged_of, find_record, append_found, append_run_record_idempotent,
  manifest_found, verify_commit, clean_commit, apply_pending_commit,
}
use subagent.Session.Triples.{Runs, bind-Runs, write-Runs}
use subagent.Session.Same.{text_eq_refl, same_record_refl, same_manifest_refl, find_record-append}
use subagent.Session.Recovery.{
  IsLaidOut, canonical_hash, IsPending, IsPublished, IsAppended, IsManifested, IsDone,
  staged_free-canonical, staged-IsPending,
}
use subagent.Session.Recovery.Steps.{publish-Runs}

module _ (p : Platform) (c : PendingSessionCommit) (base : List SessionRunRecord)
    (before : Option SessionManifest) (l : IsLaidOut p c)
    (unseen : find_record c.run_record.run_id base ≡ none) where
  abbrev Pending : SessionDir → Type 0
  Pending = IsPending p c base before

  abbrev Published : SessionDir → Type 0
  Published = IsPublished p c base before

  abbrev Appended : SessionDir → Type 0
  Appended = IsAppended p c base before

  abbrev Manifested : SessionDir → Type 0
  Manifested = IsManifested p c base before

  abbrev Done : SessionDir → Type 0
  Done = IsDone p c base before

  append-IsAppended :
      (d : SessionDir)
      → Published d
      → d.ledger ≡ base
      → Appended (record d { ledger = d.ledger ++ c.run_record ∷ [] })
  append-IsAppended d h e = (
    (
      record {
        pending_eq = h.0.pending_eq;
        publishable = inl h.1;
        ledger_eq = inr (ap (λ xs. xs ++ c.run_record ∷ []) e);
        manifest_eq = h.0.manifest_eq;
      },
      h.1,
    ),
    ap (λ xs. xs ++ c.run_record ∷ []) e,
  )

  found_in :
      (d : SessionDir)
      → d.ledger ≡ base ++ c.run_record ∷ []
      → find_record c.run_record.run_id d.ledger ≡ some c.run_record
  found_in d e =
      ap (find_record c.run_record.run_id) e ∙ find_record-append c.run_record base unseen

  append-Runs :
      (w : World)
      → Published w.dir
      → Runs Pending Appended 1 w.writes (append_run_record_idempotent c.run_record w)
  unfolding append_run_record_idempotent append_found
  append-Runs w h = elim h.0.ledger_eq [
    | inl e ↦
        rw (ap (find_record c.run_record.run_id) e ∙ unseen)
          (write-Runs Pending Appended _ w h.0 (append-IsAppended w.dir h e))
    | inr e ↦ rw (found_in w.dir e, same_record_refl c.run_record) ((h, e), omega arith)
  ]

  manifest-IsManifested :
      (d : SessionDir) → Appended d → Manifested (record d { manifest = some c.next_manifest })
  manifest-IsManifested d h = (
    (
      (
        record {
          pending_eq = h.0.0.pending_eq;
          publishable = inl h.0.1;
          ledger_eq = inr h.1;
          manifest_eq = inr refl;
        },
        h.0.1,
      ),
      h.1,
    ),
    refl,
  )

  manifest-Runs :
      (w : World)
      → Appended w.dir
      → Runs Pending Manifested 1 w.writes
          (write (λ d. record d { manifest = some c.next_manifest }) w)
  manifest-Runs w h = write-Runs Pending Manifested _ w h.0.0 (manifest-IsManifested w.dir h)

  -- The checks after the writes pass.
  verify-Runs :
      (w : World) → Manifested w.dir → Runs Pending Manifested 0 w.writes (verify_commit p c w)
  unfolding verify_commit
  verify-Runs w h =
      rw
        (
          h.0.0.1,
          text_eq_refl (some c.successor_sha256),
          found_in w.dir h.0.1,
          same_record_refl c.run_record,
          ap (λ o. manifest_found o c.next_manifest) h.1 ∙ same_manifest_refl c.next_manifest,
        )
        (h, omega arith)

  staged-IsManifested :
      (d : SessionDir) → Manifested d → Manifested (set_file (staged_of p c) none d)
  staged-IsManifested d h = (
    (
      (
        staged-IsPending p c base before l none d h.0.0.0,
        staged_free-canonical p c base before l none d ∙ h.0.0.1,
      ),
      h.0.1,
    ),
    h.1,
  )

  removed-hash :
      (d : SessionDir)
      → canonical_hash p c (remove_directory_of p c.attempt_subagent_session_id d)
        ≡ canonical_hash p c d
  removed-hash d = ground (arith, l.kept)

  removed-IsManifested :
      (d : SessionDir)
      → Manifested d
      → Manifested (remove_directory_of p c.attempt_subagent_session_id d)
  removed-IsManifested d h = (
    (
      (
        record {
          pending_eq = h.0.0.0.pending_eq;
          publishable = inl (removed-hash d ∙ h.0.0.1);
          ledger_eq = inr h.0.1;
          manifest_eq = inr h.1;
        },
        removed-hash d ∙ h.0.0.1,
      ),
      h.0.1,
    ),
    h.1,
  )

  clean-Runs : (w : World) → Manifested w.dir → Runs Pending Done 3 w.writes (clean_commit p c w)
  unfolding clean_commit
  clean-Runs w h =
      bind-Runs Pending Manifested Done 1 2 w.writes _ _
        (write-Runs Pending Manifested (set_file (staged_of p c) none) w h.0.0.0
          (staged-IsManifested w.dir h))
        (λ v k.
          bind-Runs Pending Manifested Done 1 1 v.writes _ _
            (write-Runs Pending Manifested (remove_directory_of p c.attempt_subagent_session_id) v
              k.0.0.0 (removed-IsManifested v.dir k))
            (λ u g.
              write-Runs Pending Done (λ d. record d { pending = none }) u g.0.0.0
                (record {
                  no_pending = refl;
                  published = g.0.0.1;
                  appended = g.0.1;
                  manifested = g.1;
                })))

  -- The whole of it makes nine writes at most.
  pub apply-Runs :
      (w : World) → Pending w.dir → Runs Pending Done 9 w.writes (apply_pending_commit p c w)
  unfolding apply_pending_commit
  apply-Runs w h =
      bind-Runs Pending Published Done 4 5 w.writes _ _ (publish-Runs p c base before l w h) (λ v k.
        bind-Runs Pending Appended Done 1 4 v.writes _ _ (append-Runs v k) (λ u g.
          bind-Runs Pending Manifested Done 1 3 u.writes _ _ (manifest-Runs u g) (λ t e.
            bind-Runs Pending Manifested Done 0 3 t.writes _ _ (verify-Runs t e)
              (λ s f. clean-Runs s f))))
