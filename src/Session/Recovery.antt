-- ===== src/Session/Recovery.antt =====
-- src/session.ts: what a commit leaves behind when it is cut off, and what its replay makes of it.
mod Steps
mod Apply
pub mod Crash
use subagent.Common.{
  ℕ, zero, suc, ◌+◌, ◌≤◌, ◌<◌, String, ◌==◌, Bool, true, false, not, ◌&&◌, Option, none, some, List,
  [], ◌∷◌, ◌++◌, find, if◌then◌else◌, Result, ok, err, Failure, arith, ◌≡◌, ◌≢◌, ◌⊎◌, inl, inr,
  refl, sym, ap, ◌∙◌, if-satisfies, Bool-cases, eq_refl,
}
use subagent.Common.State.{M, bind, ◌>>=◌, ◌>>◌, guard}
use subagent.Session.{
  SessionManifest, SessionRunRecord, PendingSessionCommit, SessionDir, World, Platform, write,
  write_with, finally, text_eq, same_record, same_manifest,
}
use subagent.Session.Commit.{
  set_file, remove_directory_of, canonical_of, staged_of, hash_of, sha256_file, copy_attempt,
  publish_copy, publish_attempt_file, find_record, append_found, append_run_record_idempotent,
  record_found, manifest_found, verify_commit, clean_commit, apply_pending_commit, is_inside_both,
  recover_from, recover,
}
use subagent.Session.Triples.{Runs, bind-Runs, write-Runs, finally-Runs, weaken-Runs}
use subagent.Session.Same.{
  text_eq_refl, text_eq-eq, same_record_refl, same_manifest_refl, find_record-append,
}

-- How the paths of a commit lie: they differ, the canonical file does not stand in the directory of
-- the attempt, and both lie inside the directory of the session.
pub record IsLaidOut (p : Platform) (c : PendingSessionCommit) : Type 0 where
  pub canonical_staged : (canonical_of c == staged_of p c) ≡ false
  pub attempt_staged : (c.attempt_subagent_session_id == staged_of p c) ≡ false
  pub attempt_canonical : (c.attempt_subagent_session_id == canonical_of c) ≡ false
  pub kept : p.is_under (canonical_of c) (p.dirname c.attempt_subagent_session_id) ≡ false
  pub inside : is_inside_both p c ≡ true

module _ (p : Platform) (c : PendingSessionCommit) where
  abbrev pub canonical_hash : SessionDir → Option String
  canonical_hash d = sha256_file p (canonical_of c) d

  abbrev pub attempt_hash : SessionDir → Option String
  attempt_hash d = sha256_file p c.attempt_subagent_session_id d

  -- The content of the session file is published, or it can still be.
  abbrev pub IsPublishable : SessionDir → Type 0
  IsPublishable d =
      (canonical_hash d ≡ some c.successor_sha256)
      ⊎ ((canonical_hash d ≡ c.predecessor_sha256) × (attempt_hash d ≡ some c.successor_sha256))

  module _ (base : List SessionRunRecord) (before : Option SessionManifest) where
    -- The commit is prepared, and each of its three parts is done or not done.
    pub record IsPending (d : SessionDir) : Type 0 where
      pub pending_eq : d.pending ≡ some c
      pub publishable : IsPublishable d
      pub ledger_eq : (d.ledger ≡ base) ⊎ (d.ledger ≡ base ++ c.run_record ∷ [])
      pub manifest_eq : (d.manifest ≡ before) ⊎ (d.manifest ≡ some c.next_manifest)

    abbrev pub IsPublished : SessionDir → Type 0
    IsPublished d = IsPending d × (canonical_hash d ≡ some c.successor_sha256)

    abbrev pub IsAppended : SessionDir → Type 0
    IsAppended d = IsPublished d × (d.ledger ≡ base ++ c.run_record ∷ [])

    abbrev pub IsManifested : SessionDir → Type 0
    IsManifested d = IsAppended d × (d.manifest ≡ some c.next_manifest)

    -- The commit is done, and no longer pending.
    pub record IsDone (d : SessionDir) : Type 0 where
      pub no_pending : d.pending ≡ none
      pub published : canonical_hash d ≡ some c.successor_sha256
      pub appended : d.ledger ≡ base ++ c.run_record ∷ []
      pub manifested : d.manifest ≡ some c.next_manifest

    -- The attempt is in its place, and the canonical file is the predecessor.
    abbrev pub IsReady : SessionDir → Type 0
    IsReady d =
        IsPending d
        × (canonical_hash d ≡ c.predecessor_sha256)
        × (attempt_hash d ≡ some c.successor_sha256)

    abbrev pub IsStaged : SessionDir → Type 0
    IsStaged d = IsReady d × (sha256_file p (staged_of p c) d ≡ some c.successor_sha256)

    module _ (l : IsLaidOut p c) where
      pub staged_free-canonical :
          (text : Option String) (d : SessionDir)
          → canonical_hash (set_file (staged_of p c) text d) ≡ canonical_hash d
      staged_free-canonical text d = ground (arith, l.canonical_staged)

      pub staged_free-attempt :
          (text : Option String) (d : SessionDir)
          → attempt_hash (set_file (staged_of p c) text d) ≡ attempt_hash d
      staged_free-attempt text d = ground (arith, l.attempt_staged)

      IsPublishable-staged :
          (text : Option String) (d : SessionDir)
          → IsPublishable d
          → IsPublishable (set_file (staged_of p c) text d)
      IsPublishable-staged text d (inl h) = inl (staged_free-canonical text d ∙ h)
      IsPublishable-staged text d (inr (h, k)) =
          inr (staged_free-canonical text d ∙ h, staged_free-attempt text d ∙ k)

      -- A write of the staged file leaves the commit where it is.
      pub staged-IsPending :
          (text : Option String) (d : SessionDir)
          → IsPending d
          → IsPending (set_file (staged_of p c) text d)
      staged-IsPending text d h = record {
        pending_eq = h.pending_eq;
        publishable = IsPublishable-staged text d h.publishable;
        ledger_eq = h.ledger_eq;
        manifest_eq = h.manifest_eq;
      }

      pub staged-IsReady :
          (text : Option String) (d : SessionDir)
          → IsReady d
          → IsReady (set_file (staged_of p c) text d)
      staged-IsReady text d h = (
        staged-IsPending text d h.0,
        staged_free-canonical text d ∙ h.1,
        staged_free-attempt text d ∙ h.2,
      )
