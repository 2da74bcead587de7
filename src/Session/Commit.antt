-- ===== src/Session/Commit.antt =====
-- src/session.ts: the commit of an attempt, step by step, and its replay.
use subagent.Common.{
  String, ◌==◌, Bool, false, not, ◌&&◌, Option, none, some, List, [], ◌∷◌, ◌++◌, find,
  if◌then◌else◌, ok, err, Failure, validation, FailureReasonCode,
}
use subagent.Common.State.{M, ◌>>◌, guard}
use subagent.Session.{
  staged_path, is_inside, SessionManifest, SessionRunRecord, PendingSessionCommit, SessionDir,
  World, Platform, write, finally, text_eq, same_record, same_manifest,
}

abbrev pub commit_invalid : Failure
commit_invalid = validation FailureReasonCode.session_commit_invalid

abbrev pub ledger_invalid : Failure
ledger_invalid = validation FailureReasonCode.session_ledger_invalid

abbrev pub set_file : String → Option String → SessionDir → SessionDir
set_file path text d = record d { files = λ p. if p == path then text else d.files p }

-- `fs.rm` of the directory that a path stands in.
abbrev pub remove_directory_of : Platform → String → SessionDir → SessionDir
remove_directory_of p path d = record d {
  files = λ q. if p.is_under q (p.dirname path) then none else d.files q;
}

abbrev pub canonical_of : PendingSessionCommit → String
canonical_of c = c.next_manifest.subagent_session_id

abbrev pub staged_of : Platform → PendingSessionCommit → String
staged_of p c = staged_path p (canonical_of c) c.run_record.run_id

abbrev pub hash_of : Platform → Option String → Option String
hash_of p none = none
hash_of p (some text) = some (p.sha256 text)

-- `sha256File`.
abbrev pub sha256_file : Platform → String → SessionDir → Option String
sha256_file p path d = hash_of p (d.files path)

-- `copyFile` and `rename`, between the removals of the staged file.
unfoldable pub copy_attempt : Platform → PendingSessionCommit → M World (Unit {0})
copy_attempt p c = do
  write (λ d. set_file (staged_of p c) (d.files c.attempt_subagent_session_id) d)
  write (λ d. set_file (staged_of p c) none (set_file (canonical_of c) (d.files (staged_of p c)) d))

unfoldable pub publish_copy : Platform → PendingSessionCommit → M World (Unit {0})
publish_copy p c = do
  write (set_file (staged_of p c) none)
  finally (copy_attempt p c) (write (set_file (staged_of p c) none))

-- `publishAttemptFile`: nothing is done where the canonical file is already the successor.
unfoldable pub publish_attempt_file : Platform → PendingSessionCommit → M World (Unit {0})
publish_attempt_file p c w =
    if text_eq (sha256_file p (canonical_of c) w.dir) (some c.successor_sha256)
    then (ok tt, w)
    else if not (text_eq (sha256_file p (canonical_of c) w.dir) c.predecessor_sha256)
    then (err commit_invalid, w)
    else if not
        (text_eq (sha256_file p c.attempt_subagent_session_id w.dir) (some c.successor_sha256))
    then (err commit_invalid, w)
    else publish_copy p c w

unfoldable pub find_record : String → List SessionRunRecord → Option SessionRunRecord
find_record run_id records = find (λ r. r.run_id == run_id) records

unfoldable pub append_found : SessionRunRecord → Option SessionRunRecord → M World (Unit {0})
append_found r none = write (λ d. record d { ledger = d.ledger ++ r ∷ [] })
append_found r (some found) = guard (same_record found r) ledger_invalid

-- `appendRunRecordIdempotent`.
unfoldable pub append_run_record_idempotent : SessionRunRecord → M World (Unit {0})
append_run_record_idempotent r w = append_found r (find_record r.run_id w.dir.ledger) w

abbrev pub record_found : Option SessionRunRecord → SessionRunRecord → Bool
record_found none r = false
record_found (some found) r = same_record found r

abbrev pub manifest_found : Option SessionManifest → SessionManifest → Bool
manifest_found none m = false
manifest_found (some found) m = same_manifest found m

-- The checks of `applyPendingCommit` after its writes.
unfoldable pub verify_commit : Platform → PendingSessionCommit → M World (Unit {0})
verify_commit p c w =
    if not (text_eq (sha256_file p (canonical_of c) w.dir) (some c.successor_sha256))
    then (err commit_invalid, w)
    else if not (record_found (find_record c.run_record.run_id w.dir.ledger) c.run_record)
    then (err commit_invalid, w)
    else if not (manifest_found w.dir.manifest c.next_manifest)
    then (err commit_invalid, w)
    else (ok tt, w)

-- The removals that end a commit; the pending commit goes last.
unfoldable pub clean_commit : Platform → PendingSessionCommit → M World (Unit {0})
clean_commit p c = do
  write (set_file (staged_of p c) none)
  write (remove_directory_of p c.attempt_subagent_session_id)
  write (λ d. record d { pending = none })

unfoldable pub apply_pending_commit : Platform → PendingSessionCommit → M World (Unit {0})
apply_pending_commit p c = do
  publish_attempt_file p c
  append_run_record_idempotent c.run_record
  write (λ d. record d { manifest = some c.next_manifest })
  verify_commit p c
  clean_commit p c

-- `readPendingCommit`: both paths of the commit must lie inside the session's directory.
abbrev pub is_inside_both : Platform → PendingSessionCommit → Bool
is_inside_both p c = is_inside p (canonical_of c) && is_inside p c.attempt_subagent_session_id

unfoldable pub recover_from : Platform → Option PendingSessionCommit → M World (Unit {0})
recover_from p none w = (ok tt, w)
recover_from p (some c) w =
    if is_inside_both p c then apply_pending_commit p c w else (err commit_invalid, w)

-- What every run does first under its lock.
unfoldable pub recover : Platform → M World (Unit {0})
unfolding recover_from
recover p w = recover_from p w.dir.pending w

-- The arguments of `commitAttemptSession`.
pub record CommitOptions : Type 0 where
  pub attempt_subagent_session_id : String
  pub run_record : SessionRunRecord
  pub next_manifest : SessionManifest

unfoldable pub prepared : Platform → CommitOptions → String → SessionDir → PendingSessionCommit
prepared p o successor d = record {
  attempt_subagent_session_id = o.attempt_subagent_session_id;
  predecessor_sha256 = sha256_file p o.next_manifest.subagent_session_id d;
  successor_sha256 = successor;
  run_record = o.run_record;
  next_manifest = o.next_manifest;
}

unfoldable pub commit_prepared : Platform → PendingSessionCommit → M World (Unit {0})
commit_prepared p c = do write (λ d. record d { pending = some c }); apply_pending_commit p c

unfoldable pub commit_hashed : Platform → CommitOptions → Option String → M World (Unit {0})
unfolding prepared
commit_hashed p o none w = (err commit_invalid, w)
commit_hashed p o (some successor) w = commit_prepared p (prepared p o successor w.dir) w

unfoldable pub commit_attempt_session : Platform → CommitOptions → M World (Unit {0})
unfolding commit_hashed
commit_attempt_session p o w =
    commit_hashed p o (sha256_file p o.attempt_subagent_session_id w.dir) w
