-- ===== src/Session.antt =====
-- src/session.ts: the records of a named session, its directory, and writes that a crash may cut off.
mod Commit
mod Triples
mod Same
mod Recovery
mod Request
mod Run
mod Ledger
mod Lock
mod Posix
mod Tests
use Prim.Native.String.{◌++◌ as str_append}
use subagent.Common.{
  codes, not, ◌||◌, ℕ, zero, suc, String, ◌==◌, Bool, true, false, ◌&&◌, Option, none, some, List,
  [], ◌∷◌, nat_eq, Result, ok, err, Failure, validation, thrown, FailureReasonCode,
}
use subagent.Common.State.{M}

pub data Action : Type 0 where
  created resumed not_created : Action

-- The fields that are only stored and compared are together in `details`.
pub record SessionManifest : Type 0 where
  pub session_key : String
  pub cwd : String
  pub skill : Option String
  pub initial_model_class : Option String
  pub subagent_session_id : String
  pub created_at : String
  pub last_run_at : String
  pub run_count : ℕ
  pub last_output_reference : String

pub record SessionRunRecord : Type 0 where
  pub run_id : String
  pub sequence : ℕ
  pub started_at : String
  pub finished_at : String
  pub action : Action
  pub subagent_session_id : Option String
  pub attempt_subagent_session_id : Option String
  pub output_reference : String
  pub success : Bool
  pub details : String

pub record PendingSessionCommit : Type 0 where
  pub attempt_subagent_session_id : String
  pub predecessor_sha256 : Option String
  pub successor_sha256 : String
  pub run_record : SessionRunRecord
  pub next_manifest : SessionManifest

-- The directory of a session: the Pi session files by their paths, and its own files, whose texts
-- are read back as the values that were written.
pub record SessionDir : Type 0 where
  pub files : String → Option String
  pub pending : Option PendingSessionCommit
  pub ledger : List SessionRunRecord
  pub manifest : Option SessionManifest
  pub attempts : List SessionRunRecord

-- The directory, and how many writes the process makes before it dies: each is done or not done.
pub record World : Type 0 where
  pub dir : SessionDir
  pub writes : ℕ

-- What the libraries give: the hash of a file, the functions of `path` and `encodeURIComponent`,
-- which files `fs.rm` of a directory removes, the text of a sequence number with its leading zeros,
-- and the path of the session's directory.
pub record Platform : Type 0 where
  pub sha256 : String → String
  pub session_dir : String
  pub join : String → String → String
  pub dirname : String → String
  pub basename : String → String
  pub relative : String → String → String
  pub is_absolute : String → Bool
  pub encode_uri_component : String → String
  pub is_under : String → String → Bool
  pub padded : ℕ → String

-- The run id of a sequence number and a random text.
unfoldable pub run_id_of : Platform → ℕ → String → String
run_id_of p n nonce = str_append (p.padded n) (str_append "-" nonce)

unfoldable pub pi_directory : Platform → String
pi_directory p = p.join p.session_dir "pi-session"

unfoldable pub attempt_directory : Platform → String → String
attempt_directory p run_id = p.join (p.join p.session_dir "attempt-pi-sessions") run_id

unfoldable pub staged_name : Platform → String → String → String
staged_name p name run_id =
    str_append "." (str_append name (str_append ".pending-" (p.encode_uri_component run_id)))

-- `stagedCanonicalPath`.
unfoldable pub staged_path : Platform → String → String → String
staged_path p id run_id = p.join (p.dirname id) (staged_name p (p.basename id) run_id)

-- The session file of a resumed run in the directory of its attempt.
unfoldable pub attempt_path : Platform → String → String → String
attempt_path p run_id id = p.join (attempt_directory p run_id) (p.basename id)

-- The session file of a new session, from the file of its attempt.
unfoldable pub canonical_path : Platform → String → String
canonical_path p attempt = p.join (pi_directory p) (p.basename attempt)

-- The test of the last removal: a path stands directly in the directory of an attempt.
unfoldable pub stands_in_attempt : Platform → String → String → Bool
stands_in_attempt p path run_id = p.dirname path == attempt_directory p run_id

abbrev pub is_prefix : List ℕ → List ℕ → Bool
is_prefix [] ds = true
is_prefix (c ∷ cs) [] = false
is_prefix (c ∷ cs) (d ∷ ds) = nat_eq c d && is_prefix cs ds

abbrev starts_above : String → Bool
starts_above path = is_prefix (codes "../") (codes path)

-- The test of `assertCommitPathInside`.
unfoldable pub is_inside : Platform → String → Bool
is_inside p path =
    let from_here = p.relative p.session_dir path in
    not (from_here == "" || starts_above from_here || p.is_absolute from_here)

unfoldable pub write_with : (SessionDir → SessionDir) → SessionDir → ℕ → Result (Unit {0}) × World
write_with f d zero = (err thrown, record { dir = d; writes = 0 })
write_with f d (suc left) = (ok tt, record { dir = f d; writes = left })

-- One write. A process that has none left is gone, and no later write of it is done.
unfoldable pub write : (SessionDir → SessionDir) → M World (Unit {0})
unfolding write_with
write f w = write_with f w.dir w.writes

unfoldable pub finally_of :
    Result (Unit {0}) → Result (Unit {0}) × World → Result (Unit {0}) × World
finally_of r (ok u, w) = (r, w)
finally_of r (err e, w) = (err e, w)

-- `try { m } finally { k }`.
unfoldable pub finally : M World (Unit {0}) → M World (Unit {0}) → M World (Unit {0})
unfolding finally_of
finally m k w = finally_of (m w).0 (k (m w).1)

abbrev pub text_eq : Option String → Option String → Bool
text_eq none none = true
text_eq (some a) (some b) = a == b
text_eq _ _ = false

abbrev pub action_eq : Action → Action → Bool
action_eq created created = true
action_eq resumed resumed = true
action_eq not_created not_created = true
action_eq _ _ = false

abbrev pub bool_eq : Bool → Bool → Bool
bool_eq true true = true
bool_eq false false = true
bool_eq _ _ = false

-- `jsonEquivalent` on two records of a run, and on two manifests.
unfoldable pub same_record : SessionRunRecord → SessionRunRecord → Bool
same_record a b =
    a.run_id == b.run_id
    && nat_eq a.sequence b.sequence
    && a.started_at == b.started_at
    && a.finished_at == b.finished_at
    && action_eq a.action b.action
    && text_eq a.subagent_session_id b.subagent_session_id
    && text_eq a.attempt_subagent_session_id b.attempt_subagent_session_id
    && a.output_reference == b.output_reference
    && bool_eq a.success b.success
    && a.details == b.details

unfoldable pub same_manifest : SessionManifest → SessionManifest → Bool
same_manifest a b =
    a.session_key == b.session_key
    && a.cwd == b.cwd
    && text_eq a.skill b.skill
    && text_eq a.initial_model_class b.initial_model_class
    && a.subagent_session_id == b.subagent_session_id
    && a.created_at == b.created_at
    && a.last_run_at == b.last_run_at
    && nat_eq a.run_count b.run_count
    && a.last_output_reference == b.last_output_reference
