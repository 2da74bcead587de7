-- ===== src/Session/Run.antt =====
-- src/session.ts: a run of a session under its lock.
use subagent.Common.{
  ℕ, ◌+◌, String, ◌==◌, Bool, true, false, not, ◌&&◌, Option, none, some, List, [], ◌∷◌, ◌++◌,
  length, nat_eq, ltb, if◌then◌else◌, ok, err,
}
use subagent.Common.State.{M, bind, ◌>>=◌, ◌>>◌, return, lift}
use subagent.Session.{
  attempt_path, canonical_path, attempt_directory, stands_in_attempt, run_id_of, Action, created,
  resumed, not_created, SessionManifest, SessionRunRecord, SessionDir, World, Platform,
  PendingSessionCommit, write, finally,
}
use subagent.Session.Commit.{ledger_invalid, is_inside_both, recover, commit_attempt_session}
use subagent.Session.Request.{
  SessionRequest, PacketParseStatus, ContractPacket, packet_satisfied, admit_request,
}

-- The random part of a run id, and the time at the start.
pub record Launch : Type 0 where
  pub nonce : String
  pub started_at : String

-- What `runSubagentCore` gives back, with the files as the copy of the session and the child leave
-- them and the packet that is found in the output.
pub record ChildResult : Type 0 where
  pub session_id : Option String
  pub success : Bool
  pub packet_status : PacketParseStatus
  pub packet : Option ContractPacket
  pub output_reference : String
  pub finished_at : String
  pub details : String
  pub files : String → Option String

abbrev pub Child : Type 0
Child = Option SessionManifest → SessionDir → ChildResult

abbrev pub last_of {ℓ} : {A : Type ℓ} → List A → Option A
last_of [] = none
last_of (x ∷ []) = some x
last_of (x ∷ y ∷ ys) = last_of (y ∷ ys)

abbrev pub is_not_created : Action → Bool
is_not_created not_created = true
is_not_created _ = false

-- A text that JavaScript takes for true.
abbrev pub is_filled : Option String → Bool
is_filled none = false
is_filled (some s) = not (s == "")

abbrev pub is_other_session : Option String → String → Bool
is_other_session none id = false
is_other_session (some s) id = not (s == "") && not (s == id)

unfoldable pub reconciled :
    SessionManifest → List SessionRunRecord → SessionRunRecord → SessionManifest
reconciled m records last = record m {
  run_count = length records;
  last_run_at = last.finished_at;
  last_output_reference = last.output_reference;
}

unfoldable pub reconcile_last :
    SessionManifest
    → List SessionRunRecord
    → Option SessionRunRecord
    → M World (Option SessionManifest)
reconcile_last m records none w = (err ledger_invalid, w)
reconcile_last m records (some last) w =
    if is_not_created last.action
    then (err ledger_invalid, w)
    else if is_other_session last.subagent_session_id m.subagent_session_id
    then (err ledger_invalid, w)
    else bind (write (λ d. record d { manifest = some (reconciled m records last) }) w)
        (λ _. return (some (reconciled m records last)))

unfoldable pub reconcile_manifest_with_ledger : SessionManifest → M World (Option SessionManifest)
reconcile_manifest_with_ledger m w =
    if nat_eq (length w.dir.ledger) m.run_count
    then (ok (some m), w)
    else if ltb (length w.dir.ledger) m.run_count
    then (err ledger_invalid, w)
    else reconcile_last m w.dir.ledger (last_of w.dir.ledger) w

abbrev pub reconcile_from : Option SessionManifest → M World (Option SessionManifest)
reconcile_from none w = (ok none, w)
reconcile_from (some m) w = reconcile_manifest_with_ledger m w

unfoldable pub reconcile : M World (Option SessionManifest)
reconcile w = reconcile_from w.dir.manifest w

abbrev pub sequence_of : Option SessionManifest → ℕ
sequence_of none = 1
sequence_of (some m) = m.run_count + 1

-- The session file of the attempt: the copy that a resumed run is given, or the one that the child
-- of a new session reports.
abbrev pub attempt_id : Platform → Option SessionManifest → String → ChildResult → Option String
attempt_id p none run_id child = child.session_id
attempt_id p (some m) run_id child = some (attempt_path p run_id m.subagent_session_id)

abbrev pub is_established : Option String → Bool
is_established none = false
is_established (some s) = true

unfoldable pub is_session_success : SessionRequest → ChildResult → Option String → Bool
is_session_success q child attempt =
    child.success
    && is_established attempt
    && packet_satisfied q.packet_policy child.packet_status child.packet

abbrev pub new_id : Platform → Bool → Option String → Option String
new_id p success none = none
new_id p success (some a) = if success && not (a == "") then some (canonical_path p a) else none

abbrev pub committed_id : Platform → Bool → Option SessionManifest → Option String → Option String
committed_id p success none attempt = new_id p success attempt
committed_id p success (some m) attempt = some m.subagent_session_id

abbrev pub action_of : Bool → Option SessionManifest → Action
action_of false manifest = not_created
action_of true none = created
action_of true (some m) = resumed

abbrev pub id_of : Option SessionManifest → Option String
id_of none = none
id_of (some m) = some m.subagent_session_id

unfoldable pub run_record_of :
    Platform
    → SessionRequest
    → Launch
    → ChildResult
    → Option SessionManifest
    → String
    → SessionRunRecord
run_record_of p q launch child manifest run_id =
    let attempt = attempt_id p manifest run_id child in
    let success = is_session_success q child attempt in
    record {
      run_id = run_id;
      sequence = sequence_of manifest;
      started_at = launch.started_at;
      finished_at = child.finished_at;
      action = action_of success manifest;
      subagent_session_id =
          if success then committed_id p success manifest attempt else id_of manifest;
      attempt_subagent_session_id = attempt;
      output_reference = child.output_reference;
      success = success;
      details = child.details;
    }

abbrev pub initial_class_of : Option SessionManifest → String → Option String
initial_class_of none model_class = some model_class
initial_class_of (some m) model_class = class_or m.initial_model_class
  where
    class_or : Option String → Option String
    class_or none = some model_class
    class_or (some c) = some c

abbrev pub created_of : Option SessionManifest → String → String
created_of none started_at = started_at
created_of (some m) started_at = m.created_at

unfoldable pub next_manifest_of :
    SessionRequest → Launch → ChildResult → Option SessionManifest → String → SessionManifest
next_manifest_of q launch child manifest id = record {
  session_key = q.session_key;
  cwd = q.cwd;
  skill = q.skill;
  initial_model_class = initial_class_of manifest q.model_class;
  subagent_session_id = id;
  created_at = created_of manifest launch.started_at;
  last_run_at = child.finished_at;
  run_count = sequence_of manifest;
  last_output_reference = child.output_reference;
}

-- A run that succeeds is committed; the record of any other goes to the attempts.
unfoldable pub settle_ids :
    Platform
    → SessionRunRecord
    → (String → SessionManifest)
    → Option String
    → Option String
    → M World (Unit {0})
settle_ids p r next (some id) (some attempt) w =
    if r.success && not (id == "") && not (attempt == "")
    then commit_attempt_session p
        (record { attempt_subagent_session_id = attempt; run_record = r; next_manifest = next id })
        w
    else write (λ d. record d { attempts = d.attempts ++ r ∷ [] }) w
settle_ids p r next none attempt w = write (λ d. record d { attempts = d.attempts ++ r ∷ [] }) w
settle_ids p r next (some id) none w = write (λ d. record d { attempts = d.attempts ++ r ∷ [] }) w

unfoldable pub settle_run :
    Platform
    → SessionRequest
    → Launch
    → ChildResult
    → Option SessionManifest
    → String
    → M World (Unit {0})
settle_run p q launch child manifest run_id =
    let attempt = attempt_id p manifest run_id child in
    settle_ids p (run_record_of p q launch child manifest run_id)
      (next_manifest_of q launch child manifest)
      (committed_id p (is_session_success q child attempt) manifest attempt) attempt

unfoldable pub run_attempt :
    Platform
    → SessionRequest
    → Launch
    → Child
    → Option SessionManifest
    → String
    → M World (Unit {0})
run_attempt p q launch child manifest run_id w =
    bind (write (λ d. record d { files = (child manifest w.dir).files }) w)
      (λ _. settle_run p q launch (child manifest w.dir) manifest run_id)

abbrev pub remove_attempt : Platform → String → SessionDir → SessionDir
remove_attempt p run_id d = record d {
  files = λ q. if p.is_under q (attempt_directory p run_id) then none else d.files q;
}

-- Whether the directory of the attempt is removed at the end: not while a commit needs it, and not
-- where the pending commit cannot be read.
abbrev pub is_cleaned : Platform → String → Option PendingSessionCommit → Bool
is_cleaned p run_id none = true
is_cleaned p run_id (some c) =
    is_inside_both p c && not (stands_in_attempt p c.attempt_subagent_session_id run_id)

unfoldable pub clean_attempt : Platform → String → M World (Unit {0})
clean_attempt p run_id w =
    if is_cleaned p run_id w.dir.pending then write (remove_attempt p run_id) w else (ok tt, w)

unfoldable pub run_admitted :
    Platform → SessionRequest → Launch → Child → Option SessionManifest → M World (Unit {0})
run_admitted p q launch child manifest =
    let run_id = run_id_of p (sequence_of manifest) launch.nonce in
    finally (run_attempt p q launch child manifest run_id) (clean_attempt p run_id)

-- What `runSubagentSession` does between taking its lock and releasing it.
unfoldable pub run_locked : Platform → SessionRequest → Launch → Child → M World (Unit {0})
run_locked p q launch child = do
  recover p
  manifest ← reconcile
  lift (admit_request manifest q)
  run_admitted p q launch child manifest
