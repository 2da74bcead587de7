-- ===== src/Session/Tests.antt =====
-- A session on a small disk: its commit, its runs, and what it refuses.
use subagent.Common.{
  is_hex, ℕ, String, ◌==◌, true, Option, none, some, [], ◌∷◌, if◌then◌else◌, ok, arith, ◌≡◌, ◌⊎◌,
  ◌↔◌, refl, sym, ap,
}
use subagent.Session.{
  created, SessionManifest, SessionRunRecord, PendingSessionCommit, SessionDir, World, Platform,
}
use subagent.Session.Commit.{find_record, CommitOptions, prepared, recover, commit_attempt_session}
use subagent.Session.Recovery.{IsLaidOut, IsDone}
use subagent.Session.Recovery.Crash.{recoveries, commit_or_nothing, commit_succeeds}
use subagent.Session.Request.{resume_or_new, no_packet, missing, SessionRequest, admit_request}
use subagent.Session.Request.Decision.{IsAdmitted, admit_request_iff}
use subagent.Session.Run.{Child, reconcile_manifest_with_ledger}
use subagent.Session.Ledger.{IsConsistent}
use subagent.Session.Ledger.Reconcile.{IsReconciled, reconcile-IsReconciled}
use subagent.Session.{staged_path, staged_name, is_inside, attempt_directory, run_id_of}
use subagent.Session.Posix.{posix}
use subagent.Session.Ledger.Posix.{posix-IsPlatform}
use subagent.Session.Ledger.Histories.{RunStep, run_all, IsReporting, histories-IsConsistent}

abbrev disk : Platform
disk = posix

abbrev attempt : String
attempt = "/s/attempt-pi-sessions/1-0123456789ab/file"

abbrev session_file : String
session_file = "/s/pi-session/file"

abbrev run_record : SessionRunRecord
run_record = record {
  run_id = "1-0123456789ab";
  sequence = 1;
  started_at = "t0";
  finished_at = "t1";
  action = created;
  subagent_session_id = some session_file;
  attempt_subagent_session_id = some attempt;
  output_reference = "out";
  success = true;
  details = "";
}

abbrev stored : SessionManifest
stored = record {
  session_key = "key";
  cwd = "/work";
  skill = none;
  initial_model_class = some "large";
  subagent_session_id = session_file;
  created_at = "t0";
  last_run_at = "t1";
  run_count = 1;
  last_output_reference = "out";
}

abbrev options : CommitOptions
options = record {
  attempt_subagent_session_id = attempt;
  run_record = run_record;
  next_manifest = stored;
}

abbrev files : String → Option String
files q = if q == attempt then some "text" else none

abbrev before : SessionDir
before = record { files = files; pending = none; ledger = []; manifest = none; attempts = [] }

prepared-IsLaidOut : IsLaidOut disk (prepared disk options "text" before)
unfolding prepared staged_path staged_name is_inside
prepared-IsLaidOut = record {
  canonical_staged = refl;
  attempt_staged = refl;
  attempt_canonical = refl;
  kept = refl;
  inside = refl;
}

-- Cut off after three writes, then twice more.
commit_or_nothing_example :
    (recoveries disk
        (2 ∷ 3 ∷ 10 ∷ [])
        (commit_attempt_session disk options (record { dir = before; writes = 3 })).1.dir
      ≡ before)
    ⊎ IsDone disk (prepared disk options "text" before) [] none (
        recoveries disk
          (2 ∷ 3 ∷ 10 ∷ [])
          (commit_attempt_session disk options (record { dir = before; writes = 3 })).1.dir)
unfolding find_record
commit_or_nothing_example =
    commit_or_nothing disk options "text" before refl refl prepared-IsLaidOut 3 (2 ∷ 3 ∷ []) 10 refl
      (omega arith)

commit_succeeds_example :
    ((commit_attempt_session disk options (record { dir = before; writes = 11 })).0 ≡ ok tt)
    × IsDone disk
        (prepared disk options "text" before)
        []
        none
        (commit_attempt_session disk options (record { dir = before; writes = 11 })).1.dir
unfolding find_record
commit_succeeds_example =
    commit_succeeds disk options "text" before refl refl prepared-IsLaidOut 11 (omega arith)

-- A canonical file that another program has written.
abbrev pending_commit : PendingSessionCommit
pending_commit = record {
  attempt_subagent_session_id = attempt;
  predecessor_sha256 = none;
  successor_sha256 = "text";
  run_record = run_record;
  next_manifest = stored;
}

abbrev request : SessionRequest
request = record {
  session_key = "key";
  cwd = "/work";
  skill = none;
  model_class = "large";
  resume_mode = resume_or_new;
  packet_policy = no_packet;
}

admit_request_iff_example :
    (admit_request (some stored) request ≡ ok tt) ↔ IsAdmitted (some stored) request
admit_request_iff_example = admit_request_iff (some stored) request

-- A manifest that counts one run of two.
abbrev ahead : World
ahead = record {
  dir = record before { ledger = run_record ∷ run_record ∷ []; manifest = some stored };
  writes = 1;
}

reconcile-IsReconciled_example :
    IsReconciled stored ahead (reconcile_manifest_with_ledger stored ahead)
reconcile-IsReconciled_example = reconcile-IsReconciled stored ahead refl

abbrev child : Child
child manifest d = record {
  session_id = some attempt;
  success = true;
  packet_status = missing;
  packet = none;
  output_reference = "out";
  finished_at = "t1";
  details = "";
  files = λ q. if q == attempt then some "text" else d.files q;
}

abbrev run_step : ℕ → RunStep
run_step n = record {
  request = request;
  launch = record { nonce = "0123456789ab"; started_at = "t0" };
  child = child;
  writes = n;
}

is_reported : (n : ℕ) → IsReporting disk posix-IsPlatform (run_step n)
unfolding attempt_directory run_id_of is_hex
is_reported n = (refl, λ d s h. ("file", refl, sym (ap text_of h)))
  where
    text_of : Option String → String
    text_of none = ""
    text_of (some t) = t

-- A run that is done, one that is cut off, and one more.
histories-IsConsistent_example :
    ((recover disk (record {
      dir = run_all disk (run_step 20 ∷ run_step 4 ∷ run_step 20 ∷ []) before;
      writes = 10;
    })).1.dir.pending
      ≡ none)
    × IsConsistent disk
        (recover disk (record {
          dir = run_all disk (run_step 20 ∷ run_step 4 ∷ run_step 20 ∷ []) before;
          writes = 10;
        })).1.dir.ledger
        (recover disk (record {
          dir = run_all disk (run_step 20 ∷ run_step 4 ∷ run_step 20 ∷ []) before;
          writes = 10;
        })).1.dir.manifest
histories-IsConsistent_example =
    histories-IsConsistent disk posix-IsPlatform (run_step 20 ∷ run_step 4 ∷ run_step 20 ∷ [])
      before 10 (is_reported 20, (is_reported 4, (is_reported 20, tt))) refl refl (omega arith)
