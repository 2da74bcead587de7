-- ===== src/ClientStart/Admission.antt =====
-- src/clientStartAdmission.ts: claiming a start id, finding its admission, containing it, and the
-- guard before a child is launched. The directory of records is a function from file names.
pub mod Changes
pub mod Histories
pub mod Claiming
pub mod Identity
pub mod Launch
mod Tests
use Prim.Native.String.{◌++◌ as str_append}
use subagent.Common.{
  ℕ, Bool, true, false, ◌&&◌, Option, none, some, List, [], ◌∷◌, ◌++◌, String, ◌==◌, leb,
  if◌then◌else◌, codes, length, all, is_alnum, is_id_char, Result, ok, err, Failure, validation,
  enoent, thrown, FailureReasonCode,
}
use subagent.Common.Json.{Json, obj, get, as_str, remove, canonical_value, canonical_json}
use subagent.Common.State.{M, ◌>>=◌, ◌>>◌, return, fail, lift, guard}
use subagent.ClientStart.Records.{
  Platform, ClientStartBinding, PersistedBinding, PersistedRecord, bound, fence,
  validate_persisted_record, encode,
}

-- A file holds JSON, or bytes that do not parse or cannot be read.
pub data Content : Type 0 where
  json : Json → Content
  unreadable : Content

abbrev pub Disk : Type 0
Disk = String → Option Content

abbrev pub put : Disk → String → Content → Disk
put d path c other = if other == path then some c else d other

-- What a call meets outside this module. The lock of `withRunClaimLock` is not obtained, held, or
-- found changed at its release: another call was inside it meanwhile, and what this call and that
-- one leave together is any directory, which the outcome gives. A replacement is written, fails
-- before its rename, or fails after.
pub data LockOutcome : Type 0 where
  busy held : LockOutcome
  lost : (Disk → Disk) → LockOutcome

pub data WriteOutcome : Type 0 where
  written failed unconfirmed : WriteOutcome

pub record Moment : Type 0 where
  pub now : String
  pub new_run_id : String
  pub pid : ℕ
  pub instance_id : String
  pub directory : Bool
  pub lock : LockOutcome
  pub write : WriteOutcome

pub record Candidate : Type 0 where
  pub run_id : String
  pub admitted_at : String

pub record ClientStartAdmission : Type 0 where
  pub binding : ClientStartBinding
  pub admitted_at : String
  pub created : Bool
  pub owner_pid : ℕ
  pub owner_instance_id : String
  pub cancellation_requested_at : Option String

pub data Disposition : Type 0 where
  fenced : String → String → Disposition
  bound_to : ClientStartAdmission → Disposition
  unknown : String → Disposition

abbrev pub conflict : Failure
conflict = validation FailureReasonCode.client_start_id_conflict

abbrev pub is_fenced : Failure
is_fenced = validation FailureReasonCode.client_start_id_fenced

abbrev pub liveness_unknown : Failure
liveness_unknown = validation FailureReasonCode.run_liveness_unknown

-- `CLIENT_START_ID_PATTERN`.
id_chars : List ℕ → Bool
id_chars [] = false
id_chars (c ∷ s) = is_alnum c && (leb (length s) 199 && all is_id_char s)

unfoldable pub valid_client_start_id : String → Bool
unfolding id_chars
valid_client_start_id id = id_chars (codes id)

validate_client_start_id : String → M Disk (Unit {0})
validate_client_start_id id = guard (valid_client_start_id id) conflict

pub binding_path : Platform → String → String
binding_path p id = str_append (p.sha256 (codes id)) ".json"

without_id : Json → Json
without_id (obj fs) = obj (remove "client_start_id" fs)
without_id v = v

-- The hash of the validated request without its id; a request that the schema refuses throws.
digest_of : Platform → Option Json → Result String
digest_of p none = err thrown
digest_of p (some parsed) = ok (
    p.sha256 (
      codes "subagent007.client_start_request.v1\n"
      ++ canonical_json (canonical_value (without_id parsed))))

pub canonical_client_start_request_sha256 : Platform → Json → Result String
unfolding digest_of without_id
canonical_client_start_request_sha256 p request = digest_of p (p.parse_request request)

pub read_content : Platform → String → Option Content → Result PersistedRecord
read_content p id none = err enoent
read_content p id (some unreadable) = err conflict
read_content p id (some (json v)) = validate_persisted_record p v id

unfoldable pub read_record : Platform → String → Disk → Result PersistedRecord
unfolding read_content
read_record p id d = read_content p id (d (binding_path p id))

-- Which results of a read are the absence of the file.
pub data Reading : Type 0 where
  found : PersistedRecord → Reading
  absent : Reading
  refused : Failure → Reading

unfoldable pub reading : Result PersistedRecord → Reading
reading (ok r) = found r
reading (err enoent) = absent
reading (err e) = refused e

pub write_as : WriteOutcome → String → PersistedRecord → M Disk (Unit {0})
write_as written path r d = (ok tt, put d path (json (encode r)))
write_as failed path r d = (err thrown, d)
write_as unconfirmed path r d = (err thrown, put d path (json (encode r)))

pub write_replacement : Moment → String → PersistedRecord → M Disk (Unit {0})
unfolding write_as
write_replacement m path r = write_as m.write path r

pub locked {ℓ} : {A : Type ℓ} → LockOutcome → M Disk A → M Disk A
locked busy op d = (err liveness_unknown, d)
locked held op d = op d
locked (lost others) op d = (err liveness_unknown, others (op d).1)

with_admission_lock {ℓ} : {A : Type ℓ} → Moment → M Disk A → M Disk A
unfolding locked
with_admission_lock m op = locked m.lock op

require_binding : PersistedRecord → Result PersistedBinding
require_binding (bound b) = ok b
require_binding (fence id at) = err is_fenced

unfoldable pub admission_from_record : PersistedBinding → Bool → ClientStartAdmission
admission_from_record b created = record {
  binding = b.binding;
  admitted_at = b.admitted_at;
  created = created;
  owner_pid = b.owner_pid;
  owner_instance_id = b.owner_instance_id;
  cancellation_requested_at = b.cancellation_requested_at;
}

-- The record that a claim writes if the id is free.
pub new_binding : Moment → Option Candidate → String → String → PersistedBinding
new_binding m candidate id sha = record {
  binding = record {
    client_start_id = id;
    request_sha256 = sha;
    run_id = elim candidate [ none ↦ m.new_run_id | some c ↦ c.run_id ];
  };
  admitted_at = elim candidate [ none ↦ m.now | some c ↦ c.admitted_at ];
  owner_pid = m.pid;
  owner_instance_id = m.instance_id;
  cancellation_requested_at = none;
}

-- An admission for the same request, or the conflict.
same_request : String → Bool → PersistedBinding → Result ClientStartAdmission
same_request sha created b =
    if b.request_sha256 == sha then ok (admission_from_record b created) else err conflict

same_request_of : String → PersistedRecord → Result ClientStartAdmission
same_request_of sha (bound b) = same_request sha false b
same_request_of sha (fence id at) = err is_fenced

claim_reading : Moment → String → String → PersistedBinding → Reading → M Disk ClientStartAdmission
claim_reading m path sha b (found r) = lift (same_request_of sha r)
claim_reading m path sha b absent = do
  write_replacement m path (bound b)
  lift (same_request sha true b)
claim_reading m path sha b (refused e) = fail e

claim_locked : Platform → Moment → String → String → PersistedBinding → M Disk ClientStartAdmission
unfolding reading same_request same_request_of claim_reading
claim_locked p m id sha b d =
    claim_reading m (binding_path p id) sha b (reading (read_record p id d)) d

claim_id :
    Platform → Moment → Json → Option Candidate → String → M Disk (Option ClientStartAdmission)
unfolding validate_client_start_id
claim_id p m request candidate id = do
  validate_client_start_id id
  sha ← lift (canonical_client_start_request_sha256 p request)
  guard m.directory thrown
  admission ← with_admission_lock m (claim_locked p m id sha (new_binding m candidate id sha))
  return (some admission)

claim_if :
    Platform
    → Moment
    → Json
    → Option Candidate
    → Option String
    → M Disk (Option ClientStartAdmission)
claim_if p m request candidate none = return none
claim_if p m request candidate (some id) = claim_id p m request candidate id

-- `claimClientStartAdmission`.
pub claim_client_start_admission :
    Platform → Moment → Json → Option Candidate → M Disk (Option ClientStartAdmission)
unfolding claim_if claim_id
claim_client_start_admission p m request candidate =
    claim_if p m request candidate (as_str (get "client_start_id" request))

find_reading : Platform → Json → Reading → Result (Option ClientStartAdmission)
find_reading p request (found (fence id at)) = err is_fenced
find_reading p request (found (bound b)) = elim (canonical_client_start_request_sha256 p request) [
  | ok sha ↦ elim (same_request sha false b) [ ok a ↦ ok (some a) | err e ↦ err e ]
  | err e ↦ err e
]
find_reading p request absent = ok none
find_reading p request (refused e) = err e

find_if : Platform → Json → Option String → M Disk (Option ClientStartAdmission)
unfolding validate_client_start_id find_reading same_request reading
find_if p request none = return none
find_if p request (some id) = do
  validate_client_start_id id
  λ d. (find_reading p request (reading (read_record p id d)), d)

-- `findClientStartAdmission`: both attempts of its loop read the same directory here.
pub find_client_start_admission : Platform → Json → M Disk (Option ClientStartAdmission)
unfolding find_if
find_client_start_admission p request = find_if p request (as_str (get "client_start_id" request))

contain_bound : Moment → String → PersistedBinding → Option String → M Disk Disposition
contain_bound m path b none = do
  write_replacement m path (bound (record b { cancellation_requested_at = some m.now }))
  return
      (bound_to (admission_from_record (record b { cancellation_requested_at = some m.now }) false))
contain_bound m path b (some at) = return (bound_to (admission_from_record b false))

contain_record : Moment → String → PersistedRecord → M Disk Disposition
contain_record m path (fence id at) = return (fenced id at)
contain_record m path (bound b) = contain_bound m path b b.cancellation_requested_at

contain_reading : Moment → String → String → Reading → M Disk Disposition
contain_reading m path id (found r) = contain_record m path r
contain_reading m path id absent = do
  write_replacement m path (fence id m.now)
  return (fenced id m.now)
contain_reading m path id (refused e) = fail e

contain_locked : Platform → Moment → String → M Disk Disposition
unfolding contain_record contain_bound contain_reading reading
contain_locked p m id d = contain_reading m (binding_path p id) id (reading (read_record p id d)) d

contain : Platform → Moment → String → M Disk Disposition
unfolding contain_locked
contain p m id = with_admission_lock m (do guard m.directory thrown; contain_locked p m id)

-- The `catch` of the containment: whatever was thrown, the disposition is unknown.
or_unknown : String → Result Disposition × Disk → Result Disposition × Disk
or_unknown id (ok r, d) = (ok r, d)
or_unknown id (err e, d) = (ok (unknown id), d)

-- `requestClientStartContainment`.
pub request_client_start_containment : Platform → Moment → String → M Disk Disposition
unfolding validate_client_start_id or_unknown contain
request_client_start_containment p m id = do
  validate_client_start_id id
  λ d. or_unknown id (contain p m id d)

same_binding : ClientStartBinding → PersistedBinding → Bool
same_binding b stored = stored.request_sha256 == b.request_sha256 && stored.run_id == b.run_id

launch_bound : Option String → Result (Unit {0})
launch_bound none = ok tt
launch_bound (some at) = err is_fenced

launch_allowed : ClientStartBinding → PersistedRecord → Result (Unit {0})
launch_allowed b (fence id at) = err is_fenced
launch_allowed b (bound stored) =
    if same_binding b stored then launch_bound stored.cancellation_requested_at else err conflict

launch_reading : ClientStartBinding → Result PersistedRecord → Result (Unit {0})
launch_reading b (ok r) = launch_allowed b r
launch_reading b (err e) = err e

-- `withClientStartLaunchGuard`: the operation runs under the lock, after the checks.
pub with_client_start_launch_guard {ℓ} :
    {A : Type ℓ} → Platform → Moment → ClientStartBinding → M Disk A → M Disk A
unfolding same_binding launch_allowed launch_bound launch_reading
with_client_start_launch_guard p m b operation =
    with_admission_lock m
      (do (λ d. (launch_reading b (read_record p b.client_start_id d), d)); operation)

resolve_reading : ClientStartBinding → Result PersistedRecord → Result ClientStartAdmission
resolve_reading b (err e) = err e
resolve_reading b (ok (fence id at)) = err is_fenced
resolve_reading b (ok (bound stored)) =
    if same_binding b stored then ok (admission_from_record stored false) else err conflict

-- `resolveClientStartAdmissionBinding`.
pub resolve_client_start_admission_binding :
    Platform → ClientStartBinding → M Disk ClientStartAdmission
unfolding resolve_reading same_binding
resolve_client_start_admission_binding p b d =
    (resolve_reading b (read_record p b.client_start_id d), d)
