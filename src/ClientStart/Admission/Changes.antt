-- ===== src/ClientStart/Admission/Changes.antt =====
-- src/clientStartAdmission.ts: what one call may write. A file is written only where the id had
-- none, or to mark its own binding as cancelled.
use subagent.Common.{
  ◌≡◌, refl, Bool, true, false, Option, none, some, String, Result, ok, err, thrown, Failure,
}
use subagent.Common.Json.{Json, get, as_str}
use subagent.Common.State.{M, bind, guard, lift}
use subagent.ClientStart.Records.{Platform, PersistedBinding, PersistedRecord, bound, fence, encode}
use subagent.ClientStart.Admission.{
  Disk, put, json, Moment, LockOutcome, busy, held, lost, WriteOutcome, written, failed,
  unconfirmed, Candidate, Reading, found, absent, refused, reading, read_record, binding_path,
  new_binding, write_as, write_replacement, locked, with_admission_lock, claim_reading,
  claim_locked, claim_id, claim_client_start_admission, Disposition, contain_record, contain_bound,
  valid_client_start_id, validate_client_start_id, conflict, canonical_client_start_request_sha256,
  contain_reading, contain, or_unknown, request_client_start_containment,
}

-- What the file of an id holds for that id.
abbrev pub slot : Platform → String → Disk → Reading
slot p id d = reading (read_record p id d)

abbrev pub cancel : PersistedBinding → String → PersistedBinding
cancel b at = record b { cancellation_requested_at = some at }

-- The lock was not found changed at its release.
abbrev pub IsKept : LockOutcome → Type 0
IsKept busy = Unit
IsKept held = Unit
IsKept (lost others) = ⊥

-- What a call about `id` at moment `m` may do to the directory.
pub data Change (p : Platform) (m : Moment) (id : String) (d : Disk) : Disk → Type 0 where
  unchanged : Change p m id d d
  created :
      (r : PersistedRecord)
      → slot p id d ≡ absent
      → Change p m id d (put d (binding_path p id) (json (encode r)))
  cancelled :
      (b : PersistedBinding)
      → slot p id d ≡ found (bound b)
      → b.cancellation_requested_at ≡ none
      → Change p m id d (put d (binding_path p id) (json (encode (bound (cancel b m.now)))))

bind-kept {ℓ κ} :
    {A : Type ℓ} {B : Type κ} (P : Disk → Type 0) (x : Result A × Disk) (f : A → M Disk B)
    → P x.1
    → ((a : A) → P (f a x.1).1)
    → P (bind x f).1
bind-kept P (ok a, s) f h k = k a
bind-kept P (err e, s) f h k = h

locked-kept {ℓ} :
    {A : Type ℓ} (P : Disk → Type 0) (l : LockOutcome) (op : M Disk A) (d : Disk)
    → IsKept l
    → P d
    → P (op d).1
    → P (locked l op d).1
unfolding locked
locked-kept P busy op d in_turn h k = h
locked-kept P held op d in_turn h k = k
locked-kept P (lost others) op d in_turn h k = absurd in_turn

write_as-kept :
    (P : Disk → Type 0) (w : WriteOutcome) (path : String) (r : PersistedRecord) (d : Disk)
    → P d
    → P (put d path (json (encode r)))
    → P (write_as w path r d).1
unfolding write_as
write_as-kept P written path r d h k = k
write_as-kept P failed path r d h k = h
write_as-kept P unconfirmed path r d h k = k

-- The same where the first part leaves the state alone.
bind-from {ℓ κ} :
    {A : Type ℓ} {B : Type κ} (P : Disk → Type 0) (d : Disk) (x : Result A × Disk)
    (f : A → M Disk B)
    → x.1 ≡ d
    → P d
    → ((a : A) → P (f a d).1)
    → P (bind x f).1
bind-from P d (ok a, s) f e h k = rw e (k a)
bind-from P d (err x, s) f e h k = rw e h

guard-state : (t : Bool) (e : Failure) (d : Disk) → (guard t e d).1 ≡ d
guard-state true e d = refl
guard-state false e d = refl

module _ (p : Platform) (m : Moment) (id : String) (d : Disk) where
  claim_reading-Change :
      (sha : String) (b : PersistedBinding) (r : Reading)
      → slot p id d ≡ r
      → Change p m id d (claim_reading m (binding_path p id) sha b r d).1
  unfolding claim_reading write_replacement
  claim_reading-Change sha b (found r) e = unchanged
  claim_reading-Change sha b absent e =
      bind-kept (Change p m id d) (write_as m.write (binding_path p id) (bound b) d) _
        (write_as-kept (Change p m id d) m.write _ (bound b) d unchanged (created (bound b) e))
        (λ a. write_as-kept (Change p m id d) m.write _ (bound b) d unchanged (created (bound b) e))
  claim_reading-Change sha b (refused x) e = unchanged

  contain_bound-Change :
      (b : PersistedBinding) (c : Option String)
      → b.cancellation_requested_at ≡ c
      → slot p id d ≡ found (bound b)
      → Change p m id d (contain_bound m (binding_path p id) b c d).1
  unfolding contain_bound write_replacement
  contain_bound-Change b none e s =
      bind-kept (Change p m id d) (write_as m.write (binding_path p id) _ d) _
        (write_as-kept (Change p m id d) m.write _ _ d unchanged (cancelled b s e))
        (λ a. write_as-kept (Change p m id d) m.write _ _ d unchanged (cancelled b s e))
  contain_bound-Change b (some at) e s = unchanged

  contain_reading-Change :
      (r : Reading)
      → slot p id d ≡ r
      → Change p m id d (contain_reading m (binding_path p id) id r d).1
  unfolding contain_reading contain_record write_replacement
  contain_reading-Change (found (bound b)) e = contain_bound-Change b _ refl e
  contain_reading-Change (found (fence i at)) e = unchanged
  contain_reading-Change absent e =
      bind-kept (Change p m id d) (write_as m.write (binding_path p id) _ d) _
        (write_as-kept (Change p m id d) m.write _ _ d unchanged (created (fence id m.now) e))
        (λ a. write_as-kept (Change p m id d) m.write _ _ d unchanged (created (fence id m.now) e))
  contain_reading-Change (refused x) e = unchanged

  claim_locked-Change :
      (sha : String) (b : PersistedBinding) → Change p m id d (claim_locked p m id sha b d).1
  unfolding claim_locked
  claim_locked-Change sha b = claim_reading-Change sha b (slot p id d) refl

  claim_id-Change :
      (request : Json) (c : Option Candidate)
      → IsKept m.lock
      → Change p m id d (claim_id p m request c id d).1
  unfolding claim_id with_admission_lock validate_client_start_id
  claim_id-Change request c in_turn =
      bind-from P d (guard (valid_client_start_id id) conflict d) _ (guard-state _ _ d) unchanged
        λ _.
          bind-from P d (lift (canonical_client_start_request_sha256 p request) d) _ refl unchanged
            λ sha.
              bind-from P d (guard m.directory thrown d) _ (guard-state _ _ d) unchanged
                λ _. bind-kept P (locked m.lock _ d) _ (kept sha) (λ a. kept sha)
    where
      P : Disk → Type 0
      P s = Change p m id d s

      kept :
          (sha : String) → P (locked m.lock (claim_locked p m id sha (new_binding m c id sha)) d).1
      kept sha =
          locked-kept P m.lock _ d in_turn unchanged
            (claim_locked-Change sha (new_binding m c id sha))

  -- A claim whose lock is kept changes at most its own id's file.
  pub claim-Change :
      (request : Json) (c : Option Candidate)
      → IsKept m.lock
      → as_str (get "client_start_id" request) ≡ some id
      → Change p m id d (claim_client_start_admission p m request c d).1
  unfolding claim_client_start_admission
  claim-Change request c in_turn e =
      rw (e, claim_client_start_admission) (claim_id-Change request c in_turn)

  contain-Change : IsKept m.lock → Change p m id d (contain p m id d).1
  unfolding contain with_admission_lock
  contain-Change in_turn = locked-kept (Change p m id d) m.lock _ d in_turn unchanged (
      bind-from (Change p m id d) d (guard m.directory thrown d) _ (guard-state _ _ d) unchanged
        λ _. contain_reading-Change (slot p id d) refl)

  or_unknown-kept :
      (P : Disk → Type 0) (x : Result Disposition × Disk) → P x.1 → P (or_unknown id x).1
  unfolding or_unknown
  or_unknown-kept P (ok r, s) h = h
  or_unknown-kept P (err e, s) h = h

  -- So does a containment.
  pub containment-Change :
      IsKept m.lock → Change p m id d (request_client_start_containment p m id d).1
  unfolding request_client_start_containment validate_client_start_id
  containment-Change in_turn =
      bind-from (Change p m id d) d (guard (valid_client_start_id id) conflict d) _
        (guard-state _ _ d) unchanged
        (λ _. or_unknown-kept (Change p m id d) (contain p m id d) (contain-Change in_turn))
