-- ===== src/ClientStart/Admission/Tests.antt =====
-- src/clientStartAdmission.ts: runs and instances at concrete inputs.
use subagent.Common.{
  inl, inr, Bool-cases, is_blank, eq_iff, ◌≡◌, ◌≢◌, refl, true, none, some, [], ◌∷◌, String, nat_eq,
  length, if◌then◌else◌, ok, err, arith, is_hex,
}
use subagent.Common.Json.{canonical_json, Json, str, obj, field, end}
use subagent.Common.State.{M, return}
use subagent.ClientStart.Records.{validate_persisted_record, Platform, bound, encode}
use subagent.ClientStart.Records.RoundTrip.{validate-encode}
use subagent.ClientStart.Admission.{
  found, fence, contain, PersistedRecord, PersistedBinding, write_replacement, conflict, reading,
  claim_locked, with_admission_lock, read_record, json, put, valid_client_start_id, new_binding,
  validate_client_start_id, binding_path, admission_from_record, Disk, Moment, held, written,
  ClientStartAdmission, fenced, claim_client_start_admission, canonical_client_start_request_sha256,
  request_client_start_containment, with_client_start_launch_guard,
}
use subagent.ClientStart.Admission.Changes.{slot}
use subagent.ClientStart.Admission.Histories.{Follows, Call, claims, contains, run, run-Follows}
use subagent.ClientStart.Admission.Claiming.{digest-injective, HashIsHex, IsValidMoment}
use subagent.ClientStart.Admission.Identity.{
  claim_replay, changed_reuse_conflicts, one_run_per_id, as_replayed,
}
use subagent.ClientStart.Admission.Launch.{IsRefused, no_launch_after_containment}

abbrev hex_a : String
hex_a = "aaaaaaaaaaaaaaaaaaaaaaaaaaaaaaaaaaaaaaaaaaaaaaaaaaaaaaaaaaaaaaaa"

abbrev hex_b : String
hex_b = "bbbbbbbbbbbbbbbbbbbbbbbbbbbbbbbbbbbbbbbbbbbbbbbbbbbbbbbbbbbbbbbb"

-- A hash of two values, a clock that always parses, and a schema that accepts every request.
abbrev small : Platform
small = record {
  sha256 = λ l. if nat_eq (length l) 50 then hex_a else hex_b;
  date_parses = λ s. true;
  parse_request = λ v. some v;
}

abbrev first : Moment
first = record {
  now = "t1";
  new_run_id = "run-1";
  pid = 7;
  instance_id = "0123456789abcdef01234567";
  directory = true;
  lock = held;
  write = written;
}

abbrev second : Moment
second = record first { now = "t2"; new_run_id = "run-2"; pid = 8 }

abbrev start : String → Json
start prompt = obj (field "client_start_id" (str "start:1") (field "prompt" (str prompt) end))

abbrev empty : Disk
empty path = none

first_admission : ClientStartAdmission
unfolding admission_from_record new_binding
first_admission = admission_from_record (new_binding first none "start:1" hex_a) true

after_claim : Disk
unfolding binding_path new_binding
after_claim =
    put empty (binding_path small "start:1")
      (json (encode (bound (new_binding first none "start:1" hex_a))))

claimed :
    claim_client_start_admission small first (start "p") none empty
    ≡ (ok (some first_admission), after_claim)
unfolding claim_client_start_admission validate_client_start_id valid_client_start_id
    canonical_client_start_request_sha256 canonical_json first_admission after_claim read_record
    with_admission_lock claim_locked reading write_replacement encode
claimed = refl

claims_again : Call
claims_again = claims (start "p") none

small_hashes : HashIsHex small
unfolding is_hex
small_hashes l = elim (Bool-cases (nat_eq (length l) 50)) [ inl e ↦ rw e refl | inr e ↦ rw e refl ]

first_valid : IsValidMoment small first none
unfolding is_hex is_blank
first_valid = record { run = refl; admitted = refl; owner = refl; instance_id = refl }

second_valid : IsValidMoment small second none
unfolding is_hex is_blank
second_valid = record { run = refl; admitted = refl; owner = refl; instance_id = refl }

digest_q : canonical_client_start_request_sha256 small (start "qq") ≡ ok hex_b
unfolding canonical_client_start_request_sha256 canonical_json
digest_q = refl

digest_p : canonical_client_start_request_sha256 small (start "p") ≡ ok hex_a
unfolding canonical_client_start_request_sha256 canonical_json
digest_p = refl

a_ne_b : ◌≢◌ {A = String} hex_a hex_b
a_ne_b = ground (arith, eq_iff hex_a hex_b)

changed_reuse_conflicts_example :
    claim_client_start_admission small second (start "qq") none after_claim
    ≡ (err conflict, after_claim)
changed_reuse_conflicts_example =
    changed_reuse_conflicts small first second (start "p") (start "qq") none none "start:1" hex_b
      empty after_claim first_admission small_hashes first_valid refl refl digest_q
      (λ e. a_ne_b (digest-injective (rw digest_p at e))) refl refl claimed

replayed :
    claim_client_start_admission small second (start "p") none (run small [] after_claim)
    ≡ (ok (some (as_replayed first_admission)), after_claim)
unfolding run
replayed =
    claim_replay small first second (start "p") (start "p") none none "start:1" empty after_claim
      first_admission small_hashes first_valid refl refl refl refl refl claimed

one_run_per_id_example : (as_replayed first_admission).binding ≡ first_admission.binding
one_run_per_id_example =
    one_run_per_id small first second (start "p") (start "p") none none "start:1" empty after_claim
      after_claim first_admission (as_replayed first_admission) [] small_hashes first_valid
      second_valid refl tt refl refl claimed replayed

held_binding : PersistedBinding
unfolding new_binding
held_binding = new_binding first none "start:1" hex_a

held_there : slot small "start:1" after_claim ≡ found (bound held_binding)
unfolding after_claim held_binding validate_persisted_record read_record reading encode is_hex
    is_blank binding_path
held_there = refl

run-Follows_example :
    (r : PersistedRecord) × (slot small "start:1"
        (run small ((second, contains "start:1") ∷ []) after_claim)
      ≡ found r)
    × Follows (bound held_binding) r
run-Follows_example =
    run-Follows small ((second, contains "start:1") ∷ []) after_claim "start:1" (bound held_binding)
      (refl, tt, tt) held_there

abbrev spawn : M Disk (Unit {0})
spawn = return tt

-- The guard runs its operation where the binding is held.
launched :
    with_client_start_launch_guard small second held_binding.binding spawn after_claim
    ≡ (ok tt, after_claim)
unfolding after_claim held_binding with_client_start_launch_guard with_admission_lock
    validate_persisted_record read_record encode binding_path is_hex is_blank
launched = refl

fenced_disk : Disk
unfolding binding_path
fenced_disk = put empty (binding_path small "start:1") (json (encode (fence "start:1" "t1")))

contained :
    request_client_start_containment small first "start:1" empty
    ≡ (ok (fenced "start:1" "t1"), fenced_disk)
unfolding request_client_start_containment contain validate_client_start_id valid_client_start_id
    with_admission_lock fenced_disk read_record reading write_replacement encode binding_path
contained = refl

no_launch_after_containment_example :
    IsRefused
      (Unit {0})
      small
      second
      held_binding.binding
      (run small ((second, claims_again) ∷ []) fenced_disk)
unfolding held_binding
no_launch_after_containment_example =
    no_launch_after_containment (Unit {0}) small first second held_binding.binding empty fenced_disk
      (fenced "start:1" "t1") ((second, claims_again) ∷ []) refl (refl, tt, tt) contained (λ e. cc)

validate-encode_example :
    validate_persisted_record small (encode (bound held_binding)) "start:1"
    ≡ ok (bound held_binding)
unfolding held_binding is_hex is_blank
validate-encode_example = validate-encode small "start:1" (bound held_binding) (
  refl,
  record { request = refl; run = refl; admitted = refl; owner = refl; instance_id = refl },
  tt,
)
