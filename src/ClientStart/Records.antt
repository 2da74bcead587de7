-- ===== src/ClientStart/Records.antt =====
-- src/clientStartAdmission.ts: the persisted records and their validation.
pub mod RoundTrip
use mathlib.Core.Option
use subagent.Common.{
  ℕ, ◌≡◌, refl, Bool, true, false, not, ◌&&◌, Option, none, some, List, String, ◌==◌, ltb, leb,
  nat_eq, if◌then◌else◌, is_blank, is_hex, Result, ok, err, validation, FailureReasonCode,
}
use subagent.Common.Json.{Json, null, num, str, arr, obj, field, end, get, as_str, as_num}
use subagent.Common.Maybe.{◌>>=◌, ◌>>◌, check}

-- What the module calls and does not implement: the hash of a text given by its code points,
-- `Date.parse`, and the schema that parses a start request.
pub record Platform : Type 0 where
  pub sha256 : List ℕ → String
  pub date_parses : String → Bool
  pub parse_request : Json → Option Json

pub record ClientStartBinding : Type 0 where
  pub client_start_id : String
  pub request_sha256 : String
  pub run_id : String

-- Schema version 2 has no `cancellation_requested_at`, schema version 3 has one.
pub record PersistedBinding : Type 0 where
  pub binding : ClientStartBinding
  pub open binding use *
  pub admitted_at : String
  pub owner_pid : ℕ
  pub owner_instance_id : String
  pub cancellation_requested_at : Option String

pub data PersistedRecord : Type 0 where
  bound : PersistedBinding → PersistedRecord
  fence : String → String → PersistedRecord

abbrev pub max_safe : ℕ
max_safe = 9007199254740991

is_text : Option Json → String → Bool
is_text v s = elim (as_str v) [ none ↦ false | some t ↦ t == s ]

is_number : Option Json → ℕ → Bool
is_number v n = elim (as_num v) [ none ↦ false | some m ↦ nat_eq m n ]

module _ (p : Platform) (v : Json) (id : String) where
  -- The fields that `validBindingFields` tests, read into a record.
  unfoldable pub valid_binding_fields : Option String → Option PersistedBinding
  valid_binding_fields cancellation = do
    client_start_id ← as_str (get "client_start_id" v)
    check (client_start_id == id)
    request_sha256 ← as_str (get "request_sha256" v)
    check (is_hex 64 request_sha256)
    run_id ← as_str (get "run_id" v)
    check (not (is_blank run_id))
    admitted_at ← as_str (get "admitted_at" v)
    check (p.date_parses admitted_at)
    owner_pid ← as_num (get "owner_pid" v)
    check (leb owner_pid max_safe && leb 1 owner_pid)
    owner_instance_id ← as_str (get "owner_instance_id" v)
    check (is_hex 24 owner_instance_id)
    some (record {
      binding = record {
        client_start_id = client_start_id;
        request_sha256 = request_sha256;
        run_id = run_id;
      };
      admitted_at = admitted_at;
      owner_pid = owner_pid;
      owner_instance_id = owner_instance_id;
      cancellation_requested_at = cancellation;
    })

  read_v2 : Option PersistedRecord
  read_v2 = do
    check (is_number (get "schema_version" v) 2)
    b ← valid_binding_fields none
    some (bound b)

  read_cancelled : Option PersistedRecord
  read_cancelled = do
    check (is_number (get "schema_version" v) 3)
    check (is_text (get "record_kind" v) "binding")
    at ← as_str (get "cancellation_requested_at" v)
    b ← valid_binding_fields (some at)
    check (p.date_parses at)
    some (bound b)

  read_fence : Option PersistedRecord
  read_fence = do
    check (is_number (get "schema_version" v) 3)
    check (is_text (get "record_kind" v) "fence")
    client_start_id ← as_str (get "client_start_id" v)
    check (client_start_id == id)
    at ← as_str (get "fenced_at" v)
    check (p.date_parses at)
    some (fence client_start_id at)

abbrev conflict {ℓ} : {A : Type ℓ} → Result A
conflict = err (validation FailureReasonCode.client_start_id_conflict)

-- The first reading that succeeds.
first_reading :
    Option PersistedRecord
    → Option PersistedRecord
    → Option PersistedRecord
    → Result PersistedRecord
first_reading (some r) _ _ = ok r
first_reading none (some r) _ = ok r
first_reading none none (some r) = ok r
first_reading none none none = conflict

is_object : Json → Bool
is_object (obj fs) = true
is_object (arr xs) = true
is_object _ = false

unfoldable pub validate_persisted_record : Platform → Json → String → Result PersistedRecord
unfolding first_reading is_object read_v2 read_cancelled read_fence valid_binding_fields is_text
    is_number
validate_persisted_record p v id =
    if is_object v
    then first_reading (read_v2 p v id) (read_cancelled p v id) (read_fence p v id)
    else conflict

-- The JSON object that `JSON.stringify(record)` prints.
abbrev encode_binding : PersistedBinding → Option String → Json
encode_binding b none = obj (
    field "schema_version" (num 2) (
      field "client_start_id" (str b.client_start_id) (
        field "request_sha256" (str b.request_sha256) (
          field "run_id" (str b.run_id) (
            field "admitted_at" (str b.admitted_at) (
              field "owner_pid" (num b.owner_pid)
                (field "owner_instance_id" (str b.owner_instance_id) end)))))))
encode_binding b (some at) = obj (
    field "schema_version" (num 3) (
      field "client_start_id" (str b.client_start_id) (
        field "request_sha256" (str b.request_sha256) (
          field "run_id" (str b.run_id) (
            field "admitted_at" (str b.admitted_at) (
              field "owner_pid" (num b.owner_pid) (
                field "owner_instance_id" (str b.owner_instance_id) (
                  field "record_kind" (str "binding")
                    (field "cancellation_requested_at" (str at) end)))))))))

unfoldable pub encode : PersistedRecord → Json
encode (bound b) = encode_binding b b.cancellation_requested_at
encode (fence id at) = obj (
    field "schema_version" (num 3) (
      field "record_kind" (str "fence")
        (field "client_start_id" (str id) (field "fenced_at" (str at) end))))
