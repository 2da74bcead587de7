-- ===== src/Mailbox.antt =====
-- src/inputMailbox.ts: the input requests of runs and their settlements.
mod Requests
mod Settling
mod Removal
mod Tests
use subagent.Common.{
  ℕ, suc, String, ◌==◌, Bool, true, false, not, ◌&&◌, ◌||◌, Option, none, some, List, [], ◌∷◌, ltb,
  leb, nat_eq, length, filter, all, map, if◌then◌else◌, is_blank, is_hex_char, is_id_char, codes,
  units, trim, Result, ok, err, Failure, validation, eexist, enoent, FailureReasonCode,
}
use subagent.Common.State.{M, ◌>>=◌, ◌>>◌, return, fail, lift, guard, bind}

pub data Outcome : Type 0 where
  answered timed_out closed : Outcome

-- `InputRequestStatus`.
pub data Status : Type 0 where
  pending : Status
  settled : Outcome → Status

pub record InputRequestRecord : Type 0 where
  pub request_id : String
  pub run_id : String
  pub session_id : Option String
  pub created_at : String
  pub question : String
  pub options : List String
  pub option_ids : List String
  pub freeform : Bool
  pub max_answer_chars : ℕ

pub record InputTerminalRecord : Type 0 where
  pub request_id : String
  pub status : Outcome
  pub settled_at : String
  pub response_id : Option String
  pub receipt : Option String
  pub reason : Option String

-- A record file in the directory of a run, and a settlement file beside it.
pub record RequestFile : Type 0 where
  pub run_name : String
  pub file_id : String
  pub request : InputRequestRecord

pub record TerminalFile : Type 0 where
  pub run_name : String
  pub file_id : String
  pub terminal : InputTerminalRecord

pub record Mailbox : Type 0 where
  pub requests : List RequestFile
  pub terminals : List TerminalFile

abbrev pub at_path : String → String → TerminalFile → Bool
at_path run_name file_id file = file.run_name == run_name && file.file_id == file_id

unfoldable pub read_terminal : String → String → List TerminalFile → Option InputTerminalRecord
read_terminal run_name file_id [] = none
read_terminal run_name file_id (file ∷ files) =
    let rest = read_terminal run_name file_id files in
    if at_path run_name file_id file then some file.terminal else rest

unfoldable pub read_request : String → String → List RequestFile → Option InputRequestRecord
read_request run_name file_id [] = none
read_request run_name file_id (file ∷ files) =
    let rest = read_request run_name file_id files in
    if file.run_name == run_name && file.file_id == file_id then some file.request else rest

-- `/^[A-Za-z0-9_.:-]+$/`.
unfoldable pub is_safe_id : String → Bool
is_safe_id s = not (nat_eq (length (codes s)) 0) && all is_id_char (codes s)

unfoldable pub assert_safe_id : String → FailureReasonCode → Result (Unit {0})
unfolding is_safe_id
assert_safe_id value code = if is_safe_id value then ok tt else err (validation code)

abbrev pub invalid : Failure
invalid = validation FailureReasonCode.unknown_validation_error

abbrev pub not_found : Failure
not_found = validation FailureReasonCode.input_request_not_found

-- A hyphen and 12 hexadecimal digits.
is_request_suffix : List ℕ → Bool
is_request_suffix [] = false
is_request_suffix (c ∷ rest) = nat_eq c b'-' && nat_eq (length rest) 12 && all is_hex_char rest

-- What stands before that suffix.
unfoldable pub run_prefix : String → Option String
unfolding is_request_suffix
run_prefix String.[] = none
run_prefix (String.◌∷◌ c s) =
    let later = elim (run_prefix s) as (λ _. Option String) [
      | none ↦ none
      | some run ↦ some (String.◌∷◌ c run)
    ] in
    if is_request_suffix (codes (String.◌∷◌ c s)) then some String.[] else later

abbrev pub view_status : Option InputTerminalRecord → Status
view_status none = pending
view_status (some t) = settled t.status

-- `requestStatus`.
unfoldable pub request_status : String → String → Mailbox → Status
request_status run_name file_id b = view_status (read_terminal run_name file_id b.terminals)

unfoldable pub already_settled_error : Outcome → Failure
already_settled_error answered = validation FailureReasonCode.input_request_already_answered
already_settled_error timed_out = validation FailureReasonCode.input_request_already_timed_out
already_settled_error closed = validation FailureReasonCode.input_request_already_closed

-- The options of `settleInputRequestAtPath` besides the path.
pub record InputSettlement : Type 0 where
  pub request_id : String
  pub outcome : Outcome
  pub response_id : Option String
  pub receipt : Option String
  pub reason : Option String
  pub settled_at : String

abbrev pub is_missing : Option String → Bool
is_missing none = true
is_missing (some text) = is_blank text

abbrev pub or_empty : Option String → String
or_empty none = ""
or_empty (some text) = text

abbrev pub is_given : Option String → Bool
is_given none = false
is_given (some text) = true

unfoldable pub check_settlement : InputSettlement → Result (Unit {0})
check_settlement o = elim o.outcome [
  | answered ↦
      if is_missing o.response_id
        || not (is_safe_id (or_empty o.response_id))
        || is_missing o.receipt
      then err invalid
      else ok tt
  | _ ↦ if is_given o.response_id || is_given o.receipt then err invalid else ok tt
]

abbrev pub nonempty : Option String → Option String
nonempty none = none
nonempty (some text) = if text == "" then none else some text

unfoldable pub terminal_of : InputSettlement → InputTerminalRecord
terminal_of o = record {
  request_id = o.request_id;
  status = o.outcome;
  settled_at = o.settled_at;
  response_id = elim o.outcome [ answered ↦ o.response_id | _ ↦ none ];
  receipt = elim o.outcome [ answered ↦ o.receipt | _ ↦ none ];
  reason = nonempty o.reason;
}

-- The exclusive creation of the settlement file, where another may have been created meanwhile.
unfoldable pub commit :
    String → String → InputSettlement → Option InputTerminalRecord → M Mailbox InputTerminalRecord
unfolding terminal_of
commit run_name file_id o none b = (
  ok (terminal_of o),
  record b {
    terminals =
        record { run_name = run_name; file_id = file_id; terminal = terminal_of o } ∷ b.terminals;
  },
)
commit run_name file_id o (some t) b = (err (already_settled_error t.status), b)

unfoldable pub settle_pending :
    String → String → InputSettlement → (Mailbox → Mailbox) → Status → M Mailbox InputTerminalRecord
unfolding commit
settle_pending run_name file_id o between pending b =
    commit run_name file_id o (read_terminal run_name file_id (between b).terminals) (between b)
settle_pending run_name file_id o between (settled s) b = (err (already_settled_error s), b)

unfoldable pub settle_checked :
    String
    → String
    → InputSettlement
    → (Mailbox → Mailbox)
    → Result (Unit {0})
    → M Mailbox InputTerminalRecord
unfolding settle_pending request_status
settle_checked run_name file_id o between (err e) b = (err e, b)
settle_checked run_name file_id o between (ok u) b =
    settle_pending run_name file_id o between (request_status run_name file_id b) b

-- `settleInputRequestAtPath`: `between` is what other processes do after the status was read and
-- before the settlement is created.
unfoldable pub settle_input_request_at_path :
    String → String → InputSettlement → (Mailbox → Mailbox) → M Mailbox InputTerminalRecord
unfolding settle_checked
settle_input_request_at_path run_name file_id o between =
    settle_checked run_name file_id o between (check_settlement o)
