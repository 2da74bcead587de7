-- ===== src/Mailbox/Requests.antt =====
-- src/inputMailbox.ts: the exported calls on requests.
use subagent.Common.{
  ℕ, String, ◌==◌, Bool, true, false, not, ◌&&◌, ◌||◌, Option, none, some, List, [], ◌∷◌, ltb, leb,
  nat_eq, length, filter, all, if◌then◌else◌, is_blank, codes, units, trim, Result, ok, err,
  validation, eexist, FailureReasonCode,
}
use subagent.Common.State.{M}
use subagent.Mailbox.{
  answered, Status, pending, settled, InputRequestRecord, InputTerminalRecord, RequestFile, Mailbox,
  read_request, is_safe_id, invalid, not_found, run_prefix, request_status, InputSettlement,
  settle_input_request_at_path,
}

-- The options of `createInputRequest`; `file_id` is the new request's id, the run's id with a
-- hyphen and 12 random hexadecimal digits after it.
pub record NewRequest : Type 0 where
  pub run_id : String
  pub session_id : Option String
  pub question : String
  pub options : List String
  pub option_ids : List String
  pub freeform : Bool
  pub max_answer_chars : ℕ
  pub created_at : String

unfoldable pub member : String → List String → Bool
member s [] = false
member s (t ∷ ts) = s == t || member s ts

valid_option_ids : List String → Bool
unfolding member
valid_option_ids [] = true
valid_option_ids (s ∷ ss) = is_safe_id s && not (member s ss) && valid_option_ids ss

-- `MAX_INPUT_ANSWER_CHARS`.
abbrev pub max_input_answer_chars : ℕ
max_input_answer_chars = 16384

unfoldable pub new_request : NewRequest → String → InputRequestRecord
new_request n file_id = record {
  request_id = file_id;
  run_id = trim n.run_id;
  session_id = n.session_id;
  created_at = n.created_at;
  question = trim n.question;
  options = n.options;
  option_ids = n.option_ids;
  freeform = n.freeform;
  max_answer_chars = n.max_answer_chars;
}

unfoldable pub is_valid_request : NewRequest → Bool
unfolding valid_option_ids
is_valid_request n =
    is_safe_id (trim n.run_id)
    && not (trim n.question == "")
    && nat_eq (length n.option_ids) (length n.options)
    && valid_option_ids n.option_ids
    && leb 1 n.max_answer_chars
    && leb n.max_answer_chars max_input_answer_chars

taken : String → String → List RequestFile → Bool
taken run_name file_id files = elim (read_request run_name file_id files) [
  | none ↦ false
  | some r ↦ true
]

-- `createInputRequest`, each of whose checks throws the same reason.
unfoldable pub create_input_request : NewRequest → String → M Mailbox InputRequestRecord
unfolding taken
create_input_request n file_id b =
    if not (is_valid_request n)
    then (err invalid, b)
    else if taken (trim n.run_id) file_id b.requests
    then (err eexist, b)
    else (
      ok (new_request n file_id),
      record b {
        requests =
            record { run_name = trim n.run_id; file_id = file_id; request = new_request n file_id }
            ∷ b.requests;
      },
    )

-- The directory of a request's run: its id must be safe and end as one does, and its file exist.
unfoldable pub find_request_path : String → Mailbox → Result String
find_request_path request_id b = elim (is_safe_id request_id) [
  | false ↦ err not_found
  | true ↦ elim (run_prefix request_id) [
    | none ↦ err not_found
    | some run ↦
        if run == "" then err not_found else elim (read_request run request_id b.requests) [
          | none ↦ err not_found
          | some r ↦ ok run
        ]
  ]
]

-- `readRequiredInputRequest`; that the file exists was just found.
unfoldable pub read_required_input_request : String → String → Mailbox → Result InputRequestRecord
read_required_input_request run_name request_id b =
    elim (read_request run_name request_id b.requests) [
      | none ↦ err not_found
      | some r ↦ if r.request_id == request_id then ok r else err not_found
    ]

settle_found : InputSettlement → (Mailbox → Mailbox) → Result String → M Mailbox InputTerminalRecord
settle_found o between (err e) b = (err e, b)
settle_found o between (ok run) b = elim (read_required_input_request run o.request_id b) [
  | err e ↦ (err e, b)
  | ok r ↦ settle_input_request_at_path run o.request_id o between b
]

-- The settlement of an answer.
unfoldable pub answer_of : String → String → String → String → InputSettlement
answer_of request_id response_id receipt at = record {
  request_id = request_id;
  outcome = answered;
  response_id = some response_id;
  receipt = some receipt;
  reason = none;
  settled_at = at;
}

unfoldable pub settle_input_response :
    String → String → String → String → (Mailbox → Mailbox) → M Mailbox InputTerminalRecord
unfolding settle_found answer_of
settle_input_response request_id response_id receipt at between b =
    settle_found (answer_of request_id response_id receipt at) between
      (find_request_path request_id b) b

-- `validateInputResponse`.
unfoldable pub validate_input_response : InputRequestRecord → String → Result (Unit {0})
unfolding member
validate_input_response r answer =
    if is_blank answer
    then err invalid
    else if ltb r.max_answer_chars (length (units answer))
    then err invalid
    else if not (all (λ c. not (nat_eq c 0)) (codes answer))
    then err invalid
    else if not r.freeform && not (member answer r.option_ids)
    then err invalid
    else ok tt

abbrev pub is_pending : Status → Bool
is_pending pending = true
is_pending (settled o) = false

starts_with : List ℕ → List ℕ → Bool
starts_with [] s = true
starts_with (c ∷ cs) [] = false
starts_with (c ∷ cs) (d ∷ ds) = nat_eq c d && starts_with cs ds

includes : List ℕ → List ℕ → Bool
unfolding starts_with
includes part [] = starts_with part []
includes part (c ∷ cs) = starts_with part (c ∷ cs) || includes part cs

-- `isRequestRecordFile`, by the name before `.json`.
unfoldable pub is_request_record_file : String → Bool
unfolding includes
is_request_record_file file_id = elim (run_prefix file_id) [
  | none ↦ false
  | some run ↦ not (includes (codes ".tmp-") (codes file_id))
]

-- The pending requests of a run, by their own ids, as `listInputRequests` finds them.
unfoldable pub pending_requests : String → Mailbox → List RequestFile → List String
pending_requests run_name b [] = []
pending_requests run_name b (file ∷ files) =
    let rest = pending_requests run_name b files in
    if is_request_record_file file.file_id
      && file.run_name == run_name
      && file.request.run_id == run_name
      && is_pending (request_status run_name file.file_id b)
    then file.request.request_id ∷ rest
    else rest

-- `removeTerminalInputRequestsForRun`.
unfoldable pub remove_terminal_input_requests : String → M Mailbox (Unit {0})
remove_terminal_input_requests run_name b =
    if not (is_safe_id run_name)
    then (err invalid, b)
    else elim (pending_requests run_name b b.requests) [
      | [] ↦ (
        ok tt,
        record {
          requests = filter (λ f. not (f.run_name == run_name)) b.requests;
          terminals = filter (λ f. not (f.run_name == run_name)) b.terminals;
        },
      )
      | id ∷ ids ↦ (err (validation FailureReasonCode.run_not_accepting_input), b)
    ]
