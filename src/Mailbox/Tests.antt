-- ===== src/Mailbox/Tests.antt =====
-- A mailbox with one request of one run.
use subagent.Common.{String, ◌≡◌, ◌≢◌, refl, false, none, some, [], ◌∷◌, ok, All, is_blank}
use subagent.Mailbox.{
  Mailbox, answered, closed, InputSettlement, read_terminal, settle_input_request_at_path,
  check_settlement, is_safe_id, request_status, commit, terminal_of, run_prefix, read_request,
}
use subagent.Mailbox.Requests.{
  NewRequest, create_input_request, settle_input_response, remove_terminal_input_requests,
  is_valid_request, new_request, pending_requests, is_request_record_file, find_request_path,
  read_required_input_request,
}
use subagent.Mailbox.Settling.{settle-ok, overlap-one_wins}
use subagent.Mailbox.Removal.{IsDone, removal-IsDone}

abbrev choice : NewRequest
choice = record {
  run_id = " run1 ";
  session_id = none;
  question = "Which?";
  options = "Left" ∷ "Right" ∷ [];
  option_ids = "left" ∷ "right" ∷ [];
  freeform = false;
  max_answer_chars = 100;
  created_at = "t0";
}

abbrev id : String
id = "run1-0123456789ab"

asked : Mailbox
asked = (create_input_request choice id record { requests = []; terminals = [] }).1

answered_box : Mailbox
unfolding asked
answered_box = (settle_input_response id "r1" "receipt" "t1" (λ b. b) asked).1

abbrev answer : InputSettlement
answer = record {
  request_id = id;
  outcome = answered;
  response_id = some "r1";
  receipt = some "receipt";
  reason = none;
  settled_at = "t1";
}

abbrev close : InputSettlement
close = record {
  request_id = id;
  outcome = closed;
  response_id = none;
  receipt = none;
  reason = some "run reached a terminal state";
  settled_at = "t2";
}

settle-ok_example :
    (read_terminal "run1" id asked.terminals ≡ none)
    × (read_terminal "run1" id
          (settle_input_request_at_path "run1" id answer (λ b. b) asked).1.terminals
        ≡ some (terminal_of answer))
unfolding asked settle_input_request_at_path check_settlement is_safe_id is_blank request_status
    commit create_input_request is_valid_request read_terminal read_request
settle-ok_example = settle-ok "run1" id answer (λ b. b) asked (terminal_of answer) refl

overlap-one_wins_example :
    (settle_input_request_at_path "run1" id close
      (λ x. (settle_input_request_at_path "run1" id answer (λ y. y) x).1)
      asked).0
    ≢ ok (terminal_of close)
unfolding asked settle_input_request_at_path check_settlement is_safe_id is_blank request_status
    commit create_input_request is_valid_request read_terminal read_request
overlap-one_wins_example =
    overlap-one_wins "run1" id answer close (λ y. y) asked (terminal_of answer) (terminal_of close)
      refl

removal-IsDone_example : All (IsDone "run1" answered_box) answered_box.requests
unfolding answered_box asked settle_input_response find_request_path read_required_input_request
    run_prefix read_request settle_input_request_at_path check_settlement is_safe_id is_blank
    request_status commit create_input_request is_valid_request read_terminal terminal_of
    remove_terminal_input_requests pending_requests is_request_record_file new_request
removal-IsDone_example = removal-IsDone "run1" answered_box refl
