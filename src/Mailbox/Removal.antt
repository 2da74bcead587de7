-- ===== src/Mailbox/Removal.antt =====
-- src/inputMailbox.ts: what removal requires, and which answers are valid.
use subagent.Common.{
  String, ◌==◌, ◌≡◌, ◌≤◌, true, false, not, ◌&&◌, List, [], ◌∷◌, ok, arith, refl, All, length,
  units, is_blank, all, codes, nat_eq, inl, inr, Bool-cases,
}
use subagent.Mailbox.{Mailbox, RequestFile, InputRequestRecord, request_status, is_safe_id}
use subagent.Mailbox.Requests.{
  is_pending, is_request_record_file, pending_requests, remove_terminal_input_requests,
  validate_input_response, member,
}

-- A listed request of a run that is settled.
abbrev pub IsDone : String → Mailbox → RequestFile → Type 0
IsDone run_name b f =
    (is_request_record_file f.file_id && f.run_name == run_name && f.request.run_id == run_name)
      ≡ true
    → is_pending (request_status run_name f.file_id b) ≡ false

none_pending-All :
    (run_name : String) (b : Mailbox) (files : List RequestFile)
    → pending_requests run_name b files ≡ []
    → All (IsDone run_name b) files
unfolding pending_requests
none_pending-All run_name b [] h = tt
none_pending-All run_name b (f ∷ files) h =
    (λ k. ground (arith, k, h), none_pending-All run_name b files (ground (arith, h)))

removal_from :
    (run_name : String) (b : Mailbox) (ids : List String)
    → pending_requests run_name b b.requests ≡ ids
    → (remove_terminal_input_requests run_name b).0 ≡ ok tt
    → ids ≡ []
unfolding remove_terminal_input_requests
removal_from run_name b [] e h = refl
removal_from run_name b (id ∷ ids) e h = elim (Bool-cases (is_safe_id run_name)) [
  | inl s ↦ ground (arith, s, e, h)
  | inr s ↦ ground (arith, s, h)
]

-- The requests of a run are removed only where every listed one of that run is settled.
pub removal-IsDone :
    (run_name : String) (b : Mailbox)
    → (remove_terminal_input_requests run_name b).0 ≡ ok tt
    → All (IsDone run_name b) b.requests
removal-IsDone run_name b h =
    none_pending-All run_name b b.requests
      (removal_from run_name b (pending_requests run_name b b.requests) refl h)

-- What a valid answer is: not blank, within the request's bound on its UTF-16 length, without the
-- character NUL, and one of the declared ids where the request takes no free text.
pub record IsAnswer (r : InputRequestRecord) (answer : String) : Type 0 where
  pub not_blank : is_blank answer ≡ false
  pub within_bound : length (units answer) ≤ r.max_answer_chars
  pub no_nul : all (λ c. not (nat_eq c 0)) (codes answer) ≡ true
  pub is_declared : r.freeform ≡ false → member answer r.option_ids ≡ true

-- An answer passes the validation only if it is a valid answer.
pub validate-IsAnswer :
    (r : InputRequestRecord) (answer : String)
    → validate_input_response r answer ≡ ok tt
    → IsAnswer r answer
unfolding validate_input_response
validate-IsAnswer r answer h = record {
  not_blank = ground (arith, h);
  within_bound = ground (arith, h);
  no_nul = ground (arith, h);
  is_declared = λ f. ground (arith, h, f);
}
