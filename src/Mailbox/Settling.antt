-- ===== src/Mailbox/Settling.antt =====
-- src/inputMailbox.ts: a request is settled once, whoever settles it.
use subagent.Common.{
  String, ◌≡◌, ◌≢◌, Option, none, some, List, ◌∷◌, Result, ok, err, arith, refl, eq_refl, sym, ◌∙◌,
  subst,
}
use subagent.Mailbox.{
  Status, pending, settled, InputTerminalRecord, TerminalFile, Mailbox, read_terminal,
  request_status, already_settled_error, InputSettlement, check_settlement, terminal_of, commit,
  settle_pending, settle_checked, settle_input_request_at_path,
}

module _ (run_name file_id : String) where
  read_terminal-here :
      (t : InputTerminalRecord) (files : List TerminalFile)
      → read_terminal run_name file_id
          (record { run_name = run_name; file_id = file_id; terminal = t } ∷ files)
        ≡ some t
  unfolding read_terminal
  read_terminal-here t files = ground (arith, eq_refl run_name, eq_refl file_id)

  commit-ok :
      (o : InputSettlement) (found : Option InputTerminalRecord) (b : Mailbox)
      (t : InputTerminalRecord)
      → (commit run_name file_id o found b).0 ≡ ok t
      → (found ≡ none)
        × (read_terminal run_name file_id (commit run_name file_id o found b).1.terminals ≡ some t)
  unfolding commit
  commit-ok o none b t h =
      (refl, read_terminal-here (terminal_of o) b.terminals ∙ ground (arith, h))
  commit-ok o (some s) b t h = ground (arith, h)

  pending-ok :
      (o : InputSettlement) (between : Mailbox → Mailbox) (s : Status) (b : Mailbox)
      (t : InputTerminalRecord)
      → (settle_pending run_name file_id o between s b).0 ≡ ok t
      → (read_terminal run_name file_id (between b).terminals ≡ none)
        × (read_terminal run_name file_id
              (settle_pending run_name file_id o between s b).1.terminals
            ≡ some t)
  unfolding settle_pending
  pending-ok o between pending b t h =
      commit-ok o (read_terminal run_name file_id (between b).terminals) (between b) t h
  pending-ok o between (settled s) b t h = ground (arith, h)

  checked-ok :
      (o : InputSettlement) (between : Mailbox → Mailbox) (c : Result (Unit {0})) (b : Mailbox)
      (t : InputTerminalRecord)
      → (settle_checked run_name file_id o between c b).0 ≡ ok t
      → (read_terminal run_name file_id (between b).terminals ≡ none)
        × (read_terminal run_name file_id
              (settle_checked run_name file_id o between c b).1.terminals
            ≡ some t)
  unfolding settle_checked
  checked-ok o between (err e) b t h = ground (arith, h)
  checked-ok o between (ok u) b t h = pending-ok o between (request_status run_name file_id b) b t h

  -- A settlement that succeeds is the first one, also against what others did while it was being
  -- made, and it is what the mailbox then holds.
  pub settle-ok :
      (o : InputSettlement) (between : Mailbox → Mailbox) (b : Mailbox) (t : InputTerminalRecord)
      → (settle_input_request_at_path run_name file_id o between b).0 ≡ ok t
      → (read_terminal run_name file_id (between b).terminals ≡ none)
        × (read_terminal run_name file_id
              (settle_input_request_at_path run_name file_id o between b).1.terminals
            ≡ some t)
  unfolding settle_input_request_at_path
  settle-ok o between b t h = checked-ok o between (check_settlement o) b t h

  -- Of two settlements of one request that overlap, the second having read its status before the
  -- first was made, at most one succeeds.
  pub overlap-one_wins :
      (first second : InputSettlement) (between : Mailbox → Mailbox) (b : Mailbox)
      (t u : InputTerminalRecord)
      → (settle_input_request_at_path run_name file_id first between b).0 ≡ ok t
      → (settle_input_request_at_path run_name file_id second
          (λ x. (settle_input_request_at_path run_name file_id first between x).1)
          b).0
        ≢ ok u
  overlap-one_wins first second between b t u h k =
      let other =
        λ (x : Mailbox). (settle_input_request_at_path run_name file_id first between x).1 in
      ground (arith, (settle-ok first between b t h).1, (settle-ok second other b u k).0)

  settled-refused_from :
      (o : InputSettlement) (between : Mailbox → Mailbox) (b : Mailbox) (t : InputTerminalRecord)
      → read_terminal run_name file_id b.terminals ≡ some t
      → settle_checked run_name file_id o between (ok tt) b
        ≡ (err (already_settled_error t.status), b)
  unfolding settle_checked settle_pending request_status
  settled-refused_from o between b t h = rw h refl

  -- A settled request refuses every further settlement that is well formed with the error for how it was
  -- settled, and stays as it is.
  pub settled-refused :
      (o : InputSettlement) (between : Mailbox → Mailbox) (b : Mailbox) (t : InputTerminalRecord)
      → check_settlement o ≡ ok tt
      → read_terminal run_name file_id b.terminals ≡ some t
      → settle_input_request_at_path run_name file_id o between b
        ≡ (err (already_settled_error t.status), b)
  unfolding settle_input_request_at_path
  settled-refused o between b t c h =
      subst
        (λ r.
          settle_checked run_name file_id o between r b ≡ (err (already_settled_error t.status), b))
        (sym c) (settled-refused_from o between b t h)
