-- ===== src/Session/Ledger/Attempt.antt =====
-- src/session.ts: the attempt of a run, from a ledger and a manifest that agree.
use subagent.Common.{
  ℕ, zero, suc, ◌+◌, String, ◌==◌, Bool, true, false, not, ◌&&◌, Option, none, some, [], ◌∷◌, ◌++◌,
  if-satisfies, if◌then◌else◌, Result, arith, ◌≡◌, ◌⊎◌, inl, inr, refl, sym, subst,
}
use subagent.Session.{
  run_id_of, attempt_path, canonical_path, SessionManifest, SessionRunRecord, SessionDir, World,
  Platform, write, write_with,
}
use subagent.Session.Commit.{
  sha256_file, find_record, CommitOptions, prepared, commit_hashed, commit_attempt_session,
}
use subagent.Session.Recovery.{IsLaidOut, IsPending, IsDone}
use subagent.Session.Recovery.Crash.{commit-outcome}
use subagent.Session.Request.{SessionRequest}
use subagent.Session.Run.{
  Launch, ChildResult, sequence_of, attempt_id, new_id, committed_id, run_record_of,
  next_manifest_of, settle_ids,
}
use subagent.Session.Ledger.{
  IsPlatform, IsNonce, IsCanonical, IsAttempt, IsEntry, IsHistory, IsConsistent, Entries-unseen,
  append-IsHistory, IsSound, Done-IsSound,
}
use subagent.Session.Ledger.Paths.{
  attempt_path-IsAttempt, canonical_path-IsCanonical, attempt-stands, commit-IsLaidOut,
}
use subagent.Session.Ledger.Steps.{IsAfter, kept, left}

module _ (p : Platform) (f : IsPlatform p) where
  abbrev pub Sound : SessionDir → Type 0
  Sound = IsSound p

  abbrev pub Settled : SessionDir → Type 0
  Settled d = (d.pending ≡ none) × IsConsistent p d.ledger d.manifest

  abbrev pub After : String → SessionDir → Type 0
  After = IsAfter p f

  commit-IsAfter :
      (o : CommitOptions) (w : World) (number : ℕ) (nonce : String)
      → IsNonce nonce
      → o.run_record.run_id ≡ run_id_of p number nonce
      → Settled w.dir
      → IsAttempt p (run_id_of p number nonce) o.attempt_subagent_session_id
      → IsCanonical p o.next_manifest.subagent_session_id
      → find_record o.run_record.run_id w.dir.ledger ≡ none
      → IsHistory p (w.dir.ledger ++ o.run_record ∷ []) o.next_manifest
      → After o.run_record.run_id (commit_attempt_session p o w).1.dir
  unfolding commit_attempt_session commit_hashed prepared
  commit-IsAfter o w number nonce hex r h s c u g =
      of (sha256_file p o.attempt_subagent_session_id w.dir) refl
    where
      laid : (successor : String) → IsLaidOut p (prepared p o successor w.dir)
      laid successor = commit-IsLaidOut p f (prepared p o successor w.dir) number nonce hex r s c

      of :
          (x : Option String)
          → sha256_file p o.attempt_subagent_session_id w.dir ≡ x
          → After o.run_record.run_id (commit_hashed p o x w).1.dir
      of none e = kept h
      of (some successor) e = ended (
          subst
            (λ y.
              ((commit_hashed p o y w).1.dir ≡ w.dir)
              ⊎ (IsPending p (prepared p o successor w.dir) w.dir.ledger w.dir.manifest
                    (commit_hashed p o y w).1.dir
                  ⊎ IsDone p (prepared p o successor w.dir) w.dir.ledger w.dir.manifest
                      (commit_hashed p o y w).1.dir))
            e (commit-outcome p o successor w.dir e u (laid successor) w.writes))
        where
          ended :
              ((commit_hashed p o (some successor) w).1.dir ≡ w.dir)
                ⊎ (IsPending p
                      (prepared p o successor w.dir)
                      w.dir.ledger
                      w.dir.manifest
                      (commit_hashed p o (some successor) w).1.dir
                    ⊎ IsDone p
                        (prepared p o successor w.dir)
                        w.dir.ledger
                        w.dir.manifest
                        (commit_hashed p o (some successor) w).1.dir)
              → After o.run_record.run_id (commit_hashed p o (some successor) w).1.dir
          ended (inl k) = subst (After o.run_record.run_id) (sym k) (kept h)
          ended (inr (inl k)) =
              left (prepared p o successor w.dir) w.dir.ledger w.dir.manifest k (laid successor) u g
                (rw r (attempt-stands p f number nonce _ hex s))
          ended (inr (inr k)) = kept (
            k.no_pending,
            Done-IsSound p (prepared p o successor w.dir) w.dir.ledger w.dir.manifest _ g k,
          )

  append-IsAfter :
      (run_id : String) (r : SessionRunRecord) (w : World)
      → Settled w.dir
      → After run_id (write (λ d. record d { attempts = d.attempts ++ r ∷ [] }) w).1.dir
  unfolding write write_with
  append-IsAfter run_id r w h = of w.writes
    where
      of :
          (n : ℕ)
          → After run_id
              (write_with (λ d. record d { attempts = d.attempts ++ r ∷ [] }) w.dir n).1.dir
      of zero = kept h
      of (suc n) = kept h

  -- What a run must have for its commit, where it succeeds.
  pub record IsCommitted (r : SessionRunRecord) (next : SessionManifest) (attempt : String)
      (d : SessionDir) : Type 0 where
    number : ℕ
    nonce : String
    is_nonce : IsNonce nonce
    numbered : r.run_id ≡ run_id_of p number nonce
    stands : IsAttempt p (run_id_of p number nonce) attempt
    canonical : IsCanonical p next.subagent_session_id
    unseen : find_record r.run_id d.ledger ≡ none
    history : IsHistory p (d.ledger ++ r ∷ []) next

  pub settle_ids-IsAfter :
      (r : SessionRunRecord) (next : String → SessionManifest) (id attempt : Option String)
      (w : World)
      → Settled w.dir
      → ((i a : String)
          → id ≡ some i
          → attempt ≡ some a
          → r.success ≡ true
          → IsCommitted r (next i) a w.dir)
      → After r.run_id (settle_ids p r next id attempt w).1.dir
  unfolding settle_ids
  settle_ids-IsAfter r next none attempt w h k = append-IsAfter r.run_id r w h
  settle_ids-IsAfter r next (some i) none w h k = append-IsAfter r.run_id r w h
  settle_ids-IsAfter r next (some i) (some a) w h k =
      if-satisfies (λ (x : Result (Unit {0}) × World). After r.run_id x.1.dir)
        (r.success && not (i == "") && not (a == "")) _ _
        (λ e. ready (k i a refl refl (ground (arith, e)))) (λ e. append-IsAfter r.run_id r w h)
    where
      ready :
          IsCommitted r (next i) a w.dir
          → After r.run_id
              (commit_attempt_session p
                (record { attempt_subagent_session_id = a; run_record = r; next_manifest = next i })
                w).1.dir
      ready g =
          commit-IsAfter _ w g.number g.nonce g.is_nonce g.numbered h g.stands g.canonical g.unseen
            g.history

  module _ (q : SessionRequest) (launch : Launch) (hex : IsNonce launch.nonce)
      (child : ChildResult) where
    abbrev pub run_id_for : Option SessionManifest → String
    run_id_for manifest = run_id_of p (sequence_of manifest) launch.nonce

    abbrev pub record_for : Option SessionManifest → SessionRunRecord
    record_for manifest = run_record_of p q launch child manifest (run_id_for manifest)

    record_for-IsEntry :
        (manifest : Option SessionManifest) (id : String)
        → (record_for manifest).success ≡ true
        → committed_id p true manifest (attempt_id p manifest (run_id_for manifest) child) ≡ some id
        → IsEntry p id (sequence_of manifest) (record_for manifest)
    unfolding run_record_of
    record_for-IsEntry manifest id h k = record {
      sequence_eq = refl;
      success_eq = h;
      session_eq = rw h k;
      nonce = launch.nonce;
      run_id_eq = refl;
    }

    pub created-IsCommitted :
        (d : SessionDir) (i a : String)
        → d.ledger ≡ []
        → IsAttempt p (run_id_for none) a
        → new_id p true (some a) ≡ some i
        → child.session_id ≡ some a
        → (record_for none).success ≡ true
        → IsCommitted (record_for none) (next_manifest_of q launch child none i) a d
    unfolding next_manifest_of run_record_of find_record
    created-IsCommitted d i a h s e g k = record {
      number = sequence_of none;
      nonce = launch.nonce;
      is_nonce = hex;
      numbered = refl;
      stands = s;
      canonical = i-IsCanonical;
      unseen = rw h refl;
      history = rw h (
          append-IsHistory p [] (record_for none) _ refl i-IsCanonical tt
            (record_for-IsEntry none i k (rw g e)));
    }
      where
        named_by :
            (b : Bool)
            → (if not b then some (canonical_path p a) else none) ≡ some i
            → canonical_path p a ≡ i
        named_by true h = ground (arith, h)
        named_by false h = ground (arith, h)

        i-IsCanonical : IsCanonical p i
        i-IsCanonical =
            subst (IsCanonical p) (named_by (a == "") e)
              (canonical_path-IsCanonical p f (sequence_of none) launch.nonce a hex s)

    pub resumed-IsCommitted :
        (d : SessionDir) (m : SessionManifest)
        → IsHistory p d.ledger m
        → (record_for (some m)).success ≡ true
        → IsCommitted
            (record_for (some m))
            (next_manifest_of q launch child (some m) m.subagent_session_id)
            (attempt_path p (run_id_for (some m)) m.subagent_session_id)
            d
    unfolding next_manifest_of run_record_of
    resumed-IsCommitted d m h k = record {
      number = sequence_of (some m);
      nonce = launch.nonce;
      is_nonce = hex;
      numbered = refl;
      stands =
          attempt_path-IsAttempt p f (sequence_of (some m)) launch.nonce m.subagent_session_id hex
            h.canonical;
      canonical = h.canonical;
      unseen =
          Entries-unseen p f m.subagent_session_id 0 d.ledger (m.run_count + 1) launch.nonce
            h.entries (omega (arith, h.count_eq));
      history =
          append-IsHistory p d.ledger (record_for (some m)) _ (omega (arith, h.count_eq))
            h.canonical h.entries
            (subst (λ n. IsEntry p m.subagent_session_id n (record_for (some m)))
              (omega (arith, h.count_eq))
              (record_for-IsEntry (some m) m.subagent_session_id k refl));
    }
