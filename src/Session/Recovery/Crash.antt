-- ===== src/Session/Recovery/Crash.antt =====
-- src/session.ts: a commit that is cut off anywhere, and the recoveries that follow it.
use subagent.Common.{
  ℕ, zero, suc, ◌≤◌, String, Option, none, some, List, [], ◌∷◌, ◌++◌, Result, ok, err, arith, ◌≡◌,
  ◌⊎◌, inl, inr, refl, sym, ap, subst, ◌∙◌,
}
use subagent.Session.{
  SessionManifest, SessionRunRecord, PendingSessionCommit, SessionDir, World, Platform, write,
  write_with,
}
use subagent.Session.Commit.{
  sha256_file, find_record, recover_from, recover, CommitOptions, prepared, commit_prepared,
  commit_hashed, commit_attempt_session,
}
use subagent.Session.Triples.{Runs}
use subagent.Session.Recovery.{IsLaidOut, IsPending, IsDone}
use subagent.Session.Recovery.Apply.{apply-Runs}

-- The directory after processes that each recover it with the writes they have before they die.
abbrev pub recoveries : Platform → List ℕ → SessionDir → SessionDir
recoveries p [] d = d
recoveries p (n ∷ ns) d = recoveries p ns (recover p (record { dir = d; writes = n })).1.dir

pub recover-none :
    (p : Platform) (d : SessionDir) (n : ℕ)
    → d.pending ≡ none
    → recover p (record { dir = d; writes = n }) ≡ (ok tt, record { dir = d; writes = n })
unfolding recover recover_from
recover-none p d n h = ap (λ o. recover_from p o (record { dir = d; writes = n })) h

module _ (p : Platform) (c : PendingSessionCommit) (base : List SessionRunRecord)
    (before : Option SessionManifest) (l : IsLaidOut p c)
    (unseen : find_record c.run_record.run_id base ≡ none) where
  abbrev pub Pending : SessionDir → Type 0
  Pending = IsPending p c base before

  abbrev pub Done : SessionDir → Type 0
  Done = IsDone p c base before

  pub recover-Runs :
      (d : SessionDir) (n : ℕ)
      → Pending d
      → Runs Pending Done 9 n (recover p (record { dir = d; writes = n }))
  unfolding recover recover_from
  recover-Runs d n h =
      subst (λ o. Runs Pending Done 9 n (recover_from p o (record { dir = d; writes = n })))
        (sym h.pending_eq)
        (rw l.inside (apply-Runs p c base before l unseen (record { dir = d; writes = n }) h))

  recover-Done :
      (d : SessionDir) (n : ℕ)
      → Done d
      → recover p (record { dir = d; writes = n }) ≡ (ok tt, record { dir = d; writes = n })
  recover-Done d n h = recover-none p d n h.no_pending

  pub settled_by :
      (start : ℕ) (x : Result (Unit {0}) × World)
      → Runs Pending Done 9 start x
      → Pending x.1.dir ⊎ Done x.1.dir
  settled_by start (ok u, w) h = inr h.0
  settled_by start (err e, w) h = inl h.0

  Runs-IsDone :
      (start : ℕ) (x : Result (Unit {0}) × World)
      → 10 ≤ start
      → Runs Pending Done 9 start x
      → Done x.1.dir
  Runs-IsDone start (ok u, w) g h = h.0
  Runs-IsDone start (err e, w) g h = ground (arith, g, h.1)

  pub recover_settles :
      (d : SessionDir) (n : ℕ)
      → 10 ≤ n
      → Pending d
      → Done (recover p (record { dir = d; writes = n })).1.dir
  recover_settles d n g h = Runs-IsDone n _ g (recover-Runs d n h)

  recoveries-keep :
      (ns : List ℕ) (d : SessionDir)
      → Pending d ⊎ Done d
      → Pending (recoveries p ns d) ⊎ Done (recoveries p ns d)
  recoveries-keep [] d h = h
  recoveries-keep (n ∷ ns) d (inl h) = recoveries-keep ns _ (settled_by n _ (recover-Runs d n h))
  recoveries-keep (n ∷ ns) d (inr h) =
      recoveries-keep ns _ (inr (subst (λ x. Done x.1.dir) (sym (recover-Done d n h)) h))

  recoveries-end :
      (ns : List ℕ) (n : ℕ) (d : SessionDir)
      → 10 ≤ n
      → Pending d ⊎ Done d
      → Done (recoveries p (ns ++ n ∷ []) d)
  recoveries-end [] n d g (inl h) = recover_settles d n g h
  recoveries-end [] n d g (inr h) = subst (λ x. Done x.1.dir) (sym (recover-Done d n h)) h
  recoveries-end (m ∷ ns) n d g (inl h) =
      recoveries-end ns n _ g (settled_by m _ (recover-Runs d m h))
  recoveries-end (m ∷ ns) n d g (inr h) =
      recoveries-end ns n _ g (inr (subst (λ x. Done x.1.dir) (sym (recover-Done d m h)) h))

recoveries-none :
    (p : Platform) (ns : List ℕ) (d : SessionDir) → d.pending ≡ none → recoveries p ns d ≡ d
recoveries-none p [] d h = refl
recoveries-none p (n ∷ ns) d h =
    ap (λ x. recoveries p ns x.1.dir) (recover-none p d n h) ∙ recoveries-none p ns d h

module _ (p : Platform) (o : CommitOptions) (successor : String) (d : SessionDir)
    (present : sha256_file p o.attempt_subagent_session_id d ≡ some successor)
    (unseen : find_record o.run_record.run_id d.ledger ≡ none)
    (l : IsLaidOut p (prepared p o successor d)) where
  prepared-IsPending :
      IsPending p
        (prepared p o successor d)
        d.ledger
        d.manifest
        (record d { pending = some (prepared p o successor d) })
  unfolding prepared
  prepared-IsPending = record {
    pending_eq = refl;
    publishable = inr (refl, present);
    ledger_eq = inl refl;
    manifest_eq = inl refl;
  }

  commit-eq :
      (n : ℕ)
      → commit_attempt_session p o (record { dir = d; writes = n })
        ≡ commit_prepared p (prepared p o successor d) (record { dir = d; writes = n })
  unfolding commit_attempt_session commit_hashed
  commit-eq n = ap (λ h. commit_hashed p o h (record { dir = d; writes = n })) present

  commit_prepared-Runs :
      (n : ℕ)
      → Runs
          (IsPending p (prepared p o successor d) d.ledger d.manifest)
          (IsDone p (prepared p o successor d) d.ledger d.manifest)
          9
          n
          (commit_prepared p (prepared p o successor d) (record { dir = d; writes = suc n }))
  unfolding commit_prepared prepared write write_with
  commit_prepared-Runs n =
      apply-Runs p (prepared p o successor d) d.ledger d.manifest l unseen
        (record { dir = record d { pending = some (prepared p o successor d) }; writes = n })
        prepared-IsPending

  pub commit-outcome :
      (n : ℕ)
      → ((commit_attempt_session p o (record { dir = d; writes = n })).1.dir ≡ d)
        ⊎ (IsPending p
              (prepared p o successor d)
              d.ledger
              d.manifest
              (commit_attempt_session p o (record { dir = d; writes = n })).1.dir
            ⊎ IsDone p
                (prepared p o successor d)
                d.ledger
                d.manifest
                (commit_attempt_session p o (record { dir = d; writes = n })).1.dir)
  unfolding prepared commit_prepared write write_with
  commit-outcome zero = inl (ap (λ x. x.1.dir) (commit-eq zero))
  commit-outcome (suc n) = inr (
      subst
        (λ x.
          IsPending p (prepared p o successor d) d.ledger d.manifest x.1.dir
          ⊎ IsDone p (prepared p o successor d) d.ledger d.manifest x.1.dir)
        (sym (commit-eq (suc n)))
        (settled_by p (prepared p o successor d) d.ledger d.manifest l unseen n _
          (commit_prepared-Runs n)))

  -- A commit is all or nothing under crashes: where no commit was pending, the attempt is on disk,
  -- its run is not in the ledger and the paths lie apart, a commit that dies after any number of
  -- writes, then recoveries that die after any numbers of writes, then a recovery with ten writes or
  -- more, leave the directory as it was, or the commit done: its content published, its record
  -- appended once to the old ledger, its manifest stored, and no commit pending.
  pub commit_or_nothing :
      (n : ℕ) (ns : List ℕ) (last : ℕ)
      → d.pending ≡ none
      → 10 ≤ last
      → (recoveries p
            (ns ++ last ∷ [])
            (commit_attempt_session p o (record { dir = d; writes = n })).1.dir
          ≡ d)
        ⊎ IsDone p (prepared p o successor d) d.ledger d.manifest (
            recoveries p
              (ns ++ last ∷ [])
              (commit_attempt_session p o (record { dir = d; writes = n })).1.dir)
  unfolding prepared
  commit_or_nothing n ns last h g = elim (commit-outcome n) [
    | inl e ↦ inl (ap (recoveries p (ns ++ last ∷ [])) e ∙ recoveries-none p (ns ++ last ∷ []) d h)
    | inr k ↦
        inr (recoveries-end p (prepared p o successor d) d.ledger d.manifest l unseen ns last _ g k)
  ]

  -- A commit whose process lives for eleven writes succeeds, where the attempt is on disk, its run
  -- is not in the ledger and the paths lie apart: it returns without an error, with the content
  -- published, the record appended to the old ledger, the manifest stored and no commit pending.
  pub commit_succeeds :
      (n : ℕ)
      → 11 ≤ n
      → ((commit_attempt_session p o (record { dir = d; writes = n })).0 ≡ ok tt)
        × IsDone p
            (prepared p o successor d)
            d.ledger
            d.manifest
            (commit_attempt_session p o (record { dir = d; writes = n })).1.dir
  commit_succeeds zero h = ground (arith, h)
  commit_succeeds (suc n) h = rw (commit-eq (suc n)) (ended _ (commit_prepared-Runs n))
    where
      ended :
          (x : Result (Unit {0}) × World)
          → Runs
              (IsPending p (prepared p o successor d) d.ledger d.manifest)
              (IsDone p (prepared p o successor d) d.ledger d.manifest)
              9
              n
              x
          → (x.0 ≡ ok tt) × IsDone p (prepared p o successor d) d.ledger d.manifest x.1.dir
      ended (ok u, w) k = (refl, k.0)
      ended (err e, w) k = ground (arith, h, k.1)
