-- ===== src/Session/Ledger.antt =====
-- src/session.ts: a ledger and a manifest that agree, and the runs that extend them.
pub mod Paths
pub mod Posix
mod Steps
mod Attempt
mod Runs
pub mod Histories
pub mod Reconcile
use subagent.Common.{
  ℕ, zero, suc, ◌+◌, ◌<◌, String, ◌==◌, Bool, true, false, not, ◌&&◌, Option, none, some, List, [],
  ◌∷◌, ◌++◌, length, length-append, all, codes, is_hex, nat_eq, arith, ◌≡◌, ◌≢◌, refl, sym, ap, ◌∙◌,
  subst,
}
use subagent.Session.{
  SessionManifest, SessionRunRecord, PendingSessionCommit, SessionDir, Platform, run_id_of,
  pi_directory, attempt_directory, staged_name, is_inside,
}
use subagent.Session.Commit.{canonical_of, find_record}
use subagent.Session.Recovery.{IsLaidOut, IsPending, IsDone}

-- A name of a file in a directory.
abbrev pub is_name : String → Bool
is_name n =
    not (n == "") && not (n == ".") && not (n == "..") && all (λ c. not (nat_eq c b'/')) (codes n)

-- The random part of a run id: twelve hexadecimal digits.
abbrev pub IsNonce : String → Type 0
IsNonce a = is_hex 12 a ≡ true

-- The directories of a session in which its files stand: its own one and those of the attempts.
pub data IsDirectory (p : Platform) : String → Type 0 where
  of_session : IsDirectory p (pi_directory p)
  of_attempt :
      (s : ℕ) (a : String) → IsNonce a → IsDirectory p (attempt_directory p (run_id_of p s a))

-- A file of the session, by its name.
abbrev pub IsCanonical : Platform → String → Type 0
IsCanonical p id = (n : String) × (is_name n ≡ true) × (id ≡ p.join (pi_directory p) n)

-- A file of the attempt of a run, by its name.
abbrev pub IsAttempt : Platform → String → String → Type 0
IsAttempt p run_id id =
    (n : String) × (is_name n ≡ true) × (id ≡ p.join (attempt_directory p run_id) n)

-- What the libraries are relied on for, in the directories of a session whose own path is absolute
-- and normal: run ids of different numbers differ; the directory and the name of a joined path are
-- its two parts; the name of a staged file is a name; removing the directory of an attempt removes
-- its files and not those of the session; and the files lie inside the session's directory.
pub record IsPlatform (p : Platform) : Type 0 where
  pub run_id_apart : (s t : ℕ) (a b : String) → s ≢ t → (run_id_of p s a == run_id_of p t b) ≡ false
  pub dirname-join :
      {d : String} (n : String) → IsDirectory p d → is_name n ≡ true → p.dirname (p.join d n) ≡ d
  pub basename-join :
      {d : String} (n : String) → IsDirectory p d → is_name n ≡ true → p.basename (p.join d n) ≡ n
  pub staged_name-is_name :
      (s : ℕ) (a n : String)
      → IsNonce a
      → is_name n ≡ true
      → is_name (staged_name p n (run_id_of p s a)) ≡ true
  pub attempt_under :
      (s : ℕ) (a n : String)
      → IsNonce a
      → is_name n ≡ true
      → p.is_under
          (p.join (attempt_directory p (run_id_of p s a)) n)
          (attempt_directory p (run_id_of p s a))
        ≡ true
  pub session_apart :
      (s : ℕ) (a n : String)
      → IsNonce a
      → is_name n ≡ true
      → p.is_under (p.join (pi_directory p) n) (attempt_directory p (run_id_of p s a)) ≡ false
  pub lies_inside :
      {d : String} (n : String)
      → IsDirectory p d
      → is_name n ≡ true
      → is_inside p (p.join d n) ≡ true

module _ (p : Platform) where
  -- The record at a place of the ledger: of a run that succeeded, with the number of its place.
  pub record IsEntry (id : String) (place : ℕ) (r : SessionRunRecord) : Type 0 where
    pub sequence_eq : r.sequence ≡ place
    pub success_eq : r.success ≡ true
    pub session_eq : r.subagent_session_id ≡ some id
    pub nonce : String
    pub run_id_eq : r.run_id ≡ run_id_of p place nonce

  abbrev pub Entries : String → ℕ → List SessionRunRecord → Type 0
  Entries id n [] = Unit
  Entries id n (r ∷ rs) = IsEntry id (suc n) r × Entries id (suc n) rs

  pub record IsHistory (ledger : List SessionRunRecord) (m : SessionManifest) : Type 0 where
    pub count_eq : length ledger ≡ m.run_count
    pub canonical : IsCanonical p m.subagent_session_id
    pub entries : Entries m.subagent_session_id 0 ledger

  -- A session without a manifest has no record; one with a manifest has its `run_count` of them,
  -- numbered from 1, each of a run that succeeded in the session's file.
  abbrev pub IsConsistent : List SessionRunRecord → Option SessionManifest → Type 0
  IsConsistent ledger none = ledger ≡ []
  IsConsistent ledger (some m) = IsHistory ledger m

  Entries-append :
      (id : String) (n : ℕ) (rs : List SessionRunRecord) (r : SessionRunRecord)
      → Entries id n rs
      → IsEntry id (suc (n + length rs)) r
      → Entries id n (rs ++ r ∷ [])
  Entries-append id n [] r h k = (subst (λ m. IsEntry id m r) (omega arith) k, tt)
  Entries-append id n (x ∷ xs) r h k =
      (h.0, Entries-append id (suc n) xs r h.1 (subst (λ m. IsEntry id m r) (omega arith) k))

  pub Entries-unseen :
      IsPlatform p
      → (id : String) (n : ℕ) (rs : List SessionRunRecord) (place : ℕ) (nonce : String)
      → Entries id n rs
      → n + length rs < place
      → find_record (run_id_of p place nonce) rs ≡ none
  unfolding find_record
  Entries-unseen f id n [] place nonce h k = refl
  Entries-unseen f id n (r ∷ rs) place nonce h k =
      rw (differs, Entries-unseen f id (suc n) rs place nonce h.1 (omega (arith, k)))
    where
      differs : (r.run_id == run_id_of p place nonce) ≡ false
      differs =
          rw h.0.run_id_eq
            (f.run_id_apart (suc n) place h.0.nonce nonce (λ e. ground (arith, e, k)))

  pub append-IsHistory :
      (rs : List SessionRunRecord) (r : SessionRunRecord) (m : SessionManifest)
      → suc (length rs) ≡ m.run_count
      → IsCanonical p m.subagent_session_id
      → Entries m.subagent_session_id 0 rs
      → IsEntry m.subagent_session_id (suc (length rs)) r
      → IsHistory (rs ++ r ∷ []) m
  append-IsHistory rs r m h c es e = record {
    count_eq = omega (arith, length-append rs (r ∷ []), h);
    canonical = c;
    entries =
        Entries-append m.subagent_session_id 0 rs r es
          (subst (λ n. IsEntry m.subagent_session_id n r) (omega arith) e);
  }

  -- A directory whose ledger and manifest agree, or will once its pending commit is applied.
  pub data IsSound (d : SessionDir) : Type 0 where
    settled : d.pending ≡ none → IsConsistent d.ledger d.manifest → IsSound d
    prepared_by :
        (c : PendingSessionCommit) (base : List SessionRunRecord) (before : Option SessionManifest)
        → IsPending p c base before d
        → IsLaidOut p c
        → find_record c.run_record.run_id base ≡ none
        → IsHistory (base ++ c.run_record ∷ []) c.next_manifest
        → IsSound d

  pub Done-IsSound :
      (c : PendingSessionCommit) (base : List SessionRunRecord) (before : Option SessionManifest)
      (d : SessionDir)
      → IsHistory (base ++ c.run_record ∷ []) c.next_manifest
      → IsDone p c base before d
      → IsConsistent d.ledger d.manifest
  Done-IsSound c base before d h k = rw (k.appended, k.manifested) h
