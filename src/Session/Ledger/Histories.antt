-- ===== src/Session/Ledger/Histories.antt =====
-- src/session.ts: any history of runs of a session, each with the writes that its process lives for.
use subagent.Common.{ℕ, ◌≤◌, none, List, [], ◌∷◌, All, ◌≡◌}
use subagent.Session.{SessionDir, Platform}
use subagent.Session.Commit.{recover}
use subagent.Session.Request.{SessionRequest}
use subagent.Session.Run.{Launch, Child, run_locked}
use subagent.Session.Recovery.{IsDone}
use subagent.Session.Recovery.Crash.{recover_settles, recover-none}
use subagent.Session.Ledger.{
  IsPlatform, IsNonce, IsConsistent, IsSound, settled, prepared_by, Done-IsSound,
}
use subagent.Session.Ledger.Runs.{Reports, run_locked-IsSound}

-- One run: its request, its child, and the writes until its process dies.
pub record RunStep : Type 0 where
  pub request : SessionRequest
  pub launch : Launch
  pub child : Child
  pub writes : ℕ

abbrev pub run_all : Platform → List RunStep → SessionDir → SessionDir
run_all p [] d = d
run_all p (s ∷ ss) d =
    run_all p ss
      (run_locked p s.request s.launch s.child (record { dir = d; writes = s.writes })).1.dir

module _ (p : Platform) (f : IsPlatform p) where
  -- The children of new sessions report files, by a name, in the directories of their attempts,
  -- and the random parts of the run ids are hexadecimal.
  abbrev pub IsReporting : RunStep → Type 0
  IsReporting s =
      (hex : IsNonce s.launch.nonce) × ((d : SessionDir)
        → Reports p f s.request s.launch hex (s.child none d))

  run_all-IsSound :
      (ss : List RunStep) (d : SessionDir)
      → All IsReporting ss
      → IsSound p d
      → IsSound p (run_all p ss d)
  run_all-IsSound [] d h k = k
  run_all-IsSound (s ∷ ss) d h k = run_all-IsSound ss _ h.1 (
      run_locked-IsSound p f s.request s.launch h.0.0 s.child h.0.1
        (record { dir = d; writes = s.writes }) k)

  recovered-IsConsistent :
      (d : SessionDir) (n : ℕ)
      → 10 ≤ n
      → IsSound p d
      → ((recover p (record { dir = d; writes = n })).1.dir.pending ≡ none)
        × IsConsistent p
            (recover p (record { dir = d; writes = n })).1.dir.ledger
            (recover p (record { dir = d; writes = n })).1.dir.manifest
  recovered-IsConsistent d n g (settled h k) = rw (recover-none p d n h) (h, k)
  recovered-IsConsistent d n g (prepared_by c base before h l u e) =
      (k.no_pending, Done-IsSound p c base before _ e k)
    where
      k : IsDone p c base before (recover p (record { dir = d; writes = n })).1.dir
      k = recover_settles p c base before l u d n g h

  -- Any history of runs of a session, each cut off after any number of writes, can be recovered. It
  -- starts from a ledger and a manifest that agree, with no commit pending, where the manifest's session
  -- file has a name in the session's own directory; the child of a new session reports a file with a
  -- name in the directory of its attempt, a name being not empty, `.` or `..` and without a slash; the random
  -- part of each run id is twelve hexadecimal digits; and
  -- the libraries for paths and random texts do what `IsPlatform` says. After it, a recovery with ten
  -- writes or more leaves no commit pending and a ledger and manifest that agree, which is that a session without a manifest
  -- has an empty ledger, and one with a manifest has `run_count` records, numbered from 1 in order,
  -- each of a run that succeeded in the session file that the manifest names.
  pub histories-IsConsistent :
      (ss : List RunStep) (d : SessionDir) (n : ℕ)
      → All IsReporting ss
      → d.pending ≡ none
      → IsConsistent p d.ledger d.manifest
      → 10 ≤ n
      → ((recover p (record { dir = run_all p ss d; writes = n })).1.dir.pending ≡ none)
        × IsConsistent p
            (recover p (record { dir = run_all p ss d; writes = n })).1.dir.ledger
            (recover p (record { dir = run_all p ss d; writes = n })).1.dir.manifest
  histories-IsConsistent ss d n h e k g =
      recovered-IsConsistent (run_all p ss d) n g (run_all-IsSound ss d h (settled e k))
