-- ===== src/Session/Ledger/Paths.antt =====
-- src/session.ts: where the files of a commit lie, from what is relied on of the path functions.
use Prim.Native.String.{◌++◌ as str_append, count}
use text.Mathlib.TextLemmas.{length-append}
use subagent.Common.{ℕ, String, true, arith, ◌≡◌, ◌≢◌, refl, sym, ap, ◌∙◌, eq_refl, eq-false_of_ne}
use subagent.Session.{
  PendingSessionCommit, Platform, run_id_of, pi_directory, attempt_directory, staged_name,
  staged_path, attempt_path, canonical_path, stands_in_attempt,
}
use subagent.Session.Commit.{canonical_of}
use subagent.Session.Recovery.{IsLaidOut}
use subagent.Session.Ledger.{
  IsNonce, is_name, of_session, of_attempt, IsCanonical, IsAttempt, IsPlatform,
}

-- The staged file has another name.
name-ne-staged : (p : Platform) (n run_id : String) → n ≢ staged_name p n run_id
unfolding staged_name
name-ne-staged p n run_id e =
    let rest = str_append ".pending-" (p.encode_uri_component run_id) in
    omega (arith, ap count e, length-append "." (str_append n rest), length-append n rest)

module _ (p : Platform) (f : IsPlatform p) where
  pub attempt_path-IsAttempt :
      (s : ℕ) (a id : String)
      → IsNonce a
      → IsCanonical p id
      → IsAttempt p (run_id_of p s a) (attempt_path p (run_id_of p s a) id)
  unfolding attempt_path
  attempt_path-IsAttempt s a id hex (n, named, e) = (
    n,
    named,
    ap (p.join (attempt_directory p (run_id_of p s a)))
        (ap p.basename e ∙ f.basename-join n of_session named),
  )

  pub canonical_path-IsCanonical :
      (s : ℕ) (a id : String)
      → IsNonce a
      → IsAttempt p (run_id_of p s a) id
      → IsCanonical p (canonical_path p id)
  unfolding canonical_path
  canonical_path-IsCanonical s a id hex (n, named, e) = (
    n,
    named,
    ap (p.join (pi_directory p)) (ap p.basename e ∙ f.basename-join n (of_attempt s a hex) named),
  )

  pub attempt-stands :
      (s : ℕ) (a id : String)
      → IsNonce a
      → IsAttempt p (run_id_of p s a) id
      → stands_in_attempt p id (run_id_of p s a) ≡ true
  unfolding stands_in_attempt
  attempt-stands s a id hex (n, named, e) =
      rw (e, f.dirname-join n (of_attempt s a hex) named) (eq_refl _)

  module _ (s : ℕ) (a n m : String) (hex : IsNonce a) (n_named : is_name n ≡ true)
      (m_named : is_name m ≡ true) where
    abbrev run_id : String
    run_id = run_id_of p s a

    abbrev canonical : String
    canonical = p.join (pi_directory p) n

    abbrev attempt : String
    attempt = p.join (attempt_directory p run_id) m

    staged_eq : staged_path p canonical run_id ≡ p.join (pi_directory p) (staged_name p n run_id)
    unfolding staged_path
    staged_eq =
        ap (λ d. p.join d (staged_name p (p.basename canonical) run_id))
          (f.dirname-join n of_session n_named)
        ∙ ap (λ x. p.join (pi_directory p) (staged_name p x run_id))
            (f.basename-join n of_session n_named)

    attempt-ne : (k : String) → is_name k ≡ true → attempt ≢ p.join (pi_directory p) k
    attempt-ne k named e = ground (
      arith,
      sym (f.attempt_under s a m hex m_named)
          ∙ ap (λ x. p.is_under x (attempt_directory p run_id)) e
          ∙ f.session_apart s a k hex named,
    )

    canonical-ne-staged : canonical ≢ staged_path p canonical run_id
    canonical-ne-staged e = name-ne-staged p n run_id (
        sym (f.basename-join n of_session n_named)
        ∙ ap p.basename (e ∙ staged_eq)
        ∙ f.basename-join (staged_name p n run_id) of_session
            (f.staged_name-is_name s a n hex n_named))

    attempt-ne-staged : attempt ≢ staged_path p canonical run_id
    attempt-ne-staged e =
        attempt-ne (staged_name p n run_id) (f.staged_name-is_name s a n hex n_named)
          (e ∙ staged_eq)

  -- A commit of a run's attempt into the session's file has its paths apart.
  pub commit-IsLaidOut :
      (c : PendingSessionCommit) (s : ℕ) (a : String)
      → IsNonce a
      → c.run_record.run_id ≡ run_id_of p s a
      → IsAttempt p (run_id_of p s a) c.attempt_subagent_session_id
      → IsCanonical p (canonical_of c)
      → IsLaidOut p c
  commit-IsLaidOut c s a hex r (m, m_named, e) (n, n_named, k) = record {
    canonical_staged =
        rw (r, k) (eq-false_of_ne _ _ (canonical-ne-staged s a n m hex n_named m_named));
    attempt_staged =
        rw (r, k, e) (eq-false_of_ne _ _ (attempt-ne-staged s a n m hex n_named m_named));
    attempt_canonical =
        rw (k, e) (eq-false_of_ne _ _ (attempt-ne s a n m hex n_named m_named n n_named));
    kept =
        rw (k, e, f.dirname-join m (of_attempt s a hex) m_named)
          (f.session_apart s a n hex n_named);
    inside =
        rw (k, e, f.lies_inside n of_session n_named, f.lies_inside m (of_attempt s a hex) m_named)
          refl;
  }
