-- ===== src/Session/Request/Decision.antt =====
-- src/session.ts: exactly which requests the checks on the manifest let through.
use subagent.Common.{
  String, Bool, true, false, Option, none, some, ok, arith, ◌≡◌, ◌↔◌, refl, ap, ◌∙◌, eq_iff,
}
use subagent.Session.{SessionManifest, text_eq}
use subagent.Session.Same.{text_eq-eq, text_eq_refl}
use subagent.Session.Request.{
  ResumeMode, new, resume_or_new, require_existing, SessionRequest, assert_existing_session,
  assert_new_session_allowed, assert_manifest_compatible, and_then, admit_request,
}

-- A new session is not asked to exist, and an old one is not asked to be new and is of the same
-- directory and skill.
abbrev pub is_for_new : ResumeMode → Bool
is_for_new require_existing = false
is_for_new _ = true

abbrev pub is_for_old : ResumeMode → Bool
is_for_old new = false
is_for_old _ = true

abbrev pub IsAdmitted : Option SessionManifest → SessionRequest → Type 0
IsAdmitted none q = is_for_new q.resume_mode ≡ true
IsAdmitted (some m) q = (is_for_old q.resume_mode ≡ true) × (m.cwd ≡ q.cwd) × (m.skill ≡ q.skill)

compatible_iff :
    (m : SessionManifest) (cwd : String) (skill : Option String)
    → (assert_manifest_compatible m cwd skill ≡ ok tt) ↔ ((m.cwd ≡ cwd) × (m.skill ≡ skill))
unfolding assert_manifest_compatible
compatible_iff m cwd skill = (
  λ h. ((eq_iff m.cwd cwd).0 (ground (arith, h)), text_eq-eq m.skill skill (ground (arith, h))),
  λ h. rw ((eq_iff m.cwd cwd).1 h.0, ap (λ s. text_eq s skill) h.1 ∙ text_eq_refl skill) refl,
)

-- The checks let a request through exactly where the session has no manifest and the mode is not
-- `require_existing`, or it has one, the mode is not `new`, and the directory and the skill of the
-- manifest are those of the request.
pub admit_request_iff :
    (manifest : Option SessionManifest) (q : SessionRequest)
    → (admit_request manifest q ≡ ok tt) ↔ IsAdmitted manifest q
unfolding admit_request assert_new_session_allowed assert_existing_session
admit_request_iff none q = of q.resume_mode refl
  where
    of :
        (mode : ResumeMode)
        → q.resume_mode ≡ mode
        → (and_then
              (assert_new_session_allowed none mode)
              (and_then (assert_existing_session none mode) (ok tt))
            ≡ ok tt)
          ↔ (is_for_new mode ≡ true)
    of new e = (λ h. refl, λ h. refl)
    of resume_or_new e = (λ h. refl, λ h. refl)
    of require_existing e = (λ h. ground (arith, h), λ h. ground (arith, h))
admit_request_iff (some m) q = of q.resume_mode
  where
    same :
        (assert_manifest_compatible m q.cwd q.skill ≡ ok tt)
        ↔ ((true ≡ true) × (m.cwd ≡ q.cwd) × (m.skill ≡ q.skill))
    same = (
      λ h. (
        refl,
        ((compatible_iff m q.cwd q.skill).0 h).0,
        ((compatible_iff m q.cwd q.skill).0 h).1,
      ),
      λ h. (compatible_iff m q.cwd q.skill).1 (h.1, h.2),
    )

    of :
        (mode : ResumeMode)
        → (and_then (assert_new_session_allowed (some m) mode) (
              and_then
                (assert_existing_session (some m) mode)
                (assert_manifest_compatible m q.cwd q.skill))
            ≡ ok tt)
          ↔ ((is_for_old mode ≡ true) × (m.cwd ≡ q.cwd) × (m.skill ≡ q.skill))
    of new = (λ h. ground (arith, h), λ h. ground (arith, h.0))
    of resume_or_new = same
    of require_existing = same
