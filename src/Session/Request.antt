-- ===== src/Session/Request.antt =====
-- src/session.ts: which requests a session takes, by its manifest, and what a run must deliver.
pub mod Decision
use subagent.Common.{
  ℕ, String, ◌==◌, Bool, true, false, not, ◌&&◌, ◌||◌, leb, is_alnum, is_id_char, all, length,
  codes, trim, is_blank, Option, none, some, List, [], ◌∷◌, if◌then◌else◌, Result, ok, err, Failure,
  validation, FailureReasonCode,
}
use subagent.Session.{SessionManifest, text_eq}

pub data ResumeMode : Type 0 where
  new resume_or_new require_existing : ResumeMode

-- `no_packet` is the policy "none".
pub data SessionPacketPolicy : Type 0 where
  no_packet required best_effort : SessionPacketPolicy

pub data PacketParseStatus : Type 0 where
  valid missing invalid not_run : PacketParseStatus

pub data Verdict : Type 0 where
  ready needs_repair blocked inconclusive : Verdict

-- The fields of `ContractPacketV1` that a policy reads.
pub record ContractPacket : Type 0 where
  pub verdict : Verdict
  pub blockers : List String

-- The fields that a session's call does not take, each with whether the request has it.
pub record RawFields : Type 0 where
  pub recursive_delegation : Bool
  pub effect_profile : Bool
  pub expected_skill_sha256 : Bool
  pub skill_snapshot_binding : Bool
  pub session_id : Bool
  pub continuity : Bool

-- A request after `validateAndResolveRequest`.
pub record SessionRequest : Type 0 where
  pub session_key : String
  pub cwd : String
  pub skill : Option String
  pub model_class : String
  pub resume_mode : ResumeMode
  pub packet_policy : SessionPacketPolicy

unfoldable pub assert_no_raw_session_id : RawFields → Result (Unit {0})
assert_no_raw_session_id r =
    if r.recursive_delegation
    then err (validation FailureReasonCode.recursive_delegation_unsupported)
    else if r.effect_profile
    then err (validation FailureReasonCode.effect_profile_unsupported)
    else if r.expected_skill_sha256
    then err (validation FailureReasonCode.skill_binding_unsupported)
    else if r.skill_snapshot_binding
    then err (validation FailureReasonCode.skill_binding_unsupported)
    else if r.session_id
    then err (validation FailureReasonCode.raw_session_id_unsupported)
    else if r.continuity
    then err (validation FailureReasonCode.raw_session_id_unsupported)
    else ok tt

-- `SESSION_KEY_PATTERN`.
unfoldable pub is_session_key : List ℕ → Bool
is_session_key [] = false
is_session_key (c ∷ cs) = is_alnum c && all is_id_char cs && leb (length cs) 127

-- A value that is not a string is `none`.
unfoldable pub validate_session_key : Option String → Result String
validate_session_key none = err (validation FailureReasonCode.invalid_session_key)
validate_session_key (some value) =
    if is_blank value
    then err (validation FailureReasonCode.invalid_session_key)
    else if not (is_session_key (codes (trim value)))
    then err (validation FailureReasonCode.invalid_session_key)
    else ok (trim value)

-- `validateOptionalChoice` on the texts of the choices, each with the value that it names.
unfoldable pub choose {ℓ} : {A : Type ℓ} → String → List (String × A) → Failure → Result A
choose value [] e = err e
choose value (c ∷ cs) e = let rest = choose value cs e in if value == c.0 then ok c.1 else rest

abbrev pub validate_optional_choice {ℓ} :
    {A : Type ℓ} → Option String → List (String × A) → A → Failure → Result A
validate_optional_choice none choices default e = ok default
validate_optional_choice (some value) choices default e = choose value choices e

unfoldable pub validate_resume_mode : Option String → Result ResumeMode
validate_resume_mode value =
    validate_optional_choice value
      (("new", new)
        ∷ ("resume_or_new", resume_or_new)
        ∷ ("require_existing", require_existing)
        ∷ [])
      resume_or_new (validation FailureReasonCode.invalid_resume_mode)

unfoldable pub validate_session_packet_policy : Option String → Result SessionPacketPolicy
validate_session_packet_policy value =
    validate_optional_choice value
      (("none", no_packet) ∷ ("required", required) ∷ ("best_effort", best_effort) ∷ []) no_packet
      (validation FailureReasonCode.invalid_packet_policy)

abbrev pub is_ready : Verdict → Bool
is_ready ready = true
is_ready _ = false

abbrev pub is_empty {ℓ} : {A : Type ℓ} → List A → Bool
is_empty [] = true
is_empty (x ∷ xs) = false

abbrev pub is_ready_packet : PacketParseStatus → Option ContractPacket → Bool
is_ready_packet valid (some packet) = is_ready packet.verdict && is_empty packet.blockers
is_ready_packet _ _ = false

unfoldable pub packet_satisfied :
    SessionPacketPolicy → PacketParseStatus → Option ContractPacket → Bool
packet_satisfied no_packet status packet = true
packet_satisfied best_effort status packet = true
packet_satisfied required status packet = is_ready_packet status packet

unfoldable pub assert_existing_session : Option SessionManifest → ResumeMode → Result (Unit {0})
assert_existing_session none require_existing =
    err (validation FailureReasonCode.session_does_not_exist)
assert_existing_session _ _ = ok tt

unfoldable pub assert_new_session_allowed : Option SessionManifest → ResumeMode → Result (Unit {0})
assert_new_session_allowed (some m) new = err (validation FailureReasonCode.session_already_exists)
assert_new_session_allowed _ _ = ok tt

unfoldable pub assert_manifest_compatible :
    SessionManifest → String → Option String → Result (Unit {0})
assert_manifest_compatible m cwd skill =
    if not (m.cwd == cwd)
    then err (validation FailureReasonCode.session_cwd_mismatch)
    else if not (text_eq m.skill skill)
    then err (validation FailureReasonCode.session_skill_mismatch)
    else ok tt

abbrev pub assert_compatible : Option SessionManifest → SessionRequest → Result (Unit {0})
assert_compatible none q = ok tt
assert_compatible (some m) q = assert_manifest_compatible m q.cwd q.skill

abbrev pub and_then : Result (Unit {0}) → Result (Unit {0}) → Result (Unit {0})
and_then (ok u) r = r
and_then (err e) r = err e

-- The checks on the manifest, in the order of `runSubagentSession` and of its preflight.
unfoldable pub admit_request : Option SessionManifest → SessionRequest → Result (Unit {0})
admit_request manifest q =
    and_then (assert_new_session_allowed manifest q.resume_mode)
      (and_then (assert_existing_session manifest q.resume_mode) (assert_compatible manifest q))

unfoldable pub model_changed_of : Option String → String → Bool
model_changed_of none model_class = false
model_changed_of (some initial) model_class = not (initial == model_class)

-- `modelChangedFromManifest`, for manifests that name a class and not an old model reference.
unfoldable pub model_changed_from_manifest : Option SessionManifest → SessionRequest → Bool
model_changed_from_manifest none q = false
model_changed_from_manifest (some m) q = model_changed_of m.initial_model_class q.model_class
