-- ===== src/Session/Same.antt =====
-- src/session.ts: the comparisons of records, manifests and hashes.
use subagent.Common.{
  String, ◌==◌, Bool, true, false, Option, none, some, List, [], ◌∷◌, ◌++◌, arith, ◌≡◌, inl, inr,
  refl, ap, Bool-cases, eq_refl, eq_iff,
}
use subagent.Session.{
  SessionManifest, SessionRunRecord, Action, created, resumed, not_created, text_eq, action_eq,
  bool_eq, same_record, same_manifest,
}
use subagent.Session.Commit.{find_record}

pub text_eq_refl : (o : Option String) → text_eq o o ≡ true
text_eq_refl none = refl
text_eq_refl (some a) = eq_refl a

pub text_eq-eq : (a b : Option String) → text_eq a b ≡ true → a ≡ b
text_eq-eq none none h = refl
text_eq-eq none (some b) h = ground (arith, h)
text_eq-eq (some a) none h = ground (arith, h)
text_eq-eq (some a) (some b) h = ap some ((eq_iff a b).0 h)

action_eq_refl : (a : Action) → action_eq a a ≡ true
action_eq_refl created = refl
action_eq_refl resumed = refl
action_eq_refl not_created = refl

bool_eq_refl : (a : Bool) → bool_eq a a ≡ true
bool_eq_refl true = refl
bool_eq_refl false = refl

pub same_record_refl : (r : SessionRunRecord) → same_record r r ≡ true
unfolding same_record
same_record_refl r = grind (
  arith,
  eq_refl,
  action_eq_refl r.action,
  bool_eq_refl r.success,
  text_eq_refl r.subagent_session_id,
  text_eq_refl r.attempt_subagent_session_id,
)

pub same_manifest_refl : (m : SessionManifest) → same_manifest m m ≡ true
unfolding same_manifest
same_manifest_refl m =
    grind (arith, eq_refl, text_eq_refl m.skill, text_eq_refl m.initial_model_class)

pub find_record-append :
    (r : SessionRunRecord) (xs : List SessionRunRecord)
    → find_record r.run_id xs ≡ none
    → find_record r.run_id (xs ++ r ∷ []) ≡ some r
unfolding find_record
find_record-append r [] h = ground (arith, eq_refl r.run_id)
find_record-append r (x ∷ xs) h = elim (Bool-cases (x.run_id == r.run_id)) [
  | inl e ↦ ground (arith, e, h)
  | inr e ↦ ground (arith, e, h, find_record-append r xs (ground (arith, e, h)))
]
