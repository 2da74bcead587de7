-- ===== src/ClientStart/Admission/Histories.antt =====
-- src/clientStartAdmission.ts: what a directory of records keeps over any sequence of calls.
use subagent.Common.{
  ◌≡◌, refl, sym, ◌∙◌, Bool, true, false, Option, none, some, List, [], ◌∷◌, String, ◌==◌, eq_iff,
  eq_refl, Result, ok, err, enoent, validation, Bool-cases, Option-cases, inl, inr,
}
use subagent.Common.Json.{Json, get, as_str}
use subagent.ClientStart.Records.{
  Platform, PersistedBinding, PersistedRecord, bound, fence, encode, validate_persisted_record,
}
use subagent.ClientStart.Records.RoundTrip.{
  IsValidFor, validate-IsValidFor, validate_same_id, validate-ne-enoent, validate-encode,
}
use subagent.ClientStart.Admission.{
  Disk, put, Content, json, unreadable, Moment, Candidate, found, absent, reading, read_record,
  read_content, binding_path, claim_client_start_admission, request_client_start_containment,
}
use subagent.ClientStart.Admission.Changes.{
  slot, cancel, Change, unchanged, created, cancelled, claim-Change, containment-Change, IsKept,
}

-- The record without its cancellation mark.
abbrev pub unmarked : PersistedRecord → PersistedRecord
unmarked (bound b) = bound (record b { cancellation_requested_at = none })
unmarked (fence id at) = fence id at

-- A record under which no child is launched.
abbrev pub is_stopped : PersistedRecord → Bool
is_stopped (bound b) = elim b.cancellation_requested_at [ none ↦ false | some at ↦ true ]
is_stopped (fence id at) = true

-- A later record of the same id: the same, but for a mark that may be set once.
pub record Follows (r r' : PersistedRecord) : Type 0 where
  pub identity : unmarked r' ≡ unmarked r
  pub settled : is_stopped r ≡ true → r' ≡ r

Follows-refl : (r : PersistedRecord) → Follows r r
Follows-refl r = record { identity = refl; settled = λ h. refl }

pub Follows-trans : {r s t : PersistedRecord} → Follows r s → Follows s t → Follows r t
Follows-trans f g = record {
  identity = g.identity ∙ f.identity;
  settled = λ h. let e = f.settled h in g.settled (rw e h) ∙ e;
}

Follows-cancel :
    (b : PersistedBinding) (at : String)
    → b.cancellation_requested_at ≡ none
    → Follows (bound b) (bound (cancel b at))
Follows-cancel b at e = record { identity = refl; settled = λ h. cc (rw e at h) }

pub reading-found :
    (x : Result PersistedRecord) (r : PersistedRecord) → reading x ≡ found r → x ≡ ok r
unfolding reading
reading-found (ok s) r h = cc
reading-found (err (validation c)) r h = cc
reading-found (err enoent) r h = cc
reading-found (err _) r h = cc

pub content-found :
    (p : Platform) (id : String) (c : Option Content) (r : PersistedRecord)
    → reading (read_content p id c) ≡ found r
    → (v : Json) × (c ≡ some (json v)) × (validate_persisted_record p v id ≡ ok r)
unfolding read_content reading
content-found p id none r h = cc
content-found p id (some unreadable) r h = cc
content-found p id (some (json v)) r h = (v, refl, reading-found _ r h)

reading-absent : (x : Result PersistedRecord) → reading x ≡ absent → x ≡ err enoent
unfolding reading
reading-absent (ok s) h = cc
reading-absent (err enoent) h = refl
reading-absent (err _) h = cc

content-absent :
    (p : Platform) (id : String) (c : Option Content)
    → reading (read_content p id c) ≡ absent
    → c ≡ none
unfolding read_content reading
content-absent p id none h = refl
content-absent p id (some unreadable) h = cc
content-absent p id (some (json v)) h = absurd (validate-ne-enoent p v id (reading-absent _ h))

-- A valid record that was just written is read back.
pub slot-put :
    (p : Platform) (id : String) (d : Disk) (r : PersistedRecord)
    → IsValidFor p id r
    → slot p id (put d (binding_path p id) (json (encode r))) ≡ found r
unfolding read_record read_content reading
slot-put p id d r v = rw (eq_refl (binding_path p id), validate-encode p id r v)

-- A file of another name is not touched.
slot-put_ne :
    (p : Platform) (id : String) (d : Disk) (path : String) (c : Content)
    → (binding_path p id == path) ≡ false
    → slot p id (put d path c) ≡ slot p id d
unfolding read_record
slot-put_ne p id d path c e = rw e

module _ (p : Platform) (m : Moment) (parses : p.date_parses m.now ≡ true) (id : String)
    (d : Disk) where
  cancel-IsValidFor :
      (b : PersistedBinding) → IsValidFor p id (bound b) → IsValidFor p id (bound (cancel b m.now))
  cancel-IsValidFor b (same, v, _) = (
    same,
    record {
      request = v.request;
      run = v.run;
      admitted = v.admitted;
      owner = v.owner;
      instance_id = v.instance_id;
    },
    parses,
  )

  pub cancelled-slot :
      (b : PersistedBinding)
      → slot p id d ≡ found (bound b)
      → slot p id (put d (binding_path p id) (json (encode (bound (cancel b m.now)))))
        ≡ found (bound (cancel b m.now))
  unfolding read_record
  cancelled-slot b e =
      let (v, _, valid) = content-found p id (d (binding_path p id)) (bound b) e in
      slot-put p id d _ (cancel-IsValidFor b (validate-IsValidFor p v id (bound b) valid))

  own-Follows :
      (other : String) (r : PersistedRecord) (b : PersistedBinding)
      → slot p id d ≡ found (bound b)
      → b.cancellation_requested_at ≡ none
      → id ≡ other
      → slot p other d ≡ found r
      → (r' : PersistedRecord) × (slot p other
            (put d (binding_path p id) (json (encode (bound (cancel b m.now)))))
          ≡ found r')
        × Follows r r'
  own-Follows other r b held unmarked_yet q e =
      let here : slot p id d ≡ found r = rw q e in
      let same : r ≡ bound b = cc in
      (
        bound (cancel b m.now),
        rw (← q) (cancelled-slot b held),
        rw same (Follows-cancel b m.now unmarked_yet),
      )

  -- Whatever a call about `id` does, a record that is held for any id is followed there.
  Change-Follows :
      (other : String) (r : PersistedRecord) {d' : Disk}
      → Change p m id d d'
      → slot p other d ≡ found r
      → (r' : PersistedRecord) × (slot p other d' ≡ found r') × Follows r r'
  unfolding read_record
  Change-Follows other r unchanged e = (r, e, Follows-refl r)
  Change-Follows other r (created r₀ none_there) e =
      elim (Bool-cases (binding_path p other == binding_path p id)) [
        | inl same ↦
            let (v, there, _) = content-found p other (d (binding_path p other)) r e in
            let q = (eq_iff _ _).0 same in
            let missing = content-absent p id (d (binding_path p id)) none_there in absurd (cc)
        | inr ne ↦ (r, slot-put_ne p other d _ _ ne ∙ e, Follows-refl r)
      ]
  Change-Follows other r (cancelled b held unmarked_yet) e =
      elim (Bool-cases (binding_path p other == binding_path p id)) [
        | inl same ↦
            let (v, there, valid) = content-found p other (d (binding_path p other)) r e in
            let (w, here, ok_here) = content-found p id (d (binding_path p id)) (bound b) held in
            let q = (eq_iff _ _).0 same in
            let one : v ≡ w = cc in
            own-Follows other r b held unmarked_yet
              (sym (validate_same_id p w other id r (bound b) (rw one at valid) ok_here)) e
        | inr ne ↦ (r, slot-put_ne p other d _ _ ne ∙ e, Follows-refl r)
      ]

-- A call on the directory. Finding, resolving and the launch guard write nothing.
pub data Call : Type 0 where
  claims : Json → Option Candidate → Call
  contains : String → Call

unfoldable pub perform : Platform → Moment × Call → Disk → Disk
perform p (m, claims request c) d = (claim_client_start_admission p m request c d).1
perform p (m, contains id) d = (request_client_start_containment p m id d).1

-- The directory after calls of any processes, in the order in which they take the lock.
unfoldable pub run : Platform → List (Moment × Call) → Disk → Disk
run p [] d = d
run p (c ∷ cs) d = run p cs (perform p c d)

-- Each call's clock prints a date that parses, and none finds its lock changed at the release.
abbrev pub AreInTurn : Platform → List (Moment × Call) → Type 0
AreInTurn p [] = Unit
AreInTurn p ((m, c) ∷ cs) = (p.date_parses m.now ≡ true) × IsKept m.lock × AreInTurn p cs

claim-none :
    (p : Platform) (m : Moment) (request : Json) (c : Option Candidate) (d : Disk)
    → as_str (get "client_start_id" request) ≡ none
    → (claim_client_start_admission p m request c d).1 ≡ d
unfolding claim_client_start_admission
claim-none p m request c d e = rw (e, claim_client_start_admission)

pub perform-Follows :
    (p : Platform) (m : Moment) (c : Call) (d : Disk) (id : String) (r : PersistedRecord)
    → p.date_parses m.now ≡ true
    → IsKept m.lock
    → slot p id d ≡ found r
    → (r' : PersistedRecord) × (slot p id (perform p (m, c) d) ≡ found r') × Follows r r'
unfolding perform
perform-Follows p m (claims request c) d id r parses in_turn e =
    elim (Option-cases (as_str (get "client_start_id" request))) [
      | inl absent_id ↦ (r, rw (claim-none p m request c d absent_id) e, Follows-refl r)
      | inr (own, given) ↦
          Change-Follows p m parses own d id r (claim-Change p m own d request c in_turn given) e
    ]
perform-Follows p m (contains own) d id r parses in_turn e =
    Change-Follows p m parses own d id r (containment-Change p m own d in_turn) e

-- Over any calls of any processes, where each call's clock prints a date that parses and no call
-- finds its lock changed at the release, whether the calls obtain the lock or not and whether
-- their writes succeed or not: a record that is held for an id stays for it, its binding or fence
-- never changes, and once it is cancelled or fenced it never changes at all.
pub run-Follows :
    (p : Platform) (cs : List (Moment × Call)) (d : Disk) (id : String) (r : PersistedRecord)
    → AreInTurn p cs
    → slot p id d ≡ found r
    → (r' : PersistedRecord) × (slot p id (run p cs d) ≡ found r') × Follows r r'
unfolding run
run-Follows p [] d id r h e = (r, e, Follows-refl r)
run-Follows p ((m, c) ∷ cs) d id r (h, k, hs) e =
    let (s, e', f) = perform-Follows p m c d id r h k e in
    let (t, e'', g) = run-Follows p cs (perform p (m, c) d) id s hs e' in
    (t, e'', Follows-trans f g)
