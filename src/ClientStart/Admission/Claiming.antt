-- ===== src/ClientStart/Admission/Claiming.antt =====
-- src/clientStartAdmission.ts: what a claim that succeeds has admitted.
use subagent.Common.{
  ◌≡◌, refl, sym, ap, subst, ◌∙◌, Bool, true, false, ◌&&◌, Option, none, some, List, String, ◌==◌,
  eq_iff, leb, is_blank, is_hex, ℕ, Result, ok, err, Failure, thrown, arith, Option-cases, inl, inr,
  if◌then◌else◌,
}
use subagent.Common.Json.{Json, get, as_str}
use subagent.Common.State.{M, bind, guard, lift}
use subagent.ClientStart.Records.{
  Platform, PersistedBinding, PersistedRecord, bound, fence, max_safe, encode,
}
use subagent.ClientStart.Records.RoundTrip.{IsValidFor}
use subagent.ClientStart.Admission.{
  Disk, put, json, Moment, LockOutcome, held, busy, lost, WriteOutcome, written, failed,
  unconfirmed, Candidate, ClientStartAdmission, Reading, found, absent, refused, binding_path,
  canonical_client_start_request_sha256, valid_client_start_id, validate_client_start_id,
  new_binding, admission_from_record, same_request, same_request_of, write_as, write_replacement,
  locked, with_admission_lock, claim_reading, claim_locked, claim_id, claim_client_start_admission,
  conflict,
}
use subagent.ClientStart.Admission.Changes.{slot}
use subagent.ClientStart.Admission.Histories.{slot-put}

-- A SHA-256 digest is printed as 64 lower-case hexadecimal digits.
abbrev pub HashIsHex : Platform → Type 0
HashIsHex p = (l : List ℕ) → is_hex 64 (p.sha256 l) ≡ true

-- What the process supplies to a claim is well formed.
pub record IsValidMoment (p : Platform) (m : Moment) (c : Option Candidate) : Type 0 where
  pub run : is_blank (elim c [ none ↦ m.new_run_id | some k ↦ k.run_id ]) ≡ false
  pub admitted : p.date_parses (elim c [ none ↦ m.now | some k ↦ k.admitted_at ]) ≡ true
  pub owner : (leb m.pid max_safe && leb 1 m.pid) ≡ true
  pub instance_id : is_hex 24 m.instance_id ≡ true

pub bind-eq-ok {ℓ κ} :
    {A : Type ℓ} {B : Type κ} (x : Result A × Disk) (f : A → M Disk B) {b : B} {s' : Disk}
    → bind x f ≡ (ok b, s')
    → (a : A) × (s : Disk) × (x ≡ (ok a, s)) × (f a s ≡ (ok b, s'))
bind-eq-ok (ok a, s) f h = (a, s, refl, h)
bind-eq-ok (err e, s) f h = absurd (cc (ap (λ t. t.0) h))

pub guard-eq-ok :
    (t : Bool) (e : Failure) (d : Disk) {u : Unit {0}} {s : Disk}
    → guard t e d ≡ (ok u, s)
    → (t ≡ true) × (s ≡ d)
guard-eq-ok true e d h = (refl, sym (ap (λ x. x.1) h))
guard-eq-ok false e d h = absurd (cc (ap (λ x. x.0) h))

pub locked-eq-ok {ℓ} :
    {A : Type ℓ} (l : LockOutcome) (op : M Disk A) (d : Disk) {a : A} {s : Disk}
    → locked l op d ≡ (ok a, s)
    → (l ≡ held) × (op d ≡ (ok a, s))
unfolding locked
locked-eq-ok busy op d h = absurd (cc (ap (λ x. x.0) h))
locked-eq-ok held op d h = (refl, h)
locked-eq-ok (lost others) op d h = absurd (cc (ap (λ x. x.0) h))

pub write_as-eq-ok :
    (w : WriteOutcome) (path : String) (r : PersistedRecord) (d : Disk) {u : Unit {0}} {s : Disk}
    → write_as w path r d ≡ (ok u, s)
    → s ≡ put d path (json (encode r))
unfolding write_as
write_as-eq-ok written path r d h = sym (ap (λ x. x.1) h)
write_as-eq-ok failed path r d h = absurd (cc (ap (λ x. x.0) h))
write_as-eq-ok unconfirmed path r d h = absurd (cc (ap (λ x. x.0) h))

-- The binding that an admission was made from, as the directory holds it.
pub record Admitted (p : Platform) (id sha : String) (a : ClientStartAdmission) (d : Disk)
    : Type 0 where
  pub stored : PersistedBinding
  pub held_there : slot p id d ≡ found (bound stored)
  pub request : stored.request_sha256 ≡ sha
  pub made_from : a ≡ admission_from_record stored a.created

same_request-eq-ok :
    (sha : String) (created : Bool) (b : PersistedBinding) {a : ClientStartAdmission}
    → same_request sha created b ≡ ok a
    → (b.request_sha256 ≡ sha) × (a ≡ admission_from_record b created)
unfolding same_request
same_request-eq-ok sha created b h = ground (arith, eq_iff b.request_sha256 sha)

Admitted-intro :
    (p : Platform) (id sha : String) (created : Bool) (b : PersistedBinding)
    {a : ClientStartAdmission} {s d : Disk}
    → s ≡ d
    → slot p id d ≡ found (bound b)
    → same_request sha created b ≡ ok a
    → Admitted p id sha a s
unfolding admission_from_record
Admitted-intro p id sha created b q e h =
    let (same, from) = same_request-eq-ok sha created b h in
    let recreated =
      from
      ∙ ap (admission_from_record b) (sym (ap (λ (x : ClientStartAdmission). x.created) from)) in
    record { stored = b; held_there = rw q e; request = same; made_from = recreated }

module _ (p : Platform) (m : Moment) (id sha : String) (b : PersistedBinding) (d : Disk) where
  claim_reading-Admitted :
      (r : Reading) {a : ClientStartAdmission} {s : Disk}
      → slot p id d ≡ r
      → slot p id (put d (binding_path p id) (json (encode (bound b)))) ≡ found (bound b)
      → claim_reading m (binding_path p id) sha b r d ≡ (ok a, s)
      → Admitted p id sha a s
  unfolding claim_reading same_request_of write_replacement
  claim_reading-Admitted (found (bound k)) e w h =
      Admitted-intro p id sha false k (sym (ap (λ x. x.1) h)) e (ap (λ x. x.0) h)
  claim_reading-Admitted (found (fence i at)) e w h = absurd (cc (ap (λ x. x.0) h))
  claim_reading-Admitted absent e w h =
      let (u, t, done, rest) = bind-eq-ok (write_as m.write (binding_path p id) (bound b) d) _ h in
      let there = write_as-eq-ok m.write (binding_path p id) (bound b) d done in
      Admitted-intro p id sha true b (sym (ap (λ x. x.1) rest) ∙ there) w (ap (λ x. x.0) rest)
  claim_reading-Admitted (refused x) e w h = absurd (cc (ap (λ x. x.0) h))

new_binding-IsValidFor :
    (p : Platform) (m : Moment) (c : Option Candidate) (id sha : String)
    → is_hex 64 sha ≡ true
    → IsValidMoment p m c
    → IsValidFor p id (bound (new_binding m c id sha))
unfolding new_binding
new_binding-IsValidFor p m c id sha h v = (
  refl,
  record {
    request = h;
    run = v.run;
    admitted = v.admitted;
    owner = v.owner;
    instance_id = v.instance_id;
  },
  tt,
)

pub digest-injective {ℓ} : {A : Type ℓ} {x y : A} → ok x ≡ ok y → x ≡ y
digest-injective h = cc

digest-is_hex :
    (p : Platform) (request : Json) (sha : String)
    → HashIsHex p
    → canonical_client_start_request_sha256 p request ≡ ok sha
    → is_hex 64 sha ≡ true
unfolding canonical_client_start_request_sha256
digest-is_hex p request sha h e = elim (Option-cases (p.parse_request request)) [
  | inl refuses ↦ cc (rw refuses at e)
  | inr (v, parses) ↦ let q = rw parses at e in rw (← digest-injective q) (h _)
]

claim_id-Admitted :
    (p : Platform) (m : Moment) (request : Json) (c : Option Candidate) (id : String) (d : Disk)
    {r : Option ClientStartAdmission} {s : Disk}
    → HashIsHex p
    → IsValidMoment p m c
    → claim_id p m request c id d ≡ (ok r, s)
    → (sha : String) × (a : ClientStartAdmission) × (canonical_client_start_request_sha256 p request
        ≡ ok sha)
      × (r ≡ some a)
      × (valid_client_start_id id ≡ true)
      × Admitted p id sha a s
unfolding claim_id validate_client_start_id with_admission_lock claim_locked
claim_id-Admitted p m request c id d hex v h =
    let (u, t, valid, h₁) = bind-eq-ok (guard (valid_client_start_id id) conflict d) _ h in
    let (is_valid, e₁) = guard-eq-ok _ _ d valid in
    let (sha, t₂, digest, h₂) =
      bind-eq-ok (lift (canonical_client_start_request_sha256 p request) t) _ h₁ in
    let (u₃, t₃, made, h₃) = bind-eq-ok (guard m.directory thrown t₂) _ h₂ in
    let (is_made, e₃) = guard-eq-ok _ _ t₂ made in
    let (a, t₄, admitted, h₄) =
      bind-eq-ok (locked m.lock (claim_locked p m id sha (new_binding m c id sha)) t₃) _ h₃ in
    let (is_held, inside) = locked-eq-ok m.lock _ t₃ admitted in
    let hash : is_hex 64 sha ≡ true = digest-is_hex p request sha hex (ap (λ x. x.0) digest) in
    let kept =
      claim_reading-Admitted p m id sha (new_binding m c id sha) t₃ (slot p id t₃) refl
        (slot-put p id t₃ (bound (new_binding m c id sha))
          (new_binding-IsValidFor p m c id sha hash v))
        inside in
    (
      sha,
      a,
      ap (λ x. x.0) digest,
      sym (digest-injective (ap (λ x. x.0) h₄)),
      is_valid,
      subst (Admitted p id sha a) (ap (λ x. x.1) h₄) kept,
    )

-- A claim that returns an admission held its lock.
pub claim-held :
    (p : Platform) (m : Moment) (request : Json) (c : Option Candidate) (id : String) (d : Disk)
    {r : Option ClientStartAdmission} {s : Disk}
    → as_str (get "client_start_id" request) ≡ some id
    → claim_client_start_admission p m request c d ≡ (ok r, s)
    → m.lock ≡ held
unfolding claim_client_start_admission claim_id validate_client_start_id with_admission_lock
claim-held p m request c id d e h =
    let inside = rw (e, claim_client_start_admission) at h in
    let (u, t, _, h₁) = bind-eq-ok (guard (valid_client_start_id id) conflict d) _ inside in
    let (sha, t₂, _, h₂) =
      bind-eq-ok (lift (canonical_client_start_request_sha256 p request) t) _ h₁ in
    let (u₃, t₃, _, h₃) = bind-eq-ok (guard m.directory thrown t₂) _ h₂ in
    let (a, t₄, admitted, _) =
      bind-eq-ok (locked m.lock (claim_locked p m id sha (new_binding m c id sha)) t₃) _ h₃ in
    (locked-eq-ok m.lock _ t₃ admitted).0

-- A claim that returns an admission leaves its binding in the directory, for this request.
pub claim-Admitted :
    (p : Platform) (m : Moment) (request : Json) (c : Option Candidate) (id : String) (d : Disk)
    {r : Option ClientStartAdmission} {s : Disk}
    → HashIsHex p
    → IsValidMoment p m c
    → as_str (get "client_start_id" request) ≡ some id
    → claim_client_start_admission p m request c d ≡ (ok r, s)
    → (sha : String) × (a : ClientStartAdmission) × (canonical_client_start_request_sha256 p request
        ≡ ok sha)
      × (r ≡ some a)
      × (valid_client_start_id id ≡ true)
      × Admitted p id sha a s
unfolding claim_client_start_admission
claim-Admitted p m request c id d hex v e h =
    claim_id-Admitted p m request c id d hex v (rw (e, claim_client_start_admission) at h)

-- A claim that obtains the lock where a binding is held answers by that binding alone.
pub claim-found :
    (p : Platform) (m : Moment) (request : Json) (c : Option Candidate) (id sha : String)
    (b : PersistedBinding) (d : Disk)
    → as_str (get "client_start_id" request) ≡ some id
    → valid_client_start_id id ≡ true
    → canonical_client_start_request_sha256 p request ≡ ok sha
    → m.directory ≡ true
    → m.lock ≡ held
    → slot p id d ≡ found (bound b)
    → claim_client_start_admission p m request c d ≡ (
      (if b.request_sha256 == sha then ok (some (admission_from_record b false)) else err conflict),
      d,
    )
unfolding claim_client_start_admission with_admission_lock claim_locked validate_client_start_id
    same_request
claim-found p m request c id sha b d e valid digest made lock held_there =
    rw (e, claim_client_start_admission, valid, digest, made, lock, held_there) (ground arith)
