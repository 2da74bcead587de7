-- ===== src/ClientStart/Admission/Launch.antt =====
-- src/clientStartAdmission.ts: the guard before a child is launched, against containment.
use subagent.Common.{
  ◌≡◌, ◌≢◌, refl, sym, ap, subst, ◌∙◌, true, Option, none, some, List, String, eq_iff, Failure,
  Result, ok, err, thrown, arith, Bool-cases, inl, inr,
}
use subagent.Common.State.{M, guard, fail}
use subagent.ClientStart.Records.{
  Platform, ClientStartBinding, PersistedBinding, PersistedRecord, bound, fence,
}
use subagent.ClientStart.Records.RoundTrip.{validate-IsValidFor}
use subagent.ClientStart.Admission.{
  Disk, Moment, Reading, LockOutcome, busy, held, lost, locked, liveness_unknown, found, absent,
  refused, reading, read_record, binding_path, Disposition, unknown, conflict,
  valid_client_start_id, validate_client_start_id, write_as, write_replacement, with_admission_lock,
  contain_bound, contain_record, contain_reading, contain_locked, contain, or_unknown,
  request_client_start_containment, same_binding, launch_bound, launch_allowed, launch_reading,
  with_client_start_launch_guard,
}
use subagent.ClientStart.Admission.Changes.{slot, cancel}
use subagent.ClientStart.Admission.Histories.{
  is_stopped, Call, AreInTurn, run, run-Follows, slot-put, cancelled-slot, content-found,
}
use subagent.ClientStart.Admission.Claiming.{bind-eq-ok, locked-eq-ok, write_as-eq-ok}

-- The file of an id holds a record under which no child is launched.
abbrev pub IsStopped : Platform → String → Disk → Type 0
IsStopped p id d = (r : PersistedRecord) × (slot p id d ≡ found r) × (is_stopped r ≡ true)

module _ (p : Platform) (m : Moment) (parses : p.date_parses m.now ≡ true) (id : String)
    (d : Disk) where
  contain_bound-IsStopped :
      (b : PersistedBinding) (c : Option String) {x : Disposition} {s : Disk}
      → b.cancellation_requested_at ≡ c
      → slot p id d ≡ found (bound b)
      → contain_bound m (binding_path p id) b c d ≡ (ok x, s)
      → IsStopped p id s
  unfolding contain_bound write_replacement
  contain_bound-IsStopped b none e there_now h =
      let (u, t, done, rest) = bind-eq-ok (write_as m.write (binding_path p id) _ d) _ h in
      let there = write_as-eq-ok m.write (binding_path p id) _ d done in
      (
        bound (cancel b m.now),
        subst (λ q. slot p id q ≡ found (bound (cancel b m.now))) (sym there ∙ ap (λ y. y.1) rest)
            (cancelled-slot p m parses id d b there_now),
        refl,
      )
  contain_bound-IsStopped b (some at) e there_now h =
      (bound b, rw (← ap (λ y. y.1) h) there_now, rw e refl)

  contain_reading-IsStopped :
      (r : Reading) {x : Disposition} {s : Disk}
      → slot p id d ≡ r
      → contain_reading m (binding_path p id) id r d ≡ (ok x, s)
      → IsStopped p id s
  unfolding contain_reading contain_record write_replacement
  contain_reading-IsStopped (found (bound b)) e h = contain_bound-IsStopped b _ refl e h
  contain_reading-IsStopped (found (fence i at)) e h = (fence i at, rw (← ap (λ y. y.1) h) e, refl)
  contain_reading-IsStopped absent e h =
      let (u, t, done, rest) = bind-eq-ok (write_as m.write (binding_path p id) _ d) _ h in
      let there = write_as-eq-ok m.write (binding_path p id) _ d done in
      (
        fence id m.now,
        subst (λ q. slot p id q ≡ found (fence id m.now)) (sym there ∙ ap (λ y. y.1) rest)
            (slot-put p id d (fence id m.now) (refl, parses)),
        refl,
      )
  contain_reading-IsStopped (refused x) e h = absurd (cc (ap (λ y. y.0) h))

or_unknown-eq :
    (id : String) (x : Result Disposition × Disk) {r : Disposition} {s : Disk}
    → or_unknown id x ≡ (ok r, s)
    → r ≢ unknown id
    → x ≡ (ok r, s)
unfolding or_unknown
or_unknown-eq id (ok y, s) h n = h
or_unknown-eq id (err e, s) h n = absurd (n (cc (ap (λ y. y.0) h)))

-- A containment that answers fenced or bound leaves the id stopped.
pub containment-IsStopped :
    (p : Platform) (m : Moment) (id : String) (d s : Disk) (r : Disposition)
    → p.date_parses m.now ≡ true
    → request_client_start_containment p m id d ≡ (ok r, s)
    → r ≢ unknown id
    → IsStopped p id s
unfolding request_client_start_containment validate_client_start_id contain with_admission_lock
    contain_locked
containment-IsStopped p m id d s r parses h n =
    let (u, t, valid, h₁) = bind-eq-ok (guard (valid_client_start_id id) conflict d) _ h in
    let inside = or_unknown-eq id (contain p m id t) h₁ n in
    let (is_held, h₂) = locked-eq-ok m.lock _ t inside in
    let (u', t', made, h₃) = bind-eq-ok (guard m.directory thrown t) _ h₂ in
    contain_reading-IsStopped p m parses id t' (slot p id t') refl h₃

launch_bound-eq-ok : (c : Option String) {u : Unit {0}} → launch_bound c ≡ ok u → c ≡ none
unfolding launch_bound
launch_bound-eq-ok none h = refl
launch_bound-eq-ok (some at) h = cc

launch_allowed-not_stopped :
    (b : ClientStartBinding) (r : PersistedRecord) {u : Unit {0}}
    → launch_allowed b r ≡ ok u
    → (k : PersistedBinding) × (r ≡ bound k)
      × (k.request_sha256 ≡ b.request_sha256)
      × (k.run_id ≡ b.run_id)
      × (k.cancellation_requested_at ≡ none)
unfolding launch_allowed same_binding
launch_allowed-not_stopped b (fence i at) h = cc
launch_allowed-not_stopped b (bound k) h = elim (Bool-cases (same_binding b k)) [
  | inl same ↦ (
    k,
    refl,
    ground (arith, eq_iff k.request_sha256 b.request_sha256),
    ground (arith, eq_iff k.run_id b.run_id),
    launch_bound-eq-ok _ (rw (same, launch_allowed) at h),
  )
  | inr differs ↦ cc (rw (differs, launch_allowed) at h)
]

launch_reading-eq-ok :
    (b : ClientStartBinding) (x : Result PersistedRecord) {u : Unit {0}}
    → launch_reading b x ≡ ok u
    → (r : PersistedRecord) × (x ≡ ok r) × (launch_allowed b r ≡ ok u)
unfolding launch_reading
launch_reading-eq-ok b (ok r) h = (r, refl, h)
launch_reading-eq-ok b (err e) h = cc

-- The record of the binding, as it is held: for this binding, and not cancelled.
abbrev pub IsLaunchable : Platform → ClientStartBinding → Disk → Type 0
IsLaunchable p b d =
    (k : PersistedBinding) × (slot p b.client_start_id d ≡ found (bound k))
    × (k.binding ≡ b)
    × (k.cancellation_requested_at ≡ none)

-- The directory after a lock, where what ran under it wrote nothing.
unfoldable pub left_by : LockOutcome → Disk → Disk
left_by busy d = d
left_by held d = d
left_by (lost others) d = others d

-- The guard errs, and what it answers and leaves is the same for every operation: it runs none.
abbrev pub IsRefused {ℓ} : (A : Type ℓ) → Platform → Moment → ClientStartBinding → Disk → Type ℓ
IsRefused A p m b d =
    (e : Failure) × ((operation : M Disk A)
      → with_client_start_launch_guard p m b operation d ≡ (err e, left_by m.lock d))

-- What a guard does: with the lock held and the binding launchable it is its operation; with the
-- lock found changed afterwards it errs, after its operation; else it refuses.
pub data Guarded {ℓ} {A : Type ℓ} (p : Platform) (m : Moment) (b : ClientStartBinding)
    (operation : M Disk A) (d : Disk) : Type ℓ where
  launches :
      m.lock ≡ held
      → IsLaunchable p b d
      → with_client_start_launch_guard p m b operation d ≡ operation d
      → Guarded p m b operation d
  disturbed :
      (others : Disk → Disk)
      → m.lock ≡ lost others
      → IsLaunchable p b d
      → with_client_start_launch_guard p m b operation d
        ≡ (err liveness_unknown, others (operation d).1)
      → Guarded p m b operation d
  refuses : IsRefused A p m b d → Guarded p m b operation d

allowed-IsLaunchable :
    (p : Platform) (b : ClientStartBinding) (d : Disk) {u : Unit {0}}
    → launch_reading b (read_record p b.client_start_id d) ≡ ok u
    → IsLaunchable p b d
unfolding read_record reading
allowed-IsLaunchable p b d h =
    let (r, there, allowed) = launch_reading-eq-ok b (read_record p b.client_start_id d) h in
    let (k, is_bound, sha, run_id, fresh) = launch_allowed-not_stopped b r allowed in
    let slotted : slot p b.client_start_id d ≡ found (bound k) = rw (there, is_bound) in
    let (v, _, valid) = content-found p b.client_start_id _ (bound k) slotted in
    let (same_id, _, _) = validate-IsValidFor p v b.client_start_id (bound k) valid in
    (k, slotted, cc, fresh)

module _ {ℓ} {A : Type ℓ} (p : Platform) (m : Moment) (b : ClientStartBinding)
    (operation : M Disk A) (d : Disk) where
  guard-Guarded :
      (l : LockOutcome) (x : Result (Unit {0}))
      → m.lock ≡ l
      → launch_reading b (read_record p b.client_start_id d) ≡ x
      → Guarded p m b operation d
  unfolding with_client_start_launch_guard with_admission_lock locked left_by
  guard-Guarded busy x e h = refuses (liveness_unknown, λ op. rw e refl)
  guard-Guarded held (ok u) e h = launches e (allowed-IsLaunchable p b d h) (rw (e, h) refl)
  guard-Guarded held (err f) e h = refuses (f, λ op. rw (e, h) refl)
  guard-Guarded (lost others) (ok u) e h =
      disturbed others e (allowed-IsLaunchable p b d h) (rw (e, h) refl)
  guard-Guarded (lost others) (err f) e h = refuses (liveness_unknown, λ op. rw (e, h) refl)

  pub launch_guard_sound : Guarded p m b operation d
  launch_guard_sound =
      guard-Guarded m.lock (launch_reading b (read_record p b.client_start_id d)) refl refl

not_stopped :
    (k : PersistedBinding) → k.cancellation_requested_at ≡ none → is_stopped (bound k) ≡ true → ⊥
not_stopped k e h = ground arith

stopped-ne-launchable :
    (p : Platform) (b : ClientStartBinding) (d : Disk)
    → IsStopped p b.client_start_id d
    → IsLaunchable p b d
    → ⊥
stopped-ne-launchable p b d (r, there, is_over) (k, held_there, _, fresh) =
    let same : r ≡ bound k = cc (there, held_there) in not_stopped k fresh (rw same at is_over)

stopped-IsRefused {ℓ} :
    (A : Type ℓ) (p : Platform) (m : Moment) (b : ClientStartBinding) (d : Disk)
    → IsStopped p b.client_start_id d
    → IsRefused A p m b d
stopped-IsRefused A p m b d h = elim (launch_guard_sound {A = A} p m b (fail thrown) d) [
  | launches _ l _ ↦ absurd (stopped-ne-launchable p b d h l)
  | disturbed _ _ l _ ↦ absurd (stopped-ne-launchable p b d h l)
  | refuses r ↦ r
]

-- Once a containment has answered fenced or bound for an id, no launch guard for that id runs its
-- operation, whatever calls are made in between, where the clocks of these and of the containment
-- print dates that parse and none of the calls in between finds its lock changed at the release:
-- the guard errs, and what it answers and leaves is the same for every operation.
pub no_launch_after_containment {ℓ} :
    (A : Type ℓ) (p : Platform) (m m' : Moment) (b : ClientStartBinding) (d s : Disk)
    (r : Disposition) (between : List (Moment × Call))
    → p.date_parses m.now ≡ true
    → AreInTurn p between
    → request_client_start_containment p m b.client_start_id d ≡ (ok r, s)
    → r ≢ unknown b.client_start_id
    → IsRefused A p m' b (run p between s)
no_launch_after_containment A p m m' b d s r between parses in_turn h n =
    let (x, there, is_over) = containment-IsStopped p m b.client_start_id d s r parses h n in
    let (y, later, f) = run-Follows p between s b.client_start_id x in_turn there in
    stopped-IsRefused A p m' b (run p between s) (y, later, rw (f.settled is_over) is_over)
