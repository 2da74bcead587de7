-- ===== src/ClientStart/Admission/Identity.antt =====
-- src/clientStartAdmission.ts: one start id admits one run, and an exact replay returns it.
use subagent.Common.{
  ◌≡◌, ◌≢◌, sym, ap, subst, ◌∙◌, true, false, Option, some, List, String, eq_refl, eq-false_of_ne,
  ok, err,
}
use subagent.Common.Json.{Json, get, as_str}
use subagent.ClientStart.Records.{Platform, PersistedBinding, bound}
use subagent.ClientStart.Admission.{
  Disk, Moment, held, Candidate, ClientStartAdmission, found, canonical_client_start_request_sha256,
  admission_from_record, claim_client_start_admission, conflict,
}
use subagent.ClientStart.Admission.Changes.{slot, IsKept}
use subagent.ClientStart.Admission.Histories.{
  unmarked, Follows, Call, AreInTurn, run, run-Follows, perform, perform-Follows, Follows-trans,
  claims,
}
use subagent.ClientStart.Admission.Claiming.{
  HashIsHex, IsValidMoment, Admitted, claim-Admitted, claim-held, claim-found,
}

pub as_replayed : ClientStartAdmission → ClientStartAdmission
as_replayed a = record a { created = false }

Admitted-as_replayed :
    (p : Platform) {id sha : String} {a : ClientStartAdmission} {d : Disk}
    (k : Admitted p id sha a d)
    → admission_from_record k.stored false ≡ as_replayed a
unfolding admission_from_record as_replayed
Admitted-as_replayed p k =
    ap (λ (x : ClientStartAdmission). record x { created = false }) (sym k.made_from)

pub claim_replay :
    (p : Platform) (m m' : Moment) (request request' : Json) (c c' : Option Candidate) (id : String)
    (d s : Disk) (a : ClientStartAdmission)
    → HashIsHex p
    → IsValidMoment p m c
    → as_str (get "client_start_id" request) ≡ some id
    → as_str (get "client_start_id" request') ≡ some id
    → canonical_client_start_request_sha256 p request'
      ≡ canonical_client_start_request_sha256 p request
    → m'.directory ≡ true
    → m'.lock ≡ held
    → claim_client_start_admission p m request c d ≡ (ok (some a), s)
    → claim_client_start_admission p m' request' c' s ≡ (ok (some (as_replayed a)), s)
claim_replay p m m' request request' c c' id d s a hex v e e' same made lock h =
    let (sha, a', digest, q, valid, k) = claim-Admitted p m request c id d hex v e h in
    let is_same : a ≡ a' = cc in
    rw
      (claim-found p m' request' c' id sha k.stored s e' valid (same ∙ digest) made lock
        k.held_there)
      (rw (k.request, eq_refl sha, Admitted-as_replayed p k, is_same))

-- Reusing an admitted id for a request of another digest is refused as a conflict, and writes
-- nothing.
pub changed_reuse_conflicts :
    (p : Platform) (m m' : Moment) (request request' : Json) (c c' : Option Candidate)
    (id sha' : String) (d s : Disk) (a : ClientStartAdmission)
    → HashIsHex p
    → IsValidMoment p m c
    → as_str (get "client_start_id" request) ≡ some id
    → as_str (get "client_start_id" request') ≡ some id
    → canonical_client_start_request_sha256 p request' ≡ ok sha'
    → canonical_client_start_request_sha256 p request ≢ ok sha'
    → m'.directory ≡ true
    → m'.lock ≡ held
    → claim_client_start_admission p m request c d ≡ (ok (some a), s)
    → claim_client_start_admission p m' request' c' s ≡ (err conflict, s)
changed_reuse_conflicts p m m' request request' c c' id sha' d s a hex v e e' digest' ne made lock
      h =
    let (sha, a', digest, q, valid, k) = claim-Admitted p m request c id d hex v e h in
    let differs : k.stored.request_sha256 ≢ sha' =
      λ same. ne (digest ∙ ap ok (sym k.request ∙ same)) in
    rw (claim-found p m' request' c' id sha' k.stored s e' valid digest' made lock k.held_there)
      (rw (eq-false_of_ne _ _ differs))

unmarked-binding :
    (b k : PersistedBinding) → unmarked (bound k) ≡ unmarked (bound b) → k.binding ≡ b.binding
unmarked-binding b k q = cc

Admitted-binding :
    (p : Platform) {id sha : String} {a : ClientStartAdmission} {d : Disk}
    (k : Admitted p id sha a d)
    → a.binding ≡ k.stored.binding
unfolding admission_from_record
Admitted-binding p k = ap (λ (x : ClientStartAdmission). x.binding) k.made_from

-- Two claims of one id that both return an admission return the same run, whatever calls any
-- processes make between them, where no call between finds its lock changed at the release: such a
-- call may obtain the lock or not, and its writes may succeed or fail. The hash is in hexadecimal,
-- the clocks print dates that parse, and what the two calls put into a record is valid.
pub one_run_per_id :
    (p : Platform) (m m' : Moment) (request request' : Json) (c c' : Option Candidate) (id : String)
    (d s s' : Disk) (a a' : ClientStartAdmission) (between : List (Moment × Call))
    → HashIsHex p
    → IsValidMoment p m c
    → IsValidMoment p m' c'
    → p.date_parses m'.now ≡ true
    → AreInTurn p between
    → as_str (get "client_start_id" request) ≡ some id
    → as_str (get "client_start_id" request') ≡ some id
    → claim_client_start_admission p m request c d ≡ (ok (some a), s)
    → claim_client_start_admission p m' request' c' (run p between s) ≡ (ok (some a'), s')
    → a'.binding ≡ a.binding
unfolding perform
one_run_per_id p m m' request request' c c' id d s s' a a' between hex v v' now dates e e' h h' =
    let (sha, x, digest, q, valid, k) = claim-Admitted p m request c id d hex v e h in
    let (sha', x', digest', q', valid', k') =
      claim-Admitted p m' request' c' id (run p between s) hex v' e' h' in
    let kept' = claim-held p m' request' c' id (run p between s) e' h' in
    let (r, there, f) = run-Follows p between s id (bound k.stored) dates k.held_there in
    let (t, then_there, g) =
      perform-Follows p m' (claims request' c') (run p between s) id r now
        (subst IsKept (sym kept') tt) there in
    let last : slot p id s' ≡ found t =
      subst (λ u. slot p id u ≡ found t) (ap (λ x. x.1) h') then_there in
    let same_record : t ≡ bound k'.stored = cc (last, k'.held_there) in
    let followed : Follows (bound k.stored) t = Follows-trans f g in
    let stored_same = unmarked-binding k.stored k'.stored (rw same_record at followed.identity) in
    cc (Admitted-binding p k, Admitted-binding p k', stored_same, q, q')
