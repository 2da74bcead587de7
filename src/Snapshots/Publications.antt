-- ===== src/Snapshots/Publications.antt =====
-- src/skillSnapshotStore.ts: the claim and the commit of a publication.
use subagent.Common.{
  String, ◌==◌, Bool, true, false, not, ◌&&◌, Option, none, some, List, [], ◌∷◌, if◌then◌else◌,
  Result, ok, err, thrown,
}
use subagent.Common.State.{M}
use subagent.Snapshots.{
  SkillSnapshotPublicationReceiptBinding, SkillSnapshotPublicationRecord, Store, Platform, Locks,
  with_lock,
}

abbrev pub set_publication : String → SkillSnapshotPublicationRecord → Store → Store
set_publication key r s = record s {
  publications = λ q. if q == key then some r else s.publications q;
}

abbrev pub key_of : Platform → SkillSnapshotPublicationRecord → String
key_of p r = p.publication_key r.project_id r.publication_id

-- A lookup of another request under the same identity is a conflict.
abbrev pub checked_request :
    String → Option SkillSnapshotPublicationRecord → Result (Option SkillSnapshotPublicationRecord)
checked_request request none = ok none
checked_request request (some r) =
    if r.publication_request_sha256 == request then ok (some r) else err thrown

unfoldable pub get_skill_snapshot_publication_record :
    Platform → String → String → String → Store → Result (Option SkillSnapshotPublicationRecord)
get_skill_snapshot_publication_record p project publication request s =
    checked_request request (s.publications (p.publication_key project publication))

unfoldable pub claim_over :
    Platform
    → SkillSnapshotPublicationRecord
    → Option SkillSnapshotPublicationRecord
    → M Store SkillSnapshotPublicationRecord
claim_over p r (some existing) s =
    if not (existing.publication_request_sha256 == r.publication_request_sha256)
    then (err thrown, s)
    else (ok existing, s)
claim_over p r none s = (
  ok (record r { committed_bindings = none }),
  set_publication (key_of p r) (record r { committed_bindings = none }) s,
)

unfoldable pub claim_skill_snapshot_publication :
    Platform → Locks → SkillSnapshotPublicationRecord → M Store SkillSnapshotPublicationRecord
claim_skill_snapshot_publication p locks r =
    with_lock locks (key_of p r) (λ s. claim_over p r (s.publications (key_of p r)) s)

unfoldable pub same_bindings :
    List SkillSnapshotPublicationReceiptBinding → List SkillSnapshotPublicationReceiptBinding → Bool
same_bindings [] [] = true
same_bindings (x ∷ xs) (y ∷ ys) =
    x.snapshot_id == y.snapshot_id && x.details == y.details && same_bindings xs ys
same_bindings _ _ = false

unfoldable pub commit_current :
    Platform
    → SkillSnapshotPublicationRecord
    → List SkillSnapshotPublicationReceiptBinding
    → Option (List SkillSnapshotPublicationReceiptBinding)
    → M Store SkillSnapshotPublicationRecord
commit_current p current bindings (some committed) s =
    if not (same_bindings committed bindings) then (err thrown, s) else (ok current, s)
commit_current p current bindings none s = (
  ok (record current { committed_bindings = some bindings }),
  set_publication (key_of p current) (record current { committed_bindings = some bindings }) s,
)

unfoldable pub commit_over :
    Platform
    → SkillSnapshotPublicationRecord
    → List SkillSnapshotPublicationReceiptBinding
    → Option SkillSnapshotPublicationRecord
    → M Store SkillSnapshotPublicationRecord
commit_over p r bindings none s = (err thrown, s)
commit_over p r bindings (some current) s =
    if not (current.publication_request_sha256 == r.publication_request_sha256)
    then (err thrown, s)
    else commit_current p current bindings current.committed_bindings s

unfoldable pub commit_skill_snapshot_publication :
    Platform
    → Locks
    → SkillSnapshotPublicationRecord
    → List SkillSnapshotPublicationReceiptBinding
    → M Store SkillSnapshotPublicationRecord
commit_skill_snapshot_publication p locks r bindings =
    with_lock locks (key_of p r) (λ s. commit_over p r bindings (s.publications (key_of p r)) s)
