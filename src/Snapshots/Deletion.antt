-- ===== src/Snapshots/Deletion.antt =====
-- src/skillSnapshotStore.ts: the deletion of a snapshot under the confirmation of its impact.
use subagent.Common.{
  String, ◌==◌, Bool, true, false, not, List, [], ◌∷◌, map, filter, if◌then◌else◌, Result, ok, err,
  enoent,
}
use subagent.Common.State.{M}
use subagent.Snapshots.{
  SkillSnapshotProjectReference, SkillSnapshotReferenceRecord, Store, Platform, Locks, same_project,
  with_lock, is_there, absent,
}
use subagent.Snapshots.References.{reference_records}

pub record SkillSnapshotDeletionImpactReport : Type 0 where
  pub snapshot_id : String
  pub affected_projects : List SkillSnapshotProjectReference
  pub affected_references : List SkillSnapshotReferenceRecord
  pub impact_sha256 : String

-- The projects of the records, each once.
unfoldable pub distinct : List SkillSnapshotProjectReference → List SkillSnapshotProjectReference
distinct [] = []
distinct (x ∷ xs) = x ∷ filter (λ y. not (same_project x y)) (distinct xs)

unfoldable pub deletion_impact :
    Platform → String → List SkillSnapshotReferenceRecord → SkillSnapshotDeletionImpactReport
deletion_impact p id records = record {
  snapshot_id = id;
  affected_projects = p.sort_projects (distinct (map (λ r. r.project_reference) records));
  affected_references = records;
  impact_sha256 = p.impact_sha256 id records;
}

abbrev pub impact_of :
    Platform
    → String
    → Result (List SkillSnapshotReferenceRecord)
    → Result SkillSnapshotDeletionImpactReport
impact_of p id (ok records) = ok (deletion_impact p id records)
impact_of p id (err e) = err e

unfoldable pub plan_skill_snapshot_deletion :
    Platform → String → Store → Result SkillSnapshotDeletionImpactReport
plan_skill_snapshot_deletion p id s =
    if is_there (s.bundles id) then impact_of p id (reference_records p id s) else err enoent

unfoldable pub remove_snapshot : String → Store → Store
remove_snapshot id s = record s {
  bundles = λ q. if q == id then absent else s.bundles q;
  references = λ q. if q == id then [] else s.references q;
}

unfoldable pub delete_planned :
    String
    → String
    → Result SkillSnapshotDeletionImpactReport
    → M Store (Bool × SkillSnapshotDeletionImpactReport)
delete_planned id confirm (err e) s = (err e, s)
delete_planned id confirm (ok impact) s =
    if not (impact.impact_sha256 == confirm)
    then (ok (false, impact), s)
    else (ok (true, impact), remove_snapshot id s)

unfoldable pub delete_skill_snapshot :
    Platform → Locks → String → String → M Store (Bool × SkillSnapshotDeletionImpactReport)
delete_skill_snapshot p locks id confirm =
    with_lock locks id (λ s. delete_planned id confirm (plan_skill_snapshot_deletion p id s) s)
