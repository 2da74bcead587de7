-- ===== src/Snapshots/Tests.antt =====
-- A store with one snapshot and one publication.
use subagent.Common.{
  String, ◌==◌, false, Option, none, some, List, [], ◌∷◌, ok, ◌≡◌, refl, if◌then◌else◌, arith,
  Bool-cases, inl, inr, sym, ap, ◌∙◌, eq_iff,
}
use subagent.Snapshots.{
  SkillSnapshotReferenceRecord, SkillSnapshotPublicationReceiptBinding,
  SkillSnapshotPublicationRecord, Store, Platform, Locks, intact, absent, active,
}
use subagent.Snapshots.References.{reference_records}
use subagent.Snapshots.Deletion.{
  SkillSnapshotDeletionImpactReport, deletion_impact, distinct, plan_skill_snapshot_deletion,
  delete_skill_snapshot,
}
use subagent.Snapshots.Confirmation.{IsConfirmed, delete-IsConfirmed}
use subagent.Snapshots.Forward.{
  StoreCall, registers, closes, claims, commits, deletes, store_steps, Follows, IsKeyed,
}
use subagent.Snapshots.Forward.Histories.{histories-Follows}
use subagent.Snapshots.Forward.Reopening.{histories-IsKept}
use subagent.Snapshots.Forward.Kept.{IsKept}
use subagent.Snapshots.References.{find_reference}

abbrev hex : String
hex = "aaaaaaaaaaaaaaaaaaaaaaaaaaaaaaaaaaaaaaaaaaaaaaaaaaaaaaaaaaaaaaaa"

-- The digest of a list of references tells whether it is empty.
abbrev platform : Platform
platform = record {
  reference_id = λ r. "ref";
  publication_key = λ project publication. project;
  impact_sha256 = λ id rs. elim rs [ [] ↦ "none" | r ∷ more ↦ "some" ];
  sort_projects = λ projects. projects;
  sort_ids = λ ids. ids;
}

abbrev free : Locks
free id = false

abbrev empty : Store
empty = record {
  bundles = λ q. if q == hex then intact else absent;
  references = λ q. [];
  publications = λ q. none;
}

abbrev report : SkillSnapshotDeletionImpactReport
report = record {
  snapshot_id = hex;
  affected_projects = [];
  affected_references = [];
  impact_sha256 = "none";
}

told_apart :
    (rs : List SkillSnapshotReferenceRecord)
    → platform.impact_sha256 hex rs ≡ platform.impact_sha256 hex []
    → rs ≡ []
told_apart [] h = refl
told_apart (r ∷ rs) h = ground (arith, (eq_iff "some" "none").1 h)

planned : plan_skill_snapshot_deletion platform hex empty ≡ ok report
unfolding plan_skill_snapshot_deletion reference_records deletion_impact distinct
planned = refl

-- A deletion of a snapshot without references, confirmed by its plan.
delete-IsConfirmed_example :
    IsConfirmed platform hex [] empty (delete_skill_snapshot platform free hex "none" empty)
delete-IsConfirmed_example =
    delete-IsConfirmed platform free hex empty empty report (λ rs e h. told_apart rs h) planned

abbrev publication : SkillSnapshotPublicationRecord
publication = record {
  project_id = "p";
  publication_id = "v1";
  publication_request_sha256 = hex;
  prepared_bindings = [];
  committed_bindings = none;
}

abbrev binding : SkillSnapshotPublicationReceiptBinding
binding = record { snapshot_id = hex; details = "" }

abbrev committed : Store
committed = record empty {
  publications = λ q.
      if q == "p"
      then some (record publication { committed_bindings = some (binding ∷ []) })
      else none;
}

abbrev project_in : Option SkillSnapshotPublicationRecord → String
project_in none = ""
project_in (some r) = r.project_id

committed-IsKeyed : IsKeyed platform committed
committed-IsKeyed key r h = elim (Bool-cases (key == "p")) [
  | inl e ↦ sym (ap project_in (rw e at h)) ∙ sym ((eq_iff key "p").0 e)
  | inr e ↦ ground (arith, e, h)
]

histories-Follows_example :
    Follows (some (record publication { committed_bindings = some (binding ∷ []) })) (
      (store_steps platform
          (commits free publication [] ∷ claims free publication ∷ deletes free hex "none" ∷ [])
          committed).publications
        "p")
histories-Follows_example =
    histories-Follows platform
      (commits free publication [] ∷ claims free publication ∷ deletes free hex "none" ∷ [])
      committed "p" committed-IsKeyed

abbrev reference : SkillSnapshotReferenceRecord
reference = record {
  reference_id = "ref";
  skill_name = "pda";
  snapshot_id = hex;
  bundle_sha256 = hex;
  publication_request_sha256 = hex;
  project_reference = record { project_id = "p"; publication_id = "v1"; lifecycle = active };
}

abbrev referred : Store
referred = record committed { references = λ q. if q == hex then reference ∷ [] else [] }

-- The reference is closed, registered once more, and another snapshot is deleted.
abbrev later_calls : List StoreCall
later_calls =
    closes free "p" "v1" (hex ∷ []) ∷ registers free reference ∷ deletes free "other" "none" ∷ []

histories-IsKept_example :
    IsKept
      (some reference)
      (find_reference "ref" ((store_steps platform later_calls referred).references hex))
histories-IsKept_example =
    histories-IsKept platform hex "ref" later_calls referred (tt, (tt, (refl, tt)))
