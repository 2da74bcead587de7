-- ===== src/Snapshots.antt =====
-- src/skillSnapshotStore.ts: the store of skill snapshots, its references and its publications.
mod References
mod Publications
mod Deletion
mod Confirmation
mod Forward
mod Tests
use subagent.Common.{
  ℕ, String, ◌==◌, Bool, true, false, not, ◌&&◌, ◌||◌, Option, none, some, List, [], ◌∷◌, ltb, leb,
  nat_eq, length, all, find, filter, codes, units, is_alnum, is_digit, is_hex, is_id_char,
  if◌then◌else◌, Result, ok, err, Failure, enoent, thrown,
}
use subagent.Common.Json.{units_lt}
use subagent.Common.State.{M, bind}

pub data ReferenceLifecycle : Type 0 where
  active closed : ReferenceLifecycle

pub record SkillSnapshotProjectReference : Type 0 where
  pub project_id : String
  pub publication_id : String
  pub lifecycle : ReferenceLifecycle

pub record SkillSnapshotReferenceRecord : Type 0 where
  pub reference_id : String
  pub skill_name : String
  pub snapshot_id : String
  pub bundle_sha256 : String
  pub publication_request_sha256 : String
  pub project_reference : SkillSnapshotProjectReference

-- The parts of a committed binding that the store reads, and the rest.
pub record SkillSnapshotPublicationReceiptBinding : Type 0 where
  pub snapshot_id : String
  pub details : String

-- A publication is committed with its bindings, or pending.
pub record SkillSnapshotPublicationRecord : Type 0 where
  pub project_id : String
  pub publication_id : String
  pub publication_request_sha256 : String
  pub prepared_bindings : List String
  pub committed_bindings : Option (List SkillSnapshotPublicationReceiptBinding)

-- Whether the bundle of an id is there and passes `validateRecordedSkillSnapshot`.
pub data BundleState : Type 0 where
  absent altered intact : BundleState

abbrev pub is_there : BundleState → Bool
is_there absent = false
is_there _ = true

abbrev pub is_intact : BundleState → Bool
is_intact intact = true
is_intact _ = false

-- The bundles by their ids, the records in its
-- directory of references in the order of their names, and the publications by their keys.
pub record Store : Type 0 where
  pub bundles : String → BundleState
  pub references : String → List SkillSnapshotReferenceRecord
  pub publications : String → Option SkillSnapshotPublicationRecord

-- The digests, and the order of `localeCompare` on projects and on snapshot ids.
pub record Platform : Type 0 where
  pub reference_id : SkillSnapshotReferenceRecord → String
  pub publication_key : String → String → String
  pub impact_sha256 : String → List SkillSnapshotReferenceRecord → String
  pub sort_projects : List SkillSnapshotProjectReference → List SkillSnapshotProjectReference
  pub sort_ids : List String → List String

-- Whether a lock is held by another process all the time that a call waits for it.
abbrev pub Locks : Type 0
Locks = String → Bool

abbrev pub lifecycle_eq : ReferenceLifecycle → ReferenceLifecycle → Bool
lifecycle_eq active active = true
lifecycle_eq closed closed = true
lifecycle_eq _ _ = false

unfoldable pub same_project : SkillSnapshotProjectReference → SkillSnapshotProjectReference → Bool
same_project a b =
    a.project_id == b.project_id
    && a.publication_id == b.publication_id
    && lifecycle_eq a.lifecycle b.lifecycle

-- The two texts of a record are the same.
unfoldable pub same_reference : SkillSnapshotReferenceRecord → SkillSnapshotReferenceRecord → Bool
same_reference a b =
    a.reference_id == b.reference_id
    && a.skill_name == b.skill_name
    && a.snapshot_id == b.snapshot_id
    && a.bundle_sha256 == b.bundle_sha256
    && a.publication_request_sha256 == b.publication_request_sha256
    && same_project a.project_reference b.project_reference

abbrev pub with_lifecycle :
    ReferenceLifecycle → SkillSnapshotReferenceRecord → SkillSnapshotReferenceRecord
with_lifecycle l r = record r { project_reference = record r.project_reference { lifecycle = l } }

abbrev pub set_references : String → List SkillSnapshotReferenceRecord → Store → Store
set_references id rs s = record s { references = λ q. if q == id then rs else s.references q }

abbrev pub with_lock {ℓ} : {A : Type ℓ} → Locks → String → M Store A → M Store A
with_lock locks id operation s = if locks id then (err thrown, s) else operation s
