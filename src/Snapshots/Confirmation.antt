-- ===== src/Snapshots/Confirmation.antt =====
-- src/skillSnapshotStore.ts: what a confirmed deletion removes.
use subagent.Common.{
  String, ◌==◌, Bool, true, false, not, List, if◌then◌else◌, if-satisfies, Result, ok, err, enoent,
  arith, ◌≡◌, ◌≢◌, refl, eq_refl, eq-false_of_ne, [], ap, subst, ok_injective, ◌∙◌, eq_iff,
}
use subagent.Snapshots.{SkillSnapshotReferenceRecord, Store, Platform, Locks, is_there, absent}
use subagent.Snapshots.References.{reference_records}
use subagent.Snapshots.Deletion.{
  SkillSnapshotDeletionImpactReport, deletion_impact, impact_of, plan_skill_snapshot_deletion,
  remove_snapshot, delete_planned, delete_skill_snapshot,
}

-- The snapshot and its references are gone, and nothing else is: the snapshots and references of
-- other ids, and the publications, are those before.
pub record IsRemoved (id : String) (s t : Store) : Type 0 where
  pub bundle : t.bundles id ≡ absent
  pub references : t.references id ≡ []
  pub other_bundles : (q : String) → q ≢ id → t.bundles q ≡ s.bundles q
  pub other_references : (q : String) → q ≢ id → t.references q ≡ s.references q
  pub publications : t.publications ≡ s.publications

remove_snapshot-IsRemoved : (id : String) (s : Store) → IsRemoved id s (remove_snapshot id s)
unfolding remove_snapshot
remove_snapshot-IsRemoved id s = record {
  bundle = rw (eq_refl id) refl;
  references = rw (eq_refl id) refl;
  other_bundles = λ q h. rw (eq-false_of_ne q id h) refl;
  other_references = λ q h. rw (eq-false_of_ne q id h) refl;
  publications = refl;
}

-- The store is as it was, or the snapshot and its references are gone, which were those of the report.
abbrev pub IsConfirmed :
    Platform
    → String
    → List SkillSnapshotReferenceRecord
    → Store
    → Result (Bool × SkillSnapshotDeletionImpactReport) × Store
    → Type 0
IsConfirmed p id reported s (err e, t) = t ≡ s
IsConfirmed p id reported s (ok (false, impact), t) = t ≡ s
IsConfirmed p id reported s (ok (true, impact), t) =
    (reference_records p id s ≡ ok reported)
    × (impact ≡ deletion_impact p id reported)
    × IsRemoved id s t

planned-eq :
    (p : Platform) (id : String) (s : Store) (report : SkillSnapshotDeletionImpactReport)
    → plan_skill_snapshot_deletion p id s ≡ ok report
    → report ≡ deletion_impact p id report.affected_references
unfolding plan_skill_snapshot_deletion deletion_impact
planned-eq p id s report h = of (is_there (s.bundles id)) (reference_records p id s) h
  where
    of :
        (b : Bool) (x : Result (List SkillSnapshotReferenceRecord))
        → (if b then impact_of p id x else err enoent) ≡ ok report
        → report ≡ deletion_impact p id report.affected_references
    of true (ok rs) k = same report k
      where
        same :
            (r : SkillSnapshotDeletionImpactReport)
            → ok (deletion_impact p id rs) ≡ ok r
            → r ≡ deletion_impact p id r.affected_references
        same r k = subst (λ x. x ≡ deletion_impact p id x.affected_references) (ok_injective k) refl
    of true (err f) k = ground (arith, k)
    of false x k = ground (arith, k)

module _ (p : Platform) (locks : Locks) (id : String) (earlier s : Store)
    (report : SkillSnapshotDeletionImpactReport)
    (exact : (rs : List SkillSnapshotReferenceRecord)
      → reference_records p id s ≡ ok rs
      → p.impact_sha256 id rs ≡ p.impact_sha256 id report.affected_references
      → rs ≡ report.affected_references)
    (planned : plan_skill_snapshot_deletion p id earlier ≡ ok report) where
  same-references :
      (rs : List SkillSnapshotReferenceRecord)
      → reference_records p id s ≡ ok rs
      → p.impact_sha256 id rs ≡ report.impact_sha256
      → rs ≡ report.affected_references
  unfolding deletion_impact
  same-references rs e h =
      exact rs e (h ∙ ap (λ r. r.impact_sha256) (planned-eq p id earlier report planned))

  read-IsConfirmed :
      (b : Bool) (x : Result (List SkillSnapshotReferenceRecord))
      → reference_records p id s ≡ x
      → IsConfirmed p id report.affected_references s
          (delete_planned id report.impact_sha256 (if b then impact_of p id x else err enoent) s)
  unfolding delete_planned deletion_impact
  read-IsConfirmed true (err f) e = refl
  read-IsConfirmed false x e = refl
  read-IsConfirmed true (ok rs) e =
      if-satisfies (IsConfirmed p id report.affected_references s)
        (not (p.impact_sha256 id rs == report.impact_sha256)) _ _ (λ g. refl)
        (λ g. confirmed (
          same-references rs e
            ((eq_iff (p.impact_sha256 id rs) report.impact_sha256).0 (ground (arith, g)))))
    where
      confirmed :
          rs ≡ report.affected_references
          → (reference_records p id s ≡ ok report.affected_references)
            × (deletion_impact p id rs ≡ deletion_impact p id report.affected_references)
            × IsRemoved id s (remove_snapshot id s)
      confirmed h = (e ∙ ap ok h, ap (deletion_impact p id) h, remove_snapshot-IsRemoved id s)

  -- A deletion removes exactly what was reported: where the digest tells the references at the
  -- deletion from those of the plan, a deletion that is confirmed with the digest of an earlier plan,
  -- whatever was done between the two, either leaves the store as it was, or removes the snapshot and
  -- all its references, which are the ones that the plan reported, and keeps the snapshots and the
  -- references of all other ids and the publications.
  pub delete-IsConfirmed :
      IsConfirmed p id report.affected_references s
        (delete_skill_snapshot p locks id report.impact_sha256 s)
  unfolding delete_skill_snapshot plan_skill_snapshot_deletion
  delete-IsConfirmed =
      if-satisfies (IsConfirmed p id report.affected_references s) (locks id) _ _ (λ g. refl)
        (λ g. read-IsConfirmed (is_there (s.bundles id)) (reference_records p id s) refl)
