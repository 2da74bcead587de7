-- ===== src/Snapshots/Forward/Histories.antt =====
-- src/skillSnapshotStore.ts: the publications over any history of the store.
use subagent.Common.{
  String, ◌==◌, not, ◌&&◌, Option, none, some, List, [], ◌∷◌, if◌then◌else◌, if-satisfies, Result,
  ok, err, ◌≡◌, refl,
}
use subagent.Snapshots.{SkillSnapshotReferenceRecord, Store, Platform, Locks}
use subagent.Snapshots.References.{
  register_skill_snapshot_reference, register_locked, register_over,
  close_skill_snapshot_references, close_from, close_matched, close_reference, match_references,
  is_complete_set, acquire_all,
}
use subagent.Snapshots.Deletion.{
  remove_snapshot, delete_skill_snapshot, delete_planned, plan_skill_snapshot_deletion,
}
use subagent.Snapshots.References.{register_skill_snapshot_reference}
use subagent.Snapshots.{
  is_intact, altered, same_reference, with_lifecycle, active, closed, lifecycle_eq,
}
use subagent.Snapshots.References.{find_reference, with_reference_id}
use subagent.Snapshots.Forward.{
  StoreCall, registers, closes, claims, commits, deletes, materializes, bundle_edited, built,
  store_step, store_steps, Follows, Follows-refl, Follows-trans, IsKeyed, Advances, same-Advances,
  claim-Advances, commit-Advances,
}

-- A call that leaves the publications as they are.
abbrev Keeps {ℓ} : {A : Type ℓ} → Store → A × Store → Type 0
Keeps s x = x.1.publications ≡ s.publications

register-Keeps :
    (p : Platform) (locks : Locks) (r : SkillSnapshotReferenceRecord) (s : Store)
    → Keeps s (register_skill_snapshot_reference p locks r s)
unfolding register_skill_snapshot_reference register_locked register_over
register-Keeps p locks r s =
    if-satisfies (Keeps s) (locks r.snapshot_id) _ _ (λ g. refl)
      (λ g.
        if-satisfies (Keeps s) (not (is_intact (s.bundles (with_reference_id p r).snapshot_id))) _ _
          (λ e. refl)
          (λ e. over (with_reference_id p r) (
            find_reference (with_reference_id p r).reference_id
              (s.references (with_reference_id p r).snapshot_id))))
  where
    over :
        (x : SkillSnapshotReferenceRecord) (o : Option SkillSnapshotReferenceRecord)
        → Keeps s (register_over x o s)
    over x none = refl
    over x (some existing) =
        if-satisfies (Keeps s) (same_reference existing x) _ _ (λ g. refl)
          (λ g.
            if-satisfies (Keeps s)
              (lifecycle_eq existing.project_reference.lifecycle closed
                && same_reference (with_lifecycle active existing) x)
              _ _ (λ e. refl) (λ e. refl))

close_matched-publications :
    (rs : List SkillSnapshotReferenceRecord) (s : Store)
    → (close_matched rs s).publications ≡ s.publications
unfolding close_matched close_reference
close_matched-publications [] s = refl
close_matched-publications (r ∷ rs) s = close_matched-publications rs (close_reference r s)

close-Keeps :
    (p : Platform) (locks : Locks) (project publication : String) (ids : List String) (s : Store)
    → Keeps s (close_skill_snapshot_references p locks project publication ids s)
unfolding close_skill_snapshot_references close_from
close-Keeps p locks project publication ids s =
    if-satisfies (Keeps s)
      (not (is_complete_set p (s.publications (p.publication_key project publication)) ids)) _ _
      (λ g. refl)
      (λ g.
        if-satisfies (Keeps s) (not (acquire_all locks ids)) _ _ (λ e. refl)
          (λ e. from (match_references p project publication s ids)))
  where
    from : (x : Result (List SkillSnapshotReferenceRecord)) → Keeps s (close_from x s)
    from (ok rs) = close_matched-publications rs s
    from (err e) = refl

delete-Keeps :
    (p : Platform) (locks : Locks) (id confirm : String) (s : Store)
    → Keeps s (delete_skill_snapshot p locks id confirm s)
unfolding delete_skill_snapshot delete_planned remove_snapshot
delete-Keeps p locks id confirm s =
    if-satisfies (Keeps s) (locks id) _ _ (λ g. refl)
      (λ g. of (plan_skill_snapshot_deletion p id s))
  where
    of : (x : _) → Keeps s (delete_planned id confirm x s)
    of (err e) = refl
    of (ok impact) =
        if-satisfies (Keeps s) (not (impact.impact_sha256 == confirm)) _ _ (λ g. refl) (λ g. refl)

module _ (p : Platform) where
  step-Advances : (c : StoreCall) (s : Store) → IsKeyed p s → Advances p s (store_step p c s)
  unfolding store_step
  step-Advances (registers locks r) s h =
      same-Advances p s (register_skill_snapshot_reference p locks r s).1 h
        (register-Keeps p locks r s)
  step-Advances (closes locks project publication ids) s h =
      same-Advances p s (close_skill_snapshot_references p locks project publication ids s).1 h
        (close-Keeps p locks project publication ids s)
  step-Advances (claims locks r) s h = claim-Advances p locks r s h
  step-Advances (commits locks r bindings) s h = commit-Advances p locks r bindings s h
  step-Advances (deletes locks id confirm) s h =
      same-Advances p s (delete_skill_snapshot p locks id confirm s).1 h
        (delete-Keeps p locks id confirm s)
  step-Advances (materializes id) s h =
      same-Advances p s
        (record s { bundles = λ q. if q == id then built (s.bundles q) else s.bundles q }) h refl
  step-Advances (bundle_edited id) s h =
      same-Advances p s (record s { bundles = λ q. if q == id then altered else s.bundles q }) h
        refl

  -- A publication only moves forward. In a store where each publication is under its own key, any
  -- history of registrations, closings, claims, commits, deletions, new bundles and edited ones, with locks that
  -- others may hold, keeps every publication with its identity, its request and its prepared bindings,
  -- and keeps the bindings that it was committed with once it has them.
  pub histories-Follows :
      (cs : List StoreCall) (s : Store) (key : String)
      → IsKeyed p s
      → Follows (s.publications key) ((store_steps p cs s).publications key)
  histories-Follows [] s key h = Follows-refl (s.publications key)
  histories-Follows (c ∷ cs) s key h =
      let a = step-Advances c s h in
      Follows-trans (s.publications key) ((store_step p c s).publications key)
        ((store_steps p cs (store_step p c s)).publications key) (a.0 key)
        (histories-Follows cs (store_step p c s) key a.1)
