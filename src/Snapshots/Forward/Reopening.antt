-- ===== src/Snapshots/Forward/Reopening.antt =====
-- src/skillSnapshotStore.ts: the references over any history of the store.
use subagent.Common.{
  String, ◌==◌, false, not, ◌&&◌, Option, none, some, List, [], ◌∷◌, All, if-satisfies, Result, ok,
  err, ◌≡◌, refl, sym, subst, eq_iff,
}
use subagent.Snapshots.{
  SkillSnapshotReferenceRecord, SkillSnapshotPublicationRecord,
  SkillSnapshotPublicationReceiptBinding, Store, Platform, Locks, active, closed, lifecycle_eq,
  same_reference, with_lifecycle, set_references, is_intact,
}
use subagent.Snapshots.References.{
  find_reference, insert_reference, register_over, register_locked, with_reference_id,
  register_skill_snapshot_reference, acquire_all, match_references, close_reference, close_matched,
  is_complete_set, close_from, close_skill_snapshot_references,
}
use subagent.Snapshots.Publications.{
  key_of, claim_over, claim_skill_snapshot_publication, commit_current, commit_over,
  commit_skill_snapshot_publication, same_bindings,
}
use subagent.Snapshots.Deletion.{
  SkillSnapshotDeletionImpactReport, plan_skill_snapshot_deletion, delete_planned,
  delete_skill_snapshot, remove_snapshot,
}
use subagent.Snapshots.Forward.{
  StoreCall, registers, closes, claims, commits, deletes, materializes, bundle_edited, store_step,
  store_steps,
}
use subagent.Snapshots.Forward.Kept.{IsKept, IsKept-refl, IsKept-trans, insert-IsKept, close-IsKept}

module _ (p : Platform) (id reference : String) where
  abbrev At : Store → Option SkillSnapshotReferenceRecord
  At s = find_reference reference (s.references id)

  -- A call whose result is a store in which the reference is kept.
  abbrev Keeps {ℓ} : {A : Type ℓ} → Store → A × Store → Type 0
  Keeps s x = IsKept (At s) (At x.1)

  set-IsKept :
      (q : String) (rs : List SkillSnapshotReferenceRecord) (s : Store)
      → IsKept (find_reference reference (s.references q)) (find_reference reference rs)
      → IsKept (At s) (At (set_references q rs s))
  set-IsKept q rs s h =
      if-satisfies
        (λ (xs : List SkillSnapshotReferenceRecord). IsKept (At s) (find_reference reference xs))
        (id == q) _ _
        (λ e.
          subst
            (λ i. IsKept (find_reference reference (s.references i)) (find_reference reference rs))
            (sym ((eq_iff id q).0 e)) h)
        (λ e. IsKept-refl (At s))

  register-Keeps :
      (locks : Locks) (r : SkillSnapshotReferenceRecord) (s : Store)
      → Keeps s (register_skill_snapshot_reference p locks r s)
  unfolding register_skill_snapshot_reference register_locked register_over
  register-Keeps locks r s =
      if-satisfies (Keeps s) (locks r.snapshot_id) _ _ (λ g. IsKept-refl (At s))
        (λ g.
          if-satisfies (Keeps s) (not (is_intact (s.bundles (with_reference_id p r).snapshot_id))) _
            _ (λ e. IsKept-refl (At s))
            (λ e.
              over (with_reference_id p r)
                (find_reference (with_reference_id p r).reference_id
                  (s.references (with_reference_id p r).snapshot_id))
                refl))
    where
      over :
          (x : SkillSnapshotReferenceRecord) (o : Option SkillSnapshotReferenceRecord)
          → find_reference x.reference_id (s.references x.snapshot_id) ≡ o
          → Keeps s (register_over x o s)
      over x none e =
          set-IsKept x.snapshot_id (insert_reference x (s.references x.snapshot_id)) s
            (insert-IsKept reference x (s.references x.snapshot_id) e)
      over x (some existing) e =
          if-satisfies (Keeps s) (same_reference existing x) _ _ (λ g. IsKept-refl (At s))
            (λ g.
              if-satisfies (Keeps s)
                (lifecycle_eq existing.project_reference.lifecycle closed
                  && same_reference (with_lifecycle active existing) x)
                _ _ (λ c. IsKept-refl (At s)) (λ c. IsKept-refl (At s)))

  close_matched-IsKept :
      (rs : List SkillSnapshotReferenceRecord) (s : Store) → IsKept (At s) (At (close_matched rs s))
  unfolding close_matched close_reference
  close_matched-IsKept [] s = IsKept-refl (At s)
  close_matched-IsKept (r ∷ rs) s =
      IsKept-trans (At s) (At (close_reference r s)) (At (close_matched rs (close_reference r s)))
        (set-IsKept r.snapshot_id _ s
          (close-IsKept reference r.reference_id (s.references r.snapshot_id)))
        (close_matched-IsKept rs (close_reference r s))

  close-Keeps :
      (locks : Locks) (project publication : String) (ids : List String) (s : Store)
      → Keeps s (close_skill_snapshot_references p locks project publication ids s)
  unfolding close_skill_snapshot_references close_from
  close-Keeps locks project publication ids s =
      if-satisfies (Keeps s)
        (not (is_complete_set p (s.publications (p.publication_key project publication)) ids)) _ _
        (λ g. IsKept-refl (At s))
        (λ g.
          if-satisfies (Keeps s) (not (acquire_all locks ids)) _ _ (λ e. IsKept-refl (At s))
            (λ e. from (match_references p project publication s ids)))
    where
      from : (x : Result (List SkillSnapshotReferenceRecord)) → Keeps s (close_from x s)
      from (ok rs) = close_matched-IsKept rs s
      from (err e) = IsKept-refl (At s)

  claim-Keeps :
      (locks : Locks) (r : SkillSnapshotPublicationRecord) (s : Store)
      → Keeps s (claim_skill_snapshot_publication p locks r s)
  unfolding claim_skill_snapshot_publication claim_over
  claim-Keeps locks r s =
      if-satisfies (Keeps s) (locks (key_of p r)) _ _ (λ g. IsKept-refl (At s))
        (λ g. of (s.publications (key_of p r)))
    where
      of : (o : Option SkillSnapshotPublicationRecord) → Keeps s (claim_over p r o s)
      of none = IsKept-refl (At s)
      of (some a) =
          if-satisfies (Keeps s)
            (not (a.publication_request_sha256 == r.publication_request_sha256)) _ _
            (λ g. IsKept-refl (At s)) (λ g. IsKept-refl (At s))

  commit-Keeps :
      (locks : Locks) (r : SkillSnapshotPublicationRecord)
      (bindings : List SkillSnapshotPublicationReceiptBinding) (s : Store)
      → Keeps s (commit_skill_snapshot_publication p locks r bindings s)
  unfolding commit_skill_snapshot_publication commit_over commit_current
  commit-Keeps locks r bindings s =
      if-satisfies (Keeps s) (locks (key_of p r)) _ _ (λ g. IsKept-refl (At s))
        (λ g. of (s.publications (key_of p r)))
    where
      current :
          (a : SkillSnapshotPublicationRecord)
          (o : Option (List SkillSnapshotPublicationReceiptBinding))
          → Keeps s (commit_current p a bindings o s)
      current a none = IsKept-refl (At s)
      current a (some b) =
          if-satisfies (Keeps s) (not (same_bindings b bindings)) _ _ (λ g. IsKept-refl (At s))
            (λ g. IsKept-refl (At s))

      of : (o : Option SkillSnapshotPublicationRecord) → Keeps s (commit_over p r bindings o s)
      of none = IsKept-refl (At s)
      of (some a) =
          if-satisfies (Keeps s)
            (not (a.publication_request_sha256 == r.publication_request_sha256)) _ _
            (λ g. IsKept-refl (At s)) (λ g. current a a.committed_bindings)

  -- A call that does not delete the snapshot.
  abbrev pub IsOther : StoreCall → Type 0
  IsOther (deletes locks q confirm) = (id == q) ≡ false
  IsOther _ = Unit

  delete-Keeps :
      (locks : Locks) (q confirm : String) (s : Store)
      → (id == q) ≡ false
      → Keeps s (delete_skill_snapshot p locks q confirm s)
  unfolding delete_skill_snapshot delete_planned remove_snapshot
  delete-Keeps locks q confirm s h =
      if-satisfies (Keeps s) (locks q) _ _ (λ g. IsKept-refl (At s))
        (λ g. of (plan_skill_snapshot_deletion p q s))
    where
      of : (x : Result SkillSnapshotDeletionImpactReport) → Keeps s (delete_planned q confirm x s)
      of (err e) = IsKept-refl (At s)
      of (ok impact) =
          if-satisfies (Keeps s) (not (impact.impact_sha256 == confirm)) _ _
            (λ g. IsKept-refl (At s)) (λ g. rw h (IsKept-refl (At s)))

  step-IsKept : (c : StoreCall) (s : Store) → IsOther c → IsKept (At s) (At (store_step p c s))
  unfolding store_step
  step-IsKept (registers locks r) s h = register-Keeps locks r s
  step-IsKept (closes locks project publication ids) s h =
      close-Keeps locks project publication ids s
  step-IsKept (claims locks r) s h = claim-Keeps locks r s
  step-IsKept (commits locks r bindings) s h = commit-Keeps locks r bindings s
  step-IsKept (deletes locks q confirm) s h = delete-Keeps locks q confirm s h
  step-IsKept (materializes q) s h = IsKept-refl (At s)
  step-IsKept (bundle_edited q) s h = IsKept-refl (At s)

  -- A reference is never lost and never reopened: over any history of calls that does not delete its
  -- snapshot, with locks that others may hold, the reference with an id stays the same record, or
  -- becomes that record closed.
  pub histories-IsKept :
      (cs : List StoreCall) (s : Store)
      → All IsOther cs
      → IsKept
          (find_reference reference (s.references id))
          (find_reference reference ((store_steps p cs s).references id))
  histories-IsKept [] s h = IsKept-refl (At s)
  histories-IsKept (c ∷ cs) s h =
      IsKept-trans (At s) (At (store_step p c s)) (At (store_steps p cs (store_step p c s)))
        (step-IsKept c s h.0) (histories-IsKept cs (store_step p c s) h.1)
