-- ===== src/Snapshots/Forward.antt =====
-- src/skillSnapshotStore.ts: what a publication keeps over any history of the store.
pub mod Histories
pub mod Kept
pub mod Reopening
use subagent.Common.{
  String, ◌==◌, Bool, true, false, not, ◌&&◌, Option, none, some, List, [], ◌∷◌, if◌then◌else◌,
  if-satisfies, Result, ok, err, Failure, thrown, arith, ◌≡◌, refl, sym, ap, subst, ◌∙◌, eq_iff,
  eq_refl, Bool-cases, inl, inr,
}
use subagent.Common.State.{M}
use subagent.Snapshots.{
  SkillSnapshotReferenceRecord, SkillSnapshotPublicationReceiptBinding,
  SkillSnapshotPublicationRecord, Store, Platform, Locks, with_lock, BundleState, absent, altered,
  intact,
}
use subagent.Snapshots.References.{
  register_skill_snapshot_reference, register_locked, register_over,
  close_skill_snapshot_references, close_from, close_matched, close_reference, match_references,
  is_complete_set, acquire_all,
}
use subagent.Snapshots.Publications.{
  set_publication, key_of, claim_over, claim_skill_snapshot_publication, same_bindings,
  commit_current, commit_over, commit_skill_snapshot_publication,
}
use subagent.Snapshots.Deletion.{
  delete_skill_snapshot, delete_planned, plan_skill_snapshot_deletion,
}

-- The calls that change the store, each with the locks that others hold; a bundle may also be edited by others.
pub data StoreCall : Type 0 where
  registers : Locks → SkillSnapshotReferenceRecord → StoreCall
  closes : Locks → String → String → List String → StoreCall
  claims : Locks → SkillSnapshotPublicationRecord → StoreCall
  commits :
      Locks
      → SkillSnapshotPublicationRecord
      → List SkillSnapshotPublicationReceiptBinding
      → StoreCall
  deletes : Locks → String → String → StoreCall
  materializes bundle_edited : String → StoreCall

-- `materializeSkillSnapshot`: a bundle that is there is not made again.
abbrev pub built : BundleState → BundleState
built absent = intact
built b = b

unfoldable pub store_step : Platform → StoreCall → Store → Store
store_step p (registers locks r) s = (register_skill_snapshot_reference p locks r s).1
store_step p (closes locks project publication ids) s =
    (close_skill_snapshot_references p locks project publication ids s).1
store_step p (claims locks r) s = (claim_skill_snapshot_publication p locks r s).1
store_step p (commits locks r bindings) s =
    (commit_skill_snapshot_publication p locks r bindings s).1
store_step p (deletes locks id confirm) s = (delete_skill_snapshot p locks id confirm s).1
store_step p (materializes id) s = record s {
  bundles = λ q. if q == id then built (s.bundles q) else s.bundles q;
}
store_step p (bundle_edited id) s = record s {
  bundles = λ q. if q == id then altered else s.bundles q;
}

abbrev pub store_steps : Platform → List StoreCall → Store → Store
store_steps p [] s = s
store_steps p (c ∷ cs) s = store_steps p cs (store_step p c s)

-- A later state of one publication: its identity, request and prepared bindings are kept, and its
-- committed bindings once it has them.
abbrev pub KeepsBindings :
    Option (List SkillSnapshotPublicationReceiptBinding)
    → Option (List SkillSnapshotPublicationReceiptBinding)
    → Type 0
KeepsBindings none b = Unit
KeepsBindings (some a) b = b ≡ some a

pub record IsLater (a b : SkillSnapshotPublicationRecord) : Type 0 where
  pub project_eq : b.project_id ≡ a.project_id
  pub publication_eq : b.publication_id ≡ a.publication_id
  pub request_eq : b.publication_request_sha256 ≡ a.publication_request_sha256
  pub prepared_eq : b.prepared_bindings ≡ a.prepared_bindings
  pub bindings_kept : KeepsBindings a.committed_bindings b.committed_bindings

abbrev pub Follows :
    Option SkillSnapshotPublicationRecord → Option SkillSnapshotPublicationRecord → Type 0
Follows none b = Unit
Follows (some a) none = ⊥
Follows (some a) (some b) = IsLater a b

KeepsBindings-refl : (o : Option (List SkillSnapshotPublicationReceiptBinding)) → KeepsBindings o o
KeepsBindings-refl none = tt
KeepsBindings-refl (some a) = refl

KeepsBindings-trans :
    (a b c : Option (List SkillSnapshotPublicationReceiptBinding))
    → KeepsBindings a b
    → KeepsBindings b c
    → KeepsBindings a c
KeepsBindings-trans none b c h k = tt
KeepsBindings-trans (some a) b c h k = subst (λ x. KeepsBindings x c) h k

IsLater-refl : (a : SkillSnapshotPublicationRecord) → IsLater a a
IsLater-refl a = record {
  project_eq = refl;
  publication_eq = refl;
  request_eq = refl;
  prepared_eq = refl;
  bindings_kept = KeepsBindings-refl a.committed_bindings;
}

pub Follows-refl : (o : Option SkillSnapshotPublicationRecord) → Follows o o
Follows-refl none = tt
Follows-refl (some a) = IsLater-refl a

pub Follows-trans :
    (a b c : Option SkillSnapshotPublicationRecord) → Follows a b → Follows b c → Follows a c
Follows-trans none b c h k = tt
Follows-trans (some a) (some b) (some c) h k = record {
  project_eq = k.project_eq ∙ h.project_eq;
  publication_eq = k.publication_eq ∙ h.publication_eq;
  request_eq = k.request_eq ∙ h.request_eq;
  prepared_eq = k.prepared_eq ∙ h.prepared_eq;
  bindings_kept =
      KeepsBindings-trans a.committed_bindings b.committed_bindings c.committed_bindings
        h.bindings_kept k.bindings_kept;
}
Follows-trans (some a) (some b) none h k = k
Follows-trans (some a) none c h k = elim h [ ]

some_injective : {a b : SkillSnapshotPublicationRecord} → some a ≡ some b → a ≡ b
some_injective h = cc

module _ (p : Platform) where
  -- Every publication is stored under its own key.
  abbrev pub IsKeyed : Store → Type 0
  IsKeyed s =
      (key : String) (r : SkillSnapshotPublicationRecord)
      → s.publications key ≡ some r
      → key_of p r ≡ key

  -- Every publication is kept, and the store stays keyed.
  abbrev pub Advances : Store → Store → Type 0
  Advances s t = ((key : String) → Follows (s.publications key) (t.publications key)) × IsKeyed t

  pub same-Advances : (s t : Store) → IsKeyed s → t.publications ≡ s.publications → Advances s t
  same-Advances s t h e = (
    λ key.
        subst (λ f. Follows (s.publications key) (f key)) (sym e)
          (Follows-refl (s.publications key)),
    λ key r k. h key r (ap (λ f. f key) (sym e) ∙ k),
  )

  set-Advances :
      (key : String) (r : SkillSnapshotPublicationRecord) (s : Store)
      → IsKeyed s
      → key_of p r ≡ key
      → Follows (s.publications key) (some r)
      → Advances s (set_publication key r s)
  set-Advances key r s h e k = (
    λ q.
        if-satisfies (Follows (s.publications q)) (q == key) _ _
          (λ g. subst (λ x. Follows (s.publications x) (some r)) (sym ((eq_iff q key).0 g)) k)
          (λ g. Follows-refl (s.publications q)),
    λ q x g. elim (Bool-cases (q == key)) [
      | inl c ↦ sym (ap (key_of p) (some_injective (rw c at g))) ∙ e ∙ sym ((eq_iff q key).0 c)
      | inr c ↦ h q x (rw c at g)
    ],
  )

  pub claim-Advances :
      (locks : Locks) (r : SkillSnapshotPublicationRecord) (s : Store)
      → IsKeyed s
      → Advances s (claim_skill_snapshot_publication p locks r s).1
  unfolding claim_skill_snapshot_publication claim_over
  claim-Advances locks r s h =
      if-satisfies (λ (x : Result SkillSnapshotPublicationRecord × Store). Advances s x.1)
        (locks (key_of p r)) _ _ (λ g. same-Advances s s h refl)
        (λ g. of (s.publications (key_of p r)) refl)
    where
      of :
          (o : Option SkillSnapshotPublicationRecord)
          → s.publications (key_of p r) ≡ o
          → Advances s (claim_over p r o s).1
      of none e =
          set-Advances (key_of p r) (record r { committed_bindings = none }) s h refl
            (subst (λ o. Follows o (some (record r { committed_bindings = none }))) (sym e) tt)
      of (some a) e =
          if-satisfies (λ (x : Result SkillSnapshotPublicationRecord × Store). Advances s x.1)
            (not (a.publication_request_sha256 == r.publication_request_sha256)) _ _
            (λ g. same-Advances s s h refl) (λ g. same-Advances s s h refl)

  pub commit-Advances :
      (locks : Locks) (r : SkillSnapshotPublicationRecord)
      (bindings : List SkillSnapshotPublicationReceiptBinding) (s : Store)
      → IsKeyed s
      → Advances s (commit_skill_snapshot_publication p locks r bindings s).1
  unfolding commit_skill_snapshot_publication commit_over commit_current
  commit-Advances locks r bindings s h =
      if-satisfies (λ (x : Result SkillSnapshotPublicationRecord × Store). Advances s x.1)
        (locks (key_of p r)) _ _ (λ g. same-Advances s s h refl)
        (λ g. of (s.publications (key_of p r)) refl)
    where
      current :
          (a : SkillSnapshotPublicationRecord)
          (o : Option (List SkillSnapshotPublicationReceiptBinding))
          → a.committed_bindings ≡ o
          → s.publications (key_of p r) ≡ some a
          → Advances s (commit_current p a bindings o s).1
      current a none c e =
          set-Advances (key_of p a) (record a { committed_bindings = some bindings }) s h refl
            (subst (λ o. Follows o (some (record a { committed_bindings = some bindings })))
              (sym (ap s.publications (h (key_of p r) a e) ∙ e))
              (record {
                project_eq = refl;
                publication_eq = refl;
                request_eq = refl;
                prepared_eq = refl;
                bindings_kept = subst (λ b. KeepsBindings b (some bindings)) (sym c) tt;
              }))
      current a (some b) c e =
          if-satisfies (λ (x : Result SkillSnapshotPublicationRecord × Store). Advances s x.1)
            (not (same_bindings b bindings)) _ _ (λ g. same-Advances s s h refl)
            (λ g. same-Advances s s h refl)

      of :
          (o : Option SkillSnapshotPublicationRecord)
          → s.publications (key_of p r) ≡ o
          → Advances s (commit_over p r bindings o s).1
      of none e = same-Advances s s h refl
      of (some a) e =
          if-satisfies (λ (x : Result SkillSnapshotPublicationRecord × Store). Advances s x.1)
            (not (a.publication_request_sha256 == r.publication_request_sha256)) _ _
            (λ g. same-Advances s s h refl) (λ g. current a a.committed_bindings refl e)
