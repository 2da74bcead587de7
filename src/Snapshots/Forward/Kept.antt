-- ===== src/Snapshots/Forward/Kept.antt =====
-- src/skillSnapshotStore.ts: a reference in a directory that is added to, or has another one closed.
use subagent.Common.{
  String, ◌==◌, Option, none, some, List, [], ◌∷◌, map, units, if◌then◌else◌, if-satisfies, arith,
  ◌≡◌, ◌⊎◌, inl, inr, refl, sym, ap, subst, ◌∙◌, eq_iff, Bool-cases,
}
use subagent.Common.Json.{units_lt}
use subagent.Snapshots.{SkillSnapshotReferenceRecord, closed, with_lifecycle}
use subagent.Snapshots.References.{find_reference, insert_reference}

-- A reference stays as it was, or is closed; one that was closed stays so.
abbrev pub IsKept :
    Option SkillSnapshotReferenceRecord → Option SkillSnapshotReferenceRecord → Type 0
IsKept none b = Unit
IsKept (some r) none = ⊥
IsKept (some r) (some q) = (q ≡ r) ⊎ (q ≡ with_lifecycle closed r)

pub IsKept-refl : (o : Option SkillSnapshotReferenceRecord) → IsKept o o
IsKept-refl none = tt
IsKept-refl (some r) = inl refl

pub IsKept-trans :
    (a b c : Option SkillSnapshotReferenceRecord) → IsKept a b → IsKept b c → IsKept a c
IsKept-trans none b c h k = tt
IsKept-trans (some r) none c h k = elim h [ ]
IsKept-trans (some r) (some q) none h k = k
IsKept-trans (some r) (some q) (some t) (inl h) (inl k) = inl (k ∙ h)
IsKept-trans (some r) (some q) (some t) (inl h) (inr k) = inr (k ∙ ap (with_lifecycle closed) h)
IsKept-trans (some r) (some q) (some t) (inr h) (inl k) = inr (k ∙ h)
IsKept-trans (some r) (some q) (some t) (inr h) (inr k) = inr (k ∙ ap (with_lifecycle closed) h)

pub insert-IsKept :
    (id : String) (r : SkillSnapshotReferenceRecord) (xs : List SkillSnapshotReferenceRecord)
    → find_reference r.reference_id xs ≡ none
    → IsKept (find_reference id xs) (find_reference id (insert_reference r xs))
unfolding insert_reference
insert-IsKept id r [] h = tt
insert-IsKept id r (x ∷ xs) h =
    if-satisfies
      (λ (ys : List SkillSnapshotReferenceRecord).
        IsKept (find_reference id (x ∷ xs)) (find_reference id ys))
      (units_lt (units r.reference_id) (units x.reference_id)) _ _ (λ e. first)
      (λ e. later (λ k. insert-IsKept id r xs k))
  where
    first : IsKept (find_reference id (x ∷ xs)) (find_reference id (r ∷ x ∷ xs))
    first = elim (Bool-cases (r.reference_id == id)) [
      | inl e ↦
          subst (λ i. IsKept (find_reference i (x ∷ xs)) (find_reference id (r ∷ x ∷ xs)))
            ((eq_iff r.reference_id id).0 e)
            (subst (λ o. IsKept o (find_reference id (r ∷ x ∷ xs))) (sym h) tt)
      | inr e ↦ rw e (IsKept-refl (find_reference id (x ∷ xs)))
    ]

    later :
        (find_reference r.reference_id xs ≡ none
          → IsKept (find_reference id xs) (find_reference id (insert_reference r xs)))
        → IsKept (find_reference id (x ∷ xs)) (find_reference id (x ∷ insert_reference r xs))
    later g = elim (Bool-cases (x.reference_id == id)) [
      | inl e ↦ rw e (inl refl)
      | inr e ↦ rw e (g (ground (arith, h)))
    ]

pub close-IsKept :
    (id reference : String) (xs : List SkillSnapshotReferenceRecord)
    → IsKept (find_reference id xs) (
        find_reference id
          (map (λ x. if x.reference_id == reference then with_lifecycle closed x else x) xs))
close-IsKept id reference [] = tt
close-IsKept id reference (x ∷ xs) = elim (Bool-cases (x.reference_id == reference)) [
  | inl e ↦ rw e (closed_one _ (close-IsKept id reference xs))
  | inr e ↦ rw e (same_one _ (close-IsKept id reference xs))
]
  where
    closed_one :
        (rest : List SkillSnapshotReferenceRecord)
        → IsKept (find_reference id xs) (find_reference id rest)
        → IsKept (find_reference id (x ∷ xs)) (find_reference id (with_lifecycle closed x ∷ rest))
    closed_one rest h = elim (Bool-cases (x.reference_id == id)) [
      | inl g ↦ rw g (inr refl)
      | inr g ↦ rw g h
    ]

    same_one :
        (rest : List SkillSnapshotReferenceRecord)
        → IsKept (find_reference id xs) (find_reference id rest)
        → IsKept (find_reference id (x ∷ xs)) (find_reference id (x ∷ rest))
    same_one rest h = elim (Bool-cases (x.reference_id == id)) [
      | inl g ↦ rw g (inl refl)
      | inr g ↦ rw g h
    ]
