-- ===== src/Snapshots/References.antt =====
-- src/skillSnapshotStore.ts: registering, reading and closing the references of a snapshot.
use subagent.Common.{
  ℕ, String, ◌==◌, Bool, true, false, not, ◌&&◌, ◌||◌, Option, none, some, List, [], ◌∷◌, leb,
  nat_eq, length, all, find, filter, map, codes, units, is_alnum, is_digit, is_hex, is_id_char,
  if◌then◌else◌, Result, ok, err, thrown,
}
use subagent.Common.Json.{units_lt}
use subagent.Common.State.{M}
use subagent.Snapshots.{
  active, closed, SkillSnapshotReferenceRecord, SkillSnapshotPublicationReceiptBinding,
  SkillSnapshotPublicationRecord, Store, Platform, Locks, same_reference, with_lifecycle,
  lifecycle_eq, set_references, is_intact, with_lock,
}

abbrev pub is_lower : ℕ → Bool
is_lower c = (leb b'a' c && leb c b'z') || is_digit c

abbrev pub is_slug : List ℕ → Bool
is_slug [] = false
is_slug (c ∷ cs) = is_lower c && all (λ d. is_lower d || nat_eq d b'-') cs

-- `/^[A-Za-z0-9][A-Za-z0-9._:-]{0,n}$/`.
abbrev pub is_bounded_id : ℕ → List ℕ → Bool
is_bounded_id n [] = false
is_bounded_id n (c ∷ cs) = is_alnum c && all is_id_char cs && leb (length cs) n

-- The checks of `referenceRecords` on one record.
unfoldable pub is_valid_reference : Platform → String → SkillSnapshotReferenceRecord → Bool
is_valid_reference p id r =
    r.snapshot_id == id
    && r.bundle_sha256 == id
    && is_hex 64 r.publication_request_sha256
    && is_slug (codes r.skill_name)
    && is_bounded_id 127 (codes r.project_reference.project_id)
    && is_bounded_id 199 (codes r.project_reference.publication_id)
    && r.reference_id == p.reference_id r

unfoldable pub reference_records :
    Platform → String → Store → Result (List SkillSnapshotReferenceRecord)
reference_records p id s =
    if all (is_valid_reference p id) (s.references id) then ok (s.references id) else err thrown

abbrev pub find_reference :
    String → List SkillSnapshotReferenceRecord → Option SkillSnapshotReferenceRecord
find_reference reference_id rs = find (λ r. r.reference_id == reference_id) rs

-- A new file among those of the directory.
unfoldable pub insert_reference :
    SkillSnapshotReferenceRecord
    → List SkillSnapshotReferenceRecord
    → List SkillSnapshotReferenceRecord
insert_reference r [] = r ∷ []
insert_reference r (x ∷ xs) =
    let later = x ∷ insert_reference r xs in
    if units_lt (units r.reference_id) (units x.reference_id) then r ∷ x ∷ xs else later

-- What is written, or why not, by the file that is there.
unfoldable pub register_over :
    SkillSnapshotReferenceRecord
    → Option SkillSnapshotReferenceRecord
    → M Store SkillSnapshotReferenceRecord
register_over r none s =
    (ok r, set_references r.snapshot_id (insert_reference r (s.references r.snapshot_id)) s)
register_over r (some existing) s =
    if same_reference existing r
    then (ok r, s)
    else if lifecycle_eq existing.project_reference.lifecycle closed
        && same_reference (with_lifecycle active existing) r
    then (ok existing, s)
    else (err thrown, s)

unfoldable pub register_locked : SkillSnapshotReferenceRecord → M Store SkillSnapshotReferenceRecord
register_locked r s =
    if not (is_intact (s.bundles r.snapshot_id))
    then (err thrown, s)
    else register_over r (find_reference r.reference_id (s.references r.snapshot_id)) s

-- The record of a registration with its id.
unfoldable pub with_reference_id :
    Platform → SkillSnapshotReferenceRecord → SkillSnapshotReferenceRecord
with_reference_id p r = record r { reference_id = p.reference_id r }

unfoldable pub register_skill_snapshot_reference :
    Platform → Locks → SkillSnapshotReferenceRecord → M Store SkillSnapshotReferenceRecord
register_skill_snapshot_reference p locks r =
    with_lock locks r.snapshot_id (register_locked (with_reference_id p r))

-- The locks are taken one after the other, so an id that comes twice is locked when it comes again.
unfoldable pub acquire_all : Locks → List String → Bool
acquire_all locks [] = true
acquire_all locks (id ∷ ids) = not (locks id) && acquire_all (λ q. q == id || locks q) ids

abbrev pub is_of_publication : String → String → SkillSnapshotReferenceRecord → Bool
is_of_publication project publication r =
    r.project_reference.project_id == project && r.project_reference.publication_id == publication

abbrev pub single {ℓ} : {A : Type ℓ} → List A → Result A
single (r ∷ []) = ok r
single _ = err thrown

abbrev pub chain {ℓ κ} : {A : Type ℓ} {B : Type κ} → Result A → (A → Result B) → Result B
chain (ok a) f = f a
chain (err e) f = err e

unfoldable pub match_references :
    Platform → String → String → Store → List String → Result (List SkillSnapshotReferenceRecord)
match_references p project publication s [] = ok []
match_references p project publication s (id ∷ ids) = chain (reference_records p id s) (λ records.
    chain (single (filter (is_of_publication project publication) records))
      (λ r. chain (match_references p project publication s ids) (λ rest. ok (r ∷ rest))))

-- The file of the record is replaced by the closed one.
unfoldable pub close_reference : SkillSnapshotReferenceRecord → Store → Store
close_reference r s =
    set_references r.snapshot_id
      (map (λ x. if x.reference_id == r.reference_id then with_lifecycle closed x else x)
        (s.references r.snapshot_id))
      s

unfoldable pub close_matched : List SkillSnapshotReferenceRecord → Store → Store
close_matched [] s = s
close_matched (r ∷ rs) s = close_matched rs (close_reference r s)

abbrev pub same_ids : List String → List String → Bool
same_ids [] [] = true
same_ids (x ∷ xs) (y ∷ ys) = x == y && same_ids xs ys
same_ids _ _ = false

abbrev pub is_complete_set : Platform → Option SkillSnapshotPublicationRecord → List String → Bool
is_complete_set p none ids = false
is_complete_set p (some r) ids = of r.committed_bindings
  where
    of : Option (List SkillSnapshotPublicationReceiptBinding) → Bool
    of none = false
    of (some bindings) = same_ids (p.sort_ids (map (λ b. b.snapshot_id) bindings)) ids

unfoldable pub close_from :
    Result (List SkillSnapshotReferenceRecord) → M Store (List SkillSnapshotReferenceRecord)
close_from (ok matched) s = (ok (map (with_lifecycle closed) matched), close_matched matched s)
close_from (err e) s = (err e, s)

unfoldable pub close_skill_snapshot_references :
    Platform → Locks → String → String → List String → M Store (List SkillSnapshotReferenceRecord)
close_skill_snapshot_references p locks project publication ids s =
    if not (is_complete_set p (s.publications (p.publication_key project publication)) ids)
    then (err thrown, s)
    else if not (acquire_all locks ids)
    then (err thrown, s)
    else close_from (match_references p project publication s ids) s
