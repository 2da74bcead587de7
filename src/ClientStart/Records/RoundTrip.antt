-- ===== src/ClientStart/Records/RoundTrip.antt =====
-- src/clientStartAdmission.ts: what is written is what is read, and a record that is read carries
-- the id that it is read for.
use subagent.Common.{
  ◌≡◌, refl, true, false, ◌&&◌, Option, none, some, String, eq_iff, eq_refl, leb, is_blank, is_hex,
  ok, err, enoent, arith, Bool-cases, inl, inr,
}
use subagent.Common.Json.{Json, get, as_str}
use subagent.Common.Maybe.{>>=-eq-some, check-eq-some}
use subagent.ClientStart.Records.{
  Platform, PersistedBinding, PersistedRecord, bound, fence, max_safe, valid_binding_fields,
  read_v2, read_cancelled, read_fence, first_reading, is_object, validate_persisted_record, encode,
  is_text, is_number,
}

-- The fields of a binding pass the tests of `validBindingFields`.
pub record IsValidBinding (p : Platform) (b : PersistedBinding) : Type 0 where
  pub request : is_hex 64 b.request_sha256 ≡ true
  pub run : is_blank b.run_id ≡ false
  pub admitted : p.date_parses b.admitted_at ≡ true
  pub owner : (leb b.owner_pid max_safe && leb 1 b.owner_pid) ≡ true
  pub instance_id : is_hex 24 b.owner_instance_id ≡ true

abbrev pub DateParses : Platform → Option String → Type 0
DateParses p none = Unit
DateParses p (some at) = p.date_parses at ≡ true

-- A record that is valid for an id.
abbrev pub IsValidFor : Platform → String → PersistedRecord → Type 0
IsValidFor p id (bound b) =
    (b.client_start_id ≡ id) × IsValidBinding p b × DateParses p b.cancellation_requested_at
IsValidFor p id (fence fenced_id at) = (fenced_id ≡ id) × (p.date_parses at ≡ true)

validate-encode_bound :
    (p : Platform) (id : String) (b : PersistedBinding) (at : Option String)
    → b.cancellation_requested_at ≡ at
    → b.client_start_id ≡ id
    → IsValidBinding p b
    → DateParses p at
    → validate_persisted_record p (encode (bound b)) id ≡ ok (bound b)
unfolding validate_persisted_record encode
validate-encode_bound p id b none e same v h =
    rw (e, same, eq_refl id, v.request, v.run, v.admitted, v.owner, v.instance_id)
validate-encode_bound p id b (some at) e same v h =
    rw (e, same, eq_refl id, v.request, v.run, v.admitted, v.owner, v.instance_id, h)

-- What a successful reading of `v` for `id` says.
abbrev Sound : Platform → Json → String → PersistedRecord → Type 0
Sound p v id r = (as_str (get "client_start_id" v) ≡ some id) × IsValidFor p id r

valid_binding_fields_sound :
    (p : Platform) (v : Json) (id : String) (c : Option String) (b : PersistedBinding)
    → valid_binding_fields p v id c ≡ some b
    → (as_str (get "client_start_id" v) ≡ some id)
      × (b.client_start_id ≡ id)
      × IsValidBinding p b
      × (b.cancellation_requested_at ≡ c)
unfolding valid_binding_fields
valid_binding_fields_sound p v id c b h = ground (arith, eq_iff b.client_start_id id)

read_v2-Sound :
    (p : Platform) (v : Json) (id : String) (r : PersistedRecord)
    → read_v2 p v id ≡ some r
    → Sound p v id r
unfolding read_v2
read_v2-Sound p v id (bound b) h =
    let (t, k) = check-eq-some (is_number (get "schema_version" v) 2) _ h in
    let (c, e, same) = >>=-eq-some (valid_binding_fields p v id none) _ k in
    let (k0, q, u, n) = valid_binding_fields_sound p v id none b (ground arith) in
    (k0, (q, u, rw n tt))
read_v2-Sound p v id (fence i at) h = ground arith

read_cancelled-Sound :
    (p : Platform) (v : Json) (id : String) (r : PersistedRecord)
    → read_cancelled p v id ≡ some r
    → Sound p v id r
unfolding read_cancelled
read_cancelled-Sound p v id (bound b) h =
    let (t, k) = check-eq-some (is_number (get "schema_version" v) 3) _ h in
    let (t', k') = check-eq-some (is_text (get "record_kind" v) "binding") _ k in
    let (at, e, l) = >>=-eq-some (as_str (get "cancellation_requested_at" v)) _ k' in
    let (c, e', l') = >>=-eq-some (valid_binding_fields p v id (some at)) _ l in
    let (d, same) = check-eq-some (p.date_parses at) _ l' in
    let (k0, q, u, n) = valid_binding_fields_sound p v id (some at) b (ground arith) in
    (k0, (q, u, rw n d))
read_cancelled-Sound p v id (fence i at) h = ground arith

read_fence-Sound :
    (p : Platform) (v : Json) (id : String) (r : PersistedRecord)
    → read_fence p v id ≡ some r
    → Sound p v id r
unfolding read_fence
read_fence-Sound p v id (bound b) h = ground arith
read_fence-Sound p v id (fence i at) h = (ground (arith, eq_iff i id), ground (arith, eq_iff i id))

first_reading_sound :
    (P : PersistedRecord → Type 0) (a b c : Option PersistedRecord) (r : PersistedRecord)
    → (a ≡ some r → P r)
    → (b ≡ some r → P r)
    → (c ≡ some r → P r)
    → first_reading a b c ≡ ok r
    → P r
unfolding first_reading
first_reading_sound P (some x) b c r f g k h = f (cc)
first_reading_sound P none (some x) c r f g k h = g (cc)
first_reading_sound P none none (some x) r f g k h = k (cc)
first_reading_sound P none none none r f g k h = ground arith

validate-object :
    (p : Platform) (v : Json) (id : String)
    → is_object v ≡ true
    → validate_persisted_record p v id
      ≡ first_reading (read_v2 p v id) (read_cancelled p v id) (read_fence p v id)
unfolding validate_persisted_record
validate-object p v id t = rw t refl

validate-no_object :
    (p : Platform) (v : Json) (id : String) (r : PersistedRecord)
    → is_object v ≡ false
    → validate_persisted_record p v id ≡ ok r
    → ⊥
unfolding validate_persisted_record
validate-no_object p v id r f h = cc (rw f at h)

validate-encode_fence :
    (p : Platform) (id i at : String)
    → i ≡ id
    → p.date_parses at ≡ true
    → validate_persisted_record p (encode (fence i at)) id ≡ ok (fence i at)
unfolding validate_persisted_record encode
validate-encode_fence p id i at same h = rw (same, eq_refl id, h)

validate-Sound :
    (p : Platform) (v : Json) (id : String) (r : PersistedRecord)
    → validate_persisted_record p v id ≡ ok r
    → Sound p v id r
validate-Sound p v id r h = elim (Bool-cases (is_object v)) [
  | inl t ↦
      first_reading_sound (Sound p v id) (read_v2 p v id) (read_cancelled p v id)
        (read_fence p v id) r (read_v2-Sound p v id r) (read_cancelled-Sound p v id r)
        (read_fence-Sound p v id r) (rw (validate-object p v id t) at h)
  | inr f ↦ absurd (validate-no_object p v id r f h)
]

-- A record that was validated for an id is valid, and has that id.
pub validate-IsValidFor :
    (p : Platform) (v : Json) (id : String) (r : PersistedRecord)
    → validate_persisted_record p v id ≡ ok r
    → IsValidFor p id r
validate-IsValidFor p v id r h = (validate-Sound p v id r h).1

-- One value is valid for one id at most.
pub validate_same_id :
    (p : Platform) (v : Json) (id id' : String) (r r' : PersistedRecord)
    → validate_persisted_record p v id ≡ ok r
    → validate_persisted_record p v id' ≡ ok r'
    → id ≡ id'
validate_same_id p v id id' r r' h h' =
    let e = (validate-Sound p v id r h).0 in let e' = (validate-Sound p v id' r' h').0 in cc

first_reading-ne-enoent : (a b c : Option PersistedRecord) → first_reading a b c ≡ err enoent → ⊥
unfolding first_reading
first_reading-ne-enoent (some x) b c h = cc
first_reading-ne-enoent none (some x) c h = cc
first_reading-ne-enoent none none (some x) h = cc
first_reading-ne-enoent none none none h = cc

-- A file that is there is never taken for a missing one.
pub validate-ne-enoent :
    (p : Platform) (v : Json) (id : String) → validate_persisted_record p v id ≡ err enoent → ⊥
unfolding validate_persisted_record
validate-ne-enoent p v id h = elim (Bool-cases (is_object v)) [
  | inl t ↦
      first_reading-ne-enoent (read_v2 p v id) (read_cancelled p v id) (read_fence p v id)
        (rw t at h)
  | inr f ↦ cc (rw f at h)
]

-- What is written for a valid record is read back as that record.
pub validate-encode :
    (p : Platform) (id : String) (r : PersistedRecord)
    → IsValidFor p id r
    → validate_persisted_record p (encode r) id ≡ ok r
validate-encode p id (bound b) (same, v, h) =
    validate-encode_bound p id b b.cancellation_requested_at refl same v h
validate-encode p id (fence i at) (same, h) = validate-encode_fence p id i at same h
