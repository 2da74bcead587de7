-- ===== src/Projection.antt =====
-- src/terminalProjection.ts: which outputs and which controller receipt a terminal run may show.
mod Laws
mod Tests
use subagent.Common.{
  ℕ, String, ◌==◌, Bool, true, false, not, ◌&&◌, ◌||◌, Option, none, some, List, [], ◌∷◌, ◌++◌,
  nat_eq, leb, if◌then◌else◌, is_hex, length, all, filter, codes, units, ◌+◌,
}
use subagent.Common.Json.{Json, obj, Fields, get, as_str, as_num, keys, units_lt}

pub data OutputName : Type 0 where
  primary packet : OutputName

-- `RunOutputReference`: `final` says that its output mode is `final`.
pub record RunOutputReference : Type 0 where
  pub name : OutputName
  pub relative_path : String
  pub content_sha256 : String
  pub final : Bool

pub data ActivationClass : Type 0 where
  other researcher_v3_legacy researcher_v4_strict : ActivationClass

-- `completed` and `researcher_bounded` stand for the comparisons of the status and of the profile.
pub record TerminalProjectionInput : Type 0 where
  pub researcher_bounded : Bool
  pub activation_class : ActivationClass
  pub completed : Bool
  pub output_references : List RunOutputReference
  pub controller_terminal_receipt : Option Json

insert_key : String → List String → List String
insert_key k [] = k ∷ []
insert_key k (j ∷ js) =
    let later = j ∷ insert_key k js in if units_lt (units j) (units k) then later else k ∷ j ∷ js

sort_keys : List String → List String
unfolding insert_key
sort_keys [] = []
sort_keys (k ∷ ks) = insert_key k (sort_keys ks)

join : List String → List ℕ
join [] = []
join (k ∷ []) = codes k
join (k ∷ ks) = codes k ++ 0 ∷ join ks

codes_eq : List ℕ → List ℕ → Bool
codes_eq [] [] = true
codes_eq (x ∷ xs) (y ∷ ys) = nat_eq x y && codes_eq xs ys
codes_eq _ _ = false

unfoldable exact_keys : Json → List String → Bool
unfolding sort_keys join codes_eq
exact_keys (obj fs) expected = codes_eq (join (sort_keys (keys fs))) (join (sort_keys expected))
exact_keys _ expected = false

abbrev has_str : String → String → Json → Bool
has_str k expected v = elim (as_str (get k v)) [ some s ↦ s == expected | none ↦ false ]

abbrev has_num : String → ℕ → Json → Bool
has_num k expected v = elim (as_num (get k v)) [ some n ↦ nat_eq n expected | none ↦ false ]

abbrev has_sha256 : String → Json → Bool
has_sha256 k v = elim (as_str (get k v)) [ some s ↦ is_hex 64 s | none ↦ false ]

unfoldable exact_legacy_receipt : Json → Bool
exact_legacy_receipt v =
    exact_keys v (
      "schema_version" ∷ "controller" ∷ "state" ∷ "validation" ∷ "job_sha256" ∷ "render_profile"
      ∷ "render_sha256" ∷ [])
    && has_num "schema_version" 1 v
    && has_str "controller" "researchctl" v
    && has_str "state" "complete" v
    && has_str "validation" "passed" v
    && has_sha256 "job_sha256" v
    && has_str "render_profile" "full" v
    && has_sha256 "render_sha256" v

pub exact_strict_receipt : Json → RunOutputReference → RunOutputReference → Bool
exact_strict_receipt v first second =
    exact_keys v (
      "schema_version" ∷ "controller" ∷ "state" ∷ "validation" ∷ "dispatch_protocol" ∷ "job_sha256"
      ∷ "primary_profile" ∷ "primary_sha256" ∷ "packet_profile" ∷ "packet_sha256" ∷ [])
    && has_num "schema_version" 2 v
    && has_str "controller" "researchctl" v
    && has_str "state" "complete" v
    && has_str "validation" "passed" v
    && has_str "dispatch_protocol" "research_web_dispatch_v1" v
    && has_sha256 "job_sha256" v
    && has_str "primary_profile" "primary" v
    && has_str "primary_sha256" first.content_sha256 v
    && has_str "packet_profile" "bendum" v
    && has_str "packet_sha256" second.content_sha256 v

abbrev is_primary : RunOutputReference → Bool
is_primary r = elim r.name [ primary ↦ true | packet ↦ false ]

abbrev is_packet : RunOutputReference → Bool
is_packet r = elim r.name [ primary ↦ false | packet ↦ true ]

-- Whether the paths are all different, which the source tests by the size of their set.
distinct_paths : List RunOutputReference → Bool
distinct_paths [] = true
distinct_paths (r ∷ rs) =
    all (λ s. not (r.relative_path == s.relative_path)) rs && distinct_paths rs

abbrev head {ℓ} : {A : Type ℓ} → List A → Option A
head [] = none
head (x ∷ xs) = some x

unfoldable roles_valid : List RunOutputReference → Bool
unfolding distinct_paths
roles_valid rs =
    leb 1 (length rs)
    && leb (length rs) 2
    && nat_eq (length (filter is_primary rs)) 1
    && nat_eq (1 + length (filter is_packet rs)) (length rs)
    && distinct_paths rs
    && all (λ r. r.final) (filter is_packet rs)
    && (nat_eq (length (filter is_packet rs)) 0 || all (λ r. r.final) (filter is_primary rs))

no_receipt : Option Json → Bool
no_receipt none = true
no_receipt (some v) = false

legacy_allowed : Option Json → Bool
legacy_allowed none = true
legacy_allowed (some v) = exact_legacy_receipt v

-- A strict run shows both a packet and a receipt that names both outputs, or neither.
strict_allowed : Bool → RunOutputReference → Option RunOutputReference → Option Json → Bool
strict_allowed completed first none none = not completed
strict_allowed completed first none (some v) = false
strict_allowed completed first (some second) none = false
strict_allowed completed first (some second) (some v) = exact_strict_receipt v first second

abbrev without_packet : Option RunOutputReference → Bool
without_packet none = true
without_packet (some r) = false

-- The rules for each profile and activation, on the roles of the outputs.
projection_for : TerminalProjectionInput → RunOutputReference → Option RunOutputReference → Bool
unfolding no_receipt legacy_allowed strict_allowed
projection_for i first second =
    if not i.researcher_bounded
    then elim i.activation_class [
      | other ↦ without_packet second && no_receipt i.controller_terminal_receipt
      | _ ↦ false
    ]
    else elim i.activation_class [
      | researcher_v3_legacy ↦ without_packet second && legacy_allowed i.controller_terminal_receipt
      | other ↦ not i.completed && without_packet second && no_receipt i.controller_terminal_receipt
      | researcher_v4_strict ↦ strict_allowed i.completed first second i.controller_terminal_receipt
    ]

pub terminal_projection_is_valid : TerminalProjectionInput → Bool
unfolding projection_for roles_valid
terminal_projection_is_valid i =
    if roles_valid i.output_references
    then elim (head (filter is_primary i.output_references)) [
      | none ↦ false
      | some first ↦ projection_for i first (head (filter is_packet i.output_references))
    ]
    else false
