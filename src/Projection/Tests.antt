-- ===== src/Projection/Tests.antt =====
-- Projections of concrete runs.
use subagent.Common.{◌≡◌, refl, true, false, none, some, [], ◌∷◌, String, is_hex}
use subagent.Common.Json.{Json, obj, str, num, field, end, units_lt}
use subagent.Projection.{
  RunOutputReference, primary, packet, other, researcher_v4_strict, TerminalProjectionInput,
  exact_strict_receipt, terminal_projection_is_valid, exact_keys,
}
use subagent.Projection.Laws.{ArePair, strict_completed-pair}

abbrev digest : String
digest = "0123456789abcdef0123456789abcdef0123456789abcdef0123456789abcdef"

abbrev answer : RunOutputReference
answer = record { name = primary; relative_path = "out.md"; content_sha256 = "aa"; final = true }

abbrev bundle : RunOutputReference
bundle = record { name = packet; relative_path = "packet.md"; content_sha256 = "bb"; final = true }

abbrev receipt : Json
receipt = obj (
    field "schema_version" (num 2) (
      field "controller" (str "researchctl") (
        field "state" (str "complete") (
          field "validation" (str "passed") (
            field "dispatch_protocol" (str "research_web_dispatch_v1") (
              field "job_sha256" (str digest) (
                field "primary_profile" (str "primary") (
                  field "primary_sha256" (str "aa") (
                    field "packet_profile" (str "bendum")
                      (field "packet_sha256" (str "bb") end))))))))))

abbrev research : TerminalProjectionInput
research = record {
  researcher_bounded = true;
  activation_class = researcher_v4_strict;
  completed = true;
  output_references = bundle ∷ answer ∷ [];
  controller_terminal_receipt = some receipt;
}

abbrev ordinary : TerminalProjectionInput
ordinary = record {
  researcher_bounded = false;
  activation_class = other;
  completed = true;
  output_references = answer ∷ [];
  controller_terminal_receipt = none;
}

strict_completed-pair_example :
    (first second : RunOutputReference) × (v : Json) × ArePair research.output_references first
      second
    × (research.controller_terminal_receipt ≡ some v)
    × (exact_strict_receipt v first second ≡ true)
unfolding terminal_projection_is_valid exact_strict_receipt exact_keys units_lt is_hex
strict_completed-pair_example = strict_completed-pair research refl refl refl refl
