-- ===== src/Projection/Laws.antt =====
-- src/terminalProjection.ts: what a valid projection says of the outputs.
use subagent.Common.{
  ◌≡◌, refl, true, false, Option, none, some, List, [], ◌∷◌, arith, ◌⊎◌, filter, subst,
}
use subagent.Common.Json.{Json}
use subagent.Projection.{
  RunOutputReference, primary, packet, other, researcher_v4_strict, TerminalProjectionInput,
  exact_strict_receipt, roles_valid, projection_for, terminal_projection_is_valid, no_receipt,
  strict_allowed, head, is_primary, is_packet,
}

-- The two outputs of a run with a packet, in either order.
pub record ArePair (rs : List RunOutputReference) (first second : RunOutputReference) : Type 0 where
  pub order : (rs ≡ first ∷ second ∷ []) ⊎ (rs ≡ second ∷ first ∷ [])
  pub first_name : first.name ≡ primary
  pub second_name : second.name ≡ packet
  pub first_final : first.final ≡ true
  pub second_final : second.final ≡ true

roles-packet :
    (rs : List RunOutputReference) (first second : RunOutputReference)
    → roles_valid rs ≡ true
    → head (filter is_primary rs) ≡ some first
    → head (filter is_packet rs) ≡ some second
    → ArePair rs first second
unfolding roles_valid
roles-packet [] first second h p q = ground arith
roles-packet (a ∷ []) first second h p q = ground arith
roles-packet (a ∷ b ∷ []) first second h p q = record {
  order = ground arith;
  first_name = ground arith;
  second_name = ground arith;
  first_final = ground arith;
  second_final = ground arith;
}
roles-packet (a ∷ b ∷ c ∷ rs) first second h p q = ground arith

valid_from :
    (i : TerminalProjectionInput) (o : Option RunOutputReference)
    → head (filter is_primary i.output_references) ≡ o
    → terminal_projection_is_valid i ≡ true
    → (first : RunOutputReference) × (roles_valid i.output_references ≡ true)
      × (head (filter is_primary i.output_references) ≡ some first)
      × (projection_for i first (head (filter is_packet i.output_references)) ≡ true)
unfolding terminal_projection_is_valid
valid_from i none e h = ground (arith, e, h)
valid_from i (some first) e h = (first, ground (arith, h), e, ground (arith, e, h))

valid-primary :
    (i : TerminalProjectionInput)
    → terminal_projection_is_valid i ≡ true
    → (first : RunOutputReference) × (roles_valid i.output_references ≡ true)
      × (head (filter is_primary i.output_references) ≡ some first)
      × (projection_for i first (head (filter is_packet i.output_references)) ≡ true)
valid-primary i h = valid_from i (head (filter is_primary i.output_references)) refl h

strict-parts :
    (i : TerminalProjectionInput) (first : RunOutputReference) (second : Option RunOutputReference)
    → projection_for i first second ≡ true
    → i.researcher_bounded ≡ true
    → i.activation_class ≡ researcher_v4_strict
    → strict_allowed i.completed first second i.controller_terminal_receipt ≡ true
unfolding projection_for
strict-parts i first second h b c = ground (arith, h, b, c)

strict_allowed-completed :
    (first : RunOutputReference) (second : Option RunOutputReference) (receipt : Option Json)
    → strict_allowed true first second receipt ≡ true
    → (r : RunOutputReference) × (v : Json) × (second ≡ some r)
      × (receipt ≡ some v)
      × (exact_strict_receipt v first r ≡ true)
unfolding strict_allowed
strict_allowed-completed first none none h = ground arith
strict_allowed-completed first none (some v) h = ground arith
strict_allowed-completed first (some r) none h = ground arith
strict_allowed-completed first (some r) (some v) h = (r, v, refl, refl, h)

-- A completed run of the bounded researcher under the strict activation shows exactly two outputs,
-- one named primary and one named packet, both final, and a receipt that passes the strict test
-- against those two.
pub strict_completed-pair :
    (i : TerminalProjectionInput)
    → terminal_projection_is_valid i ≡ true
    → i.researcher_bounded ≡ true
    → i.activation_class ≡ researcher_v4_strict
    → i.completed ≡ true
    → (first second : RunOutputReference) × (v : Json) × ArePair i.output_references first second
      × (i.controller_terminal_receipt ≡ some v)
      × (exact_strict_receipt v first second ≡ true)
strict_completed-pair i h b c d =
    let (first, roles, p, allowed) = valid-primary i h in
    let (second, v, q, r, e) = strict_allowed-completed first _ i.controller_terminal_receipt (
      subst
        (λ t.
          strict_allowed t first (head (filter is_packet i.output_references))
            i.controller_terminal_receipt
          ≡ true)
        d (strict-parts i first _ allowed b c)) in
    (first, second, v, roles-packet i.output_references first second roles p q, r, e)

roles-single :
    (rs : List RunOutputReference) (first : RunOutputReference)
    → roles_valid rs ≡ true
    → head (filter is_primary rs) ≡ some first
    → head (filter is_packet rs) ≡ none
    → rs ≡ first ∷ []
unfolding roles_valid
roles-single [] first h p q = ground arith
roles-single (a ∷ []) first h p q = ground arith
roles-single (a ∷ b ∷ []) first h p q = ground arith
roles-single (a ∷ b ∷ c ∷ rs) first h p q = ground arith

ordinary-parts :
    (i : TerminalProjectionInput) (first : RunOutputReference) (second : Option RunOutputReference)
    → projection_for i first second ≡ true
    → i.researcher_bounded ≡ false
    → (second ≡ none) × (i.controller_terminal_receipt ≡ none) × (i.activation_class ≡ other)
unfolding projection_for no_receipt
ordinary-parts i first second h b = ground (arith, h, b)

-- A run under any other profile shows exactly one output, its primary one, and no receipt.
pub ordinary-single :
    (i : TerminalProjectionInput)
    → terminal_projection_is_valid i ≡ true
    → i.researcher_bounded ≡ false
    → (first : RunOutputReference) × (i.output_references ≡ first ∷ [])
      × (i.controller_terminal_receipt ≡ none)
      × (i.activation_class ≡ other)
ordinary-single i h b =
    let (first, roles, p, allowed) = valid-primary i h in
    let (q, r, c) = ordinary-parts i first _ allowed b in
    (first, roles-single i.output_references first roles p q, r, c)
