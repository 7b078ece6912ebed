-- ===== src/Orders/Transition/Family.antt =====
-- The rule of `is_transition_allowed`.
use alpha_shadow.Prelude.{
  ◌<◌, ◌≡◌, ◌≢◌, ◌↔◌, ◌⊎◌, true, arith, Option, none, some, Text, text_beq_iff,
}
use alpha_shadow.Orders.Transition.{
  TenantWorkflowState, family_move, is_family_move, is_transition_allowed,
}

-- The kind family of a state: its parent kind, or its own kind at the top level.
abbrev pub family_of : Option Text → Text → Text
family_of none kind = kind
family_of (some parent) kind = parent

abbrev pub state_family : TenantWorkflowState → Text
state_family s = family_of s.parent_kind_code s.kind_code

abbrev pub IsSub : Option Text → Type 0
IsSub none = ⊥
IsSub (some parent) = Unit

-- The states differ, both are enabled, and the target is later or in the same family, where one of
-- the two is a sub-state.
pub record MayMove (from to : TenantWorkflowState) : Type 0 where
  pub moves : from.id ≢ to.id
  pub from_enabled : from.is_enabled ≡ true
  pub to_enabled : to.is_enabled ≡ true
  pub way :
      (from.position < to.position)
      ⊎ ((IsSub from.parent_kind_code ⊎ IsSub to.parent_kind_code)
          × (state_family from ≡ state_family to))

family_move_iff :
    (p : Option Text) (a : Text) (q : Option Text) (b : Text)
    → (family_move p a q b ≡ true) ↔ ((IsSub p ⊎ IsSub q) × (family_of p a ≡ family_of q b))
unfolding family_move
family_move_iff none a none b = ground arith
family_move_iff (some p) a (some q) b = ground (arith, text_beq_iff p q)
family_move_iff none a (some q) b = ground (arith, text_beq_iff q a)
family_move_iff (some p) a none b = ground (arith, text_beq_iff p b)

-- An item may move between two states exactly when they are different enabled states, and the
-- target has a later position, or both belong to one kind family and one of them is a sub-state.
pub is_transition_allowed_iff :
    (from to : TenantWorkflowState) → (is_transition_allowed from to ≡ true) ↔ MayMove from to
unfolding is_transition_allowed is_family_move
is_transition_allowed_iff from to =
    let same = text_beq_iff from.id to.id in
    let family =
      family_move_iff from.parent_kind_code from.kind_code to.parent_kind_code to.kind_code in
    (
      (λ h. record {
        moves = λ e. ground (arith, same, e);
        from_enabled = ground arith;
        to_enabled = ground arith;
        way = ground (arith, family);
      }),
      (λ m. ground (arith, same, family, m.moves, m.from_enabled, m.to_enabled, m.way)),
    )
