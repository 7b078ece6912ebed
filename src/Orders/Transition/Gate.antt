-- ===== src/Orders/Transition/Gate.antt =====
-- The order of effects of `transition_item`.
use alpha_shadow.Prelude.{◌≡◌, refl, ◌⊎◌, inl, inr, Option, none, some, List, Result, ok, err}
use alpha_shadow.Prelude.Transactions.{lift-then}
use alpha_shadow.Orders.Transition.{
  OrderRecord, OrderItemRecord, OrdersWrite, OrdersReads, ItemStatusTransitionInput, not_disclosed,
  present, check_item, move_item, transition_item,
}

not_disclosed-not-ok : {A : Type 0} {a : A} (r : Result (Unit {0})) → not_disclosed r ≡ ok a → ⊥
unfolding not_disclosed
not_disclosed-not-ok (ok u) h = cc
not_disclosed-not-ok (err e) h = cc

pub present-eq-ok :
    (reads : OrdersReads) (input : ItemStatusTransitionInput) {A : Type 0} (o : Option A) {a : A}
    → present reads input o ≡ ok a
    → o ≡ some a
unfolding present
present-eq-ok reads input (some b) h = cc
present-eq-ok reads input none h = absurd (not_disclosed-not-ok (check_item reads input none) h)

module _ (reads : OrdersReads) (input : ItemStatusTransitionInput) (w : List OrdersWrite) where
  -- Nothing has been written beyond `w`, or the order of the item was locked and the actor is
  -- authorized at its branch.
  abbrev pub WritesOnlyGated : {A : Type 0} → Result A × List OrdersWrite → Type 0
  WritesOnlyGated (r, w') =
      (w' ≡ w)
      ⊎ ((probe : OrderItemRecord) × (order : OrderRecord) × (reads.load_order_item w
              input.order_item_id
            ≡ some probe)
          × (reads.lock_order w probe.order_id ≡ some order)
          × (check_item reads input (some order.branch_id) ≡ ok tt))

  -- A transition, whether it succeeds or throws, writes nothing unless the authorization engine
  -- has let the actor through at the branch of the locked order of the item.
  pub transition_item-gated : WritesOnlyGated (transition_item reads input w)
  unfolding transition_item
  transition_item-gated =
      lift-then WritesOnlyGated (present reads input (reads.load_order_item w input.order_item_id))
        _ w (λ e h. inl refl)
        (λ probe found.
          lift-then WritesOnlyGated (present reads input (reads.lock_order w probe.order_id)) _ w
            (λ e h. inl refl)
            (λ order locked.
              lift-then WritesOnlyGated (check_item reads input (some order.branch_id))
                (λ u. move_item reads input order) w (λ e h. inl refl)
                (λ u gate. inr (
                  probe,
                  order,
                  present-eq-ok reads input _ found,
                  present-eq-ok reads input _ locked,
                  gate,
                ))))
