-- ===== src/Orders/Transition.antt =====
-- application/engines/orders/workflow-transition-engine.ts, with its records of
-- domain/contracts/orders.ts. The tenant of the transaction and the clock are fixed.
pub mod Family
pub mod Gate
pub mod Moves
use alpha_shadow.Prelude.{
  ℕ, Bool, true, false, not, ◌&&◌, ◌||◌, ltb, ◌==◌, arith, if◌then◌else◌, Option, none, some, List,
  [], ◌∷◌, Text, text_eq, ◌===◌, codes, Error, Result, ok, err, guard, not_found,
  workflow_transition,
}
use alpha_shadow.Prelude.Transactions.{Tx, and_then, ◌>>=◌, ◌>>◌, lift, read, write, some_or}

pub record TenantWorkflowState : Type 0 where
  pub id : Text
  pub kind_code : Text
  pub parent_kind_code : Option Text
  pub position : ℕ
  pub is_enabled : Bool

pub record OrderBehaviorFlags : Type 0 where
  pub fires_kitchen_ticket : Bool
  pub opens_payment_collection : Bool
  pub notifies_customer : Bool
  pub is_terminal : Bool
  pub is_financial_close : Bool

pub record OrderRecord : Type 0 where
  pub id : Text
  pub branch_id : Text

pub record OrderItemRecord : Type 0 where
  pub id : Text
  pub order_id : Text
  pub current_status_kind_id : Text
  pub is_voided : Bool

-- The payload's `order_item_id` is a field; a payload may lack it.
pub record OrderOutboxEvent : Type 0 where
  pub sequence_id : ℕ
  pub event_type : Text
  pub payload_order_item_id : Option Text

pub record ItemStatusTransitionInput : Type 0 where
  pub order_item_id : Text
  pub to_workflow_state_id : Text
  pub actor_user_id : Text
  pub token_sec_v : Text

pub record ItemStatusTransitionResult : Type 0 where
  pub order_item_id : Text
  pub from_workflow_state_id : Text
  pub to_workflow_state_id : Text
  pub behavior_flags : OrderBehaviorFlags
  pub outbox_sequence_id : ℕ

pub record StatusEvent : Type 0 where
  pub order_item_id : Text
  pub order_id : Text
  pub from_workflow_state_id : Option Text
  pub to_workflow_state_id : Text
  pub actor_user_id : Option Text

pub data OrdersWrite : Type 0 where
  bump_order_revision : Text → OrdersWrite
  insert_status_event : StatusEvent → OrdersWrite

-- What the engine reads of `OrdersTxScope`, after the writes so far, and the authorization engine,
-- asked for a key without a resource or at a branch.
pub record OrdersReads : Type 0 where
  pub load_order_item : List OrdersWrite → Text → Option OrderItemRecord
  pub lock_order : List OrdersWrite → Text → Option OrderRecord
  pub load_workflow_states : List OrdersWrite → Bool → List TenantWorkflowState
  pub load_order_status_kind_flags : List OrdersWrite → Text → OrderBehaviorFlags
  pub last_outbox_sequence : List OrdersWrite → Text → ℕ
  pub read_outbox_events : List OrdersWrite → Text → ℕ → ℕ → List OrderOutboxEvent
  pub check : Text → Text → Text → Option Text → Result (Unit {0})

abbrev pub item_transition_permission_key : Text
item_transition_permission_key = codes "order:item:transition"

unfoldable pub family_move : Option Text → Text → Option Text → Text → Bool
family_move none from none to = false
family_move (some a) from (some b) to = a === b
family_move none from (some b) to = b === from
family_move (some a) from none to = a === to

unfoldable pub is_family_move : TenantWorkflowState → TenantWorkflowState → Bool
unfolding family_move
is_family_move from to =
    family_move from.parent_kind_code from.kind_code to.parent_kind_code to.kind_code

unfoldable pub is_transition_allowed : TenantWorkflowState → TenantWorkflowState → Bool
is_transition_allowed from to =
    if from.id === to.id
    then false
    else if not from.is_enabled || not to.is_enabled
    then false
    else ltb from.position to.position || is_family_move from to

-- `states.find((s) => s.id === id)`.
unfoldable pub find_state : Text → List TenantWorkflowState → Option TenantWorkflowState
find_state id [] = none
find_state id (s ∷ rest) = let found = find_state id rest in if s.id === id then some s else found

abbrev pub is_option : Option Text → Text → Bool
is_option none t = false
is_option (some a) t = a === t

unfoldable pub find_evidence : Text → List OrderOutboxEvent → Option OrderOutboxEvent
find_evidence item [] = none
find_evidence item (e ∷ rest) =
    let found = find_evidence item rest in
    if (e.event_type === codes "order_item.status_changed")
      && is_option e.payload_order_item_id item
    then some e
    else found

unfoldable pub chosen_states :
    Option TenantWorkflowState
    → Option TenantWorkflowState
    → Result (TenantWorkflowState × TenantWorkflowState)
chosen_states none from = err workflow_transition
chosen_states (some to) none = err workflow_transition
chosen_states (some to) (some from) =
    if is_transition_allowed from to then ok (from, to) else err workflow_transition

-- The error that hides whether a record exists: that of the check, or else it is not found.
unfoldable pub not_disclosed : {A : Type 0} → Result (Unit {0}) → Result A
not_disclosed (ok u) = err not_found
not_disclosed (err e) = err e

-- The decision on the loaded states: the states that the item leaves and enters.
unfoldable pub choose_states :
    List TenantWorkflowState → Text → Text → Result (TenantWorkflowState × TenantWorkflowState)
unfolding chosen_states
choose_states states current target =
    chosen_states (find_state target states) (find_state current states)

module _ (reads : OrdersReads) where
  open reads use {
    load_order_item, lock_order, load_workflow_states, load_order_status_kind_flags,
    last_outbox_sequence, read_outbox_events, check,
  }

  unfoldable pub append_item_status_event : Text → StatusEvent → Tx OrdersWrite ℕ
  append_item_status_event branch event = do
    before ← read (λ w. last_outbox_sequence w branch)
    write (insert_status_event event)
    fresh ← read (λ w. read_outbox_events w branch before 64)
    evidence ← lift (some_or workflow_transition (find_evidence event.order_item_id fresh))
    lift (ok evidence.sequence_id)

  abbrev pub check_item : ItemStatusTransitionInput → Option Text → Result (Unit {0})
  check_item input branch =
      check input.actor_user_id item_transition_permission_key input.token_sec_v branch

  -- A record that is missing is told apart only after a check without a resource.
  unfoldable pub present : {A : Type 0} → ItemStatusTransitionInput → Option A → Result A
  present input none = not_disclosed (check_item input none)
  present input (some a) = ok a

  abbrev pub event_of :
      ItemStatusTransitionInput
      → OrderRecord
      → OrderItemRecord
      → TenantWorkflowState × TenantWorkflowState
      → StatusEvent
  event_of input order item (from, to) = record {
    order_item_id = item.id;
    order_id = order.id;
    from_workflow_state_id = some from.id;
    to_workflow_state_id = to.id;
    actor_user_id = some input.actor_user_id;
  }

  -- What the chosen states are followed by: the event and the answer.
  abbrev pub move_between :
      ItemStatusTransitionInput
      → OrderRecord
      → OrderItemRecord
      → TenantWorkflowState × TenantWorkflowState
      → Tx OrdersWrite ItemStatusTransitionResult
  move_between input order item (from, to) = do
    flags ← read (λ w. load_order_status_kind_flags w to.kind_code)
    sequence ← append_item_status_event order.branch_id (event_of input order item (from, to))
    lift (
        ok (record {
          order_item_id = item.id;
          from_workflow_state_id = from.id;
          to_workflow_state_id = to.id;
          behavior_flags = flags;
          outbox_sequence_id = sequence;
        }))

  abbrev pub move_live :
      ItemStatusTransitionInput
      → OrderRecord
      → OrderItemRecord
      → Tx OrdersWrite ItemStatusTransitionResult
  move_live input order item = do
    states ← read (λ w. load_workflow_states w true)
    chosen ← lift (choose_states states item.current_status_kind_id input.to_workflow_state_id)
    move_between input order item chosen

  abbrev pub move_loaded :
      ItemStatusTransitionInput
      → OrderRecord
      → OrderItemRecord
      → Tx OrdersWrite ItemStatusTransitionResult
  move_loaded input order item = do
    lift (guard (not item.is_voided) workflow_transition)
    move_live input order item

  -- What follows the gate: every write of the transaction.
  unfoldable pub move_item :
      ItemStatusTransitionInput → OrderRecord → Tx OrdersWrite ItemStatusTransitionResult
  move_item input order = do
    write (bump_order_revision order.id)
    loaded ← read (λ w. load_order_item w input.order_item_id)
    item ← lift (some_or not_found loaded)
    move_loaded input order item

  unfoldable pub transition_item :
      ItemStatusTransitionInput → Tx OrdersWrite ItemStatusTransitionResult
  transition_item input = do
    loaded ← read (λ w. load_order_item w input.order_item_id)
    probe ← lift (present input loaded)
    locked ← read (λ w. lock_order w probe.order_id)
    order ← lift (present input locked)
    lift (check_item input (some order.branch_id))
    move_item input order
