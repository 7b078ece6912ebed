-- ===== src/Examples/OrderCases.antt =====
-- A transition of an order's item at concrete records.
use alpha_shadow.Prelude.{
  ◌≡◌, ◌↔◌, refl, true, false, none, some, List, [], ◌∷◌, codes, text_beq, ok, err, forbidden,
}
use alpha_shadow.Orders.Transition.{
  TenantWorkflowState, OrderBehaviorFlags, OrderRecord, OrderItemRecord, OrderOutboxEvent,
  ItemStatusTransitionInput, ItemStatusTransitionResult, OrdersWrite, bump_order_revision,
  insert_status_event, OrdersReads, family_move, is_family_move, is_transition_allowed, find_state,
  find_evidence, chosen_states, choose_states, append_item_status_event, event_of, present,
  move_item, transition_item,
}
use alpha_shadow.Orders.Transition.Family.{MayMove, is_transition_allowed_iff}
use alpha_shadow.Orders.Transition.Gate.{WritesOnlyGated, transition_item-gated}
use alpha_shadow.Orders.Transition.Moves.{Moved, transition_item-eq-ok}

abbrev new_state : TenantWorkflowState
new_state = record {
  id = codes "s1";
  kind_code = codes "new";
  parent_kind_code = none;
  position = 1;
  is_enabled = true;
}

abbrev preparing_state : TenantWorkflowState
preparing_state = record {
  id = codes "s2";
  kind_code = codes "preparing";
  parent_kind_code = none;
  position = 2;
  is_enabled = true;
}

abbrev no_flags : OrderBehaviorFlags
no_flags = record {
  fires_kitchen_ticket = true;
  opens_payment_collection = false;
  notifies_customer = false;
  is_terminal = false;
  is_financial_close = false;
}

abbrev table_order : OrderRecord
table_order = record { id = codes "o1"; branch_id = codes "b1" }

abbrev table_item : OrderItemRecord
table_item = record {
  id = codes "i1";
  order_id = codes "o1";
  current_status_kind_id = codes "s1";
  is_voided = false;
}

abbrev bump_event : OrderOutboxEvent
bump_event = record {
  sequence_id = 8;
  event_type = codes "order_item.status_changed";
  payload_order_item_id = some (codes "i1");
}

abbrev open_store : OrdersReads
open_store = record {
  load_order_item = λ _ _. some table_item;
  lock_order = λ _ _. some table_order;
  load_workflow_states = λ _ _. new_state ∷ preparing_state ∷ [];
  load_order_status_kind_flags = λ _ _. no_flags;
  last_outbox_sequence = λ _ _. 7;
  read_outbox_events = λ _ _ _ _. bump_event ∷ [];
  check = λ _ _ _ _. ok tt;
}

abbrev start_item : ItemStatusTransitionInput
start_item = record {
  order_item_id = codes "i1";
  to_workflow_state_id = codes "s2";
  actor_user_id = codes "u1";
  token_sec_v = codes "v1";
}

abbrev started : ItemStatusTransitionResult
started = record {
  order_item_id = codes "i1";
  from_workflow_state_id = codes "s1";
  to_workflow_state_id = codes "s2";
  behavior_flags = no_flags;
  outbox_sequence_id = 8;
}

abbrev start_writes : List OrdersWrite
start_writes =
    insert_status_event
      (event_of open_store start_item table_order table_item (new_state, preparing_state))
    ∷ bump_order_revision (codes "o1")
    ∷ []

start_item-runs : transition_item open_store start_item [] ≡ (ok started, start_writes)
unfolding transition_item present move_item choose_states chosen_states find_state
    is_transition_allowed is_family_move family_move append_item_status_event find_evidence text_beq
start_item-runs = refl

transition_item-eq-ok_example : Moved open_store start_item [] started start_writes
transition_item-eq-ok_example = transition_item-eq-ok open_store start_item start_item-runs

-- The store whose authorization engine lets nobody through.
abbrev closed_store : OrdersReads
closed_store = record open_store { check = λ _ _ _ _. err forbidden }

transition_item-gated_example :
    WritesOnlyGated closed_store start_item [] (transition_item closed_store start_item [])
transition_item-gated_example = transition_item-gated closed_store start_item []

is_transition_allowed_iff_example :
    (is_transition_allowed new_state preparing_state ≡ true) ↔ MayMove new_state preparing_state
is_transition_allowed_iff_example = is_transition_allowed_iff new_state preparing_state
