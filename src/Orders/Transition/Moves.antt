-- ===== src/Orders/Transition/Moves.antt =====
-- What a transition that succeeds has read and written.
use alpha_shadow.Prelude.{
  err-not-ok, ℕ, ◌≡◌, ◌≢◌, Bool, All, ◌++◌, text_beq-false, sym, ap, ◌∙◌, true, false, not, Option,
  none, some, List, [], ◌∷◌, Text, text_eq, text_beq, text_beq_iff, if◌then◌else◌, ok, err, guard,
  guard-not, Bool-cases, inl, inr, ok-injective, not_found, workflow_transition,
}
use alpha_shadow.Prelude.Transactions.{step-ok, lift, lift-then-ok, some_or, some_or-eq-ok}
use alpha_shadow.Orders.Transition.{
  TenantWorkflowState, OrderRecord, OrderItemRecord, OrderOutboxEvent, OrdersWrite,
  bump_order_revision, insert_status_event, OrdersReads, ItemStatusTransitionInput,
  ItemStatusTransitionResult, StatusEvent, is_transition_allowed, find_state, find_evidence,
  choose_states, chosen_states, append_item_status_event, check_item, present, move_item,
  move_loaded, move_live, move_between, event_of, transition_item,
}
use alpha_shadow.Orders.Transition.Family.{MayMove, is_transition_allowed_iff}
use alpha_shadow.Orders.Transition.Gate.{present-eq-ok}

-- The first state of the list that has the id.
abbrev pub IsFound : Text → List TenantWorkflowState → TenantWorkflowState → Type 0
IsFound id states s =
    (before : List TenantWorkflowState) × (after : List TenantWorkflowState) × (states
      ≡ before ++ (s ∷ after))
    × All (λ t. t.id ≢ id) before
    × (s.id ≡ id)

some-injective : {s t : TenantWorkflowState} → some s ≡ some t → s ≡ t
some-injective h = cc

find_state-IsFound :
    (id : Text) (states : List TenantWorkflowState) {s : TenantWorkflowState}
    → find_state id states ≡ some s
    → IsFound id states s
unfolding find_state
find_state-IsFound id [] h = cc
find_state-IsFound id (t ∷ rest) {s} h =
    let chosen : Bool → Option TenantWorkflowState =
      λ b. if b then some t else find_state id rest in
    elim (Bool-cases (text_beq t.id id)) [
      | inl same ↦
          let e = some-injective (ap chosen (sym same) ∙ h) in
          (
            [],
            rest,
            ap (λ x. x ∷ rest) e,
            tt,
            ap (λ x. x.id) (sym e) ∙ (text_beq_iff t.id id).0 same,
          )
      | inr other ↦
          let (before, after, split, none_before, is) =
            find_state-IsFound id rest (ap chosen (sym other) ∙ h) in
          (
            t ∷ before,
            after,
            ap (λ l. t ∷ l) split,
            (text_beq-false t.id id other, none_before),
            is,
          )
    ]

chosen_states-eq-ok :
    (target current : Option TenantWorkflowState) {from to : TenantWorkflowState}
    → chosen_states target current ≡ ok (from, to)
    → (current ≡ some from) × (target ≡ some to) × (is_transition_allowed from to ≡ true)
unfolding chosen_states
chosen_states-eq-ok none current h = cc
chosen_states-eq-ok (some t) none h = cc
chosen_states-eq-ok (some t) (some f) {from} {to} h =
    elim (Bool-cases (is_transition_allowed f t)) [
      | inl passes ↦
          let e = ap (λ b. if b then ok (f, t) else err workflow_transition) (sym passes) ∙ h in
          (cc, cc, cc)
      | inr fails ↦
          absurd (
            err-not-ok (ap (λ b. if b then ok (f, t) else err workflow_transition) (sym fails) ∙ h))
    ]

-- The states of a move: listed, with the ids asked for, and allowed.
pub choose_states-eq-ok :
    (states : List TenantWorkflowState) (current target : Text) {from to : TenantWorkflowState}
    → choose_states states current target ≡ ok (from, to)
    → (find_state current states ≡ some from)
      × (find_state target states ≡ some to)
      × (is_transition_allowed from to ≡ true)
unfolding choose_states
choose_states-eq-ok states current target h =
    chosen_states-eq-ok (find_state target states) (find_state current states) h

append_item_status_event-eq-ok :
    (reads : OrdersReads) (branch : Text) (event : StatusEvent) {n : ℕ} {w w' : List OrdersWrite}
    → append_item_status_event reads branch event w ≡ (ok n, w')
    → (w' ≡ insert_status_event event ∷ w)
      × (evidence : OrderOutboxEvent) × (evidence.sequence_id ≡ n)
      × (find_evidence event.order_item_id (
            reads.read_outbox_events
              (insert_status_event event ∷ w)
              branch
              (reads.last_outbox_sequence w branch)
              64)
          ≡ some evidence)
unfolding append_item_status_event
append_item_status_event-eq-ok reads branch event {w} h =
    let (evidence, found, done) = lift-then-ok (some_or workflow_transition _) _ h in
    (
      sym (ap (λ p. p.1) done),
      evidence,
      ok-injective (ap (λ p. p.0) done),
      some_or-eq-ok workflow_transition _ found,
    )

-- What a transition from the writes `w` has found, and what it wrote.
pub record Moved (reads : OrdersReads) (input : ItemStatusTransitionInput) (w : List OrdersWrite)
    (result : ItemStatusTransitionResult) (w' : List OrdersWrite) : Type 0 where
  pub probe : OrderItemRecord
  pub order : OrderRecord
  pub item : OrderItemRecord
  pub from : TenantWorkflowState
  pub to : TenantWorkflowState
  pub found : reads.load_order_item w input.order_item_id ≡ some probe
  pub locked : reads.lock_order w probe.order_id ≡ some order
  pub authorized : check_item reads input (some order.branch_id) ≡ ok tt
  pub loaded :
      reads.load_order_item (bump_order_revision order.id ∷ w) input.order_item_id ≡ some item
  pub live : item.is_voided ≡ false
  pub leaves :
      IsFound item.current_status_kind_id
        (reads.load_workflow_states (bump_order_revision order.id ∷ w) true)
        from
  pub enters :
      IsFound input.to_workflow_state_id
        (reads.load_workflow_states (bump_order_revision order.id ∷ w) true)
        to
  pub allowed : MayMove from to
  pub written :
      w'
      ≡ insert_status_event (record {
        order_item_id = item.id;
        order_id = order.id;
        from_workflow_state_id = some from.id;
        to_workflow_state_id = to.id;
        actor_user_id = some input.actor_user_id;
      })
        ∷ bump_order_revision order.id
        ∷ w
  pub answered :
      (result.order_item_id ≡ item.id)
      × (result.from_workflow_state_id ≡ from.id)
      × (result.to_workflow_state_id ≡ to.id)
      × (result.behavior_flags
          ≡ reads.load_order_status_kind_flags (bump_order_revision order.id ∷ w) to.kind_code)

module _ (reads : OrdersReads) (input : ItemStatusTransitionInput) (order : OrderRecord)
    (w : List OrdersWrite) {w' : List OrdersWrite} {result : ItemStatusTransitionResult} where
  move_between-eq-ok :
      (item : OrderItemRecord) (from to : TenantWorkflowState)
      → move_between reads input order item (from, to) w ≡ (ok result, w')
      → (w' ≡ insert_status_event (event_of reads input order item (from, to)) ∷ w)
        × (result.order_item_id ≡ item.id)
        × (result.from_workflow_state_id ≡ from.id)
        × (result.to_workflow_state_id ≡ to.id)
        × (result.behavior_flags ≡ reads.load_order_status_kind_flags w to.kind_code)
  move_between-eq-ok item from to h =
      let (n, v, appended, done) =
        step-ok
          (append_item_status_event reads order.branch_id
            (event_of reads input order item (from, to)) w)
          (λ sequence. lift (
            ok (record {
              order_item_id = item.id;
              from_workflow_state_id = from.id;
              to_workflow_state_id = to.id;
              behavior_flags = reads.load_order_status_kind_flags w to.kind_code;
              outbox_sequence_id = sequence;
            })))
          h in
      let event =
        (append_item_status_event-eq-ok reads order.branch_id
          (event_of reads input order item (from, to)) appended).0 in
      let same = ok-injective (ap (λ p. p.0) done) in
      (
        sym (ap (λ p. p.1) done) ∙ event,
        sym (ap (λ r. r.order_item_id) same),
        sym (ap (λ r. r.from_workflow_state_id) same),
        sym (ap (λ r. r.to_workflow_state_id) same),
        sym (ap (λ r. r.behavior_flags) same),
      )

  move_live-eq-ok :
      (item : OrderItemRecord)
      → move_live reads input order item w ≡ (ok result, w')
      → (from to : TenantWorkflowState) × IsFound item.current_status_kind_id
          (reads.load_workflow_states w true)
          from
        × IsFound input.to_workflow_state_id (reads.load_workflow_states w true) to
        × MayMove from to
        × (move_between reads input order item (from, to) w ≡ (ok result, w'))
  move_live-eq-ok item h =
      let (pair, chosen, moved) =
        lift-then-ok
          (choose_states (reads.load_workflow_states w true) item.current_status_kind_id
            input.to_workflow_state_id)
          (move_between reads input order item) h in
      let states = reads.load_workflow_states w true in
      let (current, target, allowed) =
        choose_states-eq-ok states item.current_status_kind_id input.to_workflow_state_id chosen in
      (
        pair.0,
        pair.1,
        find_state-IsFound item.current_status_kind_id states current,
        find_state-IsFound input.to_workflow_state_id states target,
        (is_transition_allowed_iff pair.0 pair.1).0 allowed,
        moved,
      )

  move_loaded-eq-ok :
      (item : OrderItemRecord)
      → move_loaded reads input order item w ≡ (ok result, w')
      → (item.is_voided ≡ false) × (move_live reads input order item w ≡ (ok result, w'))
  move_loaded-eq-ok item h =
      let (_, live, moved) =
        lift-then-ok (guard (not item.is_voided) workflow_transition)
          (λ _. move_live reads input order item) h in
      (guard-not item.is_voided workflow_transition live, moved)

module _ (reads : OrdersReads) (input : ItemStatusTransitionInput) {w w' : List OrdersWrite}
    {result : ItemStatusTransitionResult} where
  move_item-eq-ok :
      (probe : OrderItemRecord) (order : OrderRecord)
      → reads.load_order_item w input.order_item_id ≡ some probe
      → reads.lock_order w probe.order_id ≡ some order
      → check_item reads input (some order.branch_id) ≡ ok tt
      → move_item reads input order w ≡ (ok result, w')
      → Moved reads input w result w'
  unfolding move_item
  move_item-eq-ok probe order found locked authorized h =
      let (item, loaded, after_load) =
        lift-then-ok
          (some_or not_found
            (reads.load_order_item (bump_order_revision order.id ∷ w) input.order_item_id))
          (move_loaded reads input order) h in
      let (live, moved) =
        move_loaded-eq-ok reads input order (bump_order_revision order.id ∷ w) item after_load in
      let (from, to, leaves, enters, allowed, between) =
        move_live-eq-ok reads input order (bump_order_revision order.id ∷ w) item moved in
      let (written, item_id, from_id, to_id, flags) =
        move_between-eq-ok reads input order (bump_order_revision order.id ∷ w) item from to
          between in
      record {
        probe = probe;
        order = order;
        found = found;
        locked = locked;
        item = item;
        from = from;
        to = to;
        authorized = authorized;
        loaded = some_or-eq-ok not_found _ loaded;
        live = live;
        leaves = leaves;
        enters = enters;
        allowed = allowed;
        written = written;
        answered = (item_id, from_id, to_id, flags);
      }

  -- A transition that succeeds is one of an item that is not voided, along an allowed move from
  -- its current state to the requested one, each the first loaded state with its id, by an actor who is authorized at the order's branch; it
  -- writes the revision of the order and then one status event that says the move, and no more; it
  -- answers with the item, the two states and the flags of the kind of the second.
  pub transition_item-eq-ok :
      transition_item reads input w ≡ (ok result, w') → Moved reads input w result w'
  unfolding transition_item
  transition_item-eq-ok h =
      let (probe, found, h1) =
        lift-then-ok (present reads input (reads.load_order_item w input.order_item_id)) _ h in
      let (order, locked, h2) =
        lift-then-ok (present reads input (reads.lock_order w probe.order_id)) _ h1 in
      let (u, gate, h3) =
        lift-then-ok (check_item reads input (some order.branch_id))
          (λ _. move_item reads input order) h2 in
      move_item-eq-ok probe order (present-eq-ok reads input _ found)
        (present-eq-ok reads input _ locked) gate h3
