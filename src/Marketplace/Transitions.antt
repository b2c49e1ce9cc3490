-- ===== src/Marketplace/Transitions.antt =====
-- packages/modules/marketplace/src/orders-write.ts: moving an order, with the definers
-- mkt_order_transition and mkt_order_autocomplete of drizzle/0004_marketplace_orders.sql.
use campus_os.Common.{
  Text, ℕ, ◌+◌, ◌*◌, max, Bool, true, false, ◌&&◌, Option, none, some, [], ◌∷◌, ◌++◌, map, ltb,
  ◌==◌, if◌then◌else◌, filter, find, count, update_where,
}
use campus_os.Tenancy.{Context}
use campus_os.Marketplace.{
  PaymentMode, cash, online, OrderStatus, requested, awaiting_payment, paid, in_progress, delivered,
  completed, cancelled, disputed, Order, EventKind, transition, revision, OrderEvent, Market,
}
use campus_os.Marketplace.Orders.{or_null, notify_order_party}

pub data Role : Type 0 where
  buyer seller : Role

-- The allowed edges, by the statuses, the role, the payment mode and whether a revision is left.
abbrev pub edge : OrderStatus → OrderStatus → Role → PaymentMode → Bool → Bool
edge requested awaiting_payment seller online left = true
edge requested in_progress seller cash left = true
edge requested cancelled role mode left = true
edge awaiting_payment paid buyer mode left = true
edge awaiting_payment cancelled role mode left = true
edge paid in_progress seller mode left = true
edge paid cancelled seller mode left = true
edge paid disputed buyer mode left = true
edge in_progress delivered seller mode left = true
edge in_progress cancelled seller mode left = true
edge in_progress disputed buyer mode left = true
edge delivered completed buyer mode left = true
edge delivered in_progress buyer mode left = left
edge delivered disputed buyer mode left = true
edge _ _ _ _ _ = false

abbrev pub is_revision : OrderStatus → OrderStatus → Bool
is_revision delivered in_progress = true
is_revision _ _ = false

abbrev pub event_kind : OrderStatus → OrderStatus → EventKind
event_kind from to = if is_revision from to then revision else transition

abbrev pub is_acceptance : OrderStatus → OrderStatus → Bool
is_acceptance from awaiting_payment = true
is_acceptance requested in_progress = true
is_acceptance _ _ = false

-- The work starts, for the first time, and its term runs.
abbrev pub is_first_start : OrderStatus → OrderStatus → Bool
is_first_start requested in_progress = true
is_first_start paid in_progress = true
is_first_start _ _ = false

abbrev pub place : OrderStatus → ℕ
place requested = 0
place awaiting_payment = 1
place paid = 2
place in_progress = 3
place delivered = 4
place completed = 5
place cancelled = 6
place disputed = 7

abbrev pub same_status : OrderStatus → OrderStatus → Bool
same_status a b = place a == place b

-- `case when p_to = status then now() else column end`.
abbrev pub stamp : OrderStatus → OrderStatus → ℕ → Option ℕ → Option ℕ
stamp to status now column = if same_status to status then some now else column

abbrev pub day : ℕ
day = 86400000

abbrev pub moved_order : ℕ → OrderStatus → Text → Order → Order
moved_order now to note o = record o {
  status = to;
  accepted_at = if is_acceptance o.status to then some now else o.accepted_at;
  paid_at = stamp to paid now o.paid_at;
  started_at = stamp to in_progress now o.started_at;
  due_at = if is_first_start o.status to then some (now + o.delivery_days * day) else o.due_at;
  delivered_at = stamp to delivered now o.delivered_at;
  completed_at = stamp to completed now o.completed_at;
  cancelled_at = stamp to cancelled now o.cancelled_at;
  cancel_reason = if same_status to cancelled then or_null note else o.cancel_reason;
  disputed_at = stamp to disputed now o.disputed_at;
  revisions_used = if is_revision o.status to then o.revisions_used + 1 else o.revisions_used;
}

abbrev pub role_of : Context → Order → Option Role
role_of ctx o =
    if ctx.user_id == o.buyer_id
    then some buyer
    else if ctx.user_id == o.seller_id
    then some seller
    else none

pub data TransitionOutcome : Type 0 where
  moved not_found not_party illegal : TransitionOutcome

abbrev pub tenant_order : ℕ → ℕ → Order → Bool
tenant_order tenant order o = (o.id == order) && (o.tenant_id == tenant)

abbrev pub move_event : Context → Order → OrderStatus → Text → OrderEvent
move_event ctx o to note = record {
  tenant_id = ctx.tenant_id;
  order_id = o.id;
  actor_id = some ctx.user_id;
  from_status = some o.status;
  to_status = to;
  kind = event_kind o.status to;
  note = or_null note;
  created_at = ctx.now;
}

-- The definer mkt_order_transition.
unfoldable pub mkt_order_transition :
    Context → ℕ → OrderStatus → Text → Market → TransitionOutcome × Market
mkt_order_transition ctx order to note s = elim (find (tenant_order ctx.tenant_id order) s.orders) [
  | none ↦ (TransitionOutcome.not_found, s)
  | some o ↦ elim (role_of ctx o) [
    | none ↦ (not_party, s)
    | some role ↦
        if edge o.status to role o.payment_mode (ltb o.revisions_used o.revisions_allowed)
        then (
          moved,
          record s {
            orders = update_where (λ x. x.id == order) (moved_order ctx.now to note) s.orders;
            events = s.events ++ move_event ctx o to note ∷ [];
          },
        )
        else (illegal, s)
  ]
]

abbrev pub tell_moved : Context → ℕ → TransitionOutcome × Market → TransitionOutcome × Market
unfolding notify_order_party
tell_moved ctx order (moved, s) = (moved, notify_order_party ctx order s)
tell_moved ctx order (TransitionOutcome.not_found, s) = (TransitionOutcome.not_found, s)
tell_moved ctx order (not_party, s) = (not_party, s)
tell_moved ctx order (illegal, s) = (illegal, s)

unfoldable pub transition_order :
    Context → ℕ → OrderStatus → Text → Market → TransitionOutcome × Market
unfolding mkt_order_transition notify_order_party
transition_order ctx order to note s =
    tell_moved ctx order (mkt_order_transition ctx order to note s)

abbrev pub or_seven : Option ℕ → ℕ
or_seven none = 7
or_seven (some days) = days

-- A delivered order that its buyer left alone for longer than the days.
abbrev pub is_stale : ℕ → ℕ → Option ℕ → Bool
is_stale now days none = false
is_stale now days (some at) = ltb (at + days * day) now

abbrev pub is_delivered : OrderStatus → Bool
is_delivered delivered = true
is_delivered _ = false

abbrev pub left_alone : ℕ → ℕ → ℕ → Order → Bool
left_alone tenant now days o =
    (o.tenant_id == tenant) && (is_delivered o.status && is_stale now days o.delivered_at)

abbrev pub finished : ℕ → Order → Order
finished now o = record o { status = completed; completed_at = some now }

-- The note reads auto-complete.
abbrev pub finish_event : ℕ → ℕ → Order → OrderEvent
finish_event tenant now o = record {
  tenant_id = tenant;
  order_id = o.id;
  actor_id = none;
  from_status = some delivered;
  to_status = completed;
  kind = transition;
  note = some (
      b'a' ∷ b'u' ∷ b't' ∷ b'o' ∷ b'-' ∷ b'c' ∷ b'o' ∷ b'm' ∷ b'p' ∷ b'l' ∷ b'e' ∷ b't' ∷ b'e'
      ∷ []);
  created_at = now;
}

-- The definer mkt_order_autocomplete: how many orders it finishes, and the tables.
unfoldable pub mkt_order_autocomplete : ℕ → ℕ → Option ℕ → Market → ℕ × Market
mkt_order_autocomplete tenant now days s =
    let done = left_alone tenant now (max (or_seven days) 1) in
    (
      count done s.orders,
      record s {
        orders = update_where done (finished now) s.orders;
        events = s.events ++ map (finish_event tenant now) (filter done s.orders);
      },
    )
