-- ===== src/Marketplace/Edges.antt =====
-- The edges of the life cycle of an order, as mkt_order_transition of
-- packages/modules/marketplace/drizzle/0004_marketplace_orders.sql allows them.
use campus_os.Common.{ℕ, ◌+◌, ◌≤◌, ◌<◌, ◌≡◌, Bool, true, false, ◌&&◌, arith}
use campus_os.Marketplace.{
  PaymentMode, OrderStatus, requested, awaiting_payment, paid, in_progress, delivered, completed,
  cancelled, disputed,
}
use campus_os.Marketplace.Transitions.{Role, edge, is_revision}
use campus_os.Marketplace.Logs.{is_cash, awaits_money}

module _ (from to : OrderStatus) (role : Role) (mode : PaymentMode) (left : Bool)
    (e : edge from to role mode left ≡ true) where
  pub revision_left : is_revision from to ≡ true → left ≡ true
  revision_left h = ground arith

  pub cash_unpaid :
      (is_cash mode && awaits_money from) ≡ false → (is_cash mode && awaits_money to) ≡ false
  cash_unpaid h = ground arith

-- How far an order is from its end, the revisions aside.
abbrev pub steps_left : OrderStatus → ℕ
steps_left requested = 5
steps_left awaiting_payment = 4
steps_left paid = 3
steps_left in_progress = 2
steps_left delivered = 1
steps_left completed = 0
steps_left cancelled = 0
steps_left disputed = 0

pub steps_fall :
    (from to : OrderStatus) (role : Role) (mode : PaymentMode) (left : Bool)
    → edge from to role mode left ≡ true
    → is_revision from to ≡ false
    → steps_left to < steps_left from
steps_fall from to role mode left e h = ground arith

pub revision_steps :
    (from to : OrderStatus) → is_revision from to ≡ true → steps_left to ≡ steps_left from + 1
revision_steps from to h = ground arith

pub steps_left_most : (a : OrderStatus) → steps_left a ≤ 5
steps_left_most a = ground arith
