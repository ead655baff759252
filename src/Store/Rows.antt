-- ===== src/Store/Rows.antt =====
-- The rows of apps/api/prisma/schema.prisma. Row and user identifiers are uuids that the code only
-- compares: they are numbers here. Decimal columns count units of 10^-4.
use trade_alpha.Base.{ℕ, Bool, true, false, Option, List, String}
use trade_alpha.Int.{ℤ}

pub data OrderSide : Type 0 where
  buy sell : OrderSide

pub data OrderType : Type 0 where
  market limit stop stop_limit : OrderType

pub data OrderStatus : Type 0 where
  received validated accepted pending partially_filled filled rejected cancelled expired :
      OrderStatus

pub data PositionStatus : Type 0 where
  opened closed : PositionStatus

pub record Portfolio : Type 0 where
  pub id : ℕ
  pub user_id : ℕ
  pub total_cash : ℤ
  pub locked_cash : ℤ
  pub is_margin_enabled : Bool
  pub locked_margin : ℤ

pub record Position : Type 0 where
  pub id : ℕ
  pub portfolio_id : ℕ
  pub symbol : String
  pub quantity : ℤ
  pub locked_quantity : ℤ
  pub average_entry_price : ℤ
  pub realized_pnl : ℤ
  pub status : PositionStatus

pub record Order : Type 0 where
  pub id : ℕ
  pub user_id : ℕ
  pub portfolio_id : ℕ
  pub symbol : String
  pub side : OrderSide
  pub order_type : OrderType
  pub requested_quantity : ℤ
  pub filled_quantity : ℤ
  pub limit_price : Option ℤ
  pub stop_price : Option ℤ
  pub status : OrderStatus
  pub idempotency_key : String
  pub reservation_price : Option ℤ
  pub reserved_margin : Option ℤ
  pub is_liquidation : Bool
  pub is_activated : Bool

pub record OrderFill : Type 0 where
  pub id : ℕ
  pub order_id : ℕ
  pub price : ℤ
  pub quantity : ℤ
  pub execution_idempotency_key : String
  pub realized_pnl : ℤ

-- `user_cash_${userId}`, `user_sec_${userId}_${symbol}` and the platform's two kinds of account.
pub data Account : Type 0 where
  user_cash : ℕ → Account
  user_sec : ℕ → String → Account
  platform_cash : Account
  platform_sec : String → Account

pub record LedgerEntry : Type 0 where
  pub account_id : Account
  pub asset_type : String
  pub asset_symbol : String
  pub debit : ℤ
  pub credit : ℤ

pub record LedgerTransaction : Type 0 where
  pub reference_type : String
  pub reference_id : ℕ
  pub entries : List LedgerEntry

-- The business payload of an event; the envelope adds an identifier, the time and trace data.
pub data Payload : Type 0 where
  order_accepted : (order_id user_id portfolio_id : ℕ) → Payload
  order_placed : (order_id : ℕ) (symbol key : String) (portfolio_id : ℕ) → Payload
  order_moved : (order_id portfolio_id : ℕ) → Payload
  order_activated : (order_id : ℕ) (order_type : OrderType) (portfolio_id : ℕ) → Payload
  order_filled : (order_id : ℕ) (symbol key : String) (portfolio_id : ℕ) → Payload
  position_changed : Position → Payload

pub record OutboxEvent : Type 0 where
  pub event_type : String
  pub aggregate_type : String
  pub aggregate_id : ℕ
  pub payload : Payload

-- The database. `next_id` is an identifier that no row has yet, as `uuid()` gives.
pub record Store : Type 0 where
  pub portfolios : List Portfolio
  pub positions : List Position
  pub orders : List Order
  pub fills : List OrderFill
  pub ledger : List LedgerTransaction
  pub outbox : List OutboxEvent
  pub next_id : ℕ

abbrev pub side_eq : OrderSide → OrderSide → Bool
side_eq buy buy = true
side_eq sell sell = true
side_eq _ _ = false

abbrev pub status_eq : OrderStatus → OrderStatus → Bool
status_eq received received = true
status_eq validated validated = true
status_eq accepted accepted = true
status_eq pending pending = true
status_eq partially_filled partially_filled = true
status_eq filled filled = true
status_eq rejected rejected = true
status_eq cancelled cancelled = true
status_eq expired expired = true
status_eq _ _ = false
