-- ===== src/Aggregator.antt =====
-- apps/api/src/workers/ohlcv-aggregator.worker.ts: the candles of one minute, out of the ticks as
-- they arrive. Instants count milliseconds of the clock of Session, prices and volumes units of
-- 10^-4. A message is what `JSON.parse` reads, if it has all five fields.
pub mod Delivered
pub mod Shape
pub mod Volume
pub mod Merging
pub mod Tests
use trade_alpha.Base.{
  ℕ, ◌+◌, ◌-◌, ◌*◌, ◌/◌, ◌%◌, ◌==◌, ltb, leb, Bool, true, false, not, ◌&&◌, ◌||◌, Option, none,
  some, List, [], ◌∷◌, String, str_eq, if◌then◌else◌,
}
use trade_alpha.Int.{ℤ, ◌+ℤ◌, ltb_ℤ}
use trade_alpha.Store.Tables.{find, update_where}
use trade_alpha.Session.{SessionStatus, opened, closed, session_at}

pub record Tick : Type 0 where
  pub tick_id : ℕ
  pub symbol : String
  pub price : ℤ
  pub volume : ℤ
  pub timestamp : ℕ

-- A row of `market_candles` of the time frame '1m'.
pub record MinuteCandle : Type 0 where
  pub symbol : String
  pub timestamp : ℕ
  pub open_price : ℤ
  pub high : ℤ
  pub low : ℤ
  pub close_price : ℤ
  pub volume : ℤ
  pub is_closed : Bool
  pub last_tick_timestamp : ℕ

-- The two tables, the receipts by their identifiers, and the candles that were published.
pub record Feed : Type 0 where
  pub receipts : List ℕ
  pub candles : List MinuteCandle
  pub published : List MinuteCandle

-- `candleStart.setSeconds(0, 0)`
abbrev pub candle_start : ℕ → ℕ
candle_start t = t - t % 60_000

abbrev pub is_before : String → ℕ → MinuteCandle → Bool
is_before symbol start c = str_eq c.symbol symbol && ltb c.timestamp start && not c.is_closed

unfoldable pub close_previous : Tick → List MinuteCandle → List MinuteCandle
close_previous t =
    update_where (is_before t.symbol (candle_start t.timestamp))
      (λ c. record c { is_closed = true })

-- The unique key of `market_candles`.
abbrev pub has_minute : String → ℕ → MinuteCandle → Bool
has_minute symbol start c = str_eq c.symbol symbol && c.timestamp == start

abbrev pub greatest : ℤ → ℤ → ℤ
greatest a b = if ltb_ℤ a b then b else a

abbrev pub least : ℤ → ℤ → ℤ
least a b = if ltb_ℤ b a then b else a

abbrev pub opened_by : Tick → MinuteCandle
opened_by t = record {
  symbol = t.symbol;
  timestamp = candle_start t.timestamp;
  open_price = t.price;
  high = t.price;
  low = t.price;
  close_price = t.price;
  volume = t.volume;
  is_closed = false;
  last_tick_timestamp = t.timestamp;
}

-- `ON CONFLICT … DO UPDATE`
unfoldable pub merge_tick : Tick → MinuteCandle → MinuteCandle
merge_tick t c = record c {
  high = greatest c.high t.price;
  low = least c.low t.price;
  close_price = if leb c.last_tick_timestamp t.timestamp then t.price else c.close_price;
  volume = c.volume +ℤ t.volume;
  last_tick_timestamp =
      if ltb c.last_tick_timestamp t.timestamp then t.timestamp else c.last_tick_timestamp;
}

-- The candles after the upsert, and the row that it returns, by the row that is there.
abbrev pub upsert_at :
    Option MinuteCandle → Tick → List MinuteCandle → List MinuteCandle × MinuteCandle
upsert_at none t candles = (opened_by t ∷ candles, opened_by t)
upsert_at (some c) t candles = (
  update_where (has_minute t.symbol (candle_start t.timestamp)) (merge_tick t) candles,
  merge_tick t c,
)

unfoldable pub upsert_candle : Tick → List MinuteCandle → List MinuteCandle × MinuteCandle
upsert_candle t candles =
    upsert_at (find (has_minute t.symbol (candle_start t.timestamp)) candles) t candles

abbrev pub has_receipt : ℕ → List ℕ → Bool
has_receipt id [] = false
has_receipt id (x ∷ xs) = x == id || has_receipt id xs

-- The two statements, for a tick within the session. The flag tells whether the tick has a receipt.
abbrev pub receive : Bool → Tick → Feed → Feed
receive true t f = record f { candles = close_previous t f.candles }
receive false t f =
    let (candles, row) = upsert_candle t (close_previous t f.candles) in
    record { receipts = t.tick_id ∷ f.receipts; candles = candles; published = row ∷ f.published }

unfoldable pub aggregate : Tick → Feed → Feed
aggregate t f = receive (has_receipt t.tick_id f.receipts) t f

abbrev pub handle_in : SessionStatus → Tick → Feed → Feed
handle_in closed t f = f
handle_in opened t f = aggregate t f

unfoldable pub handle_message : Option Tick → Feed → Feed
handle_message none f = f
handle_message (some t) f = handle_in (session_at (t.timestamp / 1000)) t f
