-- ===== src/Aggregator/Delivered.antt =====
-- A tick that is delivered twice.
use trade_alpha.Base.{
  ◌/◌, ◌≡◌, refl, ap, ◌∙◌, Bool, true, false, Option, none, some, List, [], ◌∷◌, All, arith,
  Bool-cases,
}
use trade_alpha.Store.Tables.{find, update_where, update_where-All}
use trade_alpha.Session.{SessionStatus, opened, closed, session_at}
use trade_alpha.Aggregator.{
  Tick, MinuteCandle, Feed, candle_start, is_before, close_previous, merge_tick, opened_by,
  upsert_candle, has_minute, upsert_at, receive, handle_in, has_receipt, aggregate, handle_message,
}

-- The tick has no earlier candle to close.
pub IsSettled : Tick → MinuteCandle → Type 0
IsSettled t c = is_before t.symbol (candle_start t.timestamp) c ≡ false

close_previous-IsSettled :
    (t : Tick) (cs : List MinuteCandle) → All (IsSettled t) (close_previous t cs)
unfolding close_previous IsSettled update_where
close_previous-IsSettled t [] = tt
close_previous-IsSettled t (c ∷ cs) = (
  ground (arith, Bool-cases (is_before t.symbol (candle_start t.timestamp) c)),
  close_previous-IsSettled t cs,
)

nothing_to_close :
    (t : Tick) (cs : List MinuteCandle) → All (IsSettled t) cs → close_previous t cs ≡ cs
unfolding close_previous IsSettled update_where
nothing_to_close t [] h = refl
nothing_to_close t (c ∷ cs) h = rw h.0 (ap (λ xs. c ∷ xs) (nothing_to_close t cs h.1))

opened_by-IsSettled : (t : Tick) → IsSettled t (opened_by t)
unfolding IsSettled
opened_by-IsSettled t = ground arith

merge_tick-IsSettled : (t : Tick) (c : MinuteCandle) → IsSettled t c → IsSettled t (merge_tick t c)
unfolding IsSettled merge_tick
merge_tick-IsSettled t c h = h

upsert_at-IsSettled :
    (t : Tick) (found : Option MinuteCandle) (cs : List MinuteCandle)
    → All (IsSettled t) cs
    → All (IsSettled t) (upsert_at found t cs).0
upsert_at-IsSettled t none cs h = (opened_by-IsSettled t, h)
upsert_at-IsSettled t (some c) cs h =
    update_where-All (IsSettled t) _ (merge_tick t) cs (λ x hit. merge_tick-IsSettled t x) h

receive_again :
    (known : Bool) (t : Tick) (f : Feed) → receive true t (receive known t f) ≡ receive known t f
unfolding upsert_candle
receive_again true t f =
    ap (λ cs. record f { candles = cs })
      (nothing_to_close t (close_previous t f.candles) (close_previous-IsSettled t f.candles))
receive_again false t f =
    let cs = close_previous t f.candles in
    let found = find (has_minute t.symbol (candle_start t.timestamp)) cs in
    ap (λ xs. record (receive false t f) { candles = xs })
      (nothing_to_close t (upsert_candle t cs).0
        (upsert_at-IsSettled t found cs (close_previous-IsSettled t f.candles)))

receive-has_receipt :
    (known : Bool) (t : Tick) (f : Feed)
    → has_receipt t.tick_id f.receipts ≡ known
    → has_receipt t.tick_id (receive known t f).receipts ≡ true
receive-has_receipt true t f h = h
receive-has_receipt false t f h = ground arith

aggregate_twice : (t : Tick) (f : Feed) → aggregate t (aggregate t f) ≡ aggregate t f
unfolding aggregate
aggregate_twice t f =
    let known = has_receipt t.tick_id f.receipts in
    ap (λ b. receive b t (receive known t f)) (receive-has_receipt known t f refl)
    ∙ receive_again known t f

handle_in_twice :
    (state : SessionStatus) (t : Tick) (f : Feed)
    → handle_in state t (handle_in state t f) ≡ handle_in state t f
handle_in_twice closed t f = refl
handle_in_twice opened t f = aggregate_twice t f

-- A message that is delivered twice in a row leaves the receipts, the candles and what is
-- published as after its first delivery.
pub handle_message_twice :
    (message : Option Tick) (f : Feed)
    → handle_message message (handle_message message f) ≡ handle_message message f
unfolding handle_message
handle_message_twice none f = refl
handle_message_twice (some t) f = handle_in_twice (session_at (t.timestamp / 1000)) t f
