-- ===== src/Aggregator/Volume.antt =====
-- The aggregator keeps its invariant, and adds the volume of a new tick once.
use trade_alpha.Base.{
  ℕ, ◌/◌, ◌≡◌, refl, ap, ◌∙◌, Bool, true, false, Option, none, some, List, [], ◌∷◌, String,
  str_eq_iff, arith, inl, inr, Bool-cases, if◌then◌else◌,
}
use trade_alpha.Int.{ℤ, pos, ◌+ℤ◌}
use trade_alpha.Int.Ring.{int_laws}
use trade_alpha.Store.Tables.{find, update_where}
use trade_alpha.Session.{SessionStatus, opened, closed, session_at}
use trade_alpha.Aggregator.{
  Tick, MinuteCandle, Feed, candle_start, close_previous, merge_tick, upsert_at, upsert_candle,
  has_minute, has_receipt, receive, aggregate, handle_in, handle_message,
}
use trade_alpha.Aggregator.Shape.{
  IsUnique, IsWhole, total_volume, close_previous-IsShaped, close_previous-IsUnique,
  close_previous-total_volume, upsert_at-IsShaped, update_missing,
}

module _ (t : Tick) where
  abbrev here : MinuteCandle → Bool
  here = has_minute t.symbol (candle_start t.timestamp)

  merged_missing :
      (symbol : String) (start : ℕ) (cs : List MinuteCandle)
      → find (has_minute symbol start) cs ≡ none
      → find (has_minute symbol start) (update_where here (merge_tick t) cs) ≡ none
  unfolding update_where find merge_tick
  merged_missing symbol start [] h = refl
  merged_missing symbol start (c ∷ cs) h = ground (
    arith,
    Bool-cases (here c),
    Bool-cases (has_minute symbol start c),
    merged_missing symbol start cs,
  )

  merge_tick-IsUnique :
      (cs : List MinuteCandle) → IsUnique cs → IsUnique (update_where here (merge_tick t) cs)
  unfolding update_where IsUnique merge_tick
  merge_tick-IsUnique [] h = tt
  merge_tick-IsUnique (c ∷ cs) h =
      let rest = merged_missing c.symbol c.timestamp cs h.0 in
      elim (Bool-cases (here c)) [
        | inl hit ↦ rw hit (rest, merge_tick-IsUnique cs h.1)
        | inr miss ↦ rw miss (rest, merge_tick-IsUnique cs h.1)
      ]

  upsert_at-IsUnique :
      (found : Option MinuteCandle) (cs : List MinuteCandle)
      → find here cs ≡ found
      → IsUnique cs
      → IsUnique (upsert_at found t cs).0
  unfolding IsUnique
  upsert_at-IsUnique none cs e h = (e, h)
  upsert_at-IsUnique (some c) cs e h = merge_tick-IsUnique cs h

  -- A candle with the key of the tick is the only one.
  missing_after :
      (c : MinuteCandle) (cs : List MinuteCandle)
      → here c ≡ true
      → find (has_minute c.symbol c.timestamp) cs ≡ none
      → find here cs ≡ none
  missing_after c cs hit missing = ground (arith, str_eq_iff c.symbol t.symbol)

  merge_tick-total_volume :
      (c : MinuteCandle) (cs : List MinuteCandle)
      → find here cs ≡ some c
      → IsUnique cs
      → total_volume (update_where here (merge_tick t) cs) ≡ total_volume cs +ℤ t.volume
  unfolding update_where find IsUnique total_volume merge_tick
  merge_tick-total_volume c [] e h = ground arith
  merge_tick-total_volume c (x ∷ cs) e h = elim (Bool-cases (here x)) [
    | inl hit ↦
        let same = update_missing t cs (missing_after x cs hit h.0) in
        rw (hit, same) (omega int_laws)
    | inr miss ↦
        let rest = merge_tick-total_volume c cs (ground arith) h.1 in
        rw (miss, rest) (omega int_laws)
  ]

  upsert_at-total_volume :
      (found : Option MinuteCandle) (cs : List MinuteCandle)
      → find here cs ≡ found
      → IsUnique cs
      → total_volume (upsert_at found t cs).0 ≡ total_volume cs +ℤ t.volume
  unfolding total_volume
  upsert_at-total_volume none cs e h = omega int_laws
  upsert_at-total_volume (some c) cs e h = merge_tick-total_volume c cs e h

  -- What a tick adds, by its receipt.
  abbrev added : Bool → ℤ
  added known = if known then pos 0 else t.volume

  receive-total_volume :
      (known : Bool) (f : Feed)
      → IsUnique f.candles
      → total_volume (receive known t f).candles ≡ total_volume f.candles +ℤ added known
  unfolding upsert_candle
  receive-total_volume true f h = close_previous-total_volume t f.candles ∙ omega int_laws
  receive-total_volume false f h =
      let cs = close_previous t f.candles in
      upsert_at-total_volume (find here cs) cs refl (close_previous-IsUnique t f.candles h)
      ∙ ap (λ v. v +ℤ t.volume) (close_previous-total_volume t f.candles)

  receive-IsWhole : (known : Bool) (f : Feed) → IsWhole f → IsWhole (receive known t f)
  unfolding upsert_candle
  receive-IsWhole true f h = record {
    shaped = close_previous-IsShaped t f.candles h.shaped;
    unique = close_previous-IsUnique t f.candles h.unique;
  }
  receive-IsWhole false f h =
      let cs = close_previous t f.candles in
      record {
        shaped =
            upsert_at-IsShaped t (find here cs) cs (close_previous-IsShaped t f.candles h.shaped);
        unique =
            upsert_at-IsUnique (find here cs) cs refl
              (close_previous-IsUnique t f.candles h.unique);
      }

-- A tick counts once, and only within the session.
abbrev pub counted : SessionStatus → Tick → Feed → ℤ
counted closed t f = pos 0
counted opened t f = if has_receipt t.tick_id f.receipts then pos 0 else t.volume

handle_in_keeps :
    (state : SessionStatus) (t : Tick) (f : Feed)
    → IsWhole f
    → IsWhole (handle_in state t f)
      × (total_volume (handle_in state t f).candles ≡ total_volume f.candles +ℤ counted state t f)
unfolding aggregate
handle_in_keeps closed t f h = (h, omega int_laws)
handle_in_keeps opened t f h = (
  receive-IsWhole t (has_receipt t.tick_id f.receipts) f h,
  receive-total_volume t (has_receipt t.tick_id f.receipts) f h.unique,
)

-- A message keeps the invariant of the candles: no two of the same symbol and minute, opening and
-- closing price within the range, and the last tick within the minute. It adds the volume of its
-- tick to the total volume if the session is open and the tick has no receipt, and nothing
-- otherwise.
pub handle_message_keeps :
    (t : Tick) (f : Feed)
    → IsWhole f
    → IsWhole (handle_message (some t) f)
      × (total_volume (handle_message (some t) f).candles
          ≡ total_volume f.candles +ℤ counted (session_at (t.timestamp / 1000)) t f)
unfolding handle_message
handle_message_keeps t f h = handle_in_keeps (session_at (t.timestamp / 1000)) t f h
