-- ===== src/Simulator.antt =====
-- apps/api/src/services/market-simulator.service.ts: the random walk of prices. A price is a
-- floating-point number: its type and operations are a parameter, and so are what `Math.random`
-- draws, the synthetic volume and the identifier of a tick. Times and volumes of ticks are left out.
pub mod Walk
use trade_alpha.Base.{
  ℕ, Bool, true, false, Option, none, some, List, [], ◌∷◌, String, map, if◌then◌else◌,
}
use trade_alpha.Int.{ℤ}
use trade_alpha.Dict.{Dict, lookup, insert, remove}
use mathlib.Core.Option

-- The arithmetic of `number`; `from_units` reads a decimal of four digits, and `to_fixed` is `toFixed(4)`, in units of 10^-4.
pub record Floats (N : Type 0) : Type 0 where
  pub add : N → N → N
  pub sub : N → N → N
  pub mul : N → N → N
  pub le : N → N → Bool
  pub one : N
  pub from_units : ℤ → N
  pub two : N
  pub lowest : N
  pub to_fixed : N → ℤ

pub record SimulationConfig (N : Type 0) : Type 0 where
  pub symbol : String
  pub initial_price : N
  pub volatility : N

-- What the timer of a simulation closes over.
pub record Timer (N : Type 0) : Type 0 where
  pub volatility : N
  pub current_price : N

pub record EmittedTick : Type 0 where
  pub tick_id : ℕ
  pub symbol : String
  pub price : ℤ

-- The maps of the service, and what it has emitted, the last tick first.
pub record Simulator (N : Type 0) : Type 0 where
  pub active_simulations : Dict (Timer N)
  pub current_prices : Dict N
  pub emitted : List EmittedTick

module _ {N : Type 0} where
  unfoldable pub stop_simulation : String → Simulator N → Simulator N
  stop_simulation symbol s = record s { active_simulations = remove symbol s.active_simulations }

  unfoldable pub stop_each : List String → Simulator N → Simulator N
  stop_each [] s = s
  stop_each (symbol ∷ symbols) s = stop_each symbols (stop_simulation symbol s)

  abbrev pub stop_all : Simulator N → Simulator N
  stop_all s = stop_each (map (λ (entry : String × Timer N). entry.0) s.active_simulations) s

  -- A simulation that runs is stopped before it is started anew.
  unfoldable pub stop_running : String → Simulator N → Simulator N
  stop_running symbol s = elim (lookup symbol s.active_simulations) [
    | some _ ↦ stop_simulation symbol s
    | none ↦ s
  ]

  abbrev pub timer_of : SimulationConfig N → Timer N
  timer_of config = record { volatility = config.volatility; current_price = config.initial_price }

  unfoldable pub start_simulation : SimulationConfig N → Simulator N → Simulator N
  start_simulation config s =
      let cleared = stop_running config.symbol s in
      record cleared {
        active_simulations = insert config.symbol (timer_of config) cleared.active_simulations;
        current_prices = insert config.symbol config.initial_price cleared.current_prices;
      }

  module _ (f : Floats N) where
    unfoldable pub emit_tick : String → N → ℕ → Simulator N → Simulator N
    emit_tick symbol price tick_id s = record s {
      emitted = record { tick_id = tick_id; symbol = symbol; price = f.to_fixed price } ∷ s.emitted;
    }

    unfoldable pub next_price : N → N → N → N
    next_price draw volatility price =
        let change = f.mul (f.sub (f.mul draw f.two) f.one) volatility in
        let moved = f.mul price (f.add f.one change) in
        if f.le moved f.lowest then f.lowest else moved

    -- The timer of a symbol goes off. A timer that was cleared does not.
    unfoldable pub fire : N → ℕ → String → Simulator N → Simulator N
    unfolding next_price emit_tick
    fire draw tick_id symbol s = elim (lookup symbol s.active_simulations) [
      | none ↦ s
      | some timer ↦
          let price = next_price draw timer.volatility timer.current_price in
          emit_tick symbol price tick_id (record s {
            active_simulations =
                insert symbol (record timer { current_price = price }) s.active_simulations;
            current_prices = insert symbol price s.current_prices;
          })
    ]

    unfoldable pub get_latest_price : String → Simulator N → Option ℤ
    get_latest_price symbol s = Option.map f.to_fixed (lookup symbol s.current_prices)

    unfoldable pub push_tick : String → N → ℕ → Simulator N → Simulator N
    unfolding emit_tick
    push_tick symbol price tick_id s =
        emit_tick symbol price tick_id
          (record s { current_prices = insert symbol price s.current_prices })
