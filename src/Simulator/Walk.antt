-- ===== src/Simulator/Walk.antt =====
-- Which simulations are active after stopping some of them, and what the latest price says.
use trade_alpha.Base.{
  ◌≡◌, refl, false, none, some, List, [], ◌∷◌, String, str_eq, str_eq_iff, arith, if◌then◌else◌,
  Bool-cases, inl, inr,
}
use trade_alpha.Dict.{lookup, lookup-insert, lookup-remove}
use trade_alpha.Engine.{contains}
use trade_alpha.Simulator.{
  Simulator, SimulationConfig, timer_of, stop_simulation, stop_running, stop_each, start_simulation,
}

module _ {N : Type 0} where
  pub lookup-stop_each :
      (symbols : List String) (j : String) (s : Simulator N)
      → lookup j (stop_each symbols s).active_simulations
        ≡ (if contains symbols j then none else lookup j s.active_simulations)
  unfolding stop_each stop_simulation contains
  lookup-stop_each [] j s = refl
  lookup-stop_each (x ∷ xs) j s = ground (
    arith,
    lookup-stop_each xs j (stop_simulation x s),
    lookup-remove x j s.active_simulations,
    str_eq_iff x j,
  )

  lookup-stop_running :
      (symbol j : String) (s : Simulator N)
      → str_eq symbol j ≡ false
      → lookup j (stop_running symbol s).active_simulations ≡ lookup j s.active_simulations
  unfolding stop_running stop_simulation
  lookup-stop_running symbol j s other = ground (arith, lookup-remove symbol j s.active_simulations)

  -- Starting a simulation concerns its symbol only.
  pub lookup-start_simulation :
      (config : SimulationConfig N) (j : String) (s : Simulator N)
      → lookup j (start_simulation config s).active_simulations
        ≡ (if str_eq config.symbol j then some (timer_of config) else lookup j s.active_simulations)
  unfolding start_simulation
  lookup-start_simulation config j s =
      let cleared = stop_running config.symbol s in
      elim (Bool-cases (str_eq config.symbol j)) [
        | inl same ↦
            rw (lookup-insert config.symbol j (timer_of config) cleared.active_simulations, same)
              refl
        | inr other ↦
            rw (lookup-insert config.symbol j (timer_of config) cleared.active_simulations, other)
              (lookup-stop_running config.symbol j s other)
      ]
