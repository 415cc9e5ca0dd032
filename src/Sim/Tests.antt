-- ===== src/Sim/Tests.antt =====
-- A small world of bazaar_sim/economy.py on which the theorems are applied: two planets, an offer,
-- its acceptance, a tick and the end.
pub mod Market
pub mod Service
pub mod Runs
use spaceport_bazzar_client.Base.{
  All, ◌*◌, ◌≤◌, ◌<◌, ◌≡◌, refl, ◌↔◌, ◌⊎◌, true, false, some, [], arith,
}
use spaceport_bazzar_client.Domain.Bundle.{water, is_zero, total}
use spaceport_bazzar_client.Domain.Types.{is_open}
use spaceport_bazzar_client.Sim.Station.{SimStation, new_station, settle_tick, IsSound}
use spaceport_bazzar_client.Sim.Station.Tick.{settle_tick-IsSound, settle_tick_fails}
use spaceport_bazzar_client.Sim.Economy.{
  CommandOutcome, Economy, counted, execute, has_failed, is_overdue, is_orphaned, advance_tick,
  end_run,
}
use spaceport_bazzar_client.Sim.Economy.Trade.{stock}
use spaceport_bazzar_client.Sim.Economy.Effect.{Effect}
use spaceport_bazzar_client.Sim.Economy.Conservation.{execute_conserves, execute_atomic}
use spaceport_bazzar_client.Sim.Economy.Total.{execute-Goes}
use spaceport_bazzar_client.Sim.Economy.Invariant.{IsValid}
use spaceport_bazzar_client.Sim.Economy.Invariant.Commands.{execute-IsValid}
use spaceport_bazzar_client.Sim.Economy.Invariant.Cleanup.{advance_tick_closes, end_run-IsValid}
use spaceport_bazzar_client.Sim.Economy.Invariant.Time.{advance_tick-IsValid}
use spaceport_bazzar_client.Sim.Economy.Run.{Step, Reach, run-IsValid}
use spaceport_bazzar_client.Sim.Tests.Market.{
  default_rules, stock_of_ten, roster, post, take, world_of, offered, traded, ticked_once, weak,
  starved_once, posting, taking, ticking, starving, meddle, meddling, meddling_fails,
  new_planet-IsSound, roster-IsSound, starts, offered-IsValid, traded-IsValid, traded_health,
  knows_two,
}

run-IsValid_example : IsValid starts (end_run ticked_once)
run-IsValid_example = run-IsValid roster default_rules 7 (omega arith) roster-IsSound (
    Reach.next
      (Reach.next
        (Reach.next (Reach.next Reach.here (Step.command 1 post _ posting))
          (Step.command 2 take _ taking))
        (Step.tick ticking))
      (Step.finish refl))

execute-IsValid_example : IsValid starts traded
execute-IsValid_example = execute-IsValid starts 2 take offered _ traded offered-IsValid taking

execute_conserves_example : stock water traded.stations ≡ stock water offered.stations
execute_conserves_example = execute_conserves 2 take offered _ traded water taking

execute_atomic_example :
    (world_of (execute 2 meddle offered) offered ≡ offered)
    ⊎ (world_of (execute 2 meddle offered) offered ≡ counted 2 offered)
execute_atomic_example = execute_atomic 2 meddle offered _ _ meddling meddling_fails

execute-Goes_example : (answer : CommandOutcome × Economy) × (execute 2 take offered ≡ some answer)
execute-Goes_example = execute-Goes starts 2 take offered offered-IsValid knows_two

advance_tick-IsValid_example : (e' : Economy) × (advance_tick traded ≡ some e') × IsValid starts e'
advance_tick-IsValid_example = advance_tick-IsValid starts traded traded_health traded-IsValid

advance_tick_closes_example :
    All (λ o. is_overdue ticked_once.tick o ≡ false) ticked_once.offers
    × All (λ o. is_orphaned ticked_once.stations o ≡ false) ticked_once.offers
    × All
        (λ a.
          (ticked_once.tick < a.expires_tick)
          × (has_failed ticked_once.stations a.station_id ≡ false))
        ticked_once.advertisements
advance_tick_closes_example = advance_tick_closes traded ticked_once ticking

end_run-IsValid_example :
    IsValid starts (end_run offered)
    × All (λ o. is_open o.status ≡ false) (end_run offered).offers
    × ((end_run offered).advertisements ≡ [])
    × ((end_run offered).stations ≡ offered.stations)
end_run-IsValid_example = end_run-IsValid starts offered offered-IsValid

settle_tick-IsSound_example :
    (s' : SimStation) × (settle_tick default_rules 1 (new_station 1 water stock_of_ten) ≡ some s')
    × IsSound default_rules stock_of_ten s'
settle_tick-IsSound_example =
    settle_tick-IsSound default_rules 1 stock_of_ten (new_station 1 water stock_of_ten)
      (omega arith) (new_planet-IsSound 1 water)

settle_tick_fails_example : (starved_once.failed_once ≡ true) ↔ (
    (is_zero starved_once.last_unmet ≡ false)
    × (weak.health ≤ total starved_once.last_unmet * default_rules.shortage_damage_per_unit))
settle_tick_fails_example = settle_tick_fails default_rules 4 weak refl starving
