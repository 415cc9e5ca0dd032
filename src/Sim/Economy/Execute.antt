-- ===== src/Sim/Economy/Execute.antt =====
-- `execute` and `apply` of `SimulatedEconomy` (bazaar_sim/economy.py).
use spaceport_bazzar_client.Base.{
  if◌then◌else◌, ◌>>=◌, ℕ, ◌+◌, Option, none, some, List, [], ◌∷◌, ◌++◌,
}
use spaceport_bazzar_client.Domain.Types.{ResultCode}
use spaceport_bazzar_client.Execution.Actions.{Action}
use spaceport_bazzar_client.Sim.Economy.State.{
  CommandOutcome, refused, is_ok, Economy, station_of, count_of, set_count,
}
use spaceport_bazzar_client.Sim.Economy.Precheck.{precheck}
use spaceport_bazzar_client.Sim.Economy.Accept.{accept_command}
use spaceport_bazzar_client.Sim.Economy.Posting.{post_advertisement, post_offer, withdraw_command}

-- `execute`, once `_precheck` has passed and the command is counted
unfoldable pub dispatch : ℕ → Action → Economy → Option (CommandOutcome × Economy)
unfolding post_advertisement post_offer accept_command withdraw_command
dispatch sid (Action.advertise a) e = some (post_advertisement sid a e)
dispatch sid (Action.offer a) e = some (post_offer sid a e)
dispatch sid (Action.accept oid) e = accept_command sid oid e
dispatch sid (Action.withdraw oid) e = some (withdraw_command sid oid e)
dispatch sid Action.sync e = some (refused ResultCode.invalid_argument, e)

unfoldable pub counted : ℕ → Economy → Economy
unfolding set_count
counted sid e = record e {
  command_counts = set_count sid (count_of sid e.command_counts + 1) e.command_counts;
}

unfoldable pub execute : ℕ → Action → Economy → Option (CommandOutcome × Economy)
execute sid action e = do
  station ← station_of sid e.stations
  elim (precheck sid station action e) [
    | some code ↦ some (refused code, e)
    | none ↦ dispatch sid action (counted sid e)
  ]

-- The loop of `apply`.
unfoldable pub apply_each : ℕ → List Action → Economy → Option Economy
unfolding execute precheck dispatch counted
apply_each sid [] e = some e
apply_each sid (a ∷ actions) e = do
  (outcome, after) ← execute sid a e
  apply_each sid actions (
      if is_ok outcome.code
      then after
      else record after { rejections = after.rejections ++ (sid, outcome.code) ∷ [] })

unfoldable pub apply : ℕ → List Action → Economy → Option Economy
unfolding apply_each
apply sid actions e = do
  after ← apply_each sid actions e
  some (record after { world_version = after.world_version + 1 })
