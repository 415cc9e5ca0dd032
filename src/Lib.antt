-- ===== src/Lib.antt =====
-- The Spaceport Bazaar client and its simulator: planets that produce one resource, consume three,
-- and trade through offers. A client keeps a session with the server, sees snapshots of its own
-- planet, its offers and the public advertisements, decides what to do under a reserve policy, and
-- sends a bounded number of commands per tick. The simulator runs the same rules in memory: it
-- executes the commands, settles every tick and closes the run.
--
-- Files and code:
--   Base, Base/*              shared names, Boolean tests, the chain of partial steps, lists, integers;
--                             Float: the doubles of Python
--   Domain/Bundle             Resource and Bundle of bazaar_client/domain/types.py; Laws: its algebra
--   Domain/Types              the other types of bazaar_client/domain/types.py
--   Execution/Actions         bazaar_client/execution/actions.py
--   Sim/Station               SimStation of bazaar_sim/economy.py; Tick: what a tick does to it
--   Sim/Economy/State         SimulatedEconomy's attributes and the writes to its containers
--   Sim/Economy/Precheck      _precheck
--   Sim/Economy/Posting       _advertise, _post_offer, _withdraw
--   Sim/Economy/Accept        _accept
--   Sim/Economy/Execute       execute, apply
--   Sim/Economy/Time          advance_tick, finished, end_run, and _apply_production of
--                             bazaar_sim/server.py
--   Sim/Economy/View          __init__, observation_for, outcome_for
--   Sim/Economy/Stations, Trade, Ledger   lemmas on the roster and on a settlement
--   Sim/Economy/Effect        the contract of a command; Guards: what _precheck lets through;
--                             Commands: execute meets the contract
--   Sim/Economy/Invariant     validity of the economy, kept by every operation
--   Sim/Economy/Conservation, Total, Run  conservation, no exceptions, reachable states
--   Sim/Server                BazaarServer of bazaar_sim/server.py: State, Handlers; Sending, Seats: what
--                             a broadcast keeps; Keeping, Messages, Steps: the world stays valid;
--                             Retry: requests by id; Finish: the run ends
--   Sim/World                 bazaar_sim/world.py: production and run_world; Balance, Entries,
--                             Cycle: what the producers make; Survival, Whole: a run returns; Score: its score
--   Sim/Opponents             the stand-in players of bazaar_sim/opponents.py; Paying: what they accept
--   Connection/Lifecycle      SessionLifecycle of bazaar_client/connection/lifecycle.py
--   Connection/Throttle       CommandThrottle of bazaar_client/connection/throttle.py
--   Connection/Requests       PendingRequestTracker of bazaar_client/connection/requests.py
--   World/Commitments         CommitmentTracker of bazaar_client/world/commitments.py
--   World/Model               WorldModel of bazaar_client/world/model.py
--   World/Counterparties      CounterpartyModel of bazaar_client/world/counterparties.py; History: the
--                             offers and trades it learns from, and its update
--   Policy/Memory             PolicyMemory of bazaar_client/policy/memory.py
--   Policy/Reserves           bazaar_client/policy/reserves.py
--   Policy/Advertising        bazaar_client/policy/advertising.py
--   Policy/Pricing            bazaar_client/policy/pricing.py
--   Policy/Altruism           bazaar_client/policy/altruism.py; Caution, Receiver: who gets a gift
--   Policy/Accept             bazaar_client/policy/accept.py; Safety: what an acceptance costs
--   Policy/Targeting          bazaar_client/policy/targeting.py; Choice: what a candidate is
--   Policy/Decide             bazaar_client/policy/decide.py: Turn, Incoming, Outgoing and Gifts hold
--                             its steps, Pipeline their order; Kept: what every step keeps, Listed:
--                             which offers are the station's; shown in
--                             Accepting, Offering, Giving and Publishing; Prudence, Gate and Served:
--                             the decision as a whole, and on what the economy shows
--   Policy/Decide/Player      StrategyPlayer of bazaar_sim/opponents.py in a whole run
--   */Tests                   the theorems applied to small concrete worlds
--
-- How the code is written down:
--   A method that changes its object takes the state and returns the new one. `none` is a raised
--   exception: a KeyError, a NegativeBundleError or a RunIdChanged.
--   A quantity of a bundle is a natural number, because Bundle refuses negative ones when it is
--   built; the strict subtraction is written with signed integers and that test.
--   Station, run and request ids are texts that the code only compares: numbers here. The id of an
--   offer, advertisement or transaction is the text prefix-n: a constructor with its number, and
--   `foreign` for any other text.
--   Ticks, versions and counters are unsigned on the wire and unbounded in Python: natural numbers.
--   The dictionary of stations is the list of its values in insertion order, which its order of
--   iteration is; a frozen set of resources is its membership test; a deque is a list, oldest first.
--   A payment limit, 0.0 or 0.5 in the code, is a number of halves; a price ratio is an exact
--   fraction. On quantities of stock the floats of the code round to the same integers: a product
--   with 1.2 never lies on a half, and the other ratios are dyadic. The weights, values and scores of
--   the evaluation and the ranking are doubles: an exact fraction that is rounded after each operation
--   to 53 bits, ties to even, and a sum is rounded once, as Python 3.12 does; the exponent is not
--   bounded.
--   A budget or a room for offers below 0 acts as 0, and is 0. The order of the keys of a streak, which
--   a set does not keep, is an argument of the decision.
--   A handler of the server runs as one step: the sends that it awaits are appended to what has gone
--   out. A decoded message comes as its data, and bytes that are no message as an event of their own.
--   A player of a run is its state and a function from snapshots to actions. The variation of a
--   balanced production is at least 0.
--   A fingerprint of a request is a text that is only compared: a number.
--   Loops are structural recursion over the lists that the code iterates over, so no fuel is needed,
--   with two exceptions. The clock of the server, which runs while the phase is RUNNING, takes a number
--   of rounds: the ticks that are left of the run are enough, since each round adds one. The scaling of
--   a double takes as many doublings as it needs out of a fuel that with the start reaches the bound:
--   that is enough, since every round but the last doubles.
--   A run is a chain of the calls that the server and the world loop make, in any order.
--
-- Not modelled: the socket, the protobuf codecs and mappers, configuration, the command line,
-- reports and dashboards, which are input and output or code outside the repository; nor the
-- texts of reasons, the ids of requests, the executor, and the server's
-- handshake, tokens and report.
pub mod Base
pub mod Domain
pub mod Execution
pub mod Connection
pub mod Policy
pub mod Sim
pub mod World
