-- ===== src/Policy/Decide/Gate.antt =====
-- When a decision is empty (bazaar_client/policy/decide.py).
use spaceport_bazzar_client.Base.{
  ◌>>=◌, ◌≤◌, ◌<◌, ◌≡◌, refl, ◌∙◌, ◌≢◌, ◌⊎◌, inl, inr, true, false, Option, some, List, [], arith,
}
use spaceport_bazzar_client.Base.Int.{ℤ}
use spaceport_bazzar_client.Domain.Bundle.{Resource, Bundle}
use spaceport_bazzar_client.Domain.Types.{Phase, Snapshot}
use spaceport_bazzar_client.World.Counterparties.{CounterpartyStats}
use spaceport_bazzar_client.World.Commitments.{CommitmentTracker, available_to_commit}
use spaceport_bazzar_client.Policy.Memory.{PolicyMemory, observe}
use spaceport_bazzar_client.Policy.Memory.Blocking.{observe-blocked_until_tick}
use spaceport_bazzar_client.Policy.Reserves.{
  compute_reserve, compute_urgency, surplus_above_reserve, deficit_below_reserve,
}
use spaceport_bazzar_client.Policy.Decide.Pipeline.{Decision, is_running, is_gated, decide}

is_gated-observe :
    (snap : Snapshot) (memory : PolicyMemory) (available : Bundle)
    → is_gated snap (compute_reserve snap.rules snap.me (observe snap memory) available).1
      ≡ is_gated snap memory
unfolding is_gated compute_reserve
is_gated-observe snap memory available = ground (arith, observe-blocked_until_tick snap memory)

running-phase : (p : Phase) → p ≢ Phase.running → is_running p ≡ false
running-phase Phase.running h = absurd (h refl)
running-phase Phase.ready h = refl
running-phase Phase.paused h = refl
running-phase Phase.finished h = refl
running-phase Phase.aborted h = refl

shut-is_gated :
    (snap : Snapshot) (memory : PolicyMemory)
    → (snap.phase ≢ Phase.running)
      ⊎ (snap.me.failed_once ≡ true)
      ⊎ (snap.tick < memory.blocked_until_tick)
      ⊎ (snap.rules.duration_ticks ≤ snap.tick)
    → is_gated snap memory ≡ true
unfolding is_gated
shut-is_gated snap memory (inl halted) = rw (running-phase snap.phase halted) refl
shut-is_gated snap memory (inr (inl lost)) = ground arith
shut-is_gated snap memory (inr (inr (inl blocked))) = ground arith
shut-is_gated snap memory (inr (inr (inr over))) = ground arith

-- While the run is not running, the planet has failed, a back-off lasts or the run is over, the
-- decision has no action, whatever was received.
pub decide-gated :
    (keys : CounterpartyStats → List Resource) (snap : Snapshot) (memory : PolicyMemory)
    (commitments : CommitmentTracker) (command_budget : Option ℤ)
    → (snap.phase ≢ Phase.running)
      ⊎ (snap.me.failed_once ≡ true)
      ⊎ (snap.tick < memory.blocked_until_tick)
      ⊎ (snap.rules.duration_ticks ≤ snap.tick)
    → (res : Decision × PolicyMemory) × (decide keys snap memory commitments command_budget
        ≡ some res)
      × (res.0.actions ≡ [])
unfolding decide
decide-gated keys snap memory commitments command_budget h =
    let available = available_to_commit snap commitments in
    let computed = compute_reserve snap.rules snap.me (observe snap memory) available in
    let gated = is_gated-observe snap memory available ∙ shut-is_gated snap memory h in
    (
      (
        record {
          actions = [];
          reserve = computed.0;
          available = available;
          surplus = surplus_above_reserve available computed.0;
          deficit = deficit_below_reserve available computed.0;
          urgency = compute_urgency available snap.me.upkeep_per_tick computed.0;
        },
        computed.1,
      ),
      rw (gated, decide, ◌>>=◌) refl,
      refl,
    )
