-- ===== src/World/Model.antt =====
-- `WorldModel` of bazaar_client/world/model.py: the newest snapshot of a connection.
pub mod Newest
use spaceport_bazzar_client.Base.{
  leb, if◌then◌else◌, ◌>>=◌, ℕ, ◌+◌, Bool, true, false, Option, none, some, List, map,
}
use spaceport_bazzar_client.Domain.Types.{Phase, ObjectId, Snapshot}

pub record WorldModel : Type 0 where
  pub current : Option Snapshot
  pub last_sequence : ℕ
  pub applied_count : ℕ
  pub ignored_count : ℕ

abbrev pub new_model : WorldModel
new_model = record { current = none; last_sequence = 0; applied_count = 0; ignored_count = 0 }

-- `self._snapshot is not None and snapshot.snapshot_sequence <= self._last_sequence`
abbrev pub is_stale : Snapshot → WorldModel → Bool
is_stale snap m = elim m.current [
  | none ↦ false
  | some _ ↦ leb snap.snapshot_sequence m.last_sequence
]

-- `WorldModel.apply`
unfoldable pub apply_snapshot : Snapshot → WorldModel → Bool × WorldModel
apply_snapshot snap m =
    if is_stale snap m then (false, record m { ignored_count = m.ignored_count + 1 }) else (
      true,
      record m {
        current = some snap;
        last_sequence = snap.snapshot_sequence;
        applied_count = m.applied_count + 1;
      },
    )

-- `WorldModel.reset_for_new_connection`
unfoldable pub forget : WorldModel → WorldModel
forget m = record m { current = none; last_sequence = 0 }

-- `transaction_ids`, as a list; `none` is the `RuntimeError` of `require`
unfoldable pub transaction_ids : WorldModel → Option (List ObjectId)
transaction_ids m = do snap ← m.current; some (map (λ t. t.transaction_id) snap.transactions)

-- The property `tick`
unfoldable pub current_tick : WorldModel → Option ℕ
current_tick m = do snap ← m.current; some snap.tick

-- The property `phase`
unfoldable pub current_phase : WorldModel → Option Phase
current_phase m = do snap ← m.current; some snap.phase
