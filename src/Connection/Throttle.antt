-- ===== src/Connection/Throttle.antt =====
-- `CommandThrottle` of bazaar_client/connection/throttle.py. A read rolls the count to its tick, so
-- it returns the new state too.
pub mod Budget
use spaceport_bazzar_client.Base.{
  ltb, if◌then◌else◌, ◌==◌, nat_eq, ℕ, ◌+◌, ◌-◌, max, Option, none, some,
}

pub record Throttle : Type 0 where
  pub limit : ℕ
  pub tick : ℕ
  pub sent : ℕ
  pub blocked_until_tick : ℕ

abbrev pub new_throttle : ℕ → Throttle
new_throttle limit = record { limit = limit; tick = 0; sent = 0; blocked_until_tick = 0 }

pub update_limit : ℕ → Throttle → Throttle
update_limit limit t = record t { limit = limit }

pub roll_to : ℕ → Throttle → Throttle
roll_to tick t = if tick == t.tick then t else record t { tick = tick; sent = 0 }

-- `remaining`; `-` stops at 0, as `max(0, …)` does
unfoldable pub remaining : ℕ → Throttle → ℕ × Throttle
unfolding roll_to
remaining tick t =
    let t' = roll_to tick t in
    (if ltb tick t'.blocked_until_tick then 0 else t'.limit - t'.sent, t')

unfoldable pub record_sent : ℕ → ℕ → Throttle → Throttle
unfolding roll_to
record_sent tick count t = let t' = roll_to tick t in record t' { sent = t'.sent + count }

unfoldable pub block_until : Option ℕ → Throttle → Throttle
block_until none t = t
block_until (some tick) t = record t { blocked_until_tick = max t.blocked_until_tick tick }
