-- ===== src/Connection/Throttle/Budget.antt =====
-- The per-tick budget (bazaar_client/connection/throttle.py) under any run of sends.
use spaceport_bazzar_client.Base.{
  ltb, if◌then◌else◌, ℕ, zero, suc, ◌+◌, ◌-◌, ◌<◌, ◌≡◌, Option, none, some, arith,
}
use spaceport_bazzar_client.Connection.Throttle.{
  Throttle, update_limit, remaining, record_sent, block_until,
}

-- A caller that sends only while the budget allows: how many of its `wanted` commands go out.
pub send_each : ℕ → ℕ → Throttle → ℕ × Throttle
unfolding remaining record_sent
send_each zero tick t = (0, t)
send_each (suc wanted) tick t =
    let (left, rolled) = remaining tick t in
    let (rest, after) =
      send_each wanted tick (if ltb 0 left then record_sent tick 1 rolled else rolled) in
    (if ltb 0 left then rest + 1 else rest, after)

-- One send uses one unit of the tick's budget, and none is left for a blocked tick.
pub remaining-record_sent :
    (tick : ℕ) (t : Throttle) → (remaining tick (record_sent tick 1 t)).0 ≡ (remaining tick t).0 - 1
unfolding remaining record_sent
remaining-record_sent tick t = ground arith

-- A block holds to its tick and never shortens: every later tick that it covers has no budget,
-- whatever the limit and whatever is blocked after it.
pub block_until_holds :
    (until : ℕ) (again : Option ℕ) (limit tick : ℕ) (t : Throttle)
    → tick < until
    → (remaining tick (update_limit limit (block_until again (block_until (some until) t)))).0 ≡ 0
unfolding remaining block_until update_limit
block_until_holds until none limit tick t h = ground arith
block_until_holds until (some later) limit tick t h = ground arith
