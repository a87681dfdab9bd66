-- ===== src/Rate/Floor.antt =====
-- The floor that the receiver's deadline sets for the rate.
use cpp_ipc_dds.Common.{ℕ, ◌+◌, ◌*◌, ◌/◌, ◌≤◌, ◌<◌, max, arith, ne→==}
use native.Mathlib.Nat.{mul-le-mul_right, lt-div-mul-add, div-le_of_le-mul}
use cpp_ipc_dds.Rate.{rate_limited_transit_ms, window_floor_bps, calc_round_wait_ms}

floor_product :
    (g t d bytes : ℕ) → bytes * 1000 < t * g + g → 3 * t + 39 ≤ 2 * d → bytes * 1500 ≤ d * g
floor_product g t d bytes h1 h2 =
    let scaled : (3 * t + 39) * g ≤ 2 * d * g = mul-le-mul_right g h2 in grind (arith, scaled)

-- The floor is never above the global rate, so that a rate at its floor is one that was configured.
pub window_floor_bps_lem :
    (global page_cnt : ℕ) → 0 < global → window_floor_bps global page_cnt ≤ global
unfolding window_floor_bps rate_limited_transit_ms
window_floor_bps_lem global page_cnt pos = rw (ne→== global 0 (omega arith)) (
    div-le_of_le-mul _ (
      floor_product global (page_cnt * 1472 * 1000 / global) _ (page_cnt * 1472)
        (lt-div-mul-add pos) (omega arith)))

-- A receiver waits in a round at least one and a half times as long as the pages need at the global
-- rate, and at least 10 ms; where that needs less than 200 ms, it waits at most 200 ms. The time
-- that the caller allows shortens the round only above these.
pub calc_round_wait_ms_bounds :
    (global page_cnt tm : ℕ)
    → let transit_ms = rate_limited_transit_ms global page_cnt 0 in
      (transit_ms + transit_ms / 2 ≤ calc_round_wait_ms global page_cnt tm)
      × (10 ≤ calc_round_wait_ms global page_cnt tm)
      × (calc_round_wait_ms global page_cnt tm ≤ max 200 (transit_ms + transit_ms / 2))
unfolding calc_round_wait_ms
calc_round_wait_ms_bounds global page_cnt tm = (ground arith, ground arith, ground arith)
