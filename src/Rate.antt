-- ===== src/Rate.antt =====
-- The rate control of src/dzIPC/common/data_rev.cc: how the sender's rate follows the loss that the
-- receivers report. The statistics and the warning texts are left out. The settings that the code
-- fixes at compile time are the ones of the source: recovery by the gate on alpha, runs captured.
pub mod Floor
pub mod Keeps
mod Tests
use cpp_ipc_dds.Common.{
  ℕ, ◌+◌, ◌-◌, ◌*◌, ◌/◌, ◌^◌, min, max, Bool, true, false, ◌&&◌, ◌||◌, Option, none, some, ltb, leb,
  ◌==◌, ◌/=◌, if◌then◌else◌, u32, u64,
}
use cpp_ipc_dds.Chunks.{udp_max_size}

-- `rate_limited_transit_ms` at the rate `bps`, or at the global rate if that is 0. No product
-- reaches 2^64, since a page count is below 2^16.
pub rate_limited_transit_ms : ℕ → ℕ → ℕ → ℕ
rate_limited_transit_ms global page_cnt bps =
    let rate = if bps == 0 then global else bps in
    if rate == 0 then 0 else page_cnt * udp_max_size * 1000 / rate

-- `calc_nack_wait_ms`
pub calc_nack_wait_ms : ℕ → ℕ → ℕ → ℕ
calc_nack_wait_ms global page_cnt bps =
    let by_pages = max 20 (min 200 (page_cnt * 4)) in
    let transit_ms = rate_limited_transit_ms global page_cnt bps in
    max by_pages (transit_ms + transit_ms / 2)

-- `window_floor_bps`
pub window_floor_bps : ℕ → ℕ → ℕ
window_floor_bps global page_cnt =
    let transit_g = rate_limited_transit_ms global page_cnt 0 in
    let deadline_est_ms = max 50 (transit_g + transit_g / 2 + 20) in
    page_cnt * udp_max_size * 1500 / deadline_est_ms

-- `scaled_loss_fraction`
pub scaled_loss_fraction : ℕ → ℕ → ℕ
scaled_loss_fraction count page_cnt =
    if page_cnt == 0 then 0 else u32 (min 256 (min count page_cnt * 256 / page_cnt))

-- `RateLimitState`, without its mutex and `additive_step_bps`, which the settings leave unused.
pub record RateLimitState : Type 0 where
  pub initial_bps : ℕ
  pub bps : ℕ
  pub static_floor_bps : ℕ
  pub clean_count : ℕ
  pub floor_warned : Bool
  pub alpha_scaled : ℕ
  pub alpha_accum : ℕ
  pub observed_bps_last : ℕ
  pub runs_last : ℕ
  pub lost_last : ℕ

abbrev pub rate_floor_divisor : ℕ
rate_floor_divisor = 32

-- `effective_rate_bps`: the rate of a message, and the state with which it is sent.
pub effective_rate_bps : ℕ → ℕ → RateLimitState → ℕ × RateLimitState
effective_rate_bps options_bps global st =
    if options_bps /= 0
    then (options_bps, st)
    else if global == 0
    then (0, st)
    else if st.initial_bps /= global
    then (
      global,
      record {
        initial_bps = global;
        bps = global;
        static_floor_bps = global / rate_floor_divisor;
        clean_count = 0;
        floor_warned = false;
        alpha_scaled = 0;
        alpha_accum = 0;
        observed_bps_last = 0;
        runs_last = 0;
        lost_last = 0;
      },
    )
    else (st.bps, st)

-- `alpha_accum += (f_ewma * 16 - alpha_accum) / 16` with the division of int32_t, which rounds to 0.
abbrev pub next_accum : ℕ → ℕ → ℕ
next_accum f accum =
    if leb accum (f * 16) then accum + (f * 16 - accum) / 16 else accum - (accum - f * 16) / 16

-- `runs_random`
abbrev pub runs_random : ℕ → ℕ → Bool
runs_random runs lost = ltb 0 runs && ltb 0 lost && ltb (u64 (579 * lost)) (u64 (runs * 1000))

-- The additive rise, at most to the initial rate.
abbrev pub rise : RateLimitState → RateLimitState
rise st = record st {
  bps = min st.initial_bps (u64 (st.bps + max 1 (st.initial_bps / 320)));
  clean_count = 0;
}

-- The branch for a loss: the proportional drop, at most to the floor.
pub lower : ℕ → Bool → RateLimitState → RateLimitState
lower floor_bps random st =
    let alpha_eff = if random then 1 else max st.alpha_scaled 1 in
    let drop_bps = u64 (st.bps * alpha_eff + 511) / 512 in
    let bps = max floor_bps (u64 (st.bps + 2 ^ 64 - drop_bps)) in
    let low = record st {
      bps = bps;
      clean_count = 0;
      floor_warned = st.floor_warned || bps == floor_bps;
    } in
    if random then rise low else low

-- `adapt_rate_dctcp` without the delay line for experiments (`DZIPC_TAU_DELAY_ROUNDS` not set).
pub adapt_rate_dctcp : ℕ → ℕ → ℕ → Bool → Bool → ℕ → ℕ → ℕ → RateLimitState → RateLimitState
unfolding lower
adapt_rate_dctcp global page_cnt f_max clean at_floor_timeout observed runs lost st =
    let floor_bps = max st.static_floor_bps (window_floor_bps global page_cnt) in
    let f = min f_max 256 in
    let accum = next_accum f st.alpha_accum in
    let st1 : RateLimitState = record st { alpha_accum = accum; alpha_scaled = accum / 16 } in
    let st2 =
      (if ltb 0 f
        then lower floor_bps (runs_random runs lost) st1
        else if clean && leb 8 page_cnt && leb (accum / 16) 1
        then rise st1
        else if at_floor_timeout && leb st.bps floor_bps
        then record st1 { floor_warned = true }
        else st1) in
    if st.bps == 0
    then st
    else record st2 { observed_bps_last = observed; runs_last = runs; lost_last = lost }

-- `invalid_value`: no limit of time.
abbrev pub invalid_value : ℕ
invalid_value = 0xFFFFFFFF

-- `calc_round_wait_ms`, with RTPS_MAX_NACK_ROUND = 5.
pub calc_round_wait_ms : ℕ → ℕ → ℕ → ℕ
calc_round_wait_ms global page_cnt tm =
    let by_pages = max 20 (min 200 (page_cnt * 4)) in
    let transit_ms = rate_limited_transit_ms global page_cnt 0 in
    let floor_ms = transit_ms + transit_ms / 2 in
    let by_budget = max 10 (tm / (5 + 1)) in
    if tm == invalid_value then max by_pages floor_ms else max (min by_pages by_budget) floor_ms

-- `peer_is_live`, given the entry of the receiver in the peer table: none, one without an
-- acknowledgement so far, or the age of its last one in ms (the steady clock never runs back).
pub peer_is_live : Option (Option ℕ) → ℕ → Bool
peer_is_live none lease_ms = false
peer_is_live (some none) lease_ms = false
peer_is_live (some (some age_ms)) lease_ms = ltb age_ms lease_ms
