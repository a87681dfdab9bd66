-- ===== src/Rate/Tests.antt =====
-- The theorems about the rate control at a sender of 20 MB/s.
use cpp_ipc_dds.Common.{◌<◌, ◌≡◌, refl, false, arith}
use cpp_ipc_dds.Rate.{RateLimitState, rate_limited_transit_ms, window_floor_bps, adapt_rate_dctcp}
use cpp_ipc_dds.Rate.Keeps.{IsRate, adapt_rate_dctcp-IsRate}

abbrev seeded : RateLimitState
seeded = record {
  initial_bps = 20000000;
  bps = 20000000;
  static_floor_bps = 625000;
  clean_count = 0;
  floor_warned = false;
  alpha_scaled = 0;
  alpha_accum = 0;
  observed_bps_last = 0;
  runs_last = 0;
  lost_last = 0;
}

seeded-IsRate : IsRate seeded
seeded-IsRate = record {
  low = omega arith;
  high = omega arith;
  configured = omega arith;
  accum = omega arith;
}

adapt_rate_dctcp-IsRate_example :
    let st = adapt_rate_dctcp 20000000 713 64 false false 0 2 200 seeded in
    IsRate st × (st.initial_bps ≡ 20000000)
adapt_rate_dctcp-IsRate_example =
    adapt_rate_dctcp-IsRate 20000000 713 64 0 2 200 false false seeded (omega arith) refl
      seeded-IsRate

floor_below : window_floor_bps 20000000 713 < 20000000
unfolding window_floor_bps rate_limited_transit_ms
floor_below = omega arith
