-- ===== src/Rate/Keeps.antt =====
-- The rate stays between the static floor and the configured rate.
use cpp_ipc_dds.Common.{
  ℕ, ◌+◌, ◌*◌, ◌/◌, ◌^◌, ◌≤◌, ◌<◌, min, max, ◌≡◌, refl, ◌∙◌, Bool, true, false, arith, ℕ_discrete,
  ◌==◌, ◌/=◌, if◌then◌else◌, lt→ltb, ne→==, u64,
}
use native.Mathlib.Nat.{mul-le-mul}
use cpp_ipc_dds.Rate.{
  RateLimitState, window_floor_bps, next_accum, runs_random, rise, lower, adapt_rate_dctcp,
  effective_rate_bps,
}
use cpp_ipc_dds.Rate.Floor.{window_floor_bps_lem}

-- The state of a sender whose rate limit is on: the rate lies between the floor and the configured
-- rate, which is below 2^48 bytes per second, and the estimate of the loss is at most 1.
pub record IsRate (st : RateLimitState) : Type 0 where
  pub low : st.static_floor_bps ≤ st.bps
  pub high : st.bps ≤ st.initial_bps
  pub configured : st.initial_bps < 2 ^ 48
  pub accum : st.alpha_accum ≤ 4096

next_accum_lem : (f accum : ℕ) → f ≤ 256 → accum ≤ 4096 → next_accum f accum ≤ 4096
next_accum_lem f accum h1 h2 = ground arith

-- What both branches keep.
record Between (floor_bps : ℕ) (st st' : RateLimitState) : Type 0 where
  low : floor_bps ≤ st'.bps
  high : st'.bps ≤ st.initial_bps
  same_initial : st'.initial_bps ≡ st.initial_bps
  same_floor : st'.static_floor_bps ≡ st.static_floor_bps
  same_accum : st'.alpha_accum ≡ st.alpha_accum

rise-Between :
    (floor_bps : ℕ) (st : RateLimitState)
    → floor_bps ≤ st.bps
    → st.bps ≤ st.initial_bps
    → st.initial_bps < 2 ^ 48
    → Between floor_bps st (rise st)
rise-Between floor_bps st h1 h2 h3 = record {
  low = omega arith;
  high = omega arith;
  same_initial = refl;
  same_floor = refl;
  same_accum = refl;
}

drop_fits : (bps alpha : ℕ) → bps < 2 ^ 48 → alpha ≤ 256 → u64 (bps * alpha + 511) / 512 ≤ bps
drop_fits bps alpha h1 h2 =
    let most : bps * alpha ≤ bps * 256 = mul-le-mul (omega arith) h2 in omega (arith, most)

lower-Between :
    (floor_bps : ℕ) (random : Bool) (st : RateLimitState)
    → floor_bps ≤ st.initial_bps
    → st.bps ≤ st.initial_bps
    → st.initial_bps < 2 ^ 48
    → st.alpha_scaled ≤ 256
    → Between floor_bps st (lower floor_bps random st)
unfolding lower
lower-Between floor_bps false st h1 h2 h3 h4 =
    let fits = drop_fits st.bps (max st.alpha_scaled 1) (omega arith) (omega arith) in
    record {
      low = omega arith;
      high = omega (arith, fits);
      same_initial = refl;
      same_floor = refl;
      same_accum = refl;
    }
lower-Between floor_bps true st h1 h2 h3 h4 =
    let fits = drop_fits st.bps 1 (omega arith) (omega arith) in
    record {
      low = omega (arith, fits);
      high = omega (arith, fits);
      same_initial = refl;
      same_floor = refl;
      same_accum = refl;
    }

weaken :
    {low_bps floor_bps : ℕ} {st st' : RateLimitState}
    → low_bps ≤ floor_bps
    → Between floor_bps st st'
    → Between low_bps st st'
weaken h b = record {
  low = omega (arith, b.low);
  high = b.high;
  same_initial = b.same_initial;
  same_floor = b.same_floor;
  same_accum = b.same_accum;
}

-- The four ways through the control law.
adapted-Between :
    (loss random recover late : Bool) (floor_bps : ℕ) (st : RateLimitState)
    → st.static_floor_bps ≤ floor_bps
    → floor_bps ≤ st.initial_bps
    → st.static_floor_bps ≤ st.bps
    → st.bps ≤ st.initial_bps
    → st.initial_bps < 2 ^ 48
    → st.alpha_scaled ≤ 256
    → Between st.static_floor_bps st (
        if loss
        then lower floor_bps random st
        else if recover
        then rise st
        else if late
        then record st { floor_warned = true }
        else st)
adapted-Between true random recover late floor_bps st h1 h2 h3 h4 h5 h6 =
    weaken h1 (lower-Between floor_bps random st h2 h4 h5 h6)
adapted-Between false random true late floor_bps st h1 h2 h3 h4 h5 h6 =
    rise-Between st.static_floor_bps st h3 h4 h5
adapted-Between false random false true floor_bps st h1 h2 h3 h4 h5 h6 = record {
  low = h3;
  high = h4;
  same_initial = refl;
  same_floor = refl;
  same_accum = refl;
}
adapted-Between false random false false floor_bps st h1 h2 h3 h4 h5 h6 = record {
  low = h3;
  high = h4;
  same_initial = refl;
  same_floor = refl;
  same_accum = refl;
}

abbrev Kept : ℕ → RateLimitState → Type 0
Kept global st = IsRate st × (st.initial_bps ≡ global)

keep :
    (global observed runs lost : ℕ) (off : Bool) (st st1 st2 : RateLimitState)
    → Kept global st
    → st1.initial_bps ≡ global
    → st1.initial_bps < 2 ^ 48
    → st1.alpha_accum ≤ 4096
    → Between st1.static_floor_bps st1 st2
    → Kept global (
        if off
        then st
        else record st2 { observed_bps_last = observed; runs_last = runs; lost_last = lost })
keep global observed runs lost true st st1 st2 v e h1 h2 b = v
keep global observed runs lost false st st1 st2 v e h1 h2 b = (
  record {
    low = omega (arith, b.low, b.same_floor);
    high = omega (arith, b.high, b.same_initial);
    configured = omega (arith, b.same_initial);
    accum = omega (arith, b.same_accum);
  },
  b.same_initial ∙ e,
)

-- A rate that is on stays between the static floor and the configured rate, whatever the receivers
-- report, and the configured rate stays the same.
pub adapt_rate_dctcp-IsRate :
    (global page_cnt f_max observed runs lost : ℕ) (clean at_floor_timeout : Bool)
    (st : RateLimitState)
    → 0 < global
    → st.initial_bps ≡ global
    → IsRate st
    → let st' =
        adapt_rate_dctcp global page_cnt f_max clean at_floor_timeout observed runs lost st in
      IsRate st' × (st'.initial_bps ≡ global)
unfolding adapt_rate_dctcp
adapt_rate_dctcp-IsRate global page_cnt f_max observed runs lost clean at_floor_timeout st pos e v =
    keep global observed runs lost (st.bps == 0) st st1 _ (v, e) e v.configured
      (next_accum_lem (min f_max 256) st.alpha_accum (omega arith) v.accum)
      (adapted-Between _ (runs_random runs lost) _ _
        (max st.static_floor_bps (window_floor_bps global page_cnt)) st1 (omega arith)
        (omega (arith, v.low, v.high, window_floor_bps_lem global page_cnt pos)) v.low v.high
        v.configured
        (omega (arith, next_accum_lem (min f_max 256) st.alpha_accum (omega arith) v.accum)))
  where
    st1 : RateLimitState
    st1 = record st {
      alpha_accum = next_accum (min f_max 256) st.alpha_accum;
      alpha_scaled = next_accum (min f_max 256) st.alpha_accum / 16;
    }

-- The drop is at least 1, and at most half of the rate and one more.
drop_bounds :
    (bps alpha : ℕ)
    → 1 ≤ bps
    → bps < 2 ^ 48
    → 1 ≤ alpha
    → alpha ≤ 256
    → (1 ≤ u64 (bps * alpha + 511) / 512) × (u64 (bps * alpha + 511) / 512 ≤ bps / 2 + 1)
drop_bounds bps alpha h1 h2 h3 h4 =
    let most : bps * alpha ≤ bps * 256 = mul-le-mul (omega arith) h4 in
    let least : bps * 1 ≤ bps * alpha = mul-le-mul (omega arith) h3 in
    (omega (arith, most, least), omega (arith, most, least))

-- A loss that does not look random lowers a rate above its floor, and not below the floor.
pub adapt_rate_dctcp_lowers :
    (global page_cnt f_max observed runs lost : ℕ) (clean at_floor_timeout : Bool)
    (st : RateLimitState)
    → IsRate st
    → 0 < f_max
    → runs_random runs lost ≡ false
    → st.static_floor_bps < st.bps
    → window_floor_bps global page_cnt < st.bps
    → let st' =
        adapt_rate_dctcp global page_cnt f_max clean at_floor_timeout observed runs lost st in
      (st'.bps < st.bps) × (window_floor_bps global page_cnt ≤ st'.bps)
unfolding adapt_rate_dctcp lower
adapt_rate_dctcp_lowers global page_cnt f_max observed runs lost clean at_floor_timeout st v h
      random h1 h2 =
    let accum = next_accum_lem (min f_max 256) st.alpha_accum (omega arith) v.accum in
    let drop =
      drop_bounds st.bps (max (next_accum (min f_max 256) st.alpha_accum / 16) 1) (omega arith)
        (omega (arith, v.high, v.configured)) (omega arith) (omega (arith, accum)) in
    rw (ne→== st.bps 0 (omega arith), lt→ltb 0 (min f_max 256) (omega arith), random)
      (omega (arith, drop), omega (arith, drop))

-- Asking for the rate of a message keeps such a state, or makes one for a new global rate, which
-- the message is then sent with.
pub effective_rate_bps-IsRate :
    (global : ℕ) (st : RateLimitState)
    → 0 < global
    → global < 2 ^ 48
    → IsRate st
    → let r = effective_rate_bps 0 global st in
      IsRate r.1 × (r.1.initial_bps ≡ global) × (r.0 ≡ r.1.bps)
unfolding effective_rate_bps
effective_rate_bps-IsRate global st pos small v = elim (ℕ_discrete st.initial_bps global) [
  | yes same ↦
      let kept : (st.initial_bps /= global) ≡ false = ground arith in
      rw (ne→== global 0 (omega arith), kept) (v, same, refl)
  | no new ↦
      let seeds : (st.initial_bps /= global) ≡ true = ground arith in
      rw (ne→== global 0 (omega arith), seeds)
        (
          record { low = omega arith; high = omega arith; configured = small; accum = omega arith },
          refl,
          refl,
        )
]
