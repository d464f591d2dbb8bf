-- ===== src/WrTime.antt =====
-- xrmIocApp/src/acq400_asyn_common.cpp: White Rabbit timestamps. An `unsigned` is a number
-- below 2 ^ 32, and `x >> k`, `x & (2^k - 1)` are a quotient and a remainder.
pub mod Laws
pub mod Examples
use acq400_xrm.Prelude.{ℕ, ◌+◌, ◌*◌, ◌/◌, ◌%◌, ◌^◌, ◌==◌, if◌then◌else◌}

abbrev pub ticks_per_us : ℕ
ticks_per_us = 40

abbrev pub usps : ℕ
usps = 1_000_000

abbrev pub ns_per_tick : ℕ
ns_per_tick = 25

abbrev pub nsps : ℕ
nsps = 1_000_000_000

-- The three second bits of the vernier, and its 28 tick bits.
abbrev pub vernier_sec : ℕ → ℕ
vernier_sec wrv = wrv / 2 ^ 28 % 8

abbrev pub vernier_ticks : ℕ → ℕ
vernier_ticks wrv = wrv % 2 ^ 28

-- The choice of the full seconds, which both conversions make: `wrse`, the next second, or
-- the three bits alone.
unfoldable pub match_seconds : ℕ → ℕ → ℕ
match_seconds wrse wrv =
    let sec = vernier_sec wrv in
    let next = (wrse + 1) % 2 ^ 32 in
    if wrse % 8 == sec then wrse else if next % 8 == sec then next else sec

unfoldable pub get_wr_ts_us : ℕ → ℕ → ℕ
unfolding match_seconds
get_wr_ts_us wrse wrv =
    let usec = vernier_ticks wrv / ticks_per_us in match_seconds wrse wrv * usps + usec

-- The product of ticks and 25 is an `unsigned`.
unfoldable pub get_wr_ts_ns : ℕ → ℕ → ℕ
unfolding match_seconds
get_wr_ts_ns wrse wrv =
    let nsec = vernier_ticks wrv * ns_per_tick % 2 ^ 32 in match_seconds wrse wrv * nsps + nsec

unfoldable pub get_wr_ts : ℕ → ℕ → ℕ
unfolding get_wr_ts_us
get_wr_ts wrse wrv = get_wr_ts_us wrse wrv
