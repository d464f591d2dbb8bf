-- ===== src/WrTime/Laws.antt =====
-- What the timestamps of acq400_asyn_common.cpp are worth.
use acq400_xrm.Prelude.{ℕ, ◌+◌, ◌*◌, ◌/◌, ◌%◌, ◌^◌, ◌<◌, ◌≡◌, ◌≢◌, ◌⊎◌, arith}
use acq400_xrm.WrTime.{get_wr_ts, get_wr_ts_us, get_wr_ts_ns, vernier_ticks}

-- The hardware stamps a sample at second `s`, tick `k`, with the three low bits of `s` over
-- the ticks; software has read the seconds register either in that second or one second
-- early. The timestamp is then the true time in microseconds.
pub get_wr_ts_true_time :
    (s k wrse : ℕ)
    → s < 2 ^ 32
    → k < 2 ^ 28
    → (wrse ≡ s) ⊎ (wrse + 1 ≡ s)
    → get_wr_ts wrse (s % 8 * 2 ^ 28 + k) ≡ s * 1_000_000 + k / 40
unfolding get_wr_ts
get_wr_ts_true_time s k wrse hs hk h = ground arith

-- When the register agrees with the vernier in neither way, the timestamp falls within the
-- first fifteen seconds of the epoch, so it cannot pass for a present time.
pub get_wr_ts_mismatch :
    (wrse wrv : ℕ)
    → wrse < 2 ^ 32
    → wrse % 8 ≢ wrv / 2 ^ 28 % 8
    → (wrse + 1) % 8 ≢ wrv / 2 ^ 28 % 8
    → get_wr_ts wrse wrv < 15_000_000
unfolding get_wr_ts
get_wr_ts_mismatch wrse wrv h p q = ground arith

-- The two conversions agree: a nanosecond timestamp, cut to microseconds, is the
-- microsecond one, as long as the vernier counts ticks of one second at 40 MHz.
pub get_wr_ts_ns-us :
    (wrse wrv : ℕ)
    → vernier_ticks wrv < 40_000_000
    → get_wr_ts_ns wrse wrv / 1000 ≡ get_wr_ts_us wrse wrv
unfolding get_wr_ts_ns get_wr_ts_us
get_wr_ts_ns-us wrse wrv h = ground arith
