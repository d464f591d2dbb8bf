-- ===== src/WrTime/Examples.antt =====
-- Timestamps of acq400_asyn_common.cpp at concrete register values.
use acq400_xrm.Prelude.{◌+◌, ◌*◌, ◌/◌, ◌%◌, ◌^◌, ◌<◌, ◌≡◌, refl, inr, arith}
use acq400_xrm.WrTime.{get_wr_ts, get_wr_ts_us, get_wr_ts_ns}
use acq400_xrm.WrTime.Laws.{get_wr_ts_true_time, get_wr_ts_mismatch, get_wr_ts_ns-us}

next_second : get_wr_ts 15 (0 + 400) ≡ 16_000_010
unfolding get_wr_ts
next_second = refl

get_wr_ts_true_time_example : get_wr_ts 15 (16 % 8 * 2 ^ 28 + 400) ≡ 16 * 1_000_000 + 400 / 40
get_wr_ts_true_time_example =
    get_wr_ts_true_time 16 400 15 (omega arith) (omega arith) (inr (omega arith))

get_wr_ts_mismatch_example : get_wr_ts 1000 (5 * 2 ^ 28) < 15_000_000
get_wr_ts_mismatch_example =
    get_wr_ts_mismatch 1000 (5 * 2 ^ 28) (omega arith) (omega arith) (omega arith)

ns_and_us_agree : get_wr_ts_ns 1000 39_999_999 / 1000 ≡ get_wr_ts_us 1000 39_999_999
ns_and_us_agree = get_wr_ts_ns-us 1000 39_999_999 (omega arith)
