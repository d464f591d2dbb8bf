-- ===== src/Soe/Round.antt =====
-- acq400_SOE.cpp: one round of task() for a live buffer, and writeInt32(). What the clock, the
-- parameter library and the receiver give is an argument; the asyn calls succeed.
pub mod Task
pub mod Cleared
pub mod Examples
use acq400_xrm.Prelude.{
  ◌-◌, ℕ, zero, suc, ◌+◌, ◌*◌, ◌/◌, ◌%◌, ◌^◌, Bool, true, false, Option, none, some, List, [], ◌∷◌,
  ◌++◌, ◌>>=◌, ltb, ◌==◌, if◌then◌else◌, ◌&&◌, not, map,
}
use acq400_xrm.Prelude.Int.{ℤ, pos, negsuc, of_bits, to_bits, eqb_ℤ}
use acq400_xrm.Prelude.Memory.{Mem, WordMem}
use acq400_xrm.Structs.{Fmt, SoeLut, hold_data_off}
use acq400_xrm.SamplePrams.{SamplePrams}
use acq400_xrm.WrTime.{get_wr_ts}
use acq400_xrm.Driver.{
  Effect, Param, set_integer, call_param_callbacks, array_callbacks, signal_event, p_runstop,
  p_mon_rl, p_updates, p_soe_strategy, p_soe_lut_redit_commit, p_soe_kbuf_index, p_soe_kbuf_wrt0,
  p_soe_kbuf_wrt1, p_soe_fmt_rx_timeouts, p_soe_fmt_rx_timeout_reason, p_soe_fmt_rx_success,
  p_soe_fmt_delta_ts, p_soe_fmt_ev_matches, p_soe_fmt_ev_nib, p_soe_fmt_buf_pos,
  p_soe_fmt_next_retry, p_soe_lut_col_rownum, p_soe_lut_col_event, p_soe_lut_col_pad,
  p_soe_lut_col_pv_id, p_soe_lut_col_offset_us, p_soe_hld_col_rownum, p_soe_hld_col_evt,
  p_soe_hld_col_pv_id, p_soe_hld_col_offset_us, p_soe_hld_col_clidat, p_soe_hld_col_ts,
  p_soe_hld_col_ai1, p_soe_hld_col_ai2, p_soe_hld_col_di1, p_soe_hld_col_di2, p_soe_hld_col_sp0,
  p_soe_hld_col_sp1, p_soe_hld_col_sp2, p_soe_hld_col_sp3, p_soe_hld_col_wrvs, p_soe_hld_col_wrvt,
  p_soe_hld_col_wrus,
}
use acq400_xrm.Driver.RateLimit.{MonitorRateLimit, mrl_of, new_data}
use acq400_xrm.Soe.Strategy.{
  Kbuf, SoeDims, Rc, ErrCode, FmtNum, soe_success, e_timeout, e_fmt_ts_too_early_for_kb,
  e_fmt_ts_too_late_for_kb, e_fmt_no_events_found, e_fmt_undefined, fmt_pre, fmt_cur, fmt_wait, ssl,
}
use acq400_xrm.Soe.Cycle.{Attempt, strategy1, strategy2, null_strategy}
use acq400_xrm.Soe.Edit.{Columns, Redit, redit, update_soe_lut_columns}
use acq400_xrm.Soe.HoldColumns.{HoldRow, update_hld_tab_columns}

-- clearHold(): the headers and the delimiter become zeros.
unfoldable pub clear_hold : WordMem → WordMem
clear_hold ht j = if ltb j (hold_data_off / 4) then 0 else ht j

-- get_raw(), from the base of the buffer: behind SKIP_ES samples.
unfoldable pub get_raw : SamplePrams → WordMem → WordMem
get_raw p base j = base (ssl p + j)

-- NSAM - 1 - SKIP_ES, an unsigned.
unfoldable pub skips : SamplePrams → ℕ
skips p = (p.nsam + (2 ^ 32 - 2)) % 2 ^ 32

-- getWrTsFromRaw(sp_raw), at a word offset.
unfoldable pub get_wr_ts_from_raw : WordMem → ℕ → ℕ
get_wr_ts_from_raw raw at = get_wr_ts (raw (at + 3)) (raw (at + 2))

-- update_kbuf_info(raw)
unfoldable pub update_kbuf_info : SamplePrams → ℕ → WordMem → Kbuf
update_kbuf_info p ib raw = record {
  ib = ib;
  wrt0 = pos (get_wr_ts_from_raw raw p.sp_index);
  wrt1 = pos (get_wr_ts_from_raw raw (p.sp_index + ssl p * skips p % 2 ^ 32));
  raw = raw;
}

-- The strategies that factory() makes, in its order.
pub data SoeStrategy : Type 0 where
  lut_fmt_strategy1 lut_fmt_strategy2 : SoeStrategy
  null_strategy_of : ℕ → SoeStrategy

unfoldable pub factory : List SoeStrategy
factory =
    lut_fmt_strategy1
    ∷ lut_fmt_strategy2
    ∷ null_strategy_of 1
    ∷ null_strategy_of 2
    ∷ null_strategy_of 5
    ∷ null_strategy_of 10
    ∷ null_strategy_of 20
    ∷ []

-- The search of writeInt32() for the strategy of a number, from index `ii` on.
unfoldable pub find_strategy : ℤ → ℕ → List SoeStrategy → Option SoeStrategy
find_strategy value ii [] = none
find_strategy value ii (s ∷ ss) =
    let rest = find_strategy value (suc ii) ss in if eqb_ℤ value (pos ii) then some s else rest

-- What the receiver shows during a cycle.
pub record Views : Type 0 where
  pub in_time : Bool
  pub latest : Fmt
  pub before_latest : Fmt
  pub attempts : ℕ → Attempt

-- (*strategy)(soe, ht), where a cycle is CYCLE_MS long.
unfoldable pub run_strategy : ℕ → SoeStrategy → Views → SoeDims → WordMem → Option (WordMem × Rc)
run_strategy cycle_ms lut_fmt_strategy1 v soe ht = strategy1 cycle_ms v.in_time v.latest soe ht
run_strategy cycle_ms lut_fmt_strategy2 v soe ht =
    strategy2 cycle_ms v.latest v.before_latest v.attempts soe ht
run_strategy cycle_ms (null_strategy_of stride) v soe ht = some (null_strategy stride soe ht)

-- clearHold(), update_kbuf_info(get_raw()) and the strategy: the buffer, the table and the result.
unfoldable pub soe_cycle :
    ℕ
    → SoeStrategy
    → Views
    → SamplePrams
    → SoeLut
    → ℕ
    → WordMem
    → WordMem
    → Option (Kbuf × WordMem × Rc)
soe_cycle cycle_ms strategy v p lut ib base ht =
    let kbuf = update_kbuf_info p ib (get_raw p base) in
    let dims : SoeDims = record { kbuf = kbuf; sample_prams = p; lut = lut } in
    run_strategy cycle_ms strategy v dims (clear_hold ht) >>= λ r. some (kbuf, r.0, r.1)

-- The values of the enumerations.
unfoldable pub err_value : ErrCode → ℤ
err_value soe_success = pos 0
err_value e_timeout = negsuc 0
err_value e_fmt_ts_too_early_for_kb = negsuc 1
err_value e_fmt_ts_too_late_for_kb = negsuc 2
err_value e_fmt_no_events_found = negsuc 3
err_value e_fmt_undefined = negsuc 98

unfoldable pub fmt_num_value : FmtNum → ℤ
fmt_num_value fmt_pre = negsuc 0
fmt_num_value fmt_cur = pos 0
fmt_num_value fmt_wait = pos 1

-- The nine sip() calls of every cycle.
unfoldable pub report : Kbuf → Rc → List Effect
report k rc =
    set_integer 0 p_soe_kbuf_index (pos k.ib)
    ∷ set_integer 0 p_soe_kbuf_wrt0 k.wrt0
    ∷ set_integer 0 p_soe_kbuf_wrt1 k.wrt1
    ∷ set_integer 0 p_soe_fmt_rx_timeout_reason (err_value rc.status)
    ∷ set_integer 0 p_soe_fmt_delta_ts rc.delta_us
    ∷ set_integer 0 p_soe_fmt_ev_matches (of_bits 16 (rc.events_accepted % 2 ^ 16))
    ∷ set_integer 0 p_soe_fmt_ev_nib (of_bits 16 (rc.events_not_in_buffer % 2 ^ 16))
    ∷ set_integer 0 p_soe_fmt_buf_pos (fmt_num_value rc.fmt_num)
    ∷ set_integer 0 p_soe_fmt_next_retry (pos rc.next_retry)
    ∷ []

-- update_soe_lut_callbacks(), with the counter after its increment.
unfoldable pub update_soe_lut_callbacks : ℕ → Bool → List Effect
update_soe_lut_callbacks update call_array_callbacks =
    set_integer 0 p_updates (of_bits 32 update)
    ∷ call_param_callbacks
    ∷ (if call_array_callbacks
        then map (array_callbacks 0) (
            p_soe_lut_col_rownum ∷ p_soe_lut_col_event ∷ p_soe_lut_col_pad ∷ p_soe_lut_col_pv_id
            ∷ p_soe_lut_col_offset_us ∷ [])
        else [])

-- The parameters of update_hld_tab_columns_callbacks(), in order.
abbrev pub hld_columns : List Param
hld_columns =
    p_soe_hld_col_rownum ∷ p_soe_hld_col_evt ∷ p_soe_hld_col_pv_id ∷ p_soe_hld_col_offset_us
    ∷ p_soe_hld_col_clidat ∷ p_soe_hld_col_ts ∷ p_soe_hld_col_ai1 ∷ p_soe_hld_col_ai2
    ∷ p_soe_hld_col_di1 ∷ p_soe_hld_col_di2 ∷ p_soe_hld_col_sp0 ∷ p_soe_hld_col_sp1
    ∷ p_soe_hld_col_sp2 ∷ p_soe_hld_col_sp3 ∷ p_soe_hld_col_wrvs ∷ p_soe_hld_col_wrvt
    ∷ p_soe_hld_col_wrus ∷ []

-- What the driver tells the outside: calls of the asyn library, the first words of the hold
-- table as a waveform, and so many rows of each hold column.
pub data SoeEffect : Type 0 where
  asyn : Effect → SoeEffect
  hold_table_callbacks : ℕ → SoeEffect
  hold_column_callbacks : List Param → ℕ → SoeEffect
