-- ===== src/Driver.antt =====
-- xrmIocApp/src/acq400_asynPortDriver.{h,cpp}: what all port drivers share. The asyn library
-- that the base class stands on is not part of the repository: what it returns is an argument,
-- and what it is told is a list of effects, in order.
pub mod RateLimit
pub mod Edit
pub mod Access
use acq400_xrm.Prelude.{ℕ, Bool, true, false, List, Option, none, some, if◌then◌else◌}
use acq400_xrm.Prelude.Int.{ℤ}
use acq400_xrm.Prelude.Text.{Text}

pub data Status : Type 0 where
  asyn_success asyn_error : Status
  asyn_other : ℕ → Status

abbrev pub is_success : Status → Bool
is_success asyn_success = true
is_success asyn_error = false
is_success (asyn_other n) = false

-- The parameters that the modelled drivers create, by name.
pub data Param : Type 0 where
  p_runstop p_mon_rl p_updates : Param
  p_fmt_pm_trg_evt p_fmt_pm_trg_evt_action p_null_fmt_count : Param
  p_prmt_lut_event p_prmt_lut_soft_event p_prmt_lut_last_event : Param
  p_prmt_lut_th_ai p_prmt_lut_th_di : Param
  p_permit_lock p_permit_commit p_permit_trg_stat p_permit_trg_live : Param
  p_permit_di_ch_active p_permit_di_ch_value p_permit_atd_mode : Param
  p_smpl_ai_count p_smpl_di_index p_smpl_di_count p_smpl_sp_index p_smpl_sp_count : Param
  p_pm_col_rownum p_pm_col_iblive p_pm_col_ibstore p_pm_col_ts : Param
  p_pm_col_sp0 p_pm_col_sp1 p_pm_col_sp2 p_pm_col_sp3 : Param
  p_pm_col_wrvs p_pm_col_wrvt p_pm_col_wrus : Param
  p_soe_strategy p_soe_lut_redit_commit p_soe_kbuf_index p_soe_kbuf_wrt0 p_soe_kbuf_wrt1 : Param
  p_soe_fmt_rx_timeouts p_soe_fmt_rx_timeout_reason p_soe_fmt_rx_success : Param
  p_soe_fmt_delta_ts p_soe_fmt_ev_matches p_soe_fmt_ev_nib p_soe_fmt_buf_pos : Param
  p_soe_fmt_next_retry : Param
  p_soe_lut_col_rownum p_soe_lut_col_event p_soe_lut_col_pad p_soe_lut_col_pv_id : Param
  p_soe_lut_col_offset_us : Param
  p_soe_hld_col_rownum p_soe_hld_col_evt p_soe_hld_col_pv_id p_soe_hld_col_offset_us : Param
  p_soe_hld_col_clidat p_soe_hld_col_ts p_soe_hld_col_ai1 p_soe_hld_col_ai2 : Param
  p_soe_hld_col_di1 p_soe_hld_col_di2 p_soe_hld_col_sp0 p_soe_hld_col_sp1 : Param
  p_soe_hld_col_sp2 p_soe_hld_col_sp3 p_soe_hld_col_wrvs p_soe_hld_col_wrvt : Param
  p_soe_hld_col_wrus : Param
  p_fmt_redit_commit p_fmt_delay p_fmt_col_rownum p_fmt_col_event p_fmt_col_pad : Param
  p_fmt_col_client_data p_fmt_col_timestamp p_ts_usec : Param
  p_redis_bcount : Param
  p_prmt_col p_other : ℕ → Param

-- What a driver tells the asyn and EPICS libraries: an integer for a parameter at an address,
-- and calls without a value.
pub data Effect : Type 0 where
  set_integer : ℕ → Param → ℤ → Effect
  call_param_callbacks : Effect
  array_callbacks : ℕ → Param → Effect
  signal_event : Effect
  signal_rx_event : Effect

-- `none` is a failed `assert`: the server stops.
abbrev pub Checked : Type 0 → Type 0
Checked A = Option A

-- gip(): the value that the parameter library holds, or a failed assert on a status that is
-- not success.
unfoldable pub gip : Status → ℤ → Checked ℤ
gip status pram = if is_success status then some pram else none

-- sip(): likewise, with the write as an effect.
unfoldable pub sip : Status → ℕ → Param → ℤ → Checked Effect
sip status addr pnum pram = if is_success status then some (set_integer addr pnum pram) else none

-- gsp(): what getStringParam() gives for a size; the size asked for is always 80.
unfoldable pub gsp : (ℕ → Status × Text) → ℕ → Checked Text
gsp get_string_param maxchar =
    let r = get_string_param 80 in if is_success (r.0) then some (r.1) else none
