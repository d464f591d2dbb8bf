-- ===== src/FmtSim.antt =====
-- xrmIocApp/src/acq400_FMT_sim.cpp: the simulator that sends event tables
-- by multicast. What the clock, the registers and the parameter library give is an argument; the
-- asyn calls succeed.
pub mod Stamps
pub mod Examples
use acq400_xrm.Prelude.{
  ℕ, zero, suc, ◌+◌, ◌*◌, ◌/◌, ◌%◌, ◌^◌, Bool, true, false, Option, none, some, List, [], ◌∷◌, ◌++◌,
  ◌>>=◌, ◌==◌, if◌then◌else◌, map, set, get_elem?,
}
use acq400_xrm.Prelude.Int.{ℤ, pos, negsuc, ◌+ℤ◌, ◌*ℤ◌, of_bits, to_bits, s32, s64, eqb_ℤ}
use acq400_xrm.Structs.{Fmt, FmtRow}
use acq400_xrm.WrTime.{vernier_ticks, ticks_per_us, usps}
use acq400_xrm.Driver.{
  Effect, Param, set_integer, call_param_callbacks, array_callbacks, signal_event, p_runstop,
  p_mon_rl, p_updates, p_ts_usec, p_fmt_redit_commit, p_fmt_delay, p_fmt_col_rownum,
  p_fmt_col_event, p_fmt_col_pad, p_fmt_col_client_data, p_fmt_col_timestamp,
}
use acq400_xrm.FmtBase.{Columns, update_fmt_columns, update_fmt_callbacks}
use acq400_xrm.Driver.Edit.{edit_rows}
use acq400_xrm.Driver.RateLimit.{MonitorRateLimit, mrl_of, new_data}

-- What one call of TimeProviderWrts::_time_now() reads: the vernier register, and the seconds.
pub record WrReading : Type 0 where
  pub wr_ts : ℕ
  pub seconds : ℕ

-- _time_now(), where the reads succeed: a mismatch of the seconds is reported only.
unfoldable pub time_of : WrReading → ℕ
time_of r = r.seconds * usps + vernier_ticks r.wr_ts / ticks_per_us

-- time_now(): the first reading that is not 0, of those that come; `none` waits for more.
unfoldable pub time_now : List WrReading → Option ℕ
time_now [] = none
time_now (r ∷ rs) = let rest = time_now rs in if time_of r == 0 then rest else some (time_of r)

-- TimeProviderLocaltime::_time_now(), from seconds and nanoseconds, in 64 bits.
unfoldable pub local_time : ℤ → ℕ → ℤ
local_time tv_sec tv_nsec = s64 (s64 (tv_sec *ℤ pos 1_000_000) +ℤ pos (tv_nsec / 1000))

-- The rows of a first update, from row `row` on.
unfoldable pub first_rows : ℕ → Fmt → Fmt
first_rows row [] = []
first_rows row (r ∷ rs) =
    record r { event = 256 + row; client_data = row } ∷ first_rows (row + 1) rs

-- fmt[row].timestamp = now_us + row*10
unfoldable pub stamp_rows : ℤ → ℕ → Fmt → Fmt
stamp_rows now_us row [] = []
stamp_rows now_us row (r ∷ rs) =
    record r { timestamp = s64 (now_us +ℤ pos (row * 10)) } ∷ stamp_rows now_us (row + 1) rs

-- fmt[0].pad and fmt[1].pad: the halves of the counter.
unfoldable pub count_pads : ℕ → Fmt → Fmt
count_pads update [] = []
count_pads update (r ∷ []) = record r { pad = update / 2 ^ 16 % 2 ^ 16 } ∷ []
count_pads update (r ∷ r' ∷ rs) =
    record r { pad = update / 2 ^ 16 % 2 ^ 16 } ∷ record r' { pad = update % 2 ^ 16 } ∷ rs

-- The members, and the variables of task(); the counter is an int, as its bits.
pub record FmtSim : Type 0 where
  pub fmt : Fmt
  pub cols : Columns
  pub update_count : ℕ
  pub now_us : ℤ
  pub delay_ms : ℤ
  pub rate_limit : MonitorRateLimit
  pub mrl_param : ℤ
  pub runstop0 : ℤ

-- update_fmt(fmt, first_time), where time_now() gives `tc`.
unfoldable pub update_fmt : Bool → ℤ → FmtSim → FmtSim
update_fmt first_time tc s = record s {
  fmt =
      if first_time
      then first_rows 0 s.fmt
      else count_pads s.update_count (stamp_rows s.now_us 0 s.fmt);
  now_us = tc;
}

-- What the task tells the outside: a pause, a table that is sent, and calls of the asyn library.
pub data SimEffect : Type 0 where
  usleep : ℕ → SimEffect
  sendto : Fmt → SimEffect
  asyn : Effect → SimEffect

-- usleep(delay_ms*1000), if there is a delay.
unfoldable pub delay : ℤ → List SimEffect
delay delay_ms =
    if eqb_ℤ delay_ms (pos 0) then [] else usleep (to_bits 32 (delay_ms *ℤ pos 1000)) ∷ []

-- A round that is not the first of a run.
unfoldable pub send_round : ℤ → ℕ → FmtSim → Option (FmtSim × List SimEffect)
send_round tc now s =
    let updated = update_fmt false tc s in
    let count = (s.update_count + 1) % 2 ^ 32 in
    new_data now (mrl_of s.mrl_param) s.rate_limit >>= λ rate. some (
      record updated {
        cols = if rate.go_ahead then update_fmt_columns updated.fmt else s.cols;
        rate_limit = rate;
        update_count = count;
      },
      delay s.delay_ms
          ++ sendto updated.fmt ∷ map asyn (update_fmt_callbacks count tc rate.go_ahead),
    )

-- task(), a round of its loop: `tc` is what time_now() gives, and `now` the clock of the limit.
unfoldable pub task_round : ℤ → ℤ → ℕ → FmtSim → Option (FmtSim × List SimEffect)
task_round runstop tc now s =
    let before : FmtSim = record s { runstop0 = runstop } in
    if eqb_ℤ runstop (pos 1)
    then (if eqb_ℤ s.runstop0 (pos 0)
        then some (update_fmt true tc before, [])
        else send_round tc now before)
    else some (before, usleep 50_000 ∷ [])

-- The six parameters that redit() reads.
pub record Redit : Type 0 where
  pub row : ℤ
  pub row_count : ℤ
  pub event : ℤ
  pub event_step : ℤ
  pub clidat : ℤ
  pub clidat_step : ℤ

-- this_row after round `rn`.
unfoldable pub edited_row : Redit → ℕ → FmtRow → FmtRow
edited_row q rn r = record r {
  event = to_bits 16 (s32 (q.event +ℤ (pos rn *ℤ q.event_step)));
  client_data = to_bits 32 (s32 (q.clidat +ℤ (pos rn *ℤ q.clidat_step)));
  timestamp = pos 0;
}

-- redit(), where the parameters can be read; `none` is a row outside the table.
unfoldable pub redit : Redit → Fmt → Option Fmt
redit q fmt = elim q.row_count [
  | pos n ↦ edit_rows q.row (edited_row q) n 0 fmt
  | negsuc n ↦ some fmt
]

-- writeInt32(): the simulator, and what it tells the libraries, in order.
unfoldable pub write_int32 : Redit → Param → ℤ → FmtSim → Option (FmtSim × List Effect)
write_int32 asked p_runstop value s = some (
  s,
  set_integer 0 p_runstop value ∷ (if to_bits 32 value == 0 then [] else signal_event ∷ [])
      ++ call_param_callbacks ∷ [],
)
write_int32 asked p_fmt_redit_commit value s = redit asked s.fmt >>= λ fmt.
    some
      (record s { fmt = fmt }, set_integer 0 p_fmt_redit_commit value ∷ call_param_callbacks ∷ [])
write_int32 asked p_mon_rl value s =
    some (record s { mrl_param = value }, set_integer 0 p_mon_rl value ∷ call_param_callbacks ∷ [])
write_int32 asked p_fmt_delay value s =
    some
      (record s { delay_ms = value }, set_integer 0 p_fmt_delay value ∷ call_param_callbacks ∷ [])
write_int32 asked p value s = some (s, set_integer 0 p value ∷ call_param_callbacks ∷ [])
