-- ===== src/Receiver/Task.antt =====
-- acq400_FMT_rx::task(): a round of its loop.
use acq400_xrm.Prelude.{ℕ, ◌+◌, ◌%◌, ◌^◌, Option, some, List, [], ◌∷◌, ◌++◌, ◌>>=◌, if◌then◌else◌}
use acq400_xrm.Prelude.Int.{ℤ, pos, of_bits, eqb_ℤ}
use acq400_xrm.Structs.{Fmt}
use acq400_xrm.Driver.{Effect, set_integer, call_param_callbacks, p_null_fmt_count}
use acq400_xrm.Driver.RateLimit.{MonitorRateLimit, mrl_of, new_data}
use acq400_xrm.FmtBase.{Columns, update_fmt_columns, update_fmt_callbacks}
use acq400_xrm.Receiver.{FmtRx, receive, update_fmt, process_fmt}

-- The receiver with the members of its base class and the rate limit of task(). The receiver
-- never writes now_us.
pub record RxTask : Type 0 where
  pub rx : FmtRx
  pub cols : Columns
  pub update_count : ℕ
  pub now_us : ℤ
  pub rate_limit : MonitorRateLimit

-- What a round gets: RUNSTOP, the datagram that arrives if it waits for one, and the time.
pub record Round : Type 0 where
  pub runstop : ℤ
  pub datagram : Fmt
  pub now : ℕ

-- The round where the driver runs.
unfoldable pub running_round : Round → RxTask → Option (RxTask × List Effect)
running_round a s = do
  r ← receive a.datagram s.rx.cache
  rate ← new_data a.now (mrl_of s.rx.mrl_param) s.rate_limit
  let fmt = (r.0).fmt_cache (r.1)
  let updated = update_fmt fmt (record (s.rx) { cache = r.0 })
  let count = (s.update_count + 1) % 2 ^ 32
  some (
    record s {
      rx = updated;
      rate_limit = rate;
      cols = if rate.go_ahead then update_fmt_columns fmt else s.cols;
      update_count = count;
    },
    process_fmt updated fmt
        ++ set_integer 0 p_null_fmt_count (of_bits 32 updated.null_fmt_count)
          ∷ update_fmt_callbacks count s.now_us rate.go_ahead,
  )

unfoldable pub task_round : Round → RxTask → Option (RxTask × List Effect)
task_round a s =
    let idle =
      set_integer 0 p_null_fmt_count (of_bits 32 s.rx.null_fmt_count) ∷ call_param_callbacks ∷ [] in
    if eqb_ℤ a.runstop (pos 1) then running_round a s else some (s, idle)

unfoldable pub task_rounds : List Round → RxTask → Option (RxTask × List Effect)
task_rounds [] s = some (s, [])
task_rounds (a ∷ later) s = do
  r ← task_round a s
  t ← task_rounds later (r.0)
  some (t.0, r.1 ++ t.1)
