-- ===== src/PostMortem/Task.antt =====
-- acq400_PM::task(): one round of its loop for each live buffer, and writeInt32().
use acq400_xrm.Prelude.{
  ℕ, zero, suc, ◌+◌, ◌%◌, ◌^◌, Bool, Option, none, some, List, [], ◌∷◌, ◌++◌, ◌>>=◌, ◌==◌,
  if◌then◌else◌, ◌&&◌, ◌||◌, not, map,
}
use acq400_xrm.Prelude.Int.{ℤ, pos, of_bits, to_bits, pos_part, neg_part, eqb_ℤ}
use acq400_xrm.Driver.{
  Effect, Param, set_integer, call_param_callbacks, signal_event, p_runstop, p_mon_rl,
}
use acq400_xrm.Driver.RateLimit.{MonitorRateLimit, init_rate_limit, mrl_of, new_data}
use acq400_xrm.PostMortem.{
  Store, BufferPair, PmCols, PmEffect, rawbuf_callbacks, asyn, Setup, init_buffers, stash_buffer,
  show_rows, update_pm_callbacks,
}

-- The members, and the variables of task(); an int that counts is its bit pattern.
pub record Pm : Type 0 where
  pub store : Store
  pub pm_cols : PmCols
  pub rate_limit : MonitorRateLimit
  pub update_count : ℕ
  pub buffer_count : ℕ
  pub runstop0 : ℤ
  pub mrl_param : ℤ

-- What a round of the loop gets: the live buffer, RUNSTOP, and the time.
pub record Arrival : Type 0 where
  pub ib : ℤ
  pub runstop : ℤ
  pub now : ℕ

-- The start of task(), at time `now`.
unfoldable pub start : PmCols → ℤ → ℕ → Pm
start cols mrl now = record {
  store = record { empties = []; filled = [] };
  pm_cols = cols;
  rate_limit = init_rate_limit now;
  update_count = 0;
  buffer_count = 0;
  runstop0 = pos 0;
  mrl_param = mrl;
}

-- From stash_buffer() to update_pm_callbacks().
unfoldable pub stash_and_show : Setup → ℤ → Pm → Option (Pm × List PmEffect)
stash_and_show e ib s = do
  r ← stash_buffer e.sample_prams ib s.store
  cols ← show_rows e s.rate_limit.go_ahead (r.0).filled 0 s.pm_cols
  let update = (s.update_count + 1) % 2 ^ 32
  some (
    record s { store = r.0; pm_cols = cols; update_count = update },
    r.1 ∷ map asyn (update_pm_callbacks update s.rate_limit.go_ahead),
  )

-- doCallbacksInt32Array(bp, BURST_LW, P_RAWBUF, baddr++) for each filled buffer.
unfoldable pub raw_callbacks : List BufferPair → ℕ → List PmEffect
raw_callbacks [] baddr = []
raw_callbacks (b ∷ bs) baddr = rawbuf_callbacks b.ib_store baddr ∷ raw_callbacks bs (suc baddr)

-- buffer_count % buffer_throttle_modulo != 0; `none` is a division by zero.
unfoldable pub is_throttled : ℕ → ℕ → Option Bool
is_throttled count zero = none
is_throttled count (suc m) =
    let n = of_bits 32 count in some (not ((pos_part n + neg_part n) % suc m == 0))

-- The rounds that find the driver running now or before. A throttled one goes on to the next
-- round at once.
unfoldable pub running_round : Setup → Arrival → Pm → Option (Pm × List PmEffect)
running_round e a s = do
  store ← if eqb_ℤ s.runstop0 (pos 0) then init_buffers e.nbuf else some s.store
  skip ← is_throttled s.buffer_count e.buffer_throttle_modulo
  let next = record s {
    store = store;
    buffer_count = (s.buffer_count + 1) % 2 ^ 32;
    runstop0 = a.runstop;
  }
  let shown = stash_and_show e a.ib next >>= λ r. some (
    r.0,
    r.1
        ++ (if eqb_ℤ a.runstop (pos 0) && eqb_ℤ s.runstop0 (pos 1)
            then raw_callbacks (r.0).store.filled 0
            else []),
  )
  if skip then some (next, []) else shown

unfoldable pub task_round : Setup → Arrival → Pm → Option (Pm × List PmEffect)
task_round e a s = do
  rate ← new_data a.now (mrl_of s.mrl_param) s.rate_limit
  let limited : Pm = record s { rate_limit = rate }
  if eqb_ℤ a.runstop (pos 1) || eqb_ℤ s.runstop0 (pos 1)
      then running_round e a limited
      else some (record limited { runstop0 = a.runstop }, [])

-- The loop over the buffers that arrive until getBufferId() fails.
unfoldable pub task_rounds : Setup → List Arrival → Pm → Option (Pm × List PmEffect)
task_rounds e [] s = some (s, [])
task_rounds e (a ∷ later) s = do
  r ← task_round e a s
  t ← task_rounds e later (r.0)
  some (t.0, r.1 ++ t.1)

-- writeInt32() at an address: the driver, and what it tells the libraries, in order.
unfoldable pub write_int32 : ℕ → Param → ℤ → Pm → Pm × List Effect
write_int32 addr p_runstop value s = (
  s,
  set_integer addr p_runstop value ∷ (if to_bits 32 value == 0 then [] else signal_event ∷ [])
      ++ call_param_callbacks ∷ [],
)
write_int32 addr p_mon_rl value s =
    (record s { mrl_param = value }, set_integer addr p_mon_rl value ∷ call_param_callbacks ∷ [])
write_int32 addr p value s = (s, set_integer addr p value ∷ call_param_callbacks ∷ [])
