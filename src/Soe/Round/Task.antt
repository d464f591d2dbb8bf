-- ===== src/Soe/Round/Task.antt =====
-- acq400_SOE::task(), a round of its loop, and writeInt32().
use acq400_xrm.Prelude.{
  ℕ, ◌+◌, ◌%◌, ◌^◌, Option, none, some, List, [], ◌∷◌, ◌++◌, ◌>>=◌, ◌==◌, if◌then◌else◌, map,
}
use acq400_xrm.Prelude.Int.{ℤ, pos, of_bits, eqb_ℤ}
use acq400_xrm.Prelude.Memory.{Mem, WordMem}
use acq400_xrm.Structs.{SoeLut}
use acq400_xrm.SamplePrams.{SamplePrams}
use acq400_xrm.Driver.{
  Effect, Param, set_integer, call_param_callbacks, signal_event, p_runstop, p_mon_rl,
  p_soe_strategy, p_soe_lut_redit_commit, p_soe_fmt_rx_timeouts, p_soe_fmt_rx_timeout_reason,
  p_soe_fmt_rx_success,
}
use acq400_xrm.Driver.RateLimit.{MonitorRateLimit, mrl_of, new_data}
use acq400_xrm.Soe.Strategy.{Rc, soe_success}
use acq400_xrm.Soe.Edit.{Columns, Redit, redit, update_soe_lut_columns}
use acq400_xrm.Soe.HoldColumns.{HoldRow, update_hld_tab_columns}
use acq400_xrm.Soe.Round.{
  SoeStrategy, Views, soe_cycle, report, update_soe_lut_callbacks, hld_columns, err_value, factory,
  find_strategy, SoeEffect, asyn, hold_table_callbacks, hold_column_callbacks,
}

-- The members of acq400_SOE that the task and the handlers change, the rate limit of task() and
-- the counter SP1_SIM.
pub record Soe (F : Type 0) : Type 0 where
  pub soe_lut : SoeLut
  pub the_hold_table : WordMem
  pub strategy : SoeStrategy
  pub sample_prams : SamplePrams
  pub cols : Columns
  pub hold_cols : Mem (HoldRow F)
  pub hold_row_limit : ℕ
  pub fmt_rx_timeouts : ℕ
  pub fmt_rx_success : ℕ
  pub update_count : ℕ
  pub rate_limit : MonitorRateLimit
  pub mrl_param : ℤ
  pub sp1_sim : ℕ

-- What a round gets: the live buffer and its base, RUNSTOP, the time, and the receiver's tables.
pub record Arrival : Type 0 where
  pub ib : ℕ
  pub base : WordMem
  pub runstop : ℤ
  pub now : ℕ
  pub views : Views

module _ {F : Type 0} (volts : ℤ → F) (cycle_ms : ℕ) where
  -- The branch of a cycle whose status is not success.
  unfoldable pub on_failure : Rc → Soe F → Soe F × List SoeEffect
  on_failure rc s =
      let timeouts = (s.fmt_rx_timeouts + 1) % 2 ^ 32 in
      let update = (s.update_count + 1) % 2 ^ 32 in
      (
        record s { fmt_rx_timeouts = timeouts; update_count = update },
        map asyn (
            set_integer 0 p_soe_fmt_rx_timeouts (of_bits 32 timeouts)
            ∷ set_integer 0 p_soe_fmt_rx_timeout_reason (err_value rc.status)
            ∷ call_param_callbacks
            ∷ update_soe_lut_callbacks update s.rate_limit.go_ahead),
      )

  -- The other branch: the hold table goes out if it has an event, and its columns if the update
  -- goes ahead.
  unfoldable pub on_success : Rc → Soe F → Soe F × List SoeEffect
  on_success rc s =
      let success = (s.fmt_rx_success + 1) % 2 ^ 32 in
      let update = (s.update_count + 1) % 2 ^ 32 in
      let counted : Soe F = record s { fmt_rx_success = success; update_count = update } in
      let told =
        asyn (set_integer 0 p_soe_fmt_rx_success (of_bits 32 success))
          ∷ asyn call_param_callbacks
          ∷ (if rc.events_accepted == 0 then [] else hold_table_callbacks rc.ht_size32 ∷ [])
        ++ map asyn (update_soe_lut_callbacks update s.rate_limit.go_ahead) in
      let shown =
        update_hld_tab_columns volts s.sample_prams s.the_hold_table s.sp1_sim s.hold_cols in
      if s.rate_limit.go_ahead
      then (
        record counted { hold_cols = shown.0; hold_row_limit = shown.1; sp1_sim = shown.2 },
        told ++ hold_column_callbacks hld_columns (shown.1) ∷ [],
      )
      else (counted, told)

  -- The body of `if (runstop == 1)`.
  unfoldable pub running_round : Arrival → Soe F → Option (Soe F × List SoeEffect)
  running_round a s = do
    c ← soe_cycle cycle_ms s.strategy a.views s.sample_prams s.soe_lut a.ib a.base s.the_hold_table
    let rc : Rc = c.2
    let cycled : Soe F = record s { the_hold_table = c.1 }
    let done : Soe F × List SoeEffect = (elim rc.status [
      | soe_success ↦ on_success rc cycled
      | _ ↦ on_failure rc cycled
    ])
    let after : Soe F = done.0
    let shown : Soe F =
        (if s.rate_limit.go_ahead
          then record after { cols = update_soe_lut_columns after.soe_lut }
          else after)
    some (shown, map asyn (report (c.0) rc) ++ done.1)

  unfoldable pub task_round : Arrival → Soe F → Option (Soe F × List SoeEffect)
  task_round a s = do
    rate ← new_data a.now (mrl_of s.mrl_param) s.rate_limit
    let limited : Soe F = record s { rate_limit = rate }
    if eqb_ℤ a.runstop (pos 1) then running_round a limited else some (limited, [])

  -- writeInt32(): `prams` is what get_sample_dimensions() waits for, and `asked` what redit()
  -- reads. `none` is an edit outside the table. The status that the search for a strategy sets is
  -- overwritten by that of callParamCallbacks().
  unfoldable pub write_int32 :
      SamplePrams → Redit → Param → ℤ → Soe F → Option (Soe F × List Effect)
  write_int32 prams asked p_runstop value s =
      let set = set_integer 0 p_runstop value in
      if eqb_ℤ value (pos 1)
      then some (record s { sample_prams = prams }, set ∷ signal_event ∷ call_param_callbacks ∷ [])
      else some (s, set ∷ call_param_callbacks ∷ [])
  write_int32 prams asked p_soe_lut_redit_commit value s = redit asked s.soe_lut >>= λ lut. some (
    record s { soe_lut = lut },
    set_integer 0 p_soe_lut_redit_commit value ∷ call_param_callbacks ∷ [],
  )
  write_int32 prams asked p_soe_strategy value s =
      let told = set_integer 0 p_soe_strategy value ∷ call_param_callbacks ∷ [] in
      elim (find_strategy value 0 factory) [
        | none ↦ some (s, told)
        | some strategy ↦ some (record s { strategy = strategy }, told)
      ]
  write_int32 prams asked p_mon_rl value s =
      some
        (record s { mrl_param = value }, set_integer 0 p_mon_rl value ∷ call_param_callbacks ∷ [])
  write_int32 prams asked p value s = some (s, set_integer 0 p value ∷ call_param_callbacks ∷ [])
