-- ===== src/Soe/Round/Examples.antt =====
-- A round of acq400_SOE.cpp on a buffer of eleven samples, an edit of its lookup table, and the
-- columns of its hold table.
use mathlib.Core.Path.{subst}
use acq400_xrm.Prelude.Returns.{Returns}
use acq400_xrm.Soe.Retry.{IsFrom, ShownIn, strategy2-IsFrom}
use acq400_xrm.Prelude.{
  sym, inl, inr, ℕ, ◌+◌, ◌*◌, ◌≡◌, refl, true, some, [], length, ◌==◌, if◌then◌else◌, arith,
}
use acq400_xrm.Prelude.Int.{ℤ, pos, negsuc, ◌+ℤ◌, ◌-ℤ◌, ◌*ℤ◌, ◌/ℤ◌, s32, s64}
use acq400_xrm.Prelude.Memory.{Mem, WordMem, read_words}
use acq400_xrm.Structs.{Fmt, SoeLut}
use acq400_xrm.WrTime.{get_wr_ts, get_wr_ts_us, match_seconds}
use acq400_xrm.Driver.Edit.{AreEdited}
use acq400_xrm.Soe.Strategy.{Rc, ssl, soe_success, find_event_in_buf}
use acq400_xrm.Soe.Cycle.{Attempt, first_row, has_event, strategy2, timestamp_in_buf, dead_band_us}
use acq400_xrm.Soe.Selection.{before_ev99, rows_for, index_of, hits, all_hits}
use acq400_xrm.Soe.Lookup.{cycle_hits, IsReady, IsCycle, soe_lut_lookup-IsCycle}
use acq400_xrm.Soe.Edit.{row_in_steps, Redit, redit, first_lut, redit-AreEdited}
use acq400_xrm.Soe.HoldColumns.{
  HoldRow, rows_wanted, update_hld_tab_columns, update_hld_tab_columns-IsTable,
}
use acq400_xrm.Soe.Examples.{
  prams, kbuf, dims, latest, blank, start, found, found-AllFit, two_hits, ready,
}
use acq400_xrm.Soe.Round.{Views, soe_cycle, lut_fmt_strategy1}
use acq400_xrm.Soe.Round.Cleared.{described, soe_cycle-IsCycle}

abbrev asked : Redit
asked = record {
  row = pos 1;
  row_count = pos 2;
  event = pos 40;
  event_step = pos 1;
  pv_id = pos 7;
  pv_id_step = pos 0;
  offset_us = negsuc 9;
  offset_us_step = pos 5;
}

lut-length : length (first_lut 4 0) ≡ 4
unfolding first_lut
lut-length = refl

redit-AreEdited_example :
    (next : SoeLut) × (redit asked (first_lut 4 0) ≡ some next)
    × AreEdited (row_in_steps asked) 1 0 2 (first_lut 4 0) next
redit-AreEdited_example =
    redit-AreEdited asked 1 2 (first_lut 4 0) refl refl (omega (arith, lut-length))

-- The hold table that the lookup builds for two events.
abbrev table : WordMem
table = (soe_lut_lookup-IsCycle dims latest blank start ready).0.0

abbrev no_rows : Mem (HoldRow ℤ)
no_rows j = record {
  c_event = pos 0;
  c_pv_id = pos 0;
  c_offset_us = pos 0;
  c_client_data = pos 0;
  c_timestamp = pos 0;
  c_ai1 = pos 0;
  c_ai2 = pos 0;
  c_di1 = pos 0;
  c_di2 = pos 0;
  c_sp0 = pos 0;
  c_sp1 = pos 0;
  c_sp2 = pos 0;
  c_sp3 = pos 0;
  c_wrvs = 0;
  c_wrvt = 0;
  c_wrus = 0;
}

abbrev volts : ℤ → ℤ
volts z = z

update_hld_tab_columns-IsTable_example :
    (read_words
        ((update_hld_tab_columns volts prams table 0 no_rows).0)
        0
        (length (cycle_hits dims latest))
      ≡ rows_wanted volts prams kbuf.raw (ssl prams) 0 (cycle_hits dims latest))
    × ((update_hld_tab_columns volts prams table 0 no_rows).1 ≡ length (cycle_hits dims latest))
update_hld_tab_columns-IsTable_example =
    update_hld_tab_columns-IsTable volts prams kbuf.raw table (ssl prams) (cycle_hits dims latest)
      ((length (cycle_hits dims latest) + 1) * 8) 0 no_rows (omega arith) (omega arith)
      ((soe_lut_lookup-IsCycle dims latest blank start ready).2.table)
      (rw two_hits
        ((λ (e : 100 ≡ 0). absurd (omega arith)), ((λ (e : 102 ≡ 0). absurd (omega arith)), tt)))
      (rw two_hits (omega arith)) (rw two_hits (omega arith))

-- The vernier of the first sample says 1000 microseconds, and that of the last one 2000.
abbrev base : WordMem
base j = if j == 14 then 40_000 else if j == 86 then 80_000 else 0

cycle_found : cycle_hits (described prams dims.lut 3 base) latest ≡ found
unfolding all_hits hits rows_for before_ev99 index_of find_event_in_buf s64 s32 ◌+ℤ◌ ◌-ℤ◌ ◌*ℤ◌ ◌/ℤ◌
    get_wr_ts get_wr_ts_us match_seconds
cycle_found = refl

base-IsReady : IsReady (described prams dims.lut 3 base) latest (λ j. 0)
unfolding s64 ◌-ℤ◌ get_wr_ts get_wr_ts_us match_seconds
base-IsReady = record {
  span = (999, refl);
  sorted = ready.sorted;
  events = ready.events;
  room = rw cycle_found (omega arith);
  fits = rw cycle_found found-AllFit;
  clear = λ j a b. refl;
}

abbrev views : Views
views = record {
  in_time = true;
  latest = latest;
  before_latest = [];
  attempts = λ i. record { in_time = true; latest = [] };
}

has_one : has_event latest ≡ true
unfolding has_event
has_one = refl

in_buf :
    (timestamp_in_buf 1 (described prams dims.lut 3 base) (first_row latest).timestamp).status
    ≡ soe_success
unfolding timestamp_in_buf dead_band_us s64 s32 ◌/ℤ◌ ◌+ℤ◌ ◌-ℤ◌ get_wr_ts get_wr_ts_us match_seconds
in_buf = refl

soe_cycle-IsCycle_example :
    (done : WordMem × Rc) × (soe_cycle 1 lut_fmt_strategy1 views prams dims.lut 3 base (λ j. 77)
      ≡ some ((described prams dims.lut 3 base).kbuf, done.0, done.1))
    × IsCycle
        (described prams dims.lut 3 base)
        latest
        (timestamp_in_buf 1 (described prams dims.lut 3 base) (first_row latest).timestamp)
        done
soe_cycle-IsCycle_example =
    soe_cycle-IsCycle 1 views prams (dims.lut) 3 base (λ j. 77) refl has_one (omega arith)
      (omega arith) (omega arith) in_buf base-IsReady

abbrev same_again : ℕ → Attempt
same_again i = record { in_time = true; latest = latest }

strategy2-IsFrom_example :
    Returns
      (IsFrom dims blank (ShownIn latest latest same_again))
      (strategy2 1 latest latest same_again dims blank)
strategy2-IsFrom_example = strategy2-IsFrom 1 latest latest same_again dims blank (λ l s.
    let same : l ≡ latest = elim s [ inl e ↦ e | inr t ↦ elim t [ inl e ↦ e | inr u ↦ u.2 ] ] in
    subst (λ (x : Fmt). IsReady dims x blank) (sym same) ready)
