-- ===== src/Soe/Examples.antt =====
-- A cycle of two events and a short lookup table, for acq400_SOE_Strategy.cpp.
use acq400_xrm.Prelude.{ℕ, ◌+◌, ◌-◌, ◌*◌, ◌/◌, ◌≤◌, ◌<◌, ◌≡◌, refl, ◌⊎◌, some, List, [], ◌∷◌, arith}
use acq400_xrm.Prelude.Int.{ℤ, pos, negsuc, ◌+ℤ◌, ◌-ℤ◌, ◌*ℤ◌, ◌/ℤ◌, s32, s64}
use acq400_xrm.Prelude.Memory.{WordMem}
use acq400_xrm.Structs.{Fmt, FmtRow, SoeLutRow, ev99}
use acq400_xrm.SamplePrams.{SamplePrams}
use acq400_xrm.Soe.Strategy.{
  Kbuf, SoeDims, Rc, rc_of, soe_success, soe_lut_lookup, find_event_in_buf,
  e_fmt_ts_too_late_for_kb, e_fmt_ts_too_early_for_kb,
}
use acq400_xrm.Soe.Cycle.{timestamp_in_buf}
use acq400_xrm.Soe.Selection.{before_ev99, rows_for, index_of, hits, misses, all_hits, all_misses}
use acq400_xrm.Soe.Table.{Match}
use acq400_xrm.Soe.Table.Copy.{AllFit}
use acq400_xrm.Soe.Lookup.{cycle_hits, cycle_misses, IsReady, IsCycle, soe_lut_lookup-IsCycle}
use acq400_xrm.Soe.Timing.{find_event_in_buf_inside, timestamp_in_buf_cases}

abbrev pub kbuf : Kbuf
kbuf = record { ib = 3; wrt0 = pos 1000; wrt1 = pos 2000; raw = λ j. j }

abbrev pub prams : SamplePrams
prams = record {
  magic = 0;
  ssb = 32;
  nsam = 11;
  ai_count = 4;
  ai_index = 0;
  di_count = 2;
  di_index = 2;
  sp_count = 4;
  sp_index = 4;
}

abbrev pub lut_row : ℕ → ℕ → ℤ → SoeLutRow
lut_row event pv_id offset_us = record {
  event = event;
  pad = 0;
  pv_id = pv_id;
  offset_us = offset_us;
}

-- Two rows for event 5, the second too late for the buffer, one for event 7, and the end.
abbrev pub dims : SoeDims
dims = record {
  kbuf = kbuf;
  sample_prams = prams;
  lut =
      lut_row 5 100 (pos 200)
      ∷ lut_row 5 101 (pos 5000)
      ∷ lut_row 7 102 (negsuc 99)
      ∷ lut_row ev99 0 (pos 0)
      ∷ [];
}

abbrev pub fmt_row : ℕ → ℕ → FmtRow
fmt_row event us = record { event = event; pad = 0; client_data = 0; timestamp = pos us }

abbrev pub latest : Fmt
latest = fmt_row 5 1100 ∷ fmt_row 7 1900 ∷ fmt_row ev99 0 ∷ fmt_row 5 1200 ∷ []

abbrev pub blank : WordMem
blank j = 0

abbrev pub start : Rc
start = rc_of soe_success (pos 0)

abbrev pub found : List Match
found =
    record { fmt_row = fmt_row 5 1100; lut_row = lut_row 5 100 (pos 200); bsi = 3 }
    ∷ record { fmt_row = fmt_row 7 1900; lut_row = lut_row 7 102 (negsuc 99); bsi = 8 }
    ∷ []

pub two_hits : cycle_hits dims latest ≡ found
unfolding all_hits hits rows_for before_ev99 index_of find_event_in_buf s64 s32 ◌+ℤ◌ ◌-ℤ◌ ◌*ℤ◌ ◌/ℤ◌
two_hits = refl

one_miss : cycle_misses dims latest ≡ 1
unfolding all_misses misses rows_for before_ev99 index_of find_event_in_buf s64 s32 ◌+ℤ◌ ◌-ℤ◌ ◌*ℤ◌
    ◌/ℤ◌
one_miss = refl

pub found-AllFit : AllFit found
found-AllFit = (
  record {
    event_fits = omega arith;
    pv_id_fits = omega arith;
    offset_fits = (omega arith, omega arith);
    bsi_fits = omega arith;
    timestamp_fits = (omega arith, omega arith);
  },
  (
    record {
      event_fits = omega arith;
      pv_id_fits = omega arith;
      offset_fits = (omega arith, omega arith);
      bsi_fits = omega arith;
      timestamp_fits = (omega arith, omega arith);
    },
    tt,
  ),
)

pub ready : IsReady dims latest blank
unfolding s64 ◌-ℤ◌
ready = record {
  span = (999, refl);
  sorted = (
    omega arith,
    omega arith,
    (omega arith, omega arith, (omega arith, omega arith, (omega arith, omega arith, tt))),
  );
  events = (omega arith, (omega arith, (omega arith, (omega arith, tt))));
  room = rw two_hits (omega arith);
  fits = rw two_hits found-AllFit;
  clear = λ j a b. refl;
}

soe_lut_lookup-IsCycle_example :
    (done : WordMem × Rc) × (soe_lut_lookup dims latest blank start ≡ some done)
    × IsCycle dims latest start done
soe_lut_lookup-IsCycle_example = soe_lut_lookup-IsCycle dims latest blank start ready

find_event_in_buf_inside_example :
    (i : ℕ) × (find_event_in_buf kbuf 11 (pos 1300) ≡ some (pos i))
    × (i ≡ 11 * (1300 - 1000) / (2000 - 1000))
    × (((1300 < 2000) × (i < 11)) ⊎ ((◌≡◌ {A = ℕ} 1300 2000) × (i ≡ 11)))
find_event_in_buf_inside_example =
    find_event_in_buf_inside kbuf 11 1000 2000 1300 refl refl (omega arith) (omega arith)
      (omega arith) (omega arith) (omega arith) (omega arith) (omega arith)

timestamp_in_buf_cases_example :
    ((300 + 1 * 800 < 1000)
      × (timestamp_in_buf 1 dims (pos 300) ≡ rc_of e_fmt_ts_too_late_for_kb (pos (1000 - 300))))
    ⊎ (((2000 + 1 * 800 < 300)
          × (timestamp_in_buf 1 dims (pos 300)
              ≡ rc_of e_fmt_ts_too_early_for_kb (pos (300 - 2000))))
        ⊎ ((1000 ≤ 300 + 1 * 800)
            × (300 ≤ 2000 + 1 * 800)
            × (timestamp_in_buf 1 dims (pos 300) ≡ rc_of soe_success (pos 300 -ℤ pos 1000))))
timestamp_in_buf_cases_example =
    timestamp_in_buf_cases 1 dims 1000 2000 300 refl refl (omega arith) (omega arith) (omega arith)
      (omega arith)
