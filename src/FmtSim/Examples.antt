-- ===== src/FmtSim/Examples.antt =====
-- A table of three rows that the simulator sends, for acq400_FMT_sim.cpp.
use acq400_xrm.Prelude.{ℕ, ◌+◌, ◌*◌, ◌≡◌, ◌≢◌, refl, false, some, [], ◌∷◌, ◌++◌, get_elem?, arith}
use acq400_xrm.Prelude.Int.{pos}
use acq400_xrm.Structs.{FmtRow}
use acq400_xrm.FmtSim.{FmtSim, WrReading, time_of, time_now, update_fmt}
use acq400_xrm.FmtSim.Stamps.{pad_at, update_fmt_sent, time_now_first}

abbrev row : ℕ → FmtRow
row event = record { event = event; pad = 0; client_data = 0; timestamp = pos 0 }

abbrev sim : FmtSim
sim = record {
  fmt = row 256 ∷ row 257 ∷ row 258 ∷ [];
  cols = record { c_event = []; c_pad = []; c_client_data = []; c_timestamp = [] };
  update_count = 70_000;
  now_us = pos 5000;
  delay_ms = pos 0;
  rate_limit = record { et0 = 0; go_ahead = false };
  mrl_param = pos 0;
  runstop0 = pos 1;
}

update_fmt_sent_example :
    (get_elem? (update_fmt false (pos 6000) sim).fmt 1
      ≡ some (record (row 257) { timestamp = pos (5000 + 1 * 10); pad = pad_at 70_000 1 0 }))
    × ((update_fmt false (pos 6000) sim).now_us ≡ pos 6000)
update_fmt_sent_example = update_fmt_sent sim (pos 6000) 5000 1 (row 257) refl (omega arith) refl

abbrev reading : ℕ → WrReading
reading seconds = record { wr_ts = 0; seconds = seconds }

nonzero : time_of (reading 3) ≢ 0
unfolding time_of
nonzero e = absurd (omega arith)

zero_time : time_of (reading 0) ≡ 0
unfolding time_of
zero_time = refl

waits_for_clock : time_now ((reading 0 ∷ []) ++ reading 3 ∷ []) ≡ some (time_of (reading 3))
waits_for_clock = time_now_first (reading 0 ∷ []) (reading 3) [] (zero_time, tt) nonzero
