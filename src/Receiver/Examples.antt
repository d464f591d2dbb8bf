-- ===== src/Receiver/Examples.antt =====
-- A receiver of two tables that has received three, for acq400_FMT_rx.cpp.
use acq400_xrm.Prelude.{false, ℕ, ◌≡◌, ◌≢◌, ◌⊎◌, some, List, [], ◌∷◌, take, get_or, arith, false}
use acq400_xrm.Prelude.Int.{pos, to_bits}
use acq400_xrm.Structs.{Fmt, clean}
use acq400_xrm.Driver.{set_integer, call_param_callbacks, signal_rx_event, p_fmt_pm_trg_evt_action}
use acq400_xrm.Prelude.Returns.{Returns}
use acq400_xrm.Driver.RateLimit.{mrl_of, unknown}
use acq400_xrm.Receiver.Task.{RxTask, Round, task_rounds}
use acq400_xrm.Receiver.Running.{IsRx, IsAfter, arrived, task_rounds-IsRx}
use acq400_xrm.Receiver.{Cache, FmtRx, get_fmt, process_fmt}
use acq400_xrm.Receiver.Ring.{IsRing}
use acq400_xrm.Receiver.History.{after, contents, after-contents, get_fmt-after}
use acq400_xrm.Receiver.Trigger.{Occurs, process_fmt_cases}

abbrev table : ℕ → Fmt
table event = record { event = event; pad = 0; client_data = 0; timestamp = pos 9 } ∷ []

abbrev history : List Fmt
history = table 3 ∷ table 2 ∷ table 1 ∷ []

abbrev nothing : ℕ → Fmt
nothing i = []

after-contents_example :
    (c : Cache) × (after 2 nothing history ≡ some c) × IsRing 2 c × (contents c ≡ take 2 history)
after-contents_example = after-contents 2 nothing history (omega arith)

abbrev rx : FmtRx
rx = record {
  cache = (after-contents 2 nothing history (omega arith)).0;
  packet_count = 3;
  ts = pos 9;
  fmt_pm_trg_evt = pos 3;
  null_fmt_count = 0;
  mrl_param = pos 0;
}

get_fmt-after_example : (get_fmt 1 rx).1 ≡ get_or (take 2 history) 1 clean
get_fmt-after_example =
    get_fmt-after 2 nothing history rx 1 (omega arith)
      ((after-contents 2 nothing history (omega arith)).1)

process_fmt_cases_example :
    ((to_bits 32 rx.fmt_pm_trg_evt ≢ 0)
      × Occurs (to_bits 16 rx.fmt_pm_trg_evt) (table 3)
      × (process_fmt rx (table 3)
          ≡ signal_rx_event
            ∷ set_integer 0 p_fmt_pm_trg_evt_action (pos 1)
            ∷ call_param_callbacks
            ∷ []))
    ⊎ (((to_bits 32 rx.fmt_pm_trg_evt ≡ 0) ⊎ (¬ Occurs (to_bits 16 rx.fmt_pm_trg_evt) (table 3)))
        × (process_fmt rx (table 3)
            ≡ signal_rx_event ∷ set_integer 0 p_fmt_pm_trg_evt_action (pos 0) ∷ []))
process_fmt_cases_example = process_fmt_cases rx (table 3)

abbrev running : RxTask
running = record {
  rx = rx;
  cols = record { c_event = []; c_pad = []; c_client_data = []; c_timestamp = [] };
  update_count = 3;
  now_us = pos 0;
  rate_limit = record { et0 = 0; go_ahead = false };
}

disabled : mrl_of (pos 0) ≢ unknown
unfolding mrl_of
disabled e = absurd cc

shows_latest : IsRx 2 history running
shows_latest =
    let r = after-contents 2 nothing history (omega arith) in
    record { limit = disabled; ring = r.2; shows = r.3 }

-- A table that arrives, and a round in which the driver is stopped.
abbrev rounds : List Round
rounds =
    record { runstop = pos 1; datagram = table 4; now = 5 }
    ∷ record { runstop = pos 0; datagram = []; now = 6 }
    ∷ []

task_rounds-IsRx_example : Returns (IsAfter 2 (arrived rounds history)) (task_rounds rounds running)
task_rounds-IsRx_example = task_rounds-IsRx 2 rounds history running (omega arith) shows_latest
