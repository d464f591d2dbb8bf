-- ===== src/Receiver.antt =====
-- xrmIocApp/src/acq400_FMT_rx.{h,cpp}: the receiver of event tables, a ring of maxq tables that
-- two deques of indexes share. A deque is a list from its front to its back. What a datagram
-- leaves in the buffer, and how a timed wait ends, are arguments; the asyn calls succeed.
pub mod Ring
pub mod History
pub mod Trigger
pub mod Task
pub mod Running
pub mod Examples
use acq400_xrm.Prelude.{
  ℕ, zero, suc, ◌+◌, ◌%◌, ◌^◌, Bool, true, false, Option, none, some, List, [], ◌∷◌, ◌++◌, ltb,
  ◌==◌, if◌then◌else◌, not, length, get_or,
}
use acq400_xrm.Prelude.Int.{ℤ, pos, to_bits}
use acq400_xrm.Prelude.Memory.{Mem, update}
use acq400_xrm.Prelude.Deque.{pop_back}
use acq400_xrm.Structs.{Fmt, FmtRow, clean}
use acq400_xrm.Driver.{
  Effect, Param, set_integer, call_param_callbacks, signal_event, signal_rx_event, p_runstop,
  p_mon_rl, p_fmt_pm_trg_evt, p_fmt_pm_trg_evt_action,
}
use acq400_xrm.Soe.Cycle.{first_row}

-- fmt_cache, empties and filled
pub record Cache : Type 0 where
  pub fmt_cache : Mem Fmt
  pub empties : List ℕ
  pub filled : List ℕ

-- The constructor: for (ii < maxq) empties.push_front(ii).
unfoldable pub empty_slots : ℕ → List ℕ
empty_slots zero = []
empty_slots (suc n) = n ∷ empty_slots n

unfoldable pub init_cache : ℕ → Mem Fmt → Cache
init_cache maxq m = record { fmt_cache = m; empties = empty_slots maxq; filled = [] }

-- get_empty(): an empty slot, or the oldest of the filled ones; `none` is the failed assert.
unfoldable pub get_empty : Cache → Option (Cache × ℕ)
get_empty c = elim (pop_back c.empties) [
  | some e ↦ some (record c { empties = e.0 }, e.1)
  | none ↦ elim (pop_back c.filled) [ some f ↦ some (record c { filled = f.0 }, f.1) | none ↦ none ]
]

-- receive(multicast): `datagram` is what recvfrom() leaves in the slot. The second part is the
-- slot that the result refers to.
unfoldable pub receive : Fmt → Cache → Option (Cache × ℕ)
receive datagram c = elim (get_empty c) [
  | none ↦ none
  | some r ↦ some (
    record (r.0) {
      fmt_cache = update (r.0).fmt_cache (r.1) datagram;
      filled = (r.1) ∷ (r.0).filled;
    },
    r.1,
  )
]

-- The members of acq400_FMT_rx.
pub record FmtRx : Type 0 where
  pub cache : Cache
  pub packet_count : ℕ
  pub ts : ℤ
  pub fmt_pm_trg_evt : ℤ
  pub null_fmt_count : ℕ
  pub mrl_param : ℤ

-- update_fmt(): the counter is an int.
unfoldable pub update_fmt : Fmt → FmtRx → FmtRx
update_fmt fmt rx = record rx {
  packet_count = (rx.packet_count + 1) % 2 ^ 32;
  ts = (first_row fmt).timestamp;
}

-- Whether a row of the table has the event; `rows` rows are looked at.
unfoldable pub any_event : ℕ → List FmtRow → Bool
any_event trg_evt [] = false
any_event trg_evt (r ∷ rs) = if trg_evt == r.event then true else any_event trg_evt rs

-- onPM_trg_evt()
unfoldable pub on_pm_trg_evt : List Effect
on_pm_trg_evt = set_integer 0 p_fmt_pm_trg_evt_action (pos 1) ∷ call_param_callbacks ∷ []

-- process_fmt(): a trigger event of 0 is none; another is cut to 16 bits.
unfoldable pub process_fmt : FmtRx → Fmt → List Effect
process_fmt rx fmt =
    let trg_evt = to_bits 16 rx.fmt_pm_trg_evt in
    let untriggered = signal_rx_event ∷ set_integer 0 p_fmt_pm_trg_evt_action (pos 0) ∷ [] in
    let searched = if any_event trg_evt fmt then signal_rx_event ∷ on_pm_trg_evt else untriggered in
    if to_bits 32 rx.fmt_pm_trg_evt == 0 then untriggered else searched

-- get_fmt(icache): the receiver afterwards, and the table.
unfoldable pub get_fmt : ℕ → FmtRx → FmtRx × Fmt
get_fmt icache rx =
    if ltb icache (length rx.cache.filled)
    then (record rx { null_fmt_count = 0 }, rx.cache.fmt_cache (get_or rx.cache.filled icache 0))
    else (record rx { null_fmt_count = (rx.null_fmt_count + 1) % 2 ^ 32 }, clean)

-- writeInt32(): the receiver, and what it tells the libraries, in order.
unfoldable pub write_int32 : Param → ℤ → FmtRx → FmtRx × List Effect
write_int32 p_runstop value rx = (
  rx,
  set_integer 0 p_runstop value ∷ (if to_bits 32 value == 0 then [] else signal_event ∷ [])
      ++ call_param_callbacks ∷ [],
)
write_int32 p_mon_rl value rx =
    (record rx { mrl_param = value }, set_integer 0 p_mon_rl value ∷ call_param_callbacks ∷ [])
write_int32 p_fmt_pm_trg_evt value rx = (
  record rx { fmt_pm_trg_evt = value },
  set_integer 0 p_fmt_pm_trg_evt value ∷ call_param_callbacks ∷ [],
)
write_int32 p value rx = (rx, set_integer 0 p value ∷ call_param_callbacks ∷ [])

-- enum epicsEventStatus
pub data EventStatus : Type 0 where
  epics_event_ok epics_event_wait_timeout epics_event_error : EventStatus

-- waitFMT(): whether a table arrived in time. The assert of the default case holds there.
unfoldable pub wait_fmt : EventStatus → Bool
wait_fmt epics_event_ok = true
wait_fmt epics_event_wait_timeout = false
wait_fmt epics_event_error = false
