-- ===== src/Soe/Cycle.antt =====
-- acq400_SOE_Strategy.cpp: the operator() of each strategy, one cycle. What the receiver gives
-- during the cycle is an argument: whether waitFMT() returned in time, and the tables that
-- get_fmt() showed. `none` is a trap or a write out of bounds.
use acq400_xrm.Prelude.{
  ℕ, zero, suc, ◌+◌, ◌*◌, ◌/◌, ◌%◌, ◌^◌, Bool, Option, none, some, [], ◌∷◌, ◌>>=◌, ◌==◌,
  if◌then◌else◌, ◌&&◌, not,
}
use acq400_xrm.Prelude.Int.{s32, ℤ, pos, ◌+ℤ◌, ◌-ℤ◌, ◌/ℤ◌, ltb_ℤ, s64, eqb_ℤ}
use acq400_xrm.Prelude.Memory.{WordMem, write_words, read_words}
use acq400_xrm.Structs.{
  Fmt, FmtRow, zero_fmt_row, SoeLut, soe_hld_rows, load_header, store_header, hold_data_off,
}
use acq400_xrm.Soe.Strategy.{
  SoeDims, Kbuf, Rc, rc_of, soe_success, e_timeout, e_fmt_ts_too_early_for_kb,
  e_fmt_ts_too_late_for_kb, e_fmt_no_events_found, e_fmt_undefined, fmt_pre, fmt_cur, fmt_wait,
  soe_lut_lookup, ssl,
}
use acq400_xrm.WrTime.{get_wr_ts}

-- fmt[0]
abbrev pub first_row : Fmt → FmtRow
first_row [] = zero_fmt_row
first_row (r ∷ rs) = r

-- acq400_FMT_rx::isNull() and hasEvent()
unfoldable pub is_null : Fmt → Bool
is_null fmt = let row = first_row fmt in row.event == 0 && eqb_ℤ row.timestamp (pos 0)

unfoldable pub has_event : Fmt → Bool
has_event fmt = let row = first_row fmt in not (row.event == 0) && not (eqb_ℤ row.timestamp (pos 0))

-- deadBand_us(): 80% of a cycle of CYCLE_MS milliseconds, in `int` arithmetic.
unfoldable pub dead_band_us : ℕ → ℤ
dead_band_us cycle_ms = s32 (pos (cycle_ms * 1000 * 4)) /ℤ pos 5

unfoldable pub timestamp_in_buf : ℕ → SoeDims → ℤ → Rc
timestamp_in_buf cycle_ms soe fmt_ts =
    let k = soe.kbuf in
    let band = dead_band_us cycle_ms in
    if ltb_ℤ fmt_ts (s64 (k.wrt0 -ℤ band))
    then rc_of e_fmt_ts_too_late_for_kb (s64 (k.wrt0 -ℤ fmt_ts))
    else if ltb_ℤ (s64 (k.wrt1 +ℤ band)) fmt_ts
    then rc_of e_fmt_ts_too_early_for_kb (s64 (fmt_ts -ℤ k.wrt1))
    else rc_of soe_success (s64 (fmt_ts -ℤ k.wrt0))

-- The lookup where the check passed, and the table untouched where it did not.
unfoldable pub lookup_on_success : SoeDims → Fmt → WordMem → Rc → Option (WordMem × Rc)
lookup_on_success soe fmt ht rc = elim rc.status [
  | soe_success ↦ soe_lut_lookup soe fmt ht rc
  | _ ↦ some (ht, rc)
]

-- LutFmtStrategy1::operator(): `in_time` is waitFMT(CYCLE_MS) == 0, `latest` is get_fmt(0).
unfoldable pub strategy1 : ℕ → Bool → Fmt → SoeDims → WordMem → Option (WordMem × Rc)
strategy1 cycle_ms in_time latest soe ht =
    if in_time && has_event latest
    then lookup_on_success soe latest ht
        (timestamp_in_buf cycle_ms soe (first_row latest).timestamp)
    else some (ht, rc_of e_timeout (pos 0))

-- What one round of the retry loop sees: whether waitFMT(CYCLE_MS / 5) returned in time, and
-- get_fmt(0) after it.
pub record Attempt : Type 0 where
  pub in_time : Bool
  pub latest : Fmt

-- The retry loop of LutFmtStrategy2, from round `retry` over the rounds left; `fmt_ts` is the
-- timestamp of the table before the loop.
unfoldable pub retry_loop :
    ℕ → SoeDims → ℤ → Rc → WordMem → (ℕ → Attempt) → ℕ → ℕ → Option (WordMem × Rc)
retry_loop cycle_ms soe fmt_ts rc ht attempts zero retry =
    some (ht, record rc { status = e_timeout; fmt_num = fmt_wait })
retry_loop cycle_ms soe fmt_ts rc ht attempts (suc left) retry =
    let again = retry_loop cycle_ms soe fmt_ts rc ht attempts left (retry + 1) in
    let latest = (attempts retry).latest in
    let ts = (first_row latest).timestamp in
    if not (attempts retry).in_time
    then again
    else if is_null latest
    then some (ht, rc_of e_timeout (pos 0))
    else if eqb_ℤ ts fmt_ts
    then again
    else (soe_lut_lookup soe latest ht (timestamp_in_buf cycle_ms soe ts) >>= λ r.
        some (r.0, record (r.1) { fmt_num = fmt_wait; next_retry = retry }))

-- LutFmtStrategy2::operator(): `fmt` is get_fmt(0) and `fmt_m1` is get_fmt(1) at the start.
unfoldable pub strategy2 : ℕ → Fmt → Fmt → (ℕ → Attempt) → SoeDims → WordMem → Option (WordMem × Rc)
strategy2 cycle_ms fmt fmt_m1 attempts soe ht =
    let rc = timestamp_in_buf cycle_ms soe (first_row fmt).timestamp in
    let rc_m1 = timestamp_in_buf cycle_ms soe (first_row fmt_m1).timestamp in
    let dispatch : Option (WordMem × Rc) = elim rc.status [
      | soe_success ↦ soe_lut_lookup soe fmt ht (record rc { fmt_num = fmt_cur })
      | e_fmt_ts_too_early_for_kb ↦
          if is_null fmt_m1
          then some (ht, rc_of e_timeout (pos 0))
          else lookup_on_success soe fmt_m1 ht (record rc_m1 { fmt_num = fmt_pre })
      | e_fmt_ts_too_late_for_kb ↦
          retry_loop cycle_ms soe (first_row fmt).timestamp rc ht attempts 5 0
      | e_timeout ↦ none
      | e_fmt_no_events_found ↦ none
      | e_fmt_undefined ↦ some (ht, rc_of e_fmt_undefined (pos 0))
    ] in
    if is_null fmt then some (ht, rc_of e_timeout (pos 0)) else dispatch

-- NullStrategy: for (ii = 10; ii; --ii) ht[ii].client_data = ht[ii-1].client_data.
unfoldable pub shift_history : ℕ → WordMem → WordMem
shift_history zero ht = ht
shift_history (suc ii) ht = shift_history ii (
    store_header ht (suc ii)
      (record (load_header ht (suc ii)) { client_data = (load_header ht ii).client_data }))

-- The loop over the rows, with `raw_off` the word offset of `raw` and `stride` samples a step.
unfoldable pub null_rows : Kbuf → ℕ → ℕ → ℕ → SoeLut → ℕ → ℕ → ℕ → WordMem → WordMem × ℕ
null_rows kbuf n sp_index stride [] row raw_off off ht = (ht, off)
null_rows kbuf n sp_index stride (l ∷ ls) row raw_off off ht =
    let ts = get_wr_ts (kbuf.raw (raw_off + sp_index + 3)) (kbuf.raw (raw_off + sp_index + 2)) in
    let entry = record (load_header ht row) {
      lut_row = l;
      timestamp = pos ts;
      data_offset = off % 2 ^ 16;
    } in
    null_rows kbuf n sp_index stride ls (row + 1) (raw_off + n * stride) ((off + n) % 2 ^ 16)
      (write_words (store_header ht row entry) (off % 2 ^ 16) (read_words kbuf.raw raw_off n))

-- NullStrategy::operator(); the data offset is advanced once more after the loop.
unfoldable pub null_strategy : ℕ → SoeDims → WordMem → WordMem × Rc
null_strategy stride soe ht =
    let shifted = shift_history 10 ht in
    let marked =
      store_header shifted 0 (record (load_header shifted 0) { client_data = soe.kbuf.ib }) in
    let n = ssl soe.sample_prams in
    let done =
      null_rows soe.kbuf n soe.sample_prams.sp_index stride soe.lut 0 0 (hold_data_off / 4)
        marked in
    (
      done.0,
      record (rc_of soe_success (pos 0)) {
        ht_size32 = (done.1 + n) % 2 ^ 16;
        events_accepted = soe_hld_rows;
      },
    )
