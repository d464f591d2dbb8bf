-- ===== src/Soe/Strategy.antt =====
-- xrmIocApp/src/acq400_SOE_Strategy.cpp: from an event table, a lookup table and a buffer of
-- raw samples to a hold table. Signed arithmetic on 64 bits wraps; a table is a list of rows;
-- raw data and the hold table are 32-bit words, and a sample is SSB / 4 of them.

use acq400_xrm.Prelude.{
  ℕ, ◌+◌, ◌*◌, ◌/◌, ◌%◌, ◌^◌, Option, none, some, List, [], ◌∷◌, ◌++◌, ◌>>=◌, ltb, ◌==◌,
  if◌then◌else◌, ◌&&◌, not,
}
use acq400_xrm.Prelude.Int.{ℤ, pos, negsuc, ◌+ℤ◌, ◌-ℤ◌, ◌*ℤ◌, ◌/ℤ◌, ltb_ℤ, s32, s64}
use acq400_xrm.Prelude.Memory.{WordMem, write_words, read_words}
use acq400_xrm.Structs.{
  Fmt, FmtRow, SoeLut, SoeLutRow, ev99, soe_hld_rows, header_words, load_header, store_header,
  set_data_offset, set_version,
}
use acq400_xrm.SamplePrams.{SamplePrams}

-- struct KBUF; `raw` points at the first sample.
pub record Kbuf : Type 0 where
  pub ib : ℕ
  pub wrt0 : ℤ
  pub wrt1 : ℤ
  pub raw : WordMem

-- struct SOE_DIMS
pub record SoeDims : Type 0 where
  pub kbuf : Kbuf
  pub sample_prams : SamplePrams
  pub lut : SoeLut

-- enum ERR_CODES
pub data ErrCode : Type 0 where
  soe_success e_timeout e_fmt_ts_too_early_for_kb e_fmt_ts_too_late_for_kb : ErrCode
  e_fmt_no_events_found e_fmt_undefined : ErrCode

-- enum FMT_NUM
pub data FmtNum : Type 0 where
  fmt_pre fmt_cur fmt_wait : FmtNum

-- struct RC
pub record Rc : Type 0 where
  pub status : ErrCode
  pub delta_us : ℤ
  pub ht_size32 : ℕ
  pub events_accepted : ℕ
  pub events_not_in_buffer : ℕ
  pub fmt_num : FmtNum
  pub next_retry : ℕ

-- { status, delta_us, } with the rest zero.
abbrev pub rc_of : ErrCode → ℤ → Rc
rc_of status delta_us = record {
  status = status;
  delta_us = delta_us;
  ht_size32 = 0;
  events_accepted = 0;
  events_not_in_buffer = 0;
  fmt_num = fmt_cur;
  next_retry = 0;
}

-- SSB / sizeof(long), 4 bytes on the ARM target.
abbrev pub ssl : SamplePrams → ℕ
ssl p = p.ssb / 4

-- find_event_in_buf(): `none` is a division by zero, and -1 is not in the buffer.
unfoldable pub find_event_in_buf : Kbuf → ℕ → ℤ → Option ℤ
find_event_in_buf kbuf ndata ev_ts =
    let span = s64 (kbuf.wrt1 -ℤ kbuf.wrt0) in
    let scaled = s64 (pos ndata *ℤ s64 (ev_ts -ℤ kbuf.wrt0)) in
    let index = s32 (scaled /ℤ span) in
    if not (ltb_ℤ ev_ts kbuf.wrt0) && not (ltb_ℤ kbuf.wrt1 ev_ts)
    then (elim span [ pos n ↦ if n == 0 then none else some index | negsuc n ↦ some index ])
    else some (negsuc 0)

-- build_hold_entry(): all fields of ht[ihold] but `data_offset`.
unfoldable pub build_hold_entry : SamplePrams → FmtRow → SoeLutRow → ℕ → WordMem → ℕ → WordMem
unfolding set_version
build_hold_entry p fmt_row lut_row bsi ht ihold =
    let versioned = set_version (record (load_header ht ihold) { lut_row = lut_row }) in
    store_header ht ihold (record versioned {
      client_data = bsi;
      timestamp = fmt_row.timestamp;
      ss_u32 = ssl p % 2 ^ 8;
      ai_count = p.ai_count % 2 ^ 8;
      di_count = p.di_count % 2 ^ 8;
      sp_count = p.sp_count % 2 ^ 8;
    })

-- The variables of soe_lut_lookup(): the table, bsi_entries[0 .. imatch) and the two counts.
pub record Lookup : Type 0 where
  pub ht : WordMem
  pub bsi_entries : List ℕ
  pub imatch : ℕ
  pub events_accepted : ℕ
  pub events_not_in_buffer : ℕ

-- What follows MATCH!; `none` is a write behind bsi_entries[SOE_HLD_ROWS], or a trap.
unfoldable pub match_row : Kbuf → SamplePrams → FmtRow → SoeLutRow → Lookup → Option Lookup
match_row kbuf p fmt_row lut_row s =
    let soe_ts = s64 (fmt_row.timestamp +ℤ lut_row.offset_us) in
    elim (find_event_in_buf kbuf p.nsam soe_ts) [
      | none ↦ none
      | some (negsuc n) ↦ some (record s { events_not_in_buffer = s.events_not_in_buffer + 1 })
      | some (pos bsi) ↦
          if ltb s.imatch soe_hld_rows
          then some (record s {
            ht = build_hold_entry p fmt_row lut_row bsi s.ht s.imatch;
            bsi_entries = s.bsi_entries ++ bsi ∷ [];
            imatch = s.imatch + 1;
            events_accepted = s.events_accepted + 1;
          })
          else none
    ]

-- for (int soe_row ...), from the row at the head of the list.
unfoldable pub lookup_row : Kbuf → SamplePrams → FmtRow → SoeLut → Lookup → Option Lookup
lookup_row kbuf p fmt_row [] s = some s
lookup_row kbuf p fmt_row (l ∷ ls) s =
    let skip = lookup_row kbuf p fmt_row ls s in
    let matched = match_row kbuf p fmt_row l s >>= λ t. lookup_row kbuf p fmt_row ls t in
    if l.event == ev99
    then some s
    else if ltb fmt_row.event l.event
    then some s
    else if not (l.event == fmt_row.event)
    then skip
    else matched

-- for (; fmt_row < FMT_ROWS; ++fmt_row)
unfoldable pub lookup_rows : Kbuf → SamplePrams → SoeLut → Fmt → Lookup → Option Lookup
lookup_rows kbuf p lut [] s = some s
lookup_rows kbuf p lut (f ∷ fs) s =
    let rest = lookup_row kbuf p f lut s >>= λ t. lookup_rows kbuf p lut fs t in
    if f.event == ev99 then some s else rest

-- for (int ii = 0; ii < imatch; ++ii, ht_data_offset += SSL): the sample to its place, and the
-- place into the header. The raw buffer is memory that goes on behind its end: a sample of index
-- NSAM is what stands there.
unfoldable pub copy_samples : Kbuf → ℕ → List ℕ → ℕ → ℕ → WordMem → WordMem × ℕ
copy_samples kbuf n [] ii off ht = (ht, off)
copy_samples kbuf n (bsi ∷ bs) ii off ht =
    copy_samples kbuf n bs (ii + 1) (off + n)
      (set_data_offset (write_words ht off (read_words kbuf.raw (bsi * n) n)) ii off)

-- soe_lut_lookup(soe, latest, ht, rc)
unfoldable pub soe_lut_lookup : SoeDims → Fmt → WordMem → Rc → Option (WordMem × Rc)
soe_lut_lookup soe latest ht rc = do
  let start : Lookup = record {
    ht = ht;
    bsi_entries = [];
    imatch = 0;
    events_accepted = rc.events_accepted;
    events_not_in_buffer = rc.events_not_in_buffer;
  }
  s ← lookup_rows soe.kbuf soe.sample_prams soe.lut latest start
  let copied =
      copy_samples soe.kbuf (ssl soe.sample_prams) s.bsi_entries 0 ((s.imatch + 1) * header_words)
        s.ht
  some (
    copied.0,
    record rc {
      ht_size32 = copied.1;
      events_accepted = s.events_accepted;
      events_not_in_buffer = s.events_not_in_buffer;
    },
  )
