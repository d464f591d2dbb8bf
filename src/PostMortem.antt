-- ===== src/PostMortem.antt =====
-- xrmIocApp/src/acq400_PM.{h,cpp}: the post mortem store, which copies live buffers of raw data
-- to a ring of store buffers and shows a row of columns for each. What getBufferId() and the
-- clock return is an argument; the ioctl that copies is an effect.
pub mod Task
pub mod Ring
pub mod Fresh
pub mod CopyArg
pub mod Rows
pub mod Running
pub mod Examples
use acq400_xrm.Prelude.{
  ℕ, zero, suc, ◌+◌, ◌*◌, ◌/◌, ◌%◌, ◌^◌, Bool, true, false, Option, none, some, List, [], ◌∷◌, ◌++◌,
  ◌>>=◌, ltb, ◌==◌, if◌then◌else◌, ◌&&◌, ◌||◌, not, bit_or, map,
}
use acq400_xrm.Prelude.Int.{ℤ, pos, negsuc, s16, to_bits, of_bits, pos_part, neg_part, eqb_ℤ}
use acq400_xrm.Prelude.Memory.{Mem, WordMem, update}
use acq400_xrm.Prelude.Deque.{pop_back}
use acq400_xrm.SamplePrams.{SamplePrams}
use acq400_xrm.WrTime.{get_wr_ts, vernier_sec, vernier_ticks}
use acq400_xrm.Driver.{
  Effect, Param, set_integer, call_param_callbacks, array_callbacks, signal_event, p_runstop,
  p_mon_rl, p_updates, p_pm_col_rownum, p_pm_col_iblive, p_pm_col_ibstore, p_pm_col_ts,
  p_pm_col_sp0, p_pm_col_sp1, p_pm_col_sp2, p_pm_col_sp3, p_pm_col_wrvs, p_pm_col_wrvt,
  p_pm_col_wrus,
}
use acq400_xrm.Driver.RateLimit.{MonitorRateLimit, init_rate_limit, mrl_of, new_data}

-- struct BufferPair
pub record BufferPair : Type 0 where
  pub ib_live : ℤ
  pub ib_store : ℕ

-- The two deques.
pub record Store : Type 0 where
  pub empties : List BufferPair
  pub filled : List BufferPair

abbrev pub first : ℕ
first = 2

abbrev pub max_pm_buffers : ℕ
max_pm_buffers = 32

-- empties.push_back({-1, ii}), from ii, n times.
unfoldable pub store_buffers : ℕ → ℕ → List BufferPair
store_buffers zero ii = []
store_buffers (suc n) ii = record { ib_live = negsuc 0; ib_store = ii } ∷ store_buffers n (suc ii)

-- init_buffers(nbuf): ii runs from FIRST to (short)nbuf + FIRST; where that is not a short,
-- the loop has no end.
unfoldable pub init_buffers : ℕ → Option Store
init_buffers nbuf = elim (of_bits 16 (nbuf % 2 ^ 16)) [
  | negsuc n ↦ some (record { empties = []; filled = [] })
  | pos n ↦
      if ltb 32_764 n
      then none
      else some (record { empties = store_buffers (suc n) first; filled = [] })
]

-- BURST_LW, an unsigned of 32 bits.
unfoldable pub burst_lw : SamplePrams → ℕ
burst_lw p = p.ssb * p.nsam % 2 ^ 32 / 4

-- arg = BURST_LW << 10 | bp.ib_live
unfoldable pub copy_arg : SamplePrams → ℤ → ℕ
unfolding burst_lw
copy_arg p ib_live = bit_or (burst_lw p * 2 ^ 10 % 2 ^ 32) (to_bits 32 ib_live)

-- What the task tells the outside: a copy to a store buffer, with the argument of the ioctl; a
-- store buffer that is published at an address; and calls of the asyn library.
pub data PmEffect : Type 0 where
  copy_from_len : ℕ → ℕ → PmEffect
  rawbuf_callbacks : ℕ → ℕ → PmEffect
  asyn : Effect → PmEffect

-- The first lines of stash_buffer(): an empty buffer, or the oldest of the filled; `none` is the
-- failed assert.
unfoldable pub next_buffer : Store → Option (Store × BufferPair)
next_buffer s = elim s.empties [
  | [] ↦ elim (pop_back s.filled) [ none ↦ none | some f ↦ some (record s { filled = f.0 }, f.1) ]
  | e ∷ es ↦ some (record s { empties = es }, e)
]

-- stash_buffer(ib_live): whatever the ioctl returns, the code goes on, since the assert behind a
-- failure holds there.
unfoldable pub stash_buffer : SamplePrams → ℤ → Store → Option (Store × PmEffect)
stash_buffer p ib_live s = elim (next_buffer s) [
  | none ↦ none
  | some r ↦
      let bp : BufferPair = record (r.1) { ib_live = s16 ib_live } in
      some (
        record (r.0) { filled = bp ∷ (r.0).filled },
        copy_from_len bp.ib_store (copy_arg p bp.ib_live),
      )
]

-- struct PM_COLS. c_rownum and c_timestamp are never written after the constructor.
pub record PmCols : Type 0 where
  pub c_ib_live : Mem ℤ
  pub c_ib_store : Mem ℕ
  pub c_sp0 : Mem ℕ
  pub c_sp1 : Mem ℕ
  pub c_sp2 : Mem ℕ
  pub c_sp3 : Mem ℕ
  pub c_wrvs : Mem ℕ
  pub c_wrvt : Mem ℕ
  pub c_wrus : Mem ℕ

-- The word at sp_raw[lrow + j], from the base of a buffer; SSL is a sample in words.
unfoldable pub sp_word : SamplePrams → WordMem → ℕ → ℕ → ℕ
sp_word p base row j = let ssl = p.ssb / 4 in base (ssl + p.sp_index + (row * ssl + j))

-- update_pm_tab_row(row, ib), with the buffer's base.
unfoldable pub update_pm_tab_row : SamplePrams → WordMem → ℕ → PmCols → PmCols
update_pm_tab_row p base row c =
    let wrv = sp_word p base row 2 in
    let wrs = sp_word p base row 3 in
    record c {
      c_sp0 = update c.c_sp0 row (sp_word p base row 0);
      c_sp1 = update c.c_sp1 row (sp_word p base row 1);
      c_sp2 = update c.c_sp2 row wrv;
      c_sp3 = update c.c_sp3 row wrs;
      c_wrvs = update c.c_wrvs row (vernier_sec wrv);
      c_wrvt = update c.c_wrvt row (vernier_ticks wrv);
      c_wrus = update c.c_wrus row (get_wr_ts wrs wrv);
    }

-- What stays the same while the task runs: the geometry, NBUF, the two settings from the
-- environment, and the raw buffers.
pub record Setup : Type 0 where
  pub sample_prams : SamplePrams
  pub nbuf : ℕ
  pub buffer_throttle_modulo : ℕ
  pub sp_x_from_live : Bool
  pub the_buffers : ℤ → WordMem

-- spX_from_live? bpi.ib_live: bpi.ib_store
abbrev pub shown_buffer : Setup → BufferPair → WordMem
shown_buffer e b = e.the_buffers (if e.sp_x_from_live then b.ib_live else pos b.ib_store)

-- The body of the loop over the filled buffers: the row advances where the update goes ahead.
unfoldable pub show_row : Setup → Bool → BufferPair → ℕ → PmCols → ℕ × PmCols
show_row e go_ahead b irow c =
    let placed : PmCols = record c {
      c_ib_live = update c.c_ib_live irow b.ib_live;
      c_ib_store = update c.c_ib_store irow b.ib_store;
    } in
    if go_ahead
    then (suc irow, update_pm_tab_row e.sample_prams (shown_buffer e b) irow placed)
    else (irow, placed)

-- for (auto&& bpi: filled), from row `irow`. `none` is a write behind the columns.
unfoldable pub show_rows : Setup → Bool → List BufferPair → ℕ → PmCols → Option PmCols
show_rows e go_ahead [] irow c = some c
show_rows e go_ahead (b ∷ bs) irow c =
    let next = show_row e go_ahead b irow c in
    let rest = show_rows e go_ahead bs next.0 next.1 in
    if ltb irow max_pm_buffers then rest else none

-- update_pm_callbacks(), with the counter after its increment.
unfoldable pub update_pm_callbacks : ℕ → Bool → List Effect
update_pm_callbacks update call_array_callbacks =
    set_integer 0 p_updates (of_bits 32 update)
    ∷ call_param_callbacks
    ∷ (if call_array_callbacks
        then map (array_callbacks 0) (
            p_pm_col_rownum ∷ p_pm_col_iblive ∷ p_pm_col_ibstore ∷ p_pm_col_ts ∷ p_pm_col_sp0
            ∷ p_pm_col_sp1 ∷ p_pm_col_sp2 ∷ p_pm_col_sp3 ∷ p_pm_col_wrvs ∷ p_pm_col_wrvt
            ∷ p_pm_col_wrus ∷ [])
        else [])
