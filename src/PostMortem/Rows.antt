-- ===== src/PostMortem/Rows.antt =====
-- The columns as rows: what the loop over the filled buffers leaves in them.
use acq400_xrm.Prelude.{
  ℕ, zero, suc, ◌+◌, ◌≤◌, ◌<◌, ◌*◌, ◌/◌, ◌%◌, ◌^◌, ◌≡◌, ◌≢◌, refl, ap, ◌∙◌, if◌then◌else◌, true,
  false, some, List, [], ◌∷◌, length, get_elem?, arith, lt→ltb,
}
use acq400_xrm.Prelude.Int.{ℤ, pos}
use acq400_xrm.Prelude.Memory.{WordMem, update, update_self, update_ne}
use acq400_xrm.SamplePrams.{SamplePrams}
use acq400_xrm.WrTime.{get_wr_ts}
use acq400_xrm.PostMortem.{
  BufferPair, PmCols, Setup, sp_word, shown_buffer, update_pm_tab_row, show_row, show_rows,
  max_pm_buffers,
}

-- A row of the columns.
pub record PmRow : Type 0 where
  pub live : ℤ
  pub store : ℕ
  pub sp0 : ℕ
  pub sp1 : ℕ
  pub sp2 : ℕ
  pub sp3 : ℕ
  pub vernier_s : ℕ
  pub vernier_t : ℕ
  pub time_us : ℕ

abbrev pub row_at : PmCols → ℕ → PmRow
row_at c j = record {
  live = c.c_ib_live j;
  store = c.c_ib_store j;
  sp0 = c.c_sp0 j;
  sp1 = c.c_sp1 j;
  sp2 = c.c_sp2 j;
  sp3 = c.c_sp3 j;
  vernier_s = c.c_wrvs j;
  vernier_t = c.c_wrvt j;
  time_us = c.c_wrus j;
}

-- The row j that is wanted for a buffer: its two indices, and the scratchpad words, with their
-- time, of sample j + 1 of the live or of the store buffer, whichever is asked for.
abbrev pub row_of : Setup → BufferPair → ℕ → PmRow
row_of e b j =
    let p = e.sample_prams in
    let buffer = if e.sp_x_from_live then b.ib_live else pos b.ib_store in
    let word : WordMem = λ i. e.the_buffers buffer (p.ssb / 4 * (j + 1) + p.sp_index + i) in
    record {
      live = b.ib_live;
      store = b.ib_store;
      sp0 = word 0;
      sp1 = word 1;
      sp2 = word 2;
      sp3 = word 3;
      vernier_s = word 2 / 2 ^ 28 % 8;
      vernier_t = word 2 % 2 ^ 28;
      time_us = get_wr_ts (word 3) (word 2);
    }

abbrev placed : BufferPair → ℕ → PmCols → PmCols
placed b irow c = record c {
  c_ib_live = update c.c_ib_live irow b.ib_live;
  c_ib_store = update c.c_ib_store irow b.ib_store;
}

abbrev written : Setup → BufferPair → ℕ → PmCols → PmCols
written e b irow c = update_pm_tab_row e.sample_prams (shown_buffer e b) irow (placed b irow c)

show_row_ahead :
    (e : Setup) (b : BufferPair) (irow : ℕ) (c : PmCols)
    → show_row e true b irow c ≡ (suc irow, written e b irow c)
unfolding show_row
show_row_ahead e b irow c = refl

show_row_held :
    (e : Setup) (b : BufferPair) (irow : ℕ) (c : PmCols)
    → show_row e false b irow c ≡ (irow, placed b irow c)
unfolding show_row
show_row_held e b irow c = refl

sample_place : (ssl sp j i : ℕ) → ssl + sp + (j * ssl + i) ≡ ssl * (j + 1) + sp + i
sample_place ssl sp j i = grind arith

sp_word-place :
    (p : SamplePrams) (base : WordMem) (j i : ℕ)
    → sp_word p base j i ≡ base (p.ssb / 4 * (j + 1) + p.sp_index + i)
unfolding sp_word
sp_word-place p base j i = ap base (sample_place (p.ssb / 4) p.sp_index j i)

row_at-written :
    (e : Setup) (b : BufferPair) (i : ℕ) (c : PmCols) → row_at (written e b i c) i ≡ row_of e b i
unfolding update_pm_tab_row
row_at-written e b i c =
    let p = e.sample_prams in
    let base = shown_buffer e b in
    simp (update_self) (
      rw
        (
          sp_word-place p base i 0,
          sp_word-place p base i 1,
          sp_word-place p base i 2,
          sp_word-place p base i 3,
        )
        refl)

row_at-written_ne :
    (e : Setup) (b : BufferPair) (i j : ℕ) (c : PmCols)
    → j ≢ i
    → row_at (written e b i c) j ≡ row_at c j
unfolding update_pm_tab_row
row_at-written_ne e b i j c h = simp (update_ne, h)

row_at-placed_ne :
    (b : BufferPair) (i j : ℕ) (c : PmCols) → j ≢ i → row_at (placed b i c) j ≡ row_at c j
row_at-placed_ne b i j c h = simp (update_ne, h)

-- Rows from `irow` on describe the buffers, and those before are as they were.
pub record AreShown (e : Setup) (bs : List BufferPair) (irow : ℕ) (c d : PmCols) : Type 0 where
  pub shown :
      (j : ℕ) (b : BufferPair)
      → get_elem? bs j ≡ some b
      → row_at d (irow + j) ≡ row_of e b (irow + j)
  pub kept : (j : ℕ) → j < irow → row_at d j ≡ row_at c j

first_shown :
    (e : Setup) (b b' : BufferPair) (bs : List BufferPair) (irow : ℕ) (c d : PmCols)
    → AreShown e bs (suc irow) (written e b irow c) d
    → (j : ℕ) → get_elem? (b ∷ bs) j ≡ some b'
    → row_at d (irow + j) ≡ row_of e b' (irow + j)
first_shown e b b' bs irow c d r zero q =
    let same : b ≡ b' = cc in
    let here : irow + 0 ≡ irow = omega arith in
    rw (here, ← same) (r.kept irow (omega arith) ∙ row_at-written e b irow c)
first_shown e b b' bs irow c d r (suc j) q =
    let next : irow + suc j ≡ suc irow + j = omega arith in rw next (r.shown j b' q)

-- Where the update goes ahead and the columns have room, each filled buffer gets its row: the
-- buffer in place j, from the front, is described by row `irow` + j: by its two indices and the
-- scratchpad words of sample `irow` + j + 1 of its live or its store buffer, whichever is asked
-- for. No row before is changed.
pub show_rows-AreShown :
    (e : Setup) (bs : List BufferPair) (irow : ℕ) (c : PmCols)
    → irow + length bs ≤ max_pm_buffers
    → (d : PmCols) × (show_rows e true bs irow c ≡ some d) × AreShown e bs irow c d
unfolding show_rows
show_rows-AreShown e [] irow c h =
    (c, refl, record { shown = λ j b q. absurd cc; kept = λ j q. refl })
show_rows-AreShown e (b ∷ bs) irow c h =
    let r = show_rows-AreShown e bs (suc irow) (written e b irow c) (omega arith) in
    (
      r.0,
      rw (show_rows, lt→ltb irow max_pm_buffers (omega arith), show_row_ahead e b irow c, r.1) refl,
      record {
        shown = λ j b' q. first_shown e b b' bs irow c (r.0) r.2 j q;
        kept = λ j q. r.2.kept j (omega arith) ∙ row_at-written_ne e b irow j c (omega arith);
      },
    )

abbrev pub oldest : BufferPair → List BufferPair → BufferPair
oldest b [] = b
oldest b (b' ∷ bs) = oldest b' bs

-- Where the rate limit holds the update back, no row but `irow` is changed, and in that row the
-- oldest of the filled buffers, not the latest, leaves its two indices beside the older words.
pub show_rows_held :
    (e : Setup) (b : BufferPair) (bs : List BufferPair) (irow : ℕ) (c : PmCols) (j : ℕ)
    → irow < max_pm_buffers
    → j ≢ irow
    → (d : PmCols) × (show_rows e false (b ∷ bs) irow c ≡ some d)
      × (row_at d irow
          ≡ record (row_at c irow) { live = (oldest b bs).ib_live; store = (oldest b bs).ib_store })
      × (row_at d j ≡ row_at c j)
unfolding show_rows
show_rows_held e b [] irow c j h q = (
  placed b irow c,
  rw (show_rows, lt→ltb irow max_pm_buffers h, show_row_held e b irow c) refl,
  simp (update_self),
  row_at-placed_ne b irow j c q,
)
show_rows_held e b (b' ∷ bs) irow c j h q =
    let r = show_rows_held e b' bs irow (placed b irow c) j h q in
    (
      r.0,
      rw (show_rows, lt→ltb irow max_pm_buffers h, show_row_held e b irow c, r.1) refl,
      r.2,
      r.3 ∙ row_at-placed_ne b irow j c q,
    )
