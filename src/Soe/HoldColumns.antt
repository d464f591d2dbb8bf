-- ===== src/Soe/HoldColumns.antt =====
-- acq400_SOE.cpp: update_hld_tab_columns(), the hold table as columns for a display. What makes
-- a float of a raw level is an argument.
use acq400_xrm.Prelude.{
  ℕ, zero, suc, ◌+◌, ◌*◌, ◌/◌, ◌%◌, ◌^◌, ◌≤◌, ◌<◌, ◌≡◌, ◌≢◌, refl, ap, sym, ◌∙◌, Bool, true, false,
  List, [], ◌∷◌, ltb, ◌==◌, if◌then◌else◌, length, arith,
}
use acq400_xrm.Prelude.Int.{ℤ, of_bits}
use acq400_xrm.Prelude.Memory.{
  Mem, WordMem, update, write_words, read_words, read_words-write_words,
}
use acq400_xrm.Structs.{SoeHoldHeader, load_header, soe_hld_rows}
use acq400_xrm.SamplePrams.{SamplePrams}
use acq400_xrm.WrTime.{vernier_sec, vernier_ticks, get_wr_ts}
use acq400_xrm.Soe.Table.{AllNamed, Match, header_for, IsTable}

-- One row of struct HOLD_COLS, whose members are arrays of the same length. The last three are
-- signed too, and never negative.
pub record HoldRow (F : Type 0) : Type 0 where
  pub c_event : ℤ
  pub c_pv_id : ℤ
  pub c_offset_us : ℤ
  pub c_client_data : ℤ
  pub c_timestamp : ℤ
  pub c_ai1 : F
  pub c_ai2 : F
  pub c_di1 : ℤ
  pub c_di2 : ℤ
  pub c_sp0 : ℤ
  pub c_sp1 : ℤ
  pub c_sp2 : ℤ
  pub c_sp3 : ℤ
  pub c_wrvs : ℕ
  pub c_wrvt : ℕ
  pub c_wrus : ℕ

module _ {F : Type 0} (volts : ℤ → F) (p : SamplePrams) where
  -- ++SP1_SIM where there is more than one word of digital inputs, and else the second word.
  unfoldable pub sim_after : ℕ → ℕ
  sim_after sim = if ltb 1 p.di_count then (sim + 1) % 2 ^ 32 else sim

  -- The row for a header, with `raw` at its sample, and the counter SP1_SIM before.
  unfoldable pub hold_row : SoeHoldHeader → WordMem → ℕ → HoldRow F
  hold_row h raw sim =
      let wrv = raw (p.sp_index + 2) in
      let wrs = raw (p.sp_index + 3) in
      record {
        c_event = of_bits 16 h.lut_row.event;
        c_pv_id = of_bits 32 h.lut_row.pv_id;
        c_offset_us = h.lut_row.offset_us;
        c_client_data = of_bits 32 h.client_data;
        c_timestamp = h.timestamp;
        c_ai1 = volts (of_bits 16 (raw 0 % 2 ^ 16));
        c_ai2 = volts (of_bits 16 (raw 0 / 2 ^ 16));
        c_di1 = of_bits 32 (raw (p.di_index));
        c_di2 = of_bits 32 (if ltb 1 p.di_count then sim_after sim else raw (p.di_index + 1));
        c_sp0 = of_bits 32 (raw (p.sp_index));
        c_sp1 = of_bits 32 (raw (p.sp_index + 1));
        c_sp2 = of_bits 32 wrv;
        c_sp3 = of_bits 32 wrs;
        c_wrvs = vernier_sec wrv;
        c_wrvt = vernier_ticks wrv;
        c_wrus = get_wr_ts wrs wrv;
      }

  -- The loop from row `row` over the rows left: the columns, the row at which it ends, which
  -- becomes hold_row_limit, and the counter.
  unfoldable pub hold_rows : WordMem → ℕ → ℕ → ℕ → Mem (HoldRow F) → Mem (HoldRow F) × ℕ × ℕ
  hold_rows ht zero row sim cols = (cols, row, sim)
  hold_rows ht (suc left) row sim cols =
      let h = load_header ht row in
      let raw : WordMem = λ j. ht (h.data_offset + j) in
      let rest =
        hold_rows ht left (row + 1) (sim_after sim) (update cols row (hold_row h raw sim)) in
      if h.lut_row.pv_id == 0 then (cols, row, sim) else rest

  unfoldable pub update_hld_tab_columns : WordMem → ℕ → Mem (HoldRow F) → Mem (HoldRow F) × ℕ × ℕ
  update_hld_tab_columns ht sim cols = hold_rows ht soe_hld_rows 0 sim cols

  -- The rows that the loop writes for the matches of a cycle.
  unfoldable pub rows_by_code : WordMem → ℕ → ℕ → ℕ → List Match → List (HoldRow F)
  rows_by_code raw n off sim [] = []
  rows_by_code raw n off sim (e ∷ es) =
      hold_row (header_for p e off) (λ j. raw (e.bsi * n + j)) sim
      ∷ rows_by_code raw n (off + n) (sim_after sim) es

  -- The row depends on the words of the sample only.
  hold_row_agree :
      (h : SoeHoldHeader) (ptr raw : WordMem) (n sim : ℕ)
      → ((j : ℕ) → j < n → ptr j ≡ raw j)
      → p.di_index + 2 ≤ n
      → p.sp_index + 4 ≤ n
      → hold_row h ptr sim ≡ hold_row h raw sim
  unfolding hold_row
  hold_row_agree h ptr raw n sim same d s =
      rw
        (
          same 0 (omega arith),
          same p.di_index (omega arith),
          same (p.di_index + 1) (omega arith),
          same p.sp_index (omega arith),
          same (p.sp_index + 1) (omega arith),
          same (p.sp_index + 2) (omega arith),
          same (p.sp_index + 3) (omega arith),
        )
        refl

  hold_rows_more :
      (ht : WordMem) (left row sim : ℕ) (cols : Mem (HoldRow F)) (h : SoeHoldHeader)
      → load_header ht row ≡ h
      → h.lut_row.pv_id ≢ 0
      → hold_rows ht (suc left) row sim cols
        ≡ hold_rows ht left
            (row + 1)
            (sim_after sim)
            (update cols row (hold_row h (λ j. ht (h.data_offset + j)) sim))
  unfolding hold_rows
  hold_rows_more ht left row sim cols h e nz = rw e (ground arith)

  hold_rows_end :
      (ht : WordMem) (left row sim : ℕ) (cols : Mem (HoldRow F))
      → (load_header ht row).lut_row.pv_id ≡ 0
      → hold_rows ht left row sim cols ≡ (cols, row, sim)
  unfolding hold_rows
  hold_rows_end ht zero row sim cols h = refl
  hold_rows_end ht (suc left) row sim cols h = rw h refl

  unfoldable sims : ℕ → List Match → ℕ
  sims sim [] = sim
  sims sim (e ∷ es) = sims (sim_after sim) es

  length-rows_by_code :
      (raw : WordMem) (n off sim : ℕ) (es : List Match)
      → length (rows_by_code raw n off sim es) ≡ length es
  unfolding rows_by_code
  length-rows_by_code raw n off sim [] = refl
  length-rows_by_code raw n off sim (e ∷ es) =
      ap suc (length-rows_by_code raw n (off + n) (sim_after sim) es)

  module _ (raw ht : WordMem) (n : ℕ) (di : p.di_index + 2 ≤ n) (sp : p.sp_index + 4 ≤ n) where
    hold_rows-IsTable :
        (es : List Match) (row off left sim : ℕ) (cols : Mem (HoldRow F))
        → IsTable p raw n ht row off es
        → AllNamed es
        → off + length es * n < 2 ^ 16
        → length es ≤ left
        → hold_rows ht left row sim cols
          ≡ (write_words cols row (rows_by_code raw n off sim es), row + length es, sims sim es)
    unfolding rows_by_code sims write_words
    hold_rows-IsTable [] row off left sim cols t named fits room =
        let none_more : row + 0 ≡ row = omega arith in
        rw none_more (hold_rows_end ht left row sim cols t)
    hold_rows-IsTable (e ∷ es) row off zero sim cols t named fits room = absurd (omega arith)
    hold_rows-IsTable (e ∷ es) row off (suc left) sim cols t named fits room =
        let h = header_for p e off in
        let small : off % 2 ^ 16 ≡ off = omega arith in
        let here =
          hold_row_agree h (λ j. ht (h.data_offset + j)) (λ j. raw (e.bsi * n + j)) n sim
            (λ j a. rw small (t.1 j a)) di sp in
        let next = update cols row (hold_row h (λ j. raw (e.bsi * n + j)) sim) in
        let rest =
          hold_rows-IsTable es (row + 1) (off + n) left (sim_after sim) next t.2 named.1
            (omega arith) (omega arith) in
        let size : row + 1 + length es ≡ row + suc (length es) = omega arith in
        hold_rows_more ht left row sim cols h t.0 named.0
        ∙ ap (λ w. hold_rows ht left (row + 1) (sim_after sim) (update cols row w)) here
        ∙ rest
        ∙ ap
            (λ k. (
              write_words next (row + 1) (rows_by_code raw n (off + n) (sim_after sim) es),
              k,
              sims sim (e ∷ es),
            ))
            size

  -- The row that is wanted for a match, with `word` the words of its sample, and `sim` the
  -- number of rows shown before, which stands for the second digital word where there are
  -- more than one.
  abbrev pub row_for : Match → WordMem → ℕ → HoldRow F
  row_for e word sim = record {
    c_event = of_bits 16 e.lut_row.event;
    c_pv_id = of_bits 32 e.lut_row.pv_id;
    c_offset_us = e.lut_row.offset_us;
    c_client_data = of_bits 32 e.bsi;
    c_timestamp = e.fmt_row.timestamp;
    c_ai1 = volts (of_bits 16 (word 0 % 2 ^ 16));
    c_ai2 = volts (of_bits 16 (word 0 / 2 ^ 16));
    c_di1 = of_bits 32 (word p.di_index);
    c_di2 = of_bits 32 (if ltb 1 p.di_count then (sim + 1) % 2 ^ 32 else word (p.di_index + 1));
    c_sp0 = of_bits 32 (word p.sp_index);
    c_sp1 = of_bits 32 (word (p.sp_index + 1));
    c_sp2 = of_bits 32 (word (p.sp_index + 2));
    c_sp3 = of_bits 32 (word (p.sp_index + 3));
    c_wrvs = word (p.sp_index + 2) / 2 ^ 28 % 8;
    c_wrvt = word (p.sp_index + 2) % 2 ^ 28;
    c_wrus = get_wr_ts (word (p.sp_index + 3)) (word (p.sp_index + 2));
  }

  -- The rows for the matches of a cycle, with the samples of n words of the raw buffer.
  unfoldable pub rows_wanted : WordMem → ℕ → ℕ → List Match → List (HoldRow F)
  rows_wanted raw n sim [] = []
  rows_wanted raw n sim (e ∷ es) =
      row_for e (λ j. raw (e.bsi * n + j)) sim
      ∷ rows_wanted raw n (if ltb 1 p.di_count then (sim + 1) % 2 ^ 32 else sim) es

  hold_row_more :
      (e : Match) (off : ℕ) (raw : WordMem) (sim : ℕ) (b : Bool)
      → ltb 1 p.di_count ≡ b
      → hold_row (header_for p e off) raw sim ≡ row_for e raw sim
  unfolding hold_row sim_after
  hold_row_more e off raw sim true h = rw h refl
  hold_row_more e off raw sim false h = rw h refl

  rows_by_code-rows_wanted :
      (raw : WordMem) (n off sim : ℕ) (es : List Match)
      → rows_by_code raw n off sim es ≡ rows_wanted raw n sim es
  unfolding rows_by_code rows_wanted sim_after
  rows_by_code-rows_wanted raw n off sim [] = refl
  rows_by_code-rows_wanted raw n off sim (e ∷ es) =
      ap (λ r. r ∷ rows_by_code raw n (off + n) (sim_after sim) es)
        (hold_row_more e off (λ j. raw (e.bsi * n + j)) sim (ltb 1 p.di_count) refl)
      ∙ ap (λ rs. row_for e (λ j. raw (e.bsi * n + j)) sim ∷ rs)
          (rows_by_code-rows_wanted raw n (off + n) (sim_after sim) es)

  -- The columns that go out after a cycle: if `ht` is the hold table of the matches, each of
  -- which names a process variable, in less than 2^16 words, and the geometry's channels lie
  -- within the sample, then there is one row for each match, in order, and hold_row_limit is
  -- their number. A row has the match's event, process variable, offset and sample index, and the
  -- first two levels, the first digital word, the four scratchpad words and the time of its
  -- sample in the raw buffer; its second digital word is that of the sample only where the
  -- geometry has at most one, and else a counter of rows.
  pub update_hld_tab_columns-IsTable :
      (raw ht : WordMem) (n : ℕ) (es : List Match) (off sim : ℕ) (cols : Mem (HoldRow F))
      → p.di_index + 2 ≤ n
      → p.sp_index + 4 ≤ n
      → IsTable p raw n ht 0 off es
      → AllNamed es
      → off + length es * n < 2 ^ 16
      → length es ≤ 64
      → (read_words ((update_hld_tab_columns ht sim cols).0) 0 (length es)
          ≡ rows_wanted raw n sim es)
        × ((update_hld_tab_columns ht sim cols).1 ≡ length es)
  unfolding update_hld_tab_columns
  update_hld_tab_columns-IsTable raw ht n es off sim cols di sp t named fits room =
      let all = hold_rows-IsTable raw ht n di sp es 0 off 64 sim cols t named fits room in
      (
        ap (λ (r : Mem (HoldRow F) × ℕ × ℕ). read_words (r.0) 0 (length es)) all
            ∙ ap (read_words (write_words cols 0 (rows_by_code raw n off sim es)) 0)
                (sym (length-rows_by_code raw n off sim es))
            ∙ read_words-write_words cols 0 (rows_by_code raw n off sim es)
            ∙ rows_by_code-rows_wanted raw n off sim es,
        ap (λ (r : Mem (HoldRow F) × ℕ × ℕ). r.1) all ∙ omega arith,
      )
