-- ===== src/Monitor/Formats.antt =====
-- The other formatters of xrm_ht_monitor.cpp, binary and hint, under the loop of parse().
use acq400_xrm.Prelude.{
  ℕ, zero, suc, ◌+◌, ◌*◌, ◌<◌, ◌≡◌, ◌≢◌, refl, ap, ◌∙◌, Option, none, some, List, [], ◌∷◌, ◌++◌,
  length, ◌==◌, if◌then◌else◌, arith,
}
use acq400_xrm.Prelude.Memory.{WordMem, read_words}
use acq400_xrm.Structs.{SoeHoldHeader, load_header, header_words, Fmt}
use acq400_xrm.SamplePrams.{SamplePrams}
use acq400_xrm.Soe.Strategy.{SoeDims, Rc, ssl, soe_lut_lookup}
use acq400_xrm.Soe.Table.{Match, AllNamed, header_for, IsTable}
use acq400_xrm.Soe.Lookup.{cycle_hits, IsReady, soe_lut_lookup-IsCycle}

-- A member that counts the headers, and what went out: to a binary file the words of an array,
-- to a hint the size, the five numbers of a header and the count at the end.
pub record Bin : Type 0 where
  pub iheader : ℕ
  pub blocks : List (List ℕ)

-- BIN_Formatter::start() and print(), with the array that arrived and the row of the header.
unfoldable pub bin_start : Bin
bin_start = record { iheader = 0; blocks = [] }

unfoldable pub bin_print : ℕ → WordMem → ℕ → Bin → Bin
bin_print nelems ht row f = record {
  iheader = f.iheader + 1;
  blocks =
      if f.iheader == 0
      then f.blocks ++ read_words ht (row * header_words) nelems ∷ []
      else f.blocks;
}

pub record Hint : Type 0 where
  pub count : ℕ
  pub lines : List ℕ

-- HintFormatter::start() and print(); finish() prints the count.
unfoldable pub hint_start : Hint
hint_start = record { count = 0; lines = [] }

unfoldable pub hint_print : ℕ → WordMem → ℕ → Hint → Hint
hint_print nelems ht row f =
    let h = load_header ht row in
    record {
      count = f.count + 1;
      lines =
          if f.count == 0
          then f.lines
            ++ nelems ∷ h.ss_u32 ∷ h.ai_count ∷ h.di_count ∷ h.sp_count ∷ h.data_offset ∷ []
          else f.lines;
    }

-- parse() with a formatter, from header `row` on, on fuel.
unfoldable pub parse_with : {S : Type 0} → (ℕ → S → S) → ℕ → WordMem → ℕ → S → Option S
parse_with print zero ht row f = none
parse_with print (suc fuel) ht row f =
    let rest = parse_with print fuel ht (row + 1) (print row f) in
    if (load_header ht row).lut_row.pv_id == 0 then some f else rest

-- So many rows are printed, from `row` on.
unfoldable pub prints : {S : Type 0} → (ℕ → S → S) → ℕ → ℕ → S → S
prints print zero row f = f
prints print (suc n) row f = prints print n (row + 1) (print row f)

parse_with_end :
    {S : Type 0} (print : ℕ → S → S) (fuel row : ℕ) (ht : WordMem) (f : S)
    → (load_header ht row).lut_row.pv_id ≡ 0
    → parse_with print (suc fuel) ht row f ≡ some f
unfolding parse_with
parse_with_end print fuel row ht f h = rw h refl

parse_with_more :
    {S : Type 0} (print : ℕ → S → S) (fuel row : ℕ) (ht : WordMem) (f : S) (h : SoeHoldHeader)
    → load_header ht row ≡ h
    → h.lut_row.pv_id ≢ 0
    → parse_with print (suc fuel) ht row f ≡ parse_with print fuel ht (row + 1) (print row f)
unfolding parse_with
parse_with_more print fuel row ht f h e nz = rw e (ground arith)

parse_with-IsTable :
    {S : Type 0} (print : ℕ → S → S) (p : SamplePrams) (raw ht : WordMem) (n : ℕ) (es : List Match)
    (row off fuel : ℕ) (f : S)
    → IsTable p raw n ht row off es
    → AllNamed es
    → length es < fuel
    → parse_with print fuel ht row f ≡ some (prints print (length es) row f)
unfolding prints
parse_with-IsTable print p raw ht n es row off zero f t named h = absurd (omega arith)
parse_with-IsTable print p raw ht n [] row off (suc fuel) f t named h =
    parse_with_end print fuel row ht f t
parse_with-IsTable print p raw ht n (e ∷ es) row off (suc fuel) f t named h =
    parse_with_more print fuel row ht f (header_for p e off) t.0 named.0
    ∙ parse_with-IsTable print p raw ht n es (row + 1) (off + n) fuel (print row f) t.2 named.1
        (omega arith)

abbrev bin : ℕ → List (List ℕ) → Bin
bin m blocks = record { iheader = m; blocks = blocks }

bin_print_more :
    (nelems : ℕ) (ht : WordMem) (row m : ℕ) (blocks : List (List ℕ))
    → 0 < m
    → bin_print nelems ht row (bin m blocks) ≡ bin (m + 1) blocks
unfolding bin_print
bin_print_more nelems ht row m blocks h = ground arith

bin_print_rest :
    (nelems : ℕ) (ht : WordMem) (n row m : ℕ) (blocks : List (List ℕ))
    → 0 < m
    → prints (bin_print nelems ht) n row (bin m blocks) ≡ bin (m + n) blocks
unfolding prints
bin_print_rest nelems ht zero row m blocks h = ap (λ k. bin k blocks) (omega arith)
bin_print_rest nelems ht (suc n) row m blocks h =
    ap (prints (bin_print nelems ht) n (row + 1)) (bin_print_more nelems ht row m blocks h)
    ∙ bin_print_rest nelems ht n (row + 1) (m + 1) blocks (omega arith)
    ∙ ap (λ k. bin k blocks) (omega arith)

bin_print_all :
    (nelems : ℕ) (ht : WordMem) (n : ℕ)
    → 0 < n
    → prints (bin_print nelems ht) n 0 bin_start ≡ bin n (read_words ht 0 nelems ∷ [])
unfolding prints bin_start bin_print
bin_print_all nelems ht zero h = absurd (omega arith)
bin_print_all nelems ht (suc n) h =
    bin_print_rest nelems ht n 1 1 (read_words ht 0 nelems ∷ []) (omega arith)
    ∙ ap (λ k. bin k (read_words ht 0 nelems ∷ [])) (omega arith)

-- A hold table goes to a binary file as it is: from a ready cycle with a match, whose matches are
-- named, the lookup returns a table of which the binary formatter writes all words that it is
-- told of, once, and counts the matches; N + 1 header reads are enough.
pub parse_with-bin_print :
    (soe : SoeDims) (latest : Fmt) (ht : WordMem) (rc : Rc) (nelems : ℕ)
    → IsReady soe latest ht
    → AllNamed (cycle_hits soe latest)
    → 0 < length (cycle_hits soe latest)
    → (done : WordMem × Rc) × (soe_lut_lookup soe latest ht rc ≡ some done)
      × (parse_with
            (bin_print nelems done.0)
            (length (cycle_hits soe latest) + 1)
            done.0
            0
            bin_start
          ≡ some (record {
            iheader = length (cycle_hits soe latest);
            blocks = read_words done.0 0 nelems ∷ [];
          }))
parse_with-bin_print soe latest ht rc nelems ready named h =
    let r = soe_lut_lookup-IsCycle soe latest ht rc ready in
    let es = cycle_hits soe latest in
    (
      r.0,
      r.1,
      parse_with-IsTable (bin_print nelems (r.0).0) soe.sample_prams soe.kbuf.raw (r.0).0
            (ssl soe.sample_prams) es 0 ((length es + 1) * 8) (length es + 1) bin_start (r.2).table
            named (omega arith)
          ∙ ap some (bin_print_all nelems (r.0).0 (length es) h),
    )
