-- ===== src/Monitor/Dump.antt =====
-- xrmIocApp/src/xrm_struct_support.cpp: the prints of the tables, as the numbers that they show. A
-- level is shown before its scaling to volts. The tables are those of Structs.
pub mod Agreement
use acq400_xrm.Prelude.{
  ℕ, zero, suc, ◌+◌, ◌*◌, ◌/◌, ◌%◌, ◌^◌, ◌≤◌, ◌<◌, ◌≡◌, ◌≢◌, refl, sym, ap, ◌∙◌, Bool, true, false,
  ◌⊎◌, inl, inr, Option, none, some, List, [], ◌∷◌, ◌++◌, map, take, length, arith, ◌>>=◌, ◌==◌,
  if◌then◌else◌, Bool-cases,
}
use mathlib.Core.Path.{subst}
use acq400_xrm.Prelude.Int.{ℤ, of_bits, to_bits}
use acq400_xrm.Prelude.Memory.{WordMem, read_words}
use acq400_xrm.Prelude.Returns.{bind-some}
use acq400_xrm.Structs.{FmtRow, Fmt, SoeLutRow, SoeLut, SoeHoldHeader, load_header, soe_hld_rows}
use acq400_xrm.Monitor.{Entry, print_entry, shorts, parse}

-- print(FMT&): the rows with an event, each with its number.
unfoldable pub print_fmt : Fmt → ℕ → List (ℕ × FmtRow)
print_fmt [] row = []
print_fmt (r ∷ rows) row =
    let later = print_fmt rows (row + 1) in if r.event == 0 then later else (row, r) ∷ later

-- print(SOE_LUT&)
unfoldable pub print_lut : SoeLut → ℕ → List (ℕ × SoeLutRow)
print_lut [] row = []
print_lut (r ∷ rows) row =
    let later = print_lut rows (row + 1) in if r.event == 0 then later else (row, r) ∷ later

abbrev pub show_sp : ℕ
show_sp = 3

-- The word at half-word k, as *di++ reads it behind the last short.
unfoldable pub word_at_half : WordMem → ℕ → ℕ
word_at_half ptr k =
    if k % 2 == 0 then ptr (k / 2) else ptr (k / 2) / 2 ^ 16 + ptr (k / 2 + 1) % 2 ^ 16 * 2 ^ 16

unfoldable pub words_from_half : WordMem → ℕ → ℕ → List ℕ
words_from_half ptr k zero = []
words_from_half ptr k (suc n) = word_at_half ptr k ∷ words_from_half ptr (k + 2) n

-- The levels, *ai++ from short k on.
unfoldable pub levels_from : WordMem → ℕ → ℕ → List ℤ
levels_from ptr k zero = []
levels_from ptr k (suc n) =
    let word = ptr (k / 2) in
    let level = of_bits 16 (if k % 2 == 0 then word % 2 ^ 16 else word / 2 ^ 16) in
    level ∷ levels_from ptr (k + 1) n

-- The levels of a sample and the words behind them.
unfoldable pub print_sample : SoeHoldHeader → WordMem → List ℤ × List ℕ
print_sample h ptr =
    (levels_from ptr 0 h.ai_count, words_from_half ptr h.ai_count (h.di_count + show_sp))

-- What a line shows of a header.
pub record HeaderLine : Type 0 where
  pub row : ℕ
  pub pv_id : ℤ
  pub event : ℕ
  pub offset_us : ℤ
  pub client_data : ℕ
  pub data_offset : ℕ
  pub ai_count : ℕ
  pub di_count : ℕ
  pub timestamp : ℕ

unfoldable pub header_line : ℕ → SoeHoldHeader → HeaderLine
header_line row h = record {
  row = row;
  pv_id = of_bits 32 h.lut_row.pv_id;
  event = h.lut_row.event;
  offset_us = h.lut_row.offset_us;
  client_data = h.client_data;
  data_offset = h.data_offset;
  ai_count = h.ai_count;
  di_count = h.di_count;
  timestamp = to_bits 64 h.timestamp;
}

-- The first loop of print(SOE_HOLD_HEADER*), over the rows left.
unfoldable pub print_headers : ℕ → WordMem → ℕ → List HeaderLine
print_headers zero ht row = []
print_headers (suc left) ht row =
    let h = load_header ht row in
    let later = print_headers left ht (row + 1) in
    if h.lut_row.pv_id == 0 then [] else header_line row h ∷ later

-- The second one; sizeof(long) is that of a word.
unfoldable pub print_samples : ℕ → WordMem → ℕ → List (List ℤ × List ℕ)
print_samples zero ht row = []
print_samples (suc left) ht row =
    let h = load_header ht row in
    let later = print_samples left ht (row + 1) in
    if h.lut_row.pv_id == 0 then [] else print_sample h (λ j. ht (h.data_offset + j)) ∷ later

unfoldable pub print_hold : WordMem → List HeaderLine × List (List ℤ × List ℕ)
print_hold ht = (print_headers soe_hld_rows ht 0, print_samples soe_hld_rows ht 0)
