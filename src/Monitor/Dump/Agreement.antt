-- ===== src/Monitor/Dump/Agreement.antt =====
-- The print of a hold table in xrm_struct_support.cpp shows what the monitor shows.
use acq400_xrm.Prelude.{
  ℕ, zero, suc, ◌+◌, ◌/◌, ◌%◌, ◌≤◌, ◌≡◌, ◌≢◌, refl, sym, ap, ◌∙◌, true, false, ◌⊎◌, inl, inr, some,
  List, [], ◌∷◌, ◌++◌, map, take, length, arith, ◌>>=◌, ◌==◌, Bool-cases,
}
use mathlib.Core.Path.{subst}
use acq400_xrm.Prelude.Int.{of_bits, to_bits}
use acq400_xrm.Prelude.Memory.{WordMem, read_words}
use acq400_xrm.Prelude.Returns.{bind-some}
use acq400_xrm.Structs.{SoeHoldHeader, load_header, soe_hld_rows}
use acq400_xrm.Monitor.{Entry, print_entry, short_at, shorts, parse}
use acq400_xrm.Monitor.Dump.{
  HeaderLine, levels_from, header_line, show_sp, word_at_half, words_from_half, print_sample,
  print_headers, print_samples, print_hold,
}

-- What the monitor's entry says of the words behind the levels.
abbrev pub shown_words : Entry → List ℕ
shown_words e = e.di32 ++ take show_sp e.sp32

-- The lines of the entries from a row on: the number of the row, the process variable as a signed
-- number, the event, the time offset, the client's word, the place and the two counts of the
-- sample, and the timestamp without a sign.
abbrev pub lines_of : ℕ → List Entry → List HeaderLine
lines_of n [] = []
lines_of n (e ∷ es) =
    record {
      row = n;
      pv_id = of_bits 32 e.hdr.lut_row.pv_id;
      event = e.hdr.lut_row.event;
      offset_us = e.hdr.lut_row.offset_us;
      client_data = e.hdr.client_data;
      data_offset = e.hdr.data_offset;
      ai_count = e.hdr.ai_count;
      di_count = e.hdr.di_count;
      timestamp = to_bits 64 e.hdr.timestamp;
    }
    ∷ lines_of (n + 1) es

levels_from-shorts : (ptr : WordMem) (k n : ℕ) → levels_from ptr k n ≡ shorts ptr k n
unfolding levels_from shorts short_at
levels_from-shorts ptr k zero = refl
levels_from-shorts ptr k (suc n) = rw (levels_from-shorts ptr (k + 1) n) (ground arith)

-- A level count that is even, and at least as many scratchpad words as are always shown.
abbrev pub IsShowable : Entry → Type 0
IsShowable e = (e.hdr.ai_count % 2 ≡ 0) × (show_sp ≤ e.hdr.sp_count)

abbrev pub AllShowable : List Entry → Type 0
AllShowable [] = Unit {0}
AllShowable (e ∷ es) = IsShowable e × AllShowable es

at_even : (ptr : WordMem) (k : ℕ) → k % 2 ≡ 0 → word_at_half ptr k ≡ ptr (k / 2)
unfolding word_at_half
at_even ptr k h = rw h refl

words_from_half-even :
    (ptr : WordMem) (k n : ℕ) → k % 2 ≡ 0 → words_from_half ptr k n ≡ read_words ptr (k / 2) n
unfolding words_from_half read_words word_at_half
words_from_half-even ptr k zero h = refl
words_from_half-even ptr k (suc n) h =
    let half : (k + 2) / 2 ≡ k / 2 + 1 = omega arith in
    let rest = words_from_half-even ptr (k + 2) n (omega arith) in
    let later : words_from_half ptr (k + 2) n ≡ read_words ptr (k / 2 + 1) n =
      rest ∙ ap (λ o. read_words ptr o n) half in
    let first : word_at_half ptr k ≡ ptr (k / 2) = at_even ptr k h in cc (first, later)

take-read_words :
    (ptr : WordMem) (off b c : ℕ) → b ≤ c → take b (read_words ptr off c) ≡ read_words ptr off b
unfolding read_words
take-read_words ptr off zero c h = refl
take-read_words ptr off (suc b) zero h = absurd (omega arith)
take-read_words ptr off (suc b) (suc c) h =
    ap (λ ws. ptr off ∷ ws) (take-read_words ptr (off + 1) b c (omega arith))

read_words_sum :
    (ptr : WordMem) (off a b : ℕ)
    → read_words ptr off (a + b) ≡ read_words ptr off a ++ read_words ptr (off + a) b
unfolding read_words
read_words_sum ptr off zero b =
    let count : 0 + b ≡ b = omega arith in
    let start : off ≡ off + 0 = omega arith in
    ap (read_words ptr off) count ∙ ap (λ o. read_words ptr o b) start
read_words_sum ptr off (suc a) b =
    let count : suc a + b ≡ suc (a + b) = omega arith in
    let start : off + 1 + a ≡ off + suc a = omega arith in
    ap (read_words ptr off) count
    ∙ ap (λ ws. ptr off ∷ ws) (read_words_sum ptr (off + 1) a b)
    ∙ ap (λ o. ptr off ∷ (read_words ptr (off + 1) a ++ read_words ptr o b)) start

print_sample-entry :
    (h : SoeHoldHeader) (ptr : WordMem)
    → IsShowable (print_entry h ptr)
    → print_sample h ptr ≡ ((print_entry h ptr).ai16, shown_words (print_entry h ptr))
unfolding print_sample print_entry
print_sample-entry h ptr e =
    ap (λ ls. (ls, words_from_half ptr h.ai_count (h.di_count + 3)))
      (levels_from-shorts ptr 0 h.ai_count)
    ∙ ap (λ ws. (shorts ptr 0 h.ai_count, ws))
        (words_from_half-even ptr h.ai_count (h.di_count + 3) e.0
          ∙ read_words_sum ptr (h.ai_count / 2) h.di_count 3
          ∙ ap (λ ws. read_words ptr (h.ai_count / 2) h.di_count ++ ws)
              (sym (take-read_words ptr (h.ai_count / 2 + h.di_count) 3 h.sp_count e.1)))

-- Both lists of the print, from a row on, show these entries.
abbrev AreShown : ℕ → WordMem → ℕ → List Entry → Type 0
AreShown left ht row es =
    (print_headers left ht row ≡ lines_of row es)
    × (print_samples left ht row ≡ map (λ (e : Entry). (e.ai16, shown_words e)) es)

entry_at : WordMem → ℕ → Entry
entry_at ht row = print_entry (load_header ht row) (λ j. ht ((load_header ht row).data_offset + j))

shown_end :
    (left : ℕ) (ht : WordMem) (row : ℕ)
    → ((load_header ht row).lut_row.pv_id == 0) ≡ true
    → AreShown (suc left) ht row []
unfolding print_headers print_samples
shown_end left ht row b = (rw b refl, rw b refl)

shown_step :
    (left : ℕ) (ht : WordMem) (row : ℕ) (es : List Entry)
    → ((load_header ht row).lut_row.pv_id == 0) ≡ false
    → IsShowable (entry_at ht row)
    → AreShown left ht (row + 1) es
    → AreShown (suc left) ht row (entry_at ht row ∷ es)
unfolding print_headers print_samples entry_at print_entry load_header header_line
shown_step left ht row es b e t = (
  rw b (ap (λ hs. header_line row (load_header ht row) ∷ hs) t.0),
  rw b (
      ap (λ x. x ∷ print_samples left ht (row + 1))
        (print_sample-entry (load_header ht row) (λ j. ht ((load_header ht row).data_offset + j)) e)
      ∙ ap (λ xs. ((entry_at ht row).ai16, shown_words (entry_at ht row)) ∷ xs) t.1),
)

no_fuel : (ht : WordMem) (row : ℕ) (es : List Entry) → parse zero ht row ≢ some es
unfolding parse
no_fuel ht row es p = cc

no_rows : (ht : WordMem) (row : ℕ) → AreShown zero ht row []
unfolding print_headers print_samples
no_rows ht row = (refl, refl)

-- What parse() gives at a row: nothing, or the entry there before those behind it.
parse_cases :
    (fuel : ℕ) (ht : WordMem) (row : ℕ) (es : List Entry)
    → parse (suc fuel) ht row ≡ some es
    → ((((load_header ht row).lut_row.pv_id == 0) ≡ true) × ([] ≡ es))
      ⊎ ((((load_header ht row).lut_row.pv_id == 0) ≡ false)
          × ((r : List Entry) × (parse fuel ht (row + 1) ≡ some r) × (entry_at ht row ∷ r ≡ es)))
unfolding parse entry_at
parse_cases fuel ht row es p = elim (Bool-cases ((load_header ht row).lut_row.pv_id == 0)) [
  | inl b ↦ inl (b, cc (b, p))
  | inr b ↦
      let chain : (parse fuel ht (row + 1) >>= λ (es : List Entry). some (entry_at ht row ∷ es))
          ≡ some es =
        cc (b, p) in
      let r = bind-some (parse fuel ht (row + 1)) _ chain in inr (b, (r.0, r.1, cc (r.2)))
]

rows_shown :
    (fuel left : ℕ) (ht : WordMem) (row : ℕ) (es : List Entry)
    → parse fuel ht row ≡ some es
    → length es ≤ left
    → AllShowable es
    → AreShown left ht row es
rows_shown zero left ht row es p l a = absurd (no_fuel ht row es p)
rows_shown (suc fuel) zero ht row [] p l a = no_rows ht row
rows_shown (suc fuel) zero ht row (e ∷ es) p l a = absurd (omega arith)
rows_shown (suc fuel) (suc left) ht row es p l a = elim (parse_cases fuel ht row es p) [
  | inl (b, e) ↦ subst (λ x. AreShown (suc left) ht row x) e (shown_end left ht row b)
  | inr (b, (r, q, e)) ↦
      let longer : suc (length r) ≡ length es = ap length e in
      let showable : AllShowable (entry_at ht row ∷ r) = subst AllShowable (sym e) a in
      subst (λ x. AreShown (suc left) ht row x) e
        (shown_step left ht row r b showable.0
          (rows_shown fuel left ht (row + 1) r q (omega arith) showable.1))
]

-- Where the monitor takes a table apart into at most as many entries as the table has rows, with
-- an even count of levels and three scratchpad words or more each, the print of the table shows
-- the same: of the header of each entry a line with its row and eight of its fields, in order, and
-- in a second list the levels of each, and its digital words with its first three scratchpad words.
pub print_hold-parse :
    (fuel : ℕ) (ht : WordMem) (es : List Entry)
    → parse fuel ht 0 ≡ some es
    → length es ≤ soe_hld_rows
    → AllShowable es
    → print_hold ht ≡ (lines_of 0 es, map (λ e. (e.ai16, shown_words e)) es)
unfolding print_hold
print_hold-parse fuel ht es p l a =
    let r = rows_shown fuel soe_hld_rows ht 0 es p l a in cc (r.0, r.1)
