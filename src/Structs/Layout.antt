-- ===== src/Structs/Layout.antt =====
-- A header written into the words of a hold table is read back as it was.
use acq400_xrm.Prelude.{
  ℕ, zero, suc, ◌+◌, ◌*◌, ◌/◌, ◌%◌, ◌^◌, ◌≤◌, ◌<◌, ◌≡◌, refl, ◌∙◌, ◌⊎◌, inl, arith, length, List,
  [], ◌∷◌, get_or,
}
use acq400_xrm.Prelude.Int.{to_bits, of_bits, Fits32, Fits64, of_bits-to_bits32, of_bits-to_bits64}
use acq400_xrm.Prelude.Memory.{WordMem, update, update_self, write_words, write_words_outside}
use acq400_xrm.Structs.{SoeHoldHeader, header_of, load_header, words_of, store_header}

-- Every field in the range of its C type.
pub record InRange (h : SoeHoldHeader) : Type 0 where
  pub event_fits : h.lut_row.event < 2 ^ 16
  pub pad_fits : h.lut_row.pad < 2 ^ 16
  pub pv_id_fits : h.lut_row.pv_id < 2 ^ 32
  pub offset_fits : Fits32 h.lut_row.offset_us
  pub client_data_fits : h.client_data < 2 ^ 32
  pub timestamp_fits : Fits64 h.timestamp
  pub data_offset_fits : h.data_offset < 2 ^ 16
  pub ss_u32_fits : h.ss_u32 < 2 ^ 8
  pub ai_count_fits : h.ai_count < 2 ^ 8
  pub di_count_fits : h.di_count < 2 ^ 8
  pub sp_count_fits : h.sp_count < 2 ^ 8

-- A header depends on the eight words of its row only.
pub load_header_agree :
    (m m' : WordMem) (row : ℕ)
    → ((j : ℕ) → row * 8 ≤ j → j < row * 8 + 8 → m j ≡ m' j)
    → load_header m row ≡ load_header m' row
unfolding load_header
load_header_agree m m' row h = rw (
  h (row * 8) (omega arith) (omega arith),
  h (row * 8 + 1) (omega arith) (omega arith),
  h (row * 8 + 2) (omega arith) (omega arith),
  h (row * 8 + 3) (omega arith) (omega arith),
  h (row * 8 + 4) (omega arith) (omega arith),
  h (row * 8 + 5) (omega arith) (omega arith),
  h (row * 8 + 6) (omega arith) (omega arith),
  h (row * 8 + 7) (omega arith) (omega arith),
)

-- Words written outside a row leave its header alone.
pub load_header-write_words :
    (m : WordMem) (off : ℕ) (ws : List ℕ) (row : ℕ)
    → (row * 8 + 8 ≤ off) ⊎ (off + length ws ≤ row * 8)
    → load_header (write_words m off ws) row ≡ load_header m row
load_header-write_words m off ws row h =
    load_header_agree (write_words m off ws) m row
      (λ j p q. write_words_outside m off ws j (omega arith))

word_in_list :
    (m : WordMem) (off : ℕ) (ws : List ℕ) (k w : ℕ)
    → k < length ws
    → get_or ws k w ≡ w
    → write_words m off ws (off + k) ≡ w
unfolding write_words
word_in_list m off [] k w h e = absurd (omega arith)
word_in_list m off (x ∷ ws) zero w h e = ground (
  arith,
  write_words_outside (update m off x) (off + 1) ws (off + 0) (inl (omega arith)),
  update_self m off x,
)
word_in_list m off (x ∷ ws) (suc k) w h e =
    ground (arith, word_in_list (update m off x) (off + 1) ws k w (omega arith) e)

first_word : (m : WordMem) (off x : ℕ) (ws : List ℕ) → write_words m off (x ∷ ws) off ≡ x
unfolding write_words
first_word m off x ws =
    write_words_outside (update m off x) (off + 1) ws off (inl (omega arith)) ∙ update_self m off x

stored_words :
    (m : WordMem) (row w0 w1 w2 w3 w4 w5 w6 w7 : ℕ)
    → load_header (write_words m (row * 8) (w0 ∷ w1 ∷ w2 ∷ w3 ∷ w4 ∷ w5 ∷ w6 ∷ w7 ∷ [])) row
      ≡ header_of w0 w1 w2 w3 w4 w5 w6 w7
unfolding load_header
stored_words m row w0 w1 w2 w3 w4 w5 w6 w7 =
    let ws : List ℕ = w0 ∷ w1 ∷ w2 ∷ w3 ∷ w4 ∷ w5 ∷ w6 ∷ w7 ∷ [] in
    rw (
      first_word m (row * 8) w0 (w1 ∷ w2 ∷ w3 ∷ w4 ∷ w5 ∷ w6 ∷ w7 ∷ []),
      word_in_list m (row * 8) ws 1 w1 (omega arith) refl,
      word_in_list m (row * 8) ws 2 w2 (omega arith) refl,
      word_in_list m (row * 8) ws 3 w3 (omega arith) refl,
      word_in_list m (row * 8) ws 4 w4 (omega arith) refl,
      word_in_list m (row * 8) ws 5 w5 (omega arith) refl,
      word_in_list m (row * 8) ws 6 w6 (omega arith) refl,
      word_in_list m (row * 8) ws 7 w7 (omega arith) refl,
    )

header_of-words_of :
    (h : SoeHoldHeader)
    → InRange h
    → header_of
        (h.lut_row.event + h.lut_row.pad * 2 ^ 16)
        h.lut_row.pv_id
        (to_bits 32 h.lut_row.offset_us)
        h.client_data
        (to_bits 64 h.timestamp % 2 ^ 32)
        (to_bits 64 h.timestamp / 2 ^ 32)
        (h.data_offset + h.ss_u32 * 2 ^ 16 + h.ai_count * 2 ^ 24)
        (h.di_count + h.sp_count * 2 ^ 8 + h.unused * 2 ^ 16)
      ≡ h
unfolding header_of
header_of-words_of h r =
    let offset : of_bits 32 (to_bits 32 h.lut_row.offset_us) ≡ h.lut_row.offset_us =
      of_bits-to_bits32 h.lut_row.offset_us r.offset_fits in
    let joined : to_bits 64 h.timestamp % 2 ^ 32 + to_bits 64 h.timestamp / 2 ^ 32 * 2 ^ 32
        ≡ to_bits 64 h.timestamp =
      omega arith in
    let timestamp : of_bits 64
          (to_bits 64 h.timestamp % 2 ^ 32 + to_bits 64 h.timestamp / 2 ^ 32 * 2 ^ 32)
        ≡ h.timestamp =
      rw joined (of_bits-to_bits64 h.timestamp r.timestamp_fits) in
    rw (offset, timestamp) (ground arith)

-- A header whose fields fit their C types is read back from the table as it was written.
pub load_header-store_header :
    (m : WordMem) (row : ℕ) (h : SoeHoldHeader)
    → InRange h
    → load_header (store_header m row h) row ≡ h
unfolding store_header words_of
load_header-store_header m row h r = stored_words m row _ _ _ _ _ _ _ _ ∙ header_of-words_of h r
