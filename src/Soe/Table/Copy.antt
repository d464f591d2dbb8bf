-- ===== src/Soe/Table/Copy.antt =====
-- The second loop of soe_lut_lookup() completes a drafted table.
use acq400_xrm.Prelude.{
  ℕ, ◌+◌, ◌*◌, ◌^◌, ◌≤◌, ◌<◌, ◌≡◌, refl, ◌∙◌, ◌⊎◌, inl, inr, List, [], ◌∷◌, map, length, length-map,
  arith,
}
use acq400_xrm.Prelude.Int.{Fits32, Fits64}
use acq400_xrm.Prelude.Memory.{
  WordMem, write_words, write_words_outside, read_words, read_words-length, write_words-read_words,
}
use acq400_xrm.Structs.{SoeHoldHeader, load_header, store_header, set_data_offset, words_of}
use acq400_xrm.Structs.Layout.{
  InRange, load_header-store_header, load_header-write_words, load_header_agree,
}
use acq400_xrm.SamplePrams.{SamplePrams}
use acq400_xrm.Soe.Strategy.{Kbuf, copy_samples}
use acq400_xrm.Soe.Table.{Match, header_for, IsDrafted, IsTable}

-- The fields of a match fit the columns that they go into.
pub record Fits (e : Match) : Type 0 where
  pub event_fits : e.lut_row.event < 2 ^ 16
  pub pv_id_fits : e.lut_row.pv_id < 2 ^ 32
  pub offset_fits : Fits32 e.lut_row.offset_us
  pub bsi_fits : e.bsi < 2 ^ 32
  pub timestamp_fits : Fits64 e.fmt_row.timestamp

abbrev pub AllFit : List Match → Type 0
AllFit [] = Unit {0}
AllFit (e ∷ es) = Fits e × AllFit es

pub header_for-InRange :
    (p : SamplePrams) (e : Match) (off : ℕ) → Fits e → InRange (header_for p e off)
header_for-InRange p e off f = record {
  event_fits = f.event_fits;
  pad_fits = omega arith;
  pv_id_fits = f.pv_id_fits;
  offset_fits = f.offset_fits;
  client_data_fits = f.bsi_fits;
  timestamp_fits = f.timestamp_fits;
  data_offset_fits = omega arith;
  ss_u32_fits = omega arith;
  ai_count_fits = omega arith;
  di_count_fits = omega arith;
  sp_count_fits = omega arith;
}

pub store_header_outside :
    (ht : WordMem) (row : ℕ) (h : SoeHoldHeader) (j : ℕ)
    → (j < row * 8) ⊎ (row * 8 + 8 ≤ j)
    → store_header ht row h j ≡ ht j
unfolding store_header words_of
store_header_outside ht row h j o = write_words_outside ht (row * 8) _ j o

pub load_header-store_header_ne :
    (ht : WordMem) (row other : ℕ) (h : SoeHoldHeader)
    → (row < other) ⊎ (other < row)
    → load_header (store_header ht row h) other ≡ load_header ht other
load_header-store_header_ne ht row other h o =
    load_header_agree (store_header ht row h) ht other
      (λ j p q. store_header_outside ht row h j (omega arith))

set_data_offset_outside :
    (ht : WordMem) (row off j : ℕ)
    → (j < row * 8) ⊎ (row * 8 + 8 ≤ j)
    → set_data_offset ht row off j ≡ ht j
unfolding set_data_offset
set_data_offset_outside ht row off j o = store_header_outside ht row _ j o

module _ (p : SamplePrams) (kbuf : Kbuf) (n : ℕ) where
  -- One round of the loop.
  abbrev placed : ℕ → ℕ → ℕ → WordMem → WordMem
  placed bsi row off ht =
      set_data_offset (write_words ht off (read_words kbuf.raw (bsi * n) n)) row off

  placed_outside :
      (bsi row off : ℕ) (ht : WordMem) (j : ℕ)
      → (j < row * 8) ⊎ (row * 8 + 8 ≤ j)
      → (j < off) ⊎ (off + n ≤ j)
      → placed bsi row off ht j ≡ ht j
  placed_outside bsi row off ht j o q =
      set_data_offset_outside _ row off j o
      ∙ write_words_outside ht off (read_words kbuf.raw (bsi * n) n) j
          (omega (arith, read_words-length kbuf.raw (bsi * n) n))

  placed_header :
      (e : Match) (row off : ℕ) (ht : WordMem)
      → Fits e
      → row * 8 + 8 ≤ off
      → load_header ht row ≡ header_for p e 0
      → load_header (placed e.bsi row off ht) row ≡ header_for p e off
  unfolding set_data_offset
  placed_header e row off ht f below drafted =
      let kept =
        load_header-write_words ht off (read_words kbuf.raw (e.bsi * n) n) row (inl below) in
      rw (kept, drafted)
        (load_header-store_header _ row (header_for p e off) (header_for-InRange p e off f))

  -- Words before the rows that are left, or between those rows and the samples, stay.
  pub copy_samples_frame :
      (bs : List ℕ) (row off : ℕ) (ht : WordMem) (j : ℕ)
      → (row + length bs) * 8 ≤ off
      → (j < row * 8) ⊎ (((row + length bs) * 8 ≤ j) × (j < off))
      → (copy_samples kbuf n bs row off ht).0 j ≡ ht j
  unfolding copy_samples
  copy_samples_frame [] row off ht j h o = refl
  copy_samples_frame (b ∷ bs) row off ht j h o =
      copy_samples_frame bs (row + 1) (off + n) (placed b row off ht) j (omega arith) (omega arith)
      ∙ placed_outside b row off ht j (omega arith) (omega arith)

  -- One round leaves the headers that are still to be completed.
  placed_headers_after :
      (bsi row off : ℕ) (ht : WordMem) (k last : ℕ)
      → row < k
      → k ≤ last
      → last * 8 + 8 ≤ off
      → load_header (placed bsi row off ht) k ≡ load_header ht k
  placed_headers_after bsi row off ht k last h q b =
      load_header_agree (placed bsi row off ht) ht k
        (λ j s t. placed_outside bsi row off ht j (omega arith) (omega arith))

  IsDrafted-placed :
      (es : List Match) (bsi row off : ℕ) (ht : WordMem) (k : ℕ)
      → row < k
      → (k + length es) * 8 + 8 ≤ off
      → IsDrafted p ht k es
      → IsDrafted p (placed bsi row off ht) k es
  IsDrafted-placed [] bsi row off ht k h b d =
      rw (placed_headers_after bsi row off ht k k h (omega arith) (omega arith)) d
  IsDrafted-placed (e ∷ es) bsi row off ht k h b d = (
    placed_headers_after bsi row off ht k k h (omega arith) (omega arith) ∙ d.0,
    IsDrafted-placed es bsi row off ht (k + 1) (omega arith) (omega arith) d.1,
  )

  placed_sample :
      (bsi row off : ℕ) (ht : WordMem) (j : ℕ)
      → row * 8 + 8 ≤ off
      → j < n
      → placed bsi row off ht (off + j) ≡ kbuf.raw (bsi * n + j)
  placed_sample bsi row off ht j b h =
      set_data_offset_outside _ row off (off + j) (inr (omega arith))
      ∙ write_words-read_words ht off kbuf.raw (bsi * n) n j h

  -- From a drafted table the loop makes the table that is wanted, whatever comes before the
  -- rows; the offset that it ends with is the size of the table in words.
  pub copy_samples-IsTable :
      (es : List Match) (row off : ℕ) (ht : WordMem)
      → AllFit es
      → (row + length es) * 8 + 8 ≤ off
      → IsDrafted p ht row es
      → let done = copy_samples kbuf n (map (λ e. e.bsi) es) row off ht in
        IsTable p kbuf.raw n done.0 row off es × (done.1 ≡ off + length es * n)
  unfolding copy_samples
  copy_samples-IsTable [] row off ht f b d = (d, omega arith)
  copy_samples-IsTable (e ∷ es) row off ht f b d =
      let bs = map (λ (x : Match). x.bsi) es in
      let len : length bs ≡ length es = length-map es (λ x. x.bsi) in
      let next = placed e.bsi row off ht in
      let rest =
        copy_samples-IsTable es (row + 1) (off + n) next f.1 (omega arith)
          (IsDrafted-placed es e.bsi row off ht (row + 1) (omega arith) (omega arith) d.1) in
      let same : (j : ℕ)
          → (j < row * 8 + 8) ⊎ (((row + 1 + length es) * 8 ≤ j) × (j < off + n))
          → (copy_samples kbuf n bs (row + 1) (off + n) next).0 j ≡ next j =
        λ j o. copy_samples_frame bs (row + 1) (off + n) next j (omega arith) (omega arith) in
      (
        (
          load_header_agree _ next row (λ j s t. same j (inl (omega arith)))
              ∙ placed_header e row off ht f.0 (omega arith) d.0,
          λ j h.
              same (off + j) (inr (omega arith, omega arith))
              ∙ placed_sample e.bsi row off ht j (omega arith) h,
          rest.0,
        ),
        rest.1 ∙ omega arith,
      )
