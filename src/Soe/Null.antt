-- ===== src/Soe/Null.antt =====
-- NullStrategy of acq400_SOE_Strategy.cpp: the size that it reports, and the table's.
use acq400_xrm.Prelude.{ℕ, suc, ◌+◌, ◌*◌, ◌%◌, ◌^◌, ◌<◌, ◌≡◌, sym, ap, ◌∙◌, [], ◌∷◌, length, arith}
use acq400_xrm.Prelude.Memory.{WordMem}
use acq400_xrm.Structs.{SoeLut, hold_data_off}
use acq400_xrm.Soe.Strategy.{Kbuf, SoeDims, ssl}
use acq400_xrm.Soe.Cycle.{null_rows, null_strategy}

wrapped : (off n r : ℕ) → ((off + n) % 2 ^ 16 + r) % 2 ^ 16 ≡ (off + (n + r)) % 2 ^ 16
wrapped off n r = omega arith

one_more : (k n : ℕ) → suc k * n ≡ n + k * n
one_more k n = grind arith

null_rows_off :
    (kbuf : Kbuf) (n sp_index stride : ℕ) (lut : SoeLut) (row raw_off off : ℕ) (ht : WordMem)
    → off < 2 ^ 16
    → (null_rows kbuf n sp_index stride lut row raw_off off ht).1 ≡ (off + length lut * n) % 2 ^ 16
unfolding null_rows
null_rows_off kbuf n sp_index stride [] row raw_off off ht h = omega arith
null_rows_off kbuf n sp_index stride (l ∷ ls) row raw_off off ht h =
    null_rows_off kbuf n sp_index stride ls (row + 1) (raw_off + n * stride) ((off + n) % 2 ^ 16) _
      (omega arith)
    ∙ wrapped off n (length ls * n)
    ∙ ap (λ (k : ℕ). (off + k) % 2 ^ 16) (sym (one_more (length ls) n))

rejoin : (r n : ℕ) → ((520 + r) % 2 ^ 16 + n) % 2 ^ 16 ≡ (520 + (r + n)) % 2 ^ 16
rejoin r n = omega arith

-- The null strategy reports, as the size in words, the headers with their row of zeros and one
-- sample more than the lookup table has rows, cut to 16 bits.
pub null_strategy_size :
    (stride : ℕ) (soe : SoeDims) (ht : WordMem)
    → (null_strategy stride soe ht).1.ht_size32
      ≡ (520 + (length soe.lut * ssl soe.sample_prams + ssl soe.sample_prams)) % 2 ^ 16
unfolding null_strategy hold_data_off
null_strategy_size stride soe ht =
    let n = ssl soe.sample_prams in
    ap (λ (off : ℕ). (off + n) % 2 ^ 16)
      (null_rows_off soe.kbuf n soe.sample_prams.sp_index stride soe.lut 0 0 520 _ (omega arith))
    ∙ rejoin (length soe.lut * n) n
