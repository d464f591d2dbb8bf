-- ===== src/Monitor/RoundTrip.antt =====
-- What acq400_SOE_Strategy.cpp puts into a hold table, xrm_ht_monitor.cpp takes out.
use acq400_xrm.Prelude.{
  ℕ, zero, suc, ◌+◌, ◌*◌, ◌/◌, ◌%◌, ◌^◌, ◌≤◌, ◌<◌, ◌≡◌, ◌≢◌, refl, ap, ◌∙◌, some, List, take, [],
  ◌∷◌, ◌>>=◌, length, arith,
}
use acq400_xrm.Prelude.Int.{ℤ, of_bits}
use acq400_xrm.Prelude.Memory.{WordMem, read_words, read_words_agree}
use acq400_xrm.WrTime.{get_wr_ts}
use acq400_xrm.Structs.{SoeHoldHeader, load_header, Fmt}
use acq400_xrm.SamplePrams.{SamplePrams}
use acq400_xrm.Soe.Strategy.{SoeDims, Rc, ssl, soe_lut_lookup}
use acq400_xrm.Soe.Table.{Match, AllNamed, header_for, IsTable}
use acq400_xrm.Soe.Lookup.{cycle_hits, IsReady, soe_lut_lookup-IsCycle}
use acq400_xrm.Monitor.{Entry, short_at, shorts, print_entry, parse}

short_at_agree :
    (ptr raw : WordMem) (ic n : ℕ)
    → ((j : ℕ) → j < n → ptr j ≡ raw j)
    → ic / 2 < n
    → short_at ptr ic ≡ short_at raw ic
unfolding short_at
short_at_agree ptr raw ic n same h = rw (same (ic / 2) h)

shorts_agree :
    (ptr raw : WordMem) (ic left n : ℕ)
    → ((j : ℕ) → j < n → ptr j ≡ raw j)
    → (ic + left) / 2 ≤ n
    → ic + left ≤ 2 * n
    → shorts ptr ic left ≡ shorts raw ic left
unfolding shorts
shorts_agree ptr raw ic zero n same h b = refl
shorts_agree ptr raw ic (suc left) n same h b = rw (
  short_at_agree ptr raw ic n same (omega arith),
  shorts_agree ptr raw (ic + 1) left n same (omega arith) (omega arith),
)

-- The entry depends on the n words of the sample only.
print_entry_agree :
    (h : SoeHoldHeader) (ptr raw : WordMem) (n : ℕ)
    → ((j : ℕ) → j < n → ptr j ≡ raw j)
    → h.ai_count ≤ 2 * n
    → h.ai_count / 2 + h.di_count + h.sp_count ≤ n
    → h.ai_count / 2 + h.di_count + 4 ≤ n
    → print_entry h ptr ≡ print_entry h raw
unfolding print_entry
print_entry_agree h ptr raw n same a b c =
    let sp = h.ai_count / 2 + h.di_count in
    rw (
      shorts_agree ptr raw 0 h.ai_count n same (omega arith) (omega arith),
      read_words_agree ptr raw (h.ai_count / 2) h.di_count (λ j p q. same j (omega arith)),
      read_words_agree ptr raw sp h.sp_count (λ j p q. same j (omega arith)),
      same (sp + 2) (omega arith),
      same (sp + 3) (omega arith),
    )

-- The two signed halves of each word, the low one first.
abbrev pub halves : List ℕ → List ℤ
halves [] = []
halves (w ∷ ws) = of_bits 16 (w % 2 ^ 16) ∷ of_bits 16 (w / 2 ^ 16) ∷ halves ws

shorts-halves :
    (ptr : WordMem) (k m n : ℕ)
    → n ≤ 2 * m
    → shorts ptr (2 * k) n ≡ take n (halves (read_words ptr k m))
unfolding shorts short_at read_words
shorts-halves ptr k m zero h = refl
shorts-halves ptr k zero (suc n) h = absurd (omega arith)
shorts-halves ptr k (suc m) (suc zero) h =
    let even : 2 * k % 2 ≡ 0 = omega arith in
    let half : 2 * k / 2 ≡ k = omega arith in rw (even, half) refl
shorts-halves ptr k (suc m) (suc (suc n)) h =
    let even : 2 * k % 2 ≡ 0 = omega arith in
    let half : 2 * k / 2 ≡ k = omega arith in
    let odd : (2 * k + 1) % 2 ≡ 1 = omega arith in
    let same : (2 * k + 1) / 2 ≡ k = omega arith in
    let next : 2 * k + 1 + 1 ≡ 2 * (k + 1) = omega arith in
    rw (even, half, odd, same, next, shorts-halves ptr (k + 1) m n (omega arith)) refl

-- The entry that is wanted for a match, with `word` the words of its sample: the analogue
-- channels are halves of words, the digital words follow behind the words of those, and then the
-- scratchpad, the third word of which has a second modulo 8 in bits 28 to 30 and ticks below them,
-- and the fourth the seconds.
abbrev pub entry_for : SamplePrams → Match → ℕ → WordMem → Entry
entry_for p e off word =
    let ai = p.ai_count % 2 ^ 8 in
    let di = p.di_count % 2 ^ 8 in
    let sp = ai / 2 + di in
    record {
      hdr = header_for p e off;
      ai16 = take ai (halves (read_words word 0 ((ai + 1) / 2)));
      di32 = read_words word (ai / 2) di;
      sp32 = read_words word sp (p.sp_count % 2 ^ 8);
      wrvs = word (sp + 2) / 2 ^ 28 % 8;
      wrvt = word (sp + 2) % 2 ^ 28;
      wrus = get_wr_ts (word (sp + 3)) (word (sp + 2));
    }

print_entry-entry_for :
    (p : SamplePrams) (e : Match) (off : ℕ) (word : WordMem)
    → print_entry (header_for p e off) word ≡ entry_for p e off word
unfolding print_entry
print_entry-entry_for p e off word =
    let ai = p.ai_count % 2 ^ 8 in rw (shorts-halves word 0 ((ai + 1) / 2) ai (omega arith)) refl

-- The entries that are wanted: of each match its header, and its sample as in the raw buffer.
unfoldable pub entries_for : SamplePrams → WordMem → ℕ → ℕ → List Match → List Entry
entries_for p raw n off [] = []
entries_for p raw n off (e ∷ es) =
    entry_for p e off (λ j. raw (e.bsi * n + j)) ∷ entries_for p raw n (off + n) es

-- The channels of a sample lie within its n words, four scratch pad words at least.
pub record FitsSample (p : SamplePrams) (n : ℕ) : Type 0 where
  pub even : p.ai_count % 2 ^ 8 ≤ 2 * n
  pub all_channels : p.ai_count % 2 ^ 8 / 2 + p.di_count % 2 ^ 8 + p.sp_count % 2 ^ 8 ≤ n
  pub vernier : p.ai_count % 2 ^ 8 / 2 + p.di_count % 2 ^ 8 + 4 ≤ n

module _ (p : SamplePrams) (raw ht : WordMem) (n : ℕ) (geometry : FitsSample p n) where
  parse_end :
      (fuel row : ℕ) → (load_header ht row).lut_row.pv_id ≡ 0 → parse (suc fuel) ht row ≡ some []
  unfolding parse
  parse_end fuel row h = rw h

  parse_more :
      (fuel row : ℕ) (h : SoeHoldHeader)
      → load_header ht row ≡ h
      → h.lut_row.pv_id ≢ 0
      → parse (suc fuel) ht row ≡ (
          parse fuel ht (row + 1) >>= λ es. some (print_entry h (λ j. ht (h.data_offset + j)) ∷ es))
  unfolding parse
  parse_more fuel row h e nz = rw e (ground arith)

  pub parse-IsTable :
      (es : List Match) (row off fuel : ℕ)
      → IsTable p raw n ht row off es
      → AllNamed es
      → off + length es * n < 2 ^ 16
      → length es < fuel
      → parse fuel ht row ≡ some (entries_for p raw n off es)
  unfolding entries_for
  parse-IsTable es row off zero t named fits fuel = absurd (omega arith)
  parse-IsTable [] row off (suc f) t named fits fuel = parse_end f row t
  parse-IsTable (e ∷ es) row off (suc f) t named fits fuel =
      let small : off % 2 ^ 16 ≡ off = omega arith in
      let rest = parse-IsTable es (row + 1) (off + n) f t.2 named.1 (omega arith) (omega arith) in
      rw (parse_more f row (header_for p e off) t.0 named.0, rest)
        (ap some (
          ap (λ x. x ∷ entries_for p raw n (off + n) es)
            (print_entry_agree (header_for p e off) _ (λ j. raw (e.bsi * n + j)) n
                (λ j h. rw small (t.1 j h)) geometry.even geometry.all_channels geometry.vernier
              ∙ print_entry-entry_for p e off (λ j. raw (e.bsi * n + j)))))

-- End to end: from a ready cycle, with named matches, a sample geometry that fits the sample
-- size and a table below 2^16 words, the lookup returns a table from which the monitor prints
-- exactly one entry per match, in order, each with the match's header, the channels and the
-- vernier fields of its sample in the raw buffer, and the time that the driver takes from the
-- scratchpad of that sample; N + 1 header reads are enough.
pub parse-soe_lut_lookup :
    (soe : SoeDims) (latest : Fmt) (ht : WordMem) (rc : Rc)
    → IsReady soe latest ht
    → AllNamed (cycle_hits soe latest)
    → FitsSample soe.sample_prams (ssl soe.sample_prams)
    → (length (cycle_hits soe latest) + 1) * 8
        + length (cycle_hits soe latest) * ssl soe.sample_prams
      < 2 ^ 16
    → (done : WordMem × Rc) × (soe_lut_lookup soe latest ht rc ≡ some done)
      × (parse (length (cycle_hits soe latest) + 1) done.0 0
          ≡ some (
              entries_for soe.sample_prams soe.kbuf.raw
                (ssl soe.sample_prams)
                ((length (cycle_hits soe latest) + 1) * 8)
                (cycle_hits soe latest)))
parse-soe_lut_lookup soe latest ht rc ready named geometry small =
    let r = soe_lut_lookup-IsCycle soe latest ht rc ready in
    let es = cycle_hits soe latest in
    (
      r.0,
      r.1,
      parse-IsTable soe.sample_prams soe.kbuf.raw (r.0).0 (ssl soe.sample_prams) geometry es 0
          ((length es + 1) * 8) (length es + 1) (r.2).table named small (omega arith),
    )
