-- ===== src/AnaTrg/Laws.antt =====
-- The threshold words of anatrg.cpp, byte by byte.
use acq400_xrm.Prelude.{ℕ, ◌+◌, ◌*◌, ◌/◌, ◌%◌, ◌^◌, ◌<◌, ◌≡◌, ◌≢◌, refl, ◌∙◌, min, arith}
use acq400_xrm.Prelude.Int.{
  ℤ, pos, negsuc, ◌≤ℤ◌, of_bits, s32, Fits32, s32_of_Fits32, ◌+ℤ◌, ◌-ℤ◌, +ℤ_parts, -ℤ_parts,
  pos_part, neg_part,
}
use acq400_xrm.Prelude.Bits.{bit_or_disjoint}
use acq400_xrm.AnaTrg.{
  clp, saturate, abcd, Command, none_command, rising, falling, inside, outside, threshold,
}

-- The signed bytes of a threshold word.
abbrev pub level_a : ℕ → ℤ
level_a w = of_bits 8 (w / 2 ^ 24 % 2 ^ 8)

abbrev pub level_b : ℕ → ℤ
level_b w = of_bits 8 (w / 2 ^ 16 % 2 ^ 8)

abbrev pub level_c : ℕ → ℤ
level_c w = of_bits 8 (w / 2 ^ 8 % 2 ^ 8)

abbrev pub level_d : ℕ → ℤ
level_d w = of_bits 8 (w % 2 ^ 8)

-- The signed byte that is nearest to a level.
abbrev pub nearest_byte : ℤ → ℤ
nearest_byte (pos n) = pos (min n 127)
nearest_byte (negsuc n) = negsuc (min n 127)

saturate-nearest_byte : (x : ℤ) → saturate x ≡ nearest_byte x
unfolding saturate
saturate-nearest_byte (pos n) = ground arith
saturate-nearest_byte (negsuc n) = ground arith

clp-lt : (x : ℤ) → clp x < 256
unfolding clp
clp-lt (pos n) = ground arith
clp-lt (negsuc n) = ground arith

clp_level : (x : ℤ) → of_bits 8 (clp x) ≡ saturate x
unfolding clp
clp_level (pos n) = ground arith
clp_level (negsuc n) = ground arith

abcd_sum :
    (a b c d : ℤ) → abcd a b c d ≡ clp a * 2 ^ 24 + (clp b * 2 ^ 16 + (clp c * 2 ^ 8 + clp d))
unfolding abcd
abcd_sum a b c d = rw (
  bit_or_disjoint 8 (clp c) (clp d) (clp-lt d),
  bit_or_disjoint 16 (clp b) (clp c * 2 ^ 8 + clp d) (omega (arith, clp-lt c, clp-lt d)),
  bit_or_disjoint 24 (clp a) (clp b * 2 ^ 16 + (clp c * 2 ^ 8 + clp d))
      (omega (arith, clp-lt b, clp-lt c, clp-lt d)),
)

bytes_of_sum :
    (a b c d : ℕ)
    → b < 256
    → c < 256
    → d < 256
    → a < 256
    → let w = a * 2 ^ 24 + (b * 2 ^ 16 + (c * 2 ^ 8 + d)) in
      (w / 2 ^ 24 % 2 ^ 8 ≡ a)
      × (w / 2 ^ 16 % 2 ^ 8 ≡ b)
      × (w / 2 ^ 8 % 2 ^ 8 ≡ c)
      × (w % 2 ^ 8 ≡ d)
bytes_of_sum a b c d hb hc hd ha = omega arith

-- Packing four levels into a threshold word loses nothing but what saturation takes: the four
-- signed bytes of the word are the levels, in order, where a level above 127 is 127 and one
-- below -128 is -128.
pub abcd_levels :
    (a b c d : ℤ)
    → (level_a (abcd a b c d) ≡ nearest_byte a)
      × (level_b (abcd a b c d) ≡ nearest_byte b)
      × (level_c (abcd a b c d) ≡ nearest_byte c)
      × (level_d (abcd a b c d) ≡ nearest_byte d)
abcd_levels a b c d =
    let bytes =
      bytes_of_sum (clp a) (clp b) (clp c) (clp d) (clp-lt b) (clp-lt c) (clp-lt d) (clp-lt a) in
    rw abcd_sum (
      rw (bytes.0) (clp_level a ∙ saturate-nearest_byte a),
      rw (bytes.1) (clp_level b ∙ saturate-nearest_byte b),
      rw (bytes.2) (clp_level c ∙ saturate-nearest_byte c),
      rw (bytes.3) (clp_level d ∙ saturate-nearest_byte d),
    )

saturate_mono : (x y : ℤ) → x ≤ℤ y → nearest_byte x ≤ℤ nearest_byte y
saturate_mono (pos m) (pos n) h = ground arith
saturate_mono (pos m) (negsuc n) h = ground arith
saturate_mono (negsuc m) (pos n) h = ground arith
saturate_mono (negsuc m) (negsuc n) h = ground arith

-- Where the third level is below the first and so on, the packed bytes are ordered too.
abcd_ordered :
    (a b c d : ℤ)
    → b ≤ℤ a
    → d ≤ℤ c
    → (level_b (abcd a b c d) ≤ℤ level_a (abcd a b c d))
      × (level_d (abcd a b c d) ≤ℤ level_c (abcd a b c d))
abcd_ordered a b c d p q =
    let levels = abcd_levels a b c d in
    (rw (levels.0, levels.1) (saturate_mono b a p), rw (levels.2, levels.3) (saturate_mono d c q))

-- A level that the integer arithmetic of a command cannot overflow with.
abbrev pub IsLevel : ℤ → Type 0
IsLevel p = (pos_part p < 2 ^ 30) × (neg_part p < 2 ^ 30)

lowered : (p : ℤ) (h : ℕ) → IsLevel p → h < 2 ^ 30 → s32 (p -ℤ pos h) ≤ℤ p
lowered p h l s =
    rw (s32_of_Fits32 (p -ℤ pos h) (ground (arith, -ℤ_parts p (pos h), diff_fits p h l s)))
      (omega (arith, -ℤ_parts p (pos h)))
  where
    diff_fits : (p : ℤ) (h : ℕ) → IsLevel p → h < 2 ^ 30 → Fits32 (p -ℤ pos h)
    diff_fits p h l s = unfold ◌-ℤ◌ in ground arith

raised : (p : ℤ) (h : ℕ) → IsLevel p → h < 2 ^ 30 → p ≤ℤ s32 (p +ℤ pos h)
raised p h l s =
    rw (s32_of_Fits32 (p +ℤ pos h) (sum_fits p h l s)) (omega (arith, +ℤ_parts p (pos h)))
  where
    sum_fits : (p : ℤ) (h : ℕ) → IsLevel p → h < 2 ^ 30 → Fits32 (p +ℤ pos h)
    sum_fits p h l s = unfold ◌+ℤ◌ in ground arith

-- Every command but `outside` gives a word whose pairs A, B and C, D are in order, B at most
-- A and D at most C, whatever the levels and for every hysteresis that is not negative.
pub threshold_ordered :
    (command : Command) (p1 p2 : ℤ) (hyst : ℕ)
    → IsLevel p1
    → IsLevel p2
    → hyst < 2 ^ 30
    → command ≢ outside
    → let w = threshold command p1 p2 (pos hyst) in
      (level_b w ≤ℤ level_a w) × (level_d w ≤ℤ level_c w)
unfolding threshold
threshold_ordered none_command p1 p2 hyst l1 l2 s n =
    abcd_ordered (pos 127) (negsuc 127) (pos 127) (negsuc 127) (omega arith) (omega arith)
threshold_ordered rising p1 p2 hyst l1 l2 s n =
    abcd_ordered p1 (s32 (p1 -ℤ pos hyst)) (pos 127) (negsuc 127) (lowered p1 hyst l1 s)
      (omega arith)
threshold_ordered falling p1 p2 hyst l1 l2 s n =
    abcd_ordered (pos 127) (negsuc 127) (s32 (p1 +ℤ pos hyst)) p1 (omega arith)
      (raised p1 hyst l1 s)
threshold_ordered inside p1 p2 hyst l1 l2 s n =
    abcd_ordered p1 (s32 (p1 -ℤ pos hyst)) (s32 (p2 +ℤ pos hyst)) p2 (lowered p1 hyst l1 s)
      (raised p2 hyst l2 s)
threshold_ordered outside p1 p2 hyst l1 l2 s n = absurd (n refl)
