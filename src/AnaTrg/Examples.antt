-- ===== src/AnaTrg/Examples.antt =====
-- Threshold words of anatrg.cpp at concrete levels.
use acq400_xrm.Prelude.{some, ◌≡◌, refl, arith}
use acq400_xrm.Prelude.Int.{pos, negsuc, s32, ◌-ℤ◌, ◌*ℤ◌, ◌/ℤ◌, ◌≤ℤ◌}
use acq400_xrm.Prelude.Text.{codes, atoi, skip_spaces, signed_value, leading_value}
use acq400_xrm.AnaTrg.{threshold, rising, inside, abcd}
use acq400_xrm.AnaTrg.Dispatch.{get_value}
use acq400_xrm.AnaTrg.Laws.{
  nearest_byte, abcd_levels, threshold_ordered, level_a, level_b, level_c, level_d,
}

rising_word : threshold rising (pos 100) (pos 0) (pos 5) ≡ 0x645f7f80
unfolding threshold s32 ◌-ℤ◌
rising_word = refl

abcd_levels_example :
    let w = abcd (pos 200) (pos 5) (negsuc 4) (negsuc 300) in
    (level_a w ≡ nearest_byte (pos 200))
    × (level_b w ≡ nearest_byte (pos 5))
    × (level_c w ≡ nearest_byte (negsuc 4))
    × (level_d w ≡ nearest_byte (negsuc 300))
abcd_levels_example = abcd_levels (pos 200) (pos 5) (negsuc 4) (negsuc 300)

inside_ordered :
    let w = threshold inside (pos 100) (negsuc 20) (pos 5) in
    (level_b w ≤ℤ level_a w) × (level_d w ≤ℤ level_c w)
inside_ordered =
    threshold_ordered inside (pos 100) (negsuc 20) 5 (omega arith) (omega arith) (omega arith)
      (λ e. cc)

-- -40 % of 255, cut towards zero.
percent : get_value (some (codes " -40%")) ≡ negsuc 101
unfolding get_value atoi skip_spaces signed_value leading_value s32 ◌*ℤ◌ ◌/ℤ◌ ◌-ℤ◌
percent = refl
