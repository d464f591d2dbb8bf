-- ===== src/AnaTrg.antt =====
-- xrmIocApp/src/anatrg.{h,cpp}: analog trigger thresholds. A command turns two levels and a
-- hysteresis into four bytes A B C D of one threshold word.
pub mod Laws
pub mod Dispatch
pub mod Examples
use acq400_xrm.Prelude.{
  ℕ, zero, suc, ◌+◌, ◌-◌, ◌*◌, ◌^◌, bit_or, Bool, true, false, Option, none, some, List, [], ◌∷◌,
  ltb, ◌==◌, if◌then◌else◌,
}
use acq400_xrm.Prelude.Int.{ℤ, pos, negsuc, ltb_ℤ, to_bits, s32, ◌+ℤ◌, ◌-ℤ◌}
use acq400_xrm.Prelude.Memory.{WordMem, update}

abbrev pub disable_hi : ℤ
disable_hi = pos 127

abbrev pub disable_lo : ℤ
disable_lo = negsuc 127

-- The two saturations of clp(), and the byte that it returns.
unfoldable pub saturate : ℤ → ℤ
saturate x =
    let y = if ltb_ℤ (pos 127) x then pos 127 else x in
    if ltb_ℤ y (negsuc 127) then negsuc 127 else y

unfoldable pub clp : ℤ → ℕ
unfolding saturate
clp x = to_bits 8 (saturate x)

unfoldable pub abcd : ℤ → ℤ → ℤ → ℤ → ℕ
unfolding clp
abcd a b c d = bit_or (clp a * 2 ^ 24) (bit_or (clp b * 2 ^ 16) (bit_or (clp c * 2 ^ 8) (clp d)))

-- The subclasses of Command, in the order of AnaTrg::commands.
pub data Command : Type 0 where
  none_command rising falling inside outside : Command

-- operator()(p1, p2, hyst)
unfoldable pub threshold : Command → ℤ → ℤ → ℤ → ℕ
unfolding abcd
threshold none_command p1 p2 hyst = abcd disable_hi disable_lo disable_hi disable_lo
threshold rising p1 p2 hyst = abcd p1 (s32 (p1 -ℤ hyst)) disable_hi disable_lo
threshold falling p1 p2 hyst = abcd disable_hi disable_lo (s32 (p1 +ℤ hyst)) p1
threshold inside p1 p2 hyst = abcd p1 (s32 (p1 -ℤ hyst)) (s32 (p2 +ℤ hyst)) p2
threshold outside p1 p2 hyst = abcd p1 (s32 (p2 -ℤ hyst)) (s32 (p1 +ℤ hyst)) p2

-- AnaTrg::commands: the index is the ATD mode.
unfoldable pub commands : List Command
commands = none_command ∷ rising ∷ falling ∷ inside ∷ outside ∷ []

-- setThreshold(chan, abcd); the index is `chan - 1`, so channel 0 is out of the block.
unfoldable pub set_channel : WordMem → ℕ → ℕ → Option WordMem
set_channel thblock zero word = none
set_channel thblock (suc ch) word = some (update thblock ch word)

-- for (ic = 1; ic <= nchan; ++ic), with the rounds left and the last channel done.
unfoldable pub set_channels : ℕ → ℕ → ℕ → WordMem → ℕ → Option WordMem
unfolding set_channel
set_channels zero ic offset thblock word = some thblock
set_channels (suc left) ic offset thblock word = elim (set_channel thblock (ic + offset) word) [
  | none ↦ none
  | some next ↦ set_channels left (ic + 1) offset next word
]

-- setThreshold(abcd), with the global G::channel, where 0 is ALL_CHANNELS.
unfoldable pub set_threshold : ℕ → ℕ → ℕ → WordMem → ℕ → Option WordMem
unfolding set_channels
set_threshold channel nchan offset thblock word =
    if channel == 0
    then set_channels nchan 1 offset thblock word
    else set_channel thblock offset word
