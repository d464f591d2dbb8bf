-- ===== src/PostMortem/CopyArg.antt =====
-- The argument of the ioctl of acq400_PM::stash_buffer(): which buffer, and how much of it.
use acq400_xrm.Prelude.{ℕ, ◌*◌, ◌/◌, ◌%◌, ◌^◌, ◌<◌, ◌≡◌, arith}
use acq400_xrm.Prelude.Int.{pos, s16, of_bits, to_bits}
use acq400_xrm.Prelude.Bits.{bit_or_disjoint}
use acq400_xrm.SamplePrams.{SamplePrams}
use acq400_xrm.PostMortem.{copy_arg, burst_lw}

pub s16_live : (n : ℕ) → n < 1024 → s16 (pos n) ≡ pos n
unfolding s16 of_bits to_bits
s16_live n h = ground arith

-- Where the live index has 10 bits and the buffer is below 2^24 bytes, the argument has the
-- index in its low ten bits, and above them the number of the buffer's words.
pub copy_arg_fields :
    (p : SamplePrams) (n : ℕ)
    → n < 1024
    → p.ssb * p.nsam < 2 ^ 24
    → (copy_arg p (pos n) % 1024 ≡ n) × (copy_arg p (pos n) / 1024 ≡ p.ssb * p.nsam / 4)
unfolding copy_arg burst_lw
copy_arg_fields p n h b =
    let words = p.ssb * p.nsam / 4 in
    let whole : p.ssb * p.nsam % 2 ^ 32 ≡ p.ssb * p.nsam = omega arith in
    let small : n % 2 ^ 32 ≡ n = omega arith in
    let shifted : words * 2 ^ 10 % 2 ^ 32 ≡ words * 2 ^ 10 = omega arith in
    let e = bit_or_disjoint 10 words n h in
    (
      rw (copy_arg, whole, small, shifted, e) (omega arith),
      rw (copy_arg, whole, small, shifted, e) (omega arith),
    )
