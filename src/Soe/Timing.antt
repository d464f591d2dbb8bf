-- ===== src/Soe/Timing.antt =====
-- Where an event's time falls: find_event_in_buf() and timestamp_in_buf() of
-- acq400_SOE_Strategy.cpp.
use acq400_xrm.Prelude.{
  ℕ, ap, ◌+◌, ◌-◌, ◌*◌, ◌/◌, ◌^◌, ◌≤◌, ◌<◌, ◌≡◌, refl, ◌⊎◌, inl, inr, some, lt_cases, arith,
}
use native.Mathlib.Nat.{div-le_of_le-mul, div-lt_iff_lt-mul, mul-div_cancel, mul_comm}
use acq400_xrm.Prelude.Int.{
  pos, negsuc, ◌+ℤ◌, ◌-ℤ◌, ◌*ℤ◌, ◌/ℤ◌, s64, s32_of_Fits32, s64_of_Fits64, +ℤ_parts, -ℤ_parts,
}
use acq400_xrm.Soe.Strategy.{
  Kbuf, SoeDims, rc_of, find_event_in_buf, soe_success, e_fmt_ts_too_early_for_kb,
  e_fmt_ts_too_late_for_kb,
}
use acq400_xrm.Soe.Cycle.{timestamp_in_buf, dead_band_us}

sub_pos : (a b : ℕ) → b ≤ a → pos a -ℤ pos b ≡ pos (a - b)
unfolding ◌-ℤ◌
sub_pos a b h = ground arith

mul_pos : (a b : ℕ) → pos a *ℤ pos b ≡ pos (a * b)
unfolding ◌*ℤ◌
mul_pos a b = ground arith

scaled_le : (n d s : ℕ) → d ≤ s → n * d ≤ n * s
scaled_le n d s h = grind arith

index_le : (n d s : ℕ) → 0 < s → d ≤ s → n * d / s ≤ n
index_le n d s p h = div-le_of_le-mul s (omega (arith, scaled_le n d s h, mul_comm n s))

index_lt : (n d s : ℕ) → 0 < n → d < s → n * d / s < n
index_lt n d s p h = (div-lt_iff_lt-mul {k = s} {x = n * d} {y = n} (omega arith)).1 (grind arith)

index_last : (n s : ℕ) → 0 < s → n * s / s ≡ n
index_last n s p = mul-div_cancel n p

in_buf :
    (kbuf : Kbuf) (nsam t0 t1 t : ℕ)
    → kbuf.wrt0 ≡ pos t0
    → kbuf.wrt1 ≡ pos t1
    → t0 < t1
    → t1 < 2 ^ 63
    → nsam < 2 ^ 31
    → t0 ≤ t
    → t ≤ t1
    → nsam * (t1 - t0) < 2 ^ 63
    → find_event_in_buf kbuf nsam (pos t) ≡ some (pos (nsam * (t - t0) / (t1 - t0)))
unfolding find_event_in_buf ◌/ℤ◌
in_buf kbuf nsam t0 t1 t e0 e1 ordered b1 bn lo hi fits =
    rw
      (
        e0,
        e1,
        sub_pos t1 t0 (omega arith),
        s64_of_Fits64 (pos (t1 - t0)) (omega arith),
        e0,
        e1,
        sub_pos t1 t0 (omega arith),
        s64_of_Fits64 (pos (t1 - t0)) (omega arith),
        sub_pos t t0 lo,
        s64_of_Fits64 (pos (t - t0)) (omega arith),
        mul_pos nsam (t - t0),
        s64_of_Fits64 (pos (nsam * (t - t0)))
            (omega (arith, scaled_le nsam (t - t0) (t1 - t0) (omega arith))),
        s32_of_Fits32 (pos (nsam * (t - t0) / (t1 - t0)))
            (omega (arith, index_le nsam (t - t0) (t1 - t0) (omega arith) (omega arith))),
      )
      (ground arith)

s64_diff : (a b : ℕ) → a < 2 ^ 62 → b < 2 ^ 62 → s64 (pos a -ℤ pos b) ≡ pos a -ℤ pos b
unfolding ◌-ℤ◌
s64_diff a b p q = s64_of_Fits64 (pos a -ℤ pos b) (ground arith)

s64_sum : (a b : ℕ) → a < 2 ^ 62 → b < 2 ^ 62 → s64 (pos a +ℤ pos b) ≡ pos a +ℤ pos b
unfolding ◌+ℤ◌
s64_sum a b p q = s64_of_Fits64 (pos a +ℤ pos b) (ground arith)

-- For an event at t, between the buffer's first time t0 and last time t1, the code finds the
-- index nsam * (t - t0) / (t1 - t0), with no overflow where nsam * (t1 - t0) stays below 2^63.
-- Either t is before t1 and the index is a sample of the buffer, below nsam, or t is t1 and the
-- index is nsam, behind the last sample.
pub find_event_in_buf_inside :
    (kbuf : Kbuf) (nsam t0 t1 t : ℕ)
    → kbuf.wrt0 ≡ pos t0
    → kbuf.wrt1 ≡ pos t1
    → 0 < nsam
    → nsam < 2 ^ 31
    → t0 < t1
    → t1 < 2 ^ 63
    → nsam * (t1 - t0) < 2 ^ 63
    → t0 ≤ t
    → t ≤ t1
    → (i : ℕ) × (find_event_in_buf kbuf nsam (pos t) ≡ some (pos i))
      × (i ≡ nsam * (t - t0) / (t1 - t0))
      × (((t < t1) × (i < nsam)) ⊎ ((t ≡ t1) × (i ≡ nsam)))
find_event_in_buf_inside kbuf nsam t0 t1 t e0 e1 np nb ordered b1 fits lo hi = (
  nsam * (t - t0) / (t1 - t0),
  in_buf kbuf nsam t0 t1 t e0 e1 ordered b1 nb lo hi fits,
  refl,
  elim (lt_cases t t1) [
    | inl before ↦ inl (before, index_lt nsam (t - t0) (t1 - t0) np (omega arith))
    | inr (inl behind) ↦ absurd (omega arith)
    | inr (inr last) ↦ inr (last, rw last (index_last nsam (t1 - t0) (omega arith)))
  ],
)

-- Outside the buffer's times the code finds no sample, and says so with -1.
pub find_event_in_buf_outside :
    (kbuf : Kbuf) (nsam t0 t1 t : ℕ)
    → kbuf.wrt0 ≡ pos t0
    → kbuf.wrt1 ≡ pos t1
    → (t < t0) ⊎ (t1 < t)
    → find_event_in_buf kbuf nsam (pos t) ≡ some (negsuc 0)
unfolding find_event_in_buf
find_event_in_buf_outside kbuf nsam t0 t1 t e0 e1 h = rw (e0, e1) (ground arith)

le_or_lt : (a b : ℕ) → (a ≤ b) ⊎ (b < a)
le_or_lt a b = grind arith

dead_band : (cycle_ms : ℕ) → cycle_ms * 4000 < 2 ^ 31 → dead_band_us cycle_ms ≡ pos (cycle_ms * 800)
unfolding dead_band_us ◌/ℤ◌
dead_band cycle_ms h =
    rw (s32_of_Fits32 (pos (cycle_ms * 1000 * 4)) (omega arith, omega arith)) (ap pos (omega arith))

judged :
    (cycle_ms : ℕ) (soe : SoeDims) (t0 t1 t : ℕ)
    → soe.kbuf.wrt0 ≡ pos t0
    → soe.kbuf.wrt1 ≡ pos t1
    → t0 ≤ t1
    → t1 < 2 ^ 62
    → t < 2 ^ 62
    → cycle_ms * 4000 < 2 ^ 31
    → (t + cycle_ms * 800 < t0
        → timestamp_in_buf cycle_ms soe (pos t) ≡ rc_of e_fmt_ts_too_late_for_kb (pos (t0 - t)))
      × (t1 + cycle_ms * 800 < t
          → timestamp_in_buf cycle_ms soe (pos t) ≡ rc_of e_fmt_ts_too_early_for_kb (pos (t - t1)))
      × (t0 ≤ t + cycle_ms * 800
          → t ≤ t1 + cycle_ms * 800
          → timestamp_in_buf cycle_ms soe (pos t) ≡ rc_of soe_success (pos t -ℤ pos t0))
unfolding timestamp_in_buf
judged cycle_ms soe t0 t1 t e0 e1 o b1 bt bb =
    let band = cycle_ms * 800 in
    rw
      (
        e0,
        e1,
        dead_band cycle_ms bb,
        s64_diff t0 band (omega arith) (omega arith),
        s64_sum t1 band (omega arith) (omega arith),
        s64_diff t0 t (omega arith) (omega arith),
        s64_diff t t0 (omega arith) (omega arith),
        s64_diff t t1 (omega arith) (omega arith),
      )
      (
        (λ h. ground (
          arith,
          -ℤ_parts (pos t0) (pos band),
          +ℤ_parts (pos t1) (pos band),
          sub_pos t0 t (omega arith),
        )),
        (λ h. ground (
          arith,
          -ℤ_parts (pos t0) (pos band),
          +ℤ_parts (pos t1) (pos band),
          sub_pos t t1 (omega arith),
        )),
        (λ h h'. ground (arith, -ℤ_parts (pos t0) (pos band), +ℤ_parts (pos t1) (pos band))),
      )

-- The check of a table's timestamp t against a buffer of the times t0 to t1, with a dead band
-- of 80% of a cycle on each side: too late for the buffer where t is more than the band before
-- t0, with the delay as delta; too early where it is more than the band behind t1; else it is
-- right, with the signed distance from t0. The times are below 2^62, and 4000 times the length
-- of a cycle in milliseconds fits an `int`.
pub timestamp_in_buf_cases :
    (cycle_ms : ℕ) (soe : SoeDims) (t0 t1 t : ℕ)
    → soe.kbuf.wrt0 ≡ pos t0
    → soe.kbuf.wrt1 ≡ pos t1
    → t0 ≤ t1
    → t1 < 2 ^ 62
    → t < 2 ^ 62
    → cycle_ms * 4000 < 2 ^ 31
    → ((t + cycle_ms * 800 < t0)
        × (timestamp_in_buf cycle_ms soe (pos t) ≡ rc_of e_fmt_ts_too_late_for_kb (pos (t0 - t))))
      ⊎ (((t1 + cycle_ms * 800 < t)
            × (timestamp_in_buf cycle_ms soe (pos t)
                ≡ rc_of e_fmt_ts_too_early_for_kb (pos (t - t1))))
          ⊎ ((t0 ≤ t + cycle_ms * 800)
              × (t ≤ t1 + cycle_ms * 800)
              × (timestamp_in_buf cycle_ms soe (pos t) ≡ rc_of soe_success (pos t -ℤ pos t0))))
timestamp_in_buf_cases cycle_ms soe t0 t1 t e0 e1 o b1 bt bb =
    let band = cycle_ms * 800 in
    let r = judged cycle_ms soe t0 t1 t e0 e1 o b1 bt bb in
    elim (le_or_lt t0 (t + band)) [
      | inr late ↦ inl (late, r.0 late)
      | inl low ↦ elim (le_or_lt t (t1 + band)) [
        | inr early ↦ inr (inl (early, r.1 early))
        | inl high ↦ inr (inr (low, high, r.2 low high))
      ]
    ]
