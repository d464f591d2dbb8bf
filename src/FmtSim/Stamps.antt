-- ===== src/FmtSim/Stamps.antt =====
-- What the simulator of acq400_FMT_sim.cpp sends.
use acq400_xrm.Prelude.{
  ℕ, zero, suc, ◌+◌, ◌*◌, ◌/◌, ◌%◌, ◌^◌, ◌<◌, ◌≡◌, ◌≢◌, refl, ap, ◌∙◌, false, some, List, [], ◌∷◌,
  ◌++◌, length, get_elem?, arith, ◌==◌, if◌then◌else◌,
}
use acq400_xrm.Prelude.Int.{ℤ, pos, s64, ◌+ℤ◌}
use acq400_xrm.Structs.{Fmt, FmtRow}
use acq400_xrm.FmtSim.{FmtSim, update_fmt, stamp_rows, count_pads, WrReading, time_of, time_now}

stamp : (t row : ℕ) → t + row * 10 < 2 ^ 63 → s64 (pos t +ℤ pos (row * 10)) ≡ pos (t + row * 10)
unfolding s64 ◌+ℤ◌
stamp t row h = ground arith

stamp_rows-get :
    (t row : ℕ) (fmt : Fmt) (j : ℕ) (r : FmtRow)
    → t + (row + j) * 10 < 2 ^ 63
    → get_elem? fmt j ≡ some r
    → get_elem? (stamp_rows (pos t) row fmt) j
      ≡ some (record r { timestamp = pos (t + (row + j) * 10) })
unfolding stamp_rows
stamp_rows-get t row [] j r h e = absurd cc
stamp_rows-get t row (r' ∷ rs) zero r h e =
    let same : r' ≡ r = cc in
    let z : row + 0 ≡ row = omega arith in rw (z, ← same) (simp (stamp t row (omega arith)))
stamp_rows-get t row (r' ∷ rs) (suc j) r h e =
    let z : row + suc j ≡ row + 1 + j = omega arith in
    rw z (stamp_rows-get t (row + 1) rs j r (omega arith) e)

stamp_rows-length :
    (now_us : ℤ) (row : ℕ) (fmt : Fmt) → length (stamp_rows now_us row fmt) ≡ length fmt
unfolding stamp_rows
stamp_rows-length now_us row [] = refl
stamp_rows-length now_us row (r ∷ rs) = ap suc (stamp_rows-length now_us (row + 1) rs)

-- What the halves of a counter do to a table.
abbrev pub pad_at : ℕ → ℕ → ℕ → ℕ
pad_at update j pad =
    if j == 0 then update / 2 ^ 16 % 2 ^ 16 else if j == 1 then update % 2 ^ 16 else pad

count_pads-get :
    (update : ℕ) (fmt : Fmt) (j : ℕ) (r : FmtRow)
    → get_elem? fmt j ≡ some r
    → get_elem? (count_pads update fmt) j ≡ some (record r { pad = pad_at update j (r.pad) })
unfolding count_pads
count_pads-get update [] j r e = absurd cc
count_pads-get update (r' ∷ []) zero r e = let same : r' ≡ r = cc in rw (← same) refl
count_pads-get update (r' ∷ []) (suc j) r e = absurd cc
count_pads-get update (r' ∷ r'' ∷ rs) zero r e = let same : r' ≡ r = cc in rw (← same) refl
count_pads-get update (r' ∷ r'' ∷ rs) (suc zero) r e = let same : r'' ≡ r = cc in rw (← same) refl
count_pads-get update (r' ∷ r'' ∷ rs) (suc (suc j)) r e = ground (arith, e)

-- Every table that is sent: row j has the time of the update before plus 10 j microseconds, its
-- event and client data are as they were, the pads of the first two rows are the halves of the
-- counter of updates, from which it can be read, and the new time is kept for the next table.
pub update_fmt_sent :
    (s : FmtSim) (tc : ℤ) (t j : ℕ) (r : FmtRow)
    → s.now_us ≡ pos t
    → t + j * 10 < 2 ^ 63
    → get_elem? s.fmt j ≡ some r
    → (get_elem? (update_fmt false tc s).fmt j
        ≡ some (record r { timestamp = pos (t + j * 10); pad = pad_at s.update_count j (r.pad) }))
      × ((update_fmt false tc s).now_us ≡ tc)
unfolding update_fmt
update_fmt_sent s tc t j r e h g =
    let from_row : 0 + j ≡ j = omega arith in
    let stamped = stamp_rows-get t 0 s.fmt j r (omega arith) g in
    (
      ap (λ (z : ℤ). get_elem? (count_pads s.update_count (stamp_rows z 0 s.fmt)) j) e
          ∙ count_pads-get s.update_count (stamp_rows (pos t) 0 s.fmt) j _ stamped
          ∙ ap
              (λ (k : ℕ).
                some (record r {
                  timestamp = pos (t + k * 10);
                  pad = pad_at s.update_count j (r.pad);
                }))
              from_row,
      refl,
    )

abbrev pub AllZero : List WrReading → Type 0
AllZero [] = Unit {0}
AllZero (r ∷ rs) = (time_of r ≡ 0) × AllZero rs

-- time_now() ends once a reading is not 0, with the first such reading.
pub time_now_first :
    (before : List WrReading) (r : WrReading) (after : List WrReading)
    → AllZero before
    → time_of r ≢ 0
    → time_now (before ++ r ∷ after) ≡ some (time_of r)
unfolding time_now
time_now_first [] r after z h = ground arith
time_now_first (b ∷ bs) r after z h = rw (time_now, z.0) (time_now_first bs r after z.1 h)
