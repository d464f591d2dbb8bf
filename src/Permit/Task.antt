-- ===== src/Permit/Task.antt =====
-- The tasks of acq400_Permit.cpp and acq400_PermitLut.cpp, a round of each.
use acq400_xrm.Prelude.{
  ℕ, ◌+◌, ◌%◌, ◌^◌, Bool, false, Option, some, List, [], ◌∷◌, ◌>>=◌, if◌then◌else◌, map,
}
use acq400_xrm.Prelude.Int.{ℤ, pos, of_bits, eqb_ℤ}
use acq400_xrm.Structs.{Fmt}
use acq400_xrm.Driver.{
  Effect, set_integer, call_param_callbacks, array_callbacks, p_updates, p_prmt_col,
}
use acq400_xrm.Driver.RateLimit.{MonitorRateLimit, mrl_of, new_data}
use acq400_xrm.Permit.Lut.{PermitLut, check_if_fmt_event_trigger}
use acq400_xrm.Permit.Peers.{Permits, flush}

-- doDiagsCallbacks(): the column of events goes out first and last.
unfoldable pub do_diags_callbacks : List Effect
do_diags_callbacks = map (array_callbacks 0) (
    p_prmt_col 0
    ∷ p_prmt_col 1
    ∷ p_prmt_col 2
    ∷ p_prmt_col 3
    ∷ p_prmt_col 4
    ∷ p_prmt_col 5
    ∷ p_prmt_col 6
    ∷ p_prmt_col 0
    ∷ [])

-- acq400_PermitLut::task(), with the counter of updates before.
unfoldable pub lut_round : ℕ → PermitLut → ℕ × PermitLut × List Effect
lut_round update lut =
    let count = (update + 1) % 2 ^ 32 in
    (
      count,
      record lut { dirty = false },
      set_integer 0 p_updates (of_bits 32 count)
          ∷ call_param_callbacks
          ∷ (if lut.dirty then do_diags_callbacks else []),
    )

-- acq400_Permit::task(): the peer that runs it, the others and the table of events.
pub record PermitTask (F : Type 0) (level : ℕ → ℕ → F → ℤ) : Type 0 where
  pub permits : Permits level
  pub lut : PermitLut
  pub rate_limit : MonitorRateLimit
  pub mrl_param : ℤ
  pub update_count : ℕ

-- A round: `locked` is whether another thread holds the lock of the cache, and `fmt` is
-- get_fmt(0). enable() is empty.
unfoldable pub permit_round :
    {F : Type 0} (level : ℕ → ℕ → F → ℤ)
    → ℤ
    → ℕ
    → Bool
    → Fmt
    → PermitTask F level
    → Option (PermitTask F level × List Effect)
permit_round level runstop now locked fmt s = do
  rate ← new_data now (mrl_of s.mrl_param) s.rate_limit
  let limited : PermitTask _ level = record s { rate_limit = rate }
  let run = (do
    flushed ← flush level locked s.permits
    triggered ← check_if_fmt_event_trigger fmt s.lut flushed.dsp
    let count = (s.update_count + 1) % 2 ^ 32
    some (
      record limited {
        permits = record flushed { dsp = triggered.1 };
        lut = triggered.0;
        update_count = count;
      },
      set_integer 0 p_updates (of_bits 32 count) ∷ call_param_callbacks ∷ [],
    ))
  if eqb_ℤ runstop (pos 1) then run else some (limited, [])
