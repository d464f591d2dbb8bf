-- ===== src/FmtBase.antt =====
-- xrmIocApp/src/acq400_FMT.h and acq400_FMT_abc.cpp: what the receiver and the simulator of event
-- tables share, the columns of a table and their callbacks.
use acq400_xrm.Prelude.{ℕ, Bool, List, [], ◌∷◌, if◌then◌else◌, map}
use acq400_xrm.Prelude.Int.{ℤ, of_bits}
use acq400_xrm.Structs.{Fmt, FmtRow}
use acq400_xrm.Driver.{
  Effect, set_integer, call_param_callbacks, array_callbacks, p_updates, p_ts_usec,
  p_fmt_col_rownum, p_fmt_col_event, p_fmt_col_pad, p_fmt_col_client_data, p_fmt_col_timestamp,
}

-- struct COLUMNS of acq400_FMT_abc.
pub record Columns : Type 0 where
  pub c_event : List ℕ
  pub c_pad : List ℕ
  pub c_client_data : List ℕ
  pub c_timestamp : List ℤ

unfoldable pub update_fmt_columns : Fmt → Columns
update_fmt_columns fmt = record {
  c_event = map (λ (r : FmtRow). r.event) fmt;
  c_pad = map (λ (r : FmtRow). r.pad) fmt;
  c_client_data = map (λ (r : FmtRow). r.client_data) fmt;
  c_timestamp = map (λ (r : FmtRow). r.timestamp) fmt;
}

-- update_fmt_callbacks(), with the counter after its increment and the time of the update.
unfoldable pub update_fmt_callbacks : ℕ → ℤ → Bool → List Effect
update_fmt_callbacks update now_us call_array_callbacks =
    set_integer 0 p_updates (of_bits 32 update)
    ∷ set_integer 0 p_ts_usec now_us
    ∷ call_param_callbacks
    ∷ (if call_array_callbacks
        then map (array_callbacks 0) (
            p_fmt_col_rownum ∷ p_fmt_col_event ∷ p_fmt_col_pad ∷ p_fmt_col_client_data
            ∷ p_fmt_col_timestamp ∷ [])
        else [])
