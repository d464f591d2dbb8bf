-- ===== src/Soe/Edit.antt =====
-- acq400_SOE.cpp: the lookup table, its first rows, redit(), and its columns.
use acq400_xrm.Prelude.{
  ℕ, zero, suc, ◌+◌, ◌*◌, ◌≤◌, ◌≡◌, ap, ◌∙◌, Option, some, List, [], ◌∷◌, map, length, arith,
}
use acq400_xrm.Prelude.Int.{ℤ, pos, negsuc, ◌+ℤ◌, ◌*ℤ◌, s32, to_bits}
use acq400_xrm.Driver.Edit.{edit_rows, AreEdited, edit_rows-AreEdited}
use acq400_xrm.Structs.{SoeLut, SoeLutRow}

-- The constructor: row numbers from `row` on, n of them.
unfoldable pub first_lut : ℕ → ℕ → SoeLut
first_lut zero row = []
first_lut (suc n) row =
    record { event = 1000 + row; pad = 0; pv_id = 2000 + row; offset_us = pos (row * 2) }
    ∷ first_lut n (suc row)

-- struct COLUMNS; c_rownum is never written after the constructor.
pub record Columns : Type 0 where
  pub c_event : List ℕ
  pub c_pad : List ℕ
  pub c_pv_id : List ℕ
  pub c_offset_us : List ℤ

unfoldable pub update_soe_lut_columns : SoeLut → Columns
update_soe_lut_columns lut = record {
  c_event = map (λ (l : SoeLutRow). l.event) lut;
  c_pad = map (λ (l : SoeLutRow). l.pad) lut;
  c_pv_id = map (λ (l : SoeLutRow). l.pv_id) lut;
  c_offset_us = map (λ (l : SoeLutRow). l.offset_us) lut;
}

-- The eight parameters that redit() reads.
pub record Redit : Type 0 where
  pub row : ℤ
  pub row_count : ℤ
  pub event : ℤ
  pub event_step : ℤ
  pub pv_id : ℤ
  pub pv_id_step : ℤ
  pub offset_us : ℤ
  pub offset_us_step : ℤ

-- base + rn * step, in `int` arithmetic.
unfoldable pub stepped : ℤ → ℕ → ℤ → ℤ
stepped base rn step = s32 (base +ℤ (pos rn *ℤ step))

-- this_row after round `rn`.
unfoldable pub edited_row : Redit → ℕ → SoeLutRow → SoeLutRow
edited_row q rn l = record l {
  event = to_bits 16 (stepped q.event rn q.event_step);
  pv_id = to_bits 32 (stepped q.pv_id rn q.pv_id_step);
  offset_us = stepped q.offset_us rn q.offset_us_step;
}

-- redit(), where the parameters can be read.
unfoldable pub redit : Redit → SoeLut → Option SoeLut
redit q lut = elim q.row_count [
  | pos n ↦ edit_rows q.row (edited_row q) n 0 lut
  | negsuc n ↦ some lut
]

-- What row `rn` of an edit is to be.
abbrev pub row_in_steps : Redit → ℕ → SoeLutRow → SoeLutRow
row_in_steps q rn l = record {
  event = to_bits 16 (s32 (q.event +ℤ (pos rn *ℤ q.event_step)));
  pad = l.pad;
  pv_id = to_bits 32 (s32 (q.pv_id +ℤ (pos rn *ℤ q.pv_id_step)));
  offset_us = s32 (q.offset_us +ℤ (pos rn *ℤ q.offset_us_step));
}

redit_count :
    (q : Redit) (count : ℕ) (lut : SoeLut)
    → q.row_count ≡ pos count
    → redit q lut ≡ edit_rows q.row (edited_row q) count 0 lut
unfolding redit
redit_count q count lut c =
    ap (λ (z : ℤ). elim z [ pos n ↦ edit_rows q.row (edited_row q) n 0 lut | negsuc n ↦ some lut ])
      c

-- redit() of rows within the table: as many rows as asked for are edited from the given one on,
-- and the others are kept. The rn-th of them, from 0, gets the event, the process variable and
-- the offset that were asked for plus rn times their steps, as 32-bit integers, the event cut to
-- 16 bits, and keeps its pad.
pub redit-AreEdited :
    (q : Redit) (row count : ℕ) (lut : SoeLut)
    → q.row ≡ pos row
    → q.row_count ≡ pos count
    → row + count ≤ length lut
    → (next : SoeLut) × (redit q lut ≡ some next) × AreEdited (row_in_steps q) row 0 count lut next
unfolding edited_row stepped
redit-AreEdited q row count lut e c h =
    let r = edit_rows-AreEdited q.row (edited_row q) row count 0 lut e (omega arith) in
    (r.0, redit_count q count lut c ∙ r.1, r.2)
