-- ===== src/Soe/Table.antt =====
-- The hold table that a cycle of acq400_SOE_Strategy.cpp is to leave behind: a header for each
-- match, a header of no process variable, and a sample for each match.
pub mod Copy
pub mod Draft
use acq400_xrm.Prelude.{ℕ, ◌+◌, ◌*◌, ◌/◌, ◌%◌, ◌^◌, ◌<◌, ◌≡◌, ◌≢◌, List, [], ◌∷◌}
use acq400_xrm.Prelude.Int.{ℤ}
use acq400_xrm.Prelude.Memory.{WordMem}
use acq400_xrm.Structs.{FmtRow, SoeLutRow, SoeHoldHeader, soe_hold_header_version, load_header}
use acq400_xrm.SamplePrams.{SamplePrams}
use acq400_xrm.Soe.Strategy.{ssl}

-- An event of the event table, the lookup row that asks for it, and the sample that it falls on.
pub record Match : Type 0 where
  pub fmt_row : FmtRow
  pub lut_row : SoeLutRow
  pub bsi : ℕ

-- The header that goes out for a match whose sample stands at word `off` of the table.
abbrev pub header_for : SamplePrams → Match → ℕ → SoeHoldHeader
header_for p e off = record {
  lut_row = record (e.lut_row) { pad = b'S' * 256 + soe_hold_header_version };
  client_data = e.bsi;
  timestamp = e.fmt_row.timestamp;
  data_offset = off % 2 ^ 16;
  ss_u32 = ssl p % 2 ^ 8;
  ai_count = p.ai_count % 2 ^ 8;
  di_count = p.di_count % 2 ^ 8;
  sp_count = p.sp_count % 2 ^ 8;
  unused = 0;
}

-- `ht` holds the headers of the matches from row `row` on, with no place yet, and
-- then one that names no process variable.
abbrev pub IsDrafted : SamplePrams → WordMem → ℕ → List Match → Type 0
IsDrafted p ht row [] = (load_header ht row).lut_row.pv_id ≡ 0
IsDrafted p ht row (e ∷ es) = (load_header ht row ≡ header_for p e 0) × IsDrafted p ht (row + 1) es

-- `ht` holds the headers of the matches from row `row` on, then one that names no process
-- variable, and from word `off` on their samples, n words each, as they stand in the raw buffer.
abbrev pub IsTable : SamplePrams → WordMem → ℕ → WordMem → ℕ → ℕ → List Match → Type 0
IsTable p raw n ht row off [] = (load_header ht row).lut_row.pv_id ≡ 0
IsTable p raw n ht row off (e ∷ es) =
    (load_header ht row ≡ header_for p e off)
    × ((j : ℕ) → j < n → ht (off + j) ≡ raw (e.bsi * n + j))
    × IsTable p raw n ht (row + 1) (off + n) es

-- Matched rows name a process variable.
abbrev pub AllNamed : List Match → Type 0
AllNamed [] = Unit {0}
AllNamed (e ∷ es) = (e.lut_row.pv_id ≢ 0) × AllNamed es
