-- ===== src/Structs.antt =====
-- xrmIocApp/src/xrm_structs.h: the tables that the parts share, and the layout of a hold
-- table header in the 32-bit words that go out on the wire (little endian).
pub mod Layout
pub mod Examples
use acq400_xrm.Prelude.{
  ℕ, ◌+◌, ◌*◌, ◌/◌, ◌%◌, ◌^◌, Bool, List, [], ◌∷◌, ◌==◌, if◌then◌else◌, replicate,
}
use acq400_xrm.Prelude.Int.{ℤ, pos, to_bits, of_bits}
use acq400_xrm.Prelude.Memory.{WordMem, update, write_words}

-- struct FMT_ROW
pub record FmtRow : Type 0 where
  pub event : ℕ
  pub pad : ℕ
  pub client_data : ℕ
  pub timestamp : ℤ

-- EV99 denotes the last event in a table.
abbrev pub ev99 : ℕ
ev99 = 65535

abbrev pub fmt_rows : ℕ
fmt_rows = 64

-- typedef struct FMT_ROW FMT[FMT_ROWS]
abbrev pub Fmt : Type 0
Fmt = List FmtRow

abbrev pub zero_fmt_row : FmtRow
zero_fmt_row = record { event = 0; pad = 0; client_data = 0; timestamp = pos 0 }

-- clean(FMT)
unfoldable pub clean : Fmt
clean = replicate fmt_rows zero_fmt_row

-- struct SOE_LUT_ROW
pub record SoeLutRow : Type 0 where
  pub event : ℕ
  pub pad : ℕ
  pub pv_id : ℕ
  pub offset_us : ℤ

abbrev pub soe_lut_rows : ℕ
soe_lut_rows = 64

abbrev pub SoeLut : Type 0
SoeLut = List SoeLutRow

-- struct SOE_HOLD_HEADER. `unused` stands for the two bytes that end the struct.
pub record SoeHoldHeader : Type 0 where
  pub lut_row : SoeLutRow
  pub client_data : ℕ
  pub timestamp : ℤ
  pub data_offset : ℕ
  pub ss_u32 : ℕ
  pub ai_count : ℕ
  pub di_count : ℕ
  pub sp_count : ℕ
  pub unused : ℕ

abbrev pub soe_hld_rows : ℕ
soe_hld_rows = 64

-- sizeof(SOE_HOLD_HEADER) / sizeof(U32)
abbrev pub header_words : ℕ
header_words = 8

abbrev pub soe_hold_header_version : ℕ
soe_hold_header_version = 1

-- setVersion(): 'S' << 8 | VERSION into the pad of the LUT row.
unfoldable pub set_version : SoeHoldHeader → SoeHoldHeader
set_version soe = record soe {
  lut_row = record (soe.lut_row) { pad = b'S' * 256 + soe_hold_header_version };
}

-- getVersion(): 0 where the magic is missing.
unfoldable pub get_version : SoeHoldHeader → ℕ
get_version soe = if soe.lut_row.pad / 256 == b'S' then soe.lut_row.pad % 256 else 0

-- HOLD_DATA_OFF(), HOLD_MAXSIZE(ssb), in bytes, and HOLD_MAX_NELM(ssb) in units of
-- sizeof(long), which is 4 on the ARM target.
unfoldable pub hold_data_off : ℕ
hold_data_off = (soe_hld_rows + 1) * 32

unfoldable pub hold_maxsize : ℕ → ℕ
unfolding hold_data_off
hold_maxsize ssb = hold_data_off + soe_hld_rows * ssb

unfoldable pub hold_max_nelm : ℕ → ℕ
unfolding hold_maxsize
hold_max_nelm ssb = hold_maxsize ssb / 4

-- The fields of a header, read from its eight words.
unfoldable pub header_of : ℕ → ℕ → ℕ → ℕ → ℕ → ℕ → ℕ → ℕ → SoeHoldHeader
header_of w0 w1 w2 w3 w4 w5 w6 w7 = record {
  lut_row = record {
    event = w0 % 2 ^ 16;
    pad = w0 / 2 ^ 16;
    pv_id = w1;
    offset_us = of_bits 32 w2;
  };
  client_data = w3;
  timestamp = of_bits 64 (w4 + w5 * 2 ^ 32);
  data_offset = w6 % 2 ^ 16;
  ss_u32 = w6 / 2 ^ 16 % 2 ^ 8;
  ai_count = w6 / 2 ^ 24;
  di_count = w7 % 2 ^ 8;
  sp_count = w7 / 2 ^ 8 % 2 ^ 8;
  unused = w7 / 2 ^ 16;
}

-- ht[row], where `ht` is the table.
unfoldable pub load_header : WordMem → ℕ → SoeHoldHeader
unfolding header_of
load_header ht row =
    let at = row * header_words in
    header_of (ht at) (ht (at + 1)) (ht (at + 2)) (ht (at + 3)) (ht (at + 4)) (ht (at + 5))
      (ht (at + 6)) (ht (at + 7))

-- The eight words of a header.
unfoldable pub words_of : SoeHoldHeader → List ℕ
words_of h =
    (h.lut_row.event + h.lut_row.pad * 2 ^ 16)
    ∷ h.lut_row.pv_id
    ∷ to_bits 32 h.lut_row.offset_us
    ∷ h.client_data
    ∷ to_bits 64 h.timestamp % 2 ^ 32
    ∷ to_bits 64 h.timestamp / 2 ^ 32
    ∷ (h.data_offset + h.ss_u32 * 2 ^ 16 + h.ai_count * 2 ^ 24)
    ∷ (h.di_count + h.sp_count * 2 ^ 8 + h.unused * 2 ^ 16)
    ∷ []

-- ht[row] = h
unfoldable pub store_header : WordMem → ℕ → SoeHoldHeader → WordMem
store_header ht row h = write_words ht (row * header_words) (words_of h)

-- ht[row].data_offset = off, an epicsUInt16.
unfoldable pub set_data_offset : WordMem → ℕ → ℕ → WordMem
set_data_offset ht row off =
    store_header ht row (record (load_header ht row) { data_offset = off % 2 ^ 16 })
