-- ===== src/Monitor/Json.antt =====
-- The JSON formatter of xrm_ht_monitor.cpp: its lines, as pieces of text, and their indentation.
-- The analog values of an entry in volts are float arithmetic, so their texts are an argument.
pub mod Grammar
pub mod Values
pub mod Output
use Prim.Native.String.{String}
use acq400_xrm.Prelude.{
  ℕ, zero, suc, ◌+◌, ◌-◌, Bool, true, false, not, Option, none, some, List, [], ◌∷◌, ◌++◌, map,
  ◌>>=◌, ltb, ◌==◌, if◌then◌else◌,
}
use acq400_xrm.Prelude.Int.{ℤ, pos, to_bits}
use acq400_xrm.Prelude.Memory.{WordMem}
use acq400_xrm.Prelude.Text.{Text, codes}
use acq400_xrm.Driver.{Checked}
use acq400_xrm.Structs.{SoeHoldHeader, load_header}
use acq400_xrm.Monitor.{Entry, print_entry}

-- Pieces of the output: white space, punctuation, a text in quotes, and numbers by their formats
-- `%10u`, `%u`, `%d`, `"0x%08x"` and `%3.4f`.
pub data Token : Type 0 where
  tabs blanks : ℕ → Token
  newline open_brace close_brace open_bracket close_bracket comma colon : Token
  quoted : Text → Token
  padded unsigned hex : ℕ → Token
  signed : ℤ → Token
  real : Text → Token

-- The variables of indent(): the tabs in str, and level.
pub record Indent : Type 0 where
  pub tabs_in_str : ℕ
  pub level : ℕ

-- The argument of indent(), 1, 0 or -1.
pub data Delta : Type 0 where
  opens keeps closes : Delta

abbrev drop_tab : Indent → Indent
drop_tab s =
    let str : Indent = record s { level = s.level - 1; tabs_in_str = s.tabs_in_str - 1 } in
    if s.level == 0 then s else str

abbrev change_level : Delta → Indent → Indent
change_level opens s = record s { level = s.level + 1 }
change_level keeps s = s
change_level closes s = drop_tab s

-- indent(delta): the tabs that are printed. `none` is a write behind the 80 bytes of str.
unfoldable pub indent : Delta → Indent → Checked (ℕ × Indent)
indent delta s =
    let length_of_str = if ltb s.tabs_in_str s.level then s.level else s.tabs_in_str in
    let t = change_level delta (record s { tabs_in_str = length_of_str }) in
    if ltb length_of_str 80 then some (t.tabs_in_str, t) else none

-- A print that begins with "%s" for indent(delta), with what is printed up to the next.
pub record Line : Type 0 where
  pub delta : Delta
  pub tokens : List Token

abbrev pub line : Delta → List Token → Line
line delta tokens = record { delta = delta; tokens = tokens }

-- What goes out, from the state of indent() on.
unfoldable pub layout : List Line → Indent → Checked (List Token × Indent)
layout [] s = some ([], s)
layout (l ∷ ls) s = do
  r ← indent l.delta s
  t ← layout ls (r.1)
  some (tabs (r.0) ∷ l.tokens ++ t.0, t.1)

abbrev pub member : String → List Token → List Token
member name value = quoted (codes name) ∷ colon ∷ value

-- print_intro(), print_outro(), print_header_intro() and print_header_outro()
unfoldable pub print_intro : List Line
print_intro =
    line opens (open_brace ∷ blanks 1 ∷ member "HT" (blanks 1 ∷ open_bracket ∷ newline ∷ [])) ∷ []

unfoldable pub print_outro : List Line
print_outro = line closes (close_bracket ∷ blanks 1 ∷ close_brace ∷ newline ∷ []) ∷ []

unfoldable pub print_header_intro : List Line
print_header_intro = line opens (open_brace ∷ newline ∷ []) ∷ []

unfoldable pub print_header_outro : Bool → List Line
print_header_outro not_final =
    line closes (close_brace ∷ (if not_final then comma else blanks 1) ∷ newline ∷ []) ∷ []

abbrev pub field : String → ℕ → Line
field name n = line keeps (member name (blanks 1 ∷ padded n ∷ comma ∷ newline ∷ []))

-- print(header)
unfoldable pub print_header : SoeHoldHeader → List Line
print_header h =
    line opens (member "HDR" (blanks 1 ∷ open_brace ∷ newline ∷ []))
    ∷ field "pv_id" h.lut_row.pv_id
    ∷ field "evt" h.lut_row.event
    ∷ field "offset_us" (to_bits 32 h.lut_row.offset_us)
    ∷ field "client_data" h.client_data
    ∷ field "timestamp" (to_bits 64 h.timestamp)
    ∷ field "data_offset" h.data_offset
    ∷ field "ss_u32" h.ss_u32
    ∷ line keeps (member "ai_count" (tabs 1 ∷ padded h.ai_count ∷ comma ∷ newline ∷ []))
    ∷ line keeps (member "di_count" (tabs 1 ∷ padded h.di_count ∷ comma ∷ newline ∷ []))
    ∷ line keeps (member "sp_count" (tabs 1 ∷ padded h.sp_count ∷ newline ∷ []))
    ∷ line closes (close_brace ∷ comma ∷ newline ∷ [])
    ∷ []

-- A value, then a comma if another follows, else a blank.
unfoldable pub items : List Token → List Token
items [] = []
items (v ∷ []) = v ∷ blanks 1 ∷ []
items (v ∷ w ∷ vs) = v ∷ comma ∷ items (w ∷ vs)

abbrev pub print_array : String → List Token → Line
print_array name values = line keeps (
    member name
      (blanks 1 ∷ open_bracket ∷ blanks 1 ∷ items values ++ close_bracket ∷ comma ∷ newline ∷ []))

-- print_wrus(sp32)
unfoldable pub print_wrus : Entry → List Line
print_wrus e =
    line keeps (blanks 1 ∷ member "WRVS" (tabs 2 ∷ unsigned e.wrvs ∷ comma ∷ newline ∷ []))
    ∷ line keeps (blanks 1 ∷ member "WRVT" (blanks 9 ∷ unsigned e.wrvt ∷ comma ∷ newline ∷ []))
    ∷ line keeps (blanks 1 ∷ member "WRUS" (blanks 9 ∷ unsigned e.wrus ∷ newline ∷ []))
    ∷ []

-- With -e: the values in volts.
unfoldable pub print_egu : Option (List ℤ → List Text) → List ℤ → List Line
print_egu none ai16 = []
print_egu (some volts) ai16 =
    line opens (member "EGU" (blanks 1 ∷ open_brace ∷ newline ∷ []))
    ∷ print_array "volts" (map real (volts ai16))
    ∷ line closes (close_brace ∷ newline ∷ [])
    ∷ []

-- print_raw(header, ht_data)
unfoldable pub print_raw : Option (List ℤ → List Text) → Entry → List Line
print_raw egu e =
    line opens (member "RAW" (blanks 1 ∷ open_brace ∷ newline ∷ []))
      ∷ print_array "ai16" (map signed e.ai16)
      ∷ print_array "di32" (map hex e.di32)
      ∷ print_array "sp32" (map hex e.sp32)
      ∷ print_wrus e
    ++ line closes (close_brace ∷ newline ∷ []) ∷ print_egu egu e.ai16

abbrev pub entry_lines : Option (List ℤ → List Text) → Bool → Entry → List Line
entry_lines egu not_final e =
    print_header_intro ++ print_header e.hdr ++ print_raw egu e ++ print_header_outro not_final

-- print(header, ht_data) of header `row`, behind what went out before.
unfoldable pub json_print : Option (List ℤ → List Text) → WordMem → ℕ → List Line → List Line
json_print egu ht row out =
    let h = load_header ht row in
    out
    ++ entry_lines egu (not ((load_header ht (row + 1)).lut_row.pv_id == 0))
        (print_entry h (λ j. ht (h.data_offset + j)))
