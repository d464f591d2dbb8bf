-- ===== src/Monitor/Examples.antt =====
-- The hold table of a cycle, printed by xrm_ht_monitor.cpp.
use acq400_xrm.Prelude.{
  ltb, if◌then◌else◌, true, false, Option, none, List, refl, [], ◌∷◌, ◌++◌, ◌+◌, ◌*◌, ◌≡◌, some,
  length, arith,
}
use acq400_xrm.Prelude.Memory.{WordMem, read_words, write_words, update}
use acq400_xrm.Prelude.Int.{ℤ, pos}
use acq400_xrm.Prelude.Text.{Text, codes, atoi}
use acq400_xrm.Soe.Strategy.{Rc, ssl, soe_lut_lookup}
use acq400_xrm.Soe.Lookup.{cycle_hits}
use acq400_xrm.Soe.Examples.{dims, latest, blank, start, prams, kbuf, two_hits, ready}
use acq400_xrm.Monitor.{Entry, print_entry, parse}
use acq400_xrm.Monitor.Formats.{bin_start, bin_print, parse_with, parse_with-bin_print}
use acq400_xrm.Structs.{load_header, store_header, header_of, words_of}
use acq400_xrm.Monitor.Dump.{print_hold}
use acq400_xrm.Monitor.Dump.Agreement.{lines_of, shown_words, print_hold-parse}
use acq400_xrm.Monitor.Feed.{
  Options, bin, format_of, ui, set_option, set_options, monitor_lines, monitor_line, show_then,
  is_last,
}
use acq400_xrm.Pvxs.{find, behind}
use acq400_xrm.Monitor.Json.{
  Token, newline, close_brace, colon, open_brace, quoted, Line, Indent, line, closes, layout,
  print_intro, print_outro, print_egu, json_print,
}
use acq400_xrm.Monitor.Json.Grammar.{significant, solid, json}
use acq400_xrm.Monitor.Json.Values.{table_json}
use acq400_xrm.Monitor.Json.Output.{json_print-table_json}
use acq400_xrm.Monitor.RoundTrip.{entries_for, parse-soe_lut_lookup}

parse-soe_lut_lookup_example :
    (done : WordMem × Rc) × (soe_lut_lookup dims latest blank start ≡ some done)
    × (parse (length (cycle_hits dims latest) + 1) done.0 0
        ≡ some (
            entries_for prams kbuf.raw
              (ssl prams)
              ((length (cycle_hits dims latest) + 1) * 8)
              (cycle_hits dims latest)))
parse-soe_lut_lookup_example =
    parse-soe_lut_lookup dims latest blank start ready
      (rw two_hits
        ((λ (e : 100 ≡ 0). absurd (omega arith)), ((λ (e : 102 ≡ 0). absurd (omega arith)), tt)))
      (record { even = omega arith; all_channels = omega arith; vernier = omega arith })
      (rw two_hits (omega arith))

parse_with-bin_print_example :
    (done : WordMem × Rc) × (soe_lut_lookup dims latest blank start ≡ some done)
    × (parse_with (bin_print 40 done.0) (length (cycle_hits dims latest) + 1) done.0 0 bin_start
        ≡ some (record {
          iheader = length (cycle_hits dims latest);
          blocks = read_words done.0 0 40 ∷ [];
        }))
parse_with-bin_print_example =
    parse_with-bin_print dims latest blank start 40 ready
      (rw two_hits
        ((λ (e : 100 ≡ 0). absurd (omega arith)), ((λ (e : 102 ≡ 0). absurd (omega arith)), tt)))
      (rw two_hits (omega arith))

abbrev lines : List Text
lines = codes "=0" ∷ codes "no" ∷ codes "=1" ∷ codes "=2" ∷ codes "=3" ∷ []

-- A table is its text here.
abbrev shown : Text → Option (List Text)
shown cursor = some (cursor ∷ [])

two_updates :
    monitor_lines shown (codes "=") (pos 2) 0 true lines ≡ some (codes "1" ∷ codes "2" ∷ [])
unfolding monitor_lines monitor_line find behind show_then is_last
two_updates = refl

abbrev defaults : Options
defaults = record {
  file_root = none;
  updates = pos 0;
  format = codes "json";
  wait_first_change = false;
  egu = false;
}

options :
    ui atoi ((b'F', codes "bin") ∷ (b'W', []) ∷ []) (codes "host" ∷ []) defaults
    ≡ some (record defaults { format = codes "bin"; wait_first_change = true }, codes "host", bin)
unfolding ui set_options set_option format_of
options = refl

-- The usage names -#, which has no case.
no_max : ui atoi ((b'#', codes "9") ∷ []) (codes "host" ∷ []) defaults ≡ none
unfolding ui set_options set_option
no_max = refl

-- One match, with its sample behind the two rows of headers.
abbrev one_match : WordMem
one_match =
    store_header (λ j. if ltb j 16 then 0 else j) 0
      (record {
        lut_row = record { event = 7; pad = 0; pv_id = 9; offset_us = pos 0 };
        client_data = 1;
        timestamp = pos 5;
        data_offset = 16;
        ss_u32 = 6;
        ai_count = 2;
        di_count = 1;
        sp_count = 4;
        unused = 0;
      })

abbrev one_entry : Entry
one_entry =
    print_entry (load_header one_match 0)
      (λ j. one_match ((load_header one_match 0).data_offset + j))

print_hold-parse_example :
    print_hold one_match
    ≡ (lines_of 0 (one_entry ∷ []), ((one_entry).ai16, shown_words one_entry) ∷ [])
unfolding parse load_header store_header print_entry header_of words_of write_words update
print_hold-parse_example =
    print_hold-parse 2 one_match (one_entry ∷ []) refl (omega arith) (((refl, ground arith), tt))

abbrev margin : Indent
margin = record { tabs_in_str = 0; level = 0 }

json_print-table_json_example :
    (lines : List Line) × (out : List Token) × (parse_with
        (json_print none one_match)
        2
        one_match
        0
        print_intro
      ≡ some lines)
    × (layout (lines ++ print_outro) margin ≡ some (out, margin))
    × (significant out [] ≡ json (table_json (one_entry ∷ [])) [])
unfolding parse load_header store_header print_entry header_of words_of write_words update
json_print-table_json_example = json_print-table_json 2 one_match (one_entry ∷ []) refl

-- With -e nothing stands between the end of RAW and the member EGU.
egu_without_comma :
    (volts : List ℤ → List Text) (ai16 : List ℤ) (rest : List Token)
    → (after : List Token) × (solid
          (line closes (close_brace ∷ newline ∷ []) ∷ print_egu (some volts) ai16)
          rest
        ≡ close_brace ∷ quoted (codes "EGU") ∷ colon ∷ open_brace ∷ after)
unfolding solid significant print_egu
egu_without_comma volts ai16 rest = (_, refl)
