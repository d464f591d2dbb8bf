-- ===== src/Permit/Examples.antt =====
-- A DSP with an AI site, a site that is missing and a DI site, and its table of events, for
-- acq400_Permit.cpp and acq400_PermitLut.cpp.
use acq400_xrm.Prelude.{
  ℕ, ◌+◌, ◌-◌, ◌≡◌, inl, refl, true, false, none, some, [], ◌∷◌, ◌==◌, if◌then◌else◌, arith,
}
use acq400_xrm.Prelude.Int.{pos, to_bits}
use acq400_xrm.Permit.Mirror.{IsRefresh, Agrees, refresh_shadow-Agrees}
use acq400_xrm.Permit.{refresh_shadow, get_permit_latch, get_permit_live, ptlat, ptliv}
use acq400_xrm.Permit.{PermitDsp, SiteDef, no_site, full_load, th_base}
use acq400_xrm.Permit.Loading.{pairs, taken, full_load_slot, full_load_outside}
use acq400_xrm.Permit.Selection.{Cols, set_di_selection_col}
use acq400_xrm.Permit.Columns.Scan.{bit}
use acq400_xrm.Permit.Columns.{Describes, set_di_selection_col-Describes}
use acq400_xrm.Permit.Lut.{PermitLut, PrmtLutRow, contains, write_event, find_row, max_rows}
use acq400_xrm.Permit.EventSet.{IsOwned, write_event-IsOwned, find_row_of_contains}

abbrev site_defs : ℕ → SiteDef
site_defs site =
    if site == 1
    then record { is_ai = true; site = 1; nelem = 32 }
    else if site == 5
    then record { is_ai = false; site = 5; nelem = 2 }
    else no_site

abbrev dsp : PermitDsp
dsp = record { fpga = λ j. 0; shadow = λ j. 0; sites = site_defs }

abbrev ai_words : ℕ → ℕ
ai_words i = 1000 + i

abbrev di_words : ℕ → ℕ
di_words i = 2000 + i

full_load_slot_example :
    (full_load ai_words di_words dsp).fpga (th_base 5 + 1)
    ≡ pairs
        (site_defs 5).is_ai
        ai_words
        di_words
        (taken site_defs (site_defs 5).is_ai 1 (5 - 1) + 1)
full_load_slot_example =
    full_load_slot ai_words di_words dsp 5 1 (omega arith) (omega arith) (omega arith) (omega arith)
      (omega arith)

full_load_outside_example : (full_load ai_words di_words dsp).fpga 14_000 ≡ dsp.fpga 14_000
full_load_outside_example =
    full_load_outside ai_words di_words dsp 14_000 (λ k a b. inl (omega arith))

set_di_selection_col-Describes_example :
    (next : Cols) × (set_di_selection_col 3 (7 ∷ 0xf0000000 ∷ []) 1 (λ s a. 0) ≡ some next)
    × Describes (bit 0xf0000000) (next 5 3)
set_di_selection_col-Describes_example =
    set_di_selection_col-Describes 3 (7 ∷ 0xf0000000 ∷ []) 1 (λ s a. 0) 0 (omega arith)
      (omega arith) (omega arith) (omega arith)

abbrev empty_row : PrmtLutRow
empty_row = record { event = 0; ai_th_pairs = none; di_pairs = none }

abbrev lut : PermitLut
lut = record {
  lut_rows = λ row. empty_row;
  event_set = 0 ∷ [];
  cols = λ site addr. 0;
  last_load_event = 65535;
  dirty = false;
}

lut-IsOwned : IsOwned lut
unfolding contains
lut-IsOwned e h = (0, omega arith, ground arith)

write_event-IsOwned_example :
    (t : PermitLut) × (write_event 4 (pos 17) lut ≡ some t)
    × ((t.lut_rows 4).event ≡ to_bits 16 (pos 17))
    × (contains (to_bits 16 (pos 17)) t.event_set ≡ true)
    × IsOwned t
write_event-IsOwned_example =
    write_event-IsOwned lut 4 (pos 17) (omega arith) (omega arith) lut-IsOwned

has_zero : contains 0 lut.event_set ≡ true
unfolding contains
has_zero = refl

find_row_of_contains_example :
    (k : ℕ) × (find_row lut.lut_rows max_rows 0 (pos 0) ≡ some k) × ((lut.lut_rows k).event ≡ 0)
find_row_of_contains_example = find_row_of_contains lut 0 lut-IsOwned has_zero

refresh_shadow-Agrees_example :
    IsRefresh dsp (refresh_shadow dsp)
    × Agrees (refresh_shadow dsp) (ptlat 1)
    × (get_permit_latch (refresh_shadow dsp) 1 ≡ dsp.fpga (ptlat 1))
    × (get_permit_live (refresh_shadow dsp) 1 ≡ dsp.fpga (ptliv 1))
refresh_shadow-Agrees_example =
    refresh_shadow-Agrees dsp 1 (ptlat 1) (omega arith, omega arith)
      (λ (e : (dsp.sites 1).site ≡ 0). absurd (omega arith)) (inl (omega arith, omega arith))
