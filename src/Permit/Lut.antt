-- ===== src/Permit/Lut.antt =====
-- xrmIocApp/src/acq400_PermitLut.{h,cpp}: the table that gives each event its thresholds. A
-- null pointer is `none`; `none` as a result is a failed assert, or an access out of bounds.
use acq400_xrm.Prelude.{
  ℕ, zero, suc, ◌+◌, ◌*◌, ◌/◌, ◌^◌, Bool, true, false, Option, none, some, List, [], ◌∷◌, ◌++◌,
  ◌>>=◌, ltb, leb, ◌==◌, if◌then◌else◌, not, ◌&&◌, get_or, length, drop,
}
use acq400_xrm.Prelude.Int.{ℤ, pos, to_bits, eqb_ℤ}
use acq400_xrm.Prelude.Memory.{Mem, WordMem, update}
use acq400_xrm.Structs.{Fmt, ev99}
use acq400_xrm.SamplePrams.{SamplePrams}
use acq400_xrm.Driver.{
  Effect, Param, set_integer, call_param_callbacks, signal_event, p_runstop, p_prmt_lut_event,
  p_prmt_lut_soft_event, p_prmt_lut_last_event,
}
use acq400_xrm.Permit.{PermitDsp, full_load, is_active_site}
use acq400_xrm.Permit.Selection.{Cols, set_col, set_ai_selection_col, set_di_selection_col}

abbrev pub max_rows : ℕ
max_rows = 16

-- PRMT_LUT_ROW: 16-bit thresholds, and 32-bit words.
pub record PrmtLutRow : Type 0 where
  pub event : ℕ
  pub ai_th_pairs : Option (List ℕ)
  pub di_pairs : Option (List ℕ)

-- The set of rows is ordered by event, so only its events count.
pub record PermitLut : Type 0 where
  pub lut_rows : Mem PrmtLutRow
  pub event_set : List ℕ
  pub cols : Cols
  pub last_load_event : ℕ
  pub dirty : Bool

-- event_set.erase(), insert() and count()
unfoldable pub erase : ℕ → List ℕ → List ℕ
erase e [] = []
erase e (x ∷ xs) = let rest = erase e xs in if e == x then rest else x ∷ rest

unfoldable pub contains : ℕ → List ℕ → Bool
contains e [] = false
contains e (x ∷ xs) = if e == x then true else contains e xs

unfoldable pub insert : ℕ → List ℕ → List ℕ
insert e xs = if contains e xs then xs else e ∷ xs

-- writeInt32() with P_PRMT_LUT_EVENT: the event is compared as an int and kept in 16 bits.
unfoldable pub write_event : ℕ → ℤ → PermitLut → Option PermitLut
write_event addr value lut =
    let row = lut.lut_rows addr in
    let erased =
      if eqb_ℤ (pos row.event) value then lut.event_set else erase row.event lut.event_set in
    let event = to_bits 16 value in
    if ltb addr max_rows
    then some (record lut {
      lut_rows = update lut.lut_rows addr (record row { event = event });
      event_set = insert event erased;
      cols = set_col 0 addr (to_bits 32 value) lut.cols;
      dirty = true;
    })
    else none

-- for (pl_row ...) if (fmt_event == plr.event): the first such row.
unfoldable pub find_row : Mem PrmtLutRow → ℕ → ℕ → ℤ → Option ℕ
find_row rows zero row event = none
find_row rows (suc left) row event =
    let rest = find_row rows left (row + 1) event in
    if eqb_ℤ (pos (rows row).event) event then some row else rest

-- The words that the defined sites of a kind take in full_load().
unfoldable pub words_taken : PermitDsp → Bool → ℕ → ℕ → ℕ
words_taken dsp ai zero site = 0
words_taken dsp ai (suc left) site =
    let def = dsp.sites site in
    let rest = words_taken dsp ai left (site + 1) in
    if is_active_site dsp site
    then (if ai
        then (if def.is_ai then def.nelem + rest else rest)
        else (if def.is_ai then rest else def.nelem + rest))
    else rest

abbrev pub items : Option (List ℕ) → List ℕ
items none = []
items (some xs) = xs

-- Pairs of 16-bit values as words, the first in the low half.
abbrev pub words_of_shorts : List ℕ → WordMem
words_of_shorts xs i = get_or xs (2 * i) 0 + get_or xs (2 * i + 1) 0 * 2 ^ 16

abbrev pub words_of_words : List ℕ → WordMem
words_of_words xs i = get_or xs i 0

-- full_load(plr.ai_th_pairs, plr.di_pairs): `none` where the sites take more than there is.
unfoldable pub load_row : PrmtLutRow → PermitDsp → Option PermitDsp
load_row row dsp =
    let ai = items row.ai_th_pairs in
    let di = items row.di_pairs in
    if leb (words_taken dsp true 6 1 * 2) (length ai) && leb (words_taken dsp false 6 1) (length di)
    then some (full_load (words_of_shorts ai) (words_of_words di) dsp)
    else none

-- The body for a row that was found, or not.
unfoldable pub load_found : Option ℕ → PermitLut → PermitDsp → Option PermitDsp
load_found none lut dsp = some dsp
load_found (some row) lut dsp = load_row (lut.lut_rows row) dsp

-- writeInt32() with P_PRMT_LUT_SOFT_EVENT.
unfoldable pub write_soft_event : ℤ → PermitLut → PermitDsp → Option (PermitDsp × List Effect)
write_soft_event value lut dsp = do
  let found = find_row lut.lut_rows max_rows 0 value
  done ← load_found found lut dsp
  let effects : List Effect = elim found [
    | none ↦ []
    | some row ↦ set_integer 0 p_prmt_lut_last_event value ∷ []
  ]
  some (done, effects)

-- writeInt32(): the table, the DSP, and what the libraries are told, in order.
unfoldable pub write_int32 :
    Param → ℕ → ℤ → PermitLut → PermitDsp → Option (PermitLut × PermitDsp × List Effect)
write_int32 p_runstop addr value lut dsp = some (
  lut,
  dsp,
  set_integer addr p_runstop value ∷ (if eqb_ℤ value (pos 1) then signal_event ∷ [] else [])
      ++ call_param_callbacks ∷ [],
)
write_int32 p_prmt_lut_event addr value lut dsp = write_event addr value lut >>= λ t.
    some (t, dsp, set_integer addr p_prmt_lut_event value ∷ call_param_callbacks ∷ [])
write_int32 p_prmt_lut_soft_event addr value lut dsp = write_soft_event value lut dsp >>= λ r.
    some
      (lut, r.0, set_integer addr p_prmt_lut_soft_event value ∷ (r.1) ++ call_param_callbacks ∷ [])
write_int32 p addr value lut dsp =
    some (lut, dsp, set_integer addr p value ∷ call_param_callbacks ∷ [])

-- memcpy into an array that is allocated at its first use; `none` is a write behind its end.
unfoldable pub copy_pairs : Option (List ℕ) → List ℕ → Option (List ℕ)
copy_pairs none value = some value
copy_pairs (some old) value =
    if leb (length value) (length old) then some (value ++ drop (length value) old) else none

-- writeInt16Array() with P_PRMT_LUT_TH_AI; the flag is false for asynError.
unfoldable pub write_th_ai : SamplePrams → ℕ → List ℕ → PermitLut → Option (PermitLut × Bool)
write_th_ai sp addr value lut =
    let row = lut.lut_rows addr in
    let written = (do
      pairs ← copy_pairs row.ai_th_pairs value
      cols ← set_ai_selection_col addr pairs (length value / 2) lut.cols
      some (
        record lut {
          lut_rows = update lut.lut_rows addr (record row { ai_th_pairs = some pairs });
          cols = cols;
          dirty = true;
        },
        true,
      )) in
    if not (ltb addr max_rows)
    then none
    else if length value == sp.ai_count * 2
    then written
    else some (lut, false)

-- writeInt32Array() with P_PRMT_LUT_TH_DI.
unfoldable pub write_th_di : SamplePrams → ℕ → List ℕ → PermitLut → Option (PermitLut × Bool)
write_th_di sp addr value lut =
    let row = lut.lut_rows addr in
    let written = (do
      pairs ← copy_pairs row.di_pairs value
      cols ← set_di_selection_col addr pairs (length value / 2) lut.cols
      some (
        record lut {
          lut_rows = update lut.lut_rows addr (record row { di_pairs = some pairs });
          cols = cols;
          dirty = true;
        },
        true,
      )) in
    if not (ltb addr max_rows)
    then none
    else if length value == sp.di_count * 2
    then written
    else some (lut, false)

-- What check_if_fmt_event_trigger() does for one row of the event table; only rows in the set
-- of events are looked up.
unfoldable pub trigger_row : ℕ → PermitLut → PermitDsp → Option (PermitLut × PermitDsp)
trigger_row fmt_event lut dsp =
    let found = find_row lut.lut_rows max_rows 0 (pos fmt_event) in
    let loaded = load_found found lut dsp >>= λ d. elim found [
      | none ↦ some (lut, d)
      | some row ↦ some (record lut { last_load_event = fmt_event }, d)
    ] in
    if contains fmt_event lut.event_set then loaded else some (lut, dsp)

-- check_if_fmt_event_trigger()
unfoldable pub check_if_fmt_event_trigger :
    Fmt → PermitLut → PermitDsp → Option (PermitLut × PermitDsp)
check_if_fmt_event_trigger [] lut dsp = some (lut, dsp)
check_if_fmt_event_trigger (r ∷ rs) lut dsp =
    let rest = trigger_row r.event lut dsp >>= λ s. check_if_fmt_event_trigger rs (s.0) (s.1) in
    if r.event == ev99
    then some (lut, dsp)
    else if r.event == lut.last_load_event
    then some (lut, dsp)
    else rest
