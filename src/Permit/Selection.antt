-- ===== src/Permit/Selection.antt =====
-- set_AI_selection_col() and set_DI_selection_col() of xrmIocApp/src/acq400_PermitLut.cpp: the
-- channels of a site that a row selects, as ACTIVE * 10000 + LAST * 100 + FIRST.
use acq400_xrm.Prelude.{
  ℕ, zero, suc, ◌+◌, ◌*◌, ◌/◌, ◌%◌, ◌^◌, Bool, List, ltb, leb, ◌==◌, if◌then◌else◌, not, get_or,
  ◌&&◌, ◌||◌, length, some, none,
}
use acq400_xrm.Prelude.Memory.{update}
use acq400_xrm.Driver.{Checked}

-- nactive, first and last
pub record Selection : Type 0 where
  pub nactive : ℕ
  pub first : ℕ
  pub last : ℕ

unfoldable pub no_selection : Selection
no_selection = record { nactive = 0; first = 33; last = 0 }

-- What both loops do at an active channel, counted from 0.
unfoldable pub mark : ℕ → Selection → Selection
mark ic s = record {
  nactive = s.nactive + 1;
  first = if ltb ic s.first then ic + 1 else s.first;
  last = if leb s.last ic then ic + 1 else s.last;
}

-- ai_th_pairs[ic*2] != ai_th_pairs[ic*2+1]
unfoldable pub ai_active : List ℕ → ℕ → Bool
ai_active ai_th_pairs ic = not (get_or ai_th_pairs (ic * 2) 0 == get_or ai_th_pairs (ic * 2 + 1) 0)

-- The loop over the channels of an AI site, from `ic`.
unfoldable pub scan_ai : List ℕ → ℕ → ℕ → Selection → Selection
scan_ai ai_th_pairs zero ic s = s
scan_ai ai_th_pairs (suc left) ic s =
    scan_ai ai_th_pairs left (ic + 1) (if ai_active ai_th_pairs ic then mark ic s else s)

-- The loop over the bits of a DI site: for (dx = 0; active; active >>= 1, ++dx), on fuel; 32
-- steps are enough for a word of 32 bits.
unfoldable pub scan_di : ℕ → ℕ → ℕ → Selection → Selection
scan_di zero active dx s = s
scan_di (suc fuel) active dx s =
    let next = scan_di fuel (active / 2) (dx + 1) (if active % 2 == 1 then mark dx s else s) in
    if active == 0 then s else next

-- cols[site][addr] of a selection.
unfoldable pub selection_code : Selection → ℕ
selection_code s =
    (s.nactive * 10000 + s.last * 100 + (if s.nactive == 0 then 0 else s.first)) % 2 ^ 32

-- cols[site][addr], a column for each site and one for events.
abbrev pub Cols : Type 0
Cols = ℕ → ℕ → ℕ

unfoldable pub set_col : ℕ → ℕ → ℕ → Cols → Cols
set_col site addr v cols = update cols site (update (cols site) addr v)

-- The outer loop of set_AI_selection_col(), which reads the same 32 pairs for every site.
unfoldable pub set_ai_sites : ℕ → ℕ → ℕ → List ℕ → Cols → Cols
set_ai_sites zero ai32 addr ai_th_pairs cols = cols
set_ai_sites (suc left) ai32 addr ai_th_pairs cols =
    set_ai_sites left (ai32 + 1) addr ai_th_pairs
      (set_col (1 + ai32) addr (selection_code (scan_ai ai_th_pairs 32 0 no_selection)) cols)

-- Where `first` and the sites behind it have columns in cols[7][16], which has room for the row,
-- and there are as many words of pairs as are read; where no site comes, nothing is accessed.
unfoldable pub in_bounds : ℕ → ℕ → ℕ → ℕ → List ℕ → Bool
in_bounds first sites addr words pairs =
    (sites == 0) || (leb (first + sites) 7 && ltb addr 16 && leb words (length pairs))

-- `none` is an access out of bounds, here and in set_di_selection_col.
unfoldable pub set_ai_selection_col : ℕ → List ℕ → ℕ → Cols → Checked Cols
set_ai_selection_col addr ai_th_pairs npairs cols =
    if in_bounds 1 (npairs / 32) addr 64 ai_th_pairs
    then some (set_ai_sites (npairs / 32) 0 addr ai_th_pairs cols)
    else none

-- The outer loop of set_DI_selection_col(): the active word of a site is the second of a pair.
unfoldable pub set_di_sites : ℕ → ℕ → ℕ → List ℕ → Cols → Cols
set_di_sites zero di32 addr di_pairs cols = cols
set_di_sites (suc left) di32 addr di_pairs cols = set_di_sites left (di32 + 1) addr di_pairs (
    set_col (5 + di32) addr
      (selection_code (scan_di 32 (get_or di_pairs (di32 * 2 + 1) 0) 0 no_selection)) cols)

unfoldable pub set_di_selection_col : ℕ → List ℕ → ℕ → Cols → Checked Cols
set_di_selection_col addr di_pairs npairs cols =
    if in_bounds 5 npairs addr (npairs * 2) di_pairs
    then some (set_di_sites npairs 0 addr di_pairs cols)
    else none
