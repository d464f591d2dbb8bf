-- ===== src/Soe/Selection.antt =====
-- Which events soe_lut_lookup() picks: an independent description of its two nested loops.
pub mod Search
pub mod Outer
use acq400_xrm.Prelude.{
  ℕ, ◌+◌, ◌≤◌, Bool, Option, none, some, List, [], ◌∷◌, ◌++◌, ◌==◌, if◌then◌else◌, length, map,
}
use acq400_xrm.Prelude.Int.{ℤ, pos, negsuc, ◌+ℤ◌, s64}
use acq400_xrm.Structs.{Fmt, FmtRow, SoeLut, SoeLutRow, ev99}
use acq400_xrm.SamplePrams.{SamplePrams}
use acq400_xrm.Soe.Strategy.{Kbuf, Lookup, find_event_in_buf}
use acq400_xrm.Soe.Table.{Match}
use acq400_xrm.Soe.Table.Draft.{draft}

-- The rows before the end marker.
unfoldable pub before_ev99 : Fmt → Fmt
before_ev99 [] = []
before_ev99 (f ∷ fs) = if f.event == ev99 then [] else f ∷ before_ev99 fs

-- All rows of the lookup table for an event, in order.
unfoldable pub rows_for : ℕ → SoeLut → SoeLut
rows_for event [] = []
rows_for event (l ∷ ls) = if l.event == event then l ∷ rows_for event ls else rows_for event ls

abbrev or_miss : Option ℤ → ℤ
or_miss none = negsuc 0
or_miss (some i) = i

-- Where in the buffer a row's time falls, negative if it does not.
unfoldable pub index_of : Kbuf → SamplePrams → FmtRow → SoeLutRow → ℤ
index_of kbuf p f l = or_miss (find_event_in_buf kbuf p.nsam (s64 (f.timestamp +ℤ l.offset_us)))

-- The rows whose time falls into the buffer, with their samples.
unfoldable pub hits : Kbuf → SamplePrams → FmtRow → SoeLut → List Match
hits kbuf p f [] = []
hits kbuf p f (l ∷ ls) = elim (index_of kbuf p f l) [
  | pos b ↦ record { fmt_row = f; lut_row = l; bsi = b } ∷ hits kbuf p f ls
  | negsuc n ↦ hits kbuf p f ls
]

-- The number of the other rows.
unfoldable pub misses : Kbuf → SamplePrams → FmtRow → SoeLut → ℕ
misses kbuf p f [] = 0
misses kbuf p f (l ∷ ls) = elim (index_of kbuf p f l) [
  | pos b ↦ misses kbuf p f ls
  | negsuc n ↦ misses kbuf p f ls + 1
]

-- Over the whole event table.
unfoldable pub all_hits : Kbuf → SamplePrams → SoeLut → Fmt → List Match
all_hits kbuf p lut [] = []
all_hits kbuf p lut (f ∷ fs) = hits kbuf p f (rows_for f.event lut) ++ all_hits kbuf p lut fs

unfoldable pub all_misses : Kbuf → SamplePrams → SoeLut → Fmt → ℕ
all_misses kbuf p lut [] = 0
all_misses kbuf p lut (f ∷ fs) = misses kbuf p f (rows_for f.event lut) + all_misses kbuf p lut fs

-- The lookup's variables after it has met these matches and so many misses.
unfoldable pub extend : SamplePrams → List Match → ℕ → Lookup → Lookup
extend p es missed s = record {
  ht = draft p es s.imatch s.ht;
  bsi_entries = s.bsi_entries ++ map (λ e. e.bsi) es;
  imatch = s.imatch + length es;
  events_accepted = s.events_accepted + length es;
  events_not_in_buffer = s.events_not_in_buffer + missed;
}

-- The table is in ascending order of events, none above EV99.
abbrev pub Ascending : ℕ → SoeLut → Type 0
Ascending last [] = Unit {0}
Ascending last (l ∷ ls) = (last ≤ l.event) × (l.event ≤ ev99) × Ascending l.event ls
