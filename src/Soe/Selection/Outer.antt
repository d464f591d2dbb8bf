-- ===== src/Soe/Selection/Outer.antt =====
-- The outer loop of soe_lut_lookup(), over the event table.
use mathlib.Core.List.{append-nil, append_assoc, map-append}
use acq400_xrm.Prelude.{
  ℕ, ◌+◌, ◌≤◌, ◌<◌, ◌≡◌, refl, sym, ap, ◌∙◌, ◌⊎◌, inl, inr, lt_cases, some, List, [], ◌∷◌, ◌++◌,
  ◌>>=◌, length, length-append, map, arith,
}
use acq400_xrm.Prelude.Memory.{WordMem}
use acq400_xrm.Structs.{Fmt, FmtRow, SoeLut, ev99}
use acq400_xrm.SamplePrams.{SamplePrams}
use acq400_xrm.Soe.Strategy.{Kbuf, Lookup, build_hold_entry, lookup_row, lookup_rows}
use acq400_xrm.Soe.Table.{Match}
use acq400_xrm.Soe.Table.Draft.{draft}
use acq400_xrm.Soe.Selection.{
  before_ev99, rows_for, hits, misses, all_hits, all_misses, extend, Ascending,
}
use acq400_xrm.Soe.Selection.Search.{HasSpan, lookup_row-found}

-- An event number is an epicsUInt16.
abbrev pub AllEvents : Fmt → Type 0
AllEvents [] = Unit {0}
AllEvents (f ∷ fs) = (f.event ≤ ev99) × AllEvents fs

before_ev99_end : (f : FmtRow) (fs : Fmt) → f.event ≡ ev99 → before_ev99 (f ∷ fs) ≡ []
unfolding before_ev99
before_ev99_end f fs h = ground arith

before_ev99_more :
    (f : FmtRow) (fs : Fmt) → f.event < ev99 → before_ev99 (f ∷ fs) ≡ f ∷ before_ev99 fs
unfolding before_ev99
before_ev99_more f fs h = ground arith

module _ (p : SamplePrams) where
  draft-append :
      (es fs : List Match) (row : ℕ) (ht : WordMem)
      → draft p (es ++ fs) row ht ≡ draft p fs (row + length es) (draft p es row ht)
  unfolding draft
  draft-append [] fs row ht = ap (λ r. draft p fs r ht) (omega arith)
  draft-append (e ∷ es) fs row ht =
      let next = build_hold_entry p e.fmt_row e.lut_row e.bsi ht row in
      draft-append es fs (row + 1) next
      ∙ ap (λ r. draft p fs r (draft p es (row + 1) next)) (omega arith)

  extend-append :
      (es fs : List Match) (m n : ℕ) (s : Lookup)
      → extend p fs n (extend p es m s) ≡ extend p (es ++ fs) (m + n) s
  unfolding extend
  extend-append es fs m n s =
      rw
        (
          draft-append es fs s.imatch s.ht,
          map-append (λ (e : Match). e.bsi) es fs,
          length-append es fs,
          append_assoc s.bsi_entries (map (λ (e : Match). e.bsi) es)
              (map (λ (e : Match). e.bsi) fs),
        )
        (ground arith)

module _ (kbuf : Kbuf) (p : SamplePrams) (lut : SoeLut) where
  -- What the whole search is to give for an event table without end marker.
  abbrev pub found_all : Fmt → Lookup → Lookup
  found_all fs s = extend p (all_hits kbuf p lut fs) (all_misses kbuf p lut fs) s

  lookup_rows_end :
      (f : FmtRow) (fs : Fmt) (s : Lookup)
      → f.event ≡ ev99
      → lookup_rows kbuf p lut (f ∷ fs) s ≡ some s
  unfolding lookup_rows
  lookup_rows_end f fs s h = ground arith

  lookup_rows_more :
      (f : FmtRow) (fs : Fmt) (s : Lookup)
      → f.event < ev99
      → lookup_rows kbuf p lut (f ∷ fs) s
        ≡ (lookup_row kbuf p f lut s >>= λ t. lookup_rows kbuf p lut fs t)
  unfolding lookup_rows
  lookup_rows_more f fs s h = ground arith

  found_all_none : (s : Lookup) → found_all [] s ≡ s
  unfolding all_hits all_misses extend draft
  found_all_none s = ground (arith, append-nil s.bsi_entries)

  all_hits_cons :
      (f : FmtRow) (fs : Fmt)
      → (all_hits kbuf p lut (f ∷ fs)
          ≡ hits kbuf p f (rows_for f.event lut) ++ all_hits kbuf p lut fs)
        × (all_misses kbuf p lut (f ∷ fs)
            ≡ misses kbuf p f (rows_for f.event lut) + all_misses kbuf p lut fs)
  unfolding all_hits all_misses
  all_hits_cons f fs = (refl, refl)

  module _ (span : HasSpan kbuf) (sorted : Ascending 0 lut) where
    lookup_rows_cons :
        (f : FmtRow) (fs : Fmt) (s : Lookup)
        → f.event ≤ ev99
        → s.imatch + length (all_hits kbuf p lut (before_ev99 (f ∷ fs))) ≤ 64
        → ((t : Lookup)
            → t.imatch + length (all_hits kbuf p lut (before_ev99 fs)) ≤ 64
            → lookup_rows kbuf p lut fs t ≡ some (found_all (before_ev99 fs) t))
        → (f.event < ev99) ⊎ ((ev99 < f.event) ⊎ (f.event ≡ ev99))
        → lookup_rows kbuf p lut (f ∷ fs) s ≡ some (found_all (before_ev99 (f ∷ fs)) s)
    unfolding extend
    lookup_rows_cons f fs s b room rest (inl more) =
        let kept = before_ev99_more f fs more in
        let parts = all_hits_cons f (before_ev99 fs) in
        let here = hits kbuf p f (rows_for f.event lut) in
        let there = all_hits kbuf p lut (before_ev99 fs) in
        let size = ap (λ (es : List Match). length es) parts.0 in
        let kept_size = ap (λ (gs : Fmt). length (all_hits kbuf p lut gs)) kept in
        let split = length-append here there in
        rw
          (
            lookup_rows_more f fs s more,
            lookup_row-found kbuf p span f lut 0 s more sorted (omega arith),
            kept,
            parts.0,
            parts.1,
          )
          (rest _ (omega arith) ∙ ap some (extend-append p here there _ _ s))
    lookup_rows_cons f fs s b room rest (inr (inl above)) = absurd (omega arith)
    lookup_rows_cons f fs s b room rest (inr (inr end)) =
        rw (lookup_rows_end f fs s end, before_ev99_end f fs end) (ap some (sym (found_all_none s)))

    -- The two loops together find exactly the matches and misses of the description.
    pub lookup_rows-found_all :
        (fs : Fmt) (s : Lookup)
        → AllEvents fs
        → s.imatch + length (all_hits kbuf p lut (before_ev99 fs)) ≤ 64
        → lookup_rows kbuf p lut fs s ≡ some (found_all (before_ev99 fs) s)
    lookup_rows-found_all [] s b room =
        unfold lookup_rows before_ev99 in ap some (sym (found_all_none s))
    lookup_rows-found_all (f ∷ fs) s b room =
        lookup_rows_cons f fs s b.0 room (λ t r. lookup_rows-found_all fs t b.1 r)
          (lt_cases f.event ev99)
