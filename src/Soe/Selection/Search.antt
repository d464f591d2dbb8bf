-- ===== src/Soe/Selection/Search.antt =====
-- The nested loops of soe_lut_lookup() find what Selection describes.
use mathlib.Core.List.{append-nil, append_assoc}
use acq400_xrm.Prelude.{
  ℕ, suc, ◌+◌, ◌≤◌, ◌<◌, ◌≡◌, ◌≢◌, refl, sym, ap, ◌∙◌, ◌⊎◌, inl, inr, lt_cases, some, List, [], ◌∷◌,
  ◌>>=◌, lt→ltb, length, map, arith,
}
use acq400_xrm.Prelude.Int.{ℤ, pos, negsuc, ◌+ℤ◌, ◌-ℤ◌, s64}
use acq400_xrm.Structs.{FmtRow, SoeLut, SoeLutRow, ev99}
use acq400_xrm.SamplePrams.{SamplePrams}
use acq400_xrm.Soe.Strategy.{Kbuf, Lookup, find_event_in_buf, match_row, lookup_row}
use acq400_xrm.Soe.Table.{Match}
use acq400_xrm.Soe.Table.Draft.{draft}
use acq400_xrm.Soe.Selection.{rows_for, index_of, hits, misses, extend, Ascending}

rows_for_below :
    (event last : ℕ) (ls : SoeLut) → event < last → Ascending last ls → rows_for event ls ≡ []
unfolding rows_for
rows_for_below event last [] h a = refl
rows_for_below event last (l ∷ ls) h a =
    ground (arith, rows_for_below event l.event ls (omega arith) a.2)

rows_for_same :
    (event : ℕ) (l : SoeLutRow) (ls : SoeLut)
    → l.event ≡ event
    → rows_for event (l ∷ ls) ≡ l ∷ rows_for event ls
unfolding rows_for
rows_for_same event l ls h = ground arith

rows_for_other :
    (event : ℕ) (l : SoeLutRow) (ls : SoeLut)
    → l.event ≢ event
    → rows_for event (l ∷ ls) ≡ rows_for event ls
unfolding rows_for
rows_for_other event l ls h = ground arith

-- A buffer whose last sample is later than its first.
abbrev pub HasSpan : Kbuf → Type 0
HasSpan kbuf = (n : ℕ) × (s64 (kbuf.wrt1 -ℤ kbuf.wrt0) ≡ pos (suc n))

module _ (kbuf : Kbuf) (p : SamplePrams) (span : HasSpan kbuf) where
  find_some :
      (f : FmtRow) (l : SoeLutRow)
      → find_event_in_buf kbuf p.nsam (s64 (f.timestamp +ℤ l.offset_us))
        ≡ some (index_of kbuf p f l)
  unfolding find_event_in_buf index_of
  find_some f l = ground (arith, span.1)

  extend_none : (s : Lookup) → extend p [] 0 s ≡ s
  unfolding extend draft
  extend_none s = ground (arith, append-nil s.bsi_entries)

  -- One match more, or one miss more, at the front.
  abbrev matched : FmtRow → SoeLutRow → ℕ → Lookup → Lookup
  matched f l b s = extend p (record { fmt_row = f; lut_row = l; bsi = b } ∷ []) 0 s

  extend-matched :
      (f : FmtRow) (l : SoeLutRow) (b : ℕ) (es : List Match) (m : ℕ) (s : Lookup)
      → extend p es m (matched f l b s)
        ≡ extend p (record { fmt_row = f; lut_row = l; bsi = b } ∷ es) m s
  unfolding extend draft
  extend-matched f l b es m s =
      ground (arith, append_assoc s.bsi_entries (b ∷ []) (map (λ (e : Match). e.bsi) es))

  extend_missed :
      (es : List Match) (m : ℕ) (s : Lookup)
      → extend p es m (extend p [] 1 s) ≡ extend p es (m + 1) s
  unfolding extend draft
  extend_missed es m s = ground (arith, append-nil s.bsi_entries)

  match_row_hit :
      (f : FmtRow) (l : SoeLutRow) (b : ℕ) (s : Lookup)
      → index_of kbuf p f l ≡ pos b
      → s.imatch < 64
      → match_row kbuf p f l s ≡ some (matched f l b s)
  unfolding match_row extend draft
  match_row_hit f l b s e h = rw (find_some f l, match_row, e, lt→ltb s.imatch 64 h) (ground arith)

  match_row_miss :
      (f : FmtRow) (l : SoeLutRow) (n : ℕ) (s : Lookup)
      → index_of kbuf p f l ≡ negsuc n
      → match_row kbuf p f l s ≡ some (extend p [] 1 s)
  unfolding match_row extend draft
  match_row_miss f l n s e =
      rw (find_some f l, match_row, e) (ground (arith, append-nil s.bsi_entries))

  lookup_row_stop :
      (f : FmtRow) (l : SoeLutRow) (ls : SoeLut) (s : Lookup)
      → f.event < l.event
      → lookup_row kbuf p f (l ∷ ls) s ≡ some s
  unfolding lookup_row
  lookup_row_stop f l ls s h = ground arith

  lookup_row_skip :
      (f : FmtRow) (l : SoeLutRow) (ls : SoeLut) (s : Lookup)
      → l.event < f.event
      → f.event < ev99
      → lookup_row kbuf p f (l ∷ ls) s ≡ lookup_row kbuf p f ls s
  unfolding lookup_row
  lookup_row_skip f l ls s h b = ground arith

  lookup_row_match :
      (f : FmtRow) (l : SoeLutRow) (ls : SoeLut) (s : Lookup)
      → l.event ≡ f.event
      → f.event < ev99
      → lookup_row kbuf p f (l ∷ ls) s ≡ (match_row kbuf p f l s >>= λ t. lookup_row kbuf p f ls t)
  unfolding lookup_row
  lookup_row_match f l ls s h b = ground arith

  -- What the search is to give for the rows of an event.
  abbrev found : FmtRow → SoeLut → Lookup → Lookup
  found f rows s = extend p (hits kbuf p f rows) (misses kbuf p f rows) s

  found_none : (f : FmtRow) (s : Lookup) → found f [] s ≡ s
  unfolding hits misses
  found_none f s = extend_none s

  hits_hit :
      (f : FmtRow) (l : SoeLutRow) (rows : SoeLut) (b : ℕ)
      → index_of kbuf p f l ≡ pos b
      → (hits kbuf p f (l ∷ rows)
          ≡ record { fmt_row = f; lut_row = l; bsi = b } ∷ hits kbuf p f rows)
        × (misses kbuf p f (l ∷ rows) ≡ misses kbuf p f rows)
  unfolding hits misses
  hits_hit f l rows b e = (rw (e, hits), rw (e, misses))

  hits_miss :
      (f : FmtRow) (l : SoeLutRow) (rows : SoeLut) (n : ℕ)
      → index_of kbuf p f l ≡ negsuc n
      → (hits kbuf p f (l ∷ rows) ≡ hits kbuf p f rows)
        × (misses kbuf p f (l ∷ rows) ≡ misses kbuf p f rows + 1)
  unfolding hits misses
  hits_miss f l rows n e = (rw (e, hits), rw (e, misses))

  -- A matching row, by where its time falls.
  lookup_row_step :
      (f : FmtRow) (l : SoeLutRow) (ls rows : SoeLut) (s : Lookup) (i : ℤ)
      → index_of kbuf p f l ≡ i
      → s.imatch + length (hits kbuf p f (l ∷ rows)) ≤ 64
      → ((t : Lookup)
          → t.imatch + length (hits kbuf p f rows) ≤ 64
          → lookup_row kbuf p f ls t ≡ some (found f rows t))
      → (match_row kbuf p f l s >>= λ t. lookup_row kbuf p f ls t) ≡ some (found f (l ∷ rows) s)
  unfolding extend
  lookup_row_step f l ls rows s (pos b) e room rest =
      let parts = hits_hit f l rows b e in
      let size = ap (λ (es : List Match). length es) parts.0 in
      rw (match_row_hit f l b s e (omega arith), parts.0, parts.1)
        (rest (matched f l b s) (omega arith) ∙ ap some (extend-matched f l b _ _ s))
  lookup_row_step f l ls rows s (negsuc n) e room rest =
      let parts = hits_miss f l rows n e in
      let size = ap (λ (es : List Match). length es) parts.0 in
      rw (match_row_miss f l n s e, parts.0, parts.1)
        (rest (extend p [] 1 s) (omega arith) ∙ ap some (extend_missed _ _ s))

  lookup_row_cons :
      (f : FmtRow) (l : SoeLutRow) (ls : SoeLut) (s : Lookup)
      → f.event < ev99
      → (l.event ≤ ev99) × Ascending l.event ls
      → s.imatch + length (hits kbuf p f (rows_for f.event (l ∷ ls))) ≤ 64
      → ((t : Lookup)
          → t.imatch + length (hits kbuf p f (rows_for f.event ls)) ≤ 64
          → lookup_row kbuf p f ls t ≡ some (found f (rows_for f.event ls) t))
      → (f.event < l.event) ⊎ ((l.event < f.event) ⊎ (f.event ≡ l.event))
      → lookup_row kbuf p f (l ∷ ls) s ≡ some (found f (rows_for f.event (l ∷ ls)) s)
  lookup_row_cons f l ls s h a room rest (inl above) =
      rw
        (
          lookup_row_stop f l ls s above,
          rows_for_below f.event l.event (l ∷ ls) above (omega arith, a.0, a.1),
        )
        (ap some (sym (found_none f s)))
  lookup_row_cons f l ls s h a room rest (inr (inl below)) =
      let other = rows_for_other f.event l ls (omega arith) in
      let same_length = ap (λ (rows : SoeLut). length (hits kbuf p f rows)) other in
      rw (lookup_row_skip f l ls s below h, other) (rest s (omega arith))
  lookup_row_cons f l ls s h a room rest (inr (inr same)) =
      let picked = rows_for_same f.event l ls (omega arith) in
      let same_length = ap (λ (rows : SoeLut). length (hits kbuf p f rows)) picked in
      rw (lookup_row_match f l ls s (sym same) h, picked)
        (lookup_row_step f l ls (rows_for f.event ls) s (index_of kbuf p f l) refl (omega arith)
          rest)

  -- For a sorted table the inner loop finds all rows of the event, though it stops early.
  pub lookup_row-found :
      (f : FmtRow) (ls : SoeLut) (last : ℕ) (s : Lookup)
      → f.event < ev99
      → Ascending last ls
      → s.imatch + length (hits kbuf p f (rows_for f.event ls)) ≤ 64
      → lookup_row kbuf p f ls s ≡ some (found f (rows_for f.event ls) s)
  lookup_row-found f [] last s h a room =
      unfold lookup_row rows_for in ap some (sym (found_none f s))
  lookup_row-found f (l ∷ ls) last s h a room =
      lookup_row_cons f l ls s h (a.1, a.2) room (λ t r. lookup_row-found f ls l.event t h a.2 r)
        (lt_cases f.event l.event)
