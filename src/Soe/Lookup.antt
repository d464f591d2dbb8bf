-- ===== src/Soe/Lookup.antt =====
-- What soe_lut_lookup() of acq400_SOE_Strategy.cpp guarantees as a whole.
use acq400_xrm.Prelude.{
  ℕ, ◌+◌, ◌*◌, ◌≤◌, ◌<◌, ◌≡◌, refl, ◌∙◌, inr, length-map, some, List, [], length, map, arith,
}
use acq400_xrm.Prelude.Memory.{WordMem}
use acq400_xrm.Structs.{Fmt}
use acq400_xrm.Soe.Strategy.{SoeDims, Rc, Lookup, ssl, soe_lut_lookup, copy_samples}
use acq400_xrm.Soe.Table.{Match, IsTable}
use acq400_xrm.Soe.Table.Copy.{AllFit, copy_samples_frame, copy_samples-IsTable}
use acq400_xrm.Soe.Table.Draft.{IsClear, draft, draft_frame, draft-IsDrafted}
use acq400_xrm.Soe.Selection.{before_ev99, all_hits, all_misses, extend, Ascending}
use acq400_xrm.Soe.Selection.Search.{HasSpan}
use acq400_xrm.Soe.Selection.Outer.{AllEvents, lookup_rows-found_all}

-- The matches and the number of misses of a cycle.
abbrev pub cycle_hits : SoeDims → Fmt → List Match
cycle_hits soe latest = all_hits soe.kbuf soe.sample_prams soe.lut (before_ev99 latest)

abbrev pub cycle_misses : SoeDims → Fmt → ℕ
cycle_misses soe latest = all_misses soe.kbuf soe.sample_prams soe.lut (before_ev99 latest)

-- What the lookup is given: a buffer that spans some time, a lookup table in ascending order
-- of events, event numbers of 16 bits, a cleared table, matches that fit its columns, and no
-- more matches than the table has rows.
pub record IsReady (soe : SoeDims) (latest : Fmt) (ht : WordMem) : Type 0 where
  pub span : HasSpan soe.kbuf
  pub sorted : Ascending 0 soe.lut
  pub events : AllEvents latest
  pub room : length (cycle_hits soe latest) ≤ 64
  pub fits : AllFit (cycle_hits soe latest)
  pub clear : IsClear ht 0

-- The result that is wanted: the table, with all words of the header behind those of the matches
-- 0, its size in words, and the counts.
pub record IsCycle (soe : SoeDims) (latest : Fmt) (rc : Rc) (done : WordMem × Rc) : Type 0 where
  pub table :
      IsTable soe.sample_prams soe.kbuf.raw
        (ssl soe.sample_prams)
        done.0
        0
        ((length (cycle_hits soe latest) + 1) * 8)
        (cycle_hits soe latest)
  pub delimiter : (j : ℕ) → j < 8 → done.0 (length (cycle_hits soe latest) * 8 + j) ≡ 0
  pub size :
      done.1.ht_size32
      ≡ (length (cycle_hits soe latest) + 1) * 8
        + length (cycle_hits soe latest) * ssl soe.sample_prams
  pub accepted : done.1.events_accepted ≡ rc.events_accepted + length (cycle_hits soe latest)
  pub missed : done.1.events_not_in_buffer ≡ rc.events_not_in_buffer + cycle_misses soe latest
  pub same_status : done.1.status ≡ rc.status

-- On a ready cycle the lookup neither traps nor writes out of bounds, and the table that it
-- leaves has one header per match in order, then one whose eight words are 0, and each match's raw sample at
-- the offset that its header gives; the size in words and both counts are right.
pub soe_lut_lookup-IsCycle :
    (soe : SoeDims) (latest : Fmt) (ht : WordMem) (rc : Rc)
    → IsReady soe latest ht
    → (done : WordMem × Rc) × (soe_lut_lookup soe latest ht rc ≡ some done)
      × IsCycle soe latest rc done
unfolding soe_lut_lookup extend
soe_lut_lookup-IsCycle soe latest ht rc r =
    let p = soe.sample_prams in
    let es = cycle_hits soe latest in
    let start : Lookup = record {
      ht = ht;
      bsi_entries = [];
      imatch = 0;
      events_accepted = rc.events_accepted;
      events_not_in_buffer = rc.events_not_in_buffer;
    } in
    let searched =
      lookup_rows-found_all soe.kbuf p soe.lut r.span r.sorted latest start r.events
        (omega (arith, r.room)) in
    let off = (length es + 1) * 8 in
    let bs = map (λ (e : Match). e.bsi) es in
    let final = copy_samples soe.kbuf (ssl p) bs 0 off (draft p es 0 ht) in
    let copied =
      copy_samples-IsTable p soe.kbuf (ssl p) es 0 off (draft p es 0 ht) r.fits (omega arith)
        (draft-IsDrafted p es 0 ht r.fits (omega (arith, r.room)) r.clear) in
    let names : length bs ≡ length es = length-map es (λ x. x.bsi) in
    let no_rows : 0 + length es ≡ length es = omega arith in
    (
      (
        final.0,
        record rc {
          ht_size32 = final.1;
          events_accepted = rc.events_accepted + length es;
          events_not_in_buffer = rc.events_not_in_buffer + cycle_misses soe latest;
        },
      ),
      rw (searched, no_rows),
      record {
        table = copied.0;
        delimiter = λ j h.
            copy_samples_frame p soe.kbuf (ssl p) bs 0 off (draft p es 0 ht) (length es * 8 + j)
              (omega arith) (inr (omega arith, omega arith))
            ∙ draft_frame p es 0 ht (length es * 8 + j) (inr (omega arith))
            ∙ r.clear (length es * 8 + j) (omega arith) (omega (arith, r.room));
        size = copied.1;
        accepted = refl;
        missed = refl;
        same_status = refl;
      },
    )
