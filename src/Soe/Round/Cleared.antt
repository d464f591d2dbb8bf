-- ===== src/Soe/Round/Cleared.antt =====
-- A cycle of acq400_SOE::task() as a whole: the hold table of the cycle before does not matter.
use mathlib.Core.Path.{subst}
use acq400_xrm.Prelude.{ℕ, ◌+◌, ◌-◌, ◌*◌, ◌/◌, ◌%◌, ◌^◌, ◌≤◌, ◌<◌, ◌≡◌, refl, true, some, arith}
use acq400_xrm.Prelude.Int.{pos}
use acq400_xrm.Prelude.Memory.{WordMem}
use acq400_xrm.Structs.{Fmt, SoeLut, hold_data_off}
use acq400_xrm.SamplePrams.{SamplePrams}
use acq400_xrm.WrTime.{get_wr_ts}
use acq400_xrm.Soe.Strategy.{SoeDims, Rc, ssl, soe_success, soe_lut_lookup}
use acq400_xrm.Soe.Cycle.{first_row, has_event, timestamp_in_buf, strategy1, lookup_on_success}
use acq400_xrm.Soe.Table.Draft.{IsClear}
use acq400_xrm.Soe.Lookup.{IsReady, IsCycle, soe_lut_lookup-IsCycle}
use acq400_xrm.Soe.Round.{
  clear_hold, get_raw, skips, update_kbuf_info, get_wr_ts_from_raw, Views, run_strategy, soe_cycle,
  lut_fmt_strategy1,
}

pub clear_hold-IsClear : (ht : WordMem) → IsClear (clear_hold ht) 0
unfolding clear_hold hold_data_off
clear_hold-IsClear ht j a b = ground arith

-- The dimensions that a round hands to its strategy.
abbrev dims_of : SamplePrams → SoeLut → ℕ → WordMem → SoeDims
dims_of p lut ib base = record {
  kbuf = update_kbuf_info p ib (get_raw p base);
  sample_prams = p;
  lut = lut;
}

strategy1_on_success :
    (cycle_ms : ℕ) (latest : Fmt) (soe : SoeDims) (ht : WordMem) (rc : Rc)
    → has_event latest ≡ true
    → timestamp_in_buf cycle_ms soe (first_row latest).timestamp ≡ rc
    → rc.status ≡ soe_success
    → strategy1 cycle_ms true latest soe ht ≡ soe_lut_lookup soe latest ht rc
unfolding strategy1 lookup_on_success
strategy1_on_success cycle_ms latest soe ht rc e t s = rw (e, t, s)

soe_cycle-dims_of :
    (cycle_ms : ℕ) (v : Views) (p : SamplePrams) (lut : SoeLut) (ib : ℕ) (base ht : WordMem)
    → v.in_time ≡ true
    → has_event v.latest ≡ true
    → (timestamp_in_buf cycle_ms (dims_of p lut ib base) (first_row (v.latest)).timestamp).status
      ≡ soe_success
    → IsReady (dims_of p lut ib base) v.latest (λ j. 0)
    → (done : WordMem × Rc) × (soe_cycle cycle_ms lut_fmt_strategy1 v p lut ib base ht
        ≡ some ((dims_of p lut ib base).kbuf, done.0, done.1))
      × IsCycle
          (dims_of p lut ib base)
          v.latest
          (timestamp_in_buf cycle_ms (dims_of p lut ib base) (first_row (v.latest)).timestamp)
          done
unfolding soe_cycle run_strategy
soe_cycle-dims_of cycle_ms v p lut ib base ht i e t r =
    let dims = dims_of p lut ib base in
    let rc = timestamp_in_buf cycle_ms dims (first_row (v.latest)).timestamp in
    let ready : IsReady dims v.latest (clear_hold ht) = record {
      span = r.span;
      sorted = r.sorted;
      events = r.events;
      room = r.room;
      fits = r.fits;
      clear = clear_hold-IsClear ht;
    } in
    let looked = soe_lut_lookup-IsCycle dims v.latest (clear_hold ht) rc ready in
    (
      looked.0,
      rw
          (
            soe_cycle,
            run_strategy,
            i,
            strategy1_on_success cycle_ms v.latest dims (clear_hold ht) rc e refl t,
            looked.1,
          )
          refl,
      looked.2,
    )

uint_small : (n : ℕ) → n < 2 ^ 32 → n % 2 ^ 32 ≡ n
uint_small n h = omega arith

-- A buffer from word `base` on, as a cycle is to see it: the words of the buffer start one sample
-- behind its first, which is the event sample; the times are those of the scratchpad words 3 and
-- 2 of that sample and of the last sample of the buffer.
abbrev pub described : SamplePrams → SoeLut → ℕ → WordMem → SoeDims
described p lut ib base =
    let n = p.ssb / 4 in
    record {
      kbuf = record {
        ib = ib;
        wrt0 = pos (get_wr_ts (base (n + (p.sp_index + 3))) (base (n + (p.sp_index + 2))));
        wrt1 = pos (
            get_wr_ts (base (n + (p.sp_index + n * (p.nsam - 2) + 3)))
              (base (n + (p.sp_index + n * (p.nsam - 2) + 2))));
        raw = λ j. base (n + j);
      };
      sample_prams = p;
      lut = lut;
    }

dims_of-described :
    (p : SamplePrams) (lut : SoeLut) (ib : ℕ) (base : WordMem)
    → 2 ≤ p.nsam
    → p.nsam < 2 ^ 32
    → ssl p * (p.nsam - 2) < 2 ^ 32
    → dims_of p lut ib base ≡ described p lut ib base
unfolding update_kbuf_info get_raw get_wr_ts_from_raw skips
dims_of-described p lut ib base a b c =
    let k : (p.nsam + (2 ^ 32 - 2)) % 2 ^ 32 ≡ p.nsam - 2 = omega arith in
    rw (k, uint_small (ssl p * (p.nsam - 2)) c) refl

-- What a cycle does where it works on these dimensions.
abbrev Works : ℕ → Views → SamplePrams → SoeLut → ℕ → WordMem → WordMem → SoeDims → Type 0
Works cycle_ms v p lut ib base ht dims =
    let rc = timestamp_in_buf cycle_ms dims (first_row (v.latest)).timestamp in
    rc.status ≡ soe_success
    → IsReady dims v.latest (λ j. 0)
    → (done : WordMem × Rc) × (soe_cycle cycle_ms lut_fmt_strategy1 v p lut ib base ht
        ≡ some (dims.kbuf, done.0, done.1))
      × IsCycle dims v.latest rc done

-- A whole cycle of the first strategy, whatever the cycle before left in the hold table: where
-- a table with an event arrived in time, the buffer has two samples at least and its size does not
-- overflow, the timestamp is within the dead band of the buffer's times, and the inputs are ready
-- for an empty table, the round does not fail, and leaves the table and the counts of these inputs
-- only, where the buffer is seen without its event sample, and its times are those that the
-- scratchpads of the first of the other samples and of the last one give.
pub soe_cycle-IsCycle :
    (cycle_ms : ℕ) (v : Views) (p : SamplePrams) (lut : SoeLut) (ib : ℕ) (base ht : WordMem)
    → v.in_time ≡ true
    → has_event v.latest ≡ true
    → 2 ≤ p.nsam
    → p.nsam < 2 ^ 32
    → p.ssb / 4 * (p.nsam - 2) < 2 ^ 32
    → (timestamp_in_buf cycle_ms (described p lut ib base) (first_row (v.latest)).timestamp).status
      ≡ soe_success
    → IsReady (described p lut ib base) v.latest (λ j. 0)
    → (done : WordMem × Rc) × (soe_cycle cycle_ms lut_fmt_strategy1 v p lut ib base ht
        ≡ some ((described p lut ib base).kbuf, done.0, done.1))
      × IsCycle
          (described p lut ib base)
          v.latest
          (timestamp_in_buf cycle_ms (described p lut ib base) (first_row (v.latest)).timestamp)
          done
soe_cycle-IsCycle cycle_ms v p lut ib base ht i e a b c =
    subst (Works cycle_ms v p lut ib base ht) (dims_of-described p lut ib base a b c)
      (soe_cycle-dims_of cycle_ms v p lut ib base ht i e)
