-- ===== src/Monitor.antt =====
-- xrmIocApp/src/xrm_ht_monitor.cpp: the client that takes a hold table apart again. What the
-- JSON formatter prints of an entry is a record of its numbers; Json has the text around them.
-- The array that arrives is the words of the table.
pub mod RoundTrip
pub mod Formats
pub mod Json
pub mod Feed
pub mod Dump
pub mod Examples
use acq400_xrm.Prelude.{
  ℕ, zero, suc, ◌+◌, ◌*◌, ◌/◌, ◌%◌, ◌^◌, Option, none, some, List, [], ◌∷◌, ◌>>=◌, ◌==◌,
  if◌then◌else◌,
}
use acq400_xrm.Prelude.Int.{ℤ, of_bits}
use acq400_xrm.Prelude.Memory.{WordMem, read_words}
use acq400_xrm.Structs.{SoeHoldHeader, load_header}
use acq400_xrm.WrTime.{vernier_sec, vernier_ticks, get_wr_ts}

-- What print(header, ht_data) shows of one entry.
pub record Entry : Type 0 where
  pub hdr : SoeHoldHeader
  pub ai16 : List ℤ
  pub di32 : List ℕ
  pub sp32 : List ℕ
  pub wrvs : ℕ
  pub wrvt : ℕ
  pub wrus : ℕ

-- ((short*)ptr)[ic]
unfoldable pub short_at : WordMem → ℕ → ℤ
short_at ptr ic = of_bits 16 (if ic % 2 == 0 then ptr (ic / 2) % 2 ^ 16 else ptr (ic / 2) / 2 ^ 16)

-- for (ic ...; ic < ai_count; ++ic), from `ic` over the channels left.
unfoldable pub shorts : WordMem → ℕ → ℕ → List ℤ
shorts ptr ic zero = []
shorts ptr ic (suc left) = short_at ptr ic ∷ shorts ptr (ic + 1) left

-- print(header, ptr): print_raw() and print_wrus(), where `ptr` is at the sample.
unfoldable pub print_entry : SoeHoldHeader → WordMem → Entry
print_entry h ptr =
    let di = h.ai_count / 2 in
    let sp = di + h.di_count in
    record {
      hdr = h;
      ai16 = shorts ptr 0 h.ai_count;
      di32 = read_words ptr di h.di_count;
      sp32 = read_words ptr sp h.sp_count;
      wrvs = vernier_sec (ptr (sp + 2));
      wrvt = vernier_ticks (ptr (sp + 2));
      wrus = get_wr_ts (ptr (sp + 3)) (ptr (sp + 2));
    }

-- parse(ht_data, nelems), from header `row` on: entries up to the first with pv_id 0. The loop
-- of the source has no bound; `none` is the end of the fuel.
unfoldable pub parse : ℕ → WordMem → ℕ → Option (List Entry)
parse zero ht row = none
parse (suc fuel) ht row =
    let h = load_header ht row in
    let rest =
      parse fuel ht (row + 1) >>= λ es. some (print_entry h (λ j. ht (h.data_offset + j)) ∷ es) in
    if h.lut_row.pv_id == 0 then some [] else rest
