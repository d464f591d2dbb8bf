-- ===== src/Soe/Start.antt =====
-- acq400_SOE.cpp: the hold columns of the constructor, and what task() does before its loop.
use acq400_xrm.Prelude.{
  ℕ, ◌/◌, ◌≡◌, refl, true, false, Option, none, some, List, [], ◌∷◌, ◌++◌, ◌>>=◌, arith, ltb,
  if◌then◌else◌,
}
use acq400_xrm.Prelude.Int.{ℤ, pos, of_bits}
use acq400_xrm.Prelude.Memory.{Mem, WordMem}
use acq400_xrm.Prelude.Returns.{Returns}
use acq400_xrm.Structs.{soe_hld_rows, hold_data_off, hold_maxsize}
use acq400_xrm.SamplePrams.{SamplePrams, is_valid}
use acq400_xrm.Driver.{call_param_callbacks}
use acq400_xrm.Soe.Table.Draft.{IsClear}
use acq400_xrm.Soe.Edit.{update_soe_lut_columns}
use acq400_xrm.Soe.HoldColumns.{HoldRow}
use acq400_xrm.Soe.Round.{SoeEffect, asyn}
use acq400_xrm.Soe.Round.Task.{Soe, Arrival, task_round}

-- The columns that the constructor sets, over what the memory held; the row numbers are its index.
unfoldable pub new_hold_cols : {F : Type 0} → Mem (HoldRow F) → Mem (HoldRow F)
new_hold_cols m row =
    if ltb row soe_hld_rows
    then record (m row) {
      c_di1 = pos 0xd1;
      c_di2 = pos 0xd2;
      c_sp0 = of_bits 8 row;
      c_sp1 = pos 0x12345678;
    }
    else m row

-- get_sample_dimensions(), with what the proxy has each time that it is asked; `none` is a wait
-- that goes on.
unfoldable pub get_sample_dimensions : List SamplePrams → Option SamplePrams
get_sample_dimensions [] = none
get_sample_dimensions (sp ∷ later) =
    let rest = get_sample_dimensions later in if is_valid sp then some sp else rest

-- init_the_hold_table(), over what the memory held.
unfoldable pub init_the_hold_table : SamplePrams → WordMem → WordMem
unfolding hold_maxsize
init_the_hold_table p heap j = if ltb j (hold_maxsize p.ssb / 4) then 0 else heap j

-- The lines of task() before its loop.
unfoldable pub before_loop :
    {F : Type 0} → List SamplePrams → WordMem → Soe F → Option (Soe F × List SoeEffect)
before_loop proxy heap s = do
  p ← get_sample_dimensions proxy
  some (
    record s {
      sample_prams = p;
      cols = update_soe_lut_columns s.soe_lut;
      the_hold_table = init_the_hold_table p heap;
    },
    asyn call_param_callbacks ∷ [],
  )

module _ {F : Type 0} (volts : ℤ → F) (cycle_ms : ℕ) where
  unfoldable pub task_rounds : List Arrival → Soe F → Option (Soe F × List SoeEffect)
  task_rounds [] s = some (s, [])
  task_rounds (a ∷ later) s = do
    r ← task_round volts cycle_ms a s
    t ← task_rounds later (r.0)
    some (t.0, r.1 ++ t.1)

  -- task() over the buffers that arrive.
  unfoldable pub task :
      List SamplePrams → WordMem → List Arrival → Soe F → Option (Soe F × List SoeEffect)
  task proxy heap arrivals s = do
    r ← before_loop proxy heap s
    t ← task_rounds arrivals (r.0)
    some (t.0, r.1 ++ t.1)

abbrev pub AllInvalid : List SamplePrams → Type 0
AllInvalid [] = Unit {0}
AllInvalid (p ∷ ps) = (is_valid p ≡ false) × AllInvalid ps

-- The wait ends with the first valid parameters.
pub get_sample_dimensions-AllInvalid :
    (before later : List SamplePrams) (p : SamplePrams)
    → AllInvalid before
    → is_valid p ≡ true
    → get_sample_dimensions (before ++ p ∷ later) ≡ some p
unfolding get_sample_dimensions
get_sample_dimensions-AllInvalid [] later p b h = rw h refl
get_sample_dimensions-AllInvalid (q ∷ before) later p b h =
    rw (b.0) (get_sample_dimensions-AllInvalid before later p (b.1) h)

pub init_the_hold_table-IsClear :
    (p : SamplePrams) (heap : WordMem) → IsClear (init_the_hold_table p heap) 0
unfolding init_the_hold_table hold_maxsize hold_data_off
init_the_hold_table-IsClear p heap j a b = ground arith

abbrev HasStarted : {F : Type 0} → SamplePrams → Soe F × List SoeEffect → Type 0
HasStarted p r = (r.0.sample_prams ≡ p) × IsClear r.0.the_hold_table 0

-- Where the proxy once has valid parameters, task() comes to its loop with the first such and
-- with a hold table without entries.
pub before_loop-HasStarted :
    {F : Type 0} (before later : List SamplePrams) (p : SamplePrams) (heap : WordMem) (s : Soe F)
    → AllInvalid before
    → is_valid p ≡ true
    → Returns (HasStarted p) (before_loop (before ++ p ∷ later) heap s)
unfolding before_loop
before_loop-HasStarted before later p heap s b h =
    rw (get_sample_dimensions-AllInvalid before later p b h)
      ((_, refl, (refl, init_the_hold_table-IsClear p heap)))
