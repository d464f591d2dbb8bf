-- ===== src/PostMortem/Examples.antt =====
-- A store of three buffers and some live ones, for acq400_PM.cpp.
use acq400_xrm.Prelude.{
  ◌%◌, ◌/◌, ℕ, ◌≡◌, ◌≢◌, refl, true, false, some, List, [], ◌∷◌, inl, inr, take, arith,
}
use acq400_xrm.Prelude.Int.{ℤ, pos}
use acq400_xrm.Prelude.Returns.{Returns}
use acq400_xrm.SamplePrams.{SamplePrams}
use acq400_xrm.Driver.RateLimit.{mrl_of, unknown}
use acq400_xrm.PostMortem.{
  BufferPair, Store, PmCols, Setup, copy_from_len, burst_lw, stash_buffer, show_rows,
}
use acq400_xrm.PostMortem.Task.{Arrival, start, task_rounds}
use acq400_xrm.PostMortem.Ring.{IsStore, lives, stash_buffer-lives}
use acq400_xrm.PostMortem.Rows.{AreShown, show_rows-AreShown}
use acq400_xrm.PostMortem.Running.{IsPm, IsAfter, task_rounds-IsPm}

abbrev prams : SamplePrams
prams = record {
  magic = 0;
  ssb = 32;
  nsam = 1024;
  ai_count = 4;
  ai_index = 0;
  di_count = 2;
  di_index = 2;
  sp_count = 4;
  sp_index = 4;
}

abbrev setup : Setup
setup = record {
  sample_prams = prams;
  nbuf = 2;
  buffer_throttle_modulo = 1;
  sp_x_from_live = false;
  the_buffers = λ ib j. j;
}

abbrev pair : ℕ → ℕ → BufferPair
pair live store = record { ib_live = pos live; ib_store = store }

abbrev full : Store
full = record { empties = []; filled = pair 12 4 ∷ pair 11 3 ∷ pair 10 2 ∷ [] }

full-IsStore : IsStore 3 full
full-IsStore = record {
  in_range = (omega arith, omega arith, (omega arith, omega arith, (omega arith, omega arith, tt)));
  once = (
    ((λ (e : 4 ≡ 3). absurd (omega arith)), ((λ (e : 4 ≡ 2). absurd (omega arith)), tt)),
    (((λ (e : 3 ≡ 2). absurd (omega arith)), tt), (tt, tt)),
  );
  count = refl;
}

abbrev history : List ℤ
history = pos 12 ∷ pos 11 ∷ pos 10 ∷ pos 9 ∷ []

stash_buffer-lives_example :
    (d : Store) × (bp : BufferPair) × (before : List BufferPair) × (arg : ℕ) × (stash_buffer prams
        (pos 13)
        full
      ≡ some (d, copy_from_len bp.ib_store arg))
    × (arg % 1024 ≡ 13)
    × (arg / 1024 ≡ 8192)
    × (d.filled ≡ bp ∷ before)
    × (bp.ib_live ≡ pos 13)
    × (lives before ≡ take 2 history)
    × IsStore 3 d
stash_buffer-lives_example =
    stash_buffer-lives prams 2 13 full history (omega arith) (omega arith) full-IsStore refl

burst : burst_lw prams ≡ 8192
unfolding burst_lw
burst = refl

abbrev blank : PmCols
blank = record {
  c_ib_live = λ j. pos 0;
  c_ib_store = λ j. 0;
  c_sp0 = λ j. 0;
  c_sp1 = λ j. 0;
  c_sp2 = λ j. 0;
  c_sp3 = λ j. 0;
  c_wrvs = λ j. 0;
  c_wrvt = λ j. 0;
  c_wrus = λ j. 0;
}

show_rows-AreShown_example :
    (d : PmCols) × (show_rows setup true full.filled 0 blank ≡ some d)
    × AreShown setup full.filled 0 blank d
show_rows-AreShown_example = show_rows-AreShown setup (full.filled) 0 blank (omega arith)

-- Two live buffers of a run, and the one with which it stops.
abbrev arrivals : List Arrival
arrivals =
    record { ib = pos 10; runstop = pos 1; now = 5 }
    ∷ record { ib = pos 11; runstop = pos 1; now = 6 }
    ∷ record { ib = pos 12; runstop = pos 0; now = 7 }
    ∷ []

no_limit : mrl_of (pos 5) ≢ unknown
unfolding mrl_of
no_limit e = absurd cc

started : IsPm setup (start blank (pos 5) 0)
unfolding start
started = record { limit = no_limit; running = inl refl }

task_rounds-IsPm_example :
    Returns (IsAfter setup) (task_rounds setup arrivals (start blank (pos 5) 0))
task_rounds-IsPm_example =
    task_rounds-IsPm setup arrivals (start blank (pos 5) 0)
      (record { fits = omega arith; throttle = omega arith }) (inr refl, (inr refl, (inl refl, tt)))
      started
