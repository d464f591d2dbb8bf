-- ===== src/SamplePrams/Laws.antt =====
-- What SamplePrams.cpp keeps from one process to another.
use acq400_xrm.Prelude.{◌≡◌, refl, true, some}
use acq400_xrm.Prelude.Int.{pos}
use acq400_xrm.SamplePrams.{SamplePrams, is_valid, store, load}

-- Valid parameters that fwrite() writes as one item are in the file, and load() gives them
-- back whatever the caller's structure held, both with the result 1.
pub store-load :
    (p q : SamplePrams)
    → is_valid p ≡ true
    → (store true (pos 1) p ≡ (pos 1, some p)) × (load (some (pos 1, p)) q ≡ (pos 1, p))
unfolding store load
store-load p q v = (rw v refl, rw v refl)
