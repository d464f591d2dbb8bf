-- ===== src/SamplePrams/Examples.antt =====
-- Parameters that are valid, through the file of SamplePrams.cpp.
use acq400_xrm.Prelude.{◌≡◌, refl, true, false}
use acq400_xrm.SamplePrams.{SamplePrams, init, sp_magic, is_valid}

abbrev valid : SamplePrams
valid = record init { magic = sp_magic; ssb = 160; nsam = 1000; ai_count = 64 }

valid_is : is_valid valid ≡ true
unfolding is_valid
valid_is = refl

-- Parameters that are not valid are not saved.
not_saved : is_valid (record valid { magic = 0 }) ≡ false
unfolding is_valid
not_saved = refl
