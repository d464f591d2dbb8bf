-- ===== src/Proxy/Examples.antt =====
-- Two analog modules and a digital one, for acq400_Proxy.cpp.
use acq400_xrm.Prelude.{true, false, List, [], ◌∷◌}
use acq400_xrm.SamplePrams.{SamplePrams}
use acq400_xrm.Proxy.{Site}

abbrev sites : List Site
sites =
    record { is_adc = true; ssb = 64 }
    ∷ record { is_adc = true; ssb = 64 }
    ∷ record { is_adc = false; ssb = 4 }
    ∷ []
