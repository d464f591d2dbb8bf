-- ===== src/Proxy/Task.antt =====
-- acq400_Proxy::task(): it reads the geometry and the calibration until the parameters are valid.
use acq400_xrm.Prelude.Int.{ℤ}
use acq400_xrm.Prelude.{Bool, ℕ, Option, some, List, [], ◌∷◌, ◌++◌, ◌>>=◌, if◌then◌else◌}
use acq400_xrm.SamplePrams.{SamplePrams, is_valid}
use acq400_xrm.Driver.{Effect}
use acq400_xrm.Proxy.{Site, get_sample_dimensions}
use acq400_xrm.Proxy.Cal.{Cal, get_cal}

-- What the parameter library holds in a round, and what fopen() and fwrite() of store() give.
pub record Seen : Type 0 where
  pub sites : List Site
  pub site_ssb : ℕ
  pub nsam : ℕ
  pub opens : Bool
  pub rc : ℤ

-- The loop over the rounds that come; where they end before the parameters are valid, it waits.
unfoldable pub proxy_rounds :
    {F : Type 0} (of_size : ℕ → F)
    → List Seen
    → SamplePrams
    → Cal F
    → Option (SamplePrams × Cal F × List Effect)
proxy_rounds of_size [] p cal = some (p, cal, [])
proxy_rounds of_size (s ∷ later) p cal =
    let again = (do
      d ← get_sample_dimensions s.opens s.rc s.sites s.site_ssb s.nsam p
      c ← get_cal of_size cal
      t ← proxy_rounds of_size later (d.0) (c.0)
      some (t.0, t.1, d.1 ++ t.2)) in
    if is_valid p then some (p, cal, []) else again
