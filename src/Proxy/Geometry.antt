-- ===== src/Proxy/Geometry.antt =====
-- The sample geometry that acq400_Proxy.cpp computes.
use acq400_xrm.Prelude.{
  false, if◌then◌else◌, Bool, ℕ, ◌+◌, ◌*◌, ◌%◌, ◌≡◌, Bool, true, false, List, [], ◌∷◌,
  if◌then◌else◌,
}
use acq400_xrm.SamplePrams.{SamplePrams}
use acq400_xrm.Proxy.{Site}

-- The bytes of a sample that come from the sites of a kind.
abbrev pub bytes_of : Bool → List Site → ℕ
bytes_of adc [] = 0
bytes_of true (s ∷ ss) = (if s.is_adc then s.ssb else 0) + bytes_of true ss
bytes_of false (s ∷ ss) = (if s.is_adc then 0 else s.ssb) + bytes_of false ss

-- Each site sends whole 32-bit words.
abbrev pub AllWords : List Site → Type 0
AllWords [] = Unit {0}
AllWords (s ∷ ss) = (s.ssb % 4 ≡ 0) × AllWords ss

-- A sample of `ssl` words is tiled: the analog channels, two to a word, then the digital
-- words, then the scratch pad, with nothing between or behind.
pub record IsTiled (p : SamplePrams) (ssl : ℕ) : Type 0 where
  pub ai_first : p.ai_index ≡ 0
  pub di_next : p.di_index * 2 ≡ p.ai_count
  pub sp_next : p.sp_index ≡ p.di_index + p.di_count
  pub whole : p.sp_index + p.sp_count ≡ ssl
