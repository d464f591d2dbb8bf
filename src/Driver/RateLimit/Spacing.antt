-- ===== src/Driver/RateLimit/Spacing.antt =====
-- What MonitorRateLimit guarantees to the clients of a driver.
use acq400_xrm.Prelude.{ℕ, ◌+◌, ◌<◌, ◌≡◌, ◌≢◌, refl, List, [], ◌∷◌, some, arith}
use acq400_xrm.Prelude.Returns.{Returns}
use acq400_xrm.Driver.RateLimit.{
  Mrl, dis_mon, lim_1hz, lim_2hz, lim_5hz, lim_10hz, lim_nolim, unknown, MonitorRateLimit,
  go_aheads, interval, throttled, new_data,
}

-- Each time is more than `d` after the one before it, the first after `last`.
abbrev pub Spaced : ℕ → ℕ → List ℕ → Type 0
Spaced d last [] = Unit {0}
Spaced d last (t ∷ ts) = (last + d < t) × Spaced d t ts

-- Under a limit in hertz, two updates are always more than the interval apart, whenever data
-- arrives, and the first is that long after the limiter was made.
pub go_aheads-Spaced :
    (mrl : Mrl) (d : ℕ) (r : MonitorRateLimit) (ts : List ℕ)
    → interval mrl ≡ some d
    → Spaced d r.et0 (go_aheads mrl r ts)
unfolding go_aheads
go_aheads-Spaced mrl d r [] e = tt
go_aheads-Spaced lim_1hz d r (t ∷ ts) e =
    ground (arith, go_aheads-Spaced lim_1hz d (throttled t 1_000_000_000 r) ts e)
go_aheads-Spaced lim_2hz d r (t ∷ ts) e =
    ground (arith, go_aheads-Spaced lim_2hz d (throttled t 500_000_000 r) ts e)
go_aheads-Spaced lim_5hz d r (t ∷ ts) e =
    ground (arith, go_aheads-Spaced lim_5hz d (throttled t 200_000_000 r) ts e)
go_aheads-Spaced lim_10hz d r (t ∷ ts) e =
    ground (arith, go_aheads-Spaced lim_10hz d (throttled t 100_000_000 r) ts e)
go_aheads-Spaced dis_mon d r (t ∷ ts) e = cc
go_aheads-Spaced lim_nolim d r (t ∷ ts) e = cc
go_aheads-Spaced unknown d r (t ∷ ts) e = cc

-- The limits of the menu are known.
pub new_data-some :
    (now : ℕ) (m : Mrl) (r : MonitorRateLimit)
    → m ≢ unknown
    → Returns (λ (r' : MonitorRateLimit). Unit {0}) (new_data now m r)
unfolding new_data
new_data-some now dis_mon r h = (_, refl, tt)
new_data-some now lim_1hz r h = (_, refl, tt)
new_data-some now lim_2hz r h = (_, refl, tt)
new_data-some now lim_5hz r h = (_, refl, tt)
new_data-some now lim_10hz r h = (_, refl, tt)
new_data-some now lim_nolim r h = (_, refl, tt)
new_data-some now unknown r h = absurd (h refl)
