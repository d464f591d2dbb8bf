-- ===== src/Driver/RateLimit/Examples.antt =====
-- The rate limit at concrete arrival times.
use acq400_xrm.Prelude.{ℕ, ◌≡◌, refl, List, [], ◌∷◌, false}
use acq400_xrm.Driver.RateLimit.{lim_2hz, MonitorRateLimit, go_aheads}
use acq400_xrm.Driver.RateLimit.Spacing.{Spaced, go_aheads-Spaced}

abbrev fresh : MonitorRateLimit
fresh = record { et0 = 0; go_ahead = false }

abbrev arrivals : List ℕ
arrivals = 300_000_000 ∷ 600_000_000 ∷ 900_000_000 ∷ 1_200_000_000 ∷ []

half_dropped : go_aheads lim_2hz fresh arrivals ≡ 600_000_000 ∷ 1_200_000_000 ∷ []
unfolding go_aheads
half_dropped = refl

go_aheads-Spaced_example : Spaced 500_000_000 0 (go_aheads lim_2hz fresh arrivals)
go_aheads-Spaced_example = go_aheads-Spaced lim_2hz 500_000_000 fresh arrivals refl
