-- ===== src/Driver/RateLimit.antt =====
-- acq400_asynPortDriver::MonitorRateLimit. Times are nanoseconds since the EPICS epoch, as
-- an epicsTimeStamp holds them; the current time is an argument.
pub mod Spacing
pub mod Examples
use acq400_xrm.Prelude.{
  ℕ, zero, suc, ◌+◌, Bool, true, false, Option, none, some, List, [], ◌∷◌, ltb, ◌==◌, if◌then◌else◌,
}
use acq400_xrm.Prelude.Int.{ℤ, pos, negsuc}

-- enum MRL, in its order; `unknown` is any other integer.
pub data Mrl : Type 0 where
  dis_mon lim_1hz lim_2hz lim_5hz lim_10hz lim_nolim unknown : Mrl

-- The integer that a driver's parameter holds.
unfoldable pub mrl_of : ℤ → Mrl
mrl_of (pos n) =
    if n == 0
    then dis_mon
    else if n == 1
    then lim_1hz
    else if n == 2
    then lim_2hz
    else if n == 3
    then lim_5hz
    else if n == 4
    then lim_10hz
    else if n == 5
    then lim_nolim
    else unknown
mrl_of (negsuc n) = unknown

pub record MonitorRateLimit : Type 0 where
  pub et0 : ℕ
  pub go_ahead : Bool

-- The constructor, at time `now`.
unfoldable pub init_rate_limit : ℕ → MonitorRateLimit
init_rate_limit now = record { et0 = now; go_ahead = false }

-- epicsTimeDiffLessThan(t1, t0, tgts) and epicsTimeDiffGreaterThan(t1, t0, tgts), where t1 may
-- also be the earlier time.
unfoldable pub time_diff_less_than : ℕ → ℕ → ℕ → Bool
time_diff_less_than t1 t0 tgts = ltb t1 (t0 + tgts)

unfoldable pub time_diff_greater_than : ℕ → ℕ → ℕ → Bool
time_diff_greater_than t1 t0 tgts = ltb (t0 + tgts) t1

unfoldable pub throttled : ℕ → ℕ → MonitorRateLimit → MonitorRateLimit
unfolding time_diff_greater_than
throttled et1 throttle r =
    if time_diff_greater_than et1 r.et0 throttle
    then record { et0 = et1; go_ahead = true }
    else record r { go_ahead = false }

-- newData(mrl) at time `et1`; `none` is the failed assert of the default case.
unfoldable pub new_data : ℕ → Mrl → MonitorRateLimit → Option MonitorRateLimit
unfolding throttled
new_data et1 dis_mon r = some (record r { go_ahead = false })
new_data et1 lim_nolim r = some (record r { go_ahead = true })
new_data et1 lim_1hz r = some (throttled et1 1_000_000_000 r)
new_data et1 lim_2hz r = some (throttled et1 500_000_000 r)
new_data et1 lim_5hz r = some (throttled et1 200_000_000 r)
new_data et1 lim_10hz r = some (throttled et1 100_000_000 r)
new_data et1 unknown r = none

-- The update interval that a limit stands for.
abbrev pub interval : Mrl → Option ℕ
interval lim_1hz = some 1_000_000_000
interval lim_2hz = some 500_000_000
interval lim_5hz = some 200_000_000
interval lim_10hz = some 100_000_000
interval dis_mon = none
interval lim_nolim = none
interval unknown = none

-- The times at which a client goes ahead, when data arrives at the given times.
unfoldable pub go_aheads : Mrl → MonitorRateLimit → List ℕ → List ℕ
unfolding new_data
go_aheads mrl r [] = []
go_aheads mrl r (t ∷ ts) = elim (new_data t mrl r) [
  | none ↦ []
  | some s ↦ let rest = go_aheads mrl s ts in if s.go_ahead then t ∷ rest else rest
]
