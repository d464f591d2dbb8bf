-- ===== src/Receiver/Running.antt =====
-- The task of acq400_FMT_rx never stops, and its ring always shows the latest tables.
use acq400_xrm.Prelude.{
  ℕ, ◌<◌, ◌≡◌, ◌≢◌, refl, Bool, true, false, List, [], ◌∷◌, take, if◌then◌else◌,
}
use acq400_xrm.Prelude.Int.{pos, eqb_ℤ}
use acq400_xrm.Prelude.Returns.{Returns, Returns-bind}
use acq400_xrm.Structs.{Fmt}
use acq400_xrm.Driver.{Effect}
use acq400_xrm.Driver.RateLimit.{mrl_of, unknown}
use acq400_xrm.Driver.RateLimit.Spacing.{new_data-some}
use acq400_xrm.Receiver.{Cache, receive, update_fmt}
use acq400_xrm.Receiver.Ring.{IsRing}
use acq400_xrm.Receiver.History.{contents, receive-contents}
use acq400_xrm.Receiver.Task.{RxTask, Round, running_round, task_round, task_rounds}

-- The tables that arrive in the rounds, before the ones known already, the latest first.
unfoldable pub arrived : List Round → List Fmt → List Fmt
arrived [] history = history
arrived (a ∷ later) history =
    arrived later (if eqb_ℤ a.runstop (pos 1) then a.datagram ∷ history else history)

-- A ring of maxq tables that shows the latest of a history, and a limit of the menu.
pub record IsRx (maxq : ℕ) (history : List Fmt) (s : RxTask) : Type 0 where
  pub limit : mrl_of s.rx.mrl_param ≢ unknown
  pub ring : IsRing maxq s.rx.cache
  pub shows : contents s.rx.cache ≡ take maxq history

abbrev pub IsAfter : ℕ → List Fmt → RxTask × List Effect → Type 0
IsAfter maxq history r = IsRx maxq history (r.0)

received :
    (maxq : ℕ) (c : Cache) (p : Fmt) (history : List Fmt)
    → 0 < maxq
    → IsRing maxq c
    → contents c ≡ take maxq history
    → Returns
        (λ (r : Cache × ℕ). IsRing maxq (r.0) × (contents (r.0) ≡ take maxq (p ∷ history)))
        (receive p c)
received maxq c p history h r e =
    let t = receive-contents maxq c p history h r e in ((t.0, t.1), t.2, (t.3, t.4))

running_round-some :
    (maxq : ℕ) (history : List Fmt) (a : Round) (s : RxTask)
    → 0 < maxq
    → IsRx maxq history s
    → Returns (IsAfter maxq (a.datagram ∷ history)) (running_round a s)
unfolding running_round update_fmt
running_round-some maxq history a s h r =
    Returns-bind (received maxq s.rx.cache a.datagram history h r.ring r.shows) (λ c q.
      Returns-bind (new_data-some a.now (mrl_of s.rx.mrl_param) s.rate_limit r.limit)
        (λ rate u. (_, refl, record { limit = r.limit; ring = q.0; shows = q.1 })))

task_round-some :
    (b : Bool) (maxq : ℕ) (history : List Fmt) (a : Round) (s : RxTask)
    → 0 < maxq
    → IsRx maxq history s
    → eqb_ℤ a.runstop (pos 1) ≡ b
    → Returns (IsAfter maxq (if b then a.datagram ∷ history else history)) (task_round a s)
unfolding task_round
task_round-some true maxq history a s h r e = rw e (running_round-some maxq history a s h r)
task_round-some false maxq history a s h r e = rw e (_, refl, r)

-- Whatever rounds and tables come, the task of a receiver of maxq > 0 tables under a limit of
-- the menu never stops, its slots stay a ring, and what the ring shows is the latest maxq of
-- the tables that arrived while it ran, the latest first.
pub task_rounds-IsRx :
    (maxq : ℕ) (rounds : List Round) (history : List Fmt) (s : RxTask)
    → 0 < maxq
    → IsRx maxq history s
    → Returns (IsAfter maxq (arrived rounds history)) (task_rounds rounds s)
unfolding task_rounds arrived
task_rounds-IsRx maxq [] history s h r = (_, refl, r)
task_rounds-IsRx maxq (a ∷ later) history s h r =
    Returns-bind (task_round-some (eqb_ℤ a.runstop (pos 1)) maxq history a s h r refl)
      (λ t q. Returns-bind (task_rounds-IsRx maxq later _ (t.0) h q) (λ u q'. (_, refl, q')))
