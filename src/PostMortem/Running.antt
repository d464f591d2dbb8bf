-- ===== src/PostMortem/Running.antt =====
-- The task never stops: the store is a ring whenever the driver runs.
use acq400_xrm.Prelude.{
  if◌then◌else◌, ◌%◌, ◌^◌, ℕ, zero, suc, ◌+◌, ◌≤◌, ◌<◌, ◌≡◌, ◌≢◌, refl, Bool, ◌||◌, true, false,
  some, List, [], ◌∷◌, ◌⊎◌, inl, inr, length, arith, length-append,
}
use acq400_xrm.Prelude.Int.{ℤ, pos, eqb_ℤ}
use acq400_xrm.Prelude.Returns.{Returns, Returns-bind, Returns-if}
use acq400_xrm.Driver.RateLimit.{mrl_of, unknown}
use acq400_xrm.Driver.RateLimit.Spacing.{new_data-some}
use acq400_xrm.PostMortem.{Store, Setup, PmCols, PmEffect, BufferPair, show_rows, init_buffers}
use acq400_xrm.PostMortem.Task.{
  Pm, Arrival, task_round, task_rounds, running_round, stash_and_show, is_throttled,
}
use acq400_xrm.PostMortem.Ring.{IsStore, stash_buffer-IsStore}
use acq400_xrm.PostMortem.Fresh.{init_buffers-IsStore}
use acq400_xrm.PostMortem.Rows.{show_rows-AreShown, show_rows_held}

-- RUNSTOP is a binary record.
abbrev pub IsRunstop : ℤ → Type 0
IsRunstop z = (z ≡ pos 0) ⊎ (z ≡ pos 1)

abbrev pub AllRunstop : List Arrival → Type 0
AllRunstop [] = Unit {0}
AllRunstop (a ∷ later) = IsRunstop a.runstop × AllRunstop later

-- A setup whose buffers fit the columns, with a throttle that is set.
pub record IsSetup (e : Setup) : Type 0 where
  pub fits : e.nbuf ≤ 31
  pub throttle : 0 < e.buffer_throttle_modulo

-- While it runs, the store is a ring of nbuf + 1 buffers; the rate limit is one of the menu.
pub record IsPm (e : Setup) (s : Pm) : Type 0 where
  pub limit : mrl_of s.mrl_param ≢ unknown
  pub running : (s.runstop0 ≡ pos 0) ⊎ ((s.runstop0 ≡ pos 1) × IsStore (suc e.nbuf) s.store)

is_throttled-some : (count m : ℕ) → 0 < m → Returns (λ (b : Bool). Unit {0}) (is_throttled count m)
unfolding is_throttled
is_throttled-some count zero h = absurd (omega arith)
is_throttled-some count (suc m) h = (_, refl, tt)

show_rows-some :
    (e : Setup) (go : Bool) (bs : List BufferPair) (c : PmCols)
    → length bs ≤ 32
    → Returns (λ (d : PmCols). Unit {0}) (show_rows e go bs 0 c)
unfolding show_rows
show_rows-some e true bs c h = let r = show_rows-AreShown e bs 0 c (omega arith) in (r.0, r.1, tt)
show_rows-some e false [] c h = (c, refl, tt)
show_rows-some e false (b ∷ bs) c h =
    let r = show_rows_held e b bs 0 c 1 (omega arith) (λ (q : 1 ≡ 0). absurd (omega arith)) in
    (r.0, r.1, tt)

-- What every round keeps.
abbrev pub IsAfter : Setup → Pm × List PmEffect → Type 0
IsAfter e r = IsPm e (r.0)

keeps_store :
    (e : Setup) (s : Pm) (d : Store)
    → IsPm e s
    → IsStore (suc e.nbuf) d
    → (s.runstop0 ≡ pos 0) ⊎ ((s.runstop0 ≡ pos 1) × IsStore (suc e.nbuf) d)
keeps_store e s d r st = elim r.running [ inl q ↦ inl q | inr q ↦ inr (q.0, st) ]

-- The store when a round begins: a new one on the start of a run.
started :
    (e : Setup) (s : Pm)
    → IsSetup e
    → IsPm e s
    → Returns
        (IsStore (suc e.nbuf))
        (if eqb_ℤ s.runstop0 (pos 0) then init_buffers e.nbuf else some s.store)
started e s f r = elim r.running [
  | inl q ↦ rw q (let i = init_buffers-IsStore e.nbuf (omega (arith, f.fits)) in (i.0, i.1, i.2))
  | inr q ↦ rw (q.0) (s.store, refl, q.1)
]

stash_and_show-some :
    (e : Setup) (ib : ℤ) (s : Pm)
    → IsSetup e
    → IsPm e s
    → IsStore (suc e.nbuf) s.store
    → Returns (IsAfter e) (stash_and_show e ib s)
unfolding stash_and_show
stash_and_show-some e ib s f r st =
    Returns-bind (stash_buffer-IsStore e.sample_prams e.nbuf ib s.store st) (λ b st'.
      let room : length (b.0).filled ≤ 32 =
        omega (arith, f.fits, st'.count, length-append (b.0).filled (b.0).empties) in
      Returns-bind (show_rows-some e s.rate_limit.go_ahead (b.0).filled s.pm_cols room)
        (λ cols u. (_, refl, record { limit = r.limit; running = keeps_store e s (b.0) r st' })))

running_round-some :
    (e : Setup) (a : Arrival) (s : Pm)
    → IsSetup e
    → IsRunstop a.runstop
    → IsPm e s
    → Returns (IsAfter e) (running_round e a s)
unfolding running_round
running_round-some e a s f bit r = Returns-bind (started e s f r) (λ store st.
    Returns-bind (is_throttled-some s.buffer_count e.buffer_throttle_modulo f.throttle) (λ skip u.
      let next : IsPm e (record s {
        store = store;
        buffer_count = (s.buffer_count + 1) % 2 ^ 32;
        runstop0 = a.runstop;
      }) =
        record { limit = r.limit; running = elim bit [ inl q ↦ inl q | inr q ↦ inr (q, st) ] } in
      Returns-if skip (_, refl, next)
        (Returns-bind (stash_and_show-some e a.ib _ f next st) (λ t q. (_, refl, q)))))

-- From a state that keeps the rules, a round never stops and keeps them.
task_round-some :
    (e : Setup) (a : Arrival) (s : Pm)
    → IsSetup e
    → IsRunstop a.runstop
    → IsPm e s
    → Returns (IsAfter e) (task_round e a s)
unfolding task_round
task_round-some e a s f bit r =
    Returns-bind (new_data-some a.now (mrl_of s.mrl_param) s.rate_limit r.limit) (λ rate u.
      let limited : Pm = record s { rate_limit = rate } in
      let kept : IsPm e limited = record { limit = r.limit; running = r.running } in
      let run = running_round-some e a limited f bit kept in
      elim bit [
        | inl q ↦
            Returns-if (eqb_ℤ a.runstop (pos 1) || eqb_ℤ s.runstop0 (pos 1)) run
              (_, refl, record { limit = r.limit; running = inl q })
        | inr q ↦ simp q run
      ])

-- However many buffers arrive, the task never stops: with a store that fits the columns, a
-- throttle that is set and a limit of the menu, no assert fails, nothing is divided by zero
-- and no column is written behind its end; and the store stays a ring.
pub task_rounds-IsPm :
    (e : Setup) (arrivals : List Arrival) (s : Pm)
    → IsSetup e
    → AllRunstop arrivals
    → IsPm e s
    → Returns (IsAfter e) (task_rounds e arrivals s)
unfolding task_rounds
task_rounds-IsPm e [] s f bits r = (_, refl, r)
task_rounds-IsPm e (a ∷ later) s f bits r =
    Returns-bind (task_round-some e a s f bits.0 r)
      (λ t q. Returns-bind (task_rounds-IsPm e later (t.0) f bits.1 q) (λ u q'. (_, refl, q')))
