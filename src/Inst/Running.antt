-- ===== src/Inst/Running.antt =====
-- The task of acq400_INST stops by no assert and by no fault, and a child runs exactly while the driver does.
use acq400_xrm.Prelude.{◌&&◌, ◌≡◌, refl, ap, ◌∙◌, List, [], ◌∷◌}
use acq400_xrm.Prelude.Int.{ℤ, pos, ltb_ℤ}
use acq400_xrm.Prelude.Returns.{Returns, Returns-bind, Returns-if}
use acq400_xrm.Driver.RateLimit.{mrl_of}
use acq400_xrm.Driver.RateLimit.Spacing.{new_data-some}
use acq400_xrm.Inst.Alive.{alive, alive-append, alive_chain, children}
use acq400_xrm.Inst.Task.{Inst, InstEffect, Arrival, task_round, task_rounds}
use acq400_xrm.Inst.Stages.{
  IsArrival, AllArrive, IsInst, drive_child-IsStage, read_child-IsStage, stop_child-IsStage,
}

-- What a round does, from a state that keeps the rules.
abbrev pub IsAfter : List ℤ → Inst × List InstEffect → Type 0
IsAfter l r = IsInst (r.0) × (alive l r.1 ≡ children r.0.cpi)

task_round-IsAfter :
    (a : Arrival) (s : Inst)
    → IsArrival a
    → IsInst s
    → Returns (IsAfter (children s.cpi)) (task_round a s)
unfolding task_round alive
task_round-IsAfter a s h k =
    Returns-bind (new_data-some a.now (mrl_of s.mrl_param) s.rate_limit k.limit) (λ rate u.
      Returns-bind
        (drive_child-IsStage a _ h (record { limit = k.limit; counts = k.counts; life = k.life }))
        (λ d e.
          Returns-bind
            (read_child-IsStage a (d.0) (children d.0.cpi) h e.0.limit e.0.counts e.1 refl)
            (λ r f. Returns-bind (stop_child-IsStage a (r.0) f.0.limit f.0.counts f.1) (λ t g. (
              _,
              refl,
              (
                record { limit = g.0.limit; counts = g.0.counts; life = g.1 },
                alive_chain _ _ _ _ (d.1) (r.1) (t.1) rate.go_ahead e.0.runs f.0.runs g.0.runs,
              ),
            )))))

-- However many rounds come, up to a negative buffer where the task waits for buffers: where
-- RUNSTOP is a bit, fork() succeeds, messages fit their buffer and the limit is one of the menu,
-- no assert fails, the launch never fails, and no count is made behind read_backlog; a child runs
-- behind the rounds if and only if the driver ran in the last of those that were done, and then it
-- is the only one: each other child that was started was killed.
pub task_rounds-IsAfter :
    (arrivals : List Arrival) (s : Inst)
    → AllArrive arrivals
    → IsInst s
    → Returns (IsAfter (children s.cpi)) (task_rounds arrivals s)
unfolding task_rounds alive
task_rounds-IsAfter [] s h k = (_, refl, (k, refl))
task_rounds-IsAfter (a ∷ later) s h k =
    let rounds = Returns-bind (task_round-IsAfter a s h.0 k) (λ r t.
      Returns-bind (task_rounds-IsAfter later (r.0) h.1 t.0) (λ u q. (
        _,
        refl,
        (q.0, alive-append (children s.cpi) (r.1) (u.1) ∙ ap (λ l. alive l (u.1)) t.1 ∙ q.1),
      ))) in
    Returns-if (s.mode.block_on_new_buffer && ltb_ℤ a.buffer (pos 0)) (_, refl, (k, refl)) rounds
