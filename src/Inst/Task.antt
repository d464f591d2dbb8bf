-- ===== src/Inst/Task.antt =====
-- acq400_INST::task(): one round of its loop for each buffer, and writeInt32().
use acq400_xrm.Prelude.{
  ℕ, suc, ◌+◌, ◌%◌, ◌^◌, Bool, none, some, List, [], ◌∷◌, ◌++◌, ◌>>=◌, ◌==◌, if◌then◌else◌, ◌&&◌,
  ◌||◌, not, replicate, get_elem?, set, length,
}
use acq400_xrm.Prelude.Int.{ℤ, pos, of_bits, s32, eqb_ℤ, ltb_ℤ, ◌+ℤ◌}
use acq400_xrm.Prelude.Text.{Text, codes, print_int}
use acq400_xrm.Driver.{
  Checked, Effect, Param, set_integer, call_param_callbacks, signal_event, p_runstop, p_mon_rl,
  p_updates, p_redis_bcount,
}
use acq400_xrm.Driver.RateLimit.{MonitorRateLimit, init_rate_limit, mrl_of, new_data}
use acq400_xrm.SamplePrams.{SamplePrams}
use acq400_xrm.Inst.{
  ChildProcessInfo, no_child, maxread_backlog, TextParam, p_redis_status, p_redis_mmkey, Mode,
}
use acq400_xrm.Inst.Launch.{Machine, Launch, prepare_launch}
use acq400_xrm.Inst.Message.{take_message}

-- What the driver tells the libraries and the system, in order. `started` is what fork() gave
-- for a launch; `sent` is a write() to the socket, `hung_up` the shutdown() of it, `killed` is
-- kill() with waitpid().
pub data InstEffect : Type 0 where
  asyn : Effect → InstEffect
  set_text : TextParam → Text → InstEffect
  started : Launch → ChildProcessInfo → InstEffect
  sent : ℤ → Text → InstEffect
  hung_up : ℤ → InstEffect
  killed : ℤ → InstEffect

-- The members, and the variables of task(); an int that counts is its bit pattern.
pub record Inst : Type 0 where
  pub mode : Mode
  pub mrl_param : ℤ
  pub read_backlog : List ℕ
  pub bcount : ℕ
  pub redis_bcount : ℕ
  pub rate_limit : MonitorRateLimit
  pub ib : ℤ
  pub cpi : ChildProcessInfo
  pub runstop0 : ℤ

-- One try to read: the bytes that are there, where FIONREAD succeeds and gives some, and what
-- read() then gives, where it does not fail.
pub record Try : Type 0 where
  pub ready : Bool
  pub bytes : List ℕ

-- What a round gets: the buffer of getBufferId(), RUNSTOP, the time, the two tries, and for a
-- launch the machine, the parameters and what fork() gives.
pub record Arrival : Type 0 where
  pub buffer : ℤ
  pub runstop : ℤ
  pub now : ℕ
  pub try0 : Try
  pub try1 : Try
  pub machine : Machine
  pub text_param : TextParam → Text
  pub sample_prams : SamplePrams
  pub child : ChildProcessInfo

-- The start of task(), at time `now`; where it waits for buffers, the first wait succeeds.
unfoldable pub start : Mode → ℤ → ℕ → Inst
start mode mrl now = record {
  mode = mode;
  mrl_param = mrl;
  read_backlog = replicate (maxread_backlog + 1) 0;
  bcount = 0;
  redis_bcount = 0;
  rate_limit = init_rate_limit now;
  ib = pos 0;
  cpi = no_child;
  runstop0 = pos 0;
}

-- The branch on the start of a run.
unfoldable pub start_child : Arrival → Inst → Checked (Inst × List InstEffect)
start_child a s = do
  launch ← prepare_launch a.machine a.text_param a.sample_prams
  some (
    record s {
      read_backlog = replicate (maxread_backlog + 1) 0;
      bcount = 0;
      redis_bcount = 0;
      cpi = a.child;
    },
    started launch a.child ∷ set_text p_redis_status (codes "RUN") ∷ [],
  )

unfoldable pub send_number : Inst → List InstEffect
send_number s =
    if s.mode.send_buffer_numbers then sent s.cpi.fd (print_int s.ib ++ b'\n' ∷ []) ∷ [] else []

-- runstop == 1 || runstop0 == 1
unfoldable pub drive_child : Arrival → Inst → Checked (Inst × List InstEffect)
drive_child a s =
    let driven = (do
      r ← if eqb_ℤ s.runstop0 (pos 0) then start_child a s else some (s, [])
      some (r.0, r.1 ++ send_number (r.0))) in
    if eqb_ℤ a.runstop (pos 1) || eqb_ℤ s.runstop0 (pos 1) then driven else some (s, [])

-- One try: the count of the messages shown, the reads before it and behind it, and what it shows.
unfoldable pub try_read : Try → ℕ → ℕ → Checked ((ℕ × ℕ) × List InstEffect)
try_read t redis_bcount number_of_reads =
    let count = (redis_bcount + 1) % 2 ^ 32 in
    let shown = (do
      m ← take_message t.bytes
      some (
        (count, suc number_of_reads),
        set_text p_redis_mmkey (m.0)
            ∷ set_text p_redis_status (m.1)
            ∷ asyn (set_integer 0 p_redis_bcount (of_bits 32 count))
            ∷ [],
      )) in
    if t.ready && not (length t.bytes == 0)
    then shown
    else some ((redis_bcount, number_of_reads), [])

-- read_backlog[n] += 1; `none` is an index behind the array.
unfoldable pub count_read : List ℕ → ℕ → Checked (List ℕ)
count_read backlog n = elim (get_elem? backlog n) [
  | none ↦ none
  | some c ↦ some (set backlog n ((c + 1) % 2 ^ 32))
]

-- cpi.fd != 0: both tries.
unfoldable pub read_child : Arrival → Inst → Checked (Inst × List InstEffect)
read_child a s =
    let reads = (do
      r0 ← try_read a.try0 s.redis_bcount 0
      r1 ← try_read a.try1 (r0.0).0 (r0.0).1
      backlog ← count_read s.read_backlog (r1.0).1
      some (record s { read_backlog = backlog; redis_bcount = (r1.0).0 }, r0.1 ++ r1.1)) in
    if eqb_ℤ s.cpi.fd (pos 0) then some (s, []) else reads

-- runstop == 0 && runstop0 == 1, with the assert on the pid.
unfoldable pub stop_child : Arrival → Inst → Checked (Inst × List InstEffect)
stop_child a s =
    let stopped =
      if ltb_ℤ (pos 0) s.cpi.pid
      then some (
        record s { cpi = no_child },
        hung_up s.cpi.fd
            ∷ killed s.cpi.pid
            ∷ set_text p_redis_status (codes "STOP")
            ∷ asyn call_param_callbacks
            ∷ [],
      )
      else none in
    if eqb_ℤ a.runstop (pos 0) && eqb_ℤ s.runstop0 (pos 1) then stopped else some (s, [])

unfoldable pub task_round : Arrival → Inst → Checked (Inst × List InstEffect)
task_round a s = do
  let ib = if s.mode.block_on_new_buffer then a.buffer else s.ib
  let update = asyn (set_integer 0 p_updates (of_bits 32 s.bcount))
  rate ← new_data a.now (mrl_of s.mrl_param) s.rate_limit
  d ← drive_child a (record s { ib = ib; bcount = (s.bcount + 1) % 2 ^ 32; rate_limit = rate })
  r ← read_child a (d.0)
  k ← stop_child a (r.0)
  let next_ib = if s.mode.block_on_new_buffer then ib else s32 (ib +ℤ pos 1)
  some (
    record (k.0) { ib = next_ib; runstop0 = a.runstop },
    update ∷ d.1
        ++ (r.1 ++ ((if rate.go_ahead then asyn call_param_callbacks ∷ [] else []) ++ k.1)),
  )

-- The loop over the rounds that come. Where it waits for buffers, it ends at a negative one.
unfoldable pub task_rounds : List Arrival → Inst → Checked (Inst × List InstEffect)
task_rounds [] s = some (s, [])
task_rounds (a ∷ later) s =
    let round = (do r ← task_round a s; t ← task_rounds later (r.0); some (t.0, r.1 ++ t.1)) in
    if s.mode.block_on_new_buffer && ltb_ℤ a.buffer (pos 0) then some (s, []) else round

-- writeInt32(): the driver, and what it tells the libraries, in order.
unfoldable pub write_int32 : Param → ℤ → Inst → Inst × List Effect
write_int32 p_runstop value s = (
  s,
  set_integer 0 p_runstop value ∷ (if eqb_ℤ value (pos 1) then signal_event ∷ [] else [])
      ++ call_param_callbacks ∷ [],
)
write_int32 p_mon_rl value s =
    (record s { mrl_param = value }, set_integer 0 p_mon_rl value ∷ call_param_callbacks ∷ [])
write_int32 p value s = (s, set_integer 0 p value ∷ call_param_callbacks ∷ [])
