-- ===== src/Inst/Examples.antt =====
-- A run of the driver with a child, for acq400_INST.cpp.
use acq400_xrm.Prelude.{
  ℕ, ◌<◌, ◌≡◌, ◌≢◌, refl, true, false, none, some, List, [], ◌∷◌, ◌++◌, inl, ◌==◌, if◌then◌else◌,
  arith, length,
}
use acq400_xrm.Prelude.Int.{ℤ, pos, negsuc}
use acq400_xrm.Prelude.Text.{Text, codes, print_int, digits_of, eqb}
use acq400_xrm.Prelude.Returns.{Returns}
use acq400_xrm.SamplePrams.{SamplePrams}
use acq400_xrm.Driver.RateLimit.{mrl_of, unknown}
use acq400_xrm.Inst.{
  TextParam, p_redis_host, p_redis_port, mode_spy, mode_str, configure, make_kev_from_ip,
  make_kev_from_kvs, key_equals, sprintf_into,
}
use acq400_xrm.Inst.Env.{Pointers}
use acq400_xrm.Inst.Launch.{Machine, IsLaunch, settings, prepare_launch, prepare_launch-IsLaunch}
use acq400_xrm.Inst.Message.{take_message, take_message_line}
use acq400_xrm.Inst.Task.{Try, Arrival, start, task_rounds}
use acq400_xrm.Inst.Alive.{children}
use acq400_xrm.Inst.Stages.{IsArrival, IsInst}
use acq400_xrm.Inst.Running.{IsAfter, task_rounds-IsAfter}

abbrev prams : SamplePrams
prams = record {
  magic = 0;
  ssb = 32;
  nsam = 1024;
  ai_count = 4;
  ai_index = 0;
  di_count = 2;
  di_index = 2;
  sp_count = 4;
  sp_index = 4;
}

abbrev entries : List Text
entries = codes "PATH=/bin" ∷ codes "HOME=/" ∷ []

abbrev environ : Pointers
environ ii =
    if ii == 0 then some (codes "PATH=/bin") else if ii == 1 then some (codes "HOME=/") else none

abbrev machine : Machine
machine = record {
  port_name = codes "INST";
  getenv = λ key. if eqb key (codes "INST_cmd") then some (codes "/bin/spy") else none;
  base_name = λ path. codes "spy";
  environ = environ;
  fuel = 8;
  argv_heap = λ ii. none;
  env_heap = λ ii. some [];
}

abbrev text_param : TextParam → Text
text_param p_redis_host = codes "10.0.0.1"
text_param p_redis_port = codes "6379"
text_param p = codes "x"

prepare_launch-IsLaunch_example :
    Returns
      (IsLaunch machine entries (settings text_param prams))
      (prepare_launch machine text_param prams)
prepare_launch-IsLaunch_example =
    prepare_launch-IsLaunch machine text_param prams entries (omega arith)
      ((refl, (refl, tt)), refl)

take_message_line_example :
    (take_message ((codes "k7" ++ b' ' ∷ codes "all ok") ++ b'\n' ∷ [])
      ≡ some (codes "k7", codes "all ok"))
    × (take_message (codes "k7" ++ b'\n' ∷ []) ≡ some (codes "k7", codes "xx"))
take_message_line_example =
    take_message_line (codes "k7") (codes "all ok") (ground arith) (ground arith) (ground arith)
      (omega arith)

abbrev quiet : Try
quiet = record { ready = false; bytes = [] }

-- A buffer of a run (1) or behind it (0), with a message or without.
abbrev arrival : ℤ → Try → Arrival
arrival runstop try = record {
  buffer = pos 5;
  runstop = runstop;
  now = 0;
  try0 = try;
  try1 = quiet;
  machine = machine;
  text_param = text_param;
  sample_prams = prams;
  child = record { pid = pos 99; fd = pos 4 };
}

abbrev hello : Try
hello = record { ready = true; bytes = codes "k7 ok" }

abbrev rounds : List Arrival
rounds =
    arrival (pos 0) quiet
    ∷ arrival (pos 1) quiet
    ∷ arrival (pos 1) hello
    ∷ arrival (pos 0) hello
    ∷ arrival (pos 1) quiet
    ∷ []

arrival-IsArrival :
    (runstop : ℕ) (t : Try)
    → runstop < 2
    → length t.bytes < 128
    → IsArrival (arrival (pos runstop) t)
arrival-IsArrival runstop t h b = record {
  bit = ground arith;
  forks = omega arith;
  fits0 = b;
  fits1 = omega arith;
  entries = entries;
  short = omega arith;
  ended = ((refl, (refl, tt)), refl);
}

known : mrl_of (pos 5) ≢ unknown
unfolding mrl_of
known e = cc

started-IsInst : IsInst (start mode_spy (pos 5) 0)
unfolding start
started-IsInst = record { limit = known; counts = refl; life = inl (refl, refl) }

task_rounds-IsAfter_example :
    Returns
      (IsAfter (children (start mode_spy (pos 5) 0).cpi))
      (task_rounds rounds (start mode_spy (pos 5) 0))
task_rounds-IsAfter_example =
    task_rounds-IsAfter rounds (start mode_spy (pos 5) 0)
      (
        arrival-IsArrival 0 quiet (omega arith) (omega arith),
        (
          arrival-IsArrival 1 quiet (omega arith) (omega arith),
          (
            arrival-IsArrival 1 hello (omega arith) (omega arith),
            (
              arrival-IsArrival 0 hello (omega arith) (omega arith),
              (arrival-IsArrival 1 quiet (omega arith) (omega arith), tt),
            ),
          ),
        ),
      )
      started-IsInst

printed : print_int (negsuc 2_147_483_647) ≡ codes "-2147483648"
unfolding print_int digits_of
printed = refl

by_name :
    (configure (codes "STRSPY") ≡ some mode_str)
    × (configure (codes "SPY") ≡ some mode_spy)
    × (configure (codes "spy") ≡ none)
unfolding configure
by_name = (refl, refl, refl)

kevs :
    (make_kev_from_ip (codes "N") (pos 12) ≡ some (codes "N=12"))
    × (make_kev_from_kvs (codes "K") (codes "v") ≡ codes "K=v")
unfolding make_kev_from_ip make_kev_from_kvs key_equals sprintf_into print_int digits_of
kevs = (refl, refl)
