-- ===== src/Inst/Launch.antt =====
-- acq400_INST::run_socket_fork_exec(), up to the call of socket_fork_exec().
use acq400_xrm.Prelude.{
  ℕ, ◌+◌, ◌<◌, ◌≤◌, ◌≡◌, ◌≢◌, refl, Option, none, some, List, [], ◌∷◌, ◌++◌, ◌>>=◌, length, take,
  map, arith,
}
use acq400_xrm.Prelude.Int.{of_bits}
use acq400_xrm.Prelude.Returns.{Returns, Returns-bind}
use acq400_xrm.Prelude.Text.{Text, codes, print_int}
use acq400_xrm.Driver.{Checked}
use acq400_xrm.SamplePrams.{SamplePrams}
use acq400_xrm.Inst.{
  TextParam, p_redis_host, p_redis_port, p_redis_mkey, p_acq_port, p_stream_subset_mask,
  getenv_default, key_equals, make_kev_from_sp, make_kev_from_kvi, make_kev_from_sp-some,
  make_kev_from_kvi-some,
}
use acq400_xrm.Inst.Env.{Pointers, new_builder, add, add_each, deleted}
use acq400_xrm.Inst.Env.Laws.{
  IsEnv, new_builder-IsBuilder, new_builder-null, add-IsBuilder, add_each-IsBuilder,
  deleted-IsBuilder, IsBuilder-IsEnv,
}

-- The process that the driver runs in: getenv() and basename() of the C library, the
-- environment with a bound on its entries, and what the two arrays find in memory.
pub record Machine : Type 0 where
  pub port_name : Text
  pub getenv : Text → Option Text
  pub base_name : Text → Text
  pub environ : Pointers
  pub fuel : ℕ
  pub argv_heap : Pointers
  pub env_heap : Pointers

-- What socket_fork_exec() gets, and the texts that the destructors delete behind it.
pub record Launch : Type 0 where
  pub cmd : Text
  pub argv : Pointers
  pub envp : Pointers
  pub argv_deleted : List (Option Text)
  pub env_deleted : List (Option Text)

-- FAKE_SPY
abbrev pub fake_spy : Text
fake_spy = codes "/usr/local/xrm/epics/scripts/inst-spy-fake"

-- snprintf(key, 80, "%s_cmd", portName), and the command of that name.
unfoldable pub find_cmd : Machine → Text
find_cmd m =
    let key = take 79 (m.port_name ++ codes "_cmd") in getenv_default (m.getenv key) fake_spy

-- The entries that are made for the child: `text_param` is what gsp() reads.
unfoldable pub made_entries : (TextParam → Text) → SamplePrams → List (Checked Text)
made_entries text_param sp =
    make_kev_from_sp (codes "REDIS_HOST") (text_param p_redis_host)
    ∷ make_kev_from_sp (codes "REDIS_PORT") (text_param p_redis_port)
    ∷ make_kev_from_sp (codes "REDIS_MKEY") (text_param p_redis_mkey)
    ∷ make_kev_from_sp (codes "ACQ_PORT") (text_param p_acq_port)
    ∷ make_kev_from_sp (codes "STREAM_SUBSET_MASK") (text_param p_stream_subset_mask)
    ∷ make_kev_from_kvi (codes "REDIS_SSB") (of_bits 32 sp.ssb)
    ∷ make_kev_from_kvi (codes "REDIS_NSAM") (of_bits 32 sp.nsam)
    ∷ make_kev_from_kvi (codes "REDIS_SPIX") (of_bits 32 sp.sp_index)
    ∷ []

unfoldable pub prepare_launch : Machine → (TextParam → Text) → SamplePrams → Checked Launch
prepare_launch m text_param sp = do
  let cmd = find_cmd m
  empty_argv ← new_builder m.fuel 2 none m.argv_heap
  argv_builder ← add (m.base_name cmd) empty_argv
  copied ← new_builder m.fuel 10 (some m.environ) m.env_heap
  env_builder ← add_each (made_entries text_param sp) copied
  some (record {
    cmd = cmd;
    argv = argv_builder.env;
    envp = env_builder.env;
    argv_deleted = deleted argv_builder;
    env_deleted = deleted env_builder;
  })

-- The eight settings as the child is to see them.
unfoldable pub settings : (TextParam → Text) → SamplePrams → List Text
settings text_param sp =
    key_equals (codes "REDIS_HOST") (text_param p_redis_host)
    ∷ key_equals (codes "REDIS_PORT") (text_param p_redis_port)
    ∷ key_equals (codes "REDIS_MKEY") (text_param p_redis_mkey)
    ∷ key_equals (codes "ACQ_PORT") (text_param p_acq_port)
    ∷ key_equals (codes "STREAM_SUBSET_MASK") (text_param p_stream_subset_mask)
    ∷ key_equals (codes "REDIS_SSB") (print_int (of_bits 32 sp.ssb))
    ∷ key_equals (codes "REDIS_NSAM") (print_int (of_bits 32 sp.nsam))
    ∷ key_equals (codes "REDIS_SPIX") (print_int (of_bits 32 sp.sp_index))
    ∷ []

made_entries-settings :
    (text_param : TextParam → Text) (sp : SamplePrams)
    → made_entries text_param sp ≡ map (λ e. some e) (settings text_param sp)
unfolding made_entries settings
made_entries-settings text_param sp = simp (make_kev_from_sp-some, make_kev_from_kvi-some)

eight :
    (text_param : TextParam → Text) (sp : SamplePrams)
    → length {A = Text} [] + length (settings text_param sp) ≤ 10
unfolding settings
eight text_param sp = omega arith

settings_some : (text_param : TextParam → Text) (sp : SamplePrams) → settings text_param sp ≢ []
unfolding settings
settings_some text_param sp e = absurd cc

-- The child is started on the command with one argument, and on the environment with the
-- settings behind it; what was made for it is deleted once, and nothing of the environment is.
pub record IsLaunch (m : Machine) (es news : List Text) (l : Launch) : Type 0 where
  pub command : l.cmd ≡ find_cmd m
  pub argument : IsEnv l.argv 0 (m.base_name (find_cmd m) ∷ [])
  pub environment : IsEnv l.envp 0 (es ++ news)
  pub deletes_argv : l.argv_deleted ≡ some (m.base_name (find_cmd m)) ∷ []
  pub deletes_env : l.env_deleted ≡ map (λ e. some e) news

-- Where the environment of the driver is an array of entries that a null pointer ends, shorter
-- than the fuel, the launch never fails: no assert, no write behind an array, no text too long
-- for its buffer; the child gets the command's base name as its only argument, and the entries of the
-- environment, in order, with the eight settings behind them, in arrays that a null pointer
-- ends; and what is deleted afterwards is each new text, once, and no entry of the environment.
pub prepare_launch-IsLaunch :
    (m : Machine) (text_param : TextParam → Text) (sp : SamplePrams) (es : List Text)
    → length es < m.fuel
    → IsEnv m.environ 0 es
    → Returns (IsLaunch m es (settings text_param sp)) (prepare_launch m text_param sp)
unfolding prepare_launch
prepare_launch-IsLaunch m text_param sp es h s =
    let arg = m.base_name (find_cmd m) in
    let news = settings text_param sp in
    Returns-bind (new_builder-null m.fuel 2 m.argv_heap) (λ empty_argv k0.
      Returns-bind (add-IsBuilder 2 [] [] arg empty_argv (omega arith) k0) (λ argv ka.
        Returns-bind (new_builder-IsBuilder m.fuel 10 m.environ m.env_heap es h s) (λ copied kc.
          rw (made_entries-settings text_param sp) (
            Returns-bind (add_each-IsBuilder 10 es [] news copied (eight text_param sp) kc)
              (λ env ke. (
                _,
                refl,
                record {
                  command = refl;
                  argument = IsBuilder-IsEnv 2 [] (arg ∷ []) argv (λ e. absurd cc) ka;
                  environment = IsBuilder-IsEnv 10 es news env (settings_some text_param sp) ke;
                  deletes_argv = deleted-IsBuilder 2 [] (arg ∷ []) argv ka;
                  deletes_env = deleted-IsBuilder 10 es news env ke;
                },
              ))))))
