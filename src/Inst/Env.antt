-- ===== src/Inst/Env.antt =====
-- acq400_INST.cpp: class EnvBuilder. A char** is an array of texts, where `none` is a null
-- pointer; what `new char*[]` finds in memory, and the environment that is copied, are
-- arguments. A walk to the null pointer takes fuel for the entries.
pub mod Laws
use acq400_xrm.Prelude.{
  ℕ, zero, suc, ◌+◌, ◌-◌, Option, none, some, List, [], ◌∷◌, ◌>>=◌, ltb, if◌then◌else◌,
}
use acq400_xrm.Prelude.Memory.{Mem, update, read_words}
use acq400_xrm.Prelude.Text.{Text}
use acq400_xrm.Driver.{Checked}

abbrev pub Pointers : Type 0
Pointers = Mem (Option Text)

pub record EnvBuilder : Type 0 where
  pub new_start : ℕ
  pub max_elements : ℕ
  pub new_cursor : ℕ
  pub env : Pointers

-- env_count() of an environment that is not null, from entry ii on.
unfoldable pub env_count : ℕ → Pointers → ℕ → Option ℕ
env_count zero envp ii = none
env_count (suc fuel) envp ii = elim (envp ii) [
  | none ↦ some ii
  | some entry ↦ env_count fuel envp (ii + 1)
]

-- new_env[ii] = p in an array of `size` pointers; `none` is a write behind it.
unfoldable pub put : ℕ → Pointers → ℕ → Option Text → Checked Pointers
put size new_env ii p = if ltb ii size then some (update new_env ii p) else none

-- copy_env() from entry ii on: the new array, and the number of entries.
unfoldable pub copy_env : ℕ → ℕ → Pointers → Pointers → ℕ → Checked (Pointers × ℕ)
copy_env zero size new_env old_env ii = none
copy_env (suc fuel) size new_env old_env ii = elim (old_env ii) [
  | none ↦ some (new_env, ii)
  | some entry ↦ put size new_env ii (some entry) >>= λ e. copy_env fuel size e old_env (ii + 1)
]

-- The constructor; `none` is the null pointer that it has by default.
unfoldable pub new_builder : ℕ → ℕ → Option Pointers → Pointers → Checked EnvBuilder
new_builder fuel max_new none heap =
    some (record { new_start = 0; max_elements = max_new + 1; new_cursor = 0; env = heap })
new_builder fuel max_new (some copy_this) heap = do
  n ← env_count fuel copy_this 0
  r ← copy_env fuel (max_new + 1 + n) heap copy_this 0
  some (record { new_start = n; max_elements = max_new + 1 + n; new_cursor = n; env = r.0 })

-- add(kev), with its assert.
unfoldable pub add : Text → EnvBuilder → Checked EnvBuilder
add kev b =
    let added = (do
      e ← put b.max_elements b.env b.new_cursor (some kev)
      t ← put b.max_elements e (b.new_cursor + 1) none
      some (record b { new_cursor = b.new_cursor + 1; env = t })) in
    if ltb (b.new_cursor + 1) b.max_elements then added else none

-- What the destructor deletes, apart from the array.
unfoldable pub deleted : EnvBuilder → List (Option Text)
deleted b = read_words b.env b.new_start (b.new_cursor - b.new_start)

-- add(kev) of texts that are made in turn.
unfoldable pub add_each : List (Checked Text) → EnvBuilder → Checked EnvBuilder
add_each [] b = some b
add_each (made ∷ later) b = do kev ← made; next ← add kev b; add_each later next
