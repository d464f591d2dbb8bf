-- ===== src/Monitor/Feed.antt =====
-- xrm_ht_monitor.cpp: what main() makes of the lines that pvxmonitor prints, its options, and the
-- choice of the formatter.
pub mod Updates
use acq400_xrm.Prelude.{
  ℕ, zero, suc, ◌+◌, ◌-◌, ◌≤◌, ◌<◌, Bool, true, false, ◌&&◌, not, Option, none, some, List, [], ◌∷◌,
  ◌++◌, arith, ◌>>=◌, if◌then◌else◌, ◌==◌, leb, map,
}
use acq400_xrm.Prelude.Int.{ℤ, pos, to_bits, ltb_ℤ, eqb_ℤ}
use acq400_xrm.Prelude.Memory.{WordMem, write_words}
use acq400_xrm.Prelude.Text.{Text, codes, eqb}
use acq400_xrm.Monitor.{Entry, parse}
use acq400_xrm.Pvxs.{scan_count, read_values, find}

-- The formatters that instance(mode) makes.
pub data Format : Type 0 where
  json bin hint : Format

-- instance(mode); `none` is exit(1).
unfoldable pub format_of : Text → Option Format
format_of mode =
    if eqb mode (codes "json")
    then some json
    else if eqb mode (codes "bin")
    then some bin
    else if eqb mode (codes "hint")
    then some hint
    else none

-- The globals that ui() sets.
pub record Options : Type 0 where
  pub file_root : Option Text
  pub updates : ℤ
  pub format : Text
  pub wait_first_change : Bool
  pub egu : Bool

-- An option that getopt() gives, with its argument; `none` is one that ends the program: usage,
-- the structure test, and every option that has no case.
unfoldable pub set_option : (Text → ℤ) → ℕ → Text → Options → Option Options
set_option atol opt optarg o =
    if opt == b'f'
    then some (record o { file_root = some optarg })
    else if opt == b'U'
    then some (record o { updates = atol optarg })
    else if opt == b'F'
    then some (record o { format = optarg })
    else if opt == b'W'
    then some (record o { wait_first_change = true })
    else if opt == b'e'
    then some (record o { egu = true })
    else none

unfoldable pub set_options : (Text → ℤ) → List (ℕ × Text) → Options → Option Options
set_options atol [] o = some o
set_options atol (a ∷ later) o = do
  next ← set_option atol (a.0) (a.1) o
  set_options atol later next

-- ui(): the options, the host, which is the first argument behind them, and the formatter.
unfoldable pub ui :
    (Text → ℤ) → List (ℕ × Text) → List Text → Options → Option (Options × Text × Format)
ui atol opts [] o = set_options atol opts o >>= λ p. none
ui atol opts (host ∷ more) o = do
  p ← set_options atol opts o
  format ← format_of p.format
  some (p, host, format)

-- parse(txt), where parse(ht_data, nelems) is given: it does nothing where the count is not
-- found; `none` is a failed assert.
unfoldable pub parse_text :
    {R : Type 0} (split2 : Text → List ℤ) (show : List ℤ → Option R) → Text → Option (List R)
parse_text split2 show txt = elim (scan_count txt) [
  | none ↦ some []
  | some nelems ↦ read_values split2 nelems txt >>= λ values. show values >>= λ r. some (r ∷ [])
]

-- The array that parse(txt) fills, in memory that was `heap`.
unfoldable pub ht_data : WordMem → List ℤ → WordMem
ht_data heap values = write_words heap 0 (map (to_bits 32) values)

-- ++update >= G_updates && G_updates != 0
unfoldable pub is_last : ℤ → ℕ → Bool
is_last updates update = not (ltb_ℤ (pos update) updates) && not (eqb_ℤ updates (pos 0))

-- The tables that a line shows, and those behind it, where it is not the last.
unfoldable pub show_then : {R : Type 0} → Option (List R) → Bool → Option (List R) → Option (List R)
show_then shown last later =
    shown >>= λ rs. if last then some rs else (later >>= λ qs. some (rs ++ qs))

module _ {R : Type 0} (handle : Text → Option (List R)) (needle : Text) (updates : ℤ) where
  -- The body of the loop, on what strstr() finds, with what comes behind it.
  unfoldable pub monitor_line : Option Text → ℕ → (ℕ → Option (List R)) → Option (List R)
  monitor_line none update later = later update
  monitor_line (some cursor) update later =
      show_then (handle cursor) (is_last updates (update + 1)) (later (update + 1))

  -- The loop of main(), from a line on, with the updates done; `skip` is the first line of all,
  -- under -W.
  unfoldable pub monitor_lines : ℕ → Bool → List Text → Option (List R)
  monitor_lines update skip [] = some []
  monitor_lines update skip (line ∷ lines) =
      monitor_line (if skip then none else find needle line) update
        (λ n. monitor_lines n false lines)
