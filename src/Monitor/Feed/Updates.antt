-- ===== src/Monitor/Feed/Updates.antt =====
-- Which of the lines that arrive the monitor shows.
use acq400_xrm.Prelude.{
  zero, suc, Bool, true, false, Option, none, some, List, [], ◌∷◌, if◌then◌else◌, take, drop,
  length, ◌==◌, ◌++◌, ◌>>=◌,
}
use acq400_xrm.Prelude.Int.{ℤ, pos, negsuc}
use acq400_xrm.Prelude.Text.{Text}

-- The number of updates that -U asks for; without it, or with 0, no bound.
abbrev pub wanted : {A : Type 0} → ℤ → List A → List A
wanted (pos zero) cs = cs
wanted (pos (suc n)) cs = take (suc n) cs
wanted (negsuc n) cs = take 1 cs

abbrev add_cursor : Option Text → List Text → List Text
add_cursor none cs = cs
add_cursor (some c) cs = c ∷ cs

abbrev pub same : Text → Text → Bool
same [] [] = true
same [] (c ∷ t) = false
same (b ∷ s) [] = false
same (b ∷ s) (c ∷ t) = if b == c then same s t else false

-- The text behind the first place at which the needle stands.
abbrev pub cursor_in : Text → Text → Option Text
cursor_in needle [] = if same needle [] then some [] else none
cursor_in needle (c ∷ s) =
    if same needle (take (length needle) (c ∷ s))
    then some (drop (length needle) (c ∷ s))
    else cursor_in needle s

abbrev found_else : Option Text → Option Text → Option Text
found_else o later = elim o [ none ↦ later | some r ↦ some r ]

-- The texts behind the needle, in the lines that have it.
unfoldable pub cursors : Text → List Text → List Text
cursors needle [] = []
cursors needle (line ∷ lines) = add_cursor (cursor_in needle line) (cursors needle lines)

module _ {R : Type 0} (handle : Text → Option (List R)) (needle : Text) where
  -- All that is shown of such texts, in order; none where one of them fails.
  unfoldable pub each : List Text → Option (List R)
  each [] = some []
  each (c ∷ cs) = do shown ← handle c; later ← each cs; some (shown ++ later)
