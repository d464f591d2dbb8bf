-- ===== src/Pvxs.antt =====
-- xrmIocApp/src/pvxsWrapper.{h,cpp}: the value that pvxmonitor prints on a line, as
-- value int32_t[] = {N}[a, b, ...]. split2() is not part of the repository: it is an argument.
-- xrm_ht_monitor.cpp takes such lines apart in the same way.
pub mod Laws
pub mod Examples
use acq400_xrm.Prelude.{
  ℕ, ◌+◌, ◌≡◌, Bool, true, false, ◌&&◌, Option, none, some, List, [], ◌∷◌, ◌++◌, ◌>>=◌, ltb,
  if◌then◌else◌, ◌==◌, length, refl,
}
use acq400_xrm.Prelude.Text.{Text, codes, is_space, is_digit, leading_value}
use acq400_xrm.Driver.{Checked}

-- What strchr() finds: the texts in front of the first b and behind it.
unfoldable pub cut_at : ℕ → Text → Option (Text × Text)
cut_at b [] = none
cut_at b (c ∷ s) =
    let later = cut_at b s >>= λ r. some (c ∷ r.0, r.1) in if c == b then some ([], s) else later

-- "%u", of a number that has no sign and fits an unsigned.
unfoldable pub scan_unsigned : Text → Option ℕ
scan_unsigned [] = none
scan_unsigned (d ∷ t) =
    let later = scan_unsigned t in
    if is_digit d then some (leading_value 0 (d ∷ t)) else if is_space d then later else none

-- sscanf(txt, "{%u}", &nelems) == 1
unfoldable pub scan_count : Text → Option ℕ
scan_count [] = none
scan_count (c ∷ s) = if c == b'{' then scan_unsigned s else none

-- The text from behind the first '[' on, cut where the first ']' becomes a NUL.
unfoldable pub value_text : Text → Checked Text
value_text txt = do
  start ← cut_at b'[' txt
  end ← cut_at b']' txt
  some (elim (cut_at b'[' (end.0)) [ none ↦ start.1 | some r ↦ r.1 ])

-- strstr(): the text behind the first needle.
unfoldable pub behind : Text → Text → Option Text
behind [] s = some s
behind (b ∷ needle) [] = none
behind (b ∷ needle) (c ∷ s) = if b == c then behind needle s else none

unfoldable pub find : Text → Text → Option Text
find needle [] = behind needle []
find needle (c ∷ s) =
    let later = find needle s in elim (behind needle (c ∷ s)) [ none ↦ later | some r ↦ some r ]

-- make_pv_name(): `none` is a write behind the new array, which has no room for the NUL.
unfoldable pub make_pv_name : Text → Text → Checked Text
make_pv_name hostname pv_suffix =
    let text = hostname ++ pv_suffix in
    if ltb (length text) (length hostname + length pv_suffix) then some text else none

module _ {V : Type 0} (split2 : Text → List V) where
  -- What is left once the count has been read.
  unfoldable pub read_values : ℕ → Text → Checked (List V)
  read_values nelems txt = do
    text ← value_text txt
    if length (split2 text) == nelems then some (split2 text) else none

  -- PVX_getter::parse()
  unfoldable pub parse_value : Text → Checked (List V)
  parse_value txt = do nelems ← scan_count txt; read_values nelems txt

  -- PVX_getter::pvx_get(), from a line on; `skip` is lno == 0 && wait_first_change.
  unfoldable pub pvx_get : Text → Bool → List Text → Checked (List V)
  pvx_get needle skip [] = none
  pvx_get needle skip (line ∷ lines) =
      let later = pvx_get needle false lines in
      if skip
      then later
      else elim (find needle line) [ none ↦ later | some cursor ↦ parse_value cursor ]
