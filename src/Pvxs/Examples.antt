-- ===== src/Pvxs/Examples.antt =====
-- A line of pvxmonitor, for pvxsWrapper.cpp.
use acq400_xrm.Prelude.{◌≡◌, refl, true, some, List, [], ◌∷◌, arith, if◌then◌else◌}
use acq400_xrm.Prelude.Int.{ℤ, pos, negsuc}
use acq400_xrm.Prelude.Text.{Text, codes, eqb, leading_value}
use acq400_xrm.Pvxs.{
  parse_value, read_values, scan_count, scan_unsigned, value_text, cut_at, find, behind, pvx_get,
}
use acq400_xrm.Pvxs.Laws.{array_text, parse_value-array}

-- split2() on the one text that it is asked about here.
abbrev split2 : Text → List ℤ
split2 t = if eqb t (codes "5, -6") then pos 5 ∷ negsuc 5 ∷ [] else []

parse_value-array_example :
    parse_value split2 (array_text 2 (codes "5, -6") (codes "\n")) ≡ some (pos 5 ∷ negsuc 5 ∷ [])
parse_value-array_example =
    parse_value-array split2 (codes "5, -6") (codes "\n") (pos 5 ∷ negsuc 5 ∷ []) refl
      (ground arith) (omega arith)

abbrev needle : Text
needle = codes "value int32_t[] = "

-- The first value counts, or the first behind the first line.
first_value :
    pvx_get split2 needle true
      (codes "x value int32_t[] = {9}[]" ∷ codes "y" ∷ codes "z value int32_t[] = {2}[5, -6]" ∷ [])
    ≡ some (pos 5 ∷ negsuc 5 ∷ [])
unfolding pvx_get find behind parse_value read_values scan_count scan_unsigned value_text cut_at
    leading_value
first_value = refl
