-- ===== src/Pvxs/Laws.antt =====
-- What is printed as an array is read as that array.
use acq400_xrm.Prelude.{
  ℕ, ◌^◌, ◌<◌, ◌≡◌, ◌≢◌, refl, sym, ap, ◌∙◌, true, false, none, some, List, [], ◌∷◌, ◌++◌, arith,
  length, length-append,
}
use mathlib.Core.List.{append_assoc}
use acq400_xrm.Prelude.Deque.{NotIn, NotIn-join}
use acq400_xrm.Prelude.Text.{
  Text, digits_of, digits_of-head, digits_of-NotIn, leading_value-print, is_digit, leading_value,
}
use acq400_xrm.Pvxs.{
  cut_at, scan_unsigned, scan_count, value_text, read_values, parse_value, make_pv_name,
}

-- {n}
abbrev count_text : ℕ → Text
count_text n = b'{' ∷ (digits_of 10 n [] ++ b'}' ∷ [])

-- {n}[t] and what follows on the line.
abbrev pub array_text : ℕ → Text → Text → Text
array_text n t tail = count_text n ++ b'[' ∷ (t ++ b']' ∷ tail)

pub cut_at-NotIn : (b : ℕ) (s t : Text) → NotIn b s → cut_at b (s ++ b ∷ t) ≡ some (s, t)
unfolding cut_at
cut_at-NotIn b [] t h = ground arith
cut_at-NotIn b (c ∷ s) t h = ground (arith, cut_at-NotIn b s t h.1)

scan_unsigned-digit :
    (c : ℕ) (s : Text) → is_digit c ≡ true → scan_unsigned (c ∷ s) ≡ some (leading_value 0 (c ∷ s))
unfolding scan_unsigned
scan_unsigned-digit c s h = rw h refl

scan_count-array : (n : ℕ) (t tail : Text) → n < 2 ^ 32 → scan_count (array_text n t tail) ≡ some n
unfolding scan_count
scan_count-array n t tail h =
    let rest : Text = b'}' ∷ b'[' ∷ (t ++ b']' ∷ tail) in
    let d = digits_of-head 9 n [] in
    let e : (digits_of 10 n [] ++ b'}' ∷ []) ++ b'[' ∷ (t ++ b']' ∷ tail) ≡ d.0 ∷ (d.1 ++ rest) =
      append_assoc (digits_of 10 n []) (b'}' ∷ []) (b'[' ∷ (t ++ b']' ∷ tail))
      ∙ ap (λ s. s ++ rest) d.2 in
    ap scan_unsigned e
    ∙ scan_unsigned-digit d.0 (d.1 ++ rest) d.3
    ∙ ap (λ s. some (leading_value 0 (s ++ rest))) (sym d.2)
    ∙ ap some (leading_value-print n rest (omega arith) refl)

count_text-NotIn : (b n : ℕ) → is_digit b ≡ false → b ≢ b'{' → b ≢ b'}' → NotIn b (count_text n)
count_text-NotIn b n h p q =
    (p, NotIn-join b (digits_of 10 n []) (b'}' ∷ []) (digits_of-NotIn b 10 n [] h tt) (q, tt))

value_text-array :
    (n : ℕ) (t tail : Text) → NotIn b']' t → value_text (array_text n t tail) ≡ some t
unfolding value_text
value_text-array n t tail h =
    let no_open = count_text-NotIn b'[' n refl (λ e. omega arith) (λ e. omega arith) in
    let no_close = count_text-NotIn b']' n refl (λ e. omega arith) (λ e. omega arith) in
    let before : NotIn b']' (count_text n ++ b'[' ∷ t) =
      NotIn-join b']' (count_text n) (b'[' ∷ t) no_close ((λ e. omega arith), h) in
    let split : array_text n t tail ≡ (count_text n ++ b'[' ∷ t) ++ b']' ∷ tail =
      sym (append_assoc (count_text n) (b'[' ∷ t) (b']' ∷ tail)) in
    let start = cut_at-NotIn b'[' (count_text n) (t ++ b']' ∷ tail) no_open in
    let end : cut_at b']' (array_text n t tail) ≡ some (count_text n ++ b'[' ∷ t, tail) =
      ap (cut_at b']') split ∙ cut_at-NotIn b']' (count_text n ++ b'[' ∷ t) tail before in
    simp (start, end, cut_at-NotIn b'[' (count_text n) t no_open)

-- An array that is printed with its count, and whose text split2() reads as its values, is read
-- back as these values, whatever follows on the line.
pub parse_value-array :
    {V : Type 0} (split2 : Text → List V) (t tail : Text) (values : List V)
    → split2 t ≡ values
    → NotIn b']' t
    → length values < 2 ^ 32
    → parse_value split2 (array_text (length values) t tail) ≡ some values
unfolding parse_value read_values
parse_value-array split2 t tail values e h k =
    simp (scan_count-array (length values) t tail k, value_text-array (length values) t tail h, e)
      (ground arith)

-- The array of make_pv_name() is always one byte short.
pub make_pv_name_short : (hostname pv_suffix : Text) → make_pv_name hostname pv_suffix ≡ none
unfolding make_pv_name
make_pv_name_short hostname pv_suffix = ground (arith, length-append hostname pv_suffix)
