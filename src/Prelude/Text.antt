-- ===== src/Prelude/Text.antt =====
-- C strings as lists of bytes without the NUL, and `%d` of printf.
use Prim.Native.Char.{code}
use Prim.Native.String.{String}
use acq400_xrm.Prelude.{
  ℕ, zero, suc, ◌+◌, ◌-◌, ◌*◌, ◌/◌, ◌%◌, ◌^◌, ◌≤◌, ◌<◌, ◌≡◌, Bool, true, false, ◌&&◌, ◌||◌, leb,
  List, [], ◌∷◌, arith, ltb, Bool-cases, inl, inr, ◌++◌, refl, ap, sym, ◌∙◌, ◌==◌, if◌then◌else◌,
  length,
}
use native.Mathlib.Nat.{pow-suc}
use acq400_xrm.Prelude.Deque.{NotIn}
use acq400_xrm.Prelude.Int.{ℤ, pos, negsuc, ◌-ℤ◌, Fits32}

abbrev pub Text : Type 0
Text = List ℕ

abbrev pub codes : String → Text
codes String.[] = []
codes (String.◌∷◌ c s) = code c ∷ codes s

-- strcmp() == 0
abbrev pub eqb : Text → Text → Bool
eqb [] [] = true
eqb [] (d ∷ t) = false
eqb (c ∷ s) [] = false
eqb (c ∷ s) (d ∷ t) = c == d && eqb s t

-- The decimal digits of n in front of a text, with fuel for as many digits.
unfoldable pub digits_of : ℕ → ℕ → Text → Text
digits_of zero n out = out
digits_of (suc f) n out =
    let rest = digits_of f (n / 10) ((b'0' + n % 10) ∷ out) in
    if ltb n 10 then (b'0' + n) ∷ out else rest

-- `%d`: ten digits are enough for an int.
unfoldable pub print_int : ℤ → Text
print_int (pos n) = digits_of 10 n []
print_int (negsuc n) = b'-' ∷ digits_of 10 (suc n) []

pub length-digits_of : (f n : ℕ) (out : Text) → length (digits_of f n out) ≤ f + length out
unfolding digits_of
length-digits_of zero n out = omega arith
length-digits_of (suc f) n out = ground (arith, length-digits_of f (n / 10) ((b'0' + n % 10) ∷ out))

pub length-print_int : (z : ℤ) → length (print_int z) ≤ 11
unfolding print_int
length-print_int (pos n) = omega (arith, length-digits_of 10 n [])
length-print_int (negsuc n) = omega (arith, length-digits_of 10 (suc n) [])

-- strstr() != 0 for one character.
abbrev pub has : ℕ → Text → Bool
has b [] = false
has b (c ∷ s) = c == b || has b s

-- isspace() in the C locale.
abbrev pub is_space : ℕ → Bool
is_space c = c == 32 || (leb 9 c && leb c 13)

abbrev pub is_digit : ℕ → Bool
is_digit c = leb b'0' c && leb c b'9'

-- The number that the digits in front of a text mean, behind n.
unfoldable pub leading_value : ℕ → Text → ℕ
leading_value n [] = n
leading_value n (c ∷ s) =
    let rest = leading_value (n * 10 + (c - b'0')) s in if is_digit c then rest else n

unfoldable pub skip_spaces : Text → Text
skip_spaces [] = []
skip_spaces (c ∷ s) = let rest = skip_spaces s in if is_space c then rest else c ∷ s

-- The sign and the digits.
unfoldable pub signed_value : Text → ℤ
signed_value [] = pos 0
signed_value (c ∷ s) =
    if c == b'-'
    then pos 0 -ℤ pos (leading_value 0 s)
    else pos (leading_value 0 (if c == b'+' then s else c ∷ s))

-- atoi(), where the value is that of an int.
unfoldable pub atoi : Text → ℤ
atoi s = signed_value (skip_spaces s)

leading_value-digits_of :
    (f n : ℕ) (out : Text) → n < 10 ^ f → leading_value 0 (digits_of f n out) ≡ leading_value n out
unfolding digits_of leading_value
leading_value-digits_of zero n out h = ground arith
leading_value-digits_of (suc f) n out h = ground (
  arith,
  pow-suc 10 f,
  leading_value-digits_of f (n / 10) ((b'0' + n % 10) ∷ out) (omega (arith, pow-suc 10 f)),
)

pub digits_of-head :
    (f n : ℕ) (out : Text)
    → (c : ℕ) × (s : Text) × (digits_of (suc f) n out ≡ c ∷ s) × (is_digit c ≡ true)
unfolding digits_of
digits_of-head zero n out = elim (Bool-cases (ltb n 10)) [
  | inl e ↦ (b'0' + n, out, ground arith, ground arith)
  | inr e ↦ (b'0' + n % 10, out, ground arith, ground arith)
]
digits_of-head (suc f) n out = elim (Bool-cases (ltb n 10)) [
  | inl e ↦ (b'0' + n, out, ground arith, ground arith)
  | inr e ↦
      let r = digits_of-head f (n / 10) ((b'0' + n % 10) ∷ out) in
      (r.0, r.1, rw (e, digits_of) r.2, r.3)
]

-- A text that begins with a digit has no spaces and no sign in front.
atoi_digits : (c : ℕ) (s : Text) → is_digit c ≡ true → atoi (c ∷ s) ≡ pos (leading_value 0 (c ∷ s))
unfolding atoi skip_spaces signed_value
atoi_digits c s h = ground arith

atoi_minus : (s : Text) → atoi (b'-' ∷ s) ≡ pos 0 -ℤ pos (leading_value 0 s)
unfolding atoi skip_spaces signed_value
atoi_minus s = refl

negative : (n : ℕ) → pos 0 -ℤ pos (suc n) ≡ negsuc n
unfolding ◌-ℤ◌
negative n = ground arith

digits_of-append :
    (f n : ℕ) (out rest : Text) → digits_of f n out ++ rest ≡ digits_of f n (out ++ rest)
unfolding digits_of
digits_of-append zero n out rest = refl
digits_of-append (suc f) n out rest =
    ground (arith, digits_of-append f (n / 10) ((b'0' + n % 10) ∷ out) rest)

-- No digit comes first.
abbrev pub Stops : Text → Type 0
Stops [] = Unit {0}
Stops (c ∷ s) = is_digit c ≡ false

leading_value-Stops : (n : ℕ) (s : Text) → Stops s → leading_value n s ≡ n
unfolding leading_value
leading_value-Stops n [] h = refl
leading_value-Stops n (c ∷ s) h = rw h refl

pub leading_value-print :
    (n : ℕ) (rest : Text)
    → n < 10 ^ 10
    → Stops rest
    → leading_value 0 (digits_of 10 n [] ++ rest) ≡ n
leading_value-print n rest h k =
    ap (leading_value 0) (digits_of-append 10 n [] rest)
    ∙ leading_value-digits_of 10 n rest h
    ∙ leading_value-Stops n rest k

-- Every int is read back from its decimal print, whatever follows that is no digit.
pub atoi-print_int : (z : ℤ) (rest : Text) → Fits32 z → Stops rest → atoi (print_int z ++ rest) ≡ z
unfolding print_int
atoi-print_int (pos n) rest h k =
    let d = digits_of-head 9 n [] in
    let t : digits_of 10 n [] ++ rest ≡ d.0 ∷ (d.1 ++ rest) = ap (λ t. t ++ rest) d.2 in
    ap atoi t
    ∙ atoi_digits d.0 (d.1 ++ rest) d.3
    ∙ ap (λ t. pos (leading_value 0 t)) (sym t)
    ∙ ap pos (leading_value-print n rest (omega arith) k)
atoi-print_int (negsuc n) rest h k =
    atoi_minus (digits_of 10 (suc n) [] ++ rest)
    ∙ ap (λ m. pos 0 -ℤ pos m) (leading_value-print (suc n) rest (omega arith) k)
    ∙ negative n

pub digits_of-NotIn :
    (b f n : ℕ) (out : Text) → is_digit b ≡ false → NotIn b out → NotIn b (digits_of f n out)
unfolding digits_of
digits_of-NotIn b zero n out h k = k
digits_of-NotIn b (suc f) n out h k = elim (Bool-cases (ltb n 10)) [
  | inl e ↦ rw (e, digits_of) (((λ q. ground arith), k))
  | inr e ↦
      rw (e, digits_of)
        (digits_of-NotIn b f (n / 10) ((b'0' + n % 10) ∷ out) h ((λ q. ground arith), k))
]
