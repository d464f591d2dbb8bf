-- ===== src/Driver/Access.antt =====
-- The checked accesses to the parameter library beside gip() and sip(), and csv2int(). What the
-- library answers, and split2(), are arguments.
use acq400_xrm.Prelude.{
  ℕ, suc, ◌^◌, ◌≡◌, refl, sym, ap, ◌∙◌, arith, Bool, true, false, ◌||◌, ◌&&◌, Option, none, some,
  List, [], ◌∷◌, map, ◌>>=◌, ltb, leb, ◌==◌, if◌then◌else◌,
}
use mathlib.Core.List.{append-nil}
use acq400_xrm.Prelude.Int.{ℤ, pos, negsuc, pos_part, neg_part, of_bits, Fits32}
use acq400_xrm.Prelude.Text.{
  Text, is_digit, skip_spaces, signed_value, print_int, atoi, atoi-print_int, digits_of-head,
}
use acq400_xrm.Driver.{Status, is_success, Checked, Param, Effect, sip}

-- The value of a parameter of another type than int.
pub data Value (D : Type 0) : Type 0 where
  int64 : ℤ → Value D
  double : D → Value D
  octet : Text → Value D

-- assert(status == 0) behind a call that sets a value.
unfoldable pub set_checked :
    {D : Type 0} → Status → ℕ → Param → Value D → Checked (ℕ × Param × Value D)
set_checked status addr pnum value = if is_success status then some (addr, pnum, value) else none

-- sip() of an unsigned, which the library takes as an int.
unfoldable pub sip_unsigned : Status → ℕ → Param → ℕ → Checked Effect
sip_unsigned status addr pnum pram = sip status addr pnum (of_bits 32 pram)

-- sip() of an epicsInt64 and of a double, and ssp(), at address 0.
unfoldable pub sip_int64 : {D : Type 0} → Status → ℕ → Param → ℤ → Checked (ℕ × Param × Value D)
sip_int64 status addr pnum pram = set_checked status addr pnum (int64 pram)

unfoldable pub sip_double : {D : Type 0} → Status → ℕ → Param → D → Checked (ℕ × Param × Value D)
sip_double status addr pnum value = set_checked status addr pnum (double value)

unfoldable pub ssp : {D : Type 0} → Status → Param → Text → Checked (ℕ × Param × Value D)
ssp status pnum str = set_checked status 0 pnum (octet str)

abbrev begins_with_digit : Text → Bool
begins_with_digit [] = false
begins_with_digit (c ∷ s) = is_digit c

abbrev has_number : Text → Bool
has_number [] = false
has_number (c ∷ s) = is_digit c || ((c == b'-' || c == b'+') && begins_with_digit s)

abbrev fits_int : ℤ → Bool
fits_int z = ltb (pos_part z) (2 ^ 31) && leb (neg_part z) (2 ^ 31)

-- stoi(): `none` is an exception, invalid_argument or out_of_range.
unfoldable pub stoi : Text → Option ℤ
stoi s =
    let t = skip_spaces s in
    let z = signed_value t in if has_number t && fits_int z then some z else none

unfoldable pub stoi_each : List Text → Option (List ℤ)
stoi_each [] = some []
stoi_each (s ∷ strings) = do i ← stoi s; vi ← stoi_each strings; some (i ∷ vi)

unfoldable pub csv2int : (Text → ℕ → List Text) → Text → Option (List ℤ)
csv2int split2 csv = stoi_each (split2 csv b',')

stoi-some :
    (s : Text) (z : ℤ) → has_number (skip_spaces s) ≡ true → atoi s ≡ z → Fits32 z → stoi s ≡ some z
unfolding stoi atoi
stoi-some s z h e f = ground arith

print_int-has_number : (z : ℤ) → has_number (skip_spaces (print_int z)) ≡ true
unfolding print_int skip_spaces
print_int-has_number (pos n) = let d = digits_of-head 9 n [] in rw (d.2) (ground arith)
print_int-has_number (negsuc n) = let d = digits_of-head 9 (suc n) [] in rw (d.2) (ground arith)

stoi-print_int : (z : ℤ) → Fits32 z → stoi (print_int z) ≡ some z
stoi-print_int z f =
    stoi-some (print_int z) z (print_int-has_number z)
      (ap atoi (sym (append-nil (print_int z))) ∙ atoi-print_int z [] f tt) f

abbrev pub AllFit : List ℤ → Type 0
AllFit [] = Unit {0}
AllFit (z ∷ zs) = Fits32 z × AllFit zs

stoi_each-print_int : (zs : List ℤ) → AllFit zs → stoi_each (map print_int zs) ≡ some zs
unfolding stoi_each
stoi_each-print_int [] f = refl
stoi_each-print_int (z ∷ zs) f = rw (stoi-print_int z (f.0), stoi_each-print_int zs (f.1)) refl

-- Where split2() splits a text into the prints of ints, csv2int() gives these ints.
pub csv2int-print_int :
    (split2 : Text → ℕ → List Text) (csv : Text) (zs : List ℤ)
    → AllFit zs
    → split2 csv b',' ≡ map print_int zs
    → csv2int split2 csv ≡ some zs
unfolding csv2int
csv2int-print_int split2 csv zs f e = ap stoi_each e ∙ stoi_each-print_int zs f
