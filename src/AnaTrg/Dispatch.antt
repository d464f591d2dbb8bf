-- ===== src/AnaTrg/Dispatch.antt =====
-- anatrg.cpp: the call of a command by its name, and the level that a text stands for.
use acq400_xrm.Prelude.{
  ℕ, zero, suc, ◌+◌, ◌-◌, ◌≤◌, ◌<◌, ◌≡◌, refl, Bool, true, false, ◌⊎◌, inl, inr, Option, none, some,
  List, [], ◌∷◌, ◌++◌, arith, ◌>>=◌, if◌then◌else◌, ap, ◌∙◌, lt_cases, Bool-cases,
}
use acq400_xrm.Prelude.Int.{ℤ, pos, negsuc, s32, ◌*ℤ◌, ◌/ℤ◌}
use acq400_xrm.Prelude.Memory.{WordMem, update, update_self, update_ne}
use acq400_xrm.Prelude.Text.{Text, codes, eqb, has, atoi, print_int, atoi-print_int}
use acq400_xrm.AnaTrg.{
  Command, none_command, rising, falling, inside, outside, threshold, commands, set_channel,
  set_channels, set_threshold, clp, saturate,
}

-- The name that each subclass gives to Command().
unfoldable pub key : Command → Text
key none_command = codes "none"
key rising = codes "rising"
key falling = codes "falling"
key inside = codes "inside"
key outside = codes "outside"

-- match(testkey)
unfoldable pub is_match : Command → Text → Bool
unfolding key
is_match command testkey = eqb (key command) testkey

-- The block, what operator() returns, and what it prints.
pub record Call : Type 0 where
  pub block : WordMem
  pub rc : ℤ
  pub printed : List Text

-- The four arguments of operator(), with the members and the global that it uses.
pub record Levels : Type 0 where
  pub p1 : ℤ
  pub p2 : ℤ
  pub hyst : ℤ
  pub channel : ℕ
  pub nchan : ℕ
  pub offset : ℕ

-- setThreshold(cursor(p1, p2, hyst)); return 0.
unfoldable pub run_command : Command → Levels → WordMem → Option Call
run_command c l block =
    set_threshold l.channel l.nchan l.offset block (threshold c l.p1 l.p2 l.hyst) >>= λ b.
    some (record { block = b; rc = pos 0; printed = [] })

-- The loop of operator() over the commands left.
unfoldable pub call_from : List Command → Text → Levels → WordMem → Option Call
call_from [] testkey l block = some (record { block = block; rc = negsuc 0; printed = [] })
call_from (c ∷ cs) testkey l block =
    let later = call_from cs testkey l block in
    let helped = later >>= λ r. some (record r { printed = key c ∷ r.printed }) in
    if eqb testkey (codes "help")
    then helped
    else if is_match c testkey
    then run_command c l block
    else later

unfoldable pub call : Text → Levels → WordMem → Option Call
call testkey l block = call_from commands testkey l block

-- getValue(): `none` is a null pointer.
unfoldable pub get_value : Option Text → ℤ
get_value none = negsuc 0
get_value (some str) = if has b'%' str then s32 (atoi str *ℤ pos 255) /ℤ pos 100 else atoi str

set_channel-some :
    (block : WordMem) (chan word : ℕ)
    → 0 < chan
    → set_channel block chan word ≡ some (update block (chan - 1) word)
unfolding set_channel
set_channel-some block zero word h = absurd (omega arith)
set_channel-some block (suc ch) word h = ap (λ j. some (update block j word)) (omega arith)

-- The words that setThreshold() writes for all channels.
set_channels_written :
    (left ic offset word : ℕ) (block : WordMem)
    → 0 < ic
    → (b : WordMem) × (set_channels left ic offset block word ≡ some b)
      × ((j : ℕ) → ic + offset ≤ suc j → suc j < ic + offset + left → b j ≡ word)
      × ((j : ℕ) → (suc j < ic + offset) ⊎ (ic + offset + left ≤ suc j) → b j ≡ block j)
unfolding set_channels
set_channels_written zero ic offset word block h =
    (block, refl, (λ j p q. absurd (omega arith)), (λ j p. refl))
set_channels_written (suc left) ic offset word block h =
    let r =
      set_channels_written left (ic + 1) offset word (update block (ic + offset - 1) word)
        (omega arith) in
    (
      r.0,
      rw (set_channel-some block (ic + offset) word (omega arith), set_channels) r.1,
      (λ j p q. elim (lt_cases (ic + offset) (suc j)) [
        | inl lt ↦ r.2 j (omega arith) (omega arith)
        | inr ge ↦
            let here : j ≡ ic + offset - 1 = omega arith in
            r.3 j (inl (omega arith))
            ∙ ap (update block (ic + offset - 1) word) here
            ∙ update_self block (ic + offset - 1) word
      ]),
      (λ j p. r.3 j (ground arith) ∙ update_ne block (ic + offset - 1) word j (ground arith)),
    )

call-key :
    (c : Command) (l : Levels) (block : WordMem) → call (key c) l block ≡ run_command c l block
unfolding call call_from key is_match commands
call-key none_command l block = refl
call-key rising l block = refl
call-key falling l block = refl
call-key inside l block = refl
call-key outside l block = refl

-- Any other name changes no word and returns -1.
pub call_unknown :
    (testkey : Text) (l : Levels) (block : WordMem)
    → ((c : Command) → eqb (key c) testkey ≡ false)
    → (r : Call) × (call testkey l block ≡ some r)
      × (r.rc ≡ negsuc 0)
      × ((j : ℕ) → r.block j ≡ block j)
unfolding call call_from is_match commands
call_unknown testkey l block h = elim (Bool-cases (eqb testkey (codes "help"))) [
  | inl e ↦ rw e (_, refl, refl, λ j. refl)
  | inr e ↦
      rw (e, h none_command, h rising, h falling, h inside, h outside) (_, refl, refl, λ j. refl)
]

has-append : (b : ℕ) (s : Text) → has b (s ++ b ∷ []) ≡ true
has-append b [] = ground arith
has-append b (c ∷ s) = ground (arith, has-append b s)

scaled : (n : ℕ) → 50 ≤ n → n ≤ 100 → clp (s32 (pos n *ℤ pos 255) /ℤ pos 100) ≡ 127
unfolding clp saturate s32 ◌*ℤ◌ ◌/ℤ◌
scaled n h k = ground arith

-- A level in percent of full scale is scaled to 255, and every level from 50 % on gives the same
-- byte, the largest.
pub get_value_percent :
    (n : ℕ) → 50 ≤ n → n ≤ 100 → clp (get_value (some (print_int (pos n) ++ b'%' ∷ []))) ≡ 127
unfolding get_value clp saturate
get_value_percent n h k =
    let text : Text = print_int (pos n) ++ b'%' ∷ [] in
    let read : atoi text ≡ pos n =
      atoi-print_int (pos n) (b'%' ∷ []) (omega arith, omega arith) (refl) in
    rw (has-append b'%' (print_int (pos n)), read) (scaled n h k)
