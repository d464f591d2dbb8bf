-- ===== src/Inst/Message.antt =====
-- acq400_INST::task(): what a message of the child shows. ipc_buffer has 128 bytes.
use acq400_xrm.Prelude.{
  ℕ, ◌+◌, ◌<◌, ◌≡◌, refl, Option, none, some, List, [], ◌∷◌, ◌++◌, ◌>>=◌, ◌==◌, ltb, leb,
  if◌then◌else◌, arith, length, length-append, Option-cases, Bool-cases, inl, inr,
}
use acq400_xrm.Prelude.Deque.{NotIn, NotIn-join, pop_back}
use acq400_xrm.Prelude.Text.{Text, codes}
use acq400_xrm.Prelude.Returns.{Returns, Returns-bind}
use acq400_xrm.Driver.{Checked}

-- What strchr() finds: the text in front of the first b, and the text behind it.
unfoldable pub split_at : ℕ → Text → Text × Option Text
split_at b [] = ([], none)
split_at b (c ∷ s) = let r = split_at b s in if c == b then ([], some s) else (c ∷ r.0, r.1)

-- What read() left in the buffer with the NUL that is put in: in place of a newline at its end,
-- or else behind it; `none` is a write behind the buffer.
unfoldable pub terminate : List ℕ → Checked Text
terminate bytes = elim (pop_back bytes) [
  | none ↦ some []
  | some r ↦
      if leb (length bytes) 128
      then if r.1 == b'\n' then some (r.0) else if ltb (length bytes) 128 then some bytes else none
      else none
]

-- space == 0? "xx": space+1
unfoldable pub status_of : Option Text → Text
status_of none = codes "xx"
status_of (some status) = status

-- REDIS_MMKEY and REDIS_STATUS: a C string ends at its first NUL.
unfoldable pub take_message : List ℕ → Checked (Text × Text)
take_message bytes = do
  text ← terminate bytes
  let r = split_at b' ' (split_at 0 text).0
  some (r.0, status_of (r.1))

terminate-some :
    (bytes : List ℕ) → length bytes < 128 → Returns (λ (t : Text). Unit {0}) (terminate bytes)
unfolding terminate
terminate-some bytes h = elim (Option-cases (pop_back bytes)) [
  | inl e ↦ rw (e, terminate) (_, refl, tt)
  | inr (r, e) ↦ elim (Bool-cases (r.1 == b'\n')) [
    | inl n ↦ (r.0, ground arith, tt)
    | inr n ↦ (bytes, ground arith, tt)
  ]
]

-- A message that fits the buffer is always shown.
pub take_message-some :
    (bytes : List ℕ)
    → length bytes < 128
    → Returns (λ (r : Text × Text). Unit {0}) (take_message bytes)
unfolding take_message
take_message-some bytes h = Returns-bind (terminate-some bytes h) (λ t u. (_, refl, tt))

split_at-none : (b : ℕ) (s : Text) → NotIn b s → split_at b s ≡ (s, none)
unfolding split_at
split_at-none b [] h = refl
split_at-none b (c ∷ s) h = ground (arith, split_at-none b s h.1)

split_at-some : (b : ℕ) (s t : Text) → NotIn b s → split_at b (s ++ b ∷ t) ≡ (s, some t)
unfolding split_at
split_at-some b [] t h = ground arith
split_at-some b (c ∷ s) t h = ground (arith, split_at-some b s t h.1)

pop_back-snoc : (s : Text) (b : ℕ) → pop_back (s ++ b ∷ []) ≡ some (s, b)
unfolding pop_back
pop_back-snoc [] b = refl
pop_back-snoc (x ∷ []) b = refl
pop_back-snoc (x ∷ y ∷ s) b = ground (arith, pop_back-snoc (y ∷ s) b)

terminate_line : (s : Text) → length s < 128 → terminate (s ++ b'\n' ∷ []) ≡ some s
unfolding terminate
terminate_line s h = ground (arith, pop_back-snoc s b'\n', length-append s (b'\n' ∷ []))

-- A line that the child sends and that is shorter than the buffer is read back: the key in
-- front of the first space and the status behind it, which may hold spaces; where there is no
-- space, the whole line as the key and the status xx.
pub take_message_line :
    (key status : Text)
    → NotIn 0 key
    → NotIn 0 status
    → NotIn b' ' key
    → length key + length status < 127
    → (take_message ((key ++ b' ' ∷ status) ++ b'\n' ∷ []) ≡ some (key, status))
      × (take_message (key ++ b'\n' ∷ []) ≡ some (key, codes "xx"))
unfolding take_message status_of
take_message_line key status k s n h = (
  simp (
    terminate_line (key ++ b' ' ∷ status) (omega (arith, length-append key (b' ' ∷ status))),
    split_at-none 0 (key ++ b' ' ∷ status)
        (NotIn-join 0 key (b' ' ∷ status) k ((λ e. absurd cc), s)),
    split_at-some b' ' key status n,
  ),
  simp (terminate_line key (omega arith), split_at-none 0 key k, split_at-none b' ' key n),
)
