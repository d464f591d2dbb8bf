-- ===== src/Prelude/Memory.antt =====
-- Arrays and mapped memory as functions from an index, and the copies that the source makes
-- with `memcpy` and word loops.
use acq400_xrm.Prelude.{
  ℕ, zero, suc, ◌+◌, ◌≤◌, ◌<◌, ◌≡◌, refl, ap, ◌∙◌, List, [], ◌∷◌, ◌⊎◌, inl, ◌≢◌, arith, ◌==◌,
  if◌then◌else◌, length, get_or,
}

abbrev pub Mem {ℓ} : Type ℓ → Type ℓ
Mem A = ℕ → A

abbrev pub WordMem : Type 0
WordMem = ℕ → ℕ

module _ {ℓ} {A : Type ℓ} where
  -- m[i] = v
  unfoldable pub update : Mem A → ℕ → A → Mem A
  update m i v j = if j == i then v else m j

  pub update_self : (m : Mem A) (i : ℕ) (v : A) → update m i v i ≡ v
  unfolding update
  update_self m i v = ground arith

  pub update_ne : (m : Mem A) (i : ℕ) (v : A) (j : ℕ) → j ≢ i → update m i v j ≡ m j
  unfolding update
  update_ne m i v j h = ground arith

  -- memcpy(m + off, ws, ...)
  unfoldable pub write_words : Mem A → ℕ → List A → Mem A
  write_words m off [] = m
  write_words m off (w ∷ ws) = write_words (update m off w) (off + 1) ws

  -- The n items from m + off.
  unfoldable pub read_words : Mem A → ℕ → ℕ → List A
  read_words m off zero = []
  read_words m off (suc n) = m off ∷ read_words m (off + 1) n

  pub write_words_outside :
      (m : Mem A) (off : ℕ) (ws : List A) (j : ℕ)
      → (j < off) ⊎ (off + length ws ≤ j)
      → write_words m off ws j ≡ m j
  unfolding write_words
  write_words_outside m off [] j h = refl
  write_words_outside m off (w ∷ ws) j h = ground (
    arith,
    write_words_outside (update m off w) (off + 1) ws j (omega arith),
    update_ne m off w j (omega arith),
  )

  pub read_words-length : (m : Mem A) (off n : ℕ) → length (read_words m off n) ≡ n
  unfolding read_words
  read_words-length m off zero = refl
  read_words-length m off (suc n) = ap suc (read_words-length m (off + 1) n)

  pub read_words_agree :
      (m m' : Mem A) (off n : ℕ)
      → ((j : ℕ) → off ≤ j → j < off + n → m j ≡ m' j)
      → read_words m off n ≡ read_words m' off n
  unfolding read_words
  read_words_agree m m' off zero h = refl
  read_words_agree m m' off (suc n) h = ground (
    arith,
    h off (omega arith) (omega arith),
    read_words_agree m m' (off + 1) n (λ j p q. h j (omega arith) (omega arith)),
  )

  -- What is read back from where words were written.
  pub read_words-write_words :
      (m : Mem A) (off : ℕ) (ws : List A) → read_words (write_words m off ws) off (length ws) ≡ ws
  unfolding read_words write_words
  read_words-write_words m off [] = refl
  read_words-write_words m off (w ∷ ws) = ground (
    arith,
    write_words_outside (update m off w) (off + 1) ws off (inl (omega arith)),
    update_self m off w,
    read_words-write_words (update m off w) (off + 1) ws,
  )

  pub read_words-get :
      (m : Mem A) (off n j : ℕ) (d : A) → j < n → get_or (read_words m off n) j d ≡ m (off + j)
  unfolding read_words
  read_words-get m off zero j d h = absurd (omega arith)
  read_words-get m off (suc n) zero d h = ap m (omega arith)
  read_words-get m off (suc n) (suc j) d h =
      read_words-get m (off + 1) n j d (omega arith) ∙ ap m (omega arith)

  pub write_words-get :
      (m : Mem A) (off : ℕ) (ws : List A) (j : ℕ) (d : A)
      → j < length ws
      → write_words m off ws (off + j) ≡ get_or ws j d
  unfolding write_words
  write_words-get m off [] j d h = absurd (omega arith)
  write_words-get m off (w ∷ ws) zero d h =
      ap (write_words (update m off w) (off + 1) ws) (omega arith)
      ∙ write_words_outside (update m off w) (off + 1) ws off (inl (omega arith))
      ∙ update_self m off w
  write_words-get m off (w ∷ ws) (suc j) d h =
      ap (write_words (update m off w) (off + 1) ws) (omega arith)
      ∙ write_words-get (update m off w) (off + 1) ws j d (omega arith)

  -- A copy of n items, item by item.
  pub write_words-read_words :
      (m : Mem A) (off : ℕ) (src : Mem A) (from n j : ℕ)
      → j < n
      → write_words m off (read_words src from n) (off + j) ≡ src (from + j)
  write_words-read_words m off src from n j h =
      write_words-get m off (read_words src from n) j (src 0) (rw (read_words-length src from n) h)
      ∙ read_words-get src from n j (src 0) h

  -- Words elsewhere are not touched.
  pub read_words-write_words_apart :
      (m : Mem A) (off : ℕ) (ws : List A) (at n : ℕ)
      → (at + n ≤ off) ⊎ (off + length ws ≤ at)
      → read_words (write_words m off ws) at n ≡ read_words m at n
  read_words-write_words_apart m off ws at n h =
      read_words_agree (write_words m off ws) m at n
        (λ j p q. write_words_outside m off ws j (omega arith))
