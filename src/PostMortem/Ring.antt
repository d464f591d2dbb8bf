-- ===== src/PostMortem/Ring.antt =====
-- The store as a ring of nbuf + 1 buffers that keeps the latest live buffers.
use mathlib.Core.List.{append-nil}
use acq400_xrm.Prelude.{
  ℕ, suc, ◌+◌, ◌*◌, ◌/◌, ◌%◌, ◌^◌, ◌≤◌, ◌<◌, ◌≡◌, refl, ap, ◌∙◌, some, List, [], ◌∷◌, ◌++◌, ◌⊎◌,
  inl, inr, length, map, take, arith, length-append, length-map,
}
use acq400_xrm.Prelude.Int.{ℤ, pos, s16}
use acq400_xrm.Prelude.Deque.{
  pop_back, pop_back_snoc, Distinct, Distinct-move, take_init, take_more,
}
use acq400_xrm.Prelude.Returns.{Returns}
use acq400_xrm.PostMortem.CopyArg.{s16_live, copy_arg_fields}
use acq400_xrm.SamplePrams.{SamplePrams}
use acq400_xrm.PostMortem.{
  BufferPair, Store, first, next_buffer, stash_buffer, PmEffect, copy_from_len, copy_arg,
}

abbrev pub stores : List BufferPair → List ℕ
stores bs = map (λ (b : BufferPair). b.ib_store) bs

abbrev pub lives : List BufferPair → List ℤ
lives bs = map (λ (b : BufferPair). b.ib_live) bs

-- The indices of store buffers between two bounds.
abbrev pub AllWithin : ℕ → ℕ → List ℕ → Type 0
AllWithin lo hi [] = Unit {0}
AllWithin lo hi (x ∷ xs) = (lo ≤ x) × (x < hi) × AllWithin lo hi xs

-- n store buffers from FIRST, each in one of the deques, once.
pub record IsStore (n : ℕ) (s : Store) : Type 0 where
  pub in_range : AllWithin first (first + n) (stores (s.filled ++ s.empties))
  pub once : Distinct (stores (s.filled ++ s.empties))
  pub count : length (s.filled ++ s.empties) ≡ n

AllWithin-move :
    (lo hi y : ℕ) (xs ys : List ℕ)
    → AllWithin lo hi (xs ++ y ∷ ys)
    → AllWithin lo hi (y ∷ (xs ++ ys))
AllWithin-move lo hi y [] ys h = h
AllWithin-move lo hi y (x ∷ xs) ys h =
    let rest = AllWithin-move lo hi y xs ys h.2 in (rest.0, rest.1, (h.0, h.1, rest.2))

stores-append : (xs ys : List BufferPair) → stores (xs ++ ys) ≡ stores xs ++ stores ys
stores-append [] ys = refl
stores-append (x ∷ xs) ys = ap (λ t. x.ib_store ∷ t) (stores-append xs ys)

lives-append : (xs ys : List BufferPair) → lives (xs ++ ys) ≡ lives xs ++ lives ys
lives-append [] ys = refl
lives-append (x ∷ xs) ys = ap (λ t. x.ib_live ∷ t) (lives-append xs ys)

-- What taking a buffer does, in both cases.
record Next (s d : Store) (b : BufferPair) : Type 0 where
  slots : s.filled ++ s.empties ≡ d.filled ++ b ∷ d.empties
  source :
      (s.filled ≡ d.filled)
      ⊎ ((s.filled ≡ d.filled ++ b ∷ []) × (s.empties ≡ []) × (d.empties ≡ []))

next_buffer-Next :
    (es fs : List BufferPair)
    → 0 < length (fs ++ es)
    → (d : Store) × (b : BufferPair) × (next_buffer (record { empties = es; filled = fs })
        ≡ some (d, b))
      × Next (record { empties = es; filled = fs }) d b
unfolding next_buffer pop_back
next_buffer-Next [] [] h = absurd (omega arith)
next_buffer-Next [] (f ∷ fs) h =
    let r = pop_back_snoc f fs in
    (
      record { empties = []; filled = r.0 },
      r.1,
      rw (next_buffer, r.2) refl,
      record { slots = append-nil (f ∷ fs) ∙ r.3; source = inr (r.3, refl, refl) },
    )
next_buffer-Next (e ∷ es) fs h =
    (record { empties = es; filled = fs }, e, refl, record { slots = refl; source = inl refl })

-- A buffer that is stashed is the first of the filled ones.
abbrev pub stashed : ℤ → Store → BufferPair → Store
stashed ib d b = record d { filled = (record b { ib_live = ib }) ∷ d.filled }

stashed-IsStore :
    (n : ℕ) (ib : ℤ) (s d : Store) (b : BufferPair)
    → Next s d b
    → IsStore n s
    → IsStore n (stashed ib d b)
stashed-IsStore n ib s d b t r =
    let st = b.ib_store in
    let all = ap stores (t.slots) ∙ stores-append d.filled (b ∷ d.empties) in
    let rest = stores-append d.filled d.empties in
    record {
      in_range = rw rest (
          AllWithin-move first (first + n) st (stores d.filled) (stores d.empties)
            (rw (← all) (r.in_range)));
      once = rw rest (Distinct-move st (stores d.filled) (stores d.empties) (rw (← all) (r.once)));
      count = omega (
        arith,
        r.count,
        ap (λ (l : List BufferPair). length l) (t.slots),
        length-append d.filled (b ∷ d.empties),
        length-append d.filled d.empties,
      );
    }

-- What is left behind the new one.
older :
    (n : ℕ) (s d : Store) (b : BufferPair) (history : List ℤ)
    → Next s d b
    → IsStore (suc n) s
    → lives s.filled ≡ take (suc n) history
    → lives d.filled ≡ take n history
older n s d b history t r e =
    let slots = ap (λ (l : List BufferPair). length l) (t.slots) in
    let sum = length-append d.filled (b ∷ d.empties) in
    let len = length-map d.filled (λ (b : BufferPair). b.ib_live) in
    elim t.source [
      | inl same ↦
          let e' : lives d.filled ≡ take (suc n) history = rw (← same) e in
          e'
          ∙ take_more n history
              (omega (arith, len, ap (λ (l : List ℤ). length l) e', slots, sum, r.count))
      | inr full ↦
          let e' : lives d.filled ++ b.ib_live ∷ [] ≡ take (suc n) history =
            rw (← lives-append d.filled (b ∷ []), ← full.0) e in
          let none_left = ap (λ (l : List BufferPair). length l) full.2 in
          take_init n history (lives d.filled) (b.ib_live) e'
            (omega (arith, len, slots, sum, r.count, none_left))
    ]

-- In a store of n + 1 buffers that holds the latest of a history of live buffers, a next live
-- buffer below 1024, of less than 2^24 bytes, always finds a store buffer. The copy goes to that
-- store buffer, and its argument gives the live buffer in the low ten bits and the number of the
-- buffer's words above them. The live buffer then comes first, before the n live buffers that
-- came before it, and each store buffer still is in use once, within bounds.
pub stash_buffer-lives :
    (p : SamplePrams) (n live : ℕ) (s : Store) (history : List ℤ)
    → live < 1024
    → p.ssb * p.nsam < 2 ^ 24
    → IsStore (suc n) s
    → lives s.filled ≡ take (suc n) history
    → (d : Store) × (bp : BufferPair) × (before : List BufferPair) × (arg : ℕ) × (stash_buffer p
          (pos live)
          s
        ≡ some (d, copy_from_len bp.ib_store arg))
      × (arg % 1024 ≡ live)
      × (arg / 1024 ≡ p.ssb * p.nsam / 4)
      × (d.filled ≡ bp ∷ before)
      × (bp.ib_live ≡ pos live)
      × (lives before ≡ take n history)
      × IsStore (suc n) d
unfolding stash_buffer
stash_buffer-lives p n live s history small size r e =
    let t = next_buffer-Next s.empties s.filled (omega (arith, r.count)) in
    let d = t.0 in
    let ib : s16 (pos live) ≡ pos live = s16_live live small in
    let arg = copy_arg_fields p live small size in
    (
      stashed (pos live) d (t.1),
      record (t.1) { ib_live = pos live },
      d.filled,
      copy_arg p (pos live),
      rw (stash_buffer, t.2, ib) refl,
      arg.0,
      arg.1,
      refl,
      refl,
      older n s d (t.1) history t.3 r e,
      stashed-IsStore (suc n) (pos live) s d (t.1) t.3 r,
    )

pub stash_buffer-IsStore :
    (p : SamplePrams) (n : ℕ) (ib : ℤ) (s : Store)
    → IsStore (suc n) s
    → Returns (λ (r : Store × PmEffect). IsStore (suc n) (r.0)) (stash_buffer p ib s)
unfolding stash_buffer
stash_buffer-IsStore p n ib s r =
    let t = next_buffer-Next s.empties s.filled (omega (arith, r.count)) in
    (
      (stashed (s16 ib) (t.0) (t.1), copy_from_len ((t.1).ib_store) (copy_arg p (s16 ib))),
      rw (stash_buffer, t.2) refl,
      stashed-IsStore (suc n) (s16 ib) s (t.0) (t.1) t.3 r,
    )
