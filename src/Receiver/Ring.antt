-- ===== src/Receiver/Ring.antt =====
-- The slots of acq400_FMT_rx: each is in one of the two deques, once.
use mathlib.Core.List.{append-nil, append_assoc}
use acq400_xrm.Prelude.{
  ℕ, zero, suc, ◌≤◌, ◌<◌, ◌≡◌, refl, ap, sym, ◌∙◌, some, List, [], ◌∷◌, ◌++◌, ◌⊎◌, inl, inr, length,
  arith, length-append,
}
use acq400_xrm.Prelude.Memory.{Mem, update}
use acq400_xrm.Prelude.Deque.{
  pop_back, pop_back_snoc, NotIn, Distinct, AllBelow, Distinct-move, AllBelow-move,
}
use acq400_xrm.Structs.{Fmt}
use acq400_xrm.Receiver.{Cache, empty_slots, init_cache, get_empty, receive}

-- The slots of a ring of `maxq` tables.
abbrev pub slots : Cache → List ℕ
slots c = c.filled ++ c.empties

-- Every slot is an index of the ring, in one deque, and no slot is lost.
pub record IsRing (maxq : ℕ) (c : Cache) : Type 0 where
  pub in_range : AllBelow maxq (slots c)
  pub once : Distinct (slots c)
  pub count : length (slots c) ≡ maxq

-- What taking a slot does: the slot was the last of all, and the rest stay where they are.
-- The table is full where a filled slot is taken.
pub record Taken (c : Cache) (d : Cache) (ib : ℕ) : Type 0 where
  pub same_cache : d.fmt_cache ≡ c.fmt_cache
  pub last : slots c ≡ slots d ++ ib ∷ []
  pub source :
      (c.filled ≡ d.filled)
      ⊎ ((c.filled ≡ d.filled ++ ib ∷ []) × (c.empties ≡ []) × (d.empties ≡ []))

pub get_empty-Taken :
    (m : Mem Fmt) (es fs : List ℕ)
    → 0 < length (fs ++ es)
    → (d : Cache) × (ib : ℕ) × (get_empty (record { fmt_cache = m; empties = es; filled = fs })
        ≡ some (d, ib))
      × Taken (record { fmt_cache = m; empties = es; filled = fs }) d ib
unfolding get_empty pop_back
get_empty-Taken m [] [] h = absurd (omega arith)
get_empty-Taken m [] (f ∷ fs) h =
    let r = pop_back_snoc f fs in
    (
      record { fmt_cache = m; empties = []; filled = r.0 },
      r.1,
      rw (get_empty, r.2) refl,
      record {
        same_cache = refl;
        last = append-nil (f ∷ fs) ∙ r.3 ∙ sym (ap (λ t. t ++ r.1 ∷ []) (append-nil (r.0)));
        source = inr (r.3, refl, refl);
      },
    )
get_empty-Taken m (e ∷ es) fs h =
    let r = pop_back_snoc e es in
    (
      record { fmt_cache = m; empties = r.0; filled = fs },
      r.1,
      rw (get_empty, r.2) refl,
      record {
        same_cache = refl;
        last = ap (λ t. fs ++ t) r.3 ∙ sym (append_assoc fs (r.0) (r.1 ∷ []));
        source = inl refl;
      },
    )

-- The slot goes to the front, with its new table.
abbrev pub refilled : Fmt → Cache → ℕ → Cache
refilled datagram d ib = record d {
  fmt_cache = update d.fmt_cache ib datagram;
  filled = ib ∷ d.filled;
}

pub receive-Taken :
    (maxq : ℕ) (c : Cache) (datagram : Fmt)
    → 0 < maxq
    → IsRing maxq c
    → (d : Cache) × (ib : ℕ) × (receive datagram c ≡ some (refilled datagram d ib, ib))
      × Taken c d ib
      × (ib < maxq)
      × IsRing maxq (refilled datagram d ib)
unfolding receive
receive-Taken maxq c datagram p r =
    let t = get_empty-Taken c.fmt_cache c.empties c.filled (omega (arith, r.count)) in
    let d = t.0 in
    let ib = t.1 in
    let last = t.3.last in
    let same = append-nil (slots d) in
    let below : AllBelow maxq (ib ∷ slots d) =
      rw (← same) (AllBelow-move maxq ib (slots d) [] (rw (← last) (r.in_range))) in
    (
      d,
      ib,
      rw (receive, t.2) refl,
      t.3,
      below.0,
      record {
        in_range = below;
        once = rw (← same) (Distinct-move ib (slots d) [] (rw (← last) (r.once)));
        count =
            omega (
              arith,
              r.count,
              ap (λ (l : List ℕ). length l) last,
              length-append (slots d) (ib ∷ []),
            );
      },
    )

-- In a ring of one table or more, a datagram always finds a slot, and the ring stays one: no
-- slot is lost, in two places or out of range.
pub receive-IsRing :
    (maxq : ℕ) (c : Cache) (datagram : Fmt)
    → 0 < maxq
    → IsRing maxq c
    → (d : Cache) × (ib : ℕ) × (receive datagram c ≡ some (d, ib)) × (ib < maxq) × IsRing maxq d
receive-IsRing maxq c datagram p r =
    let t = receive-Taken maxq c datagram p r in (refilled datagram (t.0) (t.1), t.1, t.2, t.4, t.5)

empty_slots-NotIn : (k n : ℕ) → n ≤ k → NotIn k (empty_slots n)
unfolding empty_slots
empty_slots-NotIn k zero h = tt
empty_slots-NotIn k (suc n) h = (omega arith, empty_slots-NotIn k n (omega arith))

empty_slots-Distinct : (n : ℕ) → Distinct (empty_slots n)
unfolding empty_slots
empty_slots-Distinct zero = tt
empty_slots-Distinct (suc n) = (empty_slots-NotIn n n (omega arith), empty_slots-Distinct n)

empty_slots-AllBelow : (k n : ℕ) → n ≤ k → AllBelow k (empty_slots n)
unfolding empty_slots
empty_slots-AllBelow k zero h = tt
empty_slots-AllBelow k (suc n) h = (omega arith, empty_slots-AllBelow k n (omega arith))

empty_slots-length : (n : ℕ) → length (empty_slots n) ≡ n
unfolding empty_slots
empty_slots-length zero = refl
empty_slots-length (suc n) = ap suc (empty_slots-length n)

pub init_cache-IsRing : (maxq : ℕ) (m : Mem Fmt) → IsRing maxq (init_cache maxq m)
unfolding init_cache
init_cache-IsRing maxq m = record {
  in_range = empty_slots-AllBelow maxq maxq (omega arith);
  once = empty_slots-Distinct maxq;
  count = empty_slots-length maxq;
}
