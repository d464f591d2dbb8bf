-- ===== src/Receiver/History.antt =====
-- What clients of acq400_FMT_rx see: get_fmt(i) against the history of the tables that arrived.
use acq400_xrm.Prelude.{
  ℕ, zero, suc, ◌≤◌, ◌<◌, ◌≡◌, refl, ap, sym, ◌∙◌, Option, some, List, [], ◌∷◌, ◌++◌, ◌>>=◌, inl,
  inr, length, map, take, get_or, arith, length-append, length-map, lt_cases,
}
use acq400_xrm.Prelude.Memory.{Mem, update, update_self, update_ne}
use acq400_xrm.Prelude.Deque.{NotIn, NotIn-append, take_init, take_more}
use acq400_xrm.Structs.{Fmt, clean}
use acq400_xrm.Receiver.{Cache, FmtRx, init_cache, receive, get_fmt}
use acq400_xrm.Receiver.Ring.{IsRing, Taken, receive-Taken, refilled, init_cache-IsRing}

-- The tables in the ring, the latest first.
abbrev pub contents : Cache → List Fmt
contents c = map c.fmt_cache c.filled

-- The ring after a history of datagrams, the latest first.
unfoldable pub after : ℕ → Mem Fmt → List Fmt → Option Cache
after maxq m [] = some (init_cache maxq m)
after maxq m (p ∷ history) = after maxq m history >>= λ c. receive p c >>= λ r. some (r.0)

map-update :
    (m : Mem Fmt) (ib : ℕ) (p : Fmt) (fs : List ℕ) → NotIn ib fs → map (update m ib p) fs ≡ map m fs
map-update m ib p [] h = refl
map-update m ib p (f ∷ fs) h =
    rw (update_ne m ib p f (λ e. h.0 (sym e)), map-update m ib p fs h.1) refl

map-append : (m : Mem Fmt) (xs ys : List ℕ) → map m (xs ++ ys) ≡ map m xs ++ map m ys
map-append m [] ys = refl
map-append m (x ∷ xs) ys = ap (λ t. m x ∷ t) (map-append m xs ys)

-- What the slots behind the new one show.
older :
    (n : ℕ) (c d : Cache) (ib : ℕ) (p : Fmt) (history : List Fmt)
    → IsRing (suc n) c
    → Taken c d ib
    → IsRing (suc n) (refilled p d ib)
    → contents c ≡ take (suc n) history
    → map (update d.fmt_cache ib p) d.filled ≡ take n history
older n c d ib p history r t r' e =
    let fresh =
      map-update d.fmt_cache ib p d.filled (NotIn-append ib d.filled d.empties (r'.once).0) in
    let count : suc (length (d.filled ++ d.empties)) ≡ suc n = r'.count in
    let len = ap (λ (l : List Fmt). length l) e in
    let lm = length-map d.filled d.fmt_cache in
    elim t.source [
      | inl same ↦
          let e' : map d.fmt_cache d.filled ≡ take (suc n) history = rw (t.same_cache, ← same) e in
          fresh
          ∙ e'
          ∙ take_more n history (
              omega
                (arith, lm, ap (λ (l : List Fmt). length l) e', length-append d.filled d.empties))
      | inr full ↦
          let e' : map d.fmt_cache d.filled ++ d.fmt_cache ib ∷ [] ≡ take (suc n) history =
            rw (← map-append d.fmt_cache d.filled (ib ∷ []), t.same_cache, ← full.0) e in
          let none_empty = ap (λ (l : List ℕ). length l) full.2 in
          fresh
          ∙ take_init n history (map d.fmt_cache d.filled) (d.fmt_cache ib) e'
              (omega (arith, lm, length-append d.filled d.empties, none_empty))
    ]

-- One datagram: the ring shows it first, and behind it what it showed before, cut to maxq.
pub receive-contents :
    (maxq : ℕ) (c : Cache) (p : Fmt) (history : List Fmt)
    → 0 < maxq
    → IsRing maxq c
    → contents c ≡ take maxq history
    → (d : Cache) × (ib : ℕ) × (receive p c ≡ some (d, ib))
      × IsRing maxq d
      × (contents d ≡ take maxq (p ∷ history))
receive-contents zero c p history pos r e = absurd (omega arith)
receive-contents (suc n) c p history pos r e =
    let t = receive-Taken (suc n) c p pos r in
    (
      refilled p (t.0) (t.1),
      t.1,
      t.2,
      t.5,
      rw (update_self (t.0).fmt_cache (t.1) p, older n c (t.0) (t.1) p history r t.3 t.5 e) refl,
    )

-- However many tables arrive, the receiver of maxq > 0 tables never stops, its slots stay a
-- ring, and what it holds is the latest maxq tables, the latest first.
pub after-contents :
    (maxq : ℕ) (m : Mem Fmt) (history : List Fmt)
    → 0 < maxq
    → (c : Cache) × (after maxq m history ≡ some c)
      × IsRing maxq c
      × (contents c ≡ take maxq history)
unfolding after init_cache
after-contents zero m history h = absurd (omega arith)
after-contents (suc n) m [] h = (init_cache (suc n) m, refl, init_cache-IsRing (suc n) m, refl)
after-contents (suc n) m (p ∷ history) h =
    let before = after-contents (suc n) m history h in
    let r = receive-contents (suc n) (before.0) p history h before.2 before.3 in
    (r.0, rw (before.1, r.2) refl, r.3, r.4)

get_or-map :
    (m : Mem Fmt) (fs : List ℕ) (i : ℕ)
    → i < length fs
    → get_or (map m fs) i clean ≡ m (get_or fs i 0)
get_or-map m [] i h = absurd (omega arith)
get_or-map m (f ∷ fs) zero h = refl
get_or-map m (f ∷ fs) (suc i) h = get_or-map m fs i (omega arith)

get_or_none : (xs : List Fmt) (i : ℕ) → length xs ≤ i → get_or xs i clean ≡ clean
get_or_none [] i h = refl
get_or_none (x ∷ xs) zero h = absurd (omega arith)
get_or_none (x ∷ xs) (suc i) h = get_or_none xs i (omega arith)

get_fmt-contents : (i : ℕ) (rx : FmtRx) → (get_fmt i rx).1 ≡ get_or (contents rx.cache) i clean
unfolding get_fmt
get_fmt-contents i rx =
    let len = length-map rx.cache.filled rx.cache.fmt_cache in
    elim (lt_cases i (length rx.cache.filled)) [
      | inl h ↦ ground (arith, get_or-map rx.cache.fmt_cache rx.cache.filled i h)
      | inr h ↦ ground (arith, get_or_none (contents rx.cache) i (omega (arith, len)))
    ]

-- get_fmt(i) is the table that arrived i tables before the latest, where i is below maxq and
-- that many have arrived, and the null table otherwise.
pub get_fmt-after :
    (maxq : ℕ) (m : Mem Fmt) (history : List Fmt) (rx : FmtRx) (i : ℕ)
    → 0 < maxq
    → after maxq m history ≡ some rx.cache
    → (get_fmt i rx).1 ≡ get_or (take maxq history) i clean
get_fmt-after maxq m history rx i h e =
    let r = after-contents maxq m history h in
    let r1 = r.1 in
    let same : r.0 ≡ rx.cache = cc in
    get_fmt-contents i rx
    ∙ ap (λ (c : Cache). get_or (contents c) i clean) (sym same)
    ∙ ap (λ (l : List Fmt). get_or l i clean) r.3
