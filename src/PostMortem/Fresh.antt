-- ===== src/PostMortem/Fresh.antt =====
-- The store that acq400_PM::init_buffers() makes.
use acq400_xrm.Prelude.{ℕ, zero, suc, ◌+◌, ◌≤◌, ◌<◌, ◌≡◌, refl, ap, some, [], length, arith}
use acq400_xrm.Prelude.Deque.{NotIn, Distinct}
use acq400_xrm.PostMortem.{Store, first, store_buffers, init_buffers}
use acq400_xrm.PostMortem.Ring.{IsStore, AllWithin, stores}

store_buffers-NotIn : (k n ii : ℕ) → k < ii → NotIn k (stores (store_buffers n ii))
unfolding store_buffers
store_buffers-NotIn k zero ii h = tt
store_buffers-NotIn k (suc n) ii h = (omega arith, store_buffers-NotIn k n (suc ii) (omega arith))

store_buffers-Distinct : (n ii : ℕ) → Distinct (stores (store_buffers n ii))
unfolding store_buffers
store_buffers-Distinct zero ii = tt
store_buffers-Distinct (suc n) ii =
    (store_buffers-NotIn ii n (suc ii) (omega arith), store_buffers-Distinct n (suc ii))

store_buffers-AllWithin :
    (lo hi n ii : ℕ) → lo ≤ ii → ii + n ≤ hi → AllWithin lo hi (stores (store_buffers n ii))
unfolding store_buffers
store_buffers-AllWithin lo hi zero ii h k = tt
store_buffers-AllWithin lo hi (suc n) ii h k =
    (h, omega arith, store_buffers-AllWithin lo hi n (suc ii) (omega arith) (omega arith))

store_buffers-length : (n ii : ℕ) → length (store_buffers n ii) ≡ n
unfolding store_buffers
store_buffers-length zero ii = refl
store_buffers-length (suc n) ii = ap suc (store_buffers-length n (suc ii))

init_buffers_small :
    (nbuf : ℕ)
    → nbuf ≤ 32_764
    → init_buffers nbuf ≡ some (record { empties = store_buffers (suc nbuf) first; filled = [] })
unfolding init_buffers
init_buffers_small nbuf h = ground arith

-- A request for nbuf buffers gives nbuf + 1 of them, all empty.
pub init_buffers-IsStore :
    (nbuf : ℕ)
    → nbuf ≤ 32_764
    → (s : Store) × (init_buffers nbuf ≡ some s) × IsStore (suc nbuf) s × (s.filled ≡ [])
init_buffers-IsStore nbuf h = (
  record { empties = store_buffers (suc nbuf) first; filled = [] },
  init_buffers_small nbuf h,
  record {
    in_range =
        store_buffers-AllWithin first (first + suc nbuf) (suc nbuf) first (omega arith)
          (omega arith);
    once = store_buffers-Distinct (suc nbuf) first;
    count = store_buffers-length (suc nbuf) first;
  },
  refl,
)
