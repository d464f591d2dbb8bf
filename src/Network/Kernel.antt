-- ===== src/Network/Kernel.antt =====
-- The calls of the operating system that Multicast.cpp makes, as an interface over an unknown
-- state, and the running of code that may end the process with exit(1).
use acq400_xrm.Prelude.{ℕ, ◌≡◌, refl, false, List, arith, if◌then◌else◌}
use acq400_xrm.Prelude.Int.{ℤ, pos, ltb_ℤ}
use acq400_xrm.Prelude.Text.{Text}

-- struct sockaddr_in of the family AF_INET, and struct ip_mreq; a port is its number, before
-- htons().
pub record SockAddr : Type 0 where
  pub sin_addr : ℕ
  pub sin_port : ℕ

pub record IpMreq : Type 0 where
  pub imr_multiaddr : ℕ
  pub imr_interface : ℕ

pub data SockOpt : Type 0 where
  ip_multicast_if : ℕ → SockOpt
  ip_ttl ip_multicast_ttl : ℤ → SockOpt
  ip_add_membership : IpMreq → SockOpt

-- What recvfrom() answers, stores at the front of the buffer, and gives as the sender.
pub record Received : Type 0 where
  pub rc : ℤ
  pub bytes : List ℕ
  pub from : SockAddr

pub record Sockets : Type 1 where
  pub World : Type 0
  pub inet_addr : Text → ℕ
  pub socket : World → ℤ × World
  pub setsockopt : ℤ → SockOpt → World → ℤ × World
  pub bind : ℤ → SockAddr → World → ℤ × World
  pub sendto : ℤ → List ℕ → SockAddr → World → ℤ × World
  pub recvfrom : ℤ → ℕ → World → Received × World

pub data Run (W A : Type 0) : Type 0 where
  exits : W → Run W A
  returns : A → W → Run W A

infixl 5 ◌>>=◌ ◌>>◌
abbrev pub ◌>>=◌ : {W A B : Type 0} → (W → Run W A) → (A → W → Run W B) → W → Run W B
◌>>=◌ m f w = elim (m w) [ exits w' ↦ exits w' | returns a w' ↦ f a w' ]

abbrev pub ◌>>◌ : {W A B : Type 0} → (W → Run W A) → (W → Run W B) → W → Run W B
m >> k = m >>= λ _. k

-- if (call < 0) { perror(); exit(1); }
unfoldable pub checked : {W : Type 0} → (W → ℤ × W) → W → Run W ℤ
checked call w = let (rc, w') = call w in if ltb_ℤ rc (pos 0) then exits w' else returns rc w'

chain :
    {W A B : Type 0} (f : A → W → Run W B) {m r : Run W A} {b : B} {w' : W}
    → m ≡ r
    → elim r [ exits v ↦ exits v | returns a v ↦ f a v ] ≡ returns b w'
    → (a : A) × (v : W) × (m ≡ returns a v) × (f a v ≡ returns b w')
chain f {r = exits v} q h = cc
chain f {r = returns a v} q h = (a, v, q, h)

-- Inversion of a chain that returns, and of a call under a check.
pub >>=-eq-returns :
    {W A B : Type 0} (m : W → Run W A) (f : A → W → Run W B) (w : W) {b : B} {w' : W}
    → (m >>= f) w ≡ returns b w'
    → (a : A) × (v : W) × (m w ≡ returns a v) × (f a v ≡ returns b w')
>>=-eq-returns m f w e = chain f refl e

pub checked-eq-returns :
    {W : Type 0} (call : W → ℤ × W) (w : W) {rc : ℤ} {w' : W}
    → checked call w ≡ returns rc w'
    → (ltb_ℤ (call w).0 (pos 0) ≡ false) × ((call w).0 ≡ rc) × ((call w).1 ≡ w')
unfolding checked
checked-eq-returns call w e = ground arith

pub checked_ok :
    {W : Type 0} (call : W → ℤ × W) (w : W)
    → ltb_ℤ (call w).0 (pos 0) ≡ false
    → checked call w ≡ returns (call w).0 (call w).1
unfolding checked
checked_ok call w e = ground arith

pub >>=_returns :
    {W A B : Type 0} (m : W → Run W A) (f : A → W → Run W B) (w : W) {a : A} {v : W}
    → m w ≡ returns a v
    → (m >>= f) w ≡ f a v
>>=_returns m f w e = rw (e, ◌>>=◌) refl
