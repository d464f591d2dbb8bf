-- ===== src/Network/Reliable.antt =====
-- What the objects of the factory need of the system to deliver datagrams: one segment that
-- loses nothing and keeps the order.
use acq400_xrm.Prelude.{ℕ, ◌≡◌, Bool, true, false, Option, some, List, [], ◌∷◌, ◌++◌, length, take}
use acq400_xrm.Prelude.Int.{ℤ, pos, ltb_ℤ}
use acq400_xrm.Network.Kernel.{SockAddr, IpMreq, SockOpt, ip_add_membership, Sockets}

-- What is asked of a state: the port of a socket on all addresses, and its datagrams that wait.
pub record View (S : Sockets) : Type 0 where
  pub port_of : S.World → ℤ → Option ℕ
  pub member : S.World → ℤ → ℕ → Bool
  pub queue : S.World → ℤ → List (List ℕ)

abbrev pub Answered : {A : Type 0} → ℤ × A → Type 0
Answered r = ltb_ℤ r.0 (pos 0) ≡ false

module _ (S : Sockets) (V : View S) where
  -- A socket with the port p and in the group g, where the datagrams q wait.
  pub record Listens (w : S.World) (s : ℤ) (g p : ℕ) (q : List (List ℕ)) : Type 0 where
    pub port : V.port_of w s ≡ some p
    pub group : V.member w s g ≡ true
    pub waiting : V.queue w s ≡ q

  pub record IsReliable : Type 0 where
    pub socket_empty :
        (w : S.World) → Answered (S.socket w) → V.queue (S.socket w).1 (S.socket w).0 ≡ []
    pub socket_listens :
        (w : S.World) {s : ℤ} {g p : ℕ} {q : List (List ℕ)}
        → Listens w s g p q
        → Listens (S.socket w).1 s g p q
    pub option_listens :
        (w : S.World) (t : ℤ) (o : SockOpt) {s : ℤ} {g p : ℕ} {q : List (List ℕ)}
        → Listens w s g p q
        → Listens (S.setsockopt t o w).1 s g p q
    pub option_queue :
        (w : S.World) (t : ℤ) (o : SockOpt) (s : ℤ) → V.queue (S.setsockopt t o w).1 s ≡ V.queue w s
    pub bind_port :
        (w : S.World) (s : ℤ) (p : ℕ)
        → let a : SockAddr = record { sin_addr = 0; sin_port = p } in
          Answered (S.bind s a w)
          → (V.port_of (S.bind s a w).1 s ≡ some p) × (V.queue (S.bind s a w).1 s ≡ V.queue w s)
    pub join :
        (w : S.World) (s : ℤ) (m : IpMreq) (p : ℕ)
        → V.port_of w s ≡ some p
        → Answered (S.setsockopt s (ip_add_membership m) w)
        → Listens (S.setsockopt s (ip_add_membership m) w).1 s m.imr_multiaddr p (V.queue w s)
    pub send :
        (w : S.World) (t : ℤ) (message : List ℕ) {s : ℤ} {g p : ℕ} {q : List (List ℕ)}
        → let to : SockAddr = record { sin_addr = g; sin_port = p } in
          Listens w s g p q
          → Answered (S.sendto t message to w)
          → Listens (S.sendto t message to w).1 s g p (q ++ message ∷ [])
    pub recv :
        (w : S.World) (s : ℤ) (len : ℕ) {g p : ℕ} {message : List ℕ} {q : List (List ℕ)}
        → Listens w s g p (message ∷ q)
        → ((S.recvfrom s len w).0.rc ≡ pos (length (take len message)))
          × ((S.recvfrom s len w).0.bytes ≡ take len message)
          × Listens (S.recvfrom s len w).1 s g p q
