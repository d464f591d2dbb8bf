-- ===== src/Network/Delivery.antt =====
-- A sender and a receiver of the factory over a segment that delivers: the tables that are sent
-- are received.
use acq400_xrm.Prelude.{
  ℕ, zero, suc, ◌≡◌, refl, sym, ap, ◌∙◌, false, List, [], ◌∷◌, ◌++◌, arith, length, take, drop,
}
use mathlib.Core.Path.{subst}
use mathlib.Core.List.{append-nil, append_assoc}
use acq400_xrm.Prelude.Int.{ℤ, pos, ltb_ℤ, to_bits}
use acq400_xrm.Prelude.Text.{Text}
use acq400_xrm.Network.Kernel.{
  SockAddr, IpMreq, Sockets, Run, returns, ◌>>=◌, checked, >>=_returns, >>=-eq-returns,
  checked-eq-returns, checked_ok,
}
use acq400_xrm.Network.{
  Settings, Role, mc_sender, mc_receiver, MultiCast, sender, receiver, mreq_of, factory, send_group,
  sendto, recv_group, recvfrom,
}
use acq400_xrm.Network.Reliable.{View, Listens, IsReliable}
use acq400_xrm.Network.SetUp.{sender-Listens, receiver-Listens}

module _ (S : Sockets) where
  -- Tables of `len` bytes that are sent in turn, and those that are received in turn, each over
  -- what its memory held.
  abbrev pub send_each : List (List ℕ) → ℕ → MultiCast → S.World → Run S.World MultiCast
  send_each [] len m = returns m
  send_each (message ∷ later) len m =
      sendto S m.role m message len >>= λ r. send_each later len (r.1)

  abbrev pub recv_each :
      List (List ℕ) → ℕ → MultiCast → S.World → Run S.World (List (List ℕ) × MultiCast)
  recv_each [] len m = returns ([], m)
  recv_each (memory ∷ later) len m = recvfrom S m.role m memory len >>= λ r.
      recv_each later len (r.2) >>= λ t. returns (r.1 ∷ t.0, t.1)

-- Tables of `len` bytes.
abbrev pub HaveLength : ℕ → List (List ℕ) → Type 0
HaveLength len [] = Unit {0}
HaveLength len (t ∷ ts) = (length t ≡ len) × HaveLength len ts

take_all : (n : ℕ) (xs : List ℕ) → length xs ≡ n → take n xs ≡ xs
take_all zero [] h = refl
take_all (suc n) (x ∷ xs) h = rw (take_all n xs (omega arith)) refl
take_all _ _ h = absurd (omega arith)

drop_all : (n : ℕ) (xs : List ℕ) → length xs ≡ n → drop n xs ≡ []
drop_all zero [] h = refl
drop_all (suc n) (x ∷ xs) h = drop_all n xs (omega arith)
drop_all _ _ h = absurd (omega arith)

not_negative : (n : ℕ) → ltb_ℤ (pos n) (pos 0) ≡ false
not_negative n = ground arith

module _ (S : Sockets) (V : View S) (r : IsReliable S V) where
  recv_group-Listens :
      (w : S.World) (rx : MultiCast) (memory message : List ℕ) (len : ℕ) {g p : ℕ}
      {q : List (List ℕ)}
      → length memory ≡ len
      → length message ≡ len
      → Listens S V w rx.sock g p (message ∷ q)
      → (from : SockAddr) × (w' : S.World) × (recv_group S rx memory len w
          ≡ returns (pos len, message, record rx { addr = from }) w')
        × Listens S V w' rx.sock g p q
  unfolding recv_group
  recv_group-Listens w rx memory message len hm hl l =
      let answer = S.recvfrom rx.sock len w in
      let rc = answer.0.rc in
      let bytes = answer.0.bytes in
      let a = r.recv w rx.sock len l in
      let b = a.1 ∙ take_all len message hl in
      let n = a.0 ∙ ap (λ t. pos (length t)) (take_all len message hl) ∙ ap pos hl in
      (
        answer.0.from,
        answer.1,
        >>=_returns (checked (λ v. (rc, v)))
              (λ rc.
                returns
                  (rc, bytes ++ drop (length bytes) memory, record rx { addr = answer.0.from }))
              answer.1 (checked_ok (λ v. (rc, v)) answer.1 (rw n (not_negative len)))
            ∙ rw (n, b, drop_all (length message) memory (hm ∙ sym hl), append-nil message) refl,
        a.2,
      )

  send_group-Listens :
      (w : S.World) (tx : MultiCast) (message : List ℕ) {s : ℤ} {q : List (List ℕ)}
      {t : ℤ × MultiCast} {w' : S.World}
      → Listens S V w s (S.inet_addr tx.group) tx.addr.sin_port q
      → send_group S tx message w ≡ returns t w'
      → Listens S V w' s (S.inet_addr tx.group) tx.addr.sin_port (q ++ message ∷ [])
        × (t.1 ≡ record tx { addr = record (tx.addr) { sin_addr = S.inet_addr tx.group } })
  unfolding send_group
  send_group-Listens w tx message {s} {q} l e =
      let to : SockAddr = record (tx.addr) { sin_addr = S.inet_addr tx.group } in
      let (a, v, h, k) =
        >>=-eq-returns (checked (S.sendto tx.sock message to))
          (λ rc. returns (rc, record tx { addr = to })) w e in
      let c = checked-eq-returns _ w h in
      (
        subst (λ u. Listens S V u s (S.inet_addr tx.group) tx.addr.sin_port (q ++ message ∷ []))
            (c.2 ∙ cc k) (r.send w tx.sock message l c.0),
        cc k,
      )

  sendto_sender :
      (tx : MultiCast) (message : List ℕ) (len : ℕ) (w : S.World) {role : Role}
      → role ≡ sender
      → sendto S role tx message len w ≡ send_group S tx (take len message) w
  unfolding sendto
  sendto_sender tx message len w e = rw e refl

  send_each-Listens :
      (messages : List (List ℕ)) (len : ℕ) (w : S.World) (tx : MultiCast) {s : ℤ}
      {q : List (List ℕ)} {t : MultiCast} {w' : S.World}
      → HaveLength len messages
      → tx.role ≡ sender
      → Listens S V w s (S.inet_addr tx.group) tx.addr.sin_port q
      → send_each S messages len tx w ≡ returns t w'
      → Listens S V w' s (S.inet_addr tx.group) tx.addr.sin_port (q ++ messages)
  unfolding sendto
  send_each-Listens [] len w tx {s} {q} h er l e =
      subst (λ u. Listens S V u s (S.inet_addr tx.group) tx.addr.sin_port (q ++ [])) {x = w} (cc e)
        (rw (append-nil q) l)
  send_each-Listens (message ∷ later) len w tx {s} {q} h er l e =
      let (a, v, b, k) =
        >>=-eq-returns (sendto S tx.role tx message len) (λ r. send_each S later len (r.1)) w e in
      let c = send_group-Listens w tx message l (
        ap (λ m. send_group S tx m w) (sym (take_all len message (h.0)))
        ∙ sym (sendto_sender tx message len w er)
        ∙ b) in
      let to : SockAddr = record (tx.addr) { sin_addr = S.inet_addr tx.group } in
      rw (sym (append_assoc q (message ∷ []) later))
        (send_each-Listens later len v (record tx { addr = to }) (h.1) er (c.0) (rw (c.1) at k))

  recvfrom_receiver :
      (rx : MultiCast) (memory : List ℕ) (len : ℕ) (w : S.World) {role : Role} {mreq : IpMreq}
      → role ≡ receiver mreq
      → recvfrom S role rx memory len w ≡ recv_group S rx memory len w
  unfolding recvfrom
  recvfrom_receiver rx memory len w e = rw e refl

  recv_each-Listens :
      (messages memories : List (List ℕ)) (len : ℕ) (w : S.World) (rx : MultiCast) (mreq : IpMreq)
      {g p : ℕ} {q : List (List ℕ)}
      → length memories ≡ length messages
      → HaveLength len messages
      → HaveLength len memories
      → rx.role ≡ receiver mreq
      → Listens S V w rx.sock g p (messages ++ q)
      → (rx' : MultiCast) × (w' : S.World) × (recv_each S memories len rx w
          ≡ returns (messages, rx') w')
        × Listens S V w' rx.sock g p q
  unfolding recvfrom
  recv_each-Listens [] [] len w rx mreq n h h' er l = (rx, w, refl, l)
  recv_each-Listens (message ∷ messages) (memory ∷ memories) len w rx mreq n h h' er l =
      let (from, v, e, l') = recv_group-Listens w rx memory message len (h'.0) (h.0) l in
      let (rx', w', e', l'') =
        recv_each-Listens messages memories len v (record rx { addr = from }) mreq (omega arith)
          (h.1) (h'.1) er l' in
      (
        rx',
        w',
        >>=_returns (recvfrom S rx.role rx memory len) _ w
              (recvfrom_receiver rx memory len w er ∙ e)
            ∙ >>=_returns (recv_each S memories len (record rx { addr = from })) _ v e',
        l'',
      )
  recv_each-Listens _ _ len w rx mreq n h h' er l = absurd (omega arith)

  -- Where the system delivers every datagram of a segment in order: whatever tables of `len`
  -- bytes a new sender sends to the group and the port of a new receiver, as many receives give
  -- exactly these tables, in order, over whatever the memories held.
  pub recv_each-send_each :
      (o o' : Settings) (group group' : Text) (port port' : ℤ) (len : ℕ)
      (messages memories : List (List ℕ)) (w : S.World) {rx tx tx' : MultiCast} {w1 w2 w3 : S.World}
      → S.inet_addr group' ≡ S.inet_addr group
      → to_bits 16 port' ≡ to_bits 16 port
      → length memories ≡ length messages
      → HaveLength len messages
      → HaveLength len memories
      → factory S o group port mc_receiver w ≡ returns rx w1
      → factory S o' group' port' mc_sender w1 ≡ returns tx w2
      → send_each S messages len tx w2 ≡ returns tx' w3
      → (rx' : MultiCast) × (w4 : S.World) × (recv_each S memories len rx w3
          ≡ returns (messages, rx') w4)
  recv_each-send_each o o' group group' port port' len messages memories w {rx} {tx} {w2 = w2}
        {w3 = w3} eg ep n h h' er et e =
      let (mr, l1) = receiver-Listens S V r o group port w er in
      let (mt, l2) = sender-Listens S V r o' group' port' _ et l1 in
      let s = (S.socket w).0 in
      let l3 =
        subst (λ g. Listens S V w2 s g (to_bits 16 port) [])
          (sym eg ∙ ap (λ (m : MultiCast). S.inet_addr m.group) mt) l2 in
      let l4 =
        subst (λ p. Listens S V w2 s (S.inet_addr tx.group) p [])
          (sym ep ∙ ap (λ (m : MultiCast). m.addr.sin_port) mt) l3 in
      let l5 =
        send_each-Listens messages len w2 tx h (ap (λ (m : MultiCast). m.role) (sym mt)) l4 e in
      let l6 =
        subst (λ s. Listens S V w3 s (S.inet_addr tx.group) tx.addr.sin_port (messages ++ []))
          (ap (λ (m : MultiCast). m.sock) mr) (rw (append-nil messages) l5) in
      let (rx', w4, k, _) =
        recv_each-Listens messages memories len w3 rx (mreq_of S o group) n h h'
          (ap (λ (m : MultiCast). m.role) (sym mr)) l6 in
      (rx', w4, k)
