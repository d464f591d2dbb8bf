-- ===== src/Network/SetUp.antt =====
-- What the factory's calls do to the sockets: a new receiver listens with nothing waiting, and a
-- new sender leaves those that listen alone.
use acq400_xrm.Prelude.{
  ◌≡◌, refl, sym, ap, ◌∙◌, ℕ, Bool, true, false, Option, none, some, List, [], ◌∷◌, ◌++◌,
  if◌then◌else◌,
}
use mathlib.Core.Path.{subst}
use acq400_xrm.Prelude.Int.{ℤ, pos, ltb_ℤ, to_bits}
use acq400_xrm.Prelude.Text.{Text}
use acq400_xrm.Network.Kernel.{
  SockOpt, ip_ttl, ip_multicast_ttl, ip_add_membership, Sockets, returns, ◌>>◌, checked,
  >>=_returns, >>=-eq-returns, checked-eq-returns, checked_ok,
}
use acq400_xrm.Network.{Settings, Mc, mc_sender, mc_receiver, MultiCast, any_addr, mreq_of, factory}
use acq400_xrm.Network.Plan.{
  Step, option, bind, limit_steps, interface_steps, class_steps, steps, perform, run_steps, made,
  factory-run_steps,
}
use acq400_xrm.Network.Reliable.{View, Answered, Listens, IsReliable}

abbrev AreOptions : List Step → Type 0
AreOptions [] = Unit {0}
AreOptions (option o ∷ cs) = AreOptions cs
AreOptions (bind a ∷ cs) = ⊥

AreOptions-append : (cs ds : List Step) → AreOptions cs → AreOptions ds → AreOptions (cs ++ ds)
AreOptions-append [] ds h k = k
AreOptions-append (option o ∷ cs) ds h k = AreOptions-append cs ds h k
AreOptions-append (bind a ∷ cs) ds h k = absurd h

limit_steps-AreOptions : (b : Bool) (o : SockOpt) → AreOptions (if b then option o ∷ [] else [])
limit_steps-AreOptions true o = tt
limit_steps-AreOptions false o = tt

module _ (S : Sockets) where
  interface_steps-AreOptions : (name : Option Text) → AreOptions (interface_steps S name)
  interface_steps-AreOptions none = tt
  interface_steps-AreOptions (some name) = tt

  run_steps-cons :
      (c : Step) (cs : List Step) (sock : ℤ) (w : S.World) {u : Unit {0}} {w' : S.World}
      → run_steps S sock (c ∷ cs) w ≡ returns u w'
      → Answered (perform S sock c w) × (run_steps S sock cs (perform S sock c w).1 ≡ returns u w')
  run_steps-cons c cs sock w e =
      let (a, v, h, k) =
        >>=-eq-returns (checked (perform S sock c)) (λ _. run_steps S sock cs) w e in
      let d = checked-eq-returns (perform S sock c) w h in
      (d.0, ap (λ x. run_steps S sock cs x) (d.2) ∙ k)

  run_steps-append :
      (cs ds : List Step) (sock : ℤ) (w : S.World) {u : Unit {0}} {w' : S.World}
      → run_steps S sock (cs ++ ds) w ≡ returns u w'
      → (v : S.World) × (run_steps S sock cs w ≡ returns tt v)
        × (run_steps S sock ds v ≡ returns u w')
  run_steps-append [] ds sock w e = (w, refl, e)
  run_steps-append (c ∷ cs) ds sock w e =
      let (a, h) = run_steps-cons c (cs ++ ds) sock w e in
      let (v, b, k) = run_steps-append cs ds sock (perform S sock c w).1 h in
      (v, >>=_returns (checked (perform S sock c)) _ w (checked_ok (perform S sock c) w a) ∙ b, k)

  -- Inversion of the factory.
  factory-eq-returns :
      (o : Settings) (group : Text) (port : ℤ) (mode : Mc) (w : S.World) {m : MultiCast}
      {w' : S.World}
      → factory S o group port mode w ≡ returns m w'
      → Answered (S.socket w)
        × (run_steps S (S.socket w).0 (steps S o group port mode) (S.socket w).1 ≡ returns tt w')
        × (made S o group port mode (S.socket w).0 ≡ m)
  factory-eq-returns o group port mode w {m} {w'} e =
      let (sock, v, h, k) =
        >>=-eq-returns (checked S.socket)
          (λ sock.
            run_steps S sock (steps S o group port mode) >> returns (made S o group port mode sock))
          w (sym (factory-run_steps S o group port mode w) ∙ e) in
      let c = checked-eq-returns S.socket w h in
      let (u, v', h', k') =
        >>=-eq-returns (run_steps S sock (steps S o group port mode))
          (λ _. returns (made S o group port mode sock)) v k in
      (
        c.0,
        rw (c.1, c.2) (h' ∙ ap (λ x. returns tt x) (cc k')),
        ap (λ x. made S o group port mode x) (c.1) ∙ cc k',
      )

module _ (S : Sockets) (V : View S) (r : IsReliable S V) where
  run_steps-Listens :
      (cs : List Step) (sock : ℤ) (w : S.World) {s : ℤ} {g p : ℕ} {q : List (List ℕ)} {w' : S.World}
      → AreOptions cs
      → Listens S V w s g p q
      → run_steps S sock cs w ≡ returns tt w'
      → Listens S V w' s g p q
  run_steps-Listens [] sock w {s} {g} {p} {q} h l e =
      subst (λ u. Listens S V u s g p q) {x = w} (cc e) l
  run_steps-Listens (option o ∷ cs) sock w h l e =
      run_steps-Listens cs sock (S.setsockopt sock o w).1 h (r.option_listens w sock o l)
        (run_steps-cons S (option o) cs sock w e).1
  run_steps-Listens (bind a ∷ cs) sock w h l e = absurd h

  run_steps-queue :
      (cs : List Step) (sock : ℤ) (w : S.World) (s : ℤ) {w' : S.World}
      → AreOptions cs
      → run_steps S sock cs w ≡ returns tt w'
      → V.queue w' s ≡ V.queue w s
  run_steps-queue [] sock w s h e = ap (λ u. V.queue u s) (cc e)
  run_steps-queue (option o ∷ cs) sock w s h e =
      run_steps-queue cs sock (S.setsockopt sock o w).1 s h
        (run_steps-cons S (option o) cs sock w e).1
      ∙ r.option_queue w sock o s
  run_steps-queue (bind a ∷ cs) sock w s h e = absurd h

  pub sender-Listens :
      (o : Settings) (group : Text) (port : ℤ) (w : S.World) {tx : MultiCast} {w' : S.World} {s : ℤ}
      {g p : ℕ} {q : List (List ℕ)}
      → factory S o group port mc_sender w ≡ returns tx w'
      → Listens S V w s g p q
      → (made S o group port mc_sender (S.socket w).0 ≡ tx) × Listens S V w' s g p q
  sender-Listens o group port w e l =
      let (a, h, m) = factory-eq-returns S o group port mc_sender w e in
      (
        m,
        run_steps-Listens (steps S o group port mc_sender) _ (S.socket w).1
            (AreOptions-append (interface_steps S o.multicast_if) _
              (interface_steps-AreOptions S o.multicast_if)
              (AreOptions-append (limit_steps o.unicast_ttl (ip_ttl o.unicast_ttl)) _
                (limit_steps-AreOptions (ltb_ℤ (pos 1) o.unicast_ttl) (ip_ttl o.unicast_ttl))
                (limit_steps-AreOptions (ltb_ℤ (pos 1) o.multicast_ttl)
                  (ip_multicast_ttl o.multicast_ttl))))
            (r.socket_listens w l) h,
      )

  pub receiver-Listens :
      (o : Settings) (group : Text) (port : ℤ) (w : S.World) {rx : MultiCast} {w' : S.World}
      → factory S o group port mc_receiver w ≡ returns rx w'
      → (made S o group port mc_receiver (S.socket w).0 ≡ rx)
        × Listens S V w' (S.socket w).0 (S.inet_addr group) (to_bits 16 port) []
  receiver-Listens o group port w {rx} {w'} e =
      let (a, h, m) = factory-eq-returns S o group port mc_receiver w e in
      let sock = (S.socket w).0 in
      let (v, h0, h1) =
        run_steps-append S (interface_steps S o.multicast_if)
          (class_steps S mc_receiver o group port) sock (S.socket w).1 h in
      let empty =
        run_steps-queue (interface_steps S o.multicast_if) sock (S.socket w).1 sock
          (interface_steps-AreOptions S o.multicast_if) h0
        ∙ r.socket_empty w a in
      let joining = option (ip_add_membership (mreq_of S o group)) in
      let (b, h2) = run_steps-cons S (bind (any_addr port)) (joining ∷ []) sock v h1 in
      let bound = r.bind_port v sock (to_bits 16 port) b in
      let (c, h3) = run_steps-cons S joining [] sock (S.bind sock (any_addr port) v).1 h2 in
      let joined =
        r.join (S.bind sock (any_addr port) v).1 sock (mreq_of S o group) (to_bits 16 port)
          (bound.0) c in
      let group_addr = S.inet_addr group in
      (
        m,
        subst (λ u. Listens S V u sock group_addr (to_bits 16 port) []) (cc h3)
            (subst
              (λ q.
                Listens S V (perform S sock joining (S.bind sock (any_addr port) v).1).1 sock
                  group_addr (to_bits 16 port) q)
              (bound.1 ∙ empty) joined),
      )
