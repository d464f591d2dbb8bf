-- ===== src/Network/Plan.antt =====
-- The set-up of an object as a list of calls on its socket.
use acq400_xrm.Prelude.{arith, ◌≡◌, Option, none, some, List, [], ◌∷◌, ◌++◌, if◌then◌else◌}
use acq400_xrm.Prelude.Int.{ℤ, pos, negsuc, ltb_ℤ}
use acq400_xrm.Prelude.Text.{Text}
use acq400_xrm.Network.Kernel.{
  SockAddr, SockOpt, ip_multicast_if, ip_ttl, ip_multicast_ttl, ip_add_membership, Sockets, Run,
  exits, returns, ◌>>=◌, ◌>>◌, checked,
}
use acq400_xrm.Network.{
  Settings, Mc, mc_sender, mc_receiver, MultiCast, sender, receiver, any_addr, mreq_of, set_option,
  set_interface, new_impl, set_limit, new_sender, new_receiver, factory,
}

-- A call on the socket.
pub data Step : Type 0 where
  option : SockOpt → Step
  bind : SockAddr → Step

abbrev pub limit_steps : ℤ → SockOpt → List Step
limit_steps ttl o = if ltb_ℤ (pos 1) ttl then option o ∷ [] else []

module _ (S : Sockets) where
  abbrev pub interface_steps : Option Text → List Step
  interface_steps none = []
  interface_steps (some name) = option (ip_multicast_if (S.inet_addr name)) ∷ []

  abbrev pub class_steps : Mc → Settings → Text → ℤ → List Step
  class_steps mc_sender o group port =
      limit_steps o.unicast_ttl (ip_ttl o.unicast_ttl)
      ++ limit_steps o.multicast_ttl (ip_multicast_ttl o.multicast_ttl)
  class_steps mc_receiver o group port =
      bind (any_addr port) ∷ option (ip_add_membership (mreq_of S o group)) ∷ []

  -- The calls of the set-up, in order.
  abbrev pub steps : Settings → Text → ℤ → Mc → List Step
  steps o group port mode = interface_steps o.multicast_if ++ class_steps mode o group port

  abbrev pub perform : ℤ → Step → S.World → ℤ × S.World
  perform sock (option o) = S.setsockopt sock o
  perform sock (bind a) = S.bind sock a

  -- The calls up to the first that fails.
  abbrev pub run_steps : ℤ → List Step → S.World → Run S.World (Unit {0})
  run_steps sock [] = returns tt
  run_steps sock (c ∷ cs) = checked (perform sock c) >> run_steps sock cs

  abbrev pub made : Settings → Text → ℤ → Mc → ℤ → MultiCast
  made o group port mode sock = record {
    group = group;
    port = port;
    addr = any_addr port;
    sock = sock;
    role = elim mode [ mc_sender ↦ sender | mc_receiver ↦ receiver (mreq_of S o group) ];
  }

  pub factory-run_steps :
      (o : Settings) (group : Text) (port : ℤ) (mode : Mc) (w : S.World)
      → factory S o group port mode w
        ≡ (checked S.socket >>= λ sock.
              run_steps sock (steps o group port mode) >> returns (made o group port mode sock))
            w
  unfolding factory new_sender new_receiver new_impl set_interface set_limit set_option
  factory-run_steps o group port mc_sender w = ground arith
  factory-run_steps o group port mc_receiver w = ground arith

  -- A negative result of a call ends the process there, and any other is handed on.
  abbrev pub stop_or : {A : Type 0} → ℤ × S.World → (ℤ → S.World → Run S.World A) → Run S.World A
  stop_or (negsuc n, w) k = exits w
  stop_or (pos n, w) k = k (pos n) w

  -- The calls in order, and then the object.
  abbrev pub set_up : ℤ → List Step → MultiCast → S.World → Run S.World MultiCast
  set_up sock [] m w = returns m w
  set_up sock (c ∷ cs) m w = stop_or (perform sock c w) (λ _ v. set_up sock cs m v)
