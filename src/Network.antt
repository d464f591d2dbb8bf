-- ===== src/Network.antt =====
-- Multicast.cpp and Multicast.h: the sender and the receiver of datagrams. What is printed is
-- not modelled.
pub mod Kernel
pub mod Plan
pub mod Reliable
pub mod SetUp
pub mod Examples
pub mod Delivery
use acq400_xrm.Prelude.{ℕ, Bool, Option, none, some, List, ◌++◌, length, take, drop, if◌then◌else◌}
use acq400_xrm.Prelude.Int.{ℤ, pos, negsuc, to_bits, ltb_ℤ}
use acq400_xrm.Prelude.Text.{Text}
use acq400_xrm.Network.Kernel.{
  SockAddr, IpMreq, SockOpt, ip_multicast_if, ip_ttl, ip_multicast_ttl, ip_add_membership, Sockets,
  Run, exits, returns, ◌>>=◌, ◌>>◌, checked,
}

-- The static members: the interface, if one is set, and the limits from the environment.
pub record Settings : Type 0 where
  pub multicast_if : Option Text
  pub unicast_ttl : ℤ
  pub multicast_ttl : ℤ

-- enum MC
pub data Mc : Type 0 where
  mc_sender mc_receiver : Mc

-- The class of the object, a receiver with its filter.
pub data Role : Type 0 where
  sender : Role
  receiver : IpMreq → Role

-- MultiCastImpl with the members of its two classes.
pub record MultiCast : Type 0 where
  pub group : Text
  pub port : ℤ
  pub addr : SockAddr
  pub sock : ℤ
  pub role : Role

-- INADDR_ANY, and the port as htons() takes it.
abbrev pub any_addr : ℤ → SockAddr
any_addr port = record { sin_addr = 0; sin_port = to_bits 16 port }

-- set_IP_MULTICAST_IF(addr)
unfoldable pub set_multicast_if : Option Text → Settings → Settings
set_multicast_if addr o = record o { multicast_if = addr }

module _ (S : Sockets) where
  -- setsockopt() under the check of its answer.
  unfoldable pub set_option : ℤ → SockOpt → S.World → Run S.World ℤ
  set_option sock option = checked (S.setsockopt sock option)

  unfoldable pub set_interface : Option Text → ℤ → S.World → Run S.World ℤ
  set_interface none sock = returns (pos 0)
  set_interface (some name) sock = set_option sock (ip_multicast_if (S.inet_addr name))

  -- The base constructor: the socket, whose address and port become members.
  unfoldable pub new_impl : Settings → S.World → Run S.World ℤ
  new_impl o = do sock ← checked S.socket; _ ← set_interface o.multicast_if sock; returns sock

  -- if (ttl > 1)
  unfoldable pub set_limit : ℤ → ℤ → SockOpt → S.World → Run S.World ℤ
  set_limit ttl sock option = if ltb_ℤ (pos 1) ttl then set_option sock option else returns (pos 0)

  unfoldable pub new_sender : Settings → Text → ℤ → S.World → Run S.World MultiCast
  new_sender o group port = do
    sock ← new_impl o
    _ ← set_limit o.unicast_ttl sock (ip_ttl o.unicast_ttl)
    _ ← set_limit o.multicast_ttl sock (ip_multicast_ttl o.multicast_ttl)
    returns
        (record { group = group; port = port; addr = any_addr port; sock = sock; role = sender })

  unfoldable pub interface_of : Option Text → ℕ
  interface_of none = 0
  interface_of (some name) = S.inet_addr name

  abbrev pub mreq_of : Settings → Text → IpMreq
  mreq_of o group = record {
    imr_multiaddr = S.inet_addr group;
    imr_interface = interface_of o.multicast_if;
  }

  unfoldable pub new_receiver : Settings → Text → ℤ → S.World → Run S.World MultiCast
  new_receiver o group port = do
    sock ← new_impl o
    _ ← checked (S.bind sock (any_addr port))
    let mreq = mreq_of o group
    _ ← set_option sock (ip_add_membership mreq)
    returns (record {
      group = group;
      port = port;
      addr = any_addr port;
      sock = sock;
      role = receiver mreq;
    })

  -- MultiCast::factory()
  unfoldable pub factory : Settings → Text → ℤ → Mc → S.World → Run S.World MultiCast
  factory o group port mc_sender = new_sender o group port
  factory o group port mc_receiver = new_receiver o group port

  unfoldable pub send_group : MultiCast → List ℕ → S.World → Run S.World (ℤ × MultiCast)
  send_group m message = do
    let to : SockAddr = record (m.addr) { sin_addr = S.inet_addr m.group }
    rc ← checked (S.sendto m.sock message to)
    returns (rc, record m { addr = to })

  -- sendto(message, len): the base class answers -1 for a receiver.
  unfoldable pub sendto : Role → MultiCast → List ℕ → ℕ → S.World → Run S.World (ℤ × MultiCast)
  sendto sender m message len = send_group m (take len message)
  sendto (receiver mreq) m message len = returns (negsuc 0, m)

  -- What is left in the memory at `message`, the answer, and the receiver, whose address is the
  -- one of who sent.
  unfoldable pub recv_group :
      MultiCast → List ℕ → ℕ → S.World → Run S.World (ℤ × List ℕ × MultiCast)
  recv_group m message len w =
      let (r, w') = S.recvfrom m.sock len w in
      (do
        rc ← checked (λ v. (r.rc, v))
        returns (rc, r.bytes ++ drop (length r.bytes) message, record m { addr = r.from }))
        w'

  -- recvfrom(message, len)
  unfoldable pub recvfrom :
      Role → MultiCast → List ℕ → ℕ → S.World → Run S.World (ℤ × List ℕ × MultiCast)
  recvfrom sender m message len = returns (negsuc 0, message, m)
  recvfrom (receiver mreq) m message len = recv_group m message len

-- acq400_FMT_abc::init_mc_url(): `none` is a parameter that cannot be read.
unfoldable pub init_mc_url : {W : Type 0} → Option Text → Option ℤ → W → Run W (Text × ℤ)
init_mc_url (some group) (some port) w = returns (group, port) w
init_mc_url _ _ w = exits w

-- acq400_FMT_abc::mc_factory(txrx)
unfoldable pub mc_factory :
    (S : Sockets) → Settings → Option Text → Option ℤ → Mc → S.World → Run S.World MultiCast
mc_factory S o group port txrx = init_mc_url group port >>= λ url. factory S o (url.0) (url.1) txrx
