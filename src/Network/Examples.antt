-- ===== src/Network/Examples.antt =====
-- A segment within one machine, with a sender and a receiver on it.
use acq400_xrm.Prelude.{
  ℕ, ◌+◌, ◌≡◌, refl, Bool, false, ◌&&◌, ◌||◌, Option, none, some, List, [], ◌∷◌, ◌++◌, arith,
  length, take, ltb, ◌==◌, if◌then◌else◌,
}
use acq400_xrm.Prelude.Int.{ℤ, pos, negsuc, pos_part}
use acq400_xrm.Prelude.Memory.{Mem, update}
use acq400_xrm.Prelude.Text.{Text}
use acq400_xrm.Network.Kernel.{
  SockAddr, SockOpt, ip_multicast_if, ip_ttl, ip_multicast_ttl, ip_add_membership, Received,
  Sockets, Run, exits, returns, checked,
}
use acq400_xrm.Network.{
  Settings, mc_sender, mc_receiver, MultiCast, sender, any_addr, new_sender, new_receiver, new_impl,
  set_interface, set_limit, set_option as option_call, interface_of, send_group, sendto, factory,
}
use acq400_xrm.Network.Delivery.{send_each, recv_each, recv_each-send_each}
use acq400_xrm.Network.Reliable.{View, IsReliable}

record Node : Type 0 where
  pub port : Option ℕ
  pub groups : ℕ → Bool
  pub queue : List (List ℕ)

record Segment : Type 0 where
  pub next : ℕ
  pub nodes : Mem Node

abbrev opened : Segment → ℤ → Bool
opened w s = ltb (pos_part s) w.next

abbrev empty_node : Node
empty_node = record { port = none; groups = λ g. false; queue = [] }

abbrev change : Segment → ℤ → Node → Segment
change w s n = record w { nodes = update w.nodes (pos_part s) n }

abbrev join_group : Segment → ℤ → ℕ → Segment
join_group w s g =
    let n = w.nodes (pos_part s) in change w s (record n { groups = λ h. h == g || n.groups h })

abbrev set_option : ℤ → SockOpt → Segment → ℤ × Segment
set_option s (ip_multicast_if a) w = (pos 0, w)
set_option s (ip_ttl n) w = (pos 0, w)
set_option s (ip_multicast_ttl n) w = (pos 0, w)
set_option s (ip_add_membership m) w =
    if opened w s then (pos 0, join_group w s m.imr_multiaddr) else (negsuc 0, w)

abbrev takes : Node → SockAddr → Bool
takes n to = (elim n.port [ none ↦ false | some p ↦ p == to.sin_port ]) && n.groups to.sin_addr

abbrev deliver : List ℕ → SockAddr → Node → Node
deliver message to n = if takes n to then record n { queue = n.queue ++ message ∷ [] } else n

abbrev receive : Segment → ℤ → ℕ → List (List ℕ) → Received × Segment
receive w s len [] =
    (record { rc = negsuc 0; bytes = []; from = record { sin_addr = 0; sin_port = 0 } }, w)
receive w s len (m ∷ q) = (
  record {
    rc = pos (length (take len m));
    bytes = take len m;
    from = record { sin_addr = 1; sin_port = 0 };
  },
  change w s (record (w.nodes (pos_part s)) { queue = q }),
)

abbrev segment : Sockets
segment = record {
  World = Segment;
  inet_addr = length;
  socket =
      λ w. (pos w.next, record { next = w.next + 1; nodes = update w.nodes w.next empty_node });
  setsockopt = set_option;
  bind = λ s a w.
      let n = w.nodes (pos_part s) in
      if opened w s
      then (pos 0, change w s (record n { port = some a.sin_port }))
      else (negsuc 0, w);
  sendto = λ t message to w.
      (pos (length message), record w { nodes = λ i. deliver message to (w.nodes i) });
  recvfrom = λ s len w. receive w s len (w.nodes (pos_part s)).queue;
}

abbrev view : View segment
view = record {
  port_of = λ w s. if opened w s then (w.nodes (pos_part s)).port else none;
  member = λ w s g. if opened w s then (w.nodes (pos_part s)).groups g else false;
  queue = λ w s. if opened w s then (w.nodes (pos_part s)).queue else [];
}

segment-IsReliable : IsReliable segment view
unfolding update
segment-IsReliable = record {
  socket_empty = λ w h. ground arith;
  socket_listens = λ w l. ground arith;
  option_listens = λ w t o l. ground arith;
  option_queue = λ w t o s. ground arith;
  bind_port = λ w s p h. ground arith;
  join = λ w s m p e h. ground arith;
  send = λ w t message l h. ground arith;
  recv = λ w s len l. ground arith;
}

abbrev start : Segment
start = record { next = 3; nodes = λ i. empty_node }

abbrev settings : Settings
settings = record { multicast_if = some (7 ∷ []); unicast_ttl = pos 1; multicast_ttl = pos 4 }

abbrev group : Text
group = 1 ∷ 2 ∷ 3 ∷ []

abbrev nobody : MultiCast
nobody = record {
  group = [];
  port = pos 0;
  addr = any_addr (pos 0);
  sock = negsuc 0;
  role = sender;
}

abbrev object_of : Run Segment MultiCast → MultiCast × Segment
object_of (exits w) = (nobody, w)
object_of (returns m w) = (m, w)

abbrev rx : MultiCast × Segment
rx = object_of (factory segment settings group (pos 5000) mc_receiver start)

abbrev tx : MultiCast × Segment
tx = object_of (factory segment settings group (pos 5000) mc_sender rx.1)

abbrev tables : List (List ℕ)
tables = (1 ∷ 2 ∷ []) ∷ (3 ∷ 4 ∷ []) ∷ []

abbrev sent : MultiCast × Segment
sent = object_of (send_each segment tables 2 tx.0 tx.1)

recv_each-send_each_example :
    (rx' : MultiCast) × (w4 : Segment) × (recv_each segment
        ((0 ∷ 0 ∷ []) ∷ (9 ∷ 9 ∷ []) ∷ [])
        2
        rx.0
        sent.1
      ≡ returns (tables, rx') w4)
unfolding factory new_sender new_receiver new_impl set_interface set_limit option_call interface_of
    checked send_group sendto
recv_each-send_each_example =
    recv_each-send_each segment view segment-IsReliable settings settings group group (pos 5000)
      (pos 5000) 2 tables ((0 ∷ 0 ∷ []) ∷ (9 ∷ 9 ∷ []) ∷ []) start refl refl refl (refl, (refl, tt))
      (refl, (refl, tt)) refl refl refl

-- A system without sockets.
abbrev refusing : Sockets
refusing = record segment { socket = λ w. (negsuc 0, w) }

factory_refused : factory refusing settings group (pos 5000) mc_sender start ≡ exits start
unfolding factory new_sender new_impl checked
factory_refused = refl
