-- ===== src/Stack/Tests.antt =====
-- The witnesses of the theorems on the parts together.
use xstack_io.Prelude.{
  ℕ, set, ◌+◌, ◌≡◌, refl, ap, ap₂, arith, List, [], ◌∷◌, ◌++◌, some, inl, length, replicate, take,
  drop, u32, ℕ_discrete,
}
use xstack_io.Prelude.Int.{pos}
use xstack_io.Ether.Send.{EtherLinux, Sendto}
use xstack_io.IpDefer.{zeroed}
use xstack_io.Ether.Receive.{arrived, ether_receive}
use xstack_io.RbTree.{RbTree}
use xstack_io.RbTree.Ordered.{RbTrees}
use xstack_io.RbTree.Assoc.{Changes, assoc}
use xstack_io.SlotTree.Slots.{slots, slots-IsSlotTree}
use xstack_io.Route.{IpRoute, ip_route_find_by_network, ip_route_find_by_iface}
use xstack_io.Arp.{ArpIp, arp_hton, arp_input}
use xstack_io.Arp.Answer.{IsArp}
use xstack_io.Arp.Cache.{ArpTable, cached}
use xstack_io.Arp.Cache.Valid.{IsValid}
use xstack_io.Arp.Cache.Lookup.{arp_laws, AgreesBut}
use xstack_io.Arp.Cache.Start.{free_entry, free-IsValid}
use xstack_io.Ether.{EtherHdr}
use xstack_io.IpHdr.{IpHdr, ip_hdr_bytes}
use xstack_io.QueueR.{QueueCb}
use xstack_io.QueueR.Valid.{IsValid as IsQueue}
use xstack_io.Tcp.{Sockaddr}
use xstack_io.Udp.{xstack_udp_send}
use xstack_io.Sock.{Dgram, Pipe, XstackSock, xip_proto_udp}
use xstack_io.IpInput.{IpHandler}
use xstack_io.Stack.Node.{Node, Running}
use xstack_io.Stack.Verdict.{Outcome}
use xstack_io.Stack.EndToEnd.{datagram_path}
use xstack_io.IpOutput.{Output}
use xstack_io.Stack.{Host, host_arp, host_send, host_ip_send}
use xstack_io.Stack.Neighbour.{arp_input_then_send}

abbrev tree : RbTrees ℕ (Changes ℕ)
tree = λ cmp. assoc ℕ_discrete

abbrev eth0 : EtherLinux
eth0 = record { el_fd = 3; el_mac = 2 ∷ 0 ∷ 0 ∷ 0 ∷ 0 ∷ 1 ∷ []; el_ifindex = 2 }

-- The kernel sends every frame whole.
abbrev kernel : Sendto
kernel w f = pos (length f)

abbrev local : IpRoute
local = record {
  r_network = 0x0a000000;
  r_netmask = 0xffffff00;
  r_gw = 0;
  r_iface = 0x0a000002;
  r_iface_handle = 0;
}

abbrev start : Output (Changes ℕ) (ArpTable (List ℕ))
start = record {
  rib = record {
    rib = local ∷ [];
    rib_routetree = (0x0a000000, some 0) ∷ [];
    rib_sourcetree = (0x0a000002, some 0) ∷ [];
    rib_freelist = [];
  };
  arp = record { arp_cache = replicate 50 free_entry; arp_cache_head = [] };
  defer = record { defer_inhibit = 0; ip_defer_queue = replicate 20 zeroed; q_rd = 0; q_wr = 0 };
  ip_global_id = 7;
  wire = [];
}

abbrev host : Host (Changes ℕ) (List ℕ)
host = record { errno = 0; out = start }

-- 10.0.0.7 is at 02:00:00:00:00:07.
abbrev is_at : ArpIp
is_at = record {
  arp_htype = 1;
  arp_ptype = 0x0800;
  arp_hlen = 6;
  arp_plen = 4;
  arp_oper = 2;
  arp_sha = 2 ∷ 0 ∷ 0 ∷ 0 ∷ 0 ∷ 7 ∷ [];
  arp_spa = 0x0a000007;
  arp_tha = 2 ∷ 0 ∷ 0 ∷ 0 ∷ 0 ∷ 1 ∷ [];
  arp_tpa = 0x0a000002;
}

is_at-IsArp : IsArp is_at
is_at-IsArp = record {
  htype = omega arith;
  ptype = omega arith;
  oper = omega arith;
  spa = omega arith;
  tpa = omega arith;
}

routed : ip_route_find_by_network tree 0x0a000007 start.rib ≡ some local
unfolding ip_route_find_by_network ℕ_discrete
routed = refl

arp_input_then_send_example :
    let h' =
      (arp_input (eth0 ∷ []) (host_arp tree slots (eth0 ∷ []) kernel) (arp_hton is_at) 28 host).2 in
    (frame : List ℕ) × (host_send tree slots
        (eth0 ∷ [])
        kernel
        0x0a000007
        17
        (1 ∷ 2 ∷ 3 ∷ [])
        0
        h'.out
      ≡ some (
        pos (length frame),
        0,
        record h'.out {
          wire = h'.out.wire ++ (frame ∷ []);
          ip_global_id = u32 (h'.out.ip_global_id + 1);
        },
      ))
    × (take 6 frame ≡ 2 ∷ 0 ∷ 0 ∷ 0 ∷ 0 ∷ 7 ∷ [])
    × (take 2 (drop 12 frame) ≡ 8 ∷ 0 ∷ [])
    × IsValid (arp_laws slots-IsSlotTree 0x0a000000) h'.out.arp
    × AgreesBut slots 0x0a000000 0x0a000007 start.arp h'.out.arp
arp_input_then_send_example =
    arp_input_then_send tree slots-IsSlotTree 0x0a000000 eth0 kernel is_at 28 host local 17
      (1 ∷ 2 ∷ 3 ∷ []) 0 is_at-IsArp refl refl (free-IsValid slots-IsSlotTree 0x0a000000)
      (λ e. absurd (cc e)) (omega arith, omega arith, omega arith) (49, free_entry, refl, inl refl)
      routed refl refl refl (omega arith) (omega arith) (omega arith) (omega arith)

-- Sockets are found by the list of their addresses.
abbrev here : Sockaddr
here = record { inet4_addr = 0x0a000002; port = 53 }

abbrev there : Sockaddr
there = record { inet4_addr = 0x0a000007; port = 40000 }

abbrev sockaddr_discrete : Discrete Sockaddr
sockaddr_discrete a b = elim (ℕ_discrete a.inet4_addr b.inet4_addr) [
  | no ne ↦ no (λ e. ne (ap (λ x. x.inet4_addr) e))
  | yes p ↦ elim (ℕ_discrete a.port b.port) [
    | no ne ↦ no (λ e. ne (ap (λ x. x.port) e))
    | yes q ↦ yes (ap₂ (λ x y. record { inet4_addr = x; port = y }) p q)
  ]
]

abbrev udp_tree : RbTree Sockaddr (Changes Sockaddr)
udp_tree = assoc sockaddr_discrete

abbrev block : Dgram
block = record { srcaddr = there; dstaddr = there; buf_size = 1; buf = 9 ∷ [] }

-- A queue of four blocks in which one is stored.
abbrev stored : QueueCb
stored = record { b_size = 4096; a_len = 4; m_write = 1; m_read = 0 }

stored-IsValid : IsQueue stored
stored-IsValid = record {
  block = omega arith;
  write_in = omega arith;
  read_in = omega arith;
  small = omega arith;
}

abbrev pipe : Pipe
pipe = record { queue = stored; blocks = λ i. block }

abbrev sock : XstackSock
sock = record { sock_proto = xip_proto_udp; sock_addr = here; ingress = pipe; egress = pipe }

-- The host 10.0.0.2 knows where 10.0.0.7 is.
abbrev mac : List ℕ
mac = 2 ∷ 0 ∷ 0 ∷ 0 ∷ 0 ∷ 7 ∷ []

abbrev knowing : Host (Changes ℕ) (List ℕ)
knowing = record {
  errno = 0;
  out = record start {
    arp = record {
      arp_cache =
          set (replicate 50 free_entry) 49
            (record { ip_addr = 0x0a000007; haddr = mac; age = pos 0 });
      arp_cache_head = 49 ∷ [];
    };
  };
}

knows : cached slots 0x0a000007 knowing.out.arp ≡ some mac
unfolding cached
knows = refl

-- The host 10.0.0.7, with one socket.
abbrev theirs : IpRoute
theirs = record local { r_iface = 0x0a000007 }

abbrev node : Node (Changes ℕ) (List ℕ) (Changes Sockaddr)
node = record {
  host = record {
    errno = 0;
    out = record start {
      rib = record start.rib { rib = theirs ∷ []; rib_sourcetree = (0x0a000007, some 0) ∷ [] };
    };
  };
  sockets = sock ∷ [];
  udp_sock_tree = (there, some 0) ∷ [];
}

abbrev World : Type 0
World = Running (Changes ℕ) (List ℕ) (Changes Sockaddr)

abbrev no_fragments : IpHdr → List ℕ → World → World
no_fragments ip payload w = w

abbrev no_tcp : ℕ × IpHandler World
no_tcp = (6, λ ip payload w. (pos 0, payload, w))

own : ip_route_find_by_iface tree 0x0a000007 node.host.out.rib ≡ some theirs
unfolding ip_route_find_by_iface ℕ_discrete
own = refl

bound : udp_tree.find there node.udp_sock_tree ≡ some 0
unfolding ℕ_discrete
bound = refl

abbrev eth7 : EtherLinux
eth7 = record { el_fd = 3; el_mac = mac; el_ifindex = 2 }

-- 1472 bytes are sent to a socket in which a datagram waits.
abbrev long_buf : List ℕ
long_buf = replicate 1472 7

datagram_path_example :
    (net : IpHdr) × (packet : List ℕ) × (tail : List ℕ) × (frame : List ℕ) × (a' : Host
      (Changes ℕ)
      (List ℕ))
    × (e_hdr : EtherHdr) × (xstack_udp_send
          (host_ip_send tree slots (eth0 ∷ []) kernel)
          here
          there
          long_buf
          knowing
        ≡ (pos (length frame), a'))
    × (a'.out.wire ≡ frame ∷ [])
    × (take 6 frame ≡ mac)
    × (ether_receive (eth7 ∷ []) 0 1514 (arrived (take 1514 frame) ∷ [])
        ≡ some (pos 1500, some e_hdr, ip_hdr_bytes net (packet ++ tail), []))
    × (e_hdr.h_src ≡ eth0.el_mac)
    × Outcome tree slots udp_tree eth7 kernel no_fragments no_tcp here long_buf node e_hdr 0 sock
        4096 net
        (packet ++ tail)
datagram_path_example =
    datagram_path tree slots eth0 kernel tree slots udp_tree eth7 kernel [] no_fragments no_tcp here
      there long_buf knowing local mac node theirs 0 sock 4096 routed refl refl knows refl refl refl
      (omega arith) (omega arith) (omega arith) (omega arith) (omega arith) (omega arith) own bound
      refl stored-IsValid (omega arith, tt) (omega arith) (omega arith)
