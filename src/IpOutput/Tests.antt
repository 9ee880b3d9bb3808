-- ===== src/IpOutput/Tests.antt =====
-- Tests of the output of src/ip.c and the witness of its theorem.
use xstack_io.Prelude.{
  ℕ, ◌≡◌, refl, arith, List, [], ◌∷◌, none, some, length, take, drop, replicate, ℕ_discrete,
}
use xstack_io.Prelude.Int.{pos, negsuc}
use xstack_io.Prelude.Errno.{ehostunreach, enodev}
use xstack_io.Checksum.{ip_checksum}
use xstack_io.Ether.Send.{EtherLinux, Sendto}
use xstack_io.IpHdr.{IpHdr, ip_hdr_bytes, ip_ntoh}
use xstack_io.IpDefer.{zeroed}
use xstack_io.RbTree.Ordered.{RbTrees}
use xstack_io.RbTree.Assoc.{Changes, assoc}
use xstack_io.Route.{IpRoute, ip_route_find_by_network}
use xstack_io.IpOutput.{ArpCache, Output, ip_send}
use xstack_io.IpOutput.Sends.{ip_send_whole}

abbrev tree : RbTrees ℕ (Changes ℕ)
tree = λ cmp. assoc ℕ_discrete

abbrev eth0 : EtherLinux
eth0 = record { el_fd = 3; el_mac = 2 ∷ 0 ∷ 0 ∷ 0 ∷ 0 ∷ 1 ∷ []; el_ifindex = 2 }

abbrev gateway : List ℕ
gateway = 2 ∷ 0 ∷ 0 ∷ 0 ∷ 0 ∷ 9 ∷ []

abbrev local : IpRoute
local = record {
  r_network = 0x0a000000;
  r_netmask = 0xffffff00;
  r_gw = 0;
  r_iface = 0x0a000002;
  r_iface_handle = 0;
}

-- The kernel sends every frame whole.
abbrev kernel : Sendto
kernel w f = pos (length f)

abbrev cache : ArpCache ℕ
cache = record {
  arp_cache_get_haddr = λ iface ip errno w wire. (some gateway, errno, w, wire);
  insert_static = λ ip mac w. w;
}

-- The request for the address could not be sent.
abbrev no_request : ArpCache ℕ
no_request = record cache { arp_cache_get_haddr = λ iface ip errno w wire. (none, enodev, w, wire) }

abbrev start : Output (Changes ℕ) ℕ
start = record {
  rib = record {
    rib = local ∷ [];
    rib_routetree = (0x0a000000, some 0) ∷ [];
    rib_sourcetree = (0x0a000002, some 0) ∷ [];
    rib_freelist = [];
  };
  arp = 0;
  defer = record { defer_inhibit = 0; ip_defer_queue = replicate 20 zeroed; q_rd = 0; q_wr = 0 };
  ip_global_id = 7;
  wire = [];
}

has_route : ip_route_find_by_network tree 0x0a000007 start.rib ≡ some local
unfolding ip_route_find_by_network ℕ_discrete
has_route = refl

ip_send_whole_example :
    (net : IpHdr) × (frame : List ℕ) × (ip_send tree cache
        (eth0 ∷ [])
        kernel
        0x0a000007
        17
        (1 ∷ 2 ∷ 3 ∷ [])
        0
        start
      ≡ some (pos (length frame), 0, record start { wire = frame ∷ []; ip_global_id = 8 }))
    × (take 6 frame ≡ gateway)
    × (take 2 (drop 12 frame) ≡ 8 ∷ 0 ∷ [])
    × (take 23 (drop 14 frame) ≡ ip_hdr_bytes net (1 ∷ 2 ∷ 3 ∷ []))
    × (ip_checksum (take 20 (ip_hdr_bytes net (1 ∷ 2 ∷ 3 ∷ []))) ≡ 0)
    × ((ip_ntoh net).0.ip_src ≡ 0x0a000002)
    × ((ip_ntoh net).0.ip_dst ≡ 0x0a000007)
    × ((ip_ntoh net).0.ip_proto ≡ 17)
    × ((ip_ntoh net).0.ip_len ≡ 23)
    × ((ip_ntoh net).0.ip_id ≡ 7)
ip_send_whole_example =
    ip_send_whole tree cache eth0 kernel local gateway 0x0a000007 17 (1 ∷ 2 ∷ 3 ∷ []) 0 start 0 0 []
      has_route refl refl refl refl (omega arith) (omega arith) (omega arith) (omega arith)
      (omega arith)

-- A failure of the cache other than EHOSTUNREACH looks like success, and the packet is lost.
lost :
    ip_send tree no_request (eth0 ∷ []) kernel 0x0a000007 17 (1 ∷ []) 0 start
    ≡ some (pos 0, enodev, start)
unfolding ip_send ip_route_find_by_network ℕ_discrete
lost = refl

no_route_left :
    ip_send tree cache (eth0 ∷ []) kernel 0x0b000001 17 (1 ∷ []) 0 start
    ≡ some (negsuc 0, ehostunreach, start)
unfolding ip_send ip_route_find_by_network ℕ_discrete
no_route_left = refl
