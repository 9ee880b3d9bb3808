-- ===== src/Arp/Tests.antt =====
-- Tests of the ARP messages and the witnesses of their theorems.
use xstack_io.Prelude.{
  swap16, ℕ, ◌≡◌, refl, arith, List, [], ◌∷◌, none, some, length, replicate, ◌==◌, if◌then◌else◌,
}
use xstack_io.Prelude.Int.{pos, neg}
use xstack_io.Prelude.Errno.{eprototype}
use xstack_io.Ether.Send.{EtherLinux, ether_handle2addr}
use xstack_io.Arp.{ArpIp, ArpStack, arp_bytes, arp_hton, arp_ntoh, arp_input}
use xstack_io.Arp.Answer.{IsArp, arp_input_request}

abbrev eth0 : EtherLinux
eth0 = record { el_fd = 3; el_mac = 2 ∷ 0 ∷ 0 ∷ 0 ∷ 0 ∷ 1 ∷ []; el_ifindex = 2 }

-- Who has 10.0.0.1? Tell 10.0.0.2.
abbrev who_has : ArpIp
who_has = record {
  arp_htype = 1;
  arp_ptype = 0x0800;
  arp_hlen = 6;
  arp_plen = 4;
  arp_oper = 1;
  arp_sha = 2 ∷ 0 ∷ 0 ∷ 0 ∷ 0 ∷ 2 ∷ [];
  arp_spa = 0x0a000002;
  arp_tha = replicate 6 0;
  arp_tpa = 0x0a000001;
}

who_has-IsArp : IsArp who_has
who_has-IsArp = record {
  htype = omega arith;
  ptype = omega arith;
  oper = omega arith;
  spa = omega arith;
  tpa = omega arith;
}

-- The state is the list of the addresses in the cache.
abbrev stack : ArpStack (List ℕ)
stack = record {
  arp_cache_insert = λ ip mac w. ip ∷ w;
  ip_defer_handler = λ w. w;
  ip_route_find_by_iface = λ ip w. if ip == 0x0a000001 then some (ip, 0) else none;
}

message_size : length (arp_bytes who_has) ≡ 28
message_size = refl

not_ether :
    (arp_input (eth0 ∷ []) stack (record who_has { arp_htype = 0x0600 }) 28 []).0 ≡ neg eprototype
unfolding arp_input swap16
not_ether = refl

arp_input_request_example :
    let (retval, reply, after) = arp_input (eth0 ∷ []) stack (arp_hton who_has) 28 [] in
    (retval ≡ pos 28)
    × (after ≡ 0x0a000002 ∷ [])
    × (arp_ntoh reply ≡ record who_has {
      arp_oper = 2;
      arp_sha = (ether_handle2addr (eth0 ∷ []) 0 who_has.arp_sha).0;
      arp_spa = 0x0a000001;
      arp_tha = who_has.arp_sha;
      arp_tpa = 0x0a000002;
    })
arp_input_request_example =
    arp_input_request (eth0 ∷ []) stack who_has 28 [] 0x0a000001 0 who_has-IsArp (omega arith)
      (omega arith) refl refl refl refl
