-- ===== src/IpInput/Tests.antt =====
-- Tests of the IP input and the witnesses of its theorems.
use xstack_io.Prelude.{
  ℕ, ◌≡◌, ◌≢◌, refl, arith, List, [], ◌∷◌, some, true, false, ◌==◌, drop, get_or, bit_and, swap16,
  swap32, ◌++◌, take, replicate, none,
}
use xstack_io.Prelude.Int.{pos}
use xstack_io.Checksum.{ip_checksum}
use xstack_io.Ether.{EtherHdr}
use xstack_io.IpHdr.{IpHdr, ip_ntoh, ip_hdr_hlen, ip_fragment_is_frag}
use xstack_io.IpHdr.Convert.{IsHdr}
use xstack_io.Tcp.{Sockaddr}
use xstack_io.Udp.{Sockets, udp_input}
use xstack_io.Udp.Delivery.{datagram}
use xstack_io.IpInput.Unbound.{ip_input_unbound}
use xstack_io.IpInput.{IpStack, find_proto, host_order, ip_input}
use xstack_io.IpInput.Verdict.{icmp_handler, ip_input_ping}

-- A stack with one address and ICMP; its state is the list of the addresses learnt.
abbrev stack : IpStack (List ℕ)
stack = record {
  arp_cache_insert = λ ip mac w. ip ∷ w;
  has_iface = λ ip w. ip == 0x0a000001;
  ip_fragment_input = λ ip data_bytes w. w;
  handlers = (1, icmp_handler) ∷ [];
}

abbrev from_peer : EtherHdr
from_peer = record {
  h_dst = 2 ∷ 0 ∷ 0 ∷ 0 ∷ 0 ∷ 1 ∷ [];
  h_src = 2 ∷ 0 ∷ 0 ∷ 0 ∷ 0 ∷ 2 ∷ [];
  h_proto = 0x0800;
}

-- A ping of 31 bytes, in network order.
abbrev request : IpHdr
request = record {
  ip_vhl = 0x45;
  ip_tos = 0;
  ip_len = 0x1f00;
  ip_id = 0x0700;
  ip_foff = 0x0040;
  ip_ttl = 64;
  ip_proto = 1;
  ip_csum = 0;
  ip_src = 0x0200000a;
  ip_dst = 0x0100000a;
}

request-IsHdr : IsHdr request
request-IsHdr = record {
  vhl = omega arith;
  tos = omega arith;
  len = omega arith;
  id = omega arith;
  foff = omega arith;
  ttl = omega arith;
  proto = omega arith;
  csum = omega arith;
  src = omega arith;
  dst = omega arith;
}

abbrev ping : List ℕ
ping = 8 ∷ 0 ∷ 0x12 ∷ 0x34 ∷ 0 ∷ 1 ∷ 0 ∷ 2 ∷ 97 ∷ 98 ∷ 99 ∷ []

well_formed :
    let ip = (ip_ntoh request).0 in
    (bit_and ip.ip_vhl 0x40 ≡ 0x40)
    × (ip_hdr_hlen ip ≡ 20)
    × (ip.ip_len ≡ 31)
    × (ip_fragment_is_frag ip ≡ false)
    × (find_proto ip.ip_proto stack.handlers ≡ some icmp_handler)
    × (stack.has_iface ip.ip_dst (ip.ip_src ∷ []) ≡ true)
unfolding ip_ntoh ip_hdr_hlen ip_fragment_is_frag find_proto swap16 swap32
well_formed = (refl, refl, refl, refl, refl, refl)

ip_input_ping_example :
    let ip = (ip_ntoh request).0 in
    let (retval, net', reply, after) = ip_input stack (some from_peer) request ping 31 [] in
    let ip' = (ip_ntoh net').0 in
    (retval ≡ pos 31)
    × (ip'.ip_len ≡ 31)
    × (ip'.ip_src ≡ ip.ip_dst)
    × (ip'.ip_dst ≡ ip.ip_src)
    × (get_or reply 0 0 ≡ 0)
    × (get_or reply 1 0 ≡ 0)
    × (drop 4 reply ≡ drop 4 ping)
    × (ip_checksum reply ≡ 0)
    × (after ≡ ip.ip_src ∷ [])
ip_input_ping_example =
    ip_input_ping stack from_peer request ping [] request-IsHdr well_formed.0 well_formed.1
      well_formed.2 well_formed.3 well_formed.4 well_formed.5 (omega arith) (omega arith) refl

length_differs : (host_order (some from_peer) request).ip_len ≢ 30
unfolding host_order ip_ntoh swap16
length_differs = omega arith

-- No socket is bound.
abbrev no_sockets : Sockets ℕ (List ℕ)
no_sockets = record {
  find_udp_socket = λ addr w. none;
  insert_udp_socket = λ sock addr w. w;
  dgram_input = λ sock from buf w. (pos 0, buf, w);
}

abbrev udp_stack : IpStack (List ℕ)
udp_stack = record stack { handlers = (17, udp_input no_sockets) ∷ [] }

-- A datagram of 31 bytes, in network order.
abbrev datagram_hdr : IpHdr
datagram_hdr = record request { ip_proto = 17 }

datagram_hdr-IsHdr : IsHdr datagram_hdr
datagram_hdr-IsHdr = record {
  vhl = omega arith;
  tos = omega arith;
  len = omega arith;
  id = omega arith;
  foff = omega arith;
  ttl = omega arith;
  proto = omega arith;
  csum = omega arith;
  src = omega arith;
  dst = omega arith;
}

abbrev there : Sockaddr
there = record { inet4_addr = 0x0a000002; port = 40000 }

abbrev here : Sockaddr
here = record { inet4_addr = 0x0a000001; port = 53 }

for_udp :
    let ip = (ip_ntoh datagram_hdr).0 in
    (bit_and ip.ip_vhl 0x40 ≡ 0x40)
    × (ip_hdr_hlen ip ≡ 20)
    × (ip.ip_len ≡ 31)
    × (ip_fragment_is_frag ip ≡ false)
    × (find_proto ip.ip_proto udp_stack.handlers ≡ some (udp_input no_sockets))
    × (udp_stack.has_iface ip.ip_dst (ip.ip_src ∷ []) ≡ true)
    × (ip.ip_dst ≡ 0x0a000001)
unfolding ip_ntoh ip_hdr_hlen ip_fragment_is_frag find_proto swap16 swap32
for_udp = (refl, refl, refl, refl, refl, refl, refl)

ip_input_unbound_example :
    let ip = (ip_ntoh datagram_hdr).0 in
    let (retval, net', rest, after) =
      ip_input udp_stack
        (some from_peer)
        datagram_hdr
        (datagram 40000 53 (1 ∷ 2 ∷ 3 ∷ []) ++ replicate 20 0)
        31
        [] in
    let reply = (ip_ntoh net').0 in
    (retval ≡ pos 108)
    × (reply.ip_len ≡ 64)
    × (reply.ip_src ≡ ip.ip_dst)
    × (reply.ip_dst ≡ ip.ip_src)
    × (reply.ip_proto ≡ 1)
    × (take 2 rest ≡ 3 ∷ 3 ∷ [])
    × (take 4 (drop 28 rest) ≡ 0x40 ∷ 0x9c ∷ 53 ∷ 0 ∷ [])
    × (after ≡ ip.ip_src ∷ [])
ip_input_unbound_example =
    ip_input_unbound udp_stack no_sockets from_peer datagram_hdr there here (1 ∷ 2 ∷ 3 ∷ [])
      (replicate 20 0) [] datagram_hdr-IsHdr for_udp.0 for_udp.1 for_udp.2 for_udp.3 for_udp.4
      for_udp.5 for_udp.6 (omega arith) (omega arith) (omega arith) (omega arith) refl
