-- ===== src/Arp.antt =====
-- The messages of src/arp.c and src/xstack_arp.h: conversion, requests, announcements and replies.
-- The cache, the deferred packets and the routes are an interface with a state.
pub mod Answer
pub mod Cache
mod Tests
use xstack_io.Prelude.{
  ℕ, List, [], ◌∷◌, ◌++◌, Option, none, some, htons, ntohl, htonl, le_bytes16, le_bytes32,
  replicate, not, ◌==◌, if◌then◌else◌,
}
use xstack_io.Prelude.Int.{ℤ, pos, neg, is_neg, to_int}
use xstack_io.Prelude.Errno.{eprototype}
use xstack_io.Ether.{MacAddr, ether_alen, ether_proto_ipv4, ether_proto_arp, mac_broadcast_addr}
use xstack_io.Ether.Send.{EtherLinux, Wire, Sendto, ether_send, ether_handle2addr}

-- `struct arp_ip`
pub record ArpIp : Type 0 where
  pub arp_htype : ℕ
  pub arp_ptype : ℕ
  pub arp_hlen : ℕ
  pub arp_plen : ℕ
  pub arp_oper : ℕ
  pub arp_sha : MacAddr
  pub arp_spa : ℕ
  pub arp_tha : MacAddr
  pub arp_tpa : ℕ

abbrev pub arp_htype_ether : ℕ
arp_htype_ether = 1

abbrev pub arp_oper_request : ℕ
arp_oper_request = 1

abbrev pub arp_oper_reply : ℕ
arp_oper_reply = 2

unfoldable pub arp_hton : ArpIp → ArpIp
arp_hton host = record host {
  arp_htype = htons host.arp_htype;
  arp_ptype = htons host.arp_ptype;
  arp_oper = htons host.arp_oper;
  arp_spa = ntohl host.arp_spa;
  arp_tpa = ntohl host.arp_tpa;
}

unfoldable pub arp_ntoh : ArpIp → ArpIp
arp_ntoh net = record net {
  arp_htype = htons net.arp_htype;
  arp_ptype = htons net.arp_ptype;
  arp_oper = htons net.arp_oper;
  arp_spa = ntohl net.arp_spa;
  arp_tpa = ntohl net.arp_tpa;
}

-- The bytes of the packed struct.
abbrev pub arp_bytes : ArpIp → List ℕ
arp_bytes m = le_bytes16 m.arp_htype (
    le_bytes16 m.arp_ptype (
      m.arp_hlen
      ∷ m.arp_plen
      ∷ le_bytes16 m.arp_oper
          (m.arp_sha ++ le_bytes32 m.arp_spa (m.arp_tha ++ le_bytes32 m.arp_tpa []))))

module _ (ether_if : List EtherLinux) where
  -- The message that `arp_request` and `arp_gratuitous` send, in network order. The initializer
  -- leaves the hardware addresses zero.
  unfoldable pub request_msg : ℕ → ℕ → ℕ → ArpIp
  unfolding arp_hton
  request_msg ether_handle spa tpa = arp_hton (record {
    arp_htype = arp_htype_ether;
    arp_ptype = ether_proto_ipv4;
    arp_hlen = ether_alen;
    arp_plen = 4;
    arp_oper = arp_oper_request;
    arp_sha = (ether_handle2addr ether_if ether_handle (replicate 6 0)).0;
    arp_spa = spa;
    arp_tha = replicate 6 0;
    arp_tpa = tpa;
  })

  unfoldable pub arp_request : Sendto → ℕ → ℕ → ℕ → Wire → ℤ × Wire
  unfolding request_msg
  arp_request sendto ether_handle spa tpa wire =
      let (retval, wire') =
        ether_send ether_if sendto ether_handle mac_broadcast_addr ether_proto_arp
          (arp_bytes (request_msg ether_handle spa tpa)) wire in
      (if is_neg retval then retval else pos 0, wire')

  -- A failure is only logged.
  unfoldable pub arp_gratuitous : Sendto → ℕ → ℕ → Wire → ℤ × Wire
  unfolding request_msg
  arp_gratuitous sendto ether_handle spa wire =
      let (retval, wire') =
        ether_send ether_if sendto ether_handle mac_broadcast_addr ether_proto_arp
          (arp_bytes (request_msg ether_handle spa spa)) wire in
      (pos 0, wire')

-- What `arp_input` calls: `arp_cache_insert` for a dynamic entry, `ip_defer_handler`, and
-- `ip_route_find_by_iface`, which gives the address and the handle of the interface.
pub record ArpStack (W : Type 0) : Type 0 where
  pub arp_cache_insert : ℕ → MacAddr → W → W
  pub ip_defer_handler : W → W
  pub ip_route_find_by_iface : ℕ → W → Option (ℕ × ℕ)

-- The reply to a request, written over it.
unfoldable pub reply_to : List EtherLinux → ArpIp → ℕ → ℕ → ArpIp
unfolding arp_ntoh
reply_to ether_if net r_iface r_iface_handle = record net {
  arp_oper = htons arp_oper_reply;
  arp_sha = (ether_handle2addr ether_if r_iface_handle net.arp_sha).0;
  arp_tha = (arp_ntoh net).arp_sha;
  arp_tpa = net.arp_spa;
  arp_spa = htonl r_iface;
}

-- The switch on the operation.
unfoldable pub answer : {W : Type 0} → List EtherLinux → ArpStack W → ArpIp → ℕ → W → ℤ × ArpIp × W
unfolding arp_ntoh reply_to
answer ether_if stack net bsize w =
    let arp = arp_ntoh net in
    if arp.arp_oper == arp_oper_request
    then elim (stack.ip_route_find_by_iface arp.arp_tpa w) [
      | some (r_iface, r_iface_handle) ↦
          (to_int bsize, reply_to ether_if net r_iface r_iface_handle, w)
      | none ↦ (pos 0, net, w)
    ]
    else (pos 0, net, w)

unfoldable pub arp_input :
    {W : Type 0} → List EtherLinux → ArpStack W → ArpIp → ℕ → W → ℤ × ArpIp × W
unfolding arp_ntoh answer
arp_input ether_if stack net bsize w =
    let arp = arp_ntoh net in
    let w' = stack.ip_defer_handler (stack.arp_cache_insert arp.arp_spa arp.arp_sha w) in
    if not (arp.arp_htype == arp_htype_ether)
    then (neg eprototype, net, w)
    else if arp.arp_ptype == ether_proto_ipv4
    then answer ether_if stack net bsize w'
    else (neg eprototype, net, w)
