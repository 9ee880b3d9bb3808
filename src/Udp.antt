-- ===== src/Udp.antt =====
-- src/udp.c and src/udp.h: binding, input and output of datagrams. The tree of the sockets and
-- `xstack_sock_dgram_input` are one interface with a state; `ip_send` is a parameter.
pub mod Delivery
mod Tests
use xstack_io.Prelude.{
  ℕ, ◌+◌, ◌*◌, ◌%◌, ◌/◌, ◌^◌, List, [], ◌∷◌, ◌++◌, Option, none, some, length, drop, get_or, u16,
  htons, ntohs, le16, le_bytes16, ltb, if◌then◌else◌, size, not, ◌&&◌,
}
use xstack_io.Prelude.Int.{ℤ, pos, negsuc, neg, pos_part, ltb_ℤ}
use xstack_io.Prelude.Errno.{ebadmsg, enotsock, einval, eaddrinuse}
use xstack_io.IpHdr.{IpHdr}
use xstack_io.Tcp.{Sockaddr}

abbrev pub udp_maxlen : ℕ
udp_maxlen = 65507

abbrev pub xstack_sock_port_max : ℕ
xstack_sock_port_max = 49151

abbrev pub ip_proto_udp : ℕ
ip_proto_udp = 17

-- `struct udp_hdr`
pub record UdpHdr : Type 0 where
  pub udp_sport : ℕ
  pub udp_dport : ℕ
  pub udp_len : ℕ
  pub udp_csum : ℕ

-- `sizeof(struct udp_hdr)`
abbrev pub udp_hdr_size : ℕ
udp_hdr_size = 8

unfoldable pub udp_hton : UdpHdr → UdpHdr
udp_hton host = record host {
  udp_sport = htons host.udp_sport;
  udp_dport = htons host.udp_dport;
  udp_len = htons host.udp_len;
}

unfoldable pub udp_ntoh : UdpHdr → UdpHdr
udp_ntoh net = record net {
  udp_sport = ntohs net.udp_sport;
  udp_dport = ntohs net.udp_dport;
  udp_len = ntohs net.udp_len;
}

-- The header as it stands at the start of a buffer, and a buffer that starts with a header.
abbrev pub udp_hdr_at : List ℕ → UdpHdr
udp_hdr_at p = record {
  udp_sport = le16 (get_or p 0 0) (get_or p 1 0);
  udp_dport = le16 (get_or p 2 0) (get_or p 3 0);
  udp_len = le16 (get_or p 4 0) (get_or p 5 0);
  udp_csum = le16 (get_or p 6 0) (get_or p 7 0);
}

abbrev pub udp_bytes : UdpHdr → List ℕ → List ℕ
udp_bytes h rest =
    le_bytes16 h.udp_sport
      (le_bytes16 h.udp_dport (le_bytes16 h.udp_len (le_bytes16 h.udp_csum rest)))

-- The sockets: the lookup and the insertion of the tree, and the delivery to a socket's queue,
-- which returns its value and the buffer as it leaves it.
pub record Sockets (S W : Type 0) : Type 0 where
  pub find_udp_socket : Sockaddr → W → Option S
  pub insert_udp_socket : S → Sockaddr → W → W
  pub dgram_input : S → Sockaddr → List ℕ → W → ℤ × List ℕ × W

-- The return value, `errno` and the state.
unfoldable pub xstack_udp_bind : {S W : Type 0} → Sockets S W → S → Sockaddr → ℕ → W → ℤ × ℕ × W
xstack_udp_bind sockets sock addr errno w =
    if ltb xstack_sock_port_max addr.port
    then (negsuc 0, einval, w)
    else elim (sockets.find_udp_socket addr w) [
      | some other ↦ (negsuc 0, eaddrinuse, w)
      | none ↦ (pos 0, errno, sockets.insert_udp_socket sock addr w)
    ]

-- `udp` in host order, with the ports swapped and the size of the reply; both ways of the test of
-- the IP version clear the checksum.
unfoldable pub udp_reply : UdpHdr → ℕ → UdpHdr
udp_reply udp retval = record {
  udp_sport = udp.udp_dport;
  udp_dport = udp.udp_sport;
  udp_len = u16 (udp_hdr_size + retval);
  udp_csum = 0;
}

-- The lookup of the socket and the delivery, with the header in host order.
unfoldable pub udp_deliver :
    {S W : Type 0} → Sockets S W → UdpHdr → IpHdr → List ℕ → W → ℤ × List ℕ × W
unfolding udp_hton udp_reply
udp_deliver sockets udp ip_hdr body w =
    let sockaddr : Sockaddr = record { inet4_addr = ip_hdr.ip_dst; port = udp.udp_dport } in
    let srcaddr : Sockaddr = record { inet4_addr = ip_hdr.ip_src; port = udp.udp_sport } in
    elim (sockets.find_udp_socket sockaddr w) [
      | none ↦ (neg enotsock, udp_bytes udp body, w)
      | some sock ↦
          let (retval, written, w') = sockets.dgram_input sock srcaddr body w in
          let left =
            if ltb_ℤ (pos 0) retval then udp_hton (udp_reply udp (pos_part retval)) else udp in
          (retval, udp_bytes left written, w')
    ]

-- The return value, the payload as it is left and the state. The header is converted in place.
unfoldable pub udp_input : {S W : Type 0} → Sockets S W → IpHdr → List ℕ → W → ℤ × List ℕ × W
unfolding udp_deliver udp_ntoh
udp_input sockets ip_hdr payload w =
    if ltb (length payload) udp_hdr_size
    then (neg ebadmsg, payload, w)
    else udp_deliver sockets (udp_ntoh (udp_hdr_at payload)) ip_hdr (drop udp_hdr_size payload) w

-- `port` is an `int` that is stored in 16 bits. `buf` holds `dgram->buf_size` bytes.
unfoldable pub xstack_udp_send :
    {W : Type 0} → (ℕ → ℕ → List ℕ → W → ℤ × W) → Sockaddr → Sockaddr → List ℕ → W → ℤ × W
unfolding udp_hton
xstack_udp_send ip_send sock_addr dstaddr buf w =
    let udp : UdpHdr = record {
      udp_sport = u16 sock_addr.port;
      udp_dport = u16 dstaddr.port;
      udp_len = u16 (udp_hdr_size + length buf);
      udp_csum = 0;
    } in
    if not (ltb 0 (length buf) && ltb (length buf) udp_maxlen)
    then (neg einval, w)
    else ip_send dstaddr.inet4_addr ip_proto_udp (udp_bytes (udp_hton udp) buf) w
