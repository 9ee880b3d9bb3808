-- ===== src/Udp/Delivery.antt =====
-- What is sent is delivered.
use xstack_io.Prelude.{
  ℕ, ◌+◌, ◌%◌, ◌/◌, ◌^◌, ◌≤◌, ◌<◌, ◌≡◌, refl, ap, ◌∙◌, arith, List, none, some, length, drop,
  swap16, swap16-swap16, swap16-lt, u16, le16, lt→ltb, ltb-false, dec_lt, Option-cases, ◌⊎◌, inl,
  inr,
}
use xstack_io.Prelude.Int.{ℤ, pos, negsuc}
use xstack_io.Prelude.Errno.{einval, eaddrinuse}
use xstack_io.IpHdr.{IpHdr}
use xstack_io.Tcp.{Sockaddr}
use xstack_io.Udp.{
  UdpHdr, Sockets, udp_maxlen, ip_proto_udp, udp_hdr_at, udp_bytes, udp_ntoh, udp_input,
  udp_deliver, xstack_udp_send, xstack_udp_bind,
}

-- A field is read back as it was stored.
field_lem : (n : ℕ) → n < 2 ^ 16 → le16 (n % 256) (n / 256 % 256) ≡ n
field_lem n h = omega arith

-- The bytes that leave the sender, up to the packet that `ip_send` gets.
abbrev pub datagram : ℕ → ℕ → List ℕ → List ℕ
datagram sport dport buf =
    udp_bytes
      (record {
        udp_sport = swap16 sport;
        udp_dport = swap16 dport;
        udp_len = swap16 (8 + length buf);
        udp_csum = 0;
      })
      buf

pub received :
    (sport dport : ℕ) (buf : List ℕ)
    → sport < 2 ^ 16
    → dport < 2 ^ 16
    → 8 + length buf < 2 ^ 16
    → udp_ntoh (udp_hdr_at (datagram sport dport buf))
      ≡ record { udp_sport = sport; udp_dport = dport; udp_len = 8 + length buf; udp_csum = 0 }
unfolding udp_ntoh
received sport dport buf hs hd hl =
    rw
      (
        field_lem (swap16 sport) (swap16-lt sport),
        field_lem (swap16 dport) (swap16-lt dport),
        field_lem (swap16 (8 + length buf)) (swap16-lt (8 + length buf)),
        swap16-swap16 sport hs,
        swap16-swap16 dport hd,
        swap16-swap16 (8 + length buf) hl,
      )
      refl

pub input-deliver :
    {S W : Type 0} (sockets : Sockets S W) (hdr : IpHdr) (payload : List ℕ) (w : W)
    → 8 ≤ length payload
    → udp_input sockets hdr payload w
      ≡ udp_deliver sockets (udp_ntoh (udp_hdr_at payload)) hdr (drop 8 payload) w
unfolding udp_input
input-deliver sockets hdr payload w long = rw (ltb-false (length payload) 8 long) refl

pub deliver_bound :
    {S W : Type 0} (sockets : Sockets S W) (sock : S) (udp : UdpHdr) (hdr : IpHdr) (buf : List ℕ)
    (w : W)
    → sockets.find_udp_socket (record { inet4_addr = hdr.ip_dst; port = udp.udp_dport }) w
      ≡ some sock
    → let from : Sockaddr = record { inet4_addr = hdr.ip_src; port = udp.udp_sport } in
      let passed = sockets.dgram_input sock from buf w in
      let got = udp_deliver sockets udp hdr buf w in (got.0 ≡ passed.0) × (got.2 ≡ passed.2)
unfolding udp_deliver
deliver_bound sockets sock udp hdr buf w bound = rw (udp_deliver, bound) (refl, refl)

-- What `ip_send` gets.
pub send_datagram :
    {W : Type 0} (ip_send : ℕ → ℕ → List ℕ → W → ℤ × W) (src dst : Sockaddr) (buf : List ℕ) (w : W)
    → 0 < length buf
    → length buf < udp_maxlen
    → src.port < 2 ^ 16
    → dst.port < 2 ^ 16
    → xstack_udp_send ip_send src dst buf w
      ≡ ip_send dst.inet4_addr ip_proto_udp (datagram src.port dst.port buf) w
unfolding xstack_udp_send
send_datagram ip_send src dst buf w some_data fits hs hd =
    let sport : u16 src.port ≡ src.port = omega arith in
    let dport : u16 dst.port ≡ dst.port = omega arith in
    let len : u16 (8 + length buf) ≡ 8 + length buf = omega arith in
    rw (lt→ltb 0 (length buf) some_data, lt→ltb (length buf) udp_maxlen fits, sport, dport, len)
      refl

-- Let the data have 1 to 65506 bytes and the ports 16 bits. The sender hands `ip_send` a packet of 8
-- bytes more; the receiver of this packet, with a socket at the destination, passes to the socket
-- just the data, with the sender's address and port, and returns what the socket returns.
pub udp_delivery :
    {S W : Type 0} (sockets : Sockets S W) (sock : S) (ip_send : ℕ → ℕ → List ℕ → W → ℤ × W)
    (src dst : Sockaddr) (buf : List ℕ) (hdr : IpHdr) (w w' : W)
    → 0 < length buf
    → length buf < udp_maxlen
    → src.port < 2 ^ 16
    → dst.port < 2 ^ 16
    → hdr.ip_dst ≡ dst.inet4_addr
    → sockets.find_udp_socket dst w' ≡ some sock
    → let from : Sockaddr = record { inet4_addr = hdr.ip_src; port = src.port } in
      let (passed, left, after) = sockets.dgram_input sock from buf w' in
      (packet : List ℕ) × (length packet ≡ 8 + length buf)
      × (xstack_udp_send ip_send src dst buf w ≡ ip_send dst.inet4_addr ip_proto_udp packet w)
      × (let (retval, payload, state) = udp_input sockets hdr packet w' in
          (retval ≡ passed) × (state ≡ after))
udp_delivery sockets sock ip_send src dst buf hdr w w' some_data fits hs hd here bound = (
  datagram src.port dst.port buf,
  omega arith,
  send_datagram ip_send src dst buf w some_data fits hs hd,
  rw
      (
        input-deliver sockets hdr (datagram src.port dst.port buf) w' (omega arith),
        received src.port dst.port buf hs hd (omega arith),
      )
      (deliver_bound sockets sock (header src.port dst.port (length buf)) hdr buf w' (
        ap (λ ip. sockets.find_udp_socket (record { inet4_addr = ip; port = dst.port }) w') here
        ∙ bound)),
)
  where
    header : ℕ → ℕ → ℕ → UdpHdr
    header sport dport n = record {
      udp_sport = sport;
      udp_dport = dport;
      udp_len = 8 + n;
      udp_csum = 0;
    }

module _ {S W : Type 0} (sockets : Sockets S W) where
  bind_high :
      (sock : S) (addr : Sockaddr) (errno : ℕ) (w : W)
      → 49151 < addr.port
      → xstack_udp_bind sockets sock addr errno w ≡ (negsuc 0, einval, w)
  unfolding xstack_udp_bind
  bind_high sock addr errno w high = rw (lt→ltb 49151 addr.port high) refl

  bind_taken :
      (sock other : S) (addr : Sockaddr) (errno : ℕ) (w : W)
      → addr.port ≤ 49151
      → sockets.find_udp_socket addr w ≡ some other
      → xstack_udp_bind sockets sock addr errno w ≡ (negsuc 0, eaddrinuse, w)
  unfolding xstack_udp_bind
  bind_taken sock other addr errno w low taken = rw (ltb-false 49151 addr.port low, taken) refl

  bind_free :
      (sock : S) (addr : Sockaddr) (errno : ℕ) (w : W)
      → addr.port ≤ 49151
      → sockets.find_udp_socket addr w ≡ none
      → xstack_udp_bind sockets sock addr errno w
        ≡ (pos 0, errno, sockets.insert_udp_socket sock addr w)
  unfolding xstack_udp_bind
  bind_free sock addr errno w low free = rw (ltb-false 49151 addr.port low, free) refl

-- Let a socket that is inserted be found under its address. After a bind that succeeds the socket is
-- found, and the next bind of the same address fails with EADDRINUSE and changes nothing; a port above
-- 49151 fails with EINVAL.
pub xstack_udp_bind_lem :
    {S W : Type 0} (sockets : Sockets S W) (sock : S) (addr : Sockaddr) (errno : ℕ) (w : W)
    → ((s : S) (a : Sockaddr) (v : W)
        → sockets.find_udp_socket a (sockets.insert_udp_socket s a v) ≡ some s)
    → let (retval, errno', w') = xstack_udp_bind sockets sock addr errno w in
      ((retval ≡ negsuc 0) × (errno' ≡ einval) × (w' ≡ w) × (49151 < addr.port))
      ⊎ ((retval ≡ negsuc 0) × (errno' ≡ eaddrinuse) × (w' ≡ w))
      ⊎ ((retval ≡ pos 0)
          × (sockets.find_udp_socket addr w' ≡ some sock)
          × ((other : S)
              → xstack_udp_bind sockets other addr errno' w' ≡ (negsuc 0, eaddrinuse, w')))
xstack_udp_bind_lem sockets sock addr errno w found = elim (dec_lt 49151 addr.port) [
  | yes high ↦ rw (bind_high sockets sock addr errno w high) (inl (refl, refl, refl, high))
  | no low ↦
      let fits : addr.port ≤ 49151 = omega arith in
      elim (Option-cases (sockets.find_udp_socket addr w)) [
        | inl free ↦
            let at = found sock addr w in
            rw (bind_free sockets sock addr errno w fits free)
              (inr (inr (refl, at, λ other. bind_taken sockets other sock addr errno _ fits at)))
        | inr (other, taken) ↦
            rw (bind_taken sockets sock other addr errno w fits taken)
              (inr (inl (refl, refl, refl)))
      ]
]
