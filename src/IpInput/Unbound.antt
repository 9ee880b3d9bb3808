-- ===== src/IpInput/Unbound.antt =====
-- A datagram for a port that no socket is bound to: `ip_input` of src/ip.c, `udp_input` of src/udp.c
-- and `icmp_generate_dest_unreachable` of src/icmp.c.
use xstack_io.Prelude.{
  ℕ, zero, suc, ◌+◌, ◌*◌, ◌^◌, ◌≤◌, ◌<◌, ◌≡◌, refl, sym, ap, ap₂, ◌∙◌, arith, List, [], ◌∷◌, ◌++◌,
  none, some, true, false, length, length-append, take, drop, take_exact, drop_exact, size_sub,
  bit_and, le_bytes16, min,
}
use xstack_io.Prelude.Int.{pos, neg}
use xstack_io.Prelude.Errno.{enotsock}
use xstack_io.Ether.{EtherHdr}
use xstack_io.IpHdr.{IpHdr, ip_hdr_hlen, ip_ntoh, ip_fragment_is_frag}
use xstack_io.IpHdr.Convert.{IsHdr}
use xstack_io.Icmp.{icmp_generate_dest_unreachable}
use xstack_io.Icmp.Reply.{icmp_generate_dest_unreachable_lem}
use xstack_io.Tcp.{Sockaddr}
use xstack_io.Udp.{UdpHdr, Sockets, udp_maxlen, udp_bytes, udp_input, udp_deliver}
use xstack_io.Udp.Delivery.{datagram, received, input-deliver}
use xstack_io.IpInput.{
  IpHandler, IpStack, find_proto, handle, unreachable, deliver, learn, host_order, ip_input,
}
use xstack_io.IpInput.Verdict.{ip_input-deliver, deliver-handle, ip_ntoh-IsHdr}

take-take : {A : Type 0} (n m : ℕ) (l : List A) → take n (take (n + m) l) ≡ take n l
take-take zero m l = refl
take-take {A} (suc n) m [] = ap (take (suc n)) (take_nil (suc n + m))
  where
    take_nil : (k : ℕ) → take {A = A} k [] ≡ []
    take_nil zero = refl
    take_nil (suc k) = refl
take-take (suc n) m (x ∷ l) =
    let e : suc n + m ≡ suc (n + m) = omega arith in
    ap (λ k. take (suc n) (take k (x ∷ l))) e ∙ ap (λ t. x ∷ t) (take-take n m l)

-- A handler that finds no socket.
handle_refused :
    {W : Type 0} (fn : IpHandler W) (ip : IpHdr) (msg tail written : List ℕ) (w : W)
    → length msg < 2 ^ 32
    → fn ip msg w ≡ (neg enotsock, written, w)
    → handle fn ip (msg ++ tail) 20 (20 + length msg) w
      ≡ unreachable ip 3 (written ++ tail) 20 (20 + length msg) w
unfolding handle
handle_refused fn ip msg tail written w small refused =
    let whole : size_sub (20 + length msg) 20 ≡ length msg = omega arith in
    rw
      (
        handle,
        whole,
        take_exact (length msg) msg tail refl,
        drop_exact (length msg) msg tail refl,
        refused,
      )
      refl

-- The header in host order.
abbrev host_udp : ℕ → ℕ → List ℕ → UdpHdr
host_udp sport dport buf = record {
  udp_sport = sport;
  udp_dport = dport;
  udp_len = 8 + length buf;
  udp_csum = 0;
}

-- The header is left converted.
unbound_lem :
    {S W : Type 0} (sockets : Sockets S W) (sport dport : ℕ) (buf : List ℕ) (ip : IpHdr) (w : W)
    → sport < 2 ^ 16
    → dport < 2 ^ 16
    → length buf < udp_maxlen
    → sockets.find_udp_socket (record { inet4_addr = ip.ip_dst; port = dport }) w ≡ none
    → udp_input sockets ip (datagram sport dport buf) w
      ≡ (neg enotsock, udp_bytes (host_udp sport dport buf) buf, w)
unfolding udp_deliver
unbound_lem sockets sport dport buf ip w hs hd fits unbound =
    input-deliver sockets ip (datagram sport dport buf) w (omega arith)
    ∙ ap (λ h. udp_deliver sockets h ip buf w) (received sport dport buf hs hd (omega arith))
    ∙ rw (udp_deliver, unbound) refl

-- Let a frame bring a whole UDP packet without options for an address of this host, from and to ports
-- of 16 bits, and let no socket be bound to the address and the port. With room for 28 bytes behind the
-- IP header it is answered by an ICMP packet from the address to the packet's sender, which says that
-- the port is unreachable. What it quotes of the datagram starts with the ports in the byte order
-- of the host, and the size that is returned, 108, is not that of the packet, 64. The sender's
-- hardware address has been learnt, and nothing else changes.
pub ip_input_unbound :
    {S W : Type 0} (stack : IpStack W) (sockets : Sockets S W) (e_hdr : EtherHdr) (net : IpHdr)
    (src dst : Sockaddr) (buf tail : List ℕ) (w : W)
    → let ip = (ip_ntoh net).0 in
      let w' = stack.arp_cache_insert ip.ip_src e_hdr.h_src w in
      IsHdr net
      → bit_and ip.ip_vhl 0x40 ≡ 0x40
      → ip_hdr_hlen ip ≡ 20
      → ip.ip_len ≡ 28 + length buf
      → ip_fragment_is_frag ip ≡ false
      → find_proto ip.ip_proto stack.handlers ≡ some (udp_input sockets)
      → stack.has_iface ip.ip_dst w' ≡ true
      → ip.ip_dst ≡ dst.inet4_addr
      → src.port < 2 ^ 16
      → dst.port < 2 ^ 16
      → length buf < udp_maxlen
      → 20 ≤ length buf + length tail
      → sockets.find_udp_socket dst w' ≡ none
      → let (retval, net', rest, after) =
          ip_input stack
            (some e_hdr)
            net
            (datagram src.port dst.port buf ++ tail)
            (28 + length buf)
            w in
        let reply = (ip_ntoh net').0 in
        (retval ≡ pos 108)
        × (reply.ip_len ≡ 64)
        × (reply.ip_src ≡ ip.ip_dst)
        × (reply.ip_dst ≡ ip.ip_src)
        × (reply.ip_proto ≡ 1)
        × (take 2 rest ≡ 3 ∷ 3 ∷ [])
        × (take 4 (drop 28 rest) ≡ le_bytes16 src.port (le_bytes16 dst.port []))
        × (after ≡ w')
unfolding learn host_order unreachable
ip_input_unbound {W = W} stack sockets e_hdr net src dst buf tail w ok version hlen len whole udp
      own here hs hd fits room unbound =
    let ip = (ip_ntoh net).0 in
    let w' = stack.arp_cache_insert ip.ip_src e_hdr.h_src w in
    let packet = datagram src.port dst.port buf in
    let left = udp_bytes (host_udp src.port dst.port buf) buf ++ tail in
    let refused = unbound_lem sockets src.port dst.port buf ip w' hs hd fits (
      ap (λ a. sockets.find_udp_socket (record { inet4_addr = a; port = dst.port }) w') here
      ∙ unbound) in
    let size : size_sub (20 + length packet) 20 ≡ 8 + length buf = omega arith in
    let answer = icmp_generate_dest_unreachable ip 3 left (8 + length buf) in
    let run : ip_input stack (some e_hdr) net (packet ++ tail) (28 + length buf) w
        ≡ (answer.0, answer.1, answer.2, w') =
      ip_input-deliver stack (some e_hdr) net (packet ++ tail) (28 + length buf) w version
        (omega arith) len own
      ∙ ap₂ (λ n b. deliver stack ip (packet ++ tail) n b w') hlen (omega arith)
      ∙ deliver-handle stack (udp_input sockets) ip (packet ++ tail) 20 (20 + length packet) w'
          whole udp
      ∙ handle_refused (udp_input sockets) ip packet tail
          (udp_bytes (host_udp src.port dst.port buf) buf) w' (omega arith) refused
      ∙ ap (λ n. let r = icmp_generate_dest_unreachable ip 3 left n in (r.0, r.1, r.2, w')) size in
    let (value, total, source, target, proto, kind, quoted) =
      icmp_generate_dest_unreachable_lem ip 3 left (8 + length buf) (ip_ntoh-IsHdr net ok)
        (omega (arith, length-append buf tail)) in
    let eight : min 8 (8 + length buf) ≡ 8 = omega arith in
    rw run (
      value ∙ ap (λ n. pos (2 * (36 + n) + 20)) eight,
      total ∙ ap (λ n. 20 + 36 + n) eight,
      source,
      target,
      proto,
      kind,
      front eight _ _ quoted,
      refl,
    )
  where
    front : {n : ℕ} → n ≡ 8 → (l r : List ℕ) → take n l ≡ take n r → take 4 l ≡ take 4 r
    front e l r same =
        sym (take-take 4 4 l)
        ∙ ap (take 4) (sym (ap (λ k. take k l) e) ∙ same ∙ ap (λ k. take k r) e)
        ∙ take-take 4 4 r
