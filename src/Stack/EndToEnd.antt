-- ===== src/Stack/EndToEnd.antt =====
-- A datagram from `xstack_udp_send` of one host to `ip_input` and the process of another.
use xstack_io.Prelude.{
  ℕ, ◌+◌, ◌^◌, ◌<◌, ◌≤◌, ◌≡◌, ◌≢◌, refl, sym, ap, ◌∙◌, arith, max, List, [], ◌∷◌, ◌++◌, All, Option,
  some, length, get_elem?, take, drop, bit_and, u16, u32, false,
}
use xstack_io.Prelude.Int.{pos}
use xstack_io.Ether.{MacAddr, EtherHdr, ether_maxlen}
use xstack_io.Ether.Send.{EtherLinux, Sendto, Wire}
use xstack_io.IpHdr.{IpHdr, ip_hdr_bytes, ip_hdr_hlen, ip_hton, ip_ntoh, ip_fragment_is_frag}
use xstack_io.IpHdr.Convert.{ip_ntoh-ip_hton}
use xstack_io.QueueR.Valid.{IsValid, depth}
use xstack_io.Tcp.{Sockaddr}
use xstack_io.Udp.{xstack_udp_send}
use xstack_io.Udp.Delivery.{datagram, send_datagram}
use xstack_io.Sock.{dgram_room, XstackSock}
use xstack_io.Sock.Queues.{datagrams}
use xstack_io.Sock.Delivery.{Fits}
use xstack_io.Ether.Receive.{Recv, arrived, same_bytes, frame_hdr, ether_receive}
use xstack_io.Ether.Arrival.{received_size, receive_frame}
use xstack_io.RbTree.{RbTree}
use xstack_io.RbTree.Ordered.{RbTrees}
use xstack_io.SlotTree.{SlotTree}
use xstack_io.Route.{IpRoute, ip_route_find_by_network, ip_route_find_by_iface}
use xstack_io.Arp.Cache.{ArpTable, cached}
use xstack_io.Arp.Cache.Lookup.{get_haddr_known}
use xstack_io.IpInput.{IpHandler}
use xstack_io.IpOutput.{Output, out_header}
use xstack_io.IpOutput.Sends.{header, header-IsHdr, ip_send_frame}
use xstack_io.Stack.{Host, returned, host_cache, host_ip_send}
use xstack_io.Stack.Node.{Node, Running}
use xstack_io.Stack.Verdict.{Outcome, judged}

module _ {T S : Type 0} (tree : RbTrees ℕ T) (slots : SlotTree S) (eth : EtherLinux)
    (sendto : Sendto) where
  -- The sender's half: the frame and the state, and the header as the receiver converts it.
  sent :
      (src dst : Sockaddr) (buf : List ℕ) (a : Host T S) (route : IpRoute) (haddr : MacAddr)
      → ip_route_find_by_network tree dst.inet4_addr a.out.rib ≡ some route
      → route.r_iface_handle ≡ 0
      → cached slots dst.inet4_addr a.out.arp ≡ some haddr
      → length haddr ≡ 6
      → length eth.el_mac ≡ 6
      → 0 < length buf
      → length buf ≤ 1472
      → src.port < 2 ^ 16
      → dst.port < 2 ^ 16
      → let packet = datagram src.port dst.port buf in
        let cache = host_cache tree slots (eth ∷ []) sendto a.out.rib in
        let h = header tree cache eth sendto route dst.inet4_addr 17 packet a.out in
        let out' : List ℕ → Output T (ArpTable S) = λ frame. record a.out {
          wire = a.out.wire ++ (frame ∷ []);
          ip_global_id = u32 (a.out.ip_global_id + 1);
        } in
        (frame : List ℕ) × (xstack_udp_send
            (host_ip_send tree slots (eth ∷ []) sendto)
            src
            dst
            buf
            a
          ≡ (sendto a.out.wire frame, record a { out = out' frame }))
        × (take 6 frame ≡ haddr)
        × (take (28 + length buf) (drop 14 frame) ≡ ip_hdr_bytes (ip_hton h packet) packet)
        × (length frame ≡ 18 + max (28 + length buf) 56)
        × (take 6 (drop 6 frame) ≡ eth.el_mac)
  sent src dst buf a route haddr found handle known hm he some_data small hs hd =
      let packet = datagram src.port dst.port buf in
      let cache = host_cache tree slots (eth ∷ []) sendto a.out.rib in
      let eight_more : 28 + length buf ≡ 20 + length packet = omega arith in
      let answered =
        get_haddr_known slots tree (eth ∷ []) sendto a.out.rib route.r_iface dst.inet4_addr a.errno
          a.out.arp a.out.wire haddr known in
      let (frame, run, to, type, carried, long, from) =
        ip_send_frame tree cache eth sendto route haddr dst.inet4_addr 17 packet a.errno a.out
          a.errno a.out.arp a.out.wire found
          (ap (λ (r : Option MacAddr × ℕ × Wire). (r.0, r.1, a.out.arp, r.2)) answered) handle hm he
          (omega (arith, small)) in
      (
        frame,
        send_datagram (host_ip_send tree slots (eth ∷ []) sendto) src dst buf a some_data
              (omega (arith, small)) hs hd
            ∙ ap (λ o. ((returned a o).0, (returned a o).2)) run,
        to,
        ap (λ n. take n (drop 14 frame)) eight_more ∙ carried,
        long ∙ ap (λ n. 18 + max n 56) (sym eight_more),
        from,
      )

-- What the receiver reads in the header.
module _ (route : IpRoute) (dst n id : ℕ) where
  parsed :
      (h : IpHdr) (csum : ℕ)
      → h ≡ record (out_header route dst 17 (8 + n) id) { ip_csum = csum }
      → n ≤ 1472
      → (bit_and h.ip_vhl 0x40 ≡ 0x40)
        × (ip_hdr_hlen h ≡ 20)
        × (h.ip_len ≡ 28 + n)
        × (ip_fragment_is_frag h ≡ false)
        × (h.ip_proto ≡ 17)
        × (h.ip_src ≡ route.r_iface)
        × (h.ip_dst ≡ dst)
  unfolding out_header ip_hdr_hlen ip_fragment_is_frag
  parsed h csum e small =
      let len : u16 (20 + (8 + n)) ≡ 28 + n = omega arith in
      (
        ap (λ x. bit_and x.ip_vhl 0x40) e,
        ap ip_hdr_hlen e,
        ap (λ x. x.ip_len) e ∙ len,
        ap ip_fragment_is_frag e,
        ap (λ x. x.ip_proto) e,
        ap (λ x. x.ip_src) e,
        ap (λ x. x.ip_dst) e,
      )

module _ {T S T' S' U : Type 0} (tree : RbTrees ℕ T) (slots : SlotTree S) (eth : EtherLinux)
    (sendto : Sendto) (tree' : RbTrees ℕ T') (slots' : SlotTree S') (udp_tree : RbTree Sockaddr U)
    (eth' : EtherLinux) (sendto' : Sendto) (rx : List Recv)
    (fragments : IpHdr → List ℕ → Running T' S' U → Running T' S' U)
    (tcp : ℕ × IpHandler (Running T' S' U)) where
  -- Let 1 to 1472 bytes be given to `xstack_udp_send`, from the address of the host's first interface to
  -- a socket of another host, whose address a route of that interface serves and whose hardware address
  -- the cache knows. It sends one frame to this hardware address. Let the frame arrive at the other
  -- host, where `recvfrom` returns what fits in the buffer of ETHER_MAXLEN bytes, on an interface with
  -- another hardware address than the sender's. `ether_receive` returns the packet with the padding and
  -- the check sequence behind it, and counts them in the size. Let the address be that host's own, and
  -- let a socket with a valid queue that is not full and holds datagrams that fit be bound to it. With
  -- what was received `ip_input` returns 0. Fewer than 1472 bytes are dropped there, and nothing
  -- changes. If there are 1472, which leave no room for the check sequence in the buffer, the process
  -- there receives what had arrived before, in order, and then just the bytes that were sent, with the
  -- sender's address.
  pub datagram_path :
      (src dst : Sockaddr) (buf : List ℕ) (a : Host T S) (route : IpRoute) (haddr : MacAddr)
      (b : Node T' S' U) (own : IpRoute) (k : ℕ) (sock : XstackSock) (room : ℕ)
      → ip_route_find_by_network tree dst.inet4_addr a.out.rib ≡ some route
      → route.r_iface_handle ≡ 0
      → route.r_iface ≡ src.inet4_addr
      → cached slots dst.inet4_addr a.out.arp ≡ some haddr
      → length haddr ≡ 6
      → length eth.el_mac ≡ 6
      → same_bytes eth.el_mac eth'.el_mac ≡ false
      → 0 < length buf
      → length buf ≤ 1472
      → src.inet4_addr < 2 ^ 32
      → dst.inet4_addr < 2 ^ 32
      → src.port < 2 ^ 16
      → dst.port < 2 ^ 16
      → ip_route_find_by_iface tree' dst.inet4_addr b.host.out.rib ≡ some own
      → udp_tree.find dst b.udp_sock_tree ≡ some k
      → get_elem? b.sockets k ≡ some sock
      → IsValid sock.ingress.queue
      → All Fits (datagrams sock.ingress)
      → depth sock.ingress.queue + 1 ≢ sock.ingress.queue.a_len
      → dgram_room ≤ room
      → (net : IpHdr) × (packet : List ℕ) × (tail : List ℕ) × (frame : List ℕ) × (a' : Host T S)
        × (e_hdr : EtherHdr) × (xstack_udp_send
              (host_ip_send tree slots (eth ∷ []) sendto)
              src
              dst
              buf
              a
            ≡ (sendto a.out.wire frame, a'))
        × (a'.out.wire ≡ a.out.wire ++ (frame ∷ []))
        × (take 6 frame ≡ haddr)
        × (ether_receive (eth' ∷ []) 0 ether_maxlen (arrived (take ether_maxlen frame) ∷ rx)
            ≡ some (
              pos (received_size (28 + length buf)),
              some e_hdr,
              ip_hdr_bytes net (packet ++ tail),
              rx,
            ))
        × (e_hdr.h_src ≡ eth.el_mac)
        × Outcome tree' slots' udp_tree eth' sendto' fragments tcp src buf b e_hdr k sock room net
            (packet ++ tail)
  datagram_path src dst buf a route haddr b own k sock room found handle from known hm he differ
        some_data small small_src small_dst hs hd here bound at valid fits free wide =
      let packet = datagram src.port dst.port buf in
      let cache = host_cache tree slots (eth ∷ []) sendto a.out.rib in
      let h = header tree cache eth sendto route dst.inet4_addr 17 packet a.out in
      let net = ip_hton h packet in
      let size : length packet ≡ 8 + length buf = omega arith in
      let ok =
        header-IsHdr tree cache eth sendto route dst.inet4_addr 17 packet a.out small_dst
          (omega arith) (omega (arith, from)) in
      let back = ap (λ (r : IpHdr × ℕ). r.0) (ip_ntoh-ip_hton h packet ok) in
      let (version, hlen, len, whole, udp, source, target) =
        parsed route dst.inet4_addr (length buf) a.out.ip_global_id (ip_ntoh net).0 net.ip_csum
          (back
            ∙ ap
                (λ m. record (out_header route dst.inet4_addr 17 m a.out.ip_global_id) {
                  ip_csum = net.ip_csum;
                })
                size)
          small in
      let (frame, run, to, carried, long, sender) =
        sent tree slots eth sendto src dst buf a route haddr found handle known hm he some_data
          small hs hd in
      let bytes = ip_hdr_bytes net packet in
      let n : length bytes ≡ 28 + length buf = omega (arith, size) in
      let (tail, come, total, by) =
        receive_frame eth' frame bytes eth.el_mac rx (long ∙ ap (λ m. 18 + max m 56) (sym n)) sender
          (ap (λ m. take m (drop 14 frame)) n ∙ carried) (omega (arith, n, small)) differ in
      let e_hdr = frame_hdr (take ether_maxlen frame) in
      (
        net,
        packet,
        tail,
        frame,
        _,
        e_hdr,
        run,
        refl,
        to,
        come
            ∙ ap
                (λ m.
                  some (pos (received_size m), some e_hdr, ip_hdr_bytes net (packet ++ tail), rx))
                n,
        by,
        judged tree' slots' udp_tree eth' sendto' fragments tcp src dst buf b e_hdr own k sock room
            net tail version hlen len whole udp (source ∙ from) target hs hd small wide
            (ap (λ x. ip_route_find_by_iface tree' x b.host.out.rib) target ∙ here) bound at valid
            fits free (ap (λ m. m + length tail) (sym n) ∙ total ∙ ap received_size n),
      )
