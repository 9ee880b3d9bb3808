-- ===== src/Stack/Datagram.antt =====
-- A datagram that arrives at the host is received by the process at the other end of its socket.
use xstack_io.Prelude.{
  ℕ, ◌+◌, ◌^◌, ◌<◌, ◌≤◌, ◌≡◌, ◌≢◌, refl, ap, ap₂, ◌∙◌, arith, List, [], ◌∷◌, ◌++◌, All, Option,
  none, some, false, map, length, set, get_elem?, take_whole, bit_and, size_sub,
}
use xstack_io.Prelude.Int.{ℤ, pos}
use xstack_io.Ether.{EtherHdr}
use xstack_io.Ether.Send.{EtherLinux, Sendto}
use xstack_io.IpHdr.{IpHdr, ip_hdr_hlen, ip_ntoh, ip_fragment_is_frag}
use xstack_io.QueueR.Valid.{IsValid, depth}
use xstack_io.Tcp.{Sockaddr}
use xstack_io.Udp.{UdpHdr, udp_deliver, udp_input}
use xstack_io.Udp.Delivery.{datagram, received as udp_received, input-deliver, deliver_bound}
use xstack_io.Sock.{dgram_room, Pipe, done, XstackSock, xstack_sock_dgram_input}
use xstack_io.Sock.Queues.{datagrams}
use xstack_io.Sock.Delivery.{received, receive, Fits, socket_delivery}
use xstack_io.RbTree.{RbTree}
use xstack_io.RbTree.Ordered.{RbTrees}
use xstack_io.SlotTree.{SlotTree}
use xstack_io.Route.{IpRoute, ip_route_find_by_iface}
use xstack_io.IpInput.{IpHandler, find_proto, handle, deliver, learn, host_order, ip_input}
use xstack_io.IpInput.Verdict.{ip_input-deliver, deliver-handle}
use xstack_io.Stack.{host_arp}
use xstack_io.Stack.Node.{Node, Running, is_found, delivered, to_socket, node_sockets, node_stack}

-- A handler that takes the data and has no reply.
handle_taken :
    {W : Type 0} (fn : IpHandler W) (ip : IpHdr) (msg : List ℕ) (w : W)
    → length msg < 2 ^ 32
    → (fn ip msg w).0 ≡ pos 0
    → let result = handle fn ip msg 20 (20 + length msg) w in
      (result.0 ≡ pos 0) × (result.3 ≡ (fn ip msg w).2)
unfolding handle
handle_taken fn ip msg w small none_back =
    let whole : size_sub (20 + length msg) 20 ≡ length msg = omega arith in
    rw (handle, whole, take_whole (length msg) msg (omega arith), none_back) (refl, refl)

module _ {T S U : Type 0} (tree : RbTrees ℕ T) (slots : SlotTree S) (udp_tree : RbTree Sockaddr U)
    (ether_if : List EtherLinux) (sendto : Sendto) where
  to_socket_lem :
      (k : ℕ) (sock sock' : XstackSock) (srcaddr : Sockaddr) (buf : List ℕ) (node : Node T S U)
      → get_elem? node.sockets k ≡ some sock
      → xstack_sock_dgram_input sock srcaddr buf ≡ done (pos 0, sock')
      → to_socket udp_tree k srcaddr buf (some node)
        ≡ (pos 0, buf, some (record node { sockets = set node.sockets k sock' }))
  to_socket_lem k sock sock' srcaddr buf node at run =
      ap by_socket at ∙ ap (delivered udp_tree k buf node) run
    where
      by_socket : Option XstackSock → ℤ × List ℕ × Running T S U
      by_socket none = (pos 0, buf, none)
      by_socket (some x) = delivered udp_tree k buf node (xstack_sock_dgram_input x srcaddr buf)

  -- The datagram of a peer is received.
  pub datagram_received :
      (fragments : IpHdr → List ℕ → Running T S U → Running T S U)
      (tcp : ℕ × IpHandler (Running T S U)) (node : Node T S U) (e_hdr : EtherHdr) (net : IpHdr)
      (src dst : Sockaddr) (buf : List ℕ) (route : IpRoute) (k : ℕ) (sock : XstackSock) (room : ℕ)
      → let ip = (ip_ntoh net).0 in
        bit_and ip.ip_vhl 0x40 ≡ 0x40
        → ip_hdr_hlen ip ≡ 20
        → ip.ip_len ≡ 28 + length buf
        → ip_fragment_is_frag ip ≡ false
        → ip.ip_proto ≡ 17
        → ip.ip_src ≡ src.inet4_addr
        → ip.ip_dst ≡ dst.inet4_addr
        → src.port < 2 ^ 16
        → dst.port < 2 ^ 16
        → length buf ≤ dgram_room
        → dgram_room ≤ room
        → ip_route_find_by_iface tree ip.ip_dst node.host.out.rib ≡ some route
        → udp_tree.find dst node.udp_sock_tree ≡ some k
        → get_elem? node.sockets k ≡ some sock
        → IsValid sock.ingress.queue
        → All Fits (datagrams sock.ingress)
        → depth sock.ingress.queue + 1 ≢ sock.ingress.queue.a_len
        → let stack = node_stack tree slots udp_tree ether_if sendto fragments tcp in
          let heard =
            (host_arp tree slots ether_if sendto).arp_cache_insert ip.ip_src e_hdr.h_src
              node.host in
          let result =
            ip_input stack
              (some e_hdr)
              net
              (datagram src.port dst.port buf)
              (28 + length buf)
              (some node) in
          (sock' : XstackSock) × (pipe : Pipe) × ((result.0 ≡ pos 0)
            × (result.3 ≡ some (record node { host = heard; sockets = set node.sockets k sock' })))
          × (receive room (length (datagrams sock.ingress) + 1) sock'.ingress
              ≡ some (map received (datagrams sock.ingress) ++ ((src, buf) ∷ []), pipe))
          × (datagrams pipe ≡ [])
  unfolding learn host_order find_proto
  datagram_received fragments tcp node e_hdr net src dst buf route k sock room version hlen len
        whole proto from here hs hd short wide own bound at valid fits free =
      let ip = (ip_ntoh net).0 in
      let stack = node_stack tree slots udp_tree ether_if sendto fragments tcp in
      let sockets = node_sockets {T = T} {S = S} udp_tree in
      let packet = datagram src.port dst.port buf in
      let node' : Node T S U = record node {
        host =
            (host_arp tree slots ether_if sendto).arp_cache_insert ip.ip_src e_hdr.h_src node.host;
      } in
      let udp : UdpHdr = record {
        udp_sport = src.port;
        udp_dport = dst.port;
        udp_len = 8 + length buf;
        udp_csum = 0;
      } in
      let (sock', pipe, run, got, none_left) =
        socket_delivery sock src buf room valid fits free short wide in
      let passed =
        ap (λ a. to_socket udp_tree k (record { inet4_addr = a; port = src.port }) buf (some node'))
          from
        ∙ to_socket_lem k sock sock' src buf node' at run in
      let converted =
        input-deliver sockets ip packet (some node') (omega arith)
        ∙ ap (λ h. udp_deliver sockets h ip buf (some node'))
            (udp_received src.port dst.port buf hs hd (omega (arith, short))) in
      let (value, state) = deliver_bound sockets k udp ip buf (some node') (
        ap (λ a. udp_tree.find (record { inet4_addr = a; port = dst.port }) node.udp_sock_tree) here
        ∙ bound) in
      let (back, after) =
        handle_taken (udp_input sockets) ip packet (some node') (omega (arith, short))
          (ap (λ r. r.0) converted ∙ value ∙ ap (λ r. r.0) passed) in
      let way =
        ip_input-deliver stack (some e_hdr) net packet (28 + length buf) (some node) version
          (omega arith) len (ap is_found own)
        ∙ ap₂ (λ n b. deliver stack ip packet n b (some node')) hlen (omega arith)
        ∙ deliver-handle stack (udp_input sockets) ip packet 20 (20 + length packet) (some node')
            whole (ap (λ p. find_proto p stack.handlers) proto) in
      (
        sock',
        pipe,
        (
          ap (λ r. r.0) way ∙ back,
          ap (λ r. r.3) way ∙ after ∙ ap (λ r. r.2) converted ∙ state ∙ ap (λ r. r.2) passed,
        ),
        got,
        none_left,
      )
