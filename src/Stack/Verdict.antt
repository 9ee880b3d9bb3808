-- ===== src/Stack/Verdict.antt =====
-- What a host does with the packet of a datagram and what was received behind it.
use xstack_io.Prelude.{
  ℕ, ◌+◌, ◌^◌, ◌<◌, ◌≤◌, ◌≡◌, ◌≢◌, sym, ap, ap₂, ◌∙◌, arith, dec_lt, append-nil, take_whole, ◌⊎◌,
  inl, inr, List, [], ◌∷◌, ◌++◌, All, some, map, length, set, get_elem?, bit_and, false,
}
use xstack_io.Prelude.Int.{pos}
use xstack_io.Ether.{EtherHdr}
use xstack_io.Ether.Send.{EtherLinux, Sendto}
use xstack_io.IpHdr.{IpHdr, ip_hdr_hlen, ip_ntoh, ip_fragment_is_frag}
use xstack_io.QueueR.Valid.{IsValid, depth}
use xstack_io.Tcp.{Sockaddr}
use xstack_io.Udp.Delivery.{datagram}
use xstack_io.Sock.{dgram_room, Pipe, XstackSock}
use xstack_io.Sock.Queues.{datagrams}
use xstack_io.Sock.Delivery.{received, receive, Fits}
use xstack_io.Ether.Arrival.{received_size}
use xstack_io.RbTree.{RbTree}
use xstack_io.RbTree.Ordered.{RbTrees}
use xstack_io.SlotTree.{SlotTree}
use xstack_io.Route.{IpRoute, ip_route_find_by_iface}
use xstack_io.IpInput.{IpHandler, host_order, ip_input}
use xstack_io.IpInput.Verdict.{ip_input-wrong_size}
use xstack_io.Stack.{host_arp}
use xstack_io.Stack.Node.{Node, Running, node_stack}
use xstack_io.Stack.Datagram.{datagram_received}

module _ {T S U : Type 0} (tree : RbTrees ℕ T) (slots : SlotTree S) (udp_tree : RbTree Sockaddr U)
    (eth : EtherLinux) (sendto : Sendto)
    (fragments : IpHdr → List ℕ → Running T S U → Running T S U)
    (tcp : ℕ × IpHandler (Running T S U)) where
  -- The other host drops the packet, or the process there receives the datagram.
  abbrev pub Outcome :
      Sockaddr → List ℕ → Node T S U → EtherHdr → ℕ → XstackSock → ℕ → IpHdr → List ℕ → Type 0
  Outcome src buf b e_hdr k sock room net received_data =
      let stack = node_stack tree slots udp_tree (eth ∷ []) sendto fragments tcp in
      let result =
        ip_input stack (some e_hdr) net received_data (received_size (28 + length buf)) (some b) in
      (result.0 ≡ pos 0)
      × (((length buf < 1472) × (result.3 ≡ some b))
          ⊎ ((length buf ≡ 1472)
              × ((sock' : XstackSock) × (pipe : Pipe) × (result.3
                    ≡ some (record b {
                      host =
                          (host_arp tree slots (eth ∷ []) sendto).arp_cache_insert
                            (ip_ntoh net).0.ip_src e_hdr.h_src b.host;
                      sockets = set b.sockets k sock';
                    }))
                  × (receive room (length (datagrams sock.ingress) + 1) sock'.ingress
                      ≡ some (map received (datagrams sock.ingress) ++ ((src, buf) ∷ []), pipe))
                  × (datagrams pipe ≡ []))))

  pub judged :
      (src dst : Sockaddr) (buf : List ℕ) (b : Node T S U) (e_hdr : EtherHdr) (own : IpRoute)
      (k : ℕ) (sock : XstackSock) (room : ℕ) (net : IpHdr) (tail : List ℕ)
      → let ip = (ip_ntoh net).0 in
        bit_and ip.ip_vhl 0x40 ≡ 0x40
        → ip_hdr_hlen ip ≡ 20
        → ip.ip_len ≡ 28 + length buf
        → ip_fragment_is_frag ip ≡ false
        → ip.ip_proto ≡ 17
        → ip.ip_src ≡ src.inet4_addr
        → ip.ip_dst ≡ dst.inet4_addr
        → src.port < 2 ^ 16
        → dst.port < 2 ^ 16
        → length buf ≤ 1472
        → dgram_room ≤ room
        → ip_route_find_by_iface tree ip.ip_dst b.host.out.rib ≡ some own
        → udp_tree.find dst b.udp_sock_tree ≡ some k
        → get_elem? b.sockets k ≡ some sock
        → IsValid sock.ingress.queue
        → All Fits (datagrams sock.ingress)
        → depth sock.ingress.queue + 1 ≢ sock.ingress.queue.a_len
        → (28 + length buf) + length tail ≡ received_size (28 + length buf)
        → Outcome src buf b e_hdr k sock room net (datagram src.port dst.port buf ++ tail)
  unfolding host_order
  judged src dst buf b e_hdr own k sock room net tail version hlen len whole udp source target hs hd
        small wide here bound at valid fits free total =
      let stack = node_stack tree slots udp_tree (eth ∷ []) sendto fragments tcp in
      let packet = datagram src.port dst.port buf in
      elim (dec_lt (length buf) 1472) [
        | yes less ↦
            let run =
              ip_input-wrong_size stack (some e_hdr) net (packet ++ tail)
                (received_size (28 + length buf)) (some b) version (omega (arith, hlen))
                (λ e. omega (arith, e, len, less)) in
            (ap (λ r. r.0) run, inl (less, ap (λ r. r.3) run))
        | no full ↦
            let nothing : packet ++ tail ≡ packet =
              ap (λ l. packet ++ l) (sym (take_whole 0 tail (omega (arith, total, full))))
              ∙ append-nil packet in
            let size : received_size (28 + length buf) ≡ 28 + length buf =
              omega (arith, full, small) in
            let (sock', pipe, input, got, none_left) =
              datagram_received tree slots udp_tree (eth ∷ []) sendto fragments tcp b e_hdr net src
                dst buf own k sock room version hlen len whole udp source target hs hd (omega arith)
                wide here bound at valid fits free in
            let run = ap₂ (λ p m. ip_input stack (some e_hdr) net p m (some b)) nothing size in
            (
              ap (λ r. r.0) run ∙ input.0,
              inr (
                omega (arith, full, small),
                (sock', pipe, ap (λ r. r.3) run ∙ input.1, got, none_left),
              ),
            )
      ]
