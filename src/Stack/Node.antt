-- ===== src/Stack/Node.antt =====
-- The way of a packet up the stack with the parts themselves: `ip_input` (src/ip.c) over the cache of
-- src/arp.c and the routes, with the handlers of ICMP and UDP, and src/udp.c over the sockets of
-- src/xstack.c. What is left open is the reassembly and the handler of TCP.
use xstack_io.Prelude.{ℕ, List, [], ◌∷◌, Option, none, some, Bool, true, false, get_elem?, set}
use xstack_io.Prelude.Int.{ℤ, pos}
use xstack_io.Ether.{MacAddr}
use xstack_io.Ether.Send.{EtherLinux, Sendto}
use xstack_io.IpHdr.{IpHdr}
use xstack_io.Icmp.{ip_proto_icmp}
use xstack_io.Tcp.{Sockaddr}
use xstack_io.Udp.{Sockets, ip_proto_udp, udp_input}
use xstack_io.Sock.{Attempt, done, again, overrun, XstackSock, xstack_sock_dgram_input}
use xstack_io.RbTree.{RbTree}
use xstack_io.RbTree.Ordered.{RbTrees}
use xstack_io.SlotTree.{SlotTree}
use xstack_io.Route.{IpRoute, ip_route_find_by_iface}
use xstack_io.IpInput.{IpHandler, IpStack}
use xstack_io.IpInput.Verdict.{icmp_handler}
use xstack_io.Stack.{Host, host_arp}

-- The host, the sockets, and the tree that finds them by their address.
pub record Node (T S U : Type 0) : Type 0 where
  pub host : Host T S
  pub sockets : List XstackSock
  pub udp_sock_tree : U

-- `none` is a call that waits, or that has written beyond the end of a block.
abbrev pub Running : (T S U : Type 0) → Type 0
Running T S U = Option (Node T S U)

-- The test of the value 0.
abbrev pub is_found : Option IpRoute → Bool
is_found none = false
is_found (some route) = true

module _ {T S U : Type 0} (udp_tree : RbTree Sockaddr U) where
  -- The socket `k` after a call.
  abbrev pub delivered :
      ℕ → List ℕ → Node T S U → Attempt (ℤ × XstackSock) → ℤ × List ℕ × Running T S U
  delivered k buf node (done (retval, sock')) =
      (retval, buf, some (record node { sockets = set node.sockets k sock' }))
  delivered k buf node again = (pos 0, buf, none)
  delivered k buf node overrun = (pos 0, buf, none)

  abbrev pub to_socket : ℕ → Sockaddr → List ℕ → Running T S U → ℤ × List ℕ × Running T S U
  to_socket k srcaddr buf none = (pos 0, buf, none)
  to_socket k srcaddr buf (some node) = elim (get_elem? node.sockets k) [
    | none ↦ (pos 0, buf, none)
    | some sock ↦ delivered k buf node (xstack_sock_dgram_input sock srcaddr buf)
  ]

  abbrev pub find_socket : Sockaddr → Running T S U → Option ℕ
  find_socket addr none = none
  find_socket addr (some node) = udp_tree.find addr node.udp_sock_tree

  abbrev pub insert_socket : ℕ → Sockaddr → Running T S U → Running T S U
  insert_socket k addr none = none
  insert_socket k addr (some node) =
      some (record node { udp_sock_tree = (udp_tree.insert addr k node.udp_sock_tree).0 })

  -- What src/udp.c calls.
  abbrev pub node_sockets : Sockets ℕ (Running T S U)
  node_sockets = record {
    find_udp_socket = find_socket;
    insert_udp_socket = insert_socket;
    dgram_input = to_socket;
  }

module _ {T S U : Type 0} (tree : RbTrees ℕ T) (slots : SlotTree S) (udp_tree : RbTree Sockaddr U)
    (ether_if : List EtherLinux) (sendto : Sendto) where
  abbrev pub learn_host : ℕ → MacAddr → Running T S U → Running T S U
  learn_host ip_addr haddr none = none
  learn_host ip_addr haddr (some node) = some (record node {
    host = (host_arp tree slots ether_if sendto).arp_cache_insert ip_addr haddr node.host;
  })

  abbrev pub own_address : ℕ → Running T S U → Bool
  own_address addr none = false
  own_address addr (some node) = is_found (ip_route_find_by_iface tree addr node.host.out.rib)

  -- What `ip_input` calls.
  abbrev pub node_stack :
      (IpHdr → List ℕ → Running T S U → Running T S U)
      → ℕ × IpHandler (Running T S U)
      → IpStack (Running T S U)
  node_stack fragments tcp = record {
    arp_cache_insert = learn_host;
    has_iface = own_address;
    ip_fragment_input = fragments;
    handlers =
        (ip_proto_icmp, icmp_handler)
        ∷ (ip_proto_udp, udp_input (node_sockets udp_tree))
        ∷ tcp
        ∷ [];
  }
