-- ===== src/Stack.antt =====
-- The parts together: `ip_send` (src/ip.c) with the cache of src/arp.c and the routes, the deferred
-- packets (src/ip_defer.c) sent by `ip_send`, and `arp_input` (src/arp.c) with all three.
pub mod Keeps
pub mod Neighbour
pub mod Node
pub mod Datagram
pub mod Verdict
pub mod EndToEnd
mod Tests
use xstack_io.Prelude.{ℕ, List, Option, none, some, take}
use xstack_io.Prelude.Int.{ℤ, negsuc}
use xstack_io.Ether.{MacAddr}
use xstack_io.Ether.Send.{EtherLinux, Sendto}
use xstack_io.RbTree.Ordered.{RbTrees}
use xstack_io.SlotTree.{SlotTree}
use xstack_io.Route.{Rib, ip_route_find_by_iface}
use xstack_io.IpDefer.{DeferState, ip_defer_handler}
use xstack_io.Arp.{ArpStack}
use xstack_io.Arp.Cache.{
  ArpTable, arp_cache_static, arp_cache_dyn, arp_cache_insert, arp_cache_get_haddr,
}
use xstack_io.IpOutput.{ArpCache, Output, ip_send}

-- The state of the host: `errno`, and what the output of the packets uses.
pub record Host (T S : Type 0) : Type 0 where
  pub errno : ℕ
  pub out : Output T (ArpTable S)

module _ {T S : Type 0} where
  -- The host after `ip_send`.
  abbrev pub returned : Host T S → Option (ℤ × ℕ × Output T (ArpTable S)) → ℤ × ℕ × Host T S
  returned h none = (negsuc 0, h.errno, h)
  returned h (some (retval, errno', out')) = (retval, errno', record { errno = errno'; out = out' })

  -- The host after the loop, with its ring. `none` does not occur.
  abbrev pub settled : Host T S → Option (DeferState × Host T S) → Host T S
  settled h none = h
  settled h (some (s', h')) =
      let out' : Output T (ArpTable S) = record h'.out { defer = s' } in record h' { out = out' }

module _ {T S : Type 0} (tree : RbTrees ℕ T) (slots : SlotTree S) (ether_if : List EtherLinux)
    (sendto : Sendto) where
  -- The cache as `ip_send` and `ip_config` call it. A request leaves it as it is.
  abbrev pub host_cache : Rib T → ArpCache (ArpTable S)
  host_cache rib = record {
    arp_cache_get_haddr = λ iface ip_addr errno s wire.
        let (haddr, errno', wire') =
          arp_cache_get_haddr slots tree ether_if sendto rib iface ip_addr errno s wire in
        (haddr, errno', s, wire');
    insert_static =
        λ ip_addr haddr s. (arp_cache_insert slots ip_addr haddr arp_cache_static 0 s).2;
  }

  abbrev pub host_send :
      ℕ → ℕ → List ℕ → ℕ → Output T (ArpTable S) → Option (ℤ × ℕ × Output T (ArpTable S))
  host_send dst proto buf errno s =
      ip_send tree (host_cache s.rib) ether_if sendto dst proto buf errno s

  -- The call of `ip_send` in `xstack_udp_send`.
  abbrev pub host_ip_send : ℕ → ℕ → List ℕ → Host T S → ℤ × Host T S
  host_ip_send dst proto buf h =
      let (retval, errno', h') = returned h (host_send dst proto buf h.errno h.out) in (retval, h')

  -- The call of `ip_send` in the handler of the deferred packets. They are too small for fragments,
  -- so that `none` does not occur.
  abbrev pub send_deferred : ℕ → ℕ → List ℕ → ℕ → Host T S → ℤ × ℕ × Host T S
  send_deferred dst proto buf bsize h =
      returned h (host_send dst proto (take bsize buf) h.errno h.out)

  -- `ip_defer_handler`. What `ip_send` sees of the ring meanwhile is that it is inhibited.
  unfoldable pub host_defer_handler : Host T S → Host T S
  unfolding ip_defer_handler
  host_defer_handler h =
      let s = h.out.defer in
      let out' : Output T (ArpTable S) = record h.out { defer = record s { defer_inhibit = 1 } } in
      settled h (ip_defer_handler send_deferred s (record h { out = out' }))

  -- What `arp_input` calls.
  abbrev pub host_arp : ArpStack (Host T S)
  host_arp = record {
    arp_cache_insert = λ ip_addr haddr h.
        let (retval, errno', arp') =
          arp_cache_insert slots ip_addr haddr arp_cache_dyn h.errno h.out.arp in
        let out' : Output T (ArpTable S) = record h.out { arp = arp' } in
        record { errno = errno'; out = out' };
    ip_defer_handler = host_defer_handler;
    ip_route_find_by_iface = λ addr h. elim (ip_route_find_by_iface tree addr h.out.rib) [
      | none ↦ none
      | some route ↦ some (route.r_iface, route.r_iface_handle)
    ];
  }
