-- ===== src/IpOutput.antt =====
-- `ip_send` and `ip_config` of src/ip.c: the way of a packet out of the stack, from the routing table
-- through the ARP cache to the frames, or to the packets that wait. The ARP cache is an interface
-- with a state of its own; its requests go to the wire.
pub mod Sends
mod Tests
use xstack_io.Prelude.{
  ℕ, zero, suc, ◌+◌, ◌-◌, ◌^◌, List, [], ◌∷◌, Option, none, some, length, replicate, bit_and, u16,
  u32, ltb, ◌||◌, ◌==◌, if◌then◌else◌,
}
use xstack_io.Prelude.Int.{ℤ, pos, negsuc, neg, is_neg, neg_part, eqb_ℤ}
use xstack_io.Prelude.Errno.{ehostunreach, ealready}
use xstack_io.Ether.{MacAddr, ether_data_len, ether_proto_ipv4}
use xstack_io.Ether.Send.{EtherLinux, Wire, Sendto, ether_send, ether_handle2addr}
use xstack_io.IpHdr.{
  IpHdr, ip_hdr_size, ip_hdr_bytes, ip_hton, ip_vhl_default, ip_tos_default, ip_toff_default,
  ip_ttl_default,
}
use xstack_io.IpFrag.{ip_send_fragments}
use xstack_io.IpDefer.{DeferState, ip_defer_push}
use xstack_io.RbTree.Ordered.{RbTrees}
use xstack_io.Route.{IpRoute, Rib, ip_route_find_by_network, ip_route_update}
use xstack_io.Arp.{arp_gratuitous}

-- The calls of the ARP cache: `arp_cache_get_haddr` with the address of the interface and that of the
-- host, which returns the hardware address, if it succeeds, and `errno`, and the insertion of a static
-- entry.
pub record ArpCache (W : Type 0) : Type 0 where
  pub arp_cache_get_haddr : ℕ → ℕ → ℕ → W → Wire → Option MacAddr × ℕ × W × Wire
  pub insert_static : ℕ → MacAddr → W → W

-- The state that the calls share: the routes, the cache, the packets that wait, the next
-- identification and what was sent.
pub record Output (T W : Type 0) : Type 0 where
  pub rib : Rib T
  pub arp : W
  pub defer : DeferState
  pub ip_global_id : ℕ
  pub wire : Wire

abbrev pub ip_hdr_template : IpHdr
ip_hdr_template = record {
  ip_vhl = ip_vhl_default;
  ip_tos = ip_tos_default;
  ip_len = 0;
  ip_id = 0;
  ip_foff = ip_toff_default;
  ip_ttl = ip_ttl_default;
  ip_proto = 0;
  ip_csum = 0;
  ip_src = 0;
  ip_dst = 0;
}

-- The header in host order.
unfoldable pub out_header : IpRoute → ℕ → ℕ → ℕ → ℕ → IpHdr
out_header route dst proto bsize id = record ip_hdr_template {
  ip_len = u16 (ip_hdr_size + bsize);
  ip_id = u16 id;
  ip_src = route.r_iface;
  ip_dst = dst;
  ip_proto = proto;
}

module _ {T W : Type 0} (tree : RbTrees ℕ T) (cache : ArpCache W) (ether_if : List EtherLinux)
    (sendto : Sendto) where
  -- The host's hardware address is not known: the return value, `errno` and the state.
  unfoldable pub defer_packet : ℕ → ℕ → List ℕ → ℕ → Output T W → ℤ × ℕ × Output T W
  unfolding ip_defer_push
  defer_packet dst proto buf errno s =
      let (retval, defer') = ip_defer_push s.defer dst proto buf in
      let s' : Output T W = record s { defer = defer' } in
      if errno == ehostunreach
      then (if eqb_ℤ retval (pos 0) || eqb_ℤ retval (neg ealready)
          then (pos 0, errno, s')
          else (negsuc 0, neg_part retval, s'))
      else (pos 0, errno, s)

  -- The packet is made and sent. `none` is the fuel of the fragmentation.
  unfoldable pub send_packet :
      IpRoute → MacAddr → ℕ → ℕ → List ℕ → ℕ → Output T W → Option (ℤ × ℕ × Output T W)
  unfolding out_header ip_hton ether_send ip_send_fragments
  send_packet route dst_mac dst proto buf errno s =
      let net = ip_hton (out_header route dst proto (length buf) s.ip_global_id) buf in
      let s' : Output T W = record s { ip_global_id = u32 (s.ip_global_id + 1) } in
      let (retval, wire') =
        ether_send ether_if sendto route.r_iface_handle dst_mac ether_proto_ipv4
          (ip_hdr_bytes net buf) s.wire in
      let fragments =
        ip_send_fragments ether_if sendto route.r_iface_handle dst_mac [] net buf s.wire in
      if ltb ether_data_len (length buf)
      then elim fragments [
        | none ↦ none
        | some (retval', wire'') ↦ some (
          if is_neg retval' then negsuc 0 else retval',
          if is_neg retval' then neg_part retval' else errno,
          record s' { wire = wire'' },
        )
      ]
      else some (retval, errno, record s' { wire = wire' })

  -- What follows the lookup of the hardware address.
  unfoldable pub send_resolved :
      IpRoute
      → ℕ
      → ℕ
      → List ℕ
      → Output T W
      → Option MacAddr × ℕ × W × Wire
      → Option (ℤ × ℕ × Output T W)
  unfolding defer_packet send_packet
  send_resolved route dst proto buf s (none, errno, arp', wire') =
      some (defer_packet dst proto buf errno (record s { arp = arp'; wire = wire' }))
  send_resolved route dst proto buf s (some dst_mac, errno, arp', wire') =
      send_packet route dst_mac dst proto buf errno (record s { arp = arp'; wire = wire' })

  -- The return value, `errno` and the state.
  unfoldable pub ip_send : ℕ → ℕ → List ℕ → ℕ → Output T W → Option (ℤ × ℕ × Output T W)
  unfolding ip_route_find_by_network send_resolved
  ip_send dst proto buf errno s = elim (ip_route_find_by_network tree dst s.rib) [
    | none ↦ some (negsuc 0, ehostunreach, s)
    | some route ↦
        send_resolved route dst proto buf s
          (cache.arp_cache_get_haddr route.r_iface dst errno s.arp s.wire)
  ]

  -- The loop of the announcements.
  unfoldable pub announce : ℕ → ℕ → ℕ → Wire → Wire
  unfolding arp_gratuitous
  announce zero ether_handle ip_addr wire = wire
  announce (suc left) ether_handle ip_addr wire =
      announce left ether_handle ip_addr
        (arp_gratuitous ether_if sendto ether_handle ip_addr wire).1

  -- `mac` is what the stack holds before `ether_handle2addr`. `none` is the fault of the routing table.
  unfoldable pub ip_config : ℕ → ℕ → ℕ → MacAddr → Output T W → Option (ℤ × Output T W)
  unfolding ip_route_update announce ether_handle2addr
  ip_config ether_handle ip_addr netmask mac s =
      let route : IpRoute = record {
        r_network = bit_and ip_addr netmask;
        r_netmask = netmask;
        r_gw = 0;
        r_iface = ip_addr;
        r_iface_handle = ether_handle;
      } in
      let (mac', found) = ether_handle2addr ether_if ether_handle mac in
      let arp' = cache.insert_static ip_addr mac' s.arp in
      elim (ip_route_update tree route s.rib) [
        | none ↦ none
        | some (retval, rib') ↦ some (
          pos 0,
          record s { rib = rib'; arp = arp'; wire = announce 3 ether_handle ip_addr s.wire },
        )
      ]
