-- ===== src/IpOutput/Sends.antt =====
-- What `ip_send` of src/ip.c puts on the wire.
use xstack_io.Prelude.{
  max, ℕ, ◌+◌, ◌^◌, ◌<◌, ◌≤◌, ◌≡◌, refl, sym, ap, ap₂, ◌∙◌, arith, List, [], ◌∷◌, ◌++◌, All, Option,
  some, length, take, drop, ltb-false, u16, u32,
}
use xstack_io.Prelude.Int.{ℤ}
use xstack_io.Checksum.{ip_checksum}
use xstack_io.Checksum.Sum.{IsByte}
use xstack_io.Ether.{MacAddr, ether_data_len, ether_proto_ipv4}
use xstack_io.Ether.Send.{EtherLinux, Wire, Sendto, ether_send}
use xstack_io.Ether.Frame.{ether_send_frame}
use xstack_io.IpHdr.{IpHdr, ip_hdr_bytes, ip_hdr_hlen, ip_hton, ip_ntoh}
use xstack_io.IpHdr.Convert.{IsHdr, ip_hton_verifies, ip_ntoh-ip_hton}
use xstack_io.RbTree.Ordered.{RbTrees}
use xstack_io.Route.{IpRoute, ip_route_find_by_network}
use xstack_io.IpOutput.{ArpCache, Output, out_header, send_packet, send_resolved, ip_send}

module _ {T W : Type 0} (tree : RbTrees ℕ T) (cache : ArpCache W) (eth : EtherLinux)
    (sendto : Sendto) where
  send_whole :
      (route : IpRoute) (dst_mac : MacAddr) (dst proto : ℕ) (buf : List ℕ) (errno : ℕ)
      (s : Output T W)
      → length buf ≤ ether_data_len
      → let sent =
          ether_send
            (eth ∷ [])
            sendto
            route.r_iface_handle
            dst_mac
            ether_proto_ipv4
            (ip_hdr_bytes
              (ip_hton (out_header route dst proto (length buf) s.ip_global_id) buf)
              buf)
            s.wire in
        send_packet tree cache (eth ∷ []) sendto route dst_mac dst proto buf errno s
        ≡ some (sent.0, errno, record s { ip_global_id = u32 (s.ip_global_id + 1); wire = sent.1 })
  unfolding send_packet
  send_whole route dst_mac dst proto buf errno s small =
      rw (send_packet, ltb-false ether_data_len (length buf) small) refl

  resolved :
      (route : IpRoute) (dst_mac : MacAddr) (dst proto : ℕ) (buf : List ℕ) (errno : ℕ)
      (s : Output T W) (errno' : ℕ) (arp' : W) (wire' : Wire)
      → ip_route_find_by_network tree dst s.rib ≡ some route
      → cache.arp_cache_get_haddr route.r_iface dst errno s.arp s.wire
        ≡ (some dst_mac, errno', arp', wire')
      → ip_send tree cache (eth ∷ []) sendto dst proto buf errno s
        ≡ send_packet tree cache
            (eth ∷ [])
            sendto
            route
            dst_mac
            dst
            proto
            buf
            errno'
            (record s { arp = arp'; wire = wire' })
  unfolding ip_send send_resolved
  resolved route dst_mac dst proto buf errno s errno' arp' wire' found known =
      at_route found ∙ ap (send_resolved tree cache (eth ∷ []) sendto route dst proto buf s) known
    where
      at_route :
          ip_route_find_by_network tree dst s.rib ≡ some route
          → ip_send tree cache (eth ∷ []) sendto dst proto buf errno s
            ≡ send_resolved tree cache
                (eth ∷ [])
                sendto
                route
                dst
                proto
                buf
                s
                (cache.arp_cache_get_haddr route.r_iface dst errno s.arp s.wire)
      at_route e = rw (ip_send, e) refl

  module _ (route : IpRoute) (dst proto : ℕ) (buf : List ℕ) (s : Output T W) where
    abbrev pub header : IpHdr
    header = out_header route dst proto (length buf) s.ip_global_id

    abbrev pub packet : List ℕ
    packet = ip_hdr_bytes (ip_hton header buf) buf

    pub header-IsHdr : dst < 2 ^ 32 → proto < 2 ^ 8 → route.r_iface < 2 ^ 32 → IsHdr header
    unfolding out_header
    header-IsHdr d p i = record {
      vhl = omega arith;
      tos = omega arith;
      len = omega arith;
      id = omega arith;
      foff = omega arith;
      ttl = omega arith;
      proto = p;
      csum = omega arith;
      src = i;
      dst = d;
    }

    header_size : ip_hdr_hlen header ≡ 20
    unfolding out_header ip_hdr_hlen
    header_size = refl

    length-packet : length packet ≡ 20 + length buf
    length-packet = omega arith

  -- The frame of a packet that is sent whole.
  pub ip_send_frame :
      (route : IpRoute) (dst_mac : MacAddr) (dst proto : ℕ) (buf : List ℕ) (errno : ℕ)
      (s : Output T W) (errno' : ℕ) (arp' : W) (wire' : Wire)
      → ip_route_find_by_network tree dst s.rib ≡ some route
      → cache.arp_cache_get_haddr route.r_iface dst errno s.arp s.wire
        ≡ (some dst_mac, errno', arp', wire')
      → route.r_iface_handle ≡ 0
      → length dst_mac ≡ 6
      → length eth.el_mac ≡ 6
      → length buf ≤ 1480
      → (frame : List ℕ) × (ip_send tree cache (eth ∷ []) sendto dst proto buf errno s
          ≡ some (
            sendto wire' frame,
            errno',
            record s {
              arp = arp';
              wire = wire' ++ (frame ∷ []);
              ip_global_id = u32 (s.ip_global_id + 1);
            },
          ))
        × (take 6 frame ≡ dst_mac)
        × (take 2 (drop 12 frame) ≡ 8 ∷ 0 ∷ [])
        × (take (20 + length buf) (drop 14 frame) ≡ packet route dst proto buf s)
        × (length frame ≡ 18 + max (20 + length buf) 56)
        × (take 6 (drop 6 frame) ≡ eth.el_mac)
  ip_send_frame route dst_mac dst proto buf errno s errno' arp' wire' found known handle hm hs
        small =
      let pkt = packet route dst proto buf s in
      let long = length-packet route dst proto buf s in
      let (frame, sent, ret, size, to, from, type, carried, _) =
        ether_send_frame eth sendto dst_mac ether_proto_ipv4 pkt wire' hm hs
          (omega (arith, long, small)) in
      let s' : Output T W = record s { arp = arp'; wire = wire' } in
      let answer : ℤ → Wire → Option (ℤ × ℕ × Output T W) =
        λ r w. some (r, errno', record s' { ip_global_id = u32 (s.ip_global_id + 1); wire = w }) in
      let call : ℕ → ℤ × Wire =
        λ k. ether_send (eth ∷ []) sendto k dst_mac ether_proto_ipv4 pkt wire' in
      (
        frame,
        resolved route dst_mac dst proto buf errno s errno' arp' wire' found known
            ∙ send_whole route dst_mac dst proto buf errno' s' (omega (arith, small))
            ∙ ap (λ k. answer (call k).0 (call k).1) handle
            ∙ ap₂ answer ret sent,
        to,
        type,
        ap (λ k. take k (drop 14 frame)) (sym long) ∙ carried,
        size ∙ ap (λ k. 18 + max k 56) long,
        from,
      )

  -- Let a route of the first interface serve the destination and its hardware address be known. A
  -- packet of at most 1480 bytes is sent as one frame to that hardware address, of the type of
  -- IPv4. The frame carries a header, whose checksum the receiver accepts and whose fields, in host
  -- order, are the source address of the interface, the destination, the protocol, the length of the
  -- packet and the identification, and behind it the bytes. The result is that of the kernel, and
  -- the next packet has the next identification.
  pub ip_send_whole :
      (route : IpRoute) (dst_mac : MacAddr) (dst proto : ℕ) (buf : List ℕ) (errno : ℕ)
      (s : Output T W) (errno' : ℕ) (arp' : W) (wire' : Wire)
      → ip_route_find_by_network tree dst s.rib ≡ some route
      → cache.arp_cache_get_haddr route.r_iface dst errno s.arp s.wire
        ≡ (some dst_mac, errno', arp', wire')
      → route.r_iface_handle ≡ 0
      → length dst_mac ≡ 6
      → length eth.el_mac ≡ 6
      → length buf ≤ 1480
      → All IsByte buf
      → dst < 2 ^ 32
      → proto < 2 ^ 8
      → route.r_iface < 2 ^ 32
      → (net : IpHdr) × (frame : List ℕ) × (ip_send tree cache
            (eth ∷ [])
            sendto
            dst
            proto
            buf
            errno
            s
          ≡ some (
            sendto wire' frame,
            errno',
            record s {
              arp = arp';
              wire = wire' ++ (frame ∷ []);
              ip_global_id = u32 (s.ip_global_id + 1);
            },
          ))
        × (take 6 frame ≡ dst_mac)
        × (take 2 (drop 12 frame) ≡ 8 ∷ 0 ∷ [])
        × (take (20 + length buf) (drop 14 frame) ≡ ip_hdr_bytes net buf)
        × (ip_checksum (take 20 (ip_hdr_bytes net buf)) ≡ 0)
        × ((ip_ntoh net).0.ip_src ≡ route.r_iface)
        × ((ip_ntoh net).0.ip_dst ≡ dst)
        × ((ip_ntoh net).0.ip_proto ≡ proto)
        × ((ip_ntoh net).0.ip_len ≡ 20 + length buf)
        × ((ip_ntoh net).0.ip_id ≡ u16 s.ip_global_id)
  unfolding out_header
  ip_send_whole route dst_mac dst proto buf errno s errno' arp' wire' found known handle hm hs small
        bytes hd hp hi =
      let h = header route dst proto buf s in
      let net = ip_hton h buf in
      let ok = header-IsHdr route dst proto buf s hd hp hi in
      let size = header_size route dst proto buf s in
      let back = ip_ntoh-ip_hton h buf ok in
      let (frame, sent, to, type, carried, _, _) =
        ip_send_frame route dst_mac dst proto buf errno s errno' arp' wire' found known handle hm hs
          small in
      (
        net,
        frame,
        sent,
        to,
        type,
        carried,
        ap (λ k. ip_checksum (take k (ip_hdr_bytes net buf))) (sym size)
            ∙ ip_hton_verifies h buf ok bytes (omega (arith, size)),
        ap (λ (r : IpHdr × ℕ). r.0.ip_src) back,
        ap (λ (r : IpHdr × ℕ). r.0.ip_dst) back,
        ap (λ (r : IpHdr × ℕ). r.0.ip_proto) back,
        ap (λ (r : IpHdr × ℕ). r.0.ip_len) back ∙ omega (arith, small),
        ap (λ (r : IpHdr × ℕ). r.0.ip_id) back,
      )
