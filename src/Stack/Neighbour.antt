-- ===== src/Stack/Neighbour.antt =====
-- A neighbour is heard (src/arp.c) and then sent to (src/ip.c).
use mathlib.Core.Path.{subst}
use xstack_io.Prelude.{
  ℕ, ◌+◌, ◌^◌, ◌<◌, ◌≤◌, ◌≡◌, ◌≢◌, refl, sym, ap, ◌∙◌, List, [], ◌∷◌, ◌++◌, All, Option, none, some,
  inl, inr, ◌⊎◌, length, take, drop, u32, ◌==◌, same_test, either_branch, Option-cases,
}
use xstack_io.Prelude.Int.{ℤ}
use xstack_io.Checksum.Sum.{IsByte}
use xstack_io.Ether.{MacAddr}
use xstack_io.Ether.Send.{EtherLinux, Wire, Sendto}
use xstack_io.RbTree.Ordered.{RbTrees}
use xstack_io.SlotTree.{SlotTree, IsSlotTree}
use xstack_io.Route.{IpRoute, ip_route_find_by_network}
use xstack_io.Arp.{ArpIp, ArpStack, arp_hton, arp_ntoh, answer, arp_input}
use xstack_io.Arp.Answer.{IsArp, arp_ntoh-arp_hton}
use xstack_io.Arp.Cache.{arp_cache_dyn, arp_cache_insert, cached}
use xstack_io.Arp.Cache.Order.{Within}
use xstack_io.Arp.Cache.Valid.{IsValid}
use xstack_io.Arp.Cache.Lookup.{arp_laws, AgreesBut, Room, arp_cache_insert_lem, get_haddr_known}
use xstack_io.IpOutput.Sends.{ip_send_whole}
use xstack_io.Stack.{Host, host_cache, host_send, host_arp}
use xstack_io.Stack.Keeps.{defer_handler-keeps}

-- Whatever the operation, the sender is learnt and the handler has its turn.
input_state :
    {W : Type 0} (ether_if : List EtherLinux) (stack : ArpStack W) (net : ArpIp) (bsize : ℕ) (w : W)
    → (arp_ntoh net).arp_htype ≡ 1
    → (arp_ntoh net).arp_ptype ≡ 0x0800
    → (arp_input ether_if stack net bsize w).2
      ≡ stack.ip_defer_handler
          (stack.arp_cache_insert (arp_ntoh net).arp_spa (arp_ntoh net).arp_sha w)
unfolding arp_input answer
input_state {W} ether_if stack net bsize w htype ptype =
    let arp = arp_ntoh net in
    let w' = stack.ip_defer_handler (stack.arp_cache_insert arp.arp_spa arp.arp_sha w) in
    rw (arp_input, same_test arp.arp_htype 1 htype, same_test arp.arp_ptype 0x0800 ptype)
      (by_route w' (Option-cases (stack.ip_route_find_by_iface arp.arp_tpa w')))
  where
    by_route :
        (w' : W)
        → (stack.ip_route_find_by_iface (arp_ntoh net).arp_tpa w' ≡ none)
          ⊎ ((r : ℕ × ℕ) × (stack.ip_route_find_by_iface (arp_ntoh net).arp_tpa w' ≡ some r))
        → (answer ether_if stack net bsize w').2 ≡ w'
    by_route w' (inl e) =
        rw (answer, e)
          (either_branch (λ (r : ℤ × ArpIp × W). r.2 ≡ w') ((arp_ntoh net).arp_oper == 1) _ _ refl
            refl)
    by_route w' (inr (r, e)) =
        rw (answer, e)
          (either_branch (λ (r : ℤ × ArpIp × W). r.2 ≡ w') ((arp_ntoh net).arp_oper == 1) _ _ refl
            refl)

module _ {T S : Type 0} (tree : RbTrees ℕ T) {slots : SlotTree S} (promise : IsSlotTree slots)
    (low : ℕ) (eth : EtherLinux) (sendto : Sendto) where
  -- The cache after a message is that after the insertion.
  learnt :
      (m : ArpIp) (bsize : ℕ) (h : Host T S)
      → IsArp m
      → m.arp_htype ≡ 1
      → m.arp_ptype ≡ 0x0800
      → let h' =
          (arp_input (eth ∷ []) (host_arp tree slots (eth ∷ []) sendto) (arp_hton m) bsize h).2 in
        (h'.out.arp
          ≡ (arp_cache_insert slots m.arp_spa m.arp_sha arp_cache_dyn h.errno h.out.arp).2)
        × (h'.out.rib ≡ h.out.rib)
  learnt m bsize h ok htype ptype =
      let stack = host_arp tree slots (eth ∷ []) sendto in
      let same = arp_ntoh-arp_hton m ok in
      let state =
        input_state (eth ∷ []) stack (arp_hton m) bsize h (ap (λ x. x.arp_htype) same ∙ htype)
          (ap (λ x. x.arp_ptype) same ∙ ptype)
        ∙ ap (λ x. stack.ip_defer_handler (stack.arp_cache_insert x.arp_spa x.arp_sha h)) same in
      let (kept_arp, kept_rib) =
        defer_handler-keeps tree slots (eth ∷ []) sendto
          (stack.arp_cache_insert m.arp_spa m.arp_sha h) in
      (ap (λ x. x.out.arp) state ∙ kept_arp, ap (λ x. x.out.rib) state ∙ kept_rib)

  -- Let a message of ARP over Ethernet for IPv4 arrive, a request or a reply, from a neighbour with
  -- an address that is not zero and lies in the half of the range that the cache uses, while the cache
  -- is valid and has a free entry or one of this address, and let a route of the first interface
  -- serve the address. After `arp_input` a packet of at most 1480 bytes to the neighbour is sent at
  -- once, as one frame to the hardware address in the message, and nothing is asked; the cache is
  -- valid, and every other address of that half of the range has the answer that it had before the
  -- message.
  pub arp_input_then_send :
      (m : ArpIp) (bsize : ℕ) (h : Host T S) (route : IpRoute) (proto : ℕ) (buf : List ℕ)
      (errno : ℕ)
      → IsArp m
      → m.arp_htype ≡ 1
      → m.arp_ptype ≡ 0x0800
      → IsValid (arp_laws promise low) h.out.arp
      → m.arp_spa ≢ 0
      → Within low m.arp_spa
      → Room m.arp_spa h.out.arp.arp_cache
      → ip_route_find_by_network tree m.arp_spa h.out.rib ≡ some route
      → route.r_iface_handle ≡ 0
      → length m.arp_sha ≡ 6
      → length eth.el_mac ≡ 6
      → length buf ≤ 1480
      → All IsByte buf
      → proto < 2 ^ 8
      → route.r_iface < 2 ^ 32
      → let h' =
          (arp_input (eth ∷ []) (host_arp tree slots (eth ∷ []) sendto) (arp_hton m) bsize h).2 in
        (frame : List ℕ) × (host_send tree slots (eth ∷ []) sendto m.arp_spa proto buf errno h'.out
          ≡ some (
            sendto h'.out.wire frame,
            errno,
            record h'.out {
              wire = h'.out.wire ++ (frame ∷ []);
              ip_global_id = u32 (h'.out.ip_global_id + 1);
            },
          ))
        × (take 6 frame ≡ m.arp_sha)
        × (take 2 (drop 12 frame) ≡ 8 ∷ 0 ∷ [])
        × IsValid (arp_laws promise low) h'.out.arp
        × AgreesBut slots low m.arp_spa h.out.arp h'.out.arp
  arp_input_then_send m bsize h route proto buf errno ok htype ptype valid nonzero within room found
        handle hs he small bytes hp hi =
      let h' =
        (arp_input (eth ∷ []) (host_arp tree slots (eth ∷ []) sendto) (arp_hton m) bsize h).2 in
      let (same_arp, same_rib) = learnt m bsize h ok htype ptype in
      let (s', inserted, valid', known, agree) =
        arp_cache_insert_lem promise low h.out.arp m.arp_spa m.arp_sha arp_cache_dyn h.errno valid
          nonzero within (λ e. cc e) room in
      let now = same_arp ∙ ap (λ r. r.2) inserted in
      let answered =
        get_haddr_known slots tree (eth ∷ []) sendto h'.out.rib route.r_iface m.arp_spa errno
          h'.out.arp h'.out.wire m.arp_sha (ap (cached slots m.arp_spa) now ∙ known) in
      let (net, frame, sent, to, type, _, _, _, _, _, _, _) =
        ip_send_whole tree (host_cache tree slots (eth ∷ []) sendto h'.out.rib) eth sendto route
          m.arp_sha m.arp_spa proto buf errno h'.out errno h'.out.arp h'.out.wire
          (ap (ip_route_find_by_network tree m.arp_spa) same_rib ∙ found)
          (ap (λ (r : Option MacAddr × ℕ × Wire). (r.0, r.1, h'.out.arp, r.2)) answered) handle hs
          he small bytes ok.spa hp hi in
      (
        frame,
        sent,
        to,
        type,
        subst (IsValid (arp_laws promise low)) (sym now) valid',
        subst (AgreesBut slots low m.arp_spa h.out.arp) (sym now) agree,
      )
