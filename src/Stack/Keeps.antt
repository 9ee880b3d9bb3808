-- ===== src/Stack/Keeps.antt =====
-- What the output of a packet and the handler of the deferred packets leave alone.
use xstack_io.Prelude.{
  ℕ, zero, suc, ◌+◌, ◌≡◌, refl, ◌∙◌, List, Option, none, some, length, take, ltb, ◌||◌, ◌&&◌, ◌==◌,
  if◌then◌else◌, either_branch, Option-cases, inl, inr, u32,
}
use xstack_io.Prelude.Int.{ℤ, pos, negsuc, neg, eqb_ℤ, is_neg, neg_part}
use xstack_io.Prelude.Errno.{ehostunreach, ealready}
use xstack_io.Ether.{MacAddr, ether_data_len}
use xstack_io.Ether.Send.{EtherLinux, Sendto, Wire}
use xstack_io.RbTree.Ordered.{RbTrees}
use xstack_io.SlotTree.{SlotTree}
use xstack_io.Route.{IpRoute, Rib, ip_route_find_by_network}
use xstack_io.IpDefer.{
  DeferState, ip_defer_push, ip_defer_peek, ip_defer_drop, count_try, defer_loop, ip_defer_handler,
  xstack_ip_defer_max,
}
use xstack_io.Arp.Cache.{ArpTable, arp_cache_get_haddr}
use xstack_io.IpOutput.{Output, ip_send, send_resolved, defer_packet, send_packet}
use xstack_io.Stack.{
  Host, returned, settled, host_cache, host_send, send_deferred, host_defer_handler,
}

-- What holds of the state that a loop returns.
abbrev After : {W : Type 0} → (W → Type 0) → Option (DeferState × W) → Type 0
After P none = Unit
After P (some (s, w)) = P w

-- What every call of `ip_send` keeps, the handler's loop keeps.
defer_loop-After :
    {W : Type 0} (send : ℕ → ℕ → List ℕ → ℕ → W → ℤ × ℕ × W) (P : W → Type 0)
    → ((dst proto : ℕ) (buf : List ℕ) (bsize : ℕ) (w : W) → P w → P (send dst proto buf bsize w).2)
    → (fuel : ℕ) (s : DeferState) (w : W) → P w
    → After P (defer_loop send fuel s w)
unfolding defer_loop
defer_loop-After send P keeps zero s w p = tt
defer_loop-After send P keeps (suc fuel) s w p = elim (Option-cases (ip_defer_peek s)) [
  | inl none_left ↦ rw (defer_loop, none_left) p
  | inr (ipd, next) ↦
      let s1 = (count_try s ipd).0 in
      let ipd1 = (count_try s ipd).1 in
      let sent = send ipd1.dst ipd1.proto ipd1.buf ipd1.buf_size w in
      let p' = keeps ipd1.dst ipd1.proto ipd1.buf ipd1.buf_size w p in
      rw (defer_loop, next)
        (either_branch (After P) (ltb 3 ipd.tries) (defer_loop send fuel (ip_defer_drop s1) w)
          (if eqb_ℤ sent.0 (negsuc 0) && sent.1 == ehostunreach
            then some ((count_try s1 ipd1).0, sent.2)
            else defer_loop send fuel (ip_defer_drop s1) sent.2)
          (defer_loop-After send P keeps fuel (ip_defer_drop s1) w p)
          (either_branch (After P) (eqb_ℤ sent.0 (negsuc 0) && sent.1 == ehostunreach)
            (some ((count_try s1 ipd1).0, sent.2)) (defer_loop send fuel (ip_defer_drop s1) sent.2)
            p' (defer_loop-After send P keeps fuel (ip_defer_drop s1) sent.2 p')))
]

module _ {T S : Type 0} (tree : RbTrees ℕ T) (slots : SlotTree S) (ether_if : List EtherLinux)
    (sendto : Sendto) where
  abbrev Kept : Output T (ArpTable S) → Option (ℤ × ℕ × Output T (ArpTable S)) → Type 0
  Kept s none = Unit
  Kept s (some (retval, errno, s')) = (s'.arp ≡ s.arp) × (s'.rib ≡ s.rib)

  deferred-Kept :
      (rib : Rib T) (dst proto : ℕ) (buf : List ℕ) (errno : ℕ) (s : Output T (ArpTable S))
      → Kept s (
          some (
            defer_packet tree
              (host_cache tree slots ether_if sendto rib)
              ether_if
              sendto
              dst
              proto
              buf
              errno
              s))
  unfolding defer_packet
  deferred-Kept rib dst proto buf errno s =
      let (retval, defer') = ip_defer_push s.defer dst proto buf in
      let P : ℤ × ℕ × Output T (ArpTable S) → Type 0 = λ r. Kept s (some r) in
      either_branch P (errno == ehostunreach) _ _
        (either_branch P (eqb_ℤ retval (pos 0) || eqb_ℤ retval (neg ealready)) _ _ (refl, refl)
          (refl, refl))
        (refl, refl)

  packet-Kept :
      (rib : Rib T) (route : IpRoute) (mac : MacAddr) (dst proto : ℕ) (buf : List ℕ) (errno : ℕ)
      (s : Output T (ArpTable S))
      → Kept s (
          send_packet tree
            (host_cache tree slots ether_if sendto rib)
            ether_if
            sendto
            route
            mac
            dst
            proto
            buf
            errno
            s)
  unfolding send_packet
  packet-Kept rib route mac dst proto buf errno s =
      either_branch (Kept s) (ltb ether_data_len (length buf)) _ _ (go _) (refl, refl)
    where
      go :
          (o : Option (ℤ × Wire))
          → Kept s (elim o [
            | none ↦ none
            | some (retval', wire'') ↦ some (
              if is_neg retval' then negsuc 0 else retval',
              if is_neg retval' then neg_part retval' else errno,
              record s { ip_global_id = u32 (s.ip_global_id + 1); wire = wire'' },
            )
          ])
      go none = tt
      go (some (retval', wire'')) = (refl, refl)

  resolved-Kept :
      (rib : Rib T) (route : IpRoute) (dst proto : ℕ) (buf : List ℕ) (s : Output T (ArpTable S))
      (haddr : Option MacAddr) (errno : ℕ) (wire : Wire)
      → Kept s (
          send_resolved tree
            (host_cache tree slots ether_if sendto rib)
            ether_if
            sendto
            route
            dst
            proto
            buf
            s
            (haddr, errno, s.arp, wire))
  unfolding send_resolved
  resolved-Kept rib route dst proto buf s none errno wire =
      deferred-Kept rib dst proto buf errno (record s { wire = wire })
  resolved-Kept rib route dst proto buf s (some mac) errno wire =
      packet-Kept rib route mac dst proto buf errno (record s { wire = wire })

  send-Kept :
      (dst proto : ℕ) (buf : List ℕ) (errno : ℕ) (s : Output T (ArpTable S))
      → Kept s (host_send tree slots ether_if sendto dst proto buf errno s)
  unfolding ip_send
  send-Kept dst proto buf errno s = elim (Option-cases (ip_route_find_by_network tree dst s.rib)) [
    | inl no_route ↦ rw (ip_send, no_route) (refl, refl)
    | inr (route, found) ↦
        let asked =
          arp_cache_get_haddr slots tree ether_if sendto s.rib route.r_iface dst errno s.arp
            s.wire in
        rw (ip_send, found) (resolved-Kept s.rib route dst proto buf s asked.0 asked.1 asked.2)
  ]

  -- The handler of the deferred packets changes neither the cache nor the routes.
  pub defer_handler-keeps :
      (h : Host T S)
      → let h' = host_defer_handler tree slots ether_if sendto h in
        (h'.out.arp ≡ h.out.arp) × (h'.out.rib ≡ h.out.rib)
  unfolding host_defer_handler ip_defer_handler
  defer_handler-keeps h =
      close (ip_defer_handler (send_deferred tree slots ether_if sendto) h.out.defer start) (
        defer_loop-After (send_deferred tree slots ether_if sendto) P keeps xstack_ip_defer_max
          (record h.out.defer { defer_inhibit = 1 }) start (refl, refl))
    where
      P : Host T S → Type 0
      P w = (w.out.arp ≡ h.out.arp) × (w.out.rib ≡ h.out.rib)

      start : Host T S
      start =
          let out' : Output T (ArpTable S) = record h.out {
            defer = record h.out.defer { defer_inhibit = 1 };
          } in
          record h { out = out' }

      sent :
          (w : Host T S) (o : Option (ℤ × ℕ × Output T (ArpTable S)))
          → Kept w.out o
          → P w
          → P (returned w o).2
      sent w none k p = p
      sent w (some (retval, errno', out')) k p = (k.0 ∙ p.0, k.1 ∙ p.1)

      keeps :
          (dst proto : ℕ) (buf : List ℕ) (bsize : ℕ) (w : Host T S)
          → P w
          → P (send_deferred tree slots ether_if sendto dst proto buf bsize w).2
      keeps dst proto buf bsize w p =
          sent w (host_send tree slots ether_if sendto dst proto (take bsize buf) w.errno w.out)
            (send-Kept dst proto (take bsize buf) w.errno w.out) p

      close : (o : Option (DeferState × Host T S)) → After P o → P (settled h o)
      close none k = (refl, refl)
      close (some (s', h')) k = k
