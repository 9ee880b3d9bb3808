-- ===== src/Arp/Answer.antt =====
-- A request that is received is answered.
use xstack_io.Prelude.{
  ℕ, ◌^◌, ◌<◌, ◌≡◌, refl, ap, ◌∙◌, arith, List, some, swap16-swap16, swap32-swap32, same_test,
}
use xstack_io.Prelude.Int.{pos, to_int, to_int_small}
use xstack_io.Ether.Send.{EtherLinux, ether_handle2addr}
use xstack_io.Arp.{ArpIp, ArpStack, arp_hton, arp_ntoh, reply_to, answer, arp_input}

-- The converted fields fit their C types.
pub record IsArp (m : ArpIp) : Type 0 where
  pub htype : m.arp_htype < 2 ^ 16
  pub ptype : m.arp_ptype < 2 ^ 16
  pub oper : m.arp_oper < 2 ^ 16
  pub spa : m.arp_spa < 2 ^ 32
  pub tpa : m.arp_tpa < 2 ^ 32

-- A message that is sent and received again is the same.
pub arp_ntoh-arp_hton : (m : ArpIp) → IsArp m → arp_ntoh (arp_hton m) ≡ m
unfolding arp_ntoh arp_hton
arp_ntoh-arp_hton m ok =
    rw
      (
        swap16-swap16 m.arp_htype ok.htype,
        swap16-swap16 m.arp_ptype ok.ptype,
        swap16-swap16 m.arp_oper ok.oper,
        swap32-swap32 m.arp_spa ok.spa,
        swap32-swap32 m.arp_tpa ok.tpa,
      )
      refl

input-reply :
    {W : Type 0} (ether_if : List EtherLinux) (stack : ArpStack W) (net : ArpIp) (bsize : ℕ) (w : W)
    (iface handle : ℕ)
    → let arp = arp_ntoh net in
      arp.arp_htype ≡ 1
      → arp.arp_ptype ≡ 0x0800
      → arp.arp_oper ≡ 1
      → let w' = stack.ip_defer_handler (stack.arp_cache_insert arp.arp_spa arp.arp_sha w) in
        stack.ip_route_find_by_iface arp.arp_tpa w' ≡ some (iface, handle)
        → arp_input ether_if stack net bsize w
          ≡ (to_int bsize, reply_to ether_if net iface handle, w')
unfolding arp_input answer
input-reply ether_if stack net bsize w iface handle htype ptype oper local =
    let arp = arp_ntoh net in
    rw
      (
        arp_input,
        same_test arp.arp_htype 1 htype,
        same_test arp.arp_ptype 0x0800 ptype,
        answer,
        same_test arp.arp_oper 1 oper,
        local,
      )
      refl

reply_lem :
    (ether_if : List EtherLinux) (req : ArpIp) (iface handle : ℕ)
    → IsArp req
    → iface < 2 ^ 32
    → arp_ntoh (reply_to ether_if (arp_hton req) iface handle) ≡ record req {
      arp_oper = 2;
      arp_sha = (ether_handle2addr ether_if handle req.arp_sha).0;
      arp_spa = iface;
      arp_tha = req.arp_sha;
      arp_tpa = req.arp_spa;
    }
unfolding arp_ntoh arp_hton reply_to
reply_lem ether_if req iface handle ok small =
    rw
      (
        swap16-swap16 req.arp_htype ok.htype,
        swap16-swap16 req.arp_ptype ok.ptype,
        swap16-swap16 2 (omega arith),
        swap32-swap32 req.arp_spa ok.spa,
        swap32-swap32 iface small,
      )
      refl

-- Let a peer ask, over Ethernet and for an IPv4 address, for an address of this host. It is
-- answered by a message of the same size, which the peer reads as a reply from the address and the
-- hardware address of the interface to its own. Before this, its own pair of addresses went into
-- the cache and the deferred packets had their turn; nothing else changes.
pub arp_input_request :
    {W : Type 0} (ether_if : List EtherLinux) (stack : ArpStack W) (req : ArpIp) (bsize : ℕ) (w : W)
    (iface handle : ℕ)
    → IsArp req
    → iface < 2 ^ 32
    → bsize < 2 ^ 31
    → req.arp_htype ≡ 1
    → req.arp_ptype ≡ 0x0800
    → req.arp_oper ≡ 1
    → let w' = stack.ip_defer_handler (stack.arp_cache_insert req.arp_spa req.arp_sha w) in
      stack.ip_route_find_by_iface req.arp_tpa w' ≡ some (iface, handle)
      → let (retval, reply, after) = arp_input ether_if stack (arp_hton req) bsize w in
        (retval ≡ pos bsize)
        × (after ≡ w')
        × (arp_ntoh reply ≡ record req {
          arp_oper = 2;
          arp_sha = (ether_handle2addr ether_if handle req.arp_sha).0;
          arp_spa = iface;
          arp_tha = req.arp_sha;
          arp_tpa = req.arp_spa;
        })
arp_input_request ether_if stack req bsize w iface handle ok small fits htype ptype oper local =
    let same = arp_ntoh-arp_hton req ok in
    let run =
      input-reply ether_if stack (arp_hton req) bsize w iface handle
        (ap (λ m. m.arp_htype) same ∙ htype) (ap (λ m. m.arp_ptype) same ∙ ptype)
        (ap (λ m. m.arp_oper) same ∙ oper)
        (ap
            (λ m.
              stack.ip_route_find_by_iface m.arp_tpa
                (stack.ip_defer_handler (stack.arp_cache_insert m.arp_spa m.arp_sha w)))
            same
          ∙ local) in
    (
      ap (λ p. p.0) run ∙ to_int_small bsize fits,
      ap (λ p. p.2) run
          ∙ ap (λ m. stack.ip_defer_handler (stack.arp_cache_insert m.arp_spa m.arp_sha w)) same,
      ap (λ p. arp_ntoh p.1) run ∙ reply_lem ether_if req iface handle ok small,
    )
