-- ===== src/IpInput/Verdict.antt =====
-- When `ip_input` drops a packet for its size, when it delivers it, and how a ping is answered.
use xstack_io.Prelude.{
  ℕ, ◌+◌, ◌^◌, ◌≤◌, ◌<◌, ◌≡◌, ◌≢◌, refl, ap, ◌∙◌, arith, List, append-nil, Option, some, true,
  false, All, length, drop, get_or, size_sub, bit_and, ltb-false, differ_test, same_test,
  take_whole, drop_whole, swap16-lt, swap32-lt,
}
use xstack_io.Prelude.Int.{pos, ltb_ℤ, to_int, to_int_small}
use xstack_io.Checksum.{ip_checksum}
use xstack_io.Checksum.Sum.{IsByte}
use xstack_io.Ether.{EtherHdr}
use xstack_io.IpHdr.{IpHdr, ip_hdr_hlen, ip_ntoh, ip_reply_header, ip_fragment_is_frag}
use xstack_io.IpHdr.Convert.{IsHdr, ip_reply_header_lem}
use xstack_io.Icmp.{icmp_input}
use xstack_io.Icmp.Reply.{icmp_input_echo}
use xstack_io.IpInput.{IpHandler, IpStack, find_proto, handle, deliver, learn, host_order, ip_input}

-- A packet of another length than the size that was received is dropped.
pub ip_input-wrong_size :
    {W : Type 0} (stack : IpStack W) (e_hdr : Option EtherHdr) (net : IpHdr) (rest : List ℕ)
    (bsize : ℕ) (w : W)
    → let ip = host_order e_hdr net in
      bit_and ip.ip_vhl 0x40 ≡ 0x40
      → 20 ≤ ip_hdr_hlen ip
      → ip.ip_len ≢ bsize
      → ip_input stack e_hdr net rest bsize w ≡ (pos 0, ip, rest, w)
unfolding ip_input
ip_input-wrong_size stack e_hdr net rest bsize w version long other =
    let ip = host_order e_hdr net in
    rw
      (
        same_test (bit_and ip.ip_vhl 0x40) 0x40 version,
        ltb-false (ip_hdr_hlen ip) 20 long,
        differ_test ip.ip_len bsize other,
      )
      refl

-- A well-formed packet for an address of this host is delivered, after its sender is learnt.
pub ip_input-deliver :
    {W : Type 0} (stack : IpStack W) (e_hdr : Option EtherHdr) (net : IpHdr) (rest : List ℕ)
    (bsize : ℕ) (w : W)
    → let ip = host_order e_hdr net in
      bit_and ip.ip_vhl 0x40 ≡ 0x40
      → 20 ≤ ip_hdr_hlen ip
      → ip.ip_len ≡ bsize
      → stack.has_iface ip.ip_dst (learn stack e_hdr ip w) ≡ true
      → ip_input stack e_hdr net rest bsize w
        ≡ deliver stack ip rest (ip_hdr_hlen ip) bsize (learn stack e_hdr ip w)
unfolding ip_input
ip_input-deliver stack e_hdr net rest bsize w version long len here =
    let ip = host_order e_hdr net in
    rw
      (
        same_test (bit_and ip.ip_vhl 0x40) 0x40 version,
        ltb-false (ip_hdr_hlen ip) 20 long,
        same_test ip.ip_len bsize len,
        here,
      )
      refl

pub deliver-handle :
    {W : Type 0} (stack : IpStack W) (fn : IpHandler W) (ip : IpHdr) (rest : List ℕ)
    (hlen bsize : ℕ) (w : W)
    → ip_fragment_is_frag ip ≡ false
    → find_proto ip.ip_proto stack.handlers ≡ some fn
    → deliver stack ip rest hlen bsize w ≡ handle fn ip rest hlen bsize w
unfolding deliver
deliver-handle stack fn ip rest hlen bsize w whole known = rw (whole, known) refl

-- `icmp_input` as a handler
abbrev pub icmp_handler : {W : Type 0} → IpHandler W
icmp_handler ip payload w = let (retval, written) = icmp_input payload in (retval, written, w)

positive : (n : ℕ) → 0 < n → ltb_ℤ (pos 0) (pos n) ≡ true
positive n h = ground arith

-- A reply is the header turned round and the message that the handler has written.
handle_echo :
    {W : Type 0} (ip : IpHdr) (msg : List ℕ) (w : W)
    → All IsByte msg
    → 8 ≤ length msg
    → length msg < 2 ^ 31
    → get_or msg 0 0 ≡ 8
    → let reply = (icmp_input msg).1 in
      handle icmp_handler ip msg 20 (20 + length msg) w ≡ (
        to_int (ip_reply_header ip (length msg) reply).1,
        (ip_reply_header ip (length msg) reply).0,
        reply,
        w,
      )
unfolding handle
handle_echo {W} ip msg w bytes long small echo =
    let whole : size_sub (20 + length msg) 20 ≡ length msg = omega arith in
    rw
      (
        whole,
        take_whole (length msg) msg (omega arith),
        drop_whole (length msg) msg (omega arith),
        append-nil (icmp_input msg).1,
        (icmp_input_echo msg bytes long small echo).0,
        positive (length msg) (omega arith),
      )
      refl

pub ip_ntoh-IsHdr : (net : IpHdr) → IsHdr net → IsHdr (ip_ntoh net).0
unfolding ip_ntoh
ip_ntoh-IsHdr net ok = record {
  vhl = ok.vhl;
  tos = ok.tos;
  len = swap16-lt net.ip_len;
  id = swap16-lt net.ip_id;
  foff = swap16-lt net.ip_foff;
  ttl = ok.ttl;
  proto = ok.proto;
  csum = ok.csum;
  src = swap32-lt net.ip_src;
  dst = swap32-lt net.ip_dst;
}

-- Let a frame bring an unfragmented ICMP packet without options for an address of this host: an echo
-- request whose length is right. It is answered by a packet of the same size to its sender, from
-- the address that it was sent to, whose message verifies and has the code and all behind the
-- checksum of the request. The sender's hardware address has been learnt, and nothing else changes.
pub ip_input_ping :
    {W : Type 0} (stack : IpStack W) (e_hdr : EtherHdr) (net : IpHdr) (msg : List ℕ) (w : W)
    → let ip = (ip_ntoh net).0 in
      let w' = stack.arp_cache_insert ip.ip_src e_hdr.h_src w in
      IsHdr net
      → bit_and ip.ip_vhl 0x40 ≡ 0x40
      → ip_hdr_hlen ip ≡ 20
      → ip.ip_len ≡ 20 + length msg
      → ip_fragment_is_frag ip ≡ false
      → find_proto ip.ip_proto stack.handlers ≡ some icmp_handler
      → stack.has_iface ip.ip_dst w' ≡ true
      → All IsByte msg
      → 8 ≤ length msg
      → get_or msg 0 0 ≡ 8
      → let (retval, net', reply, after) =
          ip_input stack (some e_hdr) net msg (20 + length msg) w in
        let ip' = (ip_ntoh net').0 in
        (retval ≡ pos (20 + length msg))
        × (ip'.ip_len ≡ 20 + length msg)
        × (ip'.ip_src ≡ ip.ip_dst)
        × (ip'.ip_dst ≡ ip.ip_src)
        × (get_or reply 0 0 ≡ 0)
        × (get_or reply 1 0 ≡ get_or msg 1 0)
        × (drop 4 reply ≡ drop 4 msg)
        × (ip_checksum reply ≡ 0)
        × (after ≡ w')
unfolding learn host_order
ip_input_ping stack e_hdr net msg w ok version hlen len whole icmp here bytes long echo =
    let ip = (ip_ntoh net).0 in
    let w' = stack.arp_cache_insert ip.ip_src e_hdr.h_src w in
    let ok' = ip_ntoh-IsHdr net ok in
    let small : length msg + ip_hdr_hlen ip < 2 ^ 16 = omega (arith, ok'.len) in
    let (sent, code) = ip_reply_header_lem ip (length msg) (icmp_input msg).1 ok' small in
    let (size_same, len_same, type, code_same, rest, sum) =
      icmp_input_echo msg bytes long (omega (arith, ok'.len)) echo in
    let run : ip_input stack (some e_hdr) net msg (20 + length msg) w ≡ (
      to_int (ip_reply_header ip (length msg) (icmp_input msg).1).1,
      (ip_reply_header ip (length msg) (icmp_input msg).1).0,
      (icmp_input msg).1,
      w',
    ) =
      ip_input-deliver stack (some e_hdr) net msg (20 + length msg) w version (omega arith) len here
      ∙ ap (λ n. deliver stack ip msg n (20 + length msg) w') hlen
      ∙ deliver-handle stack icmp_handler ip msg 20 (20 + length msg) w' whole icmp
      ∙ handle_echo ip msg w' bytes long (omega (arith, ok'.len)) echo in
    rw run (
      ap to_int sent
          ∙ to_int_small (length msg + ip_hdr_hlen ip) (omega arith)
          ∙ ap pos (omega arith),
      ap (λ h. h.ip_len) code ∙ omega arith,
      ap (λ h. h.ip_src) code,
      ap (λ h. h.ip_dst) code,
      type,
      code_same,
      rest,
      sum,
      refl,
    )
