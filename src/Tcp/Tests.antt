-- ===== src/Tcp/Tests.antt =====
-- Runs of the TCP service, and the theorems at them.
use xstack_io.Prelude.{
  ℕ, ◌+◌, ℕ_discrete, false, u32, swap16, swap32, ◌≡◌, ◌↔◌, refl, arith, true, List, [], ◌∷◌, All,
  take, sym, ap, ap₂, ◌∙◌, ltb, ◌==◌, ◌&&◌, ◌||◌, if◌then◌else◌,
}
use xstack_io.Prelude.Int.{ℤ, ◌+ℤ◌, pos, neg, negsuc, is_neg}
use xstack_io.Prelude.Errno.{einval}
use xstack_io.Checksum.Sum.{IsByte}
use xstack_io.Tcp.{
  Sockaddr, TcpConnAttr, TcpHdr, TcpConnTcb, closed, listen, syn_rcvd, established, tcp_ack,
  tcp_syn,
}
use xstack_io.Tcp.Segment.{tcp_ntoh, tcp_hdr_size, tcp_checksum, tcp_hdr_bytes, tcp_hton}
use xstack_io.Tcp.Checksum.{tcp_hton_verifies}
use xstack_io.Tcp.Fsm.{has_flag, tcp_fsm}
use xstack_io.Tcp.States.{fsm_run}
use xstack_io.Tcp.Handshake.{handshake, passive_close}
use xstack_io.Tcp.Input.{tcp_conn_cmp, TcpConns, attr_of, tcp_input}
use xstack_io.Tcp.Connect.{Connected, conn_laws, tcp_input_handshake}
use xstack_io.SlotTree.{IsOrder}
use xstack_io.RbTree.Ordered.{RbTrees, IsRbTrees, all-OrderedLaws}
use xstack_io.RbTree.Assoc.{Changes, assoc, assoc-IsRbTree}
use xstack_io.IpHdr.{IpHdr}

abbrev here : Sockaddr
here = record { inet4_addr = 0x0a000002; port = 10 }

abbrev there : Sockaddr
there = record { inet4_addr = 0x0a000001; port = 40000 }

abbrev conn : TcpConnTcb
conn = record {
  attr = record { local = here; remote = there };
  state = listen;
  recv_next = 0;
  send_next = 0;
}

abbrev syn : TcpHdr
syn = record {
  tcp_sport = 40000;
  tcp_dport = 10;
  tcp_seqno = 0xFFFFFFFF;
  tcp_ack_num = 0;
  tcp_flags = 0x5002;
  tcp_win_size = 512;
  tcp_checksum = 0;
  tcp_urg_ptr = 0;
}

-- The sequence number wraps.
abbrev ack : TcpHdr
ack = record syn { tcp_seqno = 0; tcp_ack_num = 1; tcp_flags = 0x5010 }

abbrev fin : TcpHdr
fin = record ack { tcp_flags = 0x5011 }

run_to_established : (fsm_run conn (syn ∷ ack ∷ [])).state ≡ established
unfolding fsm_run tcp_fsm
run_to_established = refl

run_to_closed : (fsm_run conn (syn ∷ ack ∷ fin ∷ ack ∷ [])).state ≡ closed
unfolding fsm_run tcp_fsm
run_to_closed = refl

handshake_example :
    let first = tcp_fsm conn syn in
    let second = tcp_fsm first.conn ack in
    (first.conn.state ≡ syn_rcvd)
    × (first.retval ≡ tcp_hdr_size syn)
    × (has_flag first.rs tcp_syn ≡ true)
    × (has_flag first.rs tcp_ack ≡ true)
    × (first.rs.tcp_ack_num ≡ 0)
    × (first.rs.tcp_seqno ≡ 0)
    × ((second
          ≡ record { retval = pos 0; conn = record first.conn { state = established }; rs = ack })
        ↔ ((has_flag ack tcp_ack ≡ true) × (◌≡◌ {A = ℕ} 0 0) × (◌≡◌ {A = ℕ} 1 1)))
unfolding has_flag
handshake_example = handshake conn syn ack refl refl

passive_close_example :
    let open_conn : TcpConnTcb = record conn { state = established; send_next = 1 } in
    let first = tcp_fsm open_conn fin in
    (first.retval ≡ tcp_hdr_size fin)
    × (has_flag first.rs tcp_ack ≡ true)
    × (first.rs.tcp_ack_num ≡ 1)
    × (first.rs.tcp_seqno ≡ 1)
    × (tcp_fsm first.conn ack ≡ (
        if has_flag ack tcp_ack
        then record { retval = pos 0; conn = record first.conn { state = closed }; rs = ack }
        else record { retval = neg einval; conn = first.conn; rs = ack }))
unfolding has_flag
passive_close_example =
    passive_close (record conn { state = established; send_next = 1 }) fin ack refl refl

abbrev mss_option : List ℕ
mss_option = 2 ∷ 4 ∷ 5 ∷ 0xb4 ∷ []

mss_option-bytes : All IsByte mss_option
mss_option-bytes = omega arith

tcp_hton_verifies_example :
    tcp_checksum here there 24
      (take 24 (tcp_hdr_bytes (tcp_hton here there ack 24 mss_option) mss_option))
    ≡ 0
tcp_hton_verifies_example =
    tcp_hton_verifies here there ack 24 mss_option mss_option-bytes (omega arith)

-- The segments as they come, to a table without connections.
abbrev syn_net : TcpHdr
syn_net = record {
  tcp_sport = 0x409C;
  tcp_dport = 0x0A00;
  tcp_seqno = 0xFFFFFFFF;
  tcp_ack_num = 0;
  tcp_flags = 0x0250;
  tcp_win_size = 0x0002;
  tcp_checksum = 0;
  tcp_urg_ptr = 0;
}

abbrev ack_net : TcpHdr
ack_net = record syn_net { tcp_seqno = 0; tcp_ack_num = 0x01000000; tcp_flags = 0x1050 }

abbrev packet : IpHdr
packet = record {
  ip_vhl = 0x45;
  ip_tos = 0;
  ip_len = 40;
  ip_id = 1;
  ip_foff = 0;
  ip_ttl = 64;
  ip_proto = 6;
  ip_csum = 0;
  ip_src = 0x0a000001;
  ip_dst = 0x0a000002;
}

sockaddr_discrete : Discrete Sockaddr
sockaddr_discrete a b = elim (ℕ_discrete a.inet4_addr b.inet4_addr) [
  | no ne ↦ no (λ e. ne (ap (λ x. x.inet4_addr) e))
  | yes p ↦ elim (ℕ_discrete a.port b.port) [
    | no ne ↦ no (λ e. ne (ap (λ x. x.port) e))
    | yes q ↦ yes (ap₂ (λ x y. record { inet4_addr = x; port = y }) p q)
  ]
]

conn_discrete : Discrete TcpConnAttr
conn_discrete a b = elim (sockaddr_discrete a.local b.local) [
  | no ne ↦ no (λ e. ne (ap (λ x. x.local) e))
  | yes p ↦ elim (sockaddr_discrete a.remote b.remote) [
    | no ne ↦ no (λ e. ne (ap (λ x. x.remote) e))
    | yes q ↦ yes (ap₂ (λ x y. record { local = x; remote = y }) p q)
  ]
]

abbrev tree : RbTrees TcpConnAttr (Changes TcpConnAttr)
tree = λ cmp. assoc conn_discrete

promise : IsRbTrees tree
promise P cmp order =
    all-OrderedLaws conn_discrete (assoc conn_discrete) P (assoc-IsRbTree conn_discrete)

-- The bytes of the addresses in the order of a big-endian machine.
abbrev memcmp : Sockaddr → Sockaddr → ℤ
memcmp a b =
    if a.inet4_addr == b.inet4_addr && a.port == b.port
    then pos 0
    else if ltb a.inet4_addr b.inet4_addr || (a.inet4_addr == b.inet4_addr && ltb a.port b.port)
    then negsuc 0
    else pos 1

-- One connection is in use.
abbrev InUse : TcpConnAttr → Type 0
InUse a = a ≡ attr_of packet syn_net

same_cmp : tcp_conn_cmp memcmp (attr_of packet syn_net) (attr_of packet syn_net) ≡ pos 0
unfolding tcp_conn_cmp attr_of swap16 ◌+ℤ◌
same_cmp = refl

in_use_cmp : (a b : TcpConnAttr) → InUse a → InUse b → tcp_conn_cmp memcmp a b ≡ pos 0
in_use_cmp a b p q = ap₂ (tcp_conn_cmp memcmp) p q ∙ same_cmp

order : IsOrder InUse (tcp_conn_cmp memcmp)
order = record {
  cmp_refl = λ a p. in_use_cmp a a p p;
  cmp_zero = λ a b p q e. p ∙ sym q;
  cmp_flip = λ a b p q ne e. absurd (ne (p ∙ sym q));
  cmp_trans = λ a b c p q r e e'. cc;
}

-- A connection from 10.0.0.1 to 10.0.0.2 and the one the other way round are different, but compare
-- as equal.
mistaken :
    tcp_conn_cmp memcmp
      (record { local = here; remote = there })
      (record { local = there; remote = here })
    ≡ pos 0
unfolding tcp_conn_cmp ◌+ℤ◌
mistaken = refl

abbrev no_conns : TcpConns (Changes TcpConnAttr)
no_conns = record { conns = []; tcp_conn_map = [] }

syn_net_flag : has_flag (tcp_ntoh syn_net) tcp_syn ≡ true
unfolding has_flag tcp_ntoh swap16
syn_net_flag = refl

ack_net_flags :
    (has_flag (tcp_ntoh ack_net) tcp_syn ≡ false)
    × (has_flag (tcp_ntoh ack_net) tcp_ack ≡ true)
    × (is_neg (tcp_hdr_size (tcp_ntoh ack_net)) ≡ false)
unfolding has_flag tcp_ntoh swap16 tcp_hdr_size
ack_net_flags = (refl, refl, refl)

ack_net_numbers :
    ((tcp_ntoh ack_net).tcp_seqno ≡ u32 ((tcp_ntoh syn_net).tcp_seqno + 1))
    × ((tcp_ntoh ack_net).tcp_ack_num ≡ 1)
unfolding tcp_ntoh swap32
ack_net_numbers = (refl, refl)

same_addresses : attr_of packet ack_net ≡ attr_of packet syn_net
unfolding attr_of
same_addresses = refl

tcp_input_handshake_example :
    let (retval, reply, s1) = tcp_input memcmp tree packet syn_net [] 20 no_conns in
    let (retval', left, s2) = tcp_input memcmp tree packet ack_net [] 20 s1 in
    (retval ≡ tcp_hdr_size (tcp_ntoh syn_net))
    × Connected memcmp tree
        (conn_laws memcmp tree promise order)
        (attr_of packet syn_net)
        syn_rcvd
        no_conns
        s1
    × (retval' ≡ pos 0)
    × Connected memcmp tree
        (conn_laws memcmp tree promise order)
        (attr_of packet syn_net)
        established
        no_conns
        s2
tcp_input_handshake_example =
    tcp_input_handshake memcmp tree promise order no_conns packet packet syn_net ack_net [] [] 20 20
      (conn_laws memcmp tree promise order).Fits-empty refl (omega arith) (omega arith) refl
      syn_net_flag same_addresses ack_net_flags.0 ack_net_flags.1 ack_net_flags.2 ack_net_numbers.0
      ack_net_numbers.1
