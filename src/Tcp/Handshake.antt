-- ===== src/Tcp/Handshake.antt =====
-- The three-way handshake and the close from the other side, as exchanges of segments.
use xstack_io.Prelude.{
  ℕ, ◌+◌, ◌-◌, ◌*◌, ◌/◌, ◌%◌, ◌^◌, ◌≡◌, ◌↔◌, refl, ap, arith, true, ◌||◌, bit_and, bit_or, u32, ltb,
  if◌then◌else◌,
}
use xstack_io.Prelude.Int.{pos, neg}
use xstack_io.Prelude.Errno.{einval}
use xstack_io.Prelude.Bits.{bit_and_digit, bit_and_low, bit_and_shift, bit_or_digit}
use xstack_io.Tcp.{
  TcpHdr, TcpConnTcb, closed, listen, syn_rcvd, established, last_ack, tcp_ack, tcp_syn, tcp_fin,
}
use xstack_io.Tcp.Segment.{tcp_hdr_size}
use xstack_io.Tcp.Fsm.{Outcome, has_flag, tcp_fsm}

-- The three flags that the machine reads, as digits.
has_ack : (rs : TcpHdr) → (has_flag rs tcp_ack ≡ true) ↔ (rs.tcp_flags / 16 % 2 ≡ 1)
unfolding has_flag
has_ack rs = rw (bit_and_digit 4 rs.tcp_flags) (ground arith)

has_syn : (rs : TcpHdr) → (has_flag rs tcp_syn ≡ true) ↔ (rs.tcp_flags / 2 % 2 ≡ 1)
unfolding has_flag
has_syn rs = rw (bit_and_digit 1 rs.tcp_flags) (ground arith)

data_offset : (flags : ℕ) → bit_and flags 0xF000 / 2 ^ 12 ≡ flags / 2 ^ 12 % 16
data_offset flags = omega (arith, bit_and_shift 12 flags 15, bit_and_low 4 (flags / 2 ^ 12))

-- The flags of a reply: the acknowledgement is set, the others and the data offset stay.
flags-or : (flags : ℕ) → bit_or flags tcp_ack ≡ flags + (1 - flags / 16 % 2) * 16
flags-or flags = bit_or_digit 4 flags

tcp_hdr_size-or :
    (rs : TcpHdr) (seq ack : ℕ)
    → tcp_hdr_size
        (record rs { tcp_flags = bit_or rs.tcp_flags tcp_ack; tcp_seqno = seq; tcp_ack_num = ack })
      ≡ tcp_hdr_size rs
unfolding tcp_hdr_size
tcp_hdr_size-or rs seq ack =
    let same : bit_and (bit_or rs.tcp_flags tcp_ack) 0xF000 / 2 ^ 12
        ≡ bit_and rs.tcp_flags 0xF000 / 2 ^ 12 =
      omega (
        arith,
        data_offset (bit_or rs.tcp_flags tcp_ack),
        data_offset rs.tcp_flags,
        flags-or rs.tcp_flags,
      ) in
    ap (λ (d : ℕ). if ltb d 5 || ltb 15 d then neg einval else pos (d * 4)) same

-- What a listening connection makes of a SYN.
abbrev syn_reply : TcpHdr → TcpHdr
syn_reply syn = record syn {
  tcp_flags = bit_or syn.tcp_flags tcp_ack;
  tcp_ack_num = u32 (syn.tcp_seqno + 1);
  tcp_seqno = 0;
}

abbrev after_syn : TcpConnTcb → TcpHdr → TcpConnTcb
after_syn conn syn = record conn {
  state = syn_rcvd;
  recv_next = u32 (syn.tcp_seqno + 1);
  send_next = 1;
}

listen_syn :
    (conn : TcpConnTcb) (syn : TcpHdr)
    → conn.state ≡ listen
    → has_flag syn tcp_syn ≡ true
    → tcp_fsm conn syn
      ≡ record { retval = tcp_hdr_size syn; conn = after_syn conn syn; rs = syn_reply syn }
unfolding tcp_fsm
listen_syn conn syn at flag = ground (arith, tcp_hdr_size-or syn 0 (u32 (syn.tcp_seqno + 1)))

syn_rcvd_iff :
    (conn : TcpConnTcb) (rs : TcpHdr)
    → conn.state ≡ syn_rcvd
    → (tcp_fsm conn rs
        ≡ record { retval = pos 0; conn = record conn { state = established }; rs = rs })
      ↔ ((has_flag rs tcp_ack ≡ true)
          × (rs.tcp_seqno ≡ conn.recv_next)
          × (rs.tcp_ack_num ≡ conn.send_next))
unfolding tcp_fsm
syn_rcvd_iff conn rs at =
    ((λ e. accepted (ap (λ (o : Outcome). o.conn.state) e)), (λ h. ground arith))
  where
    accepted :
        (tcp_fsm conn rs).conn.state ≡ established
        → (has_flag rs tcp_ack ≡ true)
          × (rs.tcp_seqno ≡ conn.recv_next)
          × (rs.tcp_ack_num ≡ conn.send_next)
    accepted e = ground arith

-- A listening connection answers a SYN by SYN and ACK, acknowledging the sequence number after
-- that of the SYN and starting its own at 0, in a header of the same size. The next segment makes
-- the connection established, and is not answered, exactly when it acknowledges sequence number 1
-- and continues at the acknowledged one.
pub handshake :
    (conn : TcpConnTcb) (syn next : TcpHdr)
    → conn.state ≡ listen
    → has_flag syn tcp_syn ≡ true
    → let first = tcp_fsm conn syn in
      let second = tcp_fsm first.conn next in
      (first.conn.state ≡ syn_rcvd)
      × (first.retval ≡ tcp_hdr_size syn)
      × (has_flag first.rs tcp_syn ≡ true)
      × (has_flag first.rs tcp_ack ≡ true)
      × (first.rs.tcp_ack_num ≡ u32 (syn.tcp_seqno + 1))
      × (first.rs.tcp_seqno ≡ 0)
      × ((second ≡ record {
        retval = pos 0;
        conn = record first.conn { state = established };
        rs = next;
      })
          ↔ ((has_flag next tcp_ack ≡ true)
              × (next.tcp_seqno ≡ u32 (syn.tcp_seqno + 1))
              × (next.tcp_ack_num ≡ 1)))
handshake conn syn next at flag = rw (listen_syn conn syn at flag) (
  refl,
  refl,
  (has_syn (syn_reply syn)).1 (omega (arith, flags-or syn.tcp_flags, (has_syn syn).0 flag)),
  (has_ack (syn_reply syn)).1 (omega (arith, flags-or syn.tcp_flags)),
  refl,
  refl,
  syn_rcvd_iff (after_syn conn syn) next refl,
)

abbrev fin_reply : (conn : TcpConnTcb) (rs : TcpHdr) → TcpHdr
fin_reply conn rs = record rs {
  tcp_flags = bit_or rs.tcp_flags tcp_ack;
  tcp_ack_num = u32 (rs.tcp_seqno + 1);
  tcp_seqno = conn.send_next;
}

established_fin :
    (conn : TcpConnTcb) (rs : TcpHdr)
    → conn.state ≡ established
    → has_flag rs tcp_fin ≡ true
    → tcp_fsm conn rs ≡ record {
      retval = tcp_hdr_size rs;
      conn = record conn {
        state = last_ack;
        recv_next = u32 (rs.tcp_seqno + 1);
        send_next = u32 (conn.send_next + 1);
      };
      rs = fin_reply conn rs;
    }
unfolding tcp_fsm
established_fin conn rs at flag =
    ground (arith, tcp_hdr_size-or rs conn.send_next (u32 (rs.tcp_seqno + 1)))

last_ack_lem :
    (conn : TcpConnTcb) (rs : TcpHdr)
    → conn.state ≡ last_ack
    → tcp_fsm conn rs ≡ (
        if has_flag rs tcp_ack
        then record { retval = pos 0; conn = record conn { state = closed }; rs = rs }
        else record { retval = neg einval; conn = conn; rs = rs })
unfolding tcp_fsm
last_ack_lem conn rs at = ground arith

-- A FIN on an established connection is acknowledged, in a header of the same size and at the next
-- sequence number to send. The next segment closes the connection unanswered if it carries ACK,
-- and is else refused with EINVAL and changes nothing.
pub passive_close :
    (conn : TcpConnTcb) (rs next : TcpHdr)
    → conn.state ≡ established
    → has_flag rs tcp_fin ≡ true
    → let first = tcp_fsm conn rs in
      (first.retval ≡ tcp_hdr_size rs)
      × (has_flag first.rs tcp_ack ≡ true)
      × (first.rs.tcp_ack_num ≡ u32 (rs.tcp_seqno + 1))
      × (first.rs.tcp_seqno ≡ conn.send_next)
      × (tcp_fsm first.conn next ≡ (
          if has_flag next tcp_ack
          then record { retval = pos 0; conn = record first.conn { state = closed }; rs = next }
          else record { retval = neg einval; conn = first.conn; rs = next }))
passive_close conn rs next at flag = rw (established_fin conn rs at flag) (
  refl,
  (has_ack (fin_reply conn rs)).1 (omega (arith, flags-or rs.tcp_flags)),
  refl,
  refl,
  last_ack_lem _ next refl,
)
