-- ===== src/Tcp/Fsm.antt =====
-- `tcp_fsm` of src/tcp.c: what a connection does with a segment. Both are changed in place.
use xstack_io.Prelude.{ℕ, ◌+◌, ◌-◌, Bool, not, ◌&&◌, bit_and, bit_or, u32, ◌==◌, if◌then◌else◌}
use xstack_io.Prelude.Int.{ℤ, pos, neg}
use xstack_io.Prelude.Errno.{einval}
use xstack_io.Tcp.{
  TcpHdr, TcpConnTcb, TcpState, closed, listen, syn_rcvd, syn_sent, established, fin_wait_1,
  fin_wait_2, close_wait, closing, last_ack, time_wait, tcp_ack, tcp_syn, tcp_fin,
}
use xstack_io.Tcp.Segment.{tcp_hdr_size}

-- `rs->tcp_flags & mask` as a condition
unfoldable pub has_flag : TcpHdr → ℕ → Bool
has_flag rs mask = not (bit_and rs.tcp_flags mask == 0)

-- What a call leaves behind.
pub record Outcome : Type 0 where
  pub retval : ℤ
  pub conn : TcpConnTcb
  pub rs : TcpHdr

abbrev pub quiet : TcpConnTcb → TcpHdr → Outcome
quiet conn rs = record { retval = pos 0; conn = conn; rs = rs }

-- case TCP_LISTEN
unfoldable pub fsm_listen : TcpConnTcb → TcpHdr → Outcome
unfolding has_flag
fsm_listen conn rs =
    let reply : TcpHdr = record rs {
      tcp_flags = bit_or rs.tcp_flags tcp_ack;
      tcp_ack_num = u32 (rs.tcp_seqno + 1);
      tcp_seqno = 0;
    } in
    let conn' : TcpConnTcb = record conn {
      state = syn_rcvd;
      recv_next = reply.tcp_ack_num;
      send_next = u32 (reply.tcp_seqno + 1);
    } in
    if has_flag rs tcp_syn
    then record { retval = tcp_hdr_size reply; conn = conn'; rs = reply }
    else quiet conn rs

-- case TCP_SYN_RCVD
unfoldable pub fsm_syn_rcvd : TcpConnTcb → TcpHdr → Outcome
unfolding has_flag
fsm_syn_rcvd conn rs =
    let reply : TcpHdr = record rs {
      tcp_flags = bit_and rs.tcp_flags (0xFFFF - tcp_ack);
      tcp_ack_num = rs.tcp_seqno;
      tcp_seqno = conn.send_next;
    } in
    let conn' : TcpConnTcb = record conn {
      recv_next = reply.tcp_ack_num;
      send_next = u32 (reply.tcp_seqno + 1);
    } in
    if has_flag rs tcp_ack && rs.tcp_seqno == conn.recv_next && rs.tcp_ack_num == conn.send_next
    then quiet (record conn { state = established }) rs
    else record { retval = tcp_hdr_size reply; conn = conn'; rs = reply }

-- case TCP_ESTABLISHED
unfoldable pub fsm_established : TcpConnTcb → TcpHdr → Outcome
unfolding has_flag
fsm_established conn rs =
    let reply : TcpHdr = record rs {
      tcp_flags = bit_or rs.tcp_flags tcp_ack;
      tcp_ack_num = u32 (rs.tcp_seqno + 1);
      tcp_seqno = conn.send_next;
    } in
    let conn' : TcpConnTcb = record conn {
      state = last_ack;
      recv_next = reply.tcp_ack_num;
      send_next = u32 (reply.tcp_seqno + 1);
    } in
    if has_flag rs tcp_fin
    then record { retval = tcp_hdr_size reply; conn = conn'; rs = reply }
    else quiet conn rs

-- case TCP_LAST_ACK, which without the flag falls through to `default`
unfoldable pub fsm_last_ack : TcpConnTcb → TcpHdr → Outcome
unfolding has_flag
fsm_last_ack conn rs =
    if has_flag rs tcp_ack
    then quiet (record conn { state = closed }) rs
    else record { retval = neg einval; conn = conn; rs = rs }

unfoldable pub fsm_dispatch : TcpState → TcpConnTcb → TcpHdr → Outcome
unfolding fsm_listen fsm_syn_rcvd fsm_established fsm_last_ack
fsm_dispatch closed conn rs = quiet conn rs
fsm_dispatch listen conn rs = fsm_listen conn rs
fsm_dispatch syn_rcvd conn rs = fsm_syn_rcvd conn rs
fsm_dispatch established conn rs = fsm_established conn rs
fsm_dispatch fin_wait_1 conn rs = quiet conn rs
fsm_dispatch fin_wait_2 conn rs = quiet conn rs
fsm_dispatch close_wait conn rs = quiet conn rs
fsm_dispatch closing conn rs = quiet conn rs
fsm_dispatch last_ack conn rs = fsm_last_ack conn rs
fsm_dispatch time_wait conn rs = record { retval = neg einval; conn = conn; rs = rs }
fsm_dispatch syn_sent conn rs = record { retval = neg einval; conn = conn; rs = rs }

unfoldable pub tcp_fsm : TcpConnTcb → TcpHdr → Outcome
unfolding fsm_dispatch
tcp_fsm conn rs = fsm_dispatch conn.state conn rs
