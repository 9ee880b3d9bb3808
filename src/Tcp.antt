-- ===== src/Tcp.antt =====
-- The TCP service of src/tcp.c and src/tcp.h: the segment header, its checksum, the connection
-- state machine and the input chain.
pub mod Segment
pub mod Fsm
pub mod States
pub mod Handshake
pub mod Input
pub mod Connect
pub mod Checksum
mod Tests
use xstack_io.Prelude.{ℕ}

-- `struct xstack_sockaddr` of include/xstack_socket.h
pub record Sockaddr : Type 0 where
  pub inet4_addr : ℕ
  pub port : ℕ

-- `struct tcp_hdr`
pub record TcpHdr : Type 0 where
  pub tcp_sport : ℕ
  pub tcp_dport : ℕ
  pub tcp_seqno : ℕ
  pub tcp_ack_num : ℕ
  pub tcp_flags : ℕ
  pub tcp_win_size : ℕ
  pub tcp_checksum : ℕ
  pub tcp_urg_ptr : ℕ

abbrev pub tcp_doff_mask : ℕ
tcp_doff_mask = 0xF000

abbrev pub tcp_doff_off : ℕ
tcp_doff_off = 12

abbrev pub tcp_ack : ℕ
tcp_ack = 0x010

abbrev pub tcp_syn : ℕ
tcp_syn = 0x002

abbrev pub tcp_fin : ℕ
tcp_fin = 0x001

-- `enum tcp_state`
pub data TcpState : Type 0 where
  closed listen syn_rcvd syn_sent established fin_wait_1 fin_wait_2 close_wait : TcpState
  closing last_ack time_wait : TcpState

-- `struct tcp_conn_attr`
pub record TcpConnAttr : Type 0 where
  pub local : Sockaddr
  pub remote : Sockaddr

-- `struct tcp_conn_tcb`, with the fields that the program reads or writes after `calloc`.
pub record TcpConnTcb : Type 0 where
  pub attr : TcpConnAttr
  pub state : TcpState
  pub recv_next : ℕ
  pub send_next : ℕ
