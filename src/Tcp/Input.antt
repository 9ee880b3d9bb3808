-- ===== src/Tcp/Input.antt =====
-- `tcp_input` of src/tcp.c: the table of the connections and what a segment does to it. The heap is the
-- list of the connections that `calloc` has made; the tree finds them by their addresses.
use xstack_io.Prelude.{
  ℕ, List, [], ◌∷◌, ◌++◌, Option, none, some, ◌||◌, length, set, get_or, ltb, ntohs, if◌then◌else◌,
}
use xstack_io.Prelude.Int.{ℤ, ◌+ℤ◌, pos, neg, pos_part, is_neg, ltb_ℤ}
use xstack_io.Prelude.Errno.{ebadmsg, einval}
use xstack_io.IpHdr.{IpHdr}
use xstack_io.RbTree.Ordered.{RbTrees}
use xstack_io.Tcp.{Sockaddr, TcpHdr, TcpConnAttr, TcpConnTcb, closed, listen, tcp_syn}
use xstack_io.Tcp.Segment.{tcp_hdr_bytes_size, tcp_hdr_size, tcp_ntoh, tcp_hton}
use xstack_io.Tcp.Fsm.{has_flag, tcp_fsm}

-- The sum of two results of `memcmp`, for the local and the remote addresses.
unfoldable pub tcp_conn_cmp : (Sockaddr → Sockaddr → ℤ) → TcpConnAttr → TcpConnAttr → ℤ
tcp_conn_cmp memcmp a b = memcmp a.local b.local +ℤ memcmp a.remote b.remote

pub record TcpConns (T : Type 0) : Type 0 where
  pub conns : List TcpConnTcb
  pub tcp_conn_map : T

-- A connection as `tcp_new_connection` leaves it, with the state TCP_CLOSED of cleared memory.
abbrev pub new_conn : TcpConnAttr → TcpConnTcb
new_conn attr = record { attr = attr; state = closed; recv_next = 0; send_next = 0 }

abbrev pub no_attr : TcpConnAttr
no_attr = record {
  local = record { inet4_addr = 0; port = 0 };
  remote = record { inet4_addr = 0; port = 0 };
}

-- The addresses of a segment that has come.
unfoldable pub attr_of : IpHdr → TcpHdr → TcpConnAttr
attr_of ip_hdr net = record {
  local = record { inet4_addr = ip_hdr.ip_dst; port = ntohs net.tcp_dport };
  remote = record { inet4_addr = ip_hdr.ip_src; port = ntohs net.tcp_sport };
}

module _ {T : Type 0} (memcmp : Sockaddr → Sockaddr → ℤ) (tree : RbTrees TcpConnAttr T) where
  abbrev pub conn_at : TcpConns T → ℕ → TcpConnTcb
  conn_at s i = get_or s.conns i (new_conn no_attr)

  abbrev pub put_conn : ℕ → TcpConnTcb → TcpConns T → TcpConns T
  put_conn i conn s = record s { conns = set s.conns i conn }

  unfoldable pub tcp_find_connection : TcpConnAttr → TcpConns T → Option ℕ
  tcp_find_connection find s = (tree (tcp_conn_cmp memcmp)).find find s.tcp_conn_map

  unfoldable pub tcp_new_connection : TcpConnAttr → TcpConns T → ℕ × TcpConns T
  tcp_new_connection attr s = (
    length s.conns,
    record {
      conns = s.conns ++ (new_conn attr ∷ []);
      tcp_conn_map = ((tree (tcp_conn_cmp memcmp)).insert attr (length s.conns) s.tcp_conn_map).0;
    },
  )

  -- The call of the state machine and the conversion of its reply, which is written over the segment.
  unfoldable pub tcp_run : TcpConnAttr → ℕ → TcpHdr → List ℕ → TcpConns T → ℤ × TcpHdr × TcpConns T
  unfolding tcp_fsm tcp_hton
  tcp_run attr i tcp rest s =
      let out = tcp_fsm (conn_at s i) tcp in
      let reply : TcpHdr = record out.rs {
        tcp_sport = attr.local.port;
        tcp_dport = attr.remote.port;
      } in
      let net = tcp_hton attr.local attr.remote reply (pos_part out.retval) rest in
      (out.retval, if ltb_ℤ (pos 0) out.retval then net else out.rs, put_conn i out.conn s)

  -- The return value, the segment as it is left and the connections.
  unfoldable pub tcp_input : IpHdr → TcpHdr → List ℕ → ℕ → TcpConns T → ℤ × TcpHdr × TcpConns T
  unfolding attr_of tcp_ntoh tcp_find_connection tcp_new_connection tcp_run has_flag
  tcp_input ip_hdr net rest bsize s =
      let attr = attr_of ip_hdr net in
      let tcp = tcp_ntoh net in
      if ltb bsize tcp_hdr_bytes_size
      then (neg ebadmsg, net, s)
      else elim (tcp_find_connection attr s) [
        | none ↦
            let (i, s') = tcp_new_connection attr s in
            let listening = put_conn i (record (conn_at s' i) { state = listen }) s' in
            if has_flag tcp tcp_syn then tcp_run attr i tcp rest listening else (neg einval, tcp, s)
        | some i ↦
            if has_flag tcp tcp_syn || is_neg (tcp_hdr_size tcp)
            then (neg einval, tcp, s)
            else tcp_run attr i tcp rest s
      ]
