-- ===== src/Sock/Threads.antt =====
-- src/xstack.c: the two threads, their start and their stop. What the threads read of the shared
-- state is a list, an entry for each round.
use xstack_io.Prelude.{
  ℕ, List, [], ◌∷◌, Option, none, some, Bool, true, false, not, ◌&&◌, replicate, take,
  if◌then◌else◌,
}
use xstack_io.Prelude.Int.{ℤ, pos, negsuc, pos_part, ltb_ℤ, is_neg}
use xstack_io.Prelude.Errno.{ealready}
use xstack_io.QueueR.{queue_create, queue_peek, queue_discard, queue_isempty}
use xstack_io.Ether.{EtherHdr}
use xstack_io.Tcp.{Sockaddr}
use xstack_io.Udp.{Sockets, xstack_udp_send}
use xstack_io.Sock.{
  Dgram, dgram_room, Pipe, SockProto, xip_proto_none, xip_proto_tcp, xip_proto_udp, xip_proto_last,
  XstackSock, xstack_bind, xstack_datagram_size_max, xstack_datagram_buf_size, eval_timer,
  run_periodic_tasks,
}

-- `enum xstack_state`
pub data XstackState : Type 0 where
  xstack_stopped : XstackState
  xstack_running : XstackState
  xstack_dying : XstackState

abbrev pub is_dying : XstackState → Bool
is_dying xstack_stopped = false
is_dying xstack_running = false
is_dying xstack_dying = true

abbrev pub is_stopped : XstackState → Bool
is_stopped xstack_stopped = true
is_stopped xstack_running = false
is_stopped xstack_dying = false

-- `ip_send` of src/ip.c
abbrev pub IpSend : Type 0 → Type 0
IpSend W = ℕ → ℕ → List ℕ → W → ℤ × W

module _ {W : Type 0} (ip_send : IpSend W) where
  -- `proto_send`: the return value of `xstack_tcp_send` is -1, and a failure is only logged.
  unfoldable pub send_dgram : SockProto → Sockaddr → Dgram → W → W
  unfolding xstack_udp_send
  send_dgram xip_proto_udp sock_addr d w =
      (xstack_udp_send ip_send sock_addr d.dstaddr (take d.buf_size d.buf) w).1
  send_dgram xip_proto_tcp sock_addr d w = w
  send_dgram xip_proto_none sock_addr d w = w
  send_dgram xip_proto_last sock_addr d w = w

  -- One socket of a round. A queue that is not empty has a block to peek at.
  unfoldable pub egress_socket : XstackSock → W → XstackSock × W
  unfolding send_dgram
  egress_socket sock w =
      let pipe = sock.egress in
      elim (queue_peek pipe.queue) [
        | none ↦ (sock, w)
        | some dgram_index ↦
            let left = record pipe { queue = (queue_discard pipe.queue 1).0 } in
            if queue_isempty pipe.queue then (sock, w) else (
              record sock { egress = left },
              send_dgram sock.sock_proto sock.sock_addr (pipe.blocks dgram_index) w,
            )
      ]

  -- The loop over the sockets.
  unfoldable pub egress_round : List XstackSock → W → List XstackSock × W
  unfolding egress_socket
  egress_round [] w = ([], w)
  egress_round (sock ∷ rest) w =
      let (sock', w') = egress_socket sock w in
      let (rest', w'') = egress_round rest w' in (sock' ∷ rest', w'')

  -- The thread, with what `get_state` returns in each round. `none` is a thread that still runs.
  unfoldable pub xstack_egress_thread :
      List XstackState → List XstackSock → W → Option (List XstackSock × W)
  unfolding egress_round
  xstack_egress_thread [] socks w = none
  xstack_egress_thread (state ∷ states) socks w =
      let (socks', w') = egress_round socks w in
      let later = xstack_egress_thread states socks' w' in
      if is_dying state then some (socks', w') else later

-- What a round of the ingress thread calls, with the state of the stack.
pub record IngressOps (W : Type 0) : Type 0 where
  pub ether_receive : W → ℤ × EtherHdr × List ℕ × W
  pub ether_input : EtherHdr → List ℕ → ℕ → W → ℤ × List ℕ × W
  pub ether_output_reply : EtherHdr → List ℕ → ℕ → W → W
  pub clock : W → ℤ × W
  pub tasks : List (Option (ℤ → W → W))

module _ {W : Type 0} (ops : IngressOps W) where
  -- A frame and the reply to it.
  unfoldable pub ingress_frame : W → W
  ingress_frame w =
      let (retval, hdr, rx_buffer, w') = ops.ether_receive w in
      let (retval', rx_buffer', w'') = ops.ether_input hdr rx_buffer (pos_part retval) w' in
      if not (ltb_ℤ (pos 0) retval)
      then w'
      else if ltb_ℤ (pos 0) retval'
      then ops.ether_output_reply hdr rx_buffer' (pos_part retval') w''
      else w''

  -- A round, with the `start` of the timer.
  unfoldable pub ingress_round : ℤ → W → ℤ × W
  unfolding ingress_frame eval_timer run_periodic_tasks
  ingress_round start w =
      let (now, w') = ops.clock (ingress_frame w) in
      let (tick, delta_time, start') = eval_timer start now in
      (start', if tick then run_periodic_tasks ops.tasks delta_time w' else w')

  unfoldable pub xstack_ingress_thread : List XstackState → ℤ → W → Option W
  unfolding ingress_round
  xstack_ingress_thread [] start w = none
  xstack_ingress_thread (state ∷ states) start w =
      let (start', w') = ingress_round start w in
      let later = xstack_ingress_thread states start' w' in
      if is_dying state then some w' else later

-- The queues of a socket at the start; the shared memory is cleared.
abbrev pub cleared_dgram : Dgram
cleared_dgram = record {
  srcaddr = record { inet4_addr = 0; port = 0 };
  dstaddr = record { inet4_addr = 0; port = 0 };
  buf_size = 0;
  buf = replicate dgram_room 0;
}

unfoldable pub init_socket : XstackSock → XstackSock
init_socket sock =
    let pipe : Pipe = record {
      queue = queue_create xstack_datagram_size_max xstack_datagram_buf_size;
      blocks = λ i. cleared_dgram;
    } in
    record sock { ingress = pipe; egress = pipe }

-- `none` is `exit(1)`.
unfoldable pub xstack_init :
    {W : Type 0} → Sockets XstackSock W → List XstackSock → W → Option (List XstackSock × W)
unfolding init_socket xstack_bind
xstack_init sockets [] w = some ([], w)
xstack_init sockets (sock ∷ rest) w =
    let sock' = init_socket sock in
    let (retval, errno, w') = xstack_bind sockets sock.sock_proto sock' sock.sock_addr 0 w in
    let later = xstack_init sockets rest w' in
    if is_neg retval
    then none
    else elim later [ none ↦ none | some (rest', w'') ↦ some (sock' ∷ rest', w'') ]

-- The state of the stack as a whole: its sockets, what `xstack_bind` changes, which threads were made
-- and not waited for yet, and whether an ingress thread was cancelled, which nothing waits for: it runs
-- up to its next call that can be cancelled, also while a later start makes another one.
pub record Stack (W : Type 0) : Type 0 where
  pub xstack_state : XstackState
  pub ether_handle : ℕ
  pub sockets : List XstackSock
  pub net : W
  pub ingress_runs : Bool
  pub egress_runs : Bool
  pub ingress_cancelled : Bool

-- What follows `xstack_init`, with the results of `pthread_create`.
unfoldable pub start_threads : {W : Type 0} → Bool → Bool → ℕ → Stack W → ℤ × ℕ × Stack W
start_threads ingress_made egress_made errno s =
    if not ingress_made
    then (negsuc 0, errno, s)
    else if not egress_made
    then (negsuc 0, errno, record s { ingress_cancelled = true })
    else (
      pos 0,
      errno,
      record s { xstack_state = xstack_running; ingress_runs = true; egress_runs = true },
    )

-- The return value, `errno` and the state.
unfoldable pub xstack_start :
    {W : Type 0} → Sockets XstackSock W → ℕ → Bool → Bool → ℕ → Stack W → Option (ℤ × ℕ × Stack W)
unfolding xstack_init start_threads
xstack_start sockets handle ingress_made egress_made errno s =
    let s' = record s { ether_handle = handle } in
    if not (is_stopped s.xstack_state)
    then some (negsuc 0, ealready, s')
    else elim (xstack_init sockets s.sockets s.net) [
      | none ↦ none
      | some (socks, net') ↦
          some (
            start_threads ingress_made egress_made errno
              (record s' { sockets = socks; net = net' }))
    ]

-- Both threads are waited for between the two changes of the state. `none` is `pthread_join` of a
-- thread that was never made or that has been waited for, whose behaviour is undefined.
unfoldable pub xstack_stop : {W : Type 0} → Stack W → Option (Stack W)
xstack_stop s =
    if s.ingress_runs && s.egress_runs
    then some
        (record s { xstack_state = xstack_stopped; ingress_runs = false; egress_runs = false })
    else none
