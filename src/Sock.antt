-- ===== src/Sock.antt =====
-- src/xstack.c: the sockets, the delivery of a datagram to the queue of a socket, the binding by
-- protocol, and the timer. The signal to the process at the other end is left out.
mod Tests
pub mod Client
pub mod Threads
pub mod Queues
pub mod Delivery
pub mod Egress
pub mod Sendto
use xstack_io.Prelude.{
  ℕ, ◌-◌, List, [], ◌∷◌, ◌++◌, Option, none, some, Bool, true, false, not, length, drop, ltb,
  if◌then◌else◌,
}
use xstack_io.Prelude.Int.{ℤ, pos, negsuc, ltb_ℤ, eqb_ℤ, ◌-ℤ◌}
use xstack_io.Prelude.Errno.{eprototype}
use xstack_io.QueueR.{QueueCb, queue_alloc, queue_commit}
use xstack_io.QueueR.Ring.{update}
use xstack_io.Tcp.{Sockaddr}
use xstack_io.Udp.{Sockets, xstack_udp_bind}

-- `struct xstack_dgram`: the header of a block, and the bytes of the block behind it.
pub record Dgram : Type 0 where
  pub srcaddr : Sockaddr
  pub dstaddr : Sockaddr
  pub buf_size : ℕ
  pub buf : List ℕ

abbrev pub xstack_datagram_size_max : ℕ
xstack_datagram_size_max = 4096

abbrev pub xstack_datagram_buf_size : ℕ
xstack_datagram_buf_size = 16384

-- A block has XSTACK_DATAGRAM_SIZE_MAX bytes, of which the header takes 24.
abbrev pub dgram_room : ℕ
dgram_room = xstack_datagram_size_max - 24

-- One direction of a socket: the control block of the queue, and the block at each offset.
pub record Pipe : Type 0 where
  pub queue : QueueCb
  pub blocks : ℤ → Dgram

-- What a call comes to: a result, one more round of the loop that waits for the queue, or a copy
-- beyond the end of a block.
pub data Attempt (A : Type 0) : Type 0 where
  done : A → Attempt A
  again : Attempt A
  overrun : Attempt A

-- The bytes of a block after a copy to its start.
abbrev pub copied : List ℕ → List ℕ → List ℕ
copied bytes old = bytes ++ drop (length bytes) old

-- `enum xstack_sock_proto`
pub data SockProto : Type 0 where
  xip_proto_none : SockProto
  xip_proto_tcp : SockProto
  xip_proto_udp : SockProto
  xip_proto_last : SockProto

-- `struct xstack_sock`
pub record XstackSock : Type 0 where
  pub sock_proto : SockProto
  pub sock_addr : Sockaddr
  pub ingress : Pipe
  pub egress : Pipe

-- The datagram that is written over a block.
unfoldable pub ingress_dgram : Sockaddr → Sockaddr → List ℕ → Dgram → Dgram
ingress_dgram sock_addr srcaddr buf old = record {
  srcaddr = srcaddr;
  dstaddr = sock_addr;
  buf_size = length buf;
  buf = copied buf old.buf;
}

unfoldable pub xstack_sock_dgram_input : XstackSock → Sockaddr → List ℕ → Attempt (ℤ × XstackSock)
unfolding ingress_dgram
xstack_sock_dgram_input sock srcaddr buf =
    let pipe = sock.ingress in
    let dgram_index = queue_alloc pipe.queue in
    let dgram = ingress_dgram sock.sock_addr srcaddr buf (pipe.blocks dgram_index) in
    let written : Pipe = record {
      queue = queue_commit pipe.queue;
      blocks = update pipe.blocks dgram_index dgram;
    } in
    if eqb_ℤ dgram_index (negsuc 0)
    then again
    else if ltb dgram_room (length buf)
    then overrun
    else done (pos 0, record sock { ingress = written })

-- The return value, `errno` and the state.
unfoldable pub xstack_bind :
    {S W : Type 0} → Sockets S W → SockProto → S → Sockaddr → ℕ → W → ℤ × ℕ × W
unfolding xstack_udp_bind
xstack_bind sockets xip_proto_udp sock addr errno w = xstack_udp_bind sockets sock addr errno w
xstack_bind sockets xip_proto_none sock addr errno w = (negsuc 0, eprototype, w)
xstack_bind sockets xip_proto_tcp sock addr errno w = (negsuc 0, eprototype, w)
xstack_bind sockets xip_proto_last sock addr errno w = (negsuc 0, eprototype, w)

abbrev pub xstack_periodic_event_sec : ℕ
xstack_periodic_event_sec = 10

-- The seconds of `start` and of the clock; the result, `delta_time` and `start`.
unfoldable pub eval_timer : ℤ → ℤ → Bool × ℤ × ℤ
eval_timer start now =
    let delta_time = now -ℤ start in
    if not (ltb_ℤ delta_time (pos xstack_periodic_event_sec))
    then (true, delta_time, now)
    else (false, delta_time, start)

-- The tasks of the linker set in their order; an empty entry is passed over.
unfoldable pub run_periodic_tasks : {W : Type 0} → List (Option (ℤ → W → W)) → ℤ → W → W
run_periodic_tasks [] delta_time w = w
run_periodic_tasks (none ∷ tasks) delta_time w = run_periodic_tasks tasks delta_time w
run_periodic_tasks (some task ∷ tasks) delta_time w =
    run_periodic_tasks tasks delta_time (task delta_time w)
