-- ===== src/Sock/Client.antt =====
-- lib/xstack.c: the two calls of the process that uses a socket. The signals are left out.
use xstack_io.Prelude.{ℕ, List, none, some, length, take, ltb, bit_and, ◌==◌, if◌then◌else◌, u32}
use xstack_io.Prelude.Int.{ℤ, pos, negsuc, eqb_ℤ}
use xstack_io.Prelude.Errno.{enobufs}
use xstack_io.QueueR.{queue_alloc, queue_commit, queue_peek, queue_discard}
use xstack_io.QueueR.Ring.{update}
use xstack_io.Tcp.{Sockaddr}
use xstack_io.Sock.{
  Dgram, Pipe, Attempt, done, again, overrun, copied, dgram_room, xstack_datagram_size_max,
}

abbrev pub xstack_msg_peek : ℕ
xstack_msg_peek = 0x1

unfoldable pub smin : ℕ → ℕ → ℕ
smin a b = u32 (if ltb a b then a else b)

-- The address that is cleared.
abbrev pub no_sockaddr : Sockaddr
no_sockaddr = record { inet4_addr = 0; port = 0 }

-- The size of the datagram stays what it was in the block.
unfoldable pub egress_dgram : Sockaddr → List ℕ → Dgram → Dgram
egress_dgram dest_addr buffer old = record {
  srcaddr = no_sockaddr;
  dstaddr = dest_addr;
  buf_size = old.buf_size;
  buf = copied buffer old.buf;
}

-- The return value, `errno` and the egress queue. `buffer` is the `length` bytes.
unfoldable pub xstack_sendto : List ℕ → Sockaddr → ℕ → Pipe → Attempt (ℤ × ℕ × Pipe)
unfolding egress_dgram
xstack_sendto buffer dest_addr errno pipe =
    let dgram_index = queue_alloc pipe.queue in
    let written : Pipe = record {
      queue = queue_commit pipe.queue;
      blocks =
          update pipe.blocks dgram_index (egress_dgram dest_addr buffer (pipe.blocks dgram_index));
    } in
    if ltb xstack_datagram_size_max (length buffer)
    then done (negsuc 0, enobufs, pipe)
    else if eqb_ℤ dgram_index (negsuc 0)
    then again
    else if ltb dgram_room (length buffer)
    then overrun
    else done (pos (length buffer), errno, written)

-- The return value, the bytes that are copied, the address and the ingress queue.
unfoldable pub xstack_recvfrom : ℕ → ℕ → Pipe → Attempt (ℤ × List ℕ × Sockaddr × Pipe)
unfolding smin
xstack_recvfrom room flags pipe = elim (queue_peek pipe.queue) [
  | none ↦ again
  | some dgram_index ↦
      let dgram = pipe.blocks dgram_index in
      let rd = smin room dgram.buf_size in
      let left = record pipe { queue = (queue_discard pipe.queue 1).0 } in
      if ltb dgram_room rd
      then overrun
      else done (
        pos rd,
        take rd dgram.buf,
        dgram.srcaddr,
        if bit_and flags xstack_msg_peek == 0 then left else pipe,
      )
]
