-- ===== src/Sock/Sendto.antt =====
-- What `xstack_sendto` of lib/xstack.c puts into the egress queue.
use xstack_io.Prelude.{
  ℕ, ◌+◌, ◌*◌, ◌<◌, ◌≤◌, ◌≡◌, refl, arith, List, [], ◌∷◌, ◌++◌, length, take, drop, take_exact,
  ltb-false, lt→ltb, dec_lt, ◌⊎◌, inl, inr,
}
use xstack_io.Prelude.Int.{pos, negsuc}
use xstack_io.Prelude.Errno.{enobufs}
use xstack_io.QueueR.{queue_commit}
use xstack_io.QueueR.Ring.{update}
use xstack_io.QueueR.Valid.{IsValid, depth, queue_commit-IsValid}
use xstack_io.QueueR.Fifo.{queue_alloc_lem}
use xstack_io.Tcp.{Sockaddr}
use xstack_io.Sock.{Dgram, Pipe, done, again, overrun, dgram_room, xstack_datagram_size_max}
use xstack_io.Sock.Client.{xstack_sendto, egress_dgram}
use xstack_io.Sock.Queues.{datagrams, push_lem}
use xstack_io.Sock.Delivery.{no_error}

-- The queue with the datagram: the destination and the bytes are the caller's, the size is that of
-- the block before.
abbrev pub Sent : Pipe → List ℕ → Sockaddr → Pipe → Type 0
Sent pipe buffer dest_addr pipe' =
    let old = pipe.blocks (pos (pipe.queue.m_write * pipe.queue.b_size)) in
    IsValid pipe'.queue
    × ((d : Dgram) × (datagrams pipe' ≡ datagrams pipe ++ (d ∷ []))
        × (d.dstaddr ≡ dest_addr)
        × (take (length buffer) d.buf ≡ buffer)
        × (d.buf_size ≡ old.buf_size))

-- In a valid queue, `xstack_sendto` refuses more than 4096 bytes with ENOBUFS, waits while the queue
-- is full, overruns the block with 4073 to 4096 bytes, and else returns the number of the bytes and
-- appends a datagram with the destination and the bytes, whose size is what the block had before.
pub xstack_sendto_lem :
    (buffer : List ℕ) (dest_addr : Sockaddr) (errno : ℕ) (pipe : Pipe)
    → IsValid pipe.queue
    → ((xstack_datagram_size_max < length buffer)
        × (xstack_sendto buffer dest_addr errno pipe ≡ done (negsuc 0, enobufs, pipe)))
      ⊎ ((depth pipe.queue + 1 ≡ pipe.queue.a_len)
          × (xstack_sendto buffer dest_addr errno pipe ≡ again))
      ⊎ ((dgram_room < length buffer)
          × (length buffer ≤ xstack_datagram_size_max)
          × (xstack_sendto buffer dest_addr errno pipe ≡ overrun))
      ⊎ ((length buffer ≤ dgram_room)
          × ((pipe' : Pipe) × (xstack_sendto buffer dest_addr errno pipe
                ≡ done (pos (length buffer), errno, pipe'))
              × Sent pipe buffer dest_addr pipe'))
unfolding xstack_sendto egress_dgram
xstack_sendto_lem buffer dest_addr errno pipe v = elim (dec_lt 4096 (length buffer)) [
  | yes long ↦ inl (long, rw (xstack_sendto, lt→ltb 4096 (length buffer) long) refl)
  | no fits ↦
      let short = ltb-false 4096 (length buffer) (omega (arith, fits)) in
      elim (queue_alloc_lem v) [
        | inl (full, e) ↦ inr (inl (full, rw (xstack_sendto, short, e) refl))
        | inr (room, e, _) ↦
            let found = no_error (pipe.queue.m_write * pipe.queue.b_size) in
            elim (dec_lt dgram_room (length buffer)) [
              | yes over ↦ inr (
                  inr (
                    inl (
                      over,
                      omega (arith, fits),
                      rw (xstack_sendto, short, e, found, lt→ltb dgram_room (length buffer) over)
                          refl,
                    )))
              | no inside ↦
                  let within : length buffer ≤ dgram_room = omega (arith, inside) in
                  let q = pipe.queue in
                  let off = pos (q.m_write * q.b_size) in
                  let d = egress_dgram dest_addr buffer (pipe.blocks off) in
                  let pipe' : Pipe = record {
                    queue = queue_commit q;
                    blocks = update pipe.blocks off d;
                  } in
                  inr (
                    inr (
                      inr (
                        within,
                        (
                          pipe',
                          rw
                              (
                                xstack_sendto,
                                short,
                                e,
                                found,
                                ltb-false dgram_room (length buffer) within,
                              )
                              refl,
                          (
                            queue_commit-IsValid v,
                            (
                              d,
                              push_lem q pipe.blocks d v room,
                              refl,
                              take_exact (length buffer) buffer
                                  (drop (length buffer) (pipe.blocks off).buf) refl,
                              refl,
                            ),
                          ),
                        ),
                      )))
            ]
      ]
]
