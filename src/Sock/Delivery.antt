-- ===== src/Sock/Delivery.antt =====
-- What a socket of src/xstack.c gets is what the process of lib/xstack.c receives.
use xstack_io.Prelude.{
  ℕ, zero, suc, ◌+◌, ◌*◌, ◌<◌, ◌≤◌, ◌≡◌, ◌≢◌, refl, sym, ap, ◌∙◌, arith, List, [], ◌∷◌, ◌++◌, false,
  length, take, drop, ltb-false, lt→ltb, ◌⊎◌, inl, inr, dec_lt, take_exact, length-append, map, All,
  All-append, Option, none, some,
}
use xstack_io.Prelude.Int.{ℤ, pos, negsuc, eqb_ℤ}
use xstack_io.QueueR.{queue_commit, queue_peek, queue_discard}
use xstack_io.QueueR.Ring.{update}
use xstack_io.QueueR.Valid.{IsValid, depth, queue_commit-IsValid}
use xstack_io.QueueR.Fifo.{queue_alloc_lem}
use xstack_io.Tcp.{Sockaddr}
use xstack_io.Sock.{
  Dgram, Pipe, Attempt, done, again, overrun, XstackSock, dgram_room, ingress_dgram,
  xstack_sock_dgram_input,
}
use xstack_io.Sock.Client.{smin, xstack_recvfrom}
use xstack_io.Sock.Queues.{datagrams, push_lem, pop_lem}

-- The socket after a delivery.
abbrev pub Delivered : XstackSock → Sockaddr → List ℕ → XstackSock → Type 0
Delivered sock srcaddr buf sock' =
    IsValid sock'.ingress.queue
    × (sock'.egress ≡ sock.egress)
    × ((old : Dgram) × (datagrams sock'.ingress
          ≡ datagrams sock.ingress ++ (ingress_dgram sock.sock_addr srcaddr buf old ∷ [])))

-- An offset is not the error value.
pub no_error : (i : ℕ) → eqb_ℤ (pos i) (negsuc 0) ≡ false
no_error i = ground arith

-- In a valid queue, a delivery waits while the queue is full, and else overruns a block with more
-- than 4072 bytes. With at most 4072 bytes it succeeds, appends the datagram to the queue, and leaves
-- a valid queue.
pub xstack_sock_dgram_input_lem :
    (sock : XstackSock) (srcaddr : Sockaddr) (buf : List ℕ)
    → IsValid sock.ingress.queue
    → ((depth sock.ingress.queue + 1 ≡ sock.ingress.queue.a_len)
        × (xstack_sock_dgram_input sock srcaddr buf ≡ again))
      ⊎ ((dgram_room < length buf) × (xstack_sock_dgram_input sock srcaddr buf ≡ overrun))
      ⊎ ((length buf ≤ dgram_room)
          × ((sock' : XstackSock) × (xstack_sock_dgram_input sock srcaddr buf ≡ done (pos 0, sock'))
              × Delivered sock srcaddr buf sock'))
unfolding xstack_sock_dgram_input
xstack_sock_dgram_input_lem sock srcaddr buf v = elim (queue_alloc_lem v) [
  | inl (full, e) ↦ inl (full, rw (xstack_sock_dgram_input, e) refl)
  | inr (room, e, within) ↦ elim (dec_lt dgram_room (length buf)) [
    | yes long ↦ inr (
        inl (
          long,
          rw
              (
                xstack_sock_dgram_input,
                e,
                no_error (sock.ingress.queue.m_write * sock.ingress.queue.b_size),
                lt→ltb dgram_room (length buf) long,
              )
              refl,
        ))
    | no fits ↦
        let short : length buf ≤ dgram_room = omega (arith, fits) in
        let q = sock.ingress.queue in
        let mem = sock.ingress.blocks in
        let old = mem (pos (q.m_write * q.b_size)) in
        let written : Pipe = record {
          queue = queue_commit q;
          blocks =
              update mem (pos (q.m_write * q.b_size))
                (ingress_dgram sock.sock_addr srcaddr buf old);
        } in
        inr (
          inr (
            short,
            (
              record sock { ingress = written },
              rw
                  (
                    xstack_sock_dgram_input,
                    e,
                    no_error (q.m_write * q.b_size),
                    ltb-false dgram_room (length buf) short,
                  )
                  refl,
              (
                queue_commit-IsValid v,
                refl,
                (old, push_lem q mem (ingress_dgram sock.sock_addr srcaddr buf old) v room),
              ),
            ),
          ))
  ]
]

-- What the process gets of a datagram.
abbrev pub received : Dgram → Sockaddr × List ℕ
received d = (d.srcaddr, take d.buf_size d.buf)

-- The results of several calls.
abbrev pub Results : Type 0
Results = Option (List (Sockaddr × List ℕ) × Pipe)

abbrev pub with_first : Sockaddr × List ℕ → Results → Results
with_first d none = none
with_first d (some (later, pipe)) = some (d ∷ later, pipe)

abbrev pub and_then : (Pipe → Results) → Attempt (ℤ × List ℕ × Sockaddr × Pipe) → Results
and_then rest again = none
and_then rest overrun = none
and_then rest (done (rd, bytes, srcaddr, pipe)) = with_first (srcaddr, bytes) (rest pipe)

-- `count` calls of `xstack_recvfrom` with a buffer of `room` bytes, none of which has to wait.
abbrev pub receive : ℕ → ℕ → Pipe → Results
receive room zero pipe = some ([], pipe)
receive room (suc count) pipe = and_then (receive room count) (xstack_recvfrom room 0 pipe)

-- A datagram that fits its block.
abbrev pub Fits : Dgram → Type 0
Fits d = d.buf_size ≤ dgram_room

smin_lem : (room n : ℕ) → n ≤ dgram_room → dgram_room ≤ room → smin room n ≡ n
unfolding smin
smin_lem room n small wide =
    rw (ltb-false room n (omega (arith, small, wide))) (omega (arith, small))

-- The call that takes the oldest datagram.
recvfrom_oldest :
    (room : ℕ) (pipe : Pipe) (off : ℤ)
    → dgram_room ≤ room
    → queue_peek pipe.queue ≡ some off
    → Fits (pipe.blocks off)
    → xstack_recvfrom room 0 pipe
      ≡ done (
        pos (pipe.blocks off).buf_size,
        (received (pipe.blocks off)).1,
        (received (pipe.blocks off)).0,
        record pipe { queue = (queue_discard pipe.queue 1).0 },
      )
unfolding xstack_recvfrom
recvfrom_oldest room pipe off wide e fits =
    rw
      (
        xstack_recvfrom,
        e,
        smin_lem room (pipe.blocks off).buf_size fits wide,
        ltb-false dgram_room (pipe.blocks off).buf_size fits,
      )
      refl

receive_every :
    (room : ℕ) (ds : List Dgram) (pipe : Pipe)
    → dgram_room ≤ room
    → IsValid pipe.queue
    → datagrams pipe ≡ ds
    → All Fits ds
    → (pipe' : Pipe) × (receive room (length ds) pipe ≡ some (map received ds, pipe'))
      × (datagrams pipe' ≡ [])
receive_every room [] pipe wide v e fits = (pipe, refl, e)
receive_every room (d ∷ ds) pipe wide v e fits = elim (pop_lem pipe.queue pipe.blocks v) [
  | inl (nothing, p) ↦ cc (nothing, e)
  | inr (off, rest, p, _, split, left, v') ↦
      let head : pipe.blocks off ≡ d = cc (split, e) in
      let tail : rest ≡ ds = cc (split, e) in
      let pipe1 : Pipe = record pipe { queue = (queue_discard pipe.queue 1).0 } in
      let (pipe', run, done_all) = receive_every room ds pipe1 wide v' (left ∙ tail) fits.1 in
      let first = recvfrom_oldest room pipe off wide p (rw head fits.0) in
      (
        pipe',
        ap (and_then (receive room (length ds))) first
            ∙ ap (with_first (received (pipe.blocks off))) run
            ∙ ap (λ x. some (received x ∷ map received ds, pipe')) head,
        done_all,
      )
]

module _ (sock : XstackSock) (srcaddr : Sockaddr) (buf : List ℕ) (room : ℕ) where
  -- Let the queue of the socket be valid, hold datagrams that fit their blocks, and not be full. A
  -- datagram of at most 4072 bytes is then delivered, and it is received: as many calls of
  -- `xstack_recvfrom` as there are datagrams now, with room for 4072 bytes, do not wait and return
  -- the datagrams that were there, in their order, and then the bytes and the sender of this one,
  -- after which the queue is empty.
  pub socket_delivery :
      IsValid sock.ingress.queue
      → All Fits (datagrams sock.ingress)
      → depth sock.ingress.queue + 1 ≢ sock.ingress.queue.a_len
      → length buf ≤ dgram_room
      → dgram_room ≤ room
      → (sock' : XstackSock) × (pipe : Pipe) × (xstack_sock_dgram_input sock srcaddr buf
          ≡ done (pos 0, sock'))
        × (receive room (length (datagrams sock.ingress) + 1) sock'.ingress
            ≡ some (map received (datagrams sock.ingress) ++ ((srcaddr, buf) ∷ []), pipe))
        × (datagrams pipe ≡ [])
  unfolding ingress_dgram
  socket_delivery v fits room_left short wide =
      elim (xstack_sock_dgram_input_lem sock srcaddr buf v) [
        | inl (full, _) ↦ absurd (room_left full)
        | inr (inl (long, _)) ↦ absurd (omega (arith, long, short))
        | inr (inr (_, (sock', run, (v', _, (old, split))))) ↦
            let d = ingress_dgram sock.sock_addr srcaddr buf old in
            let before = datagrams sock.ingress in
            let (pipe, got, none_left) =
              receive_every room (before ++ (d ∷ [])) sock'.ingress wide v' split
                (All-append Fits before (d ∷ []) fits (short, tt)) in
            (
              sock',
              pipe,
              run,
              ap (λ n. receive room n sock'.ingress) (sym (length-append before (d ∷ [])))
                  ∙ got
                  ∙ ap (λ l. some (l, pipe))
                      (map-last before d
                        ∙ ap (λ b. map received before ++ ((srcaddr, b) ∷ []))
                            (take_exact (length buf) buf (drop (length buf) old.buf) refl)),
              none_left,
            )
      ]
    where
      map-last :
          (ds : List Dgram) (d : Dgram)
          → map received (ds ++ (d ∷ [])) ≡ map received ds ++ (received d ∷ [])
      map-last [] d = refl
      map-last (x ∷ ds) d = ap (λ l. received x ∷ l) (map-last ds d)
