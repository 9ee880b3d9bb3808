-- ===== src/Sock/Tests.antt =====
-- Tests of the sockets and the threads, and the witnesses of their theorems.
use xstack_io.Prelude.{
  ℕ, ◌+◌, ◌<◌, ◌≤◌, ◌≡◌, refl, arith, List, [], ◌∷◌, ◌++◌, Option, none, some, true, false, length,
  map, ◌⊎◌,
}
use xstack_io.Prelude.Int.{ℤ, pos, negsuc, ◌-ℤ◌}
use xstack_io.Prelude.Errno.{enobufs, ealready}
use xstack_io.QueueR.{QueueCb, queue_alloc}
use xstack_io.QueueR.Valid.{IsValid, depth}
use xstack_io.Tcp.{Sockaddr}
use xstack_io.Udp.{Sockets}
use xstack_io.Sock.{
  Dgram, Pipe, done, again, overrun, XstackSock, xip_proto_udp, dgram_room,
  xstack_datagram_size_max, xstack_sock_dgram_input, eval_timer, run_periodic_tasks,
}
use xstack_io.Sock.Client.{xstack_sendto}
use xstack_io.Sock.Threads.{
  IpSend, Stack, xstack_stopped, xstack_running, init_socket, xstack_start, xstack_stop, send_dgram,
}
use xstack_io.Sock.Queues.{datagrams}
use xstack_io.Sock.Delivery.{received, receive, socket_delivery}
use xstack_io.Sock.Sendto.{Sent, xstack_sendto_lem}

abbrev here : Sockaddr
here = record { inet4_addr = 0x0a000001; port = 53 }

abbrev there : Sockaddr
there = record { inet4_addr = 0x0a000002; port = 40000 }

-- The block holds one byte; its size is 1.
abbrev block : Dgram
block = record { srcaddr = there; dstaddr = there; buf_size = 1; buf = 9 ∷ [] }

-- A queue of four blocks in which one is stored.
abbrev stored : QueueCb
stored = record { b_size = 4096; a_len = 4; m_write = 1; m_read = 0 }

stored-IsValid : IsValid stored
stored-IsValid = record {
  block = omega arith;
  write_in = omega arith;
  read_in = omega arith;
  small = omega arith;
}

abbrev pipe : Pipe
pipe = record { queue = stored; blocks = λ i. block }

abbrev sock : XstackSock
sock = record { sock_proto = xip_proto_udp; sock_addr = here; ingress = pipe; egress = pipe }

-- A queue of two blocks has room for one datagram.
abbrev full : XstackSock
full = record sock {
  ingress = record pipe { queue = record { b_size = 4096; a_len = 2; m_write = 1; m_read = 0 } };
}

waits : xstack_sock_dgram_input full here (1 ∷ []) ≡ again
unfolding xstack_sock_dgram_input queue_alloc
waits = refl

socket_delivery_example :
    (sock' : XstackSock) × (pipe' : Pipe) × (xstack_sock_dgram_input sock here (7 ∷ 8 ∷ [])
      ≡ done (pos 0, sock'))
    × (receive 4096 (length (datagrams sock.ingress) + 1) sock'.ingress
        ≡ some (map received (datagrams sock.ingress) ++ ((here, 7 ∷ 8 ∷ []) ∷ []), pipe'))
    × (datagrams pipe' ≡ [])
socket_delivery_example =
    socket_delivery sock here (7 ∷ 8 ∷ []) 4096 stored-IsValid (omega arith, tt) (omega arith)
      (omega arith) (omega arith)

-- `ip_send` keeps what it sends.
abbrev log : IpSend (List (List ℕ))
log dst proto buf w = (pos 0, buf ∷ w)

xstack_sendto_lem_example :
    ((xstack_datagram_size_max < 2)
      × (xstack_sendto (7 ∷ 8 ∷ []) there 0 pipe ≡ done (negsuc 0, enobufs, pipe)))
    ⊎ ((depth stored + 1 ≡ 4) × (xstack_sendto (7 ∷ 8 ∷ []) there 0 pipe ≡ again))
    ⊎ ((dgram_room < 2)
        × (2 ≤ xstack_datagram_size_max)
        × (xstack_sendto (7 ∷ 8 ∷ []) there 0 pipe ≡ overrun))
    ⊎ ((2 ≤ dgram_room)
        × ((pipe' : Pipe) × (xstack_sendto (7 ∷ 8 ∷ []) there 0 pipe ≡ done (pos 2, 0, pipe'))
            × Sent pipe (7 ∷ 8 ∷ []) there pipe'))
xstack_sendto_lem_example = xstack_sendto_lem (7 ∷ 8 ∷ []) there 0 pipe stored-IsValid

-- A datagram whose size is 0, as it is in cleared memory, is not sent.
unsent : send_dgram log xip_proto_udp here (record block { buf_size = 0 }) [] ≡ []
unfolding send_dgram
unsent = refl

-- The state of the rest of the stack is the list of the ports in use.
abbrev table : Sockets XstackSock (List ℕ)
table = record {
  find_udp_socket = λ a w. none;
  insert_udp_socket = λ s a w. a.port ∷ w;
  dgram_input = λ s a b w. (pos 0, b, w);
}

abbrev down : Stack (List ℕ)
down = record {
  xstack_state = xstack_stopped;
  ether_handle = 0;
  sockets = sock ∷ [];
  net = [];
  ingress_runs = false;
  egress_runs = false;
  ingress_cancelled = false;
}

abbrev up : Stack (List ℕ)
up = record down {
  xstack_state = xstack_running;
  ether_handle = 3;
  sockets = init_socket sock ∷ [];
  net = 53 ∷ [];
  ingress_runs = true;
  egress_runs = true;
}

first_start : xstack_start table 3 true true 0 down ≡ some (pos 0, 0, up)
unfolding xstack_start
first_start = refl

-- A second start is refused, but the running threads have another handle after it.
second_start :
    xstack_start table 4 true true 0 up ≡ some (negsuc 0, ealready, record up { ether_handle = 4 })
unfolding xstack_start
second_start = refl

-- A stop waits for both threads; a second one waits for threads that are there no more.
stop_twice :
    (xstack_stop up
      ≡ some
          (record up { xstack_state = xstack_stopped; ingress_runs = false; egress_runs = false }))
    × (xstack_stop down ≡ none)
unfolding xstack_stop
stop_twice = (refl, refl)

-- When the second thread cannot be made, the first is cancelled, and the stack can be started again.
half_start :
    xstack_start table 3 true false 11 down
    ≡ some (
      negsuc 0,
      11,
      record down {
        ether_handle = 3;
        sockets = init_socket sock ∷ [];
        net = 53 ∷ [];
        ingress_cancelled = true;
      },
    )
unfolding xstack_start
half_start = refl

ticks : eval_timer (pos 5) (pos 15) ≡ (true, pos 10, pos 15)
unfolding eval_timer ◌-ℤ◌
ticks = refl

abbrev append_task : ℕ → Option (ℤ → List ℕ → List ℕ)
append_task n = some (λ d w. n ∷ w)

in_order : run_periodic_tasks (append_task 1 ∷ none ∷ append_task 2 ∷ []) (pos 1) [] ≡ 2 ∷ 1 ∷ []
unfolding run_periodic_tasks
in_order = refl
