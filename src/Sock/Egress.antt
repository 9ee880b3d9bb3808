-- ===== src/Sock/Egress.antt =====
-- The egress thread of src/xstack.c sends what is in the queue of the socket and ends.
use xstack_io.Prelude.{ℕ, zero, suc, ◌≡◌, List, [], ◌∷◌, take, drop}
use xstack_io.QueueR.Valid.{IsValid}
use xstack_io.Tcp.{Sockaddr}
use xstack_io.Sock.{Dgram, SockProto, XstackSock}
use xstack_io.Sock.Queues.{datagrams}
use xstack_io.Sock.Threads.{IpSend, XstackState, xstack_running, xstack_dying, send_dgram}

module _ {W : Type 0} (ip_send : IpSend W) where
  -- The datagrams are sent one after the other.
  abbrev pub send_all : SockProto → Sockaddr → List Dgram → W → W
  send_all proto addr [] w = w
  send_all proto addr (d ∷ ds) w = send_all proto addr ds (send_dgram ip_send proto addr d w)

  -- The socket with `ds` left to send.
  pub record Has (sock : XstackSock) (ds : List Dgram) (sock' : XstackSock) : Type 0 where
    pub valid : IsValid sock'.egress.queue
    pub left : datagrams sock'.egress ≡ ds
    pub proto : sock'.sock_proto ≡ sock.sock_proto
    pub addr : sock'.sock_addr ≡ sock.sock_addr
    pub ingress : sock'.ingress ≡ sock.ingress

  -- One round sends the oldest datagram, if there is one.
  Round : XstackSock → W → XstackSock × W → Type 0
  Round sock w (sock', w') =
      Has sock (drop 1 (datagrams sock.egress)) sock'
      × (w' ≡ send_all sock.sock_proto sock.sock_addr (take 1 (datagrams sock.egress)) w)

  -- The rounds of a thread that sees the state change to XSTACK_DYING in its last one.
  abbrev pub until_dying : ℕ → List XstackState
  until_dying zero = xstack_dying ∷ []
  until_dying (suc n) = xstack_running ∷ until_dying n
