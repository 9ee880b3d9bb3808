-- ===== src/Udp/Tests.antt =====
-- Tests of the datagrams and the witnesses of their theorems.
use xstack_io.Prelude.{ℕ, ◌≡◌, refl, arith, List, [], ◌∷◌, Option, none, some, length}
use xstack_io.Prelude.Int.{ℤ, pos, neg}
use xstack_io.Prelude.Errno.{ebadmsg, enotsock}
use xstack_io.IpHdr.{IpHdr}
use xstack_io.Tcp.{Sockaddr}
use xstack_io.Udp.{Sockets, udp_input, xstack_udp_send}
use xstack_io.Udp.Delivery.{udp_delivery}

-- Sockets are numbers; the last one that was inserted answers for every address.
abbrev State : Type 0
State = Option ℕ

abbrev sockets : Sockets ℕ State
sockets = record {
  find_udp_socket = λ addr w. w;
  insert_udp_socket = λ sock addr w. some sock;
  dgram_input = λ sock from payload w. (pos 0, payload, some (length payload));
}

abbrev here : Sockaddr
here = record { inet4_addr = 0x0a000001; port = 53 }

abbrev there : Sockaddr
there = record { inet4_addr = 0x0a000002; port = 4242 }

abbrev hdr : IpHdr
hdr = record {
  ip_vhl = 0x45;
  ip_tos = 0;
  ip_len = 31;
  ip_id = 1;
  ip_foff = 0;
  ip_ttl = 64;
  ip_proto = 17;
  ip_csum = 0;
  ip_src = 0x0a000002;
  ip_dst = 0x0a000001;
}

abbrev hands_over : ℕ → ℕ → List ℕ → State → ℤ × State
hands_over dst proto packet w = (pos (length packet), w)

too_small : (udp_input sockets hdr (1 ∷ 2 ∷ []) none).0 ≡ neg ebadmsg
unfolding udp_input
too_small = refl

no_socket : (udp_input sockets hdr (16 ∷ 146 ∷ 0 ∷ 53 ∷ 0 ∷ 8 ∷ 0 ∷ 0 ∷ []) none).0 ≡ neg enotsock
unfolding udp_input
no_socket = refl

udp_delivery_example :
    (packet : List ℕ) × (length packet ≡ 11)
    × (xstack_udp_send hands_over there here (1 ∷ 2 ∷ 3 ∷ []) none ≡ (pos (length packet), none))
    × (let (retval, payload, state) = udp_input sockets hdr packet (some 5) in
        (retval ≡ pos 0) × (state ≡ some 3))
udp_delivery_example =
    udp_delivery sockets 5 hands_over there here (1 ∷ 2 ∷ 3 ∷ []) hdr none (some 5) (omega arith)
      (omega arith) (omega arith) (omega arith) refl refl
