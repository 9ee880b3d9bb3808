-- ===== src/Icmp/Tests.antt =====
-- Tests of the ICMP replies and the witnesses of their theorems.
use xstack_io.Prelude.{ℕ, ◌≡◌, refl, arith, List, [], ◌∷◌, take, replicate}
use xstack_io.Prelude.Int.{neg}
use xstack_io.Prelude.Errno.{ebadmsg, enomsg}
use xstack_io.IpHdr.{IpHdr}
use xstack_io.IpHdr.Convert.{IsHdr}
use xstack_io.Icmp.{icmp_input}

abbrev ping : List ℕ
ping = 8 ∷ 0 ∷ 0x12 ∷ 0x34 ∷ 0 ∷ 1 ∷ 0 ∷ 2 ∷ 97 ∷ 98 ∷ 99 ∷ []

too_short : (icmp_input (take 7 ping)).0 ≡ neg ebadmsg
unfolding icmp_input
too_short = refl

unknown_type : (icmp_input (replicate 8 13)).0 ≡ neg enomsg
unfolding icmp_input
unknown_type = refl

-- A packet for a port that nobody listens at, in host order.
abbrev lost : IpHdr
lost = record {
  ip_vhl = 0x45;
  ip_tos = 0;
  ip_len = 32;
  ip_id = 9;
  ip_foff = 0;
  ip_ttl = 64;
  ip_proto = 17;
  ip_csum = 0;
  ip_src = 0x0a000002;
  ip_dst = 0x0a000001;
}

lost-IsHdr : IsHdr lost
lost-IsHdr = record {
  vhl = omega arith;
  tos = omega arith;
  len = omega arith;
  id = omega arith;
  foff = omega arith;
  ttl = omega arith;
  proto = omega arith;
  csum = omega arith;
  src = omega arith;
  dst = omega arith;
}

abbrev frame_rest : List ℕ
frame_rest = 1 ∷ 2 ∷ 3 ∷ 4 ∷ 5 ∷ 6 ∷ 7 ∷ 8 ∷ 9 ∷ replicate 60 0
