-- ===== src/IpFrag/Tests.antt =====
-- Tests of the fragmentation and the witnesses of its theorems.
use xstack_io.Prelude.{ℕ, ◌≡◌, refl, arith, List, [], ◌∷◌, some, length, replicate}
use xstack_io.Prelude.Int.{pos, neg}
use xstack_io.Prelude.Errno.{enodev}
use xstack_io.Ether.{MacAddr}
use xstack_io.Ether.Send.{EtherLinux, Sendto, ether_send}
use xstack_io.IpHdr.{IpHdr, ip_ntoh, ip_hdr_hlen}
use xstack_io.IpFrag.{ip_send_fragments}
use xstack_io.IpFrag.Packets.{joined, AreFragments, fragment_frames, total_length}
use xstack_io.IpFrag.Loop.{ip_send_fragments_lem}

abbrev eth0 : EtherLinux
eth0 = record { el_fd = 3; el_mac = 2 ∷ 0 ∷ 0 ∷ 0 ∷ 0 ∷ 1 ∷ []; el_ifindex = 2 }

abbrev peer : MacAddr
peer = 2 ∷ 0 ∷ 0 ∷ 0 ∷ 0 ∷ 2 ∷ []

abbrev sends : Sendto
sends wire frame = pos (length frame)

-- A header as `ip_send` builds it, in network order.
abbrev udp_header : IpHdr
udp_header = record {
  ip_vhl = 0x45;
  ip_tos = 0;
  ip_len = 0xcc0b;
  ip_id = 0x0700;
  ip_foff = 0x0040;
  ip_ttl = 64;
  ip_proto = 17;
  ip_csum = 0;
  ip_src = 0x0100000a;
  ip_dst = 0x0200000a;
}

-- Without the interface nothing is sent.
no_interface : ip_send_fragments [] sends 0 peer [] udp_header (1 ∷ []) [] ≡ some (neg enodev, [])
unfolding ip_send_fragments ip_ntoh ether_send
no_interface = refl

header_length : ip_hdr_hlen udp_header ≡ 20
unfolding ip_hdr_hlen
header_length = refl

ip_send_fragments_lem_example :
    (part : List ℕ) × (parts : List (List ℕ)) × (joined (part ∷ parts) ≡ replicate 3000 7)
    × AreFragments (part ∷ parts)
    × (let frames = fragment_frames (ip_ntoh udp_header).0 peer eth0.el_mac 0 (part ∷ parts) in
        ip_send_fragments (eth0 ∷ []) sends 0 peer [] udp_header (replicate 3000 7) []
        ≡ some (pos (total_length frames), frames))
ip_send_fragments_lem_example =
    ip_send_fragments_lem eth0 sends peer udp_header (replicate 3000 7) [] header_length
      (λ w f. refl) (omega arith)
