-- ===== src/Ether/Tests.antt =====
-- Runs of the Ethernet layer, and the theorems at them.
use xstack_io.Prelude.{
  ℕ, ◌-◌, ◌≡◌, refl, arith, List, [], ◌∷◌, All, length, replicate, take, drop, le_bytes32, swap16,
  ◌++◌, some, none,
}
use xstack_io.Prelude.Int.{pos}
use xstack_io.Checksum.Sum.{IsByte}
use xstack_io.Ether.{ether_proto_arp}
use xstack_io.Ether.Fcs.{ether_fcs}
use xstack_io.Ether.Crc.{crc32, ether_fcs-crc32}
use xstack_io.Ether.Send.{EtherLinux, Sendto, ether_send}
use xstack_io.Ether.Receive.{arrived, failed, ether_receive}
use xstack_io.Ether.Frame.{ether_send_frame}

-- The check value of CRC-32, over the digits 1 to 9.
abbrev digits : List ℕ
digits = 0x31 ∷ 0x32 ∷ 0x33 ∷ 0x34 ∷ 0x35 ∷ 0x36 ∷ 0x37 ∷ 0x38 ∷ 0x39 ∷ []

check_value : ether_fcs digits ≡ 0xCBF43926
unfolding ether_fcs
check_value = refl

digits-bytes : All IsByte digits
digits-bytes = omega arith

ether_fcs-crc32_example : ether_fcs digits ≡ crc32 digits
ether_fcs-crc32_example = ether_fcs-crc32 digits digits-bytes

abbrev eth0 : EtherLinux
eth0 = record { el_fd = 3; el_mac = 2 ∷ 0 ∷ 0 ∷ 0 ∷ 0 ∷ 1 ∷ []; el_ifindex = 2 }

abbrev peer : List ℕ
peer = 2 ∷ 0 ∷ 0 ∷ 0 ∷ 0 ∷ 2 ∷ []

-- A kernel that sends every byte.
abbrev sends : Sendto
sends wire frame = pos (length frame)

short_frame : (ether_send (eth0 ∷ []) sends 0 peer ether_proto_arp digits []).0 ≡ pos 74
unfolding ether_send ether_fcs swap16
short_frame = refl

ether_send_frame_example :
    let (retval, wire) = ether_send (eth0 ∷ []) sends 0 peer 0x806 digits [] in
    (frame : List ℕ) × (wire ≡ frame ∷ [])
    × (retval ≡ pos (length frame))
    × (length frame ≡ 74)
    × (take 6 frame ≡ peer)
    × (take 6 (drop 6 frame) ≡ 2 ∷ 0 ∷ 0 ∷ 0 ∷ 0 ∷ 1 ∷ [])
    × (take 2 (drop 12 frame) ≡ 8 ∷ 6 ∷ [])
    × (take 9 (drop 14 frame) ≡ digits)
    × (drop (length frame - 4) frame ≡ le_bytes32 (ether_fcs (take (length frame - 4) frame)) [])
ether_send_frame_example = ether_send_frame eth0 sends peer 0x806 digits [] refl refl (omega arith)

-- A frame of the interface itself is passed over; the one behind it is received.
abbrev own_frame : List ℕ
own_frame = replicate 6 0xff ++ (eth0.el_mac ++ (0x08 ∷ 0x06 ∷ replicate 46 0))

abbrev other_frame : List ℕ
other_frame = eth0.el_mac ++ (replicate 6 4 ++ (0x08 ∷ 0x00 ∷ replicate 46 7))

skips_own :
    ether_receive (eth0 ∷ []) 0 1514 (arrived own_frame ∷ arrived other_frame ∷ failed 11 ∷ [])
    ≡ some (
      pos 46,
      some (record { h_dst = eth0.el_mac; h_src = replicate 6 4; h_proto = 0x0800 }),
      replicate 46 7,
      failed 11 ∷ [],
    )
unfolding ether_receive swap16
skips_own = refl

-- No frame is there.
would_block : ether_receive (eth0 ∷ []) 0 1514 (failed 11 ∷ []) ≡ some (pos 0, none, [], [])
unfolding ether_receive
would_block = refl
