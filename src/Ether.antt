-- ===== src/Ether.antt =====
-- The Ethernet layer: src/ether.c, src/ether_fcs.c, src/xstack_ether.h and the transmit and receive
-- paths of src/linux/linux_ether.c. What `sendto` and `recvfrom` of the kernel return is a parameter.
pub mod Fcs
pub mod Crc
pub mod Send
pub mod Frame
pub mod Receive
pub mod Arrival
mod Tests
use xstack_io.Prelude.{ℕ, List, [], ◌∷◌}

-- `mac_addr_t`, six bytes
abbrev pub MacAddr : Type 0
MacAddr = List ℕ

-- `struct ether_hdr`
pub record EtherHdr : Type 0 where
  pub h_dst : MacAddr
  pub h_src : MacAddr
  pub h_proto : ℕ

abbrev pub ether_alen : ℕ
ether_alen = 6

abbrev pub ether_header_len : ℕ
ether_header_len = 14

abbrev pub ether_data_len : ℕ
ether_data_len = 1500

abbrev pub ether_fcs_len : ℕ
ether_fcs_len = 4

abbrev pub ether_minlen : ℕ
ether_minlen = 60

abbrev pub ether_maxlen : ℕ
ether_maxlen = 1514

abbrev pub ether_proto_ipv4 : ℕ
ether_proto_ipv4 = 0x0800

abbrev pub ether_proto_arp : ℕ
ether_proto_arp = 0x0806

abbrev pub mac_broadcast_addr : MacAddr
mac_broadcast_addr = 0xff ∷ 0xff ∷ 0xff ∷ 0xff ∷ 0xff ∷ 0xff ∷ []
