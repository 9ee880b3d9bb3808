-- ===== src/IpHdr/Tests.antt =====
-- Runs of the header functions, and the theorems at them.
use xstack_io.Prelude.{ℕ, ◌≡◌, arith, List, [], ◌∷◌, All, take}
use xstack_io.Checksum.{ip_checksum}
use xstack_io.Checksum.Sum.{IsByte}
use xstack_io.IpHdr.{IpHdr, ip_hdr_hlen, ip_hdr_bytes, ip_hton, ip_ntoh}
use xstack_io.IpHdr.Convert.{IsHdr, ip_ntoh-ip_hton, ip_hton_verifies}

-- A header with four bytes of options.
abbrev sample : IpHdr
sample = record {
  ip_vhl = 0x46;
  ip_tos = 0;
  ip_len = 108;
  ip_id = 7;
  ip_foff = 0x4000;
  ip_ttl = 3;
  ip_proto = 17;
  ip_csum = 0;
  ip_src = 0x0a000001;
  ip_dst = 0x0a000002;
}

abbrev options : List ℕ
options = 1 ∷ 1 ∷ 1 ∷ 0 ∷ []

sample-IsHdr : IsHdr sample
sample-IsHdr = omega arith

options-bytes : All IsByte options
options-bytes = omega arith

ip_ntoh-ip_hton_example :
    ip_ntoh (ip_hton sample options)
    ≡ (record sample { ip_csum = (ip_hton sample options).ip_csum }, ip_hdr_hlen sample)
ip_ntoh-ip_hton_example = ip_ntoh-ip_hton sample options sample-IsHdr

ip_hton_verifies_example :
    ip_checksum (take (ip_hdr_hlen sample) (ip_hdr_bytes (ip_hton sample options) options)) ≡ 0
unfolding ip_hdr_hlen
ip_hton_verifies_example = ip_hton_verifies sample options sample-IsHdr options-bytes (omega arith)
