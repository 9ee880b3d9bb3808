-- ===== src/Icmp/Reply.antt =====
-- The replies carry what they should, and the size of the unreachable message.
use xstack_io.Prelude.{
  ℕ, ◌+◌, ◌*◌, ◌^◌, ◌≤◌, ◌<◌, ◌≡◌, refl, ap, ◌∙◌, arith, List, [], ◌∷◌, ◌++◌, All, length, take,
  drop, get_or, min, size, ltb-false, length-take, drop-drop, drop_exact, take_exact,
}
use xstack_io.Prelude.Int.{pos, to_int, to_int_small}
use xstack_io.Checksum.{ip_checksum}
use xstack_io.Checksum.Sum.{IsByte}
use xstack_io.Checksum.Verify.{ip_checksum_verifies}
use xstack_io.IpHdr.{IpHdr, ip_hdr_hlen, ip_ntoh, ip_vhl_default, ip_tos_default}
use xstack_io.IpHdr.Convert.{IsHdr, ip_reply_header_lem}
use xstack_io.Icmp.{icmp_input, icmp_generate_dest_unreachable}

-- An echo request is answered in place by a message of the same size: its type is that of a reply,
-- its code and all behind the checksum are those of the request, and its checksum verifies.
pub icmp_input_echo :
    (payload : List ℕ)
    → All IsByte payload
    → 8 ≤ length payload
    → length payload < 2 ^ 31
    → get_or payload 0 0 ≡ 8
    → let (retval, reply) = icmp_input payload in
      (retval ≡ pos (length payload))
      × (length reply ≡ length payload)
      × (get_or reply 0 0 ≡ 0)
      × (get_or reply 1 0 ≡ get_or payload 1 0)
      × (drop 4 reply ≡ drop 4 payload)
      × (ip_checksum reply ≡ 0)
unfolding icmp_input
icmp_input_echo [] bytes long small echo = absurd (omega arith)
icmp_input_echo (a ∷ []) bytes long small echo = absurd (omega arith)
icmp_input_echo (a ∷ b ∷ []) bytes long small echo = absurd (omega arith)
icmp_input_echo (a ∷ b ∷ c ∷ []) bytes long small echo = absurd (omega arith)
icmp_input_echo (a ∷ b ∷ c ∷ d ∷ rest) bytes long small echo =
    rw (ltb-false (length (a ∷ b ∷ c ∷ d ∷ rest)) 8 long, echo)
      (
        to_int_small (length (a ∷ b ∷ c ∷ d ∷ rest)) small,
        refl,
        refl,
        refl,
        refl,
        ip_checksum_verifies (0 ∷ b ∷ []) rest refl (omega arith, (bytes.1.0, tt)) bytes.1.1.1.1,
      )

-- Let the buffer have at least the 28 bytes in front of the data. The message says that its
-- destination is unreachable for the reason `code`, goes back to the sender of the packet as an
-- ICMP packet whose header counts the bytes of the header and of the message, and holds the first
-- bytes of the packet's data, eight at most. The returned size counts the message twice.
pub icmp_generate_dest_unreachable_lem :
    (hdr : IpHdr) (code : ℕ) (buf : List ℕ) (bsize : ℕ)
    → IsHdr hdr
    → 28 ≤ length buf
    → let n = min 8 bsize in
      let (retval, net, buf') = icmp_generate_dest_unreachable hdr code buf bsize in
      let reply = (ip_ntoh net).0 in
      (retval ≡ pos (2 * (36 + n) + 20))
      × (reply.ip_len ≡ 20 + 36 + n)
      × (reply.ip_src ≡ hdr.ip_dst)
      × (reply.ip_dst ≡ hdr.ip_src)
      × (reply.ip_proto ≡ 1)
      × (take 2 buf' ≡ 3 ∷ code ∷ [])
      × (take n (drop 28 buf') ≡ take n buf)
unfolding icmp_generate_dest_unreachable ip_hdr_hlen
icmp_generate_dest_unreachable_lem hdr code buf bsize ok room =
    let (whole, fields) = ip_reply_header_lem hdr' (36 + n) [] ok' (omega arith) in
    (
      ap (λ t. to_int (size (36 + n + t))) whole
          ∙ to_int_small (size (36 + n + (36 + n + 20))) (omega arith)
          ∙ ap pos (omega arith),
      ap (λ h. h.ip_len) fields ∙ omega arith,
      ap (λ h. h.ip_src) fields,
      ap (λ h. h.ip_dst) fields,
      ap (λ h. h.ip_proto) fields,
      refl,
      ap (take n) (
            drop-drop 20 8 moved
            ∙ drop_exact 28 (take 28 buf) (take n buf ++ drop (28 + n) buf)
                (omega (arith, length-take 28 buf)))
          ∙ take_exact n (take n buf) (drop (28 + n) buf) (omega (arith, length-take n buf)),
    )
  where
    n : ℕ
    n = min 8 bsize

    moved : List ℕ
    moved = take 28 buf ++ (take n buf ++ drop (28 + n) buf)

    hdr' : IpHdr
    hdr' = record hdr { ip_vhl = ip_vhl_default; ip_tos = ip_tos_default; ip_proto = 1 }

    ok' : IsHdr hdr'
    ok' = record {
      vhl = omega arith;
      tos = omega arith;
      len = ok.len;
      id = ok.id;
      foff = ok.foff;
      ttl = ok.ttl;
      proto = omega arith;
      csum = ok.csum;
      src = ok.src;
      dst = ok.dst;
    }
