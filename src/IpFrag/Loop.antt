-- ===== src/IpFrag/Loop.antt =====
-- What `ip_send_fragments` puts on the wire: one round of its loop, and the whole loop.
use xstack_io.Prelude.{
  ℕ, zero, suc, ◌+◌, ◌-◌, ◌/◌, ◌%◌, ◌^◌, ◌≤◌, ◌<◌, ◌≡◌, sym, ap, ◌∙◌, arith, List, [], ◌∷◌, ◌++◌,
  Option, some, length, take, drop, size, ◌==◌, if◌then◌else◌, Bool, true, false, ap₂, take_exact,
  take_whole, dec_lt, append-nil, length-take, length-drop, take-append-drop, drop-drop, drop_exact,
  length-append,
}
use xstack_io.Prelude.Int.{ℤ, pos, is_neg, ◌+ℤ◌}
use xstack_io.Ether.{MacAddr}
use xstack_io.Ether.Send.{EtherLinux, Wire, Sendto, ether_send, make_frame}
use xstack_io.Ether.Frame.{ether_send_fits}
use xstack_io.IpHdr.{IpHdr, ip_hdr_hlen, ip_hdr_bytes, ip_hton, ip_ntoh}
use xstack_io.IpFrag.{send_fragment, send_fragments, ip_send_fragments}
use xstack_io.IpFrag.Packets.{
  AreFragments, fragment_frames, fragment_hdr_lem, fragment_packet, glue, ip_hton_no_opts, joined,
  next_fragment_size_full, next_fragment_size_last, not_zero, outcome, pos-pos, total_length,
}

module _ (eth : EtherLinux) (sendto : Sendto) (dst : MacAddr) (h : IpHdr) where
  abbrev frame_of : ℕ → ℕ → List ℕ → List ℕ
  frame_of flag offset part = make_frame dst eth.el_mac 0x0800 (fragment_packet h flag offset part)

  send_fragment_lem :
      (buf : List ℕ) (plen left offset : ℕ) (wire : Wire)
      → ip_hdr_hlen h ≡ 20
      → offset < 2 ^ 16
      → plen ≤ 1480
      → length (take plen (drop offset buf)) ≡ plen
      → let part = take plen (drop offset buf) in
        let frame = frame_of (if left == 0 then 0 else 0x2000) offset part in
        send_fragment (eth ∷ []) sendto 0 dst [] h 20 buf plen left offset wire
        ≡ (part ++ drop plen buf, sendto wire frame, wire ++ (frame ∷ []))
  unfolding send_fragment ip_hdr_hlen
  send_fragment_lem buf plen left offset wire hl small short whole =
      ap shape (fragment_hdr_lem h (length part) plen left offset small short whole)
      ∙ ap (λ net. sent (take (20 + length part) (ip_hdr_bytes net buf')))
          (ip_hton_no_opts host buf hl)
      ∙ ap sent (
          take_exact (20 + length part) (ip_hdr_bytes (ip_hton host []) part) (drop plen buf)
            (omega arith))
      ∙ ap (λ p. let (eret, wire') = p in (buf', eret, wire'))
          (ether_send_fits eth sendto dst 0x0800 (ip_hdr_bytes (ip_hton host []) part) wire
            (omega arith))
    where
      part : List ℕ
      part = take plen (drop offset buf)

      buf' : List ℕ
      buf' = part ++ drop plen buf

      host : IpHdr
      host = record h {
        ip_len = 20 + length part;
        ip_foff = (if left == 0 then 0 else 0x2000) + offset / 8;
      }

      sent : List ℕ → List ℕ × ℤ × Wire
      sent packet =
          let (eret, wire') = ether_send (eth ∷ []) sendto 0 dst 0x0800 packet wire in
          (buf', eret, wire')

      shape : IpHdr → List ℕ × ℤ × Wire
      shape hdr = sent (take hdr.ip_len (ip_hdr_bytes (ip_hton hdr buf) buf'))

  module _ (hl : ip_hdr_hlen h ≡ 20) (ok : (w : Wire) (f : List ℕ) → sendto w f ≡ pos (length f))
      (buf : List ℕ) (offset : ℕ) (small : length buf < 2 ^ 16) (fits : offset ≤ length buf) where
    abbrev part_of : ℕ → List ℕ
    part_of plen = take plen (drop offset buf)

    whole_part : (plen : ℕ) → plen ≤ length buf - offset → length (part_of plen) ≡ plen
    whole_part plen short =
        omega (arith, length-take plen (drop offset buf), length-drop offset buf)

    abbrev moved : ℕ → List ℕ
    moved plen = part_of plen ++ drop plen buf

    length-moved : (plen : ℕ) → plen ≤ length buf - offset → length (moved plen) ≡ length buf
    length-moved plen short = omega (
      arith,
      length-append (part_of plen) (drop plen buf),
      whole_part plen short,
      length-drop plen buf,
    )

    -- Moving a part to the front leaves alone what is still to be sent.
    drop-moved :
        (plen : ℕ)
        → plen ≤ length buf - offset
        → drop (offset + plen) (moved plen) ≡ drop plen (drop offset buf)
    drop-moved plen short =
        ap (λ k. drop k (moved plen)) (omega arith)
        ∙ sym (drop-drop offset plen (moved plen))
        ∙ ap (drop offset) (drop_exact plen (part_of plen) (drop plen buf) (whole_part plen short))
        ∙ drop-drop offset plen buf
        ∙ ap (λ k. drop k buf) (omega arith)
        ∙ sym (drop-drop plen offset buf)

    -- A round that sends `plen` bytes and leaves `left`, by what is known of `left == 0`.
    module _ (fuel r : ℕ) (wire : Wire) (plen left : ℕ) where
      abbrev after_send : Bool → List ℕ × ℤ × Wire → Option (ℤ × Wire)
      after_send done (buf', eret, wire') =
          let rest =
            send_fragments (eth ∷ []) sendto 0 dst [] fuel h 20 buf' left (size (offset + plen))
              (pos r +ℤ eret) wire' in
          if is_neg eret
          then some (eret, wire')
          else if done
          then some (pos r +ℤ eret, wire')
          else rest

      round_sends :
          (done : Bool)
          → (left == 0) ≡ done
          → plen ≤ 1480
          → plen ≤ length buf - offset
          → let frame = frame_of (if done then 0 else 0x2000) offset (part_of plen) in
            after_send
              (left == 0)
              (send_fragment (eth ∷ []) sendto 0 dst [] h 20 buf plen left offset wire)
            ≡ after_send done
                (part_of plen ++ drop plen buf, pos (length frame), wire ++ (frame ∷ []))
      round_sends done e short there =
          ap (after_send (left == 0)) (
            send_fragment_lem buf plen left offset wire hl (omega arith) short
              (whole_part plen there))
          ∙ ap (λ b. after_send b (sent b (sendto wire (frame b)))) e
          ∙ ap (λ n. after_send done (sent done n)) (ok wire (frame done))
        where
          frame : Bool → List ℕ
          frame b = frame_of (if b then 0 else 0x2000) offset (part_of plen)

          sent : Bool → ℤ → List ℕ × ℤ × Wire
          sent b n = (part_of plen ++ drop plen buf, n, wire ++ (frame b ∷ []))

    -- The last round sends what is left.
    last_round :
        (fuel bytes r : ℕ) (wire : Wire)
        → bytes ≡ length buf - offset
        → bytes ≤ 1472
        → let frame = frame_of 0 offset (part_of bytes) in
          send_fragments (eth ∷ []) sendto 0 dst [] (suc fuel) h 20 buf bytes offset (pos r) wire
          ≡ some (pos (r + length frame), wire ++ (frame ∷ []))
    unfolding send_fragments
    last_round fuel bytes r wire e last =
        ap
          (λ p.
            after_send fuel r wire p (bytes - p) (bytes - p == 0)
              (send_fragment (eth ∷ []) sendto 0 dst [] h 20 buf p (bytes - p) offset wire))
          (next_fragment_size_last bytes last)
        ∙ round_sends fuel r wire bytes (bytes - bytes) true (ap (λ n. n == 0) none_left)
            (omega arith) (omega arith)
        ∙ ap (λ n. some (n, wire ++ (frame_of 0 offset (part_of bytes) ∷ [])))
            (pos-pos r (length (frame_of 0 offset (part_of bytes))))
      where
        none_left : bytes - bytes ≡ 0
        none_left = omega arith

    -- Any other round sends 1472 bytes and goes on with the rest.
    next_round :
        (fuel bytes r : ℕ) (wire : Wire)
        → bytes ≡ length buf - offset
        → 1472 < bytes
        → let frame = frame_of 0x2000 offset (part_of 1472) in
          send_fragments (eth ∷ []) sendto 0 dst [] (suc fuel) h 20 buf bytes offset (pos r) wire
          ≡ send_fragments
              (eth ∷ [])
              sendto
              0
              dst
              []
              fuel
              h
              20
              (part_of 1472 ++ drop 1472 buf)
              (bytes - 1472)
              (offset + 1472)
              (pos (r + length frame))
              (wire ++ (frame ∷ []))
    unfolding send_fragments
    next_round fuel bytes r wire e more =
        ap
          (λ p.
            after_send fuel r wire p (bytes - p) (bytes - p == 0)
              (send_fragment (eth ∷ []) sendto 0 dst [] h 20 buf p (bytes - p) offset wire))
          (next_fragment_size_full bytes more)
        ∙ round_sends fuel r wire 1472 (bytes - 1472) false (not_zero (bytes - 1472) (omega arith))
            (omega arith) (omega arith)
        ∙ ap₂
            (λ off n.
              send_fragments (eth ∷ []) sendto 0 dst [] fuel h 20 (part_of 1472 ++ drop 1472 buf)
                (bytes - 1472) off n (wire ++ (frame ∷ [])))
            in_range (pos-pos r (length frame))
      where
        frame : List ℕ
        frame = frame_of 0x2000 offset (part_of 1472)

        in_range : size (offset + 1472) ≡ offset + 1472
        in_range = omega arith

  -- What the loop promises: the fragments that it sends, in order, hold the data from `offset` on.
  abbrev Sends : ℕ → List ℕ → ℕ → Wire → Option (ℤ × Wire) → Type 0
  Sends offset rest r wire result =
      (part : List ℕ) × (parts : List (List ℕ)) × (joined (part ∷ parts) ≡ rest)
      × AreFragments (part ∷ parts)
      × (let frames = fragment_frames h dst eth.el_mac offset (part ∷ parts) in
          result ≡ some (pos (r + total_length frames), wire ++ frames))

  send_fragments_lem :
      (fuel : ℕ) (buf : List ℕ) (bytes offset r : ℕ) (wire : Wire)
      → ip_hdr_hlen h ≡ 20
      → ((w : Wire) (f : List ℕ) → sendto w f ≡ pos (length f))
      → length buf < 2 ^ 16
      → offset % 8 ≡ 0
      → offset ≤ length buf
      → bytes ≡ length buf - offset
      → bytes < fuel
      → Sends offset
          (drop offset buf)
          r
          wire
          (send_fragments (eth ∷ []) sendto 0 dst [] fuel h 20 buf bytes offset (pos r) wire)
  unfolding send_fragments
  send_fragments_lem zero buf bytes offset r wire hl ok small whole fits e enough =
      absurd (omega arith)
  send_fragments_lem (suc fuel) buf bytes offset r wire hl ok small whole fits e enough =
      elim (dec_lt 1472 bytes) [
        | no last ↦ (
          take bytes (drop offset buf),
          [],
          append-nil _ ∙ take_whole bytes (drop offset buf) (omega (arith, length-drop offset buf)),
          omega (arith, length-take bytes (drop offset buf)),
          last_round hl ok buf offset small fits fuel bytes r wire e (omega arith)
              ∙ ap
                  (λ n. outcome n (wire ++ (frame_of 0 offset (take bytes (drop offset buf)) ∷ [])))
                  (omega arith),
        )
        | yes more ↦
            let short : 1472 ≤ length buf - offset = omega arith in
            let part = take 1472 (drop offset buf) in
            let size_part = whole_part hl ok buf offset small fits 1472 short in
            let size_moved = length-moved hl ok buf offset small fits 1472 short in
            let (next, parts, held, ok_parts, sent) =
              send_fragments_lem fuel (moved hl ok buf offset small fits 1472) (bytes - 1472)
                (offset + 1472) (r + length (frame_of 0x2000 offset part))
                (wire ++ (frame_of 0x2000 offset part ∷ [])) hl ok (omega arith) (omega arith)
                (omega arith) (omega arith) (omega arith) in
            (
              part,
              next ∷ parts,
              ap (λ l. part ++ l) (held ∙ drop-moved hl ok buf offset small fits 1472 short)
                  ∙ take-append-drop 1472 (drop offset buf),
              (omega arith, omega arith, omega arith, ok_parts),
              next_round hl ok buf offset small fits fuel bytes r wire e more
                  ∙ sent
                  ∙ glue r wire (frame_of 0x2000 offset part)
                      (λ off. fragment_frames h dst eth.el_mac off (next ∷ parts)) (offset + 1472)
                      (offset + length part) (omega arith),
            )
      ]

-- Let the packet carry a header of 20 bytes without options and fewer than 2^16 bytes of data, and
-- let the kernel send every frame whole. The call returns: it sends a row of frames to the next
-- hop, each of them an IPv4 packet of at most 1500 bytes whose header holds its length, its
-- position in units of 8 bytes and whether more follow. Every part but the last is of whole units,
-- and the parts, joined, are the data: nothing is lost although the parts are moved to the front of
-- the same buffer one by one. The return value is the number of bytes sent.
pub ip_send_fragments_lem :
    (eth : EtherLinux) (sendto : Sendto) (dst : MacAddr) (net : IpHdr) (buf : List ℕ) (wire : Wire)
    → ip_hdr_hlen net ≡ 20
    → ((w : Wire) (f : List ℕ) → sendto w f ≡ pos (length f))
    → length buf < 2 ^ 16
    → (part : List ℕ) × (parts : List (List ℕ)) × (joined (part ∷ parts) ≡ buf)
      × AreFragments (part ∷ parts)
      × (let frames = fragment_frames (ip_ntoh net).0 dst eth.el_mac 0 (part ∷ parts) in
          ip_send_fragments (eth ∷ []) sendto 0 dst [] net buf wire
          ≡ some (pos (total_length frames), wire ++ frames))
unfolding ip_send_fragments ip_ntoh ip_hdr_hlen
ip_send_fragments_lem eth sendto dst net buf wire hl ok small =
    let h = (ip_ntoh net).0 in
    let call : ℕ → Option (ℤ × Wire) = λ n.
      send_fragments (eth ∷ []) sendto 0 dst [] (suc (length buf)) h n buf (length buf) 0 (pos 0)
        wire in
    let (part, parts, held, fit, sent) =
      send_fragments_lem eth sendto dst h (suc (length buf)) buf (length buf) 0 0 wire hl ok small
        (omega arith) (omega arith) (omega arith) (omega arith) in
    let frames = fragment_frames h dst eth.el_mac 0 (part ∷ parts) in
    (part, parts, held, fit, ap call hl ∙ sent ∙ ap (λ n. outcome n (wire ++ frames)) (omega arith))
