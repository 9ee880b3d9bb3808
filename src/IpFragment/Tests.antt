-- ===== src/IpFragment/Tests.antt =====
-- Tests of the reassembly and the witnesses of its theorems.
use xstack_io.Prelude.{
  ℕ, zero, suc, ◌≡◌, refl, sym, ap, ◌∙◌, arith, List, [], ◌∷◌, replicate, get_or, inl, some,
  length-replicate, true, false, take,
}
use xstack_io.Prelude.Int.{pos}
use xstack_io.Prelude.Slices.{get_or-append_left}
use xstack_io.IpHdr.{IpHdr}
use xstack_io.RbTree.{RbTree, IsRbTree}
use xstack_io.RbTree.Assoc.{Changes, assoc, assoc-IsRbTree}
use xstack_io.IpFragment.{
  BufId, IpInput, IpSend, no_buf, bufid, buf_at, no_packets, frag_off, frag_len, keep_header,
  fragmap_tst, mark_units, fragmap_init, fragmap_set, fragmap_clear, all_units, ip_fragment_input,
  ip_fragment_timer,
}
use xstack_io.IpFragment.Piece.{IsSized, IsPiece}
use xstack_io.IpFragment.Valid.{IsValid, bufid_discrete}
use xstack_io.IpFragment.Reassembly.{Outcome, ip_fragment_input_lem}

abbrev tree : RbTree BufId (Changes BufId)
tree = assoc bufid_discrete

laws : IsRbTree tree
laws = assoc-IsRbTree bufid_discrete

-- The rest of the stack keeps the data that it gets.
abbrev input : IpInput (List (List ℕ))
input hdr mem n w = (pos 0, hdr, mem, take n mem ∷ w)

abbrev send : IpSend (List (List ℕ))
send dst proto mem n w = (pos 0, w)

zeroed-IsSized : IsSized no_buf
zeroed-IsSized = record {
  map_size = length-replicate {A = ℕ} 256 0;
  payload_size = length-replicate {A = ℕ} 65535 0;
}

buffer_zeroed : (i : ℕ) → buf_at tree (no_packets tree) i ≡ no_buf
buffer_zeroed zero = refl
buffer_zeroed (suc zero) = refl
buffer_zeroed (suc (suc zero)) = refl
buffer_zeroed (suc (suc (suc zero))) = refl
buffer_zeroed (suc (suc (suc (suc i)))) = refl

no_packets-IsValid : IsValid tree (no_packets tree)
no_packets-IsValid = record {
  sized = λ i low. rw (buffer_zeroed i) zeroed-IsSized;
  linked = λ id i e. cc (e, laws.find-empty id);
}

-- The first 8 of 12 bytes.
abbrev first_bytes : List ℕ
first_bytes = 1 ∷ 2 ∷ 3 ∷ 4 ∷ 5 ∷ 6 ∷ 7 ∷ 8 ∷ []

abbrev all_bytes : List ℕ
all_bytes = 1 ∷ 2 ∷ 3 ∷ 4 ∷ 5 ∷ 6 ∷ 7 ∷ 8 ∷ 9 ∷ 10 ∷ 11 ∷ 12 ∷ []

abbrev first_hdr : IpHdr
first_hdr = record {
  ip_vhl = 0x45;
  ip_tos = 0;
  ip_len = 28;
  ip_id = 7;
  ip_foff = 0x2000;
  ip_ttl = 64;
  ip_proto = 17;
  ip_csum = 0;
  ip_src = 0x0a000002;
  ip_dst = 0x0a000001;
}

first-IsPiece : IsPiece all_bytes first_hdr first_bytes
unfolding frag_off frag_len
first-IsPiece = record {
  inside = omega arith;
  there = omega arith;
  same = λ d low.
      sym (get_or-append_left first_bytes (9 ∷ 10 ∷ 11 ∷ 12 ∷ []) d 0 low)
      ∙ ap (λ k. get_or all_bytes k 0) (omega arith);
  whole = inl refl;
  last = λ e. absurd (omega (arith, e));
}

ip_fragment_input_lem_example :
    Outcome tree laws input send all_bytes first_hdr first_bytes
      (no_packets tree)
      []
      (ip_fragment_input tree input send first_hdr first_bytes (no_packets tree) [])
ip_fragment_input_lem_example =
    ip_fragment_input_lem tree laws input send all_bytes first_hdr first_bytes (no_packets tree) []
      no_packets-IsValid first-IsPiece (omega arith)
      (λ i e. cc (e, laws.find-empty (bufid first_hdr)))

-- The first fragment after the last one: the length that the last one gave is lost.
length_lost : (keep_header first_hdr (record first_hdr { ip_len = 12 })).ip_len ≡ 0
unfolding keep_header frag_off
length_lost = refl

-- The marks of an earlier packet stay in a buffer from unit 2048 on.
old_mark : fragmap_tst (fragmap_init (fragmap_set (replicate 256 0) 2048)) 2048 ≡ true
unfolding fragmap_tst fragmap_init fragmap_set
old_mark = refl

cleared : fragmap_tst (fragmap_clear (mark_units 3 31 (replicate 256 0)) 32) 32 ≡ false
unfolding fragmap_tst fragmap_clear mark_units
cleared = refl

marked : all_units 3 31 (mark_units 3 31 (replicate 256 0)) ≡ true
unfolding all_units mark_units
marked = refl

-- A buffer whose time is over is given back.
timer_ends :
    (buf_at tree
      (ip_fragment_timer tree (pos 15) (record {
        packet_buffer = record no_buf { reserved = 1; timer = pos 15; ip_hdr = first_hdr } ∷ [];
        packet_buffer_head = (bufid first_hdr, some 0) ∷ [];
      }))
      0).reserved
    ≡ 0
unfolding ip_fragment_timer
timer_ends = refl
