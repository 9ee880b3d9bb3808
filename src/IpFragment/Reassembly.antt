-- ===== src/IpFragment/Reassembly.antt =====
-- The reassembly of a packet from fragments in any order, `ip_fragment_input` of src/ip_fragment.c.
use mathlib.Core.Path.{subst}
use xstack_io.Prelude.{
  ℕ, ◌+◌, ◌≤◌, ◌≡◌, refl, sym, ap, ◌∙◌, arith, List, true, false, Option, none, some, length, take,
  ltb, ltb-false, ◌⊎◌, inl, inr, Bool-cases, get_or-set_self,
}
use xstack_io.Prelude.Int.{ℤ, pos, neg}
use xstack_io.Prelude.Errno.{enobufs}
use xstack_io.IpHdr.{IpHdr}
use xstack_io.RbTree.{RbTree, IsRbTree}
use xstack_io.IpFragment.{
  PacketBuf, FragState, BufId, IpInput, IpSend, no_buf, bufid, buf_at, put_buf, reserve_from,
  get_packet_buffer, frag_off, frag_len, deliver_packet, accept_fragment, ip_fragment_input,
  ip_max_bytes,
}
use xstack_io.IpFragment.Piece.{Holds, IsPiece, store_fragment-Holds}
use xstack_io.IpFragment.Valid.{IsValid, Buffered, get_packet_buffer_lem}
use xstack_io.IpFragment.Complete.{
  fresh-Holds, with_fragment, is_complete, Waits, incomplete-Waits, complete-bytes,
}
use xstack_io.IpFragment.Deliver.{handed_over, deliver_packet_lem, stored-IsValid}

module _ {T : Type 0} (tree : RbTree BufId T) (laws : IsRbTree tree) where
  module _ {W : Type 0} (ip_input : IpInput W) (ip_send : IpSend W) where
    module _ (bytes : List ℕ) (ip_hdr : IpHdr) (rx : List ℕ) where
      -- What the input of a fragment leads to: no buffer, a packet that waits, or the packet.
      pub Outcome : FragState T → W → Option (ℤ × FragState T × W) → Type 0
      Outcome s w result =
          ((result ≡ some (neg enobufs, s, w))
            × (tree.find (bufid ip_hdr) s.packet_buffer_head ≡ none)
            × (reserve_from 0 s.packet_buffer ≡ none))
          ⊎ ((s' : FragState T) × (w' : W) × (result ≡ some (pos 0, s', w'))
              × IsValid tree s'
              × (((i : ℕ) × (tree.find (bufid ip_hdr) s'.packet_buffer_head ≡ some i)
                    × Holds bytes (buf_at tree s' i)
                    × Waits (buf_at tree s' i)
                    × (w' ≡ w))
                  ⊎ ((hdr : IpHdr) × (mem : List ℕ) × (hdr.ip_len ≡ length bytes)
                      × (bufid hdr ≡ bufid ip_hdr)
                      × (take (length bytes) mem ≡ bytes)
                      × (w' ≡ handed_over tree laws ip_input ip_send hdr mem w)
                      × (tree.find (bufid ip_hdr) s'.packet_buffer_head ≡ none))))

      -- The two branches for data within the payload.
      waiting :
          (i : ℕ) (s : FragState T) (w : W)
          → frag_off ip_hdr + frag_len ip_hdr ≤ ip_max_bytes
          → is_complete (with_fragment ip_hdr rx (buf_at tree s i)) ≡ false
          → accept_fragment tree ip_input ip_send ip_hdr rx i s w
            ≡ some (pos 0, put_buf tree i (with_fragment ip_hdr rx (buf_at tree s i)) s, w)
      unfolding accept_fragment
      waiting i s w fits e =
          rw (ltb-false ip_max_bytes (frag_off ip_hdr + frag_len ip_hdr) fits, e) refl

      delivering :
          (i : ℕ) (s : FragState T) (w : W)
          → frag_off ip_hdr + frag_len ip_hdr ≤ ip_max_bytes
          → is_complete (with_fragment ip_hdr rx (buf_at tree s i)) ≡ true
          → accept_fragment tree ip_input ip_send ip_hdr rx i s w ≡ (
              let (s', w') =
                deliver_packet tree ip_input ip_send
                  (bufid ip_hdr)
                  i
                  (put_buf tree i (with_fragment ip_hdr rx (buf_at tree s i)) s)
                  w in
              some (pos 0, s', w'))
      unfolding accept_fragment
      delivering i s w fits e =
          rw (ltb-false ip_max_bytes (frag_off ip_hdr + frag_len ip_hdr) fits, e) refl

      -- The fragment is put into its buffer.
      accept_fragment_lem :
          (i : ℕ) (s0 s : FragState T) (w : W)
          → IsValid tree s
          → tree.find (bufid ip_hdr) s.packet_buffer_head ≡ some i
          → IsPiece bytes ip_hdr rx
          → length bytes ≤ ip_max_bytes
          → Holds bytes (buf_at tree s i)
          → Outcome s0 w (accept_fragment tree ip_input ip_send ip_hdr rx i s w)
      unfolding Outcome
      accept_fragment_lem i s0 s w v at piece small holds =
          let (sized, v') =
            stored-IsValid tree laws ip_input ip_send bytes ip_hdr rx i s v at piece small in
          let held : Holds bytes p =
            store_fragment-Holds bytes ip_hdr rx (buf_at tree s i)
              (v.sized i (v.linked (bufid ip_hdr) i at).0) small piece holds in
          let fits : frag_off ip_hdr + frag_len ip_hdr ≤ ip_max_bytes =
            omega (arith, piece.inside, small) in
          let here : buf_at tree stored i ≡ p =
            get_or-set_self s.packet_buffer i p no_buf (v.linked (bufid ip_hdr) i at).0 in
          elim (Bool-cases (is_complete p)) [
            | inr e ↦ subst (Outcome s0 w) (sym (waiting i s w fits e)) (
                inr (
                  stored,
                  w,
                  refl,
                  v',
                  inl (
                    i,
                    at,
                    subst (Holds bytes) (sym here) held,
                    subst Waits (sym here) (incomplete-Waits p e),
                    refl,
                  ),
                ))
            | inl e ↦
                let (known, all) = complete-bytes bytes p sized small held e in
                let (v'', gone, given) =
                  deliver_packet_lem tree laws ip_input ip_send (bufid ip_hdr) i stored w v' at in
                let key = (v'.linked (bufid ip_hdr) i at).2 in
                subst (Outcome s0 w) (sym (delivering i s w fits e)) (
                  inr (
                    _,
                    _,
                    refl,
                    v'',
                    inr (
                      (buf_at tree stored i).ip_hdr,
                      (buf_at tree stored i).payload,
                      ap (λ (q : PacketBuf). q.ip_hdr.ip_len) here ∙ known,
                      key,
                      ap (λ (q : PacketBuf). take (length bytes) q.payload) here ∙ all,
                      given,
                      gone,
                    ),
                  ))
          ]
        where
          p : PacketBuf
          p = with_fragment ip_hdr rx (buf_at tree s i)

          stored : FragState T
          stored = put_buf tree i p s

      -- Whatever the order in which the parts of a packet of at most 16384 bytes come, if its buffer
      -- holds only parts of it, then the input of a part keeps the invariant and either has no free
      -- buffer, or leaves a buffer that holds parts of the packet while its length is not known or a
      -- unit is missing, or gives the bytes of the whole packet, with its length, to `ip_input`,
      -- `ip_send` gets what that leaves, and the buffer is given back.
      pub ip_fragment_input_lem :
          (s : FragState T) (w : W)
          → IsValid tree s
          → IsPiece bytes ip_hdr rx
          → length bytes ≤ 16384
          → ((i : ℕ)
              → tree.find (bufid ip_hdr) s.packet_buffer_head ≡ some i
              → Holds bytes (buf_at tree s i))
          → Outcome s w (ip_fragment_input tree ip_input ip_send ip_hdr rx s w)
      unfolding ip_fragment_input Buffered Outcome
      ip_fragment_input_lem s w v piece small holds =
          elim (get_packet_buffer_lem tree laws ip_hdr s v) [
            | inl (none_found, same, absent, full) ↦
                inl (rw (ip_fragment_input, in_range, none_found, same) refl, absent, full)
            | inr (i, got, v', at, origin) ↦
                let held : Holds bytes (buf_at tree (get_packet_buffer tree ip_hdr s).1 i) =
                  elim origin [
                    | inl same ↦
                        subst (λ t. Holds bytes (buf_at tree t i)) (sym same)
                          (holds i (
                            sym (ap (λ t. tree.find (bufid ip_hdr) t.packet_buffer_head) same)
                            ∙ at))
                    | inr new ↦
                        subst (Holds bytes) (sym new)
                          (fresh-Holds bytes ip_hdr (buf_at tree s i) small)
                  ] in
                subst (Outcome s w) (sym (rw (ip_fragment_input, in_range, got) refl)) (
                  accept_fragment_lem i s (get_packet_buffer tree ip_hdr s).1 w v' at piece
                    (omega (arith, small)) held)
          ]
        where
          in_range : ltb ip_max_bytes (frag_off ip_hdr) ≡ false
          in_range = ltb-false ip_max_bytes (frag_off ip_hdr) (omega (arith, piece.inside, small))
