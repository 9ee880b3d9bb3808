-- ===== src/IpFragment/Deliver.antt =====
-- The buffer of src/ip_fragment.c that is given back, and the buffer with a fragment.
use mathlib.Core.Path.{subst}
use xstack_io.Prelude.{
  ℕ, zero, suc, ◌<◌, ◌≤◌, min, ◌≡◌, ◌≢◌, refl, sym, ap, ◌∙◌, arith, List, [], ◌∷◌, none, some,
  length, get_or, set, ◌⊎◌, inl, inr, ℕ_discrete, get_or-set_self,
}
use xstack_io.Prelude.Slices.{length-splice}
use xstack_io.IpHdr.{IpHdr}
use xstack_io.RbTree.{RbTree, IsRbTree}
use xstack_io.IpFragment.{
  PacketBuf, FragState, BufId, IpInput, IpSend, no_buf, bufid, buf_at, put_buf,
  release_packet_buffer, store_fragment, handle_packet, overwrite, deliver_packet, ip_max_bytes,
}
use xstack_io.IpFragment.Piece.{IsSized, IsPiece, store_fragment-IsSized}
use xstack_io.IpFragment.Valid.{IsValid, bufid_discrete, changed-IsValid}
use xstack_io.IpFragment.Complete.{keep_header-bufid, with_fragment}

set-set : (list : List PacketBuf) (i : ℕ) (p q : PacketBuf) → set (set list i p) i q ≡ set list i q
set-set [] i p q = refl
set-set (x ∷ list) zero p q = refl
set-set (x ∷ list) (suc i) p q = ap (λ l. x ∷ l) (set-set list i p q)

module _ {T : Type 0} (tree : RbTree BufId T) (laws : IsRbTree tree) where
  -- The buffer is emptied: its entry leaves the tree.
  released-IsValid :
      (id : BufId) (i : ℕ) (p : PacketBuf) (s : FragState T)
      → IsValid tree s
      → tree.find id s.packet_buffer_head ≡ some i
      → IsSized p
      → IsValid tree (release_packet_buffer tree id i (put_buf tree i p s))
        × (tree.find id (release_packet_buffer tree id i (put_buf tree i p s)).packet_buffer_head
            ≡ none)
  unfolding release_packet_buffer
  released-IsValid id i p s v at sized = (
    subst (λ list. IsValid tree (record { packet_buffer = list; packet_buffer_head = head }))
        (sym twice)
        (changed-IsValid tree i freed head s v inside
          (record { map_size = sized.map_size; payload_size = sized.payload_size }) keys),
    laws.remove_self id i s.packet_buffer_head at,
  )
    where
      head : T
      head = tree.remove id i s.packet_buffer_head

      freed : PacketBuf
      freed = record p { reserved = 0 }

      inside : i < length s.packet_buffer
      inside = (v.linked id i at).0

      twice :
          set
            (set s.packet_buffer i p)
            i
            (record (get_or (set s.packet_buffer i p) i no_buf) { reserved = 0 })
          ≡ set s.packet_buffer i (record p { reserved = 0 })
      twice =
          set-set s.packet_buffer i p _
          ∙ ap (λ (q : PacketBuf). set s.packet_buffer i (record q { reserved = 0 }))
              (get_or-set_self s.packet_buffer i p no_buf inside)

      keys :
          (q : BufId) (j : ℕ)
          → tree.find q head ≡ some j
          → ((j ≡ i) × (freed.reserved ≡ 1) × (bufid freed.ip_hdr ≡ q))
            ⊎ ((i ≢ j) × (tree.find q s.packet_buffer_head ≡ some j))
      keys q j e = elim (bufid_discrete q id) [
        | yes same ↦
            let gone = laws.remove_self id i s.packet_buffer_head at in
            let now = sym (ap (λ k. tree.find k head) same) ∙ e in cc (gone, now)
        | no ne ↦
            let old = sym (laws.remove_other id q i s.packet_buffer_head at ne) ∙ e in
            inr (
              λ eq.
                  let key_j = (v.linked q j old).2 in
                  let key_i = (v.linked id i at).2 in
                  ne (sym key_j ∙ ap (λ k. bufid (buf_at tree s k).ip_hdr) (sym eq) ∙ key_i),
              old,
            )
      ]

  module _ {W : Type 0} (ip_input : IpInput W) (ip_send : IpSend W) where
    -- What a complete packet does to the rest of the stack.
    abbrev pub handed_over : IpHdr → List ℕ → W → W
    handed_over hdr mem w = (handle_packet ip_input ip_send hdr mem w).2

    pub deliver_packet_lem :
        (id : BufId) (i : ℕ) (s : FragState T) (w : W)
        → IsValid tree s
        → tree.find id s.packet_buffer_head ≡ some i
        → let (s', w') = deliver_packet tree ip_input ip_send id i s w in
          IsValid tree s'
          × (tree.find id s'.packet_buffer_head ≡ none)
          × (w' ≡ handed_over (buf_at tree s i).ip_hdr (buf_at tree s i).payload w)
    unfolding deliver_packet
    deliver_packet_lem id i s w v at =
        let (valid, gone) = released-IsValid id i p' s v at sized' in (valid, gone, refl)
      where
        p : PacketBuf
        p = buf_at tree s i

        run : IpHdr × List ℕ × W
        run = handle_packet ip_input ip_send p.ip_hdr p.payload w

        p' : PacketBuf
        p' = record p { ip_hdr = run.0; payload = overwrite run.1 p.payload }

        sized : IsSized p
        sized = v.sized i (v.linked id i at).0

        sized' : IsSized p'
        sized' = record {
          map_size = sized.map_size;
          payload_size =
              length-splice 0 (min (length run.1) (length p.payload)) run.1 p.payload (omega arith)
                (omega arith)
              ∙ sized.payload_size;
        }

    module _ (bytes : List ℕ) (ip_hdr : IpHdr) (rx : List ℕ) where
      pub stored-IsValid :
          (i : ℕ) (s : FragState T)
          → IsValid tree s
          → tree.find (bufid ip_hdr) s.packet_buffer_head ≡ some i
          → IsPiece bytes ip_hdr rx
          → length bytes ≤ ip_max_bytes
          → IsSized (with_fragment ip_hdr rx (buf_at tree s i))
            × IsValid tree (put_buf tree i (with_fragment ip_hdr rx (buf_at tree s i)) s)
      unfolding store_fragment
      stored-IsValid i s v at piece small = (
        sized',
        changed-IsValid tree i (with_fragment ip_hdr rx p) s.packet_buffer_head s v inside sized'
            keys,
      )
        where
          p : PacketBuf
          p = buf_at tree s i

          inside : i < length s.packet_buffer
          inside = (v.linked (bufid ip_hdr) i at).0

          stored : IsSized (store_fragment ip_hdr rx p)
          stored =
              store_fragment-IsSized ip_hdr rx p (v.sized i inside)
                (omega (arith, piece.inside, small)) piece.there

          sized' : IsSized (with_fragment ip_hdr rx p)
          sized' = record { map_size = stored.map_size; payload_size = stored.payload_size }

          keys :
              (q : BufId) (j : ℕ)
              → tree.find q s.packet_buffer_head ≡ some j
              → ((j ≡ i)
                  × ((with_fragment ip_hdr rx p).reserved ≡ 1)
                  × (bufid (with_fragment ip_hdr rx p).ip_hdr ≡ q))
                ⊎ ((i ≢ j) × (tree.find q s.packet_buffer_head ≡ some j))
          keys q j e = elim (ℕ_discrete i j) [
            | no ne ↦ inr (ne, e)
            | yes eq ↦
                let (low, used, key_i) = v.linked (bufid ip_hdr) i at in
                let key_j = (v.linked q j e).2 in
                let same : bufid ip_hdr ≡ q =
                  sym key_i ∙ ap (λ k. bufid (buf_at tree s k).ip_hdr) eq ∙ key_j in
                inl (sym eq, used, keep_header-bufid ip_hdr p.ip_hdr key_i ∙ same)
          ]
