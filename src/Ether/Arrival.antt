-- ===== src/Ether/Arrival.antt =====
-- What `ether_receive` of src/linux/linux_ether.c gives for a frame of `ether_send`: the padding and the
-- check sequence are received with the data.
use xstack_io.Prelude.{
  ℕ, zero, suc, ◌+◌, ◌-◌, ◌≤◌, ◌≡◌, refl, sym, ap, ap₂, ◌∙◌, arith, List, [], ◌∷◌, ◌++◌, some,
  false, length, take, drop, min, max, length-take, length-drop, take-append-drop, take_whole,
}
use xstack_io.Prelude.Int.{pos}
use xstack_io.Ether.{MacAddr, ether_maxlen}
use xstack_io.Ether.Send.{EtherLinux, ether_handle2eth}
use xstack_io.Ether.Receive.{
  Recv, arrived, same_bytes, frame_hdr, take_frame, receive_from, ether_receive,
}

take-take : (n m : ℕ) (l : List ℕ) → n ≤ m → take n (take m l) ≡ take n l
take-take zero m l h = refl
take-take (suc n) zero l h = absurd (omega arith)
take-take (suc n) (suc m) [] h = refl
take-take (suc n) (suc m) (x ∷ xs) h = ap (λ t. x ∷ t) (take-take n m xs (omega arith))

drop-take : (n m : ℕ) (l : List ℕ) → drop n (take (n + m) l) ≡ take m (drop n l)
drop-take zero m l = let e : zero + m ≡ m = omega arith in ap (λ k. take k l) e
drop-take (suc n) m [] =
    let e : suc n + m ≡ suc (n + m) = omega arith in ap (λ k. drop (suc n) (take k [])) e ∙ empty m
  where
    empty : (k : ℕ) → ◌≡◌ {A = List ℕ} [] (take k [])
    empty zero = refl
    empty (suc k) = refl
drop-take (suc n) m (x ∷ xs) =
    let e : suc n + m ≡ suc (n + m) = omega arith in
    ap (λ k. drop (suc n) (take k (x ∷ xs))) e ∙ drop-take n m xs

-- The size that `ether_receive` returns for a frame with `n` bytes of data.
abbrev pub received_size : ℕ → ℕ
received_size n = min (max n 56 + 4) 1500

module _ (eth : EtherLinux) (frame data_in : List ℕ) (src : MacAddr) (rx : List Recv) where
  abbrev got : List ℕ
  got = take ether_maxlen frame

  taken :
      same_bytes (frame_hdr got).h_src eth.el_mac ≡ false
      → ether_receive (eth ∷ []) 0 ether_maxlen (arrived got ∷ rx)
        ≡ some (take_frame got ether_maxlen rx)
  unfolding ether_receive receive_from ether_handle2eth
  taken other = rw other refl

  source : take 6 (drop 6 frame) ≡ src → (frame_hdr got).h_src ≡ src
  source from =
      ap (take 6) (drop-take 6 1508 frame) ∙ take-take 6 1508 (drop 6 frame) (omega arith) ∙ from

  -- A frame that is longer than its data is received with them.
  pub receive_frame :
      length frame ≡ 18 + max (length data_in) 56
      → take 6 (drop 6 frame) ≡ src
      → take (length data_in) (drop 14 frame) ≡ data_in
      → length data_in ≤ 1500
      → same_bytes src eth.el_mac ≡ false
      → (tail : List ℕ) × (ether_receive
            (eth ∷ [])
            0
            ether_maxlen
            (arrived (take ether_maxlen frame) ∷ rx)
          ≡ some (
            pos (received_size (length data_in)),
            some (frame_hdr (take ether_maxlen frame)),
            data_in ++ tail,
            rx,
          ))
        × (length data_in + length tail ≡ received_size (length data_in))
        × ((frame_hdr (take ether_maxlen frame)).h_src ≡ src)
  unfolding take_frame
  receive_frame long from carried small other =
      let n = length data_in in
      let body = take 1500 (drop 14 frame) in
      let size : length got - 14 ≡ received_size n =
        omega (arith, length-take ether_maxlen frame, long) in
      let length-body : length body ≡ received_size n =
        omega (arith, length-take 1500 (drop 14 frame), length-drop 14 frame, long) in
      let at : drop 14 got ≡ body = drop-take 14 1500 frame in
      let front : take n body ≡ data_in = take-take n 1500 (drop 14 frame) small ∙ carried in
      let whole : take (min (length got - 14) ether_maxlen) (drop 14 got) ≡ data_in ++ drop n body =
        ap (take (min (length got - 14) ether_maxlen)) at
        ∙ take_whole (min (length got - 14) ether_maxlen) body (omega (arith, size, length-body))
        ∙ sym (take-append-drop n body)
        ∙ ap (λ t. t ++ drop n body) front in
      (
        drop n body,
        taken (ap (λ m. same_bytes m eth.el_mac) (source from) ∙ other)
            ∙ ap₂ (λ k l. some (pos k, some (frame_hdr got), l, rx)) size whole,
        omega (arith, length-drop n body, length-body),
        source from,
      )
