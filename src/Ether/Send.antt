-- ===== src/Ether/Send.antt =====
-- The interface table and the transmit path of src/linux/linux_ether.c, and the dispatch of
-- src/ether.c. A call of `sendto` gets the frames sent so far and the frame, and returns the number
-- of bytes sent or the negative error number.
use xstack_io.Prelude.{
  ℕ, ◌+◌, ◌-◌, max, List, [], ◌∷◌, ◌++◌, Option, none, some, get_elem?, length, replicate, take,
  u32, htons, le_bytes16, le_bytes32, ltb, leb, ◌==◌, if◌then◌else◌, size,
}
use xstack_io.Prelude.Int.{ℤ, pos, negsuc, neg, is_neg, neg_part}
use xstack_io.Prelude.Errno.{emsgsize, enodev, eprotonosupport}
use xstack_io.Ether.{MacAddr, EtherHdr, ether_header_len, ether_minlen, ether_maxlen, ether_fcs_len}
use xstack_io.Ether.Fcs.{ether_fcs}

-- `struct ether_linux`; of `el_if_idx` only the index is used here.
pub record EtherLinux : Type 0 where
  pub el_fd : ℕ
  pub el_mac : MacAddr
  pub el_ifindex : ℕ

abbrev pub ether_max_if : ℕ
ether_max_if = 1

-- `none` is NULL, with `errno` ENODEV. A negative handle is not modelled.
unfoldable pub ether_handle2eth : List EtherLinux → ℕ → Option EtherLinux
ether_handle2eth ether_if handle =
    if leb ether_max_if handle then none else get_elem? ether_if handle

-- The address copied to `addr`, which stays as it is on failure, and the return value.
unfoldable pub ether_handle2addr : List EtherLinux → ℕ → MacAddr → MacAddr × ℤ
unfolding ether_handle2eth
ether_handle2addr ether_if handle addr = elim (ether_handle2eth ether_if handle) [
  | none ↦ (addr, negsuc 0)
  | some eth ↦ (take 6 eth.el_mac, pos 0)
]

-- The frames handed to the kernel so far, the oldest first.
abbrev pub Wire : Type 0
Wire = List (List ℕ)

abbrev pub Sendto : Type 0
Sendto = Wire → List ℕ → ℤ

unfoldable pub frame_size : ℕ → ℕ
frame_size bsize =
    size (ether_header_len + max (u32 bsize) (ether_minlen - ether_fcs_len) + ether_fcs_len)

-- Header, data and padding: the frame without its check sequence.
unfoldable pub frame_body : MacAddr → MacAddr → ℕ → List ℕ → List ℕ
unfolding frame_size
frame_body dst src proto buf =
    dst
    ++ (src
        ++ le_bytes16 (htons proto) (
            buf
            ++ replicate (frame_size (length buf) - ether_fcs_len - ether_header_len - length buf)
                0))

unfoldable pub make_frame : MacAddr → MacAddr → ℕ → List ℕ → List ℕ
unfolding frame_body
make_frame dst src proto buf =
    let body = frame_body dst src proto buf in body ++ le_bytes32 (ether_fcs body) []

-- `buf` holds `bsize` bytes.
unfoldable pub ether_send : List EtherLinux → Sendto → ℕ → MacAddr → ℕ → List ℕ → Wire → ℤ × Wire
unfolding frame_size ether_handle2eth make_frame
ether_send ether_if sendto handle dst proto buf wire =
    if ltb (ether_maxlen + ether_fcs_len) (frame_size (length buf))
    then (neg emsgsize, wire)
    else elim (ether_handle2eth ether_if handle) [
      | none ↦ (neg enodev, wire)
      | some eth ↦
          let frame = make_frame dst eth.el_mac proto buf in
          (sendto wire frame, wire ++ (frame ∷ []))
    ]

-- A handler gets the header and the payload, and returns its value, the payload as it leaves it
-- and the state.
abbrev pub EtherHandler : Type 0 → Type 0
EtherHandler S = EtherHdr → List ℕ → S → ℤ × List ℕ × S

unfoldable pub find_handler : {S : Type 0} → ℕ → List (ℕ × EtherHandler S) → Option (EtherHandler S)
find_handler proto [] = none
find_handler proto ((id, fn) ∷ rest) =
    let later = find_handler proto rest in if id == proto then some fn else later

-- `errno` and the return value of a negative code.
unfoldable pub errno_result : ℤ → ℕ → ℤ × ℕ
errno_result retval errno = if is_neg retval then (negsuc 0, neg_part retval) else (retval, errno)

-- The return value, `errno`, the payload and the state.
unfoldable pub ether_input :
    {S : Type 0} → List (ℕ × EtherHandler S) → EtherHdr → List ℕ → ℕ → S → ℤ × ℕ × List ℕ × S
unfolding find_handler errno_result
ether_input handlers hdr payload errno s = elim (find_handler hdr.h_proto handlers) [
  | some fn ↦
      let (retval, payload', s') = fn hdr payload s in
      let (retval', errno') = errno_result retval errno in (retval', errno', payload', s')
  | none ↦ (negsuc 0, eprotonosupport, payload, s)
]

-- The reply of `bsize` bytes goes back to the sender, whose type it keeps.
unfoldable pub ether_output_reply :
    List EtherLinux → Sendto → ℕ → EtherHdr → List ℕ → ℕ → ℕ → Wire → ℤ × ℕ × Wire
unfolding ether_send errno_result
ether_output_reply ether_if sendto handle hdr payload bsize errno wire =
    let (retval, wire') =
      ether_send ether_if sendto handle hdr.h_src hdr.h_proto (take bsize payload) wire in
    let (retval', errno') = errno_result retval errno in (retval', errno', wire')
