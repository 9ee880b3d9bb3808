-- ===== src/Ether/Receive.antt =====
-- The receive path of src/linux/linux_ether.c. What the calls of `recvfrom` return is a list; a frame
-- of the kernel has at least the 14 bytes of its header.
use xstack_io.Prelude.{
  ℕ, ◌-◌, ◌≡◌, refl, List, [], ◌∷◌, ◌++◌, All, Option, none, some, Bool, true, false, ◌&&◌, ◌||◌,
  length, take, drop, get_or, min, ◌==◌, if◌then◌else◌, le16, ntohs,
}
use xstack_io.Prelude.Int.{ℤ, pos, negsuc}
use xstack_io.Prelude.Errno.{eagain, einprogress}
use xstack_io.Ether.{MacAddr, EtherHdr, ether_header_len}
use xstack_io.Ether.Send.{EtherLinux, ether_handle2eth}

-- The address is not looked at.
unfoldable pub ether_addr2handle : MacAddr → ℕ
ether_addr2handle addr = 0

-- A call of `recvfrom`: a frame, or the return value -1 with `errno`.
pub data Recv : Type 0 where
  arrived : List ℕ → Recv
  failed : ℕ → Recv

-- `!memcmp`
abbrev pub same_bytes : List ℕ → List ℕ → Bool
same_bytes [] [] = true
same_bytes (x ∷ xs) (y ∷ ys) = x == y && same_bytes xs ys
same_bytes [] (y ∷ ys) = false
same_bytes (x ∷ xs) [] = false

abbrev pub frame_hdr : List ℕ → EtherHdr
frame_hdr f = record {
  h_dst = take 6 f;
  h_src = take 6 (drop 6 f);
  h_proto = ntohs (le16 (get_or f 12 0) (get_or f 13 0));
}

-- The return value, the header, what is copied to the buffer of `bsize` bytes, and the calls to come.
abbrev pub Received : Type 0
Received = ℤ × Option EtherHdr × List ℕ × List Recv

unfoldable pub take_frame : List ℕ → ℕ → List Recv → Received
take_frame f bsize rest =
    let n = length f - ether_header_len in
    (pos n, some (frame_hdr f), take (min n bsize) (drop ether_header_len f), rest)

-- The loop that passes over the frames of the interface itself. `none` is a thread that waits.
unfoldable pub receive_from : MacAddr → ℕ → List Recv → Option Received
unfolding take_frame
receive_from mac bsize [] = none
receive_from mac bsize (failed errno ∷ rest) =
    some (if errno == eagain || errno == einprogress then pos 0 else negsuc 0, none, [], rest)
receive_from mac bsize (arrived f ∷ rest) =
    let later = receive_from mac bsize rest in
    if same_bytes (frame_hdr f).h_src mac then later else some (take_frame f bsize rest)

unfoldable pub ether_receive : List EtherLinux → ℕ → ℕ → List Recv → Option Received
unfolding ether_handle2eth receive_from
ether_receive ether_if handle bsize rx = elim (ether_handle2eth ether_if handle) [
  | none ↦ some (negsuc 0, none, [], rx)
  | some eth ↦ receive_from eth.el_mac bsize rx
]

-- The calls that return frames of the interface itself.
abbrev pub IsOwn : MacAddr → Recv → Type 0
IsOwn mac (arrived f) = same_bytes (frame_hdr f).h_src mac ≡ true
IsOwn mac (failed errno) = ⊥

pub receive_from-own :
    (mac : MacAddr) (bsize : ℕ) (own rest : List Recv)
    → All (IsOwn mac) own
    → receive_from mac bsize (own ++ rest) ≡ receive_from mac bsize rest
unfolding receive_from
receive_from-own mac bsize [] rest all_own = refl
receive_from-own mac bsize (arrived f ∷ own) rest all_own =
    rw (all_own.0) (receive_from-own mac bsize own rest all_own.1)
receive_from-own mac bsize (failed errno ∷ own) rest all_own = elim all_own.0 [ ]
