-- ===== src/Dyndebug.antt =====
-- src/dyndebug.c and src/dyndebug.h: the switches of the debug messages. A string is the list of its
-- characters before the final zero.
mod Tests
pub mod Toggle
use xstack_io.Prelude.{
  ℕ, zero, suc, List, [], ◌∷◌, Option, none, some, Bool, true, false, ◌&&◌, map, take, bit_xor,
  ◌==◌, if◌then◌else◌,
}
use xstack_io.Prelude.Int.{ℤ, pos, neg}
use xstack_io.Prelude.Errno.{einval}
use xstack_io.Prelude.Decimal.{decimal}

-- `struct _dyndebug_msg`
pub record DyndebugMsg : Type 0 where
  pub flags : ℕ
  pub line : ℕ
  pub file : List ℕ

-- `:`
abbrev pub colon : ℕ
colon = 58

-- `strcmp` returns 0.
abbrev pub same_str : List ℕ → List ℕ → Bool
same_str [] [] = true
same_str [] (y ∷ ys) = false
same_str (x ∷ xs) [] = false
same_str (x ∷ xs) (y ∷ ys) = (x == y) && same_str xs ys

-- The string before the first colon, which is overwritten, and the one behind it.
abbrev pub split_line : List ℕ → List ℕ × Option (List ℕ)
split_line [] = ([], none)
split_line (c ∷ cs) =
    let (file, line) = split_line cs in if c == colon then ([], some cs) else (c ∷ file, line)

-- The tests of the loop's body: of the line, in a buffer of 12 bytes, and of the file.
abbrev pub same_line : Option (List ℕ) → ℕ → Bool
same_line none n = true
same_line (some []) n = true
same_line (some (c ∷ cs)) n = same_str (c ∷ cs) (take 11 (decimal n))

abbrev pub selected : List ℕ × Option (List ℕ) → DyndebugMsg → Bool
selected (file, line) msg_opt = same_str file msg_opt.file && same_line line msg_opt.line

abbrev pub flip : List ℕ × Option (List ℕ) → DyndebugMsg → DyndebugMsg
flip choice msg_opt =
    if selected choice msg_opt then record msg_opt { flags = bit_xor msg_opt.flags 1 } else msg_opt

-- The messages of the linker set; `strbuf` has 40 bytes.
unfoldable pub toggle_dbgmsg : List ℕ → List DyndebugMsg → ℤ × List DyndebugMsg
toggle_dbgmsg cfg [] = (neg einval, [])
toggle_dbgmsg cfg (m ∷ ms) = (pos 0, map (flip (split_line (take 39 cfg))) (m ∷ ms))
