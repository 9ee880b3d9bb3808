-- ===== src/Dyndebug/Tests.antt =====
-- Tests of the switches and the witness of their theorem.
use xstack_io.Prelude.{ℕ, ◌≡◌, ◌⊎◌, refl, arith, List, [], ◌∷◌, ◌++◌, some, get_elem?}
use xstack_io.Prelude.Int.{pos, neg}
use xstack_io.Prelude.Errno.{einval}
use xstack_io.Prelude.Decimal.{decimal}
use xstack_io.Dyndebug.{DyndebugMsg, colon, toggle_dbgmsg}
use xstack_io.Dyndebug.Toggle.{flipped, toggle_dbgmsg_lem}

-- "ip.c"
abbrev ip_c : List ℕ
ip_c = 105 ∷ 112 ∷ 46 ∷ 99 ∷ []

abbrev message : ℕ → DyndebugMsg
message line = record { flags = 0; line = line; file = ip_c }

abbrev messages : List DyndebugMsg
messages = message 12 ∷ message 120 ∷ []

-- The file alone stands for all of its lines.
whole_file :
    toggle_dbgmsg ip_c messages ≡ (pos 0, flipped (message 12) ∷ flipped (message 120) ∷ [])
unfolding toggle_dbgmsg
whole_file = refl

none_linked : toggle_dbgmsg ip_c [] ≡ (neg einval, [])
unfolding toggle_dbgmsg
none_linked = refl

toggle_dbgmsg_lem_example :
    let cfg = ip_c ++ colon ∷ decimal 12 in
    let ms' = (toggle_dbgmsg cfg messages).1 in
    ((((ip_c ≡ ip_c) × ((message 120).line ≡ 12))
        × (get_elem? ms' 1 ≡ some (flipped (message 120))))
      ⊎ ((¬ ((ip_c ≡ ip_c) × ((message 120).line ≡ 12))) × (get_elem? ms' 1 ≡ some (message 120))))
    × ((toggle_dbgmsg cfg ms').1 ≡ messages)
toggle_dbgmsg_lem_example =
    toggle_dbgmsg_lem messages ip_c 12 1 (message 120)
      (omega arith, (omega arith, (omega arith, (omega arith, tt)))) (omega arith) (omega arith)
      (omega arith) refl
