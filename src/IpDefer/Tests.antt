-- ===== src/IpDefer/Tests.antt =====
-- Tests of the deferred packets and the witnesses of their theorems.
use xstack_io.Prelude.{
  ℕ, suc, ◌≤◌, ◌<◌, ◌≡◌, refl, arith, List, [], ◌∷◌, some, get_elem?, replicate, ◌⊎◌,
}
use xstack_io.Prelude.Int.{ℤ, pos, negsuc, neg}
use xstack_io.Prelude.Errno.{ealready, enobufs, emsgsize, ehostunreach}
use xstack_io.IpDefer.{DeferState, zeroed, ip_defer_push, ip_defer_handler}
use xstack_io.IpDefer.Handler.{IsValid, waiting, ip_defer_handler_lem, ip_defer_push_lem}

abbrev at_start : DeferState
at_start = record { defer_inhibit = 0; ip_defer_queue = replicate 20 zeroed; q_rd = 0; q_wr = 0 }

at_start-IsValid : IsValid at_start
at_start-IsValid = record { slots = refl; rd_in = omega arith; wr_in = omega arith }

abbrev one_waiting : DeferState
unfolding ip_defer_push
one_waiting = (ip_defer_push at_start 7 17 (1 ∷ 2 ∷ [])).1

one_waiting-IsValid : IsValid one_waiting
unfolding ip_defer_push
one_waiting-IsValid = record { slots = refl; rd_in = omega arith; wr_in = omega arith }

-- An `ip_send` without a route, which counts its calls.
abbrev no_route : ℕ → ℕ → List ℕ → ℕ → ℕ → ℤ × ℕ × ℕ
no_route dst proto buf bsize calls = (negsuc 0, ehostunreach, suc calls)

-- The packet is kept, with two tries counted.
kept :
    ip_defer_handler no_route one_waiting 0
    ≡ some (
      record one_waiting {
        defer_inhibit = 1;
        ip_defer_queue =
            record { tries = 2; dst = 7; proto = 17; buf_size = 0; buf = 1 ∷ 2 ∷ replicate 4 0 }
            ∷ replicate 19 zeroed;
      },
      1,
    )
unfolding ip_defer_handler ip_defer_push
kept = refl

ip_defer_handler_lem_example :
    (s' : DeferState) × (w' : ℕ) × (ip_defer_handler no_route one_waiting 0 ≡ some (s', w'))
    × IsValid s'
    × (waiting s' ≤ waiting one_waiting)
    × ((dst proto : ℕ) (buf : List ℕ) → ip_defer_push s' dst proto buf ≡ (neg ealready, s'))
ip_defer_handler_lem_example = ip_defer_handler_lem no_route one_waiting 0 one_waiting-IsValid

ip_defer_push_lem_example :
    let (retval, s') = ip_defer_push at_start 7 17 (1 ∷ 2 ∷ []) in
    ((waiting at_start ≡ 19) × (retval ≡ neg enobufs) × (s' ≡ at_start))
    ⊎ ((0 < 19) × (6 < 2) × (retval ≡ neg emsgsize) × (s' ≡ at_start))
    ⊎ ((0 < 19)
        × (2 ≤ 6)
        × (retval ≡ pos 0)
        × IsValid s'
        × (waiting s' ≡ 1)
        × (get_elem? s'.ip_defer_queue 0
            ≡ some (record {
              tries = 0;
              dst = 7;
              proto = 17;
              buf_size = 0;
              buf = 1 ∷ 2 ∷ replicate 4 0;
            })))
ip_defer_push_lem_example = ip_defer_push_lem at_start 7 17 (1 ∷ 2 ∷ []) at_start-IsValid refl
