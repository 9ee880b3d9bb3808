-- ===== src/IpDefer/Handler.antt =====
-- What `ip_defer_push` does with a packet, and what `ip_defer_handler` leaves behind.
use xstack_io.Prelude.{
  ℕ, zero, suc, ◌+◌, ◌-◌, ◌%◌, ◌≤◌, ◌<◌, ◌≡◌, ◌≢◌, refl, ◌∙◌, arith, List, Option, some, length,
  get_elem?, length-set, drop, ◌++◌, get_or, lt→ltb, ltb-false, differ_test, same_test,
  either_branch, get_elem?-set_self, ◌⊎◌, inl, inr, ltb, ◌&&◌, ◌==◌, if◌then◌else◌, dec_lt,
  ℕ_discrete,
}
use xstack_io.Prelude.Int.{ℤ, pos, negsuc, neg, eqb_ℤ}
use xstack_io.Prelude.Errno.{ealready, enobufs, emsgsize, ehostunreach}
use xstack_io.IpDefer.{
  zeroed, IpDefer, DeferState, xstack_ip_defer_max, next_slot, ip_defer_push, ip_defer_drop,
  count_try, defer_loop, ip_defer_handler,
}

-- Both indices lie in the ring.
pub record IsValid (s : DeferState) : Type 0 where
  pub slots : length s.ip_defer_queue ≡ 20
  pub rd_in : s.q_rd < 20
  pub wr_in : s.q_wr < 20

-- The number of packets that wait.
abbrev pub waiting : DeferState → ℕ
waiting s = (s.q_wr + 20 - s.q_rd) % 20

count_try-IsValid : (s : DeferState) (ipd : IpDefer) → IsValid s → IsValid (count_try s ipd).0
unfolding count_try
count_try-IsValid s ipd v = record {
  slots = length-set s.ip_defer_queue s.q_rd (record ipd { tries = ipd.tries + 1 }) ∙ v.slots;
  rd_in = v.rd_in;
  wr_in = v.wr_in;
}

-- A handler's outcome: it has returned, and pushes are inhibited.
abbrev pub Returned : {W : Type 0} → DeferState → Option (DeferState × W) → Type 0
Returned {W} s result =
    (s' : DeferState) × (w' : W) × (result ≡ some (s', w'))
    × (s'.defer_inhibit ≡ s.defer_inhibit)
    × IsValid s'
    × (waiting s' ≤ waiting s)

-- A packet that is dropped makes room for one.
drop-less :
    (s : DeferState)
    → IsValid s
    → s.q_rd ≢ s.q_wr
    → IsValid (ip_defer_drop s)
      × ((ip_defer_drop s).defer_inhibit ≡ s.defer_inhibit)
      × (waiting (ip_defer_drop s) + 1 ≡ waiting s)
unfolding ip_defer_drop
drop-less s v busy =
    rw (differ_test s.q_rd s.q_wr busy)
      (record { slots = v.slots; rd_in = omega arith; wr_in = v.wr_in }, refl, less)
  where
    less : (s.q_wr + 20 - next_slot s.q_rd) % 20 + 1 ≡ waiting s
    less = omega (arith, v.rd_in, v.wr_in)

later :
    {W : Type 0} (s s' : DeferState) (result : Option (DeferState × W))
    → s'.defer_inhibit ≡ s.defer_inhibit
    → waiting s' ≤ waiting s
    → Returned s' result
    → Returned s result
later s s' result e h (s'', w, ret, inh, v, less) = (s'', w, ret, inh ∙ e, v, omega arith)

defer_loop_lem :
    {W : Type 0} (ip_send : ℕ → ℕ → List ℕ → ℕ → W → ℤ × ℕ × W) (fuel : ℕ) (s : DeferState) (w : W)
    → IsValid s
    → waiting s < fuel
    → Returned s (defer_loop ip_send fuel s w)
unfolding defer_loop count_try
defer_loop_lem ip_send zero s w v enough = absurd (omega arith)
defer_loop_lem ip_send (suc fuel) s w v enough = elim (ℕ_discrete s.q_rd s.q_wr) [
  | yes e ↦ rw (defer_loop, same_test s.q_rd s.q_wr e) (s, w, refl, refl, v, omega arith)
  | no busy ↦
      let ipd = get_or s.ip_defer_queue s.q_rd zeroed in
      let s1 = (count_try s ipd).0 in
      let ipd1 = (count_try s ipd).1 in
      let sent = ip_send ipd1.dst ipd1.proto ipd1.buf ipd1.buf_size w in
      let v1 = count_try-IsValid s ipd v in
      let (v2, inh, less) = drop-less s1 v1 busy in
      let go_on : (w' : _) → Returned s (defer_loop ip_send fuel (ip_defer_drop s1) w') = λ w'.
        later s (ip_defer_drop s1) _ inh (omega arith)
          (defer_loop_lem ip_send fuel (ip_defer_drop s1) w' v2 (omega arith)) in
      rw (defer_loop, differ_test s.q_rd s.q_wr busy)
        (either_branch (Returned s) (ltb 3 ipd.tries) (defer_loop ip_send fuel (ip_defer_drop s1) w)
          (if eqb_ℤ sent.0 (negsuc 0) && sent.1 == ehostunreach
            then some ((count_try s1 ipd1).0, sent.2)
            else defer_loop ip_send fuel (ip_defer_drop s1) sent.2)
          (go_on w)
          (either_branch (Returned s) (eqb_ℤ sent.0 (negsuc 0) && sent.1 == ehostunreach)
            (some ((count_try s1 ipd1).0, sent.2))
            (defer_loop ip_send fuel (ip_defer_drop s1) sent.2)
            ((count_try s1 ipd1).0, sent.2, refl, refl, count_try-IsValid s1 ipd1 v1, omega arith)
            (go_on sent.2)))
]

-- The handler returns after at most as many rounds as the ring has slots, whatever its packets meet,
-- and does not lengthen the ring's queue. From then on every packet is refused with EALREADY and
-- the ring is left as it is, because the handler never takes back its inhibition.
pub ip_defer_handler_lem :
    {W : Type 0} (ip_send : ℕ → ℕ → List ℕ → ℕ → W → ℤ × ℕ × W) (s : DeferState) (w : W)
    → IsValid s
    → (s' : DeferState) × (w' : W) × (ip_defer_handler ip_send s w ≡ some (s', w'))
      × IsValid s'
      × (waiting s' ≤ waiting s)
      × ((dst proto : ℕ) (buf : List ℕ) → ip_defer_push s' dst proto buf ≡ (neg ealready, s'))
unfolding ip_defer_handler ip_defer_push
ip_defer_handler_lem ip_send s w v =
    let start : DeferState = record s { defer_inhibit = 1 } in
    let v0 : IsValid start = record { slots = v.slots; rd_in = v.rd_in; wr_in = v.wr_in } in
    let (s', w', ret, inh, v', less) =
      defer_loop_lem ip_send xstack_ip_defer_max start w v0 (omega arith) in
    (s', w', ret, v', less, λ dst proto buf. rw inh refl)

-- A packet that is pushed while pushes are not inhibited: with 19 packets waiting it is refused with
-- ENOBUFS, with more than 6 bytes with EMSGSIZE, and the ring stays as it is; else it takes the
-- next slot, with its address, its protocol, its bytes and no try counted, and one packet more
-- waits. The size that the slot keeps for the handler is that of whatever stood there before.
pub ip_defer_push_lem :
    (s : DeferState) (dst proto : ℕ) (buf : List ℕ)
    → IsValid s
    → s.defer_inhibit ≡ 0
    → let old = get_or s.ip_defer_queue s.q_wr zeroed in
      let (retval, s') = ip_defer_push s dst proto buf in
      ((waiting s ≡ 19) × (retval ≡ neg enobufs) × (s' ≡ s))
      ⊎ ((waiting s < 19) × (6 < length buf) × (retval ≡ neg emsgsize) × (s' ≡ s))
      ⊎ ((waiting s < 19)
          × (length buf ≤ 6)
          × (retval ≡ pos 0)
          × IsValid s'
          × (waiting s' ≡ waiting s + 1)
          × (get_elem? s'.ip_defer_queue s.q_wr
              ≡ some (record {
                tries = 0;
                dst = dst;
                proto = proto;
                buf_size = old.buf_size;
                buf = buf ++ drop (length buf) old.buf;
              })))
unfolding ip_defer_push
ip_defer_push_lem s dst proto buf v free = elim (ℕ_discrete (next_slot s.q_wr) s.q_rd) [
  | yes full ↦
      rw (ip_defer_push, free, same_test (next_slot s.q_wr) s.q_rd full)
        (inl (omega (arith, v.wr_in, v.rd_in), refl, refl))
  | no room ↦
      let there : waiting s < 19 = omega (arith, v.wr_in, v.rd_in) in
      elim (dec_lt 6 (length buf)) [
        | yes long ↦
            rw
              (
                ip_defer_push,
                free,
                differ_test (next_slot s.q_wr) s.q_rd room,
                lt→ltb 6 (length buf) long,
              )
              (inr (inl (there, long, refl, refl)))
        | no fits ↦
            let old = get_or s.ip_defer_queue s.q_wr zeroed in
            let slot : IpDefer = record old {
              tries = 0;
              dst = dst;
              proto = proto;
              buf = buf ++ drop (length buf) old.buf;
            } in
            rw
              (
                ip_defer_push,
                free,
                differ_test (next_slot s.q_wr) s.q_rd room,
                ltb-false 6 (length buf) (omega arith),
              )
              (inr (
                inr (
                  there,
                  omega arith,
                  refl,
                  record {
                    slots = length-set s.ip_defer_queue s.q_wr slot ∙ v.slots;
                    rd_in = v.rd_in;
                    wr_in = omega arith;
                  },
                  omega (arith, v.wr_in, v.rd_in),
                  get_elem?-set_self s.ip_defer_queue s.q_wr slot (omega arith),
                )))
      ]
]
