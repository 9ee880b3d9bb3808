-- ===== src/IpDefer.antt =====
-- src/ip_defer.c: the ring of packets that wait for a hardware address. The calls of `ip_send` are a
-- parameter: it gets the destination, the protocol, the buffer and its size, and returns its value
-- and `errno`; the `ip_defer_push` that it may call is refused while `defer_inhibit` is set. The
-- handler's loop runs on fuel, as many rounds as the ring has slots.
pub mod Handler
mod Tests
use xstack_io.Prelude.{
  ℕ, zero, suc, ◌+◌, ◌-◌, ◌*◌, ◌%◌, ◌^◌, List, [], ◌∷◌, ◌++◌, Option, none, some, length, drop, set,
  get_or, replicate, ltb, not, ◌&&◌, ◌==◌, if◌then◌else◌, size,
}
use xstack_io.Prelude.Int.{ℤ, pos, negsuc, neg, eqb_ℤ}
use xstack_io.Ether.{ether_alen}
use xstack_io.Prelude.Errno.{ealready, enobufs, emsgsize, ehostunreach}

-- `struct ip_defer`
pub record IpDefer : Type 0 where
  pub tries : ℕ
  pub dst : ℕ
  pub proto : ℕ
  pub buf_size : ℕ
  pub buf : List ℕ

-- The static variables of the file.
pub record DeferState : Type 0 where
  pub defer_inhibit : ℕ
  pub ip_defer_queue : List IpDefer
  pub q_rd : ℕ
  pub q_wr : ℕ

abbrev pub xstack_ip_defer_max : ℕ
xstack_ip_defer_max = 20

abbrev pub zeroed : IpDefer
zeroed = record { tries = 0; dst = 0; proto = 0; buf_size = 0; buf = replicate 6 0 }

abbrev pub next_slot : ℕ → ℕ
next_slot i = size (i + 1) % xstack_ip_defer_max

-- `buf` holds `bsize` bytes.
unfoldable pub ip_defer_push : DeferState → ℕ → ℕ → List ℕ → ℤ × DeferState
ip_defer_push s dst proto buf =
    let old = get_or s.ip_defer_queue s.q_wr zeroed in
    let slot : IpDefer = record old {
      tries = 0;
      dst = dst;
      proto = proto;
      buf = buf ++ drop (length buf) old.buf;
    } in
    if not (s.defer_inhibit == 0)
    then (neg ealready, s)
    else if next_slot s.q_wr == s.q_rd
    then (neg enobufs, s)
    else if ltb ether_alen (length buf)
    then (neg emsgsize, s)
    else (
      pos 0,
      record s { ip_defer_queue = set s.ip_defer_queue s.q_wr slot; q_wr = next_slot s.q_wr },
    )

unfoldable pub ip_defer_peek : DeferState → Option IpDefer
ip_defer_peek s = if s.q_rd == s.q_wr then none else some (get_or s.ip_defer_queue s.q_rd zeroed)

unfoldable pub ip_defer_drop : DeferState → DeferState
ip_defer_drop s = if s.q_rd == s.q_wr then s else record s { q_rd = next_slot s.q_rd }

-- `tries++` of the slot to be read.
unfoldable pub count_try : DeferState → IpDefer → DeferState × IpDefer
count_try s ipd =
    let ipd' : IpDefer = record ipd { tries = ipd.tries + 1 } in
    (record s { ip_defer_queue = set s.ip_defer_queue s.q_rd ipd' }, ipd')

module _ {W : Type 0} (ip_send : ℕ → ℕ → List ℕ → ℕ → W → ℤ × ℕ × W) where
  -- `none` stands for the fuel that has run out.
  unfoldable pub defer_loop : ℕ → DeferState → W → Option (DeferState × W)
  unfolding ip_defer_peek ip_defer_drop count_try
  defer_loop zero s w = none
  defer_loop (suc fuel) s w = elim (ip_defer_peek s) [
    | none ↦ some (s, w)
    | some ipd ↦
        let (s', ipd') = count_try s ipd in
        let (retval, errno, w') = ip_send ipd'.dst ipd'.proto ipd'.buf ipd'.buf_size w in
        let given_up = defer_loop fuel (ip_defer_drop s') w in
        let gone = defer_loop fuel (ip_defer_drop s') w' in
        if ltb 3 ipd.tries
        then given_up
        else if eqb_ℤ retval (negsuc 0) && errno == ehostunreach
        then some ((count_try s' ipd').0, w')
        else gone
  ]

  -- The last line of the function is behind an endless loop, and is not reached.
  unfoldable pub ip_defer_handler : DeferState → W → Option (DeferState × W)
  unfolding defer_loop
  ip_defer_handler s w = defer_loop xstack_ip_defer_max (record s { defer_inhibit = 1 }) w
