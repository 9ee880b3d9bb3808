-- ===== src/Sock/Queues.antt =====
-- The queue of a socket of src/xstack.c as the list of its datagrams, oldest first.
use xstack_io.Prelude.{
  ◌+◌, ◌*◌, ◌<◌, ◌≡◌, ap, ◌∙◌, arith, List, [], ◌∷◌, ◌++◌, none, some, false, ◌⊎◌, inl, inr,
  Bool-cases,
}
use xstack_io.Prelude.Int.{ℤ, pos}
use xstack_io.QueueR.{QueueCb, next_index, queue_commit, queue_peek, queue_discard, queue_isempty}
use xstack_io.QueueR.Ring.{update, update_self, window}
use xstack_io.QueueR.Valid.{IsValid, depth, operations-IsValid}
use xstack_io.QueueR.Fifo.{
  contents, contents-fill, contents-commit, contents-read, queue_peek_lem, queue_state_lem,
  read-ne-write, queue_discard-one,
}
use xstack_io.Sock.{Dgram, Pipe}

abbrev pub datagrams : Pipe → List Dgram
datagrams pipe = contents pipe.queue pipe.blocks

-- A datagram that is written to a free block and committed is the last one.
pub push_lem :
    (q : QueueCb) (mem : ℤ → Dgram) (d : Dgram)
    → IsValid q
    → depth q + 1 < q.a_len
    → contents (queue_commit q) (update mem (pos (q.m_write * q.b_size)) d)
      ≡ contents q mem ++ (d ∷ [])
push_lem q mem d v room =
    contents-commit (update mem (pos (q.m_write * q.b_size)) d) v room
    ∙ ap (λ l. l ++ (update mem (pos (q.m_write * q.b_size)) d (pos (q.m_write * q.b_size)) ∷ []))
        (contents-fill mem d v)
    ∙ ap (λ x. contents q mem ++ (x ∷ [])) (update_self mem (q.m_write * q.b_size) d)

-- A queue has no datagram, or an oldest one, which `queue_peek` finds and `queue_discard` takes away.
pub pop_lem :
    (q : QueueCb) (mem : ℤ → Dgram)
    → IsValid q
    → ((contents q mem ≡ []) × (queue_peek q ≡ none))
      ⊎ ((off : ℤ) × (rest : List Dgram) × (queue_peek q ≡ some off)
          × (queue_isempty q ≡ false)
          × (contents q mem ≡ mem off ∷ rest)
          × (contents (queue_discard q 1).0 mem ≡ rest)
          × IsValid (queue_discard q 1).0)
pop_lem q mem v = elim (queue_peek_lem v) [
  | inl (none_left, e) ↦ inl (ap (window mem q.b_size q.a_len q.m_read) none_left, e)
  | inr (some_left, e) ↦
      let next : QueueCb = record q { m_read = next_index q q.m_read } in
      let gone = (queue_discard-one v some_left).0 in
      inr (
        pos (q.m_read * q.b_size),
        contents next mem,
        e,
        not_empty some_left,
        contents-read mem v (read-ne-write v some_left),
        ap (λ c. contents c mem) gone,
        (operations-IsValid 1 v).1,
      )
]
  where
    not_empty : 0 < depth q → queue_isempty q ≡ false
    not_empty some_left = elim (Bool-cases (queue_isempty q)) [
      | inl e ↦ absurd (omega (arith, some_left, (queue_state_lem v).0.0 e))
      | inr e ↦ e
    ]
