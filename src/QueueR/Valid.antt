-- ===== src/QueueR/Valid.antt =====
-- The representation invariant of `queue_cb_t`, and what each operation does to the number of
-- elements.
use xstack_io.Prelude.{ℕ, zero, suc, ◌+◌, ◌-◌, ◌*◌, ◌/◌, ◌%◌, ◌^◌, ◌≤◌, ◌<◌, ◌≡◌, arith, size}
use xstack_io.Prelude.Int.{pos, to_int}
use xstack_io.QueueR.{
  QueueCb, queue_create, next_index, queue_commit, queue_discard_from, queue_discard,
  queue_clear_from_push_end, queue_clear_from_pop_end,
}

-- Both indices lie in the array, and the array is small enough for its offsets to be an `int`.
pub record IsValid (cb : QueueCb) : Type 0 where
  pub block : 0 < cb.b_size
  pub write_in : cb.m_write < cb.a_len
  pub read_in : cb.m_read < cb.a_len
  pub small : cb.a_len * cb.b_size < 2 ^ 31

-- The number of committed elements that are not discarded.
abbrev pub depth : QueueCb → ℕ
depth cb = (cb.m_write + cb.a_len - cb.m_read) % cb.a_len

pub a_len-lt : {cb : QueueCb} → IsValid cb → cb.a_len < 2 ^ 31
a_len-lt {cb} v = grind (arith, v.block, v.small)

pub next_index_lem :
    {cb : QueueCb} → IsValid cb → (i : ℕ) → i < cb.a_len → next_index cb i ≡ (i + 1) % cb.a_len
next_index_lem {cb} v i h = let e : size (i + 1) ≡ i + 1 = omega (arith, a_len-lt v) in rw e

-- The offset of a block of the array is not cut by the conversions to `size_t` and `int`.
pub offset_lem :
    {cb : QueueCb}
    → IsValid cb
    → (i : ℕ) → i < cb.a_len
    → (i * cb.b_size + cb.b_size ≤ cb.a_len * cb.b_size)
      × (to_int (size (i * cb.b_size)) ≡ pos (i * cb.b_size))
offset_lem {cb} v i h =
    let fits : i * cb.b_size + cb.b_size ≤ cb.a_len * cb.b_size = grind arith in
    (fits, ground (arith, v.small))

pub next_index-lt : {cb : QueueCb} → IsValid cb → (i : ℕ) → next_index cb i < cb.a_len
next_index-lt {cb} v i = omega (arith, v.write_in)

-- A new queue is valid and empty if a block fits the array.
pub queue_create-IsValid :
    (block_size array_size : ℕ)
    → 0 < block_size
    → block_size ≤ array_size
    → array_size < 2 ^ 31
    → IsValid (queue_create block_size array_size)
      × (depth (queue_create block_size array_size) ≡ 0)
unfolding queue_create
queue_create-IsValid b n pb fits small =
    let some_blocks : 0 < n / b = grind arith in
    let inside : n / b * b ≤ n = grind arith in
    (
      record { block = pb; write_in = some_blocks; read_in = some_blocks; small = omega arith },
      grind arith,
    )

pub queue_commit-IsValid : {cb : QueueCb} → IsValid cb → IsValid (queue_commit cb)
unfolding queue_commit
queue_commit-IsValid {cb} v = ground (arith, v, next_index-lt v cb.m_write)

pub read_next-IsValid :
    {cb : QueueCb} → IsValid cb → IsValid (record cb { m_read = next_index cb cb.m_read })
read_next-IsValid {cb} v = ground (arith, v, next_index-lt v cb.m_read)

pub queue_discard_from-IsValid :
    (cb : QueueCb) (n count : ℕ) → IsValid cb → IsValid (queue_discard_from cb n count).0
unfolding queue_discard_from
queue_discard_from-IsValid cb zero count v = v
queue_discard_from-IsValid cb (suc n) count v = ground (
  arith,
  queue_discard_from-IsValid (record cb { m_read = next_index cb cb.m_read }) n (count + 1)
      (read_next-IsValid v),
)

-- Every operation keeps the invariant.
pub operations-IsValid :
    {cb : QueueCb} (n : ℕ)
    → IsValid cb
    → IsValid (queue_commit cb)
      × IsValid (queue_discard cb n).0
      × IsValid (queue_clear_from_push_end cb)
      × IsValid (queue_clear_from_pop_end cb)
unfolding queue_discard queue_clear_from_push_end queue_clear_from_pop_end
operations-IsValid {cb} n v =
    (queue_commit-IsValid v, queue_discard_from-IsValid cb n 0 v, ground arith, ground arith)
