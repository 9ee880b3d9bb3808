-- ===== src/QueueR.antt =====
-- util/queue_r.c and include/queue_r.h: the control block of a queue of fixed-size blocks that one
-- thread pushes to and another pops from. The blocks themselves are the callers'.
pub mod Ring
pub mod Valid
pub mod Fifo
pub mod Spsc
mod Tests
use xstack_io.Prelude.{
  ℕ, zero, suc, ◌+◌, ◌*◌, ◌/◌, ◌%◌, ◌^◌, Bool, Option, none, some, size, ◌==◌, if◌then◌else◌,
}
use xstack_io.Prelude.Int.{ℤ, negsuc, to_int}

-- `queue_cb_t`
pub record QueueCb : Type 0 where
  pub b_size : ℕ
  pub a_len : ℕ
  pub m_write : ℕ
  pub m_read : ℕ

pub queue_create : ℕ → ℕ → QueueCb
queue_create block_size array_size = record {
  b_size = block_size;
  a_len = array_size / block_size;
  m_write = 0;
  m_read = 0;
}

-- `(i + 1) % cb->a_len` in `size_t`
abbrev pub next_index : QueueCb → ℕ → ℕ
next_index cb i = size (i + 1) % cb.a_len

-- The byte offset of the block to write, or -1 if the queue is full.
unfoldable pub queue_alloc : QueueCb → ℤ
queue_alloc cb =
    let write = cb.m_write in
    if next_index cb write == cb.m_read then negsuc 0 else to_int (size (write * cb.b_size))

pub queue_commit : QueueCb → QueueCb
queue_commit cb = record cb { m_write = next_index cb cb.m_write }

-- `none` is the return value 0; `some i` is the return value 1 with `*index = i`.
pub queue_peek : QueueCb → Option ℤ
queue_peek cb =
    let read = cb.m_read in
    if read == cb.m_write then none else some (to_int (size (read * cb.b_size)))

-- The loop with `left` rounds to go and `count` elements gone.
pub queue_discard_from : QueueCb → ℕ → ℕ → QueueCb × ℕ
queue_discard_from cb zero count = (cb, count)
queue_discard_from cb (suc left) count =
    let rest =
      queue_discard_from (record cb { m_read = next_index cb cb.m_read }) left (count + 1) in
    if cb.m_read == cb.m_write then (cb, count) else rest

pub queue_discard : QueueCb → ℕ → QueueCb × ℤ
unfolding queue_discard_from
queue_discard cb n = let (cb', count) = queue_discard_from cb n 0 in (cb', to_int count)

pub queue_clear_from_push_end : QueueCb → QueueCb
queue_clear_from_push_end cb = record cb { m_write = cb.m_read }

pub queue_clear_from_pop_end : QueueCb → QueueCb
queue_clear_from_pop_end cb = record cb { m_read = cb.m_write }

pub queue_isempty : QueueCb → Bool
queue_isempty cb = cb.m_write == cb.m_read

pub queue_isfull : QueueCb → Bool
queue_isfull cb = next_index cb cb.m_write == cb.m_read
