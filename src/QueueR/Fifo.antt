-- ===== src/QueueR/Fifo.antt =====
-- The control block and its data area behave as a first-in first-out list of at most `a_len - 1`
-- blocks.
use xstack_io.Prelude.{
  ℕ, zero, suc, ◌+◌, ◌-◌, ◌*◌, ◌%◌, ◌≤◌, ◌<◌, min, ◌≡◌, ◌≢◌, ◌↔◌, refl, true, none, some, arith,
  ◌==◌, List, [], ◌∷◌, ◌++◌, length, drop, ◌⊎◌, inl, inr, Bool-cases, ap, ◌∙◌, ==_iff, sym,
}
use xstack_io.Prelude.Int.{ℤ, pos, negsuc, to_int_small}
use native.Mathlib.Numerals.{add-one}
use xstack_io.QueueR.{
  QueueCb, next_index, queue_alloc, queue_commit, queue_peek, queue_discard_from, queue_discard,
  queue_clear_from_push_end, queue_clear_from_pop_end, queue_isempty, queue_isfull,
}
use xstack_io.QueueR.Ring.{
  next_cases, distance_cases, update, window, length-window, window-update, window-suc,
}
use xstack_io.QueueR.Valid.{
  IsValid, depth, a_len-lt, next_index_lem, next_index-lt, offset_lem, read_next-IsValid,
}

-- The blocks that are committed and not discarded, oldest first.
abbrev pub contents {ℓ} : {A : Type ℓ} → QueueCb → (ℤ → A) → List A
contents cb mem = window mem cb.b_size cb.a_len cb.m_read (depth cb)

pub length-contents {ℓ} :
    {A : Type ℓ} (cb : QueueCb) (mem : ℤ → A) → length (contents cb mem) ≡ depth cb
length-contents cb mem = length-window mem cb.b_size cb.a_len cb.m_read (depth cb)

pub depth-lt : {cb : QueueCb} → IsValid cb → depth cb < cb.a_len
depth-lt v = omega (arith, v.write_in)

pub depth-commit :
    {cb : QueueCb} → IsValid cb → depth cb + 1 < cb.a_len → depth (queue_commit cb) ≡ depth cb + 1
unfolding queue_commit
depth-commit {cb} v room = omega (
  arith,
  next_index_lem v cb.m_write v.write_in,
  next_cases cb.a_len cb.m_write v.write_in,
  distance_cases cb.a_len cb.m_read cb.m_write v.read_in v.write_in,
  distance_cases cb.a_len cb.m_read (next_index cb cb.m_write) v.read_in
      (next_index-lt v cb.m_write),
)

depth-read :
    {cb : QueueCb}
    → IsValid cb
    → cb.m_read ≢ cb.m_write
    → depth cb ≡ depth (record cb { m_read = next_index cb cb.m_read }) + 1
depth-read {cb} v ne = omega (
  arith,
  next_index_lem v cb.m_read v.read_in,
  next_cases cb.a_len cb.m_read v.read_in,
  distance_cases cb.a_len cb.m_read cb.m_write v.read_in v.write_in,
  distance_cases cb.a_len (next_index cb cb.m_read) cb.m_write (next_index-lt v cb.m_read)
      v.write_in,
)

full_iff :
    {cb : QueueCb} → IsValid cb → (next_index cb cb.m_write ≡ cb.m_read) ↔ (depth cb + 1 ≡ cb.a_len)
full_iff {cb} v = ((λ e. omega (arith, facts)), (λ e. omega (arith, facts)))
  where
    facts :
        (next_index cb cb.m_write ≡ (cb.m_write + 1) % cb.a_len)
        × (((cb.m_write + 1 < cb.a_len) × ((cb.m_write + 1) % cb.a_len ≡ cb.m_write + 1))
            ⊎ ((cb.m_write + 1 ≡ cb.a_len) × ((cb.m_write + 1) % cb.a_len ≡ 0)))
        × (((cb.m_read ≤ cb.m_write) × (depth cb ≡ cb.m_write - cb.m_read))
            ⊎ ((cb.m_write < cb.m_read) × (depth cb ≡ cb.m_write + cb.a_len - cb.m_read)))
    facts = (
      next_index_lem v cb.m_write v.write_in,
      next_cases cb.a_len cb.m_write v.write_in,
      distance_cases cb.a_len cb.m_read cb.m_write v.read_in v.write_in,
    )

empty_iff : {cb : QueueCb} → IsValid cb → (cb.m_read ≡ cb.m_write) ↔ (depth cb ≡ 0)
empty_iff {cb} v = (
  (λ e.
      omega (arith, distance_cases cb.a_len cb.m_read cb.m_write v.read_in v.write_in, v.read_in)),
  (λ e.
      omega (arith, distance_cases cb.a_len cb.m_read cb.m_write v.read_in v.write_in, v.read_in)),
)

-- `queue_alloc` returns -1 exactly when `a_len - 1` blocks are stored, and else the offset of the
-- block at the write index, which lies in the array.
pub queue_alloc_lem :
    {cb : QueueCb}
    → IsValid cb
    → ((depth cb + 1 ≡ cb.a_len) × (queue_alloc cb ≡ negsuc 0))
      ⊎ ((depth cb + 1 < cb.a_len)
          × (queue_alloc cb ≡ pos (cb.m_write * cb.b_size))
          × (cb.m_write * cb.b_size + cb.b_size ≤ cb.a_len * cb.b_size))
unfolding queue_alloc
queue_alloc_lem {cb} v = elim (Bool-cases (next_index cb cb.m_write == cb.m_read)) [
  | inl full ↦ inl ((full_iff v).0 ((==_iff _ _).0 full), rw full)
  | inr room ↦
      let off = offset_lem v cb.m_write v.write_in in
      let ne : next_index cb cb.m_write ≢ cb.m_read = ground arith in
      inr (
        omega (arith, λ (e : depth cb + 1 ≡ cb.a_len). ne ((full_iff v).1 e), depth-lt v),
        rw room off.1,
        off.0,
      )
]

-- `queue_peek` returns 0 exactly when no block is stored, and else the offset of the oldest one.
pub queue_peek_lem :
    {cb : QueueCb}
    → IsValid cb
    → ((depth cb ≡ 0) × (queue_peek cb ≡ none))
      ⊎ ((0 < depth cb) × (queue_peek cb ≡ some (pos (cb.m_read * cb.b_size))))
unfolding queue_peek
queue_peek_lem {cb} v = elim (Bool-cases (cb.m_read == cb.m_write)) [
  | inl empty ↦ inl ((empty_iff v).0 ((==_iff _ _).0 empty), rw empty)
  | inr some_left ↦
      let ne : cb.m_read ≢ cb.m_write = ground arith in
      inr (
        omega (arith, λ (e : depth cb ≡ 0). ne ((empty_iff v).1 e)),
        rw some_left (ap some (offset_lem v cb.m_read v.read_in).1),
      )
]

module _ {ℓ} {A : Type ℓ} where
  -- A write at the write index leaves the stored blocks alone.
  pub contents-fill :
      {cb : QueueCb} (mem : ℤ → A) (x : A)
      → IsValid cb
      → contents cb (update mem (pos (cb.m_write * cb.b_size)) x) ≡ contents cb mem
  contents-fill {cb} mem x v =
      window-update mem cb.b_size cb.a_len cb.m_read (depth cb) cb.m_write x v.block v.read_in
        v.write_in (omega arith)

  -- `queue_commit` appends the block at the write index.
  pub contents-commit :
      {cb : QueueCb} (mem : ℤ → A)
      → IsValid cb
      → depth cb + 1 < cb.a_len
      → contents (queue_commit cb) mem
        ≡ contents cb mem ++ (mem (pos (cb.m_write * cb.b_size)) ∷ [])
  unfolding queue_commit
  contents-commit {cb} mem v room =
      ap (window mem cb.b_size cb.a_len cb.m_read) (depth-commit v room ∙ add-one _)
      ∙ window-suc mem cb.b_size cb.a_len cb.m_read (depth cb) cb.m_write v.read_in v.write_in refl

  -- The oldest block is the one at the offset of `queue_peek`.
  pub contents-read :
      {cb : QueueCb} (mem : ℤ → A)
      → IsValid cb
      → cb.m_read ≢ cb.m_write
      → contents cb mem
        ≡ mem (pos (cb.m_read * cb.b_size))
          ∷ contents (record cb { m_read = next_index cb cb.m_read }) mem
  contents-read {cb} mem v ne =
      let later = depth (record cb { m_read = next_index cb cb.m_read }) in
      ap (window mem cb.b_size cb.a_len cb.m_read) (depth-read v ne ∙ add-one _)
      ∙ ap (λ h. mem (pos (cb.m_read * cb.b_size)) ∷ window mem cb.b_size cb.a_len h later)
          (sym (next_index_lem v cb.m_read v.read_in))

  pub contents-nil :
      {cb : QueueCb} (mem : ℤ → A) → IsValid cb → cb.m_read ≡ cb.m_write → contents cb mem ≡ []
  contents-nil {cb} mem v e = ap (window mem cb.b_size cb.a_len cb.m_read) ((empty_iff v).0 e)

  discard_from_lem :
      (cb : QueueCb) (mem : ℤ → A) (n count : ℕ)
      → IsValid cb
      → (contents (queue_discard_from cb n count).0 mem ≡ drop n (contents cb mem))
        × ((queue_discard_from cb n count).1 ≡ count + min n (depth cb))
  unfolding queue_discard_from
  discard_from_lem cb mem zero count v = (refl, omega arith)
  discard_from_lem cb mem (suc n) count v = elim (Bool-cases (cb.m_read == cb.m_write)) [
    | inl e ↦
        let same : cb.m_read ≡ cb.m_write = (==_iff _ _).0 e in
        rw e (rw (contents-nil mem v same) refl, omega (arith, (empty_iff v).0 same))
    | inr e ↦
        let ne : cb.m_read ≢ cb.m_write = ground arith in
        let cb' : QueueCb = record cb { m_read = next_index cb cb.m_read } in
        let ih = discard_from_lem cb' mem n (count + 1) (read_next-IsValid v) in
        rw e (
          ih.0 ∙ ap (drop (suc n)) (sym (contents-read mem v ne)),
          omega (arith, ih.1, depth-read v ne),
        )
  ]

  -- `queue_discard` takes up to `n` of the oldest blocks away and returns how many it took.
  pub queue_discard_lem :
      (cb : QueueCb) (mem : ℤ → A) (n : ℕ)
      → IsValid cb
      → (contents (queue_discard cb n).0 mem ≡ drop n (contents cb mem))
        × ((queue_discard cb n).1 ≡ pos (min n (length (contents cb mem))))
  unfolding queue_discard
  queue_discard_lem cb mem n v =
      let r = discard_from_lem cb mem n 0 v in
      (
        r.0,
        to_int_small _ (omega (arith, r.1, depth-lt v, a_len-lt v))
            ∙ ap pos (omega (arith, r.1, length-contents cb mem)),
      )

-- The two tests and the two ways to clear: `queue_isempty` and `queue_isfull` say whether no block
-- and whether `a_len - 1` blocks are stored, and after either clearing no block is stored.
pub queue_state_lem :
    {cb : QueueCb}
    → IsValid cb
    → ((queue_isempty cb ≡ true) ↔ (depth cb ≡ 0))
      × ((queue_isfull cb ≡ true) ↔ (depth cb + 1 ≡ cb.a_len))
      × (depth (queue_clear_from_push_end cb) ≡ 0)
      × (depth (queue_clear_from_pop_end cb) ≡ 0)
unfolding queue_isempty queue_isfull queue_clear_from_push_end queue_clear_from_pop_end
queue_state_lem {cb} v = (
  (
    (λ e. (empty_iff v).0 (sym ((==_iff cb.m_write cb.m_read).0 e))),
    (λ e. (==_iff cb.m_write cb.m_read).1 (sym ((empty_iff v).1 e))),
  ),
  (
    (λ e. (full_iff v).0 ((==_iff (next_index cb cb.m_write) cb.m_read).0 e)),
    (λ e. (==_iff (next_index cb cb.m_write) cb.m_read).1 ((full_iff v).1 e)),
  ),
  omega (arith, distance_cases cb.a_len cb.m_read cb.m_read v.read_in v.read_in),
  omega (arith, distance_cases cb.a_len cb.m_write cb.m_write v.write_in v.write_in),
)

pub read-ne-write : {cb : QueueCb} → IsValid cb → 0 < depth cb → cb.m_read ≢ cb.m_write
read-ne-write v some_left e = omega (arith, (empty_iff v).0 e)

pub queue_discard-one :
    {cb : QueueCb}
    → IsValid cb
    → 0 < depth cb
    → ((queue_discard cb 1).0 ≡ record cb { m_read = next_index cb cb.m_read })
      × (depth cb ≡ depth (record cb { m_read = next_index cb cb.m_read }) + 1)
unfolding queue_discard queue_discard_from
queue_discard-one {cb} v some_left =
    let ne = read-ne-write v some_left in (ground arith, depth-read v ne)
