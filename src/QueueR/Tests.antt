-- ===== src/QueueR/Tests.antt =====
-- Runs of the queue, and the theorems at them.
use xstack_io.Prelude.{ℕ, ◌+◌, ◌<◌, ◌≤◌, ◌≡◌, ◌≢◌, refl, arith, [], ◌∷◌, ◌++◌, ◌⊎◌, none, some}
use xstack_io.Prelude.Int.{ℤ, pos, negsuc}
use xstack_io.QueueR.{
  QueueCb, queue_create, queue_alloc, queue_commit, queue_peek, queue_discard,
  queue_clear_from_push_end, queue_clear_from_pop_end,
}
use xstack_io.QueueR.Ring.{update}
use xstack_io.QueueR.Valid.{IsValid, depth, queue_create-IsValid, operations-IsValid}
use xstack_io.QueueR.Fifo.{contents, queue_alloc_lem, queue_peek_lem, contents-commit}
use xstack_io.QueueR.Spsc.{
  System, idle, reserved, waiting, peeked, alloc, fill, commit, peek, Reach, here, next, Start,
  spsc_in_order, spsc_no_race,
}

-- Four blocks of 4096 bytes, as config.h has them.
abbrev fresh : QueueCb
fresh = record { b_size = 4096; a_len = 4; m_write = 0; m_read = 0 }

-- Two blocks, at the indices 3 and 0.
abbrev wrapped : QueueCb
wrapped = record { b_size = 4096; a_len = 4; m_write = 1; m_read = 3 }

abbrev blocks : ℤ → ℕ
blocks = update (update (λ _. 0) (pos 12288) 7) (pos 0) 8

created : queue_create 4096 16384 ≡ fresh
unfolding queue_create
created = refl

full_at_three : queue_alloc (record fresh { m_write = 3 }) ≡ negsuc 0
unfolding queue_alloc
full_at_three = refl

fresh-IsValid : IsValid fresh
fresh-IsValid = omega arith

wrapped-IsValid : IsValid wrapped
wrapped-IsValid = omega arith

wrapped-contents : contents wrapped blocks ≡ 7 ∷ 8 ∷ []
wrapped-contents = refl

queue_create-IsValid_example :
    IsValid (queue_create 4096 16384) × (depth (queue_create 4096 16384) ≡ 0)
queue_create-IsValid_example =
    queue_create-IsValid 4096 16384 (omega arith) (omega arith) (omega arith)

operations-IsValid_example :
    IsValid (queue_commit wrapped)
    × IsValid (queue_discard wrapped 5).0
    × IsValid (queue_clear_from_push_end wrapped)
    × IsValid (queue_clear_from_pop_end wrapped)
operations-IsValid_example = operations-IsValid 5 wrapped-IsValid

queue_alloc_lem_example :
    ((depth wrapped + 1 ≡ 4) × (queue_alloc wrapped ≡ negsuc 0))
    ⊎ ((depth wrapped + 1 < 4) × (queue_alloc wrapped ≡ pos 4096) × (8192 ≤ 16384))
queue_alloc_lem_example = queue_alloc_lem wrapped-IsValid

queue_peek_lem_example :
    ((depth wrapped ≡ 0) × (queue_peek wrapped ≡ none))
    ⊎ ((0 < depth wrapped) × (queue_peek wrapped ≡ some (pos 12288)))
queue_peek_lem_example = queue_peek_lem wrapped-IsValid

contents-commit_example : contents (queue_commit wrapped) blocks ≡ (7 ∷ 8 ∷ []) ++ (0 ∷ [])
contents-commit_example = contents-commit blocks wrapped-IsValid (omega arith)

abbrev start : System ℕ
start = record {
  cb = fresh;
  mem = λ _. 0;
  pusher = idle;
  popper = waiting;
  sent = [];
  received = [];
}

start-Start : Start start
start-Start = record {
  valid = fresh-IsValid;
  empty = refl;
  no_push = refl;
  no_pop = refl;
  none_sent = refl;
  none_received = refl;
}

-- One block goes through; then the next is reserved, and the first is looked at.
abbrev pushed : System ℕ
pushed = record start {
  cb = record fresh { m_write = 1 };
  mem = update (λ _. 0) (pos 0) 5;
  sent = 5 ∷ [];
}

abbrev both : System ℕ
both = record pushed { pusher = reserved (pos 4096); popper = peeked (pos 0) }

start_to_pushed : Reach start pushed
unfolding queue_alloc queue_commit
start_to_pushed =
    next (next (next here (alloc (pos 0) refl refl (λ e. cc) refl)) (fill (pos 0) 5 refl refl))
      (commit (pos 0) 5 refl refl)

start_to_both : Reach start both
unfolding queue_alloc queue_peek
start_to_both =
    next (next start_to_pushed (alloc (pos 4096) refl refl (λ e. cc) refl))
      (peek (pos 0) refl refl refl)

spsc_in_order_example : [] ++ contents both.cb both.mem ≡ 5 ∷ []
spsc_in_order_example = spsc_in_order start-Start start_to_both

spsc_no_race_example : pos 4096 ≢ pos 0
spsc_no_race_example = spsc_no_race (pos 4096) (pos 0) start-Start start_to_both refl refl
