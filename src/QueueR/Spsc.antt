-- ===== src/QueueR/Spsc.antt =====
-- One pushing and one popping thread on a queue, in every interleaving of the calls and of the
-- accesses to the data area: `xstack_sock_dgram_input` against `xstack_recvfrom`, and
-- `xstack_sendto` against `xstack_egress_thread`. Each call of queue_r.c is one step; a call that
-- finds the queue full or empty is repeated by its caller and is no step.
use xstack_io.Prelude.{
  ◌+◌, ◌*◌, ◌<◌, ◌≡◌, ◌≢◌, refl, some, arith, List, [], ◌∷◌, ◌++◌, inl, inr, ap, ◌∙◌, sym,
  append_assoc,
}
use xstack_io.Prelude.Int.{ℤ, pos, pos_part, negsuc}
use xstack_io.QueueR.{QueueCb, queue_alloc, queue_commit, queue_peek, queue_discard, next_index}
use xstack_io.QueueR.Ring.{scale_ne, update_ne, update, update_self}
use xstack_io.QueueR.Valid.{IsValid, depth, operations-IsValid, queue_commit-IsValid}
use xstack_io.QueueR.Fifo.{
  read-ne-write, queue_discard-one, depth-commit, contents-read, contents-fill, contents-nil,
  contents, queue_alloc_lem, queue_peek_lem, contents-commit,
}

-- Where the pushing thread stands: before `queue_alloc`, with an offset, with the block written.
pub data Pusher (A : Type 0) : Type 0 where
  idle : Pusher A
  reserved : ℤ → Pusher A
  filled : ℤ → A → Pusher A

-- Where the popping thread stands: before `queue_peek`, with an offset, with the block read.
pub data Popper (A : Type 0) : Type 0 where
  waiting : Popper A
  peeked : ℤ → Popper A
  taken : ℤ → A → Popper A

-- `sent` and `received` record what went through, for the statements only.
pub record System (A : Type 0) : Type 0 where
  pub cb : QueueCb
  pub mem : ℤ → A
  pub pusher : Pusher A
  pub popper : Popper A
  pub sent : List A
  pub received : List A

module _ {A : Type 0} where
  pub data Step (s : System A) (t : System A) : Type 0 where
    alloc :
        (off : ℤ)
        → s.pusher ≡ idle
        → queue_alloc s.cb ≡ off
        → off ≢ negsuc 0
        → t ≡ record s { pusher = reserved off }
        → Step s t
    fill :
        (off : ℤ) (x : A)
        → s.pusher ≡ reserved off
        → t ≡ record s { mem = update s.mem off x; pusher = filled off x }
        → Step s t
    commit :
        (off : ℤ) (x : A)
        → s.pusher ≡ filled off x
        → t ≡ record s { cb = queue_commit s.cb; pusher = idle; sent = s.sent ++ (x ∷ []) }
        → Step s t
    peek :
        (off : ℤ)
        → s.popper ≡ waiting
        → queue_peek s.cb ≡ some off
        → t ≡ record s { popper = peeked off }
        → Step s t
    read :
        (off : ℤ)
        → s.popper ≡ peeked off
        → t ≡ record s { popper = taken off (s.mem off) }
        → Step s t
    discard :
        (off : ℤ) (x : A)
        → s.popper ≡ taken off x
        → t ≡ record s {
          cb = (queue_discard s.cb 1).0;
          popper = waiting;
          received = s.received ++ (x ∷ []);
        }
        → Step s t

  pub data Reach (s : System A) : System A → Type 0 where
    here : Reach s s
    next : {t u : System A} → Reach s t → Step t u → Reach s u

  -- A reserved block lies at the write index, with room for it; a written one holds its value.
  abbrev pub PusherOk : QueueCb → (ℤ → A) → Pusher A → Type 0
  PusherOk cb mem idle = Unit {0}
  PusherOk cb mem (reserved off) = (off ≡ pos (cb.m_write * cb.b_size)) × (depth cb + 1 < cb.a_len)
  PusherOk cb mem (filled off x) =
      (off ≡ pos (cb.m_write * cb.b_size)) × (depth cb + 1 < cb.a_len) × (mem off ≡ x)

  -- A peeked block is the oldest; a read one has its value.
  abbrev pub PopperOk : QueueCb → (ℤ → A) → Popper A → Type 0
  PopperOk cb mem waiting = Unit {0}
  PopperOk cb mem (peeked off) = (off ≡ pos (cb.m_read * cb.b_size)) × (0 < depth cb)
  PopperOk cb mem (taken off x) =
      (off ≡ pos (cb.m_read * cb.b_size)) × (0 < depth cb) × (mem off ≡ x)

  pub record Inv (s : System A) : Type 0 where
    pub valid : IsValid s.cb
    pub pushing : PusherOk s.cb s.mem s.pusher
    pub popping : PopperOk s.cb s.mem s.popper
    pub in_order : s.received ++ contents s.cb s.mem ≡ s.sent

  -- The thread at the other end does not disturb what a thread has reserved or read.
  PopperOk-fill :
      {cb : QueueCb} (mem : ℤ → A) (p : Popper A) (x : A)
      → IsValid cb
      → PopperOk cb mem p
      → PopperOk cb (update mem (pos (cb.m_write * cb.b_size)) x) p
  PopperOk-fill mem waiting x v h = tt
  PopperOk-fill mem (peeked off) x v h = h
  PopperOk-fill {cb} mem (taken off y) x v (e, some_left, held) = (
    e,
    some_left,
    rw e (
        update_ne mem cb.b_size cb.m_read cb.m_write x v.block (read-ne-write v some_left)
        ∙ ap mem (sym e)
        ∙ held),
  )

  PopperOk-commit :
      {cb : QueueCb} (mem : ℤ → A) (p : Popper A)
      → IsValid cb
      → depth cb + 1 < cb.a_len
      → PopperOk cb mem p
      → PopperOk (queue_commit cb) mem p
  unfolding queue_commit
  PopperOk-commit mem waiting v room h = tt
  PopperOk-commit mem (peeked off) v room h = (h.0, omega (arith, depth-commit v room))
  PopperOk-commit mem (taken off x) v room h = (h.0, omega (arith, depth-commit v room), h.2)

  PusherOk-discard :
      {cb : QueueCb} (mem : ℤ → A) (p : Pusher A)
      → IsValid cb
      → 0 < depth cb
      → PusherOk cb mem p
      → PusherOk (queue_discard cb 1).0 mem p
  PusherOk-discard mem idle v some_left h = tt
  PusherOk-discard mem (reserved off) v some_left h =
      rw (queue_discard-one v some_left).0 (h.0, omega (arith, (queue_discard-one v some_left).1))
  PusherOk-discard mem (filled off x) v some_left h =
      rw (queue_discard-one v some_left).0
        (h.0, omega (arith, (queue_discard-one v some_left).1), h.2)

  alloc-PusherOk :
      {cb : QueueCb} (mem : ℤ → A) (off : ℤ)
      → IsValid cb
      → queue_alloc cb ≡ off
      → off ≢ negsuc 0
      → PusherOk cb mem (reserved off)
  alloc-PusherOk mem off v e ne = elim (queue_alloc_lem v) [
    | inl full ↦ absurd (ne (sym e ∙ full.1))
    | inr room ↦ (sym e ∙ room.1, room.0)
  ]

  peek-PopperOk :
      {cb : QueueCb} (mem : ℤ → A) (off : ℤ)
      → IsValid cb
      → queue_peek cb ≡ some off
      → PopperOk cb mem (peeked off)
  peek-PopperOk mem off v e = elim (queue_peek_lem v) [
    | inl empty ↦ cc (e, empty.1)
    | inr left ↦ (cc (e, left.1), left.0)
  ]

  -- Every step keeps the invariant.
  pub Step-Inv : {s t : System A} → Step s t → Inv s → Inv t
  Step-Inv {s} (alloc off at e ne e') i = rw e' (record {
    valid = i.valid;
    pushing = alloc-PusherOk s.mem off i.valid e ne;
    popping = i.popping;
    in_order = i.in_order;
  })
  Step-Inv {s} (fill off x at e') i =
      let h : PusherOk s.cb s.mem (reserved off) = rw at at i.pushing in
      rw (e', h.0)
        (record {
          valid = i.valid;
          pushing = (refl, h.1, update_self s.mem (s.cb.m_write * s.cb.b_size) x);
          popping = PopperOk-fill s.mem s.popper x i.valid i.popping;
          in_order = ap (λ l. s.received ++ l) (contents-fill s.mem x i.valid) ∙ i.in_order;
        })
  Step-Inv {s} (commit off x at e') i =
      let h : PusherOk s.cb s.mem (filled off x) = rw at at i.pushing in
      rw e' (record {
        valid = queue_commit-IsValid i.valid;
        pushing = tt;
        popping = PopperOk-commit s.mem s.popper i.valid h.1 i.popping;
        in_order =
            ap (λ l. s.received ++ l)
              (contents-commit s.mem i.valid h.1
                ∙ ap (λ y. contents s.cb s.mem ++ (y ∷ [])) (ap s.mem (sym h.0) ∙ h.2))
            ∙ sym (append_assoc s.received (contents s.cb s.mem) (x ∷ []))
            ∙ ap (λ l. l ++ (x ∷ [])) i.in_order;
      })
  Step-Inv {s} (peek off at e e') i = rw e' (record {
    valid = i.valid;
    pushing = i.pushing;
    popping = peek-PopperOk s.mem off i.valid e;
    in_order = i.in_order;
  })
  Step-Inv {s} (read off at e') i =
      let h : PopperOk s.cb s.mem (peeked off) = rw at at i.popping in
      rw e' (record {
        valid = i.valid;
        pushing = i.pushing;
        popping = (h.0, h.1, refl);
        in_order = i.in_order;
      })
  Step-Inv {s} (discard off x at e') i =
      let h : PopperOk s.cb s.mem (taken off x) = rw at at i.popping in
      rw e' (record {
        valid = (operations-IsValid 1 i.valid).1;
        pushing = PusherOk-discard s.mem s.pusher i.valid h.1 i.pushing;
        popping = tt;
        in_order =
            append_assoc s.received (x ∷ []) (contents (queue_discard s.cb 1).0 s.mem)
            ∙ ap (λ l. s.received ++ l)
                (ap (λ cb. x ∷ contents cb s.mem) (queue_discard-one i.valid h.1).0
                  ∙ ap
                      (λ y.
                        y ∷ contents (record s.cb { m_read = next_index s.cb s.cb.m_read }) s.mem)
                      (sym h.2 ∙ ap s.mem h.0)
                  ∙ sym (contents-read s.mem i.valid (read-ne-write i.valid h.1)))
            ∙ i.in_order;
      })

  pub Reach-Inv : {s t : System A} → Inv s → Reach s t → Inv t
  Reach-Inv i here = i
  Reach-Inv i (next r st) = Step-Inv st (Reach-Inv i r)

  -- A system in which no thread is at work and nothing was sent.
  pub record Start (s : System A) : Type 0 where
    pub valid : IsValid s.cb
    pub empty : s.cb.m_read ≡ s.cb.m_write
    pub no_push : s.pusher ≡ idle
    pub no_pop : s.popper ≡ waiting
    pub none_sent : s.sent ≡ []
    pub none_received : s.received ≡ []

  Start-Inv : {s : System A} → Start s → Inv s
  Start-Inv {s} st = record {
    valid = st.valid;
    pushing = rw st.no_push tt;
    popping = rw st.no_pop tt;
    in_order = rw (st.none_sent, st.none_received) (contents-nil s.mem st.valid st.empty);
  }

  -- From an empty queue, in every interleaving of one pushing and one popping thread, the blocks
  -- received, followed by those stored, are the blocks sent, in order and unaltered.
  pub spsc_in_order :
      {s t : System A} → Start s → Reach s t → t.received ++ contents t.cb t.mem ≡ t.sent
  spsc_in_order st r = (Reach-Inv (Start-Inv st) r).in_order

  -- The block that the pushing thread writes is never the one that the popping thread reads.
  pub spsc_no_race :
      {s t : System A} (i j : ℤ)
      → Start s
      → Reach s t
      → t.pusher ≡ reserved i
      → t.popper ≡ peeked j
      → i ≢ j
  spsc_no_race {t = t} i j st r ei ej =
      let inv = Reach-Inv (Start-Inv st) r in
      let h : PusherOk t.cb t.mem (reserved i) = rw ei at inv.pushing in
      let g : PopperOk t.cb t.mem (peeked j) = rw ej at inv.popping in
      λ e.
        scale_ne t.cb.b_size t.cb.m_read t.cb.m_write inv.valid.block (read-ne-write inv.valid g.1)
          (ap pos_part (sym g.0 ∙ sym e ∙ h.0))
