-- ===== src/Tcp/Connect.antt =====
-- The three-way handshake through `tcp_input` of src/tcp.c.
use mathlib.Core.Path.{subst}
use xstack_io.Prelude.{
  ℕ, ◌+◌, ◌<◌, ◌≤◌, ◌≡◌, ◌≢◌, refl, sym, ap, ◌∙◌, arith, List, [], ◌∷◌, ◌++◌, none, some, true,
  false, length, get_or, length-set, length-append, get_or-set_self, get_or-set_ne, ltb-false, u32,
}
use xstack_io.Prelude.Int.{ℤ, pos, is_neg}
use xstack_io.Prelude.Slices.{get_or-append_left, get_or-append_right}
use xstack_io.IpHdr.{IpHdr}
use xstack_io.SlotTree.{IsOrder}
use xstack_io.RbTree.Ordered.{RbTrees, OrderedLaws, IsRbTrees}
use xstack_io.Tcp.{
  Sockaddr, TcpHdr, TcpConnAttr, TcpConnTcb, TcpState, listen, syn_rcvd, established, tcp_syn,
  tcp_ack,
}
use xstack_io.Tcp.Segment.{tcp_hdr_size, tcp_ntoh}
use xstack_io.Tcp.Fsm.{Outcome, has_flag, tcp_fsm}
use xstack_io.Tcp.Handshake.{handshake}
use xstack_io.Tcp.Input.{
  tcp_conn_cmp, TcpConns, new_conn, no_attr, attr_of, conn_at, put_conn, tcp_find_connection,
  tcp_new_connection, tcp_run, tcp_input,
}

module _ {T : Type 0} (memcmp : Sockaddr → Sockaddr → ℤ) (tree : RbTrees TcpConnAttr T)
    {P : TcpConnAttr → Type 0} (laws : OrderedLaws (tree (tcp_conn_cmp memcmp)) P) where
  -- The connection that a SYN makes, in the state TCP_LISTEN.
  abbrev listening : TcpConnAttr → TcpConns T → TcpConns T
  listening attr s =
      let (i, s') = tcp_new_connection memcmp tree attr s in
      put_conn memcmp tree i (record (conn_at memcmp tree s' i) { state = listen }) s'

  -- The table after a run of the state machine.
  abbrev ran : ℕ → TcpHdr → TcpConns T → TcpConns T
  ran i tcp s = put_conn memcmp tree i (tcp_fsm (conn_at memcmp tree s i) tcp).conn s

  -- The two branches that run the state machine: the value and the table.
  abbrev outcome : ℤ × TcpHdr × TcpConns T → ℤ × TcpConns T
  outcome (retval, net, s) = (retval, s)

  input_syn :
      (ip_hdr : IpHdr) (net : TcpHdr) (rest : List ℕ) (bsize : ℕ) (s : TcpConns T)
      → 20 ≤ bsize
      → (tree (tcp_conn_cmp memcmp)).find (attr_of ip_hdr net) s.tcp_conn_map ≡ none
      → has_flag (tcp_ntoh net) tcp_syn ≡ true
      → let s' = listening (attr_of ip_hdr net) s in
        outcome (tcp_input memcmp tree ip_hdr net rest bsize s) ≡ (
          (tcp_fsm (conn_at memcmp tree s' (length s.conns)) (tcp_ntoh net)).retval,
          ran (length s.conns) (tcp_ntoh net) s',
        )
  unfolding tcp_input tcp_find_connection tcp_new_connection tcp_run
  input_syn ip_hdr net rest bsize s long absent syn =
      rw
        (
          tcp_input,
          tcp_find_connection,
          tcp_new_connection,
          tcp_run,
          ltb-false bsize 20 long,
          absent,
          syn,
        )
        refl

  input_known :
      (ip_hdr : IpHdr) (net : TcpHdr) (rest : List ℕ) (bsize i : ℕ) (s : TcpConns T)
      → 20 ≤ bsize
      → (tree (tcp_conn_cmp memcmp)).find (attr_of ip_hdr net) s.tcp_conn_map ≡ some i
      → has_flag (tcp_ntoh net) tcp_syn ≡ false
      → is_neg (tcp_hdr_size (tcp_ntoh net)) ≡ false
      → outcome (tcp_input memcmp tree ip_hdr net rest bsize s)
        ≡ ((tcp_fsm (conn_at memcmp tree s i) (tcp_ntoh net)).retval, ran i (tcp_ntoh net) s)
  unfolding tcp_input tcp_find_connection tcp_run
  input_known ip_hdr net rest bsize i s long found no_syn sized =
      rw (tcp_input, tcp_find_connection, tcp_run, ltb-false bsize 20 long, found, no_syn, sized)
        refl

  -- The new connection, and the others.
  listening_conn :
      (attr : TcpConnAttr) (s : TcpConns T)
      → conn_at memcmp tree (listening attr s) (length s.conns)
        ≡ record (new_conn attr) { state = listen }
  unfolding tcp_new_connection
  listening_conn attr s =
      get_or-set_self (s.conns ++ (new_conn attr ∷ [])) (length s.conns) _ (new_conn no_attr)
        (omega (arith, length-append s.conns (new_conn attr ∷ [])))
      ∙ ap (λ (c : TcpConnTcb). record c { state = listen }) last
    where
      last :
          get_or (s.conns ++ (new_conn attr ∷ [])) (length s.conns) (new_conn no_attr)
          ≡ new_conn attr
      last =
          ap (λ k. get_or (s.conns ++ (new_conn attr ∷ [])) k (new_conn no_attr)) (omega arith)
          ∙ get_or-append_right s.conns (new_conn attr ∷ []) 0 (new_conn no_attr)

  listening_other :
      (attr : TcpConnAttr) (s : TcpConns T) (j : ℕ)
      → j < length s.conns
      → conn_at memcmp tree (listening attr s) j ≡ conn_at memcmp tree s j
  unfolding tcp_new_connection
  listening_other attr s j low =
      get_or-set_ne (s.conns ++ (new_conn attr ∷ [])) (length s.conns) j _ (new_conn no_attr)
        (λ e. omega (arith, e, low))
      ∙ get_or-append_left s.conns (new_conn attr ∷ []) j (new_conn no_attr) low

  ran_conn :
      (i : ℕ) (tcp : TcpHdr) (s : TcpConns T)
      → i < length s.conns
      → conn_at memcmp tree (ran i tcp s) i ≡ (tcp_fsm (conn_at memcmp tree s i) tcp).conn
  ran_conn i tcp s inside = get_or-set_self s.conns i _ (new_conn no_attr) inside

  ran_other :
      (i j : ℕ) (tcp : TcpHdr) (s : TcpConns T)
      → j < i
      → conn_at memcmp tree (ran i tcp s) j ≡ conn_at memcmp tree s j
  ran_other i j tcp s low =
      get_or-set_ne s.conns i j _ (new_conn no_attr) (λ e. omega (arith, e, low))

  length-listening :
      (attr : TcpConnAttr) (s : TcpConns T) → length (listening attr s).conns ≡ length s.conns + 1
  unfolding tcp_new_connection
  length-listening attr s =
      length-set (s.conns ++ (new_conn attr ∷ [])) (length s.conns) _
      ∙ length-append s.conns (new_conn attr ∷ [])

  -- The table `s'` has the connection, in a state, and the others as in `s`.
  pub record Connected (attr : TcpConnAttr) (state : TcpState) (s s' : TcpConns T) : Type 0 where
    pub found : (tree (tcp_conn_cmp memcmp)).find attr s'.tcp_conn_map ≡ some (length s.conns)
    pub state_of : (conn_at memcmp tree s' (length s.conns)).state ≡ state
    pub others :
        (q : TcpConnAttr)
        → P q
        → q ≢ attr
        → (tree (tcp_conn_cmp memcmp)).find q s'.tcp_conn_map
          ≡ (tree (tcp_conn_cmp memcmp)).find q s.tcp_conn_map
    pub fits : laws.Fits s'.tcp_conn_map
    pub kept : (j : ℕ) → j < length s.conns → conn_at memcmp tree s' j ≡ conn_at memcmp tree s j

  module _ (attr : TcpConnAttr) (s : TcpConns T) (syn next : TcpHdr) where
    abbrev made : ℕ
    made = length s.conns

    abbrev received_syn : TcpConns T
    received_syn = ran made syn (listening attr s)

    in_listening : made < length (listening attr s).conns
    in_listening = omega (arith, length-listening attr s)

    in_received : made < length received_syn.conns
    in_received =
        rw
          (length-set (listening attr s).conns made
            (tcp_fsm (conn_at memcmp tree (listening attr s) made) syn).conn)
          in_listening

    new_links :
        laws.Fits s.tcp_conn_map
        → P attr
        → (tree (tcp_conn_cmp memcmp)).find attr s.tcp_conn_map ≡ none
        → ((tree (tcp_conn_cmp memcmp)).find attr (listening attr s).tcp_conn_map ≡ some made)
          × ((q : TcpConnAttr)
              → P q
              → q ≢ attr
              → (tree (tcp_conn_cmp memcmp)).find q (listening attr s).tcp_conn_map
                ≡ (tree (tcp_conn_cmp memcmp)).find q s.tcp_conn_map)
    unfolding tcp_new_connection
    new_links fits p absent = (
      laws.insert_free attr made s.tcp_conn_map fits p absent,
      λ q p' ne. laws.insert_other attr q made s.tcp_conn_map fits p p' ne,
    )

    -- What the two runs of the state machine make of the new connection.
    two_runs :
        has_flag syn tcp_syn ≡ true
        → has_flag next tcp_ack ≡ true
        → next.tcp_seqno ≡ u32 (syn.tcp_seqno + 1)
        → next.tcp_ack_num ≡ 1
        → ((tcp_fsm (conn_at memcmp tree (listening attr s) made) syn).retval ≡ tcp_hdr_size syn)
          × ((conn_at memcmp tree received_syn made).state ≡ syn_rcvd)
          × ((tcp_fsm (conn_at memcmp tree received_syn made) next).retval ≡ pos 0)
          × ((conn_at memcmp tree (ran made next received_syn) made).state ≡ established)
    two_runs flag acks seq num =
        let listens : (conn_at memcmp tree (listening attr s) made).state ≡ listen =
          ap (λ (c : TcpConnTcb). c.state) (listening_conn attr s) in
        let (state1, size1, _, _, _, _, accepts) =
          handshake (conn_at memcmp tree (listening attr s) made) syn next listens flag in
        let one = ran_conn made syn (listening attr s) in_listening in
        let two = ap (λ c. tcp_fsm c next) one ∙ accepts.1 (acks, seq, num) in
        (
          size1,
          ap (λ (c : TcpConnTcb). c.state) one ∙ state1,
          ap (λ (o : Outcome). o.retval) two,
          ap (λ (c : TcpConnTcb). c.state) (ran_conn made next received_syn in_received)
              ∙ ap (λ (o : Outcome). o.conn.state) two,
        )

    new-Fits : laws.Fits s.tcp_conn_map → P attr → laws.Fits (listening attr s).tcp_conn_map
    unfolding tcp_new_connection
    new-Fits fits p = laws.Fits-insert attr made s.tcp_conn_map fits p

    links :
        laws.Fits s.tcp_conn_map
        → P attr
        → (tree (tcp_conn_cmp memcmp)).find attr s.tcp_conn_map ≡ none
        → (state : TcpState) (s' : TcpConns T) → s'.tcp_conn_map ≡ (listening attr s).tcp_conn_map
        → (conn_at memcmp tree s' made).state ≡ state
        → ((j : ℕ) → j < made → conn_at memcmp tree s' j ≡ conn_at memcmp tree (listening attr s) j)
        → Connected attr state s s'
    links fits p absent state s' same at kept = record {
      found = ap ((tree (tcp_conn_cmp memcmp)).find attr) same ∙ (new_links fits p absent).0;
      state_of = at;
      others = λ q p' ne.
          ap ((tree (tcp_conn_cmp memcmp)).find q) same ∙ (new_links fits p absent).1 q p' ne;
      fits = subst laws.Fits (sym same) (new-Fits fits p);
      kept = λ j low. kept j low ∙ listening_other attr s j low;
    }

module _ {T : Type 0} (memcmp : Sockaddr → Sockaddr → ℤ) (tree : RbTrees TcpConnAttr T)
    (promise : IsRbTrees tree) {P : TcpConnAttr → Type 0}
    (order : IsOrder P (tcp_conn_cmp memcmp)) where
  abbrev pub conn_laws : OrderedLaws (tree (tcp_conn_cmp memcmp)) P
  conn_laws = promise P (tcp_conn_cmp memcmp) order

  -- Let the comparison of the connections order the addresses in use, those of a SYN among them, and
  -- let no connection be known for these. `tcp_input` makes one, in the state TCP_SYN_RCVD, and returns
  -- the size of the SYN's header for the reply. A next segment of the same addresses and a valid
  -- header size, with ACK and without SYN, that acknowledges sequence number 1 and continues after the
  -- SYN, then makes the connection established and is not answered. The other connections stay as they
  -- are, and those in use are found as before.
  pub tcp_input_handshake :
      (s : TcpConns T) (ip_hdr ip_hdr' : IpHdr) (syn next : TcpHdr) (rest rest' : List ℕ)
      (bsize bsize' : ℕ)
      → conn_laws.Fits s.tcp_conn_map
      → P (attr_of ip_hdr syn)
      → 20 ≤ bsize
      → 20 ≤ bsize'
      → (tree (tcp_conn_cmp memcmp)).find (attr_of ip_hdr syn) s.tcp_conn_map ≡ none
      → has_flag (tcp_ntoh syn) tcp_syn ≡ true
      → attr_of ip_hdr' next ≡ attr_of ip_hdr syn
      → has_flag (tcp_ntoh next) tcp_syn ≡ false
      → has_flag (tcp_ntoh next) tcp_ack ≡ true
      → is_neg (tcp_hdr_size (tcp_ntoh next)) ≡ false
      → (tcp_ntoh next).tcp_seqno ≡ u32 ((tcp_ntoh syn).tcp_seqno + 1)
      → (tcp_ntoh next).tcp_ack_num ≡ 1
      → let (retval, reply, s1) = tcp_input memcmp tree ip_hdr syn rest bsize s in
        let (retval', left, s2) = tcp_input memcmp tree ip_hdr' next rest' bsize' s1 in
        (retval ≡ tcp_hdr_size (tcp_ntoh syn))
        × Connected memcmp tree conn_laws (attr_of ip_hdr syn) syn_rcvd s s1
        × (retval' ≡ pos 0)
        × Connected memcmp tree conn_laws (attr_of ip_hdr syn) established s s2
  tcp_input_handshake s ip_hdr ip_hdr' syn next rest rest' bsize bsize' fits p long long' absent
        flag same no_syn acks sized seq num =
      let attr = attr_of ip_hdr syn in
      let run1 = input_syn memcmp tree conn_laws ip_hdr syn rest bsize s long absent flag in
      let (size1, state1, zero2, state2) =
        two_runs memcmp tree conn_laws attr s (tcp_ntoh syn) (tcp_ntoh next) flag acks seq num in
      let first : TcpConns T =
        received_syn memcmp tree conn_laws attr s (tcp_ntoh syn) (tcp_ntoh next) in
      let second : TcpConns T = ran memcmp tree conn_laws (length s.conns) (tcp_ntoh next) first in
      let s1 = (tcp_input memcmp tree ip_hdr syn rest bsize s).2 in
      let eq1 : s1 ≡ first = ap (λ o. o.1) run1 in
      let con1 : Connected memcmp tree conn_laws attr syn_rcvd s first =
        links memcmp tree conn_laws attr s (tcp_ntoh syn) (tcp_ntoh next) fits p absent syn_rcvd
          first refl state1
          (λ j low.
            ran_other memcmp tree conn_laws (length s.conns) j (tcp_ntoh syn)
              (listening memcmp tree conn_laws attr s) low) in
      let con2 : Connected memcmp tree conn_laws attr established s second =
        links memcmp tree conn_laws attr s (tcp_ntoh syn) (tcp_ntoh next) fits p absent established
          second refl state2
          (λ j low.
            ran_other memcmp tree conn_laws (length s.conns) j (tcp_ntoh next) first low
            ∙ ran_other memcmp tree conn_laws (length s.conns) j (tcp_ntoh syn)
                (listening memcmp tree conn_laws attr s) low) in
      let known : (tree (tcp_conn_cmp memcmp)).find (attr_of ip_hdr' next) first.tcp_conn_map
          ≡ some (length s.conns) =
        ap (λ a. (tree (tcp_conn_cmp memcmp)).find a first.tcp_conn_map) same ∙ con1.found in
      let run2 =
        ap (λ t. outcome memcmp tree conn_laws (tcp_input memcmp tree ip_hdr' next rest' bsize' t))
          eq1
        ∙ input_known memcmp tree conn_laws ip_hdr' next rest' bsize' (length s.conns) first long'
            known no_syn sized in
      (
        ap (λ o. o.0) run1 ∙ size1,
        subst (Connected memcmp tree conn_laws attr syn_rcvd s) (sym eq1) con1,
        ap (λ o. o.0) run2 ∙ zero2,
        subst (Connected memcmp tree conn_laws attr established s) (sym (ap (λ o. o.1) run2)) con2,
      )
