-- ===== src/Tcp/States.antt =====
-- The transition diagram of the connections that are opened from the other side.
use xstack_io.Prelude.{ℕ, ◌≤◌, arith, List, [], ◌∷◌}
use xstack_io.Tcp.{TcpHdr, TcpConnTcb, TcpState, closed, listen, syn_rcvd, established, last_ack}
use xstack_io.Tcp.Fsm.{tcp_fsm}

infix 40 ◌⟶◌
-- The moves of the diagram, with the flag that the segment must carry.
pub data ◌⟶◌ : TcpState → TcpState → Type 0 where
  stay : {s : TcpState} → s ⟶ s
  open_passive : listen ⟶ syn_rcvd
  acknowledged : syn_rcvd ⟶ established
  finished : established ⟶ last_ack
  gone : last_ack ⟶ closed

-- Every call follows an edge of the diagram, whatever the segment.
pub tcp_fsm-⟶ : (conn : TcpConnTcb) (rs : TcpHdr) → conn.state ⟶ (tcp_fsm conn rs).conn.state
unfolding tcp_fsm
tcp_fsm-⟶ conn rs = grind (arith, stay, open_passive, acknowledged, finished, gone)

-- A run of segments on one connection.
unfoldable pub fsm_run : TcpConnTcb → List TcpHdr → TcpConnTcb
fsm_run conn [] = conn
fsm_run conn (rs ∷ rest) = fsm_run (tcp_fsm conn rs).conn rest

-- How far a passively opened connection has come; the other states are not on its way.
abbrev pub progress : TcpState → ℕ
progress listen = 0
progress syn_rcvd = 1
progress established = 2
progress last_ack = 3
progress closed = 4
progress _ = 5

⟶-progress :
    {s t : TcpState} → s ⟶ t → progress s ≤ 4 → (progress s ≤ progress t) × (progress t ≤ 4)
⟶-progress stay h = omega arith
⟶-progress open_passive h = omega arith
⟶-progress acknowledged h = omega arith
⟶-progress finished h = omega arith
⟶-progress gone h = omega arith

-- A connection in one of the states listen, syn_rcvd, established, last_ack and closed stays among
-- them and never goes back in this order, whatever the segments. So `closed` is final, and none
-- of the other six states is ever reached.
pub fsm_run-progress :
    (conn : TcpConnTcb) (segments : List TcpHdr)
    → progress conn.state ≤ 4
    → (progress conn.state ≤ progress (fsm_run conn segments).state)
      × (progress (fsm_run conn segments).state ≤ 4)
unfolding fsm_run
fsm_run-progress conn [] h = omega arith
fsm_run-progress conn (rs ∷ rest) h =
    let step = ⟶-progress (tcp_fsm-⟶ conn rs) h in
    omega (arith, step, fsm_run-progress (tcp_fsm conn rs).conn rest step.1)
