-- ===== src/Harmony/Tcp/Diagram.antt =====
-- The diagram that received segments move a connection along, harmony/tcp.c.
use limitless_os.Prelude.{
  ℕ, ◌≡◌, refl, sym, subst, Bool, true, false, List, arith, Bool-cases, inl, inr,
}
use limitless_os.Harmony.Tcp.{
  TcpState, closed, listen, syn_sent, syn_recv, established, fin_wait1, fin_wait2, close_wait,
  closing, last_ack, time_wait, Segment, Connection, Tcp, flag_fin, flag_syn, flag_rst, flag_ack,
}
use limitless_os.Harmony.Tcp.Input.{
  handle_syn, handle_ack, handle_fin, take_data, flag_handler, ack_handler, with_fin_ack,
  acknowledge, accepts, tcp_process,
}

-- The edges for SYN, FIN and RST.
pub data FlagEdge (flags : ℕ) : TcpState → TcpState → Type 0 where
  no_flag : (s : TcpState) → FlagEdge flags s s
  reset : (s : TcpState) → flag_rst flags ≡ true → FlagEdge flags s closed
  passive_open : flag_syn flags ≡ true → FlagEdge flags listen syn_recv
  passive_close : flag_fin flags ≡ true → FlagEdge flags established close_wait
  both_close : flag_fin flags ≡ true → FlagEdge flags fin_wait1 closing
  active_close : flag_fin flags ≡ true → FlagEdge flags fin_wait2 time_wait

-- The edges for ACK.
pub data AckEdge (flags : ℕ) : TcpState → TcpState → Type 0 where
  no_ack : (s : TcpState) → AckEdge flags s s
  active_open : flag_syn flags ≡ true → flag_ack flags ≡ true → AckEdge flags syn_sent established
  opened : flag_ack flags ≡ true → AckEdge flags syn_recv established
  own_fin_acked : flag_ack flags ≡ true → AckEdge flags fin_wait1 fin_wait2
  both_closed : flag_ack flags ≡ true → AckEdge flags closing time_wait
  last_acked : flag_ack flags ≡ true → AckEdge flags last_ack closed

abbrev pub TwoEdges : ℕ → TcpState → TcpState → Type 0
TwoEdges flags s u = (m : TcpState) × FlagEdge flags s m × AckEdge flags m u

no_flag_at : {flags : ℕ} {s u : TcpState} → u ≡ s → FlagEdge flags s u
no_flag_at {flags} {s} {u} e = subst (FlagEdge flags s) (sym e) (no_flag s)

no_ack_at : {flags : ℕ} {s u : TcpState} → u ≡ s → AckEdge flags s u
no_ack_at {flags} {s} {u} e = subst (AckEdge flags s) (sym e) (no_ack s)

module _ (tcp_send_segment : Connection → Segment → Connection)
    (keeps_state : (c : Connection) (s : Segment) → (tcp_send_segment c s).state ≡ c.state) where
  handle_syn-FlagEdge :
      (flags : ℕ) (s : TcpState) (allocated : Bool) (now seq : ℕ) (t : Tcp)
      → flag_syn flags ≡ true
      → t.conn.state ≡ s
      → FlagEdge flags s (handle_syn tcp_send_segment s allocated now seq t).conn.state
  unfolding handle_syn
  handle_syn-FlagEdge flags listen true now seq t f e = passive_open f
  handle_syn-FlagEdge flags listen false now seq t f e = no_flag_at e
  handle_syn-FlagEdge flags _ allocated now seq t f e = no_flag_at e

  handle_fin-FlagEdge :
      (flags : ℕ) (s : TcpState) (allocated : Bool) (now seq : ℕ) (t : Tcp)
      → flag_fin flags ≡ true
      → t.conn.state ≡ s
      → FlagEdge flags s (handle_fin tcp_send_segment s allocated now t).conn.state
  unfolding handle_fin
  handle_fin-FlagEdge flags established allocated now seq t f e = passive_close f
  handle_fin-FlagEdge flags fin_wait1 allocated now seq t f e = both_close f
  handle_fin-FlagEdge flags fin_wait2 allocated now seq t f e = active_close f
  handle_fin-FlagEdge flags _ allocated now seq t f e = no_flag_at e

  handle_ack-AckEdge :
      (flags : ℕ) (s : TcpState) (allocated : Bool) (now seq ack : ℕ) (t : Tcp)
      → flag_ack flags ≡ true
      → t.conn.state ≡ s
      → AckEdge flags s (handle_ack tcp_send_segment s allocated now flags seq ack t).conn.state
  unfolding handle_ack
  handle_ack-AckEdge flags syn_sent true now seq ack t f e = elim (Bool-cases (flag_syn flags)) [
    | inl syn ↦ subst (AckEdge flags syn_sent) (ground arith) (active_open syn f)
    | inr other ↦ no_ack_at (ground arith)
  ]
  handle_ack-AckEdge flags syn_sent false now seq ack t f e = no_ack_at (ground arith)
  handle_ack-AckEdge flags syn_recv allocated now seq ack t f e = opened f
  handle_ack-AckEdge flags established allocated now seq ack t f e = no_ack_at (ground arith)
  handle_ack-AckEdge flags fin_wait1 allocated now seq ack t f e = own_fin_acked f
  handle_ack-AckEdge flags closing allocated now seq ack t f e = both_closed f
  handle_ack-AckEdge flags last_ack allocated now seq ack t f e = last_acked f
  handle_ack-AckEdge flags _ allocated now seq ack t f e = no_ack_at e

  take_data-state :
      (s : TcpState) (allocated : Bool) (now : ℕ) (payload : List ℕ) (t : Tcp)
      → (take_data tcp_send_segment s allocated now payload t).conn.state ≡ t.conn.state
  unfolding take_data
  take_data-state established allocated now payload t = elim (Bool-cases (accepts t payload)) [
    | inl fits ↦ rw fits (acknowledge-state allocated _)
    | inr over ↦ rw over refl
  ]
    where
      acknowledge-state :
          (answer : Bool) (u : Tcp)
          → (acknowledge tcp_send_segment answer now u).conn.state ≡ u.conn.state
      acknowledge-state true u = keeps_state _ _
      acknowledge-state false u = refl
  take_data-state _ allocated now payload t = refl

  flag_handler-FlagEdge :
      (flags seq : ℕ) (allocated : Bool) (now : ℕ) (t : Tcp)
      → FlagEdge flags t.conn.state
          (flag_handler tcp_send_segment flags seq allocated now t).conn.state
  flag_handler-FlagEdge flags seq allocated now t = elim (Bool-cases (flag_rst flags)) [
    | inl rst ↦ rw rst (reset t.conn.state rst)
    | inr no_rst ↦ elim (Bool-cases (flag_syn flags)) [
      | inl syn ↦
          rw (no_rst, syn) (handle_syn-FlagEdge flags t.conn.state allocated now seq t syn refl)
      | inr no_syn ↦ elim (Bool-cases (flag_fin flags)) [
        | inl fin ↦
            rw (no_rst, no_syn, fin)
              (handle_fin-FlagEdge flags t.conn.state allocated now seq (with_fin_ack seq t) fin
                refl)
        | inr no_fin ↦ rw (no_rst, no_syn, no_fin) (no_flag t.conn.state)
      ]
    ]
  ]

  ack_handler-AckEdge :
      (flags seq ack : ℕ) (allocated : Bool) (now : ℕ) (t : Tcp)
      → AckEdge flags t.conn.state
          (ack_handler tcp_send_segment flags seq ack allocated now t).conn.state
  ack_handler-AckEdge flags seq ack allocated now t = elim (Bool-cases (flag_ack flags)) [
    | inl acked ↦
        rw acked (handle_ack-AckEdge flags t.conn.state allocated now seq ack t acked refl)
    | inr unset ↦ rw unset (no_ack t.conn.state)
  ]

  -- Where sending keeps the state, a segment moves a connection along at most one edge for SYN,
  -- FIN or RST, and then along at most one edge for ACK.
  pub tcp_process-TwoEdges :
      (flags seq ack : ℕ) (payload : List ℕ) (first second third : Bool) (now : ℕ) (t : Tcp)
      → TwoEdges flags t.conn.state
          (tcp_process tcp_send_segment flags seq ack payload first second third now t).conn.state
  unfolding tcp_process
  tcp_process-TwoEdges flags seq ack payload first second third now t =
      let u = flag_handler tcp_send_segment flags seq first now t in
      let v = ack_handler tcp_send_segment flags seq ack second now u in
      (
        u.conn.state,
        flag_handler-FlagEdge flags seq first now t,
        subst (AckEdge flags u.conn.state) (sym (take_data-state v.conn.state third now payload v))
            (ack_handler-AckEdge flags seq ack second now u),
      )
