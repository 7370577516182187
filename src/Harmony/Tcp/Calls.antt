-- ===== src/Harmony/Tcp/Calls.antt =====
-- The socket interface of harmony/tcp.c: `tcp_create_connection`, `tcp_connect`, `tcp_listen`, `tcp_send`
-- and `tcp_close`.
use limitless_os.Prelude.{
  ℕ, zero, suc, ◌+◌, ◌-◌, ◌%◌, ◌^◌, Bool, true, false, Option, none, some, [], ◌∷◌, ◌++◌, ltb, ◌==◌,
  if◌then◌else◌,
}
use limitless_os.Temporal.Quantum.{word32}
use limitless_os.Harmony.Ip.{failure}
use limitless_os.Harmony.Tcp.{
  TcpState, closed, listen, syn_sent, established, fin_wait1, close_wait, last_ack, Segment,
  Connection, segment, Tcp, new_segment, tcp_set_state,
}
use limitless_os.Harmony.Tcp.Input.{send_flags, if_allocated}

-- With memory. `random` is what `harmony_random` returns.
unfoldable pub tcp_create_connection : ℕ → Tcp
tcp_create_connection random = record {
  conn = record {
    local_addr = 0;
    remote_addr = 0;
    local_port = 0;
    remote_port = 0;
    state = closed;
    send_seq = random % 2 ^ 31;
    send_una = 0;
    recv_seq = 0;
    recv_ack = 0;
    mss = 1460;
    recv_buffer = [];
    recv_buffer_size = 65536;
    retrans_queue = [];
    time_wait_timer = 0;
    recv_window = 65535;
    has_socket = false;
    backlog = 0;
  };
  events = [];
}

-- The new connection of a socket.
abbrev pub new_connection : ℕ → ℕ → ℕ → ℕ → ℕ → Tcp
new_connection random local_addr local_port remote_addr remote_port =
    let t = tcp_create_connection random in
    record t {
      conn = record t.conn {
        has_socket = true;
        local_addr = local_addr;
        local_port = local_port;
        remote_addr = remote_addr;
        remote_port = remote_port;
      };
    }

-- A call's connection, and the state that it leaves in the socket; `none` where it returns -1. Two
-- answers of `flux_allocate`, and the port of `tcp_allocate_port`, are arguments.
module _ (tcp_send_segment : Connection → Segment → Connection) where
  unfoldable pub tcp_connect : Bool → Bool → ℕ → ℕ → ℕ → ℕ → ℕ → ℕ → Option (Tcp × TcpState)
  tcp_connect false second random local_addr local_port dest_addr dest_port now = none
  tcp_connect true false random local_addr local_port dest_addr dest_port now = none
  tcp_connect true true random local_addr local_port dest_addr dest_port now = some (
    tcp_set_state syn_sent (
        send_flags tcp_send_segment 2 now
          (new_connection random local_addr local_port dest_addr dest_port)),
    syn_sent,
  )

  -- The loop of `tcp_send`, on fuel: `left` is `len - sent`, and the answers of `flux_allocate` are from the
  -- next on. It gives the bytes sent.
  unfoldable pub send_loop : ℕ → (ℕ → Bool) → ℕ → ℕ → Tcp → Tcp × ℕ
  send_loop zero allocated now left t = (t, 0)
  send_loop (suc fuel) allocated now left t =
      let segment_len = if ltb t.conn.mss left then t.conn.mss else left in
      let s = new_segment t.conn 24 segment_len now in
      let c = tcp_send_segment t.conn s in
      let more =
        send_loop fuel (λ k. allocated (k + 1)) now (left - segment_len)
          (record {
            conn = record c { send_seq = (c.send_seq + segment_len) % word32 };
            events = t.events ++ segment s ∷ [];
          }) in
      if left == 0 then (t, 0) else if allocated 0 then (more.0, segment_len + more.1) else (t, 0)

  -- The bytes sent are returned as an int.
  abbrev pub send_in : TcpState → (ℕ → Bool) → ℕ → ℕ → Tcp → Tcp × ℕ
  send_in established allocated now len t =
      let (u, sent) = send_loop len allocated now len t in (u, sent % word32)
  send_in _ allocated now len t = (t, failure)

  -- For the connection that `tcp_find_socket_connection` finds. Of the data only the length is used.
  unfoldable pub tcp_send : (ℕ → Bool) → ℕ → ℕ → Tcp → Tcp × ℕ
  tcp_send allocated now len t = send_in t.conn.state allocated now len t

  -- `tcp_close`, by the state.
  unfoldable pub close_in : TcpState → Bool → ℕ → Tcp → Tcp
  close_in established allocated now t =
      if_allocated allocated (λ u. tcp_set_state fin_wait1 (send_flags tcp_send_segment 17 now u)) t
  close_in close_wait allocated now t =
      if_allocated allocated (λ u. tcp_set_state last_ack (send_flags tcp_send_segment 17 now u)) t
  close_in _ allocated now t = tcp_set_state closed t

  unfoldable pub tcp_close : Bool → ℕ → Tcp → Tcp
  tcp_close allocated now t = close_in t.conn.state allocated now t

unfoldable pub tcp_listen : Bool → ℕ → ℕ → ℕ → ℕ → Option (Tcp × TcpState)
tcp_listen false random local_addr local_port backlog = none
tcp_listen true random local_addr local_port backlog =
    let t = new_connection random local_addr local_port 0 0 in
    some (record t { conn = record t.conn { state = listen; backlog = backlog } }, listen)
