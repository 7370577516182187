-- ===== src/Harmony/Tcp/Input.antt =====
-- `tcp_handle_syn`, `tcp_handle_ack`, `tcp_handle_fin` and `tcp_input` of harmony/tcp.c. The length of the
-- data is that of the bytes behind the header of 20 bytes.
use limitless_os.Prelude.{
  ℕ, ◌+◌, ◌%◌, Bool, true, false, ◌&&◌, Option, none, some, List, [], ◌∷◌, ◌++◌, length, get_or,
  ltb, leb, ◌==◌, if◌then◌else◌,
}
use limitless_os.Temporal.Quantum.{word32, word64}
use limitless_os.Harmony.Ip.{be16, be32}
use limitless_os.Harmony.Tcp.{
  TcpState, closed, listen, syn_sent, syn_recv, established, fin_wait1, fin_wait2, close_wait,
  closing, last_ack, time_wait, Segment, Connection, segment, on_data, Tcp, flag_fin, flag_syn,
  flag_rst, flag_ack, tcp_checksum, new_segment, notice, tcp_set_state,
}

-- The loop over the retransmission queue.
unfoldable pub unacknowledged : ℕ → List Segment → List Segment
unacknowledged ack_num [] = []
unacknowledged ack_num (s ∷ rest) =
    let kept = unacknowledged ack_num rest in if ltb s.seq_num ack_num then kept else s ∷ kept

-- What the lookups find: a connection, only a listener, with the new connection if there is memory for
-- one, or nothing.
pub data TcpLookup : Type 0 where
  connection : Tcp → TcpLookup
  listener : Tcp → Option Tcp → TcpLookup
  nobody : TcpLookup

-- A segment is dropped, answered by a reset, or handled by a connection.
pub data Reaction : Type 0 where
  dropped : Reaction
  tcp_send_rst : Reaction
  handled : Tcp → Reaction

abbrev pub accept : ℕ → ℕ → ℕ → ℕ → Tcp → Tcp → Tcp
accept dest_addr dest_port src_addr src_port l new_conn = record new_conn {
  conn = record new_conn.conn {
    local_addr = dest_addr;
    local_port = dest_port;
    remote_addr = src_addr;
    remote_port = src_port;
    state = listen;
    has_socket = l.conn.has_socket;
  };
}

abbrev pub no_connection : ℕ → Reaction
no_connection flags = if flag_rst flags then dropped else tcp_send_rst

abbrev pub if_allocated : Bool → (Tcp → Tcp) → Tcp → Tcp
if_allocated true step t = step t
if_allocated false step t = t

abbrev pub with_una : ℕ → Tcp → Tcp
with_una ack_num t = record t { conn = record t.conn { send_una = ack_num } }

abbrev pub start_time_wait : ℕ → Tcp → Tcp
start_time_wait now t = record t {
  conn = record t.conn { time_wait_timer = (now + 120000000) % word64 };
}

abbrev pub with_fin_ack : ℕ → Tcp → Tcp
with_fin_ack seq_num t = record t { conn = record t.conn { recv_ack = (seq_num + 1) % word32 } }

abbrev pub accepts : Tcp → List ℕ → Bool
accepts t payload =
    ltb 0 (length payload)
    && leb (length t.conn.recv_buffer + length payload) t.conn.recv_buffer_size

module _ (tcp_send_segment : Connection → Segment → Connection) where
  -- A segment without data is created and sent.
  abbrev pub send_flags : ℕ → ℕ → Tcp → Tcp
  send_flags flags now t =
      let s = new_segment t.conn flags 0 now in
      record { conn = tcp_send_segment t.conn s; events = t.events ++ segment s ∷ [] }

  -- `tcp_handle_syn`, by the state.
  unfoldable pub handle_syn : TcpState → Bool → ℕ → ℕ → Tcp → Tcp
  handle_syn listen allocated now seq_num t =
      if_allocated allocated (λ u. tcp_set_state syn_recv (send_flags 18 now u))
        (record t {
          conn = record t.conn { recv_seq = seq_num; recv_ack = (seq_num + 1) % word32 };
        })
  handle_syn _ allocated now seq_num t = t

  -- `tcp_handle_ack`, by the state.
  unfoldable pub handle_ack : TcpState → Bool → ℕ → ℕ → ℕ → ℕ → Tcp → Tcp
  handle_ack syn_sent allocated now flags seq_num ack_num t =
      if flag_syn flags
      then if_allocated allocated (λ u. tcp_set_state established (send_flags 16 now u))
          (record t {
            conn = record t.conn {
              recv_seq = seq_num;
              recv_ack = (seq_num + 1) % word32;
              send_una = ack_num;
            };
          })
      else t
  handle_ack syn_recv allocated now flags seq_num ack_num t =
      tcp_set_state established (with_una ack_num t)
  handle_ack established allocated now flags seq_num ack_num t =
      if ltb t.conn.send_una ack_num
      then record t {
        conn = record t.conn {
          send_una = ack_num;
          retrans_queue = unacknowledged ack_num t.conn.retrans_queue;
        };
      }
      else t
  handle_ack fin_wait1 allocated now flags seq_num ack_num t =
      tcp_set_state fin_wait2 (with_una ack_num t)
  handle_ack closing allocated now flags seq_num ack_num t =
      start_time_wait now (tcp_set_state time_wait (with_una ack_num t))
  handle_ack last_ack allocated now flags seq_num ack_num t =
      tcp_set_state closed (with_una ack_num t)
  handle_ack _ allocated now flags seq_num ack_num t = t

  -- `tcp_handle_fin`, by the state.
  abbrev pub acknowledge : Bool → ℕ → Tcp → Tcp
  acknowledge allocated now t = if_allocated allocated (send_flags 16 now) t

  unfoldable pub handle_fin : TcpState → Bool → ℕ → Tcp → Tcp
  handle_fin established allocated now t = tcp_set_state close_wait (acknowledge allocated now t)
  handle_fin fin_wait1 allocated now t = tcp_set_state closing (acknowledge allocated now t)
  handle_fin fin_wait2 allocated now t =
      start_time_wait now (tcp_set_state time_wait (acknowledge allocated now t))
  handle_fin _ allocated now t = t

  -- The data of a segment, in the state ESTABLISHED.
  unfoldable pub take_data : TcpState → Bool → ℕ → List ℕ → Tcp → Tcp
  take_data established allocated now payload t =
      let c = t.conn in
      let stored = acknowledge allocated now (record t {
        conn = record c {
          recv_buffer = c.recv_buffer ++ payload;
          recv_ack = (c.recv_ack + length payload) % word32;
        };
      }) in
      if accepts t payload
      then record stored {
        events = stored.events ++ notice stored.conn.has_socket (on_data payload);
      }
      else t
  take_data _ allocated now payload t = t

  -- The flags that are read from the bytes of a header.
  abbrev pub flag_handler : ℕ → ℕ → Bool → ℕ → Tcp → Tcp
  flag_handler flags seq_num allocated now t =
      if flag_rst flags
      then tcp_set_state closed t
      else if flag_syn flags
      then handle_syn t.conn.state allocated now seq_num t
      else if flag_fin flags
      then handle_fin t.conn.state allocated now (with_fin_ack seq_num t)
      else t

  abbrev pub ack_handler : ℕ → ℕ → ℕ → Bool → ℕ → Tcp → Tcp
  ack_handler flags seq_num ack_num allocated now t =
      if flag_ack flags then handle_ack t.conn.state allocated now flags seq_num ack_num t else t

  abbrev pub data_handler : List ℕ → Bool → ℕ → Tcp → Tcp
  data_handler payload allocated now t = take_data t.conn.state allocated now payload t

  -- `tcp_input` from the lock on. The three answers of `flux_allocate` are those at the three places.
  unfoldable pub tcp_process : ℕ → ℕ → ℕ → List ℕ → Bool → Bool → Bool → ℕ → Tcp → Tcp
  tcp_process flags seq_num ack_num payload first second third now t =
      data_handler payload third now
        (ack_handler flags seq_num ack_num second now (flag_handler flags seq_num first now t))

  unfoldable pub react : TcpLookup → ℕ → ℕ → ℕ → ℕ → ℕ → (Tcp → Tcp) → Reaction
  react (connection t) flags dest_addr dest_port src_addr src_port process = handled (process t)
  react (listener l (some new_conn)) flags dest_addr dest_port src_addr src_port process =
      if flag_syn flags
      then handled (process (accept dest_addr dest_port src_addr src_port l new_conn))
      else no_connection flags
  react (listener l none) flags dest_addr dest_port src_addr src_port process =
      if flag_syn flags then handled (process l) else no_connection flags
  react nobody flags dest_addr dest_port src_addr src_port process = no_connection flags

  unfoldable pub tcp_input : ℕ → ℕ → List ℕ → List ℕ → TcpLookup → Bool → Bool → Bool → ℕ → Reaction
  tcp_input src_addr dest_addr header payload found first second third now =
      let flags = get_or header 13 0 in
      if tcp_checksum src_addr dest_addr header payload == 0
      then react found flags dest_addr (be16 header 2) src_addr (be16 header 0)
          (tcp_process flags (be32 header 4) (be32 header 8) payload first second third now)
      else dropped
