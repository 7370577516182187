-- ===== src/Harmony/Tcp.antt =====
-- The connections of harmony/tcp.c and tcp.h. `tcp_send_segment`, which no file defines, is an argument:
-- what it makes of the connection it is called for. Segments that are sent and calls of the socket's
-- callbacks are events, the latest last. An answer of `flux_allocate` is whether it finds memory.
pub mod Input
pub mod Calls
pub mod Diagram
pub mod Sending
pub mod Segments
use limitless_os.Prelude.{
  ℕ, zero, suc, ◌+◌, ◌-◌, ◌*◌, ◌/◌, ◌%◌, ◌^◌, ◌≡◌, Bool, true, false, not, ◌&&◌, ◌||◌, Option, none,
  some, List, [], ◌∷◌, ◌++◌, length, take, drop, get_or, ltb, leb, ◌==◌, if◌then◌else◌,
}
use limitless_os.Temporal.Quantum.{word32, word64}
use limitless_os.Harmony.Checksum.{add_words, complement}
use limitless_os.Harmony.Ip.{be16, be32}

pub data TcpState : Type 0 where
  closed listen syn_sent syn_recv established fin_wait1 fin_wait2 close_wait closing : TcpState
  last_ack time_wait : TcpState

-- `data` is a pointer that is never set: what the copy through it writes, and where, is left out.
pub record Segment : Type 0 where
  pub src_port : ℕ
  pub dest_port : ℕ
  pub seq_num : ℕ
  pub ack_num : ℕ
  pub flags : ℕ
  pub window : ℕ
  pub data_len : ℕ
  pub timestamp : ℕ
  pub retransmissions : ℕ

-- `recv_buffer` is the used part of the receive buffer.
pub record Connection : Type 0 where
  pub local_addr : ℕ
  pub remote_addr : ℕ
  pub local_port : ℕ
  pub remote_port : ℕ
  pub state : TcpState
  pub send_seq : ℕ
  pub send_una : ℕ
  pub recv_seq : ℕ
  pub recv_ack : ℕ
  pub mss : ℕ
  pub recv_buffer : List ℕ
  pub recv_buffer_size : ℕ
  pub retrans_queue : List Segment
  pub time_wait_timer : ℕ
  pub recv_window : ℕ
  pub has_socket : Bool
  pub backlog : ℕ

pub data Event : Type 0 where
  segment : Segment → Event
  on_connect : Event
  on_close : Event
  on_data : List ℕ → Event

pub record Tcp : Type 0 where
  pub conn : Connection
  pub events : List Event

abbrev pub flag_fin : ℕ → Bool
flag_fin flags = flags % 2 == 1

abbrev pub flag_syn : ℕ → Bool
flag_syn flags = flags / 2 % 2 == 1

abbrev pub flag_rst : ℕ → Bool
flag_rst flags = flags / 4 % 2 == 1

abbrev pub flag_ack : ℕ → Bool
flag_ack flags = flags / 16 % 2 == 1

-- `tcp_checksum`: the pseudo header, the header with its checksum bytes set to 0, and the data.
abbrev pub tcp_pseudo_header : ℕ → ℕ → ℕ → List ℕ
tcp_pseudo_header src_addr dest_addr tcp_length =
    src_addr / 16777216 % 256
    ∷ src_addr / 65536 % 256
    ∷ src_addr / 256 % 256
    ∷ src_addr % 256
    ∷ dest_addr / 16777216 % 256
    ∷ dest_addr / 65536 % 256
    ∷ dest_addr / 256 % 256
    ∷ dest_addr % 256
    ∷ 0
    ∷ 6
    ∷ tcp_length / 256 % 256
    ∷ tcp_length % 256
    ∷ []

unfoldable pub tcp_checksum : ℕ → ℕ → List ℕ → List ℕ → ℕ
tcp_checksum src_addr dest_addr header payload =
    let pseudo = tcp_pseudo_header src_addr dest_addr (20 + length payload) in
    let cleared = take 16 header ++ 0 ∷ 0 ∷ drop 18 header in
    complement (add_words payload (add_words cleared (add_words pseudo 0)))

-- `tcp_create_segment`, with memory.
abbrev pub new_segment : Connection → ℕ → ℕ → ℕ → Segment
new_segment conn flags data_len now = record {
  src_port = conn.local_port;
  dest_port = conn.remote_port;
  seq_num = conn.send_seq;
  ack_num = conn.recv_ack;
  flags = flags;
  window = conn.recv_window % 65536;
  data_len = data_len;
  timestamp = now;
  retransmissions = 0;
}

abbrev pub notice : Bool → Event → List Event
notice has_socket e = if has_socket then e ∷ [] else []

-- The switch of `tcp_set_state`. A socket here has its callbacks.
abbrev pub notices : TcpState → Bool → List Event
notices established has_socket = notice has_socket on_connect
notices closed has_socket = notice has_socket on_close
notices _ has_socket = []

abbrev pub tcp_set_state : TcpState → Tcp → Tcp
tcp_set_state new_state t = record {
  conn = record t.conn { state = new_state };
  events = t.events ++ notices new_state t.conn.has_socket;
}
