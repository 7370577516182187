-- ===== src/Harmony/Tcp/Segments.antt =====
-- What one segment may do to a connection of harmony/tcp.c, whatever its sequence number is.
use limitless_os.Prelude.{
  ℕ, ◌+◌, ◌%◌, ◌≤◌, ◌<◌, ◌≡◌, refl, ap, ◌∙◌, Bool, true, false, List, ◌++◌, append_assoc, length,
  length-append, get_or, arith,
}
use limitless_os.Temporal.Quantum.{word32}
use limitless_os.Harmony.Tcp.{established, Segment, Connection, Tcp, tcp_checksum}
use limitless_os.Harmony.Tcp.Input.{
  handle_ack, take_data, accepts, ack_handler, data_handler, tcp_process, connection, Reaction,
  handled, react, tcp_input,
}
use limitless_os.Harmony.Ip.{be32}

-- What the receiver of data is left with.
pub record Receives (t u : Tcp) (payload : List ℕ) : Type 0 where
  pub appended : u.conn.recv_buffer ≡ t.conn.recv_buffer ++ payload
  pub acknowledged : u.conn.recv_ack ≡ (t.conn.recv_ack + length payload) % word32
  pub same_size : u.conn.recv_buffer_size ≡ t.conn.recv_buffer_size
  pub same_state : u.conn.state ≡ established

-- `tcp_send_segment` may do with the retransmission queue what it likes.
abbrev pub send_queued : (Connection → Segment → List Segment) → Connection → Segment → Connection
send_queued queue c s = record c { retrans_queue = queue c s }

module _ (queue : Connection → Segment → List Segment) where
  -- The acknowledgement in a data segment leaves what is received.
  ack_keeps :
      (seq ack : ℕ) (answer : Bool) (now : ℕ) (t : Tcp)
      → t.conn.state ≡ established
      → let u = ack_handler (send_queued queue) 24 seq ack answer now t in
        (u.conn.recv_buffer ≡ t.conn.recv_buffer)
        × (u.conn.recv_ack ≡ t.conn.recv_ack)
        × (u.conn.recv_buffer_size ≡ t.conn.recv_buffer_size)
        × (u.conn.state ≡ established)
  unfolding handle_ack
  ack_keeps seq ack answer now t e = rw e (ground arith)

  data_received :
      (payload : List ℕ) (answer : Bool) (now : ℕ) (t : Tcp)
      → t.conn.state ≡ established
      → accepts t payload ≡ true
      → Receives t (data_handler (send_queued queue) payload answer now t) payload
  unfolding take_data
  data_received payload true now t e fits =
      rw (e, fits)
        (record { appended = refl; acknowledged = refl; same_size = refl; same_state = refl })
  data_received payload false now t e fits =
      rw (e, fits)
        (record { appended = refl; acknowledged = refl; same_size = refl; same_state = refl })

  -- A connection that is ESTABLISHED and has room appends the data of a segment and acknowledges them,
  -- whatever sequence number the segment has.
  tcp_process-data :
      (seq ack : ℕ) (payload : List ℕ) (first second third : Bool) (now : ℕ) (t : Tcp)
      → t.conn.state ≡ established
      → accepts t payload ≡ true
      → Receives t
          (tcp_process (send_queued queue) 24 seq ack payload first second third now t)
          payload
  unfolding tcp_process
  tcp_process-data seq ack payload first second third now t e fits =
      let u = ack_handler (send_queued queue) 24 seq ack second now t in
      let (buffer, acked, size, state) = ack_keeps seq ack second now t e in
      let r = data_received payload third now u state (ground arith) in
      record {
        appended = r.appended ∙ ap (λ (b : List ℕ). b ++ payload) buffer;
        acknowledged = r.acknowledged ∙ ap (λ (k : ℕ). (k + length payload) % word32) acked;
        same_size = r.same_size ∙ size;
        same_state = r.same_state;
      }

  twice :
      (seq ack : ℕ) (payload : List ℕ) (first second third : Bool) (now : ℕ) (t : Tcp)
      → t.conn.state ≡ established
      → 0 < length payload
      → length t.conn.recv_buffer + length payload + length payload ≤ t.conn.recv_buffer_size
      → let receive = tcp_process (send_queued queue) 24 seq ack payload first second third now in
        Receives t (receive (receive t)) (payload ++ payload)
  twice seq ack payload first second third now t e some_data room =
      let receive = tcp_process (send_queued queue) 24 seq ack payload first second third now in
      let r = tcp_process-data seq ack payload first second third now t e (ground arith) in
      let l : length (receive t).conn.recv_buffer ≡ length t.conn.recv_buffer + length payload =
        ap length r.appended ∙ length-append t.conn.recv_buffer payload in
      let s =
        tcp_process-data seq ack payload first second third now (receive t) r.same_state
          (ground (arith, l, r.same_size)) in
      record {
        appended =
            s.appended
            ∙ ap (λ (b : List ℕ). b ++ payload) r.appended
            ∙ append_assoc t.conn.recv_buffer payload payload;
        acknowledged = omega (arith, r.acknowledged, s.acknowledged, length-append payload payload);
        same_size = s.same_size ∙ r.same_size;
        same_state = s.same_state;
      }

  -- Where sending only queues, a segment with PSH and ACK that passes the test of tcp_input for the checksum
  -- and comes twice for an ESTABLISHED connection is handled twice, and its data are delivered twice where
  -- the buffer has room.
  pub duplicate_delivered :
      (src_addr dest_addr : ℕ) (header payload : List ℕ) (first second third : Bool) (now : ℕ)
      (t : Tcp)
      → tcp_checksum src_addr dest_addr header payload ≡ 0
      → get_or header 13 0 ≡ 24
      → t.conn.state ≡ established
      → 0 < length payload
      → length t.conn.recv_buffer + length payload + length payload ≤ t.conn.recv_buffer_size
      → let input : Tcp → Reaction = λ c.
        tcp_input
          (send_queued queue)
          src_addr
          dest_addr
          header
          payload
          (connection c)
          first
          second
          third
          now in
        (u : Tcp) × (v : Tcp) × (input t ≡ handled u)
        × (input u ≡ handled v)
        × Receives t v (payload ++ payload)
  unfolding tcp_input react
  duplicate_delivered src_addr dest_addr header payload first second third now t passes kind e
        some_data room =
      let receive =
        tcp_process (send_queued queue) 24 (be32 header 4) (be32 header 8) payload first second
          third now in
      (
        receive t,
        receive (receive t),
        rw (passes, kind) refl,
        rw (passes, kind) refl,
        twice (be32 header 4) (be32 header 8) payload first second third now t e some_data room,
      )
