-- ===== src/Conduit/Delivery.antt =====
-- `conduit_send` and `conduit_receive` against the stream of messages.
use limitless_os.Prelude.{
  ℕ, ◌+◌, ◌/◌, ◌<◌, ◌≤◌, ◌≡◌, ◌≢◌, ◌⊎◌, refl, sym, ap, subst, ◌∙◌, Bool, true, false, Option, none,
  some, List, [], ◌∷◌, ◌++◌, length, if◌then◌else◌, take, length-append, arith,
}
use limitless_os.Conduit.Ring.Transfer.{size-ringbuf_write, size-ringbuf_read}
use limitless_os.Conduit.Message.{Message, header_size, header_bytes, Fits, length-header_bytes}
use limitless_os.Conduit.Endpoint.{
  Conduit, ConduitState, Endpoint, Result, done, failed, einval, epipe, emsgsize, eagain,
  is_nonblock, lacks_room, deliver, conduit_send, send_or, wait_to_send, full_ring,
}
use limitless_os.Conduit.Reader.{
  front, collect, collected, conduit_receive, receive_or, no_message, wait_to_receive,
}
use limitless_os.Conduit.Stream.{
  Frame, frames, Carries, write_frame, read_frame, peek_front, Carries-used,
}

-- An open conduit whose ring holds the messages `fs`, with the limits that `conduit_create` sets.
pub record IsStream (c : Conduit) (fs : List Frame) : Type 0 where
  pub is_open : c.state ≡ ConduitState.open_state
  pub carries : Carries c.messages fs
  pub same_size : c.messages.size ≡ c.buffer_size
  pub quarter : c.max_message_size ≡ c.buffer_size / 4

-- The message that a call of `conduit_send` enqueues.
abbrev pub sent_frame : Endpoint → ℕ → List ℕ → ℕ → ℕ → Frame
sent_frame e self bytes size flags = (
  record {
    sender_qid = (e.sched.quanta self).qid;
    size = size;
    timestamp = e.sched.tsc e.sched.reads;
    flags = flags;
  },
  take size bytes,
)

pub deliver-IsStream :
    (e : Endpoint) (fs : List Frame) (self : ℕ) (bytes : List ℕ) (size flags : ℕ)
    → IsStream e.conduit fs
    → Fits (sent_frame e self bytes size flags).0
    → size ≤ length bytes
    → e.conduit.messages.used + (header_size + size) ≤ e.conduit.buffer_size
    → IsStream
        (deliver e self bytes size flags).conduit
        (fs ++ sent_frame e self bytes size flags ∷ [])
unfolding deliver
deliver-IsStream e fs self bytes size flags v fits given room =
    let w =
      write_frame e.conduit.messages fs (sent_frame e self bytes size flags).0 bytes v.carries fits
        given (omega (arith, v.same_size)) in
    record {
      is_open = v.is_open;
      carries = w.2;
      same_size =
          size-ringbuf_write _ _ size
          ∙ size-ringbuf_write e.conduit.messages _ header_size
          ∙ v.same_size;
      quarter = v.quarter;
    }

pub collect-IsStream :
    (e : Endpoint) (header : Message) (bytes : List ℕ) (fs : List Frame)
    → IsStream e.conduit ((header, bytes) ∷ fs)
    → let (got, e') = collect e in (got ≡ bytes) × IsStream e'.conduit fs
unfolding collect
collect-IsStream e header bytes fs v =
    let (read, got, carries) = read_frame e.conduit.messages header bytes fs v.carries in
    (
      got,
      record {
        is_open = v.is_open;
        carries = carries;
        same_size =
            size-ringbuf_read _ _ ∙ size-ringbuf_read e.conduit.messages header_size ∙ v.same_size;
        quarter = v.quarter;
      },
    )

-- The guards of `conduit_send`, passed.
pub send_passes :
    (no_room : Endpoint → Result ℕ × Endpoint) (e : Endpoint) (self : ℕ) (bytes : List ℕ)
    (size flags : ℕ)
    → e.conduit.state ≡ ConduitState.open_state
    → 0 < size
    → size ≤ e.conduit.max_message_size
    → lacks_room e.conduit size ≡ false
    → send_or no_room e self (some bytes) size flags ≡ (done size, deliver e self bytes size flags)
send_passes no_room e self bytes size flags opened pos short room = ground arith

pub send_full :
    (no_room : Endpoint → Result ℕ × Endpoint) (e : Endpoint) (self : ℕ) (bytes : List ℕ)
    (size flags : ℕ)
    → e.conduit.state ≡ ConduitState.open_state
    → 0 < size
    → size ≤ e.conduit.max_message_size
    → lacks_room e.conduit size ≡ true
    → send_or no_room e self (some bytes) size flags ≡ no_room e
send_full no_room e self bytes size flags opened pos short room = ground arith

-- The test for room does not wrap.
pub lacks_room-false :
    (e : Endpoint) (fs : List Frame) (size : ℕ)
    → IsStream e.conduit fs
    → e.conduit.messages.used + (header_size + size) ≤ e.conduit.buffer_size
    → lacks_room e.conduit size ≡ false
lacks_room-false e fs size v room =
    ground (arith, v.same_size, v.quarter, v.carries.valid.fits, v.carries.valid.used_in)

pub lacks_room-true :
    (e : Endpoint) (fs : List Frame) (size : ℕ)
    → IsStream e.conduit fs
    → size ≤ e.conduit.max_message_size
    → e.conduit.buffer_size < e.conduit.messages.used + (header_size + size)
    → lacks_room e.conduit size ≡ true
lacks_room-true e fs size v short full =
    ground (arith, v.same_size, v.quarter, v.carries.valid.fits, v.carries.valid.used_in)

-- The guards of `conduit_receive`, passed or not.
module _ (no_message : Endpoint → Result (List ℕ) × Endpoint) (e : Endpoint) (max_size : ℕ)
    (opened : e.conduit.state ≡ ConduitState.open_state) (pos : 0 < max_size) where
  pub receive_passes :
      header_size ≤ e.conduit.messages.used
      → (front e.conduit).size ≤ max_size
      → receive_or no_message e true max_size ≡ collected (collect e)
  receive_passes some_used fits = ground arith

  pub receive_long :
      header_size ≤ e.conduit.messages.used
      → max_size < (front e.conduit).size
      → receive_or no_message e true max_size ≡ (failed emsgsize, e)
  receive_long some_used long = ground arith

  pub receive_empty :
      e.conduit.messages.used < header_size → receive_or no_message e true max_size ≡ no_message e
  receive_empty empty = ground arith

-- The front of a stream.
pub front-size :
    (c : Conduit) (header : Message) (bytes : List ℕ) (fs : List Frame)
    → IsStream c ((header, bytes) ∷ fs)
    → (front c).size ≡ length bytes
front-size c header bytes fs v =
    ap (λ (m : Message). m.size) (peek_front c.messages header bytes fs v.carries)
    ∙ sym v.carries.formed.1

pub front-used :
    (c : Conduit) (header : Message) (bytes : List ℕ) (fs : List Frame)
    → IsStream c ((header, bytes) ∷ fs)
    → header_size ≤ c.messages.used
front-used c header bytes fs v = omega (
  arith,
  Carries-used c.messages ((header, bytes) ∷ fs) v.carries,
  length-append (header_bytes header ++ bytes) (frames fs),
  length-append (header_bytes header) bytes,
  length-header_bytes header,
)

module _ (meanwhile : Endpoint → Endpoint) (node : Bool) (self : ℕ) where
  pub conduit_send_delivers :
      (e : Endpoint) (fs : List Frame) (bytes : List ℕ) (size flags : ℕ)
      → IsStream e.conduit fs
      → 0 < size
      → size ≤ e.conduit.max_message_size
      → e.conduit.messages.used + (header_size + size) ≤ e.conduit.buffer_size
      → conduit_send meanwhile node self e (some bytes) size flags
        ≡ (done size, deliver e self bytes size flags)
  unfolding conduit_send
  conduit_send_delivers e fs bytes size flags v pos short room =
      send_passes (full_ring meanwhile node self (some bytes) size flags) e self bytes size flags
        v.is_open pos short (lacks_room-false e fs size v room)

  -- On an open conduit that holds the messages `fs`, a message that is not empty, no longer than
  -- allowed, fits beside those in the ring and has a header whose fields fit their types is sent: it
  -- becomes the last of the stream.
  pub conduit_send_lem :
      (e : Endpoint) (fs : List Frame) (bytes : List ℕ) (size flags : ℕ)
      → IsStream e.conduit fs
      → Fits (sent_frame e self bytes size flags).0
      → 0 < size
      → size ≤ length bytes
      → size ≤ e.conduit.max_message_size
      → e.conduit.messages.used + (header_size + size) ≤ e.conduit.buffer_size
      → let (result, e') = conduit_send meanwhile node self e (some bytes) size flags in
        (result ≡ done size) × IsStream e'.conduit (fs ++ sent_frame e self bytes size flags ∷ [])
  conduit_send_lem e fs bytes size flags v fits pos given short room =
      subst
        (λ (r : Result ℕ × Endpoint).
          (r.0 ≡ done size) × IsStream r.1.conduit (fs ++ sent_frame e self bytes size flags ∷ []))
        (sym (conduit_send_delivers e fs bytes size flags v pos short room))
        (refl, deliver-IsStream e fs self bytes size flags v fits given room)

  -- A message that is in order but does not fit is refused at once by a call that may not block, and
  -- the conduit stays as it was.
  pub conduit_send_full :
      (e : Endpoint) (fs : List Frame) (bytes : List ℕ) (size flags : ℕ)
      → IsStream e.conduit fs
      → 0 < size
      → size ≤ e.conduit.max_message_size
      → e.conduit.buffer_size < e.conduit.messages.used + (header_size + size)
      → is_nonblock flags ≡ true
      → conduit_send meanwhile node self e (some bytes) size flags ≡ (failed eagain, e)
  unfolding conduit_send
  conduit_send_full e fs bytes size flags v pos short full nonblock =
      send_full (full_ring meanwhile node self (some bytes) size flags) e self bytes size flags
        v.is_open pos short (lacks_room-true e fs size v short full)
      ∙ ap
          (λ (b : Bool).
            if b
            then (failed eagain, e)
            else wait_to_send meanwhile node self e (some bytes) size flags)
          nonblock

  -- The checks of `conduit_send` in their order: no message or an empty one, a conduit that is not
  -- open, a message longer than allowed. Each leaves everything as it was.
  pub conduit_send_refuses :
      (e : Endpoint) (message : Option (List ℕ)) (size flags : ℕ)
      → ((message ≡ none) ⊎ (size ≡ 0)
          → conduit_send meanwhile node self e message size flags ≡ (failed einval, e))
        × (message ≢ none
            → size ≢ 0
            → e.conduit.state ≢ ConduitState.open_state
            → conduit_send meanwhile node self e message size flags ≡ (failed epipe, e))
        × (message ≢ none
            → size ≢ 0
            → e.conduit.state ≡ ConduitState.open_state
            → e.conduit.max_message_size < size
            → conduit_send meanwhile node self e message size flags ≡ (failed emsgsize, e))
  unfolding conduit_send
  conduit_send_refuses e message size flags =
      (λ h. ground arith, λ a b c. ground arith, λ a b c d. ground arith)

  pub conduit_receive_collects :
      (e : Endpoint) (header : Message) (bytes : List ℕ) (fs : List Frame) (max_size flags : ℕ)
      → IsStream e.conduit ((header, bytes) ∷ fs)
      → 0 < max_size
      → length bytes ≤ max_size
      → conduit_receive meanwhile node self e true max_size flags ≡ collected (collect e)
  unfolding conduit_receive
  conduit_receive_collects e header bytes fs max_size flags v pos fits =
      receive_passes (no_message meanwhile node self true max_size flags) e max_size v.is_open pos
        (front-used e.conduit header bytes fs v)
        (omega (arith, front-size e.conduit header bytes fs v))

  -- On an open conduit the oldest message is received whole if the caller's buffer is not empty and
  -- large enough for it, and the stream goes on with the next.
  pub conduit_receive_lem :
      (e : Endpoint) (header : Message) (bytes : List ℕ) (fs : List Frame) (max_size flags : ℕ)
      → IsStream e.conduit ((header, bytes) ∷ fs)
      → 0 < max_size
      → length bytes ≤ max_size
      → let (result, e') = conduit_receive meanwhile node self e true max_size flags in
        (result ≡ done bytes) × IsStream e'.conduit fs
  conduit_receive_lem e header bytes fs max_size flags v pos fits =
      subst (λ (r : Result (List ℕ) × Endpoint). (r.0 ≡ done bytes) × IsStream r.1.conduit fs)
        (sym (conduit_receive_collects e header bytes fs max_size flags v pos fits))
        (let (got, v') = collect-IsStream e header bytes fs v in (ap done got, v'))

  -- A message that is longer than the caller's buffer stays at the front.
  pub conduit_receive_long :
      (e : Endpoint) (header : Message) (bytes : List ℕ) (fs : List Frame) (max_size flags : ℕ)
      → IsStream e.conduit ((header, bytes) ∷ fs)
      → 0 < max_size
      → max_size < length bytes
      → conduit_receive meanwhile node self e true max_size flags ≡ (failed emsgsize, e)
  unfolding conduit_receive
  conduit_receive_long e header bytes fs max_size flags v pos long =
      receive_long (no_message meanwhile node self true max_size flags) e max_size v.is_open pos
        (front-used e.conduit header bytes fs v)
        (omega (arith, front-size e.conduit header bytes fs v))

  -- With no message a call that may not block is refused.
  pub conduit_receive_empty :
      (e : Endpoint) (max_size flags : ℕ)
      → IsStream e.conduit []
      → 0 < max_size
      → is_nonblock flags ≡ true
      → conduit_receive meanwhile node self e true max_size flags ≡ (failed eagain, e)
  unfolding conduit_receive
  conduit_receive_empty e max_size flags v pos nonblock =
      receive_empty (no_message meanwhile node self true max_size flags) e max_size v.is_open pos
        (omega (arith, Carries-used e.conduit.messages [] v.carries))
      ∙ ap
          (λ (b : Bool).
            if b
            then (failed eagain, e)
            else wait_to_receive meanwhile node self e true max_size flags)
          nonblock

  -- The first checks of `conduit_receive`: no buffer or one of no bytes.
  pub conduit_receive_refuses :
      (e : Endpoint) (buffer : Bool) (max_size flags : ℕ)
      → (buffer ≡ false) ⊎ (max_size ≡ 0)
      → conduit_receive meanwhile node self e buffer max_size flags ≡ (failed einval, e)
  unfolding conduit_receive
  conduit_receive_refuses e buffer max_size flags h = ground arith
