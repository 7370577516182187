-- ===== src/Conduit/Reader.antt =====
-- `conduit_receive` and `conduit_peek` of continuum/conduit_ipc.c.
use limitless_os.Prelude.{
  ℕ, ◌+◌, ◌%◌, Bool, not, ◌||◌, none, some, List, [], ltb, ◌==◌, if◌then◌else◌, take, drop, length,
}
use limitless_os.Temporal.Quantum.{word64}
use limitless_os.Conduit.Ring.{add_size, ringbuf_read, ringbuf_peek}
use limitless_os.Conduit.Message.{Message, header_size, read_header}
use limitless_os.Conduit.WaitQueue.{waitqueue_remove}
use limitless_os.Conduit.Endpoint.{
  Conduit, Endpoint, Result, done, failed, fault, einval, epipe, emsgsize, eagain, is_open,
  is_nonblock, with_nonblock, wait_in,
}

-- The header at the front of the ring.
abbrev pub front : Conduit → Message
front c = read_header (ringbuf_peek c.messages header_size)

-- The part of `conduit_receive` behind the check of the message's size: the bytes that it reads.
unfoldable pub collect : Endpoint → List ℕ × Endpoint
collect e =
    let c = e.conduit in
    let (header, ring) = ringbuf_read c.messages header_size in
    let (bytes, ring') = ringbuf_read ring (read_header header).size in
    let stats = c.stats in
    let (woken, writers, s) = waitqueue_remove c.writers e.sched in
    (
      bytes,
      record e {
        conduit = record c {
          messages = ring';
          stats = record stats {
            messages_received = (stats.messages_received + 1) % word64;
            bytes_received = (stats.bytes_received + length bytes) % word64;
          };
          writers = writers;
        };
        sched = s;
      },
    )

abbrev pub collected : List ℕ × Endpoint → Result (List ℕ) × Endpoint
collected (bytes, e) = (done bytes, e)

-- `conduit_receive`, given what it does where there is no message. `buffer` says whether the pointer
-- is not null; the value is what the call puts there.
abbrev pub receive_or :
    (Endpoint → Result (List ℕ) × Endpoint) → Endpoint → Bool → ℕ → Result (List ℕ) × Endpoint
receive_or no_message e buffer max_size =
    if not buffer || (max_size == 0)
    then (failed einval, e)
    else if not (is_open e.conduit.state)
    then (failed epipe, e)
    else if ltb e.conduit.messages.used header_size
    then no_message e
    else if ltb max_size (front e.conduit).size
    then (failed emsgsize, e)
    else collected (collect e)

module _ (meanwhile : Endpoint → Endpoint) (node : Bool) (self : ℕ) where
  unfoldable pub conduit_receive_again : Endpoint → Bool → ℕ → ℕ → Result (List ℕ) × Endpoint
  unfolding collect
  conduit_receive_again e buffer max_size flags =
      receive_or (λ e'. (failed eagain, e')) e buffer max_size

  abbrev pub wait_to_receive : Endpoint → Bool → ℕ → ℕ → Result (List ℕ) × Endpoint
  wait_to_receive e buffer max_size flags = elim (wait_in node e.conduit.readers self e.sched) [
    | none ↦ (fault, e)
    | some (readers, s) ↦
        (let c = e.conduit in
          conduit_receive_again
            (meanwhile (record e { conduit = record c { readers = readers }; sched = s })) buffer
            max_size (with_nonblock flags))
  ]

  abbrev pub no_message : Bool → ℕ → ℕ → Endpoint → Result (List ℕ) × Endpoint
  no_message buffer max_size flags e =
      if is_nonblock flags then (failed eagain, e) else wait_to_receive e buffer max_size flags

  unfoldable pub conduit_receive : Endpoint → Bool → ℕ → ℕ → Result (List ℕ) × Endpoint
  unfolding collect conduit_receive_again
  conduit_receive e buffer max_size flags =
      receive_or (no_message buffer max_size flags) e buffer max_size

-- The state of the conduit is not asked for.
unfoldable pub conduit_peek : Conduit → Bool → ℕ → Result (List ℕ)
conduit_peek c buffer max_size =
    if not buffer || (max_size == 0)
    then failed einval
    else if ltb c.messages.used header_size
    then done []
    else if ltb max_size (front c).size
    then failed emsgsize
    else done (
        take (front c).size
          (drop header_size (ringbuf_peek c.messages (add_size header_size (front c).size))))
