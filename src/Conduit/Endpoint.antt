-- ===== src/Conduit/Endpoint.antt =====
-- `conduit_send` of continuum/conduit_ipc.c, and the data of a conduit. The pointer to the conduit is not
-- null. The locks are left out: between two points at which the
-- caller gives up the processor a call is one atomic step. `continuum_get_current_quantum` has no
-- definition in the repository; its result is the argument `self`.
use limitless_os.Prelude.{
  ℕ, ◌+◌, ◌-◌, ◌%◌, Bool, true, false, not, ◌||◌, Option, none, some, List, [], ltb, ◌==◌,
  if◌then◌else◌,
}
use limitless_os.Temporal.Quantum.{Scheduler, word64}
use limitless_os.Temporal.Core.{get_time, temporal_yield}
use limitless_os.Conduit.Ring.{Ring, add_size, ringbuf_write}
use limitless_os.Conduit.Message.{Message, header_size, header_bytes}
use limitless_os.Conduit.WaitQueue.{WaitQueue, waitqueue_add, waitqueue_remove}

-- `conduit_state_t`
pub data ConduitState : Type 0 where
  closed open_state closing error : ConduitState

-- `conduit_stats_t`, less the two counters that the file never touches.
pub record ConduitStats : Type 0 where
  pub messages_sent : ℕ
  pub messages_received : ℕ
  pub bytes_sent : ℕ
  pub bytes_received : ℕ

-- `conduit_t`, less the permissions, which the file never touches.
pub record Conduit : Type 0 where
  pub id : ℕ
  pub name : List ℕ
  pub state : ConduitState
  pub messages : Ring
  pub buffer_size : ℕ
  pub max_message_size : ℕ
  pub owner_qid : ℕ
  pub ref_count : ℕ
  pub readers : WaitQueue
  pub writers : WaitQueue
  pub stats : ConduitStats

-- The counters of `conduit_registry_t`.
pub record Registry : Type 0 where
  pub initialized : Bool
  pub conduit_count : ℕ
  pub message_count : ℕ
  pub total_bytes : ℕ

-- What a call on one conduit reads and writes.
pub record Endpoint : Type 0 where
  pub conduit : Conduit
  pub sched : Scheduler
  pub registry : Registry

-- The error codes that the calls return.
pub data Errno : Type 0 where
  einval epipe emsgsize eagain : Errno

-- The result of a call: a value, an error code, or the fault of a null pointer dereferenced.
pub data Result {ℓ} (A : Type ℓ) : Type ℓ where
  done : A → Result A
  failed : Errno → Result A
  fault : Result A

abbrev pub is_open : ConduitState → Bool
is_open ConduitState.open_state = true
is_open _ = false

-- CONDUIT_FLAG_NONBLOCK is the lowest bit of the flags.
abbrev pub is_nonblock : ℕ → Bool
is_nonblock flags = flags % 2 == 1

-- `flags | CONDUIT_FLAG_NONBLOCK`
abbrev pub with_nonblock : ℕ → ℕ
with_nonblock flags = flags + 1 - flags % 2

abbrev pub is_null : Option (List ℕ) → Bool
is_null none = true
is_null (some bytes) = false

abbrev pub or_empty : Option (List ℕ) → List ℕ
or_empty none = []
or_empty (some bytes) = bytes

-- Whether the conduit's lock protects enough room for a message of `size` bytes.
abbrev pub lacks_room : Conduit → ℕ → Bool
lacks_room c size = ltb c.buffer_size (add_size c.messages.used (add_size header_size size))

-- The part of `conduit_send` behind the check for space.
unfoldable pub deliver : Endpoint → ℕ → List ℕ → ℕ → ℕ → Endpoint
deliver e self bytes size flags =
    let c = e.conduit in
    let (now, s) = get_time e.sched in
    let header : Message = record {
      sender_qid = (s.quanta self).qid;
      size = size;
      timestamp = now;
      flags = flags;
    } in
    let (n, ring) = ringbuf_write c.messages (header_bytes header) header_size in
    let (m, ring') = ringbuf_write ring bytes size in
    let stats = c.stats in
    let registry = e.registry in
    let (woken, readers, s') = waitqueue_remove c.readers s in
    record {
      conduit = record c {
        messages = ring';
        stats = record stats {
          messages_sent = (stats.messages_sent + 1) % word64;
          bytes_sent = (stats.bytes_sent + size) % word64;
        };
        readers = readers;
      };
      sched = s';
      registry = record registry {
        message_count = (registry.message_count + 1) % word64;
        total_bytes = (registry.total_bytes + size) % word64;
      };
    }

-- `conduit_send`, given what it does where the message does not fit.
abbrev pub send_or :
    (Endpoint → Result ℕ × Endpoint) → Endpoint → ℕ → Option (List ℕ) → ℕ → ℕ → Result ℕ × Endpoint
send_or no_room e self message size flags =
    if is_null message || (size == 0)
    then (failed einval, e)
    else if not (is_open e.conduit.state)
    then (failed epipe, e)
    else if ltb e.conduit.max_message_size size
    then (failed emsgsize, e)
    else if lacks_room e.conduit size
    then no_room e
    else (done size, deliver e self (or_empty message) size flags)

-- The calls of `waitqueue_add` and `temporal_yield`, for the queue of the readers or the writers.
abbrev pub yielded : WaitQueue × Scheduler → ℕ → Option (WaitQueue × Scheduler)
yielded (wq, s) self = elim (temporal_yield s (some self)) [ none ↦ none | some s' ↦ some (wq, s') ]

abbrev pub wait_in : Bool → WaitQueue → ℕ → Scheduler → Option (WaitQueue × Scheduler)
wait_in node wq self s = elim (waitqueue_add node wq self s) [
  | none ↦ none
  | some r ↦ yielded r self
]

-- `meanwhile` is what the other quanta do until the caller runs again, and `node` whether a node for
-- the wait queue can be allocated.
module _ (meanwhile : Endpoint → Endpoint) (node : Bool) (self : ℕ) where
  -- The call that `conduit_send` makes of itself after waiting.
  unfoldable pub conduit_send_again : Endpoint → Option (List ℕ) → ℕ → ℕ → Result ℕ × Endpoint
  unfolding deliver
  conduit_send_again e message size flags =
      send_or (λ e'. (failed eagain, e')) e self message size (with_nonblock flags)

  abbrev pub wait_to_send : Endpoint → Option (List ℕ) → ℕ → ℕ → Result ℕ × Endpoint
  wait_to_send e message size flags = elim (wait_in node e.conduit.writers self e.sched) [
    | none ↦ (fault, e)
    | some (writers, s) ↦
        (let c = e.conduit in
          conduit_send_again
            (meanwhile (record e { conduit = record c { writers = writers }; sched = s })) message
            size flags)
  ]

  abbrev pub full_ring : Option (List ℕ) → ℕ → ℕ → Endpoint → Result ℕ × Endpoint
  full_ring message size flags e =
      if is_nonblock flags then (failed eagain, e) else wait_to_send e message size flags

  unfoldable pub conduit_send : Endpoint → Option (List ℕ) → ℕ → ℕ → Result ℕ × Endpoint
  unfolding deliver conduit_send_again
  conduit_send e message size flags =
      send_or (full_ring message size flags) e self message size flags
