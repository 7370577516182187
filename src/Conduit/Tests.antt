-- ===== src/Conduit/Tests.antt =====
-- A conduit with a ring of 40 bytes, which lets messages of at most ten bytes through.
use limitless_os.Conduit.Registry.{
  Tables, no_name, hash_name, strncpy, conduit_create, conduit_open, conduit_close,
}
use limitless_os.Conduit.Registry.Names.{Registered, conduit_create_lem}
use limitless_os.Conduit.Registry.Closing.{woken, conduit_close_lem}
use limitless_os.Prelude.{
  ℕ, ◌^◌, ◌≡◌, refl, true, none, some, List, [], ◌∷◌, ◌++◌, take, drop, arith, replicate,
}
use limitless_os.Temporal.Quantum.{QuantumState, BlockReason, CpuAffinity, Scheduler}
use limitless_os.Temporal.Queue.{queue_init}
use limitless_os.Temporal.Core.{temporal_unblock}
use limitless_os.Conduit.Ring.{Ring, ringbuf_init, ringbuf_write, ringbuf_read}
use limitless_os.Conduit.Ring.Contents.{IsValid, contents}
use limitless_os.Conduit.Ring.Transfer.{ringbuf_init_lem, ringbuf_write_lem, ringbuf_read_lem}
use limitless_os.Conduit.Message.{Message}
use limitless_os.Conduit.WaitQueue.{
  WaitQueue, waitqueue_init, waitqueue_wake_all, waitqueue_wake_all_lem,
}
use limitless_os.Conduit.Endpoint.{
  Conduit, ConduitState, Endpoint, done, failed, emsgsize, eagain, conduit_send,
}
use limitless_os.Conduit.Reader.{conduit_receive}
use limitless_os.Conduit.Delivery.{IsStream, sent_frame, conduit_send_lem, conduit_receive_lem}
use limitless_os.Conduit.Fifo.{
  Call, send, receive, sent, received, run_calls, spec_run, spec_send, spec_receive,
}
use limitless_os.Conduit.Exchange.{run_refines}

abbrev scheduler : Scheduler
scheduler = record {
  quanta = λ x. record {
    qid = 7;
    state = QuantumState.blocked;
    priority = 2;
    time_slice = 10;
    deadline = 0;
    cpu_affinity = CpuAffinity.any;
    cpu_mask = 1;
    block_reason = BlockReason.conduit;
    block_time = 0;
    next_ready = none;
    prev_ready = none;
    cpu_time = 0;
    context_switches = 0;
    deadline_misses = 0;
  };
  ready_queues = queue_init;
  cpu_queues = λ i. record { current = some 1; next = none; last_switch = 0; load = 0 };
  idle_quantum = 0;
  initialized = true;
  running = true;
  num_cores = 1;
  start_time = 0;
  total_quanta = 0;
  total_switches = 0;
  scheduler_ticks = 0;
  tsc = λ i. 100;
  reads = 0;
}

abbrev ring : Ring
ring = ringbuf_init (some (replicate 40 0)) 40

ring-IsValid : IsValid ring
ring-IsValid = (ringbuf_init_lem (replicate 40 0) 40 refl (omega arith) (omega arith)).0

-- A ring of four bytes whose two bytes stand at its end and its start.
abbrev wrapped : Ring
wrapped = record { buffer = 11 ∷ 0 ∷ 0 ∷ 10 ∷ []; size = 4; head = 3; tail = 1; used = 2 }

wrapped-IsValid : IsValid wrapped
wrapped-IsValid = record {
  storage = refl;
  fits = omega arith;
  head_in = omega arith;
  used_in = omega arith;
  tail_at = refl;
}

ringbuf_write_lem_example :
    let (n, rb) = ringbuf_write wrapped (12 ∷ 13 ∷ 14 ∷ []) 3 in
    (n ≡ 2) × (contents rb ≡ contents wrapped ++ take n (12 ∷ 13 ∷ 14 ∷ [])) × IsValid rb
ringbuf_write_lem_example =
    ringbuf_write_lem wrapped (12 ∷ 13 ∷ 14 ∷ []) 3 wrapped-IsValid (omega arith)

ringbuf_read_lem_example :
    let (bytes, rb) = ringbuf_read wrapped 1 in
    (bytes ≡ take 1 (contents wrapped)) × (contents rb ≡ drop 1 (contents wrapped)) × IsValid rb
ringbuf_read_lem_example = ringbuf_read_lem wrapped 1 wrapped-IsValid

abbrev header : Message
header = record { sender_qid = 300; size = 5; timestamp = 2 ^ 40; flags = 1 }

abbrev waiters : WaitQueue
waiters = record { waiting = 4 ∷ 6 ∷ []; count = 2 }

waitqueue_wake_all_lem_example :
    waitqueue_wake_all waiters scheduler
    ≡ some (waitqueue_init, temporal_unblock (temporal_unblock scheduler (some 4)) (some 6))
waitqueue_wake_all_lem_example = waitqueue_wake_all_lem waiters scheduler refl (omega arith)

abbrev conduit : Conduit
conduit = record {
  id = 1;
  name = [];
  state = ConduitState.open_state;
  messages = ring;
  buffer_size = 40;
  max_message_size = 10;
  owner_qid = 0;
  ref_count = 1;
  readers = waitqueue_init;
  writers = waitqueue_init;
  stats = record { messages_sent = 0; messages_received = 0; bytes_sent = 0; bytes_received = 0 };
}

abbrev fresh : Endpoint
fresh = record {
  conduit = conduit;
  sched = scheduler;
  registry = record { initialized = true; conduit_count = 1; message_count = 0; total_bytes = 0 };
}

fresh_IsStream : IsStream conduit []
unfolding ringbuf_init contents
fresh_IsStream = record {
  is_open = refl;
  carries = record { valid = ring-IsValid; stream = refl; formed = tt };
  same_size = refl;
  quarter = refl;
}

abbrev others : Endpoint → Endpoint
others e = e

abbrev bytes : List ℕ
bytes = 21 ∷ 22 ∷ 23 ∷ []

-- The conduit with one message of three bytes.
abbrev used_once : Endpoint
used_once = (conduit_send others true 1 fresh (some bytes) 3 1).1

conduit_send_lem_example :
    let (result, e) = conduit_send others true 1 fresh (some bytes) 3 1 in
    (result ≡ done 3) × IsStream e.conduit (sent_frame fresh 1 bytes 3 1 ∷ [])
unfolding ringbuf_init
conduit_send_lem_example =
    conduit_send_lem others true 1 fresh [] bytes 3 1 fresh_IsStream
      (record {
        sender_fits = omega arith;
        size_fits = omega arith;
        timestamp_fits = omega arith;
        flags_fits = omega arith;
      })
      (omega arith) (omega arith) (omega arith) (omega arith)

used_once_IsStream : IsStream used_once.conduit (sent_frame fresh 1 bytes 3 1 ∷ [])
unfolding ringbuf_init
used_once_IsStream =
    (conduit_send_lem others true 1 fresh [] bytes 3 1 fresh_IsStream
      (record {
        sender_fits = omega arith;
        size_fits = omega arith;
        timestamp_fits = omega arith;
        flags_fits = omega arith;
      })
      (omega arith) (omega arith) (omega arith) (omega arith)).1

abbrev too_long : ℕ
too_long = 11

conduit_receive_lem_example :
    let (result, e) = conduit_receive others true 2 used_once true 64 1 in
    (result ≡ done bytes) × IsStream e.conduit []
conduit_receive_lem_example =
    conduit_receive_lem others true 2 used_once (sent_frame fresh 1 bytes 3 1).0 bytes [] 64 1
      used_once_IsStream (omega arith) (omega arith)

abbrev calls : List Call
calls = send bytes 1 ∷ send (5 ∷ []) 1 ∷ receive 2 ∷ receive 8 ∷ receive 8 ∷ []

run_refines_example : run_calls others true 1 fresh calls ≡ spec_run 40 [] calls
run_refines_example =
    run_refines others true 1 fresh [] calls
      (record {
        listed = [];
        stream = fresh_IsStream;
        payloads = refl;
        fitting = record { times = λ i. omega arith; qids = λ q. omega arith };
      })
      (refl, omega arith, (refl, omega arith, tt))

spec_run-calls :
    spec_run 40 [] calls
    ≡ sent (done 3)
      ∷ sent (failed eagain)
      ∷ received (failed emsgsize)
      ∷ received (done bytes)
      ∷ received (failed eagain)
      ∷ []
unfolding spec_run spec_send spec_receive
spec_run-calls = refl

-- No conduit yet; the memory at 1000 and the ring are handed out to the first.
abbrev no_conduits : Tables
no_conduits = record {
  conduits = λ i. none;
  name_table = λ h. no_name;
  store = λ p. conduit;
  registry = record { initialized = true; conduit_count = 0; message_count = 0; total_bytes = 0 };
  sched = scheduler;
}

no_conduits_lem : Registered no_conduits
no_conduits_lem = record { slots = λ i p e. cc; names = λ h p e. cc }

-- "log"
abbrev log_name : List ℕ
log_name = 108 ∷ 111 ∷ 103 ∷ []

abbrev with_log : Tables
with_log = (conduit_create no_conduits (some log_name) 40 1 (some 1000) (some (replicate 40 0))).1

conduit_create_lem_example :
    let (created, t) =
      conduit_create no_conduits (some log_name) 40 1 (some 1000) (some (replicate 40 0)) in
    (created ≡ some 1000) × Registered t × ((conduit_open t (some log_name)).0 ≡ some 1000)
conduit_create_lem_example =
    conduit_create_lem no_conduits log_name 40 1 1000 0 (some (replicate 40 0)) no_conduits_lem
      (λ i e. cc) (omega arith) (λ e. absurd (omega arith)) refl refl

with_log_lem : Registered with_log
with_log_lem =
    (conduit_create_lem no_conduits log_name 40 1 1000 0 (some (replicate 40 0)) no_conduits_lem
      (λ i e. cc) (omega arith) (λ e. absurd (omega arith)) refl refl).1

conduit_close_lem_example :
    (t : Tables) × (conduit_close with_log (some 1000) ≡ some t)
    × Registered t
    × (t.sched ≡ woken (with_log.store 1000) with_log.sched)
    × (t.conduits (with_log.store 1000).id ≡ none)
    × ((conduit_open t (some (with_log.store 1000).name)).0 ≡ none)
unfolding conduit_create hash_name strncpy waitqueue_init
conduit_close_lem_example =
    conduit_close_lem with_log 1000 with_log_lem refl refl (refl, omega arith) (refl, omega arith)

-- A name of 63 characters, of which the conduit keeps 62.
abbrev long_name : List ℕ
long_name = replicate 62 97 ++ 98 ∷ []

abbrev with_long : Tables
with_long = (conduit_create no_conduits (some long_name) 40 1 (some 1000) (some (replicate 40 0))).1
