-- ===== src/Kernel/Tests.antt =====
-- A registry with the quanta 1000 and 1001 at the pointers 1 and 2.
use limitless_os.Kernel.Request.{
  AbiMode, SystemRequest, Handlers, value, enosys, handle_native_request, continuum_handle_request,
}
use limitless_os.Prelude.{◌==◌, true}
use limitless_os.Kernel.Hints.{NexusHint}
use limitless_os.Prelude.{List, [], ◌∷◌, ℕ, ◌+◌, ◌≡◌, ◌≢◌, refl, true, none, some, [], arith}
use limitless_os.Temporal.Quantum.{QuantumState, BlockReason, CpuAffinity, Scheduler}
use limitless_os.Temporal.Queue.{queue_init}
use limitless_os.Temporal.Queue.Refine.{queue_init-Holds}
use limitless_os.Temporal.Enqueue.{Keeps}
use limitless_os.Kernel.{
  Kernel, continuum_get_quantum, continuum_create_quantum, continuum_terminate_quantum,
}
use limitless_os.Kernel.Lookup.{HasQid, Numbered}
use limitless_os.Kernel.Changes.{continuum_create_quantum_lem}
use limitless_os.Kernel.Termination.{continuum_terminate_quantum_lem}

abbrev scheduler : Scheduler
scheduler = record {
  quanta = λ x. record {
    qid = 999 + x;
    state = QuantumState.blocked;
    priority = 2;
    time_slice = 10;
    deadline = 0;
    cpu_affinity = CpuAffinity.any;
    cpu_mask = 1;
    block_reason = BlockReason.io;
    block_time = 0;
    next_ready = none;
    prev_ready = none;
    cpu_time = 0;
    context_switches = 0;
    deadline_misses = 0;
  };
  ready_queues = queue_init;
  cpu_queues = λ i. record { current = none; next = none; last_switch = 0; load = 0 };
  idle_quantum = 0;
  initialized = true;
  running = true;
  num_cores = 1;
  start_time = 0;
  total_quanta = 0;
  total_switches = 0;
  scheduler_ticks = 0;
  tsc = λ i. i;
  reads = 0;
}

abbrev kernel : Kernel
kernel = record { quanta = λ i. i + 1; count = 2; next_qid = 1002; sched = scheduler }

kernel-Numbered : Numbered kernel
kernel-Numbered = record {
  apart = λ i j hi hj e. omega (arith, e);
  handed_out = λ i hi. omega arith;
  bounded = omega arith;
  numbers_left = omega arith;
}

continuum_create_quantum_lem_example :
    let (qid, k) = continuum_create_quantum kernel (some 7) in
    Numbered k × (¬ (HasQid kernel qid)) × (continuum_get_quantum k qid ≡ some 7)
continuum_create_quantum_lem_example =
    continuum_create_quantum_lem kernel 7 kernel-Numbered (λ i hi e. absurd (omega (arith, e)))
      (omega arith) (omega arith)

no_lists-Keeps : Keeps scheduler (λ p. [])
no_lists-Keeps = record {
  queues = λ p hp. queue_init-Holds scheduler.quanta p;
  apart = λ p q x hp hq ne i. refl;
  are_ready = λ p x hp i. cc;
  idle_out = λ p hp. refl;
}

continuum_terminate_quantum_lem_example :
    let (result, k) = continuum_terminate_quantum kernel 1000 in
    (result ≡ true)
    × Numbered k
    × (¬ (HasQid k 1000))
    × ((other : ℕ) → other ≢ 1000 → HasQid kernel other → HasQid k other)
continuum_terminate_quantum_lem_example =
    continuum_terminate_quantum_lem kernel 1000 kernel-Numbered (0, omega arith, refl)

abbrev hints : List NexusHint
hints =
    record { qid = 1001; predicted_cpu_burst = 500; predicted_cache_affinity = 3 }
    ∷ record { qid = 5; predicted_cpu_burst = 20000; predicted_cache_affinity = 0 }
    ∷ []

-- A kernel that is the number of calls counted; the quantum 1 is a native one without restrictions, the
-- quantum 0 may call nothing.
abbrev counter : Handlers ℕ
counter = record {
  capability_check = λ s quantum id. quantum == 1;
  abi_mode = λ s quantum. AbiMode.native;
  count_call = λ s quantum. s + 1;
  allocate = λ s quantum size flags. (value 4096, s);
  free = λ s address. s;
  create_conduit = λ s name size. (value 8192, s);
  send = λ s conduit message size flags. (value size, s);
  spawn = λ s mode entry name. (value 1002, s);
  yield = λ s quantum. s;
  axon = λ s quantum request. (enosys, s);
  vortex = λ s quantum request. (enosys, s);
  cipher = λ s quantum request. (enosys, s);
}

-- SYSREQ_CONDUIT_RECEIVE
abbrev receive_request : SystemRequest
receive_request = record { request_id = 7; params = λ i. 0 }

receive_unhandled : continuum_handle_request counter 3 (some 1) (some receive_request) ≡ (enosys, 4)
unfolding continuum_handle_request handle_native_request
receive_unhandled = refl
