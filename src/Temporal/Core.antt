-- ===== src/Temporal/Core.antt =====
-- The scheduler of continuum/temporal_scheduler.c: selection, context switch, and the operations
-- that the rest of the kernel calls. `temporal_get_current_cpu` always answers 0, and
-- `temporal_wake_idle_cpu` does nothing. `temporal_save_context` and `temporal_load_context` move
-- registers only. A result `none` is a null pointer that the code dereferences, or a panic.
use limitless_os.Prelude.{
  ℕ, ◌+◌, ◌-◌, ◌/◌, ◌%◌, ◌^◌, Bool, true, false, ◌||◌, Option, none, some, List, [], ◌∷◌, ltb, leb,
  ◌==◌, if◌then◌else◌, update,
}
use limitless_os.Temporal.Quantum.{
  Quantum, QuantumState, BlockReason, CpuAffinity, Cpu, Scheduler, word64, priority_max,
  priority_normal,
}
use limitless_os.Temporal.Queue.{queue_enqueue, queue_dequeue, queue_remove}

abbrev pub current_cpu : ℕ
current_cpu = 0

abbrev pub is_ready : QuantumState → Bool
is_ready QuantumState.ready = true
is_ready _ = false

abbrev pub is_running : QuantumState → Bool
is_running QuantumState.running = true
is_running _ = false

abbrev pub is_blocked : QuantumState → Bool
is_blocked QuantumState.blocked = true
is_blocked _ = false

abbrev pub is_any : CpuAffinity → Bool
is_any CpuAffinity.any = true
is_any _ = false

-- Whether a pointer that may be null is `x`.
abbrev pub points_to : Option ℕ → ℕ → Bool
points_to none x = false
points_to (some y) x = y == x

-- `continuum_get_time`: the next reading of the counter.
abbrev pub get_time : Scheduler → ℕ × Scheduler
get_time s = (s.tsc s.reads, record s { reads = s.reads + 1 })

abbrev pub sub64 : ℕ → ℕ → ℕ
sub64 a b = (a + word64 - b) % word64

abbrev pub with_cpu : Scheduler → ℕ → Cpu → Scheduler
with_cpu s cpu_id cpu = record s { cpu_queues = update s.cpu_queues cpu_id cpu }

abbrev pub with_quantum : Scheduler → ℕ → Quantum → Scheduler
with_quantum s x q = record s { quanta = update s.quanta x q }

-- The queue that `temporal_enqueue` chooses.
abbrev pub queue_of : ℕ → ℕ
queue_of priority = if leb priority_max priority then priority_normal else priority

-- `queue_enqueue(&g_ready_queues[priority], quantum)`
abbrev pub push_ready : Scheduler → ℕ → ℕ → Scheduler
push_ready s priority x =
    let (quanta, queue) = queue_enqueue s.quanta (s.ready_queues priority) x in
    record s { quanta = quanta; ready_queues = update s.ready_queues priority queue }

unfoldable pub temporal_enqueue : Scheduler → Option ℕ → Scheduler
temporal_enqueue s none = s
temporal_enqueue s (some x) =
    if is_ready (s.quanta x).state
    then (let s' = push_ready s (queue_of (s.quanta x).priority) x in
        record s' { total_quanta = (s'.total_quanta + 1) % word64 })
    else s

-- The body of the loop of `temporal_remove_quantum`.
abbrev pub remove_from : Scheduler → ℕ → ℕ → Scheduler
remove_from s x priority =
    if ltb 0 (s.ready_queues priority).count
    then (let (quanta, queue) = queue_remove s.quanta (s.ready_queues priority) x in
        record s { quanta = quanta; ready_queues = update s.ready_queues priority queue })
    else s

unfoldable pub remove_loop : Scheduler → ℕ → List ℕ → Scheduler
remove_loop s x [] = s
remove_loop s x (p ∷ ps) = remove_loop (remove_from s x p) x ps

abbrev pub all_priorities : List ℕ
all_priorities = 0 ∷ 1 ∷ 2 ∷ 3 ∷ 4 ∷ []

unfoldable pub temporal_remove_quantum : Scheduler → Option ℕ → Scheduler
unfolding remove_loop
temporal_remove_quantum s none = s
temporal_remove_quantum s (some x) =
    let s' = remove_loop s x all_priorities in
    record s' { total_quanta = (s'.total_quanta + word64 - 1) % word64 }

-- `cpu_affinity == CPU_AFFINITY_ANY || (cpu_mask & (1ULL << cpu_id))`
abbrev pub allowed : ℕ → Quantum → Bool
allowed cpu_id q = is_any q.cpu_affinity || ((q.cpu_mask / 2 ^ cpu_id) % 2 == 1)

-- The body of the loop of `select_next_quantum`: the quantum that it returns, if it returns one.
abbrev pub try_dequeued : ℕ → ℕ → Option ℕ → Scheduler → Option ℕ × Scheduler
try_dequeued cpu_id priority none s = (none, s)
try_dequeued cpu_id priority (some x) s =
    if allowed cpu_id (s.quanta x) then (some x, s) else (none, push_ready s priority x)

unfoldable pub try_priority : Scheduler → ℕ → ℕ → Option ℕ × Scheduler
try_priority s cpu_id priority =
    if ltb 0 (s.ready_queues priority).count
    then (let (taken, quanta, queue) = queue_dequeue s.quanta (s.ready_queues priority) in
        try_dequeued cpu_id priority taken
          (record s { quanta = quanta; ready_queues = update s.ready_queues priority queue }))
    else (none, s)

unfoldable pub select_loop : Scheduler → ℕ → List ℕ → ℕ × Scheduler
select_loop s cpu_id [] = (s.idle_quantum, s)
select_loop s cpu_id (p ∷ ps) =
    let (taken, s') = try_priority s cpu_id p in
    elim taken [ none ↦ select_loop s' cpu_id ps | some x ↦ (x, s') ]

-- From PRIORITY_REALTIME down to PRIORITY_LOW.
abbrev pub scanned : List ℕ
scanned = 4 ∷ 3 ∷ 2 ∷ 1 ∷ []

unfoldable pub select_next_quantum : Scheduler → ℕ → ℕ × Scheduler
select_next_quantum s cpu_id = elim (s.cpu_queues cpu_id).next [
  | some x ↦ (x, with_cpu s cpu_id (record (s.cpu_queues cpu_id) { next = none }))
  | none ↦ select_loop s cpu_id scanned
]

-- What `temporal_schedule` does to the quantum that leaves the processor.
unfoldable pub switch_out : Scheduler → Option ℕ → Scheduler
unfolding temporal_enqueue
switch_out s none = s
switch_out s (some x) =
    if x == s.idle_quantum
    then s
    else let (now, s') = get_time s in
      let runtime = sub64 now (s'.cpu_queues current_cpu).last_switch in
      let q = s'.quanta x in
      let q' = record q { cpu_time = (q.cpu_time + runtime) % word64 } in
      if is_running q'.state
      then temporal_enqueue (with_quantum s' x (record q' { state = QuantumState.ready })) (some x)
      else with_quantum s' x q'

unfoldable pub switch_in : Scheduler → ℕ → Scheduler
switch_in s x =
    let (now, s') = get_time s in
    let q = s'.quanta x in
    let cpu = s'.cpu_queues current_cpu in
    record s' {
      cpu_queues =
          update s'.cpu_queues current_cpu (record cpu { current = some x; last_switch = now });
      quanta = update s'.quanta x (record q {
        state = QuantumState.running;
        context_switches = (q.context_switches + 1) % word64;
      });
      total_switches = (s'.total_switches + 1) % word64;
    }

unfoldable pub temporal_schedule : Scheduler → Scheduler
unfolding select_next_quantum switch_out switch_in
temporal_schedule s =
    if s.running
    then (let current = (s.cpu_queues current_cpu).current in
        let (next, s') = select_next_quantum s current_cpu in
        if points_to current next then s' else switch_in (switch_out s' current) next)
    else s

-- `if (!quantum) quantum = temporal_get_current();`
abbrev pub or_current : Scheduler → Option ℕ → Option ℕ
or_current s (some x) = some x
or_current s none = (s.cpu_queues current_cpu).current

abbrev pub yield_quantum : Scheduler → ℕ → Scheduler
yield_quantum s x =
    let q = s.quanta x in
    temporal_schedule (
      temporal_enqueue
        (with_quantum s x (record q {
          state = QuantumState.ready;
          context_switches = (q.context_switches + 1) % word64;
        }))
        (some x))

unfoldable pub temporal_yield : Scheduler → Option ℕ → Option Scheduler
unfolding temporal_schedule temporal_enqueue
temporal_yield s quantum = elim (or_current s quantum) [
  | none ↦ none
  | some x ↦ some (yield_quantum s x)
]

abbrev pub block_quantum : Scheduler → ℕ → BlockReason → Scheduler
block_quantum s x reason =
    let (now, s') = get_time s in
    let q = s'.quanta x in
    let s'' =
      with_quantum s' x
        (record q { state = QuantumState.blocked; block_reason = reason; block_time = now }) in
    let cpu = s''.cpu_queues current_cpu in
    if points_to cpu.current x
    then temporal_schedule (with_cpu s'' current_cpu (record cpu { current = none }))
    else s''

unfoldable pub temporal_block : Scheduler → Option ℕ → BlockReason → Option Scheduler
unfolding temporal_schedule
temporal_block s quantum reason = elim (or_current s quantum) [
  | none ↦ none
  | some x ↦ some (block_quantum s x reason)
]

unfoldable pub temporal_unblock : Scheduler → Option ℕ → Scheduler
unfolding temporal_enqueue
temporal_unblock s none = s
temporal_unblock s (some x) =
    let q = s.quanta x in
    if is_blocked q.state
    then temporal_enqueue
        (with_quantum s x
          (record q { state = QuantumState.ready; block_reason = BlockReason.none }))
        (some x)
    else s
