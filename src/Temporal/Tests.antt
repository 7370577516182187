-- ===== src/Temporal/Tests.antt =====
-- A scheduler with a running quantum 1, the ready quanta 2 and 3 and the blocked quantum 4 of normal
-- priority, and the ready quantum 5 of the idle priority.
use limitless_os.Prelude.{
  ℕ, ◌+◌, ◌≡◌, refl, true, false, none, some, [], ◌∷◌, ◌==◌, if◌then◌else◌, update, arith,
}
use limitless_os.Temporal.Quantum.{
  Quantum, Quanta, QuantumState, BlockReason, CpuAffinity, Cpu, Scheduler,
}
use limitless_os.Temporal.Queue.{queue_init, queue_enqueue, queue_dequeue, queue_remove}
use limitless_os.Temporal.Queue.Links.{elem}
use limitless_os.Temporal.Queue.Refine.{Holds, queue_init-Holds}
use limitless_os.Temporal.Queue.Remove.{queue_remove-Holds}
use limitless_os.Temporal.Ready.{Lists}
use limitless_os.Temporal.Core.{
  current_cpu, select_loop, try_priority, temporal_enqueue, select_next_quantum, temporal_schedule,
  temporal_yield, temporal_block, temporal_unblock,
}
use limitless_os.Temporal.Enqueue.{Keeps, HasRoom, appended, temporal_enqueue_lem}
use limitless_os.Temporal.Schedule.{Scheduled, NextOut, temporal_schedule_lem}
use limitless_os.Temporal.Operations.{
  joined, yielding, blocking, temporal_yield_lem, temporal_block_lem, temporal_unblock_lem,
}
use limitless_os.Temporal.Order.{select_highest, idle_priority_starves}

abbrev quantum : ℕ → QuantumState → ℕ → Quantum
quantum qid state priority = record {
  qid = qid;
  state = state;
  priority = priority;
  time_slice = 10;
  deadline = 0;
  cpu_affinity = CpuAffinity.any;
  cpu_mask = 1;
  block_reason = BlockReason.none;
  block_time = 0;
  next_ready = none;
  prev_ready = none;
  cpu_time = 0;
  context_switches = 0;
  deadline_misses = 0;
}

abbrev quanta : Quanta
quanta x =
    if x == 1
    then quantum 1 QuantumState.running 2
    else if x == 4
    then quantum 4 QuantumState.blocked 2
    else if x == 5
    then quantum 5 QuantumState.ready 0
    else quantum x QuantumState.ready 2

abbrev processor : Cpu
processor = record { current = some 1; next = none; last_switch = 5; load = 0 }

abbrev start : Scheduler
start = record {
  quanta = quanta;
  ready_queues = queue_init;
  cpu_queues = λ i. processor;
  idle_quantum = 0;
  initialized = true;
  running = true;
  num_cores = 1;
  start_time = 0;
  total_quanta = 0;
  total_switches = 0;
  scheduler_ticks = 0;
  tsc = λ i. 10 + i;
  reads = 0;
}

abbrev no_lists : Lists
no_lists p = []

start-Keeps : Keeps start no_lists
start-Keeps = record {
  queues = λ p hp. queue_init-Holds quanta p;
  apart = λ p q x hp hq ne i. refl;
  are_ready = λ p x hp i. absurd (ground arith);
  idle_out = λ p hp. refl;
}

no_lists-HasRoom : HasRoom no_lists
no_lists-HasRoom q hq = omega arith

-- The quantum 2 waits, then 3 behind it, then 5 with the idle priority.
abbrev one : Scheduler
one = temporal_enqueue start (some 2)

abbrev one_lists : Lists
one_lists = appended no_lists 2 2

one_HasRoom : HasRoom one_lists
one_HasRoom q hq = ground arith

temporal_enqueue_lem_example : Keeps (temporal_enqueue start (some 2)) (appended no_lists 2 2)
temporal_enqueue_lem_example =
    temporal_enqueue_lem start no_lists 2 start-Keeps
      (record { out = λ q hq. refl; not_idle = λ e. absurd (omega arith); is_ready = refl })
      no_lists-HasRoom

one-Keeps : Keeps one one_lists
one-Keeps =
    temporal_enqueue_lem start no_lists 2 start-Keeps
      (record { out = λ q hq. refl; not_idle = λ e. absurd (omega arith); is_ready = refl })
      no_lists-HasRoom

abbrev two : Scheduler
two = temporal_enqueue one (some 3)

abbrev two_lists : Lists
two_lists = appended one_lists 2 3

two_HasRoom : HasRoom two_lists
two_HasRoom q hq = ground arith

two-Keeps : Keeps two two_lists
unfolding temporal_enqueue queue_enqueue queue_init
two-Keeps =
    temporal_enqueue_lem one one_lists 3 one-Keeps
      (record { out = λ q hq. ground arith; not_idle = λ e. absurd (omega arith); is_ready = refl })
      one_HasRoom

abbrev three : Scheduler
three = temporal_enqueue two (some 5)

abbrev three_lists : Lists
three_lists = appended two_lists 0 5

three_HasRoom : HasRoom three_lists
three_HasRoom q hq = ground arith

three-Keeps : Keeps three three_lists
unfolding temporal_enqueue queue_enqueue queue_init
three-Keeps =
    temporal_enqueue_lem two two_lists 5 two-Keeps
      (record { out = λ q hq. ground arith; not_idle = λ e. absurd (omega arith); is_ready = refl })
      two_HasRoom

queue_remove-Holds_example :
    let (h, q) = queue_remove three.quanta (three.ready_queues 2) 3 in Holds h q (2 ∷ [])
queue_remove-Holds_example =
    queue_remove-Holds three.quanta (three.ready_queues 2) (2 ∷ []) 3 []
      (three-Keeps.queues 2 (omega arith))

no_next : NextOut three three_lists
unfolding temporal_enqueue queue_enqueue queue_init
no_next x e = cc

temporal_schedule_lem_example : Scheduled three (temporal_schedule three) three_lists
unfolding temporal_enqueue queue_enqueue queue_init
temporal_schedule_lem_example =
    temporal_schedule_lem three three_lists refl three-Keeps no_next three_HasRoom

four_HasRoom : HasRoom (joined three three_lists 1)
unfolding temporal_enqueue queue_enqueue queue_init
four_HasRoom q hq = ground arith

temporal_yield_lem_example :
    (s' : Scheduler) × (temporal_yield three none ≡ some s')
    × Scheduled (yielding three 1) s' (joined three three_lists 1)
unfolding temporal_enqueue queue_enqueue queue_init
temporal_yield_lem_example =
    temporal_yield_lem three three_lists 1 refl three-Keeps refl refl refl
      (λ e. absurd (omega arith)) four_HasRoom

temporal_block_lem_example :
    (s' : Scheduler) × (temporal_block three (some 1) BlockReason.io ≡ some s')
    × Scheduled (blocking three 1 BlockReason.io) s' three_lists
unfolding temporal_enqueue queue_enqueue queue_init
temporal_block_lem_example =
    temporal_block_lem three three_lists 1 BlockReason.io refl three-Keeps refl refl refl
      three_HasRoom

temporal_unblock_lem_example : Keeps (temporal_unblock three (some 4)) (joined three three_lists 4)
unfolding temporal_enqueue queue_enqueue queue_init
temporal_unblock_lem_example =
    temporal_unblock_lem three three_lists 4 three-Keeps refl (λ e. absurd (omega arith))
      three_HasRoom

select_highest_example :
    let (next, s') = select_next_quantum three current_cpu in
    (next ≡ 2) × Keeps s' (update three_lists 2 (3 ∷ []))
unfolding temporal_enqueue queue_enqueue queue_init
select_highest_example =
    select_highest three three_lists 2 2 (3 ∷ []) three-Keeps refl (omega arith) (omega arith)
      (λ q lo hi. ground arith) refl refl

idle_priority_starves_example :
    let (next, s') = select_next_quantum three current_cpu in
    (elem next (5 ∷ []) ≡ false) × Holds s'.quanta (s'.ready_queues 0) (5 ∷ [])
unfolding temporal_enqueue queue_enqueue queue_init
idle_priority_starves_example = idle_priority_starves three three_lists three-Keeps refl

-- The scheduler runs the first quantum of normal priority.
schedule_first : ((temporal_schedule three).cpu_queues current_cpu).current ≡ some 2
unfolding temporal_schedule temporal_enqueue queue_enqueue queue_init queue_dequeue
    select_next_quantum select_loop try_priority
schedule_first = refl
