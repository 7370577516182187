-- ===== src/Temporal/Control.antt =====
-- The rest of continuum/temporal_scheduler.c: `temporal_init`, `temporal_start`, `temporal_stop`, the
-- timer's `temporal_tick`, `temporal_balance_load` and `temporal_get_stats`. A result `none` is a panic
-- or a fault. Registers are not modelled: `temporal_schedule` goes on where it was called, with the
-- quantum that is the current one then.
pub mod Laws
use limitless_os.Prelude.{
  ℕ, zero, suc, ◌+◌, ◌-◌, ◌*◌, ◌/◌, ◌%◌, ◌^◌, Bool, true, false, not, ◌&&◌, ◌||◌, Option, none,
  some, ltb, leb, ◌==◌, if◌then◌else◌, update,
}
use limitless_os.Temporal.Quantum.{
  Quantum, QuantumState, BlockReason, CpuAffinity, SchedulerQueue, Cpu, Scheduler, word32, word64,
  priority_max, priority_idle, priority_realtime,
}
use limitless_os.Temporal.Queue.{queue_init}
use limitless_os.Temporal.Core.{
  current_cpu, is_any, get_time, sub64, with_cpu, with_quantum, temporal_schedule,
}

abbrev pub max_cpu_cores : ℕ
max_cpu_cores = 256

abbrev pub idle_quantum_id : ℕ
idle_quantum_id = 2 ^ 64 - 1

-- The memory that `flux_allocate` fills with zeros, with what `temporal_init` writes there.
abbrev pub idle_context : Quantum
idle_context = record {
  qid = idle_quantum_id;
  state = QuantumState.ready;
  priority = priority_idle;
  time_slice = 0;
  deadline = 0;
  cpu_affinity = CpuAffinity.any;
  cpu_mask = 0;
  block_reason = BlockReason.none;
  block_time = 0;
  next_ready = none;
  prev_ready = none;
  cpu_time = 0;
  context_switches = 0;
  deadline_misses = 0;
}

abbrev pub no_work : Cpu
no_work = record { current = none; next = none; last_switch = 0; load = 0 }

-- The last argument is what `flux_allocate` returns.
unfoldable pub temporal_init : Scheduler → ℕ → Option ℕ → Option Scheduler
temporal_init s num_cores none = none
temporal_init s num_cores (some idle) = some (record s {
  ready_queues = λ p. if ltb p priority_max then queue_init p else s.ready_queues p;
  cpu_queues = λ i. if ltb i num_cores && ltb i max_cpu_cores then no_work else s.cpu_queues i;
  quanta = update s.quanta idle idle_context;
  idle_quantum = idle;
  num_cores = num_cores;
  initialized = true;
})

-- Up to the first quantum that is scheduled, behind which the code panics.
unfoldable pub temporal_start : Scheduler → Option Scheduler
unfolding temporal_schedule
temporal_start s =
    if s.initialized
    then (let (now, s') = get_time (record s { running = true }) in
        some (temporal_schedule (record s' { start_time = now })))
    else none

unfoldable pub temporal_stop : Scheduler → Scheduler
temporal_stop s = record s { running = false }

abbrev pub next_load : ℕ → ℕ
next_load load = (((load * 7) % word32 + 100) % word32) / 8

-- The last part of `temporal_tick`, for the quantum that was the current one.
abbrev pub check_deadline : Scheduler → ℕ → Scheduler
check_deadline s x =
    let q = s.quanta x in
    if (q.priority == priority_realtime) && ltb 0 q.deadline
    then (let (now, s') = get_time s in
        if leb q.deadline now
        then with_quantum s' x (record q { deadline_misses = (q.deadline_misses + 1) % word64 })
        else s')
    else s

-- The tick counted, the load brought up to date, and the clock read.
abbrev pub ticked : Scheduler → Scheduler
ticked s =
    let cpu = s.cpu_queues current_cpu in
    record s {
      scheduler_ticks = (s.scheduler_ticks + 1) % word64;
      cpu_queues = update s.cpu_queues current_cpu (record cpu { load = next_load cpu.load });
      reads = s.reads + 1;
    }

abbrev pub expired : Scheduler → ℕ → Bool
expired s x =
    leb (s.quanta x).time_slice (sub64 (s.tsc s.reads) (s.cpu_queues current_cpu).last_switch)

abbrev pub idle_tick : Scheduler → Scheduler
idle_tick s =
    let cpu = s.cpu_queues current_cpu in
    record s {
      scheduler_ticks = (s.scheduler_ticks + 1) % word64;
      cpu_queues = update s.cpu_queues current_cpu (record cpu { load = 0 });
    }

abbrev pub tick_current : Scheduler → Option ℕ → Scheduler
tick_current s none = idle_tick s
tick_current s (some x) =
    if x == s.idle_quantum
    then idle_tick s
    else check_deadline (if expired s x then temporal_schedule (ticked s) else ticked s) x

unfoldable pub temporal_tick : Scheduler → Scheduler
unfolding temporal_schedule
temporal_tick s = tick_current s (s.cpu_queues current_cpu).current

-- The least and the greatest load that the loop of `temporal_balance_load` has met, and where.
pub record Extremes : Type 0 where
  pub min_load : ℕ
  pub max_load : ℕ
  pub min_cpu : ℕ
  pub max_cpu : ℕ

abbrev pub meet_load : Extremes → ℕ → ℕ → Extremes
meet_load x i load = record {
  min_load = if ltb load x.min_load then load else x.min_load;
  max_load = if ltb x.max_load load then load else x.max_load;
  min_cpu = if ltb load x.min_load then i else x.min_cpu;
  max_cpu = if ltb x.max_load load then i else x.max_cpu;
}

-- The first so many processors.
abbrev pub load_loop : (ℕ → Cpu) → ℕ → Extremes
load_loop cpus zero = record { min_load = word32 - 1; max_load = 0; min_cpu = 0; max_cpu = 0 }
load_loop cpus (suc n) = meet_load (load_loop cpus n) n (cpus n).load

abbrev pub migrate : Scheduler → Extremes → Option ℕ → Scheduler
migrate s x none = s
migrate s x (some q) =
    if not (q == s.idle_quantum) && is_any (s.quanta q).cpu_affinity
    then (let s' = with_cpu s x.min_cpu (record (s.cpu_queues x.min_cpu) { next = some q }) in
        temporal_schedule
          (with_cpu s' x.max_cpu (record (s'.cpu_queues x.max_cpu) { current = none })))
    else s

unfoldable pub temporal_balance_load : Scheduler → Scheduler
unfolding temporal_schedule
temporal_balance_load s =
    let x = load_loop s.cpu_queues s.num_cores in
    if ltb 50 ((x.max_load + word32 - x.min_load) % word32)
    then migrate s x (s.cpu_queues x.max_cpu).current
    else s

-- `temporal_stats_t`, less the count that the function does not set.
pub record TemporalStats : Type 0 where
  pub total_quanta : ℕ
  pub total_switches : ℕ
  pub scheduler_ticks : ℕ
  pub uptime : ℕ
  pub ready_count : ℕ
  pub cpu_utilization : ℕ

abbrev pub count_loop : (ℕ → SchedulerQueue) → ℕ → ℕ
count_loop queues zero = 0
count_loop queues (suc n) = (count_loop queues n + (queues n).count) % word32

abbrev pub total_load : (ℕ → Cpu) → ℕ → ℕ
total_load cpus zero = 0
total_load cpus (suc n) = (total_load cpus n + (cpus n).load) % word64

-- With no processor the code divides by zero.
unfoldable pub temporal_get_stats : Scheduler → Option (TemporalStats × Scheduler)
temporal_get_stats s =
    let (now, s') = get_time s in
    if s.num_cores == 0
    then none
    else some (
      record {
        total_quanta = s.total_quanta;
        total_switches = s.total_switches;
        scheduler_ticks = s.scheduler_ticks;
        uptime = sub64 now s.start_time;
        ready_count = count_loop s.ready_queues priority_max;
        cpu_utilization = (total_load s.cpu_queues s.num_cores / s.num_cores) % word32;
      },
      s',
    )
