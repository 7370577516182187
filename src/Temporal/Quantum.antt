-- ===== src/Temporal/Quantum.antt =====
-- The data of continuum/temporal_scheduler.h and of the part of continuum/continuum_core.h that the
-- scheduler reads and writes. A pointer to a quantum is a number, and the quanta themselves are the
-- store `quanta` from pointers to their contents.
use limitless_os.Prelude.{ℕ, ◌^◌, Bool, Option}

-- `quantum_state_t`
pub data QuantumState : Type 0 where
  created ready running blocked sleeping terminated : QuantumState

-- `block_reason_t`
pub data BlockReason : Type 0 where
  none io conduit mutex sleep wait : BlockReason

-- `cpu_affinity_t`
pub data CpuAffinity : Type 0 where
  any single numa custom : CpuAffinity

-- `priority_t`, an index of the ready queues.
abbrev pub priority_idle : ℕ
priority_idle = 0

abbrev pub priority_low : ℕ
priority_low = 1

abbrev pub priority_normal : ℕ
priority_normal = 2

abbrev pub priority_high : ℕ
priority_high = 3

abbrev pub priority_realtime : ℕ
priority_realtime = 4

abbrev pub priority_max : ℕ
priority_max = 5

abbrev pub word32 : ℕ
word32 = 2 ^ 32

abbrev pub word64 : ℕ
word64 = 2 ^ 64

-- `quantum_context_t`, less what the scheduler does not touch. The fields of `scheduling` and
-- `stats` stand in the record itself.
pub record Quantum : Type 0 where
  pub qid : ℕ
  pub state : QuantumState
  pub priority : ℕ
  pub time_slice : ℕ
  pub deadline : ℕ
  pub cpu_affinity : CpuAffinity
  pub cpu_mask : ℕ
  pub block_reason : BlockReason
  pub block_time : ℕ
  pub next_ready : Option ℕ
  pub prev_ready : Option ℕ
  pub cpu_time : ℕ
  pub context_switches : ℕ
  pub deadline_misses : ℕ

abbrev pub Quanta : Type 0
Quanta = ℕ → Quantum

-- `scheduler_queue_t`
pub record SchedulerQueue : Type 0 where
  pub head : Option ℕ
  pub tail : Option ℕ
  pub count : ℕ
  pub priority : ℕ

-- An entry of `g_cpu_queues`.
pub record Cpu : Type 0 where
  pub current : Option ℕ
  pub next : Option ℕ
  pub last_switch : ℕ
  pub load : ℕ

-- `g_scheduler` with the other globals of the file. `tsc` are the readings of the time stamp
-- counter, one for each call of `continuum_get_time`, and `reads` counts those made.
pub record Scheduler : Type 0 where
  pub quanta : Quanta
  pub ready_queues : ℕ → SchedulerQueue
  pub cpu_queues : ℕ → Cpu
  pub idle_quantum : ℕ
  pub initialized : Bool
  pub running : Bool
  pub num_cores : ℕ
  pub start_time : ℕ
  pub total_quanta : ℕ
  pub total_switches : ℕ
  pub scheduler_ticks : ℕ
  pub tsc : ℕ → ℕ
  pub reads : ℕ
