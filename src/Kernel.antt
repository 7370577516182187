-- ===== src/Kernel.antt =====
-- The registry of quanta of continuum/continuum_core.c: `continuum_create_quantum`,
-- `continuum_terminate_quantum` and `continuum_get_quantum`. The name, the memory domain and the
-- capabilities of a quantum, and the messages on the console, are left out.
pub mod Lookup
pub mod Changes
pub mod Termination
pub mod Hints
pub mod Request
mod Tests
use limitless_os.Prelude.{
  ℕ, zero, suc, ◌+◌, ◌-◌, ◌%◌, ◌^◌, Bool, true, false, Option, none, some, leb, ◌==◌, if◌then◌else◌,
  update,
}
use limitless_os.Temporal.Quantum.{
  Quantum, Quanta, QuantumState, CpuAffinity, Scheduler, word32, word64, priority_normal,
}
use limitless_os.Temporal.Core.{get_time, with_quantum, temporal_remove_quantum}

abbrev pub max_quanta : ℕ
max_quanta = 1024

abbrev pub default_time_slice : ℕ
default_time_slice = 10000

abbrev pub invalid_qid : ℕ
invalid_qid = 0

-- `g_quantum_registry`, the `next_qid` of `g_kernel_state`, and the scheduler.
pub record Kernel : Type 0 where
  pub quanta : ℕ → ℕ
  pub count : ℕ
  pub next_qid : ℕ
  pub sched : Scheduler

-- So many entries from entry `i` on.
unfoldable pub get_loop : (ℕ → ℕ) → Quanta → ℕ → ℕ → ℕ → Option ℕ
get_loop quanta store qid i zero = none
get_loop quanta store qid i (suc n) =
    let rest = get_loop quanta store qid (suc i) n in
    if (store (quanta i)).qid == qid then some (quanta i) else rest

unfoldable pub continuum_get_quantum : Kernel → ℕ → Option ℕ
unfolding get_loop
continuum_get_quantum k qid = let s = k.sched in get_loop k.quanta s.quanta qid 0 k.count

-- The quantum as `continuum_create_quantum` sets it up in memory that is not cleared.
abbrev pub new_quantum : Quantum → ℕ → Quantum
new_quantum memory qid = record memory {
  qid = qid;
  state = QuantumState.ready;
  priority = priority_normal;
  time_slice = default_time_slice;
  cpu_affinity = CpuAffinity.any;
  cpu_time = 0;
  context_switches = 0;
}

-- The state with the quantum at `x` set up and registered.
abbrev pub spawned : Kernel → ℕ → Kernel
spawned k x =
    let (now, s) = get_time k.sched in
    record {
      quanta = update k.quanta k.count x;
      count = (k.count + 1) % word32;
      next_qid = (k.next_qid + 1) % word64;
      sched = with_quantum s x (new_quantum (s.quanta x) k.next_qid);
    }

-- The last argument is what `flux_allocate` returns.
unfoldable pub continuum_create_quantum : Kernel → Option ℕ → ℕ × Kernel
continuum_create_quantum k allocated =
    if leb max_quanta k.count
    then (invalid_qid, k)
    else elim allocated [ none ↦ (invalid_qid, k) | some x ↦ (k.next_qid, spawned k x) ]

-- The loop of `continuum_terminate_quantum`: the last entry takes the place of the quantum's. So many
-- entries from entry `i` on.
unfoldable pub unregister_loop : (ℕ → ℕ) → ℕ → ℕ → ℕ → ℕ → (ℕ → ℕ) × ℕ
unregister_loop quanta count x i zero = (quanta, count)
unregister_loop quanta count x i (suc n) =
    let rest = unregister_loop quanta count x (suc i) n in
    if quanta i == x then (update quanta i (quanta (count - 1)), count - 1) else rest

abbrev pub terminated : Scheduler → ℕ → Scheduler
terminated s x =
    temporal_remove_quantum
      (with_quantum s x (record (s.quanta x) { state = QuantumState.terminated })) (some x)

-- The answer is true for 0 and false for -1.
unfoldable pub continuum_terminate_quantum : Kernel → ℕ → Bool × Kernel
unfolding temporal_remove_quantum continuum_get_quantum unregister_loop
continuum_terminate_quantum k qid = elim (continuum_get_quantum k qid) [
  | none ↦ (false, k)
  | some x ↦
      (let (quanta, count) = unregister_loop k.quanta k.count x 0 k.count in
        (true, record k { quanta = quanta; count = count; sched = terminated k.sched x }))
]
