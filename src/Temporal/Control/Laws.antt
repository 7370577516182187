-- ===== src/Temporal/Control/Laws.antt =====
-- Starting the scheduler, the timer and the load of the processors.
use limitless_os.Prelude.{
  ℕ, zero, suc, ◌+◌, ◌%◌, ◌<◌, ◌≤◌, ◌≡◌, ◌≢◌, refl, sym, ap, subst, ◌∙◌, Bool, true, false, ◌&&◌,
  none, some, [], ltb, leb, if◌then◌else◌, update, update_self, arith, ==_ne, ℕ_discrete,
}
use limitless_os.Temporal.Quantum.{
  Quantum, QuantumState, Cpu, Scheduler, SchedulerQueue, word32, word64, priority_max,
  priority_realtime,
}
use limitless_os.Temporal.Queue.{queue_init}
use limitless_os.Temporal.Queue.Refine.{Holds, queue_init-Holds}
use limitless_os.Temporal.Ready.{Lists}
use limitless_os.Temporal.Core.{current_cpu, temporal_schedule, get_time}
use limitless_os.Temporal.Enqueue.{Keeps, HasRoom}
use limitless_os.Temporal.Schedule.{Scheduled, temporal_schedule_lem}
use limitless_os.Temporal.Control.{
  max_cpu_cores, idle_context, no_work, temporal_init, next_load, check_deadline, ticked, expired,
  idle_tick, tick_current, temporal_tick, Extremes, meet_load, load_loop,
}

-- `temporal_init` for at least one processor leaves five empty sound queues and an idle first processor.
pub temporal_init_lem :
    (s : Scheduler) (num_cores idle : ℕ)
    → 0 < num_cores
    → (s' : Scheduler) × (temporal_init s num_cores (some idle) ≡ some s')
      × Keeps s' (λ p. [])
      × ((s'.cpu_queues current_cpu).current ≡ none)
      × ((s'.cpu_queues current_cpu).next ≡ none)
      × ((s'.quanta s'.idle_quantum).state ≡ QuantumState.ready)
unfolding temporal_init
temporal_init_lem s num_cores idle pos = (
  _,
  refl,
  record {
    queues = λ p hp.
        subst (λ (q : SchedulerQueue). Holds (update s.quanta idle idle_context) q [])
          (sym (
            ap (λ (b : Bool). if b then queue_init p else s.ready_queues p) {x = ltb p priority_max}
              {y = true} (ground arith)))
          (queue_init-Holds (update s.quanta idle idle_context) p);
    apart = λ p q x hp hq ne i. refl;
    are_ready = λ p x hp i. cc;
    idle_out = λ p hp. refl;
  },
  ap (λ (c : Cpu). c.current) at_zero,
  ap (λ (c : Cpu). c.next) at_zero,
  ap (λ (q : Quantum). q.state) (update_self s.quanta idle idle_context),
)
  where
    at_zero : (if ltb 0 num_cores && ltb 0 max_cpu_cores then no_work else s.cpu_queues 0) ≡ no_work
    at_zero =
        ap (λ (b : Bool). if b then no_work else s.cpu_queues 0)
          {x = ltb 0 num_cores && ltb 0 max_cpu_cores} {y = true} (ground arith)

-- A load of at most 100 stays at most 100.
pub next_load_bound : (load : ℕ) → load ≤ 100 → next_load load ≤ 100
next_load_bound load h = omega arith

-- Where the scheduler runs, no quantum is chosen explicitly and every list has room: while the time
-- slice of a current quantum that is neither the idle one nor of the real-time priority lasts, the
-- timer only counts, and once it has expired the processor is scheduled anew.
pub temporal_tick_lem :
    (s : Scheduler) (lists : Lists) (x : ℕ)
    → s.running ≡ true
    → Keeps s lists
    → (s.cpu_queues current_cpu).next ≡ none
    → (s.cpu_queues current_cpu).current ≡ some x
    → x ≢ s.idle_quantum
    → (s.quanta x).priority ≢ priority_realtime
    → HasRoom lists
    → (expired s x ≡ false → temporal_tick s ≡ ticked s)
      × (expired s x ≡ true
          → (s' : Scheduler) × (temporal_tick s ≡ check_deadline s' x)
            × Scheduled (ticked s) s' lists)
unfolding temporal_tick
temporal_tick_lem s lists x on v next current not_idle slow room = (
  λ lasts.
      at_current
      ∙ ap (λ (b : Bool). check_deadline (if b then temporal_schedule (ticked s) else ticked s) x)
          lasts
      ∙ ap (λ (b : Bool). if b && ltb 0 (s.quanta x).deadline then checked else ticked s)
          (==_ne (s.quanta x).priority priority_realtime slow),
  λ over. (
    temporal_schedule (ticked s),
    at_current
        ∙ ap (λ (b : Bool). check_deadline (if b then temporal_schedule (ticked s) else ticked s) x)
            over,
    temporal_schedule_lem (ticked s) lists on v (λ y e. cc (e, next)) room,
  ),
)
  where
    checked : Scheduler
    checked =
        let q = s.quanta x in
        let (now, s') = get_time (ticked s) in
        if leb q.deadline now
        then record s' {
          quanta =
              update s'.quanta x (record q { deadline_misses = (q.deadline_misses + 1) % word64 });
        }
        else s'

    at_current :
        tick_current s (s.cpu_queues current_cpu).current
        ≡ check_deadline (if expired s x then temporal_schedule (ticked s) else ticked s) x
    at_current =
        ap (tick_current s) current
        ∙ ap
            (λ (b : Bool).
              if b
              then idle_tick s
              else check_deadline (if expired s x then temporal_schedule (ticked s) else ticked s)
                  x)
            (==_ne x s.idle_quantum not_idle)

-- What the loop of `temporal_balance_load` has found among the first `n` processors.
pub record Found (cpus : ℕ → Cpu) (n : ℕ) (x : Extremes) : Type 0 where
  pub least : (i : ℕ) → i < n → x.min_load ≤ (cpus i).load
  pub greatest : (i : ℕ) → i < n → (cpus i).load ≤ x.max_load
  pub at_least : (x.min_cpu < n) × ((cpus x.min_cpu).load ≡ x.min_load)
  pub at_greatest : (x.max_cpu < n) × ((cpus x.max_cpu).load ≡ x.max_load)

-- One more round of the loop.
meet_load-Found :
    (cpus : ℕ → Cpu) (n : ℕ) (x : Extremes)
    → Found cpus n x
    → Found cpus (suc n) (meet_load x n (cpus n).load)
meet_load-Found cpus n x f = record {
  least = λ i h. elim (ℕ_discrete i n) [
    | yes e ↦ subst (λ k. min_load ≤ (cpus k).load) (sym e) (ground arith)
    | no ne ↦ ground (arith, f.least i (omega (arith, ne)))
  ];
  greatest = λ i h. elim (ℕ_discrete i n) [
    | yes e ↦ subst (λ k. (cpus k).load ≤ max_load) (sym e) (ground arith)
    | no ne ↦ ground (arith, f.greatest i (omega (arith, ne)))
  ];
  at_least = at_min (ltb (cpus n).load x.min_load);
  at_greatest = at_max (ltb x.max_load (cpus n).load);
}
  where
    min_load : ℕ
    min_load = (meet_load x n (cpus n).load).min_load

    max_load : ℕ
    max_load = (meet_load x n (cpus n).load).max_load

    at_min :
        (b : Bool)
        → ((if b then n else x.min_cpu) < suc n)
          × ((cpus (if b then n else x.min_cpu)).load ≡ (if b then (cpus n).load else x.min_load))
    at_min true = (omega arith, refl)
    at_min false = (omega (arith, f.at_least.0), f.at_least.1)

    at_max :
        (b : Bool)
        → ((if b then n else x.max_cpu) < suc n)
          × ((cpus (if b then n else x.max_cpu)).load ≡ (if b then (cpus n).load else x.max_load))
    at_max true = (omega arith, refl)
    at_max false = (omega (arith, f.at_greatest.0), f.at_greatest.1)

-- The loop of `temporal_balance_load` finds a least and a greatest load among the processors, where
-- there is one and the loads are 32-bit numbers.
pub load_loop_lem :
    (cpus : ℕ → Cpu) (n : ℕ)
    → ((i : ℕ) → (cpus i).load < word32)
    → Found cpus (suc n) (load_loop cpus (suc n))
load_loop_lem cpus zero fits = record {
  least = λ i h.
      subst (λ k. (load_loop cpus 1).min_load ≤ (cpus k).load) {x = 0} {y = i} (omega arith)
        (ground (arith, fits 0));
  greatest = λ i h.
      subst (λ k. (cpus k).load ≤ (load_loop cpus 1).max_load) {x = 0} {y = i} (omega arith)
        (ground (arith, fits 0));
  at_least = ground (arith, fits 0);
  at_greatest = ground (arith, fits 0);
}
load_loop_lem cpus (suc n) fits =
    meet_load-Found cpus (suc n) (load_loop cpus (suc n)) (load_loop_lem cpus n fits)
