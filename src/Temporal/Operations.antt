-- ===== src/Temporal/Operations.antt =====
-- The calls that move a quantum between running, ready and blocked.
use limitless_os.Prelude.{
  ℕ, ◌+◌, ◌%◌, ◌≡◌, ◌≢◌, refl, sym, ap, subst, ◌∙◌, inl, inr, Bool, true, false, none, some, [],
  ◌∷◌, if◌then◌else◌, length, length-append, update, update_self, arith, Bool-cases, ==_refl,
}
use limitless_os.Temporal.Quantum.{Quantum, QuantumState, BlockReason, Scheduler, word64}
use limitless_os.Temporal.Queue.Links.{elem, elem-append}
use limitless_os.Temporal.Ready.{Lists, MayJoin}
use limitless_os.Temporal.Core.{
  current_cpu, is_blocked, points_to, queue_of, temporal_enqueue, temporal_schedule, with_quantum,
  temporal_yield, yield_quantum, temporal_block, temporal_unblock,
}
use limitless_os.Temporal.Select.{Out}
use limitless_os.Temporal.Enqueue.{
  Keeps, HasRoom, appended, temporal_enqueue_rest, temporal_enqueue-bodies, running-Out,
  queue_of-inside, Ready-update, temporal_enqueue_lem,
}
use limitless_os.Temporal.Schedule.{Scheduled, temporal_schedule_lem}

-- The quantum marked ready, as `temporal_yield` marks it, and then enqueued.
abbrev pub yielded_quantum : Scheduler → ℕ → Quantum
yielded_quantum s x =
    let q = s.quanta x in
    record q { state = QuantumState.ready; context_switches = (q.context_switches + 1) % word64 }

abbrev pub yielding : Scheduler → ℕ → Scheduler
yielding s x = temporal_enqueue (with_quantum s x (yielded_quantum s x)) (some x)

-- The quantum behind all others of its priority.
abbrev pub joined : Scheduler → Lists → ℕ → Lists
joined s lists x = appended lists (queue_of (s.quanta x).priority) x

-- A write to a quantum in no list that leaves it ready, and the call of `temporal_enqueue` on it.
enqueue_written :
    (s : Scheduler) (lists : Lists) (x : ℕ) (q : Quantum)
    → q.state ≡ QuantumState.ready
    → q.priority ≡ (s.quanta x).priority
    → Keeps s lists
    → Out x lists
    → s.idle_quantum ≢ x
    → HasRoom lists
    → Keeps (temporal_enqueue (with_quantum s x q) (some x)) (joined s lists x)
enqueue_written s lists x q ready same v out not_idle room =
    subst
      (λ (p : ℕ).
        Keeps (temporal_enqueue (with_quantum s x q) (some x)) (appended lists (queue_of p) x))
      (ap (λ (a : Quantum). a.priority) (update_self s.quanta x q) ∙ same)
      (temporal_enqueue_lem (with_quantum s x q) lists x
        (Ready-update s.quanta s.ready_queues s.idle_quantum lists x q v out) join room)
  where
    join : MayJoin (with_quantum s x q).quanta s.idle_quantum lists x
    join = record {
      out = out;
      not_idle = not_idle;
      is_ready = ap (λ (a : Quantum). a.state) (update_self s.quanta x q) ∙ ready;
    }

joined-HasRoom :
    (s : Scheduler) (lists : Lists) (x : ℕ) → HasRoom (joined s lists x) → HasRoom lists
joined-HasRoom s lists x room q hq = ground (
  arith,
  room q hq,
  length-append (lists (queue_of (s.quanta x).priority)) (x ∷ []),
  ap (λ k. length (lists k)) {x = q} {y = queue_of (s.quanta x).priority},
)

joined-Out :
    (s : Scheduler) (lists : Lists) (x y : ℕ) → y ≢ x → Out y lists → Out y (joined s lists x)
joined-Out s lists x y ne out q hq =
    let p : ℕ = queue_of (s.quanta x).priority in
    ground (
      arith,
      out q hq,
      elem-append y (lists p) (x ∷ []),
      out p (queue_of-inside (s.quanta x).priority),
    )

-- Where the scheduler runs, no quantum is chosen explicitly and every list has room, a current quantum
-- that runs, is not the idle one and yields goes behind all others of its priority, and the processor
-- is scheduled anew.
pub temporal_yield_lem :
    (s : Scheduler) (lists : Lists) (x : ℕ)
    → s.running ≡ true
    → Keeps s lists
    → (s.cpu_queues current_cpu).next ≡ none
    → (s.cpu_queues current_cpu).current ≡ some x
    → (s.quanta x).state ≡ QuantumState.running
    → s.idle_quantum ≢ x
    → HasRoom (joined s lists x)
    → (s' : Scheduler) × (temporal_yield s none ≡ some s')
      × Scheduled (yielding s x) s' (joined s lists x)
unfolding temporal_yield
temporal_yield_lem s lists x on v next current running not_idle room = (
  temporal_schedule (yielding s x),
  ap (λ c. elim c [ none ↦ none | some y ↦ some (yield_quantum s y) ]) current,
  temporal_schedule_lem (yielding s x) (joined s lists x)
      (ap (λ (t : Scheduler). t.running) rest ∙ on)
      (enqueue_written s lists x (yielded_quantum s x) refl refl v (running-Out s lists x v running)
        not_idle (joined-HasRoom s lists x room))
      (λ y e. cc (ap (λ (t : Scheduler). (t.cpu_queues current_cpu).next) rest, e, next)) room,
)
  where
    rest : yielding s x ≡ record s {
      quanta = (yielding s x).quanta;
      ready_queues = (yielding s x).ready_queues;
      total_quanta = (yielding s x).total_quanta;
    }
    rest = temporal_enqueue_rest (with_quantum s x (yielded_quantum s x)) x

-- The quantum as `temporal_block` marks it.
abbrev pub blocked_quantum : Scheduler → ℕ → BlockReason → Quantum
blocked_quantum s x reason = record (s.quanta x) {
  state = QuantumState.blocked;
  block_reason = reason;
  block_time = s.tsc s.reads;
}

abbrev pub blocking : Scheduler → ℕ → BlockReason → Scheduler
blocking s x reason = record s {
  quanta = update s.quanta x (blocked_quantum s x reason);
  reads = s.reads + 1;
  cpu_queues =
      update s.cpu_queues current_cpu (record (s.cpu_queues current_cpu) { current = none });
}

-- Where the scheduler runs, no quantum is chosen explicitly and every list has room, a current quantum
-- that runs and blocks leaves the processor, and another is scheduled from the queues as they were.
pub temporal_block_lem :
    (s : Scheduler) (lists : Lists) (x : ℕ) (reason : BlockReason)
    → s.running ≡ true
    → Keeps s lists
    → (s.cpu_queues current_cpu).next ≡ none
    → (s.cpu_queues current_cpu).current ≡ some x
    → (s.quanta x).state ≡ QuantumState.running
    → HasRoom lists
    → (s' : Scheduler) × (temporal_block s (some x) reason ≡ some s')
      × Scheduled (blocking s x reason) s' lists
unfolding temporal_block
temporal_block_lem s lists x reason on v next current running room = (
  temporal_schedule (blocking s x reason),
  ap some (
      ap (λ (b : Bool). if b then temporal_schedule (blocking s x reason) else written) is_current),
  temporal_schedule_lem (blocking s x reason) lists on
      (Ready-update s.quanta s.ready_queues s.idle_quantum lists x (blocked_quantum s x reason) v
        (running-Out s lists x v running))
      (λ y e. cc (e, next)) room,
)
  where
    written : Scheduler
    written = record s {
      quanta = update s.quanta x (blocked_quantum s x reason);
      reads = s.reads + 1;
    }

    is_current : points_to (s.cpu_queues current_cpu).current x ≡ true
    is_current = ap (λ c. points_to c x) current ∙ ==_refl x

-- Where every list has room, a blocked quantum that is not the idle one and is unblocked becomes ready
-- and goes behind all others of its priority.
pub temporal_unblock_lem :
    (s : Scheduler) (lists : Lists) (x : ℕ)
    → Keeps s lists
    → (s.quanta x).state ≡ QuantumState.blocked
    → s.idle_quantum ≢ x
    → HasRoom lists
    → Keeps (temporal_unblock s (some x)) (joined s lists x)
unfolding temporal_unblock
temporal_unblock_lem s lists x v blocked not_idle room =
    subst (λ t. Keeps t (joined s lists x))
      (sym (
        ap (λ q. if is_blocked q then temporal_enqueue (with_quantum s x readied) (some x) else s)
          blocked))
      (enqueue_written s lists x readied refl refl v out not_idle room)
  where
    readied : Quantum
    readied = record (s.quanta x) { state = QuantumState.ready; block_reason = BlockReason.none }

    out : Out x lists
    out q hq = elim (Bool-cases (elem x (lists q))) [
      | inl i ↦ absurd (cc (blocked, v.are_ready q x hq i))
      | inr o ↦ o
    ]

-- Unblocking changes no quantum's number and no reading of the clock.
pub temporal_unblock-qid :
    (s : Scheduler) (x y : ℕ) → ((temporal_unblock s (some x)).quanta y).qid ≡ (s.quanta y).qid
unfolding temporal_unblock
temporal_unblock-qid s x y = branch (is_blocked (s.quanta x).state)
  where
    readied : Quantum
    readied = record (s.quanta x) { state = QuantumState.ready; block_reason = BlockReason.none }

    branch :
        (b : Bool)
        → ((if b then temporal_enqueue (with_quantum s x readied) (some x) else s).quanta y).qid
          ≡ (s.quanta y).qid
    branch true =
        ap (λ (q : Quantum). q.qid) (temporal_enqueue-bodies (with_quantum s x readied) x y)
        ∙ ground arith
    branch false = refl

pub temporal_unblock-tsc : (s : Scheduler) (x : ℕ) → (temporal_unblock s (some x)).tsc ≡ s.tsc
unfolding temporal_unblock
temporal_unblock-tsc s x = branch (is_blocked (s.quanta x).state)
  where
    readied : Quantum
    readied = record (s.quanta x) { state = QuantumState.ready; block_reason = BlockReason.none }

    branch :
        (b : Bool)
        → (if b then temporal_enqueue (with_quantum s x readied) (some x) else s).tsc ≡ s.tsc
    branch true = ap (λ (t : Scheduler). t.tsc) (temporal_enqueue_rest (with_quantum s x readied) x)
    branch false = refl
