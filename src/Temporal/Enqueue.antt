-- ===== src/Temporal/Enqueue.antt =====
-- `temporal_enqueue`, and what `temporal_schedule` does to the quantum that leaves the processor.
use limitless_os.Prelude.{
  ℕ, suc, ◌+◌, ◌%◌, ◌<◌, ◌≡◌, refl, sym, ap, subst, ◌∙◌, inl, inr, Bool, true, false, Option, none,
  some, [], ◌∷◌, ◌++◌, ◌==◌, if◌then◌else◌, length, update, update_ne, update_self, arith,
  Bool-cases,
}
use limitless_os.Temporal.Quantum.{
  Quantum, Quanta, QuantumState, Scheduler, word32, word64, priority_max,
}
use limitless_os.Temporal.Queue.Links.{elem, elem-append}
use limitless_os.Temporal.Queue.Frame.{
  body, SameBodies, Holds-frame, Holds-links, body-queue_enqueue,
}
use limitless_os.Temporal.Ready.{Lists, Queues, Ready, MayJoin, Ready-enqueue}
use limitless_os.Temporal.Core.{
  current_cpu, is_ready, is_running, points_to, queue_of, push_ready, temporal_enqueue, switch_out,
  with_quantum, sub64,
}
use limitless_os.Temporal.Select.{Out}

-- Queues and quanta of a scheduler hold `lists`.
abbrev pub Keeps : Scheduler → Lists → Type 0
Keeps s lists = Ready s.quanta s.ready_queues s.idle_quantum lists

-- Every list has room for one more in a 32-bit count.
abbrev pub HasRoom : Lists → Type 0
HasRoom lists = (q : ℕ) → q < priority_max → suc (length (lists q)) < word32

abbrev pub appended : Lists → ℕ → ℕ → Lists
appended lists p x = update lists p (lists p ++ x ∷ [])

pub queue_of-inside : (p : ℕ) → queue_of p < priority_max
queue_of-inside p = ground arith

-- A quantum outside the lists may be written.
pub Ready-update :
    (h : Quanta) (rq : Queues) (idle : ℕ) (lists : Lists) (x : ℕ) (q : Quantum)
    → Ready h rq idle lists
    → Out x lists
    → Ready (update h x q) rq idle lists
Ready-update h rq idle lists x q v out = record {
  queues = λ p hp. Holds-frame h (update h x q) (rq p) (lists p) (same p hp) (v.queues p hp);
  apart = v.apart;
  are_ready = λ p y hp i. ap (λ (a : Quantum). a.state) (same p hp y i) ∙ v.are_ready p y hp i;
  idle_out = v.idle_out;
}
  where
    same : (p : ℕ) → p < priority_max → (y : ℕ) → elem y (lists p) ≡ true → update h x q y ≡ h y
    same p hp y i = update_ne h x q y (λ e. cc (out p hp, i, ap (λ (k : ℕ). elem k (lists p)) e))

-- A write that keeps the links and the state of a quantum goes unnoticed.
pub Ready-update_same :
    (h : Quanta) (rq : Queues) (idle : ℕ) (lists : Lists) (x : ℕ) (q : Quantum)
    → q.next_ready ≡ (h x).next_ready
    → q.prev_ready ≡ (h x).prev_ready
    → q.state ≡ (h x).state
    → Ready h rq idle lists
    → Ready (update h x q) rq idle lists
Ready-update_same h rq idle lists x q next prev state v = record {
  queues = λ p hp.
      Holds-links h (update h x q) (rq p) (lists p) (λ y i. ground arith) (λ y i. ground arith)
        (v.queues p hp);
  apart = v.apart;
  are_ready = λ p y hp i. same_state y ∙ v.are_ready p y hp i;
  idle_out = v.idle_out;
}
  where
    same_state : (y : ℕ) → (update h x q y).state ≡ (h y).state
    same_state y = ground arith

-- The state after the branch of `temporal_enqueue` for a ready quantum.
abbrev enqueued : Scheduler → ℕ → Scheduler
enqueued s x =
    let s' = push_ready s (queue_of (s.quanta x).priority) x in
    record s' { total_quanta = (s'.total_quanta + 1) % word64 }

temporal_enqueue_ready :
    (s : Scheduler) (x : ℕ)
    → (s.quanta x).state ≡ QuantumState.ready
    → temporal_enqueue s (some x) ≡ enqueued s x
unfolding temporal_enqueue
temporal_enqueue_ready s x h = ap (λ q. if is_ready q then enqueued s x else s) h

-- Where every list has room, `temporal_enqueue` puts a ready quantum that stands in no list and is not
-- the idle one at the end of the queue of its priority, an unknown priority counting as normal.
pub temporal_enqueue_lem :
    (s : Scheduler) (lists : Lists) (x : ℕ)
    → Keeps s lists
    → MayJoin s.quanta s.idle_quantum lists x
    → HasRoom lists
    → Keeps (temporal_enqueue s (some x)) (appended lists (queue_of (s.quanta x).priority) x)
temporal_enqueue_lem s lists x v join room =
    subst (λ t. Keeps t (appended lists (queue_of (s.quanta x).priority) x))
      (sym (temporal_enqueue_ready s x join.is_ready))
      (Ready-enqueue s.quanta s.ready_queues s.idle_quantum lists v (queue_of (s.quanta x).priority)
        inside x join (room (queue_of (s.quanta x).priority) inside))
  where
    inside : queue_of (s.quanta x).priority < priority_max
    inside = queue_of-inside (s.quanta x).priority

-- `temporal_enqueue` touches no more than quanta, queues and the count of quanta.
pub temporal_enqueue_rest :
    (s : Scheduler) (x : ℕ)
    → let s' = temporal_enqueue s (some x) in
      s' ≡ record s {
        quanta = s'.quanta;
        ready_queues = s'.ready_queues;
        total_quanta = s'.total_quanta;
      }
unfolding temporal_enqueue
temporal_enqueue_rest s x = branch (is_ready (s.quanta x).state)
  where
    branch :
        (b : Bool)
        → let s' = if b then enqueued s x else s in
          s' ≡ record s {
            quanta = s'.quanta;
            ready_queues = s'.ready_queues;
            total_quanta = s'.total_quanta;
          }
    branch true = refl
    branch false = refl

-- Nor does it change a quantum but in its links.
pub temporal_enqueue-bodies :
    (s : Scheduler) (x : ℕ) → SameBodies s.quanta (temporal_enqueue s (some x)).quanta
unfolding temporal_enqueue
temporal_enqueue-bodies s x y = branch (is_ready (s.quanta x).state)
  where
    branch : (b : Bool) → body ((if b then enqueued s x else s).quanta y) ≡ body (s.quanta y)
    branch true = body-queue_enqueue s.quanta (s.ready_queues (queue_of (s.quanta x).priority)) x y
    branch false = refl

-- Where the quantum that leaves the processor goes: if it was running, to the end of its queue.
abbrev pub requeued : Scheduler → Option ℕ → Lists → Lists
requeued s none lists = lists
requeued s (some c) lists =
    if c == s.idle_quantum
    then lists
    else if is_running (s.quanta c).state
    then appended lists (queue_of (s.quanta c).priority) c
    else lists

pub running-Out :
    (s : Scheduler) (lists : Lists) (c : ℕ)
    → Keeps s lists
    → (s.quanta c).state ≡ QuantumState.running
    → Out c lists
running-Out s lists c v h q hq = elim (Bool-cases (elem c (lists q))) [
  | inl i ↦ absurd (cc (h, v.are_ready q c hq i))
  | inr out ↦ out
]

is_running-eq : (q : QuantumState) → is_running q ≡ true → q ≡ QuantumState.running
is_running-eq QuantumState.running h = refl
is_running-eq _ h = cc

module _ (s : Scheduler) (lists : Lists) (c : ℕ) (v : Keeps s lists) (room : HasRoom lists) where
  -- The quantum with its run time brought up to date.
  abbrev timed : Quantum
  timed =
      let q = s.quanta c in
      record q {
        cpu_time =
            (q.cpu_time + sub64 (s.tsc s.reads) (s.cpu_queues current_cpu).last_switch) % word64;
      }

  abbrev clocked : Scheduler
  clocked = record s { reads = s.reads + 1 }

  abbrev SwitchedOut : Bool → Bool → Type 0
  SwitchedOut b r =
      Keeps
        (if b
          then s
          else if r
          then temporal_enqueue
              (with_quantum clocked c (record timed { state = QuantumState.ready })) (some c)
          else with_quantum clocked c timed)
        (if b
          then lists
          else if r
          then appended lists (queue_of (s.quanta c).priority) c
          else lists)

  switched_out :
      (b r : Bool) → (c == s.idle_quantum) ≡ b → is_running (s.quanta c).state ≡ r → SwitchedOut b r
  switched_out true r eb er = v
  switched_out false false eb er =
      Ready-update_same s.quanta s.ready_queues s.idle_quantum lists c timed refl refl refl v
  switched_out false true eb er =
      subst
        (λ (q : Quantum).
          Keeps (temporal_enqueue stopped (some c)) (appended lists (queue_of q.priority) c))
        (update_self s.quanta c readied)
        (temporal_enqueue_lem stopped lists c
          (Ready-update s.quanta s.ready_queues s.idle_quantum lists c readied v out) join room)
    where
      readied : Quantum
      readied = record timed { state = QuantumState.ready }

      stopped : Scheduler
      stopped = with_quantum clocked c readied

      out : Out c lists
      out = running-Out s lists c v (is_running-eq (s.quanta c).state er)

      join : MayJoin stopped.quanta s.idle_quantum lists c
      join = record {
        out = out;
        not_idle = λ e. ground arith;
        is_ready = ap (λ (q : Quantum). q.state) (update_self s.quanta c readied);
      }

  switch_out-some : Keeps (switch_out s (some c)) (requeued s (some c) lists)
  unfolding switch_out
  switch_out-some = switched_out (c == s.idle_quantum) (is_running (s.quanta c).state) refl refl

pub switch_out_lem :
    (s : Scheduler) (lists : Lists) (current : Option ℕ)
    → Keeps s lists
    → HasRoom lists
    → Keeps (switch_out s current) (requeued s current lists)
unfolding switch_out
switch_out_lem s lists none v room = v
switch_out_lem s lists (some c) v room = switch_out-some s lists c v room

pub requeued-Out :
    (s : Scheduler) (lists : Lists) (current : Option ℕ) (x : ℕ)
    → points_to current x ≡ false
    → Out x lists
    → Out x (requeued s current lists)
requeued-Out s lists none x ne out q hq = out q hq
requeued-Out s lists (some c) x ne out q hq =
    let p : ℕ = queue_of (s.quanta c).priority in
    ground (
      arith,
      out q hq,
      elem-append x (lists p) (c ∷ []),
      out p (queue_of-inside (s.quanta c).priority),
    )
