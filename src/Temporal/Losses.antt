-- ===== src/Temporal/Losses.antt =====
-- Ways in which the scheduler loses quanta.
use limitless_os.Prelude.{
  ℕ, suc, ◌+◌, ◌-◌, ◌%◌, ◌⊎◌, inl, inr, ◌<◌, ◌≡◌, ◌≢◌, refl, sym, ap, ap₂, subst, ◌∙◌, Bool, true,
  false, Option, none, some, List, [], ◌∷◌, ◌++◌, if◌then◌else◌, update, update_ne, update_self,
  update_at, arith, ℕ_discrete, length, ==_refl, ltb,
}
use limitless_os.Temporal.Quantum.{
  Quantum, Quanta, Scheduler, QuantumState, SchedulerQueue, priority_max, priority_idle, word32,
}
use limitless_os.Temporal.Queue.{queue_remove, bypass_next, bypass_prev, unlink}
use limitless_os.Temporal.Queue.Links.{elem}
use limitless_os.Temporal.Queue.Refine.{Holds}
use limitless_os.Temporal.Queue.Frame.{body}
use limitless_os.Temporal.Ready.{Lists}
use limitless_os.Temporal.Core.{
  current_cpu, temporal_yield, temporal_remove_quantum, remove_loop, remove_from, all_priorities,
  points_to, queue_of, allowed, with_quantum,
}
use limitless_os.Temporal.Select.{may_run, or_idle}
use limitless_os.Temporal.Enqueue.{
  Keeps, HasRoom, requeued, queue_of-inside, temporal_enqueue_rest, temporal_enqueue-bodies,
}
use limitless_os.Temporal.Schedule.{chosen, chosen_for, schedule_lists}
use limitless_os.Temporal.Operations.{yielding, yielded_quantum, joined, temporal_yield_lem}
use limitless_os.Temporal.Order.{pick_highest}

-- A queue that says it is empty at both ends.
abbrev pub Emptied : SchedulerQueue → Type 0
Emptied q = (q.head ≡ none) × (q.tail ≡ none)

-- `queue_remove` on a quantum without links forgets all others of the queue.
queue_remove_unlinked :
    (s : Scheduler) (x p : ℕ)
    → (s.quanta x).next_ready ≡ none
    → (s.quanta x).prev_ready ≡ none
    → let q = s.ready_queues p in
      queue_remove s.quanta q x ≡ (
        unlink s.quanta x,
        record q { head = none; tail = none; count = (q.count + word32 - 1) % word32 },
      )
unfolding queue_remove
queue_remove_unlinked s x p next prev =
    ap second_half (ap₂ (λ a b. bypass_next a b s.quanta (s.ready_queues p)) prev next)
    ∙ ap₂ (λ a b. finish (bypass_prev a b s.quanta (record (s.ready_queues p) { head = none })))
        next prev
  where
    finish : Quanta × SchedulerQueue → Quanta × SchedulerQueue
    finish (h, q) = (unlink h x, record q { count = (q.count + word32 - 1) % word32 })

    second_half : Quanta × SchedulerQueue → Quanta × SchedulerQueue
    second_half (h, q) = finish (bypass_prev (h x).next_ready (h x).prev_ready h q)

-- What the loop keeps: the quantum has no links, no other quantum has changed, and a queue that
-- counts nothing is empty at both ends.
record Unlinked (s s' : Scheduler) (x : ℕ) : Type 0 where
  next : (s'.quanta x).next_ready ≡ none
  prev : (s'.quanta x).prev_ready ≡ none
  others : (y : ℕ) → (s'.quanta y).state ≡ (s.quanta y).state
  queues :
      (q : ℕ) → q < priority_max → Emptied (s'.ready_queues q) ⊎ (0 < (s'.ready_queues q).count)

-- What one round of the loop does to queue `p`.
record Round (s s' : Scheduler) (x p : ℕ) : Type 0 where
  empties : Emptied (s'.ready_queues p)
  others : (q : ℕ) → q ≢ p → s'.ready_queues q ≡ s.ready_queues q
  unlinked : Unlinked s s' x

module _ (s : Scheduler) (x p : ℕ) (u : Unlinked s s x) where
  abbrev emptied_queue : SchedulerQueue
  emptied_queue =
      let q = s.ready_queues p in
      record q { head = none; tail = none; count = (q.count + word32 - 1) % word32 }

  abbrev emptied : Scheduler
  emptied = record s {
    quanta = unlink s.quanta x;
    ready_queues = update s.ready_queues p emptied_queue;
  }

  Emptied-queues :
      (q : ℕ)
      → q < priority_max
      → Emptied (emptied.ready_queues q) ⊎ (0 < (emptied.ready_queues q).count)
  Emptied-queues q hq = elim (ℕ_discrete q p) [
    | yes e ↦ inl (subst Emptied (sym (update_at s.ready_queues p emptied_queue q e)) (refl, refl))
    | no ne ↦
        subst (λ r. Emptied r ⊎ (0 < r.count)) (sym (update_ne s.ready_queues p emptied_queue q ne))
          (u.queues q hq)
  ]

  Round-for :
      p < priority_max
      → (b : Bool) → ltb 0 (s.ready_queues p).count ≡ b
      → Round s (if b then emptied else s) x p
  Round-for inside true e = record {
    empties = subst Emptied (sym (update_self s.ready_queues p emptied_queue)) (refl, refl);
    others = λ q ne. update_ne s.ready_queues p emptied_queue q ne;
    unlinked = record {
      next = ap (λ (q : Quantum). q.next_ready) (update_self s.quanta x _);
      prev = ap (λ (q : Quantum). q.prev_ready) (update_self s.quanta x _);
      others = λ y. ground arith;
      queues = Emptied-queues;
    };
  }
  Round-for inside false e = record {
    empties = elim (u.queues p inside) [ inl empty ↦ empty | inr pos ↦ absurd (ground arith) ];
    others = λ q ne. refl;
    unlinked = u;
  }

  round_lem : p < priority_max → Round s (remove_from s x p) x p
  round_lem inside =
      subst (λ s'. Round s s' x p)
        (sym (
          ap
            (λ (r : Quanta × SchedulerQueue).
              if ltb 0 (s.ready_queues p).count
              then record s { quanta = r.0; ready_queues = update s.ready_queues p r.1 }
              else s)
            (queue_remove_unlinked s x p u.next u.prev)))
        (Round-for inside (ltb 0 (s.ready_queues p).count) refl)

Unlinked-self : (s s' : Scheduler) (x : ℕ) → Unlinked s s' x → Unlinked s' s' x
Unlinked-self s s' x u = record {
  next = u.next;
  prev = u.prev;
  others = λ y. refl;
  queues = u.queues;
}

Unlinked-trans :
    (s s' s'' : Scheduler) (x : ℕ) → Unlinked s s' x → Unlinked s' s'' x → Unlinked s s'' x
Unlinked-trans s s' s'' x a b = record {
  next = b.next;
  prev = b.prev;
  others = λ y. b.others y ∙ a.others y;
  queues = b.queues;
}

abbrev Below : List ℕ → Type 0
Below [] = Unit {0}
Below (p ∷ ps) = (p < priority_max) × Below ps

remove_loop_lem :
    (s : Scheduler) (x : ℕ) (ps : List ℕ)
    → Below ps
    → Unlinked s s x
    → let s' = remove_loop s x ps in
      Unlinked s s' x
      × ((q : ℕ) → (elem q ps ≡ true) ⊎ Emptied (s.ready_queues q) → Emptied (s'.ready_queues q))
unfolding remove_loop
remove_loop_lem s x [] below u = (u, λ q h. elim h [ inl i ↦ cc | inr e ↦ e ])
remove_loop_lem s x (p ∷ ps) below u =
    let r = round_lem s x p u below.0 in
    let s' = remove_from s x p in
    let (u', empties) = remove_loop_lem s' x ps below.1 (Unlinked-self s s' x r.unlinked) in
    (Unlinked-trans s s' _ x r.unlinked u', λ q h. empties q (next_round s' r q h))
  where
    next_round :
        (s' : Scheduler)
        → Round s s' x p
        → (q : ℕ) → (elem q (p ∷ ps) ≡ true) ⊎ Emptied (s.ready_queues q)
        → (elem q ps ≡ true) ⊎ Emptied (s'.ready_queues q)
    next_round s' r q h = elim (ℕ_discrete q p) [
      | yes e ↦ inr (subst (λ k. Emptied (s'.ready_queues k)) (sym e) r.empties)
      | no ne ↦ elim h [
        | inl i ↦ inl (ground arith)
        | inr e ↦ inr (subst Emptied (sym (r.others q ne)) e)
      ]
    ]

Holds-Emptied :
    (s : Scheduler) (q : ℕ) (xs : List ℕ)
    → Holds s.quanta (s.ready_queues q) xs
    → Emptied (s.ready_queues q) ⊎ (0 < (s.ready_queues q).count)
Holds-Emptied s q [] v = inl (v.head_is, v.tail_is)
Holds-Emptied s q (x ∷ xs) v = inr (omega (arith, v.count_is))

-- From sound queues, removing a quantum that has no links empties all five ready queues at both
-- ends, whatever they held, while every quantum keeps its state.
pub remove_unlinked_empties :
    (s : Scheduler) (lists : Lists) (x : ℕ)
    → Keeps s lists
    → (s.quanta x).next_ready ≡ none
    → (s.quanta x).prev_ready ≡ none
    → let s' = temporal_remove_quantum s (some x) in
      ((q : ℕ) → q < priority_max → Emptied (s'.ready_queues q))
      × ((y : ℕ) → (s'.quanta y).state ≡ (s.quanta y).state)
unfolding temporal_remove_quantum
remove_unlinked_empties s lists x v next prev =
    let (u, empties) = remove_loop_lem s x all_priorities (omega arith) start in
    (λ q hq. empties q (inl (among q hq)), u.others)
  where
    start : Unlinked s s x
    start = record {
      next = next;
      prev = prev;
      others = λ y. refl;
      queues = λ q hq. Holds-Emptied s q (lists q) (v.queues q hq);
    }

    among : (q : ℕ) → q < priority_max → elem q all_priorities ≡ true
    among q hq = ground arith

-- Where the scheduler runs and no quantum is chosen explicitly, a running quantum above the idle
-- priority that the processor may run and that yields while no other is ready stays the current
-- one, but is marked ready and stands in no queue.
pub yield_alone :
    (s : Scheduler) (lists : Lists) (x : ℕ)
    → s.running ≡ true
    → Keeps s lists
    → ((q : ℕ) → q < priority_max → lists q ≡ [])
    → (s.cpu_queues current_cpu).next ≡ none
    → (s.cpu_queues current_cpu).current ≡ some x
    → (s.quanta x).state ≡ QuantumState.running
    → s.idle_quantum ≢ x
    → priority_idle < (s.quanta x).priority
    → may_run s current_cpu x ≡ true
    → (s' : Scheduler) × (temporal_yield s none ≡ some s')
      × ((s'.cpu_queues current_cpu).current ≡ some x)
      × ((s'.quanta x).state ≡ QuantumState.ready)
      × ((q : ℕ) → q < priority_max → Holds s'.quanta (s'.ready_queues q) [])
yield_alone s lists x on v empty next current running not_idle prio may =
    let (s', e, sch) = temporal_yield_lem s lists x on v next current running not_idle room in
    (
      s',
      e,
      sch.current_is ∙ ap (λ (t : ℕ × Lists). some t.0) choice,
      subst
            (λ z.
              points_to (y.cpu_queues current_cpu).current z ≡ true
              → (s'.quanta z).state ≡ (y.quanta z).state)
            (ap (λ (t : ℕ × Lists). t.0) choice) sch.stays was_current
          ∙ ap (λ (q : Quantum). q.state) written,
      λ q hq.
          subst (Holds s'.quanta (s'.ready_queues q))
            (ap (λ (l : Lists). l q) as_before ∙ none_left q hq) (sch.keeps.queues q hq),
    )
  where
    p : ℕ
    p = queue_of (s.quanta x).priority

    y : Scheduler
    y = yielding s x

    waiting : Lists
    waiting = joined s lists x

    rest : y ≡ record s {
      quanta = y.quanta;
      ready_queues = y.ready_queues;
      total_quanta = y.total_quanta;
    }
    rest = temporal_enqueue_rest (with_quantum s x (yielded_quantum s x)) x

    written : body (y.quanta x) ≡ body (yielded_quantum s x)
    written =
        temporal_enqueue-bodies (with_quantum s x (yielded_quantum s x)) x x
        ∙ ap body (update_self s.quanta x (yielded_quantum s x))

    waiting_at : waiting p ≡ x ∷ []
    waiting_at =
        update_self lists p (lists p ++ x ∷ [])
        ∙ ap (λ l. l ++ x ∷ []) (empty p (queue_of-inside (s.quanta x).priority))

    waiting_other : (q : ℕ) → q < priority_max → q ≢ p → waiting q ≡ []
    waiting_other q hq ne = update_ne lists p _ q ne ∙ empty q hq

    room : HasRoom waiting
    room q hq = elim (ℕ_discrete q p) [
      | yes e ↦
          subst (λ k. suc (length (waiting k)) < word32) (sym e)
            (subst (λ l. suc (length l) < word32) (sym waiting_at) (omega arith))
      | no ne ↦ subst (λ l. suc (length l) < word32) (sym (waiting_other q hq ne)) (omega arith)
    ]

    low : priority_idle < p
    low = ground arith

    choice : chosen y waiting ≡ (x, update waiting p [])
    choice =
        ap (chosen_for y waiting)
          (ap (λ (t : Scheduler). (t.cpu_queues current_cpu).next) rest ∙ next)
        ∙ ap (λ (t : Option ℕ × Lists). (or_idle y t.0, t.1))
            (pick_highest (may_run y current_cpu) waiting p x [] low
              (queue_of-inside (s.quanta x).priority)
              (λ q above hq. waiting_other q hq (λ e. absurd (omega arith))) waiting_at
              (ap (allowed current_cpu) written ∙ may))

    was_current : points_to (y.cpu_queues current_cpu).current x ≡ true
    was_current =
        ap (λ c. points_to c x)
          (ap (λ (t : Scheduler). (t.cpu_queues current_cpu).current) rest ∙ current)
        ∙ ==_refl x

    none_left : (q : ℕ) → q < priority_max → update waiting p [] q ≡ []
    none_left q hq = elim (ℕ_discrete q p) [
      | yes e ↦ update_at waiting p [] q e
      | no ne ↦ update_ne waiting p [] q ne ∙ waiting_other q hq ne
    ]

    as_before : schedule_lists y waiting ≡ update waiting p []
    as_before =
        ap
          (λ (t : ℕ × Lists).
            if points_to (y.cpu_queues current_cpu).current t.0
            then t.1
            else requeued y (y.cpu_queues current_cpu).current t.1)
          choice
        ∙ ap
            (λ (b : Bool).
              if b
              then update waiting p []
              else requeued y (y.cpu_queues current_cpu).current (update waiting p []))
            was_current
