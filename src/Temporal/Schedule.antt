-- ===== src/Temporal/Schedule.antt =====
-- `temporal_schedule` against its specification: who runs next, and who waits where.
use limitless_os.Prelude.{
  ℕ, suc, ◌<◌, ◌≡◌, refl, sym, ap, ap₂, subst, ◌∙◌, Bool, true, false, Option, none, some, ◌==◌,
  if◌then◌else◌, List, [], ◌∷◌, length, update_self, arith, ==_iff,
}
use limitless_os.Temporal.Quantum.{Quantum, QuantumState, Scheduler, word32}
use limitless_os.Temporal.Queue.Frame.{SameBodies}
use limitless_os.Temporal.Ready.{Lists}
use limitless_os.Temporal.Core.{
  current_cpu, is_running, points_to, queue_of, scanned, select_next_quantum, switch_out, switch_in,
  temporal_schedule, with_cpu, select_loop,
}
use limitless_os.Temporal.Select.{
  pick, pick-length, Selected-Ready, Out, may_run, or_idle, select_loop_lem,
}
use limitless_os.Temporal.Enqueue.{
  Keeps, HasRoom, appended, Ready-update, requeued, requeued-Out, switch_out_lem,
}

-- The priorities that the specification looks at, the highest first.
abbrev pub by_priority : List ℕ
by_priority = 4 ∷ 3 ∷ 2 ∷ 1 ∷ []

-- Who runs next, with the lists that the choice leaves: the quantum chosen explicitly, if there is
-- one, and otherwise the one that `pick` finds.
abbrev pub chosen_for : Scheduler → Lists → Option ℕ → ℕ × Lists
chosen_for s lists (some x) = (x, lists)
chosen_for s lists none =
    let (taken, lists') = pick (may_run s current_cpu) lists by_priority in
    (or_idle s taken, lists')

abbrev pub chosen : Scheduler → Lists → ℕ × Lists
chosen s lists = chosen_for s lists (s.cpu_queues current_cpu).next

-- The specification of `temporal_schedule`.
abbrev pub schedule_lists : Scheduler → Lists → Lists
schedule_lists s lists =
    let (x, lists') = chosen s lists in
    let current = (s.cpu_queues current_cpu).current in
    if points_to current x then lists' else requeued s current lists'

-- An explicitly chosen quantum waits in no list.
abbrev pub NextOut : Scheduler → Lists → Type 0
NextOut s lists = (x : ℕ) → (s.cpu_queues current_cpu).next ≡ some x → Out x lists

-- What `select_next_quantum` leaves, against the choice that the specification makes.
pub record Choice (s : Scheduler) (r : ℕ × Scheduler) (t : ℕ × Lists) : Type 0 where
  pub who : r.0 ≡ t.0
  pub keeps : Keeps r.1 t.1
  pub out : Out r.0 t.1
  pub bodies : SameBodies s.quanta r.1.quanta
  pub current_kept : (r.1.cpu_queues current_cpu).current ≡ (s.cpu_queues current_cpu).current
  pub idle_kept : r.1.idle_quantum ≡ s.idle_quantum

Choice-for :
    (s : Scheduler) (lists : Lists) (n : Option ℕ)
    → Keeps s lists
    → ((x : ℕ) → n ≡ some x → Out x lists)
    → Choice s
        (elim n [
          | some x ↦ (x, with_cpu s current_cpu (record (s.cpu_queues current_cpu) { next = none }))
          | none ↦ select_loop s current_cpu scanned
        ])
        (chosen_for s lists n)
Choice-for s lists (some x) v next_out = record {
  who = refl;
  keeps = v;
  out = next_out x refl;
  bodies = λ y. refl;
  current_kept = refl;
  idle_kept = refl;
}
Choice-for s lists none v next_out =
    let (who, sel, out) = select_loop_lem s current_cpu lists scanned v (omega arith) in
    record {
      who = who;
      keeps = Selected-Ready s _ _ sel;
      out = out;
      bodies = sel.bodies;
      current_kept = ap (λ (t : Scheduler). (t.cpu_queues current_cpu).current) sel.rest;
      idle_kept = ap (λ (t : Scheduler). t.idle_quantum) sel.rest;
    }

pub select_next_quantum_lem :
    (s : Scheduler) (lists : Lists)
    → Keeps s lists
    → NextOut s lists
    → Choice s (select_next_quantum s current_cpu) (chosen s lists)
unfolding select_next_quantum
select_next_quantum_lem s lists v next_out =
    Choice-for s lists (s.cpu_queues current_cpu).next v next_out

-- The selection does not change where the quantum that leaves would go.
requeued_same :
    (s s' : Scheduler) (current : Option ℕ) (lists : Lists)
    → SameBodies s.quanta s'.quanta
    → s'.idle_quantum ≡ s.idle_quantum
    → requeued s' current lists ≡ requeued s current lists
requeued_same s s' none lists b i = refl
requeued_same s s' (some c) lists b i =
    ap₂
      (λ (q : Quantum) (idle : ℕ).
        if c == idle
        then lists
        else if is_running q.state
        then appended lists (queue_of q.priority) c
        else lists)
      (b c) i

chosen-HasRoom : (s : Scheduler) (lists : Lists) → HasRoom lists → HasRoom (chosen s lists).1
chosen-HasRoom s lists room q hq =
    let shorter = pick-length (may_run s current_cpu) lists scanned q in
    for (s.cpu_queues current_cpu).next (omega (arith, room q hq, shorter))
  where
    for :
        (n : Option ℕ)
        → suc (length ((pick (may_run s current_cpu) lists scanned).1 q)) < word32
        → suc (length ((chosen_for s lists n).1 q)) < word32
    for none h = h
    for (some x) h = room q hq

points_to-eq : (current : Option ℕ) (x : ℕ) → points_to current x ≡ true → current ≡ some x
points_to-eq none x h = cc
points_to-eq (some c) x h = ap some ((==_iff c x).0 h)

switch_in-Keeps :
    (s : Scheduler) (lists : Lists) (x : ℕ)
    → Keeps s lists
    → Out x lists
    → Keeps (switch_in s x) lists
unfolding switch_in
switch_in-Keeps s lists x v out =
    Ready-update s.quanta s.ready_queues s.idle_quantum lists x _ v out

switch_in-current :
    (s : Scheduler) (x : ℕ) → ((switch_in s x).cpu_queues current_cpu).current ≡ some x
unfolding switch_in
switch_in-current s x = refl

switch_in-runs : (s : Scheduler) (x : ℕ) → ((switch_in s x).quanta x).state ≡ QuantumState.running
unfolding switch_in
switch_in-runs s x = ap (λ (q : Quantum). q.state) (update_self s.quanta x _)

-- What `temporal_schedule` does once the choice `r` is made.
abbrev after_choice : Option ℕ → ℕ × Scheduler → Bool → Scheduler
after_choice current r same = if same then r.1 else switch_in (switch_out r.1 current) r.0

module _ (s : Scheduler) (current : Option ℕ) (r : ℕ × Scheduler) (t : ℕ × Lists) (c : Choice s r t)
    (was : (s.cpu_queues current_cpu).current ≡ current) (room : HasRoom t.1) where
  after_choice-Keeps :
      (same : Bool)
      → points_to current r.0 ≡ same
      → Keeps (after_choice current r same) (if same then t.1 else requeued s current t.1)
  after_choice-Keeps true e = c.keeps
  after_choice-Keeps false e =
      subst (λ l. Keeps (after_choice current r false) l)
        (requeued_same s r.1 current t.1 c.bodies c.idle_kept)
        (switch_in-Keeps (switch_out r.1 current) (requeued r.1 current t.1) r.0
          (switch_out_lem r.1 t.1 current c.keeps room) (requeued-Out r.1 t.1 current r.0 e c.out))

  after_choice-current :
      (same : Bool)
      → points_to current r.0 ≡ same
      → ((after_choice current r same).cpu_queues current_cpu).current ≡ some r.0
  after_choice-current true e = c.current_kept ∙ was ∙ points_to-eq current r.0 e
  after_choice-current false e = switch_in-current (switch_out r.1 current) r.0

  after_choice-runs :
      (same : Bool)
      → same ≡ false
      → ((after_choice current r same).quanta r.0).state ≡ QuantumState.running
  after_choice-runs true e = cc
  after_choice-runs false e = switch_in-runs (switch_out r.1 current) r.0

  after_choice-stays :
      (same : Bool)
      → same ≡ true
      → ((after_choice current r same).quanta r.0).state ≡ (s.quanta r.0).state
  after_choice-stays true e = ap (λ (q : Quantum). q.state) (c.bodies r.0)
  after_choice-stays false e = cc

-- What `temporal_schedule` leaves behind: the queues hold the specified lists, the chosen quantum is
-- the current one; it is marked running if it was not the current one before, and keeps its state if
-- it was.
pub record Scheduled (s s' : Scheduler) (lists : Lists) : Type 0 where
  pub keeps : Keeps s' (schedule_lists s lists)
  pub current_is : (s'.cpu_queues current_cpu).current ≡ some (chosen s lists).0
  pub runs :
      points_to (s.cpu_queues current_cpu).current (chosen s lists).0 ≡ false
      → (s'.quanta (chosen s lists).0).state ≡ QuantumState.running
  pub stays :
      points_to (s.cpu_queues current_cpu).current (chosen s lists).0 ≡ true
      → (s'.quanta (chosen s lists).0).state ≡ (s.quanta (chosen s lists).0).state

-- A scheduler that runs, whose queues hold `lists` with room in each and whose explicitly chosen quantum
-- waits in no list, comes to hold the lists of the specification, and runs the quantum that it chooses.
pub temporal_schedule_lem :
    (s : Scheduler) (lists : Lists)
    → s.running ≡ true
    → Keeps s lists
    → NextOut s lists
    → HasRoom lists
    → Scheduled s (temporal_schedule s) lists
unfolding temporal_schedule
temporal_schedule_lem s lists running v next_out room =
    subst (λ s'. Scheduled s s' lists)
      (sym (
        ap (λ (b : Bool). if b then after_choice current r (points_to current r.0) else s) running))
      (record {
        keeps =
            subst
              (λ x.
                Keeps (after_choice current r (points_to current r.0))
                  (if points_to current x then t.1 else requeued s current t.1))
              c.who (after_choice-Keeps s current r t c refl room' (points_to current r.0) refl);
        current_is =
            after_choice-current s current r t c refl room' (points_to current r.0) refl
            ∙ ap some c.who;
        runs =
            subst
              (λ x.
                points_to current x ≡ false
                → ((after_choice current r (points_to current r.0)).quanta x).state
                  ≡ QuantumState.running)
              c.who (after_choice-runs s current r t c refl room' (points_to current r.0));
        stays =
            subst
              (λ x.
                points_to current x ≡ true
                → ((after_choice current r (points_to current r.0)).quanta x).state
                  ≡ (s.quanta x).state)
              c.who (after_choice-stays s current r t c refl room' (points_to current r.0));
      })
  where
    current : Option ℕ
    current = (s.cpu_queues current_cpu).current

    r : ℕ × Scheduler
    r = select_next_quantum s current_cpu

    t : ℕ × Lists
    t = chosen s lists

    c : Choice s r t
    c = select_next_quantum_lem s lists v next_out

    room' : HasRoom t.1
    room' = chosen-HasRoom s lists room
