-- ===== src/Temporal/Ready.antt =====
-- The five ready queues of continuum/temporal_scheduler.c together: each holds its list, no quantum
-- stands in two of them, all that stand in one are ready, and the idle quantum stands in none.
use limitless_os.Prelude.{
  ℕ, suc, ◌<◌, ◌≡◌, ◌≢◌, refl, sym, ap, subst, subst₂, ◌∙◌, ◌⊎◌, inl, inr, true, false, some, List,
  [], ◌∷◌, ◌++◌, length, update, update_ne, update_at, arith, ℕ_discrete, Bool-cases,
}
use limitless_os.Temporal.Quantum.{
  Quantum, Quanta, QuantumState, SchedulerQueue, word32, priority_max,
}
use limitless_os.Temporal.Queue.{queue_enqueue, queue_dequeue}
use limitless_os.Temporal.Queue.Links.{elem, elem-append}
use limitless_os.Temporal.Queue.Refine.{Holds, queue_enqueue-Holds, queue_dequeue-Holds}
use limitless_os.Temporal.Queue.Frame.{
  SameBodies, Holds-frame, queue_enqueue_frame, queue_dequeue_frame, body-queue_enqueue,
  body-queue_dequeue,
}

abbrev pub Queues : Type 0
Queues = ℕ → SchedulerQueue

-- The quanta of each priority, first come first.
abbrev pub Lists : Type 0
Lists = ℕ → List ℕ

pub record Ready (h : Quanta) (rq : Queues) (idle : ℕ) (lists : Lists) : Type 0 where
  pub queues : (p : ℕ) → p < priority_max → Holds h (rq p) (lists p)
  pub apart :
      (p q x : ℕ)
      → p < priority_max
      → q < priority_max
      → p ≢ q
      → elem x (lists p) ≡ true
      → elem x (lists q) ≡ false
  pub are_ready :
      (p x : ℕ) → p < priority_max → elem x (lists p) ≡ true → (h x).state ≡ QuantumState.ready
  pub idle_out : (p : ℕ) → p < priority_max → elem idle (lists p) ≡ false

-- A ready quantum that may join a queue.
pub record MayJoin (h : Quanta) (idle : ℕ) (lists : Lists) (x : ℕ) : Type 0 where
  pub out : (q : ℕ) → q < priority_max → elem x (lists q) ≡ false
  pub not_idle : idle ≢ x
  pub is_ready : (h x).state ≡ QuantumState.ready

state-same : (h h' : Quanta) (y : ℕ) → SameBodies h h' → (h' y).state ≡ (h y).state
state-same h h' y b = ap (λ (q : Quantum). q.state) (b y)

-- One queue changes: its new list names only quanta that it had, or that may join.
module _ (h h' : Quanta) (rq : Queues) (idle : ℕ) (lists : Lists) (p : ℕ) (queue : SchedulerQueue)
    (xs : List ℕ) (v : Ready h rq idle lists) (inside : p < priority_max) (new : Holds h' queue xs)
    (from : (y : ℕ) → elem y xs ≡ true → (elem y (lists p) ≡ true) ⊎ MayJoin h idle lists y)
    (same : (q y : ℕ) → q < priority_max → q ≢ p → elem y (lists q) ≡ true → h' y ≡ h y)
    (bodies : SameBodies h h') where
  change-queues : (q : ℕ) → q < priority_max → Holds h' (update rq p queue q) (update lists p xs q)
  change-queues q hq = elim (ℕ_discrete q p) [
    | yes e ↦
        subst₂ (λ r l. Holds h' r l) (sym (update_at rq p queue q e))
          (sym (update_at lists p xs q e)) new
    | no ne ↦
        subst₂ (λ r l. Holds h' r l) (sym (update_ne rq p queue q ne))
          (sym (update_ne lists p xs q ne))
          (Holds-frame h h' (rq q) (lists q) (λ y i. same q y hq ne i) (v.queues q hq))
  ]

  from_out : (q y : ℕ) → q < priority_max → q ≢ p → elem y xs ≡ true → elem y (lists q) ≡ false
  from_out q y hq ne i = elim (from y i) [
    | inl old ↦ v.apart p q y inside hq (λ e. ne (sym e)) old
    | inr join ↦ join.out q hq
  ]

  to_out : (q y : ℕ) → q < priority_max → q ≢ p → elem y (lists q) ≡ true → elem y xs ≡ false
  to_out q y hq ne i = elim (Bool-cases (elem y xs)) [
    | inl new_in ↦ cc (from_out q y hq ne new_in)
    | inr out ↦ out
  ]

  from_ready : (y : ℕ) → elem y xs ≡ true → (h y).state ≡ QuantumState.ready
  from_ready y i = elim (from y i) [
    | inl old ↦ v.are_ready p y inside old
    | inr join ↦ join.is_ready
  ]

  from_not_idle : elem idle xs ≡ false
  from_not_idle = elim (Bool-cases (elem idle xs)) [
    | inl i ↦ elim (from idle i) [
      | inl old ↦ cc (v.idle_out p inside)
      | inr join ↦ absurd (join.not_idle refl)
    ]
    | inr out ↦ out
  ]

  abbrev ApartAt : ℕ → ℕ → ℕ → Type 0
  ApartAt q r x = elem x (update lists p xs q) ≡ true → elem x (update lists p xs r) ≡ false

  change-apart : (q r x : ℕ) → q < priority_max → r < priority_max → q ≢ r → ApartAt q r x
  change-apart q r x hq hr ne = elim (ℕ_discrete q p) [
    | yes e ↦
        subst₂ (λ a b. elem x a ≡ true → elem x b ≡ false) (sym (update_at lists p xs q e))
          (sym (update_ne lists p xs r (λ e'. ne (e ∙ sym e'))))
          (from_out r x hr (λ e'. ne (e ∙ sym e')))
    | no other ↦ elim (ℕ_discrete r p) [
      | yes e ↦
          subst₂ (λ a b. elem x a ≡ true → elem x b ≡ false) (sym (update_ne lists p xs q other))
            (sym (update_at lists p xs r e)) (to_out q x hq other)
      | no other' ↦
          subst₂ (λ a b. elem x a ≡ true → elem x b ≡ false) (sym (update_ne lists p xs q other))
            (sym (update_ne lists p xs r other')) (v.apart q r x hq hr ne)
    ]
  ]

  change-are_ready :
      (q x : ℕ)
      → q < priority_max
      → elem x (update lists p xs q) ≡ true
      → (h' x).state ≡ QuantumState.ready
  change-are_ready q x hq = elim (ℕ_discrete q p) [
    | yes e ↦
        subst (λ a. elem x a ≡ true → (h' x).state ≡ QuantumState.ready)
          (sym (update_at lists p xs q e)) (λ i. state-same h h' x bodies ∙ from_ready x i)
    | no ne ↦
        subst (λ a. elem x a ≡ true → (h' x).state ≡ QuantumState.ready)
          (sym (update_ne lists p xs q ne)) (λ i. state-same h h' x bodies ∙ v.are_ready q x hq i)
  ]

  change-idle_out : (q : ℕ) → q < priority_max → elem idle (update lists p xs q) ≡ false
  change-idle_out q hq = elim (ℕ_discrete q p) [
    | yes e ↦ subst (λ a. elem idle a ≡ false) (sym (update_at lists p xs q e)) from_not_idle
    | no ne ↦ subst (λ a. elem idle a ≡ false) (sym (update_ne lists p xs q ne)) (v.idle_out q hq)
  ]

  pub Ready-change : Ready h' (update rq p queue) idle (update lists p xs)
  Ready-change = record {
    queues = change-queues;
    apart = change-apart;
    are_ready = change-are_ready;
    idle_out = change-idle_out;
  }

module _ (h : Quanta) (rq : Queues) (idle : ℕ) (lists : Lists) (v : Ready h rq idle lists) (p : ℕ)
    (inside : p < priority_max) where
  -- A ready quantum joins a queue at its end.
  pub Ready-enqueue :
      (x : ℕ)
      → MayJoin h idle lists x
      → suc (length (lists p)) < word32
      → let (h', queue) = queue_enqueue h (rq p) x in
        Ready h' (update rq p queue) idle (update lists p (lists p ++ x ∷ []))
  Ready-enqueue x join room =
      Ready-change h _ rq idle lists p _ (lists p ++ x ∷ []) v inside
        (queue_enqueue-Holds h (rq p) (lists p) x (v.queues p inside) (join.out p inside) room) from
        (λ q y hq ne i.
          queue_enqueue_frame h (rq p) (lists p) x y (v.queues p inside)
            (λ e. cc (join.out q hq, ap (λ (k : ℕ). elem k (lists q)) e))
            (v.apart q p y hq inside ne i))
        (body-queue_enqueue h (rq p) x)
    where
      from :
          (y : ℕ)
          → elem y (lists p ++ x ∷ []) ≡ true
          → (elem y (lists p) ≡ true) ⊎ MayJoin h idle lists y
      from y i = elim (ℕ_discrete y x) [
        | yes e ↦ inr (subst (MayJoin h idle lists) (sym e) join)
        | no ne ↦ inl (ground (arith, elem-append y (lists p) (x ∷ [])))
      ]

  -- The first quantum of a queue leaves.
  pub Ready-dequeue :
      (x : ℕ) (xs : List ℕ)
      → lists p ≡ x ∷ xs
      → let (taken, h', queue) = queue_dequeue h (rq p) in
        (taken ≡ some x) × Ready h' (update rq p queue) idle (update lists p xs)
  Ready-dequeue x xs e = (
    left.0,
    Ready-change h _ rq idle lists p _ xs v inside left.1 (λ y i. inl (ground (arith, e)))
        (λ q y hq ne i.
          queue_dequeue_frame h (rq p) (lists p) y (v.queues p inside)
            (v.apart q p y hq inside ne i))
        (body-queue_dequeue h (rq p)),
  )
    where
      left : let (taken, h', queue) = queue_dequeue h (rq p) in (taken ≡ some x) × Holds h' queue xs
      left = queue_dequeue-Holds h (rq p) x xs (subst (Holds h (rq p)) e (v.queues p inside))
