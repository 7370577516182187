-- ===== src/Kernel/Termination.antt =====
-- What terminating a quantum does to the registry.
use limitless_os.Prelude.{
  ℕ, zero, suc, ◌+◌, ◌-◌, ◌<◌, ◌≤◌, ◌≡◌, ◌≢◌, refl, sym, ap, subst, ◌∙◌, Bool, true, false, Option,
  none, some, ltb, ◌==◌, if◌then◌else◌, update, ℕ_discrete, arith, ==_iff, ==_ne, List, [], ◌∷◌,
}
use limitless_os.Temporal.Quantum.{Quantum, QuantumState, Scheduler}
use limitless_os.Temporal.Queue.{queue_remove}
use limitless_os.Temporal.Queue.Frame.{body-queue_remove}
use limitless_os.Temporal.Core.{temporal_remove_quantum, remove_loop, remove_from, all_priorities}
use limitless_os.Kernel.{
  Kernel, continuum_get_quantum, unregister_loop, terminated, continuum_terminate_quantum,
}
use limitless_os.Kernel.Lookup.{qid_at, HasQid, Numbered}
use limitless_os.Kernel.Changes.{get_registered}

unregister_loop_lem :
    (quanta : ℕ → ℕ) (count x i n j : ℕ)
    → quanta j ≡ x
    → ((l : ℕ) → i ≤ l → l < j → quanta l ≢ x)
    → i ≤ j
    → j < i + n
    → unregister_loop quanta count x i n ≡ (update quanta j (quanta (count - 1)), count - 1)
unfolding unregister_loop
unregister_loop_lem quanta count x i zero j here before lo hi = absurd (omega arith)
unregister_loop_lem quanta count x i (suc n) j here before lo hi = elim (ℕ_discrete i j) [
  | yes e ↦
      ap
        (λ (b : Bool).
          if b
          then (update quanta i (quanta (count - 1)), count - 1)
          else unregister_loop quanta count x (suc i) n)
        ((==_iff (quanta i) x).1 (ap quanta e ∙ here))
      ∙ ap (λ (l : ℕ). (update quanta l (quanta (count - 1)), count - 1)) e
  | no ne ↦
      ap
        (λ (b : Bool).
          if b
          then (update quanta i (quanta (count - 1)), count - 1)
          else unregister_loop quanta count x (suc i) n)
        (==_ne (quanta i) x (before i (omega arith) (omega (arith, ne))))
      ∙ unregister_loop_lem quanta count x (suc i) n j here
          (λ l lo' hi'. before l (omega arith) hi') (omega (arith, ne)) (omega arith)
]

-- Termination changes no quantum's number.
remove_from-qid :
    (s : Scheduler) (x p y : ℕ) → ((remove_from s x p).quanta y).qid ≡ (s.quanta y).qid
remove_from-qid s x p y = branch (ltb 0 (s.ready_queues p).count)
  where
    removed : Scheduler
    removed =
        let (quanta, queue) = queue_remove s.quanta (s.ready_queues p) x in
        record s { quanta = quanta; ready_queues = update s.ready_queues p queue }

    branch : (b : Bool) → ((if b then removed else s).quanta y).qid ≡ (s.quanta y).qid
    branch true = ap (λ (q : Quantum). q.qid) (body-queue_remove s.quanta (s.ready_queues p) x y)
    branch false = refl

remove_loop-qid :
    (s : Scheduler) (x : ℕ) (ps : List ℕ) (y : ℕ)
    → ((remove_loop s x ps).quanta y).qid ≡ (s.quanta y).qid
unfolding remove_loop
remove_loop-qid s x [] y = refl
remove_loop-qid s x (p ∷ ps) y =
    remove_loop-qid (remove_from s x p) x ps y ∙ remove_from-qid s x p y

terminated-qid : (s : Scheduler) (x y : ℕ) → ((terminated s x).quanta y).qid ≡ (s.quanta y).qid
unfolding temporal_remove_quantum
terminated-qid s x y =
    remove_loop-qid
      (record s {
        quanta = update s.quanta x (record (s.quanta x) { state = QuantumState.terminated });
      })
      x all_priorities y
    ∙ ground arith

module _ (k : Kernel) (v : Numbered k) (j : ℕ) (hj : j < k.count) where
  abbrev target : ℕ
  target = k.quanta j

  -- The registry without entry `j`.
  abbrev without : Kernel
  without = record k {
    quanta = update k.quanta j (k.quanta (k.count - 1));
    count = k.count - 1;
    sched = terminated k.sched target;
  }

  only_entry : (l : ℕ) → l < k.count → l ≢ j → k.quanta l ≢ target
  only_entry l hl ne e = ne (v.apart l j hl hj (ap (λ (y : ℕ). (k.sched.quanta y).qid) e))

  unregistered :
      unregister_loop k.quanta k.count target 0 k.count
      ≡ (update k.quanta j (k.quanta (k.count - 1)), k.count - 1)
  unregistered =
      unregister_loop_lem k.quanta k.count target 0 k.count j refl
        (λ l lo hi. only_entry l (omega arith) (λ e. absurd (omega arith))) (omega arith)
        (omega arith)

  -- Where an entry of the registry without `j` stood before.
  abbrev before : ℕ → ℕ
  before i = if i == j then k.count - 1 else i

  qid_before : (i : ℕ) → qid_at without i ≡ qid_at k (before i)
  qid_before i =
      terminated-qid k.sched target (update k.quanta j (k.quanta (k.count - 1)) i)
      ∙ ap (λ (y : ℕ). (k.sched.quanta y).qid) (ground arith)

  before_in : (i : ℕ) → i < k.count - 1 → (before i < k.count) × (before i ≢ j)
  before_in i h = ground (arith, hj)

  before-apart : (i l : ℕ) → i < k.count - 1 → l < k.count - 1 → before i ≡ before l → i ≡ l
  before-apart i l hi hl e = ground (arith, e)

  without-Numbered : Numbered without
  without-Numbered = record {
    apart = λ i l hi hl e. before-apart i l hi hl (
        v.apart (before i) (before l) (before_in i hi).0 (before_in l hl).0
          (sym (qid_before i) ∙ e ∙ qid_before l));
    handed_out = λ i hi. omega (arith, qid_before i, v.handed_out (before i) (before_in i hi).0);
    bounded = omega (arith, v.bounded);
    numbers_left = v.numbers_left;
  }

  qid_gone : ¬ (HasQid without (qid_at k j))
  qid_gone (i, hi, e) =
      (before_in i hi).1 (v.apart (before i) j (before_in i hi).0 hj (sym (qid_before i) ∙ e))

  others_stay : (qid : ℕ) → qid ≢ qid_at k j → HasQid k qid → HasQid without qid
  others_stay qid ne (i, hi, e) = elim (ℕ_discrete i (k.count - 1)) [
    | yes last ↦ (
      j,
      omega (arith, last, moved last),
      qid_before j ∙ ap (qid_at k) (ground (arith, last)) ∙ e,
    )
    | no not_last ↦
        (i, omega (arith, not_last), qid_before i ∙ ap (qid_at k) (ground (arith, stays)) ∙ e)
  ]
    where
      stays : i ≢ j
      stays same = ne (sym e ∙ ap (qid_at k) same)

      moved : i ≡ k.count - 1 → j ≢ k.count - 1
      moved last same = stays (last ∙ sym same)

-- On a registry whose numbers are apart, terminating a registered quantum answers with success: no
-- quantum of the registry has its number any more, every other number stays registered, and the
-- numbers stay apart.
pub continuum_terminate_quantum_lem :
    (k : Kernel) (qid : ℕ)
    → Numbered k
    → HasQid k qid
    → let (result, k') = continuum_terminate_quantum k qid in
      (result ≡ true)
      × Numbered k'
      × (¬ (HasQid k' qid))
      × ((other : ℕ) → other ≢ qid → HasQid k other → HasQid k' other)
unfolding continuum_terminate_quantum
continuum_terminate_quantum_lem k qid v (j, hj, same) =
    subst
      (λ (r : Bool × Kernel).
        (r.0 ≡ true)
        × Numbered r.1
        × (¬ (HasQid r.1 qid))
        × ((other : ℕ) → other ≢ qid → HasQid k other → HasQid r.1 other))
      (sym answer)
      (
        refl,
        without-Numbered k v j hj,
        subst (λ (n : ℕ). ¬ (HasQid (without k v j hj) n)) same (qid_gone k v j hj),
        λ other ne. others_stay k v j hj other (λ e. ne (e ∙ same)),
      )
  where
    after : Option ℕ → Bool × Kernel
    after o = elim o [
      | none ↦ (false, k)
      | some y ↦
          (let (quanta, count) = unregister_loop k.quanta k.count y 0 k.count in
            (true, record k { quanta = quanta; count = count; sched = terminated k.sched y }))
    ]

    answer : after (continuum_get_quantum k qid) ≡ (true, without k v j hj)
    answer =
        ap after (
          get_registered k qid (k.quanta j) j hj refl same
            (λ i hi e. v.apart i j hi hj (e ∙ sym same)))
        ∙ ap
            (λ (r : (ℕ → ℕ) × ℕ). (
              true,
              record k { quanta = r.0; count = r.1; sched = terminated k.sched (k.quanta j) },
            ))
            (unregistered k v j hj)
