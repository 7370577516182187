-- ===== src/Kernel/Changes.antt =====
-- What creating and terminating quanta does to the registry.
use limitless_os.Prelude.{
  ℕ, ◌+◌, ◌<◌, ◌≡◌, ◌≢◌, ◌⊎◌, inl, inr, refl, sym, ap, subst, ◌∙◌, Bool, false, Option, none, some,
  leb, if◌then◌else◌, update_self, update_ne, update_at, ℕ_discrete, arith,
}
use limitless_os.Temporal.Quantum.{Quantum, QuantumState, word64}
use limitless_os.Temporal.Ready.{Lists}
use limitless_os.Temporal.Select.{Out}
use limitless_os.Temporal.Enqueue.{Keeps, Ready-update}
use limitless_os.Kernel.{
  max_quanta, invalid_qid, Kernel, continuum_get_quantum, spawned, continuum_create_quantum,
}
use limitless_os.Kernel.Lookup.{qid_at, HasQid, Numbered, continuum_get_quantum_lem}

-- No entry of the registry holds the pointer: the allocator hands out memory that is not in use.
abbrev pub Unregistered : Kernel → ℕ → Type 0
Unregistered k x = (i : ℕ) → i < k.count → k.quanta i ≢ x

-- A lookup finds what is registered under the number.
pub get_registered :
    (k : Kernel) (qid x j : ℕ)
    → j < k.count
    → k.quanta j ≡ x
    → qid_at k j ≡ qid
    → ((i : ℕ) → i < k.count → qid_at k i ≡ qid → i ≡ j)
    → continuum_get_quantum k qid ≡ some x
get_registered k qid x j hj at_entry same only = by_found (continuum_get_quantum k qid) refl
  where
    by_found : (r : Option ℕ) → continuum_get_quantum k qid ≡ r → r ≡ some x
    by_found none e = absurd ((continuum_get_quantum_lem k qid).1 e (j, hj, same))
    by_found (some y) e =
        let (i, hi, there, q) = (continuum_get_quantum_lem k qid).0 y e in
        ap some (sym there ∙ ap k.quanta (only i hi q) ∙ at_entry)

module _ (k : Kernel) (x : ℕ) (v : Numbered k) (fresh : Unregistered k x)
    (room : k.count < max_quanta) where
  spawned-count : (spawned k x).count ≡ k.count + 1
  spawned-count = omega arith

  qid_old : (i : ℕ) → i < k.count → qid_at (spawned k x) i ≡ qid_at k i
  qid_old i h =
      ap (λ (y : ℕ). ((spawned k x).sched.quanta y).qid)
        (update_ne k.quanta k.count x i (λ e. absurd (omega arith)))
      ∙ ap (λ (q : Quantum). q.qid) (update_ne k.sched.quanta x _ (k.quanta i) (fresh i h))

  qid_new : (i : ℕ) → i ≡ k.count → qid_at (spawned k x) i ≡ k.next_qid
  qid_new i e =
      ap (λ (y : ℕ). ((spawned k x).sched.quanta y).qid) (update_at k.quanta k.count x i e)
      ∙ ap (λ (q : Quantum). q.qid) (update_self k.sched.quanta x _)

  -- An entry of the new registry is the new one or an old one.
  old_or_new : (i : ℕ) → i < (spawned k x).count → (i < k.count) ⊎ (i ≡ k.count)
  old_or_new i h = elim (ℕ_discrete i k.count) [
    | yes e ↦ inr e
    | no ne ↦ inl (omega (arith, ne, spawned-count))
  ]

  spawned-Numbered : k.next_qid + 2 < word64 → Numbered (spawned k x)
  spawned-Numbered left = record {
    apart = λ i j hi hj e. elim (old_or_new i hi) [
      | inl old ↦ elim (old_or_new j hj) [
        | inl old' ↦ v.apart i j old old' (sym (qid_old i old) ∙ e ∙ qid_old j old')
        | inr new' ↦ absurd (omega (arith, v.handed_out i old, qid_old i old, qid_new j new', e))
      ]
      | inr new ↦ elim (old_or_new j hj) [
        | inl old' ↦ absurd (omega (arith, v.handed_out j old', qid_old j old', qid_new i new, e))
        | inr new' ↦ new ∙ sym new'
      ]
    ];
    handed_out = λ i hi. elim (old_or_new i hi) [
      | inl old ↦ omega (arith, v.handed_out i old, qid_old i old, left)
      | inr new ↦ omega (arith, qid_new i new, left)
    ];
    bounded = omega (arith, spawned-count, room);
    numbers_left = omega (arith, left);
  }

  spawned_found : k.next_qid + 2 < word64 → continuum_get_quantum (spawned k x) k.next_qid ≡ some x
  spawned_found left =
      get_registered (spawned k x) k.next_qid x k.count (omega (arith, spawned-count))
        (update_self k.quanta k.count x) (qid_new k.count refl)
        (λ i hi e. elim (old_or_new i hi) [
          | inl old ↦ absurd (omega (arith, v.handed_out i old, qid_old i old, e))
          | inr new ↦ new
        ])

continuum_create_quantum_room :
    (k : Kernel) (x : ℕ)
    → k.count < max_quanta
    → continuum_create_quantum k (some x) ≡ (k.next_qid, spawned k x)
unfolding continuum_create_quantum
continuum_create_quantum_room k x room =
    ap (λ (b : Bool). if b then (invalid_qid, k) else (k.next_qid, spawned k x))
      {x = leb max_quanta k.count} {y = false} (ground (arith, room))

-- Where the registry has room, a number is left and the memory is not in use, creating a quantum answers
-- with a number that no registered quantum had, under which the quantum is found, and the numbers of the
-- registry stay apart.
pub continuum_create_quantum_lem :
    (k : Kernel) (x : ℕ)
    → Numbered k
    → Unregistered k x
    → k.count < max_quanta
    → k.next_qid + 2 < word64
    → let (qid, k') = continuum_create_quantum k (some x) in
      Numbered k' × (¬ (HasQid k qid)) × (continuum_get_quantum k' qid ≡ some x)
continuum_create_quantum_lem k x v fresh room left =
    subst
      (λ (r : ℕ × Kernel).
        Numbered r.1 × (¬ (HasQid k r.0)) × (continuum_get_quantum r.1 r.0 ≡ some x))
      (sym (continuum_create_quantum_room k x room))
      (
        spawned-Numbered k x v fresh room left,
        λ (i, hi, e). absurd (omega (arith, v.handed_out i hi, e)),
        spawned_found k x v fresh room left,
      )

-- Where the registry has room, a quantum that is created is marked ready but stands in none of the
-- ready queues, and the queues and processors stay as they were.
pub created_in_no_queue :
    (k : Kernel) (lists : Lists) (x : ℕ)
    → k.count < max_quanta
    → Keeps k.sched lists
    → Out x lists
    → let (qid, k') = continuum_create_quantum k (some x) in
      ((k'.sched.quanta x).state ≡ QuantumState.ready)
      × Keeps k'.sched lists
      × (k'.sched.cpu_queues ≡ k.sched.cpu_queues)
created_in_no_queue k lists x room v out =
    subst
      (λ (r : ℕ × Kernel).
        ((r.1.sched.quanta x).state ≡ QuantumState.ready)
        × Keeps r.1.sched lists
        × (r.1.sched.cpu_queues ≡ k.sched.cpu_queues))
      (sym (continuum_create_quantum_room k x room))
      (
        ap (λ (q : Quantum). q.state) (update_self k.sched.quanta x _),
        Ready-update k.sched.quanta k.sched.ready_queues k.sched.idle_quantum lists x _ v out,
        refl,
      )
