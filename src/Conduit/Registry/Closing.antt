-- ===== src/Conduit/Registry/Closing.antt =====
-- `conduit_close`, which takes a conduit out of the table with its last reference.
use limitless_os.Prelude.{
  ℕ, ◌<◌, ◌≡◌, ◌≢◌, refl, sym, ap, subst, ◌∙◌, Bool, true, false, Option, none, some, ◌==◌,
  if◌then◌else◌, update, update_self, update_ne, update_at, ℕ_discrete, arith, length, ==_refl,
}
use limitless_os.Temporal.Quantum.{Scheduler, word32}
use limitless_os.Temporal.Core.{points_to}
use limitless_os.Conduit.WaitQueue.{
  WaitQueue, waitqueue_init, waitqueue_wake_all, waitqueue_wake_all_lem, unblocked,
}
use limitless_os.Conduit.Endpoint.{Conduit, ConduitState}
use limitless_os.Conduit.Registry.{
  Tables, NameEntry, hash_name, no_name, conduit_open, open_found, forget_name, unregister,
  wake_both, close_last, drop_reference, conduit_close,
}
use limitless_os.Conduit.Registry.Names.{Registered}

-- A wait queue that counts what it holds.
abbrev pub Counted : WaitQueue → Type 0
Counted wq = (wq.count ≡ length wq.waiting) × (length wq.waiting < word32)

-- The conduit as `conduit_close` leaves it before it frees it.
abbrev closing : Conduit → Conduit
closing c = record (drop_reference c) {
  state = ConduitState.closing;
  readers = waitqueue_init;
  writers = waitqueue_init;
}

abbrev pub woken : Conduit → Scheduler → Scheduler
woken c s = unblocked c.writers.waiting (unblocked c.readers.waiting s)

-- The tables after the last reference to a conduit is closed.
abbrev pub closed_tables : Tables → ℕ → Tables
closed_tables t p = let c = t.store p in unregister t p (closing c) (woken c t.sched)

wake_both_lem :
    (readers writers : WaitQueue) (s : Scheduler)
    → Counted readers
    → Counted writers
    → wake_both readers writers s
      ≡ some
          (waitqueue_init, waitqueue_init, unblocked writers.waiting (unblocked readers.waiting s))
wake_both_lem readers writers s a b =
    ap
      (λ (o : Option (WaitQueue × Scheduler)). elim o [
        | none ↦ none
        | some (readers', s') ↦ second readers' (waitqueue_wake_all writers s')
      ])
      (waitqueue_wake_all_lem readers s a.0 a.1)
    ∙ ap (second waitqueue_init)
        (waitqueue_wake_all_lem writers (unblocked readers.waiting s) b.0 b.1)
  where
    second : WaitQueue → Option (WaitQueue × Scheduler) → Option (WaitQueue × WaitQueue × Scheduler)
    second readers' o = elim o [
      | none ↦ none
      | some (writers', s'') ↦ some (readers', writers', s'')
    ]

-- Closing the last reference to a conduit ends, whoever waits for it.
pub conduit_close_last :
    (t : Tables) (p : ℕ)
    → (t.store p).ref_count ≡ 1
    → Counted (t.store p).readers
    → Counted (t.store p).writers
    → conduit_close t (some p) ≡ some (closed_tables t p)
unfolding conduit_close
conduit_close_last t p one readers writers =
    ap
      (λ (n : ℕ).
        if n == 0
        then close_last t p (drop_reference c)
        else some (record t { store = update t.store p (drop_reference c) }))
      zero_left
    ∙ ap
        (λ (o : Option (WaitQueue × WaitQueue × Scheduler)). elim o [
          | none ↦ none
          | some (readers', writers', s) ↦ some (
              unregister t p
                (record (drop_reference c) {
                  state = ConduitState.closing;
                  readers = readers';
                  writers = writers';
                })
                s)
        ])
        (wake_both_lem c.readers c.writers t.sched readers writers)
  where
    c : Conduit
    c = t.store p

    zero_left : (drop_reference c).ref_count ≡ 0
    zero_left = omega (arith, one)

module _ (t : Tables) (p : ℕ) (v : Registered t)
    (in_slot : t.conduits (t.store p).id ≡ some p) where
  abbrev t' : Tables
  t' = closed_tables t p

  slots_left : (i q : ℕ) → t'.conduits i ≡ some q → (t.conduits i ≡ some q) × (q ≢ p)
  slots_left i q e = elim (ℕ_discrete i (t.store p).id) [
    | yes same ↦ cc (e, update_at t.conduits (t.store p).id none i same)
    | no ne ↦
        (let old = sym (update_ne t.conduits (t.store p).id none i ne) ∙ e in
          (old, λ same. ne (sym (v.slots i q old).0 ∙ ap (λ (k : ℕ). (t.store k).id) same)))
  ]

  forgotten :
      (t.name_table (hash_name (t.store p).name)).conduit ≡ some p
      → forget_name t.name_table (hash_name (t.store p).name) p
        ≡ update t.name_table (hash_name (t.store p).name) no_name
  forgotten e =
      ap
        (λ (b : Bool).
          if b then update t.name_table (hash_name (t.store p).name) no_name else t.name_table)
        (ap (λ (o : Option ℕ). points_to o p) e ∙ ==_refl p)

  names_left :
      (t.name_table (hash_name (t.store p).name)).conduit ≡ some p
      → (h q : ℕ) → (t'.name_table h).conduit ≡ some q
      → ((t.name_table h).conduit ≡ some q) × (h ≢ hash_name (t.store p).name)
  names_left named h q e = elim (ℕ_discrete h (hash_name (t.store p).name)) [
    | yes same ↦ cc (
      e,
      forgotten named,
      ap (λ (n : NameEntry). n.conduit)
          (update_at t.name_table (hash_name (t.store p).name) no_name h same),
    )
    | no ne ↦ (
      ap (λ (n : NameEntry). n.conduit)
            (sym (update_ne t.name_table (hash_name (t.store p).name) no_name h ne)
              ∙ ap (λ (f : ℕ → NameEntry). f h) (sym (forgotten named)))
          ∙ e,
      ne,
    )
  ]

  store_left : (q : ℕ) → q ≢ p → t'.store q ≡ t.store q
  store_left q ne = update_ne t.store p _ q ne

  pub closed-Registered :
      (t.name_table (hash_name (t.store p).name)).conduit ≡ some p → Registered t'
  closed-Registered named = record { slots = slots; names = names }
    where
      slots :
          (i q : ℕ)
          → t'.conduits i ≡ some q
          → ((t'.store q).id ≡ i) × ((t'.store q).state ≡ ConduitState.open_state)
      slots i q e =
          let (old, ne) = slots_left i q e in
          subst (λ (c : Conduit). (c.id ≡ i) × (c.state ≡ ConduitState.open_state))
            (sym (store_left q ne)) (v.slots i q old)

      names :
          (h q : ℕ)
          → (t'.name_table h).conduit ≡ some q
          → (t'.conduits (t'.store q).id ≡ some q) × (hash_name (t'.store q).name ≡ h)
      names h q e =
          let (old, ne) = names_left named h q e in
          let (at_slot, hash) = v.names h q old in
          subst (λ (c : Conduit). (t'.conduits c.id ≡ some q) × (hash_name c.name ≡ h))
            (sym (
              store_left q
                (λ same. ne (sym hash ∙ ap (λ (k : ℕ). hash_name (t.store k).name) same))))
            (
              update_ne t.conduits (t.store p).id none (t.store q).id (λ same. ne (
                    sym hash
                    ∙ ap (λ (k : ℕ). hash_name (t.store k).name) (same_conduit same at_slot)))
                  ∙ at_slot,
              hash,
            )
        where
          same_conduit :
              (t.store q).id ≡ (t.store p).id → t.conduits (t.store q).id ≡ some q → q ≡ p
          same_conduit same at_slot = cc (in_slot, ap t.conduits same)

-- On sound tables, closing the last reference to a conduit that stands under the hash of its own
-- name and whose wait queues count right ends, wakes all who wait, the readers first, keeps the
-- tables sound and frees the slot and the name: the conduit is not found any more.
pub conduit_close_lem :
    (t : Tables) (p : ℕ)
    → Registered t
    → (t.name_table (hash_name (t.store p).name)).conduit ≡ some p
    → (t.store p).ref_count ≡ 1
    → Counted (t.store p).readers
    → Counted (t.store p).writers
    → (t' : Tables) × (conduit_close t (some p) ≡ some t')
      × Registered t'
      × (t'.sched ≡ woken (t.store p) t.sched)
      × (t'.conduits (t.store p).id ≡ none)
      × ((conduit_open t' (some (t.store p).name)).0 ≡ none)
unfolding conduit_open
conduit_close_lem t p v named one readers writers = (
  closed_tables t p,
  conduit_close_last t p one readers writers,
  closed-Registered t p v (v.names (hash_name (t.store p).name) p named).0 named,
  refl,
  update_self t.conduits (t.store p).id none,
  ap (λ (o : Option ℕ). (open_found (closed_tables t p) o).0)
      (ap (λ (f : ℕ → NameEntry). (f (hash_name (t.store p).name)).conduit)
          (forgotten t p v (v.names (hash_name (t.store p).name) p named).0 named)
        ∙ ap (λ (n : NameEntry). n.conduit)
            (update_self t.name_table (hash_name (t.store p).name) no_name)),
)

-- Where the name under which a conduit stands in the table has another hash than the conduit's own
-- name and its wait queues count right, closing the last reference frees the slot and leaves the
-- entry, which leads to the freed conduit.
pub long_name_dangles :
    (t : Tables) (p h : ℕ)
    → (t.name_table h).conduit ≡ some p
    → h ≢ hash_name (t.store p).name
    → (t.store p).ref_count ≡ 1
    → Counted (t.store p).readers
    → Counted (t.store p).writers
    → (t' : Tables) × (conduit_close t (some p) ≡ some t')
      × (t'.conduits (t.store p).id ≡ none)
      × ((t'.name_table h).conduit ≡ some p)
long_name_dangles t p h entry other one readers writers = (
  closed_tables t p,
  conduit_close_last t p one readers writers,
  update_self t.conduits (t.store p).id none,
  either (points_to (t.name_table (hash_name (t.store p).name)).conduit p),
)
  where
    either :
        (b : Bool)
        → ((if b then update t.name_table (hash_name (t.store p).name) no_name else t.name_table)
            h).conduit
          ≡ some p
    either true =
        ap (λ (n : NameEntry). n.conduit)
          (update_ne t.name_table (hash_name (t.store p).name) no_name h other)
        ∙ entry
    either false = entry
