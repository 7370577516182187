-- ===== src/Conduit/Registry/Names.antt =====
-- The table of conduits: which names lead to which conduits.
use limitless_os.Prelude.{
  ℕ, zero, suc, ◌+◌, ◌-◌, ◌%◌, ◌<◌, ◌≤◌, ◌≡◌, ◌≢◌, refl, sym, ap, subst, ◌∙◌, Option, none, some,
  List, [], ◌∷◌, if◌then◌else◌, update, update_self, update_ne, update_at, ℕ_discrete, arith,
  length,
}
use limitless_os.Temporal.Quantum.{word32}
use limitless_os.Conduit.Endpoint.{Conduit, ConduitState, is_open}
use limitless_os.Conduit.Registry.{
  Tables, NameEntry, max_conduits, conduit_name_max, hash_name, strncpy, copy_loop, find_slot,
  new_conduit, register, conduit_create, open_found, conduit_open,
}

-- Every conduit in a slot is open and knows its slot, and every name in the table leads to a conduit in
-- a slot whose own name has the hash of the entry.
pub record Registered (t : Tables) : Type 0 where
  pub slots :
      (i p : ℕ)
      → t.conduits i ≡ some p
      → ((t.store p).id ≡ i) × ((t.store p).state ≡ ConduitState.open_state)
  pub names :
      (h p : ℕ)
      → (t.name_table h).conduit ≡ some p
      → (t.conduits (t.store p).id ≡ some p) × (hash_name (t.store p).name ≡ h)

-- No slot holds the pointer: the allocator hands out memory that is not in use.
abbrev pub Fresh : Tables → ℕ → Type 0
Fresh t p = (i : ℕ) → t.conduits i ≢ some p

some_inj : {x y : ℕ} → some x ≡ some y → x ≡ y
some_inj e = cc

copy_loop_short : (n : ℕ) (src : List ℕ) → length src ≤ n → copy_loop n src ≡ src
copy_loop_short zero [] h = refl
copy_loop_short zero (c ∷ src) h = absurd (omega arith)
copy_loop_short (suc n) [] h = refl
copy_loop_short (suc n) (c ∷ src) h = ap (◌∷◌ c) (copy_loop_short n src (omega arith))

strncpy_short : (src : List ℕ) → length src < 63 → strncpy src (conduit_name_max - 1) ≡ src
unfolding strncpy
strncpy_short src h = copy_loop_short 62 src (omega arith)

find_slot_free :
    (conduits : ℕ → Option ℕ) (i n id : ℕ) → find_slot conduits i n ≡ some id → conduits id ≡ none
find_slot_free conduits i zero id h = cc
find_slot_free conduits i (suc n) id h =
    at_slot (conduits i) refl (find_slot_free conduits (suc i) n id) h
  where
    at_slot :
        (o : Option ℕ)
        → conduits i ≡ o
        → (find_slot conduits (suc i) n ≡ some id → conduits id ≡ none)
        → elim o [ none ↦ some i | some p ↦ find_slot conduits (suc i) n ] ≡ some id
        → conduits id ≡ none
    at_slot none e later g = cc
    at_slot (some p) e later g = later g

-- The tables with a new conduit.
module _ (t : Tables) (id p : ℕ) (name : List ℕ) (c : Conduit) (v : Registered t)
    (free : t.conduits id ≡ none) (fresh : Fresh t p) (same_id : c.id ≡ id)
    (opened : c.state ≡ ConduitState.open_state)
    (same_hash : hash_name c.name ≡ hash_name name) where
  abbrev t' : Tables
  t' = register t id p name c

  store_old : (q : ℕ) → q ≢ p → t'.store q ≡ t.store q
  store_old q ne = update_ne t.store p c q ne

  old_ne : (i q : ℕ) → t.conduits i ≡ some q → q ≢ p
  old_ne i q e eq = fresh i (e ∙ ap some eq)

  register-slots :
      (i q : ℕ)
      → t'.conduits i ≡ some q
      → ((t'.store q).id ≡ i) × ((t'.store q).state ≡ ConduitState.open_state)
  register-slots i q e = elim (ℕ_discrete i id) [
    | yes same ↦
        subst (λ (c' : Conduit). (c'.id ≡ i) × (c'.state ≡ ConduitState.open_state))
          (sym (update_at t.store p c q (cc (e, update_at t.conduits id (some p) i same))))
          (same_id ∙ sym same, opened)
    | no ne ↦
        (let old = sym (update_ne t.conduits id (some p) i ne) ∙ e in
          subst (λ (c' : Conduit). (c'.id ≡ i) × (c'.state ≡ ConduitState.open_state))
            (sym (store_old q (old_ne i q old))) (v.slots i q old))
  ]

  abbrev LeadsTo : ℕ → ℕ → Conduit → Type 0
  LeadsTo h q c' = (t'.conduits c'.id ≡ some q) × (hash_name c'.name ≡ h)

  register-names :
      (h q : ℕ)
      → (t'.name_table h).conduit ≡ some q
      → (t'.conduits (t'.store q).id ≡ some q) × (hash_name (t'.store q).name ≡ h)
  register-names h q e = elim (ℕ_discrete h (hash_name name)) [
    | yes same ↦ named same (
        some_inj (
          sym (
            ap (λ (n : NameEntry). n.conduit)
              (update_at t.name_table (hash_name name) entry h same))
          ∙ e))
    | no ne ↦ kept (
        sym (ap (λ (n : NameEntry). n.conduit) (update_ne t.name_table (hash_name name) entry h ne))
        ∙ e)
  ]
    where
      entry : NameEntry
      entry = record { name = strncpy name (conduit_name_max - 1); conduit = some p }

      named :
          h ≡ hash_name name
          → p ≡ q
          → (t'.conduits (t'.store q).id ≡ some q) × (hash_name (t'.store q).name ≡ h)
      named same pq =
          subst (LeadsTo h q) (sym (update_at t.store p c q (sym pq)))
            (update_at t.conduits id (some p) c.id same_id ∙ ap some pq, same_hash ∙ sym same)

      kept :
          (t.name_table h).conduit ≡ some q
          → (t'.conduits (t'.store q).id ≡ some q) × (hash_name (t'.store q).name ≡ h)
      kept old =
          let (at_slot, hash) = v.names h q old in
          subst (LeadsTo h q) (sym (store_old q (old_ne (t.store q).id q at_slot))) (
            update_ne t.conduits id (some p) (t.store q).id
                  (λ eq. cc (free, at_slot, ap t.conduits eq))
                ∙ at_slot,
            hash,
          )

  pub register-Registered : Registered t'
  register-Registered = record { slots = register-slots; names = register-names }

-- One more reference to a conduit.
abbrev pub referenced : Tables → ℕ → Tables
referenced t p =
    let c = t.store p in
    record t { store = update t.store p (record c { ref_count = (c.ref_count + 1) % word32 }) }

open_found_open :
    (t : Tables) (p : ℕ)
    → (t.store p).state ≡ ConduitState.open_state
    → open_found t (some p) ≡ (some p, referenced t p)
open_found_open t p opened =
    ap (λ (s : ConduitState). if is_open s then (some p, referenced t p) else (none, t)) opened

-- A conduit may be written if it keeps its slot, state and name.
Registered-update :
    (t : Tables) (p : ℕ) (c : Conduit)
    → Registered t
    → c.id ≡ (t.store p).id
    → c.state ≡ (t.store p).state
    → c.name ≡ (t.store p).name
    → Registered (record t { store = update t.store p c })
Registered-update t p c v same_id same_state same_name = record {
  slots = λ i q e. (same_ids q ∙ (v.slots i q e).0, same_states q ∙ (v.slots i q e).1);
  names = λ h q e. (
    ap t.conduits (same_ids q) ∙ (v.names h q e).0,
    ap hash_name (same_names q) ∙ (v.names h q e).1,
  );
}
  where
    same_ids : (q : ℕ) → (update t.store p c q).id ≡ (t.store q).id
    same_ids q = ground arith

    same_states : (q : ℕ) → (update t.store p c q).state ≡ (t.store q).state
    same_states q = ground arith

    same_names : (q : ℕ) → (update t.store p c q).name ≡ (t.store q).name
    same_names q = ground arith

-- On sound tables `conduit_open` answers with what the table holds under the hash of the name, and
-- counts one more reference to it; the tables stay sound.
pub conduit_open_lem :
    (t : Tables) (name : List ℕ)
    → Registered t
    → let (found, t') = conduit_open t (some name) in
      (found ≡ (t.name_table (hash_name name)).conduit)
      × Registered t'
      × ((p : ℕ) → found ≡ some p → (t'.store p).ref_count ≡ ((t.store p).ref_count + 1) % word32)
unfolding conduit_open
conduit_open_lem t name v = at_entry (t.name_table (hash_name name)).conduit refl
  where
    Opened : Option ℕ → Option ℕ × Tables → Type 0
    Opened o r =
        (r.0 ≡ o)
        × Registered r.1
        × ((p : ℕ) → r.0 ≡ some p → (r.1.store p).ref_count ≡ ((t.store p).ref_count + 1) % word32)

    at_entry :
        (o : Option ℕ) → (t.name_table (hash_name name)).conduit ≡ o → Opened o (open_found t o)
    at_entry none e = (refl, v, λ p h. cc)
    at_entry (some p) e =
        let (in_slot, hash) = v.names (hash_name name) p e in
        subst (Opened (some p)) (sym (open_found_open t p (v.slots (t.store p).id p in_slot).1)) (
          refl,
          Registered-update t p _ v refl refl refl,
          λ q h.
              subst
                (λ k. ((referenced t p).store k).ref_count ≡ ((t.store k).ref_count + 1) % word32)
                (some_inj h) (ap (λ (c : Conduit). c.ref_count) (update_self t.store p _)),
        )

create_found :
    (t : Tables) (name : List ℕ) (buffer_size self p id : ℕ) (block : Option (List ℕ))
    → buffer_size ≢ 0
    → (t.name_table (hash_name name)).conduit ≡ none
    → find_slot t.conduits 0 max_conduits ≡ some id
    → conduit_create t (some name) buffer_size self (some p) block ≡ (
      some p,
      register t id p name (new_conduit id name buffer_size (t.sched.quanta self).qid block),
    )
unfolding conduit_create
create_found t name buffer_size self p id block pos unused slot =
    rw (unused, slot) (ground (arith, pos))

-- On sound tables, a conduit with a name of less than 63 characters whose hash no other has is
-- created if there are a size, a free slot and memory that is not in use: the tables stay sound,
-- and `conduit_open` finds the new conduit by its name.
pub conduit_create_lem :
    (t : Tables) (name : List ℕ) (buffer_size self p id : ℕ) (block : Option (List ℕ))
    → Registered t
    → Fresh t p
    → length name < 63
    → buffer_size ≢ 0
    → (t.name_table (hash_name name)).conduit ≡ none
    → find_slot t.conduits 0 max_conduits ≡ some id
    → let (created, t') = conduit_create t (some name) buffer_size self (some p) block in
      (created ≡ some p) × Registered t' × ((conduit_open t' (some name)).0 ≡ some p)
unfolding conduit_open
conduit_create_lem t name buffer_size self p id block v fresh short pos unused slot =
    subst
      (λ (r : Option ℕ × Tables).
        (r.0 ≡ some p) × Registered r.1 × ((conduit_open r.1 (some name)).0 ≡ some p))
      (sym (create_found t name buffer_size self p id block pos unused slot))
      (
        refl,
        register-Registered t id p name c v (find_slot_free t.conduits 0 max_conduits id slot) fresh
            refl refl (ap hash_name (strncpy_short name short)),
        ap (λ (o : Option ℕ). (open_found t' o).0)
              (ap (λ (n : NameEntry). n.conduit) (update_self t.name_table (hash_name name) _))
            ∙ ap (λ (r : Option ℕ × Tables). r.0)
                (open_found_open t' p (ap (λ (c' : Conduit). c'.state) (update_self t.store p c))),
      )
  where
    c : Conduit
    c = new_conduit id name buffer_size (t.sched.quanta self).qid block

    t' : Tables
    t' = register t id p name c
