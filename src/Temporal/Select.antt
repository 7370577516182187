-- ===== src/Temporal/Select.antt =====
-- `select_next_quantum` against its specification on the lists of ready quanta.
use mathlib.Core.Path.{fun_ext}
use native.Mathlib.Nat.{le_trans}
use limitless_os.Prelude.{
  ℕ, suc, ◌<◌, ◌≤◌, ◌≡◌, refl, sym, ap, subst, ◌∙◌, Bool, true, false, Option, none, some, List, [],
  ◌∷◌, ◌++◌, if◌then◌else◌, length, length-append, update, update_ne, update_self, update_at, arith,
  ℕ_discrete, lt→ltb,
}
use limitless_os.Temporal.Quantum.{Quantum, Scheduler, word32, priority_max}
use limitless_os.Temporal.Queue.{queue_dequeue}
use limitless_os.Temporal.Queue.Links.{elem, Distinct}
use limitless_os.Temporal.Queue.Frame.{SameBodies, body-queue_enqueue, body-queue_dequeue}
use limitless_os.Temporal.Ready.{Lists, Ready, MayJoin, Ready-enqueue, Ready-dequeue}
use limitless_os.Temporal.Core.{allowed, push_ready, try_dequeued, try_priority, select_loop}

-- The specification: of each priority only the first quantum is looked at. It is taken if the
-- processor may run it, and otherwise goes to the end of its list.
abbrev pub pick_first : (ℕ → Bool) → Lists → ℕ → List ℕ → Option ℕ × Lists
pick_first ok lists p [] = (none, lists)
pick_first ok lists p (x ∷ xs) =
    if ok x then (some x, update lists p xs) else (none, update lists p (xs ++ x ∷ []))

abbrev pub pick : (ℕ → Bool) → Lists → List ℕ → Option ℕ × Lists
pick ok lists [] = (none, lists)
pick ok lists (p ∷ ps) =
    let (taken, lists') = pick_first ok lists p (lists p) in
    elim taken [ none ↦ pick ok lists' ps | some x ↦ (some x, lists') ]

-- What a selection leaves: the queues hold the new lists, no field of a quantum but its links has
-- changed, and nothing else of the scheduler has.
pub record Selected (s s' : Scheduler) (lists : Lists) : Type 0 where
  pub ready : Ready s'.quanta s'.ready_queues s.idle_quantum lists
  pub bodies : SameBodies s.quanta s'.quanta
  pub rest : s' ≡ record s { quanta = s'.quanta; ready_queues = s'.ready_queues }

-- In no list.
abbrev pub Out : ℕ → Lists → Type 0
Out x lists = (q : ℕ) → q < priority_max → elem x (lists q) ≡ false

abbrev OutIf : Option ℕ → Lists → Type 0
OutIf none lists = Unit {0}
OutIf (some x) lists = Out x lists

abbrev pub may_run : Scheduler → ℕ → ℕ → Bool
may_run s cpu_id x = allowed cpu_id (s.quanta x)

update_twice :
    (lists : Lists) (p : ℕ) (xs ys : List ℕ) → update (update lists p xs) p ys ≡ update lists p ys
update_twice lists p xs ys = fun_ext (λ q. ground arith)

module _ (s : Scheduler) (cpu_id p : ℕ) (lists : Lists)
    (v : Ready s.quanta s.ready_queues s.idle_quantum lists) (inside : p < priority_max) where
  abbrev Tried : List ℕ → Type 0
  Tried xs =
      let (taken, s') = try_priority s cpu_id p in
      let (taken', lists') = pick_first (may_run s cpu_id) lists p xs in
      (taken ≡ taken') × Selected s s' lists' × OutIf taken' lists'

  counted : (s.ready_queues p).count ≡ length (lists p)
  counted = (v.queues p inside).count_is

  try_empty : lists p ≡ [] → Tried []
  unfolding try_priority
  try_empty e =
      subst (λ r. (r.0 ≡ none) × Selected s r.1 lists × Unit {0}) (sym nothing)
        (refl, record { ready = v; bodies = λ y. refl; rest = refl }, tt)
    where
      empty : (s.ready_queues p).count ≡ 0
      empty = counted ∙ ap length e

      nothing : try_priority s cpu_id p ≡ (none, s)
      nothing = ground (arith, empty)

  -- The state after `queue_dequeue`.
  abbrev taken_out : Scheduler
  taken_out =
      let (taken, quanta, queue) = queue_dequeue s.quanta (s.ready_queues p) in
      record s { quanta = quanta; ready_queues = update s.ready_queues p queue }

  module _ (x : ℕ) (xs : List ℕ) (e : lists p ≡ x ∷ xs) where
    some_taken : try_priority s cpu_id p ≡ try_dequeued cpu_id p (some x) taken_out
    unfolding try_priority
    some_taken =
        ap
          (λ (b : Bool).
            if b
            then try_dequeued cpu_id p (queue_dequeue s.quanta (s.ready_queues p)).0 taken_out
            else (none, s))
          (lt→ltb 0 _ (omega (arith, counted ∙ ap length e)))
        ∙ ap (λ t. try_dequeued cpu_id p t taken_out)
            (Ready-dequeue s.quanta s.ready_queues s.idle_quantum lists v p inside x xs e).0

    left : Ready taken_out.quanta taken_out.ready_queues s.idle_quantum (update lists p xs)
    left = (Ready-dequeue s.quanta s.ready_queues s.idle_quantum lists v p inside x xs e).1

    left_bodies : SameBodies s.quanta taken_out.quanta
    left_bodies = body-queue_dequeue s.quanta (s.ready_queues p)

    same_permission : allowed cpu_id (taken_out.quanta x) ≡ may_run s cpu_id x
    same_permission = ap (allowed cpu_id) (left_bodies x)

    abbrev put_back : Scheduler
    put_back = push_ready taken_out p x

    first_in : elem x (lists p) ≡ true
    first_in = rw e (ground arith)

    distinct : Distinct (x ∷ xs)
    distinct = subst Distinct e (v.queues p inside).distinct

    may_return : MayJoin taken_out.quanta s.idle_quantum (update lists p xs) x
    may_return = record {
      out = out;
      not_idle = λ h. cc (v.idle_out p inside, first_in, ap (λ (k : ℕ). elem k (lists p)) h);
      is_ready = ap (λ (q : Quantum). q.state) (left_bodies x) ∙ v.are_ready p x inside first_in;
    }
      where
        out : (q : ℕ) → q < priority_max → elem x (update lists p xs q) ≡ false
        out q hq = elim (ℕ_discrete q p) [
          | yes h ↦ subst (λ l. elem x l ≡ false) (sym (update_at lists p xs q h)) distinct.0
          | no ne ↦
              subst (λ l. elem x l ≡ false) (sym (update_ne lists p xs q ne))
                (v.apart p q x inside hq (λ h. ne (sym h)) first_in)
        ]

    returned :
        Ready put_back.quanta put_back.ready_queues s.idle_quantum (update lists p (xs ++ x ∷ []))
    returned =
        subst (λ l. Ready put_back.quanta put_back.ready_queues s.idle_quantum l)
          (ap (λ l. update (update lists p xs) p (l ++ x ∷ [])) (update_self lists p xs)
            ∙ update_twice lists p xs (xs ++ x ∷ []))
          (Ready-enqueue taken_out.quanta taken_out.ready_queues s.idle_quantum (update lists p xs)
            left p inside x may_return room)
      where
        room : suc (length (update lists p xs p)) < word32
        room =
            subst (λ l. suc (length l) < word32) (sym (update_self lists p xs))
              (subst (λ l. length l < word32) e (v.queues p inside).small)

    abbrev Outcome : Bool → Bool → Type 0
    Outcome b c =
        let r : Option ℕ × Scheduler = if b then (some x, taken_out) else (none, put_back) in
        let t : Option ℕ × Lists =
          if c then (some x, update lists p xs) else (none, update lists p (xs ++ x ∷ [])) in
        (r.0 ≡ t.0) × Selected s r.1 t.1 × OutIf t.0 t.1

    outcome : (c : Bool) → Outcome c c
    outcome true =
        (refl, record { ready = left; bodies = left_bodies; rest = refl }, may_return.out)
    outcome false = (
      refl,
      record {
        ready = returned;
        bodies =
            λ y. body-queue_enqueue taken_out.quanta (taken_out.ready_queues p) x y ∙ left_bodies y;
        rest = refl;
      },
      tt,
    )

    try_some : Tried (x ∷ xs)
    try_some =
        subst
          (λ (r : Option ℕ × Scheduler).
            let t = pick_first (may_run s cpu_id) lists p (x ∷ xs) in
            (r.0 ≡ t.0) × Selected s r.1 t.1 × OutIf t.0 t.1)
          (sym some_taken)
          (subst (λ b. Outcome b (may_run s cpu_id x)) (sym same_permission)
            (outcome (may_run s cpu_id x)))

  try_lem : (xs : List ℕ) → lists p ≡ xs → Tried xs
  try_lem [] e = try_empty e
  try_lem (x ∷ xs) e = try_some x xs e

abbrev pub Inside : List ℕ → Type 0
Inside [] = Unit {0}
Inside (p ∷ ps) = (p < priority_max) × Inside ps

abbrev pub or_idle : Scheduler → Option ℕ → ℕ
or_idle s none = s.idle_quantum
or_idle s (some x) = x

idle_kept :
    (s s' : Scheduler) (lists : Lists) → Selected s s' lists → s'.idle_quantum ≡ s.idle_quantum
idle_kept s s' lists a = ap (λ (t : Scheduler). t.idle_quantum) a.rest

same_idle :
    (s s' : Scheduler) (lists : Lists)
    → Selected s s' lists
    → (taken : Option ℕ) → or_idle s' taken ≡ or_idle s taken
same_idle s s' lists a none = idle_kept s s' lists a
same_idle s s' lists a (some x) = refl

pub Selected-Ready :
    (s s' : Scheduler) (lists : Lists)
    → Selected s s' lists
    → Ready s'.quanta s'.ready_queues s'.idle_quantum lists
Selected-Ready s s' lists a =
    subst (λ i. Ready s'.quanta s'.ready_queues i lists) (sym (idle_kept s s' lists a)) a.ready

Selected-trans :
    (s s' s'' : Scheduler) (lists lists' : Lists)
    → Selected s s' lists
    → Selected s' s'' lists'
    → Selected s s'' lists'
Selected-trans s s' s'' lists lists' a b = record {
  ready = subst (λ i. Ready s''.quanta s''.ready_queues i lists') (idle_kept s s' lists a) b.ready;
  bodies = λ y. b.bodies y ∙ a.bodies y;
  rest =
      b.rest
      ∙ ap (λ (t : Scheduler). record t { quanta = s''.quanta; ready_queues = s''.ready_queues })
          a.rest;
}

same_may_run :
    (s s' : Scheduler) (cpu_id : ℕ)
    → SameBodies s.quanta s'.quanta
    → may_run s' cpu_id ≡ may_run s cpu_id
same_may_run s s' cpu_id b = fun_ext (λ x. ap (allowed cpu_id) (b x))

-- One round of the loop of `select_next_quantum`, and of its specification, given what was taken.
abbrev round_code : ℕ → List ℕ → Option ℕ → Scheduler → ℕ × Scheduler
round_code cpu_id ps taken s = elim taken [ none ↦ select_loop s cpu_id ps | some x ↦ (x, s) ]

abbrev pub round_lists : (ℕ → Bool) → List ℕ → Option ℕ → Lists → Option ℕ × Lists
round_lists ok ps taken lists = elim taken [ none ↦ pick ok lists ps | some x ↦ (some x, lists) ]

abbrev Meets : Scheduler → ℕ × Scheduler → Option ℕ × Lists → Type 0
Meets s r t = (r.0 ≡ or_idle s t.0) × Selected s r.1 t.1 × Out r.0 t.1

after_round :
    (s s' : Scheduler) (cpu_id : ℕ) (lists : Lists) (ps : List ℕ) (taken : Option ℕ)
    → Selected s s' lists
    → OutIf taken lists
    → Meets s' (select_loop s' cpu_id ps) (pick (may_run s' cpu_id) lists ps)
    → Meets s (round_code cpu_id ps taken s') (round_lists (may_run s cpu_id) ps taken lists)
after_round s s' cpu_id lists ps (some x) sel out ih = (refl, sel, out)
after_round s s' cpu_id lists ps none sel out ih =
    subst (λ ok. Meets s (select_loop s' cpu_id ps) (pick ok lists ps))
      (same_may_run s s' cpu_id sel.bodies)
      (
        ih.0 ∙ same_idle s s' lists sel (pick (may_run s' cpu_id) lists ps).0,
        Selected-trans s s' _ lists _ sel ih.1,
        ih.2,
      )

-- The loop over the priorities meets its specification.
pub select_loop_lem :
    (s : Scheduler) (cpu_id : ℕ) (lists : Lists) (ps : List ℕ)
    → Ready s.quanta s.ready_queues s.idle_quantum lists
    → Inside ps
    → let (x, s') = select_loop s cpu_id ps in
      let (taken, lists') = pick (may_run s cpu_id) lists ps in
      (x ≡ or_idle s taken) × Selected s s' lists' × Out x lists'
unfolding select_loop
select_loop_lem s cpu_id lists [] v inside =
    (refl, record { ready = v; bodies = λ y. refl; rest = refl }, v.idle_out)
select_loop_lem s cpu_id lists (p ∷ ps) v inside =
    let (taken, sel, out) = try_lem s cpu_id p lists v inside.0 (lists p) refl in
    let (t, s') = try_priority s cpu_id p in
    let (t', lists') = pick_first (may_run s cpu_id) lists p (lists p) in
    subst (λ a. Meets s (round_code cpu_id ps a s') (round_lists (may_run s cpu_id) ps t' lists'))
      (sym taken)
      (after_round s s' cpu_id lists' ps t' sel out
        (select_loop_lem s' cpu_id lists' ps (Selected-Ready s s' lists' sel) inside.1))

pick_first-length :
    (ok : ℕ → Bool) (lists : Lists) (p : ℕ) (xs : List ℕ) (q : ℕ)
    → lists p ≡ xs
    → length ((pick_first ok lists p xs).1 q) ≤ length (lists q)
pick_first-length ok lists p [] q e = omega arith
pick_first-length ok lists p (x ∷ xs) q e =
    ground
      (arith, length-append xs (x ∷ []), ap length e, ap (λ k. length (lists k)) {x = q} {y = p})

-- No list grows.
pub pick-length :
    (ok : ℕ → Bool) (lists : Lists) (ps : List ℕ) (q : ℕ)
    → length ((pick ok lists ps).1 q) ≤ length (lists q)
pick-length ok lists [] q = omega arith
pick-length ok lists (p ∷ ps) q =
    let (t, lists') = pick_first ok lists p (lists p) in
    le_trans (rest t lists' (pick-length ok lists' ps q))
      (pick_first-length ok lists p (lists p) q refl)
  where
    rest :
        (t : Option ℕ) (lists' : Lists)
        → length ((pick ok lists' ps).1 q) ≤ length (lists' q)
        → length ((round_lists ok ps t lists').1 q) ≤ length (lists' q)
    rest none lists' h = h
    rest (some x) lists' h = omega arith
