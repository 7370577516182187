-- ===== src/Temporal/Order.antt =====
-- Which quantum `select_next_quantum` prefers.
use limitless_os.Prelude.{
  ℕ, suc, zero, ◌<◌, ◌≡◌, refl, ap, subst, ◌∙◌, Bool, true, false, Option, none, some, List, [],
  ◌∷◌, ◌++◌, if◌then◌else◌, update, arith,
}
use limitless_os.Temporal.Quantum.{Scheduler, priority_max, priority_idle}
use limitless_os.Temporal.Ready.{Lists}
use limitless_os.Temporal.Core.{current_cpu, select_next_quantum}
use limitless_os.Temporal.Select.{pick, pick_first, may_run, or_idle, round_lists}
use limitless_os.Temporal.Queue.Links.{elem}
use limitless_os.Temporal.Queue.Refine.{Holds}
use limitless_os.Temporal.Enqueue.{Keeps}
use limitless_os.Temporal.Schedule.{
  by_priority, chosen, chosen_for, Choice, select_next_quantum_lem,
}

abbrev AllEmpty : Lists → List ℕ → Type 0
AllEmpty lists [] = Unit {0}
AllEmpty lists (p ∷ ps) = (lists p ≡ []) × AllEmpty lists ps

pick_take :
    (ok : ℕ → Bool) (lists : Lists) (p : ℕ) (ps : List ℕ) (x : ℕ) (xs : List ℕ)
    → lists p ≡ x ∷ xs
    → ok x ≡ true
    → pick ok lists (p ∷ ps) ≡ (some x, update lists p xs)
pick_take ok lists p ps x xs e h =
    ap (λ (r : Option ℕ × Lists). round_lists ok ps r.0 r.1)
      (ap (pick_first ok lists p) e
        ∙ ap
            (λ (b : Bool).
              if b then (some x, update lists p xs) else (none, update lists p (xs ++ x ∷ [])))
            h)

pick_skip :
    (ok : ℕ → Bool) (lists : Lists) (hs ps : List ℕ)
    → AllEmpty lists hs
    → pick ok lists (hs ++ ps) ≡ pick ok lists ps
pick_skip ok lists [] ps a = refl
pick_skip ok lists (p ∷ hs) ps a =
    ap (λ (r : Option ℕ × Lists). round_lists ok (hs ++ ps) r.0 r.1)
      (ap (pick_first ok lists p) a.0)
    ∙ pick_skip ok lists hs ps a.1

-- If all lists above `p` are empty, the first quantum of list `p` is taken.
pub pick_highest :
    (ok : ℕ → Bool) (lists : Lists) (p : ℕ) (x : ℕ) (xs : List ℕ)
    → priority_idle < p
    → p < priority_max
    → ((q : ℕ) → p < q → q < priority_max → lists q ≡ [])
    → lists p ≡ x ∷ xs
    → ok x ≡ true
    → pick ok lists by_priority ≡ (some x, update lists p xs)
pick_highest ok lists zero x xs lo hi above e h = absurd (omega arith)
pick_highest ok lists (suc zero) x xs lo hi above e h =
    pick_skip ok lists (4 ∷ 3 ∷ 2 ∷ []) (1 ∷ []) (
      above 4 (omega arith) (omega arith),
      (above 3 (omega arith) (omega arith), (above 2 (omega arith) (omega arith), tt)),
    )
    ∙ pick_take ok lists 1 [] x xs e h
pick_highest ok lists (suc (suc zero)) x xs lo hi above e h =
    pick_skip ok lists (4 ∷ 3 ∷ []) (2 ∷ 1 ∷ [])
      (above 4 (omega arith) (omega arith), (above 3 (omega arith) (omega arith), tt))
    ∙ pick_take ok lists 2 (1 ∷ []) x xs e h
pick_highest ok lists (suc (suc (suc zero))) x xs lo hi above e h =
    pick_skip ok lists (4 ∷ []) (3 ∷ 2 ∷ 1 ∷ []) (above 4 (omega arith) (omega arith), tt)
    ∙ pick_take ok lists 3 (2 ∷ 1 ∷ []) x xs e h
pick_highest ok lists (suc (suc (suc (suc zero)))) x xs lo hi above e h =
    pick_take ok lists 4 (3 ∷ 2 ∷ 1 ∷ []) x xs e h
pick_highest ok lists (suc (suc (suc (suc (suc p))))) x xs lo hi above e h = absurd (omega arith)

-- Where no explicit choice is pending, the highest priority that has any quantum is above the idle one, and
-- the processor may run the first quantum of its list, `select_next_quantum` takes that quantum, and no other
-- leaves its queue.
pub select_highest :
    (s : Scheduler) (lists : Lists) (p x : ℕ) (xs : List ℕ)
    → Keeps s lists
    → (s.cpu_queues current_cpu).next ≡ none
    → priority_idle < p
    → p < priority_max
    → ((q : ℕ) → p < q → q < priority_max → lists q ≡ [])
    → lists p ≡ x ∷ xs
    → may_run s current_cpu x ≡ true
    → let (next, s') = select_next_quantum s current_cpu in
      (next ≡ x) × Keeps s' (update lists p xs)
select_highest s lists p x xs v none_next lo hi above e h = (
  c.who ∙ ap (λ (t : ℕ × Lists). t.0) picked,
  subst (λ (t : ℕ × Lists). Keeps s' t.1) picked c.keeps,
)
  where
    s' : Scheduler
    s' = (select_next_quantum s current_cpu).1

    c : Choice s (select_next_quantum s current_cpu) (chosen s lists)
    c = select_next_quantum_lem s lists v (λ y e'. cc (none_next, e'))

    picked : chosen s lists ≡ (x, update lists p xs)
    picked =
        ap (chosen_for s lists) none_next
        ∙ ap (λ (t : Option ℕ × Lists). (or_idle s t.0, t.1))
            (pick_highest (may_run s current_cpu) lists p x xs lo hi above e h)

-- The list of the idle priority is never looked at.
abbrev AllAbove : List ℕ → Type 0
AllAbove [] = Unit {0}
AllAbove (p ∷ ps) = (priority_idle < p) × AllAbove ps

pick_idle_unread :
    (ok : ℕ → Bool) (lists : Lists) (ps : List ℕ)
    → AllAbove ps
    → (pick ok lists ps).1 priority_idle ≡ lists priority_idle
pick_idle_unread ok lists [] a = refl
pick_idle_unread ok lists (p ∷ ps) a =
    let (t, lists') = pick_first ok lists p (lists p) in
    rest t lists' (pick_idle_unread ok lists' ps a.1) ∙ first (lists p)
  where
    first : (xs : List ℕ) → (pick_first ok lists p xs).1 priority_idle ≡ lists priority_idle
    first [] = refl
    first (x ∷ xs) = ground (arith, a.0)

    rest :
        (t : Option ℕ) (lists' : Lists)
        → (pick ok lists' ps).1 priority_idle ≡ lists' priority_idle
        → (round_lists ok ps t lists').1 priority_idle ≡ lists' priority_idle
    rest none lists' h = h
    rest (some x) lists' h = refl

-- Where no explicit choice is pending, no quantum that waits in the list of the idle priority is selected,
-- and that list stays as it was.
pub idle_priority_starves :
    (s : Scheduler) (lists : Lists)
    → Keeps s lists
    → (s.cpu_queues current_cpu).next ≡ none
    → let (next, s') = select_next_quantum s current_cpu in
      (elem next (lists priority_idle) ≡ false)
      × Holds s'.quanta (s'.ready_queues priority_idle) (lists priority_idle)
idle_priority_starves s lists v none_next = (
  subst (λ l. elem (select_next_quantum s current_cpu).0 l ≡ false) unread
      (c.out priority_idle (omega arith)),
  subst (λ l. Holds s'.quanta (s'.ready_queues priority_idle) l) unread
      (c.keeps.queues priority_idle (omega arith)),
)
  where
    s' : Scheduler
    s' = (select_next_quantum s current_cpu).1

    c : Choice s (select_next_quantum s current_cpu) (chosen s lists)
    c = select_next_quantum_lem s lists v (λ y e'. cc (none_next, e'))

    unread : (chosen s lists).1 priority_idle ≡ lists priority_idle
    unread =
        ap (λ n. (chosen_for s lists n).1 priority_idle) none_next
        ∙ pick_idle_unread (may_run s current_cpu) lists by_priority (omega arith)
