-- ===== src/Temporal/Queue/Remove.antt =====
-- `queue_remove` on a quantum of the queue takes that one out, wherever it stands.
use limitless_os.Prelude.{
  ℕ, ◌+◌, ◌-◌, ◌%◌, ◌≡◌, ◌≢◌, refl, sym, ap, ap₂, subst, ◌∙◌, true, false, Option, none, some, List,
  [], ◌∷◌, ◌++◌, length-append, append-nil, update, update_ne, arith,
}
use limitless_os.Temporal.Quantum.{Quantum, Quanta, SchedulerQueue, word32}
use limitless_os.Temporal.Queue.{queue_remove, bypass_next, bypass_prev, set_next, set_prev, unlink}
use limitless_os.Temporal.Queue.Links.{
  elem, Distinct, first_or, last_or, Linked, elem-append, Linked-update, Linked-append,
  Linked-split, last-elem, last_of, elem_ne, Linked-set_next, Linked-set_prev,
}
use limitless_os.Temporal.Queue.Refine.{Holds, leave_first, last_or-append}

-- A list without repetitions, taken apart round one of its elements.
pub Distinct-middle :
    (xs : List ℕ) (x : ℕ) (ys : List ℕ)
    → Distinct (xs ++ x ∷ ys)
    → (elem x xs ≡ false) × (elem x ys ≡ false) × Distinct (xs ++ ys)
Distinct-middle [] x ys d = (refl, d.0, d.1)
Distinct-middle (z ∷ xs) x ys d =
    let rest = Distinct-middle xs x ys d.1 in
    ground (arith, elem-append z xs (x ∷ ys), elem-append z xs ys, rest)

pub Distinct-append : (xs ys : List ℕ) → Distinct (xs ++ ys) → Distinct xs × Distinct ys
Distinct-append [] ys d = (tt, d)
Distinct-append (z ∷ xs) ys d =
    let rest = Distinct-append xs ys d.1 in ground (arith, elem-append z xs ys, rest)

pub Distinct-apart :
    (xs ys : List ℕ) (t : ℕ) → Distinct (xs ++ ys) → elem t xs ≡ true → elem t ys ≡ false
Distinct-apart [] ys t d i = cc
Distinct-apart (z ∷ xs) ys t d i = ground (arith, elem-append z xs ys, Distinct-apart xs ys t d.1)

module _ (h : Quanta) (x : ℕ) (q : Quantum) where
  -- The links of a chain that its last quantum leaves.
  leave_last :
      (w : ℕ) (ws : List ℕ) (p : ℕ)
      → Distinct (w ∷ (ws ++ x ∷ []))
      → last_or ws (some w) ≡ some p
      → Linked h none (w ∷ ws) (some x)
      → Linked (update (set_next h p none) x q) none (w ∷ (ws ++ [])) none
  leave_last w ws p d e l =
      subst (λ l. Linked (update (set_next h p none) x q) none (w ∷ l) none) (sym (append-nil ws))
        (kept l)
    where
      kept :
          Linked h none (w ∷ ws) (some x)
          → Linked (update (set_next h p none) x q) none (w ∷ ws) none
      kept l =
          Linked-update (set_next h p none) x q none (w ∷ ws) none
            (Distinct-middle (w ∷ ws) x [] d).0
            (Linked-set_next h none (w ∷ ws) (some x) none p (Distinct-append (w ∷ ws) (x ∷ []) d).0
              e l)

  -- The links of a chain that a quantum with neighbours on both sides leaves.
  leave_middle :
      (w : ℕ) (ws : List ℕ) (y : ℕ) (ys : List ℕ) (p : ℕ)
      → Distinct (w ∷ (ws ++ x ∷ y ∷ ys))
      → last_or ws (some w) ≡ some p
      → Linked h none (w ∷ ws) (some x)
      → Linked h (some x) (y ∷ ys) none
      → Linked
          (update (set_prev (set_next h p (some y)) y (some p)) x q)
          none
          (w ∷ (ws ++ y ∷ ys))
          none
  leave_middle w ws y ys p d e a b =
      Linked-append rest none (w ∷ ws) (y ∷ ys) none
        (Linked-update _ x q none (w ∷ ws) (some y) around.0 (
          Linked-update (set_next h p (some y)) y _ none (w ∷ ws) (some y) y_out (
            Linked-set_next h none (w ∷ ws) (some x) (some y) p
              (Distinct-append (w ∷ ws) (y ∷ ys) around.2).0 e a)))
        (subst (λ o. Linked rest o (y ∷ ys) none) (sym e)
          (Linked-update _ x q (some p) (y ∷ ys) none around.1 (
            Linked-set_prev (set_next h p (some y)) (some x) (some p) y ys none tail_apart.0
              (Linked-update h p _ (some x) (y ∷ ys) none p_out b))))
    where
      rest : Quanta
      rest = update (set_prev (set_next h p (some y)) y (some p)) x q

      around : (elem x (w ∷ ws) ≡ false) × (elem x (y ∷ ys) ≡ false) × Distinct (w ∷ (ws ++ y ∷ ys))
      around = Distinct-middle (w ∷ ws) x (y ∷ ys) d

      tail_apart : Distinct (y ∷ ys)
      tail_apart = (Distinct-append (w ∷ ws) (y ∷ ys) around.2).1

      y_out : elem y (w ∷ ws) ≡ false
      y_out = (Distinct-middle (w ∷ ws) y ys around.2).0

      p_out : elem p (y ∷ ys) ≡ false
      p_out = Distinct-apart (w ∷ ws) (y ∷ ys) p around.2 (last-elem w ws none p e)

module _ (h : Quanta) (q : SchedulerQueue) (x : ℕ) where
  abbrev finish : Quanta × SchedulerQueue → Quanta × SchedulerQueue
  finish (h', q') = (unlink h' x, record q' { count = (q'.count + word32 - 1) % word32 })

  abbrev second_half : Quanta × SchedulerQueue → Quanta × SchedulerQueue
  second_half (h', q') = finish (bypass_prev (h' x).next_ready (h' x).prev_ready h' q')

  -- What `queue_remove` does where there is a quantum `p` before `x`.
  remove_behind :
      (p : ℕ) (n : Option ℕ)
      → (h x).prev_ready ≡ some p
      → (h x).next_ready ≡ n
      → x ≢ p
      → queue_remove h q x ≡ finish (bypass_prev n (some p) (set_next h p n) q)
  unfolding queue_remove
  remove_behind p n prev next ne =
      ap second_half (ap₂ (λ a b. bypass_next a b h q) prev next)
      ∙ ap₂ (λ a b. finish (bypass_prev a b (set_next h p n) q))
          (ap (λ (a : Quantum). a.next_ready) same ∙ next)
          (ap (λ (a : Quantum). a.prev_ready) same ∙ prev)
    where
      same : set_next h p n x ≡ h x
      same = update_ne h p _ x ne

  -- The ends and the count of the queue that is left, given its links.
  record Left (xs ys : List ℕ) (h' : Quanta) (q' : SchedulerQueue) : Type 0 where
    head_left : q'.head ≡ first_or (xs ++ ys) none
    tail_left : q'.tail ≡ last_or (xs ++ ys) none
    count_left : q'.count ≡ (q.count + word32 - 1) % word32
    links_left : Linked h' none (xs ++ ys) none

  Left-Holds :
      (xs ys : List ℕ) (h' : Quanta) (q' : SchedulerQueue)
      → Holds h q (xs ++ x ∷ ys)
      → Left xs ys h' q'
      → Holds h' q' (xs ++ ys)
  Left-Holds xs ys h' q' v l = record {
    head_is = l.head_left;
    tail_is = l.tail_left;
    count_is =
        omega (
          arith,
          l.count_left,
          v.count_is,
          v.small,
          length-append xs ys,
          length-append xs (x ∷ ys),
        );
    small = omega (arith, v.small, length-append xs ys, length-append xs (x ∷ ys));
    links = l.links_left;
    distinct = (Distinct-middle xs x ys v.distinct).2;
  }

  -- The four places where the quantum may stand.
  remove-Left :
      (xs ys : List ℕ)
      → Holds h q (xs ++ x ∷ ys)
      → let (h', q') = queue_remove h q x in Left xs ys h' q'
  unfolding queue_remove
  remove-Left [] [] v =
      rw (v.links.0, v.links.1, bypass_next, bypass_prev)
        (record { head_left = refl; tail_left = v.links.0; count_left = refl; links_left = tt })
  remove-Left [] (y ∷ ys) v =
      rw (v.links.0, v.links.1, bypass_next, bypass_prev)
        (record {
          head_left = refl;
          tail_left = v.tail_is;
          count_left = refl;
          links_left = leave_first h x y ys _ (h x).prev_ready v.links.0 v.links v.distinct;
        })
  remove-Left (w ∷ ws) [] v =
      let (p, e) = last_of w ws in
      let (a, b) = Linked-split h none (w ∷ ws) (x ∷ []) none v.links in
      let out = (Distinct-middle (w ∷ ws) x [] v.distinct).0 in
      subst (λ r. Left (w ∷ ws) [] r.0 r.1)
        (sym
          (remove_behind p none (b.0 ∙ e) b.1 (elem_ne x p (w ∷ ws) out (last-elem w ws none p e))))
        (record {
          head_left = v.head_is;
          tail_left = sym e ∙ ap (λ l. last_or l (some w)) (sym (append-nil ws));
          count_left = refl;
          links_left = leave_last h x _ w ws p v.distinct e a;
        })
  remove-Left (w ∷ ws) (y ∷ ys) v =
      let (p, e) = last_of w ws in
      let (a, b) = Linked-split h none (w ∷ ws) (x ∷ y ∷ ys) none v.links in
      let out = (Distinct-middle (w ∷ ws) x (y ∷ ys) v.distinct).0 in
      subst (λ r. Left (w ∷ ws) (y ∷ ys) r.0 r.1)
        (sym (
          remove_behind p (some y) (b.0 ∙ e) b.1
            (elem_ne x p (w ∷ ws) out (last-elem w ws none p e))))
        (record {
          head_left = v.head_is;
          tail_left =
              v.tail_is
              ∙ last_or-append ws (x ∷ y ∷ ys) (some w)
              ∙ sym (last_or-append ws (y ∷ ys) (some w));
          count_left = refl;
          links_left = leave_middle h x _ w ws y ys p v.distinct e a b.2;
        })

-- `queue_remove` takes a quantum of the queue out, wherever it stands, and keeps the others in
-- their order.
pub queue_remove-Holds :
    (h : Quanta) (q : SchedulerQueue) (xs : List ℕ) (x : ℕ) (ys : List ℕ)
    → Holds h q (xs ++ x ∷ ys)
    → let (h', q') = queue_remove h q x in Holds h' q' (xs ++ ys)
queue_remove-Holds h q xs x ys v = Left-Holds h q x xs ys _ _ v (remove-Left h q x xs ys v)
