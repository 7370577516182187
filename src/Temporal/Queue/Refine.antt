-- ===== src/Temporal/Queue/Refine.antt =====
-- A ready queue behaves as the list of the quanta in it.
use limitless_os.Prelude.{
  ℕ, suc, ◌<◌, ◌≡◌, refl, sym, ap, subst, ◌∙◌, false, Option, none, some, List, [], ◌∷◌, ◌++◌,
  length, length-append, update, update_ne, update_self, arith,
}
use limitless_os.Temporal.Quantum.{Quantum, Quanta, SchedulerQueue, word32}
use limitless_os.Temporal.Queue.{
  queue_init, queue_enqueue, queue_dequeue, link_after, advance, dequeue_head, set_next, set_prev,
}
use limitless_os.Temporal.Queue.Links.{
  elem, Distinct, first_or, last_or, Linked, elem-append, Linked-update, Linked-append, last-elem,
  last_of, elem_ne, Linked-set_next, Linked-set_prev,
}

-- The queue `q` holds the quanta `xs`, first come first: its ends, its links and its count agree.
pub record Holds (h : Quanta) (q : SchedulerQueue) (xs : List ℕ) : Type 0 where
  pub head_is : q.head ≡ first_or xs none
  pub tail_is : q.tail ≡ last_or xs none
  pub count_is : q.count ≡ length xs
  pub small : length xs < word32
  pub links : Linked h none xs none
  pub distinct : Distinct xs

pub queue_init-Holds : (h : Quanta) (priority : ℕ) → Holds h (queue_init priority) []
unfolding queue_init
queue_init-Holds h priority = ground arith

Distinct-snoc : (xs : List ℕ) (x : ℕ) → Distinct xs → elem x xs ≡ false → Distinct (xs ++ x ∷ [])
Distinct-snoc [] x d o = (refl, tt)
Distinct-snoc (y ∷ xs) x d o = ground (arith, elem-append y xs (x ∷ []), Distinct-snoc xs x d.1)

last_or-snoc : (xs : List ℕ) (x : ℕ) (p : Option ℕ) → last_or (xs ++ x ∷ []) p ≡ some x
last_or-snoc [] x p = refl
last_or-snoc (y ∷ xs) x p = last_or-snoc xs x (some y)

pub first_or-append :
    (xs ys : List ℕ) (e : Option ℕ) → first_or (xs ++ ys) e ≡ first_or xs (first_or ys e)
first_or-append [] ys e = refl
first_or-append (x ∷ xs) ys e = refl

pub last_or-append :
    (xs ys : List ℕ) (e : Option ℕ) → last_or (xs ++ ys) e ≡ last_or ys (last_or xs e)
last_or-append [] ys e = refl
last_or-append (x ∷ xs) ys e = last_or-append xs ys (some x)

-- The links of a chain that a quantum joins at the end.
join_last :
    (h : Quanta) (q : Quantum) (y : ℕ) (xs : List ℕ) (last x : ℕ)
    → Linked h none (y ∷ xs) none
    → Distinct (y ∷ xs)
    → elem x (y ∷ xs) ≡ false
    → last_or xs (some y) ≡ some last
    → q.prev_ready ≡ some last
    → q.next_ready ≡ none
    → Linked (set_next (update h x q) last (some x)) none (y ∷ (xs ++ x ∷ [])) none
join_last h q y xs last x l d o e prev next =
    Linked-append (set_next (update h x q) last (some x)) none (y ∷ xs) (x ∷ []) none
      (Linked-set_next (update h x q) none (y ∷ xs) none (some x) last d e
        (Linked-update h x q none (y ∷ xs) none o l))
      (
        ap (λ (a : Quantum). a.prev_ready) new ∙ prev ∙ sym e,
        ap (λ (a : Quantum). a.next_ready) new ∙ next,
        tt,
      )
  where
    new : set_next (update h x q) last (some x) x ≡ q
    new =
        update_ne (update h x q) last _ x (elem_ne x last (y ∷ xs) o (last-elem y xs none last e))
        ∙ update_self h x q

-- `queue_enqueue` puts a quantum that is not in the queue behind all others.
pub queue_enqueue-Holds :
    (h : Quanta) (q : SchedulerQueue) (xs : List ℕ) (x : ℕ)
    → Holds h q xs
    → elem x xs ≡ false
    → suc (length xs) < word32
    → let (h', q') = queue_enqueue h q x in Holds h' q' (xs ++ x ∷ [])
unfolding queue_enqueue
queue_enqueue-Holds h q [] x v o room = ground (arith, v.head_is, v.tail_is)
queue_enqueue-Holds h q (y ∷ xs) x v o room =
    let (t, e') = last_of y xs in
    let e : q.tail ≡ some t = v.tail_is ∙ e' in
    rw (e, link_after)
      (record {
        head_is = v.head_is;
        tail_is = sym (last_or-snoc xs x (some y));
        count_is = omega (arith, v.count_is, length-append xs (x ∷ []));
        small = omega (arith, length-append xs (x ∷ []));
        links = join_last h _ y xs t x v.links v.distinct o e' refl refl;
        distinct = Distinct-snoc (y ∷ xs) x v.distinct o;
      })

-- The links of a chain that its first quantum leaves.
pub leave_first :
    (h : Quanta) (x y : ℕ) (xs : List ℕ) (q : Quantum) (p : Option ℕ)
    → p ≡ none
    → Linked h none (x ∷ y ∷ xs) none
    → Distinct (x ∷ y ∷ xs)
    → Linked (update (set_prev h y p) x q) none (y ∷ xs) none
leave_first h x y xs q p e l d = Linked-update (set_prev h y p) x q none (y ∷ xs) none d.0 (
    subst (λ o. Linked (set_prev h y p) o (y ∷ xs) none) e
      (Linked-set_prev h (some x) p y xs none d.1.0 l.2))

-- `queue_dequeue` leaves an empty queue as it is.
pub queue_dequeue_none :
    (h : Quanta) (q : SchedulerQueue) → Holds h q [] → queue_dequeue h q ≡ (none, h, q)
unfolding queue_dequeue
queue_dequeue_none h q v = rw (v.head_is, dequeue_head)

-- `queue_dequeue` takes the first quantum out and keeps the others linked in their order.
pub queue_dequeue-Holds :
    (h : Quanta) (q : SchedulerQueue) (x : ℕ) (xs : List ℕ)
    → Holds h q (x ∷ xs)
    → let (taken, h', q') = queue_dequeue h q in (taken ≡ some x) × Holds h' q' xs
unfolding queue_dequeue
queue_dequeue-Holds h q x [] v =
    rw (v.head_is, dequeue_head, v.links.1, advance) (ground (arith, v.count_is))
queue_dequeue-Holds h q x (y ∷ xs) v =
    rw (v.head_is, dequeue_head, v.links.1, advance)
      (
        refl,
        record {
          head_is = refl;
          tail_is = v.tail_is;
          count_is = omega (arith, v.count_is);
          small = omega arith;
          links = leave_first h x y xs _ none refl v.links v.distinct;
          distinct = v.distinct.1;
        },
      )
