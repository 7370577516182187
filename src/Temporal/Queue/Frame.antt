-- ===== src/Temporal/Queue/Frame.antt =====
-- What the queue operations leave alone: every field of a quantum but its links, and every quantum
-- that is neither the argument nor in the queue.
use limitless_os.Prelude.{
  ℕ, ◌≡◌, ◌≢◌, refl, ap, ◌∙◌, true, false, Option, none, some, List, [], ◌∷◌, update, update_ne,
  arith,
}
use limitless_os.Temporal.Quantum.{Quantum, Quanta, SchedulerQueue}
use limitless_os.Temporal.Queue.{
  queue_enqueue, queue_dequeue, queue_remove, bypass_next, bypass_prev, link_after, advance,
  dequeue_head, set_prev,
}
use limitless_os.Temporal.Queue.Links.{elem, Linked, last-elem, last_of, elem_ne}
use limitless_os.Temporal.Queue.Refine.{Holds}

-- A quantum without its links.
abbrev pub body : Quantum → Quantum
body q = record q { next_ready = none; prev_ready = none }

abbrev pub SameBodies : Quanta → Quanta → Type 0
SameBodies h h' = (y : ℕ) → body (h' y) ≡ body (h y)

pub body-update :
    (h : Quanta) (x : ℕ) (q : Quantum) → body q ≡ body (h x) → SameBodies h (update h x q)
body-update h x q e y = ground arith

body-link_after :
    (last : Option ℕ) (x : ℕ) (h : Quanta) (q : SchedulerQueue)
    → SameBodies h (link_after last x h q).0
body-link_after none x h q y = refl
body-link_after (some t) x h q y = body-update h t _ refl y

pub body-queue_enqueue :
    (h : Quanta) (q : SchedulerQueue) (x : ℕ) → SameBodies h (queue_enqueue h q x).0
unfolding queue_enqueue
body-queue_enqueue h q x y =
    body-link_after q.tail x _ q y
    ∙ body-update h x (record (h x) { next_ready = none; prev_ready = q.tail }) refl y

body-advance :
    (next : Option ℕ) (h : Quanta) (q : SchedulerQueue) → SameBodies h (advance next h q).0
body-advance none h q y = refl
body-advance (some t) h q y = body-update h t _ refl y

body-dequeue_head :
    (first : Option ℕ) (h : Quanta) (q : SchedulerQueue) → SameBodies h (dequeue_head first h q).1
body-dequeue_head none h q y = refl
body-dequeue_head (some x) h q y =
    let h' = (advance (h x).next_ready h q).0 in
    body-update h' x (record (h' x) { next_ready = none; prev_ready = none }) refl y
    ∙ body-advance (h x).next_ready h q y

pub body-queue_dequeue : (h : Quanta) (q : SchedulerQueue) → SameBodies h (queue_dequeue h q).1
unfolding queue_dequeue
body-queue_dequeue h q = body-dequeue_head q.head h q

body-bypass_next :
    (prev next : Option ℕ) (h : Quanta) (q : SchedulerQueue)
    → SameBodies h (bypass_next prev next h q).0
body-bypass_next none next h q y = refl
body-bypass_next (some p) next h q y = body-update h p _ refl y

body-bypass_prev :
    (next prev : Option ℕ) (h : Quanta) (q : SchedulerQueue)
    → SameBodies h (bypass_prev next prev h q).0
body-bypass_prev none prev h q y = refl
body-bypass_prev (some n) prev h q y = body-update h n _ refl y

pub body-queue_remove :
    (h : Quanta) (q : SchedulerQueue) (x : ℕ) → SameBodies h (queue_remove h q x).0
unfolding queue_remove
body-queue_remove h q x y =
    let (h', q') = bypass_next (h x).prev_ready (h x).next_ready h q in
    let (h'', q'') = bypass_prev (h' x).next_ready (h' x).prev_ready h' q' in
    body-update h'' x (record (h'' x) { next_ready = none; prev_ready = none }) refl y
    ∙ body-bypass_prev (h' x).next_ready (h' x).prev_ready h' q' y
    ∙ body-bypass_next (h x).prev_ready (h x).next_ready h q y

-- A chain sees of its quanta nothing but their links.
pub Linked-links :
    (h h' : Quanta) (p : Option ℕ) (zs : List ℕ) (e : Option ℕ)
    → ((y : ℕ) → elem y zs ≡ true → (h' y).next_ready ≡ (h y).next_ready)
    → ((y : ℕ) → elem y zs ≡ true → (h' y).prev_ready ≡ (h y).prev_ready)
    → Linked h p zs e
    → Linked h' p zs e
Linked-links h h' p [] e next prev l = tt
Linked-links h h' p (z ∷ zs) e next prev l = (
  prev z (ground arith) ∙ l.0,
  next z (ground arith) ∙ l.1,
  Linked-links h h' (some z) zs e (λ y i. next y (ground arith)) (λ y i. prev y (ground arith)) l.2,
)

pub Holds-links :
    (h h' : Quanta) (q : SchedulerQueue) (zs : List ℕ)
    → ((y : ℕ) → elem y zs ≡ true → (h' y).next_ready ≡ (h y).next_ready)
    → ((y : ℕ) → elem y zs ≡ true → (h' y).prev_ready ≡ (h y).prev_ready)
    → Holds h q zs
    → Holds h' q zs
Holds-links h h' q zs next prev v = record {
  head_is = v.head_is;
  tail_is = v.tail_is;
  count_is = v.count_is;
  small = v.small;
  links = Linked-links h h' none zs none next prev v.links;
  distinct = v.distinct;
}

pub Holds-frame :
    (h h' : Quanta) (q : SchedulerQueue) (zs : List ℕ)
    → ((y : ℕ) → elem y zs ≡ true → h' y ≡ h y)
    → Holds h q zs
    → Holds h' q zs
Holds-frame h h' q zs same v =
    Holds-links h h' q zs (λ y i. ap (λ (a : Quantum). a.next_ready) (same y i))
      (λ y i. ap (λ (a : Quantum). a.prev_ready) (same y i)) v

pub queue_enqueue_frame :
    (h : Quanta) (q : SchedulerQueue) (xs : List ℕ) (x y : ℕ)
    → Holds h q xs
    → y ≢ x
    → elem y xs ≡ false
    → (queue_enqueue h q x).0 y ≡ h y
unfolding queue_enqueue
queue_enqueue_frame h q [] x y v ne out = rw (v.tail_is, link_after) (ground arith)
queue_enqueue_frame h q (z ∷ zs) x y v ne out =
    let (t, e) = last_of z zs in
    let q' : Quantum = record (h x) { next_ready = none; prev_ready = some t } in
    rw (v.tail_is ∙ e, link_after)
      (update_ne (update h x q') t _ y (elem_ne y t (z ∷ zs) out (last-elem z zs none t e))
        ∙ update_ne h x q' y ne)

pub queue_dequeue_frame :
    (h : Quanta) (q : SchedulerQueue) (xs : List ℕ) (y : ℕ)
    → Holds h q xs
    → elem y xs ≡ false
    → (queue_dequeue h q).1 y ≡ h y
unfolding queue_dequeue
queue_dequeue_frame h q [] y v out = rw (v.head_is, dequeue_head)
queue_dequeue_frame h q (x ∷ []) y v out =
    rw (v.head_is, dequeue_head, v.links.1, advance) (ground arith)
queue_dequeue_frame h q (x ∷ z ∷ zs) y v out =
    rw (v.head_is, dequeue_head, v.links.1, advance)
      (update_ne (set_prev h z none) x _ y (elem_ne y x (x ∷ z ∷ zs) out (ground arith))
        ∙ update_ne h z _ y (elem_ne y z (x ∷ z ∷ zs) out (ground arith)))
