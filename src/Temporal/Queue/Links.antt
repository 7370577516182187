-- ===== src/Temporal/Queue/Links.antt =====
-- Chains of quanta in the store: what `next_ready` and `prev_ready` must say of a list of pointers.
use limitless_os.Prelude.{
  ℕ, ◌≡◌, ◌≢◌, refl, ap, ◌∙◌, Bool, true, false, ◌||◌, Option, none, some, List, [], ◌∷◌, ◌++◌,
  ◌==◌, update, update_ne, arith,
}
use limitless_os.Temporal.Quantum.{Quantum, Quanta}
use limitless_os.Temporal.Queue.{set_next, set_prev}

abbrev pub elem : ℕ → List ℕ → Bool
elem x [] = false
elem x (y ∷ ys) = x == y || elem x ys

-- No pointer twice.
abbrev pub Distinct : List ℕ → Type 0
Distinct [] = Unit {0}
Distinct (x ∷ xs) = (elem x xs ≡ false) × Distinct xs

abbrev pub first_or : List ℕ → Option ℕ → Option ℕ
first_or [] e = e
first_or (x ∷ xs) e = some x

abbrev pub last_or : List ℕ → Option ℕ → Option ℕ
last_or [] e = e
last_or (x ∷ xs) e = last_or xs (some x)

-- The quanta `xs` are linked in order, between `p` before them and `e` after them.
abbrev pub Linked : Quanta → Option ℕ → List ℕ → Option ℕ → Type 0
Linked h p [] e = Unit {0}
Linked h p (x ∷ xs) e =
    ((h x).prev_ready ≡ p) × ((h x).next_ready ≡ first_or xs e) × Linked h (some x) xs e

pub elem-append : (x : ℕ) (xs ys : List ℕ) → elem x (xs ++ ys) ≡ (elem x xs || elem x ys)
elem-append x [] ys = refl
elem-append x (y ∷ xs) ys = ground (arith, elem-append x xs ys)

-- A write to a quantum outside the chain leaves the chain.
pub Linked-update :
    (h : Quanta) (a : ℕ) (q : Quantum) (p : Option ℕ) (xs : List ℕ) (e : Option ℕ)
    → elem a xs ≡ false
    → Linked h p xs e
    → Linked (update h a q) p xs e
Linked-update h a q p [] e o l = tt
Linked-update h a q p (x ∷ xs) e o (prev, next, l) =
    ground (arith, Linked-update h a q (some x) xs e)

pub Linked-append :
    (h : Quanta) (p : Option ℕ) (xs ys : List ℕ) (e : Option ℕ)
    → Linked h p xs (first_or ys e)
    → Linked h (last_or xs p) ys e
    → Linked h p (xs ++ ys) e
Linked-append h p [] ys e l r = r
Linked-append h p (x ∷ []) ys e l r = (l.0, l.1, r)
Linked-append h p (x ∷ y ∷ xs) ys e l r = (l.0, l.1, Linked-append h (some x) (y ∷ xs) ys e l.2 r)

pub Linked-split :
    (h : Quanta) (p : Option ℕ) (xs ys : List ℕ) (e : Option ℕ)
    → Linked h p (xs ++ ys) e
    → Linked h p xs (first_or ys e) × Linked h (last_or xs p) ys e
Linked-split h p [] ys e l = (tt, l)
Linked-split h p (x ∷ []) ys e l = ((l.0, l.1, tt), l.2)
Linked-split h p (x ∷ y ∷ xs) ys e l =
    let (a, b) = Linked-split h (some x) (y ∷ xs) ys e l.2 in ((l.0, l.1, a), b)

pub last-elem :
    (x : ℕ) (xs : List ℕ) (p : Option ℕ) (t : ℕ)
    → last_or (x ∷ xs) p ≡ some t
    → elem t (x ∷ xs) ≡ true
last-elem x [] p t h = ground arith
last-elem x (y ∷ xs) p t h = ground (arith, last-elem y xs (some x) t)

pub first-elem : (xs : List ℕ) (t : ℕ) → first_or xs none ≡ some t → elem t xs ≡ true
first-elem [] t h = cc
first-elem (x ∷ xs) t h = ground arith

pub elem_ne : (x t : ℕ) (xs : List ℕ) → elem x xs ≡ false → elem t xs ≡ true → x ≢ t
elem_ne x t xs o i e = cc (ap (λ (k : ℕ). elem k xs) e)

-- A chain with a quantum in it has a last one.
pub last_of : (y : ℕ) (xs : List ℕ) → (t : ℕ) × (last_or xs (some y) ≡ some t)
last_of y [] = (y, refl)
last_of y (x ∷ xs) = last_of x xs

-- Redirecting the last quantum of a chain.
pub Linked-set_next :
    (h : Quanta) (p : Option ℕ) (xs : List ℕ) (e e' : Option ℕ) (last : ℕ)
    → Distinct xs
    → last_or xs none ≡ some last
    → Linked h p xs e
    → Linked (set_next h last e') p xs e'
Linked-set_next h p [] e e' last d q l = tt
Linked-set_next h p (x ∷ []) e e' last d q l = ground arith
Linked-set_next h p (x ∷ y ∷ xs) e e' last d q l = (
  ap (λ (a : Quantum). a.prev_ready) other ∙ l.0,
  ap (λ (a : Quantum). a.next_ready) other ∙ l.1,
  Linked-set_next h (some x) (y ∷ xs) e e' last d.1 q l.2,
)
  where
    ne : x ≢ last
    ne = ground (arith, last-elem y xs (some x) last)

    other : set_next h last e' x ≡ h x
    other = update_ne h last _ x ne

-- Redirecting the first quantum of a chain backwards.
pub Linked-set_prev :
    (h : Quanta) (p p' : Option ℕ) (x : ℕ) (xs : List ℕ) (e : Option ℕ)
    → elem x xs ≡ false
    → Linked h p (x ∷ xs) e
    → Linked (set_prev h x p') p' (x ∷ xs) e
Linked-set_prev h p p' x xs e d l =
    ground (arith, Linked-update h x (record (h x) { prev_ready = p' }) (some x) xs e)
