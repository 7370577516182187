-- ===== src/Prelude/Lists.antt =====
-- Lists measured and indexed by native numbers: C arrays, and the bytes that `memcpy` moves.
use Prim.Native.Nat.{ℕ, zero, suc, ◌+◌, ◌-◌, ◌<◌, ◌≤◌, min}
use mathlib.Core.Path.{◌≡◌, refl, ap, ◌∙◌}
use mathlib.Core.Bool.{◌&&◌}
use mathlib.Core.List.{List, map, [], ◌∷◌, ◌++◌}
use mathlib.Core.Option.{Option, none, some}
use native.Mathlib.Omega.{arith}
use limitless_os.Prelude.Tests.{ltb, leb, if◌then◌else◌}

module _ {ℓ} {A : Type ℓ} where
  abbrev pub length : List A → ℕ
  length [] = 0
  length (x ∷ xs) = suc (length xs)

  abbrev pub get_elem? : List A → ℕ → Option A
  get_elem? [] i = none
  get_elem? (x ∷ xs) zero = some x
  get_elem? (x ∷ xs) (suc i) = get_elem? xs i

  abbrev pub get_or : List A → ℕ → A → A
  get_or [] i d = d
  get_or (x ∷ xs) zero d = x
  get_or (x ∷ xs) (suc i) d = get_or xs i d

  -- A write out of bounds changes nothing.
  abbrev pub set : List A → ℕ → A → List A
  set [] i v = []
  set (x ∷ xs) zero v = v ∷ xs
  set (x ∷ xs) (suc i) v = x ∷ set xs i v

  abbrev pub take : ℕ → List A → List A
  take zero xs = []
  take (suc n) [] = []
  take (suc n) (x ∷ xs) = x ∷ take n xs

  abbrev pub drop : ℕ → List A → List A
  drop zero xs = xs
  drop (suc n) [] = []
  drop (suc n) (x ∷ xs) = drop n xs

  abbrev pub replicate : ℕ → A → List A
  replicate zero a = []
  replicate (suc n) a = a ∷ replicate n a

  abbrev pub head? : List A → Option A
  head? [] = none
  head? (x ∷ xs) = some x

  abbrev pub last? : List A → Option A
  last? [] = none
  last? (x ∷ []) = some x
  last? (x ∷ y ∷ xs) = last? (y ∷ xs)

  -- `memcpy(buf + off, src, length src)`.
  pub copy_in : List A → ℕ → List A → List A
  copy_in [] off src = []
  copy_in (x ∷ xs) off [] = x ∷ xs
  copy_in (x ∷ xs) zero (y ∷ ys) = y ∷ copy_in xs zero ys
  copy_in (x ∷ xs) (suc off) (y ∷ ys) = x ∷ copy_in xs off (y ∷ ys)

module _ {ℓ} {A : Type ℓ} where
  pub length-append : (xs ys : List A) → length (xs ++ ys) ≡ length xs + length ys
  length-append [] ys = omega arith
  length-append (x ∷ xs) ys = omega (arith, length-append xs ys)

  pub length-set : (xs : List A) (i : ℕ) (v : A) → length (set xs i v) ≡ length xs
  length-set [] i v = refl
  length-set (x ∷ xs) zero v = refl
  length-set (x ∷ xs) (suc i) v = ap suc (length-set xs i v)

  pub length-replicate : (n : ℕ) (a : A) → length (replicate n a) ≡ n
  length-replicate zero a = refl
  length-replicate (suc n) a = ap suc (length-replicate n a)

  pub length-take : (n : ℕ) (xs : List A) → length (take n xs) ≡ min n (length xs)
  length-take zero xs = omega arith
  length-take (suc n) [] = omega arith
  length-take (suc n) (x ∷ xs) = omega (arith, length-take n xs)

  pub length-drop : (n : ℕ) (xs : List A) → length (drop n xs) ≡ length xs - n
  length-drop zero xs = omega arith
  length-drop (suc n) [] = omega arith
  length-drop (suc n) (x ∷ xs) = omega (arith, length-drop n xs)

  pub length-copy_in :
      (xs : List A) (off : ℕ) (ys : List A) → length (copy_in xs off ys) ≡ length xs
  unfolding copy_in
  length-copy_in [] off ys = refl
  length-copy_in (x ∷ xs) off [] = refl
  length-copy_in (x ∷ xs) zero (y ∷ ys) = ap suc (length-copy_in xs zero ys)
  length-copy_in (x ∷ xs) (suc off) (y ∷ ys) = ap suc (length-copy_in xs off (y ∷ ys))

  pub take-append : (xs ys : List A) → take (length xs) (xs ++ ys) ≡ xs
  take-append [] ys = refl
  take-append (x ∷ xs) ys = ap (◌∷◌ x) (take-append xs ys)

  pub drop-append : (xs ys : List A) → drop (length xs) (xs ++ ys) ≡ ys
  drop-append [] ys = refl
  drop-append (x ∷ xs) ys = drop-append xs ys

  pub take_all : (n : ℕ) (xs : List A) → length xs ≤ n → take n xs ≡ xs
  take_all zero [] h = refl
  take_all zero (x ∷ xs) h = absurd (omega arith)
  take_all (suc n) [] h = refl
  take_all (suc n) (x ∷ xs) h = ap (◌∷◌ x) (take_all n xs (omega arith))

  pub drop_all : (n : ℕ) (xs : List A) → length xs ≤ n → drop n xs ≡ []
  drop_all zero [] h = refl
  drop_all zero (x ∷ xs) h = absurd (omega arith)
  drop_all (suc n) [] h = refl
  drop_all (suc n) (x ∷ xs) h = drop_all n xs (omega arith)

  -- A count past the end takes no more than the count at the end, and drops no more.
  pub take-min : (n : ℕ) (xs : List A) → take (min n (length xs)) xs ≡ take n xs
  take-min zero xs = ap (λ (k : ℕ). take k xs) (let e : min 0 (length xs) ≡ 0 = omega arith in e)
  take-min (suc n) [] = ap (λ (k : ℕ). take k []) (let e : min (suc n) 0 ≡ 0 = omega arith in e)
  take-min (suc n) (x ∷ xs) =
      ap (λ (k : ℕ). take k (x ∷ xs))
        (let e : min (suc n) (suc (length xs)) ≡ suc (min n (length xs)) = omega arith in e)
      ∙ ap (◌∷◌ x) (take-min n xs)

  pub drop-min : (n : ℕ) (xs : List A) → drop (min n (length xs)) xs ≡ drop n xs
  drop-min zero xs = ap (λ (k : ℕ). drop k xs) (let e : min 0 (length xs) ≡ 0 = omega arith in e)
  drop-min (suc n) [] = ap (λ (k : ℕ). drop k []) (let e : min (suc n) 0 ≡ 0 = omega arith in e)
  drop-min (suc n) (x ∷ xs) =
      ap (λ (k : ℕ). drop k (x ∷ xs))
        (let e : min (suc n) (suc (length xs)) ≡ suc (min n (length xs)) = omega arith in e)
      ∙ drop-min n xs

  pub get_or-take :
      (n : ℕ) (xs : List A) (i : ℕ) (d : A) → i < n → get_or (take n xs) i d ≡ get_or xs i d
  get_or-take zero xs i d h = absurd (omega arith)
  get_or-take (suc n) [] i d h = refl
  get_or-take (suc n) (x ∷ xs) zero d h = refl
  get_or-take (suc n) (x ∷ xs) (suc i) d h = get_or-take n xs i d (omega arith)

  pub get_or-drop :
      (n : ℕ) (xs : List A) (i : ℕ) (d : A) → get_or (drop n xs) i d ≡ get_or xs (n + i) d
  get_or-drop zero xs i d = ap (λ k. get_or xs k d) (omega arith)
  get_or-drop (suc n) [] i d = refl
  get_or-drop (suc n) (x ∷ xs) i d =
      get_or-drop n xs i d
      ∙ ap (λ k. get_or (x ∷ xs) k d) (let e : suc (n + i) ≡ suc n + i = omega arith in e)

module _ {A : Type 0} where
  -- What `memcpy` leaves in the target: the source over its range, the old elements elsewhere.
  pub get_or-copy_in :
      (xs : List A) (off : ℕ) (ys : List A) (j : ℕ) (d : A)
      → off + length ys ≤ length xs
      → get_or (copy_in xs off ys) j d
        ≡ (if leb off j && ltb j (off + length ys) then get_or ys (j - off) d else get_or xs j d)
  unfolding copy_in
  get_or-copy_in [] off [] j d h = ground arith
  get_or-copy_in [] off (y ∷ ys) j d h = absurd (omega arith)
  get_or-copy_in (x ∷ xs) off [] j d h = ground arith
  get_or-copy_in (x ∷ xs) zero (y ∷ ys) zero d h = ground arith
  get_or-copy_in (x ∷ xs) zero (y ∷ ys) (suc j) d h = ground (arith, get_or-copy_in xs zero ys j d)
  get_or-copy_in (x ∷ xs) (suc off) (y ∷ ys) zero d h = ground arith
  get_or-copy_in (x ∷ xs) (suc off) (y ∷ ys) (suc j) d h =
      ground (arith, get_or-copy_in xs off (y ∷ ys) j d)

pub map-append {ℓ ℓ'} :
    {A : Type ℓ} {B : Type ℓ'} (f : A → B) (xs ys : List A)
    → map f (xs ++ ys) ≡ map f xs ++ map f ys
map-append f [] ys = refl
map-append f (x ∷ xs) ys = ap (◌∷◌ (f x)) (map-append f xs ys)
