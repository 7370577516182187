-- ===== src/Prelude/Tabulate.antt =====
-- The list of the first values of a function, by which buffers are compared index by index.
use Prim.Native.Nat.{ℕ, zero, suc, ◌+◌, ◌<◌}
use mathlib.Core.Path.{◌≡◌, refl, ap, ap₂, ◌∙◌}
use mathlib.Core.List.{List, [], ◌∷◌, ◌++◌}
use native.Mathlib.Omega.{arith}
use limitless_os.Prelude.Lists.{length, get_or}

module _ {ℓ} {A : Type ℓ} where
  abbrev pub tabulate : ℕ → (ℕ → A) → List A
  tabulate zero f = []
  tabulate (suc n) f = f 0 ∷ tabulate n (λ i. f (suc i))

  pub length-tabulate : (n : ℕ) (f : ℕ → A) → length (tabulate n f) ≡ n
  length-tabulate zero f = refl
  length-tabulate (suc n) f = ap suc (length-tabulate n (λ i. f (suc i)))

  pub tabulate_congr :
      (n : ℕ) (f g : ℕ → A) → ((i : ℕ) → i < n → f i ≡ g i) → tabulate n f ≡ tabulate n g
  tabulate_congr zero f g h = refl
  tabulate_congr (suc n) f g h =
      ap₂ ◌∷◌ (h 0 (omega arith))
        (tabulate_congr n (λ i. f (suc i)) (λ i. g (suc i)) (λ i p. h (suc i) (omega arith)))

  pub tabulate-add :
      (m n : ℕ) (f : ℕ → A) → tabulate (m + n) f ≡ tabulate m f ++ tabulate n (λ i. f (m + i))
  tabulate-add zero n f =
      ap (λ k. tabulate k f) (omega arith)
      ∙ tabulate_congr n f (λ i. f (0 + i)) (λ i p. ap f (omega arith))
  tabulate-add (suc m) n f =
      ap (λ k. tabulate k f) (let e : suc m + n ≡ suc (m + n) = omega arith in e)
      ∙ ap (◌∷◌ (f 0)) (
          tabulate-add m n (λ i. f (suc i))
          ∙ ap (◌++◌ (tabulate m (λ i. f (suc i)))) (
              tabulate_congr n (λ i. f (suc (m + i))) (λ i. f (suc m + i))
                (λ i p. ap f (omega arith))))

  pub tabulate-get_or : (xs : List A) (d : A) → tabulate (length xs) (λ i. get_or xs i d) ≡ xs
  tabulate-get_or [] d = refl
  tabulate-get_or (x ∷ xs) d = ap (◌∷◌ x) (tabulate-get_or xs d)

  -- Any list is the table of its elements.
  pub eq-tabulate :
      (n : ℕ) (xs : List A) (f : ℕ → A) (d : A)
      → length xs ≡ n
      → ((i : ℕ) → i < n → get_or xs i d ≡ f i)
      → xs ≡ tabulate n f
  eq-tabulate zero [] f d e h = refl
  eq-tabulate zero (x ∷ xs) f d e h = absurd (omega arith)
  eq-tabulate (suc n) [] f d e h = absurd (omega arith)
  eq-tabulate (suc n) (x ∷ xs) f d e h =
      ap₂ ◌∷◌ (h 0 (omega arith))
        (eq-tabulate n xs (λ i. f (suc i)) d (omega arith) (λ i p. h (suc i) (omega arith)))
