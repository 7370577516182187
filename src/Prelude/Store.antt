-- ===== src/Prelude/Store.antt =====
-- A store: what each pointer, or each index of a static array, holds.
use Prim.Native.Nat.{ℕ}
use mathlib.Core.Path.{◌≡◌}
use mathlib.Core.Logic.{◌≢◌}
use native.Mathlib.Omega.{arith}
use limitless_os.Prelude.Tests.{◌==◌, if◌then◌else◌}

module _ {ℓ} {A : Type ℓ} where
  abbrev pub update : (ℕ → A) → ℕ → A → ℕ → A
  update f p a q = if q == p then a else f q

  pub update_self : (f : ℕ → A) (p : ℕ) (a : A) → update f p a p ≡ a
  update_self f p a = ground arith

  pub update_ne : (f : ℕ → A) (p : ℕ) (a : A) (q : ℕ) → q ≢ p → update f p a q ≡ f q
  update_ne f p a q h = ground arith

  pub update_at : (f : ℕ → A) (p : ℕ) (a : A) (q : ℕ) → q ≡ p → update f p a q ≡ a
  update_at f p a q e = ground arith
