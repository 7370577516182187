-- ===== src/Flux/Buddy/Order.antt =====
-- The order that the buddy allocator computes from a size.
use native.Mathlib.Nat.{pow-le-pow_right, two-pow-succ}
use limitless_os.Prelude.{
  ℕ_discrete, ℕ, zero, suc, ◌+◌, ◌-◌, ◌*◌, ◌%◌, ◌^◌, ◌<◌, ◌≤◌, ◌≡◌, ◌⊎◌, inl, inr, refl, sym, ap,
  subst, ◌∙◌, Bool, true, false, ltb, if◌then◌else◌, arith,
}
use limitless_os.Temporal.Quantum.{word64}
use limitless_os.Flux.Pages.{page_size}
use limitless_os.Flux.Buddy.{buddy_max_order, order_loop, order_of}

-- `order` is the least order of a block of at least `size` bytes, or the greatest order of all.
pub record Least (size first last order : ℕ) : Type 0 where
  pub in_range : (first ≤ order) × (order ≤ last)
  pub enough : (size ≤ page_size * 2 ^ order) ⊎ (order ≡ last)
  pub smaller_too_small : (o : ℕ) → first ≤ o → o < order → page_size * 2 ^ o < size

order_loop_lem :
    (size n block_size order : ℕ)
    → block_size ≡ page_size * 2 ^ order
    → order + n < 20
    → Least size order (order + n) (order_loop size n block_size order)
unfolding order_loop
order_loop_lem size zero block_size order e h = record {
  in_range = (omega arith, omega arith);
  enough = inr (omega arith);
  smaller_too_small = λ o lo hi. absurd (omega arith);
}
order_loop_lem size (suc n) block_size order e h =
    choose (ltb block_size size) refl
      (order_loop_lem size n ((block_size * 2) % word64) (order + 1) doubled (omega arith))
  where
    small : 2 ^ order ≤ 2 ^ 20
    small = pow-le-pow_right {n = 2} (omega arith) {i = order} {j = 20} (omega arith)

    power : 2 ^ (order + 1) ≡ 2 ^ order + 2 ^ order
    power = ap (λ (k : ℕ). 2 ^ k) {x = order + 1} {y = suc order} (omega arith) ∙ two-pow-succ order

    doubled : (block_size * 2) % word64 ≡ page_size * 2 ^ (order + 1)
    doubled = omega (arith, e, small, power)

    choose :
        (b : Bool)
        → ltb block_size size ≡ b
        → Least size
            (order + 1)
            (order + 1 + n)
            (order_loop size n ((block_size * 2) % word64) (order + 1))
        → Least size order
            (order + suc n)
            (if b then order_loop size n ((block_size * 2) % word64) (order + 1) else order)
    choose true c f = record {
      in_range = (omega (arith, f.in_range.0), omega (arith, f.in_range.1));
      enough = elim f.enough [ inl big ↦ inl big | inr last ↦ inr (omega (arith, last)) ];
      smaller_too_small = λ o lo hi. elim (ℕ_discrete o order) [
        | yes here ↦ subst (λ (k : ℕ). page_size * 2 ^ k < size) (sym here) (ground (arith, e, c))
        | no ne ↦ f.smaller_too_small o (omega (arith, ne)) hi
      ];
    }
    choose false c f = record {
      in_range = (omega arith, omega arith);
      enough = inl (ground (arith, e, c));
      smaller_too_small = λ o lo hi. absurd (omega arith);
    }

-- The loop at the start of `buddy_alloc` and `buddy_free` finds the least order whose blocks hold `size`
-- bytes, or the greatest of all where none does.
pub order_of_lem : (size : ℕ) → Least size 0 (buddy_max_order - 1) (order_of size)
unfolding order_of
order_of_lem size = order_loop_lem size 10 page_size 0 refl (omega arith)
