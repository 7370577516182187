-- ===== src/Flux/Translate.antt =====
-- `flux_translate_address` of continuum/flux_memory.c. The argument `memory` is the 64-bit word at each
-- byte address, and a domain is the address of its first table.
use limitless_os.Prelude.{
  ℕ, ◌+◌, ◌-◌, ◌*◌, ◌/◌, ◌%◌, ◌^◌, ◌≡◌, ◌⊎◌, inl, inr, refl, ap, subst, ◌∙◌, Bool, true, false, not,
  Option, none, some, ◌==◌, if◌then◌else◌, arith,
}
use limitless_os.Temporal.Quantum.{word64}

-- `entry & PAGE_PRESENT` and `entry & PAGE_HUGE`
abbrev pub is_present : ℕ → Bool
is_present entry = entry % 2 == 1

abbrev pub is_huge : ℕ → Bool
is_huge entry = (entry / 128) % 2 == 1

-- `entry & ~0xFFF` and `entry & ~0x1FFFFF`
abbrev pub page_base : ℕ → ℕ
page_base entry = entry - entry % 4096

abbrev pub huge_base : ℕ → ℕ
huge_base entry = entry - entry % 2097152

-- `table[index]`
abbrev pub entry_at : (ℕ → ℕ) → ℕ → ℕ → ℕ
entry_at memory table index = memory ((table + 8 * index) % word64)

-- The lookup for the four indices that `flux_translate_address` computes.
abbrev pub walk : (ℕ → ℕ) → ℕ → ℕ → ℕ → ℕ → ℕ → ℕ → ℕ
walk memory pml4 pml4_idx pdpt_idx pd_idx pt_idx vaddr =
    let pml4_entry = entry_at memory pml4 pml4_idx in
    let pdpt_entry = entry_at memory (page_base pml4_entry) pdpt_idx in
    let pd_entry = entry_at memory (page_base pdpt_entry) pd_idx in
    let pt_entry = entry_at memory (page_base pd_entry) pt_idx in
    if not (is_present pml4_entry)
    then 0
    else if not (is_present pdpt_entry)
    then 0
    else if is_huge pd_entry
    then huge_base pd_entry + vaddr % 2097152
    else if not (is_present pd_entry)
    then 0
    else if not (is_present pt_entry)
    then 0
    else page_base pt_entry + vaddr % 4096

unfoldable pub flux_translate_address : (ℕ → ℕ) → Option ℕ → ℕ → ℕ
flux_translate_address memory none vaddr = 0
flux_translate_address memory (some pml4) vaddr =
    walk memory pml4 ((vaddr / 2 ^ 39) % 512) ((vaddr / 2 ^ 30) % 512) ((vaddr / 2 ^ 21) % 512)
      ((vaddr / 2 ^ 12) % 512) vaddr

-- Both addresses are unmapped, or they are mapped with the same distance from the start of their page.
abbrev pub SamePage : ℕ → ℕ → ℕ → ℕ → Type 0
SamePage v w pv pw = ((pv ≡ 0) × (pw ≡ 0)) ⊎ (pv + w % 4096 ≡ pw + v % 4096)

module _ (v w : ℕ) where
  unmapped_or :
      (b : Bool) (x y : ℕ)
      → SamePage v w x y
      → SamePage v w (if b then 0 else x) (if b then 0 else y)
  unmapped_or true x y s = inl (refl, refl)
  unmapped_or false x y s = s

  mapped_or :
      (b : Bool) (x x' y y' : ℕ)
      → SamePage v w x y
      → SamePage v w x' y'
      → SamePage v w (if b then x else x') (if b then y else y')
  mapped_or true x x' y y' s s' = s
  mapped_or false x x' y y' s s' = s'

-- Two addresses in one page are both unmapped or mapped into one page of physical memory, at their
-- places in it.
pub flux_translate_address_lem :
    (memory : ℕ → ℕ) (domain : Option ℕ) (v w : ℕ)
    → v / 4096 ≡ w / 4096
    → SamePage v w (flux_translate_address memory domain v) (flux_translate_address memory domain w)
unfolding flux_translate_address
flux_translate_address_lem memory none v w same = inl (refl, refl)
flux_translate_address_lem memory (some pml4) v w same =
    subst (SamePage v w (walk memory pml4 i4 i3 i2 i1 v)) indices (
      unmapped_or v w (not (is_present e4)) _ _ (
        unmapped_or v w (not (is_present e3)) _ _ (
          mapped_or v w (is_huge e2) _ _ _ _ (inr (omega (arith, same))) (
            unmapped_or v w (not (is_present e2)) _ _
              (unmapped_or v w (not (is_present e1)) _ _ (inr (omega arith)))))))
  where
    i4 : ℕ
    i4 = (v / 2 ^ 39) % 512

    i3 : ℕ
    i3 = (v / 2 ^ 30) % 512

    i2 : ℕ
    i2 = (v / 2 ^ 21) % 512

    i1 : ℕ
    i1 = (v / 2 ^ 12) % 512

    e4 : ℕ
    e4 = entry_at memory pml4 i4

    e3 : ℕ
    e3 = entry_at memory (page_base e4) i3

    e2 : ℕ
    e2 = entry_at memory (page_base e3) i2

    e1 : ℕ
    e1 = entry_at memory (page_base e2) i1

    indices :
        walk memory pml4 i4 i3 i2 i1 w
        ≡ walk memory pml4
            ((w / 2 ^ 39) % 512)
            ((w / 2 ^ 30) % 512)
            ((w / 2 ^ 21) % 512)
            ((w / 2 ^ 12) % 512)
            w
    indices =
        ap (λ (i : ℕ). walk memory pml4 i i3 i2 i1 w) (omega (arith, same))
        ∙ ap (λ (i : ℕ). walk memory pml4 ((w / 2 ^ 39) % 512) i i2 i1 w) (omega (arith, same))
        ∙ ap (λ (i : ℕ). walk memory pml4 ((w / 2 ^ 39) % 512) ((w / 2 ^ 30) % 512) i i1 w)
            (omega (arith, same))
        ∙ ap
            (λ (i : ℕ).
              walk memory pml4 ((w / 2 ^ 39) % 512) ((w / 2 ^ 30) % 512) ((w / 2 ^ 21) % 512) i w)
            (omega (arith, same))
