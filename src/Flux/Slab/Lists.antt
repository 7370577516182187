-- ===== src/Flux/Slab/Lists.antt =====
-- The lists of a slab cache and the free objects in them, continuum/flux_memory.c.
use limitless_os.Prelude.{
  ℕ, ◌+◌, ◌≤◌, ◌<◌, ◌≡◌, ap, sym, subst, ◌∙◌, ◌⊎◌, true, false, some, List, [], ◌∷◌, ◌++◌, length,
  ◌==◌, if◌then◌else◌, arith, Bool-cases, ==_iff, inl, inr,
}
use limitless_os.Temporal.Quantum.{word32}
use limitless_os.Flux.Slab.{Slab, SlabCache, find_slab, unlink_slab, store_slab}

abbrev pub one : ℕ → ℕ → ℕ
one y obj = if y == obj then 1 else 0

abbrev pub count : ℕ → List ℕ → ℕ
count y [] = 0
count y (x ∷ xs) = one y x + count y xs

-- The sum of a measure over the free lists of slabs.
abbrev pub weight : (List ℕ → ℕ) → List Slab → ℕ
weight f [] = 0
weight f (slab ∷ rest) = f slab.free_list + weight f rest

abbrev pub total : (List ℕ → ℕ) → SlabCache → ℕ
total f cache =
    weight f cache.full_slabs + weight f cache.partial_slabs + weight f cache.empty_slabs

-- How often an object stands in a free list.
abbrev pub free_times : ℕ → SlabCache → ℕ
free_times y cache = total (count y) cache

abbrev pub AllSlabs : (Slab → Type 0) → List Slab → Type 0
AllSlabs P [] = Unit {0}
AllSlabs P (slab ∷ rest) = P slab × AllSlabs P rest

abbrev pub InUse : Slab → Type 0
InUse slab = (slab.free_count ≡ 0) × (slab.free_list ≡ [])

abbrev pub Counted : ℕ → Slab → Type 0
Counted objects slab =
    (slab.free_count ≡ length slab.free_list) × (0 < slab.free_count) × (slab.free_count ≤ objects)

pub record IsSound (cache : SlabCache) : Type 0 where
  pub full_in_use : AllSlabs InUse cache.full_slabs
  pub partial_counted : AllSlabs (Counted cache.objects_per_slab) cache.partial_slabs
  pub empty_counted : AllSlabs (Counted cache.objects_per_slab) cache.empty_slabs
  pub free_counted : cache.free_objects ≡ total length cache
  pub some_fit : 0 < cache.objects_per_slab
  pub few_fit : cache.objects_per_slab < word32

pub found_first :
    (page : ℕ) (s slab : Slab) (rest : List Slab)
    → (s.page == page) ≡ true
    → find_slab page (s ∷ rest) ≡ some slab
    → s ≡ slab
found_first page s slab rest here found = cc (rw here at found)

pub found_later :
    (page : ℕ) (s slab : Slab) (rest : List Slab)
    → (s.page == page) ≡ false
    → find_slab page (s ∷ rest) ≡ some slab
    → find_slab page rest ≡ some slab
found_later page s slab rest other found = rw other at found

module _ (f : List ℕ → ℕ) where
  pub unlink_slab-weight :
      (page : ℕ) (list : List Slab) (slab : Slab)
      → find_slab page list ≡ some slab
      → weight f (unlink_slab page list) + f slab.free_list ≡ weight f list
  unlink_slab-weight page [] slab found = absurd (cc found)
  unlink_slab-weight page (s ∷ rest) slab found = elim (Bool-cases (s.page == page)) [
    | inl here ↦
        rw here (
          omega (arith, ap (λ (t : Slab). f t.free_list) (found_first page s slab rest here found)))
    | inr other ↦ rw other (
        omega (arith, unlink_slab-weight page rest slab (found_later page s slab rest other found)))
  ]

  pub store_slab-weight :
      (list : List Slab) (slab slab' : Slab)
      → find_slab slab'.page list ≡ some slab
      → weight f (store_slab slab' list) + f slab.free_list ≡ weight f list + f slab'.free_list
  store_slab-weight [] slab slab' found = absurd (cc found)
  store_slab-weight (s ∷ rest) slab slab' found = elim (Bool-cases (s.page == slab'.page)) [
    | inl here ↦ rw here (
        omega
          (arith, ap (λ (t : Slab). f t.free_list) (found_first slab'.page s slab rest here found)))
    | inr other ↦ rw other (
        omega (
          arith,
          store_slab-weight rest slab slab' (found_later slab'.page s slab rest other found),
        ))
  ]

module _ (P : Slab → Type 0) where
  pub unlink_slab-AllSlabs :
      (page : ℕ) (list : List Slab) → AllSlabs P list → AllSlabs P (unlink_slab page list)
  unlink_slab-AllSlabs page [] all = tt
  unlink_slab-AllSlabs page (s ∷ rest) (p, all) = elim (Bool-cases (s.page == page)) [
    | inl here ↦ rw here all
    | inr other ↦ rw other (p, unlink_slab-AllSlabs page rest all)
  ]

  pub store_slab-AllSlabs :
      (slab' : Slab) (list : List Slab)
      → P slab'
      → AllSlabs P list
      → AllSlabs P (store_slab slab' list)
  store_slab-AllSlabs slab' [] new all = tt
  store_slab-AllSlabs slab' (s ∷ rest) new (p, all) = elim (Bool-cases (s.page == slab'.page)) [
    | inl here ↦ rw here (new, all)
    | inr other ↦ rw other (p, store_slab-AllSlabs slab' rest new all)
  ]

  pub found-AllSlabs :
      (page : ℕ) (list : List Slab) (slab : Slab)
      → find_slab page list ≡ some slab
      → AllSlabs P list
      → P slab
  found-AllSlabs page [] slab found all = absurd (cc found)
  found-AllSlabs page (s ∷ rest) slab found (p, all) = elim (Bool-cases (s.page == page)) [
    | inl here ↦ subst P (found_first page s slab rest here found) p
    | inr other ↦ found-AllSlabs page rest slab (found_later page s slab rest other found) all
  ]

-- A slab with no object free is among the full ones, any other among the partial ones.
pub find_slab-append :
    (page : ℕ) (full partial : List Slab) (slab : Slab)
    → find_slab page (full ++ partial) ≡ some slab
    → (find_slab page full ≡ some slab) ⊎ (find_slab page partial ≡ some slab)
find_slab-append page [] partial slab found = inr found
find_slab-append page (s ∷ full) partial slab found = elim (Bool-cases (s.page == page)) [
  | inl here ↦ inl (rw here (rw here at found))
  | inr other ↦ elim (find_slab-append page full partial slab (rw other at found)) [
    | inl f ↦ inl (rw other f)
    | inr p ↦ inr p
  ]
]

pub found-page :
    (page : ℕ) (list : List Slab) (slab : Slab) → find_slab page list ≡ some slab → slab.page ≡ page
found-page page [] slab found = absurd (cc found)
found-page page (s ∷ rest) slab found = elim (Bool-cases (s.page == page)) [
  | inl here ↦
      sym (ap (λ (t : Slab). t.page) (found_first page s slab rest here found))
      ∙ (==_iff s.page page).0 here
  | inr other ↦ found-page page rest slab (found_later page s slab rest other found)
]
