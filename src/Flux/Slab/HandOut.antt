-- ===== src/Flux/Slab/HandOut.antt =====
-- `slab_alloc` of continuum/flux_memory.c hands out free objects.
use limitless_os.Prelude.{
  ℕ, zero, suc, ◌+◌, ◌-◌, ◌%◌, ◌<◌, ◌≡◌, ◌≢◌, ◌*◌, refl, ap, sym, subst, ◌∙◌, Option, some, List,
  [], ◌∷◌, length, ◌==◌, arith, Bool-cases, inl, inr,
}
use limitless_os.Temporal.Quantum.{word32, word64}
use limitless_os.Flux.Slab.{
  Slab, SlabCache, chain, new_objects, slab_create, take_object, choose_slab, slab_alloc,
}
use limitless_os.Flux.Slab.Lists.{one, count, weight, free_times, AllSlabs, InUse, Counted, IsSound}

-- What a call that hands out an object does to the free ones.
pub record HandsOut (cache after : SlabCache) (obj : ℕ) (fresh : List ℕ) : Type 0 where
  pub taken : (y : ℕ) → free_times y after + one y obj ≡ free_times y cache + count y fresh
  pub sound : IsSound after

nothing_left : (xs : List ℕ) → length xs ≡ 0 → xs ≡ []
nothing_left [] h = refl
nothing_left (x ∷ xs) h = absurd (omega arith)

-- An object of a chosen slab, which is not counted in its list.
take_object-HandsOut :
    (cache : SlabCache) (slab : Slab) (rest : List Slab) (free : List ℕ)
    → AllSlabs InUse cache.full_slabs
    → Counted cache.objects_per_slab slab
    → AllSlabs (Counted cache.objects_per_slab) rest
    → AllSlabs (Counted cache.objects_per_slab) cache.empty_slabs
    → 0 < cache.objects_per_slab
    → cache.objects_per_slab < word32
    → slab.free_list ≡ free
    → cache.free_objects
      ≡ weight length cache.full_slabs
        + length free
        + weight length rest
        + weight length cache.empty_slabs
    → cache.free_objects < word64
    → (obj : ℕ) × ((take_object cache slab rest free).1 ≡ some obj)
      × ((y : ℕ)
          → free_times y (take_object cache slab rest free).0 + one y obj
            ≡ weight (count y) cache.full_slabs
              + count y free
              + weight (count y) rest
              + weight (count y) cache.empty_slabs)
      × IsSound (take_object cache slab rest free).0
unfolding take_object
take_object-HandsOut cache slab rest [] full (same, low, high) r e fit few is counted w =
    absurd (omega (arith, ap length is))
take_object-HandsOut cache slab rest (obj ∷ others) full (same, low, high) r e fit few is counted
      w =
    elim (Bool-cases ((slab.free_count + word32 - 1) % word32 == 0)) [
      | inl last ↦ rw last (
        obj,
        refl,
        λ y. omega arith,
        record {
          full_in_use = ((ground arith, nothing_left others (ground (arith, l))), full);
          partial_counted = r;
          empty_counted = e;
          free_counted = omega (arith, counted);
          some_fit = fit;
          few_fit = few;
        },
      )
      | inr more ↦ rw more (
        obj,
        refl,
        λ y. omega arith,
        record {
          full_in_use = full;
          partial_counted = ((omega (arith, l), ground arith, omega arith), r);
          empty_counted = e;
          free_counted = omega (arith, counted);
          some_fit = fit;
          few_fit = few;
        },
      )
    ]
  where
    l : length slab.free_list ≡ suc (length others)
    l = ap length is

length-chain : (size n start : ℕ) → length (chain size n start) ≡ n
length-chain size zero start = refl
length-chain size (suc n) start = ap suc (length-chain size n (start + size))

-- The objects that a call adds are those of a new slab where no slab has a free one: each place of the
-- slab once, and nothing else. Otherwise it adds none.
abbrev pub Fresh : SlabCache → ℕ → List Slab → List Slab → List ℕ → Type 0
Fresh cache page [] [] fresh =
    ((i : ℕ) → i < cache.objects_per_slab → count (page + 40 + i * cache.object_size) fresh ≡ 1)
    × ((y : ℕ)
        → ((i : ℕ) → i < cache.objects_per_slab → y ≢ page + 40 + i * cache.object_size)
        → count y fresh ≡ 0)
Fresh cache page _ _ fresh = fresh ≡ []

-- No object of a chain is before its start.
chain_after : (size n start y : ℕ) → y < start → count y (chain size n start) ≡ 0
chain_after size zero start y before = refl
chain_after size (suc n) start y before =
    ground (arith, chain_after size n (start + size) y (omega arith))

next_place : (start i size : ℕ) → start + suc i * size ≡ start + size + i * size
next_place start i size = omega arith

chain_once :
    (size n start i : ℕ) → 0 < size → i < n → count (start + i * size) (chain size n start) ≡ 1
chain_once size zero start i some_size inside = absurd (omega arith)
chain_once size (suc n) start zero some_size inside =
    ground (arith, chain_after size n (start + size) start (omega arith))
chain_once size (suc n) start (suc i) some_size inside =
    subst (λ (k : ℕ). count k (chain size (suc n) start) ≡ 1) (sym (next_place start i size))
      (ground (arith, chain_once size n (start + size) i some_size (omega arith), behind))
  where
    behind : start < start + size + i * size
    behind = omega arith

chain_only :
    (size n start y : ℕ)
    → ((i : ℕ) → i < n → y ≢ start + i * size)
    → count y (chain size n start) ≡ 0
chain_only size zero start y outside = refl
chain_only size (suc n) start y outside = ground (
  arith,
  outside 0 (omega arith),
  chain_only size n (start + size) y
      (λ i h e. outside (suc i) (omega arith) (e ∙ sym (next_place start i size))),
)

abbrev fresh_objects : SlabCache → List Slab → List Slab → Option ℕ → List ℕ
fresh_objects cache [] [] (some page) = new_objects cache page
fresh_objects cache _ _ page = []

chain_first :
    (size n start : ℕ) → 0 < n → (start ∷ chain size (n - 1) (start + size)) ≡ chain size n start
chain_first size zero start some_objects = absurd (omega arith)
chain_first size (suc n) start some_objects =
    ap (λ (k : ℕ). start ∷ chain size k (start + size)) (omega arith)

fresh_objects-Fresh :
    (cache : SlabCache) (page : ℕ) (partial empty : List Slab)
    → 0 < cache.object_size
    → 0 < cache.objects_per_slab
    → Fresh cache page partial empty (fresh_objects cache partial empty (some page))
fresh_objects-Fresh cache page [] [] some_size some_objects =
    subst (Fresh cache page [] [])
      (sym (chain_first cache.object_size cache.objects_per_slab (page + 40) some_objects))
      (
        λ i inside.
            chain_once cache.object_size cache.objects_per_slab (page + 40) i some_size inside,
        λ y outside. chain_only cache.object_size cache.objects_per_slab (page + 40) y outside,
      )
fresh_objects-Fresh cache page [] (slab ∷ empty) some_size some_objects = refl
fresh_objects-Fresh cache page (slab ∷ rest) empty some_size some_objects = refl

abbrev HandsOutOf : SlabCache → List ℕ → SlabCache × Option ℕ → Type 0
HandsOutOf cache fresh r = (obj : ℕ) × (r.1 ≡ some obj) × HandsOut cache r.0 obj fresh

choose_slab-HandsOut :
    (cache : SlabCache) (partial empty : List Slab) (page : ℕ)
    → partial ≡ cache.partial_slabs
    → empty ≡ cache.empty_slabs
    → IsSound cache
    → cache.free_objects + cache.objects_per_slab < word64
    → HandsOutOf cache
        (fresh_objects cache partial empty (some page))
        (choose_slab cache partial empty (some page))
unfolding choose_slab
choose_slab-HandsOut cache (slab ∷ rest) empty page ep ee v w =
    let (c, r) = subst (AllSlabs (Counted cache.objects_per_slab)) (sym ep) v.partial_counted in
    let (obj, out, times, sound) =
      take_object-HandsOut cache slab rest slab.free_list v.full_in_use c r v.empty_counted
        v.some_fit v.few_fit refl (omega (arith, v.free_counted, ap (weight length) ep))
        (omega arith) in
    (
      obj,
      out,
      record { taken = λ y. omega (arith, times y, ap (weight (count y)) ep); sound = sound },
    )
choose_slab-HandsOut cache [] (slab ∷ empty) page ep ee v w =
    let (c, e) = subst (AllSlabs (Counted cache.objects_per_slab)) (sym ee) v.empty_counted in
    let moved : SlabCache = record cache { empty_slabs = empty } in
    let (obj, out, times, sound) =
      take_object-HandsOut moved slab [] slab.free_list v.full_in_use c tt e v.some_fit v.few_fit
        refl (omega (arith, v.free_counted, ap (weight length) ep, ap (weight length) ee))
        (omega arith) in
    (
      obj,
      out,
      record {
        taken = λ y. omega (arith, times y, ap (weight (count y)) ep, ap (weight (count y)) ee);
        sound = sound;
      },
    )
choose_slab-HandsOut cache [] [] page ep ee v w =
    let created = slab_create cache page in
    let n =
      length-chain cache.object_size (cache.objects_per_slab - 1) (page + 40 + cache.object_size) in
    let (obj, out, times, sound) =
      take_object-HandsOut created.0 created.1 [] created.1.free_list v.full_in_use
        (omega (arith, n, v.some_fit), v.some_fit, omega arith) tt v.empty_counted v.some_fit
        v.few_fit refl (omega (arith, v.free_counted, v.some_fit, n, ap (weight length) ep))
        (omega arith) in
    (
      obj,
      out,
      record { taken = λ y. omega (arith, times y, ap (weight (count y)) ep); sound = sound },
    )

-- In a sound cache of objects that have a size, for which there is memory, an object is handed out that was
-- free or stands in a new slab. It is free once less after the call, every other object as often as before,
-- the objects of a new slab apart, each of which was added once, and the cache stays sound.
pub slab_alloc_lem :
    (cache : SlabCache) (page : ℕ)
    → IsSound cache
    → 0 < cache.object_size
    → cache.free_objects + cache.objects_per_slab < word64
    → (obj : ℕ) × (fresh : List ℕ) × ((slab_alloc cache (some page)).1 ≡ some obj)
      × Fresh cache page cache.partial_slabs cache.empty_slabs fresh
      × HandsOut cache (slab_alloc cache (some page)).0 obj fresh
unfolding slab_alloc
slab_alloc_lem cache page v some_size w =
    let (obj, out, hands) =
      choose_slab-HandsOut cache cache.partial_slabs cache.empty_slabs page refl refl v w in
    (
      obj,
      fresh_objects cache cache.partial_slabs cache.empty_slabs (some page),
      out,
      fresh_objects-Fresh cache page cache.partial_slabs cache.empty_slabs some_size v.some_fit,
      hands,
    )
