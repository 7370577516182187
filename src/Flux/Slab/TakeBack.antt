-- ===== src/Flux/Slab/TakeBack.antt =====
-- `slab_free` of continuum/flux_memory.c takes objects back.
use limitless_os.Prelude.{
  ℕ, ◌+◌, ◌%◌, ◌<◌, ◌≡◌, ap, ◌∙◌, true, false, some, ◌∷◌, ◌++◌, length, ◌==◌, arith, Bool-cases,
  inl, inr,
}
use limitless_os.Temporal.Quantum.{word32, word64}
use limitless_os.Flux.Slab.{Slab, SlabCache, page_of, find_slab, put_back, slab_free}
use limitless_os.Flux.Slab.Lists.{
  one, count, free_times, InUse, Counted, IsSound, unlink_slab-weight, store_slab-weight,
  unlink_slab-AllSlabs, store_slab-AllSlabs, found-AllSlabs, find_slab-append, found-page,
}

-- An object that is put back.
pub record TakesBack (cache after : SlabCache) (obj : ℕ) : Type 0 where
  pub given : (y : ℕ) → free_times y after ≡ free_times y cache + one y obj
  pub sound : IsSound after

module _ (obj : ℕ) (cache : SlabCache) (slab : Slab) (v : IsSound cache)
    (room : cache.free_objects + 1 < word64) where
  abbrev returned : Slab
  returned = record slab {
    free_list = obj ∷ slab.free_list;
    free_count = (slab.free_count + 1) % word32;
  }

  put_back-full :
      find_slab slab.page cache.full_slabs ≡ some slab
      → TakesBack cache (put_back obj cache (some slab)) obj
  unfolding put_back
  put_back-full found =
      let (zero_count, none_free) =
        found-AllSlabs InUse slab.page cache.full_slabs slab found v.full_in_use in
      let becomes_one : ((slab.free_count + 1) % word32 == 1) ≡ true = ground arith in
      rw becomes_one (record {
        given =
            λ y. omega (arith, unlink_slab-weight (count y) slab.page cache.full_slabs slab found);
        sound = record {
          full_in_use = unlink_slab-AllSlabs InUse slab.page cache.full_slabs v.full_in_use;
          partial_counted = (
            (
              omega (arith, zero_count, ap length none_free),
              omega (arith, zero_count),
              omega (arith, zero_count, v.some_fit),
            ),
            v.partial_counted,
          );
          empty_counted = v.empty_counted;
          free_counted = omega (
            arith,
            v.free_counted,
            unlink_slab-weight length slab.page cache.full_slabs slab found,
          );
          some_fit = v.some_fit;
          few_fit = v.few_fit;
        };
      })

  put_back-partial :
      find_slab slab.page cache.partial_slabs ≡ some slab
      → slab.free_count < cache.objects_per_slab
      → TakesBack cache (put_back obj cache (some slab)) obj
  unfolding put_back
  put_back-partial found used =
      let (same, low, high) =
        found-AllSlabs (Counted cache.objects_per_slab) slab.page cache.partial_slabs slab found
          v.partial_counted in
      let c : Counted cache.objects_per_slab returned =
        (omega (arith, v.few_fit), omega (arith, v.few_fit), omega (arith, v.few_fit)) in
      let several : ((slab.free_count + 1) % word32 == 1) ≡ false = ground (arith, v.few_fit) in
      elim (Bool-cases ((slab.free_count + 1) % word32 == cache.objects_per_slab)) [
        | inl all ↦
            rw (several, all)
              (record {
                given = λ y.
                    omega (
                      arith,
                      unlink_slab-weight (count y) slab.page cache.partial_slabs slab found,
                    );
                sound = record {
                  full_in_use = v.full_in_use;
                  partial_counted =
                      unlink_slab-AllSlabs (Counted cache.objects_per_slab) slab.page
                        cache.partial_slabs v.partial_counted;
                  empty_counted = (c, v.empty_counted);
                  free_counted = omega (
                    arith,
                    v.free_counted,
                    unlink_slab-weight length slab.page cache.partial_slabs slab found,
                  );
                  some_fit = v.some_fit;
                  few_fit = v.few_fit;
                };
              })
        | inr not_all ↦
            rw (several, not_all)
              (record {
                given = λ y.
                    omega
                      (arith, store_slab-weight (count y) cache.partial_slabs slab returned found);
                sound = record {
                  full_in_use = v.full_in_use;
                  partial_counted =
                      store_slab-AllSlabs (Counted cache.objects_per_slab) returned
                        cache.partial_slabs c v.partial_counted;
                  empty_counted = v.empty_counted;
                  free_counted = omega (
                    arith,
                    v.free_counted,
                    store_slab-weight length cache.partial_slabs slab returned found,
                  );
                  some_fit = v.some_fit;
                  few_fit = v.few_fit;
                };
              })
      ]

-- An object whose slab is full or partial, and has an object in use, is free once more after it is put
-- back and every other as often as before, and the cache stays sound.
pub slab_free_lem :
    (obj : ℕ) (cache : SlabCache) (slab : Slab)
    → IsSound cache
    → cache.free_objects + 1 < word64
    → find_slab (page_of obj) (cache.full_slabs ++ cache.partial_slabs) ≡ some slab
    → slab.free_count < cache.objects_per_slab
    → TakesBack cache (slab_free obj cache) obj
unfolding slab_free
slab_free_lem obj cache slab v room found used =
    let e = found-page (page_of obj) (cache.full_slabs ++ cache.partial_slabs) slab found in
    rw found
      (elim (find_slab-append (page_of obj) cache.full_slabs cache.partial_slabs slab found) [
        | inl f ↦
            put_back-full obj cache slab v room (ap (λ (p : ℕ). find_slab p cache.full_slabs) e ∙ f)
        | inr p ↦
            put_back-partial obj cache slab v room
              (ap (λ (q : ℕ). find_slab q cache.partial_slabs) e ∙ p) used
      ])
