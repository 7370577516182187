-- ===== src/Flux/Slab.antt =====
-- The slab caches of continuum/flux_memory.c: `slab_init_cache`, `slab_create`, `slab_alloc` and
-- `slab_free`. A slab stands in one of three lists, kept in their order from the head on; it is known by
-- the address of its page, and its free list is the list of the objects that are chained. `sizeof(slab_t)`
-- is 40. What `buddy_alloc` returns is an argument.
pub mod Lists
pub mod HandOut
pub mod TakeBack
use limitless_os.Prelude.{
  ℕ, zero, suc, ◌+◌, ◌-◌, ◌*◌, ◌/◌, ◌%◌, Bool, true, false, Option, none, some, List, [], ◌∷◌, ◌++◌,
  length, ◌==◌, if◌then◌else◌,
}
use limitless_os.Temporal.Quantum.{word32, word64}
use limitless_os.Flux.Pages.{page_size}

pub record Slab : Type 0 where
  pub page : ℕ
  pub free_list : List ℕ
  pub free_count : ℕ

pub record SlabCache : Type 0 where
  pub object_size : ℕ
  pub objects_per_slab : ℕ
  pub full_slabs : List Slab
  pub partial_slabs : List Slab
  pub empty_slabs : List Slab
  pub total_objects : ℕ
  pub free_objects : ℕ

unfoldable pub slab_init_cache : ℕ → SlabCache
slab_init_cache object_size = record {
  object_size = object_size;
  objects_per_slab = (page_size - 40) / object_size;
  full_slabs = [];
  partial_slabs = [];
  empty_slabs = [];
  total_objects = 0;
  free_objects = 0;
}

-- The chain of so many objects.
abbrev pub chain : ℕ → ℕ → ℕ → List ℕ
chain object_size zero start = []
chain object_size (suc n) start = start ∷ chain object_size n (start + object_size)

-- The free list starts at the first object also where no object fits.
abbrev pub new_objects : SlabCache → ℕ → List ℕ
new_objects cache page =
    (page + 40)
    ∷ chain cache.object_size (cache.objects_per_slab - 1) (page + 40 + cache.object_size)

abbrev pub slab_create : SlabCache → ℕ → SlabCache × Slab
slab_create cache page = (
  record cache {
    total_objects = (cache.total_objects + cache.objects_per_slab) % word64;
    free_objects = (cache.free_objects + cache.objects_per_slab) % word64;
  },
  record { page = page; free_list = new_objects cache page; free_count = cache.objects_per_slab },
)

-- The end of `slab_alloc`: the slab is the first of the partial ones, before which `rest` does not count
-- it. A slab with no free object would be read through a null pointer.
unfoldable pub take_object : SlabCache → Slab → List Slab → List ℕ → SlabCache × Option ℕ
take_object cache slab rest [] = (cache, none)
take_object cache slab rest (obj ∷ others) =
    let free_count = (slab.free_count + word32 - 1) % word32 in
    let slab' = record slab { free_list = others; free_count = free_count } in
    let cache' = record cache { free_objects = (cache.free_objects + word64 - 1) % word64 } in
    if free_count == 0
    then (record cache' { partial_slabs = rest; full_slabs = slab' ∷ cache.full_slabs }, some obj)
    else (record cache' { partial_slabs = slab' ∷ rest }, some obj)

-- The search for a slab, by the partial and the empty ones.
unfoldable pub choose_slab : SlabCache → List Slab → List Slab → Option ℕ → SlabCache × Option ℕ
choose_slab cache (slab ∷ rest) empty page = take_object cache slab rest slab.free_list
choose_slab cache [] (slab ∷ empty) page =
    take_object (record cache { empty_slabs = empty }) slab [] slab.free_list
choose_slab cache [] [] none = (cache, none)
choose_slab cache [] [] (some page) =
    let created = slab_create cache page in take_object created.0 created.1 [] created.1.free_list

unfoldable pub slab_alloc : SlabCache → Option ℕ → SlabCache × Option ℕ
slab_alloc cache page = choose_slab cache cache.partial_slabs cache.empty_slabs page

-- `obj & ~(PAGE_SIZE - 1)`
abbrev pub page_of : ℕ → ℕ
page_of obj = obj - obj % page_size

abbrev pub find_slab : ℕ → List Slab → Option Slab
find_slab page [] = none
find_slab page (slab ∷ rest) =
    let later = find_slab page rest in if slab.page == page then some slab else later

-- A slab unlinked from its list.
abbrev pub unlink_slab : ℕ → List Slab → List Slab
unlink_slab page [] = []
unlink_slab page (slab ∷ rest) =
    let later = unlink_slab page rest in if slab.page == page then rest else slab ∷ later

-- A slab that stays in its list.
abbrev pub store_slab : Slab → List Slab → List Slab
store_slab s [] = []
store_slab s (slab ∷ rest) =
    let later = store_slab s rest in if slab.page == s.page then s ∷ rest else slab ∷ later

unfoldable pub put_back : ℕ → SlabCache → Option Slab → SlabCache
put_back obj cache none = cache
put_back obj cache (some slab) =
    let free_count = (slab.free_count + 1) % word32 in
    let slab' = record slab { free_list = obj ∷ slab.free_list; free_count = free_count } in
    let cache' = record cache { free_objects = (cache.free_objects + 1) % word64 } in
    if free_count == 1
    then record cache' {
      full_slabs = unlink_slab slab.page cache.full_slabs;
      partial_slabs = slab' ∷ cache.partial_slabs;
    }
    else if free_count == cache.objects_per_slab
    then record cache' {
      partial_slabs = unlink_slab slab.page cache.partial_slabs;
      empty_slabs = slab' ∷ cache.empty_slabs;
    }
    else record cache' { partial_slabs = store_slab slab' cache.partial_slabs }

-- The slab of an object that is in use is full or partial. For an object of no slab the code would read
-- what stands at its page; here the cache stays as it is.
unfoldable pub slab_free : ℕ → SlabCache → SlabCache
slab_free obj cache =
    put_back obj cache (find_slab (page_of obj) (cache.full_slabs ++ cache.partial_slabs))
