-- ===== src/Flux/Tests.antt =====
-- A memory of 128 pages, of which the first 70 and page 72 are taken.
use limitless_os.Flux.Buddy.{BuddyBlock, Buddies, order_of, order_loop, buddy_alloc, buddy_free}
use limitless_os.Flux.Buddy.Reuse.{HeadsSound, Restored, buddy_free_alloc}
use limitless_os.Flux.Compress.{compress_page, decompress_page, Compression, flux_compress_page}
use limitless_os.Flux.Compress.Restore.{flux_compress_page_lem}
use limitless_os.Flux.Slab.{SlabCache, slab_alloc, slab_free}
use limitless_os.Flux.Slab.Lists.{IsSound}
use limitless_os.Flux.Slab.HandOut.{Fresh, HandsOut, slab_alloc_lem}
use limitless_os.Flux.Slab.TakeBack.{TakesBack, slab_free_lem}
use limitless_os.Flux.Translate.{flux_translate_address}
use limitless_os.Prelude.{
  [], ◌∷◌, List, length, length-replicate, replicate, ◌⊎◌, if◌then◌else◌, some, none,
}
use limitless_os.Prelude.{ℕ, ◌+◌, ◌*◌, ◌<◌, ◌≤◌, ◌≡◌, refl, true, false, ◌||◌, ◌==◌, ltb, arith}
use limitless_os.Flux.Pages.{page_size, Physical, phys_alloc_page}
use limitless_os.Flux.Pages.Lowest.{page_used, PageTaken, Scanned, phys_alloc_page_lem}

abbrev blank_page : List ℕ
blank_page = replicate 4096 0

abbrev compression : Compression
compression = record { compressed_pages = 0; compression_ratio = 100 }

flux_compress_page_lem_example :
    (length (compress_page blank_page) ≤ 4096)
    × ((flux_compress_page (some 1) blank_page compression ≡ compression)
        ⊎ (decompress_page (compress_page blank_page) ≡ blank_page))
flux_compress_page_lem_example =
    flux_compress_page_lem (some 1) blank_page compression (length-replicate {A = ℕ} 4096 0)

abbrev memory : Physical
memory = record {
  bitmap = λ i b. ltb (i * 64 + b) 70 || (i * 64 + b == 72);
  phys_pages = 128;
  total_memory = 128 * page_size;
  used_memory = 71 * page_size;
  free_memory = 57 * page_size;
}

phys_alloc_page_lem_example :
    ((p : ℕ)
      → Scanned memory p
      → page_used memory.bitmap p ≡ false
      → ((q : ℕ) → q < p → page_used memory.bitmap q ≡ true)
      → ((phys_alloc_page memory).0 ≡ p * 4096) × PageTaken memory (phys_alloc_page memory).1 p)
    × (((q : ℕ) → Scanned memory q → page_used memory.bitmap q ≡ true)
        → phys_alloc_page memory ≡ (0, memory))
phys_alloc_page_lem_example = phys_alloc_page_lem memory (omega arith)

-- The lowest free page is page 70.
alloc_lowest : (phys_alloc_page memory).0 ≡ 286720
alloc_lowest =
    ((phys_alloc_page_lem memory (omega arith)).0 70 (omega arith) refl (λ q h. ground arith)).0

abbrev no_block : BuddyBlock
no_block = record { next = none; prev = none; order = 0; free = false }

abbrev no_buddies : Buddies
no_buddies = record { blocks = λ a. no_block; lists = λ o. none; physical = memory }

-- A free block of the same order at 131072.
abbrev one_buddy : Buddies
one_buddy = record {
  blocks = λ a. record no_block { order = 2; free = a == 131072 };
  lists = λ o. if o == 2 then some 131072 else none;
  physical = memory;
}

one_buddy-HeadsSound : HeadsSound one_buddy 65536
one_buddy-HeadsSound o h e = (ground arith, refl)

buddy_free_alloc_example :
    let (again, b) = buddy_alloc (buddy_free one_buddy 65536 10000) 10000 in
    (again ≡ 65536) × Restored one_buddy b 65536 2
unfolding order_of order_loop
buddy_free_alloc_example = buddy_free_alloc one_buddy 65536 10000 one_buddy-HeadsSound refl

-- Four tables at 4096, 8192, 12288 and 16384; the page at 20480 is mapped to the one at 65536.
abbrev tables : ℕ → ℕ
tables a =
    if a == 4096
    then 8193
    else if a == 8192
    then 12289
    else if a == 12288
    then 16385
    else if a == 16384 + 8 * 5
    then 65537
    else 0

translate_mapped : flux_translate_address tables (some 4096) 20485 ≡ 65541
unfolding flux_translate_address
translate_mapped = refl

-- The cache of objects of 1024 bytes, of which a slab has three.
abbrev cache_1024 : SlabCache
cache_1024 = record {
  object_size = 1024;
  objects_per_slab = 3;
  full_slabs = [];
  partial_slabs = record { page = 8192; free_list = 9256 ∷ []; free_count = 1 } ∷ [];
  empty_slabs = [];
  total_objects = 3;
  free_objects = 1;
}

cache_1024-IsSound : IsSound cache_1024
cache_1024-IsSound = record {
  full_in_use = tt;
  partial_counted = (omega arith, tt);
  empty_counted = tt;
  free_counted = refl;
  some_fit = omega arith;
  few_fit = omega arith;
}

-- The same cache with no slab.
abbrev empty_cache : SlabCache
empty_cache = record cache_1024 { partial_slabs = []; total_objects = 0; free_objects = 0 }

empty_cache-IsSound : IsSound empty_cache
empty_cache-IsSound = record {
  full_in_use = tt;
  partial_counted = tt;
  empty_counted = tt;
  free_counted = refl;
  some_fit = omega arith;
  few_fit = omega arith;
}

slab_alloc_lem_example :
    (obj : ℕ) × (fresh : List ℕ) × ((slab_alloc empty_cache (some 4096)).1 ≡ some obj)
    × Fresh empty_cache 4096 [] [] fresh
    × HandsOut empty_cache (slab_alloc empty_cache (some 4096)).0 obj fresh
slab_alloc_lem_example =
    slab_alloc_lem empty_cache 4096 empty_cache-IsSound (omega arith) (omega arith)

slab_free_lem_example : TakesBack cache_1024 (slab_free 8232 cache_1024) 8232
slab_free_lem_example =
    slab_free_lem 8232 cache_1024 (record { page = 8192; free_list = 9256 ∷ []; free_count = 1 })
      cache_1024-IsSound (omega arith) refl (omega arith)
