-- ===== src/Flux/Pages.antt =====
-- The physical pages of continuum/flux_memory.c: `phys_alloc_page`, `phys_free_page` and the part of
-- `flux_init` that sets up the bitmap. A word of the bitmap is the function from its positions to its
-- bits, true for 1. The lock is left out: a call is one step.
pub mod Lowest
use limitless_os.Prelude.{
  ℕ, zero, suc, ◌+◌, ◌-◌, ◌*◌, ◌/◌, ◌%◌, ◌^◌, Bool, true, false, Option, none, some, ltb,
  if◌then◌else◌, update,
}
use limitless_os.Temporal.Quantum.{word64}

abbrev pub page_size : ℕ
page_size = 4096

abbrev pub Bitmap : Type 0
Bitmap = ℕ → ℕ → Bool

-- `g_phys_bitmap`, `g_phys_pages` and the counters of `g_memory_state` that these functions use.
pub record Physical : Type 0 where
  pub bitmap : Bitmap
  pub phys_pages : ℕ
  pub total_memory : ℕ
  pub used_memory : ℕ
  pub free_memory : ℕ

-- `__builtin_ctzll(~word)`, among so many bits from `b` on. It is `none` where they are all set, which
-- for all 64 bits is the comparison with 0xFFFFFFFFFFFFFFFF.
unfoldable pub lowest_clear : (ℕ → Bool) → ℕ → ℕ → Option ℕ
lowest_clear word b zero = none
lowest_clear word b (suc n) =
    let rest = lowest_clear word (suc b) n in if word b then rest else some b

-- `g_phys_bitmap[i] |= 1ULL << b` and `g_phys_bitmap[i] &= ~(1ULL << b)`
abbrev pub write_bit : Bitmap → ℕ → ℕ → Bool → Bitmap
write_bit bitmap i b value = update bitmap i (update (bitmap i) b value)

abbrev pub take_page : Physical → ℕ → ℕ → ℕ × Physical
take_page m i b = (
  ((i * 64 + b) * page_size) % word64,
  record m {
    bitmap = write_bit m.bitmap i b true;
    used_memory = (m.used_memory + page_size) % word64;
    free_memory = (m.free_memory + word64 - page_size) % word64;
  },
)

-- So many words from word `i` on.
unfoldable pub alloc_loop : Physical → ℕ → ℕ → ℕ × Physical
alloc_loop m i zero = (0, m)
alloc_loop m i (suc n) = elim (lowest_clear (m.bitmap i) 0 64) [
  | none ↦ alloc_loop m (suc i) n
  | some b ↦ take_page m i b
]

unfoldable pub phys_alloc_page : Physical → ℕ × Physical
phys_alloc_page m = alloc_loop m 0 (m.phys_pages / 64)

unfoldable pub phys_free_page : Physical → ℕ → Physical
phys_free_page m addr =
    let page_num = addr / page_size in
    record m {
      bitmap = write_bit m.bitmap (page_num / 64) (page_num % 64) false;
      used_memory = (m.used_memory + word64 - page_size) % word64;
      free_memory = (m.free_memory + page_size) % word64;
    }

-- The loop that marks the pages of the kernel and the bitmap, the first so many.
unfoldable pub mark_loop : Bitmap → ℕ → Bitmap
mark_loop bitmap zero = bitmap
mark_loop bitmap (suc n) = write_bit (mark_loop bitmap n) (n / 64) (n % 64) true

-- The first part of `flux_init`: 2 GB of memory, whose first 4 MB are marked.
unfoldable pub init_pages : Physical → Physical
unfolding mark_loop
init_pages m =
    let total = 2 * 1024 * 1024 * 1024 in
    let pages = total / page_size in
    record {
      bitmap =
          mark_loop (λ i b. if ltb i ((pages + 63) / 64) then false else m.bitmap i b)
            (4194304 / page_size);
      phys_pages = pages;
      total_memory = total;
      used_memory = 0;
      free_memory = total;
    }
