-- ===== src/Flux/Buddy.antt =====
-- The buddy allocator of continuum/flux_memory.c: `buddy_alloc` and `buddy_free`. A `buddy_block` lies at
-- the start of the memory it describes; `blocks` is what stands there. The lock is left out.
pub mod Order
pub mod Reuse
use limitless_os.Prelude.{
  ℕ, zero, suc, ◌+◌, ◌-◌, ◌*◌, ◌/◌, ◌%◌, ◌^◌, Bool, true, false, not, ◌||◌, Option, none, some, ltb,
  ◌==◌, if◌then◌else◌, update, bit_xor,
}
use limitless_os.Temporal.Quantum.{word64}
use limitless_os.Flux.Pages.{page_size, Physical, phys_alloc_page}

abbrev pub buddy_max_order : ℕ
buddy_max_order = 11

-- `struct buddy_block`
pub record BuddyBlock : Type 0 where
  pub next : Option ℕ
  pub prev : Option ℕ
  pub order : ℕ
  pub free : Bool

abbrev pub Blocks : Type 0
Blocks = ℕ → BuddyBlock

-- `g_buddy_lists`, the memory they lie in, and the bitmap of the pages.
pub record Buddies : Type 0 where
  pub blocks : Blocks
  pub lists : ℕ → Option ℕ
  pub physical : Physical

-- The first loop of both functions, for at most so many rounds.
unfoldable pub order_loop : ℕ → ℕ → ℕ → ℕ → ℕ
order_loop size zero block_size order = order
order_loop size (suc n) block_size order =
    let rest = order_loop size n ((block_size * 2) % word64) (order + 1) in
    if ltb block_size size then rest else order

unfoldable pub order_of : ℕ → ℕ
unfolding order_loop
order_of size = order_loop size (buddy_max_order - 1) page_size 0

-- `if (p) p->prev = q;`
abbrev pub set_prev_of : Option ℕ → Option ℕ → Blocks → Blocks
set_prev_of none q blocks = blocks
set_prev_of (some p) q blocks = update blocks p (record (blocks p) { prev = q })

-- The block put at the front of the list of its order.
abbrev pub push_block : Buddies → ℕ → ℕ → Buddies
push_block b block order =
    let blocks =
      update b.blocks block (record (b.blocks block) { next = b.lists order; prev = none }) in
    record b {
      blocks = set_prev_of (b.lists order) (some block) blocks;
      lists = update b.lists order (some block);
    }

-- The body of the loop that splits: the upper half of the block, of order `order`, is set free.
abbrev pub split_once : Buddies → ℕ → ℕ → Buddies
split_once b block order =
    let buddy = (block + page_size * 2 ^ order) % word64 in
    push_block
      (record b {
        blocks = update b.blocks buddy (record (b.blocks buddy) { order = order; free = true });
      })
      buddy order

-- So many rounds, down to order `order`.
unfoldable pub split_loop : Buddies → ℕ → ℕ → ℕ → Buddies
split_loop b block order zero = b
split_loop b block order (suc d) = split_loop (split_once b block (order + d)) block order d

-- The body of the loop over the lists, for a list that is not empty.
abbrev pub take_block : Buddies → ℕ → ℕ → ℕ → ℕ × Buddies
take_block b order current block =
    let next = (let h = b.blocks block in h.next) in
    let b' = record b {
      lists = update b.lists current next;
      blocks = set_prev_of next none b.blocks;
    } in
    let split = split_loop b' block order (current - order) in
    (
      block,
      record split {
        blocks = update split.blocks block (record (split.blocks block) { free = false });
      },
    )

-- So many lists from order `current` on, and then `phys_alloc_page`.
unfoldable pub search_lists : Buddies → ℕ → ℕ → ℕ → ℕ × Buddies
search_lists b order current zero =
    let (addr, physical) = phys_alloc_page b.physical in (addr, record b { physical = physical })
search_lists b order current (suc n) = elim (b.lists current) [
  | none ↦ search_lists b order (suc current) n
  | some block ↦ take_block b order current block
]

-- The address, or 0 for a null pointer.
unfoldable pub buddy_alloc : Buddies → ℕ → ℕ × Buddies
unfolding order_of
buddy_alloc b size =
    search_lists b (order_of size) (order_of size) (buddy_max_order - order_of size)

-- A block taken out of the list of its order.
abbrev pub unlink_block : Buddies → ℕ → ℕ → Buddies
unlink_block b block order =
    let h = b.blocks block in
    let b' : Buddies = elim h.prev [
      | some p ↦ record b { blocks = update b.blocks p (record (b.blocks p) { next = h.next }) }
      | none ↦ record b { lists = update b.lists order h.next }
    ] in
    record b' { blocks = set_prev_of h.next h.prev b'.blocks }

abbrev pub merged : Buddies → ℕ → ℕ → Buddies
merged b block order = record b {
  blocks = update b.blocks block (record (b.blocks block) { order = order });
}

abbrev pub is_mergeable : BuddyBlock → ℕ → Bool
is_mergeable h order = if h.free then h.order == order else false

-- The loop that merges, for at most so many rounds, and the insertion behind it.
unfoldable pub merge_loop : Buddies → ℕ → ℕ → ℕ → Buddies
merge_loop b block order zero = push_block b block order
merge_loop b block order (suc n) =
    let buddy = bit_xor block (page_size * 2 ^ order) in
    let lower = if ltb buddy block then buddy else block in
    let rest =
      merge_loop (merged (unlink_block b buddy order) lower (order + 1)) lower (order + 1) n in
    if is_mergeable (b.blocks buddy) order then rest else push_block b block order

unfoldable pub buddy_free : Buddies → ℕ → ℕ → Buddies
unfolding order_of merge_loop
buddy_free b block size =
    let order = order_of size in
    merge_loop
      (record b {
        blocks = update b.blocks block (record (b.blocks block) { order = order; free = true });
      })
      block order (buddy_max_order - 1 - order)
