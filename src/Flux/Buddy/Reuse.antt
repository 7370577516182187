-- ===== src/Flux/Buddy/Reuse.antt =====
-- Blocks that `buddy_alloc` hands out: those that were freed, and else a single page.
use limitless_os.Prelude.{
  ℕ, zero, suc, ◌+◌, ◌-◌, ◌*◌, ◌^◌, ◌<◌, ◌≡◌, ◌≢◌, refl, sym, ap, subst, ◌∙◌, Bool, true, false,
  Option, none, some, ltb, if◌then◌else◌, update, update_self, ℕ_discrete, arith, bit_xor,
}
use limitless_os.Flux.Pages.{page_size, phys_alloc_page}
use limitless_os.Flux.Buddy.{
  buddy_max_order, BuddyBlock, Blocks, Buddies, order_of, set_prev_of, push_block, split_loop,
  take_block, search_lists, buddy_alloc, is_mergeable, merge_loop, buddy_free, merged, unlink_block,
}
use limitless_os.Flux.Buddy.Order.{order_of_lem}

-- A single page, as `phys_alloc_page` hands it out.
abbrev pub one_page : Buddies → ℕ × Buddies
one_page b =
    let (addr, physical) = phys_alloc_page b.physical in (addr, record b { physical = physical })

search_lists_empty :
    (b : Buddies) (order current n : ℕ)
    → ((o : ℕ) → b.lists o ≡ none)
    → search_lists b order current n ≡ one_page b
unfolding search_lists
search_lists_empty b order current zero empty = refl
search_lists_empty b order current (suc n) empty =
    ap
      (λ (o : Option ℕ). elim o [
        | none ↦ search_lists b order (suc current) n
        | some block ↦ take_block b order current block
      ])
      (empty current)
    ∙ search_lists_empty b order (suc current) n empty

-- With all lists empty `buddy_alloc` hands out a single page whatever the size asked for.
pub buddy_alloc-one_page :
    (b : Buddies) (size : ℕ) → ((o : ℕ) → b.lists o ≡ none) → buddy_alloc b size ≡ one_page b
unfolding buddy_alloc
buddy_alloc-one_page b size empty =
    search_lists_empty b (order_of size) (order_of size) (buddy_max_order - order_of size) empty

-- The block as `buddy_free` marks it.
abbrev pub marked : Buddies → ℕ → ℕ → Buddies
marked b block order = record b {
  blocks = update b.blocks block (record (b.blocks block) { order = order; free = true });
}

-- The block of the same order that the block was split from.
abbrev pub buddy_of : ℕ → ℕ → ℕ
buddy_of block order = bit_xor block (page_size * 2 ^ order)

merge_loop_stops :
    (b : Buddies) (block order n : ℕ)
    → is_mergeable (b.blocks (buddy_of block order)) order ≡ false
    → merge_loop b block order n ≡ push_block b block order
unfolding merge_loop
merge_loop_stops b block order zero stop = refl
merge_loop_stops b block order (suc n) stop =
    ap
      (λ (s : Bool).
        if s
        then (let lower =
              if ltb (buddy_of block order) block then buddy_of block order else block in
            merge_loop (merged (unlink_block b (buddy_of block order) order) lower (order + 1))
              lower (order + 1) n)
        else push_block b block order)
      stop

search_lists_found :
    (b : Buddies) (order n block : ℕ)
    → 0 < n
    → b.lists order ≡ some block
    → search_lists b order order n ≡ take_block b order order block
unfolding search_lists
search_lists_found b order zero block pos here = absurd (omega arith)
search_lists_found b order (suc n) block pos here =
    ap
      (λ (o : Option ℕ). elim o [
        | none ↦ search_lists b order (suc order) n
        | some block' ↦ take_block b order order block'
      ])
      here

set_prev_of-next :
    (p q : Option ℕ) (blocks : Blocks) (x : ℕ) → (set_prev_of p q blocks x).next ≡ (blocks x).next
set_prev_of-next none q blocks x = refl
set_prev_of-next (some p) q blocks x = ground arith

push_block-next :
    (b : Buddies) (block order : ℕ) → ((push_block b block order).blocks block).next ≡ b.lists order
push_block-next b block order =
    set_prev_of-next (b.lists order) (some block) _ block
    ∙ ap (λ (h : BuddyBlock). h.next) (update_self b.blocks block _)

split_none : (b : Buddies) (block order d : ℕ) → d ≡ 0 → split_loop b block order d ≡ b
unfolding split_loop
split_none b block order zero e = refl
split_none b block order (suc d) e = absurd (omega arith)

-- The heads of the lists have nothing before them, and the block is no head: it is in use.
abbrev pub HeadsSound : Buddies → ℕ → Type 0
HeadsSound b block = (o h : ℕ) → b.lists o ≡ some h → (h ≢ block) × ((b.blocks h).prev ≡ none)

-- What a free and an alloc of the same block leave: the block is in use and has its order, and all else is
-- as before.
pub record Restored (b after : Buddies) (block order : ℕ) : Type 0 where
  pub same_lists : (o : ℕ) → after.lists o ≡ b.lists o
  pub same_blocks : (x : ℕ) → x ≢ block → after.blocks x ≡ b.blocks x
  pub in_use : (after.blocks block).free ≡ false
  pub has_order : (after.blocks block).order ≡ order
  pub same_physical : after.physical ≡ b.physical

-- The block at the front of its list, and taken from there again.
module _ (b : Buddies) (block order : ℕ) (heads : HeadsSound b block) where
  front : Option ℕ → Buddies
  front head =
      let blocks =
        update (marked b block order).blocks block
          (record ((marked b block order).blocks block) { next = head; prev = none }) in
      record b {
        blocks = set_prev_of head (some block) blocks;
        lists = update b.lists order (some block);
      }

  again : Option ℕ → Buddies
  again head =
      let blocks = set_prev_of head none (front head).blocks in
      record b {
        lists = update (front head).lists order head;
        blocks = update blocks block (record (blocks block) { free = false });
      }

  again-Restored : (head : Option ℕ) → b.lists order ≡ head → Restored b (again head) block order
  unfolding again front
  again-Restored none e = record {
    same_lists = λ o. ground (arith, e);
    same_blocks = λ x ne. ground (arith, e);
    in_use = ground (arith, e);
    has_order = ground (arith, e);
    same_physical = refl;
  }
  again-Restored (some h) e = record {
    same_lists = λ o. ground (arith, e);
    same_blocks = λ x ne. elim (ℕ_discrete x h) [
      | yes here ↦ ap (again (some h)).blocks here ∙ head_restored ∙ ap b.blocks (sym here)
      | no other ↦ ground (arith, other)
    ];
    in_use = ground (arith, e);
    has_order = ground (arith, e);
    same_physical = refl;
  }
    where
      head_ne : h ≢ block
      head_ne = (heads order h e).0

      reads : (again (some h)).blocks h ≡ record (b.blocks h) { prev = none }
      reads = ground (arith, head_ne)

      head_restored : (again (some h)).blocks h ≡ b.blocks h
      head_restored =
          reads
          ∙ ap (λ (q : Option ℕ). let g = b.blocks h in record g { prev = q })
              (sym (heads order h e).1)

  take_again :
      take_block (push_block (marked b block order) block order) order order block
      ≡ (block, again (b.lists order))
  unfolding again front
  take_again =
      ap (λ (c : Buddies). (block, in_use_now c))
        (split_none (popped (let g = pushed.blocks block in g.next)) block order (order - order)
          (omega arith))
      ∙ ap (λ (next : Option ℕ). (block, in_use_now (popped next)))
          (push_block-next (marked b block order) block order)
    where
      pushed : Buddies
      pushed = push_block (marked b block order) block order

      popped : Option ℕ → Buddies
      popped next = record pushed {
        lists = update pushed.lists order next;
        blocks = set_prev_of next none pushed.blocks;
      }

      in_use_now : Buddies → Buddies
      in_use_now c = record c {
        blocks = update c.blocks block (record (c.blocks block) { free = false });
      }

-- Where the heads of the lists have nothing before them and the block is none of them, a block that is
-- freed while its buddy is not free, or is split, is the one that is handed out for the same size next: it
-- is in use and has the order of the size, and all other blocks, all lists and the pages are as before.
pub buddy_free_alloc :
    (b : Buddies) (block size : ℕ)
    → HeadsSound b block
    → let order = order_of size in
      is_mergeable ((marked b block order).blocks (buddy_of block order)) order ≡ false
      → let (again, b') = buddy_alloc (buddy_free b block size) size in
        (again ≡ block) × Restored b b' block order
unfolding buddy_alloc buddy_free
buddy_free_alloc b block size heads stop =
    subst (λ (r : ℕ × Buddies). (r.0 ≡ block) × Restored b r.1 block order)
      (sym (
        ap (λ (c : Buddies). search_lists c order order (buddy_max_order - order))
          (merge_loop_stops freed block order (buddy_max_order - 1 - order) stop)
        ∙ search_lists_found pushed order (buddy_max_order - order) block
            (omega (arith, (order_of_lem size).in_range.1)) (update_self b.lists order (some block))
        ∙ take_again b block order heads))
      (refl, again-Restored b block order heads (b.lists order) refl)
  where
    order : ℕ
    order = order_of size

    freed : Buddies
    freed = marked b block order

    pushed : Buddies
    pushed = push_block freed block order
