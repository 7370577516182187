-- ===== src/Flux/Pages/Lowest.antt =====
-- `phys_alloc_page` takes the lowest free page, and `phys_free_page` gives it back.
use limitless_os.Prelude.{
  ℕ, zero, suc, ◌+◌, ◌*◌, ◌/◌, ◌%◌, ◌^◌, ◌<◌, ◌≤◌, ◌≡◌, ◌≢◌, refl, sym, ap, ap₂, subst, ◌∙◌, Bool,
  true, false, Option, none, some, ltb, if◌then◌else◌, update_self, update_ne, update_at,
  ℕ_discrete, arith,
}
use limitless_os.Temporal.Quantum.{word64}
use limitless_os.Flux.Pages.{
  page_size, Bitmap, Physical, lowest_clear, write_bit, take_page, alloc_loop, phys_alloc_page,
  phys_free_page, mark_loop, init_pages,
}

-- Whether the bit of a page is set.
abbrev pub page_used : Bitmap → ℕ → Bool
page_used bitmap p = bitmap (p / 64) (p % 64)

pub page_used-write_bit :
    (bitmap : Bitmap) (p : ℕ) (value : Bool)
    → page_used (write_bit bitmap (p / 64) (p % 64) value) p ≡ value
page_used-write_bit bitmap p value =
    ap (λ (word : ℕ → Bool). word (p % 64)) (update_self bitmap (p / 64) _)
    ∙ update_self (bitmap (p / 64)) (p % 64) value

pub page_used-write_bit_other :
    (bitmap : Bitmap) (p q : ℕ) (value : Bool)
    → q ≢ p
    → page_used (write_bit bitmap (p / 64) (p % 64) value) q ≡ page_used bitmap q
page_used-write_bit_other bitmap p q value other = elim (ℕ_discrete (q / 64) (p / 64)) [
  | yes e ↦
      ap (λ (word : ℕ → Bool). word (q % 64)) (update_at bitmap (p / 64) _ (q / 64) e)
      ∙ update_ne (bitmap (p / 64)) (p % 64) value (q % 64) (λ e'. other (omega (arith, e, e')))
      ∙ ap (λ (i : ℕ). bitmap i (q % 64)) (sym e)
  | no ne ↦ ap (λ (word : ℕ → Bool). word (q % 64)) (update_ne bitmap (p / 64) _ (q / 64) ne)
]

lowest_clear_found :
    (word : ℕ → Bool) (b n k : ℕ)
    → ((c : ℕ) → b ≤ c → c < k → word c ≡ true)
    → word k ≡ false
    → b ≤ k
    → k < b + n
    → lowest_clear word b n ≡ some k
unfolding lowest_clear
lowest_clear_found word b zero k below here lo hi = absurd (omega arith)
lowest_clear_found word b (suc n) k below here lo hi = elim (ℕ_discrete b k) [
  | yes e ↦
      ap (λ (s : Bool). if s then lowest_clear word (suc b) n else some b) (ap word e ∙ here)
      ∙ ap some e
  | no ne ↦
      ap (λ (s : Bool). if s then lowest_clear word (suc b) n else some b)
        (below b (omega arith) (omega (arith, ne)))
      ∙ lowest_clear_found word (suc b) n k (λ c lo' hi'. below c (omega arith) hi') here
          (omega (arith, ne)) (omega arith)
]

lowest_clear_none :
    (word : ℕ → Bool) (b n : ℕ)
    → ((c : ℕ) → b ≤ c → c < b + n → word c ≡ true)
    → lowest_clear word b n ≡ none
unfolding lowest_clear
lowest_clear_none word b zero all = refl
lowest_clear_none word b (suc n) all =
    ap (λ (s : Bool). if s then lowest_clear word (suc b) n else some b)
      (all b (omega arith) (omega arith))
    ∙ lowest_clear_none word (suc b) n (λ c lo hi. all c (omega arith) (omega arith))

abbrev alloc_step : Physical → ℕ → ℕ → Option ℕ → ℕ × Physical
alloc_step m i n o = elim o [ none ↦ alloc_loop m (suc i) n | some b ↦ take_page m i b ]

-- Every bit of the words from `i` up to `k` is set.
abbrev FullWords : Physical → ℕ → ℕ → Type 0
FullWords m i k = (j c : ℕ) → i ≤ j → j < k → c < 64 → m.bitmap j c ≡ true

alloc_loop_found :
    (m : Physical) (i n k b : ℕ)
    → FullWords m i k
    → ((c : ℕ) → c < b → m.bitmap k c ≡ true)
    → m.bitmap k b ≡ false
    → b < 64
    → i ≤ k
    → k < i + n
    → alloc_loop m i n ≡ take_page m k b
unfolding alloc_loop
alloc_loop_found m i zero k b words bits clear hb lo hi = absurd (omega arith)
alloc_loop_found m i (suc n) k b words bits clear hb lo hi = elim (ℕ_discrete i k) [
  | yes e ↦
      ap (alloc_step m i n) (
        ap (λ (j : ℕ). lowest_clear (m.bitmap j) 0 64) e
        ∙ lowest_clear_found (m.bitmap k) 0 64 b (λ c lo' hi'. bits c hi') clear (omega arith)
            (omega arith))
      ∙ ap (λ (j : ℕ). take_page m j b) e
  | no ne ↦
      ap (alloc_step m i n) (
        lowest_clear_none (m.bitmap i) 0 64
          (λ c lo' hi'. words i c (omega arith) (omega (arith, ne)) (omega arith)))
      ∙ alloc_loop_found m (suc i) n k b (λ j c lo' hi' hc. words j c (omega arith) hi' hc) bits
          clear hb (omega (arith, ne)) (omega arith)
]

alloc_loop_none : (m : Physical) (i n : ℕ) → FullWords m i (i + n) → alloc_loop m i n ≡ (0, m)
unfolding alloc_loop
alloc_loop_none m i zero words = refl
alloc_loop_none m i (suc n) words =
    ap (alloc_step m i n) (
      lowest_clear_none (m.bitmap i) 0 64
        (λ c lo hi. words i c (omega arith) (omega arith) (omega arith)))
    ∙ alloc_loop_none m (suc i) n (λ j c lo hi hc. words j c (omega arith) (omega arith) hc)

-- The pages that `phys_alloc_page` looks at: those of whole words.
abbrev pub Scanned : Physical → ℕ → Type 0
Scanned m p = p / 64 < m.phys_pages / 64

-- The memory with page `p` taken.
abbrev pub taken : Physical → ℕ → Physical
taken m p = (take_page m (p / 64) (p % 64)).1

page_at : (m : Physical) (j c : ℕ) → c < 64 → page_used m.bitmap (j * 64 + c) ≡ m.bitmap j c
page_at m j c h = ap₂ m.bitmap (omega arith) (omega arith)

lowest_taken :
    (m : Physical)
    → m.phys_pages ≤ 2 ^ 52
    → (p : ℕ) → Scanned m p
    → page_used m.bitmap p ≡ false
    → ((q : ℕ) → q < p → page_used m.bitmap q ≡ true)
    → phys_alloc_page m ≡ (p * page_size, taken m p)
unfolding phys_alloc_page
lowest_taken m small p inside free below =
    alloc_loop_found m 0 (m.phys_pages / 64) (p / 64) (p % 64)
      (λ j c lo hi hc. sym (page_at m j c hc) ∙ below (j * 64 + c) (omega arith))
      (λ c hc. sym (page_at m (p / 64) c (omega arith)) ∙ below (p / 64 * 64 + c) (omega arith))
      free (omega arith) (omega arith) (omega arith)
    ∙ ap (λ (a : ℕ). (a, taken m p)) (omega arith)

none_taken :
    (m : Physical)
    → ((q : ℕ) → Scanned m q → page_used m.bitmap q ≡ true)
    → phys_alloc_page m ≡ (0, m)
unfolding phys_alloc_page
none_taken m full =
    alloc_loop_none m 0 (m.phys_pages / 64)
      (λ j c lo hi hc. sym (page_at m j c hc) ∙ full (j * 64 + c) (omega arith))

-- What is left after page `p` is handed out: it is marked, no other mark has changed, and the counters
-- have moved by one page.
pub record PageTaken (m after : Physical) (p : ℕ) : Type 0 where
  pub marks : page_used after.bitmap p ≡ true
  pub keeps_marks : (q : ℕ) → q ≢ p → page_used after.bitmap q ≡ page_used m.bitmap q
  pub used_more : after.used_memory ≡ (m.used_memory + 4096) % 2 ^ 64
  pub free_less : (after.free_memory + 4096) % 2 ^ 64 ≡ m.free_memory % 2 ^ 64
  pub same_pages : after.phys_pages ≡ m.phys_pages
  pub same_total : after.total_memory ≡ m.total_memory

taken-PageTaken : (m : Physical) (p : ℕ) → PageTaken m (taken m p) p
taken-PageTaken m p = record {
  marks = page_used-write_bit m.bitmap p true;
  keeps_marks = λ q ne. page_used-write_bit_other m.bitmap p q true ne;
  used_more = refl;
  free_less = omega arith;
  same_pages = refl;
  same_total = refl;
}

-- In a memory of at most 2 ^ 52 pages, phys_alloc_page returns the address of the lowest page that is
-- free among those of whole words; afterwards that page is marked, no other mark has changed, and the
-- counters have moved by one page. With no such page it returns 0 and changes nothing.
pub phys_alloc_page_lem :
    (m : Physical)
    → m.phys_pages ≤ 2 ^ 52
    → ((p : ℕ)
        → Scanned m p
        → page_used m.bitmap p ≡ false
        → ((q : ℕ) → q < p → page_used m.bitmap q ≡ true)
        → ((phys_alloc_page m).0 ≡ p * 4096) × PageTaken m (phys_alloc_page m).1 p)
      × (((q : ℕ) → Scanned m q → page_used m.bitmap q ≡ true) → phys_alloc_page m ≡ (0, m))
phys_alloc_page_lem m small = (
  λ p inside free below.
      let found = lowest_taken m small p inside free below in
      (
        ap (λ (r : ℕ × Physical). r.0) found,
        subst (λ (r : ℕ × Physical). PageTaken m r.1 p) (sym found) (taken-PageTaken m p),
      ),
  λ full. none_taken m full,
)

-- Taking a free page marks it and changes no other mark; where the counters fit 64 bits
-- `phys_free_page` on its address restores every mark and both counters.
pub phys_free_page_lem :
    (m : Physical) (p : ℕ)
    → page_used m.bitmap p ≡ false
    → m.used_memory < word64
    → m.free_memory < word64
    → let m' = phys_free_page (taken m p) (p * page_size) in
      (page_used (taken m p).bitmap p ≡ true)
      × ((q : ℕ) → q ≢ p → page_used (taken m p).bitmap q ≡ page_used m.bitmap q)
      × ((q : ℕ) → page_used m'.bitmap q ≡ page_used m.bitmap q)
      × (m'.used_memory ≡ m.used_memory)
      × (m'.free_memory ≡ m.free_memory)
unfolding phys_free_page
phys_free_page_lem m p free used_fits free_fits = (
  page_used-write_bit m.bitmap p true,
  λ q ne. page_used-write_bit_other m.bitmap p q true ne,
  λ q.
      ap (λ (k : ℕ). page_used (write_bit (taken m p).bitmap (k / 64) (k % 64) false) q)
        {x = p * page_size / page_size} {y = p} (omega arith)
      ∙ restored q,
  omega arith,
  omega arith,
)
  where
    restored :
        (q : ℕ)
        → page_used (write_bit (taken m p).bitmap (p / 64) (p % 64) false) q ≡ page_used m.bitmap q
    restored q = elim (ℕ_discrete q p) [
      | yes e ↦
          subst
            (λ (k : ℕ).
              page_used (write_bit (taken m p).bitmap (p / 64) (p % 64) false) k
              ≡ page_used m.bitmap k)
            (sym e) (page_used-write_bit (taken m p).bitmap p false ∙ sym free)
      | no ne ↦
          page_used-write_bit_other (taken m p).bitmap p q false ne
          ∙ page_used-write_bit_other m.bitmap p q true ne
    ]

mark_loop_lem :
    (bitmap : Bitmap) (n q : ℕ)
    → (q < n → page_used (mark_loop bitmap n) q ≡ true)
      × (n ≤ q → page_used (mark_loop bitmap n) q ≡ page_used bitmap q)
unfolding mark_loop
mark_loop_lem bitmap zero q = (λ h. absurd (omega arith), λ h. refl)
mark_loop_lem bitmap (suc n) q =
    let (inside, outside) = mark_loop_lem bitmap n q in
    (
      λ h. elim (ℕ_discrete q n) [
        | yes e ↦
            subst
              (λ (k : ℕ).
                page_used (write_bit (mark_loop bitmap n) (n / 64) (n % 64) true) k ≡ true)
              (sym e) (page_used-write_bit (mark_loop bitmap n) n true)
        | no ne ↦
            page_used-write_bit_other (mark_loop bitmap n) n q true ne ∙ inside (omega (arith, ne))
      ],
      λ h.
          page_used-write_bit_other (mark_loop bitmap n) n q true (λ e. absurd (omega arith))
          ∙ outside (omega arith),
    )

-- `flux_init` marks the pages of the first 4 MB and no other page of the 2 GB, but the counters say that
-- all memory is free.
pub init_pages_lem :
    (m : Physical)
    → let m' = init_pages m in
      ((q : ℕ) → q < 1024 → page_used m'.bitmap q ≡ true)
      × ((q : ℕ) → 1024 ≤ q → q < m'.phys_pages → page_used m'.bitmap q ≡ false)
      × (m'.used_memory ≡ 0)
      × (m'.free_memory ≡ m'.phys_pages * page_size)
unfolding init_pages
init_pages_lem m = (
  λ q h. (mark_loop_lem zeroed 1024 q).0 h,
  λ q lo hi. (mark_loop_lem zeroed 1024 q).1 lo ∙ ground arith,
  refl,
  refl,
)
  where
    zeroed : Bitmap
    zeroed = λ i b. if ltb i ((524288 + 63) / 64) then false else m.bitmap i b
