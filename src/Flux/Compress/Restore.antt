-- ===== src/Flux/Compress/Restore.antt =====
-- `decompress_page` after `compress_page`, continuum/flux_memory.c.
use limitless_os.Prelude.{
  ℕ, zero, suc, ◌+◌, ◌-◌, ◌≤◌, ◌<◌, min, ◌≡◌, refl, sym, ap, ap₂, ◌∙◌, ◌⊎◌, inl, inr, true, false,
  ◌&&◌, ◌||◌, Option, none, some, List, [], ◌∷◌, ◌++◌, length, length-drop, drop, replicate, ltb,
  ◌==◌, arith, Bool-cases,
}
use limitless_os.Flux.Compress.{
  run_loop, compress_loop, compress_page, decompress_loop, decompress_page, Compression,
  flux_compress_page,
}
use limitless_os.Flux.Pages.{page_size}

run_loop_bounds :
    (b n : ℕ) (xs : List ℕ)
    → n ≤ 255
    → (n ≤ run_loop b n xs) × (run_loop b n xs ≤ n + length xs) × (run_loop b n xs ≤ 255)
unfolding run_loop
run_loop_bounds b n [] h = omega arith
run_loop_bounds b n (x ∷ xs) h = ground (arith, run_loop_bounds b (n + 1) xs)

-- The bytes of a run are the same.
run_loop_lem :
    (b n : ℕ) (xs : List ℕ)
    → n ≤ 255
    → replicate (run_loop b n xs - n) b ++ drop (run_loop b n xs - n) xs ≡ xs
unfolding run_loop
run_loop_lem b n [] h =
    ap (λ (k : ℕ). replicate k b ++ drop k []) (let e : n - n ≡ 0 = omega arith in e)
run_loop_lem b n (x ∷ xs) h = elim (Bool-cases (x == b && ltb n 255)) [
  | inl longer ↦ rw longer (
      ap (λ (k : ℕ). replicate k b ++ drop k (x ∷ xs))
        (let e : run_loop b (n + 1) xs - n ≡ suc (run_loop b (n + 1) xs - (n + 1)) =
            omega (arith, (run_loop_bounds b (n + 1) xs (ground arith)).0) in
          e)
      ∙ ap₂ ◌∷◌ (ground arith) (run_loop_lem b (n + 1) xs (ground arith)))
  | inr over ↦
      rw over
        (ap (λ (k : ℕ). replicate k b ++ drop k (x ∷ xs)) (let e : n - n ≡ 0 = omega arith in e))
]

decompress_literal :
    (c : ℕ) (src : List ℕ) (room : ℕ)
    → (c == 255) ≡ false
    → decompress_loop (c ∷ src) (suc room) ≡ c ∷ decompress_loop src room
unfolding decompress_loop
decompress_literal c [] room h = ground arith
decompress_literal c (n ∷ []) room h = ground arith
decompress_literal c (n ∷ b ∷ src) room h = ground arith

-- A run is restored with what follows.
decompress_run :
    (n m b : ℕ) (src rest : List ℕ)
    → n ≡ suc m
    → m ≤ length rest
    → replicate m b ++ drop m rest ≡ rest
    → decompress_loop src (length (drop m rest)) ≡ drop m rest
    → decompress_loop (255 ∷ n ∷ b ∷ src) (suc (length rest)) ≡ b ∷ rest
unfolding decompress_loop
decompress_run n m b src rest e high run ih =
    the_run
    ∙ ap₂ (λ (k r : ℕ). replicate k b ++ decompress_loop src r) fits left
    ∙ ap (λ (xs : List ℕ). b ∷ (replicate m b ++ xs)) ih
    ∙ ap (◌∷◌ b) run
  where
    the_run :
        decompress_loop (255 ∷ n ∷ b ∷ src) (suc (length rest))
        ≡ replicate (min n (suc (length rest))) b ++ decompress_loop src (suc (length rest) - n)
    the_run = ground arith

    fits : min n (suc (length rest)) ≡ suc m
    fits = omega (arith, e)

    left : suc (length rest) - n ≡ length (drop m rest)
    left = omega (arith, e, length-drop m rest)

-- The two steps of the outer loop that go on.
compress_run :
    (fuel d b : ℕ) (rest : List ℕ)
    → d < 4094
    → (ltb 2 (run_loop b 1 rest) || b == 255) ≡ true
    → compress_loop (suc fuel) d (b ∷ rest)
      ≡ 255 ∷ run_loop b 1 rest ∷ b ∷ compress_loop fuel (d + 3) (drop (run_loop b 1 rest - 1) rest)
unfolding compress_loop
compress_run fuel d b rest h run = ground arith

compress_literal :
    (fuel d b : ℕ) (rest : List ℕ)
    → d < 4094
    → (ltb 2 (run_loop b 1 rest) || b == 255) ≡ false
    → compress_loop (suc fuel) d (b ∷ rest) ≡ b ∷ compress_loop fuel (d + 1) rest
unfolding compress_loop
compress_literal fuel d b rest h literal = ground arith

-- Where the target still has room after the last round, the source was read to its end.
compress_loop-decompress :
    (fuel dst_pos : ℕ) (src : List ℕ)
    → length src ≤ fuel
    → dst_pos + length (compress_loop fuel dst_pos src) < 4094
    → decompress_loop (compress_loop fuel dst_pos src) (length src) ≡ src
compress_loop-decompress zero d [] f h = unfold compress_loop decompress_loop in refl
compress_loop-decompress zero d (b ∷ rest) f h = absurd (omega arith)
compress_loop-decompress (suc fuel) d [] f h = unfold compress_loop decompress_loop in refl
compress_loop-decompress (suc fuel) d (b ∷ rest) f h =
    elim (Bool-cases (ltb 2 (run_loop b 1 rest) || b == 255)) [
      | inl run ↦
          let step = compress_run fuel d b rest (omega arith) run in
          let (low, high, byte) = run_loop_bounds b 1 rest (omega arith) in
          rw step (
            decompress_run (run_loop b 1 rest) (run_loop b 1 rest - 1) b _ rest (omega arith)
              (omega arith) (run_loop_lem b 1 rest (omega arith))
              (compress_loop-decompress fuel (d + 3) (drop (run_loop b 1 rest - 1) rest)
                (omega (arith, length-drop (run_loop b 1 rest - 1) rest))
                (omega (arith, ap length step))))
      | inr literal ↦
          let step = compress_literal fuel d b rest (omega arith) literal in
          rw step (
            decompress_literal b _ (length rest) (ground arith)
            ∙ ap (◌∷◌ b) (
                compress_loop-decompress fuel (d + 1) rest (omega arith)
                  (omega (arith, ap length step))))
    ]

-- The last round starts below `PAGE_SIZE - 2`, so its three bytes fit.
compress_loop_bound :
    (fuel d : ℕ) (src : List ℕ) → d ≤ 4096 → d + length (compress_loop fuel d src) ≤ 4096
unfolding compress_loop
compress_loop_bound zero d src h = omega arith
compress_loop_bound (suc fuel) d [] h = omega arith
compress_loop_bound (suc fuel) d (b ∷ rest) h = ground (
  arith,
  compress_loop_bound fuel (d + 3) (drop (run_loop b 1 rest - 1) rest),
  compress_loop_bound fuel (d + 1) rest,
)

compress_page_bound : (page : List ℕ) → length (compress_page page) ≤ page_size
unfolding compress_page
compress_page_bound page = omega (arith, compress_loop_bound page_size 0 page (omega arith))

compress_page-decompress :
    (page : List ℕ)
    → length page ≡ page_size
    → length (compress_page page) < 4094
    → decompress_page (compress_page page) ≡ page
unfolding compress_page decompress_page
compress_page-decompress page l h =
    ap (decompress_loop (compress_loop page_size 0 page)) (sym l)
    ∙ compress_loop-decompress page_size 0 page (omega arith) (omega arith)

-- A page that is counted as compressed is restored from its compressed bytes, and every page is
-- compressed within a page.
pub flux_compress_page_lem :
    (workspace : Option ℕ) (page : List ℕ) (g : Compression)
    → length page ≡ page_size
    → (length (compress_page page) ≤ page_size)
      × ((flux_compress_page workspace page g ≡ g) ⊎ (decompress_page (compress_page page) ≡ page))
unfolding flux_compress_page
flux_compress_page_lem none page g l = (compress_page_bound page, inl refl)
flux_compress_page_lem (some w) page g l = (
  compress_page_bound page,
  elim (Bool-cases (ltb (length (compress_page page)) 2048)) [
    | inl small ↦ inr (compress_page-decompress page l (ground arith))
    | inr large ↦ inl (rw large refl)
  ],
)
