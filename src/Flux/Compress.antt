-- ===== src/Flux/Compress.antt =====
-- The compression of pages in continuum/flux_memory.c. A buffer that is written from its start to its
-- end is the list of the bytes written, so its length is `dst_pos`; of the buffer that is read the
-- argument holds the part from `src_pos` on.
pub mod Restore
use limitless_os.Prelude.{
  ℕ, zero, suc, ◌+◌, ◌-◌, ◌*◌, ◌/◌, ◌%◌, min, Bool, true, false, ◌&&◌, ◌||◌, Option, none, some,
  List, [], ◌∷◌, ◌++◌, length, drop, replicate, ltb, ◌==◌, if◌then◌else◌,
}
use limitless_os.Temporal.Quantum.{word64}
use limitless_os.Flux.Pages.{page_size}

-- The inner loop: `run_length` bytes so far, then those before the end of the page.
unfoldable pub run_loop : ℕ → ℕ → List ℕ → ℕ
run_loop byte run_length [] = run_length
run_loop byte run_length (next ∷ rest) =
    let longer = run_loop byte (run_length + 1) rest in
    if next == byte && ltb run_length 255 then longer else run_length

-- The outer loop, on fuel.
unfoldable pub compress_loop : ℕ → ℕ → List ℕ → List ℕ
compress_loop zero dst_pos src = []
compress_loop (suc fuel) dst_pos [] = []
compress_loop (suc fuel) dst_pos (byte ∷ rest) =
    let run_length = run_loop byte 1 rest in
    let run =
      255 ∷ run_length ∷ byte ∷ compress_loop fuel (dst_pos + 3) (drop (run_length - 1) rest) in
    let literal = byte ∷ compress_loop fuel (dst_pos + 1) rest in
    if ltb dst_pos 4094 then (if ltb 2 run_length || byte == 255 then run else literal) else []

-- Every round reads a byte.
unfoldable pub compress_page : List ℕ → List ℕ
compress_page page = compress_loop page_size 0 page

-- `room` bytes of the target are left to write.
unfoldable pub decompress_loop : List ℕ → ℕ → List ℕ
decompress_loop [] room = replicate room 0
decompress_loop (c ∷ []) room = if ltb 0 room then c ∷ replicate (room - 1) 0 else []
decompress_loop (c ∷ n ∷ []) room =
    let rest = decompress_loop (n ∷ []) (room - 1) in if ltb 0 room then c ∷ rest else []
decompress_loop (c ∷ n ∷ b ∷ src) room =
    let run = replicate (min n room) b ++ decompress_loop src (room - n) in
    let literal = c ∷ decompress_loop (n ∷ b ∷ src) (room - 1) in
    if ltb 0 room then (if c == 255 then run else literal) else []

unfoldable pub decompress_page : List ℕ → List ℕ
decompress_page compressed = decompress_loop compressed page_size

pub record Compression : Type 0 where
  pub compressed_pages : ℕ
  pub compression_ratio : ℕ

-- `workspace` is what `flux_allocate` returns, and `page` what stands at the address.
unfoldable pub flux_compress_page : Option ℕ → List ℕ → Compression → Compression
flux_compress_page none page g = g
flux_compress_page (some workspace) page g =
    let compressed_size = length (compress_page page) in
    let pages = (g.compressed_pages + 1) % word64 in
    if ltb compressed_size 2048
    then record g {
      compressed_pages = pages;
      compression_ratio =
          (((g.compression_ratio * (pages + word64 - 1)) % word64
              + page_size * 100 / compressed_size)
            % word64)
          / pages;
    }
    else g
