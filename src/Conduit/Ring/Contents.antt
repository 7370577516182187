-- ===== src/Conduit/Ring/Contents.antt =====
-- What a ring holds, and the bounds under which its indices do not wrap.
use native.Mathlib.Nat.{mod-eq_of_lt, mod-eq-sub-mod}
use limitless_os.Prelude.{
  ℕ, ◌+◌, ◌-◌, ◌%◌, ◌≤◌, ◌<◌, ◌≡◌, refl, List, ltb, leb, ◌&&◌, if◌then◌else◌, length, get_or, take,
  drop, copy_in, get_or-copy_in, get_or-take, get_or-drop, length-take, length-drop, length-copy_in,
  tabulate, arith, dec_lt, dec_le,
}
use limitless_os.Conduit.Ring.{Ring, size_mod, write_chunks}

-- An index at most one round past the end.
abbrev pub wrap : ℕ → ℕ → ℕ
wrap size i = if ltb i size then i else i - size

pub wrap-mod : (size i : ℕ) → i < size + size → i % size ≡ wrap size i
wrap-mod size i h = elim (dec_lt i size) [
  | yes p ↦ ground (arith, mod-eq_of_lt p)
  | no p ↦ ground (
    arith,
    mod-eq-sub-mod {n = i} {m = size} (omega arith),
    mod-eq_of_lt {n = i - size} {m = size} (omega arith),
  )
]

-- The storage has its size, the sizes fit `size_t`, and `tail` stands `used` bytes past `head`.
pub record IsValid (rb : Ring) : Type 0 where
  pub storage : length rb.buffer ≡ rb.size
  pub fits : rb.size + rb.size ≤ size_mod
  pub head_in : rb.head < rb.size
  pub used_in : rb.used ≤ rb.size
  pub tail_at : rb.tail ≡ wrap rb.size (rb.head + rb.used)

-- The bytes of the ring, oldest first.
unfoldable pub contents : Ring → List ℕ
contents rb = tabulate rb.used (λ i. get_or rb.buffer (wrap rb.size (rb.head + i)) 0)

module _ (rb : Ring) (bytes : List ℕ) (n : ℕ) (v : IsValid rb) (room : n ≤ rb.size - rb.used)
    (given : n ≤ length bytes) where
  pub length-write_chunks : length (write_chunks rb bytes n) ≡ rb.size
  unfolding write_chunks
  length-write_chunks = ground (
    arith,
    length-copy_in rb.buffer rb.tail (take n bytes),
    length-copy_in rb.buffer rb.tail (take (rb.size - rb.tail) bytes),
    length-copy_in (copy_in rb.buffer rb.tail (take (rb.size - rb.tail) bytes)) 0
        (take (n - (rb.size - rb.tail)) (drop (rb.size - rb.tail) bytes)),
  )

  one_chunk :
      n ≤ rb.size - rb.tail → write_chunks rb bytes n ≡ copy_in rb.buffer rb.tail (take n bytes)
  unfolding write_chunks
  one_chunk h = ground arith

  two_chunks :
      (m : ℕ)
      → rb.size - rb.tail ≡ m
      → m < n
      → write_chunks rb bytes n
        ≡ copy_in (copy_in rb.buffer rb.tail (take m bytes)) 0 (take (n - m) (drop m bytes))
  unfolding write_chunks
  two_chunks m e h = ground arith

  module _ (j : ℕ) (h : j < rb.size) where
    abbrev ExpectedAt : List ℕ → Type 0
    ExpectedAt buffer = get_or buffer j 0 ≡ (
        if leb rb.tail j && ltb j (rb.tail + n)
        then get_or bytes (j - rb.tail) 0
        else if ltb (j + rb.size) (rb.tail + n)
        then get_or bytes (j + rb.size - rb.tail) 0
        else get_or rb.buffer j 0)

    one_chunk_at : n ≤ rb.size - rb.tail → ExpectedAt (write_chunks rb bytes n)
    one_chunk_at p = rw (one_chunk p) (
        ground (
          arith,
          get_or-copy_in rb.buffer rb.tail (take n bytes) j 0,
          length-take n bytes,
          get_or-take n bytes (j - rb.tail) 0,
        ))

    two_chunks_at : (m : ℕ) → rb.size - rb.tail ≡ m → m < n → ExpectedAt (write_chunks rb bytes n)
    two_chunks_at m e p = rw (two_chunks m e p) (
        ground (
          arith,
          get_or-copy_in (copy_in rb.buffer rb.tail (take m bytes)) 0 (take (n - m) (drop m bytes))
              j 0,
          length-copy_in rb.buffer rb.tail (take m bytes),
          get_or-copy_in rb.buffer rb.tail (take m bytes) j 0,
          length-take m bytes,
          length-take (n - m) (drop m bytes),
          length-drop m bytes,
          get_or-take m bytes (j - rb.tail) 0,
          get_or-take (n - m) (drop m bytes) (j - 0) 0,
          get_or-drop m bytes (j - 0) 0,
        ))

    -- The byte at each index after the write.
    write_chunks_at : ExpectedAt (write_chunks rb bytes n)
    write_chunks_at = elim (dec_le n (rb.size - rb.tail)) [
      | yes p ↦ one_chunk_at p
      | no p ↦ two_chunks_at (rb.size - rb.tail) refl (omega arith)
    ]

  -- No byte that the ring holds is overwritten.
  pub write_chunks_old :
      (i : ℕ)
      → i < rb.used
      → get_or (write_chunks rb bytes n) (wrap rb.size (rb.head + i)) 0
        ≡ get_or rb.buffer (wrap rb.size (rb.head + i)) 0
  write_chunks_old i h = ground (arith, write_chunks_at (wrap rb.size (rb.head + i)) (ground arith))

  -- The new bytes follow in order.
  pub write_chunks_new :
      (i : ℕ)
      → i < n
      → get_or (write_chunks rb bytes n) (wrap rb.size (rb.head + (rb.used + i))) 0
        ≡ get_or bytes i 0
  write_chunks_new i h =
      ground (arith, write_chunks_at (wrap rb.size (rb.head + (rb.used + i))) (ground arith))
