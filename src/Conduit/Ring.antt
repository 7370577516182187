-- ===== src/Conduit/Ring.antt =====
-- The ring buffer of continuum/conduit_ipc.c: `ring_buffer_t` and the functions `ringbuf_*`.
-- The spin lock that each function holds from its first line to its last is left out: a call is one
-- atomic step. A null `buffer` is the empty list of bytes.
pub mod Contents
pub mod Transfer
use limitless_os.Prelude.{
  ℕ, ◌+◌, ◌-◌, ◌%◌, ◌^◌, List, [], ◌++◌, Option, none, some, ltb, leb, ◌==◌, if◌then◌else◌, take,
  drop, copy_in,
}

pub record Ring : Type 0 where
  pub buffer : List ℕ
  pub size : ℕ
  pub head : ℕ
  pub tail : ℕ
  pub used : ℕ

abbrev pub size_mod : ℕ
size_mod = 2 ^ 64

-- `size_t` addition and subtraction.
abbrev pub add_size : ℕ → ℕ → ℕ
add_size a b = (a + b) % size_mod

abbrev pub sub_size : ℕ → ℕ → ℕ
sub_size a b = (a + size_mod - b) % size_mod

-- The first argument is what `flux_allocate` returns: the block, or nothing on failure.
unfoldable pub ringbuf_init : Option (List ℕ) → ℕ → Ring
ringbuf_init none size = record { buffer = []; size = size; head = 0; tail = 0; used = 0 }
ringbuf_init (some block) size = record {
  buffer = block;
  size = size;
  head = 0;
  tail = 0;
  used = 0;
}

unfoldable pub ringbuf_destroy : Ring → Ring
ringbuf_destroy rb = record rb { buffer = [] }

-- `if (len > limit) len = limit;`
abbrev pub clamp : ℕ → ℕ → ℕ
clamp len limit = if ltb limit len then limit else len

-- The two `memcpy` calls of `ringbuf_write`.
unfoldable pub write_chunks : Ring → List ℕ → ℕ → List ℕ
write_chunks rb bytes len =
    let first_chunk = clamp (sub_size rb.size rb.tail) len in
    let buffer = copy_in rb.buffer rb.tail (take first_chunk bytes) in
    if ltb first_chunk len
    then copy_in buffer 0 (take (len - first_chunk) (drop first_chunk bytes))
    else buffer

-- Returns the number of bytes taken, and the ring.
unfoldable pub ringbuf_write : Ring → List ℕ → ℕ → ℕ × Ring
ringbuf_write rb bytes len =
    let n = clamp len (sub_size rb.size rb.used) in
    if n == 0 then (0, rb) else (
      n,
      record rb {
        buffer = write_chunks rb bytes n;
        tail = add_size rb.tail n % rb.size;
        used = add_size rb.used n;
      },
    )

-- The two `memcpy` calls of `ringbuf_read` and `ringbuf_peek`.
unfoldable pub read_chunks : Ring → ℕ → List ℕ
read_chunks rb len =
    let first_chunk = clamp (sub_size rb.size rb.head) len in
    if ltb first_chunk len
    then take first_chunk (drop rb.head rb.buffer) ++ take (len - first_chunk) rb.buffer
    else take first_chunk (drop rb.head rb.buffer)

-- Returns the bytes that are put into `data` (as many as the C function's result says), and the
-- ring.
unfoldable pub ringbuf_read : Ring → ℕ → List ℕ × Ring
ringbuf_read rb len =
    let n = clamp len rb.used in
    if n == 0 then ([], rb) else (
      read_chunks rb n,
      record rb { head = add_size rb.head n % rb.size; used = sub_size rb.used n },
    )

unfoldable pub ringbuf_peek : Ring → ℕ → List ℕ
ringbuf_peek rb len = let n = clamp len rb.used in if n == 0 then [] else read_chunks rb n
