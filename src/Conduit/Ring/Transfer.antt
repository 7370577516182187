-- ===== src/Conduit/Ring/Transfer.antt =====
-- `ringbuf_write`, `ringbuf_read` and `ringbuf_peek` move whole runs of bytes, in order.
use limitless_os.Prelude.{
  ℕ, ◌+◌, ◌-◌, ◌≤◌, ◌<◌, ◌≡◌, refl, sym, ap, ap₂, ◌∙◌, List, [], ◌++◌, ltb, if◌then◌else◌, length,
  get_or, take, drop, get_or-take, get_or-drop, length-take, length-drop, length-append, tabulate,
  length-tabulate, tabulate_congr, tabulate-add, eq-tabulate, take-append, take-min, drop-min,
  append-nil, drop-append, arith, min, dec_le, some,
}
use limitless_os.Conduit.Ring.{
  Ring, size_mod, write_chunks, read_chunks, ringbuf_init, ringbuf_write, ringbuf_read,
  ringbuf_peek,
}
use limitless_os.Conduit.Ring.Contents.{
  IsValid, contents, wrap, wrap-mod, length-write_chunks, write_chunks_old, write_chunks_new,
}

pub length-contents : (rb : Ring) → length (contents rb) ≡ rb.used
unfolding contents
length-contents rb = length-tabulate rb.used _

-- The state that `ringbuf_write` leaves when it takes `n` bytes, and that `ringbuf_read` leaves.
abbrev pub written : Ring → List ℕ → ℕ → Ring
written rb bytes n = record rb {
  buffer = write_chunks rb bytes n;
  tail = wrap rb.size (rb.tail + n);
  used = rb.used + n;
}

abbrev pub skipped : Ring → ℕ → Ring
skipped rb n = record rb { head = wrap rb.size (rb.head + n); used = rb.used - n }

ringbuf_write_eq :
    (rb : Ring) (bytes : List ℕ) (len : ℕ)
    → IsValid rb
    → ringbuf_write rb bytes len ≡ (
        let n = min len (rb.size - rb.used) in if ltb 0 n then (n, written rb bytes n) else (0, rb))
unfolding ringbuf_write
ringbuf_write_eq rb bytes len v =
    ground (arith, wrap-mod rb.size (rb.tail + min len (rb.size - rb.used)))

ringbuf_read_eq :
    (rb : Ring) (len : ℕ)
    → IsValid rb
    → ringbuf_read rb len
      ≡ (let n = min len rb.used in if ltb 0 n then (read_chunks rb n, skipped rb n) else ([], rb))
unfolding ringbuf_read
ringbuf_read_eq rb len v = ground (arith, wrap-mod rb.size (rb.head + min len rb.used))

written-IsValid :
    (rb : Ring) (bytes : List ℕ) (n : ℕ)
    → IsValid rb
    → n ≤ rb.size - rb.used
    → n ≤ length bytes
    → IsValid (written rb bytes n)
written-IsValid rb bytes n v room given =
    ground (arith, length-write_chunks rb bytes n v room given)

contents-written :
    (rb : Ring) (bytes : List ℕ) (n : ℕ)
    → IsValid rb
    → n ≤ rb.size - rb.used
    → n ≤ length bytes
    → contents (written rb bytes n) ≡ contents rb ++ take n bytes
unfolding contents
contents-written rb bytes n v room given =
    tabulate-add rb.used n _
    ∙ ap₂ ◌++◌ (tabulate_congr rb.used _ _ (write_chunks_old rb bytes n v room given)) (
        tabulate_congr n _ _ (write_chunks_new rb bytes n v room given)
        ∙ sym (
            eq-tabulate n (take n bytes) (λ i. get_or bytes i 0) 0
              (omega (arith, length-take n bytes)) (λ i h. get_or-take n bytes i 0 h)))

skipped-IsValid : (rb : Ring) (n : ℕ) → IsValid rb → n ≤ rb.used → IsValid (skipped rb n)
skipped-IsValid rb n v h = ground arith

-- The chunks that `ringbuf_read` copies are the first bytes of the contents.
read_chunks_eq :
    (rb : Ring) (n : ℕ)
    → IsValid rb
    → n ≤ rb.used
    → read_chunks rb n ≡ tabulate n (λ i. get_or rb.buffer (wrap rb.size (rb.head + i)) 0)
unfolding read_chunks
read_chunks_eq rb n v h = elim (dec_le n (rb.size - rb.head)) [
  | yes p ↦ one_read p
  | no p ↦ two_reads (rb.size - rb.head) refl (omega arith)
]
  where
    at : ℕ → ℕ
    at i = get_or rb.buffer (wrap rb.size (rb.head + i)) 0

    chunk : (m : ℕ) → m ≤ rb.size - rb.head → take m (drop rb.head rb.buffer) ≡ tabulate m at
    chunk m hm =
        eq-tabulate m (take m (drop rb.head rb.buffer)) at 0
          (omega (arith, length-take m (drop rb.head rb.buffer), length-drop rb.head rb.buffer))
          (λ i hi.
            ground (
              arith,
              get_or-take m (drop rb.head rb.buffer) i 0,
              get_or-drop rb.head rb.buffer i 0,
            ))

    rest :
        (m : ℕ)
        → rb.size - rb.head ≡ m
        → m < n
        → take (n - m) rb.buffer ≡ tabulate (n - m) (λ i. at (m + i))
    rest m e hm =
        eq-tabulate (n - m) (take (n - m) rb.buffer) (λ i. at (m + i)) 0
          (omega (arith, length-take (n - m) rb.buffer))
          (λ i hi. ground (arith, get_or-take (n - m) rb.buffer i 0))

    one_read : n ≤ rb.size - rb.head → read_chunks rb n ≡ tabulate n at
    one_read p = ground (arith, chunk n p)

    two_reads : (m : ℕ) → rb.size - rb.head ≡ m → m < n → read_chunks rb n ≡ tabulate n at
    two_reads m e hm = ground (
      arith,
      chunk m (omega arith),
      rest m e hm,
      tabulate-add m (n - m) at,
      ap (λ (k : ℕ). tabulate k at) (let q : m + (n - m) ≡ n = omega arith in q),
    )

pub contents_split :
    (rb : Ring) (n : ℕ)
    → IsValid rb
    → n ≤ rb.used
    → contents rb ≡ read_chunks rb n ++ contents (skipped rb n)
unfolding contents
contents_split rb n v h = rw (read_chunks_eq rb n v h) (
    ap (λ k. tabulate k at) (let q : rb.used ≡ n + (rb.used - n) = omega arith in q)
    ∙ tabulate-add n (rb.used - n) at
    ∙ ap (◌++◌ (tabulate n at)) (tabulate_congr (rb.used - n) _ _ (λ i hi. ground arith)))
  where
    at : ℕ → ℕ
    at i = get_or rb.buffer (wrap rb.size (rb.head + i)) 0

length-read_chunks : (rb : Ring) (n : ℕ) → IsValid rb → n ≤ rb.used → length (read_chunks rb n) ≡ n
length-read_chunks rb n v h = rw (read_chunks_eq rb n v h) (length-tabulate n _)

read_chunks-take :
    (rb : Ring) (n : ℕ) → IsValid rb → n ≤ rb.used → read_chunks rb n ≡ take n (contents rb)
read_chunks-take rb n v h = rw (contents_split rb n v h) (
    sym (take-append (read_chunks rb n) (contents (skipped rb n)))
    ∙ ap (λ k. take k (read_chunks rb n ++ contents (skipped rb n))) (length-read_chunks rb n v h))

skipped-drop :
    (rb : Ring) (n : ℕ) → IsValid rb → n ≤ rb.used → contents (skipped rb n) ≡ drop n (contents rb)
skipped-drop rb n v h = rw (contents_split rb n v h) (
    sym (drop-append (read_chunks rb n) (contents (skipped rb n)))
    ∙ ap (λ k. drop k (read_chunks rb n ++ contents (skipped rb n))) (length-read_chunks rb n v h))

-- On a valid ring `ringbuf_write` takes as many bytes as fit, and no more than asked; it appends
-- exactly those bytes in order, reports their number, and keeps the ring valid.
pub ringbuf_write_lem :
    (rb : Ring) (bytes : List ℕ) (len : ℕ)
    → IsValid rb
    → len ≤ length bytes
    → let (n, rb') = ringbuf_write rb bytes len in
      (n ≡ min len (rb.size - rb.used)) × (contents rb' ≡ contents rb ++ take n bytes) × IsValid rb'
ringbuf_write_lem rb bytes len v given = rw (ringbuf_write_eq rb bytes len v) (
    ground (
      arith,
      contents-written rb bytes (min len (rb.size - rb.used)) v,
      written-IsValid rb bytes (min len (rb.size - rb.used)) v,
      append-nil (contents rb),
    ))

-- On a valid ring `ringbuf_read` hands out the oldest bytes, as many as there are up to `len`,
-- removes exactly those, and keeps the ring valid.
pub ringbuf_read_lem :
    (rb : Ring) (len : ℕ)
    → IsValid rb
    → let (bytes, rb') = ringbuf_read rb len in
      (bytes ≡ take len (contents rb)) × (contents rb' ≡ drop len (contents rb)) × IsValid rb'
ringbuf_read_lem rb len v =
    rw
      (
        ← take-min len (contents rb),
        ← drop-min len (contents rb),
        length-contents rb,
        ringbuf_read_eq rb len v,
      )
      (ground (
        arith,
        read_chunks-take rb (min len rb.used) v,
        skipped-drop rb (min len rb.used) v,
        skipped-IsValid rb (min len rb.used) v,
      ))

-- `ringbuf_peek` shows what `ringbuf_read` would hand out.
pub ringbuf_peek_lem : (rb : Ring) (len : ℕ) → ringbuf_peek rb len ≡ (ringbuf_read rb len).0
unfolding ringbuf_peek ringbuf_read
ringbuf_peek_lem rb len = ground arith

-- A ring on a block of its size, at most half of the address space, is valid and empty.
pub ringbuf_init_lem :
    (block : List ℕ) (size : ℕ)
    → length block ≡ size
    → 0 < size
    → size + size ≤ size_mod
    → IsValid (ringbuf_init (some block) size) × (contents (ringbuf_init (some block) size) ≡ [])
unfolding ringbuf_init contents
ringbuf_init_lem block size e pos h = (ground arith, refl)

pub size-ringbuf_write :
    (rb : Ring) (bytes : List ℕ) (len : ℕ) → (ringbuf_write rb bytes len).1.size ≡ rb.size
unfolding ringbuf_write
size-ringbuf_write rb bytes len = ground arith

pub size-ringbuf_read : (rb : Ring) (len : ℕ) → (ringbuf_read rb len).1.size ≡ rb.size
unfolding ringbuf_read
size-ringbuf_read rb len = ground arith

-- What a write does that fits.
pub record WroteAll (rb : Ring) (bytes : List ℕ) (len : ℕ) (out : ℕ × Ring) : Type 0 where
  pub count : out.0 ≡ len
  pub appended : contents out.1 ≡ contents rb ++ take len bytes
  pub valid : IsValid out.1
  pub same_size : out.1.size ≡ rb.size
  pub used_now : out.1.used ≡ rb.used + len

pub ringbuf_write_all :
    (rb : Ring) (bytes : List ℕ) (len : ℕ)
    → IsValid rb
    → len ≤ length bytes
    → rb.used + len ≤ rb.size
    → WroteAll rb bytes len (ringbuf_write rb bytes len)
ringbuf_write_all rb bytes len v given room =
    let (n, stream, valid) = ringbuf_write_lem rb bytes len v given in
    let all : (ringbuf_write rb bytes len).0 ≡ len = omega (arith, n) in
    let appended : contents (ringbuf_write rb bytes len).1 ≡ contents rb ++ take len bytes =
      stream ∙ ap (λ k. contents rb ++ take k bytes) all in
    record {
      count = all;
      appended = appended;
      valid = valid;
      same_size = size-ringbuf_write rb bytes len;
      used_now = omega (
        arith,
        length-contents (ringbuf_write rb bytes len).1,
        ap length appended,
        length-append (contents rb) (take len bytes),
        length-contents rb,
        length-take len bytes,
      );
    }

-- What a read does that finds `front` at the head of the ring.
pub ringbuf_read_front :
    (rb : Ring) (front rest : List ℕ)
    → IsValid rb
    → contents rb ≡ front ++ rest
    → let (bytes, rb') = ringbuf_read rb (length front) in
      (bytes ≡ front) × (contents rb' ≡ rest) × IsValid rb'
ringbuf_read_front rb front rest v e =
    let (bytes, left, valid) = ringbuf_read_lem rb (length front) v in
    (
      bytes ∙ ap (take (length front)) e ∙ take-append front rest,
      left ∙ ap (drop (length front)) e ∙ drop-append front rest,
      valid,
    )
