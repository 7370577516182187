-- ===== src/Conduit/Message.antt =====
-- The message header of continuum/conduit_ipc.h as the bytes that the ring buffer stores: the
-- x86-64 layout of `conduit_message_t`, three 64-bit fields and one of 32 bits, least significant
-- byte first, with four bytes of padding. No field is read from the padding, which is zero here.
use limitless_os.Prelude.{
  ℕ, zero, suc, ◌+◌, ◌*◌, ◌/◌, ◌%◌, ◌^◌, ◌<◌, ◌≡◌, refl, ap, List, [], ◌∷◌, ◌++◌, length, take,
  drop, replicate, arith,
}

-- `conduit_message_t`
pub record Message : Type 0 where
  pub sender_qid : ℕ
  pub size : ℕ
  pub timestamp : ℕ
  pub flags : ℕ

-- `sizeof(conduit_message_t)`
abbrev pub header_size : ℕ
header_size = 32

unfoldable pub to_bytes : ℕ → ℕ → List ℕ
to_bytes zero n = []
to_bytes (suc w) n = (n % 256) ∷ to_bytes w (n / 256)

unfoldable pub from_bytes : List ℕ → ℕ
from_bytes [] = 0
from_bytes (b ∷ bs) = b + 256 * from_bytes bs

unfoldable pub header_bytes : Message → List ℕ
unfolding to_bytes
header_bytes m =
    to_bytes 8 m.sender_qid
    ++ (to_bytes 8 m.size ++ (to_bytes 8 m.timestamp ++ (to_bytes 4 m.flags ++ replicate 4 0)))

unfoldable pub read_header : List ℕ → Message
unfolding from_bytes
read_header bs = record {
  sender_qid = from_bytes (take 8 bs);
  size = from_bytes (take 8 (drop 8 bs));
  timestamp = from_bytes (take 8 (drop 16 bs));
  flags = from_bytes (take 4 (drop 24 bs));
}

-- The fields fit their types.
pub record Fits (m : Message) : Type 0 where
  pub sender_fits : m.sender_qid < 2 ^ 64
  pub size_fits : m.size < 2 ^ 64
  pub timestamp_fits : m.timestamp < 2 ^ 64
  pub flags_fits : m.flags < 2 ^ 32

pub length-to_bytes : (w n : ℕ) → length (to_bytes w n) ≡ w
unfolding to_bytes
length-to_bytes zero n = refl
length-to_bytes (suc w) n = ap suc (length-to_bytes w (n / 256))

pub length-header_bytes : (m : Message) → length (header_bytes m) ≡ header_size
unfolding header_bytes
length-header_bytes m = refl

-- `256 ^ w` by repeated multiplication.
bytes_range : ℕ → ℕ
bytes_range zero = 1
bytes_range (suc w) = 256 * bytes_range w

from_bytes-to_bytes : (w n : ℕ) → n < bytes_range w → from_bytes (to_bytes w n) ≡ n
unfolding from_bytes to_bytes bytes_range
from_bytes-to_bytes zero n h = omega arith
from_bytes-to_bytes (suc w) n h = omega (arith, from_bytes-to_bytes w (n / 256) (omega arith))

-- A header whose fields fit their types is read back from its bytes, whatever follows them.
pub read_header-header_bytes :
    (m : Message) (rest : List ℕ) → Fits m → read_header (header_bytes m ++ rest) ≡ m
unfolding read_header header_bytes bytes_range
read_header-header_bytes m rest f = λ i. record {
  sender_qid = from_bytes-to_bytes 8 m.sender_qid f.sender_fits i;
  size = from_bytes-to_bytes 8 m.size f.size_fits i;
  timestamp = from_bytes-to_bytes 8 m.timestamp f.timestamp_fits i;
  flags = from_bytes-to_bytes 4 m.flags f.flags_fits i;
}
