-- ===== src/Harmony/Checksum.antt =====
-- `ip_checksum` of harmony/ip.c over the bytes of a buffer, and the sum of harmony/tcp.c and
-- harmony/udp.c over a pseudo header, a header and the data.
use limitless_os.Prelude.{
  ℕ, zero, suc, ◌+◌, ◌-◌, ◌*◌, ◌/◌, ◌%◌, ◌<◌, ◌≡◌, refl, ap, ◌∙◌, List, [], ◌∷◌, length, ltb,
  if◌then◌else◌, arith,
}
use limitless_os.Temporal.Quantum.{word32}

-- The 16-bit words of the buffer are added as `ntohs` gives them.
unfoldable pub add_words : List ℕ → ℕ → ℕ
add_words [] sum = sum
add_words (byte ∷ []) sum = (sum + byte * 256) % word32
add_words (high ∷ low ∷ rest) sum = add_words rest ((sum + (high * 256 + low)) % word32)

-- `while (sum >> 16)`, on fuel.
unfoldable pub fold_carries : ℕ → ℕ → ℕ
fold_carries zero sum = sum
fold_carries (suc fuel) sum =
    let folded = fold_carries fuel (sum % 65536 + sum / 65536) in
    if ltb 0 (sum / 65536) then folded else sum

-- `~sum` as a 16-bit word. Two rounds fold every 32-bit sum.
unfoldable pub complement : ℕ → ℕ
complement sum = (word32 - 1 - fold_carries 2 sum) % 65536

unfoldable pub ip_checksum : List ℕ → ℕ
ip_checksum bytes = complement (add_words bytes 0)

-- The reference of RFC 1071: the 16-bit words are added with the carry going round.
abbrev pub end_around : ℕ → ℕ → ℕ
end_around a b = if ltb (a + b) 65536 then a + b else a + b - 65535

pub ones_sum : List ℕ → ℕ → ℕ
ones_sum [] sum = sum
ones_sum (byte ∷ []) sum = end_around sum (byte * 256)
ones_sum (high ∷ low ∷ rest) sum = ones_sum rest (end_around sum (high * 256 + low))

abbrev pub AreBytes : List ℕ → Type 0
AreBytes [] = Unit {0}
AreBytes (b ∷ bs) = (b < 256) × AreBytes bs

-- The loop ends within its fuel.
pub fold_carries_ends : (sum : ℕ) → sum < word32 → fold_carries 2 sum < 65536
unfolding fold_carries
fold_carries_ends sum h = ground arith

-- What a sum is once its carries have gone round.
abbrev carried : ℕ → ℕ
carried s = if ltb 0 s then (s - 1) % 65535 + 1 else 0

fold_carries-carried : (sum : ℕ) → sum < word32 → fold_carries 2 sum ≡ carried sum
unfolding fold_carries
fold_carries-carried sum h = ground arith

end_around-carried : (s w : ℕ) → w < 65536 → end_around (carried s) w ≡ carried (s + w)
end_around-carried s w h = ground arith

-- Both sums, after any part of the buffer.
add_words_lem :
    (bytes : List ℕ) (sum : ℕ)
    → AreBytes bytes
    → sum + 65536 * length bytes < word32
    → (add_words bytes sum < word32)
      × (ones_sum bytes (carried sum) ≡ carried (add_words bytes sum))
unfolding add_words ones_sum
add_words_lem [] sum b h = (omega arith, refl)
add_words_lem (byte ∷ []) sum (b, t) h =
    (omega arith, end_around-carried sum (byte * 256) (omega arith) ∙ ap carried (omega (arith, h)))
add_words_lem (high ∷ low ∷ rest) sum (bh, (bl, br)) h =
    let word = high * 256 + low in
    let fits : (sum + word) % word32 ≡ sum + word = omega (arith, h) in
    let (low_end, same) = add_words_lem rest (sum + word) br (omega arith) in
    (rw fits low_end, rw fits (rw (end_around-carried sum word (omega arith)) same))

-- The checksum is the complement of the end-around-carry sum of the words, for every buffer of
-- bytes that is shorter than 65536 bytes.
pub ip_checksum_lem :
    (bytes : List ℕ)
    → AreBytes bytes
    → length bytes < 65536
    → ip_checksum bytes ≡ 65535 - ones_sum bytes 0
unfolding ip_checksum complement
ip_checksum_lem bytes b h =
    let (low, same) = add_words_lem bytes 0 b (omega arith) in
    omega (
      arith,
      fold_carries-carried (add_words bytes 0) low,
      fold_carries_ends (add_words bytes 0) low,
      same,
    )
