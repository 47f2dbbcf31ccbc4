-- ===== src/Osc/Bytes/Words.antt =====
-- src/oscmix_desk/osc.py: `struct`'s big-endian Int32, written and read.
use oscmix_desk.Common.{
  ℕ, ◌+◌, ◌-◌, ◌*◌, ◌/◌, ◌%◌, ◌^◌, ◌<◌, ◌≡◌, some, ◌++◌, arith, length, length-append, drop-append,
  sym, ap, le→leb, take-le,
}
use oscmix_desk.Common.Int.{ℤ, pos, negsuc}
use oscmix_desk.Osc.Bytes.{Bytes, big_endian, pack_int, signed, unpack_word, four_at}

big_endian_value :
    (n : ℕ)
    → n < 2 ^ 32
    → n / 2 ^ 24 * 2 ^ 24 + n / 2 ^ 16 % 256 * 2 ^ 16 + n / 2 ^ 8 % 256 * 2 ^ 8 + n % 256 ≡ n
big_endian_value n h = omega arith

unpack_word-big_endian : (n : ℕ) → n < 2 ^ 32 → unpack_word (big_endian n) ≡ signed n
unfolding unpack_word big_endian
unpack_word-big_endian n h = rw (big_endian_value n h)

pub unpack_word-length : (n : ℕ) → n < 2 ^ 31 → unpack_word (big_endian n) ≡ pos n
unfolding signed
unpack_word-length n h = rw (unpack_word-big_endian n (omega arith)) (ground arith)

-- The bytes that `struct.pack` gives are read back as the same integer.
pub unpack_word-pack_int : (n : ℤ) (b : Bytes) → pack_int n ≡ some b → unpack_word b ≡ n
unfolding pack_int signed
unpack_word-pack_int (pos n) b h = ground (arith, unpack_word-big_endian n)
unpack_word-pack_int (negsuc n) b h = ground (arith, unpack_word-big_endian (2 ^ 32 - 1 - n))

pub length-pack_int : (n : ℤ) (b : Bytes) → pack_int n ≡ some b → length b ≡ 4
unfolding pack_int big_endian
length-pack_int (pos n) b h = ground arith
length-pack_int (negsuc n) b h = ground arith

pub four_at-append :
    (front b rest : Bytes) → length b ≡ 4 → four_at (front ++ (b ++ rest)) (length front) ≡ some b
unfolding four_at
four_at-append front b rest h =
    rw
      (le→leb (length front + 4) (length (front ++ (b ++ rest)))
        (omega (arith, length-append front (b ++ rest), length-append b rest)))
      (rw (drop-append front (b ++ rest)) (ap some (take-le b rest 4 (sym h))))
