-- ===== src/Osc/Bytes.antt =====
-- src/oscmix_desk/osc.py: the parts of a message. Bytes are numbers below 256, a text is the list
-- of its code points, and an offset into the data is kept as the source keeps it.
pub mod Strings
pub mod Words
use oscmix_desk.Common.{
  ℕ, suc, ◌+◌, ◌-◌, ◌*◌, ◌/◌, ◌%◌, ◌^◌, Bool, true, false, ◌&&◌, Option, none, some, List, [], ◌∷◌,
  ◌++◌, ltb, leb, nat_eq, if◌then◌else◌, not, length, take, drop, replicate, Result, ok, err,
}
use oscmix_desk.Common.Int.{ℤ, pos, negsuc}

abbrev pub Bytes : Type 0
Bytes = List ℕ

abbrev pub Text : Type 0
Text = List ℕ

-- What the module raises. `out_of_fuel` is the model's own.
pub data OscError : Type 0 where
  not_ascii no_terminator bad_padding truncated_message missing_tags truncated_arguments : OscError
  trailing_data unaligned_delivery truncated_header bad_element_size argument_count : OscError
  not_packable not_convertible out_of_fuel : OscError
  unsupported_tag : ℕ → OscError

-- `-n % 4`
abbrev pub pad : ℕ → ℕ
pad n = (4 - n % 4) % 4

unfoldable pub is_ascii : Text → Bool
is_ascii [] = true
is_ascii (c ∷ s) = ltb c 128 && is_ascii s

-- `_osc_string`
unfoldable pub osc_string : Text → Result OscError Bytes
osc_string value =
    let raw = value ++ 0 ∷ [] in
    if is_ascii value then ok (raw ++ replicate (pad (length raw)) 0) else err not_ascii

-- `data.index(b"\x00")`, relative to the start of `data`
unfoldable pub index_zero : Bytes → Option ℕ
index_zero [] = none
index_zero (b ∷ data') = elim (nat_eq b 0) [
  | true ↦ some 0
  | false ↦ elim (index_zero data') [ none ↦ none | some k ↦ some (suc k) ]
]

-- `any(data)` of bytes, negated
unfoldable pub all_zero : Bytes → Bool
all_zero [] = true
all_zero (b ∷ data') = nat_eq b 0 && all_zero data'

-- `data[start:stop]`
abbrev pub slice : Bytes → ℕ → ℕ → Bytes
slice data' start stop = take (stop - start) (drop start data')

-- the rest of `_decode_string` once the terminator is found, `k` bytes behind the offset
unfoldable pub decode_until : Bytes → ℕ → ℕ → Result OscError (Text × ℕ)
unfolding is_ascii all_zero
decode_until data' offset k =
    let value = slice data' offset (offset + k) in
    let stop = offset + k + 1 in
    let padded = stop + pad stop in
    if not (is_ascii value)
    then err not_ascii
    else if leb padded (length data') && all_zero (slice data' stop padded)
    then ok (value, padded)
    else err bad_padding

-- `_decode_string`
unfoldable pub decode_string : Bytes → ℕ → Result OscError (Text × ℕ)
unfolding index_zero decode_until
decode_string data' offset = elim (index_zero (drop offset data')) [
  | none ↦ err no_terminator
  | some k ↦ decode_until data' offset k
]

-- `struct.pack(">I", n)` of a number below 2 ^ 32
unfoldable pub big_endian : ℕ → Bytes
big_endian n = n / 2 ^ 24 ∷ n / 2 ^ 16 % 256 ∷ n / 2 ^ 8 % 256 ∷ n % 256 ∷ []

-- `struct.pack(">i", n)`, `none` for `struct.error`
unfoldable pub pack_int : ℤ → Option Bytes
unfolding big_endian
pack_int (pos n) = if ltb n (2 ^ 31) then some (big_endian n) else none
pack_int (negsuc n) = if ltb n (2 ^ 31) then some (big_endian (2 ^ 32 - 1 - n)) else none

unfoldable pub signed : ℕ → ℤ
signed n = if ltb n (2 ^ 31) then pos n else negsuc (2 ^ 32 - 1 - n)

-- the value of four bytes; any other list is not met
unfoldable pub unpack_word : Bytes → ℤ
unfolding signed
unpack_word (a ∷ b ∷ c ∷ d ∷ []) = signed (a * 2 ^ 24 + b * 2 ^ 16 + c * 2 ^ 8 + d)
unpack_word _ = pos 0

-- `struct.unpack_from(">...", data, offset)`: the four bytes at `offset`, `none` for `struct.error`
unfoldable pub four_at : Bytes → ℕ → Option Bytes
four_at data' offset =
    if leb (offset + 4) (length data') then some (take 4 (drop offset data')) else none
