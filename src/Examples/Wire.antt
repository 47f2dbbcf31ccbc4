-- ===== src/Examples/Wire.antt =====
-- The theorems on osc.py at concrete packets.
use oscmix_desk.Common.{
  ◌≡◌, refl, arith, none, List, [], ◌∷◌, ◌++◌, length, ok, false, some, ◌↔◌, ◌≢◌, ◌+◌, All,
}
use oscmix_desk.Common.Int.{ℤ, negsuc, pos}
use oscmix_desk.Osc.Bytes.{big_endian, out_of_fuel, Text, Bytes, pack_int, decode_string}
use oscmix_desk.Osc.Bytes.Strings.{IsText, encoded, decode_string-encoded}
use oscmix_desk.Osc.Message.{Value, int, float, text, encode_osc, decode_osc}
use oscmix_desk.Osc.Message.RoundTrip.{
  CarriesAll, done, more, as_int, as_float, as_text, decode_osc-encode_osc,
}
use oscmix_desk.Osc.Bundle.{starts_with, iter_osc_messages, decode_delivery, bundle_tag}
use oscmix_desk.Osc.Bundle.Framing.{
  IsMessage, Decodes, decode_delivery_iff, iter_osc_messages_ends, iter_osc_messages_yields,
}
use oscmix_desk.Osc.Bundle.Nesting.{
  Packet, message, bundle, nil, cons, IsFramed, framed, iter_osc_messages-framed,
}
use oscmix_desk.Examples.Numbers.{codec}

-- `/mix`, with a level, a balance and a name
abbrev path : Text
path = b'/' ∷ b'm' ∷ b'i' ∷ b'x' ∷ []

abbrev tags : Text
tags = b'f' ∷ b'i' ∷ b's' ∷ []

abbrev args : List (Value ℤ)
args = float (negsuc 5) ∷ int (pos 300) ∷ text path ∷ []

path-IsText : IsText path
path-IsText = (
  (omega arith, omega arith),
  ((omega arith, omega arith), ((omega arith, omega arith), ((omega arith, omega arith), tt))),
)

six : pack_int (negsuc 5) ≡ some (255 ∷ 255 ∷ 255 ∷ 250 ∷ [])
unfolding pack_int
six = refl

-- what is read back
abbrev backs : List (Value ℤ)
backs = float (codec.unpack_float (255 ∷ 255 ∷ 255 ∷ 250 ∷ [])) ∷ int (pos 300) ∷ text path ∷ []

three_hundred : pack_int (pos 300) ≡ some (0 ∷ 0 ∷ 1 ∷ 44 ∷ [])
unfolding pack_int
three_hundred = refl

args-CarriesAll : CarriesAll codec tags args backs
args-CarriesAll =
    more (as_float (negsuc 5) _ refl six)
      (more (as_int (pos 300) _ refl three_hundred) (more (as_text path refl path-IsText) done))

decode_osc-encode_osc_example :
    (data' : Bytes) × (encode_osc codec path tags args ≡ ok data')
    × (decode_osc codec data' ≡ ok (path, tags, backs))
decode_osc-encode_osc_example =
    decode_osc-encode_osc codec path tags args backs path-IsText args-CarriesAll

-- `/ab` with no arguments
abbrev small : Bytes
small = b'/' ∷ b'a' ∷ b'b' ∷ 0 ∷ b',' ∷ 0 ∷ 0 ∷ 0 ∷ []

abbrev small_path : Text
small_path = b'/' ∷ b'a' ∷ b'b' ∷ []

small_plain : starts_with small bundle_tag ≡ false
unfolding starts_with
small_plain = refl

small-IsMessage : IsMessage small
small-IsMessage = (refl, small_plain)

abbrev time : Bytes
time = 0 ∷ 0 ∷ 0 ∷ 0 ∷ 0 ∷ 0 ∷ 0 ∷ 1 ∷ []

abbrev inner : Packet
inner = bundle time (cons (message small) nil)

inner-IsFramed : IsFramed inner
inner-IsFramed = (refl, (small-IsMessage, omega arith, omega arith, tt))

-- a bundle of a message, and of a bundle with another
abbrev nested : Packet
nested = bundle time (cons (message small) (cons inner nil))

length-inner : length (framed inner) ≡ 28
unfolding big_endian
length-inner = refl

nested-IsFramed : IsFramed nested
nested-IsFramed = (
  refl,
  (
    small-IsMessage,
    omega arith,
    omega arith,
    (inner-IsFramed, omega (arith, length-inner), omega (arith, length-inner), tt),
  ),
)

iter_osc_messages-framed_example : iter_osc_messages (framed nested) ≡ (small ∷ small ∷ [], none)
iter_osc_messages-framed_example = iter_osc_messages-framed nested nested-IsFramed

decode_string-encoded_example :
    decode_string (time ++ (encoded path ++ small)) (length time)
    ≡ ok (path, length time + length (encoded path))
decode_string-encoded_example = decode_string-encoded time small path refl path-IsText

decode_delivery_iff_example :
    (decode_delivery codec (framed nested) ≡ ok ((small_path, [], []) ∷ (small_path, [], []) ∷ []))
    ↔ (((iter_osc_messages (framed nested)).1 ≡ none)
        × Decodes codec
            (iter_osc_messages (framed nested)).0
            ((small_path, [], []) ∷ (small_path, [], []) ∷ []))
decode_delivery_iff_example =
    decode_delivery_iff codec (framed nested) ((small_path, [], []) ∷ (small_path, [], []) ∷ [])

iter_osc_messages_ends_example : (iter_osc_messages (small ++ 7 ∷ [])).1 ≢ some out_of_fuel
iter_osc_messages_ends_example = iter_osc_messages_ends (small ++ 7 ∷ [])

iter_osc_messages_yields_example : All IsMessage (iter_osc_messages (framed nested)).0
iter_osc_messages_yields_example = iter_osc_messages_yields (framed nested)
