-- ===== src/Osc/Bundle.antt =====
-- src/oscmix_desk/osc.py: the messages of a datagram, out of its nested bundles. `pending.pop()`
-- takes from the end of a list, so the model's list of pending packets has its end first.
pub mod Framing
pub mod Nesting
use oscmix_desk.Common.{
  ℕ, zero, suc, ◌+◌, ◌%◌, Bool, true, false, not, ◌||◌, Option, none, some, List, [], ◌∷◌, ◌++◌,
  ltb, leb, nat_eq, if◌then◌else◌, length, take, drop, Result, ok, err, ◌>>=◌,
}
use oscmix_desk.Common.Int.{ℤ, pos_part}
use oscmix_desk.Osc.Bytes.{
  Bytes, OscError, unaligned_delivery, truncated_header, bad_element_size, out_of_fuel, unpack_word,
  slice,
}
use oscmix_desk.Osc.Message.{Message, FloatCodec, decode_osc}

-- `data.startswith(prefix)`
unfoldable pub starts_with : Bytes → Bytes → Bool
starts_with data' [] = true
starts_with [] (p ∷ ps) = false
starts_with (b ∷ data') (p ∷ ps) = if nat_eq b p then starts_with data' ps else false

-- `b"#bundle\x00"`
abbrev pub bundle_tag : Bytes
bundle_tag = b'#' ∷ b'b' ∷ b'u' ∷ b'n' ∷ b'd' ∷ b'l' ∷ b'e' ∷ 0 ∷ []

-- The size of the element at `offset`. A negative one counts as 0, which is refused alike.
unfoldable pub size_at : Bytes → ℕ → ℕ
size_at current offset = pos_part (unpack_word (take 4 (drop offset current)))

-- the inner loop, over the elements of one bundle
unfoldable pub bundle_elements : ℕ → Bytes → ℕ → Result OscError (List Bytes)
bundle_elements zero current offset = err out_of_fuel
bundle_elements (suc fuel) current offset =
    let size = size_at current offset in
    let start = offset + 4 in
    let more = bundle_elements fuel current (start + size) >>= λ elements.
    ok (slice current start (start + size) ∷ elements) in
    if leb start (length current)
    then (if nat_eq size 0 || (not (nat_eq (size % 4) 0) || ltb (length current) (start + size))
        then err bad_element_size
        else more)
    else ok []

-- What one round of the outer loop does with the packet that it took.
pub data Round : Type 0 where
  raises : OscError → Round
  yields : Round
  opens : List Bytes → Round

unfoldable pub opened : Result OscError (List Bytes) → Round
opened (ok elements) = opens elements
opened (err e) = raises e

unfoldable pub inspect : Bytes → Round
unfolding starts_with bundle_elements opened
inspect current =
    if not (nat_eq (length current % 4) 0)
    then raises unaligned_delivery
    else if not (starts_with current bundle_tag)
    then yields
    else if ltb (length current) 16
    then raises truncated_header
    else opened (bundle_elements (suc (length current)) current 16)

-- what the generator yields, and the exception that ends it, if one does
unfoldable pub iter_pending : ℕ → List Bytes → List Bytes × Option OscError
unfolding inspect
iter_pending zero pending = ([], some out_of_fuel)
iter_pending (suc fuel) [] = ([], none)
iter_pending (suc fuel) (current ∷ pending) = elim (inspect current) [
  | raises e ↦ ([], some e)
  | yields ↦ let (messages, ending) = iter_pending fuel pending in (current ∷ messages, ending)
  | opens elements ↦ iter_pending fuel (elements ++ pending)
]

-- `iter_osc_messages`
unfoldable pub iter_osc_messages : Bytes → List Bytes × Option OscError
unfolding iter_pending
iter_osc_messages datagram = iter_pending (length datagram + 2) (datagram ∷ [])

module _ {F : Type 0} (codec : FloatCodec F) where
  -- `tuple(...)` over the generator: each yielded packet is decoded before the next is asked for
  unfoldable pub decode_each : List Bytes → Option OscError → Result OscError (List (Message F))
  decode_each [] none = ok []
  decode_each [] (some e) = err e
  decode_each (raw ∷ rest) ending = do
    message ← decode_osc codec raw
    messages ← decode_each rest ending
    ok (message ∷ messages)

  -- `decode_delivery`
  unfoldable pub decode_delivery : Bytes → Result OscError (List (Message F))
  unfolding decode_each iter_osc_messages
  decode_delivery data' =
      let (messages, ending) = iter_osc_messages data' in decode_each messages ending
