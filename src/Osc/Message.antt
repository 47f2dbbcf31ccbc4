-- ===== src/Osc/Message.antt =====
-- src/oscmix_desk/osc.py: one message, encoded and decoded.
pub mod RoundTrip
use oscmix_desk.Common.{
  ℕ, ◌+◌, ◌≡◌, Bool, true, false, Option, none, some, List, [], ◌∷◌, ◌++◌, nat_eq, if◌then◌else◌,
  length, Result, ok, err, ◌>>=◌, ◌>>◌, require,
}
use oscmix_desk.Common.Int.{ℤ}
use oscmix_desk.Osc.Bytes.{
  Bytes, Text, OscError, truncated_message, missing_tags, truncated_arguments, trailing_data,
  argument_count, not_packable, not_convertible, unsupported_tag, osc_string, decode_string,
  pack_int, unpack_word, four_at,
}

-- `Value = Union[int, float, str]`
pub data Value (F : Type 0) : Type 0 where
  int : ℤ → Value F
  float : F → Value F
  text : Text → Value F

-- `Message = Tuple[str, str, Args]`
abbrev pub Message : Type 0 → Type 0
Message F = Text × Text × List (Value F)

-- What Python's `float()`, `int()`, `str()` and `struct` do with a float: floats are not modelled.
-- `none` is the exception.
pub record FloatCodec (F : Type 0) : Type 0 where
  pub to_float : Value F → Option F
  pub to_int : Value F → Option ℤ
  pub to_text : Value F → Text
  pub pack_float : F → Option Bytes
  pub unpack_float : Bytes → F
  pub to_float-float : (x : F) → to_float (float x) ≡ some x
  pub to_int-int : (n : ℤ) → to_int (int n) ≡ some n
  pub to_text-text : (s : Text) → to_text (text s) ≡ s
  pub pack_float-length : (x : F) (b : Bytes) → pack_float x ≡ some b → length b ≡ 4

-- An exception of Python's where the source names none of its own.
abbrev pub or_raise : {A : Type 0} → Option A → OscError → Result OscError A
or_raise none e = err e
or_raise (some a) e = ok a

-- `except (ValueError, IndexError): raise ValueError("truncated OSC message")`
abbrev truncated : {A : Type 0} → Result OscError A → Result OscError A
truncated (ok a) = ok a
truncated (err _) = err truncated_message

-- the tags behind their comma
unfoldable pub tags_of : Text → Result OscError Text
tags_of [] = err missing_tags
tags_of (c ∷ tags) = if nat_eq c b',' then ok tags else err missing_tags

module _ {F : Type 0} (codec : FloatCodec F) where
  -- one round of the loop of `encode_osc`
  unfoldable pub encode_value : ℕ → Value F → Result OscError Bytes
  encode_value tag value =
      if nat_eq tag b'f'
      then (or_raise (codec.to_float value) not_convertible >>= λ x.
          or_raise (codec.pack_float x) not_packable)
      else if nat_eq tag b'i'
      then (or_raise (codec.to_int value) not_convertible >>= λ n.
          or_raise (pack_int n) not_packable)
      else if nat_eq tag b's'
      then osc_string (codec.to_text value)
      else err (unsupported_tag tag)

  -- the loop over `zip(types, args)`
  unfoldable pub encode_values : Text → List (Value F) → Result OscError Bytes
  unfolding encode_value
  encode_values [] values = ok []
  encode_values (tag ∷ types) [] = ok []
  encode_values (tag ∷ types) (value ∷ values) = do
    head ← encode_value tag value
    rest ← encode_values types values
    ok (head ++ rest)

  -- `encode_osc`
  unfoldable pub encode_osc : Text → Text → List (Value F) → Result OscError Bytes
  unfolding encode_values
  encode_osc path types args = do
    require (nat_eq (length types) (length args)) argument_count
    path_bytes ← osc_string path
    type_bytes ← osc_string (b',' ∷ types)
    values ← encode_values types args
    ok (path_bytes ++ (type_bytes ++ values))

  -- one round of the loop of `decode_osc`
  unfoldable pub decode_value : Bytes → ℕ → ℕ → Result OscError (Value F × ℕ)
  decode_value data' tag offset =
      if nat_eq tag b'f'
      then (or_raise (four_at data' offset) truncated_arguments >>= λ b.
          ok (float (codec.unpack_float b), offset + 4))
      else if nat_eq tag b'i'
      then (or_raise (four_at data' offset) truncated_arguments >>= λ b.
          ok (int (unpack_word b), offset + 4))
      else if nat_eq tag b's'
      then (decode_string data' offset >>= λ (s, after). ok (text s, after))
      else err (unsupported_tag tag)

  unfoldable pub decode_values : Bytes → Text → ℕ → Result OscError (List (Value F) × ℕ)
  unfolding decode_value
  decode_values data' [] offset = ok ([], offset)
  decode_values data' (tag ∷ tags) offset = do
    (value, after) ← decode_value data' tag offset
    (values, stop) ← decode_values data' tags after
    ok (value ∷ values, stop)

  -- `decode_osc`
  unfoldable pub decode_osc : Bytes → Result OscError (Message F)
  unfolding tags_of decode_values
  decode_osc data' = do
    (path, offset) ← truncated (decode_string data' 0)
    (tags, start) ← truncated (decode_string data' offset)
    types ← tags_of tags
    (args, stop) ← decode_values data' types start
    require (nat_eq stop (length data')) trailing_data
    ok (path, types, args)
