-- ===== src/Osc/Message/RoundTrip.antt =====
-- src/oscmix_desk/osc.py: a message that is encoded is decoded as it was.
use oscmix_desk.Common.{
  ℕ, ◌+◌, ◌%◌, ◌<◌, ◌≡◌, refl, ap, ◌∙◌, some, List, [], ◌∷◌, ◌++◌, arith, length, nat_eq_iff,
  length-append, ok,
}
use mathlib.Core.List.{append_assoc}
use oscmix_desk.Common.Int.{ℤ}
use oscmix_desk.Osc.Bytes.{Bytes, Text, decode_string, pack_int}
use oscmix_desk.Osc.Bytes.Strings.{
  IsText, encoded, osc_string-encoded, length-encoded_aligned, decode_string-encoded,
}
use oscmix_desk.Osc.Bytes.Words.{unpack_word-pack_int, length-pack_int, four_at-append}
use oscmix_desk.Osc.Message.{
  Value, int, float, text, FloatCodec, encode_value, encode_values, encode_osc, decode_value,
  decode_values, decode_osc,
}

module _ {F : Type 0} (codec : FloatCodec F) where
  -- The tag says what the value is, and what is read back for it: the same Int32; the same ASCII
  -- text, which has no NUL; and for a float that packs, the Float32 that it is rounded to.
  pub data Carries (tag : ℕ) : Value F → Value F → Type 0 where
    as_int : (n : ℤ) (b : Bytes) → tag ≡ b'i' → pack_int n ≡ some b → Carries tag (int n) (int n)
    as_float :
        (x : F) (b : Bytes)
        → tag ≡ b'f'
        → codec.pack_float x ≡ some b
        → Carries tag (float x) (float (codec.unpack_float b))
    as_text : (s : Text) → tag ≡ b's' → IsText s → Carries tag (text s) (text s)

  -- One tag for each value, and one value read back.
  pub data CarriesAll : Text → List (Value F) → List (Value F) → Type 0 where
    done : CarriesAll [] [] []
    more :
        {tag : ℕ} {tags : Text} {value back : Value F} {values backs : List (Value F)}
        → Carries tag value back
        → CarriesAll tags values backs
        → CarriesAll (tag ∷ tags) (value ∷ values) (back ∷ backs)

  record WrittenValue (tag : ℕ) (value back : Value F) : Type 0 where
    out : Bytes
    encodes : encode_value codec tag value ≡ ok out
    aligned : length out % 4 ≡ 0
    decodes :
        (front rest : Bytes)
        → length front % 4 ≡ 0
        → decode_value codec (front ++ (out ++ rest)) tag (length front)
          ≡ ok (back, length front + length out)

  record WrittenValues (tags : Text) (values backs : List (Value F)) : Type 0 where
    out : Bytes
    encodes : encode_values codec tags values ≡ ok out
    decodes :
        (front : Bytes)
        → length front % 4 ≡ 0
        → decode_values codec (front ++ out) tags (length front)
          ≡ ok (backs, length front + length out)

  write_value :
      {tag : ℕ} {value back : Value F} → Carries tag value back → WrittenValue tag value back
  unfolding encode_value decode_value
  write_value (as_int n b t p) = record {
    out = b;
    encodes = rw (t, codec.to_int-int n, p);
    aligned = rw (length-pack_int n b p);
    decodes = λ front rest a. rw t (
        rw (four_at-append front b rest (length-pack_int n b p))
          (rw (unpack_word-pack_int n b p) (rw (length-pack_int n b p))));
  }
  write_value (as_float x b t p) = record {
    out = b;
    encodes = rw (t, codec.to_float-float x, p);
    aligned = rw (codec.pack_float-length x b p);
    decodes = λ front rest a. rw t (
        rw (four_at-append front b rest (codec.pack_float-length x b p))
          (rw (codec.pack_float-length x b p)));
  }
  write_value (as_text s t h) = record {
    out = encoded s;
    encodes = rw (t, codec.to_text-text s) (osc_string-encoded s h);
    aligned = length-encoded_aligned s;
    decodes = λ front rest a. rw t (rw (decode_string-encoded front rest s a h));
  }

  decode_more :
      (front : Bytes) (tag : ℕ) (tags : Text) (value back : Value F) (values backs : List (Value F))
      (w : WrittenValue tag value back) (ws : WrittenValues tags values backs)
      → length front % 4 ≡ 0
      → decode_values codec (front ++ (w.out ++ ws.out)) (tag ∷ tags) (length front)
        ≡ ok (back ∷ backs, length front + length (w.out ++ ws.out))
  unfolding decode_values
  decode_more front tag tags value back values backs w ws a =
      let split : length (front ++ w.out) ≡ length front + length w.out =
        length-append front w.out in
      let joined : (front ++ w.out) ++ ws.out ≡ front ++ (w.out ++ ws.out) =
        append_assoc front w.out ws.out in
      let total : length front + length w.out + length ws.out
          ≡ length front + length (w.out ++ ws.out) =
        omega (arith, length-append w.out ws.out) in
      let rest = ws.decodes (front ++ w.out) (omega (arith, w.aligned)) in
      rw (w.decodes front ws.out a)
        (rw (rw (joined, split) at rest) (ap (λ (k : ℕ). ok (back ∷ backs, k)) total))

  write_values :
      {tags : Text} {values backs : List (Value F)}
      → CarriesAll tags values backs
      → WrittenValues tags values backs
  unfolding encode_values decode_values
  write_values done = record {
    out = [];
    encodes = refl;
    decodes = λ front a. ap (λ (k : ℕ). ok ([], k)) (omega arith);
  }
  write_values (more {tag} {tags} {value} {back} {values} {backs} c cs) =
      let w : WrittenValue tag value back = write_value c in
      let ws : WrittenValues tags values backs = write_values cs in
      record {
        out = w.out ++ ws.out;
        encodes = rw w.encodes (rw ws.encodes);
        decodes = λ front a. decode_more front tag tags value back values backs w ws a;
      }

  tag_IsText : {tag : ℕ} {value back : Value F} → Carries tag value back → (0 < tag) × (tag < 128)
  tag_IsText (as_int n b t p) = omega arith
  tag_IsText (as_float x b t p) = omega arith
  tag_IsText (as_text s t h) = omega arith

  tags_IsText :
      {tags : Text} {values backs : List (Value F)} → CarriesAll tags values backs → IsText tags
  tags_IsText done = tt
  tags_IsText (more c cs) = (tag_IsText c, tags_IsText cs)

  length-CarriesAll :
      {tags : Text} {values backs : List (Value F)}
      → CarriesAll tags values backs
      → length tags ≡ length values
  length-CarriesAll done = refl
  length-CarriesAll (more c cs) = omega (arith, length-CarriesAll cs)

  module _ (path types : Text) (args backs : List (Value F)) (p : IsText path)
      (c : CarriesAll types args backs) where
    written : WrittenValues types args backs
    written = write_values c

    abbrev tags : Text
    tags = b',' ∷ types

    tags-IsText : IsText tags
    tags-IsText = (omega arith, tags_IsText c)

    abbrev packet : Bytes
    packet = encoded path ++ (encoded tags ++ written.out)

    abbrev args_start : ℕ
    args_start = length (encoded path) + length (encoded tags)

    encode_packet : encode_osc codec path types args ≡ ok packet
    unfolding encode_osc
    encode_packet = rw ((nat_eq_iff (length types) (length args)).1 (length-CarriesAll c)) (
        rw (osc_string-encoded path p)
          (rw (osc_string-encoded tags tags-IsText) (rw written.encodes)))

    path_read : decode_string packet 0 ≡ ok (path, length (encoded path))
    path_read =
        decode_string-encoded [] (encoded tags ++ written.out) path refl p
        ∙ ap (λ (k : ℕ). ok (path, k)) (omega arith)

    tags_read : decode_string packet (length (encoded path)) ≡ ok (tags, args_start)
    tags_read =
        decode_string-encoded (encoded path) written.out tags (length-encoded_aligned path)
          tags-IsText

    args_read : decode_values codec packet types args_start ≡ ok (backs, length packet)
    args_read =
        let start : length (encoded path ++ encoded tags) ≡ args_start =
          length-append (encoded path) (encoded tags) in
        let aligned : length (encoded path ++ encoded tags) % 4 ≡ 0 =
          omega (arith, start, length-encoded_aligned path, length-encoded_aligned tags) in
        let total : args_start + length written.out ≡ length packet = omega (
          arith,
          length-append (encoded path) (encoded tags ++ written.out),
          length-append (encoded tags) written.out,
        ) in
        (rw (append_assoc (encoded path) (encoded tags) written.out, start) at
          (written.decodes (encoded path ++ encoded tags) aligned))
        ∙ ap (λ (k : ℕ). ok (backs, k)) total

    decode_packet : decode_osc codec packet ≡ ok (path, types, backs)
    unfolding decode_osc
    decode_packet =
        rw path_read
          (rw tags_read (rw args_read (rw ((nat_eq_iff (length packet) (length packet)).1 refl))))

  -- A message is encoded if its path is ASCII text without a NUL and each argument fits its tag: an
  -- integer within an Int32, a text like the path, or a float that packs. Decoding the bytes gives
  -- the same path, tags, integers and texts, and for each float the one that its bytes unpack to.
  pub decode_osc-encode_osc :
      (path types : Text) (args backs : List (Value F))
      → IsText path
      → CarriesAll types args backs
      → (data' : Bytes) × (encode_osc codec path types args ≡ ok data')
        × (decode_osc codec data' ≡ ok (path, types, backs))
  decode_osc-encode_osc path types args backs p c = (
    packet path types args backs p c,
    encode_packet path types args backs p c,
    decode_packet path types args backs p c,
  )
