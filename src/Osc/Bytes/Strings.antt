-- ===== src/Osc/Bytes/Strings.antt =====
-- src/oscmix_desk/osc.py: an OSC string is read back where it was written.
use oscmix_desk.Common.{
  ℕ, zero, suc, ◌+◌, ◌%◌, ◌≤◌, ◌<◌, ◌≡◌, refl, ap, sym, ◌∙◌, true, some, List, [], ◌∷◌, ◌++◌, arith,
  length, drop, replicate, All, length-append, length-replicate, drop-append, take-le, ok, le→leb,
}
use mathlib.Core.List.{append_assoc}
use oscmix_desk.Osc.Bytes.{
  Bytes, Text, is_ascii, osc_string, index_zero, all_zero, decode_until, decode_string, pad, slice,
}

-- An ASCII text with no NUL in it.
abbrev pub IsText : Text → Type 0
IsText s = All (λ c. (0 < c) × (c < 128)) s

-- The bytes of a text: a terminator, and zeros up to a multiple of four.
abbrev pub encoded : Text → Bytes
encoded s = s ++ 0 ∷ replicate (pad (length s + 1)) 0

is_ascii_lem : (s : Text) → IsText s → is_ascii s ≡ true
unfolding is_ascii
is_ascii_lem [] h = refl
is_ascii_lem (c ∷ s) h = ground (arith, is_ascii_lem s h.1)

snoc_append {ℓ} : {A : Type ℓ} (xs ys : List A) (a : A) → (xs ++ a ∷ []) ++ ys ≡ xs ++ a ∷ ys
snoc_append xs ys a = append_assoc xs (a ∷ []) ys

pub osc_string-encoded : (s : Text) → IsText s → osc_string s ≡ ok (encoded s)
unfolding osc_string
osc_string-encoded s h =
    rw (is_ascii_lem s h) (rw (length-append s (0 ∷ [])) (ap ok (snoc_append s _ 0)))

pub length-encoded : (s : Text) → length (encoded s) ≡ length s + 1 + pad (length s + 1)
length-encoded s =
    length-append s _ ∙ omega (arith, length-replicate {A = ℕ} (pad (length s + 1)) 0)

pub length-encoded_aligned : (s : Text) → length (encoded s) % 4 ≡ 0
length-encoded_aligned s = omega (arith, length-encoded s)

index_zero-text :
    (s : Text) (rest : Bytes) → IsText s → index_zero (s ++ 0 ∷ rest) ≡ some (length s)
unfolding index_zero
index_zero-text [] rest h = refl
index_zero-text (c ∷ s) rest h = ground (arith, index_zero-text s rest h.1)

all_zero-replicate : (n : ℕ) → all_zero (replicate n 0) ≡ true
unfolding all_zero
all_zero-replicate zero = refl
all_zero-replicate (suc n) = all_zero-replicate n

pub slice-append :
    (xs mid ys : Bytes) (i j : ℕ)
    → i ≡ length xs
    → j ≡ i + length mid
    → slice (xs ++ (mid ++ ys)) i j ≡ mid
slice-append xs mid ys i j p q =
    rw p (rw (drop-append xs (mid ++ ys)) (take-le mid ys _ (omega arith)))

decode_until-ok :
    (data' : Bytes) (offset k n : ℕ) (s : Text)
    → slice data' offset (offset + k) ≡ s
    → is_ascii s ≡ true
    → offset + k + 1 + pad (offset + k + 1) ≤ length data'
    → slice data' (offset + k + 1) (offset + k + 1 + pad (offset + k + 1)) ≡ replicate n 0
    → decode_until data' offset k ≡ ok (s, offset + k + 1 + pad (offset + k + 1))
unfolding decode_until
decode_until-ok data' offset k n s value ascii fits zeros =
    rw (value, ascii, zeros, all_zero-replicate n, le→leb _ _ fits)

module _ (front rest : Bytes) (s : Text) (aligned : length front % 4 ≡ 0) (h : IsText s) where
  abbrev found : Bytes
  found = front ++ (encoded s ++ rest)

  abbrev zeros : Bytes
  zeros = replicate (pad (length s + 1)) 0

  stop_lem :
      length front + length s + 1 + pad (length front + length s + 1)
      ≡ length front + length (encoded s)
  stop_lem = omega (arith, length-encoded s)

  found_text : found ≡ front ++ (s ++ (0 ∷ zeros ++ rest))
  found_text = ap (λ x. front ++ x) (append_assoc s (0 ∷ zeros) rest)

  found-zeros : found ≡ (front ++ (s ++ 0 ∷ [])) ++ (zeros ++ rest)
  found-zeros =
      found_text
      ∙ (ap (λ x. front ++ x) (sym (append_assoc s (0 ∷ []) (zeros ++ rest)))
          ∙ sym (append_assoc front (s ++ 0 ∷ []) (zeros ++ rest)))

  value_slice : slice found (length front) (length front + length s) ≡ s
  value_slice = rw found_text (slice-append front s _ _ _ refl refl)

  zeros-slice :
      slice found
        (length front + length s + 1)
        (length front + length s + 1 + pad (length front + length s + 1))
      ≡ zeros
  zeros-slice = rw found-zeros (
      slice-append (front ++ (s ++ 0 ∷ [])) zeros rest _ _
        (omega (arith, length-append front (s ++ 0 ∷ []), length-append s (0 ∷ [])))
        (omega (arith, length-replicate {0} {A = ℕ} (pad (length s + 1)) 0)))

  found_fits : length front + length s + 1 + pad (length front + length s + 1) ≤ length found
  found_fits =
      omega
        (arith, stop_lem, length-append front (encoded s ++ rest), length-append (encoded s) rest)

  found_index : index_zero (drop (length front) found) ≡ some (length s)
  found_index =
      rw (drop-append front (encoded s ++ rest))
        (rw (append_assoc s (0 ∷ zeros) rest) (index_zero-text s (zeros ++ rest) h))

  -- A padded ASCII text without NUL is read back at the aligned offset where it was written, and the
  -- offset behind it is returned.
  pub decode_string-encoded :
      decode_string found (length front) ≡ ok (s, length front + length (encoded s))
  unfolding decode_string
  decode_string-encoded =
      rw (found_index, decode_string)
        (decode_until-ok found (length front) (length s) (pad (length s + 1)) s value_slice
            (is_ascii_lem s h) found_fits zeros-slice
          ∙ ap (λ (k : ℕ). ok (s, k)) stop_lem)
