-- ===== src/Examples/Numbers.antt =====
-- A concrete number type in place of Python's floats: halves, as an integer count of them.
use oscmix_desk.Common.{
  ℕ, ◌+◌, ◌-◌, ◌*◌, ◌/◌, ◌%◌, true, false, refl, sym, ◌∙◌, Option, none, some, [], ◌∷◌, leb, nat_eq,
  if◌then◌else◌,
}
use oscmix_desk.Common.Int.{ℤ, pos, negsuc, pos_part, neg_part, leb_ℤ, int_eq, int_eq_iff}
use oscmix_desk.Floats.{Floats}
use oscmix_desk.Osc.Bytes.{Text, pack_int, unpack_word}
use oscmix_desk.Osc.Bytes.Words.{length-pack_int}
use oscmix_desk.Osc.Message.{Value, int, float, text, FloatCodec}

-- `a - b`
abbrev difference : ℕ → ℕ → ℤ
difference a b = if leb b a then pos (a - b) else negsuc (b - a - 1)

abbrev add_halves : ℤ → ℤ → ℤ
add_halves a b = difference (pos_part a + pos_part b) (neg_part a + neg_part b)

abbrev opposite : ℤ → ℤ
opposite a = difference (neg_part a) (pos_part a)

abbrev magnitude : ℤ → ℕ
magnitude a = pos_part a + neg_part a

abbrev with_sign : ℤ → ℤ → ℕ → ℤ
with_sign (pos _) (pos _) n = pos n
with_sign (negsuc _) (negsuc _) n = pos n
with_sign (pos _) (negsuc _) n = difference 0 n
with_sign (negsuc _) (pos _) n = difference 0 n

abbrev floor_half : ℤ → ℤ
floor_half (pos n) = pos (n / 2)
floor_half (negsuc n) = negsuc (n / 2)

instance abbrev pub ℤ_floats : Floats ℤ
ℤ_floats = record {
  lt = λ a b. leb_ℤ (add_halves a (pos 1)) b;
  le = leb_ℤ;
  eq = int_eq;
  add = add_halves;
  sub = λ a b. add_halves a (opposite b);
  mul = λ a b. with_sign a b (magnitude a * magnitude b / 2);
  div = λ a b. with_sign a b (magnitude a * 2 / magnitude b);
  abs = λ a. pos (magnitude a);
  min = λ a b. if leb_ℤ a b then a else b;
  max = λ a b. if leb_ℤ a b then b else a;
  zero = pos 0;
  one = pos 2;
  half = pos 1;
  ten = pos 20;
  trunc = λ a. with_sign a (pos 0) (magnitude a / 2);
  floor = floor_half;
  ceil = λ a. opposite (floor_half (opposite a));
  of_bool = λ b. if b then pos 2 else pos 0;
  of_int = λ n. some (add_halves n n);
  is_finite = λ _. true;
  to_integer = λ a. if nat_eq (magnitude a % 2) 0 then some (floor_half a) else none;
  round32 = λ a. some a;
  show = λ _. [];
  is_neg_inf = λ _. false;
  isclose = λ a b _. int_eq a b;
  level_min = negsuc 129;
  level_max = pos 12;
  unlinked_gain_offset = pos 12;
  eq_sym = λ a b h. (int_eq_iff b a).1 (sym ((int_eq_iff a b).0 h));
  eq_trans = λ a b c h k. (int_eq_iff a c).1 ((int_eq_iff a b).0 h ∙ (int_eq_iff b c).0 k);
}

abbrev number_of : Value ℤ → Option ℤ
number_of (int n) = some n
number_of (float x) = some x
number_of (text _) = none

abbrev text_of : Value ℤ → Text
text_of (int _) = b'0' ∷ []
text_of (float _) = b'0' ∷ []
text_of (text s) = s

-- Floats that travel as the word that their count of halves has.
abbrev pub codec : FloatCodec ℤ
codec = record {
  to_float = number_of;
  to_int = number_of;
  to_text = text_of;
  pack_float = pack_int;
  unpack_float = unpack_word;
  to_float-float = λ x. refl;
  to_int-int = λ n. refl;
  to_text-text = λ s. refl;
  pack_float-length = length-pack_int;
}
