-- ===== src/Paths.antt =====
-- The OSC paths that src/oscmix_desk/*.py formats and takes apart, as the list of their segments.
-- `"/mix/%d/%s/%d" % (1, "input", 3)` is `word "mix" ∷ num 1 ∷ word "input" ∷ num 3 ∷ []`: a
-- segment that is a decimal number is that number, written without leading zeros.
use Prim.Native.Char.{code}
use oscmix_desk.Common.{
  ℕ, ◌↔◌, ◌≡◌, ap, Bool, true, false, ◌||◌, ◌&&◌, List, [], ◌∷◌, ◌++◌, String, ltb, nat_eq,
  nat_eq_iff, arith, Eq, ◌==◌, String_eq,
}
use oscmix_desk.Common.Decimal.{decimal}

pub data Segment : Type 0 where
  word : String → Segment
  num : ℕ → Segment

abbrev pub segment_beq : Segment → Segment → Bool
segment_beq (word s) (word t) = s == t
segment_beq (num m) (num n) = nat_eq m n
segment_beq (word _) (num _) = false
segment_beq (num _) (word _) = false

pub segment_beq_iff : (a b : Segment) → (segment_beq a b ≡ true) ↔ (a ≡ b)
segment_beq_iff (word s) (word t) =
    (λ h. ap word ((String_eq.beq_iff s t).0 h), λ h. (String_eq.beq_iff s t).1 (cc))
segment_beq_iff (num m) (num n) = ground (arith, nat_eq_iff m n)
segment_beq_iff (word _) (num _) = ground arith
segment_beq_iff (num _) (word _) = ground arith

instance abbrev pub Segment_eq : Eq Segment
Segment_eq = record { beq = segment_beq; beq_iff = segment_beq_iff }

abbrev pub OscPath : Type 0
OscPath = List Segment

abbrev pub codes : String → List ℕ
codes String.[] = []
codes (String.◌∷◌ c s) = code c ∷ codes s

-- the text of a path
unfoldable pub path_text : OscPath → List ℕ
path_text [] = []
path_text (word s ∷ rest) = b'/' ∷ codes s ++ path_text rest
path_text (num n ∷ rest) = b'/' ∷ decimal n ++ path_text rest

-- Python's order of texts
unfoldable pub text_le : List ℕ → List ℕ → Bool
text_le [] t = true
text_le (c ∷ s) [] = false
text_le (c ∷ s) (d ∷ t) = ltb c d || (nat_eq c d && text_le s t)

unfoldable pub path_le : OscPath → OscPath → Bool
unfolding path_text text_le
path_le p q = text_le (path_text p) (path_text q)

-- `path.endswith("/" + s)`
unfoldable pub ends_with : String → OscPath → Bool
ends_with s [] = false
ends_with s (num n ∷ []) = false
ends_with s (word t ∷ []) = t == s
ends_with s (_ ∷ rest) = ends_with s rest

-- `path.startswith("/" + s + "/")`
unfoldable pub starts_under : String → OscPath → Bool
starts_under s [] = false
starts_under s (num n ∷ _) = false
starts_under s (word t ∷ []) = false
starts_under s (word t ∷ _ ∷ _) = t == s
