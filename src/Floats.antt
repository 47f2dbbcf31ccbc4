-- ===== src/Floats.antt =====
-- Python's floats, as far as a desk uses them: they are not modelled, so their operations are a
-- parameter, with the laws of IEEE comparison that the code relies on.
use oscmix_desk.Common.{◌≡◌, ℕ, Bool, true, Option, List}
use oscmix_desk.Common.Int.{ℤ}

pub record Floats (F : Type 0) : Type 0 where
  pub lt : F → F → Bool
  pub le : F → F → Bool
  pub eq : F → F → Bool
  pub add : F → F → F
  pub sub : F → F → F
  pub mul : F → F → F
  pub div : F → F → F
  pub abs : F → F
  -- `min(a, b)`, `max(a, b)`
  pub min : F → F → F
  pub max : F → F → F
  pub zero : F
  pub one : F
  pub half : F
  pub ten : F
  -- `math.trunc`, `math.floor`, `math.ceil`
  pub trunc : F → ℤ
  pub floor : F → ℤ
  pub ceil : F → ℤ
  -- `float(b)`, and `float(n)`, `none` for `OverflowError`
  pub of_bool : Bool → F
  pub of_int : ℤ → Option F
  -- `math.isfinite`
  pub is_finite : F → Bool
  -- `int(x)` if `x.is_integer()`
  pub to_integer : F → Option ℤ
  -- `struct.unpack("!f", struct.pack("!f", x))`, `none` for an exception
  pub round32 : F → Option F
  -- `str(x)`, as code points
  pub show : F → List ℕ
  -- `x == -math.inf`
  pub is_neg_inf : F → Bool
  -- `math.isclose(reported, expected, rel_tol=2e-7, abs_tol=scale * 1e-4)`
  pub isclose : F → F → F → Bool
  -- `LEVEL_MIN`, `LEVEL_MAX` and `UNLINKED_GAIN_OFFSET` of constants.py
  pub level_min : F
  pub level_max : F
  pub unlinked_gain_offset : F
  pub eq_sym : (a b : F) → eq a b ≡ true → eq b a ≡ true
  pub eq_trans : (a b c : F) → eq a b ≡ true → eq b c ≡ true → eq a c ≡ true
