-- ===== src/Numeric.antt =====
-- src/oscmix_desk/numeric.py: the numeric contracts of a register. Floats are the parameter
-- `Floats`; the exceptions are one type, since every caller catches all of them alike.
use oscmix_desk.Common.{
  ℕ, suc, ◌^◌, ◌-◌, Bool, true, false, not, ◌&&◌, ◌||◌, Option, none, some, List, [], ◌∷◌, nat_eq,
  if◌then◌else◌, Result, ok, err, ◌>>=◌, ◌>>◌, refuse, require,
}
use oscmix_desk.Common.Int.{ℤ, pos, negsuc, leb_ℤ, ℤ_eq}
use oscmix_desk.Common.Sets.{contains}
use oscmix_desk.Osc.Message.{Value, int, float, text}
use oscmix_desk.Floats.{Floats}
use oscmix_desk.Registers.{Register, Domain, is_bool, is_enum, is_number}

-- `TypeError`, `ValueError`
pub data NumberError : Type 0 where
  not_numeric not_finite not_int32 not_float32 not_int16 out_of_range not_a_report : NumberError

-- What a setting or a report may hold: Python's `bool` too.
pub data PyValue (F : Type 0) : Type 0 where
  boolean : Bool → PyValue F
  value : Value F → PyValue F

abbrev pub is_boolean : {F : Type 0} → PyValue F → Bool
is_boolean (boolean _) = true
is_boolean (value _) = false

abbrev pub or_number : {A : Type 0} → Option A → NumberError → Result NumberError A
or_number none e = err e
or_number (some a) e = ok a

abbrev pub domain_is : Domain → Option Domain → Bool
domain_is is_bool (some is_bool) = true
domain_is is_enum (some is_enum) = true
domain_is is_number (some is_number) = true
domain_is _ _ = false

abbrev pub is_some {ℓ} : {A : Type ℓ} → Option A → Bool
is_some none = false
is_some (some _) = true

-- `register.tags.startswith(tag)`
abbrev pub tags_start : ℕ → List ℕ → Bool
tags_start tag [] = false
tags_start tag (t ∷ _) = nat_eq t tag

-- the positions of the choices, for an enum whose values are its positions
unfoldable pub positions : ℕ → List (List ℕ) → List ℤ
positions n [] = []
positions n (_ ∷ choices) = pos n ∷ positions (suc n) choices

module _ {F : Type 0} ⦃fl : Floats F⦄ where
  -- `got == -math.inf`
  abbrev is_neg_inf : PyValue F → Bool
  is_neg_inf (value (float x)) = fl.is_neg_inf x
  is_neg_inf _ = false

  -- `float(value)` and `math.isfinite`
  unfoldable pub finite : PyValue F → Result NumberError F
  finite (boolean b) = ok (fl.of_bool b)
  finite (value (text s)) = err not_numeric
  finite (value (int n)) = do
    number ← or_number (fl.of_int n) not_finite
    require (fl.is_finite number) not_finite
    ok number
  finite (value (float x)) = do require (fl.is_finite x) not_finite; ok x

  unfoldable pub integer : PyValue F → Result NumberError ℤ
  unfolding finite
  integer v = do
    number ← finite v
    n ← or_number (fl.to_integer number) not_int32
    require (leb_ℤ (negsuc (2 ^ 31 - 1)) n && leb_ℤ n (pos (2 ^ 31 - 1))) not_int32
    ok n

  -- the wire precision of a float
  unfoldable pub float32_of : F → Result NumberError F
  float32_of number = do
    result ← or_number (fl.round32 number) not_float32
    require (fl.is_finite result) not_float32
    ok result

  unfoldable pub float32 : PyValue F → Result NumberError F
  unfolding finite float32_of
  float32 v = finite v >>= float32_of

  -- the backend's conversion of a scaled value, before the 16-bit test
  unfoldable pub scaled_value : PyValue F → F → Bool → Result NumberError ℤ
  unfolding float32 float32_of
  scaled_value v scale truncates = do
    wire ← float32 v
    if truncates then (do tenths ← float32_of (fl.mul wire fl.ten); ok (fl.trunc tenths)) else (do
      by ← float32_of scale
      quotient ← float32_of (fl.div wire by)
      ok (
          if fl.le fl.zero quotient
          then fl.floor (fl.add quotient fl.half)
          else fl.ceil (fl.sub quotient fl.half)))

  unfoldable pub raw_value : PyValue F → Register F → Result NumberError ℤ
  unfolding scaled_value integer
  raw_value v register = do
    refuse (domain_is is_number register.domain && is_boolean v) not_numeric
    raw ← elim register.scale [
      | none ↦ integer v
      | some scale ↦ scaled_value v scale register.truncates
    ]
    require (leb_ℤ (negsuc 32767) raw && leb_ℤ raw (pos 32767)) not_int16
    ok raw

  unfoldable pub expected_report : PyValue F → Register F → Result NumberError F
  unfolding raw_value float32_of
  expected_report v register = do
    raw ← raw_value v register
    number ← or_number (fl.of_int raw) not_finite
    if register.truncates then float32_of (fl.div number fl.ten) else (do
      by ← float32_of (elim register.scale [ none ↦ fl.one | some scale ↦ scale ])
      float32_of (fl.mul number by))

  -- the limit that a bound sets for a report: the bound as the backend reports it, if that is wider
  unfoldable pub report_limit : F → Bool → Register F → Bool → Result NumberError F
  unfolding expected_report
  report_limit bound lower register reported =
      if reported && tags_start b'f' register.tags
      then (do
        limit ← float32_of bound
        elim register.scale [
          | none ↦ ok limit
          | some scale ↦ (do
            encoded ← expected_report (value (float bound)) register
            ok (if lower then fl.min limit encoded else fl.max limit encoded))
        ])
      else ok bound

  unfoldable pub check_bound :
      F → Option F → Bool → Register F → Bool → Result NumberError (Unit {0})
  unfolding report_limit
  check_bound number none lower register reported = ok tt
  check_bound number (some bound) lower register reported = do
    limit ← report_limit bound lower register reported
    refuse (if lower then fl.lt number limit else fl.lt limit number) out_of_range

  unfoldable pub number_value : PyValue F → Register F → Bool → Result NumberError F
  unfolding finite raw_value float32_of check_bound
  number_value v register reported = do
    refuse (is_boolean v) not_numeric
    number ← finite v
    _ ←
        (if tags_start b'i' register.tags || is_some register.scale
          then (raw_value (value (float number)) register >>= λ _. ok tt)
          else (float32_of number >>= λ _. ok tt))
    _ ← check_bound number register.lo true register reported
    _ ← check_bound number register.hi false register reported
    ok number

  unfoldable pub equal_mix : F → PyValue F → Result NumberError Bool
  unfolding finite
  equal_mix wanted got =
      if fl.le wanted fl.level_min
      then ok (is_neg_inf got)
      else (do reported ← finite got; ok (fl.le (fl.abs (fl.sub wanted reported)) fl.half))

  -- the comparison that no register's contract decides
  unfoldable pub equal_plain : F → F → Option F → Result NumberError Bool
  unfolding float32_of
  equal_plain wanted reported (some tolerance) =
      ok (fl.le (fl.abs (fl.sub wanted reported)) tolerance)
  equal_plain wanted reported none = do
    a ← float32_of wanted
    b ← float32_of reported
    ok (fl.eq a b)

  unfoldable pub equal_scalar :
      PyValue F → PyValue F → Option (Register F) → Option F → Result NumberError Bool
  unfolding finite number_value expected_report equal_plain
  equal_scalar want got none tolerance = do
    wanted ← finite want
    reported ← finite got
    equal_plain wanted reported tolerance
  equal_scalar want got (some register) tolerance = do
    wanted ← finite want
    reported ← finite got
    if domain_is is_number register.domain
        then (do
          _ ← number_value want register false
          _ ← number_value got register true
          elim register.scale [
            | none ↦ equal_plain wanted reported tolerance
            | some scale ↦ (do
              expected ← expected_report (value (float wanted)) register
              ok (fl.isclose reported expected scale))
          ])
        else equal_plain wanted reported tolerance

  unfoldable pub equal_float :
      PyValue F → PyValue F → Option (Register F) → Option F → Result NumberError Bool
  unfolding finite equal_mix equal_scalar
  equal_float want got none tolerance = equal_scalar want got none tolerance
  equal_float want got (some register) tolerance =
      if register.mix_level
      then (finite want >>= λ wanted. equal_mix wanted got)
      else equal_scalar want got (some register) tolerance

  unfoldable pub report_value : PyValue F → Register F → Result NumberError (Unit {0})
  unfolding number_value integer
  report_value v register =
      if domain_is is_number register.domain
      then (number_value v register true >>= λ _. ok tt)
      else (do
        result ← integer v
        refuse (domain_is is_bool register.domain && not (contains (pos 0 ∷ pos 1 ∷ []) result))
            not_a_report
        require
            (not (domain_is is_enum register.domain)
              || contains
                  (elim register.values [ [] ↦ positions 0 register.choices | v ∷ vs ↦ v ∷ vs ])
                  result)
            not_a_report)
