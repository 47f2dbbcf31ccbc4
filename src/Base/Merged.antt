-- ===== src/Base/Merged.antt =====
-- src/oscmix_desk/base.py: what a link of a pair would merge that the desk keeps apart.
use oscmix_desk.Common.{
  ℕ, ◌+◌, Bool, true, false, not, ◌&&◌, ◌||◌, Option, none, some, List, [], ◌∷◌, ◌++◌, nat_eq,
  String, if◌then◌else◌, ◌==◌, ℕ_eq, String_eq, pair_eq,
}
use oscmix_desk.Common.Int.{ℤ, pos, int_eq}
use oscmix_desk.Common.Sets.{List_eq, list_beq}
use oscmix_desk.Common.Dict.{Dict, lookup, insert, keys}
use oscmix_desk.Floats.{Floats}
use oscmix_desk.Osc.Message.{int, float, text}
use oscmix_desk.Numeric.{PyValue, boolean, value}
use oscmix_desk.Model.{Kind, Kind_eq}
use oscmix_desk.Model.Config.{ChannelSetting}

module _ {F : Type 0} where
  -- the options of one channel, the last setting of each
  unfoldable pub options_at :
      List (ChannelSetting F)
      → Kind
      → ℕ
      → Dict (List String) (PyValue F)
      → Dict (List String) (PyValue F)
  unfolding insert
  options_at [] family channel options = options
  options_at (s ∷ settings) family channel options =
      let here = options_at settings family channel (insert s.option s.value options) in
      let past = options_at settings family channel options in
      if s.family == family && nat_eq s.channel channel then here else past

abbrev as_int : Bool → ℤ
as_int b = if b then pos 1 else pos 0

module _ {F : Type 0} ⦃fl : Floats F⦄ where
  -- the integer that a value equals
  abbrev whole : PyValue F → Option ℤ
  whole (boolean b) = some (as_int b)
  whole (value (int n)) = some n
  whole (value (float x)) = fl.to_integer x
  whole (value (text s)) = none

  -- `==` of Python's values: an integer and a float are compared exactly
  abbrev equal_values : PyValue F → PyValue F → Bool
  equal_values (value (text s)) (value (text t)) = list_beq s t
  equal_values (value (float x)) (value (float y)) = fl.eq x y
  equal_values a b = elim (whole a) [
    | none ↦ false
    | some m ↦ elim (whole b) [ none ↦ false | some n ↦ int_eq m n ]
  ]

  -- `odd.get(option) == even.get(option)`
  abbrev equal_options : Option (PyValue F) → Option (PyValue F) → Bool
  equal_options none none = true
  equal_options (some a) (some b) = equal_values a b
  equal_options _ _ = false

  unfoldable pub any_apart :
      Dict (List String) (PyValue F) → Dict (List String) (PyValue F) → List (List String) → Bool
  unfolding lookup
  any_apart odd even [] = false
  any_apart odd even (option ∷ options) =
      not (equal_options (lookup option odd) (lookup option even)) || any_apart odd even options

  -- `_merged`, whether there is such an option
  unfoldable pub merged : List (ChannelSetting F) → Kind → ℕ → Bool
  unfolding options_at any_apart
  merged settings family left =
      let odd = options_at settings family left [] in
      let even = options_at settings family (left + 1) [] in
      any_apart odd even (keys odd ++ keys even)
