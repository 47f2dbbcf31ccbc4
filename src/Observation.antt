-- ===== src/Observation.antt =====
-- src/oscmix_desk/observation.py: the last decoded report of each register that a read-back
-- expects. A set of paths is the list of its elements, without repetitions.
pub mod Verdicts
pub mod Complete
use oscmix_desk.Common.{
  ℕ, suc, Bool, true, false, not, ◌&&◌, ◌||◌, Option, none, some, List, [], ◌∷◌, nat_eq, ltb,
  if◌then◌else◌, Result, ok, err, ◌>>=◌, ◌>>◌, length, ℕ_eq,
}
use oscmix_desk.Common.Int.{ℤ, pos, negsuc, leb_ℤ, ℤ_eq}
use oscmix_desk.Common.Sets.{contains, add, discard, difference, List_eq}
use oscmix_desk.Common.Dict.{lookup, insert, keys}
use oscmix_desk.Floats.{Floats}
use oscmix_desk.Osc.Message.{Value, int, float, text}
use oscmix_desk.Osc.Bundle.{starts_with}
use oscmix_desk.Numeric.{NumberError, PyValue, value, integer, float32, report_value, is_some}
use oscmix_desk.Paths.{OscPath, Segment_eq, ends_with}
use oscmix_desk.Registers.{
  Device, Register, VerifyClass, verifiable, write_only, reestablished, register_at, has_domain,
}
use oscmix_desk.Autogain.{Report, Reports, flag_value}
use oscmix_desk.Reconcile.Compare.{matches}

-- `Observation`
pub record Observation (F : Type 0) : Type 0 where
  pub expected : Reports F
  pub device : Option (Device F)
  pub dependency_paths : List OscPath
  pub noted : List OscPath
  pub latest : Reports F
  pub confirmed : List OscPath
  pub mismatched : List OscPath
  pub invalid : List OscPath

-- What one report says of the register that it names.
pub data Verdict : Type 0 where
  confirms contradicts malformed : Verdict

abbrev is_verifiable : VerifyClass → Bool
is_verifiable verifiable = true
is_verifiable write_only = false
is_verifiable reestablished = false

-- `except (TypeError, ValueError, OverflowError): return False`
abbrev or_invalid : {E : Type 0} → Result E Bool → Bool
or_invalid (ok b) = b
or_invalid (err _) = false

module _ {F : Type 0} where
  -- `Observation(expected, device, dependency_paths, noted)`
  unfoldable pub observation :
      Reports F → Option (Device F) → List OscPath → List OscPath → Observation F
  observation expected device dependency_paths noted = record {
    expected = expected;
    device = device;
    dependency_paths = dependency_paths;
    noted = noted;
    latest = [];
    confirmed = [];
    mismatched = [];
    invalid = [];
  }

  -- a settable register that the device is declared never to report
  unfoldable pub blind_register : Option (Register F) → Bool
  blind_register none = false
  blind_register (some r) = not (is_verifiable r.verify) && has_domain r

  abbrev is_pan : Value F → Bool
  is_pan (int n) = leb_ℤ (negsuc 99) n && leb_ℤ n (pos 100)
  is_pan _ = false

module _ {F : Type 0} ⦃fl : Floats F⦄ where
  abbrev is_minus_inf : Value F → Bool
  is_minus_inf (float x) = fl.is_neg_inf x
  is_minus_inf _ = false

  -- the test of an argument by its tag
  unfoldable pub valid_tag : OscPath → ℕ → Value F → Result NumberError Bool
  unfolding integer float32
  valid_tag path tag v =
      if nat_eq tag b'i'
      then (do
        number ← integer (value v)
        ok (not (ends_with "stereo" path && not (contains (pos 0 ∷ pos 1 ∷ []) number))))
      else if nat_eq tag b'f'
      then (do _ ← float32 (value v); ok true)
      else ok false

  -- one round of the loop of `_valid`
  unfoldable pub valid_argument :
      OscPath → Option (Register F) → ℕ → ℕ → Value F → Result NumberError Bool
  unfolding valid_tag report_value
  valid_argument path none index tag v = valid_tag path tag v
  valid_argument path (some r) index tag v =
      if r.mix_level
      then (if nat_eq index 0 && is_minus_inf v
          then ok true
          else if nat_eq index 1 && not (is_pan v)
          then ok false
          else valid_tag path tag v)
      else if has_domain r
      then (do _ ← report_value (value v) r; valid_tag path tag v)
      else valid_tag path tag v

  unfoldable pub valid_arguments :
      OscPath → Option (Register F) → ℕ → List ℕ → List (Value F) → Bool
  unfolding valid_argument
  valid_arguments path register index (tag ∷ tags) (v ∷ args) =
      or_invalid (valid_argument path register index tag v)
      && valid_arguments path register (suc index) tags args
  valid_arguments path register index _ _ = true

  -- `_valid`
  unfoldable pub valid : Observation F → OscPath → List ℕ → List (Value F) → Bool
  unfolding valid_arguments register_at
  valid o path [] args = false
  valid o path (t ∷ tags) args =
      not (ltb (length args) (length (t ∷ tags)))
      && valid_arguments path (register_at o.device path) 0 (t ∷ tags) args

  -- the test that `absorb` makes of a report of an expected register
  unfoldable pub well_formed : Observation F → OscPath → Report F → Report F → Bool
  unfolding valid flag_value starts_with
  well_formed o path (expected_tags, _) (tags, args) =
      (starts_with tags expected_tags && valid o path expected_tags args)
      && (not (ends_with "autoset" path) || is_some (flag_value (some (tags, args))))

  unfoldable pub judge_report : Observation F → OscPath → Report F → Report F → Verdict
  unfolding well_formed matches register_at
  judge_report o path (expected_tags, expected_args) (tags, args) =
      if well_formed o path (expected_tags, expected_args) (tags, args)
      then (if matches expected_tags expected_args args none (register_at o.device path)
          then confirms
          else contradicts)
      else malformed

  -- what `absorb` makes of a report: nothing for one that is not expected or not observable
  unfoldable pub verdict_of : Observation F → OscPath → Report F → Option Verdict
  unfolding judge_report blind_register register_at
  verdict_of o path report = elim (lookup path o.expected) [
    | none ↦ none
    | some expected ↦
        if blind_register (register_at o.device path)
        then none
        else some (judge_report o path expected report)
  ]

module _ {F : Type 0} where
  -- `self.latest[path] = ...`
  unfoldable pub retain : Observation F → OscPath → Report F → Observation F
  retain o path report =
      if contains (keys o.expected) path
        || (contains o.dependency_paths path || contains o.noted path)
      then record o { latest = insert path report o.latest }
      else o

  -- the changes of the three sets
  unfoldable pub classify : Observation F → OscPath → Option Verdict → Observation F
  unfolding add discard
  classify o path none = o
  classify o path (some confirms) = record o {
    confirmed = add path o.confirmed;
    mismatched = discard path o.mismatched;
    invalid = discard path o.invalid;
  }
  classify o path (some contradicts) = record o {
    confirmed = discard path o.confirmed;
    mismatched = add path o.mismatched;
    invalid = discard path o.invalid;
  }
  classify o path (some malformed) = record o {
    confirmed = discard path o.confirmed;
    mismatched = add path o.mismatched;
    invalid = add path o.invalid;
  }

module _ {F : Type 0} ⦃fl : Floats F⦄ where
  unfoldable pub absorb : Observation F → OscPath × Report F → Observation F
  unfolding retain classify verdict_of
  absorb o (path, report) = classify (retain o path report) path (verdict_of o path report)

  -- the deliveries of one window
  unfoldable pub absorb_all : Observation F → List (OscPath × Report F) → Observation F
  unfolding absorb
  absorb_all o [] = o
  absorb_all o (report ∷ reports) = absorb_all (absorb o report) reports

module _ {F : Type 0} where
  unfoldable pub unobserved : Observation F → List OscPath
  unfolding difference
  unobserved o = difference (difference (keys o.expected) o.confirmed) o.mismatched

  unfoldable pub complete : Observation F → Bool
  complete o = nat_eq (length o.confirmed) (length o.expected)

  unfoldable pub dependencies_known : List OscPath → Reports F → Bool
  unfolding flag_value lookup
  dependencies_known [] latest = true
  dependencies_known (path ∷ paths) latest =
      is_some (flag_value (lookup path latest)) && dependencies_known paths latest

  unfoldable pub dependencies_complete : Observation F → Bool
  unfolding dependencies_known
  dependencies_complete o = dependencies_known o.dependency_paths o.latest
