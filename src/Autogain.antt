-- ===== src/Autogain.antt =====
-- src/oscmix_desk/autogain.py: the input gains that AutoSet owns.
pub mod Retention
use oscmix_desk.Common.{
  ℕ, ◌+◌, ◌-◌, ◌%◌, Bool, true, false, not, ◌&&◌, ◌||◌, Option, none, some, List, [], ◌∷◌, ◌++◌,
  leb, nat_eq, if◌then◌else◌, Result, ok, err, ◌>>=◌, ◌>>◌, refuse, require, ◌==◌, ℕ_eq, String_eq,
  String, pair_eq, length,
}
use oscmix_desk.Common.Int.{ℤ, pos, int_eq, ℤ_eq}
use oscmix_desk.Common.Sets.{contains, intersects, List_eq, list_beq}
use oscmix_desk.Common.Sort.{sort_by, dedup}
use oscmix_desk.Common.Dict.{Dict, lookup}
use oscmix_desk.Floats.{Floats}
use oscmix_desk.Osc.Message.{Value, int, float, text}
use oscmix_desk.Numeric.{PyValue, boolean, value, number_value}
use oscmix_desk.Paths.{word, num, OscPath, Segment_eq}
use oscmix_desk.Registers.{Device, Policy, pin, option_register}
use oscmix_desk.Model.{
  DeskError, input, Kind_eq, Route, source, no_autoset, autoset_value, no_gain, gain_pin_conflict,
  setting_value,
}
use oscmix_desk.Model.Config.{ChannelSetting, Config}
use oscmix_desk.Playback.{or_desk}

-- the last report of a register: its tags and arguments
abbrev pub Report : Type 0 → Type 0
Report F = List ℕ × List (Value F)

abbrev pub Reports : Type 0 → Type 0
Reports F = Dict OscPath (Report F)

-- `flag_value`
unfoldable pub flag_value : {F : Type 0} → Option (Report F) → Option ℤ
flag_value none = none
flag_value (some (tags, int n ∷ [])) =
    if list_beq tags (b'i' ∷ []) && (int_eq n (pos 0) || int_eq n (pos 1)) then some n else none
flag_value (some (tags, _)) = none

abbrev pub is_off : Option ℤ → Bool
is_off none = false
is_off (some n) = int_eq n (pos 0)

-- `UCX2.name`
abbrev ucx2_name : String
ucx2_name = "Fireface UCX II"

unfoldable pub supported : {F : Type 0} → Option (Device F) → Bool
supported none = false
supported (some device) = device.name == ucx2_name

-- `channel in (1, 2, 3, 4)`, and the odd channel of its pair
unfoldable pub has_autoset : ℕ → Bool
has_autoset channel = leb 1 channel && leb channel 4

unfoldable pub left_of : ℕ → ℕ
left_of channel = channel - (channel - 1) % 2

module _ {F : Type 0} where
  unfoldable pub setting_pairs : List (ChannelSetting F) → List ℕ
  unfolding has_autoset left_of
  setting_pairs [] = []
  setting_pairs (s ∷ settings) =
      let rest = setting_pairs settings in
      if (s.family == input)
        && ((list_beq s.option ("gain" ∷ []) || list_beq s.option ("autoset" ∷ []))
            && has_autoset s.channel)
      then left_of s.channel ∷ rest
      else rest

-- the pairs of a route's inputs
unfoldable pub input_pairs : List ℕ → List ℕ
unfolding has_autoset left_of
input_pairs [] = []
input_pairs (channel ∷ channels) =
    let rest = input_pairs channels in if has_autoset channel then left_of channel ∷ rest else rest

module _ {F : Type 0} where
  unfoldable pub route_pairs : List (Route F) → List ℕ
  unfolding input_pairs
  route_pairs [] = []
  route_pairs (route ∷ routes) = input_pairs route.input ++ route_pairs routes

  -- `_pairs`
  unfoldable pub pairs : Config F → Option (Device F) → List ℕ
  unfolding supported setting_pairs route_pairs
  pairs config device =
      if supported device
      then sort_by leb (dedup (setting_pairs config.channels ++ route_pairs config.routes))
      else []

-- `/input/<n>/autoset`, `/input/<n>/stereo`, `/input/<n>/gain`
unfoldable pub input_path : ℕ → String → OscPath
input_path channel option = word "input" ∷ num channel ∷ word option ∷ []

unfoldable pub pair_paths : List ℕ → List OscPath
unfolding input_path
pair_paths [] = []
pair_paths (left ∷ lefts) =
    input_path left "autoset"
    ∷ input_path (left + 1) "autoset"
    ∷ input_path left "stereo"
    ∷ pair_paths lefts

unfoldable pub gain_paths : List ℕ → List OscPath
unfolding input_path
gain_paths [] = []
gain_paths (channel ∷ channels) = input_path channel "gain" ∷ gain_paths channels

abbrev is_pin : Option Policy → Bool
is_pin (some pin) = true
is_pin _ = false

-- `values == {False}`
unfoldable pub all_mono : List Bool → Bool
all_mono [] = false
all_mono (linked ∷ []) = not linked
all_mono (linked ∷ more) = not linked && all_mono more

module _ {F : Type 0} ⦃fl : Floats F⦄ where
  -- `dependency_paths`
  unfoldable pub dependency_paths : Config F → Option (Device F) → List OscPath
  unfolding pair_paths pairs
  dependency_paths config device = pair_paths (pairs config device)

  -- `_declared_flag`
  unfoldable pub declared_flag : PyValue F → Option Bool
  declared_flag (boolean b) = some b
  declared_flag (value (int n)) =
      if int_eq n (pos 0) then some false else if int_eq n (pos 1) then some true else none
  declared_flag (value (float x)) =
      if fl.eq x fl.zero then some false else if fl.eq x fl.one then some true else none
  declared_flag (value (text _)) = none

  -- the inputs whose AutoSet the desk declares on
  unfoldable pub declared_on : List (ChannelSetting F) → List ℕ
  unfolding declared_flag
  declared_on [] = []
  declared_on (s ∷ settings) =
      let rest = declared_on settings in
      if (s.family == input)
        && (list_beq s.option ("autoset" ∷ [])
            && elim (declared_flag s.value) [ none ↦ false | some flag ↦ flag ])
      then s.channel ∷ rest
      else rest

  -- a channel that AutoSet may own: declared on, or not reported off
  unfoldable pub is_protected : List ℕ → Reports F → ℕ → Bool
  unfolding flag_value input_path
  is_protected on reports channel =
      contains on channel
      || not (is_off (flag_value (lookup (input_path channel "autoset") reports)))

  -- a pair whose channels may be linked: a planned link, or not reported unlinked
  unfoldable pub may_be_linked : List OscPath → Reports F → ℕ → Bool
  unfolding flag_value input_path
  may_be_linked planned reports left =
      contains planned (input_path left "stereo")
      || not (is_off (flag_value (lookup (input_path left "stereo") reports)))

  -- the channels of one pair whose gain is retained
  unfoldable pub protected_of : List ℕ → Reports F → List OscPath → ℕ → List ℕ
  unfolding is_protected may_be_linked
  protected_of on reports planned left =
      let odd = is_protected on reports left in
      let even = is_protected on reports (left + 1) in
      if (odd || even) && may_be_linked planned reports left
      then left ∷ (left + 1) ∷ []
      else (if odd then left ∷ [] else []) ++ (if even then (left + 1) ∷ [] else [])

  unfoldable pub retained_of : List ℕ → Reports F → List OscPath → List ℕ → List OscPath
  unfolding protected_of gain_paths
  retained_of on reports planned [] = []
  retained_of on reports planned (left ∷ lefts) =
      gain_paths (protected_of on reports planned left) ++ retained_of on reports planned lefts

  -- `retained_gains`
  unfoldable pub retained_gains :
      Config F → Option (Device F) → Reports F → List OscPath → Bool → List OscPath
  unfolding retained_of pairs declared_on
  retained_gains config device reports linked use_declarations =
      retained_of (if use_declarations then declared_on config.channels else []) reports linked
        (pairs config device)

  -- one setting of `validate_autogain`
  unfoldable pub check_autogain : Option (Device F) → ChannelSetting F → Result DeskError (Unit {0})
  unfolding has_autoset declared_flag
  check_autogain device s =
      if not (s.family == input)
      then ok tt
      else if list_beq s.option ("autoset" ∷ [])
      then (do
        require (has_autoset s.channel) no_autoset
        elim (declared_flag s.value) [ none ↦ err autoset_value | some _ ↦ ok tt ])
      else if list_beq s.option ("gain" ∷ []) && has_autoset s.channel
      then elim (option_register device "input" ("gain" ∷ []) s.channel) [
        | none ↦ err no_gain
        | some r ↦ (do _ ← or_desk (number_value s.value r false) setting_value; ok tt)
      ]
      else ok tt

  unfoldable pub check_autogains :
      Option (Device F) → List (ChannelSetting F) → Result DeskError (Unit {0})
  unfolding check_autogain
  check_autogains device [] = ok tt
  check_autogains device (s ∷ settings) = do
    _ ← check_autogain device s
    check_autogains device settings

  unfoldable pub configured_gains : List (ChannelSetting F) → List ℕ
  unfolding has_autoset
  configured_gains [] = []
  configured_gains (s ∷ settings) =
      let rest = configured_gains settings in
      if (s.family == input) && (list_beq s.option ("gain" ∷ []) && has_autoset s.channel)
      then s.channel ∷ rest
      else rest

  -- the input routes of a pair all have one channel, and there is one
  unfoldable pub mono_flags : List (Route F) → ℕ → List Bool
  unfolding source left_of
  mono_flags [] left = []
  mono_flags (route ∷ routes) left =
      let rest = mono_flags routes left in
      elim (source route).1 [
        | [] ↦ rest
        | channel ∷ more ↦
            if ((source route).0 == input) && nat_eq (left_of channel) left
            then nat_eq (length (channel ∷ more)) 2 ∷ rest
            else rest
      ]

  unfoldable pub is_mono : List (Route F) → ℕ → Bool
  unfolding mono_flags all_mono
  is_mono routes left = (nat_eq left 1 || nat_eq left 3) && all_mono (mono_flags routes left)

  unfoldable pub check_pins : List (Route F) → List ℕ → List ℕ → Result DeskError (Unit {0})
  unfolding is_mono left_of
  check_pins routes on [] = ok tt
  check_pins routes on (channel ∷ channels) = do
    refuse
        (intersects on (
          if is_mono routes (left_of channel)
          then channel ∷ []
          else left_of channel ∷ (left_of channel + 1) ∷ []))
        gain_pin_conflict
    check_pins routes on channels

  -- `validate_autogain`
  unfoldable pub validate_autogain : Config F → Option (Device F) → Result DeskError (Unit {0})
  unfolding supported check_autogains check_pins configured_gains declared_on
  validate_autogain config device = if not (supported device) then ok tt else (do
    _ ← check_autogains device config.channels
    if is_pin (lookup ("input", "gain" ∷ []) config.policies)
        then check_pins config.routes (declared_on config.channels)
            (sort_by leb (dedup (configured_gains config.channels)))
        else ok tt)
