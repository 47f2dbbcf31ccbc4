-- ===== src/Playback.antt =====
-- src/oscmix_desk/playback.py: who owns a playback mute, and what an unmute must replace.
pub mod Mutes
pub mod Ownership
use oscmix_desk.Common.{
  ℕ, ◌+◌, ◌-◌, ◌%◌, Bool, false, not, ◌&&◌, ◌||◌, Option, none, some, List, [], ◌∷◌, ◌++◌, leb,
  nat_eq, if◌then◌else◌, Result, ok, err, ◌>>=◌, ◌>>◌, require, ◌==◌, ℕ_eq, pair_eq, String_eq,
  String, length,
}
use oscmix_desk.Common.Int.{ℤ, pos, int_eq}
use oscmix_desk.Common.Sets.{contains, is_subset, List_eq, list_beq}
use oscmix_desk.Common.Sort.{sort_by, dedup}
use oscmix_desk.Common.Dict.{Dict, lookup, insert, keys}
use oscmix_desk.Floats.{Floats}
use oscmix_desk.Osc.Message.{float}
use oscmix_desk.Numeric.{NumberError, value, integer, report_value, finite}
use oscmix_desk.Paths.{word, num, OscPath}
use oscmix_desk.Registers.{Device, option_register, channels_for}
use oscmix_desk.Model.{
  DeskError, playback, Kind_eq, Route, Links, link_requirements, declare_link, mute_device,
  mute_option, mute_conflict, mute_partner, mute_disagrees, mute_incomplete, setting_value,
  playback_route_channels, playback_route_width, playback_route_level, is_empty,
}
use oscmix_desk.Model.Config.{ChannelSetting, Config}

-- `mute_path`
unfoldable pub mute_path : ℕ → OscPath
mute_path channel = word "playback" ∷ num channel ∷ word "mute" ∷ []

-- `pair_left`, of a channel from 1
unfoldable pub pair_left : ℕ → ℕ
pair_left channel = channel - (channel - 1) % 2

abbrev pub is_mute : List String → Bool
is_mute option = list_beq option ("mute" ∷ [])

-- An error of numeric.py, where the caller raises its own.
abbrev pub or_desk : {A : Type 0} → Result NumberError A → DeskError → Result DeskError A
or_desk (ok a) e = ok a
or_desk (err _) e = err e

module _ {F : Type 0} ⦃fl : Floats F⦄ where
  -- `declared_mutes`
  unfoldable pub collect_mutes : List (ChannelSetting F) → Dict ℕ ℤ → Result DeskError (Dict ℕ ℤ)
  collect_mutes [] mutes = ok mutes
  collect_mutes (setting ∷ settings) mutes =
      let rest = collect_mutes settings mutes in
      let set = or_desk (integer setting.value) setting_value >>= λ n.
      collect_mutes settings (insert setting.channel n mutes) in
      if (setting.family == playback) && is_mute setting.option then set else rest

  unfoldable pub declared_mutes : Config F → Result DeskError (Dict ℕ ℤ)
  unfolding collect_mutes
  declared_mutes config = collect_mutes config.channels []

-- `retained_pairs`: the pairs of the retained mute flags
unfoldable pub retained_pairs : List OscPath → List ℕ
unfolding pair_left
retained_pairs [] = []
retained_pairs ((word family ∷ num channel ∷ word option ∷ []) ∷ paths) =
    let rest = retained_pairs paths in
    if (family == "playback") && ((option == "mute") && (leb 1 channel && leb channel 20))
    then pair_left channel ∷ rest
    else rest
retained_pairs (_ ∷ paths) = retained_pairs paths

-- the cells of one route for one of its sources
unfoldable pub source_cells : List ℕ → ℕ → List (ℕ × ℕ)
source_cells [] source = []
source_cells (out ∷ outs) source = (out, source) ∷ source_cells outs source

unfoldable pub own_cells : List ℕ → List ℕ → ℕ → List (ℕ × ℕ)
own_cells outs [] left = []
own_cells outs (source ∷ sources) left =
    let rest = own_cells outs sources left in
    if nat_eq source left || nat_eq source (left + 1)
    then source_cells outs source ++ rest
    else rest

module _ {F : Type 0} where
  -- `route_cells`
  unfoldable pub route_cells : List (Route F) → ℕ → List (ℕ × ℕ)
  unfolding own_cells source_cells
  route_cells [] left = []
  route_cells (route ∷ routes) left =
      let rest = route_cells routes left in
      if route.base then rest else own_cells route.output route.playback left ++ rest

  unfoldable pub has_model : Option (Device F) → String → Bool
  has_model none usb_id = false
  has_model (some device) usb_id = (device.usb_id == usb_id) && not (is_empty device.registers)

-- one or two channels of the device, two of them a pair
unfoldable pub valid_channels : List ℕ → List ℕ → Bool
valid_channels all (channel ∷ []) = contains all channel
valid_channels all (left ∷ right ∷ []) =
    contains all left && (contains all right && (nat_eq (left % 2) 1 && nat_eq right (left + 1)))
valid_channels all _ = false

-- every cell of both columns of a pair
unfoldable pub required_cells : List ℕ → ℕ → List (ℕ × ℕ)
required_cells [] left = []
required_cells (out ∷ outs) left = (out, left) ∷ (out, left + 1) ∷ required_cells outs left

-- both partners are declared, and alike
unfoldable pub check_partners : Dict ℕ ℤ → List ℕ → Result DeskError (Unit {0})
check_partners mutes [] = ok tt
check_partners mutes (left ∷ pairs) = do
  odd ← elim (lookup left mutes) [ none ↦ err mute_partner | some n ↦ ok n ]
  even ← elim (lookup (left + 1) mutes) [ none ↦ err mute_partner | some n ↦ ok n ]
  require (int_eq odd even) mute_disagrees
  check_partners mutes pairs

unfoldable pub lefts : List ℕ → List ℕ
unfolding pair_left
lefts [] = []
lefts (channel ∷ channels) = pair_left channel ∷ lefts channels

unfoldable pub mute_pairs : Dict ℕ ℤ → List ℕ
unfolding lefts
mute_pairs mutes = sort_by leb (dedup (lefts (keys mutes)))

-- a value for a channel's mute, unless another one is there
unfoldable pub claim_mute : ℕ → ℤ → Dict ℕ ℤ → Result DeskError (Dict ℕ ℤ)
claim_mute channel n mutes = elim (lookup channel mutes) [
  | none ↦ ok (insert channel n mutes)
  | some before ↦ if int_eq before n then ok (insert channel n mutes) else err mute_conflict
]

module _ {F : Type 0} ⦃fl : Floats F⦄ where
  -- one playback setting of `_validated_mutes`
  unfoldable pub validated_mute :
      Config F → Option (Device F) → ChannelSetting F → Dict ℕ ℤ → Result DeskError (Dict ℕ ℤ)
  unfolding has_model claim_mute
  validated_mute config device setting mutes = do
    require (has_model device config.usb_id) mute_device
    row ← elim (option_register device "playback" setting.option setting.channel) [
      | none ↦ err mute_option
      | some register ↦ ok register
    ]
    _ ← or_desk (report_value setting.value row) setting_value
    n ← or_desk (integer setting.value) setting_value
    require (is_mute setting.option) mute_option
    claim_mute setting.channel n mutes

  -- `_validated_mutes`
  unfoldable pub validated_mutes :
      Config F
      → Option (Device F)
      → List (ChannelSetting F)
      → Dict ℕ ℤ
      → Result DeskError (Dict ℕ ℤ)
  unfolding validated_mute
  validated_mutes config device [] mutes = ok mutes
  validated_mutes config device (setting ∷ settings) mutes =
      let skip = validated_mutes config device settings mutes in
      let set = validated_mute config device setting mutes >>= λ mutes'.
      validated_mutes config device settings mutes' in
      if setting.family == playback then set else skip

  -- `_validate_playback_route`
  unfoldable pub validate_playback_route : Route F → Device F → Result DeskError (Unit {0})
  unfolding valid_channels
  validate_playback_route route device = do
    require (valid_channels (channels_for device "playback") route.playback) playback_route_channels
    require (valid_channels (channels_for device "output") route.output) playback_route_channels
    require (nat_eq (length route.playback) (length route.output)) playback_route_width
    level ← or_desk (finite (value (float route.level))) playback_route_level
    require
        ((fl.le fl.level_min level && fl.le level fl.level_max)
          && not (nat_eq (length route.output) 2 && (not route.stereo && fl.lt fl.zero level)))
        playback_route_level

  -- `_validate_route_links`
  unfoldable pub validate_route_links :
      List (Route F) → Device F → Links → Result DeskError (Unit {0})
  unfolding validate_playback_route
  validate_route_links [] device links = ok tt
  validate_route_links (route ∷ routes) device links = do
    _ ← (if is_empty route.playback then ok tt else validate_playback_route route device)
    (from, to) ← link_requirements route
    links' ← declare_link from links
    links'' ← declare_link to links'
    validate_route_links routes device links''

  -- `_require_complete_unmute`
  unfoldable pub require_complete_unmute :
      List (Route F) → Device F → Dict ℕ ℤ → List ℕ → Result DeskError (Unit {0})
  unfolding required_cells
  require_complete_unmute routes device mutes [] = ok tt
  require_complete_unmute routes device mutes (left ∷ pairs) = do
    flag ← elim (lookup left mutes) [ none ↦ err mute_partner | some n ↦ ok n ]
    require
        (not (int_eq flag (pos 0))
          || is_subset (required_cells (channels_for device "output") left)
              (route_cells routes left))
        mute_incomplete
    require_complete_unmute routes device mutes pairs

  -- `validate_playback_mute`
  unfoldable pub validate_playback_mute : Config F → Option (Device F) → Result DeskError (Unit {0})
  unfolding validated_mutes mute_pairs check_partners validate_route_links require_complete_unmute
  validate_playback_mute config device = do
    mutes ← validated_mutes config device config.channels []
    if is_empty mutes then ok tt else elim device [
      | none ↦ err mute_device
      | some d ↦ (do
        _ ← check_partners mutes (mute_pairs mutes)
        _ ← validate_route_links config.routes d []
        require_complete_unmute config.routes d mutes (mute_pairs mutes))
    ]
