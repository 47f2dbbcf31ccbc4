-- ===== src/Reconcile/Desired.antt =====
-- src/oscmix_desk/reconcile.py: the registers that a desk asks for, in the order of their phases.
-- The device's table is an argument, in place of `device_for_name(config.device_name)`.
pub mod Order
use oscmix_desk.Common.{
  String_eq, ℕ, ◌+◌, ◌-◌, Bool, true, false, not, ◌&&◌, ◌||◌, Option, none, some, List, [], ◌∷◌,
  ◌++◌, leb, nat_eq, if◌then◌else◌, Result, ok, err, ◌>>=◌, ◌>>◌, refuse, require, String, ◌==◌,
  ℕ_eq, length,
}
use oscmix_desk.Common.Int.{ℤ, pos, negsuc, int_eq}
use oscmix_desk.Common.Sets.{contains, is_subset, List_eq, list_beq}
use oscmix_desk.Common.Sort.{sort_by}
use oscmix_desk.Common.Decimal.{decimal}
use oscmix_desk.Common.Dict.{Dict, lookup, insert, keys, values}
use oscmix_desk.Floats.{Floats}
use oscmix_desk.Osc.Message.{Value, int, float}
use oscmix_desk.Numeric.{
  PyValue, boolean, value, number_value, report_value, integer, finite, domain_is,
}
use oscmix_desk.Paths.{Segment, word, num, OscPath, Segment_eq, ends_with, starts_under}
use oscmix_desk.Registers.{
  Device, Register, Domain, is_bool, is_enum, is_number, channels_for, option_register,
  option_channels, settable_globals,
}
use oscmix_desk.Model.{
  DeskError, Kind, output, kind_name, Route, Link, source, link_requirements, checked_pan,
  first_channel, validate_route_pan, pan_channels, no_such_option, setting_value, unpack_error,
  is_empty,
}
use oscmix_desk.Model.Config.{ChannelSetting, GlobalSetting, Config, global_path, words}
use oscmix_desk.Base.{BaseEntry, base_entries, mix_path}
use oscmix_desk.Playback.{validate_playback_mute, or_desk}
use oscmix_desk.Autogain.{validate_autogain}
use oscmix_desk.Reconcile.Entries.{
  Send, link_messages, mix_messages, Phase, playback_mute_on, autoset_off, link, mix, channel,
  autoset_on, playback_mute_off, Entry, entry_le, is_present, tags_float, add_sends, produce_all,
  number_sends, number_all, send_le,
}
use oscmix_desk.Reconcile.Settings.{channel_entries, global_entries}

module _ {F : Type 0} ⦃fl : Floats F⦄ where
  unfoldable pub base_to_entry : BaseEntry F → Entry F
  base_to_entry e = record {
    path = e.path;
    tags = e.tags;
    args = e.args;
    phase = mix;
    base = true;
    compared = e.compared;
  }

  unfoldable pub bases_to_entries : List (BaseEntry F) → List (Entry F)
  unfolding base_to_entry
  bases_to_entries [] = []
  bases_to_entries (e ∷ es) = base_to_entry e ∷ bases_to_entries es

  -- a route with a balance addresses channels that the device has
  unfoldable pub check_pan_channels : Device F → List (Route F) → Result DeskError (Unit {0})
  check_pan_channels device [] = ok tt
  check_pan_channels device (route ∷ routes) = do
    pan ← checked_pan route
    require
        (int_eq pan (pos 0)
          || (is_subset (source route).1 (channels_for device (kind_name (source route).0))
              && is_subset route.output (channels_for device "output")))
        pan_channels
    check_pan_channels device routes

  -- the entries of the routes, in the order in which they were first claimed
  unfoldable pub route_entries : List (Route F) → Result DeskError (List (Entry F) × List OscPath)
  unfolding produce_all number_all send_le
  route_entries routes = do
    linked ← produce_all link link_messages routes []
    entries ← produce_all mix mix_messages routes linked
    numbered ← number_all link_messages routes []
    positions ← number_all mix_messages routes numbered
    ok (sort_by (send_le positions) (values entries), keys entries)

  -- what the device's table adds
  unfoldable pub device_entries :
      Config F → Option (Device F) → List OscPath → Result DeskError (List (Entry F))
  unfolding bases_to_entries channel_entries global_entries
  device_entries config none claimed = ok []
  device_entries config (some device) claimed = do
    silent ← base_entries config.base config.routes claimed device
    channels ← channel_entries device config.channels
    globals ← global_entries device config.globals
    ok (bases_to_entries silent ++ (channels ++ globals))

  unfoldable pub check_desk : Config F → Option (Device F) → Result DeskError (Unit {0})
  unfolding check_pan_channels
  check_desk config device = do
    _ ← validate_route_pan config.routes
    _ ← validate_autogain config device
    _ ← validate_playback_mute config device
    elim device [ none ↦ ok tt | some d ↦ check_pan_channels d config.routes ]

  -- `desired`
  unfoldable pub desired : Config F → Option (Device F) → Result DeskError (List (Entry F))
  unfolding check_desk route_entries device_entries sort_by
  desired config device = do
    _ ← check_desk config device
    (ordered, claimed) ← route_entries config.routes
    more ← device_entries config device claimed
    ok (sort_by entry_le (ordered ++ more))
