-- ===== src/Examples/Mutes.antt =====
-- The theorems on an operation's plan at a desk that releases a playback mute.
use oscmix_desk.Common.{◌≡◌, refl, inl, inr, none, some, true, false, List, [], ◌∷◌, ok, In, ℕ}
use oscmix_desk.Common.Int.{ℤ, pos}
use oscmix_desk.Common.Sort.{sort_by, dedup}
use oscmix_desk.Common.Sets.{contains, intersects, is_subset}
use oscmix_desk.Common.Dict.{lookup, insert}
use oscmix_desk.Base.{base_entries, mix_path}
use oscmix_desk.Playback.{validate_playback_mute, route_cells, retained_pairs, declared_mutes}
use oscmix_desk.Autogain.{validate_autogain}
use oscmix_desk.Osc.Message.{Value, int, float}
use oscmix_desk.Paths.{word, num, OscPath, starts_under, ends_with, path_le}
use oscmix_desk.Numeric.{boolean, report_value, integer, number_value}
use oscmix_desk.Registers.{
  Device, Register, literal, hole, write_only, is_bool, pin, option_register,
}
use oscmix_desk.Model.{
  Route, playback, validate_route_pan, checked_pan, link_requirements, declare_link, first_channel,
}
use oscmix_desk.Model.Config.{Config, ChannelSetting, keep}
use oscmix_desk.Reconcile.Entries.{
  Entry, Phase, mix, link, playback_mute_on, playback_mute_off, link_messages, mix_messages,
}
use oscmix_desk.Reconcile.Desired.{desired, check_desk}
use oscmix_desk.Reconcile.Compare.{
  Write, Plan, WriteReason, unconditional, prerequisite, write_of, plan,
}
use oscmix_desk.Reconcile.Apply.{explicit, application_plan, mute_before, write_paths}
use oscmix_desk.Reconcile.Apply.Inversion.{Granted}
use oscmix_desk.Reconcile.Apply.Unmute.{application_plan-unmutes}
use oscmix_desk.Examples.Numbers.{ℤ_floats}

abbrev pub mute_register : Register ℤ
mute_register = record {
  template = literal "playback" ∷ hole "ch" ∷ literal "mute" ∷ [];
  tags = b'i' ∷ [];
  verify = write_only;
  channels = "playback";
  domain = some is_bool;
  choices = [];
  values = [];
  lo = none;
  hi = none;
  unit = "";
  policy = pin;
  scale = none;
  truncates = false;
  mix_level = false;
}

abbrev pub device : Device ℤ
device = record {
  key = "small";
  name = "Small";
  usb_id = "0000:0001";
  channels = ("playback", 1 ∷ 2 ∷ []) ∷ ("output", 1 ∷ 2 ∷ []) ∷ [];
  registers = mute_register ∷ [];
  supported = true;
  complete_after_cold_plug = [];
}

abbrev route : Route ℤ
route = record {
  name = b'p' ∷ [];
  output = 1 ∷ 2 ∷ [];
  playback = 1 ∷ 2 ∷ [];
  level = pos 0;
  volume = none;
  stereo = true;
  input = [];
  pan = pos 0;
  mirror_of = [];
  base = false;
}

abbrev pub unmute : ℕ → ChannelSetting ℤ
unmute channel = record {
  family = playback;
  channel = channel;
  option = "mute" ∷ [];
  value = boolean false;
}

abbrev pub config : Config ℤ
config = record {
  device_name = "Small";
  usb_id = "0000:0001";
  serial = "";
  osc_port = 7222;
  osc_recv_port = 8222;
  routes = route ∷ [];
  channels = unmute 1 ∷ unmute 2 ∷ [];
  globals = [];
  policies = [];
  loaded = none;
  overrides = record { device_name = none; osc_port = none };
  base = keep;
  enforce_watch = false;
  peak_safe = false;
}

abbrev mute_of : ℕ → OscPath
mute_of channel = word "playback" ∷ num channel ∷ word "mute" ∷ []

abbrev pub write : Phase → OscPath → List ℕ → List (Value ℤ) → WriteReason → Write ℤ
write phase path tags args reason = record {
  path = path;
  tags = tags;
  args = args;
  phase = phase;
  reason = reason;
}

abbrev pub mute_on : ℕ → Write ℤ
mute_on channel =
    write playback_mute_on (mute_of channel) (b'i' ∷ []) (int (pos 1) ∷ []) prerequisite

abbrev pub mute_off : ℕ → Write ℤ
mute_off channel =
    write playback_mute_off (mute_of channel) (b'i' ∷ []) (int (pos 0) ∷ []) unconditional

abbrev link_on : OscPath → Write ℤ
link_on path = write link path (b'i' ∷ []) (int (pos 1) ∷ []) unconditional

abbrev released : Plan ℤ
released = record {
  writes =
      mute_on 1
      ∷ mute_on 2
      ∷ link_on (word "playback" ∷ num 1 ∷ word "stereo" ∷ [])
      ∷ link_on (word "output" ∷ num 1 ∷ word "stereo" ∷ [])
      ∷ write mix (word "mix" ∷ num 1 ∷ word "playback" ∷ num 1 ∷ []) (b'f' ∷ b'i' ∷ [])
          (float (pos 0) ∷ int (pos 0) ∷ []) unconditional
      ∷ mute_off 1
      ∷ mute_off 2
      ∷ [];
  confirmed = [];
  unverifiable = [];
  retained = [];
}

abbrev entry : Phase → OscPath → List ℕ → List (Value ℤ) → Entry ℤ
entry phase path tags args = record {
  path = path;
  tags = tags;
  args = args;
  phase = phase;
  base = false;
  compared = true;
}

abbrev pub wanted : List (Entry ℤ)
wanted =
    entry link (word "playback" ∷ num 1 ∷ word "stereo" ∷ []) (b'i' ∷ []) (int (pos 1) ∷ [])
    ∷ entry link (word "output" ∷ num 1 ∷ word "stereo" ∷ []) (b'i' ∷ []) (int (pos 1) ∷ [])
    ∷ entry mix (word "mix" ∷ num 1 ∷ word "playback" ∷ num 1 ∷ []) (b'f' ∷ b'i' ∷ [])
        (float (pos 0) ∷ int (pos 0) ∷ [])
    ∷ entry playback_mute_off (mute_of 1) (b'i' ∷ []) (int (pos 0) ∷ [])
    ∷ entry playback_mute_off (mute_of 2) (b'i' ∷ []) (int (pos 0) ∷ [])
    ∷ []

accepted : check_desk config (some device) ≡ ok tt
unfolding check_desk validate_route_pan checked_pan validate_autogain validate_playback_mute
    option_register contains lookup report_value insert dedup is_subset route_cells
    link_requirements declare_link sort_by
accepted = refl

wanted_lem : desired config (some device) ≡ ok wanted
unfolding desired lookup insert link_messages mix_messages checked_pan base_entries contains
    option_register report_value integer number_value mix_path link_requirements starts_under
    ends_with
wanted_lem = rw accepted

applied : application_plan config (some device) explicit [] [] [] ≡ ok released
unfolding application_plan plan retained_pairs declared_mutes integer sort_by dedup contains
    write_of intersects mix_messages checked_pan first_channel link_messages link_requirements
    lookup insert is_subset starts_under path_le mix_path
applied = rw wanted_lem

application_plan-unmutes_example :
    In (mute_before (mute_off 2)) released.writes
    × Granted config (write_paths released.writes) [] (mute_off 2)
application_plan-unmutes_example =
    application_plan-unmutes config (some device) explicit [] [] [] released (mute_off 2) applied
      (inr (inr (inr (inr (inr (inr (inl refl))))))) refl
