-- ===== src/Examples/Owned.antt =====
-- The theorems on playback mutes at a desk that releases one.
use oscmix_desk.Common.{◌≡◌, refl, inl, inr, some, ok, In, ◌+◌}
use oscmix_desk.Common.Int.{pos}
use oscmix_desk.Common.Sets.{contains, is_subset}
use oscmix_desk.Common.Sort.{sort_by, dedup}
use oscmix_desk.Common.Dict.{lookup, insert}
use oscmix_desk.Numeric.{integer, report_value}
use oscmix_desk.Registers.{option_register, channels_for}
use oscmix_desk.Model.{link_requirements, declare_link}
use oscmix_desk.Playback.{pair_left, route_cells, validate_playback_mute}
use oscmix_desk.Playback.Mutes.{DeclaresMute}
use oscmix_desk.Playback.Ownership.{
  validate_playback_mute-partners, validate_playback_mute_complete,
}
use oscmix_desk.Examples.Mutes.{config, device, unmute}
use oscmix_desk.Examples.Numbers.{ℤ_floats}

accepted : validate_playback_mute config (some device) ≡ ok tt
unfolding validate_playback_mute option_register contains lookup report_value insert dedup is_subset
    route_cells link_requirements declare_link sort_by
accepted = refl

off : integer (unmute 2).value ≡ ok (pos 0)
unfolding integer
off = refl

second_output : In 2 (channels_for device "output")
unfolding channels_for lookup
second_output = inr (inl refl)

validate_playback_mute-partners_example :
    DeclaresMute config.channels (pair_left 2) (pos 0)
    × DeclaresMute config.channels (pair_left 2 + 1) (pos 0)
validate_playback_mute-partners_example =
    validate_playback_mute-partners config device (unmute 2) (pos 0) accepted (inr (inl refl)) refl
      off

validate_playback_mute_complete_example :
    In (2, pair_left 2) (route_cells config.routes (pair_left 2))
    × In (2, pair_left 2 + 1) (route_cells config.routes (pair_left 2))
validate_playback_mute_complete_example =
    validate_playback_mute_complete config device (unmute 2) 2 accepted (inr (inl refl)) refl off
      second_output
