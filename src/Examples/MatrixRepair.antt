-- ===== src/Examples/MatrixRepair.antt =====
-- The theorem on matrix repairs at a desk whose matrix is pinned.
use oscmix_desk.Common.{◌≡◌, refl, inl, inr, some, ok, In, ◌∷◌, []}
use oscmix_desk.Common.Int.{ℤ, pos}
use oscmix_desk.Common.Sets.{contains, intersects, is_subset}
use oscmix_desk.Common.Sort.{sort_by, dedup}
use oscmix_desk.Common.Dict.{lookup, insert}
use oscmix_desk.Base.{base_entries, mix_path}
use oscmix_desk.Playback.{validate_playback_mute, route_cells, retained_pairs, declared_mutes}
use oscmix_desk.Autogain.{validate_autogain, retained_gains}
use oscmix_desk.Numeric.{report_value, integer, number_value}
use oscmix_desk.Paths.{word, num, OscPath, path_le, starts_under, ends_with}
use oscmix_desk.Registers.{Device, Register, literal, hole, option_register}
use oscmix_desk.Model.{
  validate_route_pan, checked_pan, link_requirements, declare_link, first_channel,
}
use oscmix_desk.Reconcile.Entries.{link_messages, mix_messages, mix}
use oscmix_desk.Reconcile.Desired.{desired, check_desk}
use oscmix_desk.Reconcile.Compare.{Plan, write_of, plan, unconditional}
use oscmix_desk.Reconcile.Apply.{matrix_repair_plan, application_plan, mute_before}
use oscmix_desk.Reconcile.Apply.Unmute.{matrix_repair_plan-unmutes}
use oscmix_desk.Osc.Message.{int, float}
use oscmix_desk.Examples.Mutes.{config, mute_register, wanted, mute_on, mute_off, write}
use oscmix_desk.Examples.Mutes.{device as small_device}
use oscmix_desk.Examples.Numbers.{ℤ_floats}

abbrev mix_register : Register ℤ
mix_register = record mute_register {
  template = literal "mix" ∷ hole "ch" ∷ literal "playback" ∷ hole "pb" ∷ [];
  tags = b'f' ∷ b'i' ∷ [];
  channels = "output";
}

abbrev device : Device ℤ
device = record small_device { registers = mute_register ∷ mix_register ∷ [] }

abbrev playback_link : OscPath
playback_link = word "playback" ∷ num 1 ∷ word "stereo" ∷ []

abbrev output_link : OscPath
output_link = word "output" ∷ num 1 ∷ word "stereo" ∷ []

abbrev repaired : Plan ℤ
repaired = record {
  writes =
      mute_on 1
      ∷ mute_on 2
      ∷ write mix (word "mix" ∷ num 1 ∷ word "playback" ∷ num 1 ∷ []) (b'f' ∷ b'i' ∷ [])
          (float (pos 0) ∷ int (pos 0) ∷ []) unconditional
      ∷ mute_off 1
      ∷ mute_off 2
      ∷ [];
  confirmed = [];
  unverifiable = [];
  retained = output_link ∷ playback_link ∷ [];
}

accepted : check_desk config (some device) ≡ ok tt
unfolding check_desk validate_route_pan checked_pan validate_autogain validate_playback_mute
    option_register contains lookup report_value insert dedup is_subset route_cells
    link_requirements declare_link sort_by
accepted = refl

wanted_lem : desired config (some device) ≡ ok wanted
unfolding desired lookup insert link_messages mix_messages checked_pan base_entries contains
    option_register report_value integer number_value mix_path link_requirements starts_under
    ends_with
wanted_lem = rw accepted

applied :
    matrix_repair_plan config (some device) (playback_link ∷ output_link ∷ []) [] ≡ ok repaired
unfolding matrix_repair_plan application_plan plan retained_pairs declared_mutes retained_gains
    integer sort_by dedup contains write_of intersects mix_messages checked_pan first_channel
    link_messages link_requirements lookup insert is_subset starts_under path_le mix_path
applied = rw wanted_lem

matrix_repair_plan-unmutes_example : In (mute_before (mute_off 1)) repaired.writes
matrix_repair_plan-unmutes_example =
    matrix_repair_plan-unmutes config (some device) (playback_link ∷ output_link ∷ []) [] repaired
      (mute_off 1) applied (inr (inr (inr (inl refl)))) refl
