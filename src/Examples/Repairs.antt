-- ===== src/Examples/Repairs.antt =====
-- The theorems on retention at a desk where a repair may only set a link.
use oscmix_desk.Common.{◌≡◌, ◌≢◌, refl, inl, inr, none, true, false, [], ◌∷◌, ok}
use oscmix_desk.Common.Int.{ℤ, pos, negsuc}
use oscmix_desk.Common.Dict.{lookup, insert}
use oscmix_desk.Common.Sets.{contains}
use oscmix_desk.Common.Sort.{sort_by, dedup}
use oscmix_desk.Osc.Message.{int, float}
use oscmix_desk.Common.Sets.{List_eq}
use oscmix_desk.Paths.{Segment_eq, word, num, OscPath, path_le}
use oscmix_desk.Base.{mix_path}
use oscmix_desk.Playback.{validate_playback_mute, retained_pairs, declared_mutes}
use oscmix_desk.Autogain.{validate_autogain, retained_gains}
use oscmix_desk.Registers.{pin}
use oscmix_desk.Model.{validate_route_pan, checked_pan}
use oscmix_desk.Model.Config.{Config}
use oscmix_desk.Reconcile.Entries.{mix, link, link_messages, mix_messages}
use oscmix_desk.Reconcile.Desired.{desired}
use oscmix_desk.Reconcile.Compare.{Write, Plan, unconditional, plan, write_of}
use oscmix_desk.Reconcile.Apply.{repair, preserves_remember, is_remembered, application_plan}
use oscmix_desk.Reconcile.Apply.Retention.{application_plan-retained, application_plan-remembered}
use oscmix_desk.Examples.Plans.{wanted, matrix_path, entry}
use oscmix_desk.Examples.Plans.{config as plain_config}
use oscmix_desk.Examples.Numbers.{ℤ_floats}

abbrev config : Config ℤ
config = record plain_config { policies = (("input", "stereo" ∷ []), pin) ∷ [] }

abbrev input_link : OscPath
input_link = word "input" ∷ num 3 ∷ word "stereo" ∷ []

abbrev output_link : OscPath
output_link = word "output" ∷ num 1 ∷ word "stereo" ∷ []

abbrev unlink : Write ℤ
unlink = record {
  path = input_link;
  tags = b'i' ∷ [];
  args = int (pos 0) ∷ [];
  phase = link;
  reason = unconditional;
}

abbrev repaired : Plan ℤ
repaired = record {
  writes = unlink ∷ [];
  confirmed = [];
  unverifiable = [];
  retained = matrix_path ∷ output_link ∷ [];
}

wanted_lem : desired config none ≡ ok wanted
unfolding desired validate_route_pan checked_pan validate_autogain validate_playback_mute
    link_messages mix_messages lookup insert mix_path
wanted_lem = refl

applied : application_plan config none repair [] [] [] ≡ ok repaired
unfolding application_plan retained_gains plan retained_pairs declared_mutes lookup contains sort_by
    dedup path_le write_of
applied = rw wanted_lem

later : preserves_remember repair ≡ true
unfolding preserves_remember
later = refl

remembered :
    is_remembered none config.policies
      (entry mix matrix_path (b'f' ∷ b'i' ∷ []) (float (negsuc 11) ∷ int (pos 0) ∷ []))
    ≡ true
unfolding is_remembered
remembered = refl

application_plan-remembered_example : input_link ≢ matrix_path
application_plan-remembered_example =
    application_plan-remembered config none repair [] [] [] repaired wanted
      (entry mix matrix_path (b'f' ∷ b'i' ∷ []) (float (negsuc 11) ∷ int (pos 0) ∷ [])) later
      applied wanted_lem (inr (inr (inl refl))) remembered unlink (inl refl)

application_plan-retained_example : contains repaired.retained input_link ≡ false
application_plan-retained_example =
    application_plan-retained config none repair [] [] [] repaired applied unlink (inl refl)
