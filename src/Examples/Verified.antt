-- ===== src/Examples/Verified.antt =====
-- The theorem on a verification at a desk whose registers are read back as they are declared.
use oscmix_desk.Common.{◌≡◌, ◌⊎◌, refl, none, true, false, List, [], ◌∷◌, ok}
use oscmix_desk.Common.Int.{ℤ, pos, negsuc}
use oscmix_desk.Osc.Message.{int, float}
use oscmix_desk.Paths.{word, num, starts_under, ends_with}
use oscmix_desk.Observation.{observation}
use oscmix_desk.Numeric.{equal_float}
use oscmix_desk.Reconcile.Entries.{link_messages, mix_messages}
use oscmix_desk.Reconcile.Desired.{desired}
use oscmix_desk.Verify.{Round}
use oscmix_desk.Verify.Repair.{Attempt, verify_and_repair, declared_link_paths}
use oscmix_desk.Verify.Repair.Certified.{ReadsClean, verify_and_repair-ReadsClean}
use oscmix_desk.Common.Dict.{lookup, insert}
use oscmix_desk.Model.{validate_route_pan, checked_pan}
use oscmix_desk.Base.{mix_path}
use oscmix_desk.Playback.{validate_playback_mute}
use oscmix_desk.Autogain.{validate_autogain}
use oscmix_desk.Examples.Numbers.{ℤ_floats}
use oscmix_desk.Examples.Plans.{config, wanted, link_path, matrix_path}

wanted_lem : desired config none ≡ ok wanted
unfolding desired validate_route_pan checked_pan validate_autogain validate_playback_mute
    link_messages mix_messages lookup insert mix_path
wanted_lem = refl

-- A link of another value first, then every register as it is declared.
abbrev rounds : List (Round ℤ)
rounds =
    record { stopped = false; reports = (link_path, (b'i' ∷ [], int (pos 0) ∷ [])) ∷ [] }
    ∷ record {
      stopped = false;
      reports =
          (link_path, (b'i' ∷ [], int (pos 1) ∷ []))
          ∷ (word "input" ∷ num 3 ∷ word "stereo" ∷ [], (b'i' ∷ [], int (pos 0) ∷ []))
          ∷ (matrix_path, (b'f' ∷ b'i' ∷ [], float (negsuc 11) ∷ int (pos 0) ∷ []))
          ∷ [];
    }
    ∷ []

abbrev attempt : Attempt Unit ℤ
attempt = record {
  stop_before = false;
  stop_reading = false;
  read = ok rounds;
  stop_after = false;
  stop_repair = false;
  reapply = ok tt;
  stop_settling = false;
  send_mix = ok tt;
}

succeeds : (verify_and_repair {E = Unit} config none attempt attempt).1 ≡ ok true
unfolding verify_and_repair validate_route_pan checked_pan validate_autogain validate_playback_mute
    link_messages mix_messages observation mix_path starts_under ends_with equal_float
succeeds = refl

verify_and_repair-ReadsClean_example :
    ReadsClean Unit ℤ config none (declared_link_paths wanted) attempt
    ⊎ ReadsClean Unit ℤ config none (declared_link_paths wanted) attempt
verify_and_repair-ReadsClean_example =
    verify_and_repair-ReadsClean Unit ℤ config none attempt attempt wanted wanted_lem succeeds
