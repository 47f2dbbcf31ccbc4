-- ===== src/Examples/Gains.antt =====
-- The theorem on retained gains at an input whose AutoSet is reported off.
use oscmix_desk.Common.{◌≡◌, refl, inl, some, true, false, In, ◌⊎◌, [], ◌∷◌}
use oscmix_desk.Common.Int.{ℤ, pos}
use oscmix_desk.Common.Sets.{contains, List_eq}
use oscmix_desk.Common.Sort.{sort_by, dedup}
use oscmix_desk.Common.Dict.{lookup}
use oscmix_desk.Osc.Message.{int, float}
use oscmix_desk.Paths.{Segment_eq, word, num}
use oscmix_desk.Numeric.{value}
use oscmix_desk.Registers.{Device}
use oscmix_desk.Model.{input}
use oscmix_desk.Model.Config.{Config}
use oscmix_desk.Autogain.{Reports, pairs, input_path, declared_on, retained_gains}
use oscmix_desk.Autogain.Retention.{Unowned, Unlinked, retained_gains_free}
use oscmix_desk.Examples.Mutes.{device as small_device}
use oscmix_desk.Examples.Mutes.{config as small_config}
use oscmix_desk.Examples.Numbers.{ℤ_floats}

abbrev device : Device ℤ
device = record small_device { name = "Fireface UCX II" }

abbrev config : Config ℤ
config = record small_config {
  routes = [];
  channels =
      record { family = input; channel = 1; option = "gain" ∷ []; value = value (float (pos 20)) }
      ∷ [];
}

-- AutoSet of input 1 is off and the pair is not linked; input 2 has not reported.
abbrev reports : Reports ℤ
reports =
    (word "input" ∷ num 1 ∷ word "autoset" ∷ [], (b'i' ∷ [], int (pos 0) ∷ []))
    ∷ (word "input" ∷ num 1 ∷ word "stereo" ∷ [], (b'i' ∷ [], int (pos 0) ∷ []))
    ∷ []

gain_free :
    contains (retained_gains config (some device) reports [] true) (input_path 1 "gain") ≡ false
unfolding retained_gains lookup contains sort_by dedup input_path
gain_free = refl

pair_In : In 1 (pairs config (some device))
unfolding pairs sort_by dedup contains
pair_In = inl refl

retained_gains_free_example :
    Unowned (declared_on config.channels) reports [] 1
    × (Unlinked (declared_on config.channels) reports [] 1
        ⊎ (Unowned (declared_on config.channels) reports [] 1
            × Unowned (declared_on config.channels) reports [] 2))
retained_gains_free_example =
    retained_gains_free config (some device) reports [] 1 1 pair_In (inl refl) gain_free
