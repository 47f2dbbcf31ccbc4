-- ===== src/Examples/Limited.antt =====
-- The theorem on limits.py at a plan that puts Room EQ of two outputs on.
use oscmix_desk.Common.{
  inl, inr, ℕ, ◌≡◌, ◌≤◌, refl, none, some, true, List, [], ◌∷◌, ok, All, length,
}
use oscmix_desk.Common.Int.{ℤ, pos}
use oscmix_desk.Common.Sets.{contains, List_eq}
use oscmix_desk.Common.Dict.{lookup}
use oscmix_desk.Paths.{OscPath, Segment_eq}
use oscmix_desk.Osc.Message.{Value, int}
use oscmix_desk.Registers.{Device}
use oscmix_desk.Autogain.{Reports}
use oscmix_desk.Model.Config.{Config}
use oscmix_desk.Limits.{
  DspLimits, reported_value, found_limits, switches_on, dsp_problem, output_path,
}
use oscmix_desk.Limits.Written.{final_value}
use oscmix_desk.Limits.Bound.{RoomEqAfter, dsp_problem_bound}
use oscmix_desk.Examples.Numbers.{ℤ_floats}
use oscmix_desk.Examples.Plans.{config as small}
use oscmix_desk.Examples.Mutes.{device as small_device}

abbrev config : Config ℤ
config = record small { device_name = "Fireface UCX II" }

abbrev outputs : List ℕ
outputs = 1 ∷ 2 ∷ 3 ∷ []

abbrev device : Device ℤ
device = record small_device { channels = ("output", outputs) ∷ [] }

abbrev limits : DspLimits
limits = record { roomeq_channels = 16; crossfeed_pairs = 4 }

abbrev writes : List (OscPath × List (Value ℤ))
writes =
    (output_path "roomeq" 1, int (pos 1) ∷ []) ∷ (output_path "roomeq" 2, int (pos 0) ∷ []) ∷ []

-- Room EQ of outputs 2 and 3 is on before, and outputs 1 and 2 are linked.
abbrev observed : Reports ℤ
observed =
    (output_path "roomeq" 2, (b'i' ∷ [], int (pos 1) ∷ []))
    ∷ (output_path "roomeq" 3, (b'i' ∷ [], int (pos 1) ∷ []))
    ∷ (output_path "stereo" 1, (b'i' ∷ [], int (pos 1) ∷ []))
    ∷ []

found : found_limits config (some device) ≡ some (limits, outputs)
unfolding found_limits lookup
found = refl

switching : switches_on writes outputs ≡ ok true
unfolding switches_on
switching = refl

fits : dsp_problem config (some device) writes observed ≡ ok none
unfolding dsp_problem
fits = refl

left_on : All (RoomEqAfter writes observed outputs) (1 ∷ 2 ∷ 3 ∷ [])
unfolding contains final_value reported_value lookup
left_on = (
  inl (refl, (pos 1, refl, refl)),
  (
    inr (1, inr refl, (refl, refl, refl), inl (refl, (pos 1, refl, refl))),
    (inl (refl, (pos 1, refl, refl)), tt),
  ),
)

dsp_problem_bound_example : length {A = ℕ} (1 ∷ 2 ∷ 3 ∷ []) ≤ 16
unfolding contains
dsp_problem_bound_example =
    dsp_problem_bound config (some device) limits outputs writes observed (1 ∷ 2 ∷ 3 ∷ []) found
      switching fits (refl, (refl, (refl, tt))) left_on
