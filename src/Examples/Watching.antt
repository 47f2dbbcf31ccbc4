-- ===== src/Examples/Watching.antt =====
-- The theorems on the watcher at concrete deliveries.
use oscmix_desk.Common.{
  ℕ, ◌≡◌, ◌≤◌, refl, none, some, true, false, Bool, List, [], ◌∷◌, arith, length, In, ok, nat_eq,
}
use oscmix_desk.Common.Int.{ℤ, pos}
use oscmix_desk.Common.Sets.{contains, List_eq}
use oscmix_desk.Common.Dict.{lookup}
use oscmix_desk.Osc.Message.{int}
use oscmix_desk.Paths.{OscPath, word, num, Segment_eq, ends_with, starts_under}
use oscmix_desk.Numeric.{value}
use oscmix_desk.Registers.{Device, Register, literal, hole, verifiable, option_register}
use oscmix_desk.Autogain.{Reports}
use oscmix_desk.Model.{output, validate_route_pan}
use oscmix_desk.Autogain.{validate_autogain, retained_gains}
use oscmix_desk.Playback.{validate_playback_mute, retained_pairs, declared_mutes}
use oscmix_desk.Base.{base_entries}
use oscmix_desk.Common.Sort.{dedup}
use oscmix_desk.Reconcile.Desired.{desired}
use oscmix_desk.Model.Config.{Config}
use oscmix_desk.Reconcile.Compare.{Write, Plan, plan, write_of}
use oscmix_desk.Reconcile.Apply.{reconcile, application_plan}
use oscmix_desk.Observation.{observation, contradicts}
use oscmix_desk.Observation.Verdicts.{last_verdict}
use oscmix_desk.Watch.{
  Watch, Tick, known_limit, serve, tick, unreachable, lost, served, run, gave_up, drift, is_judged,
}
use oscmix_desk.Watch.Admission.{watch_repeats, new_repeats}
use oscmix_desk.Watch.Admission.Bound.{Event, asks, count_recent, replay, replay_bound}
use oscmix_desk.Watch.Known.{serve-known, tick_owned}
use oscmix_desk.Watch.Connections.{run_gives_up}
use oscmix_desk.Watch.Drift.{drift_lem}
use oscmix_desk.Examples.Mutes.{mute_register, device as small_device, config as small_config}
use oscmix_desk.Examples.Numbers.{ℤ_floats}

abbrev mute_path : OscPath
mute_path = word "output" ∷ num 1 ∷ word "mute" ∷ []

-- The device sets the register back four times within a minute; the fourth is left to it.
abbrev events : List (Event ℕ)
events =
    asks 0 (mute_path ∷ []) 1000
    ∷ asks 0 (mute_path ∷ []) 2000
    ∷ asks 0 (mute_path ∷ []) 3000
    ∷ asks 0 (mute_path ∷ []) 4000
    ∷ []

replay_bound_example :
    count_recent 4000 (replay nat_eq mute_path new_repeats [] events).1 ≤ watch_repeats
replay_bound_example = replay_bound nat_eq mute_path events 4000 (omega arith) (omega arith)

abbrev same_desk : Config ℤ → Config ℤ → Bool
same_desk a b = true

abbrev watch : Watch ℤ
watch = record {
  forgiven = false;
  repeats = new_repeats;
  known = [];
  pending = [];
  first = none;
  last = 0;
}

-- A report that the desk's own operation caused.
abbrev own_write : Tick ℤ
own_write = record {
  stop = false;
  reports = (mute_path, (b'i' ∷ [], int (pos 0) ∷ [])) ∷ [];
  owned = true;
  absorbed_at = 1000;
  settled_at = 1000;
  judged_at = 1000;
  desk = none;
  device = none;
}

serve-known_example : length (serve same_desk watch (own_write ∷ [])).0.known ≤ known_limit
serve-known_example = serve-known same_desk watch (own_write ∷ []) (omega arith)

tick_owned_example :
    ((tick same_desk watch own_write).1 ≡ true)
    × ((tick same_desk watch own_write).2 ≡ [])
    × ((tick same_desk watch own_write).0.pending ≡ [])
tick_owned_example = tick_owned same_desk watch own_write refl

run_gives_up_example : run 0 (unreachable ∷ lost 4000 ∷ unreachable ∷ served ∷ []) ≡ gave_up
run_gives_up_example =
    run_gives_up 0 (unreachable ∷ lost 4000 ∷ unreachable ∷ []) (served ∷ [])
      (tt, (omega arith, (tt, tt))) (omega arith)

abbrev output_mute : Register ℤ
output_mute = record mute_register {
  template = literal "output" ∷ hole "ch" ∷ literal "mute" ∷ [];
  verify = verifiable;
  channels = "output";
}

abbrev device : Device ℤ
device = record small_device { registers = output_mute ∷ [] }

abbrev config : Config ℤ
config = record small_config {
  routes = [];
  channels =
      record { family = output; channel = 1; option = "mute" ∷ []; value = value (int (pos 1)) }
      ∷ [];
}

-- The desk mutes the output; the device reports that it is not muted.
abbrev reports : Reports ℤ
reports = (mute_path, (b'i' ∷ [], int (pos 0) ∷ [])) ∷ []

contradicted_mute : contains (drift config (some device) reports reports) mute_path ≡ true
unfolding drift contains desired validate_route_pan validate_autogain validate_playback_mute
    base_entries option_register lookup retained_pairs starts_under ends_with dedup retained_gains
    declared_mutes plan write_of
contradicted_mute = refl

drift_lem_example :
    (p : Plan ℤ) × (w : Write ℤ) × (e : Reports ℤ) × (application_plan config
        (some device)
        reconcile
        []
        []
        reports
      ≡ ok p)
    × In w p.writes
    × (w.path ≡ mute_path)
    × (is_judged device w ≡ true)
    × (lookup mute_path e ≡ some (w.tags, w.args))
    × (last_verdict (observation e (some device) [] []) mute_path reports none ≡ some contradicts)
drift_lem_example = drift_lem config device reports reports mute_path contradicted_mute
