-- ===== src/PeakSafe.antt =====
-- src/oscmix_desk/peaksafe.py: a switch that pulls the outputs it changes down first. What was sent
-- is a sequence of effects; whether a call of the backend raises, and how many of its messages have
-- gone out by then, is an argument.
pub mod GivenBack
pub mod Same
use oscmix_desk.Common.{
  take, ℕ, zero, suc, ◌+◌, ◌-◌, ◌%◌, Bool, true, false, not, ◌&&◌, ◌||◌, Option, none, some, List,
  [], ◌∷◌, ◌++◌, String, leb, if◌then◌else◌, Result, ok, err, ◌==◌, ℕ_eq, String_eq,
}
use oscmix_desk.Common.Sets.{contains, List_eq}
use oscmix_desk.Common.Sort.{sort_by, dedup}
use oscmix_desk.Common.Dict.{Dict, lookup, insert, keys}
use oscmix_desk.Floats.{Floats}
use oscmix_desk.Osc.Message.{Value, int, float, text}
use oscmix_desk.Numeric.{value, float32}
use oscmix_desk.Paths.{OscPath, Segment_eq, word, num, ends_with}
use oscmix_desk.Registers.{Device, channels_for}
use oscmix_desk.Autogain.{Report, Reports}
use oscmix_desk.Model.Config.{Config}
use oscmix_desk.Reconcile.Entries.{Send, volume_path}
use oscmix_desk.Reconcile.Compare.{Write, Plan}
use oscmix_desk.Reconcile.Apply.{ApplyIntent, initial, explicit, repair, reconcile, write_paths}

-- an input or playback setting other than a link
unfoldable pub is_monitored : OscPath → Bool
unfolding ends_with
is_monitored (word family ∷ a ∷ b ∷ rest) =
    (family == "input" || family == "playback") && not (ends_with "stereo" (a ∷ b ∷ rest))
is_monitored _ = false

-- the pair of an output; a linked pair answers on its odd channel
unfoldable pub output_pair : ℕ → List ℕ
output_pair zero = 0 ∷ []
output_pair (suc n) = (suc n - n % 2) ∷ suc (suc n - n % 2) ∷ []

-- the outputs that a mix cell or an output setting changes
unfoldable pub path_outputs : OscPath → List ℕ
unfolding output_pair
path_outputs (word family ∷ num channel ∷ rest) =
    if family == "mix" || family == "output" then output_pair channel else []
path_outputs _ = []

-- the loop of `changed_outputs`: none for the early return
unfoldable pub scan_paths : List OscPath → List ℕ → Option (List ℕ)
unfolding is_monitored path_outputs
scan_paths [] changed = some changed
scan_paths (path ∷ paths) changed =
    let rest = scan_paths paths (changed ++ path_outputs path) in
    if is_monitored path then none else rest

unfoldable pub among : List ℕ → List ℕ → List ℕ
unfolding contains
among outputs [] = []
among outputs (n ∷ changed) =
    let rest = among outputs changed in if contains outputs n then n ∷ rest else rest

module _ {F : Type 0} where
  unfoldable pub changed_outputs : List OscPath → Device F → List ℕ
  unfolding scan_paths among channels_for sort_by dedup
  changed_outputs paths device = elim (scan_paths paths []) [
    | none ↦ channels_for device "output"
    | some changed ↦ sort_by leb (dedup (among (channels_for device "output") changed))
  ]

module _ {F : Type 0} ⦃fl : Floats F⦄ where
  -- the volume of a report, if it is usable
  unfoldable pub usable_volume : Option (Report F) → Option F
  unfolding float32
  usable_volume none = none
  usable_volume (some (tags, [])) = none
  usable_volume (some (tags, float x ∷ _)) =
      if fl.is_neg_inf x
      then some fl.level_min
      else elim (float32 (value (float x))) [ ok volume ↦ some volume | err _ ↦ none ]
  usable_volume (some (tags, int n ∷ _)) = elim (float32 (value (int n))) [
    | ok volume ↦ some volume
    | err _ ↦ none
  ]
  usable_volume (some (tags, text _ ∷ _)) = none

  unfoldable pub add_volumes : List ℕ → Reports F → Dict ℕ F → Dict ℕ F
  unfolding usable_volume volume_path lookup insert
  add_volumes [] observed volumes = volumes
  add_volumes (output ∷ outputs) observed volumes =
      elim (usable_volume (lookup (volume_path output) observed)) [
        | none ↦ add_volumes outputs observed volumes
        | some volume ↦ add_volumes outputs observed (insert output volume volumes)
      ]

  -- `reported_volumes`
  unfoldable pub reported_volumes : List ℕ → Reports F → Dict ℕ F
  unfolding add_volumes
  reported_volumes outputs observed = add_volumes outputs observed []

  unfoldable pub quiet_all : List ℕ → List (Send F)
  unfolding volume_path
  quiet_all [] = []
  quiet_all (output ∷ outputs) =
      (volume_path output, b'f' ∷ [], float fl.level_min ∷ []) ∷ quiet_all outputs

  -- `quieting`
  unfoldable pub quieting : Dict ℕ F → List (Send F)
  unfolding quiet_all sort_by
  quieting volumes = quiet_all (sort_by leb (keys volumes))

unfoldable pub volume_paths : List ℕ → List OscPath
unfolding volume_path
volume_paths [] = []
volume_paths (output ∷ outputs) = volume_path output ∷ volume_paths outputs

-- the order of `sorted(volumes.items())`, whose keys differ
abbrev pub output_le : {F : Type 0} → ℕ × F → ℕ × F → Bool
output_le (m, _) (n, _) = leb m n

module _ {F : Type 0} where
  -- what an output is given back: what the desk declares, else what it was
  unfoldable pub volume_after : Dict OscPath (List (Value F)) → ℕ → F → List (Value F)
  unfolding volume_path lookup
  volume_after declared output before = elim (lookup (volume_path output) declared) [
    | none ↦ float before ∷ []
    | some wanted ↦ wanted
  ]

  unfoldable pub give_all : List (ℕ × F) → Dict OscPath (List (Value F)) → List (Send F)
  unfolding volume_path volume_after
  give_all [] declared = []
  give_all ((output, before) ∷ volumes) declared =
      (volume_path output, b'f' ∷ [], volume_after declared output before)
      ∷ give_all volumes declared

  -- `giving_back`
  unfoldable pub giving_back : Dict ℕ F → Dict OscPath (List (Value F)) → List (Send F)
  unfolding give_all sort_by
  giving_back volumes declared = give_all (sort_by output_le volumes) declared

  -- `declared`
  unfoldable pub declared_volumes :
      List OscPath → List (Write F) → Dict OscPath (List (Value F)) → Dict OscPath (List (Value F))
  unfolding contains insert
  declared_volumes quieted [] declared = declared
  declared_volumes quieted (w ∷ ws) declared =
      let more = insert w.path w.args declared in
      if contains quieted w.path
      then declared_volumes quieted ws more
      else declared_volumes quieted ws declared

  -- the writes of `rest`
  unfoldable pub unquieted : List OscPath → List (Write F) → List (Write F)
  unfolding contains
  unquieted quieted [] = []
  unquieted quieted (w ∷ ws) =
      let rest = unquieted quieted ws in if contains quieted w.path then rest else w ∷ rest

  -- the volumes that `latest` lacks
  unfoldable pub missing_volumes : List ℕ → Reports F → List OscPath
  unfolding volume_path contains
  missing_volumes [] seen = []
  missing_volumes (output ∷ outputs) seen =
      let rest = missing_volumes outputs seen in
      if contains (keys seen) (volume_path output) then rest else volume_path output ∷ rest

  -- `seen.update(...)`
  unfoldable pub update_all : Reports F → Reports F → Reports F
  unfolding insert
  update_all seen [] = seen
  update_all seen ((path, report) ∷ reports) = update_all (insert path report seen) reports

abbrev pub is_explicit : ApplyIntent → Bool
is_explicit explicit = true
is_explicit initial = false
is_explicit repair = false
is_explicit reconcile = false

-- What goes to the backend: the writes of a plan, through `send`, or messages of this module.
pub data Effect (F : Type 0) : Type 0 where
  sends_plan : List (Write F) → Effect F
  sends_messages : List (Send F) → Effect F

-- The exception that leaves `send_quietly`, by the call that raised it.
pub data Raised : Type 0 where
  plan_failed quieting_failed giving_back_failed : Raised

-- For each call, the number of its messages that went out before it raised; none if it did not.
pub record Failures : Type 0 where
  pub plan : Option ℕ
  pub quieting : Option ℕ
  pub giving_back : Option ℕ

abbrev raised_by : Option ℕ → Raised → Option Raised
raised_by (some _) e = some e
raised_by none e = none

-- the messages of a call that went out
unfoldable pub sent_part : {A : Type 0} → Option ℕ → List A → List A
sent_part none messages = messages
sent_part (some n) messages = take n messages

module _ {F : Type 0} where
  unfoldable pub send_plan : List (Write F) → Failures → List (Effect F) × Option Raised
  unfolding sent_part
  send_plan writes fails =
      (sends_plan (sent_part fails.plan writes) ∷ [], raised_by fails.plan plan_failed)

  -- the volumes go back on every path; the failure of the plan is the one raised
  unfoldable pub send_and_give_back :
      List (Write F)
      → Dict ℕ F
      → Dict OscPath (List (Value F))
      → Failures
      → List (Effect F) × Option Raised
  unfolding giving_back sent_part
  send_and_give_back rest volumes declared fails = (
    sends_plan (sent_part fails.plan rest)
        ∷ sends_messages (sent_part fails.giving_back (giving_back volumes declared))
        ∷ [],
    elim fails.plan [
      | some _ ↦ some plan_failed
      | none ↦ raised_by fails.giving_back giving_back_failed
    ],
  )

module _ {F : Type 0} ⦃fl : Floats F⦄ where
  unfoldable pub send_between :
      List (Write F) → Dict ℕ F → Failures → List (Effect F) × Option Raised
  unfolding quieting send_and_give_back unquieted declared_volumes volume_paths sent_part
  send_between writes volumes fails =
      let quieted = volume_paths (keys volumes) in
      let sent =
        send_and_give_back (unquieted quieted writes) volumes (declared_volumes quieted writes [])
          fails in
      elim fails.quieting [
        | some n ↦ (sends_messages (take n (quieting volumes)) ∷ [], some quieting_failed)
        | none ↦ (sends_messages (quieting volumes) ∷ sent.0, sent.1)
      ]

  -- the reports that the volumes are taken from; `read` answers for the ones that are missing
  unfoldable pub seen_volumes : List ℕ → Reports F → (List OscPath → Reports F) → Reports F
  unfolding missing_volumes update_all
  seen_volumes outputs latest read = elim (missing_volumes outputs latest) [
    | [] ↦ latest
    | path ∷ paths ↦ update_all latest (read (path ∷ paths))
  ]

  -- the volumes of a peak-safe switch
  unfoldable pub switch_volumes :
      Device F → List (Write F) → Reports F → (List OscPath → Reports F) → Dict ℕ F
  unfolding changed_outputs write_paths reported_volumes seen_volumes
  switch_volumes device writes latest read =
      let outputs = changed_outputs (write_paths writes) device in
      reported_volumes outputs (seen_volumes outputs latest read)

  -- `send_quietly`
  unfoldable pub send_quietly :
      Config F
      → Option (Device F)
      → List (Write F)
      → ApplyIntent
      → Reports F
      → (List OscPath → Reports F)
      → Failures
      → List (Effect F) × Option Raised
  unfolding send_plan send_between switch_volumes
  send_quietly config none writes intent latest read fails = send_plan writes fails
  send_quietly config (some device) [] intent latest read fails = send_plan [] fails
  send_quietly config (some device) (w ∷ ws) intent latest read fails =
      if not config.peak_safe || not (is_explicit intent)
      then send_plan (w ∷ ws) fails
      else elim (switch_volumes device (w ∷ ws) latest read) [
        | [] ↦ send_plan (w ∷ ws) fails
        | volume ∷ volumes ↦ send_between (w ∷ ws) (volume ∷ volumes) fails
      ]
