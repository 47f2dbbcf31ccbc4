-- ===== src/Verify.antt =====
-- src/oscmix_desk/verify.py: what a read-back expects, how long its window stays open, and what it
-- makes of the registers that were not confirmed. Time is the sequence of rounds before the
-- deadline, each with the stop request and the delivery that it met.
pub mod Once
pub mod Window
pub mod Repair
use oscmix_desk.Common.{
  ℕ, Bool, true, false, not, ◌&&◌, ◌||◌, Option, none, some, List, [], ◌∷◌, ◌++◌, String, nat_eq,
  if◌then◌else◌, Result, ok, err, ◌>>=◌, ◌==◌, String_eq, length,
}
use oscmix_desk.Common.Sets.{contains, is_subset, List_eq}
use oscmix_desk.Common.Sort.{sort_by}
use oscmix_desk.Common.Dict.{insert, keys}
use oscmix_desk.Floats.{Floats}
use oscmix_desk.Paths.{OscPath, Segment, word, num, Segment_eq, path_le, ends_with, starts_under}
use oscmix_desk.Registers.{
  Device, Register, Part, literal, hole, VerifyClass, verifiable, verify_class, register_at,
  has_domain, cold_plug_complete, Policy, pin, remember,
}
use oscmix_desk.Autogain.{Report, Reports}
use oscmix_desk.Model.{DeskError}
use oscmix_desk.Model.Config.{Config}
use oscmix_desk.Reconcile.Entries.{Entry}
use oscmix_desk.Reconcile.Desired.{desired}
use oscmix_desk.Reconcile.Apply.{Policies, policy_for, is_pin}
use oscmix_desk.Observation.{
  Observation, observation, absorb_all, unobserved, dependencies_complete,
}

-- `VerifyResult`
pub record VerifyResult (F : Type 0) : Type 0 where
  pub confirmed : List OscPath
  pub mismatched : List OscPath
  pub unobserved : List OscPath
  pub invalid : List OscPath
  pub latest : Reports F

abbrev is_reported : VerifyClass → Bool
is_reported verifiable = true
is_reported _ = false

-- `"/playback/" in path`, behind the first segment
unfoldable pub crosses_playback : OscPath → Bool
crosses_playback [] = false
crosses_playback (_ ∷ []) = false
crosses_playback (word s ∷ next ∷ rest) = s == "playback" || crosses_playback (next ∷ rest)
crosses_playback (num n ∷ next ∷ rest) = crosses_playback (next ∷ rest)

-- the rule without a table: the playback matrix and the link flags are not reported
unfoldable pub reported_by_name : OscPath → Bool
unfolding crosses_playback
reported_by_name path =
    not (starts_under "playback" path && ends_with "stereo" path)
    && not (starts_under "mix" path && crosses_playback path)

-- `register.template.startswith(("/input/{ch}/", "/output/{ch}/"))`
unfoldable pub channel_template : List Part → Bool
channel_template (literal family ∷ hole name ∷ _ ∷ _) =
    (family == "input" || family == "output") && name == "ch"
channel_template _ = false

module _ {F : Type 0} where
  unfoldable pub register_ever_reported : OscPath → Option (Device F) → Bool
  unfolding verify_class reported_by_name
  register_ever_reported path device = elim (verify_class device path) [
    | none ↦ reported_by_name path
    | some verify ↦ is_reported verify
  ]

  -- `_is_channel_state`
  unfoldable pub is_channel_state : Device F → OscPath → Bool
  unfolding register_at channel_template
  is_channel_state device path = elim (register_at (some device) path) [
    | none ↦ false
    | some register ↦ has_domain register && channel_template register.template
  ]

  unfoldable pub register_promptly_reported : OscPath → Option (Device F) → Bool
  unfolding register_ever_reported cold_plug_complete
  register_promptly_reported path none = register_ever_reported path none
  register_promptly_reported path (some device) =
      register_ever_reported path (some device)
      && (not (is_channel_state device path) || cold_plug_complete (some device) path)

  -- the entries that a read-back compares, as a dict
  unfoldable pub compared_registers : List (Entry F) → Reports F → Reports F
  unfolding insert
  compared_registers [] registers = registers
  compared_registers (e ∷ es) registers =
      let rest = insert e.path (e.tags, e.args) registers in
      if e.compared then compared_registers es rest else compared_registers es registers

module _ {F : Type 0} ⦃fl : Floats F⦄ where
  unfoldable pub expected_registers : Config F → Option (Device F) → Result DeskError (Reports F)
  unfolding compared_registers
  expected_registers config device = do
    entries ← desired config device
    ok (compared_registers entries [])

module _ {F : Type 0} where
  -- `{path for path in registers if register_ever_reported(path, device_model)}`
  unfoldable pub reportable : Option (Device F) → List OscPath → List OscPath
  unfolding register_ever_reported
  reportable device [] = []
  reportable device (path ∷ paths) =
      let rest = reportable device paths in
      if register_ever_reported path device then path ∷ rest else rest

  -- `_window_may_close`
  unfoldable pub window_may_close : Reports F → List OscPath → List OscPath → List OscPath → Bool
  unfolding is_subset
  window_may_close expected prompt confirmed (_ ∷ _) = false
  window_may_close expected prompt confirmed [] =
      nat_eq (length confirmed) (length expected)
      || elim prompt [ [] ↦ false | path ∷ more ↦ is_subset (path ∷ more) confirmed ]

-- a round of the window: whether a stop is asked at its start, and the delivery behind it
pub record Round (F : Type 0) : Type 0 where
  pub stopped : Bool
  pub reports : List (OscPath × Report F)

module _ {F : Type 0} ⦃fl : Floats F⦄ where
  -- `_observe`
  unfoldable pub observe : Observation F → List OscPath → List (Round F) → Observation F
  unfolding dependencies_complete window_may_close absorb_all
  observe o prompt [] = o
  observe o prompt (round ∷ rounds) =
      let rest = observe (absorb_all o round.reports) prompt rounds in
      if round.stopped
        || (dependencies_complete o && window_may_close o.expected prompt o.confirmed o.mismatched)
      then o
      else rest

  -- what a window leaves
  unfoldable pub result_of : Observation F → VerifyResult F
  unfolding unobserved sort_by
  result_of o = record {
    confirmed = sort_by path_le o.confirmed;
    mismatched = sort_by path_le o.mismatched;
    unobserved = sort_by path_le (unobserved o);
    invalid = sort_by path_le o.invalid;
    latest = o.latest;
  }

  -- `verify_routing`, once the backend has acknowledged its request
  unfoldable pub verify_routing :
      Reports F
      → Option (Device F)
      → List OscPath
      → List OscPath
      → Bool
      → List (Round F)
      → VerifyResult F
  unfolding observe result_of reportable
  verify_routing registers device dependencies noted stopped rounds =
      if stopped
      then record {
        confirmed = [];
        mismatched = [];
        unobserved = sort_by path_le (keys registers);
        invalid = [];
        latest = [];
      }
      else result_of (
          observe (observation registers device dependencies noted)
            (reportable device (keys registers)) rounds)

module _ {F : Type 0} where
  -- `lost`
  unfoldable pub lost : Option (Device F) → Policies → List OscPath → List OscPath → List OscPath
  unfolding policy_for register_promptly_reported
  lost device overrides retained [] = []
  lost device overrides retained (path ∷ paths) =
      let rest = lost device overrides retained paths in
      if not (contains retained path)
        && (is_pin (policy_for path device overrides) && register_promptly_reported path device)
      then path ∷ rest
      else rest

  -- `insisted`
  unfoldable pub insisted :
      Option (Device F) → Policies → List OscPath → List OscPath → List OscPath
  unfolding policy_for
  insisted device overrides retained [] = []
  insisted device overrides retained (path ∷ paths) =
      let rest = insisted device overrides retained paths in
      if not (contains retained path) && is_pin (policy_for path device overrides)
      then path ∷ rest
      else rest

  -- `_unconfirmed`
  unfoldable pub unconfirmed :
      VerifyResult F → Option (Device F) → Policies → List OscPath → List OscPath
  unfolding lost insisted
  unconfirmed result device overrides retained = sort_by path_le (
      insisted device overrides retained result.mismatched
      ++ lost device overrides retained result.unobserved)

  -- the mismatches that the device may keep
  unfoldable pub kept_paths :
      Option (Device F) → Policies → List OscPath → List OscPath → List OscPath → List OscPath
  unfolding policy_for
  kept_paths device overrides retained invalid [] = []
  kept_paths device overrides retained invalid (path ∷ paths) =
      let rest = kept_paths device overrides retained invalid paths in
      if not (contains invalid path)
        && (contains retained path || not (is_pin (policy_for path device overrides)))
      then path ∷ rest
      else rest

  -- `_kept_by_the_device`
  unfoldable pub kept_by_the_device :
      VerifyResult F → Option (Device F) → Policies → List OscPath → List OscPath
  unfolding kept_paths
  kept_by_the_device result device overrides retained =
      sort_by path_le (kept_paths device overrides retained result.invalid result.mismatched)
