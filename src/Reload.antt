-- ===== src/Reload.antt =====
-- src/oscmix_desk/reload.py: a desk that a running session reads again, and what its reconcile
-- reports; with `effective_config` and `keep_machine_settings` of profiles.py. What the files say
-- and how the operation goes are arguments; an exception's text is left out.
pub mod Kept
pub mod Stamps
pub mod Cache
use oscmix_desk.Common.{
  Bool, true, false, not, ◌&&◌, ◌||◌, Option, none, some, List, [], ◌∷◌, if◌then◌else◌, Result, ok,
  err,
}
use oscmix_desk.Osc.Bytes.{Text}
use oscmix_desk.Model.Config.{Config, Machine, Identity, under, elsewhere}

-- `ConfigError`
pub data ConfigError : Type 0 where
  unusable_main unusable_profile unusable_desk : ConfigError

-- What the files of a desk hold: `load_config`, `active_profile` and `load_profile`.
pub record Files (F : Type 0) : Type 0 where
  pub main : Result ConfigError (Config F)
  pub active : Option Text
  pub profile : Result ConfigError (Config F)

module _ {F : Type 0} where
  -- the desk of an active profile; one that does not load leaves the main desk, unless `strict`
  unfoldable pub active_desk :
      Bool
      → Config F
      → Text
      → Result ConfigError (Config F)
      → Result ConfigError (Config F × Option Text)
  active_desk strict main name (ok profile) = ok (profile, some name)
  active_desk true main name (err _) = err unusable_profile
  active_desk false main name (err _) = ok (main, none)

  -- `effective_config`
  unfoldable pub effective_config : Bool → Files F → Result ConfigError (Config F × Option Text)
  unfolding active_desk
  effective_config strict files = elim files.main [
    | err e ↦ err e
    | ok main ↦ elim files.active [
      | none ↦ ok (main, none)
      | some name ↦ active_desk strict main name files.profile
    ]
  ]

  unfoldable pub machine_of : Config F → Machine
  machine_of c = record {
    device_name = c.device_name;
    usb_id = c.usb_id;
    serial = c.serial;
    osc_port = c.osc_port;
    osc_recv_port = c.osc_recv_port;
  }

  -- `_moved`
  unfoldable pub moved : Config F → Config F → List Identity
  unfolding machine_of under elsewhere
  moved fresh running = elim fresh.loaded [
    | none ↦ []
    | some declared ↦ elsewhere (under declared running.overrides) (machine_of running)
  ]

  -- `keep_machine_settings`
  unfoldable pub keep_machine_settings : Config F → Config F → Config F
  keep_machine_settings desk running = record desk {
    device_name = running.device_name;
    usb_id = running.usb_id;
    serial = running.serial;
    osc_port = running.osc_port;
    osc_recv_port = running.osc_recv_port;
    overrides = running.overrides;
  }

  -- `_kept_for_this_process`
  unfoldable pub kept_for_this_process : Config F → Config F → Option (Config F)
  unfolding moved keep_machine_settings
  kept_for_this_process fresh running = elim (moved fresh running) [
    | [] ↦ some (keep_machine_settings fresh running)
    | _ ∷ _ ↦ none
  ]

  -- `_reread_desk`; none for the path of a session without a config file
  unfoldable pub reread_desk : Config F → Option (Files F) → Bool → Option (Config F)
  unfolding effective_config kept_for_this_process
  reread_desk running none strict = some running
  reread_desk running (some files) strict = elim (effective_config strict files) [
    | err _ ↦ none
    | ok (fresh, active) ↦ kept_for_this_process fresh running
  ]

  -- `_desk_under_the_lock`
  unfoldable pub desk_under_the_lock :
      Config F → Option (Files F) → Bool → Result ConfigError (Config F)
  unfolding reread_desk
  desk_under_the_lock running files strict = elim (reread_desk running files strict) [
    | some fresh ↦ ok fresh
    | none ↦ if strict then err unusable_desk else ok running
  ]

  -- `_reload_config`
  unfoldable pub reload_config : Config F → Option (Files F) → Bool → Result ConfigError (Config F)
  unfolding reread_desk
  reload_config running files strict = elim (reread_desk running files strict) [
    | some fresh ↦ ok fresh
    | none ↦ err unusable_desk
  ]

  -- `desk_in_effect`
  unfoldable pub desk_in_effect : Config F → Option (Files F) → Bool → Option (Config F)
  unfolding effective_config moved keep_machine_settings
  desk_in_effect running none strict = some running
  desk_in_effect running (some files) strict = elim (effective_config strict files) [
    | err _ ↦ none
    | ok (fresh, active) ↦ elim (moved fresh running) [
      | [] ↦ some (keep_machine_settings fresh running)
      | _ ∷ _ ↦ none
    ]
  ]

-- A round of the wait for the start-up verifier.
pub record Wait : Type 0 where
  pub alive : Bool
  pub stop : Bool
  pub late : Bool

-- `_verifier_finished`; none for a session without a verifier, and a list that ends for one whose
-- thread has ended
unfoldable pub wait_for_verifier : List Wait → Bool
wait_for_verifier [] = true
wait_for_verifier (wait ∷ waits) =
    let rest = wait_for_verifier waits in
    if wait.alive then (if wait.stop || wait.late then false else rest) else true

unfoldable pub verifier_finished : Option (List Wait) → Bool
unfolding wait_for_verifier
verifier_finished none = true
verifier_finished (some waits) = wait_for_verifier waits

-- What a reconcile reports on the status line.
pub data Report : Type 0 where
  reconciled incomplete skipped : Report

-- The exceptions that end the operation: the lock, a `ConfigError`, and an `OSError`, with whether
-- it is a `WriteFailed` with submitted writes.
pub data Failure : Type 0 where
  lock_unavailable config_refused : Failure
  os_error : Bool → Failure

-- How the operation goes: what `desk.apply` returns, or the exception that leaves the block before;
-- the stop request behind it; the exception of `desk._finish`; and the one of the block's end.
pub record Operation : Type 0 where
  pub applied : Result Failure Bool
  pub stop : Bool
  pub finished : Result Failure (Unit {0})
  pub closed : Result Failure (Unit {0})

-- `_stood_down`
unfoldable pub stood_down : Bool → Bool → Report
stood_down submitted planned = if planned || submitted then incomplete else skipped

unfoldable pub failed_report : Bool → Failure → Report
unfolding stood_down
failed_report planned lock_unavailable = skipped
failed_report planned config_refused = skipped
failed_report planned (os_error submitted) = stood_down submitted planned

-- the report of a block that ends with this report, or with an exception
unfoldable pub ended_report : Report → Result Failure (Unit {0}) → Report
unfolding failed_report
ended_report report (err failure) = failed_report true failure
ended_report report (ok _) = report

unfoldable pub finished_report : Bool → Operation → Report
unfolding failed_report ended_report
finished_report complete op = elim op.finished [
  | err failure ↦ failed_report true failure
  | ok _ ↦ ended_report (if complete then reconciled else incomplete) op.closed
]

-- `_reconcile_once`
unfoldable pub reconcile_once : Option (List Wait) → Operation → Report
unfolding verifier_finished failed_report finished_report ended_report
reconcile_once verifier op =
    if verifier_finished verifier
    then elim op.applied [
      | err failure ↦ failed_report false failure
      | ok complete ↦
          if op.stop then ended_report incomplete op.closed else finished_report complete op
    ]
    else skipped

-- `_reconcile`: the status line, unless a stop is asked
unfoldable pub reconcile : Option (List Wait) → Operation → Bool → Option Report
unfolding reconcile_once
reconcile verifier op stopping = if stopping then none else some (reconcile_once verifier op)
