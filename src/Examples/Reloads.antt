-- ===== src/Examples/Reloads.antt =====
-- The theorems on reload.py at a desk whose file a running session reads again.
use mathlib.Core.Option.{some-injective}
use oscmix_desk.Common.{
  ap, arith, ◌≢◌, Option, if◌then◌else◌, ◌==◌, ℕ, ◌≡◌, refl, none, some, true, false, List, [], ◌∷◌,
  ok, err, ℕ_eq,
}
use oscmix_desk.Common.Int.{ℤ}
use oscmix_desk.Model.Config.{Config, clear_submixes}
use oscmix_desk.Reload.{
  Files, machine_of, reread_desk, keep_machine_settings, desk_in_effect, Operation, Wait,
  verifier_finished, reconcile_once, reconciled, unusable_profile,
}
use oscmix_desk.Reload.Kept.{SameMachine, reread_desk-SameMachine, reconcile_once-reconciled}
use oscmix_desk.Reload.Stamps.{Places, Disk, current}
use oscmix_desk.Reload.Cache.{sees, current-rereads}
use oscmix_desk.Common.Sets.{contains, List_eq}
use oscmix_desk.Osc.Bytes.{Text}
use oscmix_desk.Examples.Plans.{config}

abbrev edited : Config ℤ
edited = record config { loaded = some (machine_of config); base = clear_submixes }

-- A profile is remembered that does not load any more.
abbrev files : Files ℤ
files = record { main = ok edited; active = some (b'n' ∷ []); profile = err unusable_profile }

read_again : reread_desk config (some files) false ≡ some (keep_machine_settings edited config)
unfolding reread_desk
read_again = refl

reread_desk-SameMachine_example :
    SameMachine config (some files) false (keep_machine_settings edited config)
reread_desk-SameMachine_example =
    reread_desk-SameMachine config (keep_machine_settings edited config) (some files) false
      read_again

-- The verifier ends after one round.
abbrev waits : List Wait
waits =
    record { alive = true; stop = false; late = false }
    ∷ record { alive = false; stop = false; late = false }
    ∷ []

abbrev operation : Operation
operation = record { applied = ok true; stop = false; finished = ok tt; closed = ok tt }

succeeds : reconcile_once (some waits) operation ≡ reconciled
unfolding reconcile_once
succeeds = refl

reconcile_once-reconciled_example :
    (verifier_finished (some waits) ≡ true)
    × (operation.applied ≡ ok true)
    × (operation.stop ≡ false)
    × (operation.finished ≡ ok tt)
    × (operation.closed ≡ ok tt)
reconcile_once-reconciled_example = reconcile_once-reconciled (some waits) operation succeeds

-- `r`, `m` and `p/` with a name
abbrev places : Places
places = record { config = b'r' ∷ []; marker = b'm' ∷ []; profile = λ name. b'p' ∷ b'/' ∷ name }

abbrev stamp_of : ℕ → Text → Option (ℕ × ℕ)
stamp_of size path = if path == (b'p' ∷ b'/' ∷ b'n' ∷ []) then some (20, size) else some (10, 300)

-- The one profile grows between two checks.
abbrev disk_of : ℕ → Files ℤ → Disk ℤ
disk_of size files = record {
  stat = stamp_of size;
  listed = some ((b'n' ∷ []) ∷ []);
  files = files;
}

abbrev before : Disk ℤ
before = disk_of 80 (record { main = ok edited; active = none; profile = ok edited })

abbrev now : Disk ℤ
now = disk_of 90 files

grown : sees places before (b'p' ∷ b'/' ∷ b'n' ∷ []) ≢ sees places now (b'p' ∷ b'/' ∷ b'n' ∷ [])
unfolding contains
grown h =
    let sizes : ◌≡◌ {A = ℕ} 80 90 = ap (λ s. s.1) (some-injective (20, 80) (20, 90) h) in
    omega (arith, sizes)

current-rereads_example :
    (current config (some places) false (current config (some places) false none before).0 now).1
    ≡ desk_in_effect config (some files) false
current-rereads_example =
    current-rereads config places false none before now (b'p' ∷ b'/' ∷ b'n' ∷ []) grown
