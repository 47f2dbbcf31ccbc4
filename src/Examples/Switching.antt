-- ===== src/Examples/Switching.antt =====
-- The theorems on a quiet switch at a plan that mutes an output and sets a volume.
use oscmix_desk.Common.{ℕ, ◌≡◌, refl, none, some, false, List, [], ◌∷◌, ◌++◌, take, ℕ_eq}
use oscmix_desk.Common.Int.{ℤ, pos, negsuc}
use oscmix_desk.Common.Sets.{contains, List_eq}
use oscmix_desk.Common.Dict.{Dict, lookup, keys}
use oscmix_desk.Osc.Message.{int, float}
use oscmix_desk.Paths.{OscPath, word, num, Segment_eq}
use oscmix_desk.Reconcile.Entries.{channel, volume_path}
use oscmix_desk.Reconcile.Compare.{Write, unconditional}
use oscmix_desk.PeakSafe.{
  giving_back, declared_volumes, Effect, sends_plan, sends_messages, Failures, send_between,
  quieting, unquieted, volume_paths,
}
use oscmix_desk.PeakSafe.GivenBack.{last_value, trace_values, write_values}
use oscmix_desk.PeakSafe.Same.{send_between_own, send_between_other, send_between_quiet}
use oscmix_desk.Examples.Numbers.{ℤ_floats}

abbrev mute_path : OscPath
mute_path = word "output" ∷ num 1 ∷ word "mute" ∷ []

abbrev writes : List (Write ℤ)
writes =
    record {
      path = mute_path;
      tags = b'i' ∷ [];
      args = int (pos 1) ∷ [];
      phase = channel;
      reason = unconditional;
    }
    ∷ record {
      path = word "output" ∷ num 1 ∷ word "volume" ∷ [];
      tags = b'f' ∷ [];
      args = float (negsuc 9) ∷ [];
      phase = channel;
      reason = unconditional;
    }
    ∷ []

-- Both outputs of the pair reported a volume; the plan declares one of them.
abbrev volumes : Dict ℕ ℤ
volumes = (1, negsuc 19) ∷ (2, negsuc 29) ∷ []

-- The plan raises before its first write, or only the giving back does, behind one message.
abbrev fails : Failures
fails = record { plan = some 0; quieting = none; giving_back = none }

abbrev late : Failures
late = record { plan = none; quieting = none; giving_back = some 1 }

second : lookup 2 volumes ≡ some (negsuc 29)
unfolding lookup
second = refl

send_between_own_example :
    last_value (volume_path 2) (trace_values (send_between writes volumes fails).0) none
    ≡ last_value (volume_path 2) (write_values writes) (some (float (negsuc 29) ∷ []))
unfolding contains
send_between_own_example =
    send_between_own writes volumes fails 2 (negsuc 29) none (refl, (refl, tt)) refl refl second

free : contains (volume_paths (keys volumes)) mute_path ≡ false
unfolding contains volume_paths
free = refl

send_between_other_example :
    last_value mute_path (trace_values (send_between writes volumes late).0) none
    ≡ last_value mute_path (write_values writes) none
send_between_other_example = send_between_other writes volumes late mute_path none refl refl free

abbrev rest : List (Write ℤ)
rest = unquieted (volume_paths (keys volumes)) writes

abbrev down : Effect ℤ
down = sends_messages (quieting volumes)

abbrev back : Effect ℤ
back =
    sends_messages
      (take 1 (giving_back volumes (declared_volumes (volume_paths (keys volumes)) writes [])))

cut : (send_between writes volumes late).0 ≡ (down ∷ []) ++ (sends_plan rest ∷ back ∷ [])
unfolding send_between
cut = refl

send_between_quiet_example :
    last_value (volume_path 2) (trace_values (down ∷ []) ++ write_values (take 1 rest)) none
    ≡ some (float (negsuc 129) ∷ [])
send_between_quiet_example =
    send_between_quiet writes rest volumes late (down ∷ []) (back ∷ []) 2 1 (negsuc 29) none cut
      second
