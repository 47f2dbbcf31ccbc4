-- ===== src/Verify/Repair.antt =====
-- src/oscmix_desk/verify.py: the two operations that read the device back and write. What they send
-- is a sequence of effects. The deliveries of a read-back, the stop requests and the exceptions of
-- the backend are arguments, attempt by attempt.
pub mod Certified
use oscmix_desk.Common.{
  Bool, true, false, not, ◌&&◌, ◌||◌, Option, none, some, List, [], ◌∷◌, ◌++◌, if◌then◌else◌,
  Result, ok, err, ◌>>=◌,
}
use oscmix_desk.Common.Sets.{contains, List_eq}
use oscmix_desk.Common.Sort.{sort_by}
use oscmix_desk.Floats.{Floats}
use oscmix_desk.Paths.{OscPath, Segment_eq, path_le}
use oscmix_desk.Registers.{Device}
use oscmix_desk.Autogain.{dependency_paths}
use oscmix_desk.Model.{DeskError, is_empty}
use oscmix_desk.Model.Config.{Config}
use oscmix_desk.Reconcile.Entries.{Entry, phase_beq, link}
use oscmix_desk.Reconcile.Desired.{desired}
use oscmix_desk.Reconcile.Apply.{
  ApplyIntent, repair, reconcile, remembered_paths, linking, protected_entries, policy_for, is_pin,
}
use oscmix_desk.Limits.{dspload}
use oscmix_desk.Verify.{
  VerifyResult, Round, verify_routing, expected_registers, unconfirmed, register_ever_reported,
}

-- What an operation sends: a re-apply under an intent, from a result and with the links that need a
-- fresh confirmation, or the mix, from a result.
pub data Sent (F : Type 0) : Type 0 where
  reapplied : ApplyIntent → VerifyResult F → List OscPath → Sent F
  mixed : VerifyResult F → Sent F

-- What ends an operation: a refusal of the desk, or an exception of the backend.
pub data Failed (E : Type 0) : Type 0 where
  refused_desk : DeskError → Failed E
  raised : E → Failed E

abbrev of_desk : {E A : Type 0} → Result DeskError A → Result (Failed E) A
of_desk (ok a) = ok a
of_desk (err e) = err (refused_desk e)

-- One attempt: the stop requests at its start, in its read-back, behind it, before the repair and in
-- the wait behind it; the rounds of the read-back, and how the repair and the mix go.
pub record Attempt (E F : Type 0) : Type 0 where
  pub stop_before : Bool
  pub stop_reading : Bool
  pub read : Result E (List (Round F))
  pub stop_after : Bool
  pub stop_repair : Bool
  pub reapply : Result E (Unit {0})
  pub stop_settling : Bool
  pub send_mix : Result E (Unit {0})

-- How an attempt ends: on a stop, with another attempt, with this answer, or without one.
pub data Step : Type 0 where
  stopped again unresolved : Step
  answered : Bool → Step

abbrev pub answer_of : Step → Bool
answer_of (answered b) = b
answer_of _ = false

module _ {F : Type 0} where
  -- the links that the desk declares
  unfoldable pub declared_link_paths : List (Entry F) → List OscPath
  declared_link_paths [] = []
  declared_link_paths (e ∷ entries) =
      let rest = declared_link_paths entries in
      if phase_beq e.phase link then e.path ∷ rest else rest

-- `links.intersection(paths)`
unfoldable pub links_among : List OscPath → List OscPath → List OscPath
links_among [] paths = []
links_among (path ∷ links) paths =
    let rest = links_among links paths in if contains paths path then path ∷ rest else rest

module _ {F : Type 0} ⦃fl : Floats F⦄ where
  -- the problems that `_report` returns
  unfoldable pub report_problems :
      VerifyResult F → Config F → Option (Device F) → Result DeskError (List OscPath)
  unfolding desired linking remembered_paths unconfirmed
  report_problems result config device = do
    entries ← desired config device
    retained ← remembered_paths config device result.latest (linking result.confirmed entries)
    ok (unconfirmed result device config.policies retained)

  module _ (config : Config F) (device : Option (Device F)) where
    -- `blocked`, whether there is such a register
    unfoldable pub any_blocked : VerifyResult F → List OscPath → Bool
    unfolding policy_for register_ever_reported
    any_blocked result [] = false
    any_blocked result (path ∷ paths) =
        (contains (result.mismatched ++ result.unobserved) path
          && (is_pin (policy_for path device config.policies)
              && register_ever_reported path device))
        || any_blocked result paths

    -- the read-back of an attempt
    unfoldable pub read_back : Bool → List (Round F) → Result DeskError (VerifyResult F)
    unfolding expected_registers verify_routing dependency_paths
    read_back stopping rounds = do
      registers ← expected_registers config device
      ok (
          verify_routing registers device (dependency_paths config device) (dspload ∷ []) stopping
            rounds)

    -- what `reconcile_now` answers behind its writes
    unfoldable pub reconciled_answer : VerifyResult F → Result DeskError Bool
    unfolding remembered_paths protected_entries any_blocked
    reconciled_answer result = do
      kept ← remembered_paths config device result.latest []
      protected ← protected_entries config kept result.confirmed
      ok (not (any_blocked result protected))

  module _ {E : Type 0} (config : Config F) (device : Option (Device F)) where
    -- the end of an attempt that repairs nothing
    unfoldable pub mix_step :
        List OscPath
        → VerifyResult F
        → List OscPath
        → Attempt E F
        → List (Sent F) × Result (Failed E) Step
    unfolding links_among
    mix_step links result problems attempt =
        let wrong = links_among links result.mismatched in
        let end = if is_empty problems then answered (is_empty wrong) else unresolved in
        if is_empty wrong && not (is_empty links)
        then elim attempt.send_mix [
          | err e ↦ (mixed result ∷ [], err (raised e))
          | ok _ ↦ (mixed result ∷ [], ok end)
        ]
        else ([], ok end)

    -- the repair of the first attempt
    unfoldable pub repair_step :
        List OscPath → VerifyResult F → Attempt E F → List (Sent F) × Result (Failed E) Step
    unfolding links_among sort_by
    repair_step links result attempt =
        let sent =
          reapplied repair result (sort_by path_le (links_among links result.mismatched)) ∷ [] in
        if attempt.stop_repair then ([], ok stopped) else elim attempt.reapply [
          | err e ↦ (sent, err (raised e))
          | ok _ ↦ (sent, ok (if attempt.stop_settling then stopped else again))
        ]

    -- the attempt behind its read-back
    unfoldable pub judge_step :
        Bool → List OscPath → VerifyResult F → Attempt E F → List (Sent F) × Result (Failed E) Step
    unfolding report_problems mix_step repair_step
    judge_step first links result attempt = elim (report_problems result config device) [
      | err e ↦ ([], err (refused_desk e))
      | ok problems ↦
          if first && not (is_empty problems)
          then repair_step links result attempt
          else mix_step links result problems attempt
    ]

    unfoldable pub attempt_step :
        Bool → List OscPath → Attempt E F → List (Sent F) × Result (Failed E) Step
    unfolding read_back judge_step
    attempt_step first links attempt =
        if attempt.stop_before then ([], ok stopped) else elim attempt.read [
          | err e ↦ ([], err (raised e))
          | ok rounds ↦ elim (read_back config device attempt.stop_reading rounds) [
            | err e ↦ ([], err (refused_desk e))
            | ok result ↦
                if attempt.stop_after
                then ([], ok stopped)
                else judge_step first links result attempt
          ]
        ]

    -- the second attempt, behind what the first one sent
    unfoldable pub second_attempt :
        List OscPath → List (Sent F) → Attempt E F → List (Sent F) × Result (Failed E) Bool
    unfolding attempt_step
    second_attempt links sent attempt =
        let step = attempt_step false links attempt in
        (sent ++ step.0, elim step.1 [ err e ↦ err e | ok end ↦ ok (answer_of end) ])

    -- the loop over the two attempts
    unfoldable pub attempts :
        List OscPath → Attempt E F → Attempt E F → List (Sent F) × Result (Failed E) Bool
    unfolding attempt_step second_attempt
    attempts links first second =
        let step = attempt_step true links first in
        elim step.1 [
          | err e ↦ (step.0, err e)
          | ok (answered b) ↦ (step.0, ok b)
          | ok stopped ↦ (step.0, ok false)
          | ok again ↦ second_attempt links step.0 second
          | ok unresolved ↦ second_attempt links step.0 second
        ]

    -- `verify_and_repair`
    unfoldable pub verify_and_repair :
        Attempt E F → Attempt E F → List (Sent F) × Result (Failed E) Bool
    unfolding declared_link_paths attempts
    verify_and_repair first second = elim (desired config device) [
      | err e ↦ ([], err (refused_desk e))
      | ok entries ↦ attempts (declared_link_paths entries) first second
    ]

    -- `reconcile_now`, behind its read-back
    unfoldable pub reconcile_result :
        VerifyResult F → Result E (Unit {0}) → List (Sent F) × Result (Failed E) Bool
    unfolding report_problems desired links_among declared_link_paths reconciled_answer
    reconcile_result result reapply = elim (report_problems result config device) [
      | err e ↦ ([], err (refused_desk e))
      | ok _ ↦ elim (desired config device) [
        | err e ↦ ([], err (refused_desk e))
        | ok entries ↦
            let sent =
              reapplied reconcile result
                (links_among (declared_link_paths entries) result.mismatched)
              ∷ [] in
            elim reapply [
              | err e ↦ (sent, err (raised e))
              | ok _ ↦ (sent, of_desk (reconciled_answer config device result))
            ]
      ]
    ]

    -- `reconcile_now`, an attempt that does not stop before its read-back
    unfoldable pub reconcile_now : Attempt E F → List (Sent F) × Result (Failed E) Bool
    unfolding read_back reconcile_result
    reconcile_now attempt = elim attempt.read [
      | err e ↦ ([], err (raised e))
      | ok rounds ↦ elim (read_back config device attempt.stop_reading rounds) [
        | err e ↦ ([], err (refused_desk e))
        | ok result ↦
            if attempt.stop_after then ([], ok false) else reconcile_result result attempt.reapply
      ]
    ]
