-- ===== src/Examples/Windows.antt =====
-- The theorems on observations, read-backs and outcomes at concrete reports.
use oscmix_desk.Common.{◌≡◌, refl, none, some, true, false, List, [], ◌∷◌, ok}
use oscmix_desk.Common.Int.{ℤ, pos}
use oscmix_desk.Common.Sets.{Distinct, contains, List_eq}
use oscmix_desk.Common.Dict.{lookup, keys}
use oscmix_desk.Osc.Message.{int}
use oscmix_desk.Paths.{OscPath, word, num, Segment_eq, codes, ends_with, starts_under}
use oscmix_desk.Autogain.{Report, Reports}
use oscmix_desk.Observation.{observation, absorb_all, complete, confirms, Observation}
use oscmix_desk.Observation.Verdicts.{status, last_verdict, absorb_all-status}
use oscmix_desk.Observation.Complete.{complete-last_verdict}
use oscmix_desk.Verify.{Round, VerifyResult, verify_routing}
use oscmix_desk.Verify.Once.{EachOnce}
use oscmix_desk.Verify.Window.{Partition, verify_routing-Partition}
use oscmix_desk.Outcome.{Outcome, validate}
use oscmix_desk.Outcome.Evidence.{Promise, validate-Promise}
use oscmix_desk.Activation.{Answers, activate, verified_outcome, marked_outcome}
use oscmix_desk.Activation.Reported.{activate-Promise}
use oscmix_desk.Activation.Marker.{Committed, activate-Committed}
use oscmix_desk.Examples.Numbers.{ℤ_floats}

abbrev pub link_path : OscPath
link_path = word "output" ∷ num 1 ∷ word "stereo" ∷ []

abbrev report : ℤ → Report ℤ
report n = (b'i' ∷ [], int n ∷ [])

abbrev expected : Reports ℤ
expected = (link_path, report (pos 1)) ∷ []

abbrev start : Observation ℤ
start = observation expected none [] []

-- A stale value, and the one that corrects it.
abbrev reports : List (OscPath × Report ℤ)
reports = (link_path, report (pos 0)) ∷ (link_path, report (pos 1)) ∷ []

absorb_all-status_example :
    status (absorb_all start reports) link_path
    ≡ last_verdict start link_path reports (status start link_path)
absorb_all-status_example = absorb_all-status start link_path reports

corrected : complete (absorb_all (observation expected none [] []) reports) ≡ true
unfolding absorb_all observation complete lookup ends_with
corrected = refl

wanted : contains (keys expected) link_path ≡ true
unfolding contains
wanted = refl

complete-last_verdict_example :
    last_verdict (observation expected none [] []) link_path reports none ≡ some confirms
complete-last_verdict_example =
    complete-last_verdict expected none [] [] reports link_path corrected wanted

abbrev rounds : List (Round ℤ)
rounds = record { stopped = false; reports = reports } ∷ []

abbrev result : VerifyResult ℤ
result = verify_routing expected none [] [] false rounds

once : Distinct (keys expected)
unfolding contains
once = (refl, tt)

verify_routing-Partition_example : Partition (keys expected) result × EachOnce result
verify_routing-Partition_example = verify_routing-Partition expected none [] [] false rounds once

-- A switch that sent everything, read it back and remembered it.
abbrev answers : Answers ℤ
answers = record {
  maintenance = none;
  opened = ok tt;
  sent = none;
  result = ok result;
  finished = ok tt;
  marked = record { in_effect = true; durable = true };
}

activate-Promise_example :
    (x : Outcome) × (activate (codes "studio") true none (keys expected) answers ≡ ok x)
    × Promise x.state x
activate-Promise_example =
    activate-Promise (codes "studio") none (keys expected) true answers
      (tt, (verify_routing-Partition expected none [] [] false rounds once).0, refl)

abbrev studio : Outcome
studio = marked_outcome answers.marked (verified_outcome (codes "studio"))

activated : activate (codes "studio") true none (keys expected) answers ≡ ok studio
unfolding activate verify_routing observation starts_under ends_with
activated = refl

activate-Committed_example :
    (answers.maintenance ≡ none) × (answers.opened ≡ ok tt) × Committed answers
unfolding marked_outcome
activate-Committed_example =
    activate-Committed (codes "studio") none (keys expected) true answers studio activated refl

accepted : validate studio ≡ ok tt
unfolding validate marked_outcome verified_outcome
accepted = refl

validate-Promise_example : Promise studio.state studio
validate-Promise_example = validate-Promise studio accepted
