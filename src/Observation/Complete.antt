-- ===== src/Observation/Complete.antt =====
-- src/oscmix_desk/observation.py: what `complete` says, which compares two sizes only.
use oscmix_desk.Common.{
  ◌≡◌, true, Option, none, some, List, [], ◌∷◌, arith, refl, sym, ◌∙◌, length, nat_eq_iff, ◌≤◌,
}
use oscmix_desk.Common.Sets.{
  contains, List_eq, Distinct, add-Distinct, discard-Distinct, Distinct-contains,
}
use oscmix_desk.Common.Dict.{keys, length-keys}
use oscmix_desk.Floats.{Floats}
use oscmix_desk.Paths.{OscPath, Segment_eq}
use oscmix_desk.Autogain.{Report, Reports}
use oscmix_desk.Registers.{Device}
use oscmix_desk.Observation.{
  Observation, Verdict, confirms, contradicts, malformed, verdict_of, retain, classify, absorb,
  absorb_all, complete, observation,
}
use oscmix_desk.Observation.Verdicts.{
  status, IsClassified, last_verdict, retain-expected, absorb_all-status, absorb_all-IsClassified,
  observation-IsClassified,
}

module _ {F : Type 0} where
  classify-Distinct :
      (o : Observation F) (path : OscPath) (v : Option Verdict)
      → Distinct o.confirmed
      → Distinct (classify o path v).confirmed
  unfolding classify
  classify-Distinct o path none h = h
  classify-Distinct o path (some confirms) h = add-Distinct path o.confirmed h
  classify-Distinct o path (some contradicts) h = discard-Distinct path o.confirmed h
  classify-Distinct o path (some malformed) h = discard-Distinct path o.confirmed h

  classify-expected :
      (o : Observation F) (path : OscPath) (v : Option Verdict)
      → (classify o path v).expected ≡ o.expected
  unfolding classify
  classify-expected o path none = refl
  classify-expected o path (some confirms) = refl
  classify-expected o path (some contradicts) = refl
  classify-expected o path (some malformed) = refl

  retain-confirmed :
      (o : Observation F) (path : OscPath) (report : Report F)
      → (retain o path report).confirmed ≡ o.confirmed
  unfolding retain
  retain-confirmed o path report = ground arith

  complete-status :
      (o : Observation F) (path : OscPath)
      → IsClassified o
      → Distinct o.confirmed
      → complete o ≡ true
      → contains (keys o.expected) path ≡ true
      → status o path ≡ some confirms
  unfolding complete status
  complete-status o path sound once full wanted = rw (
      Distinct-contains o.confirmed (keys o.expected) once (λ q m. ground (arith, sound q, m)) short
        path wanted)
    where
      short : length (keys o.expected) ≤ length o.confirmed
      short = omega (
        arith,
        length-keys o.expected,
        (nat_eq_iff (length o.confirmed) (length o.expected)).0 full,
      )

module _ {F : Type 0} ⦃fl : Floats F⦄ where
  pub absorb_all-Distinct :
      (o : Observation F) (reports : List (OscPath × Report F))
      → Distinct o.confirmed
      → Distinct (absorb_all o reports).confirmed
  unfolding absorb_all absorb
  absorb_all-Distinct o [] h = h
  absorb_all-Distinct o ((path, report) ∷ reports) h =
      absorb_all-Distinct (absorb o (path, report)) reports (
        classify-Distinct (retain o path report) path (verdict_of o path report)
          (rw (retain-confirmed o path report) h))

  absorb-expected :
      (o : Observation F) (report : OscPath × Report F) → (absorb o report).expected ≡ o.expected
  unfolding absorb
  absorb-expected o (path, report) =
      classify-expected (retain o path report) path (verdict_of o path report)
      ∙ retain-expected o path report

  pub absorb_all-expected :
      (o : Observation F) (reports : List (OscPath × Report F))
      → (absorb_all o reports).expected ≡ o.expected
  unfolding absorb_all
  absorb_all-expected o [] = refl
  absorb_all-expected o (report ∷ reports) =
      absorb_all-expected (absorb o report) reports ∙ absorb-expected o report

  -- When a window that began with no report is complete, the last report with a verdict about
  -- each expected register confirms it, however many reports the window brought.
  pub complete-last_verdict :
      (expected : Reports F) (device : Option (Device F)) (dependencies noted : List OscPath)
      (reports : List (OscPath × Report F)) (path : OscPath)
      → complete (absorb_all (observation expected device dependencies noted) reports) ≡ true
      → contains (keys expected) path ≡ true
      → last_verdict (observation expected device dependencies noted) path reports none
        ≡ some confirms
  unfolding observation status
  complete-last_verdict expected device dependencies noted reports path full wanted =
      sym (absorb_all-status start path reports)
      ∙ complete-status (absorb_all start reports) path
          (absorb_all-IsClassified start reports
            (observation-IsClassified expected device dependencies noted))
          (absorb_all-Distinct start reports tt) full
          (rw (absorb_all-expected start reports) wanted)
    where
      start : Observation F
      start = observation expected device dependencies noted
