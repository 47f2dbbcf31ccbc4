-- ===== src/Verify/Once.antt =====
-- src/oscmix_desk/verify.py: the lists of a read-back's result name each register once.
use oscmix_desk.Common.{inl, inr, ◌&&◌, ◌||◌, Option, none, some, List, [], ◌∷◌, Bool-cases}
use oscmix_desk.Common.Sets.{
  contains, Distinct, add-Distinct, discard-Distinct, difference-Distinct, difference, List_eq,
}
use oscmix_desk.Common.Sort.{sort_by-Distinct}
use oscmix_desk.Common.Dict.{keys}
use oscmix_desk.Floats.{Floats}
use oscmix_desk.Paths.{OscPath, Segment_eq, path_le}
use oscmix_desk.Autogain.{Report}
use oscmix_desk.Observation.{
  Observation, Verdict, confirms, contradicts, malformed, retain, classify, verdict_of, absorb,
  absorb_all, unobserved, dependencies_complete,
}
use oscmix_desk.Verify.{VerifyResult, Round, observe, result_of, window_may_close}

module _ {F : Type 0} where
  -- Each list of a result names a register at most once.
  abbrev pub EachOnce : VerifyResult F → Type 0
  EachOnce r =
      Distinct r.confirmed × Distinct r.mismatched × Distinct r.unobserved × Distinct r.invalid

  abbrev pub SetsOnce : Observation F → Type 0
  SetsOnce o = Distinct o.confirmed × Distinct o.mismatched × Distinct o.invalid

  retain-SetsOnce :
      (o : Observation F) (path : OscPath) (report : Report F)
      → SetsOnce o
      → SetsOnce (retain o path report)
  unfolding retain
  retain-SetsOnce o path report h =
      elim (Bool-cases (
        contains (keys o.expected) path
        || (contains o.dependency_paths path || contains o.noted path))) [
          | inl kept ↦ rw kept h
          | inr other ↦ rw other h
        ]

  classify-SetsOnce :
      (o : Observation F) (path : OscPath) (verdict : Option Verdict)
      → SetsOnce o
      → SetsOnce (classify o path verdict)
  unfolding classify
  classify-SetsOnce o path none h = h
  classify-SetsOnce o path (some confirms) (c, m, i) = (
    add-Distinct path o.confirmed c,
    discard-Distinct path o.mismatched m,
    discard-Distinct path o.invalid i,
  )
  classify-SetsOnce o path (some contradicts) (c, m, i) = (
    discard-Distinct path o.confirmed c,
    add-Distinct path o.mismatched m,
    discard-Distinct path o.invalid i,
  )
  classify-SetsOnce o path (some malformed) (c, m, i) = (
    discard-Distinct path o.confirmed c,
    add-Distinct path o.mismatched m,
    add-Distinct path o.invalid i,
  )

module _ {F : Type 0} ⦃fl : Floats F⦄ where
  absorb_all-SetsOnce :
      (o : Observation F) (reports : List (OscPath × Report F))
      → SetsOnce o
      → SetsOnce (absorb_all o reports)
  unfolding absorb_all absorb
  absorb_all-SetsOnce o [] h = h
  absorb_all-SetsOnce o ((path, report) ∷ reports) h =
      absorb_all-SetsOnce (absorb o (path, report)) reports (
        classify-SetsOnce (retain o path report) path (verdict_of o path report)
          (retain-SetsOnce o path report h))

  pub observe-SetsOnce :
      (o : Observation F) (prompt : List OscPath) (rounds : List (Round F))
      → SetsOnce o
      → SetsOnce (observe o prompt rounds)
  unfolding observe
  observe-SetsOnce o prompt [] h = h
  observe-SetsOnce o prompt (round ∷ rounds) h =
      let later =
        observe-SetsOnce (absorb_all o round.reports) prompt rounds
          (absorb_all-SetsOnce o round.reports h) in
      elim (Bool-cases (
        round.stopped
        || (dependencies_complete o
            && window_may_close o.expected prompt o.confirmed o.mismatched))) [
              | inl closed ↦ rw closed h
              | inr waits ↦ rw waits later
            ]

  pub result_of-EachOnce :
      (o : Observation F) → Distinct (keys o.expected) → SetsOnce o → EachOnce (result_of o)
  unfolding result_of unobserved
  result_of-EachOnce o once (c, m, i) = (
    sort_by-Distinct path_le o.confirmed c,
    sort_by-Distinct path_le o.mismatched m,
    sort_by-Distinct path_le (unobserved o) (
        difference-Distinct o.mismatched (difference (keys o.expected) o.confirmed)
          (difference-Distinct o.confirmed (keys o.expected) once)),
    sort_by-Distinct path_le o.invalid i,
  )
