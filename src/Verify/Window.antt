-- ===== src/Verify/Window.antt =====
-- src/oscmix_desk/verify.py: what the result of a read-back window holds.
use oscmix_desk.Common.{
  ◌≡◌, refl, ◌∙◌, inl, inr, Bool, true, false, not, ◌&&◌, ◌||◌, Option, List, [], ◌∷◌, arith,
  Bool-cases, subst,
}
use oscmix_desk.Common.Sets.{Distinct, contains, difference, contains-difference, List_eq}
use oscmix_desk.Common.Sort.{contains-sort_by, sort_by-Distinct}
use oscmix_desk.Common.Dict.{keys}
use oscmix_desk.Floats.{Floats}
use oscmix_desk.Paths.{OscPath, Segment_eq, path_le}
use oscmix_desk.Registers.{Device}
use oscmix_desk.Autogain.{Reports}
use oscmix_desk.Observation.{
  Observation, observation, absorb_all, unobserved, dependencies_complete,
}
use oscmix_desk.Observation.Verdicts.{
  IsClassified, absorb_all-IsClassified, observation-IsClassified,
}
use oscmix_desk.Observation.Complete.{absorb_all-expected}
use oscmix_desk.Verify.Once.{EachOnce, result_of-EachOnce, observe-SetsOnce}
use oscmix_desk.Verify.{
  VerifyResult, Round, observe, result_of, verify_routing, window_may_close, reportable,
}

module _ {F : Type 0} where
  -- Every expected register is in one of the three lists, no register is in two, an invalid one
  -- is a mismatched one, and no other register is in any.
  abbrev pub Partition : List OscPath → VerifyResult F → Type 0
  Partition expected r =
      (path : OscPath)
      → (contains expected path ≡ (
          contains r.confirmed path || (contains r.mismatched path || contains r.unobserved path)))
        × ((contains r.confirmed path && contains r.mismatched path) ≡ false)
        × ((contains r.confirmed path && contains r.unobserved path) ≡ false)
        × ((contains r.mismatched path && contains r.unobserved path) ≡ false)
        × ((contains r.invalid path && not (contains r.mismatched path)) ≡ false)

module _ {F : Type 0} ⦃fl : Floats F⦄ where
  observe_keeps :
      (o : Observation F) (prompt : List OscPath) (rounds : List (Round F))
      → IsClassified o
      → IsClassified (observe o prompt rounds) × ((observe o prompt rounds).expected ≡ o.expected)
  unfolding observe
  observe_keeps o prompt [] h = (h, refl)
  observe_keeps o prompt (round ∷ rounds) h =
      let later =
        observe_keeps (absorb_all o round.reports) prompt rounds
          (absorb_all-IsClassified o round.reports h) in
      elim (Bool-cases (
        round.stopped
        || (dependencies_complete o
            && window_may_close o.expected prompt o.confirmed o.mismatched))) [
              | inl closed ↦ rw closed (h, refl)
              | inr open_window ↦
                  rw open_window (later.0, later.1 ∙ absorb_all-expected o round.reports)
            ]

  contains-unobserved :
      (o : Observation F) (path : OscPath)
      → contains (unobserved o) path ≡ (
          (contains (keys o.expected) path && not (contains o.confirmed path))
          && not (contains o.mismatched path))
  unfolding unobserved
  contains-unobserved o path =
      rw (contains-difference (difference (keys o.expected) o.confirmed) o.mismatched path)
        (rw (contains-difference (keys o.expected) o.confirmed path))

  result_of-Partition :
      (o : Observation F) → IsClassified o → Partition (keys o.expected) (result_of o)
  unfolding result_of
  result_of-Partition o h path =
      rw
        (
          contains-sort_by path_le o.confirmed path,
          contains-sort_by path_le o.mismatched path,
          contains-sort_by path_le o.invalid path,
          contains-sort_by path_le (unobserved o) path,
          contains-unobserved o path,
        )
        (ground (arith, h path))

  -- However the window of a read-back ends, its result sorts the expected registers into
  -- confirmed, mismatched and not observed ones: each is in one of these lists, none is in two, no
  -- other register is in any, and an invalid one is mismatched. Where the expectations name each
  -- register once, so does each list of the result.
  pub verify_routing-Partition :
      (registers : Reports F) (device : Option (Device F)) (dependencies noted : List OscPath)
      (stopped : Bool) (rounds : List (Round F))
      → Distinct (keys registers)
      → Partition
          (keys registers)
          (verify_routing registers device dependencies noted stopped rounds)
        × EachOnce (verify_routing registers device dependencies noted stopped rounds)
  unfolding verify_routing contains observation
  verify_routing-Partition registers device dependencies noted true rounds once = (
    λ path. rw (contains-sort_by path_le (keys registers) path) (refl, refl, refl, refl, refl),
    (tt, tt, sort_by-Distinct path_le (keys registers) once, tt),
  )
  verify_routing-Partition registers device dependencies noted false rounds once = (
    subst (λ expected. Partition (keys expected) (result_of last)) kept.1
        (result_of-Partition last kept.0),
    result_of-EachOnce last (rw kept.1 once)
        (observe-SetsOnce start (reportable device (keys registers)) rounds (tt, tt, tt)),
  )
    where
      start : Observation F
      start = observation registers device dependencies noted

      last : Observation F
      last = observe start (reportable device (keys registers)) rounds

      kept : IsClassified last × (last.expected ≡ registers)
      kept =
          observe_keeps start (reportable device (keys registers)) rounds
            (observation-IsClassified registers device dependencies noted)
