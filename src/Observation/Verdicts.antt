-- ===== src/Observation/Verdicts.antt =====
-- src/oscmix_desk/observation.py: the three sets of an observation, against the plain statement
-- that the last report about a register decides what is known of it.
use oscmix_desk.Common.{
  ◌≡◌, refl, inl, inr, true, false, ◌&&◌, ◌||◌, not, Option, none, some, List, [], ◌∷◌, arith,
  if◌then◌else◌, ◌==◌, ap, ◌∙◌, Bool-cases, Option-cases,
}
use oscmix_desk.Common.Sets.{contains, contains_iff, contains_add, contains-discard, List_eq}
use oscmix_desk.Common.Dict.{lookup, keys, lookup-keys}
use oscmix_desk.Floats.{Floats}
use oscmix_desk.Paths.{OscPath, Segment_eq}
use oscmix_desk.Registers.{Device}
use oscmix_desk.Autogain.{Report, Reports}
use oscmix_desk.Observation.{
  Observation, Verdict, confirms, contradicts, malformed, observation, well_formed, valid,
  judge_report, verdict_of, retain, classify, absorb, absorb_all,
}

module _ {F : Type 0} where
  -- what the sets say of a register
  unfoldable pub status : Observation F → OscPath → Option Verdict
  unfolding contains
  status o path =
      if contains o.confirmed path
      then some confirms
      else if contains o.mismatched path
      then (if contains o.invalid path then some malformed else some contradicts)
      else none

  -- The sets agree on a register, and hold it only if it is expected.
  abbrev pub Consistent : Observation F → OscPath → Type 0
  Consistent o path =
      ((contains o.confirmed path && contains o.mismatched path) ≡ false)
      × ((contains o.invalid path && not (contains o.mismatched path)) ≡ false)
      × (((contains o.confirmed path || contains o.mismatched path)
            && not (contains (keys o.expected) path))
          ≡ false)

  abbrev pub IsClassified : Observation F → Type 0
  IsClassified o = (path : OscPath) → Consistent o path

  pub observation-IsClassified :
      (expected : Reports F) (device : Option (Device F)) (dependencies noted : List OscPath)
      → IsClassified (observation expected device dependencies noted)
  unfolding observation contains
  observation-IsClassified expected device dependencies noted path = (refl, refl, refl)

  retain-Consistent :
      (o : Observation F) (path : OscPath) (report : Report F) (q : OscPath)
      → Consistent o q
      → Consistent (retain o path report) q
  unfolding retain
  retain-Consistent o path report q h =
      elim (Bool-cases (
        contains (keys o.expected) path
        || (contains o.dependency_paths path || contains o.noted path))) [
          | inl kept ↦ rw kept h
          | inr other ↦ rw other h
        ]

  pub retain-expected :
      (o : Observation F) (path : OscPath) (report : Report F)
      → (retain o path report).expected ≡ o.expected
  unfolding retain
  retain-expected o path report = ground arith

  status-retain :
      (o : Observation F) (path : OscPath) (report : Report F) (q : OscPath)
      → status (retain o path report) q ≡ status o q
  unfolding retain status
  status-retain o path report q =
      elim (Bool-cases (
        contains (keys o.expected) path
        || (contains o.dependency_paths path || contains o.noted path))) [
          | inl kept ↦ rw kept
          | inr other ↦ rw other
        ]

  classify-Consistent :
      (o : Observation F) (path : OscPath) (v : Verdict) (q : OscPath)
      → ((path == q) ≡ true → contains (keys o.expected) q ≡ true)
      → Consistent o q
      → Consistent (classify o path (some v)) q
  unfolding classify
  classify-Consistent o path confirms q at h =
      rw
        (
          contains_add path q o.confirmed,
          contains-discard path q o.mismatched,
          contains-discard path q o.invalid,
        )
        (ground (arith, h, at))
  classify-Consistent o path contradicts q at h =
      rw
        (
          contains-discard path q o.confirmed,
          contains_add path q o.mismatched,
          contains-discard path q o.invalid,
        )
        (ground (arith, h, at))
  classify-Consistent o path malformed q at h =
      rw
        (
          contains-discard path q o.confirmed,
          contains_add path q o.mismatched,
          contains_add path q o.invalid,
        )
        (ground (arith, h, at))

  status-classify :
      (o : Observation F) (path : OscPath) (v : Verdict) (q : OscPath)
      → status (classify o path (some v)) q ≡ (if path == q then some v else status o q)
  unfolding classify status
  status-classify o path confirms q =
      rw
        (
          contains_add path q o.confirmed,
          contains-discard path q o.mismatched,
          contains-discard path q o.invalid,
        )
        (ground arith)
  status-classify o path contradicts q =
      rw
        (
          contains-discard path q o.confirmed,
          contains_add path q o.mismatched,
          contains-discard path q o.invalid,
        )
        (ground arith)
  status-classify o path malformed q =
      rw
        (
          contains-discard path q o.confirmed,
          contains_add path q o.mismatched,
          contains_add path q o.invalid,
        )
        (ground arith)

-- the newer of two verdicts
unfoldable pub newer : Option Verdict → Option Verdict → Option Verdict
newer none before = before
newer (some v) before = some v

module _ {F : Type 0} ⦃fl : Floats F⦄ where
  -- what the last report about a register says of it
  unfoldable pub last_verdict :
      Observation F → OscPath → List (OscPath × Report F) → Option Verdict → Option Verdict
  unfolding newer verdict_of
  last_verdict o path [] before = before
  last_verdict o path ((q, report) ∷ reports) before =
      last_verdict o path reports
        (if q == path then newer (verdict_of o q report) before else before)

  -- A verdict is given on expected registers only.
  verdict_of-expected :
      (o : Observation F) (path : OscPath) (report : Report F) (v : Verdict)
      → verdict_of o path report ≡ some v
      → contains (keys o.expected) path ≡ true
  unfolding verdict_of
  verdict_of-expected o path report v h = elim (Option-cases (lookup path o.expected)) [
    | inl absent ↦ cc (rw (absent, verdict_of) at h)
    | inr (expected, found) ↦
        (contains_iff (keys o.expected) path).1 (lookup-keys path expected o.expected found)
  ]

  absorb-Consistent :
      (o : Observation F) (path : OscPath) (report : Report F) (q : OscPath)
      → Consistent o q
      → Consistent (absorb o (path, report)) q
  unfolding absorb classify
  absorb-Consistent o path report q h = after (verdict_of o path report) refl
    where
      kept : Consistent (retain o path report) q
      kept = retain-Consistent o path report q h

      after :
          (v : Option Verdict)
          → verdict_of o path report ≡ v
          → Consistent (classify (retain o path report) path v) q
      after none e = kept
      after (some v) e =
          classify-Consistent (retain o path report) path v q
            (λ same.
              rw (retain-expected o path report)
                (rw (← (List_eq.beq_iff path q).0 same) (verdict_of-expected o path report v e)))
            kept

  status-absorb :
      (o : Observation F) (path : OscPath) (report : Report F) (q : OscPath)
      → status (absorb o (path, report)) q
        ≡ (if path == q then newer (verdict_of o path report) (status o q) else status o q)
  unfolding absorb classify newer
  status-absorb o path report q = after (verdict_of o path report)
    where
      after :
          (v : Option Verdict)
          → status (classify (retain o path report) path v) q
            ≡ (if path == q then newer v (status o q) else status o q)
      after none = rw (status-retain o path report q) (ground arith)
      after (some v) =
          rw (status-classify (retain o path report) path v q) (rw (status-retain o path report q))

  absorb-verdict_of :
      (o : Observation F) (path : OscPath) (report : Report F) (q : OscPath) (r : Report F)
      → verdict_of (absorb o (path, report)) q r ≡ verdict_of o q r
  unfolding absorb verdict_of judge_report well_formed valid classify retain
  absorb-verdict_of o path report q r = after (verdict_of o path report)
    where
      kept : verdict_of (retain o path report) q r ≡ verdict_of o q r
      kept =
          elim (Bool-cases (
            contains (keys o.expected) path
            || (contains o.dependency_paths path || contains o.noted path))) [
              | inl known ↦ rw known
              | inr other ↦ rw other
            ]

      after :
          (v : Option Verdict)
          → verdict_of (classify (retain o path report) path v) q r ≡ verdict_of o q r
      after none = kept
      after (some confirms) = kept
      after (some contradicts) = kept
      after (some malformed) = kept

  -- The last verdict depends on nothing that a report changes.
  last_verdict_same :
      (o p : Observation F)
      → ((q : OscPath) (r : Report F) → verdict_of o q r ≡ verdict_of p q r)
      → (path : OscPath) (reports : List (OscPath × Report F)) (before : Option Verdict)
      → last_verdict o path reports before ≡ last_verdict p path reports before
  unfolding last_verdict
  last_verdict_same o p same path [] before = refl
  last_verdict_same o p same path ((q, r) ∷ reports) before =
      last_verdict_same o p same path reports
        (if q == path then newer (verdict_of o q r) before else before)
      ∙ ap (λ v. last_verdict p path reports (if q == path then newer v before else before))
          (same q r)

  pub absorb_all-IsClassified :
      (o : Observation F) (reports : List (OscPath × Report F))
      → IsClassified o
      → IsClassified (absorb_all o reports)
  unfolding absorb_all
  absorb_all-IsClassified o [] h = h
  absorb_all-IsClassified o ((path, report) ∷ reports) h =
      absorb_all-IsClassified (absorb o (path, report)) reports
        (λ q. absorb-Consistent o path report q (h q))

  -- Whatever reports a window brings and in whatever order, what the sets say of a register
  -- afterwards is the verdict on the last report about it that had one, and what they said before
  -- if there was none.
  pub absorb_all-status :
      (o : Observation F) (path : OscPath) (reports : List (OscPath × Report F))
      → status (absorb_all o reports) path ≡ last_verdict o path reports (status o path)
  unfolding absorb_all last_verdict
  absorb_all-status o path [] = refl
  absorb_all-status o path ((q, r) ∷ reports) =
      absorb_all-status (absorb o (q, r)) path reports
      ∙ ap (last_verdict (absorb o (q, r)) path reports) (status-absorb o q r path)
      ∙ last_verdict_same (absorb o (q, r)) o (absorb-verdict_of o q r) path reports
          (if q == path then newer (verdict_of o q r) (status o path) else status o path)
