-- ===== src/Watch/Drift.antt =====
-- src/oscmix_desk/watch.py: what counts as a contradiction of the desk.
use oscmix_desk.Common.{
  ◌≡◌, refl, sym, ◌∙◌, ap, subst, inl, inr, true, not, ◌&&◌, none, some, List, [], ◌∷◌, arith, ok,
  Bool-cases, Result-cases, In, if◌then◌else◌, ◌==◌, ◌⊎◌,
}
use mathlib.Core.Option.{some-injective}
use oscmix_desk.Common.Sets.{contains, contains-difference, difference, List_eq}
use oscmix_desk.Common.Sort.{contains-sort_by}
use oscmix_desk.Common.Dict.{lookup, insert, lookup-insert, keys, keys-lookup}
use oscmix_desk.Floats.{Floats}
use oscmix_desk.Paths.{OscPath, Segment_eq, path_le}
use oscmix_desk.Registers.{Device}
use oscmix_desk.Autogain.{Report, Reports}
use oscmix_desk.Model.Config.{Config}
use oscmix_desk.Reconcile.Compare.{Write, Plan}
use oscmix_desk.Reconcile.Apply.{reconcile, application_plan}
use oscmix_desk.Observation.{Observation, contradicts, observation, absorb_all}
use oscmix_desk.Observation.Verdicts.{
  status, IsClassified, last_verdict, absorb_all-status, absorb_all-IsClassified,
  observation-IsClassified,
}
use oscmix_desk.Observation.Complete.{absorb_all-expected}
use oscmix_desk.Watch.{is_judged, judged_writes, contradicted, drift}

module _ {F : Type 0} where
  -- What is expected comes from a write that a report may contradict.
  judged_writes-In :
      (device : Device F) (writes : List (Write F)) (expected : Reports F) (path : OscPath)
      (r : Report F)
      → lookup path (judged_writes device writes expected) ≡ some r
      → (lookup path expected ≡ some r)
        ⊎ ((w : Write F) × In w writes
            × (w.path ≡ path)
            × (is_judged device w ≡ true)
            × ((w.tags, w.args) ≡ r))
  unfolding judged_writes
  judged_writes-In device [] expected path r h = inl h
  judged_writes-In device (w ∷ ws) expected path r h = elim (Bool-cases (is_judged device w)) [
    | inr other ↦
        elim (judged_writes-In device ws expected path r (rw (other, judged_writes) at h)) [
          | inl found ↦ inl found
          | inr (v, m, a, b, c) ↦ inr (v, inr m, a, b, c)
        ]
    | inl judged ↦
        elim (judged_writes-In device ws (insert w.path (w.tags, w.args) expected) path r
          (rw (judged, judged_writes) at h)) [
            | inr (v, m, a, b, c) ↦ inr (v, inr m, a, b, c)
            | inl found ↦
                let now : (if w.path == path then some (w.tags, w.args) else lookup path expected)
                    ≡ some r =
                  sym (lookup-insert w.path path (w.tags, w.args) expected) ∙ found in
                elim (Bool-cases (w.path == path)) [
                  | inr apart ↦ inl (rw apart at now)
                  | inl same ↦ inr (
                    w,
                    inl refl,
                    (List_eq.beq_iff w.path path).0 same,
                    judged,
                    some-injective _ _ (rw same at now),
                  )
                ]
          ]
  ]

  status-difference :
      (o : Observation F) (path : OscPath)
      → IsClassified o
      → contains (difference o.mismatched o.invalid) path ≡ true
      → status o path ≡ some contradicts
  unfolding status
  status-difference o path sound h =
      let now : (contains o.mismatched path && not (contains o.invalid path)) ≡ true =
        sym (contains-difference o.mismatched o.invalid path) ∙ h in
      ground (arith, now, sound path)

  difference-expected :
      (o : Observation F) (path : OscPath)
      → IsClassified o
      → contains (difference o.mismatched o.invalid) path ≡ true
      → contains (keys o.expected) path ≡ true
  difference-expected o path sound h =
      let now : (contains o.mismatched path && not (contains o.invalid path)) ≡ true =
        sym (contains-difference o.mismatched o.invalid path) ∙ h in
      ground (arith, now, sound path)

module _ {F : Type 0} ⦃fl : Floats F⦄ where
  contradicted_lem :
      (device : Device F) (expected reports : Reports F) (path : OscPath)
      → contains (contradicted device expected reports) path ≡ true
      → (contains (keys expected) path ≡ true)
        × (last_verdict (observation expected (some device) [] []) path reports none
            ≡ some contradicts)
  unfolding contradicted observation status
  contradicted_lem device expected reports path h =
      let listed =
        sym (contains-sort_by path_le (difference seen.mismatched seen.invalid) path) ∙ h in
      (
        subst (λ e. contains (keys e) path ≡ true) (absorb_all-expected start reports)
            (difference-expected seen path sound listed),
        sym (absorb_all-status start path reports) ∙ status-difference seen path sound listed,
      )
    where
      start : Observation F
      start = observation expected (some device) [] []

      seen : Observation F
      seen = absorb_all start reports

      sound : IsClassified seen
      sound =
          absorb_all-IsClassified start reports
            (observation-IsClassified expected (some device) [] [])

  -- A path is a contradiction only if the reconcile of the desk plans a write of it that is no
  -- prerequisite and that the device reports, and the last report that is judged is well formed
  -- and differs from what such a write would set.
  pub drift_lem :
      (desk : Config F) (device : Device F) (reports known : Reports F) (path : OscPath)
      → contains (drift desk (some device) reports known) path ≡ true
      → (p : Plan F) × (w : Write F) × (e : Reports F) × (application_plan desk
            (some device)
            reconcile
            []
            []
            known
          ≡ ok p)
        × In w p.writes
        × (w.path ≡ path)
        × (is_judged device w ≡ true)
        × (lookup path e ≡ some (w.tags, w.args))
        × (last_verdict (observation e (some device) [] []) path reports none ≡ some contradicts)
  unfolding drift contains lookup
  drift_lem desk device [] known path h = cc
  drift_lem desk device (report ∷ reports) known path h =
      elim (Result-cases (application_plan desk (some device) reconcile [] [] known)) [
        | inr (_, failed) ↦ cc (rw (failed, drift) at h)
        | inl (p, planned) ↦
            let (wanted, verdict) =
              contradicted_lem device (judged_writes device p.writes []) (report ∷ reports) path
                (rw (planned, drift) at h) in
            let (r, found) = keys-lookup path (judged_writes device p.writes []) wanted in
            elim (judged_writes-In device p.writes [] path r found) [
              | inl nothing ↦ cc
              | inr (w, m, at, judged, same) ↦ (
                p,
                w,
                judged_writes device p.writes [],
                planned,
                m,
                at,
                judged,
                found ∙ ap some (sym same),
                verdict,
              )
            ]
      ]
