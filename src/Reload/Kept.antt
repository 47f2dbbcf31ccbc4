-- ===== src/Reload/Kept.antt =====
-- src/oscmix_desk/reload.py: whose machine a desk that is read again is for, and what a reconcile
-- reports.
use oscmix_desk.Common.{
  ◌≡◌, ◌⊎◌, refl, sym, ap, ◌∙◌, inl, inr, Bool, true, false, Option, none, some, List, [], ◌∷◌, ok,
  err, Result, if◌then◌else◌, Result-cases, Bool-cases,
}
use mathlib.Core.Option.{some-injective}
use oscmix_desk.Model.Config.{Config}
use oscmix_desk.Osc.Bytes.{Text}
use oscmix_desk.Reload.{
  Files, effective_config, moved, machine_of, keep_machine_settings, kept_for_this_process,
  reread_desk, Wait, verifier_finished, reconciled, Operation, Failure, failed_report,
  finished_report, ended_report, incomplete, reconcile_once, stood_down, lock_unavailable,
  config_refused, os_error,
}

module _ {F : Type 0} where
  -- The desk that the session runs, or a desk of its files that names the same machine.
  abbrev pub SameMachine : Config F → Option (Files F) → Bool → Config F → Type 0
  SameMachine running files strict kept =
      (machine_of kept ≡ machine_of running)
      × (kept.overrides ≡ running.overrides)
      × ((kept ≡ running)
          ⊎ ((found : Files F) × (fresh : Config F) × (active : Option Text) × (files ≡ some found)
              × (effective_config strict found ≡ ok (fresh, active))
              × (moved fresh running ≡ [])
              × (kept ≡ keep_machine_settings fresh running)))

  kept_inversion :
      (fresh running kept : Config F)
      → kept_for_this_process fresh running ≡ some kept
      → (moved fresh running ≡ []) × (kept ≡ keep_machine_settings fresh running)
  unfolding kept_for_this_process
  kept_inversion fresh running kept h = split (moved fresh running) refl
    where
      split :
          (away : _)
          → moved fresh running ≡ away
          → (moved fresh running ≡ []) × (kept ≡ keep_machine_settings fresh running)
      split [] e = (e, sym (some-injective _ _ (rw (e, kept_for_this_process) at h)))
      split (i ∷ away) e = cc (rw (e, kept_for_this_process) at h)

  -- A desk that a session reads again never retargets it: it keeps the machine and the overrides
  -- that the session was started with, and is either the desk that runs or the desk that the files
  -- put in effect, whose declared machine is no other.
  pub reread_desk-SameMachine :
      (running kept : Config F) (files : Option (Files F)) (strict : Bool)
      → reread_desk running files strict ≡ some kept
      → SameMachine running files strict kept
  unfolding reread_desk keep_machine_settings machine_of
  reread_desk-SameMachine running kept none strict h =
      let same : running ≡ kept = some-injective running kept h in
      (sym (ap machine_of same), sym (ap (λ c. c.overrides) same), inl (sym same))
  reread_desk-SameMachine running kept (some found) strict h =
      elim (Result-cases (effective_config strict found)) [
        | inr (_, failed) ↦ cc (rw (failed, reread_desk) at h)
        | inl ((fresh, active), read) ↦
            let (here, same) = kept_inversion fresh running kept (rw (read, reread_desk) at h) in
            (
              ap machine_of same,
              ap (λ c. c.overrides) same,
              inr (found, fresh, active, refl, read, here, same),
            )
      ]

failed_report_unfinished :
    (planned : Bool) (failure : Failure) → failed_report planned failure ≡ reconciled → ⊥
unfolding failed_report stood_down
failed_report_unfinished planned lock_unavailable h = cc
failed_report_unfinished planned config_refused h = cc
failed_report_unfinished true (os_error submitted) h = cc
failed_report_unfinished false (os_error true) h = cc
failed_report_unfinished false (os_error false) h = cc

ended_report_unfinished :
    (closed : Result Failure (Unit {0})) → ended_report incomplete closed ≡ reconciled → ⊥
unfolding ended_report
ended_report_unfinished (err failure) h = failed_report_unfinished true failure h
ended_report_unfinished (ok _) h = cc

ended_report-reconciled :
    (complete : Bool) (closed : Result Failure (Unit {0}))
    → ended_report (if complete then reconciled else incomplete) closed ≡ reconciled
    → (complete ≡ true) × (closed ≡ ok tt)
unfolding ended_report
ended_report-reconciled complete (err failure) h = absurd (failed_report_unfinished true failure h)
ended_report-reconciled true (ok _) h = (refl, refl)
ended_report-reconciled false (ok _) h = cc

finished_report-reconciled :
    (complete : Bool) (op : Operation)
    → finished_report complete op ≡ reconciled
    → (complete ≡ true) × (op.finished ≡ ok tt) × (op.closed ≡ ok tt)
unfolding finished_report
finished_report-reconciled complete op h = elim (Result-cases op.finished) [
  | inr (failure, failed) ↦
      absurd (failed_report_unfinished true failure (rw (failed, finished_report) at h))
  | inl (_, fine) ↦
      let (whole, closed) =
        ended_report-reconciled complete op.closed (rw (fine, finished_report) at h) in
      (whole, fine, closed)
]

-- A reconcile reports success only if the verifier had ended, apply completed the plan, no stop
-- was asked behind it, and neither finishing the operation nor leaving it raised.
pub reconcile_once-reconciled :
    (verifier : Option (List Wait)) (op : Operation)
    → reconcile_once verifier op ≡ reconciled
    → (verifier_finished verifier ≡ true)
      × (op.applied ≡ ok true)
      × (op.stop ≡ false)
      × (op.finished ≡ ok tt)
      × (op.closed ≡ ok tt)
unfolding reconcile_once
reconcile_once-reconciled verifier op h = elim (Bool-cases (verifier_finished verifier)) [
  | inr waiting ↦ cc (rw (waiting, reconcile_once) at h)
  | inl ended ↦ elim (Result-cases op.applied) [
    | inr (failure, failed) ↦
        absurd (failed_report_unfinished false failure (rw (ended, failed, reconcile_once) at h))
    | inl (complete, done) ↦ elim (Bool-cases op.stop) [
      | inl stopping ↦
          absurd
            (ended_report_unfinished op.closed (rw (ended, done, stopping, reconcile_once) at h))
      | inr going ↦
          let (whole, fine, closed) =
            finished_report-reconciled complete op (rw (ended, done, going, reconcile_once) at h) in
          (ended, done ∙ ap ok whole, going, fine, closed)
    ]
  ]
]
