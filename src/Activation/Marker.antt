-- ===== src/Activation/Marker.antt =====
-- src/oscmix_desk/profiles.py: when the marker of the active profile is changed.
use oscmix_desk.Common.{
  ◌≡◌, refl, sym, ap, ◌∙◌, inl, inr, Bool, true, false, Option, none, List, ◌++◌, ok, if_true,
  if_false, Result-cases, Option-cases, Bool-cases, bind_ok,
}
use oscmix_desk.Osc.Bytes.{Text}
use oscmix_desk.Paths.{OscPath, codes}
use oscmix_desk.Registers.{Device}
use oscmix_desk.Outcome.{Outcome, refused, any_of, construct}
use oscmix_desk.Activation.{
  write_cause, WriteFailed, Answers, refused_for_the_device, partly_written, part_outcome,
  unread_outcome, unread, observed_outcome, finish, marked_outcome, operate, activate, bare,
}
use oscmix_desk.Activation.Reported.{construct-validate, activate_open}

-- What a persisted outcome says of the answers.
abbrev pub Committed : {F : Type 0} → Answers F → Type 0
Committed answers =
    (answers.sent ≡ none) × (answers.finished ≡ ok tt) × (answers.marked.in_effect ≡ true)

forgotten : (o x : Outcome) → construct o ≡ ok x → o.persisted ≡ false → x.persisted ≡ false
forgotten o x h unmarked = sym (ap (λ y. y.persisted) (construct-validate o x h).1) ∙ unmarked

module _ {F : Type 0} (name : Text) (device : Option (Device F)) (registers : List OscPath) where
  finish-persisted :
      (answers : Answers F) (o x : Outcome)
      → finish name registers answers o ≡ ok x
      → x.persisted ≡ true
      → (answers.finished ≡ ok tt) × (answers.marked.in_effect ≡ true)
  unfolding finish unread unread_outcome bare marked_outcome
  finish-persisted answers o x h marked = elim (Result-cases answers.finished) [
    | inr (reason, failed) ↦
        let unmarked =
          forgotten
            (unread_outcome name (codes "backend operation did not finish: " ++ reason) registers) x
            (rw (failed, finish) at h) refl in
        cc
    | inl (_, fine) ↦ (
      fine,
      ap (λ y. y.persisted)
            (construct-validate (marked_outcome answers.marked o) x (rw (fine, finish) at h)).1
          ∙ marked,
    )
  ]

  partly_written-persisted :
      (failed : WriteFailed) (x : Outcome) → partly_written name failed ≡ ok x → x.persisted ≡ false
  unfolding partly_written part_outcome bare
  partly_written-persisted failed x h = elim (Bool-cases (any_of failed.written)) [
    | inl some_sent ↦
        forgotten (part_outcome name failed) x
          (sym (
              if_true (any_of failed.written) (construct (part_outcome name failed))
                (construct (bare refused name (write_cause failed))) some_sent)
            ∙ h)
          refl
    | inr none_sent ↦
        forgotten (bare refused name (write_cause failed)) x
          (sym (
              if_false (any_of failed.written) (construct (part_outcome name failed))
                (construct (bare refused name (write_cause failed))) none_sent)
            ∙ h)
          refl
  ]

  operate-Committed :
      (verify : Bool) (answers : Answers F) (x : Outcome)
      → operate name verify device registers answers ≡ ok x
      → x.persisted ≡ true
      → Committed answers
  unfolding operate
  operate-Committed verify answers x h marked = elim (Option-cases answers.sent) [
    | inr (failed, e) ↦
        let unmarked = partly_written-persisted failed x (rw (e, operate) at h) in cc
    | inl e ↦
        let (o, _, done) =
          bind_ok (observed_outcome name verify device registers answers)
            (λ o. finish name registers answers o) (rw (e, operate) at h) in
        let ended = finish-persisted answers o x done marked in (e, ended.0, ended.1)
  ]

  -- An activation whose outcome is persisted met no fence, opened the operation, sent every write,
  -- ended the backend operation and put the marker in effect.
  pub activate-Committed :
      (verify : Bool) (answers : Answers F) (x : Outcome)
      → activate name verify device registers answers ≡ ok x
      → x.persisted ≡ true
      → (answers.maintenance ≡ none) × (answers.opened ≡ ok tt) × Committed answers
  unfolding activate refused_for_the_device bare
  activate-Committed verify answers x h marked = elim (Option-cases answers.maintenance) [
    | inr (problem, e) ↦
        let unmarked =
          forgotten
            (bare refused name
              (problem ++ codes "; complete installation recovery before activation"))
            x (rw (e, activate) at h) refl in
        cc
    | inl e ↦ elim (Result-cases answers.opened) [
      | inr (reason, failed) ↦
          let unmarked =
            forgotten (bare refused name reason) x (rw (e, failed, activate) at h) refl in
          cc
      | inl (_, fine) ↦
          let committed =
            operate-Committed verify answers x
              (sym (activate_open name device registers verify answers e fine) ∙ h) marked in
          (e, fine, committed)
    ]
  ]
