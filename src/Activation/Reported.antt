-- ===== src/Activation/Reported.antt =====
-- src/oscmix_desk/profiles.py and outcome.py: every activation reports an outcome, and what that
-- outcome says of the marker.
use oscmix_desk.Common.{
  ◌≡◌, refl, sym, ◌∙◌, subst, inl, inr, Bool, true, false, not, ◌&&◌, Option, none, List, [], ◌∷◌,
  ◌++◌, arith, Result, ok, err, ◌>>=◌, ℕ_eq, if_true, if_false, Result-cases, Option-cases,
  Bool-cases, bind_ok, ok-injective,
}
use oscmix_desk.Common.Sets.{contains, List_eq}
use oscmix_desk.Osc.Bytes.{Text}
use oscmix_desk.Paths.{OscPath, Segment_eq, codes}
use oscmix_desk.Registers.{Device}
use oscmix_desk.Verify.{VerifyResult}
use oscmix_desk.Verify.Window.{Partition}
use oscmix_desk.Outcome.{
  Outcome, OutcomeState, applied_verified, applied_unverified, applied_mismatched, refused,
  written_in_part, not_checked, any_of, is_part, is_refused, construct, validate, validate_sets,
  validate_state, validate_read_back,
}
use oscmix_desk.Outcome.Evidence.{Promise, validate-Promise}
use oscmix_desk.Activation.{
  write_cause, part_outcome, Marked, Answers, bare, refused_for_the_device, partly_written,
  unread_outcome, unread, verified_outcome, WriteFailed, observed_outcome, check, finish,
  read_outcome, mismatch_reason, missing_reason, unconfirmed_outcome, marked_outcome, operate,
  activate,
}
use oscmix_desk.Activation.Accepted.{
  Told, unverified_paths, validate_intro, refused_accepted, partly_written_accepted,
  unread_accepted, verified_accepted, mismatch_reason_told, missing_reason_told, read_accepted,
  unlike_not_checked, contains_behind,
}

-- An outcome of a desk that was applied, before the marker is written.
abbrev Landed : Outcome → Type 0
Landed o =
    (construct o ≡ ok o)
    × (is_part o.state ≡ false)
    × (is_refused o.state ≡ false)
    × (o.reload_failed ≡ false)

pub construct-validate : (o x : Outcome) → construct o ≡ ok x → (validate o ≡ ok tt) × (o ≡ x)
unfolding construct
construct-validate o x h =
    let (_, done, same) = bind_ok (validate o) (λ _. ok o) h in (done, ok-injective same)

validate_parts :
    (o : Outcome)
    → validate o ≡ ok tt
    → (validate_sets o ≡ ok tt)
      × (validate_state o.state o ≡ ok tt)
      × (validate_read_back o ≡ ok tt)
unfolding validate
validate_parts o h =
    let (_, sets, rest) =
      bind_ok (validate_sets o) (λ _. validate_state o.state o >>= λ _. validate_read_back o) h in
    let (_, state, last) = bind_ok (validate_state o.state o) (λ _. validate_read_back o) rest in
    (sets, state, last)

module _ {F : Type 0} where
  -- What a read-back may answer: why it failed, or a result that sorts what it expected.
  abbrev pub Answered : List OscPath → Result Text (VerifyResult F) → Type 0
  Answered registers (err reason) = any_of reason ≡ true
  Answered registers (ok result) = Partition registers result

module _ {F : Type 0} (name : Text) (device : Option (Device F)) (registers : List OscPath) where
  unconfirmed_outcome-Landed :
      (result : VerifyResult F)
      → Partition registers result
      → any_of (unverified_paths result) ≡ true
      → Landed (unconfirmed_outcome name device result (unverified_paths result))
  unfolding unconfirmed_outcome read_outcome bare validate_state
  unconfirmed_outcome-Landed result whole missing = elim (Bool-cases (any_of result.mismatched)) [
    | inl differs ↦
        subst Landed (sym (if_true (any_of result.mismatched) differing lacking differs)) (
          read_accepted name device result registers whole applied_mismatched
              (mismatch_reason device result) refl (mismatch_reason_told name device result)
              (rw differs),
          refl,
          refl,
          refl,
        )
    | inr alike ↦ subst Landed (sym (if_false (any_of result.mismatched) differing lacking alike)) (
      read_accepted name device result registers whole applied_unverified
          (missing_reason device result (unverified_paths result)) refl
          (missing_reason_told name device result (unverified_paths result)) (rw (alike, missing)),
      refl,
      refl,
      refl,
    )
  ]
    where
      differing : Outcome
      differing =
          read_outcome applied_mismatched name (mismatch_reason device result) device result
            (unverified_paths result)

      lacking : Outcome
      lacking =
          read_outcome applied_unverified name
            (missing_reason device result (unverified_paths result)) device result
            (unverified_paths result)

  unread-Landed :
      (reason : Text)
      → any_of reason ≡ true
      → (o : Outcome) × (unread name reason registers ≡ ok o) × Landed o
  unfolding unread unread_outcome bare
  unread-Landed reason told = (
    unread_outcome name reason registers,
    unread_accepted name reason registers told,
    (unread_accepted name reason registers told, refl, refl, refl),
  )

  check-Landed :
      (answer : Result Text (VerifyResult F))
      → Answered registers answer
      → (o : Outcome) × (check name device registers answer ≡ ok o) × Landed o
  unfolding check verified_outcome bare
  check-Landed (err reason) told = unread-Landed reason told
  check-Landed (ok result) whole = elim (Bool-cases (any_of (unverified_paths result))) [
    | inl missing ↦
        let landed = unconfirmed_outcome-Landed result whole missing in
        (
          unconfirmed_outcome name device result (unverified_paths result),
          if_true (any_of (unverified_paths result)) _ _ missing ∙ landed.0,
          landed,
        )
    | inr complete ↦ (
      verified_outcome name,
      if_false (any_of (unverified_paths result)) _ _ complete ∙ verified_accepted name,
      (verified_accepted name, refl, refl, refl),
    )
  ]

marked_sets :
    (o : Outcome) (marked : Marked)
    → o.reload_failed ≡ false
    → (marked.durable && not marked.in_effect) ≡ false
    → validate_sets o ≡ ok tt
    → validate_sets (marked_outcome marked o) ≡ ok tt
unfolding validate_sets marked_outcome
marked_sets o marked quiet sound h = ground (arith, quiet, sound, h)

marked_state :
    (s : OutcomeState) (o : Outcome) (marked : Marked)
    → is_part s ≡ false
    → is_refused s ≡ false
    → validate_state s (marked_outcome marked o) ≡ validate_state s o
unfolding validate_state marked_outcome
marked_state refused o marked whole applied = cc
marked_state written_in_part o marked whole applied = cc
marked_state applied_verified o marked whole applied = refl
marked_state applied_mismatched o marked whole applied = refl
marked_state applied_unverified o marked whole applied = refl

marked_accepted :
    (o : Outcome) (marked : Marked)
    → Landed o
    → (marked.durable && not marked.in_effect) ≡ false
    → construct (marked_outcome marked o) ≡ ok (marked_outcome marked o)
unfolding validate marked_outcome validate_read_back
marked_accepted o marked (built, whole, applied, quiet) sound =
    let (sets, state, read) = validate_parts o (construct-validate o o built).0 in
    validate_intro (marked_outcome marked o) (marked_sets o marked quiet sound sets)
      (marked_state o.state o marked whole applied ∙ state) read

-- the reason of a maintenance fence
abbrev fenced : Text → Text
fenced problem = problem ++ codes "; complete installation recovery before activation"

-- It is no empty text, and has a semicolon.
fenced-Told : (problem : Text) → Told (fenced problem)
unfolding not_checked contains
fenced-Told problem = (
  lengthened problem,
  unlike_not_checked b';' (fenced problem) refl (
      contains_behind problem (codes "; complete installation recovery before activation") b';'
        refl),
)
  where
    lengthened :
        (problem : Text)
        → any_of (problem ++ codes "; complete installation recovery before activation") ≡ true
    lengthened [] = refl
    lengthened (c ∷ cs) = refl

-- The text of an exception that keeps the operation from opening.
abbrev pub Opened : Result Text (Unit {0}) → Type 0
Opened (ok _) = Unit
Opened (err reason) = Told reason

module _ {F : Type 0} (name : Text) (device : Option (Device F)) (registers : List OscPath) where
  -- What the answers are relied on for: the texts of exceptions are not empty and not the module's
  -- own, a read-back sorts what it expected, and a durable marker is in effect.
  abbrev pub Reliable : Answers F → Type 0
  Reliable answers =
      Opened answers.opened
      × Answered registers answers.result
      × ((answers.marked.durable && not answers.marked.in_effect) ≡ false)

  finish_accepted :
      (answers : Answers F) (o : Outcome)
      → Landed o
      → (answers.marked.durable && not answers.marked.in_effect) ≡ false
      → (x : Outcome) × (finish name registers answers o ≡ ok x)
  unfolding finish
  finish_accepted answers o landed sound = elim (Result-cases answers.finished) [
    | inl (_, fine) ↦ (
      marked_outcome answers.marked o,
      rw (fine, finish) (marked_accepted o answers.marked landed sound),
    )
    | inr (reason, failed) ↦
        let (x, built, _) =
          unread-Landed name device registers (codes "backend operation did not finish: " ++ reason)
            refl in
        (x, rw (failed, finish) built)
  ]

  observed_outcome-Landed :
      (verify : Bool) (answers : Answers F)
      → Answered registers answers.result
      → (x : Outcome) × (observed_outcome name verify device registers answers ≡ ok x) × Landed x
  unfolding observed_outcome not_checked
  observed_outcome-Landed true answers answered =
      check-Landed name device registers answers.result answered
  observed_outcome-Landed false answers answered =
      unread-Landed name device registers not_checked refl

  operate_whole :
      (verify : Bool) (answers : Answers F) (o x : Outcome)
      → answers.sent ≡ none
      → observed_outcome name verify device registers answers ≡ ok o
      → finish name registers answers o ≡ ok x
      → operate name verify device registers answers ≡ ok x
  unfolding operate
  operate_whole verify answers o x e read built = rw (e, operate) (rw read built)

  operate_accepted :
      (verify : Bool) (answers : Answers F)
      → Answered registers answers.result
      → (answers.marked.durable && not answers.marked.in_effect) ≡ false
      → (x : Outcome) × (operate name verify device registers answers ≡ ok x)
  unfolding operate
  operate_accepted verify answers answered sound = elim (Option-cases answers.sent) [
    | inr (failed, e) ↦
        let (x, built) = partly_written_accepted name failed in (x, rw (e, operate) built)
    | inl e ↦
        let (o, read, landed) = observed_outcome-Landed verify answers answered in
        let (x, built) = finish_accepted answers o landed sound in
        (x, operate_whole verify answers o x e read built)
  ]

  pub activate_open :
      (verify : Bool) (answers : Answers F) {u : Unit {0}}
      → answers.maintenance ≡ none
      → answers.opened ≡ ok u
      → activate name verify device registers answers ≡ operate name verify device registers answers
  unfolding activate
  activate_open verify answers e fine = rw (e, fine, activate)

  activate_accepted :
      (verify : Bool) (answers : Answers F)
      → Reliable answers
      → (x : Outcome) × (activate name verify device registers answers ≡ ok x)
  unfolding activate refused_for_the_device not_checked
  activate_accepted verify answers (told, answered, sound) =
      elim (Option-cases answers.maintenance) [
        | inr (problem, e) ↦ (
          bare refused name (fenced problem),
          rw (e, activate) (refused_accepted name (fenced problem) (fenced-Told problem)),
        )
        | inl e ↦ elim (Result-cases answers.opened) [
          | inr (reason, failed) ↦ (
            bare refused name reason,
            rw (e, failed, activate) (refused_accepted name reason (subst Opened failed told)),
          )
          | inl (_, fine) ↦
              let (x, built) = operate_accepted verify answers answered sound in
              (x, activate_open verify answers e fine ∙ built)
        ]
      ]

  constructed : (o x : Outcome) → construct o ≡ ok x → validate x ≡ ok tt
  constructed o x h =
      let (done, same) = construct-validate o x h in subst (λ y. validate y ≡ ok tt) same done

  finish_valid :
      (answers : Answers F) (o x : Outcome)
      → finish name registers answers o ≡ ok x
      → validate x ≡ ok tt
  unfolding finish unread
  finish_valid answers o x h = elim (Result-cases answers.finished) [
    | inl (_, fine) ↦ constructed (marked_outcome answers.marked o) x (rw (fine, finish) at h)
    | inr (reason, failed) ↦
        constructed
          (unread_outcome name (codes "backend operation did not finish: " ++ reason) registers) x
          (rw (failed, finish) at h)
  ]

  partly_written_valid :
      (failed : WriteFailed) (x : Outcome) → partly_written name failed ≡ ok x → validate x ≡ ok tt
  unfolding partly_written
  partly_written_valid failed x h = elim (Bool-cases (any_of failed.written)) [
    | inl some_sent ↦ constructed (part_outcome name failed) x (
        sym (
          if_true (any_of failed.written) (construct (part_outcome name failed))
            (construct (bare refused name (write_cause failed))) some_sent)
        ∙ h)
    | inr none_sent ↦ constructed (bare refused name (write_cause failed)) x (
        sym (
          if_false (any_of failed.written) (construct (part_outcome name failed))
            (construct (bare refused name (write_cause failed))) none_sent)
        ∙ h)
  ]

  operate_valid :
      (verify : Bool) (answers : Answers F) (x : Outcome)
      → operate name verify device registers answers ≡ ok x
      → validate x ≡ ok tt
  unfolding operate
  operate_valid verify answers x h = elim (Option-cases answers.sent) [
    | inr (failed, e) ↦ partly_written_valid failed x (rw (e, operate) at h)
    | inl e ↦
        let (o, _, done) =
          bind_ok (observed_outcome name verify device registers answers)
            (λ o. finish name registers answers o) (rw (e, operate) at h) in
        finish_valid answers o x done
  ]

  activate_valid :
      (verify : Bool) (answers : Answers F) (x : Outcome)
      → activate name verify device registers answers ≡ ok x
      → validate x ≡ ok tt
  unfolding activate refused_for_the_device
  activate_valid verify answers x h = elim (Option-cases answers.maintenance) [
    | inr (problem, e) ↦
        constructed
          (bare refused name
            (problem ++ codes "; complete installation recovery before activation"))
          x (rw (e, activate) at h)
    | inl e ↦ elim (Result-cases answers.opened) [
      | inr (reason, failed) ↦
          constructed (bare refused name reason) x (rw (e, failed, activate) at h)
      | inl (_, fine) ↦ operate_valid verify answers x (rw (e, fine, activate) at h)
    ]
  ]

  -- When exceptions carry a text that is neither empty nor the one of an unchecked switch, the
  -- read-back sorts the registers it expects, and a durable marker is in effect, an activation
  -- reports an outcome, and that outcome keeps the promise of its state.
  pub activate-Promise :
      (verify : Bool) (answers : Answers F)
      → Reliable answers
      → (x : Outcome) × (activate name verify device registers answers ≡ ok x) × Promise x.state x
  activate-Promise verify answers reliable =
      let (x, built) = activate_accepted verify answers reliable in
      (x, built, validate-Promise x (activate_valid verify answers x built))
