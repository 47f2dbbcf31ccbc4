-- ===== src/Activation/Accepted.antt =====
-- src/oscmix_desk/profiles.py: the outcomes that an activation builds are accepted by their
-- constructor.
use oscmix_desk.Common.{
  ◌≡◌, refl, ◌∙◌, inl, inr, true, false, not, ◌&&◌, ◌||◌, Option, List, [], ◌∷◌, ◌++◌, arith, ok,
  ◌==◌, ℕ, ℕ_eq, if_true, if_false, Bool-cases, length,
}
use oscmix_desk.Common.Decimal.{decimal}
use oscmix_desk.Common.Sets.{
  contains, contains-append, intersects, is_subset, same_set, same_set_intro, is_subset_pointwise,
  intersects_intro, list_beq_iff, List_eq,
}
use oscmix_desk.Common.Sort.{sort_by, contains-sort_by}
use oscmix_desk.Osc.Bytes.{Text}
use oscmix_desk.Paths.{OscPath, Segment_eq, path_le, codes}
use oscmix_desk.Registers.{Device}
use oscmix_desk.Verify.{VerifyResult, register_ever_reported}
use oscmix_desk.Verify.Window.{Partition}
use oscmix_desk.Outcome.{
  Outcome, OutcomeState, refused, not_checked, any_of, is_part, is_unverified, construct, validate,
  validate_sets, validate_state, validate_incomplete, validate_read_back,
}
use oscmix_desk.Activation.{
  WriteFailed, bare, write_cause, part_outcome, partly_written, unread_outcome, unread,
  verified_outcome, never_reported_paths, blind_paths, mismatch_reason, missing_reason,
  read_outcome,
}

-- the checks of every state
pub validate_sets_intro :
    (o : Outcome)
    → (o.durable && not o.persisted) ≡ false
    → (o.reload_failed && (not (is_part o.state) && not o.persisted)) ≡ false
    → is_subset o.unverifiable o.unverified ≡ true
    → (any_of o.unverifiable && not o.read_back) ≡ false
    → ((any_of o.mismatched || (any_of o.unobserved || any_of o.invalid)) && not o.read_back)
      ≡ false
    → is_subset o.invalid o.mismatched ≡ true
    → intersects o.mismatched o.unobserved ≡ false
    → ((o.reason == not_checked) && (o.read_back || not (is_unverified o.state))) ≡ false
    → (not (is_part o.state) && (any_of o.written || any_of o.unwritten)) ≡ false
    → validate_sets o ≡ ok tt
unfolding validate_sets
validate_sets_intro o a b c d e f g h i = rw (a, b, c, d, e, f, g, h, i)

pub validate_intro :
    (o : Outcome)
    → validate_sets o ≡ ok tt
    → validate_state o.state o ≡ ok tt
    → validate_read_back o ≡ ok tt
    → construct o ≡ ok o
unfolding validate construct
validate_intro o a b c = rw (a, b, c)

-- A text with a character that `NOT_CHECKED` lacks is another text.
pub unlike_not_checked :
    (c : ℕ) (reason : Text)
    → contains not_checked c ≡ false
    → contains reason c ≡ true
    → (reason == not_checked) ≡ false
unlike_not_checked c reason lacks has = elim (Bool-cases (reason == not_checked)) [
  | inr other ↦ other
  | inl same ↦ cc (rw ((list_beq_iff reason not_checked).0 same, lacks) at has)
]

pub contains_behind : (xs ys : Text) (c : ℕ) → contains ys c ≡ true → contains (xs ++ ys) c ≡ true
contains_behind xs ys c h = rw (contains-append xs ys c) (ground (arith, h))

-- A text that an exception or the system gives, which is not the module's own.
abbrev pub Told : Text → Type 0
Told reason = (any_of reason ≡ true) × ((reason == not_checked) ≡ false)

module _ (name : Text) where
  pub refused_accepted :
      (reason : Text)
      → Told reason
      → construct (bare refused name reason) ≡ ok (bare refused name reason)
  unfolding bare validate_state validate_incomplete validate_read_back intersects
  refused_accepted reason told =
      validate_intro (bare refused name reason)
        (validate_sets_intro (bare refused name reason) refl refl refl refl refl refl refl
          (rw told.1) refl)
        (rw told.0) refl

  part_outcome_accepted :
      (failed : WriteFailed)
      → any_of failed.written ≡ true
      → construct (part_outcome name failed) ≡ ok (part_outcome name failed)
  unfolding bare part_outcome write_cause validate_state validate_incomplete validate_read_back
      intersects not_checked is_subset
  part_outcome_accepted failed some_sent =
      validate_intro (part_outcome name failed)
        (validate_sets_intro (part_outcome name failed) refl refl refl refl refl refl refl refl
          refl)
        (rw (
          some_sent,
          same_set_intro (failed.written ++ failed.unwritten) (failed.written ++ failed.unwritten)
              (λ a. refl),
        ))
        refl

  pub partly_written_accepted :
      (failed : WriteFailed) → (o : Outcome) × (partly_written name failed ≡ ok o)
  unfolding partly_written write_cause not_checked
  partly_written_accepted failed = elim (Bool-cases (any_of failed.written)) [
    | inl some_sent ↦ (
      part_outcome name failed,
      if_true (any_of failed.written) _ _ some_sent ∙ part_outcome_accepted failed some_sent,
    )
    | inr none_sent ↦ (
      bare refused name (write_cause failed),
      if_false (any_of failed.written) _ _ none_sent
          ∙ refused_accepted (write_cause failed) (refl, refl),
    )
  ]

  pub unread_accepted :
      (reason : Text) (registers : List OscPath)
      → any_of reason ≡ true
      → unread name reason registers ≡ ok (unread_outcome name reason registers)
  unfolding unread bare unread_outcome validate_state validate_read_back intersects is_subset
  unread_accepted reason registers told =
      validate_intro (unread_outcome name reason registers)
        (validate_sets_intro (unread_outcome name reason registers) refl refl refl refl refl refl
          refl (ground arith) refl)
        (rw told) refl

  pub verified_accepted : construct (verified_outcome name) ≡ ok (verified_outcome name)
  unfolding verified_outcome bare validate_state validate_read_back intersects is_subset not_checked
      same_set
  verified_accepted =
      validate_intro (verified_outcome name)
        (validate_sets_intro (verified_outcome name) refl refl refl refl refl refl refl refl refl)
        refl refl

module _ {F : Type 0} where
  never_reported_paths_sub :
      (device : Option (Device F)) (paths : List OscPath) (path : OscPath)
      → (contains (never_reported_paths device paths) path && not (contains paths path)) ≡ false
  unfolding never_reported_paths contains
  never_reported_paths_sub device [] path = refl
  never_reported_paths_sub device (p ∷ paths) path =
      elim (Bool-cases (register_ever_reported p device)) [
        | inl reported ↦ rw reported (ground (arith, never_reported_paths_sub device paths path))
        | inr blind ↦ rw blind (ground (arith, never_reported_paths_sub device paths path))
      ]

abbrev pub unverified_paths : {F : Type 0} → VerifyResult F → List OscPath
unverified_paths result = sort_by path_le (result.mismatched ++ result.unobserved)

module _ {F : Type 0} (name : Text) (device : Option (Device F)) (result : VerifyResult F) where
  blind_paths_sub :
      (path : OscPath)
      → (contains (blind_paths device result) path && not (contains result.unobserved path)) ≡ false
  unfolding blind_paths
  blind_paths_sub path =
      rw (contains-sort_by path_le (never_reported_paths device result.unobserved) path)
        (never_reported_paths_sub device result.unobserved path)

  pub mismatch_reason_told : (mismatch_reason device result == not_checked) ≡ false
  unfolding mismatch_reason not_checked contains
  mismatch_reason_told = unlike_not_checked b',' (mismatch_reason device result) refl (
      contains_behind (decimal (length result.mismatched))
        (codes " mismatched, "
          ++ (decimal (length result.unobserved)
              ++ (codes " not observed, "
                  ++ (decimal (length (blind_paths device result))
                      ++ codes " never reported by this backend"))))
        b',' refl)

  pub missing_reason_told :
      (unverified : List OscPath) → (missing_reason device result unverified == not_checked) ≡ false
  unfolding missing_reason not_checked contains
  missing_reason_told unverified =
      unlike_not_checked b',' (missing_reason device result unverified) refl (
        contains_behind (decimal (length unverified))
          (codes " unconfirmed, "
            ++ (decimal (length (blind_paths device result))
                ++ codes " of them never reported by this backend"))
          b',' refl)

  module _ (registers : List OscPath) (whole : Partition registers result) where
    unverified_split :
        (path : OscPath)
        → contains (unverified_paths result) path
          ≡ contains (result.mismatched ++ result.unobserved) path
    unverified_split path = contains-sort_by path_le (result.mismatched ++ result.unobserved) path

    in_unverified :
        (path : OscPath)
        → contains (unverified_paths result) path
          ≡ (contains result.mismatched path || contains result.unobserved path)
    in_unverified path =
        unverified_split path ∙ contains-append result.mismatched result.unobserved path

    pub read_accepted :
        (state : OutcomeState) (reason : Text)
        → is_part state ≡ false
        → (reason == not_checked) ≡ false
        → validate_state state
            (read_outcome state name reason device result (unverified_paths result))
          ≡ ok tt
        → construct (read_outcome state name reason device result (unverified_paths result))
          ≡ ok (read_outcome state name reason device result (unverified_paths result))
    unfolding read_outcome bare validate_read_back
    read_accepted state reason all told settled =
        validate_intro (read_outcome state name reason device result (unverified_paths result))
          (validate_sets_intro
            (read_outcome state name reason device result (unverified_paths result)) refl refl
            (is_subset_pointwise (blind_paths device result) (unverified_paths result)
              (λ path. ground (arith, in_unverified path, blind_paths_sub path)))
            (ground arith) (ground arith)
            (is_subset_pointwise result.invalid result.mismatched (λ path. (whole path).4))
            (intersects_intro result.mismatched result.unobserved (λ path. (whole path).3))
            (rw told) (ground arith))
          settled
          (rw (
            same_set_intro (unverified_paths result) (result.mismatched ++ result.unobserved)
                unverified_split,
            is_subset_pointwise (blind_paths device result) result.unobserved blind_paths_sub,
          ))
