-- ===== src/Activation.antt =====
-- src/oscmix_desk/profiles.py: a switch to a desk and the outcome that it reports. What the desk
-- and the system answer is the argument `Answers`; the texts of exceptions are part of it.
pub mod Accepted
pub mod Reported
pub mod Marker
use oscmix_desk.Common.{
  Bool, true, false, not, ◌&&◌, Option, none, some, List, [], ◌∷◌, ◌++◌, if◌then◌else◌, Result, ok,
  err, ◌>>=◌, length,
}
use oscmix_desk.Common.Decimal.{decimal}
use oscmix_desk.Common.Sets.{contains, List_eq}
use oscmix_desk.Common.Sort.{sort_by}
use oscmix_desk.Osc.Bytes.{Text}
use oscmix_desk.Paths.{OscPath, Segment_eq, path_le, codes}
use oscmix_desk.Registers.{Device}
use oscmix_desk.Verify.{VerifyResult, register_ever_reported}
use oscmix_desk.Outcome.{
  Outcome, OutcomeState, OutcomeError, applied_verified, applied_unverified, applied_mismatched,
  refused, written_in_part, not_checked, any_of, construct,
}

-- `Marked`
pub record Marked : Type 0 where
  pub in_effect : Bool
  pub durable : Bool

-- `WriteFailed`: the paths that went out and those that did not, and the cause
pub record WriteFailed : Type 0 where
  pub written : List OscPath
  pub unwritten : List OscPath
  pub cause : Text

-- What the calls of one activation answer: `maintenance_problem()`, the start of the operation,
-- `desk.apply`, `desk.verify`, the end of the operation, and the marker.
pub record Answers (F : Type 0) : Type 0 where
  pub maintenance : Option Text
  pub opened : Result Text (Unit {0})
  pub sent : Option WriteFailed
  pub result : Result Text (VerifyResult F)
  pub finished : Result Text (Unit {0})
  pub marked : Marked

-- `Outcome(state=..., name=..., reason=...)`, every other field at its default
unfoldable pub bare : OutcomeState → Text → Text → Outcome
bare state name reason = record {
  state = state;
  name = name;
  reason = reason;
  unverified = [];
  unverifiable = [];
  persisted = false;
  durable = false;
  read_back = false;
  written = [];
  unwritten = [];
  reload_failed = false;
  mismatched = [];
  unobserved = [];
  invalid = [];
}

-- `_refused_for_the_device`
unfoldable pub refused_for_the_device : Text → Text → Result OutcomeError Outcome
unfolding construct bare
refused_for_the_device name reason = construct (bare refused name reason)

-- `"cannot complete backend writes (%s)"`
unfoldable pub write_cause : WriteFailed → Text
write_cause failed = codes "cannot complete backend writes (" ++ failed.cause ++ codes ")"

unfoldable pub part_outcome : Text → WriteFailed → Outcome
unfolding bare write_cause
part_outcome name failed = record (bare written_in_part name (write_cause failed)) {
  unverified = failed.written ++ failed.unwritten;
  written = failed.written;
  unwritten = failed.unwritten;
}

-- the outcome of writes that failed
unfoldable pub partly_written : Text → WriteFailed → Result OutcomeError Outcome
unfolding construct bare write_cause part_outcome
partly_written name failed =
    if any_of failed.written
    then construct (part_outcome name failed)
    else construct (bare refused name (write_cause failed))

-- an applied desk that nothing was read back of
unfoldable pub unread_outcome : Text → Text → List OscPath → Outcome
unfolding bare sort_by
unread_outcome name reason registers = record (bare applied_unverified name reason) {
  unverified = sort_by path_le registers;
}

unfoldable pub unread : Text → Text → List OscPath → Result OutcomeError Outcome
unfolding construct unread_outcome
unread name reason registers = construct (unread_outcome name reason registers)

-- `APPLIED_VERIFIED`, with every flag but `read_back` at its default
unfoldable pub verified_outcome : Text → Outcome
unfolding bare
verified_outcome name = record (bare applied_verified name []) { read_back = true }

-- `replace(outcome, persisted=marked.in_effect, durable=marked.durable)`
unfoldable pub marked_outcome : Marked → Outcome → Outcome
marked_outcome marked outcome = record outcome {
  persisted = marked.in_effect;
  durable = marked.durable;
}

module _ {F : Type 0} where
  unfoldable pub never_reported_paths : Option (Device F) → List OscPath → List OscPath
  unfolding register_ever_reported
  never_reported_paths device [] = []
  never_reported_paths device (path ∷ paths) =
      let rest = never_reported_paths device paths in
      if register_ever_reported path device then rest else path ∷ rest

  unfoldable pub blind_paths : Option (Device F) → VerifyResult F → List OscPath
  unfolding never_reported_paths sort_by
  blind_paths device result = sort_by path_le (never_reported_paths device result.unobserved)

  -- the counts of a read-back that left registers unconfirmed, as a text
  unfoldable pub mismatch_reason : Option (Device F) → VerifyResult F → Text
  unfolding decimal blind_paths
  mismatch_reason device result =
      decimal (length result.mismatched)
      ++ (codes " mismatched, "
          ++ (decimal (length result.unobserved)
              ++ (codes " not observed, "
                  ++ (decimal (length (blind_paths device result))
                      ++ codes " never reported by this backend"))))

  unfoldable pub missing_reason : Option (Device F) → VerifyResult F → List OscPath → Text
  unfolding decimal blind_paths
  missing_reason device result unverified =
      decimal (length unverified)
      ++ (codes " unconfirmed, "
          ++ (decimal (length (blind_paths device result))
              ++ codes " of them never reported by this backend"))

  -- the outcome of a read-back, in one of the two states that it may have
  unfoldable pub read_outcome :
      OutcomeState → Text → Text → Option (Device F) → VerifyResult F → List OscPath → Outcome
  unfolding bare blind_paths
  read_outcome state name reason device result unverified = record (bare state name reason) {
    unverified = unverified;
    unverifiable = blind_paths device result;
    read_back = true;
    mismatched = result.mismatched;
    unobserved = result.unobserved;
    invalid = result.invalid;
  }

  -- the outcome of a read-back that left registers unconfirmed
  unfoldable pub unconfirmed_outcome :
      Text → Option (Device F) → VerifyResult F → List OscPath → Outcome
  unfolding read_outcome mismatch_reason missing_reason
  unconfirmed_outcome name device result unverified =
      if any_of result.mismatched
      then read_outcome applied_mismatched name (mismatch_reason device result) device result
          unverified
      else read_outcome applied_unverified name (missing_reason device result unverified) device
          result unverified

  -- `_check`
  unfoldable pub check :
      Text
      → Option (Device F)
      → List OscPath
      → Result Text (VerifyResult F)
      → Result OutcomeError Outcome
  unfolding unread unconfirmed_outcome verified_outcome construct sort_by
  check name device registers (err reason) = unread name reason registers
  check name device registers (ok result) =
      let unverified = sort_by path_le (result.mismatched ++ result.unobserved) in
      if any_of unverified
      then construct (unconfirmed_outcome name device result unverified)
      else construct (verified_outcome name)

  -- the end of the operation: the marker is written only behind it
  unfoldable pub finish : Text → List OscPath → Answers F → Outcome → Result OutcomeError Outcome
  unfolding construct unread marked_outcome
  finish name registers answers outcome = elim answers.finished [
    | ok _ ↦ construct (marked_outcome answers.marked outcome)
    | err reason ↦ unread name (codes "backend operation did not finish: " ++ reason) registers
  ]

  -- what is known of the device before the operation ends
  unfoldable pub observed_outcome :
      Text → Bool → Option (Device F) → List OscPath → Answers F → Result OutcomeError Outcome
  unfolding check unread not_checked
  observed_outcome name verify device registers answers =
      if verify
      then check name device registers answers.result
      else unread name not_checked registers

  -- the operation, once it is open
  unfoldable pub operate :
      Text → Bool → Option (Device F) → List OscPath → Answers F → Result OutcomeError Outcome
  unfolding partly_written observed_outcome finish
  operate name verify device registers answers = elim answers.sent [
    | some failed ↦ partly_written name failed
    | none ↦ (do
      outcome ← observed_outcome name verify device registers answers
      finish name registers answers outcome)
  ]

  -- `_activate`
  unfoldable pub activate :
      Text → Bool → Option (Device F) → List OscPath → Answers F → Result OutcomeError Outcome
  unfolding refused_for_the_device operate
  activate name verify device registers answers = elim answers.maintenance [
    | some problem ↦
        refused_for_the_device name
          (problem ++ codes "; complete installation recovery before activation")
    | none ↦ elim answers.opened [
      | err reason ↦ refused_for_the_device name reason
      | ok _ ↦ operate name verify device registers answers
    ]
  ]
