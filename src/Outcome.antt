-- ===== src/Outcome.antt =====
-- src/oscmix_desk/outcome.py: the result of a switch, and the checks that its constructor makes.
-- The types of the fields take the place of the constructor's tests of Python types; the reason is
-- a text of code points. The line that a person reads is `Line`, the choice of its wording.
pub mod Evidence
use oscmix_desk.Common.{
  ℕ, ◌+◌, Bool, true, false, not, ◌&&◌, ◌||◌, Option, none, some, List, [], ◌∷◌, ◌++◌, length,
  String, if◌then◌else◌, Result, ok, err, ◌>>=◌, ◌>>◌, refuse, require, ◌==◌, ℕ_eq,
}
use oscmix_desk.Common.Sets.{contains, intersects, is_subset, same_set, difference, List_eq}
use oscmix_desk.Osc.Bytes.{Text}
use oscmix_desk.Paths.{OscPath, Segment_eq, codes}

-- `OutcomeState`
pub data OutcomeState : Type 0 where
  applied_verified applied_unverified applied_mismatched refused written_in_part : OutcomeState

abbrev pub is_refused : OutcomeState → Bool
is_refused refused = true
is_refused _ = false

abbrev pub is_part : OutcomeState → Bool
is_part written_in_part = true
is_part _ = false

abbrev pub is_unverified : OutcomeState → Bool
is_unverified applied_unverified = true
is_unverified _ = false

-- `NOT_CHECKED`
unfoldable pub not_checked : Text
not_checked = codes "verification not requested"

-- `Outcome`
pub record Outcome : Type 0 where
  pub state : OutcomeState
  pub name : Text
  pub reason : Text
  pub unverified : List OscPath
  pub unverifiable : List OscPath
  pub persisted : Bool
  pub durable : Bool
  pub read_back : Bool
  pub written : List OscPath
  pub unwritten : List OscPath
  pub reload_failed : Bool
  pub mismatched : List OscPath
  pub unobserved : List OscPath
  pub invalid : List OscPath

-- the `ValueError`s
pub data OutcomeError : Type 0 where
  durable_without_marker reload_without_operation unverifiable_not_unverified : OutcomeError
  unread_classification invalid_not_mismatched mismatched_and_unobserved : OutcomeError
  unrequested_read_back written_elsewhere no_reason unfinished_read_back : OutcomeError
  refused_writes nothing_submitted partial_not_unverified incomplete_match : OutcomeError
  no_difference hidden_mismatch nothing_missing unverified_not_reported : OutcomeError
  unverifiable_observed : OutcomeError

abbrev pub any_of {ℓ} : {A : Type ℓ} → List A → Bool
any_of [] = false
any_of (_ ∷ _) = true

-- the checks that every state shares
unfoldable pub validate_sets : Outcome → Result OutcomeError (Unit {0})
unfolding is_subset intersects not_checked
validate_sets o = do
  refuse (o.durable && not o.persisted) durable_without_marker
  refuse (o.reload_failed && (not (is_part o.state) && not o.persisted)) reload_without_operation
  require (is_subset o.unverifiable o.unverified) unverifiable_not_unverified
  refuse (any_of o.unverifiable && not o.read_back) unread_classification
  refuse ((any_of o.mismatched || (any_of o.unobserved || any_of o.invalid)) && not o.read_back)
      unread_classification
  require (is_subset o.invalid o.mismatched) invalid_not_mismatched
  refuse (intersects o.mismatched o.unobserved) mismatched_and_unobserved
  refuse ((o.reason == not_checked) && (o.read_back || not (is_unverified o.state)))
      unrequested_read_back
  refuse (not (is_part o.state) && (any_of o.written || any_of o.unwritten)) written_elsewhere

-- an operation that did not complete
unfoldable pub validate_incomplete : Outcome → Result OutcomeError (Unit {0})
validate_incomplete o = do
  require (any_of o.reason) no_reason
  refuse (o.read_back || o.persisted) unfinished_read_back

-- the checks of the one state
unfoldable pub validate_state : OutcomeState → Outcome → Result OutcomeError (Unit {0})
unfolding validate_incomplete same_set
validate_state refused o = do _ ← validate_incomplete o; refuse (any_of o.unverified) refused_writes
validate_state written_in_part o = do
  _ ← validate_incomplete o
  require (any_of o.written) nothing_submitted
  require (same_set o.unverified (o.written ++ o.unwritten)) partial_not_unverified
validate_state applied_verified o =
    refuse
      (not o.read_back || (any_of o.unverified || (any_of o.mismatched || any_of o.unobserved)))
      incomplete_match
validate_state applied_mismatched o =
    refuse (not o.read_back || not (any_of o.mismatched)) no_difference
validate_state applied_unverified o =
    if any_of o.mismatched
    then err hidden_mismatch
    else if o.read_back
    then require (any_of o.unverified) nothing_missing
    else require (any_of o.reason) no_reason

-- the checks of a completed read-back
unfoldable pub validate_read_back : Outcome → Result OutcomeError (Unit {0})
unfolding same_set is_subset
validate_read_back o =
    if o.read_back
    then (do
      require (same_set o.unverified (o.mismatched ++ o.unobserved)) unverified_not_reported
      require (is_subset o.unverifiable o.unobserved) unverifiable_observed)
    else ok tt

-- `_validate`
unfoldable pub validate : Outcome → Result OutcomeError (Unit {0})
unfolding validate_sets validate_state validate_read_back
validate o = do _ ← validate_sets o; _ ← validate_state o.state o; validate_read_back o

-- `Outcome(...)`, and `replace(outcome, ...)`, which constructs it again
unfoldable pub construct : Outcome → Result OutcomeError Outcome
unfolding validate
construct o = do _ ← validate o; ok o

-- `applied`
unfoldable pub applied : Outcome → Bool
applied o = not (is_refused o.state)

-- What the line says of the state, with the numbers in it.
pub data StateLine : Type 0 where
  says_refused says_verified : StateLine
  says_part : ℕ → ℕ → StateLine
  says_mismatched : ℕ → List OscPath → ℕ → ℕ → StateLine
  says_not_checked says_not_read : ℕ → StateLine
  says_blind : ℕ → StateLine
  says_unconfirmed : List OscPath → ℕ → StateLine

-- What it adds.
pub data Remark : Type 0 where
  not_in_effect not_remembered not_durable refused_reload : Remark

-- `_describe_state`
unfoldable pub describe_unverified : Outcome → StateLine
unfolding difference not_checked
describe_unverified o =
    if o.reason == not_checked
    then says_not_checked (length o.unverified)
    else if not o.read_back
    then says_not_read (length o.unverified)
    else elim (difference o.unverified o.unverifiable) [
      | [] ↦ says_blind (length o.unverifiable)
      | path ∷ missed ↦ says_unconfirmed (path ∷ missed) (length o.unverifiable)
    ]

unfoldable pub describe_state : OutcomeState → Outcome → StateLine
unfolding describe_unverified
describe_state refused o = says_refused
describe_state written_in_part o =
    says_part (length o.written) (length o.written + length o.unwritten)
describe_state applied_verified o = says_verified
describe_state applied_mismatched o =
    says_mismatched (length o.mismatched) o.invalid (length o.unobserved) (length o.unverifiable)
describe_state applied_unverified o = describe_unverified o

-- the remarks of `describe`, after the line of a refused outcome has been returned
unfoldable pub remarks : OutcomeState → Outcome → List Remark
remarks refused o = []
remarks written_in_part o = not_in_effect ∷ (if o.reload_failed then refused_reload ∷ [] else [])
remarks _ o =
    (if not o.persisted
      then not_remembered ∷ []
      else if not o.durable
      then not_durable ∷ []
      else [])
    ++ (if o.reload_failed then refused_reload ∷ [] else [])

-- `describe`
unfoldable pub describe : Outcome → StateLine × List Remark
unfolding describe_state remarks
describe o = (describe_state o.state o, remarks o.state o)
