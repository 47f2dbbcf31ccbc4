-- ===== src/Outcome/Evidence.antt =====
-- src/oscmix_desk/outcome.py: what an accepted outcome promises in each of its states.
use oscmix_desk.Common.{
  ◌≡◌, ◌∙◌, ◌⊎◌, refl, inl, inr, true, false, not, ◌&&◌, ◌||◌, List, [], ◌∷◌, ◌++◌, arith, ok,
  Bool-cases, bind_ok, refuse, require, ◌>>=◌, ◌>>◌, refuse_ok, ℕ_eq,
}
use oscmix_desk.Common.Sets.{
  contains, contains-append, intersects, is_subset, same_set, List_eq, is_subset-contains,
  same_set-contains, intersects-contains,
}
use oscmix_desk.Paths.{OscPath, Segment_eq}
use oscmix_desk.Outcome.{
  Outcome, OutcomeState, applied_verified, applied_unverified, applied_mismatched, refused,
  written_in_part, is_part, any_of, validate, validate_sets, validate_state, validate_incomplete,
  validate_read_back, refused_writes, nothing_submitted, partial_not_unverified,
}

-- What the checks of every state leave.
abbrev Checked : Outcome → Type 0
Checked o =
    ((o.durable && not o.persisted) ≡ false)
    × (is_subset o.unverifiable o.unverified ≡ true)
    × ((any_of o.unverifiable && not o.read_back) ≡ false)
    × (((any_of o.mismatched || (any_of o.unobserved || any_of o.invalid)) && not o.read_back)
        ≡ false)
    × (is_subset o.invalid o.mismatched ≡ true)
    × (intersects o.mismatched o.unobserved ≡ false)
    × ((not (is_part o.state) && (any_of o.written || any_of o.unwritten)) ≡ false)

validate_sets-Checked : (o : Outcome) → validate_sets o ≡ ok tt → Checked o
unfolding validate_sets
validate_sets-Checked o h = ground arith

validate_inversion :
    (o : Outcome)
    → validate o ≡ ok tt
    → Checked o × (validate_state o.state o ≡ ok tt) × (validate_read_back o ≡ ok tt)
unfolding validate
validate_inversion o h =
    let (_, sets, rest) =
      bind_ok (validate_sets o) (λ _. validate_state o.state o >>= λ _. validate_read_back o) h in
    let (_, state, last) = bind_ok (validate_state o.state o) (λ _. validate_read_back o) rest in
    (validate_sets-Checked o sets, state, last)

-- The paths that are not confirmed are those that mismatched and those that were not observed,
-- and never both.
abbrev Split : Outcome → Type 0
Split o =
    (path : OscPath)
    → (contains o.unverified path ≡ (contains o.mismatched path || contains o.unobserved path))
      × ((contains o.mismatched path && contains o.unobserved path) ≡ false)
      × ((contains o.invalid path && not (contains o.mismatched path)) ≡ false)
      × ((contains o.unverifiable path && not (contains o.unobserved path)) ≡ false)

-- Nothing was learned from the device and nothing is remembered.
abbrev Unfinished : Outcome → Type 0
Unfinished o =
    (o.read_back ≡ false)
    × (o.persisted ≡ false)
    × (o.durable ≡ false)
    × (o.mismatched ≡ [])
    × (o.unobserved ≡ [])
    × (o.unverifiable ≡ [])

-- What each state means.
abbrev pub Promise : OutcomeState → Outcome → Type 0
Promise refused o = Unfinished o × (o.unverified ≡ []) × (o.written ≡ []) × (o.unwritten ≡ [])
Promise written_in_part o =
    Unfinished o
    × (any_of o.written ≡ true)
    × ((path : OscPath)
        → contains o.unverified path ≡ (contains o.written path || contains o.unwritten path))
Promise applied_verified o =
    (o.read_back ≡ true)
    × (o.unverified ≡ [])
    × (o.mismatched ≡ [])
    × (o.unobserved ≡ [])
    × (o.written ≡ [])
    × (o.unwritten ≡ [])
Promise applied_mismatched o =
    (o.read_back ≡ true)
    × (any_of o.mismatched ≡ true)
    × Split o
    × (o.written ≡ [])
    × (o.unwritten ≡ [])
Promise applied_unverified o =
    (o.mismatched ≡ [])
    × (o.written ≡ [])
    × (o.unwritten ≡ [])
    × (((o.read_back ≡ true) × (any_of o.unverified ≡ true) × Split o)
        ⊎ ((o.read_back ≡ false) × (o.unobserved ≡ []) × (o.unverifiable ≡ [])))

none_of : {A : Type 0} (xs : List A) → any_of xs ≡ false → xs ≡ []
none_of [] h = refl
none_of (x ∷ xs) h = cc

read_back-Split :
    (o : Outcome) → Checked o → o.read_back ≡ true → validate_read_back o ≡ ok tt → Split o
unfolding validate_read_back
read_back-Split o checked read h path = (
  same_set-contains o.unverified (o.mismatched ++ o.unobserved) path sets.0
      ∙ contains-append o.mismatched o.unobserved path,
  intersects-contains o.mismatched o.unobserved path checked.5,
  is_subset-contains o.invalid o.mismatched path checked.4,
  is_subset-contains o.unverifiable o.unobserved path sets.1,
)
  where
    sets :
        (same_set o.unverified (o.mismatched ++ o.unobserved) ≡ true)
        × (is_subset o.unverifiable o.unobserved ≡ true)
    sets = ground (arith, read, h)

unread_empty :
    (o : Outcome)
    → Checked o
    → o.read_back ≡ false
    → (o.mismatched ≡ []) × (o.unobserved ≡ []) × (o.unverifiable ≡ [])
unread_empty o checked unread = (
  none_of o.mismatched (ground (arith, checked, unread)),
  none_of o.unobserved (ground (arith, checked, unread)),
  none_of o.unverifiable (ground (arith, checked, unread)),
)

incomplete-Unfinished : (o : Outcome) → Checked o → validate_incomplete o ≡ ok tt → Unfinished o
unfolding validate_incomplete
incomplete-Unfinished o checked h =
    let (a, b, c) = unread_empty o checked unread in
    (unread, forgotten, ground (arith, checked, forgotten), a, b, c)
  where
    unread : o.read_back ≡ false
    unread = ground (arith, h)

    forgotten : o.persisted ≡ false
    forgotten = ground (arith, h)

-- Paths are written in part only where the state says so.
whole_written :
    (o : Outcome) → Checked o → is_part o.state ≡ false → (o.written ≡ []) × (o.unwritten ≡ [])
whole_written o checked whole = (
  none_of o.written (ground (arith, checked, whole)),
  none_of o.unwritten (ground (arith, checked, whole)),
)

promise :
    (s : OutcomeState) (o : Outcome)
    → o.state ≡ s
    → Checked o
    → validate_state s o ≡ ok tt
    → validate_read_back o ≡ ok tt
    → Promise s o
unfolding validate_state
promise refused o at checked h last =
    let (all, part) = whole_written o checked (rw at) in
    let (_, incomplete, rest) =
      bind_ok (validate_incomplete o) (λ _. refuse (any_of o.unverified) refused_writes) h in
    (
      incomplete-Unfinished o checked incomplete,
      none_of o.unverified (refuse_ok (any_of o.unverified) refused_writes rest),
      all,
      part,
    )
promise written_in_part o at checked h last =
    let (_, incomplete, rest) =
      bind_ok (validate_incomplete o)
        (λ _. do
          require (any_of o.written) nothing_submitted
          require (same_set o.unverified (o.written ++ o.unwritten)) partial_not_unverified)
        h in
    let same : same_set o.unverified (o.written ++ o.unwritten) ≡ true = ground (arith, rest) in
    (
      incomplete-Unfinished o checked incomplete,
      ground (arith, rest),
      λ path.
          same_set-contains o.unverified (o.written ++ o.unwritten) path same
          ∙ contains-append o.written o.unwritten path,
    )
promise applied_verified o at checked h last =
    let (all, part) = whole_written o checked (rw at) in
    (
      ground (arith, h),
      none_of o.unverified (ground (arith, h)),
      none_of o.mismatched (ground (arith, h)),
      none_of o.unobserved (ground (arith, h)),
      all,
      part,
    )
promise applied_mismatched o at checked h last =
    let read : o.read_back ≡ true = ground (arith, h) in
    let (all, part) = whole_written o checked (rw at) in
    (read, ground (arith, h), read_back-Split o checked read last, all, part)
promise applied_unverified o at checked h last =
    let (all, part) = whole_written o checked (rw at) in
    (
      none_of o.mismatched (ground (arith, h)),
      all,
      part,
      elim (Bool-cases o.read_back) [
        | inl read ↦ inl (read, ground (arith, h, read), read_back-Split o checked read last)
        | inr unread ↦ let (_, b, c) = unread_empty o checked unread in inr (unread, b, c)
      ],
    )

-- An outcome that its constructor accepts keeps the promise of its state.
pub validate-Promise : (o : Outcome) → validate o ≡ ok tt → Promise o.state o
validate-Promise o h =
    let (checked, state, last) = validate_inversion o h in promise o.state o refl checked state last
