-- ===== src/Watch/Admission/Bound.antt =====
-- src/oscmix_desk/watch.py: how often a register is asserted again within a window of time.
use oscmix_desk.Common.{
  ℕ, suc, ◌≤◌, ◌≡◌, refl, inl, inr, Bool, false, ◌&&◌, List, [], ◌∷◌, ◌++◌, arith, leb, length,
  length-append, if◌then◌else◌, ◌==◌, Bool-cases,
}
use oscmix_desk.Common.Sets.{contains, List_eq}
use oscmix_desk.Common.Dict.{Dict, lookup, insert, lookup-insert}
use oscmix_desk.Paths.{OscPath, Segment_eq}
use oscmix_desk.Watch.Admission.{
  Repeats, watch_repeats, recent, keep_recent, times_of, new_repeats, forgive, admit_path,
  admit_paths, is_desk, take_desk, admit,
}

-- how many of some times lie within the window that ends now
unfoldable pub count_recent : ℕ → List ℕ → ℕ
count_recent now [] = 0
count_recent now (before ∷ times) =
    let rest = count_recent now times in if recent now before then suc rest else rest

count_recent_le : (now : ℕ) (times : List ℕ) → count_recent now times ≤ length times
unfolding count_recent
count_recent_le now [] = omega arith
count_recent_le now (before ∷ times) = ground (arith, count_recent_le now times)

-- What is dropped as too old stays too old.
count_recent-keep_recent :
    (now later : ℕ) (times : List ℕ)
    → now ≤ later
    → count_recent later (keep_recent now times) ≡ count_recent later times
unfolding count_recent keep_recent
count_recent-keep_recent now later [] h = refl
count_recent-keep_recent now later (before ∷ times) h =
    ground (arith, count_recent-keep_recent now later times h)

count_recent-append :
    (now before : ℕ) (times : List ℕ)
    → count_recent now (times ++ before ∷ []) ≡ count_recent now (before ∷ times)
unfolding count_recent
count_recent-append now before [] = refl
count_recent-append now before (t ∷ times) = ground (arith, count_recent-append now before times)

times_of-insert :
    (q path : OscPath) (v : List ℕ) (times : Dict OscPath (List ℕ))
    → times_of (insert q v times) path ≡ (if q == path then v else times_of times path)
unfolding times_of
times_of-insert q path v times = rw (times_of, lookup-insert q path v times) (ground arith)

-- the times of a history, with those at which an admitted list has the path
unfoldable pub note_admitted : OscPath → ℕ → List OscPath → List ℕ → List ℕ
note_admitted path now [] history = history
note_admitted path now (q ∷ admitted) history =
    note_admitted path now admitted (if q == path then now ∷ history else history)

-- The record of a path that is admitted once more.
recorded_again :
    (now before : ℕ) (times history : List ℕ)
    → before ≤ now
    → leb watch_repeats (length (keep_recent now times)) ≡ false
    → ((later : ℕ) → before ≤ later → count_recent later history ≤ count_recent later times)
    → (length (keep_recent now times ++ now ∷ []) ≤ watch_repeats)
      × ((later : ℕ)
          → now ≤ later
          → count_recent later (now ∷ history)
            ≤ count_recent later (keep_recent now times ++ now ∷ []))
unfolding count_recent
recorded_again now before times history h room holds = (
  ground (arith, length-append (keep_recent now times) (now ∷ []), room),
  λ later k.
      let now_held = holds later (omega (arith, h, k)) in
      rw (count_recent-append later now (keep_recent now times))
        (ground (arith, now_held, count_recent-keep_recent now later times k)),
)

module _ {D : Type 0} (path : OscPath) where
  -- What is recorded of a path is short, and holds what the history has from any time on.
  abbrev Recorded : Repeats D → List ℕ → ℕ → Type 0
  Recorded r history now =
      (length (times_of r.times path) ≤ watch_repeats)
      × ((later : ℕ)
          → now ≤ later
          → count_recent later history ≤ count_recent later (times_of r.times path))

  admit_path-Recorded :
      (now before : ℕ) (r : Repeats D) (history : List ℕ) (q : OscPath)
      → before ≤ now
      → Recorded r history before
      → Recorded
          (admit_path now r q).0
          (if (admit_path now r q).1 && (q == path) then now ∷ history else history)
          now
  unfolding admit_path
  admit_path-Recorded now before r history q h (short, holds) =
      elim (Bool-cases (contains r.left q)) [
        | inl given_up ↦ rw given_up (short, λ later k. holds later (omega (arith, h, k)))
        | inr watched ↦
            elim (Bool-cases (leb watch_repeats (length (keep_recent now (times_of r.times q))))) [
              | inl full ↦ rw (watched, full) (short, λ later k. holds later (omega (arith, h, k)))
              | inr room ↦ elim (Bool-cases (q == path)) [
                | inr other ↦
                    rw
                      (
                        watched,
                        room,
                        times_of-insert q path (keep_recent now (times_of r.times q) ++ now ∷ [])
                            r.times,
                        other,
                      )
                      (short, λ later k. holds later (omega (arith, h, k)))
                | inl same ↦
                    let at : q ≡ path = (List_eq.beq_iff q path).0 same in
                    rw
                      (
                        watched,
                        room,
                        times_of-insert q path (keep_recent now (times_of r.times q) ++ now ∷ [])
                            r.times,
                        same,
                      )
                      (rw at (
                        recorded_again now before (times_of r.times path) history h (rw at at room)
                          holds))
              ]
            ]
      ]

  admit_paths-Recorded :
      (now before : ℕ) (r : Repeats D) (history : List ℕ) (paths : List OscPath)
      → before ≤ now
      → Recorded r history before
      → Recorded
          (admit_paths now r paths).0
          (note_admitted path now (admit_paths now r paths).1 history)
          now
  unfolding admit_paths note_admitted
  admit_paths-Recorded now before r history [] h (short, holds) =
      (short, λ later k. holds later (omega (arith, h, k)))
  admit_paths-Recorded now before r history (q ∷ paths) h recorded =
      let step = admit_path-Recorded now before r history q h recorded in
      elim (Bool-cases (admit_path now r q).1) [
        | inl admitted ↦ rw admitted (
            admit_paths-Recorded now now (admit_path now r q).0
              (if q == path then now ∷ history else history) paths (omega arith)
              (rw admitted at step))
        | inr refused ↦ rw refused (
            admit_paths-Recorded now now (admit_path now r q).0 history paths (omega arith)
              (rw refused at step))
      ]

-- A call of `admit`, or the reload that forgives.
pub data Event (D : Type 0) : Type 0 where
  asks : D → List OscPath → ℕ → Event D
  reloads : Event D

module _ {D : Type 0} (same : D → D → Bool) (path : OscPath) where
  -- the repeats behind some events, and when the path was admitted since the desk last changed or
  -- was forgiven
  unfoldable pub replay : Repeats D → List ℕ → List (Event D) → Repeats D × List ℕ
  unfolding admit note_admitted forgive is_desk
  replay r history [] = (r, history)
  replay r history (reloads ∷ events) = replay (forgive r) [] events
  replay r history (asks desk paths now ∷ events) =
      replay (admit same desk paths now r).0
        (note_admitted path now (admit same desk paths now r).1
          (if is_desk same r.desk desk then history else []))
        events

  -- The clock does not run backwards.
  abbrev pub Ordered : ℕ → List (Event D) → Type 0
  Ordered before [] = Unit
  Ordered before (reloads ∷ events) = Ordered before events
  Ordered before (asks desk paths now ∷ events) = (before ≤ now) × Ordered now events

  abbrev pub last_time : ℕ → List (Event D) → ℕ
  last_time before [] = before
  last_time before (reloads ∷ events) = last_time before events
  last_time before (asks desk paths now ∷ events) = last_time now events

  take_desk-Recorded :
      (desk : D) (r : Repeats D) (history : List ℕ) (before : ℕ)
      → Recorded path r history before
      → Recorded path
          (take_desk same desk r)
          (if is_desk same r.desk desk then history else [])
          before
  unfolding take_desk forgive times_of lookup count_recent
  take_desk-Recorded desk r history before recorded = elim (Bool-cases (is_desk same r.desk desk)) [
    | inl kept ↦ rw kept recorded
    | inr changed ↦ rw changed (omega arith, λ later k. omega arith)
  ]

  replay-Recorded :
      (r : Repeats D) (history : List ℕ) (before : ℕ) (events : List (Event D))
      → Ordered before events
      → Recorded path r history before
      → Recorded path
          (replay r history events).0
          (replay r history events).1
          (last_time before events)
  unfolding replay forgive times_of lookup count_recent admit
  replay-Recorded r history before [] ordered recorded = recorded
  replay-Recorded r history before (reloads ∷ events) ordered recorded =
      replay-Recorded (forgive r) [] before events ordered (omega arith, λ later k. omega arith)
  replay-Recorded r history before (asks desk paths now ∷ events) (h, ordered) recorded =
      replay-Recorded (admit same desk paths now r).0
        (note_admitted path now (admit same desk paths now r).1
          (if is_desk same r.desk desk then history else []))
        now events ordered
        (admit_paths-Recorded path now before (take_desk same desk r)
          (if is_desk same r.desk desk then history else []) paths h
          (take_desk-Recorded desk r history before recorded))

  -- With a clock that does not run backwards, of all the times at which watch asserted a path again
  -- since the desk last changed or a reload forgave it, at most `WATCH_REPEATS` lie within any `WATCH_REPEAT_WINDOW` that ends at the last
  -- call or later.
  pub replay_bound :
      (events : List (Event D)) (now : ℕ)
      → Ordered 0 events
      → last_time 0 events ≤ now
      → count_recent now (replay new_repeats [] events).1 ≤ watch_repeats
  unfolding new_repeats times_of lookup count_recent
  replay_bound events now ordered h =
      let (short, holds) =
        replay-Recorded new_repeats [] 0 events ordered (omega arith, λ later k. omega arith) in
      omega (
        arith,
        short,
        holds now h,
        count_recent_le now (times_of (replay new_repeats [] events).0.times path),
      )
