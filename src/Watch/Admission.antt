-- ===== src/Watch/Admission.antt =====
-- src/oscmix_desk/watch.py: how often watch asserted each register again. Times are milliseconds
-- of a clock that does not run backwards; `same` is Python's comparison of two desks.
pub mod Bound
use oscmix_desk.Common.{
  ℕ, ◌-◌, Bool, true, false, Option, none, some, List, [], ◌∷◌, ◌++◌, ltb, leb, length,
  if◌then◌else◌,
}
use oscmix_desk.Common.Sets.{contains, add, List_eq}
use oscmix_desk.Common.Dict.{Dict, lookup, insert}
use oscmix_desk.Paths.{OscPath, Segment_eq}

-- `WATCH_REPEATS`, `WATCH_REPEAT_WINDOW`
abbrev pub watch_repeats : ℕ
watch_repeats = 3

abbrev pub watch_repeat_window : ℕ
watch_repeat_window = 60000

-- `now - then < WATCH_REPEAT_WINDOW`
abbrev pub recent : ℕ → ℕ → Bool
recent now before = ltb (now - before) watch_repeat_window

-- `Repeats`
pub record Repeats (D : Type 0) : Type 0 where
  pub times : Dict OscPath (List ℕ)
  pub desk : Option D
  pub left : List OscPath

unfoldable pub keep_recent : ℕ → List ℕ → List ℕ
keep_recent now [] = []
keep_recent now (before ∷ times) =
    let rest = keep_recent now times in if recent now before then before ∷ rest else rest

-- `self._times.get(path, ())`
unfoldable pub times_of : Dict OscPath (List ℕ) → OscPath → List ℕ
unfolding lookup
times_of times path = elim (lookup path times) [ none ↦ [] | some found ↦ found ]

module _ {D : Type 0} where
  -- `Repeats()`
  unfoldable pub new_repeats : Repeats D
  new_repeats = record { times = []; desk = none; left = [] }

  unfoldable pub forgive : Repeats D → Repeats D
  forgive r = record r { times = []; left = [] }

  -- one round of the loop of `admit`, with whether the path is admitted
  unfoldable pub admit_path : ℕ → Repeats D → OscPath → Repeats D × Bool
  unfolding contains add insert keep_recent times_of
  admit_path now r path =
      let times = keep_recent now (times_of r.times path) in
      if contains r.left path
      then (r, false)
      else if leb watch_repeats (length times)
      then (record r { left = add path r.left }, false)
      else (record r { times = insert path (times ++ now ∷ []) r.times }, true)

  unfoldable pub admit_paths : ℕ → Repeats D → List OscPath → Repeats D × List OscPath
  unfolding admit_path
  admit_paths now r [] = (r, [])
  admit_paths now r (path ∷ paths) =
      let step = admit_path now r path in
      let rest = admit_paths now step.0 paths in (rest.0, if step.1 then path ∷ rest.1 else rest.1)

  -- `desk != self._desk`
  unfoldable pub is_desk : (D → D → Bool) → Option D → D → Bool
  is_desk same none desk = false
  is_desk same (some before) desk = same desk before

  unfoldable pub take_desk : (D → D → Bool) → D → Repeats D → Repeats D
  unfolding is_desk forgive
  take_desk same desk r =
      if is_desk same r.desk desk then r else record (forgive r) { desk = some desk }

  -- `admit`
  unfoldable pub admit :
      (D → D → Bool) → D → List OscPath → ℕ → Repeats D → Repeats D × List OscPath
  unfolding take_desk admit_paths
  admit same desk paths now r = admit_paths now (take_desk same desk r) paths
