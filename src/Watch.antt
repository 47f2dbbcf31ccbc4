-- ===== src/Watch.antt =====
-- src/oscmix_desk/watch.py: the watcher that asks for a reconcile when a device report contradicts
-- the desk. Times are milliseconds of a clock that does not run backwards.
pub mod Admission
pub mod Drift
pub mod Known
pub mod Connections
use oscmix_desk.Common.{
  ℕ, suc, ◌-◌, Bool, true, false, not, ◌&&◌, ◌||◌, Option, none, some, List, [], ◌∷◌, ltb, leb,
  length, if◌then◌else◌, Result, ok, err,
}
use oscmix_desk.Common.Sets.{contains, difference, List_eq}
use oscmix_desk.Common.Sort.{sort_by}
use oscmix_desk.Common.Dict.{insert, keys}
use oscmix_desk.Floats.{Floats}
use oscmix_desk.Paths.{OscPath, Segment_eq, path_le, ends_with}
use oscmix_desk.Registers.{Device, VerifyClass, verifiable, verify_class}
use oscmix_desk.Autogain.{Report, Reports}
use oscmix_desk.Model.Config.{Config}
use oscmix_desk.Reconcile.Compare.{
  Write, WriteReason, missing, mismatched, rewrite, unconditional, prerequisite,
}
use oscmix_desk.Reconcile.Apply.{ApplyIntent, reconcile, application_plan}
use oscmix_desk.Observation.{observation, absorb_all}
use Admission.{Repeats, admit, forgive}

-- `KNOWN_LIMIT`, `WATCH_SETTLE`, `WATCH_LONGEST`, `WATCH_CONNECTIONS`
abbrev pub known_limit : ℕ
known_limit = 20000

abbrev pub watch_settle : ℕ
watch_settle = 2000

abbrev pub watch_longest : ℕ
watch_longest = 10000

abbrev pub watch_connections : ℕ
watch_connections = 3

abbrev pub is_prerequisite : WriteReason → Bool
is_prerequisite prerequisite = true
is_prerequisite missing = false
is_prerequisite mismatched = false
is_prerequisite rewrite = false
is_prerequisite unconditional = false

abbrev pub class_is_verifiable : Option VerifyClass → Bool
class_is_verifiable (some verifiable) = true
class_is_verifiable _ = false

module _ {F : Type 0} where
  -- a planned write that a report may contradict
  unfoldable pub is_judged : Device F → Write F → Bool
  unfolding verify_class
  is_judged device w =
      not (is_prerequisite w.reason) && class_is_verifiable (verify_class (some device) w.path)

  unfoldable pub judged_writes : Device F → List (Write F) → Reports F → Reports F
  unfolding is_judged insert
  judged_writes device [] expected = expected
  judged_writes device (w ∷ ws) expected =
      let more = insert w.path (w.tags, w.args) expected in
      if is_judged device w then judged_writes device ws more else judged_writes device ws expected

module _ {F : Type 0} ⦃fl : Floats F⦄ where
  -- the registers of an observation that contradict what is expected
  unfoldable pub contradicted : Device F → Reports F → Reports F → List OscPath
  unfolding observation absorb_all difference sort_by
  contradicted device expected reports =
      let seen = absorb_all (observation expected (some device) [] []) reports in
      sort_by path_le (difference seen.mismatched seen.invalid)

  -- `drift`
  unfoldable pub drift : Config F → Option (Device F) → Reports F → Reports F → List OscPath
  unfolding contradicted judged_writes application_plan
  drift desk none reports known = []
  drift desk (some device) [] known = []
  drift desk (some device) (report ∷ reports) known =
      elim (application_plan desk (some device) reconcile [] [] known) [
        | err _ ↦ []
        | ok selected ↦
            contradicted device (judged_writes device selected.writes []) (report ∷ reports)
      ]

abbrev pub first_or : Option ℕ → ℕ → ℕ
first_or none now = now
first_or (some first) now = first

-- `Watch`, without what it calls
pub record Watch (F : Type 0) : Type 0 where
  pub forgiven : Bool
  pub repeats : Repeats (Config F)
  pub known : Reports F
  pub pending : Reports F
  pub first : Option ℕ
  pub last : ℕ

module _ {F : Type 0} where
  -- the reports that are not of a level meter
  unfoldable pub registers_of : List (OscPath × Report F) → List (OscPath × Report F)
  unfolding ends_with
  registers_of [] = []
  registers_of ((path, report) ∷ reports) =
      let rest = registers_of reports in
      if ends_with "meter" path then rest else (path, report) ∷ rest

  -- one round of the loop of `_absorb`
  unfoldable pub note_report : Bool → Watch F → OscPath × Report F → Watch F
  unfolding contains insert
  note_report owned w (path, report) = record w {
    known =
        if contains (keys w.known) path || ltb (length w.known) known_limit
        then insert path report w.known
        else w.known;
    pending = if owned then w.pending else insert path report w.pending;
  }

  unfoldable pub note_reports : Bool → Watch F → List (OscPath × Report F) → Watch F
  unfolding note_report
  note_reports owned w [] = w
  note_reports owned w (report ∷ reports) = note_reports owned (note_report owned w report) reports

  unfoldable pub clear_owned : Bool → Watch F → Watch F
  clear_owned owned w = if owned then record w { pending = []; first = none } else w

  -- the times of an absorbed delivery
  unfoldable pub stamp : Bool → List (OscPath × Report F) → ℕ → Watch F → Watch F
  stamp true registers now w = w
  stamp false [] now w = w
  stamp false (_ ∷ _) now w = record w { first = some (first_or w.first now); last = now }

  -- `_absorb`
  unfoldable pub absorb_delivery : List (OscPath × Report F) → Bool → ℕ → Watch F → Watch F
  unfolding registers_of note_reports clear_owned stamp
  absorb_delivery reports owned now w =
      stamp owned (registers_of reports) now
        (note_reports owned (clear_owned owned w) (registers_of reports))

  -- `_settled`
  unfoldable pub settled : Watch F → ℕ → Bool
  settled w now = leb watch_settle (now - w.last) || leb watch_longest (now - first_or w.first now)

  abbrev pub take_pending : Watch F → Watch F
  take_pending w = record w { pending = []; first = none }

  -- `if self._forgiven.is_set(): ...`
  unfoldable pub heed_forgiven : Watch F → Watch F
  unfolding forgive
  heed_forgiven w =
      if w.forgiven then record w { forgiven = false; repeats = forgive w.repeats } else w

module _ {F : Type 0} ⦃fl : Floats F⦄ where
  -- `_judge`: the state, whether watching goes on, and the paths of the request
  unfoldable pub judge_pending :
      (Config F → Config F → Bool)
      → Option (Config F)
      → Option (Device F)
      → ℕ
      → Watch F
      → Watch F × Bool × List OscPath
  unfolding heed_forgiven admit drift
  judge_pending same none device now w = (take_pending w, true, [])
  judge_pending same (some desk) device now w =
      let heard = heed_forgiven (take_pending w) in
      let admitted = admit same desk (drift desk device w.pending w.known) now heard.repeats in
      if desk.enforce_watch
      then (record heard { repeats = admitted.0 }, true, admitted.1)
      else (take_pending w, false, [])

-- One round of `_serve`: what the stop check, the connection, the clock and the desk's files answer.
pub record Tick (F : Type 0) : Type 0 where
  pub stop : Bool
  pub reports : List (OscPath × Report F)
  pub owned : Bool
  pub absorbed_at : ℕ
  pub settled_at : ℕ
  pub judged_at : ℕ
  pub desk : Option (Config F)
  pub device : Option (Device F)

abbrev pub some_pending : {F : Type 0} → Reports F → Bool
some_pending [] = false
some_pending (_ ∷ _) = true

module _ {F : Type 0} ⦃fl : Floats F⦄ where
  -- the state behind a round, whether watching goes on, and what it asks to reconcile
  unfoldable pub tick :
      (Config F → Config F → Bool) → Watch F → Tick F → Watch F × Bool × List OscPath
  unfolding absorb_delivery settled judge_pending
  tick same w t =
      let heard = absorb_delivery t.reports t.owned t.absorbed_at w in
      if some_pending heard.pending && settled heard t.settled_at
      then judge_pending same t.desk t.device t.judged_at heard
      else (heard, true, [])

  -- `_serve`, with the requests that it makes
  unfoldable pub serve :
      (Config F → Config F → Bool) → Watch F → List (Tick F) → Watch F × List (List OscPath)
  unfolding tick
  serve same w [] = (w, [])
  serve same w (t ∷ ticks) =
      let step = tick same w t in
      let rest = serve same step.0 ticks in
      if t.stop then (w, []) else if step.1 then (rest.0, step.2 ∷ rest.1) else (step.0, [])

-- What ends the serving of a connection, or the wait for one.
pub data Attempt : Type 0 where
  -- a stop is asked before the connection is opened
  stop_asked : Attempt
  -- `connect` raises
  unreachable : Attempt
  -- `_serve` returns
  served : Attempt
  -- it raises while a stop is asked, or after it served for some time
  lost_at_stop : Attempt
  lost : ℕ → Attempt

pub data Ended : Type 0 where
  stopped finished gave_up : Ended
  still_watching : ℕ → Ended

-- the failures in a row behind an attempt, or the end of the watching
unfoldable pub count_attempt : ℕ → Attempt → Result Ended ℕ
count_attempt failures stop_asked = err stopped
count_attempt failures unreachable = ok (suc failures)
count_attempt failures served = err finished
count_attempt failures lost_at_stop = err stopped
count_attempt failures (lost lasted) = ok (if leb watch_longest lasted then 1 else suc failures)

-- `run`, with the failures in a row so far; it goes on watching when no more attempts have come
unfoldable pub run : ℕ → List Attempt → Ended
unfolding count_attempt
run failures [] = if ltb failures watch_connections then still_watching failures else gave_up
run failures (attempt ∷ attempts) =
    if ltb failures watch_connections
    then elim (count_attempt failures attempt) [
      | err ended ↦ ended
      | ok counted ↦ run counted attempts
    ]
    else gave_up
