-- ===== src/Watch/Connections.antt =====
-- src/oscmix_desk/watch.py: how long the watcher looks for a connection.
use oscmix_desk.Common.{
  ℕ, suc, ◌+◌, ◌≡◌, ◌≤◌, ◌<◌, refl, inl, inr, List, [], ◌∷◌, ◌++◌, All, arith, ltb, length, ok,
  Bool-cases,
}
use oscmix_desk.Watch.{
  watch_connections, watch_longest, Attempt, stop_asked, unreachable, served, lost_at_stop, lost,
  gave_up, count_attempt, run,
}

-- An attempt that fails before it served for some time.
abbrev pub FailsAtOnce : Attempt → Type 0
FailsAtOnce unreachable = Unit
FailsAtOnce (lost lasted) = lasted < watch_longest
FailsAtOnce stop_asked = ⊥
FailsAtOnce served = ⊥
FailsAtOnce lost_at_stop = ⊥

count_attempt-FailsAtOnce :
    (failures : ℕ) (attempt : Attempt)
    → FailsAtOnce attempt
    → count_attempt failures attempt ≡ ok (suc failures)
unfolding count_attempt
count_attempt-FailsAtOnce failures unreachable h = refl
count_attempt-FailsAtOnce failures (lost lasted) h = ground arith
count_attempt-FailsAtOnce failures stop_asked h = absurd h
count_attempt-FailsAtOnce failures served h = absurd h
count_attempt-FailsAtOnce failures lost_at_stop h = absurd h

-- Connections that keep failing end the watching: once as many attempts in a row as are left
-- have failed at once, the watcher gives up, whatever would have come behind them.
pub run_gives_up :
    (failures : ℕ) (attempts later : List Attempt)
    → All FailsAtOnce attempts
    → watch_connections ≤ failures + length attempts
    → run failures (attempts ++ later) ≡ gave_up
unfolding run
run_gives_up failures [] [] h enough = ground (arith, enough)
run_gives_up failures [] (l ∷ later) h enough = ground (arith, enough)
run_gives_up failures (attempt ∷ attempts) later h enough =
    elim (Bool-cases (ltb failures watch_connections)) [
      | inr over ↦ rw over
      | inl going ↦
          rw (going, count_attempt-FailsAtOnce failures attempt h.0)
            (run_gives_up (suc failures) attempts later h.1 (omega (arith, enough)))
    ]
