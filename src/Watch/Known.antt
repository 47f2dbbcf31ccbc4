-- ===== src/Watch/Known.antt =====
-- src/oscmix_desk/watch.py: how much the watcher remembers.
use oscmix_desk.Common.{
  ℕ, ◌≡◌, refl, inl, inr, Bool, true, false, ◌&&◌, Option, none, some, List, [], ◌∷◌, ◌≤◌, arith,
  length, Bool-cases,
}
use oscmix_desk.Common.Sets.{List_eq}
use oscmix_desk.Common.Dict.{length-insert}
use oscmix_desk.Floats.{Floats}
use oscmix_desk.Paths.{OscPath, Segment_eq}
use oscmix_desk.Registers.{Device}
use oscmix_desk.Autogain.{Report}
use oscmix_desk.Model.Config.{Config}
use oscmix_desk.Watch.{
  Watch, known_limit, note_report, note_reports, clear_owned, stamp, registers_of, absorb_delivery,
  take_pending, judge_pending, heed_forgiven, Tick, tick, serve, some_pending, settled,
}

module _ {F : Type 0} where
  note_report-known :
      (owned : Bool) (w : Watch F) (report : OscPath × Report F)
      → length w.known ≤ known_limit
      → length (note_report owned w report).known ≤ known_limit
  unfolding note_report
  note_report-known owned w (path, report) h = ground (arith, length-insert path report w.known)

  note_reports-known :
      (owned : Bool) (w : Watch F) (reports : List (OscPath × Report F))
      → length w.known ≤ known_limit
      → length (note_reports owned w reports).known ≤ known_limit
  unfolding note_reports
  note_reports-known owned w [] h = h
  note_reports-known owned w (report ∷ reports) h =
      note_reports-known owned (note_report owned w report) reports
        (note_report-known owned w report h)

  stamp_known :
      (owned : Bool) (registers : List (OscPath × Report F)) (now : ℕ) (w : Watch F)
      → (stamp owned registers now w).known ≡ w.known
  unfolding stamp
  stamp_known true registers now w = refl
  stamp_known false [] now w = refl
  stamp_known false (_ ∷ _) now w = refl

  absorb_delivery-known :
      (reports : List (OscPath × Report F)) (owned : Bool) (now : ℕ) (w : Watch F)
      → length w.known ≤ known_limit
      → length (absorb_delivery reports owned now w).known ≤ known_limit
  unfolding absorb_delivery clear_owned
  absorb_delivery-known reports true now w h =
      rw
        (stamp_known true (registers_of reports) now
          (note_reports true (clear_owned true w) (registers_of reports)))
        (note_reports-known true (clear_owned true w) (registers_of reports) h)
  absorb_delivery-known reports false now w h =
      rw
        (stamp_known false (registers_of reports) now
          (note_reports false (clear_owned false w) (registers_of reports)))
        (note_reports-known false (clear_owned false w) (registers_of reports) h)

  heed_forgiven_known : (w : Watch F) → (heed_forgiven w).known ≡ w.known
  unfolding heed_forgiven
  heed_forgiven_known w = ground arith

  -- Reports that come while an operation owns the device leave nothing to judge.
  note_reports_pending :
      (w : Watch F) (reports : List (OscPath × Report F))
      → (note_reports true w reports).pending ≡ w.pending
  unfolding note_reports note_report
  note_reports_pending w [] = refl
  note_reports_pending w (report ∷ reports) =
      note_reports_pending (note_report true w report) reports

  absorb_delivery_owned :
      (reports : List (OscPath × Report F)) (now : ℕ) (w : Watch F)
      → (absorb_delivery reports true now w).pending ≡ []
  unfolding absorb_delivery clear_owned stamp
  absorb_delivery_owned reports now w =
      note_reports_pending (clear_owned true w) (registers_of reports)

module _ {F : Type 0} ⦃fl : Floats F⦄ where
  judge_pending-known :
      (same : Config F → Config F → Bool) (desk : Option (Config F)) (device : Option (Device F))
      (now : ℕ) (w : Watch F)
      → (judge_pending same desk device now w).0.known ≡ w.known
  unfolding judge_pending
  judge_pending-known same none device now w = refl
  judge_pending-known same (some desk) device now w = elim (Bool-cases desk.enforce_watch) [
    | inl watching ↦ rw watching (heed_forgiven_known (take_pending w))
    | inr unwatched ↦ rw unwatched
  ]

  tick-known :
      (same : Config F → Config F → Bool) (w : Watch F) (t : Tick F)
      → length w.known ≤ known_limit
      → length (tick same w t).0.known ≤ known_limit
  unfolding tick
  tick-known same w t h =
      elim (Bool-cases (
        some_pending (absorb_delivery t.reports t.owned t.absorbed_at w).pending
        && settled (absorb_delivery t.reports t.owned t.absorbed_at w) t.settled_at)) [
          | inl judged ↦ rw judged (
              rw
                (judge_pending-known same t.desk t.device t.judged_at
                  (absorb_delivery t.reports t.owned t.absorbed_at w))
                (absorb_delivery-known t.reports t.owned t.absorbed_at w h))
          | inr waiting ↦ rw waiting (absorb_delivery-known t.reports t.owned t.absorbed_at w h)
        ]

  -- A watcher that remembers no more than `KNOWN_LIMIT` paths remembers no more of them whatever
  -- the connection delivers.
  pub serve-known :
      (same : Config F → Config F → Bool) (w : Watch F) (ticks : List (Tick F))
      → length w.known ≤ known_limit
      → length (serve same w ticks).0.known ≤ known_limit
  unfolding serve
  serve-known same w [] h = h
  serve-known same w (t ∷ ticks) h =
      let later = serve-known same (tick same w t).0 ticks (tick-known same w t h) in
      elim (Bool-cases t.stop) [
        | inl stopping ↦ rw stopping h
        | inr going ↦ elim (Bool-cases (tick same w t).1) [
          | inl on ↦ rw (going, on) later
          | inr off ↦ rw (going, off) (tick-known same w t h)
        ]
      ]

  -- A delivery that arrives while an operation holds the backend asks for no reconcile, leaves
  -- nothing to judge and does not end the watching.
  pub tick_owned :
      (same : Config F → Config F → Bool) (w : Watch F) (t : Tick F)
      → t.owned ≡ true
      → ((tick same w t).1 ≡ true) × ((tick same w t).2 ≡ []) × ((tick same w t).0.pending ≡ [])
  unfolding tick
  tick_owned same w t owned =
      let clear : (absorb_delivery t.reports t.owned t.absorbed_at w).pending ≡ [] =
        rw owned (absorb_delivery_owned t.reports t.absorbed_at w) in
      (rw clear, rw clear, rw clear clear)
