-- ===== src/Reconcile/Apply/Retention.antt =====
-- src/oscmix_desk/reconcile.py: what an operation retains is not written.
use oscmix_desk.Common.{
  ◌≡◌, ◌≢◌, sym, ◌∙◌, ap, true, false, Option, List, ◌++◌, ok, bind_ok, ok-injective, In, In-append,
  In-append_left, In-append_right, inl, inr, Bool-cases,
}
use mathlib.Core.Path.{subst}
use oscmix_desk.Common.Sets.{contains, contains_iff, List_eq}
use oscmix_desk.Common.Sort.{In-sort_by, IsSorted, sort_by-IsSorted}
use oscmix_desk.Floats.{Floats}
use oscmix_desk.Paths.{OscPath, Segment_eq}
use oscmix_desk.Registers.{Device}
use oscmix_desk.Model.Config.{Config}
use oscmix_desk.Autogain.{Reports}
use oscmix_desk.Reconcile.Entries.{Entry}
use oscmix_desk.Reconcile.Desired.{desired}
use oscmix_desk.Reconcile.Compare.{Write, Plan, write_le}
use oscmix_desk.Reconcile.Compare.Complete.{write_total, write_trans}
use oscmix_desk.Reconcile.Apply.{
  ApplyIntent, preserves_remember, is_remembered, linking, confirmed_links, skipped, without,
  in_phases, is_release, write_paths, remembered_paths, application_plan, mute_before,
}
use oscmix_desk.Reconcile.Apply.Inversion.{
  Applied, application_plan-Applied, blind, blind-path, without-In, releases-In, release-Granted,
  in_phases-In, In-sorted_set, sorted_set-In, remembered_entries-In,
}

module _ {F : Type 0} ⦃fl : Floats F⦄ where
  -- A selected write is at a path that is not skipped.
  selected-free :
      (skip : List OscPath) (entries : List (Entry F)) (w : Write F)
      → In w (blind (without skip entries))
      → In w.path skip
      → ⊥
  selected-free skip entries w m taken =
      let (e, i, same) = blind-path (without skip entries) w m in
      let (listed, free) = without-In skip entries e i in
      cc ((contains_iff skip w.path).1 taken, rw same at free)

  module _ (config : Config F) (device : Option (Device F)) (intent : ApplyIntent)
      (leave_alone confirmed : List OscPath) (observed : Reports F) (p : Plan F) where
    written-free :
        (a : Applied config device intent leave_alone confirmed observed p) (w : Write F)
        → In w p.writes
        → In w.path (a.skip ++ a.protected)
        → ⊥
    unfolding mute_before
    written-free a w m taken =
        let skip : List OscPath = a.skip ++ a.protected in
        let selected : List (Write F) = blind (without skip a.entries) in
        elim (In-append a.before selected w ((In-sort_by write_le w _).0 (rw a.written at m))) [
          | inr direct ↦ selected-free skip a.entries w direct taken
          | inl early ↦
              let (off, i, r) =
                releases-In config a.mutes (write_paths selected) confirmed
                  (in_phases is_release selected) a.before w a.released early in
              let (same, g) =
                release-Granted config a.mutes (write_paths selected) confirmed off w r in
              let at_off : w.path ≡ off.path = ap (λ (k : Write F). k.path) same in
              selected-free skip a.entries off (in_phases-In is_release selected off i).0
                (subst (λ path. In path skip) at_off taken)
        ]

    -- No write of an operation is at a path that its plan reports as retained.
    pub application_plan-retained :
        application_plan config device intent leave_alone confirmed observed ≡ ok p
        → (w : Write F) → In w p.writes
        → contains p.retained w.path ≡ false
    application_plan-retained h w m =
        let a : Applied config device intent leave_alone confirmed observed p =
          application_plan-Applied config device intent leave_alone confirmed observed p h in
        elim (Bool-cases (contains p.retained w.path)) [
          | inr free ↦ free
          | inl taken ↦ absurd (
              written-free a w m (
                sorted_set-In w.path _
                  (rw a.retained at ((contains_iff p.retained w.path).0 taken))))
        ]

    remembered-skipped :
        (entries : List (Entry F)) (skip : List OscPath) (e : Entry F)
        → preserves_remember intent ≡ true
        → desired config device ≡ ok entries
        → skipped config device intent leave_alone confirmed observed entries ≡ ok skip
        → In e entries
        → is_remembered device config.policies e ≡ true
        → In e.path skip
    unfolding skipped remembered_paths
    remembered-skipped entries skip e later asked chosen m r =
        let links : List OscPath =
          linking (leave_alone ++ confirmed_links confirmed entries) entries in
        let (kept, k, joined) =
          bind_ok (remembered_paths config device observed links) _ (rw later at chosen) in
        let (same, s, found) = bind_ok (desired config device) _ k in
        rw (← ok-injective joined) (
          In-append_right e.path (leave_alone ++ confirmed_links confirmed entries) kept (
            rw (← ok-injective found) (
              In-sorted_set e.path _ (
                In-append_left e.path _ _ (
                  remembered_entries-In device config.policies same e
                    (rw (ok-injective (sym asked ∙ s)) at m) r)))))

    -- A repair or a reconcile writes no register that the desk asks for and that a base declares
    -- or that is not pinned.
    pub application_plan-remembered :
        (entries : List (Entry F)) (e : Entry F)
        → preserves_remember intent ≡ true
        → application_plan config device intent leave_alone confirmed observed ≡ ok p
        → desired config device ≡ ok entries
        → In e entries
        → is_remembered device config.policies e ≡ true
        → (w : Write F) → In w p.writes
        → w.path ≢ e.path
    application_plan-remembered entries e later h asked m r w i same =
        let a : Applied config device intent leave_alone confirmed observed p =
          application_plan-Applied config device intent leave_alone confirmed observed p h in
        written-free a w i (
          In-append_left w.path a.skip a.protected (
            rw (← same) at (
              remembered-skipped a.entries a.skip e later a.asked a.chosen
                (rw (ok-injective (sym asked ∙ a.asked)) at m) r)))

    -- The writes of an operation are in the order of their phases.
    pub application_plan-IsSorted :
        application_plan config device intent leave_alone confirmed observed ≡ ok p
        → IsSorted write_le p.writes
    application_plan-IsSorted h =
        let a : Applied config device intent leave_alone confirmed observed p =
          application_plan-Applied config device intent leave_alone confirmed observed p h in
        rw a.written (
          sort_by-IsSorted write_le (λ x y e. write_total x y e)
            (λ x y z p q. write_trans x y z p q) _)
