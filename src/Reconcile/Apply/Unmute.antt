-- ===== src/Reconcile/Apply/Unmute.antt =====
-- src/oscmix_desk/reconcile.py: what comes with the release of a playback mute.
use oscmix_desk.Common.{
  ℕ, Bool, not, ◌≡◌, ◌≢◌, ◌∙◌, refl, sym, ap, true, Option, List, [], ◌∷◌, ◌++◌, ok, bind_ok,
  ok-injective, In, In-append, In-append_left, In-append_right, inl, inr, Bool-cases,
}
use mathlib.Core.Path.{subst}
use oscmix_desk.Common.Int.{ℤ}
use oscmix_desk.Common.Dict.{Dict}
use oscmix_desk.Common.Sort.{In-sort_by}
use oscmix_desk.Floats.{Floats}
use oscmix_desk.Paths.{OscPath}
use oscmix_desk.Registers.{Device}
use oscmix_desk.Model.{is_empty}
use oscmix_desk.Model.Config.{Config}
use oscmix_desk.Autogain.{Reports}
use oscmix_desk.Reconcile.Entries.{Phase, playback_mute_on, playback_mute_off}
use oscmix_desk.Reconcile.Compare.{Write, Plan, write_le}
use oscmix_desk.Reconcile.Apply.{
  matrix_repair_plan, repairs, is_mute_phase, repair, ApplyIntent, without, in_phases, is_release,
  write_paths, mute_before, release, releases, application_plan,
}
use oscmix_desk.Reconcile.Apply.Inversion.{
  in_phases-In, Applied, application_plan-Applied, blind, releases-In, release-Granted, Granted,
}

present : {A : Type 0} (a : A) (xs : List A) → In a xs → not (is_empty xs) ≡ true
present a [] m = absurd m
present a (x ∷ xs) m = refl

on_is_not_off : playback_mute_on ≢ playback_mute_off
on_is_not_off h = cc

module _ {F : Type 0} where
  in_phases_member :
      (accepts : Phase → Bool) (ws : List (Write F)) (w : Write F)
      → In w ws
      → accepts w.phase ≡ true
      → In w (in_phases accepts ws)
  unfolding in_phases
  in_phases_member accepts [] w m taken = absurd m
  in_phases_member accepts (x ∷ xs) w (inl same) taken = rw (rw (← same) at taken) (inl same)
  in_phases_member accepts (x ∷ xs) w (inr m) taken = elim (Bool-cases (accepts x.phase)) [
    | inl accepted ↦ rw accepted (inr (in_phases_member accepts xs w m taken))
    | inr refused ↦ rw refused (in_phases_member accepts xs w m taken)
  ]

  write_paths-In : (ws : List (Write F)) (w : Write F) → In w ws → In w.path (write_paths ws)
  unfolding write_paths
  write_paths-In [] w m = absurd m
  write_paths-In (x ∷ xs) w (inl same) = inl (ap (λ (k : Write F). k.path) same)
  write_paths-In (x ∷ xs) w (inr m) = inr (write_paths-In xs w m)

  -- More writes have more paths.
  write_paths_monotone :
      (ws vs : List (Write F)) (path : OscPath)
      → ((w : Write F) → In w ws → In w vs)
      → In path (write_paths ws)
      → In path (write_paths vs)
  unfolding write_paths
  write_paths_monotone [] vs path f m = absurd m
  write_paths_monotone (x ∷ xs) vs path f (inl same) =
      rw (← same) (write_paths-In vs x (f x (inl refl)))
  write_paths_monotone (x ∷ xs) vs path f (inr m) =
      write_paths_monotone xs vs path (λ w i. f w (inr i)) m

  mute_before-phase : (w : Write F) → (mute_before w).phase ≡ playback_mute_on
  unfolding mute_before
  mute_before-phase w = refl

module _ {F : Type 0} ⦃fl : Floats F⦄ where
  releases-each :
      (config : Config F) (mutes : Dict ℕ ℤ) (paths confirmed : List OscPath)
      (ws bs : List (Write F)) (w : Write F)
      → releases config mutes paths confirmed ws ≡ ok bs
      → In w ws
      → (b : Write F) × In b bs × (release config mutes paths confirmed w ≡ ok b)
  unfolding releases
  releases-each config mutes paths confirmed [] bs w h m = absurd m
  releases-each config mutes paths confirmed (x ∷ xs) bs w h m =
      let (first, released, h1) = bind_ok (release config mutes paths confirmed x) _ h in
      let (rest, more, h2) = bind_ok (releases config mutes paths confirmed xs) _ h1 in
      elim m [
        | inl same ↦
            (first, subst (λ c. In first c) (ok-injective h2) (inl refl), rw (← same) released)
        | inr later ↦
            let (b, i, r) = releases-each config mutes paths confirmed xs rest w more later in
            (b, subst (λ c. In b c) (ok-injective h2) (inr i), r)
      ]

  Granted-monotone :
      (config : Config F) (ps qs confirmed : List OscPath) (w : Write F)
      → ((path : OscPath) → In path ps → In path qs)
      → Granted config ps confirmed w
      → Granted config qs confirmed w
  Granted-monotone config ps qs confirmed w f (channel, required, links, c, r, whole, connected) = (
    channel,
    required,
    links,
    c,
    r,
    λ path m. f path (whole path m),
    λ path m. elim (In-append ps confirmed path (connected path m)) [
      | inl written ↦ In-append_left path qs confirmed (f path written)
      | inr known ↦ In-append_right path qs confirmed known
    ],
  )

  -- Where an operation releases a playback mute, its plan has a visible ON at the same path and is
  -- complete: it writes both flags of the pair and every matrix cell of the routes from the pair,
  -- and it writes every link of these routes that is not confirmed.
  pub application_plan-unmutes :
      (config : Config F) (device : Option (Device F)) (intent : ApplyIntent)
      (leave_alone confirmed : List OscPath) (observed : Reports F) (p : Plan F) (w : Write F)
      → application_plan config device intent leave_alone confirmed observed ≡ ok p
      → In w p.writes
      → w.phase ≡ playback_mute_off
      → In (mute_before w) p.writes × Granted config (write_paths p.writes) confirmed w
  application_plan-unmutes config device intent leave_alone confirmed observed p w h m off =
      let a : Applied config device intent leave_alone confirmed observed p =
        application_plan-Applied config device intent leave_alone confirmed observed p h in
      let selected : List (Write F) = blind (without (a.skip ++ a.protected) a.entries) in
      let paths : List OscPath = write_paths selected in
      let all : (v : Write F) → In v (a.before ++ selected) → In v p.writes =
        λ v i. rw a.written ((In-sort_by write_le v _).1 i) in
      elim (In-append a.before selected w ((In-sort_by write_le w _).0 (rw a.written at m))) [
        | inl early ↦
            let (x, i, r) =
              releases-In config a.mutes paths confirmed (in_phases is_release selected) a.before w
                a.released early in
            let (same, g) = release-Granted config a.mutes paths confirmed x w r in
            absurd (
              on_is_not_off
                (sym (mute_before-phase x) ∙ (ap (λ (k : Write F). k.phase) (sym same) ∙ off)))
        | inr direct ↦
            let (b, i, r) =
              releases-each config a.mutes paths confirmed (in_phases is_release selected) a.before
                w a.released (in_phases_member is_release selected w direct (rw off)) in
            let (same, g) = release-Granted config a.mutes paths confirmed w b r in
            (
              rw same at (all b (In-append_left b a.before selected i)),
              Granted-monotone config paths (write_paths p.writes) confirmed w
                  (λ path.
                    write_paths_monotone selected p.writes path
                      λ v j. all v (In-append_right v a.before selected j))
                  g,
            )
      ]

  -- Where a matrix repair releases a playback mute, its plan has a visible ON at the same path.
  pub matrix_repair_plan-unmutes :
      (config : Config F) (device : Option (Device F)) (confirmed : List OscPath)
      (observed : Reports F) (p : Plan F) (w : Write F)
      → matrix_repair_plan config device confirmed observed ≡ ok p
      → In w p.writes
      → w.phase ≡ playback_mute_off
      → In (mute_before w) p.writes
  unfolding matrix_repair_plan
  matrix_repair_plan-unmutes config device confirmed observed p w h m off =
      let (wanted, applied, h1) =
        bind_ok (application_plan config device repair [] confirmed observed) _ h in
      let muted : List (Write F) = in_phases is_mute_phase wanted.writes in
      let owned : Bool = not (is_empty muted) in
      let written : in_phases (repairs owned) wanted.writes ≡ p.writes =
        ap (λ (q : Plan F). q.writes) (ok-injective h1) in
      let (direct, accepted) = in_phases-In (repairs owned) wanted.writes w (rw (← written) at m) in
      let (before, g) =
        application_plan-unmutes config device repair [] confirmed observed wanted w applied direct
          off in
      let owns : owned ≡ true =
        present w muted (in_phases_member is_mute_phase wanted.writes w direct (rw off)) in
      rw (← written)
        (in_phases_member (repairs owned) wanted.writes (mute_before w) before (rw owns))
