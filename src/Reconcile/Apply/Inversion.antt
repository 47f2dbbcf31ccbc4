-- ===== src/Reconcile/Apply/Inversion.antt =====
-- src/oscmix_desk/reconcile.py: where the writes of an operation come from.
use oscmix_desk.Common.{
  ℕ_eq, ℕ, ◌≡◌, require, require_ok, ◌+◌, ◌&&◌, refl, sym, ◌∙◌, ap, Bool, true, false, Option, none,
  List, [], ◌∷◌, ◌++◌, arith, ok, bind_ok, ok-injective, In, ◌⊎◌, inl, inr, Bool-cases,
}
use oscmix_desk.Common.Int.{ℤ}
use oscmix_desk.Common.Sets.{contains, is_subset, is_subset-In, List_eq}
use oscmix_desk.Common.Sort.{sort_by, In-sort_by, In-dedup}
use oscmix_desk.Common.Dict.{Dict, lookup}
use oscmix_desk.Floats.{Floats}
use oscmix_desk.Paths.{OscPath, Segment_eq, path_le}
use oscmix_desk.Registers.{Device}
use oscmix_desk.Model.{unmute_bypass}
use oscmix_desk.Model.Config.{Config}
use oscmix_desk.Playback.{declared_mutes, pair_left, mute_path}
use oscmix_desk.Autogain.{Reports}
use oscmix_desk.Reconcile.Entries.{Entry, Phase}
use oscmix_desk.Reconcile.Desired.{desired}
use oscmix_desk.Reconcile.Compare.{
  Write, Plan, Verdict, writes, rewrites, confirms, write_of, write_le, judge, record_verdict,
  record_all, plan,
}
use oscmix_desk.Reconcile.Apply.{
  ApplyIntent, Policies, is_remembered, remembered_entries, without, in_phases, sorted_set,
  write_paths, mute_before, release, releases, is_release, playback_prerequisites, skipped,
  protected_entries, application_plan, channel_of, required_of, may_release, is_zero,
}

pub In-sorted_set :
    (path : OscPath) (paths : List OscPath) → In path paths → In path (sorted_set paths)
In-sorted_set path paths m = (In-sort_by path_le path _).1 ((In-dedup path paths).1 m)

pub sorted_set-In :
    (path : OscPath) (paths : List OscPath) → In path (sorted_set paths) → In path paths
sorted_set-In path paths m = (In-dedup path paths).0 ((In-sort_by path_le path _).0 m)

granted : (a b c d : Bool) → (a && b) && (c && d) ≡ true → (c ≡ true) × (d ≡ true)
granted a b c d h = ground (arith, Bool-cases a, Bool-cases b, Bool-cases c, Bool-cases d)

may_release-parts :
    (mutes : Dict ℕ ℤ) (paths confirmed : List OscPath) (left : ℕ) (required links : List OscPath)
    → may_release mutes paths confirmed left required links ≡ true
    → (is_subset (mute_path left ∷ mute_path (left + 1) ∷ required) paths ≡ true)
      × (is_subset links (paths ++ confirmed) ≡ true)
unfolding may_release
may_release-parts mutes paths confirmed left required links h =
    granted (is_zero (lookup left mutes)) (is_zero (lookup (left + 1) mutes))
      (is_subset (mute_path left ∷ mute_path (left + 1) ∷ required) paths)
      (is_subset links (paths ++ confirmed)) h

module _ {F : Type 0} where
  record_verdict-path :
      (v : Verdict) (e : Entry F) (p : Plan F) (w : Write F)
      → In w (record_verdict v e p).writes
      → (e.path ≡ w.path) ⊎ In w p.writes
  unfolding record_verdict write_of
  record_verdict-path (writes reason) e p w (inl same) = inl (ap (λ (k : Write F). k.path) same)
  record_verdict-path (writes reason) e p w (inr m) = inr m
  record_verdict-path rewrites e p w (inl same) = inl (ap (λ (k : Write F). k.path) same)
  record_verdict-path rewrites e p w (inr m) = inr m
  record_verdict-path confirms e p w m = inr m

  -- A write of a plan is at the path of an entry.
  record_all-path :
      (verdict : Entry F → Verdict) (entries : List (Entry F)) (w : Write F)
      → In w (record_all verdict entries).writes
      → (e : Entry F) × In e entries × (e.path ≡ w.path)
  unfolding record_all
  record_all-path verdict [] w m = absurd m
  record_all-path verdict (x ∷ xs) w m =
      elim (record_verdict-path (verdict x) x (record_all verdict xs) w m) [
        | inl here ↦ (x, inl refl, here)
        | inr later ↦ let (e, i, p) = record_all-path verdict xs w later in (e, inr i, p)
      ]

  pub without-In :
      (skip : List OscPath) (entries : List (Entry F)) (e : Entry F)
      → In e (without skip entries)
      → In e entries × (contains skip e.path ≡ false)
  unfolding without
  without-In skip [] e m = absurd m
  without-In skip (x ∷ xs) e m = elim (Bool-cases (contains skip x.path)) [
    | inl skipped ↦ let (i, free) = without-In skip xs e (rw skipped at m) in (inr i, free)
    | inr kept ↦ elim (rw kept at m) [
      | inl same ↦ (inl same, rw (← same) kept)
      | inr later ↦ let (i, free) = without-In skip xs e later in (inr i, free)
    ]
  ]

  pub remembered_entries-In :
      (device : Option (Device F)) (overrides : Policies) (entries : List (Entry F)) (e : Entry F)
      → In e entries
      → is_remembered device overrides e ≡ true
      → In e.path (remembered_entries device overrides entries)
  unfolding remembered_entries
  remembered_entries-In device overrides [] e m r = absurd m
  remembered_entries-In device overrides (x ∷ xs) e (inl same) r =
      rw (rw (← same) at r) (inl (ap (λ (k : Entry F). k.path) same))
  remembered_entries-In device overrides (x ∷ xs) e (inr m) r =
      elim (Bool-cases (is_remembered device overrides x)) [
        | inl kept ↦ rw kept (inr (remembered_entries-In device overrides xs e m r))
        | inr not_kept ↦ rw not_kept (remembered_entries-In device overrides xs e m r)
      ]

  pub in_phases-In :
      (accepts : Phase → Bool) (ws : List (Write F)) (w : Write F)
      → In w (in_phases accepts ws)
      → In w ws × (accepts w.phase ≡ true)
  unfolding in_phases
  in_phases-In accepts [] w m = absurd m
  in_phases-In accepts (x ∷ xs) w m = elim (Bool-cases (accepts x.phase)) [
    | inr out ↦ let (i, taken) = in_phases-In accepts xs w (rw out at m) in (inr i, taken)
    | inl taken ↦ elim (rw taken at m) [
      | inl same ↦ (inl same, rw (← same) taken)
      | inr later ↦ let (i, t) = in_phases-In accepts xs w later in (inr i, t)
    ]
  ]

module _ {F : Type 0} ⦃fl : Floats F⦄ where
  -- A prerequisite stands for a write that is released.
  pub releases-In :
      (config : Config F) (mutes : Dict ℕ ℤ) (paths confirmed : List OscPath)
      (ws bs : List (Write F)) (b : Write F)
      → releases config mutes paths confirmed ws ≡ ok bs
      → In b bs
      → (w : Write F) × In w ws × (release config mutes paths confirmed w ≡ ok b)
  unfolding releases
  releases-In config mutes paths confirmed [] bs b h m = absurd (rw (← ok-injective h) at m)
  releases-In config mutes paths confirmed (x ∷ xs) bs b h m =
      let (first, released, h1) = bind_ok (release config mutes paths confirmed x) _ h in
      let (rest, more, h2) = bind_ok (releases config mutes paths confirmed xs) _ h1 in
      elim (rw (← ok-injective h2) at m) [
        | inl same ↦ (x, inl refl, released ∙ ap ok same)
        | inr later ↦
            let (w, i, r) = releases-In config mutes paths confirmed xs rest b more later in
            (w, inr i, r)
      ]

  -- What a release was granted for.
  abbrev pub Granted : Config F → List OscPath → List OscPath → Write F → Type 0
  Granted config paths confirmed w =
      (channel : ℕ) × (required : List OscPath) × (links : List OscPath) × (channel_of w.path
        ≡ ok channel)
      × (required_of config.routes (pair_left channel) ≡ ok (required, links))
      × ((path : OscPath)
          → In path (mute_path (pair_left channel) ∷ mute_path (pair_left channel + 1) ∷ required)
          → In path paths)
      × ((path : OscPath) → In path links → In path (paths ++ confirmed))

  pub release-Granted :
      (config : Config F) (mutes : Dict ℕ ℤ) (paths confirmed : List OscPath) (w b : Write F)
      → release config mutes paths confirmed w ≡ ok b
      → (b ≡ mute_before w) × Granted config paths confirmed w
  unfolding release
  release-Granted config mutes paths confirmed w b h =
      let (channel, c, h1) = bind_ok (channel_of w.path) _ h in
      let ((required, links), r, h2) =
        bind_ok (required_of config.routes (pair_left channel)) _ h1 in
      let grant : Bool = may_release mutes paths confirmed (pair_left channel) required links in
      let (u, passed, h3) = bind_ok (require grant unmute_bypass) (λ _. ok (mute_before w)) h2 in
      let (whole, connected) =
        may_release-parts mutes paths confirmed (pair_left channel) required links
          (require_ok grant unmute_bypass passed) in
      (
        sym (ok-injective h3),
        (
          channel,
          required,
          links,
          c,
          r,
          λ path m. is_subset-In _ paths path whole m,
          λ path m. is_subset-In links (paths ++ confirmed) path connected m,
        ),
      )

  -- The writes of a plan that is made for nothing observed.
  abbrev pub blind : List (Entry F) → List (Write F)
  blind entries = (plan entries none none none).writes

  pub blind-path :
      (entries : List (Entry F)) (w : Write F)
      → In w (blind entries)
      → (e : Entry F) × In e entries × (e.path ≡ w.path)
  unfolding plan
  blind-path entries w m =
      record_all-path (judge none none none) entries w ((In-sort_by write_le w _).0 m)

  -- What an application plan is made of.
  pub record Applied (config : Config F) (device : Option (Device F)) (intent : ApplyIntent)
      (leave_alone confirmed : List OscPath) (observed : Reports F) (p : Plan F) : Type 0 where
    pub entries : List (Entry F)
    pub skip : List OscPath
    pub before : List (Write F)
    pub asked : desired config device ≡ ok entries
    pub chosen : skipped config device intent leave_alone confirmed observed entries ≡ ok skip
    pub protected : List OscPath
    pub retained : p.retained ≡ sorted_set (skip ++ protected)
    pub written :
        p.writes ≡ sort_by write_le (before ++ blind (without (skip ++ protected) entries))
    pub mutes : Dict ℕ ℤ
    pub released :
        releases config mutes
          (write_paths (blind (without (skip ++ protected) entries)))
          confirmed
          (in_phases is_release (blind (without (skip ++ protected) entries)))
        ≡ ok before

  pub application_plan-Applied :
      (config : Config F) (device : Option (Device F)) (intent : ApplyIntent)
      (leave_alone confirmed : List OscPath) (observed : Reports F) (p : Plan F)
      → application_plan config device intent leave_alone confirmed observed ≡ ok p
      → Applied config device intent leave_alone confirmed observed p
  unfolding application_plan playback_prerequisites
  application_plan-Applied config device intent leave_alone confirmed observed p h =
      let (entries, asked, h1) = bind_ok (desired config device) _ h in
      let (skip, chosen, h2) =
        bind_ok (skipped config device intent leave_alone confirmed observed entries) _ h1 in
      let (protected, p2, h3) = bind_ok (protected_entries config skip confirmed) _ h2 in
      let (mutes, declared, h4) = bind_ok (declared_mutes config) _ h3 in
      let (before, released, h5) =
        bind_ok
          (releases config mutes (write_paths (blind (without (skip ++ protected) entries)))
            confirmed (in_phases is_release (blind (without (skip ++ protected) entries))))
          _ h4 in
      record {
        entries = entries;
        skip = skip;
        before = before;
        asked = asked;
        chosen = chosen;
        protected = protected;
        retained = ap (λ (q : Plan F). q.retained) (sym (ok-injective h5));
        written = ap (λ (q : Plan F). q.writes) (sym (ok-injective h5));
        mutes = mutes;
        released = released;
      }
