-- ===== src/Playback/Mutes.antt =====
-- src/oscmix_desk/playback.py: the mutes that a desk declares, as they are collected.
use oscmix_desk.Common.{
  ℕ, ◌+◌, ◌-◌, ◌%◌, ◌≡◌, refl, ap, sym, ◌∙◌, true, false, Option, none, some, List, [], ◌∷◌, arith,
  leb, Result, ok, err, bind_ok, ok-injective, In, ◌⊎◌, inl, inr, Bool-cases, Option-cases, ◌==◌,
  ℕ_eq, pair_eq, require, require_ok, if◌then◌else◌, String_eq, nat_eq,
}
use mathlib.Core.Path.{subst}
use mathlib.Core.Option.{some-injective}
use oscmix_desk.Common.Int.{ℤ, int_eq, int_eq_iff}
use oscmix_desk.Common.Sets.{List_eq}
use oscmix_desk.Common.Sort.{In-sort_by, In-dedup}
use oscmix_desk.Common.Dict.{
  Dict, lookup, insert, keys, lookup-insert, lookup-insert_self, lookup-insert_keep, lookup-keys,
}
use oscmix_desk.Floats.{Floats}
use oscmix_desk.Numeric.{NumberError, integer, report_value}
use oscmix_desk.Registers.{Device, option_register}
use oscmix_desk.Model.{
  DeskError, playback, Kind_eq, mute_partner, mute_option, mute_disagrees, setting_value,
  mute_device,
}
use oscmix_desk.Model.Config.{ChannelSetting, Config}
use oscmix_desk.Playback.{
  pair_left, or_desk, is_mute, claim_mute, validated_mute, validated_mutes, check_partners, lefts,
  mute_pairs, required_cells, has_model,
}

-- A claim sets its channel and keeps every other value.
claim_mute_lem :
    (channel : ℕ) (n : ℤ) (mutes after : Dict ℕ ℤ)
    → claim_mute channel n mutes ≡ ok after
    → (after ≡ insert channel n mutes)
      × ((c : ℕ) (m : ℤ) → lookup c mutes ≡ some m → lookup c after ≡ some m)
unfolding claim_mute
claim_mute_lem channel n mutes after h = elim (Option-cases (lookup channel mutes)) [
  | inl absent ↦
      let set : after ≡ insert channel n mutes =
        sym (ok-injective (rw (absent, claim_mute) at h)) in
      (set, λ c m e. rw set (lookup-insert_keep channel c n m mutes (inl absent) e))
  | inr (before, found) ↦ elim (Bool-cases (int_eq before n)) [
    | inr differ ↦ cc (rw differ at (rw (found, claim_mute) at h))
    | inl same ↦
        let set : after ≡ insert channel n mutes =
          sym (ok-injective (rw same at (rw (found, claim_mute) at h))) in
        (
          set,
          λ c m e. rw set (
              lookup-insert_keep channel c n m mutes
                (inr (found ∙ ap some ((int_eq_iff before n).0 same))) e),
        )
  ]
]

lefts-In :
    (channel : ℕ) (channels : List ℕ)
    → In channel channels
    → In (pair_left channel) (lefts channels)
unfolding lefts
lefts-In channel [] m = absurd m
lefts-In channel (c ∷ cs) (inl same) = inl (ap pair_left same)
lefts-In channel (c ∷ cs) (inr m) = inr (lefts-In channel cs m)

pub mute_pairs-In :
    (channel : ℕ) (n : ℤ) (mutes : Dict ℕ ℤ)
    → lookup channel mutes ≡ some n
    → In (pair_left channel) (mute_pairs mutes)
unfolding mute_pairs
mute_pairs-In channel n mutes h = (In-sort_by leb (pair_left channel) _).1 (
    (In-dedup (pair_left channel) _).1
      (lefts-In channel (keys mutes) (lookup-keys channel n mutes h)))

pub found_mute :
    (o : Option ℤ) (n : ℤ)
    → ◌≡◌ {A = Result DeskError ℤ} (elim o [ none ↦ err mute_partner | some m ↦ ok m ]) (ok n)
    → o ≡ some n
found_mute none n h = cc
found_mute (some m) n h = ap some (ok-injective h)

pub check_partners-each :
    (mutes : Dict ℕ ℤ) (pairs : List ℕ) (left : ℕ)
    → check_partners mutes pairs ≡ ok tt
    → In left pairs
    → (n : ℤ) × (lookup left mutes ≡ some n) × (lookup (left + 1) mutes ≡ some n)
unfolding check_partners
check_partners-each mutes [] left h m = absurd m
check_partners-each mutes (x ∷ xs) left h m =
    let (odd, o, h1) =
      bind_ok (elim (lookup x mutes) [ none ↦ err mute_partner | some n ↦ ok n ]) _ h in
    let (even, e, h2) =
      bind_ok (elim (lookup (x + 1) mutes) [ none ↦ err mute_partner | some n ↦ ok n ]) _ h1 in
    let (u, agree, h3) =
      bind_ok (require (int_eq odd even) mute_disagrees) (λ _. check_partners mutes xs) h2 in
    elim m [
      | inr later ↦ check_partners-each mutes xs left h3 later
      | inl same ↦
          subst (λ l. (n : ℤ) × (lookup l mutes ≡ some n) × (lookup (l + 1) mutes ≡ some n)) same
            (
              odd,
              found_mute (lookup x mutes) odd o,
              found_mute (lookup (x + 1) mutes) even e
                  ∙ ap some (
                      sym (
                        (int_eq_iff odd even).0
                          (require_ok (int_eq odd even) mute_disagrees agree))),
            )
    ]

-- Both channels of a pair have the flag that one of them has.
pub pair_flag :
    (channel : ℕ) (n m : ℤ) (mutes : Dict ℕ ℤ)
    → lookup channel mutes ≡ some n
    → lookup (pair_left channel) mutes ≡ some m
    → lookup (pair_left channel + 1) mutes ≡ some m
    → m ≡ n
unfolding pair_left
pair_flag channel n m mutes h odd even = elim (Bool-cases (nat_eq ((channel - 1) % 2) 0)) [
  | inl first ↦
      let same : pair_left channel ≡ channel = ground arith in
      some-injective m n (sym (rw same at odd) ∙ h)
  | inr second ↦
      let same : pair_left channel + 1 ≡ channel = ground arith in
      some-injective m n (sym (rw same at even) ∙ h)
]

pub required_cells-In :
    (outs : List ℕ) (out left : ℕ)
    → In out outs
    → In (out, left) (required_cells outs left) × In (out, left + 1) (required_cells outs left)
unfolding required_cells
required_cells-In [] out left m = absurd m
required_cells-In (o ∷ os) out left (inl same) =
    (inl (ap (λ k. (k, left)) same), inr (inl (ap (λ k. (k, left + 1)) same)))
required_cells-In (o ∷ os) out left (inr m) =
    let (a, b) = required_cells-In os out left m in (inr (inr a), inr (inr b))

or_desk_ok :
    {A : Type 0} (r : Result NumberError A) (e : DeskError) {a : A} → or_desk r e ≡ ok a → r ≡ ok a
or_desk_ok (ok a) e h = ap ok (ok-injective h)
or_desk_ok (err x) e h = cc

module _ {F : Type 0} ⦃fl : Floats F⦄ where
  -- Some setting of the list declares this flag for the channel.
  abbrev pub DeclaresMute : List (ChannelSetting F) → ℕ → ℤ → Type 0
  DeclaresMute settings channel n =
      (s : ChannelSetting F) × In s settings
      × (s.family ≡ playback)
      × (is_mute s.option ≡ true)
      × (s.channel ≡ channel)
      × (integer s.value ≡ ok n)

  validated_mute-parts :
      (config : Config F) (device : Option (Device F)) (s : ChannelSetting F)
      (mutes after : Dict ℕ ℤ)
      → validated_mute config device s mutes ≡ ok after
      → (n : ℤ) × (integer s.value ≡ ok n)
        × (is_mute s.option ≡ true)
        × (claim_mute s.channel n mutes ≡ ok after)
  unfolding validated_mute
  validated_mute-parts config device s mutes after h =
      let (u, model, h1) = bind_ok (require (has_model device config.usb_id) mute_device) _ h in
      let (row, found, h2) =
        bind_ok
          (elim (option_register device "playback" s.option s.channel) [
            | none ↦ err mute_option
            | some register ↦ ok register
          ])
          _ h1 in
      let (v, reported, h3) = bind_ok (or_desk (report_value s.value row) setting_value) _ h2 in
      let (n, read, h4) = bind_ok (or_desk (integer s.value) setting_value) _ h3 in
      let (w, mute, h5) =
        bind_ok (require (is_mute s.option) mute_option) (λ _. claim_mute s.channel n mutes) h4 in
      (
        n,
        or_desk_ok (integer s.value) setting_value read,
        require_ok (is_mute s.option) mute_option mute,
        h5,
      )

  pub record Scanned (settings : List (ChannelSetting F)) (mutes final : Dict ℕ ℤ) : Type 0 where
    pub kept : (c : ℕ) (m : ℤ) → lookup c mutes ≡ some m → lookup c final ≡ some m
    pub each :
        (s : ChannelSetting F) (n : ℤ)
        → In s settings
        → s.family ≡ playback
        → integer s.value ≡ ok n
        → lookup s.channel final ≡ some n
    pub only :
        (c : ℕ) (n : ℤ)
        → lookup c final ≡ some n
        → (lookup c mutes ≡ some n) ⊎ DeclaresMute settings c n

  declared_later :
      (x : ChannelSetting F) (xs : List (ChannelSetting F)) (c : ℕ) (n : ℤ)
      → DeclaresMute xs c n
      → DeclaresMute (x ∷ xs) c n
  declared_later x xs c n (s, i, f, o, k, v) = (s, inr i, f, o, k, v)

  scan_skip :
      (x : ChannelSetting F) (xs : List (ChannelSetting F)) (mutes final : Dict ℕ ℤ)
      → (x.family == playback) ≡ false
      → Scanned xs mutes final
      → Scanned (x ∷ xs) mutes final
  scan_skip x xs mutes final other sc = record {
    kept = sc.kept;
    each = λ s n m f v. elim m [
      | inl same ↦ cc (
        (Kind_eq.beq_iff x.family playback).1 (ap (λ (k : ChannelSetting F). k.family) same ∙ f),
        other,
      )
      | inr later ↦ sc.each s n later f v
    ];
    only = λ c n e. elim (sc.only c n e) [
      | inl before ↦ inl before
      | inr found ↦ inr (declared_later x xs c n found)
    ];
  }

  scan_set :
      (x : ChannelSetting F) (xs : List (ChannelSetting F)) (mutes after final : Dict ℕ ℤ) (n : ℤ)
      → x.family ≡ playback
      → integer x.value ≡ ok n
      → is_mute x.option ≡ true
      → claim_mute x.channel n mutes ≡ ok after
      → Scanned xs after final
      → Scanned (x ∷ xs) mutes final
  scan_set x xs mutes after final n own read mute claim sc =
      let (set, keeps) = claim_mute_lem x.channel n mutes after claim in
      let looked : (c : ℕ) → lookup c after ≡ (if x.channel == c then some n else lookup c mutes) =
        λ c. ap (λ d. lookup c d) set ∙ lookup-insert x.channel c n mutes in
      record {
        kept = λ c m e. sc.kept c m (keeps c m e);
        each = λ s m i f v. elim i [
          | inl same ↦
              let value : n ≡ m =
                ok-injective
                  (sym read ∙ (ap (λ (k : ChannelSetting F). integer k.value) same ∙ v)) in
              rw (← same)
                (sc.kept x.channel m (rw (set, value) (lookup-insert_self x.channel m mutes)))
          | inr later ↦ sc.each s m later f v
        ];
        only = λ c m e. elim (sc.only c m e) [
          | inr found ↦ inr (declared_later x xs c m found)
          | inl there ↦ elim (Bool-cases (x.channel == c)) [
            | inr other ↦ inl (rw other at (sym (looked c) ∙ there))
            | inl here ↦
                let value : n ≡ m = some-injective n m (rw here at (sym (looked c) ∙ there)) in
                inr (x, inl refl, own, mute, (ℕ_eq.beq_iff x.channel c).0 here, read ∙ ap ok value)
          ]
        ];
      }

  pub validated_mutes-Scanned :
      (config : Config F) (device : Option (Device F)) (settings : List (ChannelSetting F))
      (mutes final : Dict ℕ ℤ)
      → validated_mutes config device settings mutes ≡ ok final
      → Scanned settings mutes final
  unfolding validated_mutes
  validated_mutes-Scanned config device [] mutes final h = record {
    kept = λ c m e. subst (λ (d : Dict ℕ ℤ). lookup c d ≡ some m) (ok-injective h) e;
    each = λ s n m f v. absurd m;
    only = λ c n e. inl (subst (λ (d : Dict ℕ ℤ). lookup c d ≡ some n) (sym (ok-injective h)) e);
  }
  validated_mutes-Scanned config device (x ∷ xs) mutes final h =
      elim (Bool-cases (x.family == playback)) [
        | inr other ↦
            scan_skip x xs mutes final other
              (validated_mutes-Scanned config device xs mutes final (rw other at h))
        | inl own ↦
            let (after, valid, h1) =
              bind_ok (validated_mute config device x mutes) _ (rw own at h) in
            let (n, read, mute, claim) = validated_mute-parts config device x mutes after valid in
            scan_set x xs mutes after final n ((Kind_eq.beq_iff x.family playback).0 own) read mute
              claim (validated_mutes-Scanned config device xs after final h1)
      ]
