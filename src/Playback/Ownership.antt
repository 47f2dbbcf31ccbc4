-- ===== src/Playback/Ownership.antt =====
-- src/oscmix_desk/playback.py: what an accepted desk owns where it declares a playback mute.
use oscmix_desk.Common.{
  ℕ, ◌+◌, ◌≡◌, refl, ap, sym, ◌∙◌, Bool, true, false, none, some, List, [], ◌∷◌, not, ◌||◌, ok, err,
  bind_ok, In, inl, inr, ℕ_eq, pair_eq, require, require_ok, String_eq,
}
use mathlib.Core.Path.{subst}
use mathlib.Core.Option.{some-injective}
use oscmix_desk.Common.Int.{ℤ, pos, int_eq}
use oscmix_desk.Common.Sets.{is_subset, is_subset-In, List_eq}
use oscmix_desk.Common.Dict.{Dict, lookup}
use oscmix_desk.Floats.{Floats}
use oscmix_desk.Numeric.{integer}
use oscmix_desk.Registers.{Device, channels_for}
use oscmix_desk.Model.{Route, playback, Kind_eq, is_empty, mute_partner, mute_incomplete}
use oscmix_desk.Model.Config.{ChannelSetting, Config}
use oscmix_desk.Playback.{
  pair_left, validated_mutes, check_partners, mute_pairs, required_cells, route_cells,
  require_complete_unmute, validate_route_links, validate_playback_mute,
}
use oscmix_desk.Playback.Mutes.{
  DeclaresMute, Scanned, validated_mutes-Scanned, mute_pairs-In, found_mute, check_partners-each,
  pair_flag, required_cells-In,
}

lookup_not_empty :
    (c : ℕ) (n : ℤ) (mutes : Dict ℕ ℤ) → lookup c mutes ≡ some n → is_empty mutes ≡ false
unfolding lookup
lookup_not_empty c n [] h = cc
lookup_not_empty c n (m ∷ ms) h = refl

module _ {F : Type 0} ⦃fl : Floats F⦄ where
  require_complete_unmute-each :
      (routes : List (Route F)) (device : Device F) (mutes : Dict ℕ ℤ) (pairs : List ℕ) (left : ℕ)
      → require_complete_unmute routes device mutes pairs ≡ ok tt
      → In left pairs
      → lookup left mutes ≡ some (pos 0)
      → is_subset (required_cells (channels_for device "output") left) (route_cells routes left)
        ≡ true
  unfolding require_complete_unmute
  require_complete_unmute-each routes device mutes [] left h m e = absurd m
  require_complete_unmute-each routes device mutes (x ∷ xs) left h m e =
      let (flag, f, h1) =
        bind_ok (elim (lookup x mutes) [ none ↦ err mute_partner | some n ↦ ok n ]) _ h in
      let complete : Bool =
        is_subset (required_cells (channels_for device "output") x) (route_cells routes x) in
      let (u, passed, h2) =
        bind_ok (require (not (int_eq flag (pos 0)) || complete) mute_incomplete)
          (λ _. require_complete_unmute routes device mutes xs) h1 in
      elim m [
        | inr later ↦ require_complete_unmute-each routes device mutes xs left h2 later e
        | inl same ↦
            let zero_flag : flag ≡ pos 0 =
              some-injective flag (pos 0)
                (sym (found_mute (lookup x mutes) flag f) ∙ (ap (λ k. lookup k mutes) same ∙ e)) in
            let guard : not (int_eq flag (pos 0)) || complete ≡ true =
              require_ok (not (int_eq flag (pos 0)) || complete) mute_incomplete passed in
            subst
              (λ l.
                is_subset (required_cells (channels_for device "output") l) (route_cells routes l)
                ≡ true)
              same (rw zero_flag at guard)
      ]

  -- What an accepted desk with a mute has found.
  record Accepted (config : Config F) (device : Device F) (channel : ℕ) (n : ℤ) : Type 0 where
    mutes : Dict ℕ ℤ
    scanned : Scanned config.channels [] mutes
    own : lookup channel mutes ≡ some n
    odd : lookup (pair_left channel) mutes ≡ some n
    even : lookup (pair_left channel + 1) mutes ≡ some n
    complete : require_complete_unmute config.routes device mutes (mute_pairs mutes) ≡ ok tt

  validate-Accepted :
      (config : Config F) (device : Device F) (s : ChannelSetting F) (n : ℤ)
      → validate_playback_mute config (some device) ≡ ok tt
      → In s config.channels
      → s.family ≡ playback
      → integer s.value ≡ ok n
      → Accepted config device s.channel n
  unfolding validate_playback_mute
  validate-Accepted config device s n h m own read =
      let (mutes, valid, h1) =
        bind_ok (validated_mutes config (some device) config.channels []) _ h in
      let sc : Scanned config.channels [] mutes =
        validated_mutes-Scanned config (some device) config.channels [] mutes valid in
      let at : lookup s.channel mutes ≡ some n = sc.each s n m own read in
      let (u, partners, h2) =
        bind_ok (check_partners mutes (mute_pairs mutes)) _
          (rw (lookup_not_empty s.channel n mutes at) at h1) in
      let (v, linked, h3) = bind_ok (validate_route_links config.routes device []) _ h2 in
      let (k, odd, even) =
        check_partners-each mutes (mute_pairs mutes) (pair_left s.channel) partners
          (mute_pairs-In s.channel n mutes at) in
      let same : k ≡ n = pair_flag s.channel n k mutes at odd even in
      record {
        mutes = mutes;
        scanned = sc;
        own = at;
        odd = odd ∙ ap some same;
        even = even ∙ ap some same;
        complete = h3;
      }

  declared_in :
      (settings : List (ChannelSetting F)) (mutes : Dict ℕ ℤ) (c : ℕ) (n : ℤ)
      → Scanned settings [] mutes
      → lookup c mutes ≡ some n
      → DeclaresMute settings c n
  unfolding lookup
  declared_in settings mutes c n sc e = elim (sc.only c n e) [
    | inl before ↦ cc before
    | inr found ↦ found
  ]

  -- In an accepted desk, a playback setting with a value comes with mute settings of this value for
  -- both channels of its pair.
  pub validate_playback_mute-partners :
      (config : Config F) (device : Device F) (s : ChannelSetting F) (n : ℤ)
      → validate_playback_mute config (some device) ≡ ok tt
      → In s config.channels
      → s.family ≡ playback
      → integer s.value ≡ ok n
      → DeclaresMute config.channels (pair_left s.channel) n
        × DeclaresMute config.channels (pair_left s.channel + 1) n
  validate_playback_mute-partners config device s n h m own read =
      let a : Accepted config device s.channel n =
        validate-Accepted config device s n h m own read in
      (
        declared_in config.channels a.mutes (pair_left s.channel) n a.scanned a.odd,
        declared_in config.channels a.mutes (pair_left s.channel + 1) n a.scanned a.even,
      )

  -- In an accepted desk, where a playback setting releases a mute, the desk's own routes write the
  -- cells of both channels of its pair at every output of the device.
  pub validate_playback_mute_complete :
      (config : Config F) (device : Device F) (s : ChannelSetting F) (out : ℕ)
      → validate_playback_mute config (some device) ≡ ok tt
      → In s config.channels
      → s.family ≡ playback
      → integer s.value ≡ ok (pos 0)
      → In out (channels_for device "output")
      → In (out, pair_left s.channel) (route_cells config.routes (pair_left s.channel))
        × In (out, pair_left s.channel + 1) (route_cells config.routes (pair_left s.channel))
  validate_playback_mute_complete config device s out h m own read o =
      let a : Accepted config device s.channel (pos 0) =
        validate-Accepted config device s (pos 0) h m own read in
      let left : ℕ = pair_left s.channel in
      let whole : is_subset (required_cells (channels_for device "output") left)
            (route_cells config.routes left)
          ≡ true =
        require_complete_unmute-each config.routes device a.mutes (mute_pairs a.mutes) left
          a.complete (mute_pairs-In s.channel (pos 0) a.mutes a.own) a.odd in
      let (first, second) = required_cells-In (channels_for device "output") out left o in
      (
        is_subset-In _ (route_cells config.routes left) (out, left) whole first,
        is_subset-In _ (route_cells config.routes left) (out, left + 1) whole second,
      )
