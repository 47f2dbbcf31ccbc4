-- ===== src/Base/Straight/Claims.antt =====
-- src/oscmix_desk/base.py: what the routes of a base claim.
use oscmix_desk.Common.{
  ℕ, ◌+◌, ◌%◌, ◌≡◌, ◌⊎◌, refl, ap, inl, inr, Bool, true, false, not, ◌&&◌, ◌||◌, Option, none, some,
  List, [], ◌∷◌, nat_eq, arith, Result, ok, ok-injective, subst, bind_ok, Bool-cases, All,
  All-append, In, pair_eq, ℕ_eq,
}
use oscmix_desk.Common.Sets.{contains, contains_iff, intersects, intersects-contains, is_subset}
use oscmix_desk.Common.Dict.{Dict, lookup}
use oscmix_desk.Floats.{Floats}
use oscmix_desk.Osc.Bytes.{Text}
use oscmix_desk.Registers.{Device, channels_for}
use oscmix_desk.Model.{
  kind_name, DeskError, playback, output, Kind_eq, Route, Link, Links, link_requirements, source,
  first_channel, odd_channel,
}
use oscmix_desk.Model.Config.{BaseName, ChannelSetting}
use oscmix_desk.Mirrors.{Mirror}
use oscmix_desk.Base.{declared_links, odd_channels, odd_of, gather}
use oscmix_desk.Base.Straight.{
  Taken, cells_of, taken_cells, base_route, single_routes, pair_route, diagonal, base_pair,
  base_pairs, base_routes, mirrored_channels, check_mirrors, alone_sources, paired_sources,
  owned_links, check_merged, mirror_owned, is_straight, pair_targets,
}

-- A requirement that the declared links do not contradict.
abbrev pub Agrees : Links → Link → Type 0
Agrees links (kind, channel, linked) =
    (lookup (kind, channel) links ≡ none) ⊎ (lookup (kind, channel) links ≡ some linked)

abbrev IsFree : Taken → ℕ × ℕ → Type 0
IsFree taken cell = contains taken cell ≡ false

All-IsFree :
    (taken cells : Taken) (some_of : Taken)
    → intersects taken cells ≡ false
    → ((cell : ℕ × ℕ) → In cell some_of → In cell cells)
    → All (IsFree taken) some_of
All-IsFree taken cells [] h sub = tt
All-IsFree taken cells (cell ∷ rest) h sub =
    let here = (contains_iff cells cell).1 (sub cell (inl refl)) in
    (
      ground (arith, intersects-contains taken cells cell h, here),
      All-IsFree taken cells rest h λ c m. sub c (inr m),
    )

even_partner : (left : ℕ) → nat_eq (left % 2) 1 ≡ true → odd_channel (left + 1) ≡ left
even_partner left odd = ground (arith, odd)

module _ (F : Type 0) ⦃fl : Floats F⦄ where
  -- A route 1:1 at 0 dB, of the base, on matrix cells that no declared route sets, whose links are
  -- those that are declared.
  pub record IsStraight (links : Links) (taken : Taken) (route : Route F) : Type 0 where
    pub diagonal_of : route.output ≡ route.playback
    pub of_base : route.base ≡ true
    pub at_zero : route.level ≡ fl.zero
    pub free : All (IsFree taken) (cells_of route.output route.playback)
    pub from : Link
    pub to : Link
    pub requires : link_requirements route ≡ ok (from, to)
    pub from_agrees : Agrees links from
    pub to_agrees : Agrees links to

  base_route-IsStraight :
      (links : Links) (taken : Taken) (name : Text) (channels : List ℕ) (stereo : Bool)
      (from to : Link)
      → All (IsFree taken) (cells_of channels channels)
      → link_requirements (base_route {F = F} name channels stereo) ≡ ok (from, to)
      → Agrees links from
      → Agrees links to
      → IsStraight links taken (base_route name channels stereo)
  unfolding base_route
  base_route-IsStraight links taken name channels stereo from to free requires plays goes = record {
    diagonal_of = refl;
    of_base = refl;
    at_zero = refl;
    free = free;
    from = from;
    to = to;
    requires = requires;
    from_agrees = plays;
    to_agrees = goes;
  }

  pair_requires :
      (name : Text) (left : ℕ) (stereo : Bool)
      → nat_eq (left % 2) 1 ≡ true
      → link_requirements (base_route {F = F} name (left ∷ (left + 1) ∷ []) stereo)
        ≡ ok ((playback, left, true), (output, left, stereo))
  unfolding base_route link_requirements source first_channel
  pair_requires name left stereo odd = rw odd refl

  single_requires :
      (name : Text) (ch left : ℕ)
      → odd_channel ch ≡ left
      → link_requirements (base_route {F = F} name (ch ∷ []) true)
        ≡ ok ((playback, left, false), (output, left, false))
  unfolding base_route link_requirements source first_channel
  single_requires name ch left odd = ap (λ n. ok ((playback, n, false), (output, n, false))) odd

  pair_route-IsStraight :
      (links : Links) (taken : Taken) (left : ℕ) (stereo : Bool)
      → nat_eq (left % 2) 1 ≡ true
      → Agrees links (playback, left, true)
      → Agrees links (output, left, stereo)
      → All (IsStraight links taken) (pair_route left stereo taken)
  unfolding pair_route
  pair_route-IsStraight links taken left stereo odd plays goes =
      let cells = cells_of (left ∷ (left + 1) ∷ []) (left ∷ (left + 1) ∷ []) in
      elim (Bool-cases (intersects taken cells)) [
        | inl occupied ↦ rw occupied tt
        | inr vacant ↦ rw vacant (
          base_route-IsStraight links taken _ (left ∷ (left + 1) ∷ []) stereo (playback, left, true)
              (output, left, stereo) (All-IsFree taken cells cells vacant (λ c m. m))
              (pair_requires _ left stereo odd) plays goes,
          tt,
        )
      ]

  single_routes-IsStraight :
      (links : Links) (taken : Taken) (left : ℕ) (channels : List ℕ)
      → Agrees links (playback, left, false)
      → Agrees links (output, left, false)
      → All (λ ch. odd_channel ch ≡ left) channels
      → All (IsStraight links taken) (single_routes channels taken)
  unfolding single_routes cells_of gather
  single_routes-IsStraight links taken left [] plays goes odd = tt
  single_routes-IsStraight links taken left (ch ∷ channels) plays goes odd =
      let later = single_routes-IsStraight links taken left channels plays goes odd.1 in
      elim (Bool-cases (contains taken (ch, ch))) [
        | inl occupied ↦ rw occupied later
        | inr vacant ↦ rw vacant (
          base_route-IsStraight links taken _ (ch ∷ []) true (playback, left, false)
              (output, left, false) (vacant, tt) (single_requires _ ch left odd.0) plays goes,
          later,
        )
      ]

  module _ (links : Links) (taken : Taken) (left : ℕ) (added : List (Route F)) where
    pair_added :
        (stereo : Bool)
        → nat_eq (left % 2) 1 ≡ true
        → Agrees links (playback, left, true)
        → Agrees links (output, left, stereo)
        → ◌≡◌ {A = Result DeskError (List (Route F))} (ok (pair_route left stereo taken)) (ok added)
        → All (IsStraight links taken) added
    pair_added stereo odd plays goes h =
        subst (All (IsStraight links taken)) (ok-injective h)
          (pair_route-IsStraight links taken left stereo odd plays goes)

    singles_added :
        nat_eq (left % 2) 1 ≡ true
        → Agrees links (playback, left, false)
        → Agrees links (output, left, false)
        → ◌≡◌ {A = Result DeskError (List (Route F))}
            (ok (single_routes (left ∷ (left + 1) ∷ []) taken))
            (ok added)
        → All (IsStraight links taken) added
    singles_added odd plays goes h = subst (All (IsStraight links taken)) (ok-injective h) (
        single_routes-IsStraight links taken left (left ∷ (left + 1) ∷ []) plays goes
          (ground (arith, odd), (even_partner left odd, tt)))

    diagonal-IsStraight :
        (playing out : Option Bool)
        → nat_eq (left % 2) 1 ≡ true
        → lookup (playback, left) links ≡ playing
        → lookup (output, left) links ≡ out
        → diagonal left playing out taken ≡ ok added
        → All (IsStraight links taken) added
    unfolding diagonal
    diagonal-IsStraight (some false) (some true) odd plays goes h = cc
    diagonal-IsStraight (some false) (some false) odd plays goes h =
        singles_added odd (inr plays) (inr goes) h
    diagonal-IsStraight (some false) none odd plays goes h =
        singles_added odd (inr plays) (inl goes) h
    diagonal-IsStraight none (some false) odd plays goes h =
        pair_added false odd (inl plays) (inr goes) h
    diagonal-IsStraight none (some true) odd plays goes h =
        pair_added true odd (inl plays) (inr goes) h
    diagonal-IsStraight none none odd plays goes h = pair_added true odd (inl plays) (inl goes) h
    diagonal-IsStraight (some true) (some false) odd plays goes h =
        pair_added false odd (inr plays) (inr goes) h
    diagonal-IsStraight (some true) (some true) odd plays goes h =
        pair_added true odd (inr plays) (inr goes) h
    diagonal-IsStraight (some true) none odd plays goes h =
        pair_added true odd (inr plays) (inl goes) h

  base_pair-IsStraight :
      (links : Links) (settings : List (ChannelSetting F)) (mirrors : List Mirror)
      (targets : Dict ℕ ℕ) (taken : Taken) (left : ℕ) (added : List (Route F))
      → nat_eq (left % 2) 1 ≡ true
      → base_pair links settings mirrors targets taken left ≡ ok added
      → All (IsStraight links taken) added
  unfolding base_pair
  base_pair-IsStraight links settings mirrors targets taken left added odd h =
      let (routes, drawn, h1) =
        bind_ok (diagonal left (lookup (playback, left) links) (lookup (output, left) links) taken)
          _ h in
      let (_, _, h2) =
        bind_ok
          (check_mirrors left routes (mirrored_channels mirrors) (alone_sources mirrors)
            (paired_sources mirrors))
          _ h1 in
      let (owned, _, h3) = bind_ok (owned_links links routes) _ h2 in
      let (_, _, h4) = bind_ok (check_merged settings (mirror_owned left targets owned)) _ h3 in
      subst (All (IsStraight links taken)) (ok-injective h4) (
        diagonal-IsStraight links taken left routes (lookup (playback, left) links)
          (lookup (output, left) links) odd refl refl drawn)

  base_pairs-IsStraight :
      (links : Links) (settings : List (ChannelSetting F)) (mirrors : List Mirror)
      (targets : Dict ℕ ℕ) (taken : Taken) (playing lefts : List ℕ) (added : List (Route F))
      → All (λ left. nat_eq (left % 2) 1 ≡ true) lefts
      → base_pairs links settings mirrors targets taken playing lefts ≡ ok added
      → All (IsStraight links taken) added
  unfolding base_pairs
  base_pairs-IsStraight links settings mirrors targets taken playing [] added odd h =
      subst (All (IsStraight links taken)) (ok-injective h) tt
  base_pairs-IsStraight links settings mirrors targets taken playing (left ∷ lefts) added odd h =
      elim (Bool-cases (
        not (contains playing left)
        || is_subset (left ∷ (left + 1) ∷ []) (mirrored_channels mirrors))) [
          | inl skipped ↦
              base_pairs-IsStraight links settings mirrors targets taken playing lefts added odd.1
                (rw (skipped, base_pairs) at h)
          | inr played ↦
              let (here, paired, h1) =
                bind_ok (base_pair links settings mirrors targets taken left) _
                  (rw (played, base_pairs) at h) in
              let (rest, others, h2) =
                bind_ok (base_pairs links settings mirrors targets taken playing lefts) _ h1 in
              subst (All (IsStraight links taken)) (ok-injective h2) (
                All-append (IsStraight links taken) here rest
                  (base_pair-IsStraight links settings mirrors targets taken left here odd.0 paired)
                  (base_pairs-IsStraight links settings mirrors targets taken playing lefts rest
                    odd.1 others))
        ]

  odd_of_lem :
      (all channels : List ℕ) → All (λ left. nat_eq (left % 2) 1 ≡ true) (odd_of all channels)
  unfolding odd_of
  odd_of_lem all [] = tt
  odd_of_lem all (ch ∷ channels) = elim (Bool-cases (nat_eq (ch % 2) 1 && contains all (ch + 1))) [
    | inr other ↦ rw other (odd_of_lem all channels)
    | inl odd ↦ rw odd (ground (arith, odd), odd_of_lem all channels)
  ]

  -- When a base's routes are accepted for a desk of these declared links, every one of them plays
  -- its playback channels 1:1 on its outputs at 0 dB, sets no matrix cell that a declared route
  -- sets, and requires no link that contradicts a declared one.
  pub base_routes-IsStraight :
      (base : BaseName) (routes : List (Route F)) (settings : List (ChannelSetting F))
      (mirrors : List Mirror) (device : Device F) (links : Links) (added : List (Route F))
      → declared_links routes [] ≡ ok links
      → base_routes base routes settings mirrors device ≡ ok added
      → All (IsStraight links (taken_cells routes)) added
  unfolding base_routes odd_channels
  base_routes-IsStraight base routes settings mirrors device links added declared h =
      elim (Bool-cases (is_straight base)) [
        | inr plain ↦
            subst (All (IsStraight links (taken_cells routes)))
              (ok-injective (rw (plain, base_routes) at h)) tt
        | inl straight ↦
            let (targets, _, h1) =
              bind_ok (pair_targets mirrors []) _ (rw (straight, declared, base_routes) at h) in
            base_pairs-IsStraight links settings mirrors targets (taken_cells routes)
              (odd_channels device playback) (odd_channels device output) added
              (odd_of_lem (channels_for device (kind_name output))
                (channels_for device (kind_name output)))
              h1
      ]
