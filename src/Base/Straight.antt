-- ===== src/Base/Straight.antt =====
-- src/oscmix_desk/base.py: the routes that a base declares, each playback pair on its outputs.
pub mod Claims
use oscmix_desk.Common.{
  ℕ, ◌+◌, ◌%◌, Bool, true, false, not, ◌&&◌, ◌||◌, Option, none, some, List, [], ◌∷◌, ◌++◌, nat_eq,
  String, length, if◌then◌else◌, Result, ok, err, ◌>>=◌, ◌>>◌, refuse, ◌==◌, ℕ_eq, String_eq,
  pair_eq,
}
use oscmix_desk.Common.Int.{ℤ, pos, int_eq}
use oscmix_desk.Common.Sets.{contains, intersects, is_subset, List_eq, list_beq}
use oscmix_desk.Common.Dict.{Dict, lookup, insert, keys}
use oscmix_desk.Common.Decimal.{decimal}
use oscmix_desk.Floats.{Floats}
use oscmix_desk.Paths.{codes}
use oscmix_desk.Osc.Bytes.{Text}
use oscmix_desk.Osc.Message.{int, float, text}
use oscmix_desk.Numeric.{PyValue, boolean, value}
use oscmix_desk.Registers.{Device}
use oscmix_desk.Model.{
  DeskError, base_mono_playback, base_mirrored, base_merged, Kind, playback, output, Kind_eq, Route,
  Link, Links, link_requirements, first_channel, is_empty,
}
use oscmix_desk.Model.Config.{BaseName, straight_playback, daw, ChannelSetting}
use oscmix_desk.Mirrors.{Mirror}
use oscmix_desk.Base.Merged.{merged}
use oscmix_desk.Base.{declared_links, odd_channels, gather, is_declared}

-- `_STRAIGHT`
unfoldable pub is_straight : BaseName → Bool
is_straight straight_playback = true
is_straight daw = true
is_straight _ = false

-- the cells of the playback matrix that routes set: an output and a playback channel
abbrev pub Taken : Type 0
Taken = List (ℕ × ℕ)

unfoldable pub cells_of : List ℕ → List ℕ → Taken
unfolding gather
cells_of outputs channels = gather (λ out. gather (λ pb. (out, pb) ∷ []) channels) outputs

module _ {F : Type 0} where
  unfoldable pub taken_cells : List (Route F) → Taken
  unfolding cells_of gather
  taken_cells routes = gather (λ route. cells_of route.output route.playback) routes

module _ {F : Type 0} ⦃fl : Floats F⦄ where
  -- the route that a base declares
  unfoldable pub base_route : Text → List ℕ → Bool → Route F
  base_route name channels stereo = record {
    name = name;
    output = channels;
    playback = channels;
    level = fl.zero;
    volume = none;
    stereo = stereo;
    input = [];
    pan = pos 0;
    mirror_of = [];
    base = true;
  }

  -- the routes of the two channels on their own
  unfoldable pub single_routes : List ℕ → Taken → List (Route F)
  unfolding base_route
  single_routes [] taken = []
  single_routes (ch ∷ channels) taken =
      let rest = single_routes channels taken in
      if contains taken (ch, ch)
      then rest
      else base_route (codes "[desk] base " ++ decimal ch) (ch ∷ []) true ∷ rest

  -- the route of the pair
  unfoldable pub pair_route : ℕ → Bool → Taken → List (Route F)
  unfolding base_route cells_of
  pair_route left stereo taken =
      if intersects taken (cells_of (left ∷ (left + 1) ∷ []) (left ∷ (left + 1) ∷ []))
      then []
      else base_route (codes "[desk] base " ++ (decimal left ++ (codes "/" ++ decimal (left + 1))))
          (left ∷ (left + 1) ∷ []) stereo
        ∷ []

  -- `_diagonal`, from the links that are declared of the playback pair and of the output pair
  unfoldable pub diagonal :
      ℕ → Option Bool → Option Bool → Taken → Result DeskError (List (Route F))
  unfolding single_routes pair_route
  diagonal left (some false) (some true) taken = err base_mono_playback
  diagonal left (some false) out taken = ok (single_routes (left ∷ (left + 1) ∷ []) taken)
  diagonal left playing (some false) taken = ok (pair_route left false taken)
  diagonal left playing out taken = ok (pair_route left true taken)

  -- a route of this many outputs
  unfoldable pub has_width : ℕ → List (Route F) → Bool
  has_width n [] = false
  has_width n (route ∷ routes) = nat_eq (length route.output) n || has_width n routes

  -- `_check_mirrors`, from the channels that are mirrored, mirrored alone and mirrored as a pair
  unfoldable pub check_mirrors :
      ℕ → List (Route F) → List ℕ → List ℕ → List ℕ → Result DeskError (Unit {0})
  unfolding has_width
  check_mirrors left [] targets alone paired = ok tt
  check_mirrors left (route ∷ routes) targets alone paired = do
    refuse (intersects (left ∷ (left + 1) ∷ []) targets) base_mirrored
    refuse (has_width 2 (route ∷ routes) && intersects (left ∷ (left + 1) ∷ []) alone) base_mirrored
    refuse (has_width 1 (route ∷ routes) && contains paired left) base_mirrored

-- `{source[0]: target[0] for ... if len(source) == 2}`
unfoldable pub pair_targets : List Mirror → Dict ℕ ℕ → Result DeskError (Dict ℕ ℕ)
unfolding insert first_channel
pair_targets [] targets = ok targets
pair_targets ((target, left ∷ right ∷ []) ∷ mirrors) targets = do
  first ← first_channel target
  pair_targets mirrors (insert left first targets)
pair_targets (_ ∷ mirrors) targets = pair_targets mirrors targets

-- the channels of all targets, and the first channels of the sources of one width
unfoldable pub mirrored_channels : List Mirror → List ℕ
mirrored_channels [] = []
mirrored_channels ((target, source) ∷ mirrors) = target ++ mirrored_channels mirrors

unfoldable pub alone_sources : List Mirror → List ℕ
alone_sources [] = []
alone_sources ((target, source ∷ []) ∷ mirrors) = source ∷ alone_sources mirrors
alone_sources (_ ∷ mirrors) = alone_sources mirrors

unfoldable pub paired_sources : List Mirror → List ℕ
paired_sources [] = []
paired_sources ((target, left ∷ right ∷ []) ∷ mirrors) = left ∷ paired_sources mirrors
paired_sources (_ ∷ mirrors) = paired_sources mirrors

-- a pair that a route links although no declared route says so
unfoldable pub owned_link : Links → Link → List (Kind × ℕ)
unfolding is_declared
owned_link links (kind, channel, linked) =
    if linked && not (is_declared links kind channel) then (kind, channel) ∷ [] else []

-- with the target pair of a mirror of the output, which gets a copy
unfoldable pub mirror_owned : ℕ → Dict ℕ ℕ → List (Kind × ℕ) → List (Kind × ℕ)
unfolding lookup
mirror_owned left targets owned =
    if contains owned (output, left)
    then elim (lookup left targets) [
      | none ↦ owned
      | some target ↦ owned ++ ((output, target) ∷ [])
    ]
    else owned

module _ {F : Type 0} where
  unfoldable pub owned_links : Links → List (Route F) → Result DeskError (List (Kind × ℕ))
  unfolding owned_link link_requirements
  owned_links links [] = ok []
  owned_links links (route ∷ routes) = do
    (from, to) ← link_requirements route
    rest ← owned_links links routes
    ok (owned_link links from ++ (owned_link links to ++ rest))

module _ {F : Type 0} ⦃fl : Floats F⦄ where
  -- the check on every pair that the base links
  unfoldable pub check_merged :
      List (ChannelSetting F) → List (Kind × ℕ) → Result DeskError (Unit {0})
  unfolding merged
  check_merged settings [] = ok tt
  check_merged settings ((family, channel) ∷ owned) = do
    refuse (merged settings family channel) base_merged
    check_merged settings owned

  -- one round of the loop, for an output pair that plays
  unfoldable pub base_pair :
      Links
      → List (ChannelSetting F)
      → List Mirror
      → Dict ℕ ℕ
      → Taken
      → ℕ
      → Result DeskError (List (Route F))
  unfolding diagonal check_mirrors owned_links mirror_owned check_merged lookup
  base_pair links settings mirrors targets taken left = do
    added ← diagonal left (lookup (playback, left) links) (lookup (output, left) links) taken
    check_mirrors left added (mirrored_channels mirrors) (alone_sources mirrors)
        (paired_sources mirrors)
    owned ← owned_links links added
    check_merged settings (mirror_owned left targets owned)
    ok added

  -- the loop over the output pairs
  unfoldable pub base_pairs :
      Links
      → List (ChannelSetting F)
      → List Mirror
      → Dict ℕ ℕ
      → Taken
      → List ℕ
      → List ℕ
      → Result DeskError (List (Route F))
  unfolding base_pair
  base_pairs links settings mirrors targets taken playing [] = ok []
  base_pairs links settings mirrors targets taken playing (left ∷ lefts) =
      if not (contains playing left)
        || is_subset (left ∷ (left + 1) ∷ []) (mirrored_channels mirrors)
      then base_pairs links settings mirrors targets taken playing lefts
      else (do
        added ← base_pair links settings mirrors targets taken left
        rest ← base_pairs links settings mirrors targets taken playing lefts
        ok (added ++ rest))

  -- `base_routes`
  unfoldable pub base_routes :
      BaseName
      → List (Route F)
      → List (ChannelSetting F)
      → List Mirror
      → Device F
      → Result DeskError (List (Route F))
  unfolding is_straight declared_links pair_targets base_pairs taken_cells odd_channels
  base_routes base routes settings mirrors device =
      if is_straight base
      then (do
        links ← declared_links routes []
        targets ← pair_targets mirrors []
        base_pairs links settings mirrors targets (taken_cells routes)
            (odd_channels device playback) (odd_channels device output))
      else ok []
