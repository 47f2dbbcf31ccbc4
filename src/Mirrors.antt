-- ===== src/Mirrors.antt =====
-- src/oscmix_desk/mirrors.py: an output's routes declared again for the outputs that mirror it.
pub mod Targets
pub mod Submix
use oscmix_desk.Common.{
  ℕ, ◌+◌, ◌%◌, Bool, true, false, not, ◌&&◌, Option, none, some, List, [], ◌∷◌, ◌++◌, nat_eq,
  if◌then◌else◌, Result, ok, err, ◌>>=◌, ◌>>◌, refuse, require, ◌==◌, ℕ_eq,
}
use oscmix_desk.Common.Sets.{contains, intersects, is_subset, List_eq, list_beq}
use oscmix_desk.Common.Dict.{Dict, lookup, insert, keys}
use oscmix_desk.Common.Decimal.{decimal}
use oscmix_desk.Model.{
  DeskError, Route, mirror_not_parsed, mirror_not_pair, mirror_even_section, mirror_width,
  mirror_channel, mirror_itself, mirror_claimed_twice, mirror_of_mirror, mirror_partly,
  mirror_written,
}

-- (target outputs, source outputs)
abbrev pub Mirror : Type 0
Mirror = List ℕ × List ℕ

-- The width of the source gives the target's.
mirror_target : ℕ → List ℕ → Result DeskError (List ℕ)
mirror_target channel (left ∷ right ∷ []) = do
  require (nat_eq (left % 2) 1 && nat_eq right (left + 1)) mirror_not_pair
  require (nat_eq (channel % 2) 1) mirror_even_section
  ok (channel ∷ (channel + 1) ∷ [])
mirror_target channel (source ∷ []) = ok (channel ∷ [])
mirror_target channel _ = err mirror_width

-- `parse_mirror`, from the integers between the slashes, `none` where one does not parse, and the
-- outputs of the device
unfoldable pub parse_mirror : Option (List ℕ) → ℕ → List ℕ → Result DeskError Mirror
unfolding mirror_target
parse_mirror none channel outputs = err mirror_not_parsed
parse_mirror (some source) channel outputs = do
  target ← mirror_target channel source
  require (is_subset (source ++ target) outputs) mirror_channel
  refuse (intersects source target) mirror_itself
  ok (target, source)

abbrev pub Claimed : Type 0
Claimed = Dict ℕ (List ℕ)

-- the channels of one target
unfoldable pub claim_channels : List ℕ → List ℕ → Claimed → Result DeskError Claimed
claim_channels source [] claimed = ok claimed
claim_channels source (channel ∷ channels) claimed = do
  refuse (contains (keys claimed) channel) mirror_claimed_twice
  claim_channels source channels (insert channel source claimed)

unfoldable pub claim_targets : List Mirror → Claimed → Result DeskError Claimed
unfolding claim_channels
claim_targets [] claimed = ok claimed
claim_targets ((target, source) ∷ mirrors) claimed = do
  claimed' ← claim_channels source target claimed
  claim_targets mirrors claimed'

-- no source is itself a mirror
unfoldable pub check_sources : Claimed → List Mirror → Result DeskError (Unit {0})
check_sources claimed [] = ok tt
check_sources claimed ((target, source) ∷ mirrors) = do
  refuse (intersects source (keys claimed)) mirror_of_mirror
  check_sources claimed mirrors

module _ {F : Type 0} where
  -- the mirrors around one route
  unfoldable pub check_cover : Route F → List Mirror → Result DeskError (Unit {0})
  check_cover route [] = ok tt
  check_cover route ((target, source) ∷ mirrors) = do
    refuse (intersects route.output source && not (list_beq route.output source)) mirror_partly
    check_cover route mirrors

  unfoldable pub check_routes : Claimed → List Mirror → List (Route F) → Result DeskError (Unit {0})
  unfolding check_cover
  check_routes claimed mirrors [] = ok tt
  check_routes claimed mirrors (route ∷ routes) = do
    _ ← check_cover route mirrors
    refuse (intersects route.output (keys claimed)) mirror_written
    check_routes claimed mirrors routes

-- `"-".join(map(str, channels))`
unfoldable pub dashed : List ℕ → List ℕ
unfolding decimal
dashed [] = []
dashed (channel ∷ []) = decimal channel
dashed (channel ∷ channels) = decimal channel ++ (b'-' ∷ dashed channels)

-- `"-mirror-"`
abbrev mirror_infix : List ℕ
mirror_infix = b'-' ∷ b'm' ∷ b'i' ∷ b'r' ∷ b'r' ∷ b'o' ∷ b'r' ∷ b'-' ∷ []

module _ {F : Type 0} where
  unfoldable pub mirrored : Mirror → Route F → Route F
  unfolding dashed
  mirrored (target, source) route = record route {
    name = route.name ++ (mirror_infix ++ dashed target);
    output = target;
    volume = none;
    mirror_of = source;
  }

  -- the copies for one mirror
  unfoldable pub copies : Mirror → List (Route F) → List (Route F)
  unfolding mirrored
  copies mirror [] = []
  copies mirror (route ∷ routes) =
      let rest = copies mirror routes in
      if list_beq route.output mirror.1 then mirrored mirror route ∷ rest else rest

  -- the last loop of `expand_mirrors`
  unfoldable pub all_copies : List Mirror → List (Route F) → List (Route F)
  unfolding copies
  all_copies [] routes = []
  all_copies (mirror ∷ mirrors) routes = copies mirror routes ++ all_copies mirrors routes

  -- `expand_mirrors`
  unfoldable pub expand_mirrors : List (Route F) → List Mirror → Result DeskError (List (Route F))
  unfolding claim_targets check_sources check_routes all_copies
  expand_mirrors routes [] = ok routes
  expand_mirrors routes (mirror ∷ mirrors) = do
    claimed ← claim_targets (mirror ∷ mirrors) []
    _ ← check_sources claimed (mirror ∷ mirrors)
    _ ← check_routes claimed (mirror ∷ mirrors) routes
    ok (routes ++ all_copies (mirror ∷ mirrors) routes)
