-- ===== src/Examples/Straight.antt =====
-- The theorem on the routes of a base at a desk that plays one pair by a route of its own.
use oscmix_desk.Common.{◌≡◌, refl, none, true, false, List, [], ◌∷◌, ok, All}
use oscmix_desk.Common.Int.{ℤ, pos}
use oscmix_desk.Common.Decimal.{decimal}
use oscmix_desk.Common.Dict.{insert}
use oscmix_desk.Common.Sets.{contains, intersects, is_subset}
use oscmix_desk.Registers.{Device}
use oscmix_desk.Model.{Route, Links, playback, output, link_requirements}
use oscmix_desk.Model.Config.{straight_playback}
use oscmix_desk.Base.{declared_links}
use oscmix_desk.Base.Straight.{
  base_routes, base_route, taken_cells, mirrored_channels, alone_sources,
}
use oscmix_desk.Base.Straight.Claims.{IsStraight, base_routes-IsStraight}
use oscmix_desk.Paths.{codes}
use oscmix_desk.Examples.Numbers.{ℤ_floats}
use oscmix_desk.Examples.Mutes.{device as small_device}

abbrev device : Device ℤ
device = record small_device {
  channels = ("playback", 1 ∷ 2 ∷ 3 ∷ 4 ∷ []) ∷ ("output", 1 ∷ 2 ∷ 3 ∷ 4 ∷ []) ∷ [];
}

-- Playback 1/2 on outputs 1/2, quieter.
abbrev route : Route ℤ
route = record {
  name = b'p' ∷ [];
  output = 1 ∷ 2 ∷ [];
  playback = 1 ∷ 2 ∷ [];
  level = pos 0;
  volume = none;
  stereo = true;
  input = [];
  pan = pos 0;
  mirror_of = [];
  base = false;
}

abbrev links : Links
links = ((playback, 1), true) ∷ ((output, 1), true) ∷ []

declared : declared_links (route ∷ []) [] ≡ ok links
unfolding declared_links link_requirements insert
declared = refl

abbrev added : List (Route ℤ)
added = base_route (codes "[desk] base 3/4") (3 ∷ 4 ∷ []) true ∷ []

accepted : base_routes straight_playback (route ∷ []) [] [] device ≡ ok added
unfolding base_routes contains is_subset mirrored_channels intersects alone_sources decimal
accepted = refl

base_routes-IsStraight_example : All (IsStraight ℤ links (taken_cells (route ∷ []))) added
base_routes-IsStraight_example =
    base_routes-IsStraight ℤ straight_playback (route ∷ []) [] [] device links added declared
      accepted
