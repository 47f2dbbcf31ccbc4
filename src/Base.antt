-- ===== src/Base.antt =====
-- src/oscmix_desk/base.py: the silent cells of a whole-state desk, and its straight playback.
pub mod Silence
pub mod Merged
pub mod Straight
use oscmix_desk.Common.{
  ℕ, ◌+◌, ◌%◌, Bool, true, false, not, ◌&&◌, ◌||◌, Option, none, some, List, [], ◌∷◌, ◌++◌, nat_eq,
  if◌then◌else◌, Result, ok, err, ◌>>=◌, ◌==◌, ℕ_eq, pair_eq,
}
use oscmix_desk.Common.Int.{pos}
use oscmix_desk.Common.Sets.{contains, List_eq}
use oscmix_desk.Common.Dict.{Dict, lookup, insert}
use oscmix_desk.Floats.{Floats}
use oscmix_desk.Osc.Message.{Value, int, float}
use oscmix_desk.Paths.{Segment, word, num, OscPath, Segment_eq}
use oscmix_desk.Registers.{Device, channels_for}
use oscmix_desk.Model.{
  DeskError, Kind, input, playback, output, Kind_eq, Route, Links, link_requirements, kind_name,
}
use oscmix_desk.Model.Config.{BaseName, keep, clear_inputs, clear_submixes, straight_playback, daw}

-- `_SILENCES`
unfoldable pub silences : BaseName → List Kind
silences keep = []
silences clear_inputs = input ∷ []
silences clear_submixes = input ∷ playback ∷ []
silences straight_playback = playback ∷ []
silences daw = input ∷ playback ∷ []

module _ {F : Type 0} where
  -- `_declared_links`: a later route wins
  unfoldable pub declared_links : List (Route F) → Links → Result DeskError Links
  declared_links [] links = ok links
  declared_links (route ∷ routes) links = do
    ((kind, left, linked), (kind', left', linked')) ← link_requirements route
    declared_links routes (insert (kind', left') linked' (insert (kind, left) linked links))

-- the odd channels that have a partner
unfoldable pub odd_of : List ℕ → List ℕ → List ℕ
odd_of all [] = []
odd_of all (ch ∷ channels) =
    let rest = odd_of all channels in
    if nat_eq (ch % 2) 1 && contains all (ch + 1) then ch ∷ rest else rest

-- `_odd`
unfoldable pub odd_channels : {F : Type 0} → Device F → Kind → List ℕ
unfolding odd_of channels_for
odd_channels device kind =
    odd_of (channels_for device (kind_name kind)) (channels_for device (kind_name kind))

-- `"/mix/%d/%s/%d"`
unfoldable pub mix_path : ℕ → Kind → ℕ → OscPath
mix_path target kind channel = word "mix" ∷ num target ∷ word (kind_name kind) ∷ num channel ∷ []

-- `links.get(key)` as a truth value, and `key in links`
unfoldable pub is_linked : Links → Kind → ℕ → Bool
is_linked links kind left = elim (lookup (kind, left) links) [ none ↦ false | some linked ↦ linked ]

unfoldable pub is_declared : Links → Kind → ℕ → Bool
is_declared links kind left = elim (lookup (kind, left) links) [ none ↦ false | some _ ↦ true ]

-- the addresses of a pair: its odd channel if it is declared linked, else both
unfoldable pub addresses : Links → Kind → ℕ → List ℕ
unfolding is_linked
addresses links kind left = if is_linked links kind left then left ∷ [] else left ∷ (left + 1) ∷ []

-- `BaseEntry`
pub record BaseEntry (F : Type 0) : Type 0 where
  pub path : OscPath
  pub tags : List ℕ
  pub args : List (Value F)
  pub compared : Bool

-- `for x in xs`, where each round appends to one list
unfoldable pub gather : {A B : Type 0} → (A → List B) → List A → List B
gather f [] = []
gather f (x ∷ xs) = f x ++ gather f xs

module _ {F : Type 0} ⦃fl : Floats F⦄ where
  -- one cell of a block
  unfoldable pub silent_cell : Links → List OscPath → ℕ → Kind → ℕ → ℕ → ℕ → List (BaseEntry F)
  unfolding mix_path is_declared
  silent_cell links declared out kind source target channel =
      if contains declared (mix_path target kind channel)
      then []
      else record {
        path = mix_path target kind channel;
        tags = b'f' ∷ b'i' ∷ [];
        args = float fl.level_min ∷ int (pos 0) ∷ [];
        compared =
            (nat_eq target out || is_declared links output out)
            && (nat_eq channel source || is_declared links kind source);
      }
        ∷ []

  -- the loop over `sources`, at one target
  unfoldable pub silent_row : Links → List OscPath → ℕ → Kind → ℕ → ℕ → List (BaseEntry F)
  unfolding silent_cell addresses gather
  silent_row links declared out kind source target =
      gather (silent_cell links declared out kind source target) (addresses links kind source)

  -- the loop over `outs`: the cells of one output pair and one source pair
  unfoldable pub silent_block : Links → List OscPath → ℕ → Kind → ℕ → List (BaseEntry F)
  unfolding silent_row addresses gather
  silent_block links declared out kind source =
      gather (silent_row links declared out kind source) (addresses links output out)

  -- the loop over the source pairs of one family
  unfoldable pub silent_kind : Links → List OscPath → Device F → ℕ → Kind → List (BaseEntry F)
  unfolding silent_block odd_channels gather
  silent_kind links declared device out kind =
      gather (silent_block links declared out kind) (odd_channels device kind)

  -- the loop over the families that the base silences
  unfoldable pub silent_output : BaseName → Links → List OscPath → Device F → ℕ → List (BaseEntry F)
  unfolding silent_kind silences gather
  silent_output base links declared device out =
      gather (silent_kind links declared device out) (silences base)

  -- the loop over the output pairs
  unfoldable pub silent_cells : BaseName → Links → List OscPath → Device F → List (BaseEntry F)
  unfolding silent_output odd_channels gather
  silent_cells base links declared device =
      gather (silent_output base links declared device) (odd_channels device output)

  -- `base_entries`
  unfoldable pub base_entries :
      BaseName → List (Route F) → List OscPath → Device F → Result DeskError (List (BaseEntry F))
  unfolding declared_links silent_cells
  base_entries base routes declared device = do
    links ← declared_links routes []
    ok (silent_cells base links declared device)
