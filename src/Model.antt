-- ===== src/Model.antt =====
-- src/oscmix_desk/model.py: routes and settings as data. Channel numbers are naturals: the parser
-- refuses any below 1. The tests of a field's Python type are the model's types.
pub mod Config
pub mod Links
pub mod Balance
use oscmix_desk.Common.{
  ℕ, ◌+◌, ◌-◌, ◌%◌, Bool, true, false, not, ◌&&◌, ◌||◌, Option, none, some, List, [], ◌∷◌, ◌++◌,
  leb, nat_eq, if◌then◌else◌, length, Result, ok, err, ◌>>=◌, ◌>>◌, refuse, require, Eq, ◌==◌, ◌↔◌,
  ◌≡◌, arith, String, pair_eq, ℕ_eq, bool_eq, refl,
}
use oscmix_desk.Common.Int.{ℤ, pos, negsuc, leb_ℤ, int_eq}
use oscmix_desk.Common.Dict.{Dict, lookup, insert, append_at, values}
use oscmix_desk.Floats.{Floats}

-- The exceptions that reading and planning a desk raise.
pub data DeskError : Type 0 where
  -- what Python raises at an index or an unpacking that does not fit
  index_error unpack_error : DeskError
  pan_range pan_source pan_pairs pan_level links_disagree pan_disagrees : DeskError
  mirror_not_parsed mirror_not_pair mirror_even_section mirror_width mirror_channel : DeskError
  mirror_itself mirror_claimed_twice mirror_of_mirror mirror_partly mirror_written : DeskError
  base_unknown base_mono_playback base_mirrored base_merged : DeskError
  mute_device mute_option mute_conflict mute_partner mute_disagrees mute_incomplete : DeskError
  playback_route_channels playback_route_width playback_route_level : DeskError
  no_autoset autoset_value no_gain gain_pin_conflict : DeskError
  pan_channels no_such_option setting_value unmute_bypass : DeskError

-- The three channel families of a path.
pub data Kind : Type 0 where
  input playback output : Kind

abbrev pub kind_beq : Kind → Kind → Bool
kind_beq input input = true
kind_beq playback playback = true
kind_beq output output = true
kind_beq _ _ = false

pub kind_beq_iff : (a b : Kind) → (kind_beq a b ≡ true) ↔ (a ≡ b)
kind_beq_iff input input = ground arith
kind_beq_iff a b = ground arith

instance abbrev pub Kind_eq : Eq Kind
Kind_eq = record { beq = kind_beq; beq_iff = kind_beq_iff }

-- the word that stands for a family in paths and tables
abbrev pub kind_name : Kind → String
kind_name input = "input"
kind_name playback = "playback"
kind_name output = "output"

-- `Route`
pub record Route (F : Type 0) : Type 0 where
  pub name : List ℕ
  pub output : List ℕ
  pub playback : List ℕ
  pub level : F
  pub volume : Option F
  pub stereo : Bool
  pub input : List ℕ
  pub pan : ℤ
  pub mirror_of : List ℕ
  pub base : Bool

-- a row of `link_requirements`: a family, its pair's odd channel, and whether they are linked
abbrev pub Link : Type 0
Link = Kind × ℕ × Bool

abbrev pub is_empty {ℓ} : {A : Type ℓ} → List A → Bool
is_empty [] = true
is_empty (_ ∷ _) = false

-- `channels[0]`
unfoldable pub first_channel : List ℕ → Result DeskError ℕ
first_channel [] = err index_error
first_channel (channel ∷ _) = ok channel

-- an odd channel and its partner, within `CHANNEL_MIN` and `CHANNEL_MAX`
unfoldable pub is_pair : List ℕ → Bool
is_pair (left ∷ right ∷ []) =
    (leb 1 left && leb left 64)
    && ((leb 1 right && leb right 64) && (nat_eq (left % 2) 1 && nat_eq right (left + 1)))
is_pair _ = false

-- the odd channel of a pair, and the pair of a channel
abbrev pub odd_channel : ℕ → ℕ
odd_channel channel = if nat_eq (channel % 2) 1 then channel else channel - 1

module _ {F : Type 0} where
  -- `Route.source`
  unfoldable pub source : Route F → Kind × List ℕ
  source route = if is_empty route.input then (playback, route.playback) else (input, route.input)

  -- `Route.link_requirements`
  unfoldable pub link_requirements : Route F → Result DeskError (Link × Link)
  unfolding source first_channel
  link_requirements route = do
    from ← first_channel (source route).1
    to ← first_channel route.output
    ok (
      ((source route).0, odd_channel from, nat_eq (length (source route).1) 2),
      (output, odd_channel to, nat_eq (length route.output) 2 && route.stereo),
    )

module _ {F : Type 0} ⦃fl : Floats F⦄ where
  -- `Route.checked_pan`
  unfoldable pub checked_pan : Route F → Result DeskError ℤ
  unfolding source is_pair
  checked_pan route = do
    require (leb_ℤ (negsuc 99) route.pan && leb_ℤ route.pan (pos 100)) pan_range
    if int_eq route.pan (pos 0) then ok route.pan else (do
      require (not (bool_eq (is_empty route.input) (is_empty route.playback))) pan_source
      require (route.stereo && (is_pair (source route).1 && is_pair route.output)) pan_pairs
      require (fl.lt fl.level_min route.level && fl.le route.level fl.level_max) pan_level
      ok route.pan)

  -- `any(route.checked_pan for route in routes)`
  unfoldable pub any_pan : List (Route F) → Result DeskError Bool
  any_pan [] = ok false
  any_pan (route ∷ routes) = do
    pan ← checked_pan route
    let rest = any_pan routes
    if int_eq pan (pos 0) then rest else ok true

-- the pair links that the routes declare
abbrev pub Links : Type 0
Links = Dict (Kind × ℕ) Bool

-- a matrix cell: its output, and the family and channel of its source
abbrev pub Cell : Type 0
Cell = ℕ × (Kind × ℕ)

-- One more link, if it agrees with those before it.
unfoldable pub declare_link : Link → Links → Result DeskError Links
declare_link (kind, channel, linked) links = elim (lookup (kind, channel) links) [
  | none ↦ ok (insert (kind, channel) linked links)
  | some before ↦
      if bool_eq before linked then ok (insert (kind, channel) linked links) else err links_disagree
]

module _ {F : Type 0} where
  -- the cell that a route claims, folded through its links
  unfoldable pub cell_key : Route F → Link → Link → Result DeskError Cell
  unfolding source first_channel
  cell_key route (kind, left, linked) (_, out, outputs_linked) = do
    channel ← first_channel (source route).1
    target ← first_channel route.output
    ok (if outputs_linked then out else target, (kind, if linked then left else channel))

  -- the first loop of `validate_route_pan`
  unfoldable pub scan_routes :
      List (Route F)
      → Links
      → Dict Cell (List (Route F))
      → Result DeskError (Links × Dict Cell (List (Route F)))
  unfolding link_requirements declare_link cell_key append_at
  scan_routes [] links claims = ok (links, claims)
  scan_routes (route ∷ routes) links claims = do
    (from, to) ← link_requirements route
    links' ← declare_link from links
    links'' ← declare_link to links'
    cell ← cell_key route from to
    scan_routes routes links'' (append_at cell route claims)

module _ {F : Type 0} ⦃fl : Floats F⦄ where
  abbrev pub same_claim : Route F → Route F → Bool
  same_claim first route = fl.eq first.level route.level && int_eq first.pan route.pan

  -- `for route in declarations[1:]`
  unfoldable pub agree_with : Route F → List (Route F) → Result DeskError (Unit {0})
  agree_with first [] = ok tt
  agree_with first (route ∷ routes) =
      let rest = agree_with first routes in
      if same_claim first route then rest else err pan_disagrees

  unfoldable pub check_cell : List (Route F) → Result DeskError (Unit {0})
  unfolding any_pan agree_with
  check_cell [] = ok tt
  check_cell (first ∷ rest) = do
    panned ← any_pan (first ∷ rest)
    if panned then agree_with first rest else ok tt

  -- the second loop of `validate_route_pan`
  unfoldable pub check_claims : List (List (Route F)) → Result DeskError (Unit {0})
  unfolding check_cell
  check_claims [] = ok tt
  check_claims (declarations ∷ rest) = do _ ← check_cell declarations; check_claims rest

  -- `validate_route_pan`
  unfoldable pub validate_route_pan : List (Route F) → Result DeskError (Unit {0})
  unfolding any_pan scan_routes check_claims
  validate_route_pan routes = do
    panned ← any_pan routes
    if panned
        then (do (links, claims) ← scan_routes routes [] []; check_claims (values claims))
        else ok tt
