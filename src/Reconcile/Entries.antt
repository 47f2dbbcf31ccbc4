-- ===== src/Reconcile/Entries.antt =====
-- src/oscmix_desk/reconcile.py: the messages of the routes, and the entries that they give.
use oscmix_desk.Common.{
  String_eq, ℕ, Bool, true, false, not, ◌&&◌, Option, none, some, List, [], ◌∷◌, ◌++◌, leb, nat_eq,
  if◌then◌else◌, Result, ok, err, ◌>>=◌, ℕ_eq, length,
}
use oscmix_desk.Common.Int.{ℤ, pos, negsuc}
use oscmix_desk.Common.Sets.{List_eq}
use oscmix_desk.Common.Dict.{Dict, lookup, insert}
use oscmix_desk.Floats.{Floats}
use oscmix_desk.Osc.Message.{Value, int, float}
use oscmix_desk.Paths.{word, num, OscPath, Segment_eq}
use oscmix_desk.Model.{
  DeskError, Kind, kind_name, Route, Link, source, link_requirements, checked_pan, first_channel,
  unpack_error,
}
use oscmix_desk.Base.{mix_path}

-- a write on the wire: path, type tags, arguments
abbrev pub Send : Type 0 → Type 0
Send F = OscPath × List ℕ × List (Value F)

unfoldable pub stereo_path : Kind → ℕ → OscPath
stereo_path kind channel = word (kind_name kind) ∷ num channel ∷ word "stereo" ∷ []

unfoldable pub volume_path : ℕ → OscPath
volume_path out = word "output" ∷ num out ∷ word "volume" ∷ []

abbrev pub flag_int : Bool → ℤ
flag_int true = pos 1
flag_int false = pos 0

module _ {F : Type 0} where
  unfoldable pub link_message : Link → Send F
  unfolding stereo_path
  link_message (kind, channel, linked) =
      (stereo_path kind channel, b'i' ∷ [], int (flag_int linked) ∷ [])

  -- `link_messages`
  unfoldable pub link_messages : Route F → Result DeskError (List (Send F))
  unfolding link_message
  link_messages route = do
    (from, to) ← link_requirements route
    ok (link_message from ∷ link_message to ∷ [])

  unfoldable pub volume_messages : Option F → List ℕ → List (Send F)
  unfolding volume_path
  volume_messages none outs = []
  volume_messages (some volume) [] = []
  volume_messages (some volume) (out ∷ outs) =
      (volume_path out, b'f' ∷ [], float volume ∷ []) ∷ volume_messages (some volume) outs

  unfoldable pub mix_message : ℕ → Kind → ℕ → F → ℤ → Send F
  mix_message out kind channel level pan =
      (mix_path out kind channel, b'f' ∷ b'i' ∷ [], float level ∷ int pan ∷ [])

module _ {F : Type 0} ⦃fl : Floats F⦄ where
  -- the level of an unlinked pair, raised by the gain that the backend halves
  unfoldable pub unlinked_level : F → F
  unlinked_level level =
      if fl.le level fl.level_min
      then fl.level_min
      else fl.add (fl.min level fl.zero) fl.unlinked_gain_offset

  -- the matrix writes of a route to a pair
  unfoldable pub pair_mix : Route F → Kind → ℕ → ℕ → ℕ → ℤ → List (Send F)
  unfolding unlinked_level mix_message
  pair_mix route kind left right first pan =
      if route.stereo
      then mix_message left kind first route.level pan ∷ []
      else mix_message left kind first (unlinked_level route.level) (negsuc 99)
        ∷ mix_message right kind first (unlinked_level route.level) (pos 100)
        ∷ []

  -- the outputs and the source channels of a route, unpacked
  unfoldable pub route_writes :
      Route F → Kind → List ℕ → List ℕ → ℤ → Result DeskError (List (Send F))
  unfolding pair_mix volume_messages mix_message
  route_writes route kind channels (left ∷ right ∷ []) pan = do
    first ← first_channel channels
    ok (
        pair_mix route kind left right first pan
        ++ volume_messages route.volume (left ∷ right ∷ []))
  route_writes route kind (channel ∷ []) (out ∷ []) pan =
      ok
        (mix_message out kind channel route.level (pos 0) ∷ volume_messages route.volume (out ∷ []))
  route_writes route kind _ _ pan = err unpack_error

  -- `mix_messages`
  unfoldable pub mix_messages : Route F → Result DeskError (List (Send F))
  unfolding route_writes
  mix_messages route = do
    pan ← checked_pan route
    route_writes route (source route).0 (source route).1 route.output pan

-- `Phase`
pub data Phase : Type 0 where
  playback_mute_on autoset_off link mix channel autoset_on playback_mute_off : Phase

-- the values of `Phase`, counted from 0
abbrev pub phase_rank : Phase → ℕ
phase_rank playback_mute_on = 0
phase_rank autoset_off = 1
phase_rank link = 2
phase_rank mix = 3
phase_rank channel = 4
phase_rank autoset_on = 5
phase_rank playback_mute_off = 6

abbrev pub phase_beq : Phase → Phase → Bool
phase_beq a b = nat_eq (phase_rank a) (phase_rank b)

-- `Entry`
pub record Entry (F : Type 0) : Type 0 where
  pub path : OscPath
  pub tags : List ℕ
  pub args : List (Value F)
  pub phase : Phase
  pub base : Bool
  pub compared : Bool

abbrev pub entry_le : {F : Type 0} → Entry F → Entry F → Bool
entry_le a b = leb (phase_rank a.phase) (phase_rank b.phase)

abbrev pub is_present {ℓ} : {A : Type ℓ} → Option A → Bool
is_present none = false
is_present (some _) = true

-- `register.tags.startswith("f")`
abbrev pub tags_float : List ℕ → Bool
tags_float [] = false
tags_float (t ∷ _) = nat_eq t b'f'

abbrev pub position : Dict OscPath ℕ → OscPath → ℕ
position positions path = elim (lookup path positions) [ none ↦ 0 | some n ↦ n ]

module _ {F : Type 0} where
  -- a base's route yields to a route of the desk
  unfoldable pub yields_to : Bool → Option (Entry F) → Bool
  yields_to base none = false
  yields_to base (some before) = base && not before.base

  unfoldable pub add_sends :
      Phase → Bool → List (Send F) → Dict OscPath (Entry F) → Dict OscPath (Entry F)
  unfolding yields_to
  add_sends phase base [] entries = entries
  add_sends phase base ((path, tags, args) ∷ sends) entries = add_sends phase base sends (
      if yields_to base (lookup path entries)
      then entries
      else insert path
          (record {
            path = path;
            tags = tags;
            args = args;
            phase = phase;
            base = base;
            compared = true;
          })
          entries)

  -- the loop over the routes of one phase
  unfoldable pub produce_all :
      Phase
      → (Route F → Result DeskError (List (Send F)))
      → List (Route F)
      → Dict OscPath (Entry F)
      → Result DeskError (Dict OscPath (Entry F))
  unfolding add_sends
  produce_all phase produce [] entries = ok entries
  produce_all phase produce (route ∷ routes) entries = do
    sends ← produce route
    produce_all phase produce routes (add_sends phase route.base sends entries)

  -- `_send_order`: the position of each path among those that are produced
  unfoldable pub number_sends : List (Send F) → Dict OscPath ℕ → Dict OscPath ℕ
  number_sends [] positions = positions
  number_sends ((path, _, _) ∷ sends) positions = number_sends sends (
      if is_present (lookup path positions)
      then positions
      else insert path (length positions) positions)

  unfoldable pub number_all :
      (Route F → Result DeskError (List (Send F)))
      → List (Route F)
      → Dict OscPath ℕ
      → Result DeskError (Dict OscPath ℕ)
  unfolding number_sends
  number_all produce [] positions = ok positions
  number_all produce (route ∷ routes) positions = do
    sends ← produce route
    number_all produce routes (number_sends sends positions)

  unfoldable pub send_le : Dict OscPath ℕ → Entry F → Entry F → Bool
  send_le positions a b = leb (position positions a.path) (position positions b.path)
