-- ===== src/Limits.antt =====
-- src/oscmix_desk/limits.py: the DSP limits that the device documents.
pub mod Counted
pub mod Written
pub mod Bound
use oscmix_desk.Common.{
  ℕ, suc, ◌+◌, ◌-◌, ◌%◌, Bool, true, false, not, ◌&&◌, ◌||◌, Option, none, some, List, [], ◌∷◌,
  ◌++◌, String, leb, ltb, nat_eq, length, if◌then◌else◌, Result, ok, err, ◌>>=◌, ◌==◌, ℕ_eq,
  String_eq,
}
use oscmix_desk.Common.Int.{ℤ, pos, negsuc, int_eq, leb_ℤ, ℤ_eq}
use oscmix_desk.Common.Sets.{contains, List_eq}
use oscmix_desk.Common.Sort.{sort_by, dedup}
use oscmix_desk.Common.Dict.{Dict, lookup, insert}
use oscmix_desk.Floats.{Floats}
use oscmix_desk.Osc.Message.{Value}
use oscmix_desk.Numeric.{NumberError, value, integer}
use oscmix_desk.Paths.{OscPath, Segment_eq, word, num}
use oscmix_desk.Registers.{Device, channels_for}
use oscmix_desk.Autogain.{Report, Reports}
use oscmix_desk.Model.{DeskError, Kind, output, Kind_eq, Route, Link, link_requirements, is_empty}
use oscmix_desk.Model.Config.{Config, ChannelSetting}

-- `DspLimits`
pub record DspLimits : Type 0 where
  pub roomeq_channels : ℕ
  pub crossfeed_pairs : ℕ

-- `LIMITS`
unfoldable pub limits_of : String → Option DspLimits
limits_of name =
    if name == "Fireface UCX II"
    then some (record { roomeq_channels = 16; crossfeed_pairs = 4 })
    else none

-- `ROOMEQ % channel`, `CROSSFEED % channel`, `LINK % channel`
abbrev pub output_path : String → ℕ → OscPath
output_path option channel = word "output" ∷ num channel ∷ word option ∷ []

abbrev pub dspload : OscPath
dspload = word "hardware" ∷ word "dspload" ∷ []

-- the state of a register of each output, as far as it is known
abbrev pub Values : Type 0
Values = Dict ℕ ℤ

-- the exceeded limit, with the outputs or pairs that a text names
pub data Problem : Type 0 where
  room_eq crossfeed : List ℕ → Problem

abbrev pub is_on : ℤ → Bool
is_on n = not (int_eq n (pos 0))

abbrev pub on_at : Values → ℕ → Bool
on_at values channel = elim (lookup channel values) [ none ↦ false | some n ↦ is_on n ]

abbrev pair_of : ℕ → ℕ
pair_of channel = channel - (channel - 1) % 2

-- the channels of a dict whose value is not zero
unfoldable pub switched_on : Values → List ℕ
switched_on [] = []
switched_on ((channel, n) ∷ values) =
    let rest = switched_on values in if is_on n then channel ∷ rest else rest

-- the channels of linked pairs that run Room EQ on either side
unfoldable pub linked_on : Values → List ℕ → List ℕ
unfolding lookup
linked_on roomeq [] = []
linked_on roomeq (left ∷ linked) =
    let rest = linked_on roomeq linked in
    if on_at roomeq left || on_at roomeq (suc left) then left ∷ suc left ∷ rest else rest

unfoldable pub room_channels : Values → List ℕ → List ℕ
unfolding switched_on linked_on sort_by dedup
room_channels roomeq linked = sort_by leb (dedup (switched_on roomeq ++ linked_on roomeq linked))

unfoldable pub pairs_of : List ℕ → List ℕ
pairs_of [] = []
pairs_of (channel ∷ channels) = pair_of channel ∷ pairs_of channels

unfoldable pub crossfeed_lefts : Values → List ℕ
unfolding switched_on pairs_of sort_by dedup
crossfeed_lefts values = sort_by leb (dedup (pairs_of (switched_on values)))

-- `_problem`
unfoldable pub problem : DspLimits → Values → Values → List ℕ → Option Problem
unfolding room_channels crossfeed_lefts
problem limits roomeq fed linked =
    if ltb limits.roomeq_channels (length (room_channels roomeq linked))
    then some (room_eq (room_channels roomeq linked))
    else if ltb limits.crossfeed_pairs (length (crossfeed_lefts fed))
    then some (crossfeed (crossfeed_lefts fed))
    else none

-- the loop of `_declared_links`
unfoldable pub linked_outputs : Link → List ℕ
linked_outputs (kind, channel, linked) = if kind == output && linked then channel ∷ [] else []

module _ {F : Type 0} where
  -- `_limits`
  unfoldable pub found_limits : Config F → Option (Device F) → Option (DspLimits × List ℕ)
  unfolding limits_of channels_for
  found_limits config none = none
  found_limits config (some device) = elim (limits_of config.device_name) [
    | none ↦ none
    | some limits ↦ some (limits, channels_for device "output")
  ]

  unfoldable pub declared_links : List (Route F) → Result DeskError (List ℕ)
  unfolding linked_outputs link_requirements
  declared_links [] = ok []
  declared_links (route ∷ routes) = do
    (from, to) ← link_requirements route
    rest ← declared_links routes
    ok (linked_outputs from ++ linked_outputs to ++ rest)

-- the channel of a path, among those that a template is filled with
unfoldable pub channel_at : String → List ℕ → OscPath → Option ℕ
channel_at option [] path = none
channel_at option (channel ∷ channels) path =
    if output_path option channel == path then some channel else channel_at option channels path

unfoldable pub linked_lefts : Values → List ℕ
linked_lefts [] = []
linked_lefts ((channel, n) ∷ values) =
    let rest = linked_lefts values in
    if nat_eq (channel % 2) 1 && int_eq n (pos 1) then channel ∷ rest else rest

module _ {F : Type 0} ⦃fl : Floats F⦄ where
  -- `_declared`
  unfoldable pub declared_values :
      List (ChannelSetting F) → Values → Values → Result NumberError (Values × Values)
  unfolding integer insert
  declared_values [] rooms fed = ok (rooms, fed)
  declared_values (s ∷ settings) rooms fed =
      if s.family == output && (s.option == ("roomeq" ∷ []))
      then (do n ← integer s.value; declared_values settings (insert s.channel n rooms) fed)
      else if s.family == output && (s.option == ("crossfeed" ∷ []))
      then (do n ← integer s.value; declared_values settings rooms (insert s.channel n fed))
      else declared_values settings rooms fed

  -- `overload`, as the reported load
  unfoldable pub overload : Reports F → Option ℤ
  unfolding integer lookup
  overload latest = elim (lookup dspload latest) [
    | none ↦ none
    | some (tags, []) ↦ none
    | some (tags, v ∷ _) ↦ elim (integer (value v)) [
      | err _ ↦ none
      | ok load ↦ if leb_ℤ load (pos 99) then none else some load
    ]
  ]

  -- `integer(args[0])`; no argument raises as an argument that is no number does
  unfoldable pub first_integer : List (Value F) → Result NumberError ℤ
  unfolding integer
  first_integer [] = err NumberError.not_numeric
  first_integer (v ∷ _) = integer (value v)

  -- `_written`, over what a dict holds already
  unfoldable pub written_values :
      List (OscPath × List (Value F)) → String → List ℕ → Values → Result NumberError Values
  unfolding channel_at first_integer insert
  written_values [] option channels values = ok values
  written_values ((path, args) ∷ writes) option channels values =
      elim (channel_at option channels path) [
        | none ↦ written_values writes option channels values
        | some channel ↦ (do
          n ← first_integer args
          written_values writes option channels (insert channel n values))
      ]

  -- `switches_on`
  unfoldable pub switches_on : List (OscPath × List (Value F)) → List ℕ → Result NumberError Bool
  unfolding written_values switched_on
  switches_on writes channels = do
    rooms ← written_values writes "roomeq" channels []
    fed ← written_values writes "crossfeed" channels []
    ok (not (is_empty (switched_on rooms ++ switched_on fed)))

  -- the value that an output reported, zero for one that is not usable
  unfoldable pub reported_value : Option (Report F) → ℤ
  unfolding first_integer
  reported_value none = pos 0
  reported_value (some (tags, args)) = elim (first_integer args) [ err _ ↦ pos 0 | ok n ↦ n ]

  unfoldable pub observed_values : Reports F → String → List ℕ → Values → Values
  unfolding reported_value insert lookup
  observed_values observed option [] values = values
  observed_values observed option (channel ∷ channels) values =
      observed_values observed option channels
        (insert channel (reported_value (lookup (output_path option channel) observed)) values)

  -- the state of one register of every output behind the plan
  unfoldable pub state_after :
      List (OscPath × List (Value F)) → Reports F → String → List ℕ → Result NumberError Values
  unfolding observed_values written_values
  state_after writes observed option channels =
      written_values writes option channels (observed_values observed option channels [])

-- What may be raised: by the routes, by a number, and by the limit itself.
pub data LimitError : Type 0 where
  bad_route : DeskError → LimitError
  bad_number : NumberError → LimitError
  exceeded : Problem → LimitError

abbrev pub or_route : {A : Type 0} → Result DeskError A → Result LimitError A
or_route (ok a) = ok a
or_route (err e) = err (bad_route e)

abbrev pub or_number : {A : Type 0} → Result NumberError A → Result LimitError A
or_number (ok a) = ok a
or_number (err e) = err (bad_number e)

abbrev refuse_problem : Option Problem → Result LimitError (Unit {0})
refuse_problem none = ok tt
refuse_problem (some found) = err (exceeded found)

unfoldable pub room_paths : List ℕ → List OscPath
room_paths [] = []
room_paths (channel ∷ channels) =
    output_path "roomeq" channel ∷ output_path "crossfeed" channel ∷ room_paths channels

unfoldable pub link_paths : List ℕ → List OscPath
link_paths [] = []
link_paths (channel ∷ channels) =
    let rest = link_paths channels in
    if nat_eq (channel % 2) 1 then output_path "stereo" channel ∷ rest else rest

module _ {F : Type 0} ⦃fl : Floats F⦄ where
  -- `validate_dsp_limits`
  unfoldable pub validate_dsp_limits : Config F → Option (Device F) → Result LimitError (Unit {0})
  unfolding found_limits declared_values declared_links problem
  validate_dsp_limits config device = elim (found_limits config device) [
    | none ↦ ok tt
    | some (limits, channels) ↦ (do
      (rooms, fed) ← or_number (declared_values config.channels [] [])
      links ← or_route (declared_links config.routes)
      refuse_problem (problem limits rooms fed links))
  ]

  -- `observation_paths`
  unfoldable pub observation_paths : Config F → Option (Device F) → List OscPath
  unfolding found_limits room_paths link_paths
  observation_paths config device = elim (found_limits config device) [
    | none ↦ []
    | some (limits, channels) ↦ room_paths channels ++ link_paths channels
  ]

  -- the state that is counted
  unfoldable pub counted_problem :
      DspLimits
      → List ℕ
      → List (OscPath × List (Value F))
      → Reports F
      → Result NumberError (Option Problem)
  unfolding state_after linked_lefts problem
  counted_problem limits channels writes observed = do
    rooms ← state_after writes observed "roomeq" channels
    fed ← state_after writes observed "crossfeed" channels
    links ← state_after writes observed "stereo" channels
    ok (problem limits rooms fed (linked_lefts links))

  -- `dsp_problem`
  unfoldable pub dsp_problem :
      Config F
      → Option (Device F)
      → List (OscPath × List (Value F))
      → Reports F
      → Result NumberError (Option Problem)
  unfolding found_limits switches_on counted_problem
  dsp_problem config device writes observed = elim (found_limits config device) [
    | none ↦ ok none
    | some (limits, channels) ↦ (do
      switches ← switches_on writes channels
      if switches then counted_problem limits channels writes observed else ok none)
  ]
