-- ===== src/Examples/Desk.antt =====
-- The theorems on model.py, mirrors.py and base.py at a concrete desk.
use oscmix_desk.Common.{◌≡◌, refl, ◌⊎◌, inl, inr, none, true, false, List, [], ◌∷◌, ok, All}
use oscmix_desk.Common.Int.{ℤ, pos, negsuc}
use oscmix_desk.Common.Dict.{lookup, insert}
use oscmix_desk.Paths.{word, num, OscPath}
use oscmix_desk.Registers.{Device}
use oscmix_desk.Model.{
  Route, Links, Cell, input, playback, output, same_claim, validate_route_pan, link_requirements,
  cell_key, checked_pan,
}
use oscmix_desk.Model.Links.{Linked, ClaimsCell}
use oscmix_desk.Model.Balance.{validate_route_pan-Linked, validate_route_pan-agree}
use oscmix_desk.Model.Config.{clear_submixes}
use oscmix_desk.Mirrors.{Mirror}
use oscmix_desk.Base.{BaseEntry, base_entries, declared_links, silent_cells}
use oscmix_desk.Base.Silence.{IsSilent, base_entries-IsSilent}
use oscmix_desk.Examples.Numbers.{ℤ_floats}

abbrev keys_route : Route ℤ
keys_route = record {
  name = b'k' ∷ [];
  output = 1 ∷ 2 ∷ [];
  playback = [];
  level = negsuc 11;
  volume = none;
  stereo = true;
  input = 3 ∷ 4 ∷ [];
  pan = negsuc 19;
  mirror_of = [];
  base = false;
}

-- the same cell again
abbrev synth_route : Route ℤ
synth_route = record keys_route { name = b's' ∷ [] }

abbrev voice_route : Route ℤ
voice_route = record keys_route { name = b'v' ∷ []; playback = 1 ∷ 2 ∷ []; input = []; pan = pos 0 }

abbrev routes : List (Route ℤ)
routes = keys_route ∷ synth_route ∷ voice_route ∷ []

accepted : validate_route_pan routes ≡ ok tt
unfolding validate_route_pan checked_pan lookup insert
accepted = refl

validate_route_pan-Linked_example : (links : Links) × All (Linked links) routes
validate_route_pan-Linked_example =
    validate_route_pan-Linked routes keys_route accepted (inl refl) refl

abbrev pair_cell : Cell
pair_cell = (1, (input, 3))

keys-ClaimsCell : ClaimsCell keys_route pair_cell
unfolding link_requirements cell_key
keys-ClaimsCell = ((input, 3, true), (output, 1, true), refl, refl)

synth-ClaimsCell : ClaimsCell synth_route pair_cell
unfolding link_requirements cell_key
synth-ClaimsCell = ((input, 3, true), (output, 1, true), refl, refl)

validate_route_pan-agree_example :
    (keys_route ≡ synth_route) ⊎ (same_claim keys_route synth_route ≡ true)
validate_route_pan-agree_example =
    validate_route_pan-agree routes keys_route synth_route pair_cell accepted (inl refl)
      (inr (inl refl)) refl keys-ClaimsCell synth-ClaimsCell

-- Outputs 5/6 mirror 1/2, and 7/8 too.
abbrev mirrors : List Mirror
mirrors = (5 ∷ 6 ∷ [], 1 ∷ 2 ∷ []) ∷ (7 ∷ 8 ∷ [], 1 ∷ 2 ∷ []) ∷ []

-- a device of four inputs, two playbacks and two outputs
abbrev device : Device ℤ
device = record {
  key = "small";
  name = "Small";
  usb_id = "0000:0001";
  channels = ("input", 1 ∷ 2 ∷ 3 ∷ 4 ∷ []) ∷ ("playback", 1 ∷ 2 ∷ []) ∷ ("output", 1 ∷ 2 ∷ []) ∷ [];
  registers = [];
  supported = true;
  complete_after_cold_plug = [];
}

-- the paths that the routes write
abbrev declared : List OscPath
declared =
    (word "mix" ∷ num 1 ∷ word "input" ∷ num 3 ∷ [])
    ∷ (word "mix" ∷ num 1 ∷ word "playback" ∷ num 1 ∷ [])
    ∷ []

abbrev links : Links
links = ((input, 3), true) ∷ ((output, 1), true) ∷ ((playback, 1), true) ∷ []

links_declared : declared_links routes [] ≡ ok links
unfolding declared_links link_requirements insert
links_declared = refl

abbrev silenced : List (BaseEntry ℤ)
silenced = silent_cells clear_submixes links declared device

silenced_lem : base_entries clear_submixes routes declared device ≡ ok silenced
unfolding base_entries
silenced_lem = rw links_declared

base_entries-IsSilent_example : All (IsSilent ℤ declared) silenced
base_entries-IsSilent_example =
    base_entries-IsSilent ℤ clear_submixes routes declared device silenced silenced_lem
