-- ===== src/Registers.antt =====
-- src/oscmix_desk/registers.py: what a register is, and the questions a device's table answers.
use oscmix_desk.Common.{
  ℕ, Bool, true, false, ◌&&◌, ◌||◌, Option, none, some, List, [], ◌∷◌, ◌++◌, map, String, leb,
  if◌then◌else◌, ◌==◌, String_eq, ℕ_eq,
}
use oscmix_desk.Common.Int.{ℤ}
use oscmix_desk.Common.Sets.{contains, List_eq}
use oscmix_desk.Common.Sort.{sort_by, dedup}
use oscmix_desk.Common.Dict.{Dict, lookup, insert}
use oscmix_desk.Paths.{word, num, OscPath}

pub data VerifyClass : Type 0 where
  verifiable write_only reestablished : VerifyClass

pub data Policy : Type 0 where
  pin remember : Policy

pub data Domain : Type 0 where
  is_bool is_enum is_number : Domain

-- a segment of a template: a word, or a placeholder such as `{ch}`
pub data Part : Type 0 where
  literal : String → Part
  hole : String → Part

abbrev pub part_beq : Part → Part → Bool
part_beq (literal s) (literal t) = s == t
part_beq (hole s) (hole t) = s == t
part_beq (literal _) (hole _) = false
part_beq (hole _) (literal _) = false

unfoldable pub template_beq : List Part → List Part → Bool
template_beq [] [] = true
template_beq (p ∷ ps) (q ∷ qs) = part_beq p q && template_beq ps qs
template_beq _ _ = false

-- `Register`
pub record Register (F : Type 0) : Type 0 where
  pub template : List Part
  pub tags : List ℕ
  pub verify : VerifyClass
  pub channels : String
  pub domain : Option Domain
  pub choices : List (List ℕ)
  pub values : List ℤ
  pub lo : Option F
  pub hi : Option F
  pub unit : String
  pub policy : Policy
  pub scale : Option F
  pub truncates : Bool
  pub mix_level : Bool

-- `Device`
pub record Device (F : Type 0) : Type 0 where
  pub key : String
  pub name : String
  pub usb_id : String
  pub channels : Dict String (List ℕ)
  pub registers : List (Register F)
  pub supported : Bool
  pub complete_after_cold_plug : List (List Part)

abbrev pub has_domain : {F : Type 0} → Register F → Bool
has_domain r = elim r.domain [ none ↦ false | some _ ↦ true ]

-- `_matches`
unfoldable pub template_matches : List Part → OscPath → Bool
template_matches [] [] = true
template_matches (literal s ∷ parts) (word t ∷ path) = s == t && template_matches parts path
template_matches (hole _ ∷ parts) (num _ ∷ path) = template_matches parts path
template_matches _ _ = false

-- `_channel_in`
unfoldable pub channel_in : List Part → OscPath → Option ℕ
channel_in (hole _ ∷ parts) (num n ∷ path) = some n
channel_in (_ ∷ parts) (_ ∷ path) = channel_in parts path
channel_in _ _ = none

unfoldable pub any_template : List (List Part) → OscPath → Bool
unfolding template_matches
any_template [] path = false
any_template (t ∷ ts) path = template_matches t path || any_template ts path

-- `"{ch}" in template`
unfoldable pub has_channel_hole : List Part → Bool
has_channel_hole [] = false
has_channel_hole (p ∷ ps) = part_beq p (hole "ch") || has_channel_hole ps

module _ {F : Type 0} where
  unfoldable pub channels_for : Device F → String → List ℕ
  channels_for device capability = elim (lookup capability device.channels) [
    | none ↦ []
    | some channels ↦ channels
  ]

  unfoldable pub has : Device F → String → ℕ → Bool
  unfolding channels_for
  has device capability channel = contains (channels_for device capability) channel

  -- `Register.per_channel`
  unfoldable pub per_channel : Register F → Bool
  unfolding has_channel_hole
  per_channel r = has_channel_hole r.template

  -- the first row whose template a path is an instance of
  unfoldable pub first_match : List (Register F) → OscPath → Option (Register F)
  unfolding template_matches
  first_match [] path = none
  first_match (r ∷ rs) path =
      if template_matches r.template path then some r else first_match rs path

  unfoldable pub register_policy : Option (Device F) → OscPath → Policy
  unfolding first_match
  register_policy none path = remember
  register_policy (some device) path = elim (first_match device.registers path) [
    | none ↦ remember
    | some r ↦ r.policy
  ]

  unfoldable pub verify_class : Option (Device F) → OscPath → Option VerifyClass
  unfolding first_match
  verify_class none path = none
  verify_class (some device) path = elim (first_match device.registers path) [
    | none ↦ none
    | some r ↦ some r.verify
  ]

  -- the channel that a path names is one that the row has
  unfoldable pub names_channel : Device F → Register F → OscPath → Bool
  unfolding channel_in has
  names_channel device r path = elim (channel_in r.template path) [
    | none ↦ true
    | some channel ↦ has device r.channels channel
  ]

  unfoldable pub find_register : Device F → List (Register F) → OscPath → Option (Register F)
  unfolding template_matches names_channel
  find_register device [] path = none
  find_register device (r ∷ rs) path =
      if template_matches r.template path && names_channel device r path
      then some r
      else find_register device rs path

  unfoldable pub register_at : Option (Device F) → OscPath → Option (Register F)
  unfolding find_register
  register_at none path = none
  register_at (some device) path = find_register device device.registers path

  unfoldable pub cold_plug_complete : Option (Device F) → OscPath → Bool
  unfolding any_template
  cold_plug_complete none path = false
  cold_plug_complete (some device) path = any_template device.complete_after_cold_plug path

-- `"/%s/{ch}/%s" % (family, option)`, the option split at its slashes
unfoldable pub option_template : String → List String → List Part
option_template family option = literal family ∷ hole "ch" ∷ map literal option

unfoldable pub part_words : List Part → List String
part_words [] = []
part_words (literal t ∷ ps) = t ∷ part_words ps
part_words (hole t ∷ ps) = t ∷ part_words ps

-- what a template names below a family, `enabled` for the family's own register
unfoldable pub option_under : String → List Part → Option (List String)
unfolding part_words
option_under family (literal s ∷ []) = if s == family then some ("enabled" ∷ []) else none
option_under family (literal s ∷ rest) = if s == family then some (part_words rest) else none
option_under family _ = none

module _ {F : Type 0} where
  unfoldable pub find_option : Device F → List (Register F) → List Part → ℕ → Option (Register F)
  unfolding template_beq has
  find_option device [] template channel = none
  find_option device (r ∷ rs) template channel =
      if template_beq r.template template && (has_domain r && has device r.channels channel)
      then some r
      else find_option device rs template channel

  unfoldable pub option_register :
      Option (Device F) → String → List String → ℕ → Option (Register F)
  unfolding find_option option_template
  option_register none family option channel = none
  option_register (some device) family option channel =
      find_option device device.registers (option_template family option) channel

  unfoldable pub option_rows : Device F → List (Register F) → List Part → List ℕ
  unfolding template_beq channels_for
  option_rows device [] template = []
  option_rows device (r ∷ rs) template =
      let rest = option_rows device rs template in
      if template_beq r.template template && has_domain r
      then channels_for device r.channels ++ rest
      else rest

  unfoldable pub option_channels : Option (Device F) → String → List String → List ℕ
  unfolding option_rows option_template sort_by dedup
  option_channels none family option = []
  option_channels (some device) family option =
      sort_by leb (dedup (option_rows device device.registers (option_template family option)))

  -- one row of `settable_globals`
  unfoldable pub add_global :
      String → Register F → Dict (List String) (Register F) → Dict (List String) (Register F)
  unfolding option_under
  add_global family r found =
      if (r.channels == "global") && has_domain r
      then elim (option_under family r.template) [
        | none ↦ found
        | some option ↦ insert option r found
      ]
      else found

  unfoldable pub scan_globals :
      String → List (Register F) → Dict (List String) (Register F) → Dict (List String) (Register F)
  unfolding add_global
  scan_globals family [] found = found
  scan_globals family (r ∷ rs) found = scan_globals family rs (add_global family r found)

  unfoldable pub settable_globals : Option (Device F) → String → Dict (List String) (Register F)
  unfolding scan_globals
  settable_globals none family = []
  settable_globals (some device) family = scan_globals family device.registers []
