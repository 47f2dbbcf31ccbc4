-- ===== src/Model/Config.antt =====
-- src/oscmix_desk/model.py: settings, the machine that a desk is for, and the whole desk.
use oscmix_desk.Common.{
  ℕ, Bool, Option, none, some, List, [], ◌∷◌, ◌++◌, String, if◌then◌else◌, ◌==◌, String_eq,
}
use oscmix_desk.Common.Dict.{Dict}
use oscmix_desk.Numeric.{PyValue}
use oscmix_desk.Paths.{word, OscPath}
use oscmix_desk.Registers.{Policy}
use oscmix_desk.Model.{Route, Kind}

pub record ChannelSetting (F : Type 0) : Type 0 where
  pub family : Kind
  pub channel : ℕ
  -- the option's name, split at its slashes
  pub option : List String
  pub value : PyValue F

pub record GlobalSetting (F : Type 0) : Type 0 where
  pub family : String
  pub option : List String
  pub value : PyValue F

abbrev pub words : List String → OscPath
words [] = []
words (s ∷ ss) = word s ∷ words ss

-- `GlobalSetting.path`
unfoldable pub option_path : String → List String → OscPath
option_path family (s ∷ []) = if s == "enabled" then word family ∷ [] else word family ∷ word s ∷ []
option_path family option = word family ∷ words option

unfoldable pub global_path : {F : Type 0} → GlobalSetting F → OscPath
unfolding option_path
global_path setting = option_path setting.family setting.option

-- `Overrides`
pub record Overrides : Type 0 where
  pub device_name : Option String
  pub osc_port : Option ℕ

-- `Machine`
pub record Machine : Type 0 where
  pub device_name : String
  pub usb_id : String
  pub serial : String
  pub osc_port : ℕ
  pub osc_recv_port : ℕ

-- the settings that select a machine
pub data Identity : Type 0 where
  device_name usb_id serial : Identity

-- `Machine.differs_from`: what it names, instead of the text that names it
unfoldable pub differs_from : Machine → Machine → List Identity
differs_from mine other =
    (if mine.device_name == other.device_name then [] else device_name ∷ [])
    ++ ((if mine.usb_id == other.usb_id then [] else usb_id ∷ [])
        ++ (if mine.serial == other.serial then [] else serial ∷ []))

-- `overrides.device_name or self.device_name`
unfoldable pub or_name : Option String → String → String
or_name none name = name
or_name (some s) name = if s == "" then name else s

-- `Machine.under`
unfoldable pub under : Machine → Overrides → Machine
unfolding or_name
under machine overrides = record machine {
  device_name = or_name overrides.device_name machine.device_name;
  osc_port = elim overrides.osc_port [ none ↦ machine.osc_port | some port ↦ port ];
}

-- `Machine.elsewhere`
unfoldable pub elsewhere : Machine → Machine → List Identity
unfolding differs_from
elsewhere machine live =
    differs_from (if machine.serial == "" then record machine { serial = live.serial } else machine)
      live

-- The values of `[desk] base`.
pub data BaseName : Type 0 where
  keep clear_inputs clear_submixes straight_playback daw : BaseName

-- `Config`
pub record Config (F : Type 0) : Type 0 where
  pub device_name : String
  pub usb_id : String
  pub serial : String
  pub osc_port : ℕ
  pub osc_recv_port : ℕ
  pub routes : List (Route F)
  pub channels : List (ChannelSetting F)
  pub globals : List (GlobalSetting F)
  pub policies : Dict (String × List String) Policy
  pub loaded : Option Machine
  pub overrides : Overrides
  pub base : BaseName
  pub enforce_watch : Bool
  pub peak_safe : Bool
