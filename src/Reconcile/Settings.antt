-- ===== src/Reconcile/Settings.antt =====
-- src/oscmix_desk/reconcile.py: the settings of channels and families as entries.
use oscmix_desk.Common.{
  String_eq, ℕ, ◌+◌, ◌-◌, true, false, ◌&&◌, Option, none, some, List, [], ◌∷◌, nat_eq,
  if◌then◌else◌, Result, ok, err, ◌>>=◌, ℕ_eq,
}
use oscmix_desk.Common.Int.{ℤ, pos, negsuc, int_eq}
use oscmix_desk.Common.Sets.{List_eq, list_beq}
use oscmix_desk.Common.Decimal.{decimal}
use oscmix_desk.Common.Dict.{lookup}
use oscmix_desk.Floats.{Floats}
use oscmix_desk.Osc.Message.{Value, int, float}
use oscmix_desk.Numeric.{
  PyValue, boolean, value, number_value, report_value, integer, finite, domain_is,
}
use oscmix_desk.Paths.{word, num, OscPath, Segment_eq, ends_with, starts_under}
use oscmix_desk.Registers.{
  Device, Register, is_bool, is_enum, is_number, option_register, option_channels, settable_globals,
}
use oscmix_desk.Model.{DeskError, kind_name, no_such_option, setting_value, is_empty}
use oscmix_desk.Model.Config.{ChannelSetting, GlobalSetting, global_path, words}
use oscmix_desk.Playback.{or_desk}
use oscmix_desk.Reconcile.Entries.{
  Phase, playback_mute_on, autoset_off, channel, autoset_on, playback_mute_off, Entry, tags_float,
}

-- `register.choices.index(name)`
unfoldable pub index_of : List ℕ → List (List ℕ) → Option ℕ
index_of name [] = none
index_of name (choice ∷ choices) =
    if list_beq choice name
    then some 0
    else elim (index_of name choices) [ none ↦ none | some n ↦ some (n + 1) ]

-- `values[position]`
unfoldable pub value_at : List ℤ → ℕ → Option ℤ
value_at [] n = none
value_at (v ∷ vs) n = if nat_eq n 0 then some v else value_at vs (n - 1)

-- the phase of a scalar that goes out as an integer
unfoldable pub scalar_phase : OscPath → ℤ → Phase
scalar_phase path n =
    if starts_under "playback" path && ends_with "mute" path
    then (if int_eq n (pos 0) then playback_mute_off else playback_mute_on)
    else if ends_with "autoset" path
    then (if int_eq n (pos 0) then autoset_off else autoset_on)
    else channel

module _ {F : Type 0} ⦃fl : Floats F⦄ where
  -- `str(value)`
  unfoldable pub shown : PyValue F → List ℕ
  shown (boolean true) = b'T' ∷ b'r' ∷ b'u' ∷ b'e' ∷ []
  shown (boolean false) = b'F' ∷ b'a' ∷ b'l' ∷ b's' ∷ b'e' ∷ []
  shown (value (Value.text name)) = name
  shown (value (int (pos n))) = decimal n
  shown (value (int (negsuc n))) = b'-' ∷ decimal (n + 1)
  shown (value (float x)) = fl.show x

  -- `_enum_value`
  unfoldable pub enum_value : Register F → PyValue F → Result DeskError ℤ
  unfolding index_of value_at shown
  enum_value register v = elim (index_of (shown v) register.choices) [
    | none ↦ err setting_value
    | some n ↦
        if is_empty register.values
        then ok (pos n)
        else elim (value_at register.values n) [ none ↦ err setting_value | some i ↦ ok i ]
  ]

  abbrev scalar : OscPath → List ℕ → Value F → Phase → Entry F
  scalar path tags v phase = record {
    path = path;
    tags = tags;
    args = v ∷ [];
    phase = phase;
    base = false;
    compared = true;
  }

  -- the domain's own check of a setting
  unfoldable pub check_domain : Register F → PyValue F → Result DeskError (Unit {0})
  check_domain register v =
      if domain_is is_number register.domain
      then (or_desk (number_value v register false) setting_value >>= λ _. ok tt)
      else if domain_is is_bool register.domain
      then or_desk (report_value v register) setting_value
      else ok tt

  -- `_encode`
  unfoldable pub encode : OscPath → Register F → PyValue F → Result DeskError (Entry F)
  unfolding enum_value scalar_phase check_domain
  encode path register v =
      if domain_is is_enum register.domain
      then (enum_value register v >>= λ n. ok (scalar path (b'i' ∷ []) (int n) channel))
      else (check_domain register v >>= λ _.
          if tags_float register.tags
          then (or_desk (finite v) setting_value >>= λ x.
              ok (scalar path (b'f' ∷ []) (float x) channel))
          else (or_desk (integer v) setting_value >>= λ n.
              ok (scalar path (b'i' ∷ []) (int n) (scalar_phase path n))))

  -- `channel_entries`
  unfoldable pub channel_entries :
      Device F → List (ChannelSetting F) → Result DeskError (List (Entry F))
  unfolding encode
  channel_entries device [] = ok []
  channel_entries device (s ∷ settings) =
      let rest = channel_entries device settings in
      elim (option_register (some device) (kind_name s.family) s.option s.channel) [
        | none ↦
            if is_empty (option_channels (some device) (kind_name s.family) s.option)
            then rest
            else err no_such_option
        | some register ↦
            encode (word (kind_name s.family) ∷ num s.channel ∷ words s.option) register s.value
            >>= λ entry. rest >>= λ entries. ok (entry ∷ entries)
      ]

  -- `global_entries`
  unfoldable pub global_entries :
      Device F → List (GlobalSetting F) → Result DeskError (List (Entry F))
  unfolding encode
  global_entries device [] = ok []
  global_entries device (s ∷ settings) =
      let rest = global_entries device settings in
      elim (lookup s.option (settable_globals (some device) s.family)) [
        | none ↦ rest
        | some register ↦ encode (global_path s) register s.value >>= λ entry.
            rest >>= λ entries. ok (entry ∷ entries)
      ]
