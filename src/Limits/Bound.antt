-- ===== src/Limits/Bound.antt =====
-- src/oscmix_desk/limits.py: what a plan that is not refused leaves on the device.
use oscmix_desk.Common.{
  refl, suc, ap, ◌⊎◌, ◌%◌, nat_eq, ℕ, ◌≤◌, ◌≡◌, sym, ◌∙◌, subst, inl, inr, true, Option, none, some,
  List, [], arith, ltb, length, ok, ℕ_eq, String_eq, Bool-cases, bind_ok, ok-injective, All, All-In,
}
use oscmix_desk.Common.Int.{ℤ, pos}
use oscmix_desk.Common.Sets.{contains, contains_iff, Distinct, Distinct-length, List_eq}
use oscmix_desk.Floats.{Floats}
use oscmix_desk.Osc.Message.{Value}
use oscmix_desk.Paths.{OscPath, Segment_eq}
use oscmix_desk.Registers.{Device}
use oscmix_desk.Autogain.{Reports}
use oscmix_desk.Model.Config.{Config}
use oscmix_desk.Limits.{
  DspLimits, Values, output_path, on_at, room_channels, problem, found_limits, switches_on,
  observed_values, state_after, linked_lefts, counted_problem, dsp_problem, is_on,
}
use oscmix_desk.Limits.Counted.{room_channels_linked, linked_lefts-contains, room_channels-contains}
use oscmix_desk.Limits.Written.{final_value, written_values_lem, observed_values_lem, reported}

problem_bound :
    (limits : DspLimits) (rooms fed : Values) (linked : List ℕ)
    → problem limits rooms fed linked ≡ none
    → length (room_channels rooms linked) ≤ limits.roomeq_channels
unfolding problem
problem_bound limits rooms fed linked h =
    elim (Bool-cases (ltb limits.roomeq_channels (length (room_channels rooms linked)))) [
      | inl over ↦ cc (rw (problem, over) at h)
      | inr within ↦ ground (arith, within)
    ]

module _ {F : Type 0} ⦃fl : Floats F⦄ where
  -- The register of an output says that it runs Room EQ, behind the writes of a plan over what the
  -- outputs reported.
  abbrev pub RoomEqOn : List (OscPath × List (Value F)) → Reports F → List ℕ → ℕ → Type 0
  RoomEqOn writes observed channels channel =
      (contains channels channel ≡ true)
      × ((n : ℤ) × (final_value writes (output_path "roomeq" channel)
              (reported observed "roomeq" channel)
            ≡ ok n)
          × (is_on n ≡ true))

  -- The same writes leave an output linked to the one behind it.
  abbrev pub LinkedAfter : List (OscPath × List (Value F)) → Reports F → List ℕ → ℕ → Type 0
  LinkedAfter writes observed channels left =
      (contains channels left ≡ true)
      × (nat_eq (left % 2) 1 ≡ true)
      × (final_value writes (output_path "stereo" left) (reported observed "stereo" left)
          ≡ ok (pos 1))

  -- An output runs Room EQ: its own register says so, or it is one of a linked pair and the
  -- register of either side says so.
  abbrev pub RoomEqAfter : List (OscPath × List (Value F)) → Reports F → List ℕ → ℕ → Type 0
  RoomEqAfter writes observed channels channel =
      RoomEqOn writes observed channels channel
      ⊎ ((left : ℕ) × ((channel ≡ left) ⊎ (channel ≡ suc left))
          × LinkedAfter writes observed channels left
          × (RoomEqOn writes observed channels left ⊎ RoomEqOn writes observed channels (suc left)))

  after_on_at :
      (writes : List (OscPath × List (Value F))) (observed : Reports F) (channels : List ℕ)
      (values : Values) (channel : ℕ)
      → state_after writes observed "roomeq" channels ≡ ok values
      → RoomEqOn writes observed channels channel
      → on_at values channel ≡ true
  unfolding state_after
  after_on_at writes observed channels values channel h (m, (n, last, on)) =
      let (k, final, held) =
        written_values_lem writes "roomeq" channels (observed_values observed "roomeq" channels [])
          values channel (reported observed "roomeq" channel) m
          (observed_values_lem observed "roomeq" channels [] channel (inl m)) h in
      let same : n ≡ k = ok-injective (sym last ∙ final) in
      rw (on_at, held) (subst (λ z. is_on z ≡ true) same on)

  linked_after :
      (writes : List (OscPath × List (Value F))) (observed : Reports F) (channels : List ℕ)
      (links : Values) (left : ℕ)
      → state_after writes observed "stereo" channels ≡ ok links
      → LinkedAfter writes observed channels left
      → contains (linked_lefts links) left ≡ true
  unfolding state_after
  linked_after writes observed channels links left h (m, odd, last) =
      let (k, final, held) =
        written_values_lem writes "stereo" channels (observed_values observed "stereo" channels [])
          links left (reported observed "stereo" left) m
          (observed_values_lem observed "stereo" channels [] left (inl m)) h in
      let same : k ≡ pos 1 = ok-injective (sym final ∙ last) in
      linked_lefts-contains links left odd (held ∙ ap some same)

  after_counted :
      (writes : List (OscPath × List (Value F))) (observed : Reports F) (channels : List ℕ)
      (rooms links : Values) (channel : ℕ)
      → state_after writes observed "roomeq" channels ≡ ok rooms
      → state_after writes observed "stereo" channels ≡ ok links
      → RoomEqAfter writes observed channels channel
      → contains (room_channels rooms (linked_lefts links)) channel ≡ true
  after_counted writes observed channels rooms links channel roomed linked (inl own) =
      room_channels-contains rooms (linked_lefts links) channel
        (after_on_at writes observed channels rooms channel roomed own)
  after_counted writes observed channels rooms links channel roomed linked
        (inr (left, side, pair, on)) =
      room_channels_linked rooms (linked_lefts links) left channel
        (linked_after writes observed channels links left linked pair) side
        (elim on [
          | inl odd ↦ rw (after_on_at writes observed channels rooms left roomed odd) refl
          | inr even ↦
              let second = after_on_at writes observed channels rooms (suc left) roomed even in
              ground (arith, second)
        ])

  counted_bound :
      (limits : DspLimits) (channels : List ℕ) (writes : List (OscPath × List (Value F)))
      (observed : Reports F) (cs : List ℕ)
      → counted_problem limits channels writes observed ≡ ok none
      → Distinct cs
      → All (RoomEqAfter writes observed channels) cs
      → length cs ≤ limits.roomeq_channels
  unfolding counted_problem
  counted_bound limits channels writes observed cs h apart on =
      let (rooms, roomed, h1) = bind_ok (state_after writes observed "roomeq" channels) _ h in
      let (fed, _, h2) = bind_ok (state_after writes observed "crossfeed" channels) _ h1 in
      let (links, linked, h3) = bind_ok (state_after writes observed "stereo" channels) _ h2 in
      let few = problem_bound limits rooms fed (linked_lefts links) (ok-injective h3) in
      let fit = Distinct-length cs (room_channels rooms (linked_lefts links)) apart (λ c m.
        after_counted writes observed channels rooms links c roomed linked
          (All-In _ cs c on ((contains_iff cs c).0 m))) in
      omega (arith, few, fit)

  -- When a plan that switches a DSP function on is not refused for a device with documented
  -- limits, no more outputs than the limit run Room EQ behind its writes, by their own register or,
  -- as one of a linked pair, by the register of either side; an output that did not report counts
  -- as off. Any list of distinct outputs that run it is no longer than the limit.
  pub dsp_problem_bound :
      (config : Config F) (device : Option (Device F)) (limits : DspLimits) (channels : List ℕ)
      (writes : List (OscPath × List (Value F))) (observed : Reports F) (cs : List ℕ)
      → found_limits config device ≡ some (limits, channels)
      → switches_on writes channels ≡ ok true
      → dsp_problem config device writes observed ≡ ok none
      → Distinct cs
      → All (RoomEqAfter writes observed channels) cs
      → length cs ≤ limits.roomeq_channels
  unfolding dsp_problem
  dsp_problem_bound config device limits channels writes observed cs found switches h apart on =
      counted_bound limits channels writes observed cs (rw (found, switches, dsp_problem) at h)
        apart on
