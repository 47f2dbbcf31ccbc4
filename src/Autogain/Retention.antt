-- ===== src/Autogain/Retention.antt =====
-- src/oscmix_desk/autogain.py: when an operation may write an input gain.
use oscmix_desk.Common.{
  ℕ, ◌+◌, ◌≡◌, refl, ap, Bool, true, false, not, ◌||◌, ◌&&◌, Option, none, some, List, [], ◌∷◌,
  ◌++◌, arith, In, In-append_left, In-append_right, ◌⊎◌, inl, inr, Bool-cases, if◌then◌else◌, ℕ_eq,
}
use mathlib.Core.Path.{subst}
use oscmix_desk.Common.Int.{ℤ, pos, int_eq, int_eq_iff}
use oscmix_desk.Common.Sets.{contains, contains_iff, List_eq}
use oscmix_desk.Common.Dict.{lookup}
use oscmix_desk.Floats.{Floats}
use oscmix_desk.Paths.{OscPath, Segment_eq}
use oscmix_desk.Registers.{Device}
use oscmix_desk.Model.Config.{Config}
use oscmix_desk.Autogain.{
  Reports, flag_value, is_off, pairs, input_path, gain_paths, declared_on, is_protected,
  may_be_linked, protected_of, retained_of, retained_gains,
}

gain_paths-In :
    (channel : ℕ) (channels : List ℕ)
    → In channel channels
    → In (input_path channel "gain") (gain_paths channels)
unfolding gain_paths
gain_paths-In channel [] m = absurd m
gain_paths-In channel (c ∷ cs) (inl same) = inl (ap (λ k. input_path k "gain") same)
gain_paths-In channel (c ∷ cs) (inr m) = inr (gain_paths-In channel cs m)

off_value : (o : Option ℤ) → not (is_off o) ≡ false → o ≡ some (pos 0)
off_value none h = cc
off_value (some n) h = elim (Bool-cases (int_eq n (pos 0))) [
  | inl zero_flag ↦ ap some ((int_eq_iff n (pos 0)).0 zero_flag)
  | inr other ↦ cc (rw other at h)
]

or_false_parts : (a b : Bool) → a || b ≡ false → (a ≡ false) × (b ≡ false)
or_false_parts a b h = ground (arith, Bool-cases a, Bool-cases b)

-- The channels of a pair that are protected, from the flags of both and of their link.
abbrev chosen : Bool → Bool → Bool → ℕ → List ℕ
chosen odd even linked left =
    if (odd || even) && linked
    then left ∷ (left + 1) ∷ []
    else (if odd then left ∷ [] else []) ++ (if even then (left + 1) ∷ [] else [])

abbrev Free : Bool → Bool → Bool → ℕ → ℕ → Type 0
Free odd even linked left channel =
    (((left ≡ channel) × (odd ≡ false)) ⊎ ((left + 1 ≡ channel) × (even ≡ false)))
    × ((linked ≡ false) ⊎ ((odd ≡ false) × (even ≡ false)))

chosen-Free :
    (odd even linked : Bool) (left channel : ℕ)
    → In channel (left ∷ (left + 1) ∷ [])
    → (In channel (chosen odd even linked left) → ⊥)
    → Free odd even linked left channel
chosen-Free true true true left channel m free = absurd (free m)
chosen-Free true false true left channel m free = absurd (free m)
chosen-Free false true true left channel m free = absurd (free m)
chosen-Free true true false left channel m free = absurd (free m)
chosen-Free false false linked left channel (inl e) free = (inl (e, refl), inr (refl, refl))
chosen-Free false false linked left channel (inr (inl e)) free = (inr (e, refl), inr (refl, refl))
chosen-Free true false false left channel (inl e) free = absurd (free (inl e))
chosen-Free true false false left channel (inr (inl e)) free = (inr (e, refl), inl refl)
chosen-Free false true false left channel (inl e) free = (inl (e, refl), inl refl)
chosen-Free false true false left channel (inr (inl e)) free = absurd (free (inl e))
chosen-Free false false linked left channel (inr (inr none_left)) free = absurd none_left
chosen-Free false true false left channel (inr (inr none_left)) free = absurd none_left
chosen-Free true false false left channel (inr (inr none_left)) free = absurd none_left

module _ {F : Type 0} ⦃fl : Floats F⦄ (on : List ℕ) (reports : Reports F)
    (planned : List OscPath) where
  -- What is reported off, and declared on nowhere, leaves its gain free.
  abbrev pub Unowned : ℕ → Type 0
  Unowned channel =
      (contains on channel ≡ false)
      × (flag_value (lookup (input_path channel "autoset") reports) ≡ some (pos 0))

  -- No link that is there or planned joins the pair.
  abbrev pub Unlinked : ℕ → Type 0
  Unlinked left =
      (contains planned (input_path left "stereo") ≡ false)
      × (flag_value (lookup (input_path left "stereo") reports) ≡ some (pos 0))

  is_protected-Unowned : (channel : ℕ) → is_protected on reports channel ≡ false → Unowned channel
  unfolding is_protected
  is_protected-Unowned channel h =
      let (undeclared, off) =
        or_false_parts (contains on channel)
          (not (is_off (flag_value (lookup (input_path channel "autoset") reports)))) h in
      (undeclared, off_value _ off)

  may_be_linked-Unlinked : (left : ℕ) → may_be_linked planned reports left ≡ false → Unlinked left
  unfolding may_be_linked
  may_be_linked-Unlinked left h =
      let (unplanned, off) =
        or_false_parts (contains planned (input_path left "stereo"))
          (not (is_off (flag_value (lookup (input_path left "stereo") reports)))) h in
      (unplanned, off_value _ off)

  -- A channel of a pair that is not protected is unowned, and so is its partner if they may be
  -- linked.
  protected_of-free :
      (left channel : ℕ)
      → In channel (left ∷ (left + 1) ∷ [])
      → (In channel (protected_of on reports planned left) → ⊥)
      → Unowned channel × (Unlinked left ⊎ (Unowned left × Unowned (left + 1)))
  unfolding protected_of
  protected_of-free left channel m free =
      let (own, joint) =
        chosen-Free (is_protected on reports left) (is_protected on reports (left + 1))
          (may_be_linked planned reports left) left channel m free in
      (
        elim own [
          | inl (e, f) ↦ subst Unowned e (is_protected-Unowned left f)
          | inr (e, f) ↦ subst Unowned e (is_protected-Unowned (left + 1) f)
        ],
        elim joint [
          | inl f ↦ inl (may_be_linked-Unlinked left f)
          | inr (f, g) ↦ inr (is_protected-Unowned left f, is_protected-Unowned (left + 1) g)
        ],
      )

  retained_of-In :
      (lefts : List ℕ) (left channel : ℕ)
      → In left lefts
      → In channel (protected_of on reports planned left)
      → In (input_path channel "gain") (retained_of on reports planned lefts)
  unfolding retained_of
  retained_of-In [] left channel m p = absurd m
  retained_of-In (x ∷ xs) left channel (inl same) p =
      In-append_left (input_path channel "gain") _ _
        (rw (← same) at (gain_paths-In channel (protected_of on reports planned left) p))
  retained_of-In (x ∷ xs) left channel (inr m) p =
      In-append_right (input_path channel "gain") (gain_paths (protected_of on reports planned x)) _
        (retained_of-In xs left channel m p)

module _ {F : Type 0} ⦃fl : Floats F⦄ where
  -- Where the desk's declarations count, a gain of a pair with AutoSet is left free only if the
  -- desk does not declare AutoSet on for its channel, the last report says that it is off, and
  -- either no link of the pair is planned and the last report says that there is none, or AutoSet is
  -- off in the same way for both channels.
  pub retained_gains_free :
      (config : Config F) (device : Option (Device F)) (reports : Reports F)
      (planned : List OscPath) (left channel : ℕ)
      → In left (pairs config device)
      → In channel (left ∷ (left + 1) ∷ [])
      → contains (retained_gains config device reports planned true) (input_path channel "gain")
        ≡ false
      → Unowned (declared_on config.channels) reports planned channel
        × (Unlinked (declared_on config.channels) reports planned left
            ⊎ (Unowned (declared_on config.channels) reports planned left
                × Unowned (declared_on config.channels) reports planned (left + 1)))
  unfolding retained_gains
  retained_gains_free config device reports planned left channel m c h =
      protected_of-free (declared_on config.channels) reports planned left channel c λ p. cc (
        h,
        (contains_iff (retained_gains config device reports planned true)
              (input_path channel "gain")).1
            (retained_of-In (declared_on config.channels) reports planned (pairs config device) left
              channel m p),
      )
