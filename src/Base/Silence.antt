-- ===== src/Base/Silence.antt =====
-- src/oscmix_desk/base.py: which cells a base silences.
use oscmix_desk.Common.{
  ℕ, ◌≡◌, refl, false, List, [], ◌∷◌, All, All-append, Bool-cases, inl, inr, ok, ok-injective,
  bind_ok,
}
use oscmix_desk.Common.Int.{pos}
use oscmix_desk.Common.Sets.{contains, List_eq}
use oscmix_desk.Floats.{Floats}
use oscmix_desk.Osc.Message.{int, float}
use oscmix_desk.Paths.{OscPath, Segment_eq}
use oscmix_desk.Registers.{Device}
use oscmix_desk.Model.{Kind, output, Route, Links}
use oscmix_desk.Model.Config.{BaseName}
use oscmix_desk.Base.{
  silent_row, silent_block, silent_kind, silent_output, BaseEntry, gather, mix_path, addresses,
  silences, odd_channels, declared_links, silent_cell, silent_cells, base_entries,
}

module _ {A B : Type 0} where
  All-gather :
      (P : B → Type 0) (f : A → List B) (xs : List A)
      → ((x : A) → All P (f x))
      → All P (gather f xs)
  unfolding gather
  All-gather P f [] h = tt
  All-gather P f (x ∷ xs) h = All-append P (f x) (gather f xs) (h x) (All-gather P f xs h)

module _ (F : Type 0) ⦃fl : Floats F⦄ where
  -- A silent cell: the backend's explicit zero, centred, at a register that no route writes.
  abbrev pub IsSilent : List OscPath → BaseEntry F → Type 0
  IsSilent declared entry =
      (contains declared entry.path ≡ false) × (entry.args ≡ float fl.level_min ∷ int (pos 0) ∷ [])

  module _ (links : Links) (declared : List OscPath) where
    silent_cell-IsSilent :
        (out : ℕ) (kind : Kind) (source target channel : ℕ)
        → All (IsSilent declared) (silent_cell links declared out kind source target channel)
    unfolding silent_cell
    silent_cell-IsSilent out kind source target channel =
        elim (Bool-cases (contains declared (mix_path target kind channel))) [
          | inl taken ↦ rw taken tt
          | inr free ↦ rw free ((free, refl), tt)
        ]

    silent_block-IsSilent :
        (out : ℕ) (kind : Kind) (source : ℕ)
        → All (IsSilent declared) (silent_block links declared out kind source)
    unfolding silent_block silent_row
    silent_block-IsSilent out kind source =
        All-gather (IsSilent declared) (silent_row links declared out kind source)
          (addresses links output out)
          λ target.
            All-gather (IsSilent declared) (silent_cell links declared out kind source target)
              (addresses links kind source) (silent_cell-IsSilent out kind source target)

    silent_cells-IsSilent :
        (base : BaseName) (device : Device F)
        → All (IsSilent declared) (silent_cells base links declared device)
    unfolding silent_cells silent_output silent_kind
    silent_cells-IsSilent base device =
        All-gather (IsSilent declared) (silent_output base links declared device)
          (odd_channels device output)
          λ out.
            All-gather (IsSilent declared) (silent_kind links declared device out) (silences base)
              λ kind.
                All-gather (IsSilent declared) (silent_block links declared out kind)
                  (odd_channels device kind) (silent_block-IsSilent out kind)

  -- Every entry of a base writes the silent level and balance 0, at a path that is not among the
  -- declared ones.
  pub base_entries-IsSilent :
      (base : BaseName) (routes : List (Route F)) (declared : List OscPath) (device : Device F)
      (entries : List (BaseEntry F))
      → base_entries base routes declared device ≡ ok entries
      → All (IsSilent declared) entries
  unfolding base_entries
  base_entries-IsSilent base routes declared device entries h =
      let (links, e, h') = bind_ok (declared_links routes []) _ h in
      rw (← ok-injective h') (silent_cells-IsSilent links declared base device)
