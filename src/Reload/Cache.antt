-- ===== src/Reload/Cache.antt =====
-- src/oscmix_desk/reload.py: when the watcher's desk is read again.
use oscmix_desk.Common.{
  ℕ, ◌≡◌, ◌≢◌, refl, sym, ap, ◌∙◌, inl, inr, Bool, false, Option, none, some, List, [], ◌∷◌, map,
  if◌then◌else◌, ◌==◌, ℕ_eq, pair_eq, Bool-cases, Option-cases, subst,
}
use oscmix_desk.Common.Sets.{contains, List_eq}
use oscmix_desk.Common.Sort.{contains-sort_by}
use oscmix_desk.Common.Dict.{lookup}
use oscmix_desk.Paths.{text_le}
use oscmix_desk.Osc.Bytes.{Text}
use oscmix_desk.Model.Config.{Config}
use oscmix_desk.Reload.{desk_in_effect}
use oscmix_desk.Reload.Stamps.{
  Places, Disk, candidates, stats_of, files_of, WatchedDesk, stamps_at, desk_at, read_again,
  current,
}

module _ {F : Type 0} where
  -- The files that a desk is read from: its config, the marker, and the profiles of its folder.
  abbrev pub desk_files : Places → Disk F → List Text
  desk_files places disk =
      places.config
      ∷ places.marker
      ∷ elim disk.listed [ none ↦ [] | some names ↦ map places.profile names ]

  -- What a check sees of a file: its time and size, if it is one of these files and can be asked.
  abbrev pub sees : Places → Disk F → Text → Option (ℕ × ℕ)
  sees places disk path = if contains (desk_files places disk) path then disk.stat path else none

  contains-candidates :
      (places : Places) (disk : Disk F) (path : Text)
      → contains (candidates places disk) path ≡ contains (desk_files places disk) path
  unfolding candidates contains
  contains-candidates places disk path = elim (Option-cases disk.listed) [
    | inl failed ↦ rw failed refl
    | inr (names, listed) ↦
        rw listed (rw (contains-sort_by text_le (map places.profile names) path) refl)
  ]

  stats_of-lookup :
      (disk : Disk F) (paths : List Text) (path : Text)
      → lookup path (stats_of disk paths) ≡ (if contains paths path then disk.stat path else none)
  unfolding stats_of lookup contains
  stats_of-lookup disk [] path = refl
  stats_of-lookup disk (p ∷ paths) path =
      let later = stats_of-lookup disk paths path in
      elim (Option-cases (disk.stat p)) [
        | inl missing ↦
            rw (stats_of, missing)
              (later ∙ elim (Bool-cases (p == path)) [
                | inr other ↦ rw other
                | inl same ↦
                    let gone : disk.stat path ≡ none =
                      subst (λ q. disk.stat q ≡ none) ((List_eq.beq_iff p path).0 same) missing in
                    rw (same, gone)
                      (elim (Bool-cases (contains paths path)) [
                        | inl listed ↦ rw listed
                        | inr absent ↦ rw absent
                      ])
              ])
        | inr (stamp, found) ↦ elim (Bool-cases (p == path)) [
          | inr other ↦ rw (stats_of, found, lookup, other) later
          | inl same ↦
              rw (stats_of, found, lookup, same)
                (sym
                  (subst (λ q. disk.stat q ≡ some stamp) ((List_eq.beq_iff p path).0 same) found))
        ]
      ]

  files_of-sees :
      (places : Places) (disk : Disk F) (path : Text)
      → lookup path (files_of places disk) ≡ sees places disk path
  unfolding files_of
  files_of-sees places disk path =
      stats_of-lookup disk (candidates places disk) path
      ∙ ap (λ b. if b then disk.stat path else none) (contains-candidates places disk path)

  -- A check leaves the stamps of what it found.
  current-stamps :
      (running : Config F) (places : Option Places) (strict : Bool) (last : Option (WatchedDesk F))
      (disk : Disk F)
      → (kept : WatchedDesk F) × ((current running places strict last disk).0 ≡ some kept)
        × (kept.files ≡ stamps_at places disk)
  unfolding current read_again
  current-stamps running places strict none disk = (_, refl, refl)
  current-stamps running places strict (some last) disk =
      elim (Bool-cases (last.files == stamps_at places disk)) [
        | inl same ↦ (last, rw same, (List_eq.beq_iff last.files (stamps_at places disk)).0 same)
        | inr changed ↦
            let again : WatchedDesk F = record {
              files = stamps_at places disk;
              desk = desk_at running places strict disk;
            } in
            (again, rw changed refl, refl)
      ]

  current-changed :
      (running : Config F) (places : Option Places) (strict : Bool) (kept : WatchedDesk F)
      (disk : Disk F)
      → (kept.files == stamps_at places disk) ≡ false
      → (current running places strict (some kept) disk).1 ≡ desk_at running places strict disk
  unfolding current read_again
  current-changed running places strict kept disk changed = rw changed

  -- When a check sees another time or size of a file than the check before it did, or sees it come
  -- or go, be it the config file, the marker of the active profile or a profile, then the desk that
  -- the watcher asks for is the one that the files now put in effect.
  pub current-rereads :
      (running : Config F) (places : Places) (strict : Bool) (last : Option (WatchedDesk F))
      (before now : Disk F) (path : Text)
      → sees places before path ≢ sees places now path
      → (current running
          (some places)
          strict
          (current running (some places) strict last before).0
          now).1
        ≡ desk_in_effect running (some now.files) strict
  unfolding stamps_at desk_at
  current-rereads running places strict last before now path differ =
      let (kept, held, stamped) = current-stamps running (some places) strict last before in
      ap (λ w. (current running (some places) strict w now).1) held
      ∙ current-changed running (some places) strict kept now
          (elim (Bool-cases (kept.files == files_of places now)) [
            | inr changed ↦ changed
            | inl same ↦ absurd (
                differ (
                  sym (files_of-sees places before path)
                  ∙ ap (lookup path)
                      (sym stamped ∙ (List_eq.beq_iff kept.files (files_of places now)).0 same)
                  ∙ files_of-sees places now path))
          ])
