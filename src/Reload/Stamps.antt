-- ===== src/Reload/Stamps.antt =====
-- src/oscmix_desk/reload.py: the desk that the watcher asks for, read again when the stamps of its
-- files change. What a check finds on the disk is an argument, and so are the paths of the files.
use oscmix_desk.Common.{
  ℕ, Bool, Option, none, some, List, [], ◌∷◌, map, if◌then◌else◌, ◌==◌, ℕ_eq, pair_eq,
}
use oscmix_desk.Common.Sets.{List_eq}
use oscmix_desk.Common.Sort.{sort_by}
use oscmix_desk.Common.Dict.{Dict}
use oscmix_desk.Osc.Bytes.{Text}
use oscmix_desk.Paths.{text_le}
use oscmix_desk.Model.Config.{Config}
use oscmix_desk.Reload.{Files, desk_in_effect}

-- Where the files of a desk are: the config file, the marker of the active profile, and the path of
-- a name in the folder of the profiles.
pub record Places : Type 0 where
  pub config : Text
  pub marker : Text
  pub profile : Text → Text

-- What a check finds: the time of the last change and the size of a file that can be asked, the
-- names in the folder of the profiles if it can be listed, and what the files hold.
pub record Disk (F : Type 0) : Type 0 where
  pub stat : Text → Option (ℕ × ℕ)
  pub listed : Option (List Text)
  pub files : Files F

-- the stamps of files: path, time of the last change, size
abbrev pub Stamps : Type 0
Stamps = Dict Text (ℕ × ℕ)

module _ {F : Type 0} where
  -- `candidates`
  unfoldable pub candidates : Places → Disk F → List Text
  unfolding sort_by
  candidates places disk =
      places.config
      ∷ places.marker
      ∷ elim disk.listed [ none ↦ [] | some names ↦ sort_by text_le (map places.profile names) ]

  -- the loop over the candidates
  unfoldable pub stats_of : Disk F → List Text → Stamps
  stats_of disk [] = []
  stats_of disk (path ∷ paths) = elim (disk.stat path) [
    | none ↦ stats_of disk paths
    | some stamp ↦ (path, stamp) ∷ stats_of disk paths
  ]

  -- `_files_of`
  unfoldable pub files_of : Places → Disk F → Stamps
  unfolding candidates stats_of
  files_of places disk = stats_of disk (candidates places disk)

-- `last`: the stamps and the desk of the check that read it
pub record WatchedDesk (F : Type 0) : Type 0 where
  pub files : Stamps
  pub desk : Option (Config F)

module _ {F : Type 0} where
  -- what a check compares, and the desk that it would read
  unfoldable pub stamps_at : Option Places → Disk F → Stamps
  unfolding files_of
  stamps_at none disk = []
  stamps_at (some places) disk = files_of places disk

  unfoldable pub desk_at : Config F → Option Places → Bool → Disk F → Option (Config F)
  unfolding desk_in_effect
  desk_at running none strict disk = desk_in_effect running none strict
  desk_at running (some places) strict disk = desk_in_effect running (some disk.files) strict

  unfoldable pub read_again :
      Config F → Option Places → Bool → Disk F → Option (WatchedDesk F) × Option (Config F)
  unfolding stamps_at desk_at
  read_again running places strict disk = (
    some (record { files = stamps_at places disk; desk = desk_at running places strict disk }),
    desk_at running places strict disk,
  )

  -- `current`
  unfoldable pub current :
      Config F
      → Option Places
      → Bool
      → Option (WatchedDesk F)
      → Disk F
      → Option (WatchedDesk F) × Option (Config F)
  unfolding read_again stamps_at
  current running places strict none disk = read_again running places strict disk
  current running places strict (some last) disk =
      if last.files == stamps_at places disk
      then (some last, last.desk)
      else read_again running places strict disk
