-- ===== src/Reconcile/Apply.antt =====
-- src/oscmix_desk/reconcile.py: which of the desired writes an operation may send. A set of paths
-- is the list of its elements.
pub mod Inversion
pub mod Retention
pub mod Unmute
use oscmix_desk.Common.{
  ℕ, ◌+◌, Bool, true, false, not, ◌&&◌, ◌||◌, Option, none, some, List, [], ◌∷◌, ◌++◌, nat_eq,
  if◌then◌else◌, Result, ok, err, ◌>>=◌, ◌>>◌, require, String, ℕ_eq, String_eq, pair_eq,
}
use oscmix_desk.Common.Int.{ℤ, pos, int_eq}
use oscmix_desk.Common.Sets.{contains, intersects, is_subset, List_eq}
use oscmix_desk.Common.Sort.{sort_by, dedup}
use oscmix_desk.Common.Dict.{Dict, lookup}
use oscmix_desk.Floats.{Floats}
use oscmix_desk.Osc.Message.{Value, int, float, text}
use oscmix_desk.Paths.{Segment, word, num, OscPath, Segment_eq, path_le, starts_under}
use oscmix_desk.Registers.{Device, Policy, pin, remember, register_policy}
use oscmix_desk.Model.{DeskError, Route, unmute_bypass, index_error, is_empty}
use oscmix_desk.Model.Config.{Config}
use oscmix_desk.Playback.{mute_path, pair_left, declared_mutes, retained_pairs}
use oscmix_desk.Autogain.{Reports, retained_gains}
use oscmix_desk.Reconcile.Entries.{
  Send, Entry, Phase, phase_beq, playback_mute_on, playback_mute_off, link, mix, link_messages,
  mix_messages,
}
use oscmix_desk.Reconcile.Desired.{desired}
use oscmix_desk.Reconcile.Compare.{Write, Plan, prerequisite, write_le, plan}

-- `ApplyIntent`
pub data ApplyIntent : Type 0 where
  initial explicit repair reconcile : ApplyIntent

-- `ApplyIntent.preserves_remember`
unfoldable pub preserves_remember : ApplyIntent → Bool
preserves_remember initial = false
preserves_remember explicit = false
preserves_remember repair = true
preserves_remember reconcile = true

abbrev pub Policies : Type 0
Policies = Dict (String × List String) Policy

-- the desk's own policy for a path of three segments
unfoldable pub policy_override : OscPath → Policies → Option Policy
policy_override (word family ∷ _ ∷ word option ∷ []) overrides =
    lookup (family, option ∷ []) overrides
policy_override _ overrides = none

abbrev pub is_pin : Policy → Bool
is_pin pin = true
is_pin remember = false

module _ {F : Type 0} where
  -- `policy_for`
  unfoldable pub policy_for : OscPath → Option (Device F) → Policies → Policy
  unfolding policy_override register_policy
  policy_for path device overrides = elim (policy_override path overrides) [
    | none ↦ register_policy device path
    | some policy ↦ policy
  ]

  -- an entry that a later operation leaves as it is
  unfoldable pub is_remembered : Option (Device F) → Policies → Entry F → Bool
  unfolding policy_for
  is_remembered device overrides e = e.base || not (is_pin (policy_for e.path device overrides))

  unfoldable pub remembered_entries : Option (Device F) → Policies → List (Entry F) → List OscPath
  unfolding is_remembered
  remembered_entries device overrides [] = []
  remembered_entries device overrides (e ∷ es) =
      let rest = remembered_entries device overrides es in
      if is_remembered device overrides e then e.path ∷ rest else rest

  -- the link entries that are confirmed already
  unfoldable pub confirmed_links : List OscPath → List (Entry F) → List OscPath
  confirmed_links confirmed [] = []
  confirmed_links confirmed (e ∷ es) =
      let rest = confirmed_links confirmed es in
      if phase_beq e.phase link && contains confirmed e.path then e.path ∷ rest else rest

  -- the paths of the messages that a test of their path accepts
  unfoldable pub send_paths : (OscPath → Bool) → List (Send F) → List OscPath
  send_paths accepts [] = []
  send_paths accepts ((path, _, _) ∷ sends) =
      let rest = send_paths accepts sends in if accepts path then path ∷ rest else rest

  -- the entries whose path is not in `skip`
  unfoldable pub without : List OscPath → List (Entry F) → List (Entry F)
  without skip [] = []
  without skip (e ∷ es) =
      let rest = without skip es in if contains skip e.path then rest else e ∷ rest

  -- the writes whose phase a test accepts
  unfoldable pub in_phases : (Phase → Bool) → List (Write F) → List (Write F)
  in_phases accepts [] = []
  in_phases accepts (w ∷ ws) =
      let rest = in_phases accepts ws in if accepts w.phase then w ∷ rest else rest

  unfoldable pub write_paths : List (Write F) → List OscPath
  write_paths [] = []
  write_paths (w ∷ ws) = w.path ∷ write_paths ws

abbrev pub any_path : OscPath → Bool
any_path _ = true

-- the release of a mute; the phases of a matrix repair, with those that an owned mute adds
abbrev pub is_release : Phase → Bool
is_release phase = phase_beq phase playback_mute_off

abbrev pub is_mute_phase : Phase → Bool
is_mute_phase phase = phase_beq phase playback_mute_on || phase_beq phase playback_mute_off

abbrev pub repairs : Bool → Phase → Bool
repairs owned phase = phase_beq phase mix || owned && (is_mute_phase phase || phase_beq phase link)

abbrev pub sorted_set : List OscPath → List OscPath
sorted_set paths = sort_by path_le (dedup paths)

unfoldable pub playback_stereo : ℕ → OscPath
playback_stereo channel = word "playback" ∷ num channel ∷ word "stereo" ∷ []

-- both mute flags and both link flags of each pair
unfoldable pub pair_flags : List ℕ → List OscPath
unfolding mute_path playback_stereo
pair_flags [] = []
pair_flags (left ∷ pairs) =
    mute_path left
    ∷ mute_path (left + 1)
    ∷ playback_stereo left
    ∷ playback_stereo (left + 1)
    ∷ pair_flags pairs

unfoldable pub in_pairs : List ℕ → ℕ → Bool
in_pairs [] channel = false
in_pairs (left ∷ pairs) channel =
    nat_eq channel left || (nat_eq channel (left + 1) || in_pairs pairs channel)

unfoldable pub touches_pair : List ℕ → List ℕ → Bool
unfolding in_pairs
touches_pair pairs [] = false
touches_pair pairs (channel ∷ channels) = in_pairs pairs channel || touches_pair pairs channels

module _ {F : Type 0} where
  -- the output links of the routes that are not confirmed
  unfoldable pub output_links : List OscPath → List (Route F) → Result DeskError (List OscPath)
  unfolding send_paths
  output_links confirmed [] = ok []
  output_links confirmed (route ∷ routes) = do
    links ← link_messages route
    rest ← output_links confirmed routes
    ok (
        send_paths (λ path. starts_under "output" path && not (contains confirmed path)) links
        ++ rest)

module _ {F : Type 0} ⦃fl : Floats F⦄ where
  -- the matrix and volume writes of the routes that touch a pair or need a protected link
  unfoldable pub protected_mixes :
      List ℕ → List (Route F) → List OscPath → Result DeskError (List OscPath)
  unfolding send_paths touches_pair
  protected_mixes pairs [] protected = ok protected
  protected_mixes pairs (route ∷ routes) protected = do
    links ← link_messages route
    more ←
        (if touches_pair pairs route.playback || intersects (send_paths any_path links) protected
          then (mix_messages route >>= λ sends. ok (send_paths any_path sends))
          else ok [])
    protected_mixes pairs routes (protected ++ more)

  -- `protected_entries`
  unfoldable pub protected_entries :
      Config F → List OscPath → List OscPath → Result DeskError (List OscPath)
  unfolding output_links protected_mixes pair_flags
  protected_entries config retained confirmed =
      if is_empty (retained_pairs retained) then ok [] else (do
        links ← output_links confirmed config.routes
        protected ←
            protected_mixes (retained_pairs retained) config.routes
              (pair_flags (retained_pairs retained) ++ links)
        ok (sorted_set protected))

  -- `remembered_paths`
  unfoldable pub remembered_paths :
      Config F → Option (Device F) → Reports F → List OscPath → Result DeskError (List OscPath)
  unfolding remembered_entries
  remembered_paths config device observed linked = do
    entries ← desired config device
    ok (
        sorted_set (
          remembered_entries device config.policies entries
          ++ retained_gains config device observed linked true))

  -- `entry.args == (1,)`
  abbrev pub is_one : List (Value F) → Bool
  is_one (int n ∷ []) = int_eq n (pos 1)
  is_one (float x ∷ []) = fl.eq x fl.one
  is_one _ = false

  -- the links that the operation would set
  unfoldable pub linking : List OscPath → List (Entry F) → List OscPath
  linking skip [] = []
  linking skip (e ∷ es) =
      let rest = linking skip es in
      if phase_beq e.phase link && (not (contains skip e.path) && is_one e.args)
      then e.path ∷ rest
      else rest

  -- the matrix writes, and the links, of the routes from a pair
  unfoldable pub required_of : List (Route F) → ℕ → Result DeskError (List OscPath × List OscPath)
  unfolding send_paths
  required_of [] left = ok ([], [])
  required_of (route ∷ routes) left = do
    (required, links) ← required_of routes left
    if intersects route.playback (left ∷ (left + 1) ∷ [])
        then (do
          sends ← mix_messages route
          own ← link_messages route
          ok (send_paths (starts_under "mix") sends ++ required, send_paths any_path own ++ links))
        else ok (required, links)

abbrev pub is_zero : Option ℤ → Bool
is_zero none = false
is_zero (some n) = int_eq n (pos 0)

-- `int(path.split("/")[2])`
unfoldable pub channel_of : OscPath → Result DeskError ℕ
channel_of (_ ∷ num channel ∷ _) = ok channel
channel_of _ = err index_error

module _ {F : Type 0} where
  -- the visible ON before a release
  unfoldable pub mute_before : Write F → Write F
  mute_before w = record {
    path = w.path;
    tags = b'i' ∷ [];
    args = int (pos 1) ∷ [];
    phase = playback_mute_on;
    reason = prerequisite;
  }

-- both flags are off in the desk, and nothing that the release needs is omitted
unfoldable pub may_release :
    Dict ℕ ℤ → List OscPath → List OscPath → ℕ → List OscPath → List OscPath → Bool
may_release mutes paths confirmed left required links =
    (is_zero (lookup left mutes) && is_zero (lookup (left + 1) mutes))
    && (is_subset (mute_path left ∷ mute_path (left + 1) ∷ required) paths
        && is_subset links (paths ++ confirmed))

module _ {F : Type 0} ⦃fl : Floats F⦄ where
  -- one released mute
  unfoldable pub release :
      Config F → Dict ℕ ℤ → List OscPath → List OscPath → Write F → Result DeskError (Write F)
  unfolding channel_of required_of may_release mute_before
  release config mutes paths confirmed w = do
    channel ← channel_of w.path
    (required, links) ← required_of config.routes (pair_left channel)
    require (may_release mutes paths confirmed (pair_left channel) required links) unmute_bypass
    ok (mute_before w)

  unfoldable pub releases :
      Config F
      → Dict ℕ ℤ
      → List OscPath
      → List OscPath
      → List (Write F)
      → Result DeskError (List (Write F))
  unfolding release
  releases config mutes paths confirmed [] = ok []
  releases config mutes paths confirmed (w ∷ ws) = do
    before ← release config mutes paths confirmed w
    rest ← releases config mutes paths confirmed ws
    ok (before ∷ rest)

  -- `_playback_prerequisites`
  unfoldable pub playback_prerequisites :
      Config F → Plan F → List OscPath → List OscPath → Result DeskError (Plan F)
  unfolding releases in_phases write_paths
  playback_prerequisites config selected retained confirmed = do
    mutes ← declared_mutes config
    before ←
        releases config mutes (write_paths selected.writes) confirmed
          (in_phases is_release selected.writes)
    ok (record {
      writes = sort_by write_le (before ++ selected.writes);
      confirmed = selected.confirmed;
      unverifiable = selected.unverifiable;
      retained = sorted_set retained;
    })

  -- what an operation skips before the indirect paths are added
  unfoldable pub skipped :
      Config F
      → Option (Device F)
      → ApplyIntent
      → List OscPath
      → List OscPath
      → Reports F
      → List (Entry F)
      → Result DeskError (List OscPath)
  unfolding confirmed_links linking remembered_paths preserves_remember
  skipped config device intent leave_alone confirmed observed entries =
      let skip = leave_alone ++ confirmed_links confirmed entries in
      if preserves_remember intent
      then (do
        kept ← remembered_paths config device observed (linking skip entries)
        ok (skip ++ kept))
      else ok leave_alone

  -- `application_plan`
  unfoldable pub application_plan :
      Config F
      → Option (Device F)
      → ApplyIntent
      → List OscPath
      → List OscPath
      → Reports F
      → Result DeskError (Plan F)
  unfolding skipped protected_entries without playback_prerequisites
  application_plan config device intent leave_alone confirmed observed = do
    entries ← desired config device
    skip ← skipped config device intent leave_alone confirmed observed entries
    protected ← protected_entries config skip confirmed
    playback_prerequisites config (plan (without (skip ++ protected) entries) none none none)
        (skip ++ protected) confirmed

  -- `matrix_repair_plan`
  unfoldable pub matrix_repair_plan :
      Config F → Option (Device F) → List OscPath → Reports F → Result DeskError (Plan F)
  unfolding application_plan in_phases
  matrix_repair_plan config device confirmed observed = do
    wanted ← application_plan config device repair [] confirmed observed
    ok (record wanted {
      writes =
          in_phases (repairs (not (is_empty (in_phases is_mute_phase wanted.writes))))
            wanted.writes;
    })
