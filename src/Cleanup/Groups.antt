-- ===== src/Cleanup/Groups.antt =====
-- `_old_version_candidates`: torrents grouped by distribution and type, newest first; all but the
-- newest of each group are candidates.
use linux_iso_seeder.Base.{
  ℕ, Bool, true, false, ◌&&◌, Option, none, some, List, [], ◌∷◌, ◌++◌, map, if◌then◌else◌, Result,
  ok, raised,
}
use linux_iso_seeder.Base.Text.{Text, same}
use linux_iso_seeder.Base.Float.{Float}
use linux_iso_seeder.Names.{Distro, devuan, is_distro, is_devuan, get_distro}
use linux_iso_seeder.Names.Version.{Version, less_version}
use linux_iso_seeder.Gate.{own_version}

-- `torrent.added_date`: absent or None, a datetime, or a number.
pub data Added (R : Type 0) : Type 0 where
  absent : Added R
  datetime : R → Added R
  number : R → Added R

-- What the program reads of a torrent that Transmission holds; `ratio` may be None or absent.
pub record Torrent (R : Type 0) : Type 0 where
  pub id : ℕ
  pub name : Text
  pub ratio : Option R
  pub added_date : Added R

-- What a group is sorted by: a version, or for Devuan a time.
pub data SortKey (R : Type 0) : Type 0 where
  version : Version → SortKey R
  added : R → SortKey R

abbrev pub GroupKey : Type 0
GroupKey = Distro × Text

unfoldable pub same_group : GroupKey → GroupKey → Bool
same_group (d, t) (e, u) = is_distro d e && same t u

abbrev pub Entry : Type 0 → Type 0
Entry R = SortKey R × Torrent R

module _ (fl : Float) where
  open fl use {F, zero_float, lt}

  -- `float(getattr(torrent, "ratio", 0.0) or 0.0)`
  unfoldable pub ratio_of : Torrent F → F
  ratio_of t = elim t.ratio [ none ↦ zero_float | some r ↦ r ]

  -- `_devuan_sort_key`
  unfoldable pub devuan_sort_key : Added F → F
  devuan_sort_key absent = zero_float
  devuan_sort_key (datetime r) = r
  devuan_sort_key (number r) = r

  -- `k < l`. The keys of a group are of one kind; a version is put below a time to have an order.
  unfoldable pub less_key : SortKey F → SortKey F → Bool
  less_key (version v) (version w) = less_version v w
  less_key (added a) (added b) = lt a b
  less_key (version v) (added b) = true
  less_key (added a) (version w) = false

  -- Where the loop files a torrent: nowhere if its distribution is unknown or its name does not parse.
  unfoldable pub known_entry :
      Torrent F → Distro → Result (Version × Text) → Option (GroupKey × SortKey F)
  known_entry t distro (raised e) = none
  known_entry t distro (ok (v, type)) = some ((distro, type), version v)

  unfoldable pub place : Torrent F → Option (GroupKey × SortKey F)
  unfolding devuan_sort_key known_entry own_version
  place t =
      if is_devuan t.name
      then some ((devuan, []), added (devuan_sort_key t.added_date))
      else elim (get_distro t.name) [
        | none ↦ none
        | some distro ↦ known_entry t distro (own_version t.name distro)
      ]

  abbrev pub Group : Type 0
  Group = GroupKey × List (Entry F)

  -- `groups.setdefault(key, []).append(entry)`
  unfoldable pub file_entry : List Group → GroupKey → Entry F → List Group
  file_entry [] g e = (g, e ∷ []) ∷ []
  file_entry ((h, es) ∷ groups) g e =
      if same_group h g then (h, es ++ e ∷ []) ∷ groups else (h, es) ∷ file_entry groups g e

  unfoldable pub file_torrent : List Group → Torrent F → List Group
  unfolding place file_entry
  file_torrent groups t = elim (place t) [
    | none ↦ groups
    | some (g, k) ↦ file_entry groups g (k, t)
  ]

  unfoldable pub group_torrents : List Group → List (Torrent F) → List Group
  unfolding file_torrent
  group_torrents groups [] = groups
  group_torrents groups (t ∷ ts) = group_torrents (file_torrent groups t) ts

  -- Before the first entry that is not above it.
  unfoldable pub insert_entry : Entry F → List (Entry F) → List (Entry F)
  unfolding less_key
  insert_entry e [] = e ∷ []
  insert_entry e (x ∷ xs) = if less_key e.0 x.0 then x ∷ insert_entry e xs else e ∷ x ∷ xs

  -- `entries.sort(key=..., reverse=True)`, which keeps the order of equal entries.
  unfoldable pub sort_entries : List (Entry F) → List (Entry F)
  unfolding insert_entry
  sort_entries [] = []
  sort_entries (e ∷ es) = insert_entry e (sort_entries es)

  abbrev pub torrent_of : Entry F → Torrent F
  torrent_of e = e.1

  abbrev pub torrents_of : List (Entry F) → List (Torrent F)
  torrents_of = map torrent_of

  abbrev pub tail_of : List (Entry F) → List (Entry F)
  tail_of [] = []
  tail_of (e ∷ es) = es

  -- All but the first of the sorted entries; none of a group with one entry.
  unfoldable pub superseded : List Group → List (Torrent F)
  unfolding sort_entries
  superseded [] = []
  superseded ((g, es) ∷ groups) = torrents_of (tail_of (sort_entries es)) ++ superseded groups

  unfoldable pub old_version_candidates : List (Torrent F) → List (Torrent F)
  unfolding group_torrents superseded
  old_version_candidates torrents = superseded (group_torrents [] torrents)
