-- ===== src/Gate.antt =====
-- fetch_torrents.py: the ratio gate, which lets a new release in once the one before it was seeded.
pub mod Recorded
pub mod Newest
pub mod Decision
pub mod Devuan
use linux_iso_seeder.Base.{
  ℕ, Bool, true, false, ◌&&◌, ◌||◌, not, Option, none, some, List, [], ◌∷◌, ◌++◌, if◌then◌else◌,
  any, Result, ok, raised, ◌>>=◌,
}
use linux_iso_seeder.Base.Text.{Text, same}
use linux_iso_seeder.Base.Dict
use linux_iso_seeder.Base.Dict.{Dict}
use linux_iso_seeder.Base.Float.{Float, ge}
use linux_iso_seeder.Names.{Distro, is_distro, is_devuan, get_distro, parse_version_type}
use linux_iso_seeder.Names.Version.{Version, version_to_tuple, same_version, less_version}

-- An entry of the removed history; `ratio` is missing from files of an older release.
pub record Removed (R : Type 0) : Type 0 where
  pub removed_date : Text
  pub reason : Text
  pub ratio : Option R

-- `version_to_tuple(v_str)` where an exception leaves the entry out.
unfoldable pub ok_version : Result Version → Option Version
ok_version (ok v) = some v
ok_version (raised e) = none

unfoldable pub version_of_type : Text → Result (Text × Text) → Option Version
unfolding ok_version
version_of_type type (raised e) = none
version_of_type type (ok (v_str, t)) =
    if same t type then ok_version (version_to_tuple v_str) else none

-- The version of a stored name, if it is a release of the distribution and the type: the test and
-- the `try` block of both loops.
unfoldable pub entry_version : Distro → Text → Text → Option Version
unfolding version_of_type
entry_version distro type name = elim (get_distro name) [
  | none ↦ none
  | some d ↦ if is_distro d distro then version_of_type type (parse_version_type name d) else none
]

-- The version and the type of the name that is to be fetched.
unfoldable pub own_version : Text → Distro → Result (Version × Text)
own_version name distro = do
  (version_str, type) ← parse_version_type name distro
  version ← version_to_tuple version_str
  ok (version, type)

-- `max(versions)`
unfoldable pub max_version : Version → List Version → Version
max_version v [] = v
max_version v (w ∷ ws) = max_version (if less_version v w then w else v) ws

module _ {R : Type 0} where
  -- A dict keyed by versions.
  unfoldable pub get_version : List (Version × R) → Version → Option R
  get_version [] v = none
  get_version ((w, r) ∷ d) v = if same_version w v then some r else get_version d v

  unfoldable pub put_version : List (Version × R) → Version → R → List (Version × R)
  put_version [] v r = (v, r) ∷ []
  put_version ((w, x) ∷ d) v r = if same_version w v then (w, r) ∷ d else (w, x) ∷ put_version d v r

  unfoldable pub set_default : List (Version × R) → Version → R → List (Version × R)
  set_default [] v r = (v, r) ∷ []
  set_default ((w, x) ∷ d) v r = if same_version w v then (w, x) ∷ d else (w, x) ∷ set_default d v r

  -- `[v for v in type_ratios if v < version]`
  unfoldable pub versions_before : Version → List (Version × R) → List Version
  versions_before version [] = []
  versions_before version ((v, r) ∷ d) =
      let rest = versions_before version d in if less_version v version then v ∷ rest else rest

  -- One round of the loop over the ratios, where a later entry takes the place of an earlier one.
  unfoldable pub add_live : Distro → Text → List (Version × R) → Text → R → List (Version × R)
  unfolding entry_version put_version
  add_live distro type d n r = elim (entry_version distro type n) [
    | none ↦ d
    | some v ↦ put_version d v r
  ]

  unfoldable pub collect_live : Distro → Text → List (Version × R) → Dict R → List (Version × R)
  unfolding add_live
  collect_live distro type d [] = d
  collect_live distro type d ((n, r) ∷ rs) =
      collect_live distro type (add_live distro type d n r) rs

  -- The ratio that a removed entry still stands for: none if the torrent is held again, or if the
  -- entry has no ratio.
  unfoldable pub usable_ratio : Dict R → Text → Removed R → Option R
  usable_ratio ratios n record_ = if Dict.has ratios n then none else record_.ratio

  -- One round of the loop over the removed history, where what is there stays.
  unfoldable pub add_removed :
      Distro → Text → Option R → List (Version × R) → Text → List (Version × R)
  unfolding entry_version set_default
  add_removed distro type none d n = d
  add_removed distro type (some r) d n = elim (entry_version distro type n) [
    | none ↦ d
    | some v ↦ set_default d v r
  ]

  unfoldable pub collect_removed :
      Distro → Text → Dict R → List (Version × R) → Dict (Removed R) → List (Version × R)
  unfolding add_removed usable_ratio
  collect_removed distro type ratios d [] = d
  collect_removed distro type ratios d ((n, record_) ∷ hs) =
      collect_removed distro type ratios
        (add_removed distro type (usable_ratio ratios n record_) d n) hs

  -- The ratios of the other Devuan releases that are held.
  unfoldable pub devuan_live : Text → Dict R → List R
  devuan_live name [] = []
  devuan_live name ((n, r) ∷ rs) =
      let rest = devuan_live name rs in if not (same n name) && is_devuan n then r ∷ rest else rest

  unfoldable pub devuan_removed : Text → Dict (Removed R) → List R
  devuan_removed name [] = []
  devuan_removed name ((n, record_) ∷ hs) =
      let rest = devuan_removed name hs in
      if not (same n name) && is_devuan n
      then elim record_.ratio [ none ↦ rest | some r ↦ r ∷ rest ]
      else rest

module _ (fl : Float) where
  open fl use {F, one_float, lt}

  max_ratio : F → List F → F
  max_ratio r [] = r
  max_ratio r (x ∷ xs) = max_ratio (if lt r x then x else r) xs

  -- `max(prior_ratios) >= 1.0`, and True on no ratios.
  unfoldable pub best_clears : List F → Bool
  unfolding max_ratio
  best_clears [] = true
  best_clears (r ∷ rs) = ge fl (max_ratio r rs) one_float

  unfoldable pub prior_ratios : List F → List F → List F
  prior_ratios [] removed = removed
  prior_ratios (r ∷ rs) removed = r ∷ rs

  -- `_should_fetch_devuan`
  unfoldable pub should_fetch_devuan : Text → Dict F → Dict (Removed F) → Bool
  unfolding best_clears prior_ratios devuan_live devuan_removed
  should_fetch_devuan name ratios removed_history =
      if Dict.has ratios name
      then true
      else best_clears
          (prior_ratios (devuan_live name ratios) (devuan_removed name removed_history))

  -- `type_ratios[version] >= 1.0` at a version of the dict.
  unfoldable pub clears_at : List (Version × F) → Version → Bool
  unfolding get_version
  clears_at d v = elim (get_version d v) [ none ↦ true | some r ↦ ge fl r one_float ]

  unfoldable pub newest_clears : List (Version × F) → List Version → Bool
  unfolding clears_at max_version
  newest_clears d [] = true
  newest_clears d (v ∷ vs) = clears_at d (max_version v vs)

  unfoldable pub type_ratios : Distro → Text → Dict F → Dict (Removed F) → List (Version × F)
  unfolding collect_live collect_removed
  type_ratios distro type ratios removed_history =
      collect_removed distro type ratios (collect_live distro type [] ratios) removed_history

  unfoldable pub gate : Distro → Dict F → Dict (Removed F) → Result (Version × Text) → Bool
  unfolding newest_clears type_ratios versions_before
  gate distro ratios removed_history (raised e) = true
  gate distro ratios removed_history (ok (version, type)) =
      let d = type_ratios distro type ratios removed_history in
      newest_clears d (versions_before version d)

  unfoldable pub should_fetch_torrent : Text → Dict F → Dict (Removed F) → Bool → Bool
  unfolding gate own_version should_fetch_devuan
  should_fetch_torrent name ratios removed_history skip_ratio_check =
      if skip_ratio_check then true else elim (get_distro name) [
        | none ↦ if is_devuan name then should_fetch_devuan name ratios removed_history else true
        | some distro ↦ gate distro ratios removed_history (own_version name distro)
      ]
