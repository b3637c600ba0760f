-- ===== src/Gate/Decision.antt =====
-- When `should_fetch_torrent` turns a release down.
use linux_iso_seeder.Base.{◌≡◌, true, false, ◌&&◌, Option, some, List}
use linux_iso_seeder.Base.Text.{Text}
use linux_iso_seeder.Base.Dict.{Dict}
use linux_iso_seeder.Base.Float.{Float}
use linux_iso_seeder.Names.Version.{Version, less_version}
use linux_iso_seeder.Gate.{get_version}
use linux_iso_seeder.Gate.Newest.{elem, is_some}

module _ (fl : Float) where
  open fl use {F, one_float, lt}

  -- `v` is the newest version before `version` of which something is recorded, and its ratio `r` is
  -- below 1.0.
  pub record IsBlockedBy (version : Version) (at : Version → Option F) (v : Version) (r : F)
      : Type 0 where
    pub is_recorded : at v ≡ some r
    pub is_before : less_version v version ≡ true
    pub is_low : lt r one_float ≡ true
    pub is_newest :
        (w : Version) → (is_some (at w) && (less_version w version && less_version v w)) ≡ false

  -- The list holds the versions of the dict before `version`.
  abbrev Before : Version → List (Version × F) → List Version → Type 0
  Before version d vs =
      (w : Version) → elem w vs ≡ (is_some (get_version d w) && less_version w version)
