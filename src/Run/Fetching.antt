-- ===== src/Run/Fetching.antt =====
-- `_fetch_latest`: the new releases of the enabled distributions.
use linux_iso_seeder.Base.{suc, Bool, List, [], ◌∷◌, if◌then◌else◌, any, Result, ok, raised}
use linux_iso_seeder.Base.Text.{Text}
use linux_iso_seeder.Base.Dict.{Dict}
use linux_iso_seeder.Base.Float.{Float}
use linux_iso_seeder.Names.{Distro, is_distro}
use linux_iso_seeder.Gate.{Removed, should_fetch_torrent}
use linux_iso_seeder.LowDemand.{filter_low_demand}
use linux_iso_seeder.Watch.{Folder, Status, added, existing, not_found, failed, download_torrent}
use linux_iso_seeder.Config.{Config}
use linux_iso_seeder.Run.Inputs.{RunSummary, Services}

-- What the loop changes.
pub record Fetch (R : Type 0) : Type 0 where
  pub folder : Folder
  pub summary : RunSummary R

-- A distribution that gave no torrents counts as failed.
abbrev pub counted_failed : {R : Type 0} → RunSummary R → RunSummary R
counted_failed s = record s { failed_count = suc s.failed_count }

unfoldable pub counted : {R : Type 0} → Status → RunSummary R → RunSummary R
counted added s = record s { added_count = suc s.added_count }
counted existing s = record s { existing_count = suc s.existing_count }
counted not_found s = record s { not_found_count = suc s.not_found_count }
counted failed s = counted_failed s

unfoldable pub is_enabled : List Distro → Distro → Bool
is_enabled distros distro = any (is_distro distro) distros

module _ (fl : Float) (services : Services fl) (config : Config fl.F) (ratios : Dict fl.F)
    (removed_history : Dict (Removed fl.F)) where
  unfoldable pub is_let_in : Text → Bool
  is_let_in name = should_fetch_torrent fl name ratios removed_history config.skip_ratio_check

  unfoldable pub downloaded : Fetch fl.F → Status × Folder → Fetch fl.F
  unfolding counted
  downloaded f (status, folder) = record { folder = folder; summary = counted status f.summary }

  -- One round of the inner loop.
  unfoldable pub fetch_torrent : Text → Text → Fetch fl.F → Fetch fl.F
  unfolding downloaded
  fetch_torrent name url f =
      if is_let_in name
      then downloaded f (download_torrent services.http (services.fault name url) f.folder name url)
      else f

  unfoldable pub fetch_torrents : Dict Text → Fetch fl.F → Fetch fl.F
  unfolding fetch_torrent
  fetch_torrents [] f = f
  fetch_torrents ((name, url) ∷ torrents) f = fetch_torrents torrents (fetch_torrent name url f)

  -- What a fetcher found.
  unfoldable pub fetch_found : Dict Text → Fetch fl.F → Fetch fl.F
  unfolding fetch_torrents
  fetch_found [] f = record f { summary = counted_failed f.summary }
  fetch_found (t ∷ torrents) f =
      fetch_torrents (filter_low_demand (t ∷ torrents) config.include_low_demand) f

  -- One round of the outer loop, if the fetcher returns.
  unfoldable pub fetch_distro : Distro → Dict Text → Fetch fl.F → Fetch fl.F
  unfolding fetch_found is_enabled
  fetch_distro distro found f = if is_enabled config.distros distro then fetch_found found f else f

  abbrev pub Fetched : Type 0
  Fetched = Result (Unit {0}) × Fetch fl.F

  unfoldable pub fetch_latest : List (Distro × Result (Dict Text)) → Fetch fl.F → Fetched
  unfolding fetch_distro
  fetch_latest [] f = (ok tt, f)
  fetch_latest ((distro, raised e) ∷ fetchers) f =
      let rest = fetch_latest fetchers f in
      if is_enabled config.distros distro then (raised e, f) else rest
  fetch_latest ((distro, ok found) ∷ fetchers) f =
      fetch_latest fetchers (fetch_distro distro found f)
