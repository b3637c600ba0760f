-- ===== src/Run/Gated.antt =====
-- What the fetching leaves in the watch folder.
use linux_iso_seeder.Base.{
  ◌≡◌, refl, Bool, true, false, ◌||◌, not, inl, inr, Option, none, some, List, [], ◌∷◌, Result, ok,
  raised, Bool-cases, All, All-weaken, IsIn, members-IsIn, ◌==◌,
}
use linux_iso_seeder.Base.Text.{Text}
use linux_iso_seeder.Base.Dict.{Dict}
use linux_iso_seeder.Base.Float.{Float}
use linux_iso_seeder.Names.{Distro}
use linux_iso_seeder.Gate.{Removed}
use linux_iso_seeder.LowDemand.{is_low_demand_variant, kept_torrents, filter_low_demand}
use linux_iso_seeder.Watch.{
  Bytes, Folder, Fault, Response, no_reply, reply, is_error_status, safe_watch_path,
  watch_file_present, saved, save_response, write_watch_file, download_to, download_torrent,
}
use linux_iso_seeder.Watch.Atomic.{write_watch_file_atomic}
use linux_iso_seeder.Watch.Changes.{IsChanged, IsChanged-refl, IsChanged-trans, IsChanged-write}
use linux_iso_seeder.Config.{Config}
use linux_iso_seeder.Run.Inputs.{Services}
use linux_iso_seeder.Run.Fetching.{
  Fetch, is_enabled, is_let_in, downloaded, fetch_torrent, fetch_torrents, fetch_found,
  fetch_distro, fetch_latest,
}

module _ (http : Text → Response) (P : Text → Text → Type 0) where
  -- A file with the whole of a good response for an offered name and URL.
  abbrev pub IsServed : Text → Option Bytes → Type 0
  IsServed j found =
      (name : Text) × (url : Text) × (status : _) × (content : Bytes) × P name url
      × (safe_watch_path name ≡ some j)
      × (http url ≡ reply status content)
      × (is_error_status status ≡ false)
      × (found ≡ some content)

  saved-folder : (out : Result (Unit {0}) × Folder) → (saved out).1 ≡ out.1
  unfolding saved
  saved-folder (ok u, folder) = refl
  saved-folder (raised e, folder) = refl

  save_response-IsChanged :
      (fault : Fault) (folder : Folder) (name url dest : Text) (response : Response)
      → P name url
      → safe_watch_path name ≡ some dest
      → http url ≡ response
      → IsChanged IsServed folder (save_response fault folder dest response).1
  unfolding save_response
  save_response-IsChanged fault folder name url dest no_reply p safe e =
      IsChanged-refl IsServed folder
  save_response-IsChanged fault folder name url dest (reply status content) p safe e =
      elim (Bool-cases (status == 404)) [
        | inl missing ↦ rw missing (IsChanged-refl IsServed folder)
        | inr there ↦ elim (Bool-cases (is_error_status status)) [
          | inl bad ↦ rw (there, bad) (IsChanged-refl IsServed folder)
          | inr fine ↦
              rw (there, fine)
                (rw (saved-folder (write_watch_file fault folder dest content)) (
                  IsChanged-write IsServed fault folder dest content
                    (write_watch_file fault folder dest content)
                    (name, url, status, content, p, safe, e, fine, refl)
                    (write_watch_file_atomic fault folder dest content)))
        ]
      ]

  download_to-IsChanged :
      (fault : Fault) (folder : Folder) (name url : Text) (path : Option Text)
      → P name url
      → safe_watch_path name ≡ path
      → IsChanged IsServed folder (download_to http fault folder path url).1
  unfolding download_to
  download_to-IsChanged fault folder name url none p safe = IsChanged-refl IsServed folder
  download_to-IsChanged fault folder name url (some dest) p safe =
      elim (Bool-cases (watch_file_present folder dest)) [
        | inl there ↦ rw there (IsChanged-refl IsServed folder)
        | inr absent ↦
            rw absent (save_response-IsChanged fault folder name url dest (http url) p safe refl)
      ]

  download_torrent-IsChanged :
      (fault : Fault) (folder : Folder) (name url : Text)
      → P name url
      → IsChanged IsServed folder (download_torrent http fault folder name url).1
  unfolding download_torrent
  download_torrent-IsChanged fault folder name url p =
      download_to-IsChanged fault folder name url (safe_watch_path name) p refl

-- A torrent that a fetcher found and the filter keeps.
abbrev IsKeptOf : Bool → Dict Text → Text × Text → Type 0
IsKeptOf include found t = IsIn t found × ((include || not (is_low_demand_variant t.0)) ≡ true)

kept_torrents-IsKeptOf : (found : Dict Text) → All (IsKeptOf false found) (kept_torrents found)
unfolding kept_torrents
kept_torrents-IsKeptOf [] = tt
kept_torrents-IsKeptOf ((name, url) ∷ found) =
    let later : All (IsKeptOf false ((name, url) ∷ found)) (kept_torrents found) =
      All-weaken (IsKeptOf false found) (IsKeptOf false ((name, url) ∷ found)) (kept_torrents found)
        (λ t (there, kept). (inr there, kept)) (kept_torrents-IsKeptOf found) in
    elim (Bool-cases (is_low_demand_variant name)) [
      | inl low ↦ rw low later
      | inr wanted ↦ rw wanted ((inl refl, rw wanted refl), later)
    ]

found-IsKeptOf : (found : Dict Text) → All (IsKeptOf true found) found
found-IsKeptOf [] = tt
found-IsKeptOf (t ∷ found) = (
  (inl refl, refl),
  All-weaken (IsKeptOf true found) (IsKeptOf true (t ∷ found)) found
      (λ u (there, kept). (inr there, kept)) (found-IsKeptOf found),
)

filter_low_demand-IsKeptOf :
    (include : Bool) (found : Dict Text)
    → All (IsKeptOf include found) (filter_low_demand found include)
unfolding filter_low_demand
filter_low_demand-IsKeptOf true found = found-IsKeptOf found
filter_low_demand-IsKeptOf false found = kept_torrents-IsKeptOf found

module _ (fl : Float) (services : Services fl) (config : Config fl.F) (ratios : Dict fl.F)
    (removed_history : Dict (Removed fl.F)) where
  -- A name and a URL that an enabled distribution's fetcher found, that the filter keeps and the
  -- ratio gate lets in.
  abbrev pub IsOffered : Text → Text → Type 0
  IsOffered name url =
      (distro : Distro) × (found : Dict Text) × IsIn (distro, ok found) services.fetchers
      × (is_enabled config.distros distro ≡ true)
      × IsIn (name, url) found
      × ((config.include_low_demand || not (is_low_demand_variant name)) ≡ true)
      × (is_let_in fl services config ratios removed_history name ≡ true)

  abbrev pub IsFetched : Folder → Folder → Type 0
  IsFetched = IsChanged (IsServed services.http IsOffered)

  IsFetched-trans : (a b c : Folder) → IsFetched a b → IsFetched b c → IsFetched a c
  IsFetched-trans = IsChanged-trans (IsServed services.http IsOffered)

  IsFetched-refl : (folder : Folder) → IsFetched folder folder
  IsFetched-refl = IsChanged-refl (IsServed services.http IsOffered)

  fetch_torrent-IsFetched :
      (distro : Distro) (found : Dict Text) (name url : Text) (f : Fetch fl.F)
      → IsIn (distro, ok found) services.fetchers
      → is_enabled config.distros distro ≡ true
      → IsKeptOf config.include_low_demand found (name, url)
      → IsFetched f.folder
          (fetch_torrent fl services config ratios removed_history name url f).folder
  unfolding fetch_torrent downloaded
  fetch_torrent-IsFetched distro found name url f there enabled kept =
      elim (Bool-cases (is_let_in fl services config ratios removed_history name)) [
        | inr out ↦ rw out (IsFetched-refl f.folder)
        | inl let_in ↦ rw let_in (
            download_torrent-IsChanged services.http IsOffered (services.fault name url) f.folder
              name url (distro, found, there, enabled, kept.0, kept.1, let_in))
      ]

  fetch_torrents-IsFetched :
      (distro : Distro) (found torrents : Dict Text) (f : Fetch fl.F)
      → IsIn (distro, ok found) services.fetchers
      → is_enabled config.distros distro ≡ true
      → All (IsKeptOf config.include_low_demand found) torrents
      → IsFetched f.folder
          (fetch_torrents fl services config ratios removed_history torrents f).folder
  unfolding fetch_torrents
  fetch_torrents-IsFetched distro found [] f there enabled kept = IsFetched-refl f.folder
  fetch_torrents-IsFetched distro found ((name, url) ∷ torrents) f there enabled (first, kept) =
      let after : Fetch fl.F = fetch_torrent fl services config ratios removed_history name url f in
      IsFetched-trans f.folder after.folder _
        (fetch_torrent-IsFetched distro found name url f there enabled first)
        (fetch_torrents-IsFetched distro found torrents after there enabled kept)

  fetch_found-IsFetched :
      (distro : Distro) (found : Dict Text) (f : Fetch fl.F)
      → IsIn (distro, ok found) services.fetchers
      → is_enabled config.distros distro ≡ true
      → IsFetched f.folder (fetch_found fl services config ratios removed_history found f).folder
  unfolding fetch_found
  fetch_found-IsFetched distro [] f there enabled = IsFetched-refl f.folder
  fetch_found-IsFetched distro (t ∷ found) f there enabled =
      fetch_torrents-IsFetched distro (t ∷ found)
        (filter_low_demand (t ∷ found) config.include_low_demand) f there enabled
        (filter_low_demand-IsKeptOf config.include_low_demand (t ∷ found))

  fetch_distro-IsFetched :
      (distro : Distro) (found : Dict Text) (f : Fetch fl.F)
      → IsIn (distro, ok found) services.fetchers
      → IsFetched f.folder
          (fetch_distro fl services config ratios removed_history distro found f).folder
  unfolding fetch_distro
  fetch_distro-IsFetched distro found f there =
      elim (Bool-cases (is_enabled config.distros distro)) [
        | inr disabled ↦ rw disabled (IsFetched-refl f.folder)
        | inl enabled ↦ rw enabled (fetch_found-IsFetched distro found f there enabled)
      ]

  fetch_rest-IsFetched :
      (fetchers : List (Distro × Result (Dict Text))) (f : Fetch fl.F)
      → All (λ p. IsIn p services.fetchers) fetchers
      → IsFetched f.folder
          (fetch_latest fl services config ratios removed_history fetchers f).1.folder
  unfolding fetch_latest
  fetch_rest-IsFetched [] f there = IsFetched-refl f.folder
  fetch_rest-IsFetched ((distro, raised e) ∷ fetchers) f there =
      elim (Bool-cases (is_enabled config.distros distro)) [
        | inl enabled ↦ rw enabled (IsFetched-refl f.folder)
        | inr disabled ↦ rw disabled (fetch_rest-IsFetched fetchers f there.1)
      ]
  fetch_rest-IsFetched ((distro, ok found) ∷ fetchers) f there =
      let after : Fetch fl.F =
        fetch_distro fl services config ratios removed_history distro found f in
      IsFetched-trans f.folder after.folder _ (fetch_distro-IsFetched distro found f there.0)
        (fetch_rest-IsFetched fetchers after there.1)

  -- However the fetching ends, each file of the watch folder is as it was, or is a hidden file of a
  -- write, or holds the whole response to a URL that an enabled distribution's fetcher gave for the
  -- file's name, where the name passes the low-demand filter and the ratio gate.
  pub fetch_latest-IsFetched :
      (f : Fetch fl.F)
      → IsFetched f.folder
          (fetch_latest fl services config ratios removed_history services.fetchers f).1.folder
  fetch_latest-IsFetched f =
      fetch_rest-IsFetched services.fetchers f (members-IsIn services.fetchers)
