-- ===== src/Run/Counts.antt =====
-- That a run returns, and what its summary counts.
use linux_iso_seeder.Base.{
  ℕ, suc, ◌+◌, ◌≡◌, refl, ◌∙◌, Bool, true, false, List, [], ◌∷◌, Result, ok, raised, Bool-cases,
  inl, inr, All, if◌then◌else◌, arith,
}
use linux_iso_seeder.Base.Text.{Text}
use linux_iso_seeder.Base.Dict.{Dict}
use linux_iso_seeder.Base.Float.{Float}
use linux_iso_seeder.Names.{Distro}
use linux_iso_seeder.Gate.{Removed}
use linux_iso_seeder.LowDemand.{filter_low_demand}
use linux_iso_seeder.Watch.{Folder, Status, added, existing, not_found, failed, download_torrent}
use linux_iso_seeder.Config.{Config}
use linux_iso_seeder.OldReleases.{Check, check_old_releases_for_demand}
use linux_iso_seeder.Ratios.{get_previous_ratios}
use linux_iso_seeder.Run.Inputs.{RunSummary, World, Services}
use linux_iso_seeder.Run.Fetching.{
  Fetch, counted, is_enabled, is_let_in, downloaded, fetch_torrent, fetch_torrents, fetch_found,
  fetch_distro, fetch_latest,
}
use linux_iso_seeder.Run.Steps.{
  State, note_old_releases, check_surveyed, survey_for, check_old_releases,
}
use linux_iso_seeder.Run.{
  Progress, check_step, ratio_step, cleanup_step, limit_step, later_steps, finished, after_fetch,
  fetch_with, run_with, run,
}

module _ {R : Type 0} where
  -- All torrents that were tried, and all distributions that gave none.
  abbrev pub total : RunSummary R → ℕ
  total s = s.added_count + s.existing_count + s.not_found_count + s.failed_count

  counted-total : (status : Status) (s : RunSummary R) → total (counted status s) ≡ suc (total s)
  unfolding counted
  counted-total added s = omega arith
  counted-total existing s = omega arith
  counted-total not_found s = omega arith
  counted-total failed s = omega arith

module _ (fl : Float) (services : Services fl) (config : Config fl.F) (ratios : Dict fl.F)
    (removed_history : Dict (Removed fl.F)) where
  -- The names that the ratio gate lets in.
  abbrev pub let_in_count : Dict Text → ℕ
  let_in_count [] = 0
  let_in_count ((name, url) ∷ torrents) =
      if is_let_in fl services config ratios removed_history name
      then suc (let_in_count torrents)
      else let_in_count torrents

  -- What a fetcher's torrents add to the counts.
  abbrev pub found_count : Dict Text → ℕ
  found_count [] = 1
  found_count (t ∷ torrents) =
      let_in_count (filter_low_demand (t ∷ torrents) config.include_low_demand)

  abbrev pub fetcher_count : Distro × Result (Dict Text) → ℕ
  fetcher_count (distro, raised e) = 0
  fetcher_count (distro, ok found) =
      if is_enabled config.distros distro then found_count found else 0

  abbrev pub fetchers_count : List (Distro × Result (Dict Text)) → ℕ
  fetchers_count [] = 0
  fetchers_count (fetcher ∷ fetchers) = fetcher_count fetcher + fetchers_count fetchers

  -- A fetcher that returns, if its distribution is enabled.
  abbrev pub IsFine : Distro × Result (Dict Text) → Type 0
  IsFine (distro, ok found) = Unit
  IsFine (distro, raised e) = is_enabled config.distros distro ≡ false

  abbrev one_if : Bool → ℕ
  one_if true = 1
  one_if false = 0

  downloaded-total :
      (f : Fetch fl.F) (out : Status × Folder)
      → total (downloaded fl services config ratios removed_history f out).summary
        ≡ 1 + total f.summary
  unfolding downloaded
  downloaded-total f (status, folder) = omega (arith, counted-total status f.summary)

  fetch_torrent-total :
      (name url : Text) (f : Fetch fl.F)
      → total (fetch_torrent fl services config ratios removed_history name url f).summary
        ≡ one_if (is_let_in fl services config ratios removed_history name) + total f.summary
  unfolding fetch_torrent
  fetch_torrent-total name url f =
      elim (Bool-cases (is_let_in fl services config ratios removed_history name)) [
        | inl let_in ↦ rw let_in (
            downloaded-total f
              (download_torrent services.http (services.fault name url) f.folder name url))
        | inr out ↦ rw out (omega arith)
      ]

  let_in_count-step : (b : Bool) (n m : ℕ) → n + (one_if b + m) ≡ (if b then suc n else n) + m
  let_in_count-step true n m = omega arith
  let_in_count-step false n m = omega arith

  fetch_torrents-total :
      (torrents : Dict Text) (f : Fetch fl.F)
      → total (fetch_torrents fl services config ratios removed_history torrents f).summary
        ≡ let_in_count torrents + total f.summary
  unfolding fetch_torrents
  fetch_torrents-total [] f = omega arith
  fetch_torrents-total ((name, url) ∷ torrents) f =
      fetch_torrents-total torrents
        (fetch_torrent fl services config ratios removed_history name url f)
      ∙ (rw (fetch_torrent-total name url f) (
          let_in_count-step (is_let_in fl services config ratios removed_history name)
            (let_in_count torrents) (total f.summary)))

  fetch_found-total :
      (found : Dict Text) (f : Fetch fl.F)
      → total (fetch_found fl services config ratios removed_history found f).summary
        ≡ found_count found + total f.summary
  unfolding fetch_found
  fetch_found-total [] f = omega arith
  fetch_found-total (t ∷ found) f =
      fetch_torrents-total (filter_low_demand (t ∷ found) config.include_low_demand) f

  fetch_distro-total :
      (distro : Distro) (found : Dict Text) (f : Fetch fl.F)
      → total (fetch_distro fl services config ratios removed_history distro found f).summary
        ≡ fetcher_count (distro, ok found) + total f.summary
  unfolding fetch_distro
  fetch_distro-total distro found f = elim (Bool-cases (is_enabled config.distros distro)) [
    | inl enabled ↦ rw enabled (fetch_found-total found f)
    | inr disabled ↦ rw disabled (omega arith)
  ]

  fetch_latest-total :
      (fetchers : List (Distro × Result (Dict Text))) (f : Fetch fl.F)
      → All IsFine fetchers
      → ((fetch_latest fl services config ratios removed_history fetchers f).0 ≡ ok tt)
        × (total (fetch_latest fl services config ratios removed_history fetchers f).1.summary
            ≡ fetchers_count fetchers + total f.summary)
  unfolding fetch_latest
  fetch_latest-total [] f fine = (refl, omega arith)
  fetch_latest-total ((distro, raised e) ∷ fetchers) f fine =
      let (returned, counts) = fetch_latest-total fetchers f fine.1 in
      (rw (fine.0) returned, rw (fine.0) (counts ∙ omega arith))
  fetch_latest-total ((distro, ok found) ∷ fetchers) f fine =
      let after : Fetch fl.F =
        fetch_distro fl services config ratios removed_history distro found f in
      let (returned, counts) = fetch_latest-total fetchers after fine.1 in
      (returned, omega (arith, counts, fetch_distro-total distro found f))

module _ (fl : Float) (services : Services fl) (config : Config fl.F) where
  open fl use {F}

  note_old_releases-total :
      (state : State fl services config) (out : Result (Unit {0}) × Check)
      → total (note_old_releases fl services config state out).1.1 ≡ total state.1
  unfolding note_old_releases
  note_old_releases-total (w, s) (raised e, c) = refl
  note_old_releases-total (w, s) (ok u, c) = elim (Bool-cases services.check_unwritable) [
    | inl bad ↦ rw bad refl
    | inr fine ↦ rw fine refl
  ]

  check_surveyed-total :
      (state : State fl services config) (found : Result _)
      → total (check_surveyed fl services config state found).1.1 ≡ total state.1
  unfolding check_surveyed
  check_surveyed-total state (raised e) = refl
  check_surveyed-total (w, s) (ok found) =
      note_old_releases-total (w, s)
        (check_old_releases_for_demand fl found config.distros w.seeder.folder w.check_file)

  if-total :
      (b : Bool) (n : ℕ) (p q : Progress fl services config)
      → total p.0.1 ≡ n
      → total q.0.1 ≡ n
      → total (if b then p else q).0.1 ≡ n
  if-total true n p q h k = h
  if-total false n p q h k = k

  check_step-total :
      (state : State fl services config)
      → total (check_step fl services config state).0.1 ≡ total state.1
  unfolding check_step check_old_releases
  check_step-total state =
      if-total config.check_old_releases (total state.1) _ _
        (check_surveyed-total state (survey_for fl services config state.0)) refl

  ratio_step-same :
      (state : State fl services config) → (ratio_step fl services config state).0.1 ≡ state.1
  unfolding ratio_step
  ratio_step-same state = elim (Bool-cases services.rpc_ready) [
    | inl ready ↦ rw ready refl
    | inr off ↦ rw off refl
  ]

  later_steps-total :
      (state : State fl services config)
      → total (later_steps fl services config state).0.1 ≡ total state.1
  unfolding later_steps cleanup_step limit_step
  later_steps-total state =
      rw (ratio_step-same (check_step fl services config state).0) (check_step-total state)

  -- The summary counts `n` torrents and distributions in all.
  abbrev pub Returns : ℕ → Result (RunSummary F) → Type 0
  Returns n result = (summary : RunSummary F) × (result ≡ ok summary) × (total summary ≡ n)

  -- The reading of the disk at the end of the run returns.
  abbrev pub IsFinal : Type 0
  IsFinal = (reading : ℕ × ℕ) × (services.final_usage ≡ ok reading)

  finished-Returns :
      (n : ℕ) (last : Result (ℕ × ℕ)) (p : Progress fl services config) {reading : ℕ × ℕ}
      → last ≡ ok reading
      → total p.0.1 ≡ n
      → Returns n (finished fl services config last p).0
  finished-Returns n (raised e) p read k = cc read
  finished-Returns n (ok reading) p read k = (_, refl, k)

  after_fetch-Returns :
      (w : World F) (n : ℕ) (out : Result (Unit {0}) × Fetch F)
      → IsFinal
      → out.0 ≡ ok tt
      → total out.1.summary ≡ n
      → Returns n (after_fetch fl services config w out).0
  unfolding after_fetch
  after_fetch-Returns w n (raised e, f) final h k = cc
  after_fetch-Returns w n (ok u, f) (reading, read) h k =
      finished-Returns n services.final_usage _ read (later_steps-total _ ∙ k)

  fetch_with-Returns :
      (w : World F) (ratios : Dict F) (decoded : Result (Unit {0}))
      → decoded ≡ ok tt
      → IsFinal
      → All (IsFine fl services config ratios w.seeder.removed_file) services.fetchers
      → Returns
          (fetchers_count fl services config ratios w.seeder.removed_file services.fetchers)
          (fetch_with fl services config w ratios decoded).0
  unfolding fetch_with
  fetch_with-Returns w ratios (raised e) h final fine = cc h
  fetch_with-Returns w ratios (ok u) h final fine =
      let (returned, counts) =
        fetch_latest-total fl services config ratios w.seeder.removed_file services.fetchers _
          fine in
      after_fetch-Returns w _ _ final returned (counts ∙ omega arith)

  -- If the ratios of the ratio log can be read, the removed history's file decodes, every fetcher of
  -- an enabled distribution returns, and so does the reading of the disk at the end, then: the run returns a summary, whatever fails in its later steps; and added, existing, not
  -- found and failed add up to the torrents that the filter and the ratio gate let in, and the
  -- enabled distributions that gave none.
  pub run-Returns :
      (w : World F) (ratios : Dict F)
      → get_previous_ratios fl w.ratio_log ≡ ok ratios
      → services.removed_read ≡ ok tt
      → IsFinal
      → All (IsFine fl services config ratios w.seeder.removed_file) services.fetchers
      → Returns
          (fetchers_count fl services config ratios w.seeder.removed_file services.fetchers)
          (run fl services config w).0
  unfolding run run_with
  run-Returns w ratios read decoded final fine =
      rw read (fetch_with-Returns w ratios services.removed_read decoded final fine)
