-- ===== src/Run/Steps.antt =====
-- The steps of a run after the fetching: `_check_old_releases`, `_cleanup` and the disk limit.
use linux_iso_seeder.Base.{
  ℕ, Bool, false, not, Option, none, some, List, [], ◌∷◌, if◌then◌else◌, Result, ok, raised,
  os_error, type_error, ◌>>=◌, ◌>>◌,
}
use linux_iso_seeder.Base.Int.{ℤ}
use linux_iso_seeder.Base.Dict.{Dict}
use linux_iso_seeder.Base.Float.{Float}
use linux_iso_seeder.Gate.{Removed}
use linux_iso_seeder.OldReleases.{Check, Survey, check_old_releases_for_demand}
use linux_iso_seeder.Config.{
  Config, old_release_min_leechers, old_release_min_leecher_ratio, old_release_recheck_days,
  cleanup_min_ratio, stagnation_window_days, stagnation_min_ratio_delta,
  disk_usage_threshold_percent, require,
}
use linux_iso_seeder.Cleanup.Removal.{
  Seeder, used_percent, cleanup_old_versions, cleanup_stagnant_torrents, enforce_disk_usage_limit,
}
use linux_iso_seeder.Run.Inputs.{RunSummary, World, Services}

-- A number that `require` vouches for: `load_config` leaves None only where it raises. Elsewhere a
-- None would raise TypeError where it is compared.
abbrev pub given : {A : Type 0} → Option A → Result A
given none = raised type_error
given (some value) = ok value

module _ (fl : Float) (services : Services fl) (config : Config fl.F) where
  open fl use {F, zero_float, lt, le}

  -- The state of the world and the summary.
  abbrev pub State : Type 0
  State = World F × RunSummary F

  abbrev pub with_folder : World F → List (List ℕ × List ℕ) → World F
  with_folder w folder = record w { seeder = record w.seeder { folder = folder } }

  -- `load_removed_history(...) if config.old_release_skip_removed else {}`
  unfoldable pub removed_to_skip : World F → Dict (Removed F)
  removed_to_skip w = if config.skip_removed then w.seeder.removed_file else []

  unfoldable pub survey : World F → ℤ → F → ℤ → Survey fl
  survey w leechers ratio days = record {
    http = services.http;
    scrape = services.scrape;
    fault = services.old_fault;
    discovery = services.discovery;
    include_low_demand = config.include_low_demand;
    floor = record {
      min_leechers = leechers;
      min_leecher_ratio = ratio;
      allow_zero_seeders = config.allow_zero_seeders;
    };
    removed_history = removed_to_skip w;
    today = services.today;
    recheck_interval_days = days;
  }

  -- The assignment of the counts, and `save_old_release_check_state`.
  unfoldable pub note_old_releases : State → Result (Unit {0}) × Check → Result (Unit {0}) × State
  note_old_releases (w, s) (raised e, c) = (raised e, (with_folder w c.folder, s))
  note_old_releases (w, s) (ok u, c) =
      let summary = record s { old_added = some c.added; old_skipped = some c.skipped } in
      if services.check_unwritable
      then (raised os_error, (with_folder w c.folder, summary))
      else (ok tt, (record (with_folder w c.folder) { check_file = c.check_state }, summary))

  unfoldable pub survey_for : World F → Result (Survey fl)
  unfolding survey
  survey_for w = do
    require config
        (old_release_min_leechers ∷ old_release_min_leecher_ratio ∷ old_release_recheck_days ∷ [])
    leechers ← given config.min_leechers
    ratio ← given config.min_leecher_ratio
    days ← given config.recheck_days
    ok (survey w leechers ratio days)

  unfoldable pub check_surveyed : State → Result (Survey fl) → Result (Unit {0}) × State
  unfolding note_old_releases
  check_surveyed state (raised e) = (raised e, state)
  check_surveyed (w, s) (ok found) =
      note_old_releases (w, s)
        (check_old_releases_for_demand fl found config.distros w.seeder.folder w.check_file)

  unfoldable pub check_old_releases : State → Result (Unit {0}) × State
  unfolding check_surveyed survey_for
  check_old_releases (w, s) = check_surveyed (w, s) (survey_for w)

  abbrev pub Outcome : Type 0
  Outcome = Result (Unit {0}) × Seeder F

  abbrev pub after_ok : {A : Type 0} → Result A → Seeder F → (A → Outcome) → Outcome
  after_ok (raised e) seeder step = (raised e, seeder)
  after_ok (ok value) seeder step = step value

  unfoldable pub cleanup_latest : Seeder F → Outcome
  cleanup_latest seeder =
      after_ok
        (require config (cleanup_min_ratio ∷ []) >> (services.client >> given config.min_ratio))
        seeder
        (λ min_ratio.
          cleanup_old_versions fl services.faults services.today config.cleanup_skip_ratio_check
            min_ratio seeder)

  -- The two numbers of the stagnation cleanup.
  unfoldable pub stagnation_numbers : Result (ℤ × F)
  stagnation_numbers = do
    require config (stagnation_window_days ∷ stagnation_min_ratio_delta ∷ [])
    services.client
    window ← given config.window_days
    delta ← given config.min_ratio_delta
    ok (window, delta)

  unfoldable pub cleanup_stagnant : Seeder F → Outcome
  unfolding stagnation_numbers
  cleanup_stagnant seeder = after_ok stagnation_numbers seeder (λ (window, delta).
      cleanup_stagnant_torrents fl services.faults services.today window delta seeder)

  -- `_cleanup`
  unfoldable pub cleanup : Seeder F → Outcome
  unfolding cleanup_latest cleanup_stagnant
  cleanup seeder =
      if config.keep_only_latest then cleanup_latest seeder else cleanup_stagnant seeder

  -- The limit is on, and reached at the first reading: only then the daemon is called.
  unfoldable pub is_over : F → Result Bool
  is_over threshold =
      if le threshold zero_float
      then ok false
      else services.usage 0 >>= λ reading. ok (not (lt (used_percent fl reading) threshold))

  unfoldable pub limit : F → Seeder F → Outcome
  unfolding is_over
  limit threshold seeder = after_ok (is_over threshold) seeder (λ over.
      if over
      then (after_ok services.limit_client seeder (λ u.
          enforce_disk_usage_limit fl services.limit_faults services.today threshold services.usage
            seeder))
      else (ok tt, seeder))

  -- The `try` block that calls `enforce_disk_usage_limit`.
  unfoldable pub limit_disk : Seeder F → Outcome
  unfolding limit
  limit_disk seeder =
      after_ok
        (require config (disk_usage_threshold_percent ∷ []) >> given config.threshold_percent)
        seeder (λ threshold. limit threshold seeder)
