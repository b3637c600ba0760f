-- ===== src/Run.antt =====
-- fetch_torrents.py: `run`, the daily run, and its steps.
pub mod Inputs
pub mod Fetching
pub mod Steps
pub mod Gated
pub mod Counts
use linux_iso_seeder.Base.{
  ℕ, zero, Bool, true, false, Option, none, some, List, [], ◌∷◌, ◌++◌, if◌then◌else◌, Result, ok,
  raised, Error,
}
use linux_iso_seeder.Base.Dict.{Dict}
use linux_iso_seeder.Base.Float.{Float}
use linux_iso_seeder.Config.{Config, rpc_auth}
use linux_iso_seeder.Cleanup.Removal.{Seeder}
use linux_iso_seeder.Rpc.{Query, done, refused, failed, Refusal, log_seed_ratios_via_http}
use linux_iso_seeder.Ratios.{get_previous_ratios}
use linux_iso_seeder.Run.Inputs.{RunSummary, World, Services}
use linux_iso_seeder.Run.Fetching.{Fetch, fetch_latest}
use linux_iso_seeder.Run.Steps.{State, with_folder, check_old_releases, cleanup, limit_disk}

-- What a run logs as an error, step by step.
pub data Problem : Type 0 where
  old_releases : Error → Problem
  ratios_refused : Refusal → Problem
  ratios_failed : Error → Problem
  rpc_not_available : Problem
  cleanup_failed : Error → Problem
  limit_failed : Error → Problem

module _ (fl : Float) (services : Services fl) (config : Config fl.F) where
  open fl use {F, zero_float, minus}

  -- The state, and the errors so far.
  abbrev pub Progress : Type 0
  Progress = State fl services config × List Problem

  abbrev new_summary : RunSummary F
  new_summary = record {
    elapsed = zero_float;
    added_count = 0;
    existing_count = 0;
    not_found_count = 0;
    failed_count = 0;
    old_added = none;
    old_skipped = none;
  }

  -- A step whose error is logged.
  abbrev logged : (Error → Problem) → Result (Unit {0}) → List Problem
  logged problem (ok u) = []
  logged problem (raised e) = problem e ∷ []

  unfoldable pub check_step : State fl services config → Progress
  check_step state =
      if config.check_old_releases
      then (let (result, after) = check_old_releases fl services config state in
          (after, logged old_releases result))
      else (state, [])

  abbrev query_problems : Query → List Problem
  query_problems done = []
  query_problems (refused why) = ratios_refused why ∷ []
  query_problems (failed e) = ratios_failed e ∷ []

  unfoldable pub ratio_step : State fl services config → Progress
  ratio_step (w, s) =
      if services.rpc_ready
      then (let (query, log) =
            log_seed_ratios_via_http fl services.daemon services.asctime w.ratio_log
              (rpc_auth config) in
          ((record w { ratio_log = log }, s), query_problems query))
      else ((w, s), rpc_not_available ∷ [])

  unfoldable pub cleanup_step : State fl services config → Progress
  cleanup_step (w, s) =
      let (result, seeder) = cleanup fl services config w.seeder in
      ((record w { seeder = seeder }, s), logged cleanup_failed result)

  unfoldable pub limit_step : State fl services config → Progress
  limit_step (w, s) =
      let (result, seeder) = limit_disk fl services config w.seeder in
      ((record w { seeder = seeder }, s), logged limit_failed result)

  abbrev pub then_step : Progress → (State fl services config → Progress) → Progress
  then_step (state, problems) step = let (after, more) = step state in (after, problems ++ more)

  -- What follows `_fetch_latest`.
  unfoldable pub later_steps : State fl services config → Progress
  unfolding check_step ratio_step cleanup_step limit_step
  later_steps state =
      then_step (then_step (then_step (check_step state) ratio_step) cleanup_step) limit_step

  -- The end: the last reading of the disk, `summary.elapsed`, and the summary.
  abbrev pub finished : Result (ℕ × ℕ) → Progress → Result (RunSummary F) × World F × List Problem
  finished (raised e) ((w, s), problems) = (raised e, w, problems)
  finished (ok reading) ((w, s), problems) =
      (ok (record s { elapsed = minus services.ended services.started }), w, problems)

  unfoldable pub after_fetch :
      World F → Result (Unit {0}) × Fetch F → Result (RunSummary F) × World F × List Problem
  unfolding later_steps
  after_fetch w (raised e, f) = (raised e, with_folder fl services config w f.folder, [])
  after_fetch w (ok u, f) =
      finished services.final_usage
        (later_steps (with_folder fl services config w f.folder, f.summary))

  -- From the removed history's file on.
  unfoldable pub fetch_with :
      World F → Dict F → Result (Unit {0}) → Result (RunSummary F) × World F × List Problem
  unfolding after_fetch
  fetch_with w ratios (raised e) = (raised e, w, [])
  fetch_with w ratios (ok u) = after_fetch w (
      fetch_latest fl services config ratios w.seeder.removed_file services.fetchers
        (record { folder = w.seeder.folder; summary = new_summary }))

  unfoldable pub run_with :
      World F → Result (Dict F) → Result (RunSummary F) × World F × List Problem
  unfolding fetch_with
  run_with w (raised e) = (raised e, w, [])
  run_with w (ok ratios) = fetch_with w ratios services.removed_read

  unfoldable pub run : World F → Result (RunSummary F) × World F × List Problem
  unfolding run_with
  run w = run_with w (get_previous_ratios fl w.ratio_log)
