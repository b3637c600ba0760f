-- ===== src/Cleanup/Removal.antt =====
-- The removals themselves: `record_removal`, `cleanup_old_versions`, `cleanup_stagnant_torrents` and
-- `enforce_disk_usage_limit`, on the daemon's torrents, the watch folder and the two history files.
pub mod Recording
pub mod Cleanups
use linux_iso_seeder.Base.{
  ℕ, zero, suc, Bool, true, false, ◌&&◌, ◌||◌, not, Option, none, some, List, [], ◌∷◌, ◌++◌,
  if◌then◌else◌, Result, ok, raised, Error, os_error, ◌>>=◌, ◌==◌,
}
use linux_iso_seeder.Base.Int.{ℤ, pos}
use linux_iso_seeder.Base.Text.{Text, codes}
use linux_iso_seeder.Base.Dict
use linux_iso_seeder.Base.Dict.{Dict}
use linux_iso_seeder.Base.Float.{Float}
use linux_iso_seeder.Dates.{Date, isoformat}
use linux_iso_seeder.Gate.{Removed}
use linux_iso_seeder.Watch.{Folder, remove_watch_file}
use linux_iso_seeder.Cleanup.Groups.{Torrent, ratio_of}
use linux_iso_seeder.Cleanup.History.{Sample, History, update_ratio_history}
use linux_iso_seeder.Cleanup.Plans.{
  Split, plan_cleanup, plan_disk_pressure_cleanup, plan_stagnation_cleanup,
}

-- What a run works on. A history file that is missing or cannot be read counts as `[]`.
pub record Seeder (R : Type 0) : Type 0 where
  pub torrents : List (Torrent R)
  pub folder : Folder
  pub removed_file : Dict (Removed R)
  pub ratio_file : History R

-- What may go wrong: `tc.remove_torrent` of an id raises, a watch file cannot be removed, a history
-- file cannot be written.
pub record Faults : Type 0 where
  pub refused : ℕ → Bool
  pub locked : Text → Bool
  pub removed_unwritable : Bool
  pub ratio_unwritable : Bool

module _ (fl : Float) where
  open fl use {F, zero_float, lt, le, percent, from_int, round3}

  abbrev pub Outcome : Type 0 → Type 0
  Outcome A = Result A × Seeder F

  unfoldable pub record_removal : Dict (Removed F) → Text → Date → Text → F → Dict (Removed F)
  record_removal history name today reason ratio =
      Dict.put history name
        (record { removed_date = isoformat today; reason = reason; ratio = some (round3 ratio) })

  -- `tc.remove_torrent(id, delete_data=True)` where it does not raise.
  unfoldable pub without_id : ℕ → List (Torrent F) → List (Torrent F)
  without_id id [] = []
  without_id id (t ∷ ts) = let rest = without_id id ts in if t.id == id then rest else t ∷ rest

  -- The two calls that remove a torrent and its watch file.
  unfoldable pub without_torrent : Faults → Seeder F → Torrent F → Seeder F
  unfolding without_id
  without_torrent faults seeder t = record {
    torrents = without_id t.id seeder.torrents;
    folder = remove_watch_file faults.locked seeder.folder t.name;
    removed_file = seeder.removed_file;
    ratio_file = seeder.ratio_file;
  }

  -- The loop over the torrents to remove, whose recorded ratio is given by `ratio`. It gives the history to save; a refusal ends it.
  unfoldable pub remove_each :
      Faults
      → Date
      → Text
      → (Torrent F → F)
      → Seeder F
      → Dict (Removed F)
      → List (Torrent F)
      → Outcome (Dict (Removed F))
  unfolding without_torrent record_removal
  remove_each faults today reason ratio seeder history [] = (ok history, seeder)
  remove_each faults today reason ratio seeder history (t ∷ ts) =
      let rest =
        remove_each faults today reason ratio (without_torrent faults seeder t)
          (record_removal history t.name today reason (ratio t)) ts in
      if faults.refused t.id then (raised os_error, seeder) else rest

  -- `save_removed_history`, after a loop that may have raised.
  unfoldable pub save_removed : Faults → Outcome (Dict (Removed F)) → Outcome (Unit {0})
  save_removed faults (raised e, seeder) = (raised e, seeder)
  save_removed faults (ok history, seeder) =
      if faults.removed_unwritable then (raised os_error, seeder) else (
        ok tt,
        record {
          torrents = seeder.torrents;
          folder = seeder.folder;
          removed_file = history;
          ratio_file = seeder.ratio_file;
        },
      )

  unfoldable pub cleanup_old_versions : Faults → Date → Bool → F → Seeder F → Outcome (Unit {0})
  unfolding save_removed remove_each
  cleanup_old_versions faults today skip_ratio_check min_ratio seeder =
      let plan = plan_cleanup fl seeder.torrents skip_ratio_check min_ratio in
      save_removed faults (
        remove_each faults today (codes "keep_only_latest") (ratio_of fl) seeder seeder.removed_file
          plan.0)

  -- `{t.name: float(...) for t in torrents}`
  unfoldable pub put_ratios : Dict F → List (Torrent F) → Dict F
  put_ratios ratios [] = ratios
  put_ratios ratios (t ∷ ts) = put_ratios (Dict.put ratios t.name (ratio_of fl t)) ts

  -- `save_ratio_history`
  unfoldable pub save_ratios : Faults → History F → Outcome (Unit {0}) → Outcome (Unit {0})
  save_ratios faults history (raised e, seeder) = (raised e, seeder)
  save_ratios faults history (ok u, seeder) =
      if faults.ratio_unwritable then (raised os_error, seeder) else (
        ok tt,
        record {
          torrents = seeder.torrents;
          folder = seeder.folder;
          removed_file = seeder.removed_file;
          ratio_file = history;
        },
      )

  -- `current_ratios[torrent.name]`, which has all names: the ratio of the last torrent of the name.
  unfoldable pub current_ratio : Dict F → Torrent F → F
  current_ratio ratios t = elim (Dict.get ratios t.name) [ none ↦ zero_float | some r ↦ r ]

  unfoldable pub carry_out :
      Faults
      → Date
      → Dict F
      → Seeder F
      → History F
      → Result (Split fl (Option F))
      → Outcome (Unit {0})
  unfolding remove_each save_removed save_ratios
  carry_out faults today ratios seeder history (raised e) = (raised e, seeder)
  carry_out faults today ratios seeder history (ok (to_remove, to_keep)) =
      save_ratios faults history (
        save_removed faults (
          remove_each faults today (codes "stagnant") (current_ratio ratios) seeder
            seeder.removed_file to_remove))

  unfoldable pub judge_all :
      Faults → Date → ℤ → F → Seeder F → Dict F → Result (History F) → Outcome (Unit {0})
  unfolding carry_out
  judge_all faults today window delta seeder ratios (raised e) = (raised e, seeder)
  judge_all faults today window delta seeder ratios (ok history) =
      carry_out faults today ratios seeder history
        (plan_stagnation_cleanup fl seeder.torrents history today window delta)

  unfoldable pub cleanup_stagnant_torrents : Faults → Date → ℤ → F → Seeder F → Outcome (Unit {0})
  unfolding judge_all put_ratios
  cleanup_stagnant_torrents faults today window delta seeder =
      let ratios = put_ratios [] seeder.torrents in
      judge_all faults today window delta seeder ratios
        (update_ratio_history seeder.ratio_file ratios today (pos 7) window seeder.removed_file)

  -- `_used_percent` of what a call of `disk_usage` gives: the total and the used bytes.
  unfoldable pub used_percent : ℕ × ℕ → F
  used_percent (total, used) =
      if total == 0 then zero_float else percent (from_int (pos used)) (from_int (pos total))

  -- What follows a reading: what is there if it is below the limit, and more otherwise.
  unfoldable pub after_reading :
      {A : Type 0} → F → Result (ℕ × ℕ) → Seeder F → Outcome A → Outcome A → Outcome A
  unfolding used_percent
  after_reading threshold (raised e) seeder enough more = (raised e, seeder)
  after_reading threshold (ok reading) seeder enough more =
      if lt (used_percent reading) threshold then enough else more

  -- The loop of `enforce_disk_usage_limit`; `usage` gives the readings in the order of the
  -- calls of `disk_usage`, which may raise.
  unfoldable pub free_space :
      Faults
      → Date
      → F
      → (ℕ → Result (ℕ × ℕ))
      → ℕ
      → Seeder F
      → Dict (Removed F)
      → List (Torrent F)
      → Outcome (Dict (Removed F))
  unfolding after_reading without_torrent record_removal
  free_space faults today threshold usage n seeder history [] = (ok history, seeder)
  free_space faults today threshold usage n seeder history (t ∷ ts) =
      let rest =
        free_space faults today threshold usage (suc n) (without_torrent faults seeder t)
          (record_removal history t.name today (codes "disk_pressure") (ratio_of fl t)) ts in
      after_reading threshold (usage n) seeder (ok history, seeder)
        (if faults.refused t.id then (raised os_error, seeder) else rest)

  unfoldable pub free_candidates :
      Faults → Date → F → (ℕ → Result (ℕ × ℕ)) → Seeder F → List (Torrent F) → Outcome (Unit {0})
  unfolding free_space save_removed
  free_candidates faults today threshold usage seeder [] = (ok tt, seeder)
  free_candidates faults today threshold usage seeder (t ∷ ts) =
      save_removed faults
        (free_space faults today threshold usage 1 seeder seeder.removed_file (t ∷ ts))

  -- What follows the first call of `disk_usage`.
  unfoldable pub after_first_reading :
      Faults → Date → F → (ℕ → Result (ℕ × ℕ)) → Seeder F → Result (ℕ × ℕ) → Outcome (Unit {0})
  unfolding free_candidates
  after_first_reading faults today threshold usage seeder (raised e) = (raised e, seeder)
  after_first_reading faults today threshold usage seeder (ok reading) =
      if lt (used_percent reading) threshold
      then (ok tt, seeder)
      else free_candidates faults today threshold usage seeder
          (plan_disk_pressure_cleanup fl seeder.torrents (used_percent reading) threshold)

  unfoldable pub enforce_disk_usage_limit :
      Faults → Date → F → (ℕ → Result (ℕ × ℕ)) → Seeder F → Outcome (Unit {0})
  unfolding after_first_reading
  enforce_disk_usage_limit faults today threshold usage seeder =
      if le threshold zero_float
      then (ok tt, seeder)
      else after_first_reading faults today threshold usage seeder (usage 0)
