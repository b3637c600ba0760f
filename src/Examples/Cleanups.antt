-- ===== src/Examples/Cleanups.antt =====
-- The cleanup at concrete inputs: two releases of Kali and one of Debian.
use linux_iso_seeder.Base.{
  Error, raised, Result, ok, ℕ, ◌≡◌, ◌⊎◌, refl, true, false, Option, some, List, [], ◌∷◌, ◌++◌, ok,
  All, AnyOf, ltb, if◌then◌else◌,
}
use mathlib.Core.List.{Perm}
use linux_iso_seeder.Base.Int.{ℤ, pos, add_ℤ}
use linux_iso_seeder.Base.Text.{Text, codes, same, less}
use linux_iso_seeder.Base.Dict
use linux_iso_seeder.Base.Dict.{Dict}
use linux_iso_seeder.Examples.Milli.{milli, milli-IsOrdered}
use linux_iso_seeder.Names.{get_distro, is_devuan, parse_version_type}
use linux_iso_seeder.Names.Version.{version_to_tuple, less_version}
use linux_iso_seeder.Dates.{Date, is_date, from_isoformat, isoformat, days_between}
use linux_iso_seeder.Gate.{Removed}
use linux_iso_seeder.Cleanup.Groups.{Torrent, absent, old_version_candidates, same_group}
use linux_iso_seeder.Cleanup.Leaders.{IsAsNew, AreApart}
use linux_iso_seeder.Cleanup.Superseded.{placed_torrents, old_version_candidates-IsAsNew}
use linux_iso_seeder.Cleanup.History.{Sample, History, update_ratio_history}
use linux_iso_seeder.Cleanup.History.Dated.{IsDated, update_ratio_history-returns}
use linux_iso_seeder.Cleanup.History.Fresh.{IsFresh, update_ratio_history-IsFresh}
use linux_iso_seeder.Cleanup.Plans.{
  Split, plan_cleanup, plan_disk_pressure_cleanup, plan_stagnation_cleanup,
}
use linux_iso_seeder.Cleanup.Plans.Chosen.{
  IsPlan, IsSeeded, IsUnseeded, IsStagnant, IsGrowing, plan_cleanup-IsPlan,
  plan_stagnation_cleanup-IsPlan,
}
use linux_iso_seeder.Cleanup.Plans.Lowest.{IsAscending, plan_disk_pressure_cleanup-IsAscending}
use linux_iso_seeder.Cleanup.Removal.{
  Seeder, Faults, used_percent, cleanup_old_versions, enforce_disk_usage_limit,
}
use linux_iso_seeder.Cleanup.Removal.Cleanups.{
  IsCleanup, IsLimited, cleanup_old_versions-IsCleanup, enforce_disk_usage_limit-IsCleanup,
}

abbrev torrent : ℕ → Text → ℕ → Torrent ℤ
torrent i n r = record { id = i; name = n; ratio = some (pos r); added_date = absent }

abbrev old_one : Torrent ℤ
old_one = torrent 1 (codes "kali-linux-2026.1-installer-arm64.iso") 1500

abbrev new_one : Torrent ℤ
new_one = torrent 2 (codes "kali-linux-2026.2-installer-arm64.iso") 20

abbrev lone : Torrent ℤ
lone = torrent 3 (codes "debian-13.1.0-amd64-DVD-1.iso") 700

abbrev held : List (Torrent ℤ)
held = old_one ∷ new_one ∷ lone ∷ []

abbrev today : Date
today = record { year = 2026; month = 3; day = 1 }

abbrev seeder : Seeder ℤ
seeder = record { torrents = held; folder = []; removed_file = []; ratio_file = [] }

abbrev no_faults : Faults
no_faults = record {
  refused = λ i. false;
  locked = λ n. false;
  removed_unwritable = false;
  ratio_unwritable = false;
}

old_version_candidates-IsAsNew_example :
    (kept : List (Torrent ℤ)) × Perm
      (kept ++ old_version_candidates milli held)
      (placed_torrents milli held)
    × AreApart milli kept
    × All (λ c. AnyOf (IsAsNew milli c) kept) (old_version_candidates milli held)
old_version_candidates-IsAsNew_example = old_version_candidates-IsAsNew milli held milli-IsOrdered

plan_cleanup-IsPlan_example :
    IsPlan milli
      (IsSeeded milli false (pos 1000))
      (IsUnseeded milli false (pos 1000))
      (old_version_candidates milli held)
      (plan_cleanup milli held false (pos 1000))
plan_cleanup-IsPlan_example = plan_cleanup-IsPlan milli held false (pos 1000)

plan_disk_pressure_cleanup-IsAscending_example :
    ((milli.le (pos 90000) (pos 0) ≡ false)
      × (milli.lt (pos 95000) (pos 90000) ≡ false)
      × Perm
          (plan_disk_pressure_cleanup milli held (pos 95000) (pos 90000))
          (old_version_candidates milli held)
      × IsAscending milli (plan_disk_pressure_cleanup milli held (pos 95000) (pos 90000)))
    ⊎ (((milli.le (pos 90000) (pos 0) ≡ true) ⊎ (milli.lt (pos 95000) (pos 90000) ≡ true))
        × (plan_disk_pressure_cleanup milli held (pos 95000) (pos 90000) ≡ []))
plan_disk_pressure_cleanup-IsAscending_example =
    plan_disk_pressure_cleanup-IsAscending milli milli-IsOrdered held (pos 95000) (pos 90000)

cleanup_old_versions-IsCleanup_example :
    IsCleanup milli no_faults today
      (codes "keep_only_latest")
      seeder
      (plan_cleanup milli held false (pos 1000)).0
      (cleanup_old_versions milli no_faults today false (pos 1000) seeder)
cleanup_old_versions-IsCleanup_example =
    cleanup_old_versions-IsCleanup milli no_faults today false (pos 1000) seeder

-- 95 of 100 bytes, until a torrent was removed.
abbrev usage : ℕ → Result (ℕ × ℕ)
usage n = if ltb n 2 then ok (100, 95) else ok (100, 60)

enforce_disk_usage_limit-IsCleanup_example :
    let out = enforce_disk_usage_limit milli no_faults today (pos 90000) usage seeder in
    ((milli.le (pos 90000) (pos 0) ≡ true) × (out ≡ (ok tt, seeder)))
    ⊎ ((e : Error) × (milli.le (pos 90000) (pos 0) ≡ false)
        × (usage 0 ≡ raised e)
        × (out ≡ (raised e, seeder)))
    ⊎ ((reading : ℕ × ℕ) × (milli.le (pos 90000) (pos 0) ≡ false)
        × (usage 0 ≡ ok reading)
        × IsLimited milli no_faults today
            (pos 90000)
            usage
            seeder
            (plan_disk_pressure_cleanup milli held (used_percent milli reading) (pos 90000))
            out)
enforce_disk_usage_limit-IsCleanup_example =
    enforce_disk_usage_limit-IsCleanup milli no_faults today (pos 90000) usage seeder

abbrev sample : Text → ℕ → Sample ℤ
sample d r = record { date = d; ratio = pos r }

abbrev history : History ℤ
history =
    (old_one.name, sample (codes "2026-01-10") 1490 ∷ sample (codes "2026-02-20") 1495 ∷ []) ∷ []

abbrev removed : Dict (Removed ℤ)
removed =
    (
      old_one.name,
      record { removed_date = codes "2026-01-15"; reason = codes "stagnant"; ratio = some (pos 1) },
    )
    ∷ []

abbrev updated : History ℤ
updated =
    (old_one.name, sample (codes "2026-02-20") 1495 ∷ sample (codes "2026-03-01") 1500 ∷ []) ∷ []

update_ratio_history-history :
    update_ratio_history history ((old_one.name, pos 1500) ∷ []) today (pos 7) (pos 30) removed
    ≡ ok updated
unfolding update_ratio_history Dict.get Dict.put same less isoformat
update_ratio_history-history = refl

update_ratio_history-IsFresh_example :
    ((name : Text) → Dict.has updated name ≡ Dict.has ((old_one.name, pos 1500) ∷ []) name)
    × IsFresh today (add_ℤ (pos 30) (pos 7)) removed updated
update_ratio_history-IsFresh_example =
    update_ratio_history-IsFresh history ((old_one.name, pos 1500) ∷ []) today (pos 7) (pos 30)
      removed updated update_ratio_history-history

abbrev plan : Split milli (Option ℤ)
plan = (old_one ∷ [], [])

stagnant_plan : plan_stagnation_cleanup milli held history today (pos 30) (pos 20) ≡ ok plan
unfolding plan_stagnation_cleanup old_version_candidates get_distro parse_version_type
    version_to_tuple same_group same Dict.get from_isoformat days_between is_devuan less_version
stagnant_plan = refl

plan_stagnation_cleanup-IsPlan_example :
    IsPlan milli
      (IsStagnant milli history today (pos 30) (pos 20))
      (IsGrowing milli history today (pos 30) (pos 20))
      (old_version_candidates milli held)
      plan
plan_stagnation_cleanup-IsPlan_example =
    plan_stagnation_cleanup-IsPlan milli held history today (pos 30) (pos 20) plan stagnant_plan

history-IsDated : IsDated today history
unfolding is_date isoformat
history-IsDated = (
  (
    (record { year = 2026; month = 1; day = 10 }, refl, refl),
    ((record { year = 2026; month = 2; day = 20 }, refl, refl), tt),
  ),
  tt,
)

today-is_date : is_date today ≡ true
unfolding is_date
today-is_date = refl

update_ratio_history-returns_example :
    (result : History ℤ) × (split : Split milli (Option ℤ)) × (update_ratio_history history
        ((old_one.name, pos 1500) ∷ [])
        today
        (pos 7)
        (pos 30)
        removed
      ≡ ok result)
    × (plan_stagnation_cleanup milli held result today (pos 30) (pos 20) ≡ ok split)
update_ratio_history-returns_example =
    update_ratio_history-returns milli today held history ((old_one.name, pos 1500) ∷ []) (pos 7)
      (pos 30) (pos 20) removed today-is_date history-IsDated
