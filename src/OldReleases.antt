-- ===== src/OldReleases.antt =====
-- fetch_torrents.py: the loop over old releases, which adds those in demand to the watch folder.
pub mod Added
use linux_iso_seeder.Base.{
  ℕ, zero, suc, ◌+◌, Bool, true, false, ◌&&◌, ◌||◌, not, Option, none, some, List, [], ◌∷◌,
  if◌then◌else◌, Result, ok, raised, Error, type_error,
}
use linux_iso_seeder.Base.Int.{ℤ}
use linux_iso_seeder.Base.Text.{Text}
use linux_iso_seeder.Base.Dict
use linux_iso_seeder.Base.Dict.{Dict}
use linux_iso_seeder.Base.Float.{Float}
use linux_iso_seeder.Dates.{Date, isoformat}
use linux_iso_seeder.Names.{Distro}
use linux_iso_seeder.Gate.{Removed}
use linux_iso_seeder.LowDemand.{filter_low_demand}
use linux_iso_seeder.Bencode.Value.{Value}
use linux_iso_seeder.Watch.{
  Bytes, Folder, Fault, Response, safe_watch_path, watch_file_present, write_watch_file,
}
use linux_iso_seeder.Demand.{
  Scrape, Floor, Evaluation, Checked, should_recheck_old_release, evaluate_old_release_demand,
}

-- What the loop changes: the watch folder, its copy of the check state, and the two counts.
pub record Check : Type 0 where
  pub folder : Folder
  pub check_state : Dict Checked
  pub added : ℕ
  pub skipped : ℕ

-- The network, the faults of the writes to each file, and the arguments that the loop only reads.
pub record Survey (fl : Float) : Type 0 where
  pub http : Text → Response
  pub scrape : Bytes → Result (Option Scrape)
  pub fault : Text → Fault
  pub discovery : Distro → Option (Dict Text)
  pub include_low_demand : Bool
  pub floor : Floor fl.F
  pub removed_history : Dict (Removed fl.F)
  pub today : Date
  pub recheck_interval_days : ℤ

abbrev pub Outcome : Type 0
Outcome = Result (Unit {0}) × Check

-- `skipped += 1`
abbrev pub skip : Check → Check
skip c = record c { skipped = suc c.skipped }

abbrev pub leechers_of : Option Scrape → Option Value
leechers_of none = none
leechers_of (some s) = some s.leechers

-- The entry that is made once a name was evaluated.
abbrev pub note_checked : Date → Text → Evaluation → Check → Check
note_checked today name ev c = record c {
  check_state =
      Dict.put c.check_state name
        (record { last_checked = isoformat today; leechers = leechers_of ev.scrape_result });
}

-- After a write: a failed one takes the entry back.
unfoldable pub written : Text → Check → Result (Unit {0}) × Folder → Outcome
written name c (ok u, folder) = (ok tt, record c { folder = folder; added = suc c.added })
written name c (raised e, folder) = (
  ok tt,
  record c { folder = folder; check_state = Dict.del c.check_state name; skipped = suc c.skipped },
)

-- `_write_watch_file(dest, torrent_bytes)`: None is no content to write.
unfoldable pub write_kept : Fault → Text → Text → Check → Option Bytes → Outcome
unfolding written
write_kept fault name dest c none = (raised type_error, c)
write_kept fault name dest c (some content) =
    written name c (write_watch_file fault c.folder dest content)

module _ (fl : Float) (survey : Survey fl) where
  open survey use {
    http, scrape, fault, discovery, include_low_demand, floor, removed_history, today,
    recheck_interval_days,
  }

  unfoldable pub evaluated : Text → Text → Check → Evaluation → Outcome
  unfolding write_kept
  evaluated name dest c ev =
      let noted = note_checked today name ev c in
      if ev.keep
      then write_kept (fault dest) name dest noted ev.torrent_bytes
      else (ok tt, skip noted)

  -- What `should_recheck_old_release` decides.
  unfoldable pub if_evaluated : Text → Text → Check → Result Evaluation → Outcome
  unfolding evaluated
  if_evaluated name dest c (raised e) = (raised e, c)
  if_evaluated name dest c (ok ev) = evaluated name dest c ev

  unfoldable pub if_due : Text → Text → Text → Check → Result Bool → Outcome
  unfolding if_evaluated
  if_due name url dest c (raised e) = (raised e, c)
  if_due name url dest c (ok false) = (ok tt, skip c)
  if_due name url dest c (ok true) =
      if_evaluated name dest c (evaluate_old_release_demand fl scrape floor (http url))

  unfoldable pub check_at : Text → Text → Check → Option Text → Outcome
  unfolding if_due
  check_at name url c none = (ok tt, skip c)
  check_at name url c (some dest) =
      if watch_file_present c.folder dest
      then (ok tt, c)
      else if Dict.has removed_history name
      then (ok tt, skip c)
      else if_due name url dest c
          (should_recheck_old_release c.check_state today recheck_interval_days name)

  -- One round of the loop over the candidates of a distribution.
  unfoldable pub check_candidate : Text → Text → Check → Outcome
  unfolding check_at
  check_candidate name url c = check_at name url c (safe_watch_path name)

  -- What follows a round: an exception leaves both loops.
  abbrev pub go_on : Outcome → (Check → Outcome) → Outcome
  go_on (ok u, c) next = next c
  go_on (raised e, c) next = (raised e, c)

  unfoldable pub check_candidates : Dict Text → Check → Outcome
  unfolding check_candidate
  check_candidates [] c = (ok tt, c)
  check_candidates ((name, url) ∷ candidates) c =
      go_on (check_candidate name url c) (check_candidates candidates)

  -- `discovery.get(distro)`, called; None, or nothing found, is no candidate.
  unfoldable pub candidates_of : Distro → Dict Text
  candidates_of distro = elim (discovery distro) [
    | none ↦ []
    | some found ↦ filter_low_demand found include_low_demand
  ]

  unfoldable pub check_distros : List Distro → Check → Outcome
  unfolding check_candidates candidates_of
  check_distros [] c = (ok tt, c)
  check_distros (d ∷ ds) c = go_on (check_candidates (candidates_of d) c) (check_distros ds)

  unfoldable pub check_old_releases_for_demand : List Distro → Folder → Dict Checked → Outcome
  unfolding check_distros
  check_old_releases_for_demand selected_distros folder check_state =
      check_distros selected_distros
        (record { folder = folder; check_state = check_state; added = 0; skipped = 0 })
