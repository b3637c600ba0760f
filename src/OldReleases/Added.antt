-- ===== src/OldReleases/Added.antt =====
-- What the loop over old releases leaves in the watch folder.
use linux_iso_seeder.Base.{
  ◌≡◌, refl, sym, Bool, true, false, inl, inr, Option, none, some, List, [], ◌∷◌, Result, ok,
  raised, Bool-cases,
}
use linux_iso_seeder.Base.Text.{Text}
use linux_iso_seeder.Base.Dict
use linux_iso_seeder.Base.Dict.{Dict}
use linux_iso_seeder.Base.Float.{Float}
use linux_iso_seeder.Names.{Distro}
use linux_iso_seeder.Watch.{
  Bytes, Folder, Fault, safe_watch_path, watch_file_present, write_watch_file,
}
use linux_iso_seeder.Watch.Changes.{IsChanged, IsChanged-refl, IsChanged-trans, IsChanged-write}
use linux_iso_seeder.Watch.Atomic.{write_watch_file_atomic}
use linux_iso_seeder.Demand.{Evaluation, Checked, evaluate_old_release_demand}
use linux_iso_seeder.Demand.Kept.{IsKept, evaluate_old_release_demand-keep}
use linux_iso_seeder.OldReleases.{
  Check, Survey, Outcome, note_checked, written, write_kept, if_evaluated, if_due, check_at,
  check_candidate, go_on, check_candidates, candidates_of, check_distros,
  check_old_releases_for_demand,
}

module _ (fl : Float) (survey : Survey fl) where
  open survey use {http, scrape, floor, removed_history}

  -- A file that the loop may have written: that of a candidate which is not in the removed history
  -- and whose torrent shows demand, with that torrent as its content.
  abbrev pub IsAdded : Text → Option Bytes → Type 0
  IsAdded j found =
      (name : Text) × (url : Text) × (ev : Evaluation) × (safe_watch_path name ≡ some j)
      × (Dict.has removed_history name ≡ false)
      × IsKept fl scrape floor (http url) ev
      × (found ≡ ev.torrent_bytes)

  -- Every file is as it was, or is a hidden file of a write, or was added.
  abbrev pub IsChecked : Folder → Folder → Type 0
  IsChecked = IsChanged IsAdded

  IsChecked-refl : (folder : Folder) → IsChecked folder folder
  IsChecked-refl = IsChanged-refl IsAdded

  written-folder :
      (name : Text) (c : Check) (out : Result (Unit {0}) × Folder)
      → (written name c out).1.folder ≡ out.1
  unfolding written
  written-folder name c (ok u, folder) = refl
  written-folder name c (raised e, folder) = refl

  go_on-IsChecked :
      (before : Folder) (out : Outcome) (next : Check → Outcome)
      → IsChecked before out.1.folder
      → ((c : Check) → IsChecked c.folder (next c).1.folder)
      → IsChecked before (go_on fl survey out next).1.folder
  go_on-IsChecked before (ok u, c) next first later =
      IsChanged-trans IsAdded before c.folder (next c).1.folder first (later c)
  go_on-IsChecked before (raised e, c) next first later = first

  write_kept-IsChecked :
      (name dest url : Text) (ev : Evaluation) (fault : Fault) (c : Check) (content : Option Bytes)
      → safe_watch_path name ≡ some dest
      → Dict.has removed_history name ≡ false
      → IsKept fl scrape floor (http url) ev
      → ev.torrent_bytes ≡ content
      → IsChecked c.folder (write_kept fault name dest c content).1.folder
  unfolding write_kept
  write_kept-IsChecked name dest url ev fault c none safe kept shown e = IsChecked-refl c.folder
  write_kept-IsChecked name dest url ev fault c (some content) safe kept shown e =
      rw (written-folder name c (write_watch_file fault c.folder dest content)) (
        IsChanged-write IsAdded fault c.folder dest content
          (write_watch_file fault c.folder dest content) (name, url, ev, safe, kept, shown, sym e)
          (write_watch_file_atomic fault c.folder dest content))

  if_evaluated-IsChecked :
      (name dest url : Text) (c : Check) (result : Result Evaluation)
      → safe_watch_path name ≡ some dest
      → Dict.has removed_history name ≡ false
      → evaluate_old_release_demand fl scrape floor (http url) ≡ result
      → IsChecked c.folder (if_evaluated fl survey name dest c result).1.folder
  unfolding if_evaluated
  if_evaluated-IsChecked name dest url c (raised e) safe kept h = IsChecked-refl c.folder
  if_evaluated-IsChecked name dest url c (ok ev) safe kept h = elim (Bool-cases ev.keep) [
    | inl keep ↦ rw keep (
        write_kept-IsChecked name dest url ev (survey.fault dest)
          (note_checked survey.today name ev c) ev.torrent_bytes safe kept
          (evaluate_old_release_demand-keep fl scrape floor (http url) ev h keep) refl)
    | inr drop ↦ rw drop (IsChecked-refl c.folder)
  ]

  if_due-IsChecked :
      (name dest url : Text) (c : Check) (due : Result Bool)
      → safe_watch_path name ≡ some dest
      → Dict.has removed_history name ≡ false
      → IsChecked c.folder (if_due fl survey name url dest c due).1.folder
  unfolding if_due
  if_due-IsChecked name dest url c (raised e) safe kept = IsChecked-refl c.folder
  if_due-IsChecked name dest url c (ok false) safe kept = IsChecked-refl c.folder
  if_due-IsChecked name dest url c (ok true) safe kept =
      if_evaluated-IsChecked name dest url c _ safe kept refl

  check_at-IsChecked :
      (name url : Text) (c : Check) (path : Option Text)
      → safe_watch_path name ≡ path
      → IsChecked c.folder (check_at fl survey name url c path).1.folder
  unfolding check_at
  check_at-IsChecked name url c none safe = IsChecked-refl c.folder
  check_at-IsChecked name url c (some dest) safe =
      elim (Bool-cases (watch_file_present c.folder dest)) [
        | inl there ↦ rw there (IsChecked-refl c.folder)
        | inr absent ↦ elim (Bool-cases (Dict.has removed_history name)) [
          | inl gone ↦ rw (absent, gone) (IsChecked-refl c.folder)
          | inr kept ↦ rw (absent, kept) (if_due-IsChecked name dest url c _ safe kept)
        ]
      ]

  check_candidates-IsChecked :
      (candidates : Dict Text) (c : Check)
      → IsChecked c.folder (check_candidates fl survey candidates c).1.folder
  unfolding check_candidates check_candidate
  check_candidates-IsChecked [] c = IsChecked-refl c.folder
  check_candidates-IsChecked ((name, url) ∷ candidates) c =
      go_on-IsChecked c.folder (check_at fl survey name url c (safe_watch_path name))
        (check_candidates fl survey candidates)
        (check_at-IsChecked name url c (safe_watch_path name) refl)
        (check_candidates-IsChecked candidates)

  check_distros-IsChecked :
      (ds : List Distro) (c : Check) → IsChecked c.folder (check_distros fl survey ds c).1.folder
  unfolding check_distros
  check_distros-IsChecked [] c = IsChecked-refl c.folder
  check_distros-IsChecked (d ∷ ds) c =
      go_on-IsChecked c.folder (check_candidates fl survey (candidates_of fl survey d) c)
        (check_distros fl survey ds) (check_candidates-IsChecked (candidates_of fl survey d) c)
        (check_distros-IsChecked ds)

  -- However the check of old releases ends, each file of the watch folder is as it was, or is a
  -- hidden file of a write, or belongs to a name that is not in the removed history, and holds the
  -- torrent of a release that is in demand.
  pub check_old_releases_for_demand-IsChecked :
      (selected_distros : List Distro) (folder : Folder) (check_state : Dict Checked)
      → IsChecked folder
          (check_old_releases_for_demand fl survey selected_distros folder check_state).1.folder
  unfolding check_old_releases_for_demand
  check_old_releases_for_demand-IsChecked selected_distros folder check_state =
      check_distros-IsChecked selected_distros _
