-- ===== src/Run/Inputs.antt =====
-- What a daily run works on, and what lies outside it.
use linux_iso_seeder.Base.{ℕ, Bool, Option, List, Result}
use linux_iso_seeder.Base.Text.{Text}
use linux_iso_seeder.Base.Dict.{Dict}
use linux_iso_seeder.Base.Float.{Float}
use linux_iso_seeder.Dates.{Date}
use linux_iso_seeder.Names.{Distro}
use linux_iso_seeder.Watch.{Bytes, Fault, Response}
use linux_iso_seeder.Demand.{Scrape, Checked}
use linux_iso_seeder.Cleanup.Removal.{Seeder, Faults}
use linux_iso_seeder.Rpc.{Daemon}

pub record RunSummary (R : Type 0) : Type 0 where
  pub elapsed : R
  pub added_count : ℕ
  pub existing_count : ℕ
  pub not_found_count : ℕ
  pub failed_count : ℕ
  pub old_added : Option ℕ
  pub old_skipped : Option ℕ

-- What a run works on: the watch folder, Transmission's torrents and the files beside its log.
pub record World (R : Type 0) : Type 0 where
  pub seeder : Seeder R
  pub check_file : Dict Checked
  pub ratio_log : Option (List Text)

-- What lies outside a run, and its arguments. A fetcher or a discovery gives names and URLs.
pub record Services (fl : Float) : Type 0 where
  pub http : Text → Response
  pub scrape : Bytes → Result (Option Scrape)
  pub fault : Text → Text → Fault
  pub old_fault : Text → Fault
  pub fetchers : List (Distro × Result (Dict Text))
  pub discovery : Distro → Option (Dict Text)
  pub today : Date
  pub started : fl.F
  pub ended : fl.F
  -- `wait_for_rpc()`, the daemon's answers, and the time that the logger puts before its lines.
  pub rpc_ready : Bool
  pub daemon : Daemon fl
  pub asctime : Text
  -- `client_factory().get_torrents()`, for either cleanup, and what the removals meet.
  pub client : Result (Unit {0})
  pub faults : Faults
  pub limit_client : Result (Unit {0})
  pub limit_faults : Faults
  -- The readings of the disk for the limit, in their order, and the one at the end of the run.
  pub usage : ℕ → Result (ℕ × ℕ)
  pub final_usage : Result (ℕ × ℕ)
  -- Whether the removed history's file decodes as UTF-8, and the check's file cannot be written.
  pub removed_read : Result (Unit {0})
  pub check_unwritable : Bool
