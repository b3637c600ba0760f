-- ===== src/Demand.antt =====
-- fetch_torrents.py: whether an old release is in demand, and when it is looked at again.
pub mod Kept
use linux_iso_seeder.Base.{
  ℕ, Bool, true, false, ◌&&◌, ◌||◌, not, Option, none, some, List, [], ◌∷◌, if◌then◌else◌, Result,
  ok, raised, ◌>>=◌, ◌==◌, type_error, overflow_error,
}
use linux_iso_seeder.Base.Int.{ℤ, pos, negsuc, ltb_ℤ}
use linux_iso_seeder.Base.Text.{Text}
use linux_iso_seeder.Base.Dict
use linux_iso_seeder.Base.Dict.{Dict}
use linux_iso_seeder.Base.Float.{Float}
use linux_iso_seeder.Dates.{Date}
use linux_iso_seeder.Cleanup.History.{age}
use linux_iso_seeder.Bencode.Value.{Value, int}
use linux_iso_seeder.Watch.{Bytes, Response, reply, no_reply, is_error_status}

-- What `torrent_scrape.scrape_torrent` gives. An HTTP tracker may put any bencoded value for a count.
pub record Scrape : Type 0 where
  pub tracker : Text
  pub seeders : Value
  pub leechers : Value
  pub completed : Value

abbrev pub is_zero : ℤ → Bool
is_zero (pos n) = n == 0
is_zero (negsuc n) = false

-- A count as an operand of `<` or `*` with a number.
unfoldable pub as_number : Value → Result ℤ
as_number (int n) = ok n
as_number _ = raised type_error

-- What `check_old_releases_for_demand` asks of a swarm.
pub record Floor (R : Type 0) : Type 0 where
  pub min_leechers : ℤ
  pub min_leecher_ratio : R
  pub allow_zero_seeders : Bool

-- `evaluate_old_release_demand`'s triple.
pub record Evaluation : Type 0 where
  pub keep : Bool
  pub torrent_bytes : Option Bytes
  pub scrape_result : Option Scrape

abbrev pub not_evaluated : Evaluation
not_evaluated = record { keep = false; torrent_bytes = none; scrape_result = none }

-- What the check state has of a name.
pub record Checked : Type 0 where
  pub last_checked : Text
  pub leechers : Option Value

unfoldable pub is_stale : Date → ℤ → Option Checked → Result Bool
unfolding age
is_stale today recheck_interval_days none = ok true
is_stale today recheck_interval_days (some checked) =
    age today checked.last_checked >>= λ days. ok (not (ltb_ℤ days recheck_interval_days))

unfoldable pub should_recheck_old_release : Dict Checked → Date → ℤ → Text → Result Bool
unfolding is_stale
should_recheck_old_release check_state today recheck_interval_days name =
    is_stale today recheck_interval_days (Dict.get check_state name)

-- A scrape that raises counts as none.
abbrev pub scraped : Result (Option Scrape) → Option Scrape
scraped (ok result) = result
scraped (raised e) = none

module _ (fl : Float) where
  open fl use {F, le, times, from_int, is_too_large}

  -- With at least `min_leechers` leechers. The product with a float makes the seeders a float.
  unfoldable pub is_served_short : Floor F → ℤ → ℤ → Result Bool
  is_served_short floor leechers seeders =
      if is_zero seeders
      then ok floor.allow_zero_seeders
      else if is_too_large seeders
      then raised overflow_error
      else ok (le (times floor.min_leecher_ratio (from_int seeders)) (from_int leechers))

  unfoldable pub has_unmet_demand : Floor F → Option Scrape → Result Bool
  unfolding as_number is_served_short
  has_unmet_demand floor none = ok false
  has_unmet_demand floor (some s) = do
    leechers ← as_number s.leechers
    if ltb_ℤ leechers floor.min_leechers
        then ok false
        else as_number s.seeders >>= λ seeders. is_served_short floor leechers seeders

  -- What follows the download.
  unfoldable pub evaluate_content :
      (Bytes → Result (Option Scrape)) → Floor F → Bytes → Result Evaluation
  unfolding has_unmet_demand
  evaluate_content scrape floor content = do
    keep ← has_unmet_demand floor (scraped (scrape content))
    ok (record {
      keep = keep;
      torrent_bytes = some content;
      scrape_result = scraped (scrape content);
    })

  -- `scrape` is `torrent_scrape.scrape_torrent` on the downloaded bytes.
  unfoldable pub evaluate_old_release_demand :
      (Bytes → Result (Option Scrape)) → Floor F → Response → Result Evaluation
  unfolding evaluate_content
  evaluate_old_release_demand scrape floor no_reply = ok not_evaluated
  evaluate_old_release_demand scrape floor (reply status content) =
      if status == 404
      then ok not_evaluated
      else if is_error_status status
      then ok not_evaluated
      else evaluate_content scrape floor content
