-- ===== src/Examples/Runs.antt =====
-- The settings, the check of old releases, the run and the RPC at concrete inputs.
use linux_iso_seeder.Base.{
  ℕ, ◌≡◌, ◌↔◌, ◌⊎◌, ◌*◌, ◌<◌, refl, Bool, true, false, not, none, some, List, [], ◌∷◌, any, all,
  arith, ok, raised, value_error, os_error, if◌then◌else◌, All,
}
use linux_iso_seeder.Base.Int.{ℤ, pos}
use linux_iso_seeder.Base.Text.{Text, codes, same, starts_with}
use linux_iso_seeder.Base.Strings.{strip, join, is_space, contains, int_of}
use linux_iso_seeder.Base.Dict
use linux_iso_seeder.Base.Dict.{Dict}
use linux_iso_seeder.Base.Env.{Environment, env_text}
use linux_iso_seeder.Bencode.Value.{int}
use linux_iso_seeder.Bencode.Decimal.{show}
use linux_iso_seeder.Names.{debian, kali, arch}
use linux_iso_seeder.Watch.{no_fault, Response, reply}
use linux_iso_seeder.Demand.{Scrape}
use linux_iso_seeder.OldReleases.{Survey, check_old_releases_for_demand}
use linux_iso_seeder.OldReleases.Added.{IsChecked, check_old_releases_for_demand-IsChecked}
use linux_iso_seeder.Config.{
  Config, Field, cleanup_min_ratio, stagnation_window_days, is_opt_in, all_distros,
  parse_supported_distros, require, load_config,
}
use linux_iso_seeder.Config.Distros.{
  selects, names_distro, IsCommaFree, parse_supported_distros_lem,
}
use linux_iso_seeder.Config.Required.{is_set, require-load_config}
use linux_iso_seeder.Cleanup.Removal.{Faults}
use linux_iso_seeder.Ratios.{get_previous_ratios}
use linux_iso_seeder.Rpc.{
  Daemon, Entry, ratio_log_of, ratio_message, padded, log_seed_ratios_via_http, sorted,
}
use linux_iso_seeder.Rpc.Waiting.{
  Attempts, wait_for_transmission_rpc, begins, wait_for_transmission_rpc-returns,
}
use linux_iso_seeder.Rpc.Kept.{IsDone, IsKeptLog, log_seed_ratios_via_http_cases}
use linux_iso_seeder.Rpc.ReadBack.{
  IsBracketless, IsLogged, recorded, get_previous_ratios-ratio_log_of,
}
use linux_iso_seeder.Run.Inputs.{World, Services}
use linux_iso_seeder.Run.Fetching.{Fetch, is_enabled, fetch_latest}
use linux_iso_seeder.Run.Gated.{IsFetched, fetch_latest-IsFetched}
use linux_iso_seeder.Run.Counts.{IsFine, fetchers_count, Returns, run-Returns}
use linux_iso_seeder.Run.{run}
use linux_iso_seeder.Discovery.Fedora.{fedora_match, fedora_workstation_torrents}
use linux_iso_seeder.Discovery.Listed.{IsGrouped}
use linux_iso_seeder.Discovery.Newest.{AreNewestFirst, fedora_workstation_torrents-AreNewestFirst}
use linux_iso_seeder.Examples.Milli.{milli}

abbrev environment : Environment
environment =
    (codes "FETCH_TORRENTS_DISTROS", codes "Debian, arch")
    ∷ (codes "CLEANUP_MIN_RATIO", codes "high")
    ∷ []

abbrev asked_entries : List Text
asked_entries = codes "Debian" ∷ codes " arch" ∷ []

asked-IsCommaFree : All IsCommaFree asked_entries
asked-IsCommaFree = ground arith

asked-join :
    strip (env_text environment (codes "FETCH_TORRENTS_DISTROS")) ≡ join (codes ",") asked_entries
unfolding strip join Dict.get same
asked-join = refl

parse_supported_distros_lem_example : selects (parse_supported_distros environment) arch ≡ (
    if any (names_distro asked_entries) all_distros
    then names_distro asked_entries arch
    else not (is_opt_in arch))
parse_supported_distros_lem_example =
    parse_supported_distros_lem environment asked_entries arch asked-IsCommaFree asked-join

abbrev config : Config ℤ
config = load_config milli environment

abbrev cleanup_fields : List Field
cleanup_fields = cleanup_min_ratio ∷ stagnation_window_days ∷ []

require-load_config_example :
    require config cleanup_fields
    ≡ (if all (is_set config) cleanup_fields then ok tt else raised value_error)
require-load_config_example = require-load_config milli environment cleanup_fields

abbrev http : Text → Response
http url = reply 200 (codes "d4:infoe")

abbrev swarm : Scrape
swarm = record {
  tracker = codes "t";
  seeders = int (pos 10);
  leechers = int (pos 5);
  completed = int (pos 0);
}

abbrev old_debian : Text
old_debian = codes "debian-12.0.0-amd64-netinst"

abbrev candidates : Dict Text
candidates = (old_debian, codes "u") ∷ []

abbrev survey : Survey milli
survey = record {
  http = http;
  scrape = λ content. ok (some swarm);
  fault = λ dest. no_fault;
  discovery = λ distro. some candidates;
  include_low_demand = false;
  floor = record { min_leechers = pos 2; min_leecher_ratio = pos 100; allow_zero_seeders = false };
  removed_history = [];
  today = record { year = 2026; month = 11; day = 25 };
  recheck_interval_days = pos 7;
}

check_old_releases_for_demand-IsChecked_example :
    IsChecked milli survey []
      (check_old_releases_for_demand milli survey (debian ∷ []) [] []).1.folder
check_old_releases_for_demand-IsChecked_example =
    check_old_releases_for_demand-IsChecked milli survey (debian ∷ []) [] []

abbrev entries : List (Entry milli)
entries = (codes "kali 1", some (pos 1250)) ∷ []

abbrev daily_config : Config ℤ
daily_config = record {
  distros = debian ∷ kali ∷ [];
  include_low_demand = false;
  skip_ratio_check = false;
  check_old_releases = true;
  min_leechers = some (pos 10);
  min_leecher_ratio = some (pos 100);
  allow_zero_seeders = false;
  recheck_days = some (pos 7);
  skip_removed = true;
  keep_only_latest = false;
  cleanup_skip_ratio_check = false;
  min_ratio = some (pos 1000);
  window_days = some (pos 30);
  min_ratio_delta = some (pos 20);
  threshold_percent = some (pos 95000);
  rpc_username = none;
  rpc_password = none;
  invalid = [];
}

abbrev daemon : Daemon milli
daemon = record {
  hello = λ auth. ok (409, some (codes "id"));
  torrent_get = λ auth session. ok (200, ok entries);
}

abbrev faults : Faults
faults = record {
  refused = λ id. false;
  locked = λ path. false;
  removed_unwritable = false;
  ratio_unwritable = false;
}

abbrev asctime : Text
asctime = codes "12:00"

abbrev services : Services milli
services = record {
  http = http;
  scrape = λ content. ok (some swarm);
  fault = λ name url. no_fault;
  old_fault = λ dest. no_fault;
  fetchers = (arch, raised os_error) ∷ (debian, ok candidates) ∷ (kali, ok []) ∷ [];
  discovery = λ distro. some candidates;
  today = record { year = 2026; month = 11; day = 25 };
  started = pos 1000;
  ended = pos 3000;
  rpc_ready = true;
  daemon = daemon;
  asctime = asctime;
  client = ok tt;
  faults = faults;
  limit_client = ok tt;
  limit_faults = faults;
  usage = λ n. raised os_error;
  final_usage = ok (100, 50);
  removed_read = ok tt;
  check_unwritable = false;
}

abbrev empty_fetch : Fetch ℤ
empty_fetch = record {
  folder = [];
  summary = record {
    elapsed = pos 0;
    added_count = 0;
    existing_count = 0;
    not_found_count = 0;
    failed_count = 0;
    old_added = none;
    old_skipped = none;
  };
}

fetch_latest-IsFetched_example :
    IsFetched milli services daily_config [] [] []
      (fetch_latest milli services daily_config [] [] services.fetchers empty_fetch).1.folder
fetch_latest-IsFetched_example =
    fetch_latest-IsFetched milli services daily_config [] [] empty_fetch

abbrev world : World ℤ
world = record {
  seeder = record { torrents = []; folder = []; removed_file = []; ratio_file = [] };
  check_file = [];
  ratio_log = none;
}

no_ratios : get_previous_ratios milli world.ratio_log ≡ ok []
unfolding get_previous_ratios
no_ratios = refl

-- Arch's fetcher raises, but is not asked for.
fetchers-IsFine : All (IsFine milli services daily_config [] []) services.fetchers
unfolding is_enabled
fetchers-IsFine = (refl, (tt, (tt, tt)))

run-Returns_example :
    Returns milli services daily_config
      (fetchers_count milli services daily_config [] [] services.fetchers)
      (run milli services daily_config world).0
run-Returns_example =
    run-Returns milli services daily_config world [] no_ratios refl ((100, 50), refl)
      fetchers-IsFine

abbrev attempts : Attempts
attempts = record { accepts = λ n. true; cost = λ n. 3 }

wait_for_transmission_rpc-returns_example :
    ((answer : Bool) × (wait_for_transmission_rpc attempts 30 ≡ some answer))
    × ((wait_for_transmission_rpc attempts 30 ≡ some true)
        ↔ ((m : ℕ) × (attempts.accepts m ≡ true) × (begins attempts m < 30 * 1000)))
wait_for_transmission_rpc-returns_example = wait_for_transmission_rpc-returns attempts 30

log_seed_ratios_via_http_cases_example :
    IsDone milli daemon asctime none none (log_seed_ratios_via_http milli daemon asctime none none)
    ⊎ IsKeptLog milli daemon asctime none none
        (log_seed_ratios_via_http milli daemon asctime none none)
log_seed_ratios_via_http_cases_example =
    log_seed_ratios_via_http_cases milli daemon asctime none none

asctime-IsBracketless : IsBracketless asctime
asctime-IsBracketless = (refl, (refl, (refl, (refl, (refl, tt)))))

entry-IsLogged : IsLogged milli asctime (codes "kali 1", some (pos 1250))
unfolding is_space strip contains starts_with ratio_message padded show int_of
entry-IsLogged = record {
  plain = (refl, refl, (refl, refl, (refl, refl, (refl, refl, (refl, refl, (refl, refl, refl))))));
  start = refl;
  stripped = refl;
  decimal = record {
    whole_first = b'1';
    whole = [];
    part_first = b'2';
    part = codes "50";
    first_digit = refl;
    digits = tt;
    part_digit = refl;
    part_digits = (refl, (refl, tt));
    written = refl;
  };
  reads = refl;
  unmarked = refl;
}

get_previous_ratios-ratio_log_of_example :
    get_previous_ratios milli (some (ratio_log_of milli asctime entries))
    ≡ ok (recorded milli [] (sorted milli entries))
get_previous_ratios-ratio_log_of_example =
    get_previous_ratios-ratio_log_of milli asctime entries asctime-IsBracketless
      (entry-IsLogged, tt)

abbrev fedora_links : List Text
fedora_links =
    codes "Fedora-Workstation-Live-x86_64-41.torrent"
    ∷ codes "Fedora-Workstation-Live-x86_64-42.torrent"
    ∷ []

fedora_workstation_torrents-AreNewestFirst_example :
    AreNewestFirst fedora_links (fedora_workstation_torrents fedora_links)
    × All
        (λ href. IsGrouped (fedora_workstation_torrents fedora_links) href (fedora_match href))
        fedora_links
fedora_workstation_torrents-AreNewestFirst_example =
    fedora_workstation_torrents-AreNewestFirst fedora_links
