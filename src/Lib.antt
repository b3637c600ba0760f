-- ===== src/Lib.antt =====
-- linux-iso-seeder: a container that fetches the torrents of Linux releases, seeds them with
-- Transmission and cleans superseded ones up. This library models the program's decisions.
--
-- The parts, and how they interact. A daily run (fetch_torrents.py) asks each distribution's site
-- for its latest release, asks the ratio gate whether to fetch it, and puts the torrent into the
-- watch folder that transmission-daemon reads. Then it looks for old releases in demand, which a
-- scrape of their trackers shows (torrent_scrape.py), logs the ratios of what is seeded, which the
-- gate of the next run reads, and cleans up: it groups the torrents held,
-- and removes superseded ones by ratio, by stagnation or under disk pressure, recording each
-- removal in a history file that the gate reads later. Before the daemon starts,
-- configure_transmission.py writes overrides from the environment into its settings.
--
-- Bencode: torrent_scrape.py, `bdecode`, `bencode` and `compute_info_hash`, where SHA-1 is a
--   parameter. The index into the data is the rest of the data. `decode` runs on fuel, twice the
--   length of the data and one, which is enough for any data; Python's recursion
--   limit is left out; its limit of 4300 digits for the conversion of ints from and to text, the
--   default since Python 3.11, is modelled, but for `str(len(value))` in `bencode`.
-- Udp: torrent_scrape.py, the messages of BEP 15 and `scrape_udp_tracker`. The network and the
--   transaction ids are parameters.
-- Scrape: torrent_scrape.py. Url has what the program uses of urllib.parse, whose checks of a netloc
--   in brackets or with characters that are not ASCII are a parameter; Announce has
--   `get_announce_urls`, `derive_scrape_url` and `parse_udp_tracker_url`; Response has
--   `build_scrape_request_url` and `parse_scrape_response`; Safe has `_is_safe_scrape_host`, and
--   Trackers `scrape_torrent`, which also gives the contacts that it makes. The DNS, `ipaddress`,
--   `requests`, the redirects that it follows, and the exchange with a UDP tracker are parameters.
-- Discovery: fetch_torrents.py, the fetchers of Kali here, those of Fedora in Fedora, those of Debian,
--   Mint and Devuan in Pages and that of Ubuntu in Ubuntu. What they find in a page is computed from
--   its text or its links, which are parameters. Digits and letters of their patterns are ASCII's.
-- Names: fetch_torrents.py, the patterns of names, `get_distro`, `parse_version_type`,
--   `version_to_tuple`. The digits that int() and the patterns accept are ASCII's.
-- Config: fetch_torrents.py, `parse_log_level`, `parse_bool`, `parse_int`,
--   `parse_supported_distros`, `Config` and `load_config`.
-- LowDemand: fetch_torrents.py, `is_low_demand_variant` and `filter_low_demand`.
-- Logging: fetch_torrents.py, the filters that decide which messages reach which file.
-- Gate: fetch_torrents.py, `should_fetch_torrent` and `_should_fetch_devuan`.
-- Watch: fetch_torrents.py, `_safe_watch_path`, `_watch_file_present`, `_write_watch_file`,
--   `download_torrent`, `_remove_watch_file`. The folder is a dict from file names to contents;
--   the HTTP client and the faults of a write are parameters.
-- Cleanup: fetch_torrents.py. Groups has `_old_version_candidates`; History has
--   `update_ratio_history` and `_stagnation_anchor`; Plans has `plan_cleanup`,
--   `plan_disk_pressure_cleanup` and `plan_stagnation_cleanup`; Removal has `record_removal` and
--   the cleanups that carry plans out, on a state of the daemon's torrents, the watch folder and
--   the two history files. Refused calls, files that cannot be removed or written, and the
--   readings of the disk, which may raise, are parameters.
-- Demand: fetch_torrents.py, `has_unmet_demand`, `evaluate_old_release_demand`,
--   `should_recheck_old_release`. The scrape of the content is a parameter, for which
--   `scrape_torrent` serves.
-- OldReleases: fetch_torrents.py, `check_old_releases_for_demand`, on the watch folder and the check
--   state.
-- Ratios: fetch_torrents.py, `get_previous_ratios` on the lines of the ratio log, with the
--   backtracking of its pattern. A digit is an ASCII digit.
-- Rpc: fetch_torrents.py, `wait_for_transmission_rpc`, `rpc_refusal_message` and
--   `log_seed_ratios_via_http`. The wait runs on fuel: a second is slept in each round, so the
--   timeout in seconds and one is enough. The daemon's answers are parameters. The lines of one log
--   have one time, and a name has no line break.
-- Run: fetch_torrents.py, `_fetch_latest`, `_check_old_releases`, `_cleanup` and `run`. Inputs has
--   the world that a run changes and what lies outside; a client that cannot connect or list its
--   torrents is an error there. A run gives its summary, the world after it, and the errors it logs.
-- Configure: configure_transmission.py, all of it, on the state of the one settings file.
-- Dates: the calendar of Python's datetime.date, and ISO texts in the one form that is stored.
-- Base: lists, texts as lists of code points, dicts as association lists in insertion order,
--   results of calls that may raise, and floats, which are a parameter (`Float`); the laws that a
--   proof needs of their order are the record `IsOrdered`.
-- Examples: the theorems at concrete inputs; Milli has floats that count thousandths.
--
-- Not modelled: the fetcher of Arch's page, the handlers of the log, the RPC client's own code, what
-- the daemon does during a run, and the scripts, which are input and output around other sites. Log
-- messages are left out but for the ratio log's.
pub mod Base
pub mod Bencode
pub mod Udp
pub mod Scrape
pub mod Names
pub mod Config
pub mod LowDemand
pub mod Logging
pub mod Gate
pub mod Cleanup
pub mod Watch
pub mod Dates
pub mod Demand
pub mod Discovery
pub mod OldReleases
pub mod Ratios
pub mod Rpc
pub mod Run
pub mod Configure
mod Examples
