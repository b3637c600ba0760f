-- ===== src/Scrape/Trackers.antt =====
-- `scrape_torrent`: the trackers of a torrent, one after the other.
use linux_iso_seeder.Base.{
  ℕ, Bool, true, false, Option, none, some, List, [], ◌∷◌, ◌++◌, map, if◌then◌else◌, Result, ok,
  raised, ◌>>=◌,
}
use linux_iso_seeder.Base.Int.{pos}
use linux_iso_seeder.Base.Text.{Text, codes}
use linux_iso_seeder.Bencode.Value.{Bytes, int}
use linux_iso_seeder.Bencode.Decimal.{show}
use linux_iso_seeder.Bencode.InfoHash.{compute_info_hash}
use linux_iso_seeder.Udp.Messages.{Stats}
use linux_iso_seeder.Watch.{Response, no_reply, reply, is_error_status}
use linux_iso_seeder.Demand.{Scrape}
use linux_iso_seeder.Scrape.Url.{urlsplit, hostname}
use linux_iso_seeder.Scrape.Announce.{get_announce_urls, derive_scrape_url, parse_udp_tracker_url}
use linux_iso_seeder.Scrape.Response.{Counts, build_scrape_request_url, parse_scrape_response}
use linux_iso_seeder.Scrape.Safe.{Ip, is_safe_scrape_host}

-- What lies outside: `requests.get` with the redirects that it follows to get its answer, the DNS, the exchange with a UDP tracker, `ipaddress`, a part of
-- `urlsplit`, and SHA-1.
pub record Network : Type 0 where
  pub http : Text → Response
  pub redirects : Text → List Text
  pub resolve : Text → Result (List Text)
  pub udp_scrape : Text → ℕ → Bytes → Result Stats
  pub ip_address : Text → Result Ip
  pub bad_netloc : Text → Bool
  pub sha1 : Bytes → Bytes

-- A tracker that was asked: over UDP, or for a URL that was made from a scrape URL. A redirect is
-- followed from a request for the first URL to the second.
pub data Contact : Type 0 where
  dialled : Text → ℕ → Contact
  fetched : Text → Contact
  redirected : Text → Text → Contact

-- What the loop does after one tracker: it returns its counts, or goes on.
pub data Step : Type 0 where
  found : Scrape → Step
  next : Step

abbrev pub Attempt : Type 0
Attempt = Result Step × List Contact

abbrev udp_found : Text → ℕ → Result Stats → Step
udp_found host port (raised e) = next
udp_found host port (ok stats) = found (record {
  tracker = codes "udp://" ++ (host ++ (b':' ∷ show port));
  seeders = int (pos stats.seeders);
  leechers = int (pos stats.leechers);
  completed = int (pos stats.completed);
})

abbrev http_found : Text → Result (Option Counts) → Step
http_found scrape_url (raised e) = next
http_found scrape_url (ok none) = next
http_found scrape_url (ok (some counts)) = found (record {
  tracker = scrape_url;
  seeders = counts.seeders;
  leechers = counts.leechers;
  completed = counts.completed;
})

-- The response, unless the status or the content is refused.
unfoldable pub http_step : Text → Bytes → Response → Step
http_step scrape_url info_hash no_reply = next
http_step scrape_url info_hash (reply status content) =
    if is_error_status status
    then next
    else http_found scrape_url (parse_scrape_response content info_hash)

module _ (net : Network) where
  open net use {http, redirects, resolve, udp_scrape, ip_address, bad_netloc, sha1}

  unfoldable pub is_safe : Option Text → Result Bool
  is_safe host = is_safe_scrape_host ip_address resolve host

  -- What follows `_is_safe_scrape_host` for a UDP tracker.
  unfoldable pub udp_attempt : Bytes → Text → ℕ → Result Bool → Attempt
  udp_attempt info_hash host port (raised e) = (raised e, [])
  udp_attempt info_hash host port (ok false) = (ok next, [])
  udp_attempt info_hash host port (ok true) =
      (ok (udp_found host port (udp_scrape host port info_hash)), dialled host port ∷ [])

  -- And for an HTTP tracker.
  unfoldable pub http_attempt : Bytes → Text → Result Bool → Attempt
  unfolding http_step
  http_attempt info_hash scrape_url (raised e) = (raised e, [])
  http_attempt info_hash scrape_url (ok false) = (ok next, [])
  http_attempt info_hash scrape_url (ok true) = (
    ok (http_step scrape_url info_hash (http (build_scrape_request_url scrape_url info_hash))),
    fetched scrape_url
        ∷ map (redirected scrape_url) (redirects (build_scrape_request_url scrape_url info_hash)),
  )

  -- `_is_safe_scrape_host(urlsplit(scrape_url).hostname, resolve)`
  unfoldable pub is_safe_url : Text → Result Bool
  is_safe_url scrape_url = urlsplit bad_netloc scrape_url >>= λ parts. is_safe (hostname parts)

  unfoldable pub http_tracker : Bytes → Result (Option Text) → Attempt
  http_tracker info_hash (raised e) = (raised e, [])
  http_tracker info_hash (ok none) = (ok next, [])
  http_tracker info_hash (ok (some scrape_url)) =
      http_attempt info_hash scrape_url (is_safe_url scrape_url)

  unfoldable pub udp_tracker : Bytes → Text → Result (Option (Text × ℕ)) → Attempt
  udp_tracker info_hash announce_url (raised e) = (raised e, [])
  udp_tracker info_hash announce_url (ok (some (host, port))) =
      udp_attempt info_hash host port (is_safe (some host))
  udp_tracker info_hash announce_url (ok none) =
      http_tracker info_hash (derive_scrape_url bad_netloc announce_url)

  -- One round of the loop.
  unfoldable pub try_tracker : Bytes → Text → Attempt
  unfolding udp_tracker http_tracker
  try_tracker info_hash announce_url =
      udp_tracker info_hash announce_url (parse_udp_tracker_url bad_netloc announce_url)

  abbrev pub Outcome : Type 0
  Outcome = Result (Option Scrape) × List Contact

  -- What follows a round.
  unfoldable pub go_on : Attempt → Outcome → Outcome
  go_on (raised e, contacts) rest = (raised e, contacts)
  go_on (ok (found s), contacts) rest = (ok (some s), contacts)
  go_on (ok next, contacts) rest = (rest.0, contacts ++ rest.1)

  unfoldable pub try_trackers : Bytes → List Text → Outcome
  unfolding try_tracker go_on
  try_trackers info_hash [] = (ok none, [])
  try_trackers info_hash (url ∷ urls) =
      go_on (try_tracker info_hash url) (try_trackers info_hash urls)

  unfoldable pub scrape_announced : Result Bytes → Result (List Text) → Outcome
  unfolding try_trackers
  scrape_announced (raised e) urls = (raised e, [])
  scrape_announced (ok info_hash) (raised e) = (raised e, [])
  scrape_announced (ok info_hash) (ok urls) = try_trackers info_hash urls

  unfoldable pub scrape_torrent : Bytes → Outcome
  unfolding scrape_announced
  scrape_torrent torrent_bytes =
      scrape_announced (compute_info_hash sha1 torrent_bytes) (get_announce_urls torrent_bytes)
