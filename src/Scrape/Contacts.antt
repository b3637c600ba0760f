-- ===== src/Scrape/Contacts.antt =====
-- Which hosts `scrape_torrent` contacts.
use linux_iso_seeder.Base.{
  ℕ, ◌≡◌, ◌≢◌, refl, Bool, true, false, Option, none, some, List, [], ◌∷◌, Result, ok, raised,
  >>=-eq-ok, All, All-append, map,
}
use linux_iso_seeder.Base.Text.{Text}
use linux_iso_seeder.Bencode.Value.{Bytes}
use linux_iso_seeder.Scrape.Url.{Parts, urlsplit, hostname}
use linux_iso_seeder.Scrape.Safe.{
  IsPublicHost, is_safe_scrape_host, is_safe_scrape_host-IsPublicHost,
}
use linux_iso_seeder.Scrape.Announce.{get_announce_urls, derive_scrape_url, parse_udp_tracker_url}
use linux_iso_seeder.Bencode.InfoHash.{compute_info_hash}
use linux_iso_seeder.Scrape.Trackers.{
  Network, Contact, dialled, fetched, redirected, Attempt, found, next, Outcome, is_safe,
  is_safe_url, udp_attempt, http_attempt, http_tracker, udp_tracker, try_tracker, go_on,
  try_trackers, scrape_announced, scrape_torrent,
}

-- A URL whose host is public.
pub record IsPublicUrl (net : Network) (url : Text) : Type 0 where
  pub parts : Parts
  pub host : Text
  pub split : urlsplit net.bad_netloc url ≡ ok parts
  pub named : hostname parts ≡ some host
  pub public : IsPublicHost net.ip_address net.resolve host

abbrev pub IsPublic : Network → Contact → Type 0
IsPublic net (dialled host port) = IsPublicHost net.ip_address net.resolve host
IsPublic net (fetched url) = IsPublicUrl net url
IsPublic net (redirected url target) = IsPublicUrl net url

module _ (net : Network) where
  is_safe-IsPublicHost :
      (host : Text)
      → is_safe net (some host) ≡ ok true
      → IsPublicHost net.ip_address net.resolve host
  unfolding is_safe
  is_safe-IsPublicHost host h = is_safe_scrape_host-IsPublicHost net.ip_address net.resolve host h

  unnamed : is_safe net none ≢ ok true
  unfolding is_safe is_safe_scrape_host
  unnamed h = cc

  safe_parts-IsPublicUrl :
      (url : Text) (parts : Parts) (host : Option Text)
      → urlsplit net.bad_netloc url ≡ ok parts
      → hostname parts ≡ host
      → is_safe net host ≡ ok true
      → IsPublicUrl net url
  safe_parts-IsPublicUrl url parts none split named h = absurd (unnamed h)
  safe_parts-IsPublicUrl url parts (some host) split named h = record {
    parts = parts;
    host = host;
    split = split;
    named = named;
    public = is_safe-IsPublicHost host h;
  }

  is_safe_url-IsPublicUrl : (url : Text) → is_safe_url net url ≡ ok true → IsPublicUrl net url
  unfolding is_safe_url
  is_safe_url-IsPublicUrl url h =
      let (parts, split, safe) =
        >>=-eq-ok (urlsplit net.bad_netloc url) (λ parts. is_safe net (hostname parts)) h in
      safe_parts-IsPublicUrl url parts (hostname parts) split refl safe

  udp_attempt-IsPublic :
      (info_hash : Bytes) (host : Text) (port : ℕ) (safe : Result Bool)
      → is_safe net (some host) ≡ safe
      → All (IsPublic net) (udp_attempt net info_hash host port safe).1
  unfolding udp_attempt
  udp_attempt-IsPublic info_hash host port (raised e) h = tt
  udp_attempt-IsPublic info_hash host port (ok false) h = tt
  udp_attempt-IsPublic info_hash host port (ok true) h = (is_safe-IsPublicHost host h, tt)

  redirected-IsPublic :
      (url : Text) (targets : List Text)
      → IsPublicUrl net url
      → All (IsPublic net) (map (redirected url) targets)
  redirected-IsPublic url [] h = tt
  redirected-IsPublic url (target ∷ targets) h = (h, redirected-IsPublic url targets h)

  http_attempt-IsPublic :
      (info_hash url : Text) (safe : Result Bool)
      → is_safe_url net url ≡ safe
      → All (IsPublic net) (http_attempt net info_hash url safe).1
  unfolding http_attempt
  http_attempt-IsPublic info_hash url (raised e) h = tt
  http_attempt-IsPublic info_hash url (ok false) h = tt
  http_attempt-IsPublic info_hash url (ok true) h =
      (is_safe_url-IsPublicUrl url h, redirected-IsPublic url _ (is_safe_url-IsPublicUrl url h))

  http_tracker-IsPublic :
      (info_hash : Bytes) (scrape_url : Result (Option Text))
      → All (IsPublic net) (http_tracker net info_hash scrape_url).1
  unfolding http_tracker
  http_tracker-IsPublic info_hash (raised e) = tt
  http_tracker-IsPublic info_hash (ok none) = tt
  http_tracker-IsPublic info_hash (ok (some url)) =
      http_attempt-IsPublic info_hash url (is_safe_url net url) refl

  udp_tracker-IsPublic :
      (info_hash : Bytes) (announce_url : Text) (target : Result (Option (Text × ℕ)))
      → All (IsPublic net) (udp_tracker net info_hash announce_url target).1
  unfolding udp_tracker
  udp_tracker-IsPublic info_hash announce_url (raised e) = tt
  udp_tracker-IsPublic info_hash announce_url (ok none) =
      http_tracker-IsPublic info_hash (derive_scrape_url net.bad_netloc announce_url)
  udp_tracker-IsPublic info_hash announce_url (ok (some (host, port))) =
      udp_attempt-IsPublic info_hash host port (is_safe net (some host)) refl

  go_on-IsPublic :
      (tried : Attempt) (rest : Outcome net)
      → All (IsPublic net) tried.1
      → All (IsPublic net) rest.1
      → All (IsPublic net) (go_on net tried rest).1
  unfolding go_on
  go_on-IsPublic (raised e, contacts) rest h k = h
  go_on-IsPublic (ok (found s), contacts) rest h k = h
  go_on-IsPublic (ok next, contacts) rest h k = All-append (IsPublic net) contacts rest.1 h k

  try_trackers-IsPublic :
      (info_hash : Bytes) (urls : List Text)
      → All (IsPublic net) (try_trackers net info_hash urls).1
  unfolding try_trackers
  try_trackers-IsPublic info_hash [] = tt
  try_trackers-IsPublic info_hash (url ∷ urls) =
      go_on-IsPublic (try_tracker net info_hash url) (try_trackers net info_hash urls)
        (unfold try_tracker in
          udp_tracker-IsPublic info_hash url (parse_udp_tracker_url net.bad_netloc url))
        (try_trackers-IsPublic info_hash urls)

  scrape_announced-IsPublic :
      (hash : Result Bytes) (urls : Result (List Text))
      → All (IsPublic net) (scrape_announced net hash urls).1
  unfolding scrape_announced
  scrape_announced-IsPublic (raised e) urls = tt
  scrape_announced-IsPublic (ok info_hash) (raised e) = tt
  scrape_announced-IsPublic (ok info_hash) (ok urls) = try_trackers-IsPublic info_hash urls

  -- Each host that a scrape dials over UDP, and the host of each scrape URL that it asks for, is one
  -- that the lookup knows and all of whose addresses are public, whatever the torrent says; and a
  -- redirect that is followed, to any host, comes from such a request.
  pub scrape_torrent-IsPublic :
      (torrent_bytes : Bytes) → All (IsPublic net) (scrape_torrent net torrent_bytes).1
  unfolding scrape_torrent
  scrape_torrent-IsPublic torrent_bytes =
      scrape_announced-IsPublic (compute_info_hash net.sha1 torrent_bytes)
        (get_announce_urls torrent_bytes)
