-- ===== src/Scrape/First.antt =====
-- Which tracker decides the result of `scrape_torrent`.
use linux_iso_seeder.Base.{
  ℕ, ◌≡◌, ◌⊎◌, inl, inr, Bool-cases, true, false, ap, refl, Option, none, some, List, [], ◌∷◌, ◌++◌,
  Result, ok, raised, Error, All,
}
use linux_iso_seeder.Base.Text.{Text, codes}
use linux_iso_seeder.Base.Int.{pos}
use linux_iso_seeder.Bencode.Value.{Bytes, int}
use linux_iso_seeder.Bencode.Decimal.{show}
use linux_iso_seeder.Udp.Messages.{Stats}
use linux_iso_seeder.Watch.{Response, no_reply, reply, is_error_status}
use linux_iso_seeder.Scrape.Response.{Counts, build_scrape_request_url, parse_scrape_response}
use linux_iso_seeder.Bencode.InfoHash.{compute_info_hash}
use linux_iso_seeder.Demand.{Scrape}
use linux_iso_seeder.Scrape.Announce.{get_announce_urls, derive_scrape_url, parse_udp_tracker_url}
use linux_iso_seeder.Scrape.Trackers.{
  Network, is_safe, is_safe_url, udp_attempt, http_step, http_attempt, http_tracker, Attempt, Step,
  found, next, Outcome, go_on, udp_tracker, try_tracker, try_trackers, scrape_announced,
  scrape_torrent,
}

-- An answer without counts: none, an error status, or a content that does not parse or has none.
abbrev pub HasNoCounts : Bytes → Response → Type 0
HasNoCounts info_hash response =
    (response ≡ no_reply)
    ⊎ ((status : ℕ) × (content : Bytes) × (response ≡ reply status content)
        × ((is_error_status status ≡ true)
            ⊎ ((e : Error) × (parse_scrape_response content info_hash ≡ raised e))
            ⊎ (parse_scrape_response content info_hash ≡ ok none)))

abbrev pub HasCounts : Bytes → Response → Counts → Type 0
HasCounts info_hash response counts =
    (status : ℕ) × (content : Bytes) × (response ≡ reply status content)
    × (is_error_status status ≡ false)
    × (parse_scrape_response content info_hash ≡ ok (some counts))

module _ (net : Network) (info_hash : Bytes) where
  open net use {http, bad_netloc, udp_scrape}

  -- A UDP tracker whose host is not safe or whose scrape raises; or another one without a scrape URL,
  -- with a host that is not safe, or whose answer has no counts.
  abbrev pub GivesNothing : Text → Type 0
  GivesNothing url =
      ((host : Text) × (port : ℕ) × (parse_udp_tracker_url bad_netloc url ≡ ok (some (host, port)))
        × ((is_safe net (some host) ≡ ok false)
            ⊎ ((is_safe net (some host) ≡ ok true)
                × ((e : Error) × (udp_scrape host port info_hash ≡ raised e)))))
      ⊎ ((parse_udp_tracker_url bad_netloc url ≡ ok none)
          × ((derive_scrape_url bad_netloc url ≡ ok none)
              ⊎ ((scrape_url : Text) × (derive_scrape_url bad_netloc url ≡ ok (some scrape_url))
                  × ((is_safe_url net scrape_url ≡ ok false)
                      ⊎ ((is_safe_url net scrape_url ≡ ok true)
                          × HasNoCounts info_hash
                              (http (build_scrape_request_url scrape_url info_hash)))))))

  -- A UDP tracker with a safe host whose scrape returns these counts, or another one with a scrape URL
  -- of a safe host that answers with these counts.
  abbrev pub Gives : Text → Scrape → Type 0
  Gives url s =
      ((host : Text) × (port : ℕ) × (stats : Stats) × (parse_udp_tracker_url bad_netloc url
          ≡ ok (some (host, port)))
        × (is_safe net (some host) ≡ ok true)
        × (udp_scrape host port info_hash ≡ ok stats)
        × (s ≡ record {
          tracker = codes "udp://" ++ (host ++ (b':' ∷ show port));
          seeders = int (pos stats.seeders);
          leechers = int (pos stats.leechers);
          completed = int (pos stats.completed);
        }))
      ⊎ ((scrape_url : Text) × (counts : Counts) × (parse_udp_tracker_url bad_netloc url ≡ ok none)
          × (derive_scrape_url bad_netloc url ≡ ok (some scrape_url))
          × (is_safe_url net scrape_url ≡ ok true)
          × HasCounts info_hash (http (build_scrape_request_url scrape_url info_hash)) counts
          × (s ≡ record {
            tracker = scrape_url;
            seeders = counts.seeders;
            leechers = counts.leechers;
            completed = counts.completed;
          }))

  http_step-next :
      (scrape_url : Text) (response : Response)
      → HasNoCounts info_hash response
      → http_step scrape_url info_hash response ≡ next
  unfolding http_step
  http_step-next scrape_url response (inl silent) = rw silent refl
  http_step-next scrape_url response (inr (status, content, e, why)) = elim why [
    | inl bad ↦ rw (e, bad) refl
    | inr (inl (error, h)) ↦ elim (Bool-cases (is_error_status status)) [
      | inl bad ↦ rw (e, bad) refl
      | inr fine ↦ rw (e, fine, h) refl
    ]
    | inr (inr h) ↦ elim (Bool-cases (is_error_status status)) [
      | inl bad ↦ rw (e, bad) refl
      | inr fine ↦ rw (e, fine, h) refl
    ]
  ]

  GivesNothing-next : (url : Text) → GivesNothing url → (try_tracker net info_hash url).0 ≡ ok next
  unfolding try_tracker udp_tracker udp_attempt http_tracker http_attempt
  GivesNothing-next url (inl (host, port, target, inl unsafe)) = rw (target, unsafe) refl
  GivesNothing-next url (inl (host, port, target, inr (safe, (e, fails)))) =
      rw (target, safe, fails) refl
  GivesNothing-next url (inr (no_target, inl no_url)) = rw (no_target, no_url) refl
  GivesNothing-next url (inr (no_target, inr (scrape_url, derived, inl unsafe))) =
      rw (no_target, derived, unsafe) refl
  GivesNothing-next url (inr (no_target, inr (scrape_url, derived, inr (safe, none_there)))) =
      rw (no_target, derived, safe) (ap ok (http_step-next scrape_url _ none_there))

  Gives-found :
      (url : Text) (s : Scrape) → Gives url s → (try_tracker net info_hash url).0 ≡ ok (found s)
  unfolding try_tracker udp_tracker udp_attempt http_tracker http_attempt http_step
  Gives-found url s (inl (host, port, stats, target, safe, returned, same_counts)) =
      rw (target, safe, returned, same_counts) refl
  Gives-found url s (inr (scrape_url, counts, no_target, derived, safe, given, same_counts)) =
      let (status, content, e, fine, parsed) = given in
      rw (no_target, derived, safe) (rw (e, fine, parsed, same_counts) refl)

  -- The result of a loop that meets a tracker with this one.
  abbrev pub result_of : Result Step → Result (Option Scrape) → Result (Option Scrape)
  result_of (raised e) rest = raised e
  result_of (ok (found s)) rest = ok (some s)
  result_of (ok next) rest = rest

  go_on-result :
      (tried : Attempt) (rest : Outcome net) → (go_on net tried rest).0 ≡ result_of tried.0 rest.0
  unfolding go_on
  go_on-result (raised e, contacts) rest = refl
  go_on-result (ok (found s), contacts) rest = refl
  go_on-result (ok next, contacts) rest = refl

  pub try_trackers-passed :
      (before urls : List Text)
      → All GivesNothing before
      → (try_trackers net info_hash (before ++ urls)).0 ≡ (try_trackers net info_hash urls).0
  unfolding try_trackers
  try_trackers-passed [] urls h = refl
  try_trackers-passed (url ∷ before) urls h =
      rw
        (go_on-result (try_tracker net info_hash url) (try_trackers net info_hash (before ++ urls)))
        (rw (GivesNothing-next url h.0) (try_trackers-passed before urls h.1))

  pub try_trackers-decided :
      (url : Text) (urls : List Text)
      → (try_trackers net info_hash (url ∷ urls)).0
        ≡ result_of (try_tracker net info_hash url).0 (try_trackers net info_hash urls).0
  unfolding try_trackers
  try_trackers-decided url urls =
      go_on-result (try_tracker net info_hash url) (try_trackers net info_hash urls)

-- If the torrent has an info hash, its trackers are `before`, `url` and `after`, each of `before` gives
-- nothing (an unsafe host, no scrape URL, a scrape that raises, or an answer without counts) and
-- `url` gives counts, then: the scrape returns these counts.
pub scrape_torrent-found :
    (net : Network) (torrent_bytes info_hash : Bytes) (before after : List Text) (url : Text)
    (s : Scrape)
    → compute_info_hash net.sha1 torrent_bytes ≡ ok info_hash
    → get_announce_urls torrent_bytes ≡ ok (before ++ url ∷ after)
    → All (GivesNothing net info_hash) before
    → Gives net info_hash url s
    → (scrape_torrent net torrent_bytes).0 ≡ ok (some s)
unfolding scrape_torrent scrape_announced
scrape_torrent-found net torrent_bytes info_hash before after url s hash urls passed counts =
    rw (hash, urls)
      (rw
        (
          try_trackers-passed net info_hash before (url ∷ after) passed,
          try_trackers-decided net info_hash url after,
        )
        (rw (Gives-found net info_hash url s counts) refl))
