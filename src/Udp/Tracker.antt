-- ===== src/Udp/Tracker.antt =====
-- The exchange against a tracker that follows BEP 15, and what any network gets to see of it.
use linux_iso_seeder.Base.{
  ℕ, ◌/◌, ◌%◌, ◌<◌, ◌≡◌, refl, Bool, true, false, ◌&&◌, [], ◌∷◌, ◌++◌, arith, Result, ok, raised,
  os_error, length, drop, ◌==◌, ==_refl, if◌then◌else◌, lt→ltb,
}
use linux_iso_seeder.Base.Text.{Text, same, same_refl}
use linux_iso_seeder.Udp.Words.{Bytes, word_bytes, u32_at, u64_at}
use linux_iso_seeder.Udp.Messages.{
  Stats, pack_qii, build_udp_connect_request, build_udp_scrape_request, udp_tracker_protocol_id,
  parse_udp_connect_response, parse_udp_scrape_response,
}
use linux_iso_seeder.Udp.Replies.{parse_udp_connect_response_iff, parse_udp_scrape_response_accepts}
use linux_iso_seeder.Udp.Exchange.{sent, closed, scrape_udp_tracker}

-- A tracker by BEP 15 that knows one torrent: it hands out the connection id `cid` for a connect
-- request, and the counts for a scrape request with that id and hash. To anything else it is silent.
module _ (cid : ℕ) (hash : Bytes) (stats : Stats) where
  abbrev pub connect_reply : ℕ → Bytes
  connect_reply tid =
      word_bytes 0
      ++ (word_bytes tid ++ (word_bytes (cid / 4294967296) ++ word_bytes (cid % 4294967296)))

  abbrev pub scrape_reply : ℕ → Bytes
  scrape_reply tid =
      word_bytes 2
      ++ (word_bytes tid
          ++ (word_bytes stats.seeders
              ++ (word_bytes stats.completed ++ word_bytes stats.leechers)))

  pub tracker : ℕ → Bytes → Result Bytes
  tracker round request =
      if u64_at 0 request == udp_tracker_protocol_id && u32_at 8 request == 0
      then ok (connect_reply (u32_at 12 request))
      else if u64_at 0 request == cid && (u32_at 8 request == 2 && same (drop 16 request) hash)
      then ok (scrape_reply (u32_at 12 request))
      else raised os_error

-- Numbers that fit their words.
pub record Fits (cid : ℕ) (hash : Bytes) (stats : Stats) (ids : ℕ → ℕ) : Type 0 where
  pub cid_word : cid < 18446744073709551616
  pub twenty : length hash ≡ 20
  pub seeders_word : stats.seeders < 4294967296
  pub leechers_word : stats.leechers < 4294967296
  pub completed_word : stats.completed < 4294967296
  pub first_word : ids 0 < 4294967296
  pub second_word : ids 1 < 4294967296

abbrev pub request : ℕ → ℕ → ℕ → Bytes → Bytes
request q action tid tail =
    word_bytes (q / 4294967296)
    ++ (word_bytes (q % 4294967296) ++ (word_bytes action ++ (word_bytes tid ++ tail)))

pack_qii-request :
    (q action tid : ℕ)
    → q < 18446744073709551616
    → action < 4294967296
    → tid < 4294967296
    → pack_qii q action tid ≡ ok (request q action tid [])
unfolding pack_qii
pack_qii-request q action tid hq ha ht =
    rw (lt→ltb q _ hq) (rw (lt→ltb action _ ha) (rw (lt→ltb tid _ ht)))

read_request :
    (q action tid : ℕ) (tail : Bytes)
    → q < 18446744073709551616
    → action < 4294967296
    → tid < 4294967296
    → (u64_at 0 (request q action tid tail) ≡ q)
      × (u32_at 8 (request q action tid tail) ≡ action)
      × (u32_at 12 (request q action tid tail) ≡ tid)
unfolding u64_at
read_request q action tid tail hq ha ht = (omega arith, omega arith, omega arith)

and_false : (b : Bool) → (b && false) ≡ false
and_false true = refl
and_false false = refl

-- What a connect reply and a scrape reply hold.
read_connect_reply :
    (cid tid : ℕ) (hash : Bytes) (stats : Stats)
    → cid < 18446744073709551616
    → tid < 4294967296
    → (u32_at 4 (connect_reply cid hash stats tid) ≡ tid)
      × (u64_at 8 (connect_reply cid hash stats tid) ≡ cid)
unfolding u64_at
read_connect_reply cid tid hash stats h k = (omega arith, omega arith)

module _ (cid : ℕ) (hash : Bytes) (stats : Stats) (ids : ℕ → ℕ)
    (fits : Fits cid hash stats ids) where
  build_connect :
      build_udp_connect_request (ids 0) ≡ ok (request udp_tracker_protocol_id 0 (ids 0) [])
  unfolding build_udp_connect_request
  build_connect =
      pack_qii-request udp_tracker_protocol_id 0 (ids 0) (omega arith) (omega arith) fits.first_word

  build_scrape : build_udp_scrape_request cid (ids 1) hash ≡ ok (request cid 2 (ids 1) hash)
  build_scrape =
      unfold build_udp_scrape_request in
      rw fits.twenty
        (rw (pack_qii-request cid 2 (ids 1) fits.cid_word (omega arith) fits.second_word))

  answer_connect :
      tracker cid hash stats 0 (request udp_tracker_protocol_id 0 (ids 0) [])
      ≡ ok (connect_reply cid hash stats (ids 0))
  answer_connect =
      let (a, b, c) =
        read_request udp_tracker_protocol_id 0 (ids 0) [] (omega arith) (omega arith)
          fits.first_word in
      unfold tracker in rw (a, b, c)

  answer_scrape :
      tracker cid hash stats 1 (request cid 2 (ids 1) hash)
      ≡ ok (scrape_reply cid hash stats (ids 1))
  answer_scrape =
      let (a, b, c) =
        read_request cid 2 (ids 1) hash fits.cid_word (omega arith) fits.second_word in
      unfold tracker in rw (a, b, c) (rw (and_false, ==_refl, same_refl))

  read_connect : parse_udp_connect_response (connect_reply cid hash stats (ids 0)) (ids 0) ≡ ok cid
  read_connect =
      let (t, c) = read_connect_reply cid (ids 0) hash stats fits.cid_word fits.first_word in
      (parse_udp_connect_response_iff (connect_reply cid hash stats (ids 0)) (ids 0) cid).1
        (omega arith, unfold u32_at in refl, t, c)

  read_scrape : parse_udp_scrape_response (scrape_reply cid hash stats (ids 1)) (ids 1) ≡ ok stats
  read_scrape =
      let reply : Bytes = scrape_reply cid hash stats (ids 1) in
      let t : u32_at 4 reply ≡ ids 1 = unfold u32_at in omega (arith, fits.second_word) in
      let a : u32_at 8 reply ≡ stats.seeders = unfold u32_at in omega (arith, fits.seeders_word) in
      let b : u32_at 12 reply ≡ stats.completed =
        unfold u32_at in omega (arith, fits.completed_word) in
      let c : u32_at 16 reply ≡ stats.leechers =
        unfold u32_at in omega (arith, fits.leechers_word) in
      parse_udp_scrape_response_accepts reply (ids 1) stats (omega arith) (unfold u32_at in refl) t
        a b c

  -- If the hash has 20 bytes and the ids and counts fit their fields, then:
  -- against a tracker by BEP 15 that knows the torrent, the scrape returns the tracker's counts: it
  -- sends a connect request and a scrape request, and closes the socket.
  pub scrape_udp_tracker-tracker :
      (host : Text) (port : ℕ)
      → scrape_udp_tracker (tracker cid hash stats) ids host port hash ≡ (
        ok stats,
        sent host port (request udp_tracker_protocol_id 0 (ids 0) [])
            ∷ sent host port (request cid 2 (ids 1) hash)
            ∷ closed
            ∷ [],
      )
  unfolding scrape_udp_tracker
  scrape_udp_tracker-tracker host port =
      rw build_connect
        (rw answer_connect (rw read_connect (rw build_scrape (rw answer_scrape (rw read_scrape)))))
