-- ===== src/Examples/Scrapes.antt =====
-- torrent_scrape.py at concrete inputs.
use linux_iso_seeder.Base.{
  ℕ, ◌+◌, ◌≡◌, ◌≤◌, ◌<◌, ◌↔◌, refl, List, [], ◌∷◌, ◌++◌, ◌⊎◌, inl, inr, arith, Result, ok, raised,
  os_error, Error, udp_tracker_error, length, All, some, take,
}
use linux_iso_seeder.Base.Int.{pos}
use linux_iso_seeder.Base.Text.{Text, codes, same}
use linux_iso_seeder.Bencode.Value.{
  Bytes, Value, raw, int, bytes, list, dict, nil, item, end, field, Fields,
}
use linux_iso_seeder.Bencode.Decode.{bdecode}
use linux_iso_seeder.Bencode.Decimal.{show}
use linux_iso_seeder.Bencode.Encode.{bencode}
use linux_iso_seeder.Bencode.Canonical.{IsCanonical}
use linux_iso_seeder.Bencode.RoundTrip.{bdecode-bencode}
use linux_iso_seeder.Bencode.Total.{Settles, IsDecoded, bdecode-Settles}
use linux_iso_seeder.Bencode.InfoHash.{info_of, compute_info_hash, compute_info_hash-raw}
use linux_iso_seeder.Bencode.Encodable.{bencode-bdecode}
use linux_iso_seeder.Udp.Words.{u32_at, u64_at}
use linux_iso_seeder.Udp.Messages.{
  Stats, udp_tracker_protocol_id, parse_udp_connect_response, parse_udp_scrape_response,
}
use linux_iso_seeder.Udp.Replies.{
  parse_udp_connect_response_iff, parse_udp_scrape_response_bounds, parsers_raise,
}
use linux_iso_seeder.Udp.Exchange.{Event, sent, closed, scrape_udp_tracker}
use linux_iso_seeder.Udp.Tracker.{
  Fits, tracker, request, scrape_reply, connect_reply, scrape_udp_tracker-tracker,
}
use linux_iso_seeder.Udp.Closing.{IsSentTo, scrape_udp_tracker_closes}

-- {b"info": [1, b"a"], b"name": 24}
abbrev metainfo : Value
metainfo = dict (
    field (raw (codes "info")) (list (item (int (pos 1)) (item (bytes (codes "a")) nil)))
      (field (raw (codes "name")) (int (pos 24)) end))

metainfo-IsCanonical : IsCanonical metainfo
unfolding linux_iso_seeder.Base.Text.less show
metainfo-IsCanonical =
    ((ground arith, (ground arith, tt)), refl, (ground arith, tt, tt, ground arith), ground arith)

bdecode-bencode_example :
    (s : Bytes) × (bencode metainfo ≡ ok s)
    × (bdecode (s ++ codes "xy") ≡ ok (metainfo, codes "xy"))
bdecode-bencode_example = bdecode-bencode metainfo (codes "xy") metainfo-IsCanonical

bdecode-Settles_example : Settles IsDecoded (codes "d4:name") (bdecode (codes "d4:name"))
bdecode-Settles_example = bdecode-Settles (codes "d4:name")

decoded_number : bdecode (codes "li07eexy") ≡ ok (list (item (int (pos 7)) nil), codes "xy")
unfolding bdecode
decoded_number = refl

bencode-bdecode_example : (s : Bytes) × (bencode (list (item (int (pos 7)) nil)) ≡ ok s)
bencode-bdecode_example =
    bencode-bdecode (codes "li07eexy") (codes "xy") (list (item (int (pos 7)) nil)) decoded_number

abbrev hash : Bytes
hash = codes "abcdefghijklmnopqrst"

abbrev stats : Stats
stats = record { seeders = 3; leechers = 5; completed = 70000 }

abbrev ids : ℕ → ℕ
ids n = 1000 + n

stats-Fits : Fits 4294967297 hash stats ids
stats-Fits = record {
  cid_word = omega arith;
  twenty = refl;
  seeders_word = omega arith;
  leechers_word = omega arith;
  completed_word = omega arith;
  first_word = omega arith;
  second_word = omega arith;
}

scrape_udp_tracker-tracker_example :
    scrape_udp_tracker (tracker 4294967297 hash stats) ids (codes "t.example") 6969 hash ≡ (
      ok stats,
      sent (codes "t.example") 6969 (request udp_tracker_protocol_id 0 1000 [])
          ∷ sent (codes "t.example") 6969 (request 4294967297 2 1001 hash)
          ∷ closed
          ∷ [],
    )
scrape_udp_tracker-tracker_example =
    scrape_udp_tracker-tracker 4294967297 hash stats ids stats-Fits (codes "t.example") 6969

scrape_udp_tracker_closes_example :
    (events : List Event) × ((scrape_udp_tracker
        (λ n b. raised os_error)
        ids
        (codes "t.example")
        6969
        hash).1
      ≡ events ++ closed ∷ [])
    × All (IsSentTo (codes "t.example") 6969) events
    × (length events ≤ 2)
scrape_udp_tracker_closes_example =
    scrape_udp_tracker_closes (λ n b. raised os_error) ids (codes "t.example") 6969 hash

abbrev connect_bytes : Bytes
connect_bytes = connect_reply 4294967297 hash stats 1000

parse_udp_connect_response_iff_example :
    (parse_udp_connect_response connect_bytes 1000 ≡ ok 4294967297) ↔ (
      (16 ≤ length connect_bytes)
      × (u32_at 0 connect_bytes ≡ 0)
      × (u32_at 4 connect_bytes ≡ 1000)
      × (u64_at 8 connect_bytes ≡ 4294967297))
parse_udp_connect_response_iff_example =
    parse_udp_connect_response_iff connect_bytes 1000 4294967297

abbrev scrape_bytes : Bytes
scrape_bytes = scrape_reply 4294967297 hash stats 1001

scrape_bytes-parsed : parse_udp_scrape_response scrape_bytes 1001 ≡ ok stats
unfolding parse_udp_scrape_response
scrape_bytes-parsed = refl

parse_udp_scrape_response_bounds_example :
    (20 ≤ length scrape_bytes)
    × (u32_at 0 scrape_bytes ≡ 2)
    × (u32_at 4 scrape_bytes ≡ 1001)
    × (stats.seeders < 4294967296)
    × (stats.leechers < 4294967296)
    × (stats.completed < 4294967296)
parse_udp_scrape_response_bounds_example =
    parse_udp_scrape_response_bounds scrape_bytes 1001 stats (grind arith) scrape_bytes-parsed

short-raises : parse_udp_connect_response (codes "abc") 1000 ≡ raised udp_tracker_error
unfolding parse_udp_connect_response
short-raises = refl

parsers_raise_example : udp_tracker_error ≡ udp_tracker_error
parsers_raise_example = parsers_raise (codes "abc") 1000 udp_tracker_error (inl short-raises)

abbrev fields : Fields
fields =
    field (raw (codes "info")) (list (item (int (pos 1)) (item (bytes (codes "a")) nil)))
      (field (raw (codes "name")) (int (pos 24)) end)

-- In place of SHA-1: the first twenty bytes.
abbrev first_twenty : Bytes → Bytes
first_twenty = take 20

info_found : info_of metainfo ≡ some (list (item (int (pos 1)) (item (bytes (codes "a")) nil)))
unfolding info_of same
info_found = refl

compute_info_hash-raw_example :
    (torrent : Bytes) × (before : Bytes) × (s : Bytes) × (after : Bytes) × (bencode (dict fields)
      ≡ ok torrent)
    × (bencode (list (item (int (pos 1)) (item (bytes (codes "a")) nil))) ≡ ok s)
    × (torrent ≡ before ++ (s ++ after))
    × (compute_info_hash first_twenty (torrent ++ codes "x") ≡ ok (first_twenty s))
compute_info_hash-raw_example =
    compute_info_hash-raw first_twenty fields (codes "x")
      (list (item (int (pos 1)) (item (bytes (codes "a")) nil))) metainfo-IsCanonical info_found
