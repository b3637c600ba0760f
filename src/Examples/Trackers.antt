-- ===== src/Examples/Trackers.antt =====
-- The scrape of a torrent's trackers at concrete inputs.
use linux_iso_seeder.Base.{◌≡◌, refl, inl, inr, false, some, [], ◌∷◌, ◌++◌, ok, All}
use linux_iso_seeder.Base.Int.{pos}
use linux_iso_seeder.Base.Text.{Text, codes, same}
use linux_iso_seeder.Base.Strings.{lower}
use linux_iso_seeder.Bencode.Value.{Bytes, int, put_field}
use linux_iso_seeder.Bencode.Decimal.{show, decimal}
use linux_iso_seeder.Bencode.Decode.{bdecode}
use linux_iso_seeder.Bencode.Encode.{bencode}
use linux_iso_seeder.Bencode.InfoHash.{compute_info_hash}
use linux_iso_seeder.Watch.{no_reply}
use linux_iso_seeder.Demand.{Scrape}
use linux_iso_seeder.Scrape.Url.{urlsplit}
use linux_iso_seeder.Scrape.Announce.{get_announce_urls, derive_scrape_url, parse_udp_tracker_url}
use linux_iso_seeder.Scrape.Safe.{Ip, is_safe_scrape_host}
use linux_iso_seeder.Scrape.Trackers.{Network, is_safe, scrape_torrent}
use linux_iso_seeder.Scrape.Contacts.{IsPublic, scrape_torrent-IsPublic}
use linux_iso_seeder.Scrape.First.{GivesNothing, Gives, scrape_torrent-found}

abbrev public_ip : Ip
public_ip = record {
  is_private = false;
  is_loopback = false;
  is_link_local = false;
  is_multicast = false;
  is_reserved = false;
  is_unspecified = false;
}

abbrev net : Network
net = record {
  http = λ url. no_reply;
  redirects = λ url. [];
  resolve = λ host. ok (codes "9.9.9.9" ∷ []);
  udp_scrape = λ host port hash. ok (record { seeders = 7; leechers = 2; completed = 9 });
  ip_address = λ address. ok public_ip;
  bad_netloc = λ netloc. false;
  sha1 = λ bytes. codes "hash";
}

abbrev good_url : Text
good_url = codes "udp://t.example:6969"

abbrev page_url : Text
page_url = codes "http://x"

-- Two trackers, of which the first has no scrape URL.
abbrev torrent : Bytes
torrent = codes "d13:announce-listll8:http://x20:udp://t.example:6969ee4:infod4:name1:aee"

abbrev counts : Scrape
counts = record {
  tracker = codes "udp://t.example:6969";
  seeders = int (pos 7);
  leechers = int (pos 2);
  completed = int (pos 9);
}

scrape_torrent-IsPublic_example : All (IsPublic net) (scrape_torrent net torrent).1
scrape_torrent-IsPublic_example = scrape_torrent-IsPublic net torrent

torrent_hash : compute_info_hash net.sha1 torrent ≡ ok (codes "hash")
unfolding compute_info_hash bdecode bencode put_field same
torrent_hash = refl

torrent_urls : get_announce_urls torrent ≡ ok ((page_url ∷ []) ++ (good_url ∷ []))
unfolding get_announce_urls bdecode put_field same
torrent_urls = refl

page-GivesNothing : GivesNothing net (codes "hash") page_url
unfolding parse_udp_tracker_url urlsplit derive_scrape_url same lower
page-GivesNothing = inr (refl, inl refl)

good-Gives : Gives net (codes "hash") good_url counts
unfolding parse_udp_tracker_url urlsplit is_safe is_safe_scrape_host show same lower decimal
good-Gives = inl (
  codes "t.example",
  6969,
  record { seeders = 7; leechers = 2; completed = 9 },
  refl,
  refl,
  refl,
  refl,
)

scrape_torrent-found_example : (scrape_torrent net torrent).0 ≡ ok (some counts)
scrape_torrent-found_example =
    scrape_torrent-found net torrent (codes "hash") (page_url ∷ []) [] good_url counts torrent_hash
      torrent_urls (page-GivesNothing, tt) good-Gives
