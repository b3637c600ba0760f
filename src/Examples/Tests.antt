-- ===== src/Examples/Tests.antt =====
-- Single runs of the operations.
use linux_iso_seeder.Base.{◌≡◌, refl, true, false, some, [], ◌∷◌, ◌++◌, ok, raised, value_error}
use linux_iso_seeder.Base.Int.{pos, negsuc}
use linux_iso_seeder.Base.Text.{codes, same}
use linux_iso_seeder.Base.Strings.{int_of, split, lower, contains, is_space}
use linux_iso_seeder.LowDemand.{is_low_demand_variant}
use linux_iso_seeder.Dates.{to_ordinal}
use linux_iso_seeder.Names.{kali, parse_version_type}
use linux_iso_seeder.Bencode.Value.{put_field, raw, named, int, list, dict, nil, item, end, field}
use linux_iso_seeder.Bencode.Decimal.{show, decimal}
use linux_iso_seeder.Bencode.Decode.{bdecode}
use linux_iso_seeder.Bencode.Encode.{bencode}
use linux_iso_seeder.Discovery.{folder_versions, sort_versions, name_of_url}
use linux_iso_seeder.Base.Dict
use linux_iso_seeder.Discovery.Pages.{fetch_linuxmint_cinnamon, fetch_devuan_latest}
use linux_iso_seeder.Discovery.Ubuntu.{split_blocks}
use linux_iso_seeder.Discovery.Fedora.{fedora_match}
use linux_iso_seeder.Ratios.{search_ratio, after_marker}
use linux_iso_seeder.Scrape.Url.{urlsplit}
use linux_iso_seeder.Scrape.Quote.{is_unreserved, quote_from_bytes}
use linux_iso_seeder.Scrape.Announce.{decode_utf8, derive_scrape_url, parse_udp_tracker_url}
use linux_iso_seeder.Scrape.Response.{parse_scrape_response}

ordinal_sample : to_ordinal (record { year = 2026; month = 3; day = 1 }) ≡ 739676
unfolding to_ordinal
ordinal_sample = refl

kali_sample :
    parse_version_type (codes "kali-linux-2026.2-installer-arm64.iso") kali
    ≡ ok (codes "2026.2", codes "installer-arm64.iso")
unfolding parse_version_type
kali_sample = refl

int_of_sample : int_of (codes " -1_0 ") ≡ ok (negsuc 9)
unfolding int_of
int_of_sample = refl

split_sample : split b'.' (codes "24.04.") ≡ codes "24" ∷ codes "04" ∷ [] ∷ []
unfolding split
split_sample = refl

bdecode_sample :
    bdecode (b'd' ∷ b'1' ∷ b':' ∷ b'a' ∷ b'l' ∷ b'i' ∷ b'-' ∷ b'7' ∷ b'e' ∷ b'e' ∷ b'e' ∷ b'x' ∷ [])
    ≡ ok (dict (field (raw (b'a' ∷ [])) (list (item (int (negsuc 6)) nil)) end), b'x' ∷ [])
unfolding bdecode put_field
bdecode_sample = refl

show_sample : show 2048 ≡ b'2' ∷ b'0' ∷ b'4' ∷ b'8' ∷ []
unfolding show
show_sample = refl

bencode_sample :
    bencode
      (dict (field (raw (b'b' ∷ [])) (int (pos 10)) (field (named (b'a' ∷ [])) (list nil) end)))
    ≡ ok (
        b'd' ∷ b'1' ∷ b':' ∷ b'a' ∷ b'l' ∷ b'e' ∷ b'1' ∷ b':' ∷ b'b' ∷ b'i' ∷ b'1' ∷ b'0' ∷ b'e'
        ∷ b'e' ∷ [])
unfolding bencode show
bencode_sample = refl

netinst_sample :
    is_low_demand_variant (codes "Kali-Linux-2026.2-installer-NETINST-amd64.iso") ≡ true
unfolding is_low_demand_variant lower contains
netinst_sample = refl

fedora_sample :
    fedora_match (codes "Fedora-Workstation-Live-x86_64-42.torrent") ≡ some (codes "x86_64", 42)
unfolding fedora_match
fedora_sample = refl

kali_folder_sample :
    folder_versions (codes "kali-2026.1/" ∷ codes "kali-weekly/" ∷ []) ≡ codes "2026.1" ∷ []
unfolding folder_versions
kali_folder_sample = refl

sort_versions_sample :
    sort_versions (codes "2026.10" ∷ codes "2025.4" ∷ codes "2026.9" ∷ [])
    ≡ codes "2025.4" ∷ codes "2026.9" ∷ codes "2026.10" ∷ []
unfolding sort_versions
sort_versions_sample = refl

name_of_url_sample : name_of_url (codes "https://h/a/kali.iso.torrent") ≡ codes "kali.iso"
unfolding name_of_url
name_of_url_sample = refl

-- There may be more than one space before and after a name.
search_ratio_sample :
    search_ratio (codes "12:00 INFO: [ratio]  kali 1   " ++ (0x2192 ∷ codes " 1.250"))
    ≡ some (codes "kali 1", codes "1.250")
unfolding search_ratio after_marker is_space
search_ratio_sample = refl

scrape_url_sample :
    derive_scrape_url (λ netloc. false) (codes "HTTPS://T.org:80/a/announce.php?k=1")
    ≡ ok (some (codes "https://T.org:80/a/scrape.php?k=1"))
unfolding derive_scrape_url urlsplit lower same
scrape_url_sample = refl

udp_target_sample :
    parse_udp_tracker_url (λ netloc. false) (codes "udp://u@T.org:6969/x")
    ≡ ok (some (codes "t.org", 6969))
unfolding parse_udp_tracker_url urlsplit lower same decimal
udp_target_sample = refl

utf8_sample : decode_utf8 (0xe2 ∷ 0x86 ∷ 0x92 ∷ b'a' ∷ []) ≡ ok (0x2192 ∷ b'a' ∷ [])
unfolding decode_utf8
utf8_sample = refl

overlong_sample : decode_utf8 (0xc0 ∷ 0x80 ∷ []) ≡ raised value_error
unfolding decode_utf8
overlong_sample = refl

quote_sample : quote_from_bytes (b'a' ∷ 0xff ∷ b' ' ∷ []) ≡ codes "a%FF%20"
unfolding quote_from_bytes is_unreserved
quote_sample = refl

response_sample :
    parse_scrape_response (codes "d5:filesd1:hd8:completei3eeee") (codes "h")
    ≡ ok (some (record { seeders = int (pos 3); leechers = int (pos 0); completed = int (pos 0) }))
unfolding parse_scrape_response bdecode put_field same contains
response_sample = refl

mint_sample :
    fetch_linuxmint_cinnamon (ok (codes "<title>Download Linux Mint 22.1 - Linux Mint</title>"))
    ≡ (
      codes "linuxmint-22.1-cinnamon-64bit.iso",
      codes "https://www.linuxmint.com/torrents/linuxmint-22.1-cinnamon-64bit.iso.torrent",
    )
      ∷ []
unfolding fetch_linuxmint_cinnamon Dict.put
mint_sample = refl

devuan_sample :
    fetch_devuan_latest (ok (codes "x https://files.devuan.org/devuan_excalibur.torrent y"))
    ≡ (codes "devuan_excalibur", codes "https://files.devuan.org/devuan_excalibur.torrent") ∷ []
unfolding fetch_devuan_latest Dict.put
devuan_sample = refl

blocks_sample :
    split_blocks (codes "a" ++ (10 ∷ 10 ∷ 10 ∷ codes "b")) ≡ codes "a" ∷ (10 ∷ codes "b") ∷ []
unfolding split_blocks
blocks_sample = refl
