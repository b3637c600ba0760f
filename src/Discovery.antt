-- ===== src/Discovery.antt =====
-- fetch_torrents.py: the old and new releases that Kali's and Fedora's pages link. The links of a
-- page, as BeautifulSoup gives them, are a parameter, and so is the exception of a failed request.
pub mod Fedora
pub mod Listed
pub mod Newest
pub mod Pages
pub mod Ubuntu
use linux_iso_seeder.Base.{
  ℕ, zero, suc, ◌+◌, ◌-◌, Bool, true, false, ◌&&◌, ◌||◌, not, Option, none, some, List, [], ◌∷◌,
  ◌++◌, if◌then◌else◌, map, leb, ltb, ◌==◌, length, take, any, Result, ok, raised, ◌>>=◌,
}
use linux_iso_seeder.Base.Text.{Text, codes, same, less, starts_with}
use linux_iso_seeder.Base.Strings.{is_ascii_digit}
use linux_iso_seeder.Base.Dict
use linux_iso_seeder.Base.Dict.{Dict}
use linux_iso_seeder.LowDemand.{after_prefix}
use linux_iso_seeder.Bencode.Decimal.{decimal}
use linux_iso_seeder.Names.Version.{Version, version_to_tuple, less_version}
use linux_iso_seeder.Ratios.{span_digits, decimals}
use linux_iso_seeder.Scrape.Url.{after_last, break_at}

abbrev pub torrent_suffix : Text
torrent_suffix = codes ".torrent"

-- `text.replace(".torrent", "")`; the number says how many characters of a match are still to go.
unfoldable pub remove_suffixes : ℕ → Text → Text
unfolding starts_with
remove_suffixes n [] = []
remove_suffixes (suc n) (c ∷ text) = remove_suffixes n text
remove_suffixes zero (c ∷ text) =
    let later = remove_suffixes zero text in
    let skipped = remove_suffixes 7 text in
    if starts_with torrent_suffix (c ∷ text) then skipped else c ∷ later

-- `os.path.basename(url).replace(".torrent", "")`
unfoldable pub name_of_url : Text → Text
unfolding remove_suffixes after_last
name_of_url url = remove_suffixes 0 (after_last b'/' url)

-- `$`: the end, or a line break at the end.
abbrev pub is_end : Text → Bool
is_end [] = true
is_end (c ∷ []) = c == 10
is_end (c ∷ d ∷ text) = false

-- `_kali_torrent_urls`
unfoldable pub kali_torrent_urls : Text → List Text
kali_torrent_urls ver =
    let base_cd =
      codes "https://cdimage.kali.org/kali-"
      ++ (ver ++ (codes "/kali-linux-" ++ (ver ++ codes "-installer"))) in
    let base_arm =
      codes "https://kali.download/arm-images/kali-" ++ (ver ++ (codes "/kali-linux-" ++ ver)) in
    let base_cloud =
      codes "https://kali.download/cloud-images/kali-"
      ++ (ver ++ (codes "/kali-linux-" ++ (ver ++ codes "-cloud-genericcloud"))) in
    (base_cd ++ codes "-amd64.iso.torrent")
    ∷ (base_cd ++ codes "-netinst-amd64.iso.torrent")
    ∷ (base_cd ++ codes "-everything-amd64.iso.torrent")
    ∷ (base_cd ++ codes "-arm64.iso.torrent")
    ∷ (base_cd ++ codes "-netinst-arm64.iso.torrent")
    ∷ (base_cd ++ codes "-purple-amd64.iso.torrent")
    ∷ (base_arm ++ codes "-raspberry-pi-armhf.img.xz.torrent")
    ∷ (base_arm ++ codes "-raspberry-pi-zero-2-w-armhf.img.xz.torrent")
    ∷ (base_arm ++ codes "-raspberry-pi-zero-w-armel.img.xz.torrent")
    ∷ (base_cloud ++ codes "-amd64.tar.xz.torrent")
    ∷ (base_cloud ++ codes "-arm64.tar.xz.torrent")
    ∷ []

unfoldable pub put_urls : Dict Text → List Text → Dict Text
unfolding name_of_url
put_urls results [] = results
put_urls results (turl ∷ urls) = put_urls (Dict.put results (name_of_url turl) turl) urls

unfoldable pub put_versions : Dict Text → List Text → Dict Text
unfolding put_urls kali_torrent_urls
put_versions results [] = results
put_versions results (ver ∷ versions) =
    put_versions (put_urls results (kali_torrent_urls ver)) versions

abbrev pub is_rest_end : Option Text → Bool
is_rest_end none = false
is_rest_end (some rest) = is_end rest

abbrev ends_folder : Text → Option Text → Option Text
ends_folder text none = none
ends_folder text (some ver) =
    if is_rest_end (after_prefix (ver ++ codes "/") text) then some ver else none

-- `^kali-(\d+\.\d+)/$`
unfoldable pub kali_folder : Text → Option Text
unfolding after_prefix decimals
kali_folder href = elim (after_prefix (codes "kali-") href) [
  | none ↦ none
  | some text ↦ ends_folder text (decimals text)
]

unfoldable pub folder_versions : List Text → List Text
unfolding kali_folder
folder_versions [] = []
folder_versions (href ∷ hrefs) =
    let rest = folder_versions hrefs in
    elim (kali_folder href) [ none ↦ rest | some ver ↦ ver ∷ rest ]

-- `tuple(map(int, v.split(".")))`, which does not raise on what the pattern matches.
abbrev version_key : Text → Version
version_key v = elim (version_to_tuple v) [ ok key ↦ key | raised e ↦ [] ]

unfoldable pub insert_version : Text → List Text → List Text
unfolding less_version version_to_tuple
insert_version v [] = v ∷ []
insert_version v (w ∷ versions) =
    let rest = insert_version v versions in
    if less_version (version_key w) (version_key v) then w ∷ rest else v ∷ w ∷ versions

-- `versions.sort(key=...)`
unfoldable pub sort_versions : List Text → List Text
unfolding insert_version
sort_versions [] = []
sort_versions (v ∷ versions) = insert_version v (sort_versions versions)

-- What `fetch_kali_old_versions` gives for the links of its page: all versions but the newest.
unfoldable pub kali_old_versions : List Text → Dict Text
unfolding sort_versions folder_versions put_versions
kali_old_versions hrefs =
    let versions = folder_versions hrefs in
    if ltb (length versions) 2
    then []
    else put_versions [] (take (length versions - 1) (sort_versions versions))

unfoldable pub fetch_kali_old_versions : Result (List Text) → Dict Text
unfolding kali_old_versions
fetch_kali_old_versions (raised e) = []
fetch_kali_old_versions (ok hrefs) = kali_old_versions hrefs

abbrev names_installer : Text → Option Text → Option Text
names_installer text none = none
names_installer text (some ver) = elim (after_prefix (ver ++ codes "-installer-") text) [
  | none ↦ none
  | some rest ↦ some ver
]

-- `kali-linux-(\d+\.\d+)-installer-` at the start of a text.
unfoldable pub kali_installer : Text → Option Text
unfolding after_prefix decimals
kali_installer html = elim (after_prefix (codes "kali-linux-") html) [
  | none ↦ none
  | some text ↦ names_installer text (decimals text)
]

-- `re.findall` of the pattern; no match begins within another.
unfoldable pub installer_versions : Text → List Text
unfolding kali_installer
installer_versions [] = []
installer_versions (c ∷ html) =
    let rest = installer_versions html in
    elim (kali_installer (c ∷ html)) [ none ↦ rest | some ver ↦ ver ∷ rest ]

-- `max(matches, key=...)`: the first of the greatest.
unfoldable pub newest_version : Text → List Text → Text
unfolding less_version version_to_tuple
newest_version v [] = v
newest_version v (w ∷ versions) =
    newest_version (if less_version (version_key v) (version_key w) then w else v) versions

unfoldable pub latest_urls : List Text → Dict Text
unfolding newest_version put_urls kali_torrent_urls
latest_urls [] = []
latest_urls (v ∷ versions) = put_urls [] (kali_torrent_urls (newest_version v versions))

-- For the text of the page. `False` is no torrents, as an empty dict is.
unfoldable pub fetch_kali_latest : Result Text → Dict Text
unfolding latest_urls installer_versions
fetch_kali_latest (raised e) = []
fetch_kali_latest (ok html) = latest_urls (installer_versions html)
