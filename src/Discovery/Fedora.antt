-- ===== src/Discovery/Fedora.antt =====
-- fetch_torrents.py: Fedora's latest and old Workstation torrents, from one listing.
use linux_iso_seeder.Base.{
  ℕ, Bool, ◌&&◌, ◌||◌, not, Option, none, some, List, [], ◌∷◌, ◌++◌, if◌then◌else◌, leb, ltb, ◌==◌,
  any, Result, ok, raised, drop,
}
use linux_iso_seeder.Base.Text.{Text, codes, same, less}
use linux_iso_seeder.Base.Strings.{is_ascii_digit}
use linux_iso_seeder.Base.Dict
use linux_iso_seeder.Base.Dict.{Dict}
use linux_iso_seeder.LowDemand.{after_prefix}
use linux_iso_seeder.Bencode.Decimal.{decimal}
use linux_iso_seeder.Ratios.{span_digits}
use linux_iso_seeder.Scrape.Url.{break_at}
use linux_iso_seeder.Discovery.{remove_suffixes, torrent_suffix, is_rest_end}

abbrev is_arch_char : ℕ → Bool
is_arch_char c =
    (leb b'a' c && leb c b'z') || ((leb b'A' c && leb c b'Z') || (is_ascii_digit c || c == b'_'))

-- An architecture, and an entry of its set: a version and a link.
abbrev pub Entry : Type 0
Entry = ℕ × Text

-- `(\d+)\.torrent$`
abbrev version_match : Text × Text → Option ℕ
version_match ([], rest) = none
version_match (d ∷ digits, rest) =
    if is_rest_end (after_prefix torrent_suffix rest) then some (decimal 0 (d ∷ digits)) else none

-- `([A-Za-z0-9_]+)-(\d+)\.torrent$`
abbrev arch_match : Text × Text → Option (Text × ℕ)
arch_match ([], rest) = none
arch_match (c ∷ arch, []) = none
arch_match (c ∷ arch, d ∷ rest) =
    if d == b'-'
    then elim (version_match (span_digits rest)) [
      | none ↦ none
      | some version ↦ some (c ∷ arch, version)
    ]
    else none

-- `FEDORA_WORKSTATION_PATTERN.match(href)`: the architecture and the version.
unfoldable pub fedora_match : Text → Option (Text × ℕ)
unfolding after_prefix break_at span_digits decimal
fedora_match href = elim (after_prefix (codes "Fedora-Workstation-Live-") href) [
  | none ↦ none
  | some text ↦ arch_match (break_at (λ c. not (is_arch_char c)) text)
]

-- `entries.add((version, href))`
abbrev pub same_entry : Entry → Entry → Bool
same_entry (v, h) (w, i) = v == w && same h i

unfoldable pub add_entry : Entry → Option (List Entry) → List Entry
add_entry e none = e ∷ []
add_entry e (some entries) = if any (same_entry e) entries then entries else entries ++ (e ∷ [])

unfoldable pub add_match : Dict (List Entry) → Text → Option (Text × ℕ) → Dict (List Entry)
unfolding add_entry
add_match by_arch href none = by_arch
add_match by_arch href (some (arch, version)) =
    Dict.put by_arch arch (add_entry (version, href) (Dict.get by_arch arch))

unfoldable pub group_by_arch : Dict (List Entry) → List Text → Dict (List Entry)
unfolding add_match
group_by_arch by_arch [] = by_arch
group_by_arch by_arch (href ∷ hrefs) =
    group_by_arch (add_match by_arch href (fedora_match href)) hrefs

-- `e < f`, as tuples.
abbrev pub less_entry : Entry → Entry → Bool
less_entry (v, h) (w, i) = ltb v w || (v == w && less h i)

unfoldable pub insert_entry : Entry → List Entry → List Entry
insert_entry e [] = e ∷ []
insert_entry e (f ∷ entries) =
    let rest = insert_entry e entries in if less_entry e f then f ∷ rest else e ∷ f ∷ entries

-- `sorted(entries, reverse=True)`
unfoldable pub sort_entries : List Entry → List Entry
unfolding insert_entry
sort_entries [] = []
sort_entries (e ∷ entries) = insert_entry e (sort_entries entries)

unfoldable pub sort_each : Dict (List Entry) → Dict (List Entry)
unfolding sort_entries
sort_each [] = []
sort_each ((arch, entries) ∷ by_arch) = (arch, sort_entries entries) ∷ sort_each by_arch

-- `_fedora_workstation_torrents` for the links of the page; the versions are kept beside the links.
unfoldable pub fedora_workstation_torrents : List Text → Dict (List Entry)
unfolding group_by_arch sort_each
fedora_workstation_torrents hrefs = sort_each (group_by_arch [] hrefs)

abbrev fedora_torrents_url : Text
fedora_torrents_url = codes "https://torrent.fedoraproject.org/torrents/"

unfoldable pub put_href : Dict Text → Entry → Dict Text
unfolding remove_suffixes
put_href results (version, href) =
    Dict.put results (remove_suffixes 0 href) (fedora_torrents_url ++ href)

-- `hrefs[0]`; a list of the dict is not empty.
unfoldable pub put_first : Dict Text → List Entry → Dict Text
unfolding put_href
put_first results [] = results
put_first results (e ∷ entries) = put_href results e

unfoldable pub put_all : Dict Text → List Entry → Dict Text
unfolding put_href
put_all results [] = results
put_all results (e ∷ entries) = put_all (put_href results e) entries

unfoldable pub latest_torrents : Dict Text → Dict (List Entry) → Dict Text
unfolding put_first
latest_torrents results [] = results
latest_torrents results ((arch, entries) ∷ by_arch) =
    latest_torrents (put_first results entries) by_arch

-- `for href in hrefs[1:]`
unfoldable pub old_torrents : Dict Text → Dict (List Entry) → Dict Text
unfolding put_all
old_torrents results [] = results
old_torrents results ((arch, entries) ∷ by_arch) =
    old_torrents (put_all results (drop 1 entries)) by_arch

-- No torrents are `False` or `{}` in the source: either is nothing to fetch.
unfoldable pub fetch_fedora_workstation : Result (List Text) → Dict Text
unfolding latest_torrents fedora_workstation_torrents
fetch_fedora_workstation (raised e) = []
fetch_fedora_workstation (ok hrefs) = latest_torrents [] (fedora_workstation_torrents hrefs)

unfoldable pub fetch_fedora_workstation_old_versions : Result (List Text) → Dict Text
unfolding old_torrents fedora_workstation_torrents
fetch_fedora_workstation_old_versions (raised e) = []
fetch_fedora_workstation_old_versions (ok hrefs) =
    old_torrents [] (fedora_workstation_torrents hrefs)
