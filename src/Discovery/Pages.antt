-- ===== src/Discovery/Pages.antt =====
-- fetch_torrents.py: the fetchers of Debian, Mint and Devuan, on the links or the text of a page.
use linux_iso_seeder.Base.{
  ℕ, Bool, ◌||◌, not, Option, none, some, List, [], ◌∷◌, ◌++◌, if◌then◌else◌, ◌==◌, leb, ◌&&◌,
  Result, ok, raised,
}
use linux_iso_seeder.Base.Text.{Text, codes}
use linux_iso_seeder.Base.Strings.{is_ascii_digit, contains}
use linux_iso_seeder.Base.Dict
use linux_iso_seeder.Base.Dict.{Dict}
use linux_iso_seeder.LowDemand.{after_prefix}
use linux_iso_seeder.Scrape.Url.{break_at}
use linux_iso_seeder.Discovery.{name_of_url, put_urls}

-- The first link with an image's torrent, if any.
unfoldable pub first_image : List Text → Option Text
unfolding contains
first_image [] = none
first_image (href ∷ hrefs) =
    let later = first_image hrefs in
    if contains (codes ".iso.torrent") href then some href else later

unfoldable pub put_image : Dict Text → Text → Option Text → Dict Text
unfolding name_of_url
put_image results url none = results
put_image results url (some href) = Dict.put results (name_of_url href) (url ++ href)

-- One round of the loop: a page that cannot be had adds nothing.
unfoldable pub put_page : Dict Text → Text → Result (List Text) → Dict Text
unfolding put_image first_image
put_page results url (raised e) = results
put_page results url (ok hrefs) = put_image results url (first_image hrefs)

unfoldable pub put_pages : (Text → Result (List Text)) → Dict Text → List Text → Dict Text
unfolding put_page
put_pages page results [] = results
put_pages page results (url ∷ urls) = put_pages page (put_page results url (page url)) urls

abbrev debian_urls : List Text
debian_urls =
    codes "https://cdimage.debian.org/debian-cd/current/amd64/bt-dvd/"
    ∷ codes "https://cdimage.debian.org/debian-cd/current/arm64/bt-dvd/"
    ∷ codes "https://cdimage.debian.org/debian-cd/current/amd64/bt-cd/"
    ∷ codes "https://cdimage.debian.org/debian-cd/current/arm64/bt-cd/"
    ∷ []

-- `page` gives the links of the page at a URL.
unfoldable pub fetch_debian_stable : (Text → Result (List Text)) → Dict Text
unfolding put_pages
fetch_debian_stable page = put_pages page [] debian_urls

-- `re.search` for a prefix and then a text that `rest_of` reads.
abbrev read_after : (Text → Option Text) → Option Text → Option Text
read_after rest_of none = none
read_after rest_of (some text) = rest_of text

abbrev first_of : Option Text → Option Text → Option Text
first_of (some found) later = some found
first_of none later = later

unfoldable pub search_after : Text → (Text → Option Text) → Text → Option Text
unfolding after_prefix
search_after prefix rest_of [] = none
search_after prefix rest_of (c ∷ text) =
    let later = search_after prefix rest_of text in
    first_of (read_after rest_of (after_prefix prefix (c ∷ text))) later

abbrev pub non_empty : Text → Option Text
non_empty [] = none
non_empty (c ∷ text) = some (c ∷ text)

-- `([\d.]+)`
unfoldable pub mint_version : Text → Option Text
unfolding break_at
mint_version text = non_empty (break_at (λ c. not (is_ascii_digit c || c == b'.')) text).0

abbrev mint_urls : Option Text → List Text
mint_urls none = []
mint_urls (some version) =
    (codes "https://www.linuxmint.com/torrents/linuxmint-"
      ++ (version ++ codes "-cinnamon-64bit.iso.torrent"))
    ∷ []

-- `False` is no torrents here, as an empty dict is.
unfoldable pub fetch_linuxmint_cinnamon : Result Text → Dict Text
unfolding search_after mint_version put_urls
fetch_linuxmint_cinnamon (raised e) = []
fetch_linuxmint_cinnamon (ok html) =
    put_urls [] (mint_urls (search_after (codes "<title>Download Linux Mint ") mint_version html))

abbrev pub is_word_char : ℕ → Bool
is_word_char c =
    (leb b'a' c && leb c b'z') || ((leb b'A' c && leb c b'Z') || (is_ascii_digit c || c == b'_'))

abbrev codename_match : Text × Text → Option Text
codename_match ([], rest) = none
codename_match (c ∷ codename, rest) = elim (after_prefix (codes ".torrent") rest) [
  | none ↦ none
  | some after ↦ some (c ∷ codename)
]

-- `\w+\.torrent`: the codename.
unfoldable pub devuan_codename : Text → Option Text
unfolding break_at after_prefix
devuan_codename text = codename_match (break_at (λ c. not (is_word_char c)) text)

abbrev devuan_urls : Option Text → List Text
devuan_urls none = []
devuan_urls (some codename) =
    (codes "https://files.devuan.org/devuan_" ++ (codename ++ codes ".torrent")) ∷ []

unfoldable pub fetch_devuan_latest : Result Text → Dict Text
unfolding search_after devuan_codename put_urls
fetch_devuan_latest (raised e) = []
fetch_devuan_latest (ok html) =
    put_urls []
      (devuan_urls (search_after (codes "https://files.devuan.org/devuan_") devuan_codename html))
