-- ===== src/Discovery/Ubuntu.antt =====
-- fetch_torrents.py: `fetch_ubuntu_lts`, on the text of the page.
use linux_iso_seeder.Base.{
  ℕ, not, Option, none, some, List, [], ◌∷◌, ◌++◌, if◌then◌else◌, ◌==◌, ◌&&◌, Result, ok, raised,
  attribute_error, ◌>>=◌,
}
use linux_iso_seeder.Base.Text.{Text, codes}
use linux_iso_seeder.Base.Strings.{contains, strip}
use linux_iso_seeder.Base.Dict.{Dict}
use linux_iso_seeder.Scrape.Url.{break_at}
use linux_iso_seeder.Ratios.{skip_spaces}
use linux_iso_seeder.Discovery.{put_urls}
use linux_iso_seeder.Discovery.Pages.{search_after, mint_version, is_word_char, non_empty}

abbrev to_first : ℕ → List Text → List Text
to_first c [] = (c ∷ []) ∷ []
to_first c (block ∷ blocks) = (c ∷ block) ∷ blocks

-- `text.split("\n\n")`
unfoldable pub split_blocks : Text → List Text
split_blocks [] = [] ∷ []
split_blocks (c ∷ []) = (c ∷ []) ∷ []
split_blocks (c ∷ d ∷ text) =
    let within = split_blocks (d ∷ text) in
    let after = split_blocks text in if c == 10 && d == 10 then [] ∷ after else to_first c within

unfoldable pub supported_blocks : List Text → List Text
unfolding contains
supported_blocks [] = []
supported_blocks (block ∷ blocks) =
    let rest = supported_blocks blocks in
    if contains (codes "Supported: 1") block then block ∷ rest else rest

-- `\s*([\d.]+)`
unfoldable pub version_after : Text → Option Text
unfolding skip_spaces mint_version
version_after text = mint_version (skip_spaces text)

-- `\s*(\w+)`
unfoldable pub codename_after : Text → Option Text
unfolding skip_spaces break_at
codename_after text = non_empty (break_at (λ c. not (is_word_char c)) (skip_spaces text)).0

-- `re.search(...).group(1)`: None has no such method.
abbrev group : Option Text → Result Text
group none = raised attribute_error
group (some found) = ok found

unfoldable pub ubuntu_urls : Text → Text → List Text
ubuntu_urls codename version =
    (codes "https://releases.ubuntu.com/"
      ++ (codename ++ (codes "/ubuntu-" ++ (version ++ codes "-desktop-amd64.iso.torrent"))))
    ∷ (codes "https://releases.ubuntu.com/"
        ++ (codename ++ (codes "/ubuntu-" ++ (version ++ codes "-live-server-amd64.iso.torrent"))))
    ∷ (codes "https://cdimage.ubuntu.com/lubuntu/releases/"
        ++ (codename
            ++ (codes "/release/lubuntu-" ++ (version ++ codes "-desktop-amd64.iso.torrent"))))
    ∷ (codes "https://torrent.ubuntu.com/xubuntu/releases/"
        ++ (codename
            ++ (codes "/release/desktop/xubuntu-"
                ++ (version ++ codes "-desktop-amd64.iso.torrent"))))
    ∷ (codes "https://torrent.ubuntu.com/xubuntu/releases/"
        ++ (codename
            ++ (codes "/release/minimal/xubuntu-"
                ++ (version ++ codes "-minimal-amd64.iso.torrent"))))
    ∷ []

-- The loop over the blocks, from the last one.
unfoldable pub put_blocks : Dict Text → List Text → Result (Dict Text)
unfolding search_after version_after codename_after ubuntu_urls put_urls
put_blocks results [] = ok results
put_blocks results (block ∷ blocks) = do
  added ← put_blocks results blocks
  version ← group (search_after (codes "Version:") version_after block)
  codename ← group (search_after (codes "Dist:") codename_after block)
  ok (put_urls added (ubuntu_urls codename version))

-- An exception gives `False`, which is no torrents.
abbrev or_nothing : Result (Dict Text) → Dict Text
or_nothing (ok results) = results
or_nothing (raised e) = []

unfoldable pub fetch_ubuntu_lts : Result Text → Dict Text
unfolding put_blocks supported_blocks split_blocks strip
fetch_ubuntu_lts (raised e) = []
fetch_ubuntu_lts (ok text) =
    or_nothing (put_blocks [] (supported_blocks (split_blocks (strip text))))
