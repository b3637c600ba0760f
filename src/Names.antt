-- ===== src/Names.antt =====
-- fetch_torrents.py: what a torrent's name says of its distribution, version and type.
pub mod Version
use linux_iso_seeder.Base.{
  ℕ, zero, suc, ◌≡◌, refl, Bool, true, false, ◌&&◌, ◌||◌, Option, none, some, List, [], ◌∷◌, ◌++◌,
  if◌then◌else◌, Result, ok, raised, ◌>>=◌, drop, arith,
}
use linux_iso_seeder.Base.Int.{pos}
use linux_iso_seeder.Base.Text.{Text, codes, starts_with}
use linux_iso_seeder.Base.Strings.{split, join, nth, nth_last}
use Version.{version_to_tuple}

-- The keys of `distro_patterns`, and "devuan", which is in `ALL_DISTROS` only.
pub data Distro : Type 0 where
  ubuntu debian kali arch mint fedora devuan : Distro

abbrev pub is_distro : Distro → Distro → Bool
is_distro ubuntu ubuntu = true
is_distro debian debian = true
is_distro kali kali = true
is_distro arch arch = true
is_distro mint mint = true
is_distro fedora fedora = true
is_distro devuan devuan = true
is_distro _ _ = false

pub is_distro→eq : (d e : Distro) → is_distro d e ≡ true → d ≡ e
is_distro→eq d e h = ground arith

-- `DEVUAN_NAME_PATTERN.match(name)`
unfoldable pub is_devuan : Text → Bool
unfolding starts_with
is_devuan name = starts_with (codes "devuan_") name

-- The patterns in the order of `distro_patterns`.
unfoldable pub get_distro : Text → Option Distro
unfolding starts_with
get_distro name =
    if starts_with (codes "ubuntu-") name
      || starts_with (codes "lubuntu-") name
      || starts_with (codes "xubuntu-") name
    then some ubuntu
    else if starts_with (codes "debian-") name
    then some debian
    else if starts_with (codes "kali-linux-") name
    then some kali
    else if starts_with (codes "archlinux-") name
    then some arch
    else if starts_with (codes "linuxmint-") name
    then some mint
    else if starts_with (codes "Fedora-Workstation-Live-") name
    then some fedora
    else none

-- The version's text and the type.
unfoldable pub parse_version_type : Text → Distro → Result (Text × Text)
unfolding split join nth nth_last
parse_version_type name ubuntu = do
  let parts = split b'-' name
  prefix ← nth parts 0
  version ← nth parts 1
  ok (version, prefix ++ (b'-' ∷ join (codes "-") (drop 2 parts)))
parse_version_type name debian = do
  let parts = split b'-' name
  version ← nth parts 1
  arch_name ← nth parts 2
  ok (version, arch_name ++ (b'-' ∷ join (codes "-") (drop 3 parts)))
parse_version_type name kali = do
  let parts = split b'-' name
  version ← nth parts 2
  ok (version, join (codes "-") (drop 3 parts))
parse_version_type name arch = do version ← nth (split b'-' name) 1; ok (version, [])
parse_version_type name mint = do
  let parts = split b'-' name
  version ← nth parts 1
  ok (version, join (codes "-") (drop 2 parts))
parse_version_type name fedora = do
  let parts = split b'-' name
  version ← nth_last parts 0
  type ← nth_last parts 1
  ok (version, type)
parse_version_type name devuan = ok ([], [])
