-- ===== src/LowDemand.antt =====
-- fetch_torrents.py: the image families that are left out unless they are asked for.
use linux_iso_seeder.Base.{
  ◌≡◌, refl, Bool, true, false, ◌&&◌, ◌||◌, not, Option, none, some, [], ◌∷◌, if◌then◌else◌, ◌==◌,
  arith,
}
use linux_iso_seeder.Base.Text.{Text, codes, same_iff}
use linux_iso_seeder.Base.Strings.{lower, contains, is_ascii_digit}
use linux_iso_seeder.Base.Dict
use linux_iso_seeder.Base.Dict.{Dict}

-- What follows a prefix.
unfoldable pub after_prefix : Text → Text → Option Text
after_prefix [] text = some text
after_prefix (p ∷ prefix) [] = none
after_prefix (p ∷ prefix) (c ∷ text) = if p == c then after_prefix prefix text else none

skip_digits : Text → Text
skip_digits [] = []
skip_digits (c ∷ text) = let rest = skip_digits text in if is_ascii_digit c then rest else c ∷ text

-- What follows `\d+`.
unfoldable pub after_digits : Text → Option Text
unfolding skip_digits
after_digits [] = none
after_digits (c ∷ text) = if is_ascii_digit c then some (skip_digits text) else none

infixl 5 ◌>>=◌
abbrev ◌>>=◌ : Option Text → (Text → Option Text) → Option Text
none >>= f = none
some text >>= f = f text

-- `kali-linux-\d+\.\d+-installer-netinst-` at the start of a lowered name.
unfoldable pub after_netinst : Text → Option Text
unfolding after_prefix after_digits
after_netinst name = do
  version ← after_prefix (codes "kali-linux-") name
  dot ← after_digits version
  minor ← after_prefix (codes ".") dot
  rest ← after_digits minor
  after_prefix (codes "-installer-netinst-") rest

-- `LOW_DEMAND_PATTERN.search(name)`, which ignores case.
unfoldable pub is_low_demand_variant : Text → Bool
unfolding after_netinst
is_low_demand_variant name =
    contains (codes "cloud-genericcloud") (lower name) || Dict.is_some (after_netinst (lower name))

unfoldable pub kept_torrents : Dict Text → Dict Text
kept_torrents [] = []
kept_torrents ((name, url) ∷ torrents) =
    let rest = kept_torrents torrents in
    if is_low_demand_variant name then rest else (name, url) ∷ rest

unfoldable pub filter_low_demand : Dict Text → Bool → Dict Text
unfolding kept_torrents
filter_low_demand torrents include_low_demand =
    if include_low_demand then torrents else kept_torrents torrents

get-kept_torrents :
    (torrents : Dict Text) (name : Text)
    → Dict.get (kept_torrents torrents) name
      ≡ (if is_low_demand_variant name then none else Dict.get torrents name)
unfolding kept_torrents Dict.get
get-kept_torrents [] name = ground arith
get-kept_torrents ((n, url) ∷ torrents) name =
    ground (arith, same_iff n name, get-kept_torrents torrents name)

-- The filter takes out the low-demand names, unless they are wanted, and keeps all others with
-- their URLs.
pub get-filter_low_demand :
    (torrents : Dict Text) (include_low_demand : Bool) (name : Text)
    → Dict.get (filter_low_demand torrents include_low_demand) name ≡ (
        if not include_low_demand && is_low_demand_variant name
        then none
        else Dict.get torrents name)
unfolding filter_low_demand
get-filter_low_demand torrents true name = refl
get-filter_low_demand torrents false name = get-kept_torrents torrents name
