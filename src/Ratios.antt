-- ===== src/Ratios.antt =====
-- fetch_torrents.py: the ratio log, which one run writes and the next one reads.
pub mod Segment
pub mod Lines
use linux_iso_seeder.Base.{
  ℕ, Bool, true, false, Option, none, some, List, [], ◌∷◌, ◌++◌, if◌then◌else◌, ◌==◌, Result, ok,
  raised, ◌>>=◌,
}
use linux_iso_seeder.Base.Text.{Text, codes, starts_with}
use linux_iso_seeder.Base.Strings.{is_ascii_digit, is_space, strip}
use linux_iso_seeder.Base.Dict
use linux_iso_seeder.Base.Dict.{Dict}
use linux_iso_seeder.Base.Float.{Float}
use linux_iso_seeder.LowDemand.{after_prefix}
use linux_iso_seeder.Ratios.Segment.{latest_segment}

-- The digits that a text begins with, and the rest.
unfoldable pub span_digits : Text → Text × Text
span_digits [] = ([], [])
span_digits (c ∷ text) =
    let rest = span_digits text in if is_ascii_digit c then (c ∷ rest.0, rest.1) else ([], c ∷ text)

abbrev with_fraction : Text → Text × Text → Option Text
with_fraction digits ([], rest) = none
with_fraction digits (d ∷ fraction, rest) = some (digits ++ (b'.' ∷ d ∷ fraction))

abbrev with_point : Text × Text → Option Text
with_point ([], rest) = none
with_point (d ∷ digits, []) = none
with_point (d ∷ digits, c ∷ rest) =
    if c == b'.' then with_fraction (d ∷ digits) (span_digits rest) else none

-- `(\d+\.\d+)`
unfoldable pub decimals : Text → Option Text
unfolding span_digits
decimals text = with_point (span_digits text)

unfoldable pub skip_spaces : Text → Text
skip_spaces [] = []
skip_spaces (c ∷ text) = let rest = skip_spaces text in if is_space c then rest else c ∷ text

-- `\s+`
unfoldable pub some_spaces : Text → Option Text
unfolding skip_spaces
some_spaces [] = none
some_spaces (c ∷ text) = if is_space c then some (skip_spaces text) else none

infixl 5 ◌>?◌
abbrev ◌>?◌ : Option Text → (Text → Option Text) → Option Text
none >? f = none
some text >? f = f text

-- `\s+→\s+(\d+\.\d+)`
unfoldable pub after_name : Text → Option Text
unfolding some_spaces decimals after_prefix
after_name text = some_spaces text >? after_prefix (0x2192 ∷ []) >? some_spaces >? decimals

abbrev Match : Type 0
Match = Text × Text

abbrev longer : ℕ → Option Match → Option Match
longer c none = none
longer c (some (name, digits)) = some (c ∷ name, digits)

-- `(.+?)`, as short as what follows it allows.
unfoldable pub lazy_name : Text → Option Match
unfolding after_name
lazy_name [] = none
lazy_name (c ∷ text) =
    let further = longer c (lazy_name text) in
    if c == 10
    then none
    else elim (after_name text) [ some digits ↦ some (c ∷ [], digits) | none ↦ further ]

-- `\s+(.+?)…`, with as many spaces as what follows them allows.
unfoldable pub after_marker : Text → Option Match
unfolding lazy_name
after_marker [] = none
after_marker (c ∷ text) =
    let further = after_marker text in
    if is_space c then elim further [ some found ↦ some found | none ↦ lazy_name text ] else none

abbrev match_here : Option Text → Option Match
match_here none = none
match_here (some rest) = after_marker rest

abbrev or_further : Option Match → Option Match → Option Match
or_further (some found) further = some found
or_further none further = further

-- `re.search(r"\[ratio\]\s+(.+?)\s+→\s+(\d+\.\d+)", line)`: the two groups.
unfoldable pub search_ratio : Text → Option Match
unfolding after_prefix
search_ratio [] = none
search_ratio (c ∷ text) =
    let further = search_ratio text in
    or_further (match_here (after_prefix (codes "[ratio]") (c ∷ text))) further

module _ (fl : Float) where
  open fl use {F, float_of}

  unfoldable pub put_match : Dict F → Option (Text × Text) → Result (Dict F)
  put_match ratios none = ok ratios
  put_match ratios (some (group1, group2)) =
      float_of group2 >>= λ ratio. ok (Dict.put ratios (strip group1) ratio)

  unfoldable pub put_lines : Dict F → List Text → Result (Dict F)
  unfolding put_match search_ratio
  put_lines ratios [] = ok ratios
  put_lines ratios (line ∷ lines) =
      put_match ratios (search_ratio line) >>= λ added. put_lines added lines

  -- The lines of the file, if it is there.
  unfoldable pub get_previous_ratios : Option (List Text) → Result (Dict F)
  unfolding put_lines latest_segment
  get_previous_ratios none = ok []
  get_previous_ratios (some lines) = put_lines [] (latest_segment lines)
