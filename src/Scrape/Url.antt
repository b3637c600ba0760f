-- ===== src/Scrape/Url.antt =====
-- `urlsplit`, `urlunsplit` and the attributes of a split URL, as urllib.parse defines them.
use linux_iso_seeder.Base.{
  ℕ, Bool, false, ◌&&◌, ◌||◌, not, Option, none, some, [], ◌∷◌, ◌++◌, if◌then◌else◌, any, all, leb,
  ◌==◌, drop, Result, ok, raised, value_error, raise_if, ◌>>◌,
}
use linux_iso_seeder.Base.Text.{Text, codes, starts_with}
use linux_iso_seeder.Base.Strings.{is_ascii_digit, lower}
use linux_iso_seeder.Base.Env.{is_empty}
use linux_iso_seeder.Bencode.Decimal.{decimal}

pub record Parts : Type 0 where
  pub scheme : Text
  pub netloc : Text
  pub path : Text
  pub query : Text
  pub fragment : Text

abbrev pub has_char : ℕ → Text → Bool
has_char c text = any (λ d. d == c) text

-- The text before the first character with `p`, and the text from there on.
unfoldable pub break_at : (ℕ → Bool) → Text → Text × Text
break_at p [] = ([], [])
break_at p (c ∷ text) =
    let rest = break_at p text in if p c then ([], c ∷ text) else (c ∷ rest.0, rest.1)

-- `text.partition(c)`, without the separator.
unfoldable pub partition : ℕ → Text → Text × Text
unfolding break_at
partition c text = let (before, after) = break_at (λ d. d == c) text in (before, drop 1 after)

-- `text.rpartition(c)[2]`
unfoldable pub after_last : ℕ → Text → Text
after_last c [] = []
after_last c (d ∷ text) =
    let rest = after_last c text in
    if has_char c text then rest else if d == c then text else d ∷ text

is_letter : ℕ → Bool
is_letter c = (leb b'a' c && leb c b'z') || (leb b'A' c && leb c b'Z')

is_scheme_char : ℕ → Bool
unfolding is_letter
is_scheme_char c = is_letter c || is_ascii_digit c || c == b'+' || c == b'-' || c == b'.'

strip_controls : Text → Text
strip_controls [] = []
strip_controls (c ∷ text) = let rest = strip_controls text in if leb c 32 then rest else c ∷ text

without_breaks : Text → Text
without_breaks [] = []
without_breaks (c ∷ text) =
    let rest = without_breaks text in if c == 9 || c == 10 || c == 13 then rest else c ∷ rest

starts_with_letter : Text → Bool
unfolding is_letter
starts_with_letter [] = false
starts_with_letter (c ∷ text) = is_letter c

-- The scheme, if the text begins with one, and the rest.
unfoldable pub split_scheme : Text → Text × Text
unfolding break_at starts_with_letter is_scheme_char
split_scheme url =
    let (before, after) = break_at (λ c. c == b':') url in
    if starts_with_letter url && (all is_scheme_char before && not (is_empty after))
    then (lower before, drop 1 after)
    else ([], url)

abbrev is_delimiter : ℕ → Bool
is_delimiter c = c == b'/' || c == b'?' || c == b'#'

unfoldable pub split_netloc : Text → Text × Text
unfolding break_at starts_with
split_netloc url =
    if starts_with (codes "//") url then break_at is_delimiter (drop 2 url) else ([], url)

-- `bad_netloc` stands for the checks of a netloc in brackets, or with characters that are not ASCII.
unfoldable pub urlsplit : (Text → Bool) → Text → Result Parts
unfolding split_scheme split_netloc partition strip_controls without_breaks
urlsplit bad_netloc url = do
  let schemed = split_scheme (without_breaks (strip_controls url))
  let located = split_netloc schemed.1
  raise_if
      ((has_char b'[' located.0 && not (has_char b']' located.0))
        || (has_char b']' located.0 && not (has_char b'[' located.0)))
      value_error
  raise_if (bad_netloc located.0) value_error
  let fragmented = partition b'#' located.1
  let queried = partition b'?' fragmented.0
  ok (record {
    scheme = schemed.0;
    netloc = located.0;
    path = queried.0;
    query = queried.1;
    fragment = fragmented.1;
  })

-- The host and the port of a netloc, as texts.
unfoldable pub hostinfo : Text → Text × Text
unfolding partition after_last
hostinfo netloc =
    let host = after_last b'@' netloc in
    if has_char b'[' host
    then (let (name, rest) = partition b']' (partition b'[' host).1 in
        (name, (partition b':' rest).1))
    else partition b':' host

-- `parts.hostname`: a zone after a percent sign keeps its letters.
unfoldable pub hostname : Parts → Option Text
unfolding hostinfo break_at
hostname parts =
    let (name, zone) = break_at (λ c. c == b'%') (hostinfo parts.netloc).0 in
    if is_empty (name ++ zone) then none else some (lower name ++ zone)

-- `parts.port`, which raises if the text is no number below 65536.
unfoldable pub port_of : Text → Result (Option ℕ)
port_of text =
    if is_empty text
    then ok none
    else if all is_ascii_digit text && leb (decimal 0 text) 65535
    then ok (some (decimal 0 text))
    else raised value_error

unfoldable pub port : Parts → Result (Option ℕ)
unfolding port_of hostinfo
port parts = port_of (hostinfo parts.netloc).1

abbrev prefixed : Text → Text → Text
prefixed mark text = if is_empty text then [] else mark ++ text

-- `urlunsplit(parts)` of a URL with a scheme that goes with a netloc.
unfoldable pub urlunsplit : Parts → Text
unfolding starts_with
urlunsplit parts =
    let path =
      if is_empty parts.path || starts_with (codes "/") parts.path
      then parts.path
      else b'/' ∷ parts.path in
    let whole =
      if is_empty parts.netloc && starts_with (codes "//") parts.path
      then parts.path
      else codes "//" ++ (parts.netloc ++ path) in
    (if is_empty parts.scheme then whole else parts.scheme ++ (b':' ∷ whole))
    ++ (prefixed (codes "?") parts.query ++ prefixed (codes "#") parts.fragment)
