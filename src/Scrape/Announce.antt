-- ===== src/Scrape/Announce.antt =====
-- The trackers that a torrent names: `get_announce_urls`, and the URLs derived from one.
use linux_iso_seeder.Base.{
  ℕ, zero, suc, ◌+◌, ◌-◌, ◌*◌, Bool, ◌&&◌, ◌||◌, Option, none, some, List, [], ◌∷◌, ◌++◌,
  if◌then◌else◌, any, leb, ltb, ◌==◌, map, Result, ok, raised, value_error, type_error,
  attribute_error, ◌>>=◌,
}
use linux_iso_seeder.Base.Int.{pos}
use linux_iso_seeder.Base.Text.{Text, codes, same}
use linux_iso_seeder.Base.Env.{is_empty}
use linux_iso_seeder.LowDemand.{after_prefix}
use linux_iso_seeder.Bencode.Value.{
  Bytes, raw, named, Value, Items, Fields, int, bytes, str, list, dict, nil, item, end, field,
}
use linux_iso_seeder.Bencode.Decode.{bdecode}
use linux_iso_seeder.Bencode.InfoHash.{get_field}
use linux_iso_seeder.Scrape.Url.{Parts, urlsplit, urlunsplit, hostname, port, after_last}

-- Between two bytes of UTF-8: how many are due, the code point so far, and the range of the next.
pub record Pending : Type 0 where
  pub due : ℕ
  pub code : ℕ
  pub low : ℕ
  pub high : ℕ

abbrev whole : Pending
whole = record { due = 0; code = 0; low = 0; high = 0 }

-- The first byte of a character of more than one: overlong forms, surrogates and code points above
-- 0x10ffff have none, or a narrower range for the byte that follows.
unfoldable pub lead : ℕ → Option Pending
lead b =
    if leb 0xc2 b && leb b 0xdf
    then some (record { due = 1; code = b - 0xc0; low = 0x80; high = 0xbf })
    else if leb 0xe0 b && leb b 0xef
    then some (record {
      due = 2;
      code = b - 0xe0;
      low = if b == 0xe0 then 0xa0 else 0x80;
      high = if b == 0xed then 0x9f else 0xbf;
    })
    else if leb 0xf0 b && leb b 0xf4
    then some (record {
      due = 3;
      code = b - 0xf0;
      low = if b == 0xf0 then 0x90 else 0x80;
      high = if b == 0xf4 then 0x8f else 0xbf;
    })
    else none

abbrev continue : Pending → ℕ → Pending
continue p b = record { due = p.due - 1; code = p.code * 64 + (b - 0x80); low = 0x80; high = 0xbf }

-- One byte: what is pending after it, and the character it ends, if any.
unfoldable pub take_byte : Pending → ℕ → Option (Pending × Text)
unfolding lead
take_byte p b =
    if p.due == 0
    then (if ltb b 0x80
        then some (whole, b ∷ [])
        else elim (lead b) [ none ↦ none | some q ↦ some (q, []) ])
    else if leb p.low b && leb b p.high
    then some (continue p b, (if p.due == 1 then (continue p b).code ∷ [] else []))
    else none

-- `UnicodeDecodeError` is a `ValueError`.
unfoldable pub decode_from : Pending → Bytes → Result Text
unfolding take_byte
decode_from p [] = if p.due == 0 then ok [] else raised value_error
decode_from p (b ∷ bs) = elim (take_byte p b) [
  | none ↦ raised value_error
  | some (q, out) ↦ decode_from q bs >>= λ rest. ok (out ++ rest)
]

-- `data.decode("utf-8")`
unfoldable pub decode_utf8 : Bytes → Result Text
unfolding decode_from
decode_utf8 data_ = decode_from whole data_

-- What a `for` loop goes over: a byte string gives integers, a dict its keys.
item_values : Items → List Value
item_values nil = []
item_values (item v vs) = v ∷ item_values vs

key_values : Fields → List Value
key_values end = []
key_values (field (raw k) v fs) = bytes k ∷ key_values fs
key_values (field (named k) v fs) = str k ∷ key_values fs

unfoldable pub elements : Value → Result (List Value)
unfolding item_values key_values
elements (bytes b) = ok (map (λ c. int (pos c)) b)
elements (str s) = ok (map (λ c. str (c ∷ [])) s)
elements (list vs) = ok (item_values vs)
elements (dict fs) = ok (key_values fs)
elements _ = raised type_error

-- `url.decode("utf-8")`: only a byte string has that method.
unfoldable pub decode_url : Value → Result Text
unfolding decode_utf8
decode_url (bytes b) = decode_utf8 b
decode_url _ = raised attribute_error

-- `metainfo.get(key)`: only a dict has that method.
unfoldable pub get_value : Value → Bytes → Result (Option Value)
unfolding get_field
get_value (dict fs) k = ok (get_field fs k)
get_value _ k = raised attribute_error

abbrev pub is_in : Text → List Text → Bool
is_in url urls = any (same url) urls

-- `if decoded not in urls: urls.append(decoded)`
unfoldable pub append_new : List Text → Text → List Text
append_new urls url = if is_in url urls then urls else urls ++ url ∷ []

unfoldable pub add_tier : List Value → List Text → Result (List Text)
unfolding append_new decode_url
add_tier [] urls = ok urls
add_tier (url ∷ tier) urls = decode_url url >>= λ decoded. add_tier tier (append_new urls decoded)

unfoldable pub add_tiers : List Value → List Text → Result (List Text)
unfolding add_tier elements
add_tiers [] urls = ok urls
add_tiers (tier ∷ tiers) urls = do
  tier_urls ← elements tier
  added ← add_tier tier_urls urls
  add_tiers tiers added

unfoldable pub add_primary : Option Value → List Text → Result (List Text)
unfolding decode_url
add_primary none urls = ok urls
add_primary (some primary) urls = do
  decoded ← decode_url primary
  ok (if is_in decoded urls then urls else decoded ∷ urls)

abbrev or_empty : Option Value → Value
or_empty none = list nil
or_empty (some tiers) = tiers

unfoldable pub get_announce_urls : Bytes → Result (List Text)
unfolding get_value elements add_tiers add_primary
get_announce_urls torrent_bytes = do
  (metainfo, rest) ← bdecode torrent_bytes
  announce_list ← get_value metainfo (codes "announce-list")
  tiers ← elements (or_empty announce_list)
  urls ← add_tiers tiers []
  primary ← get_value metainfo (codes "announce")
  add_primary primary urls

-- `segment.replace(old, new, 1)`, if `old` occurs.
unfoldable pub replace_first : Text → Text → Text → Option Text
unfolding after_prefix
replace_first old new [] = elim (after_prefix old []) [
  | none ↦ none
  | some rest ↦ some (new ++ rest)
]
replace_first old new (c ∷ text) =
    let later = replace_first old new text in
    elim (after_prefix old (c ∷ text)) [
      | some rest ↦ some (new ++ rest)
      | none ↦ elim later [ none ↦ none | some replaced ↦ some (c ∷ replaced) ]
    ]

-- The text through the last slash.
unfoldable pub through_last_slash : Text → Text
through_last_slash [] = []
through_last_slash (c ∷ text) =
    let rest = through_last_slash text in
    if is_empty rest then (if c == b'/' then c ∷ [] else []) else c ∷ rest

unfoldable pub scrape_path : Text → Option Text
unfolding replace_first after_last through_last_slash
scrape_path path = elim (replace_first (codes "announce") (codes "scrape") (after_last b'/' path)) [
  | none ↦ none
  | some new_segment ↦ some (through_last_slash path ++ new_segment)
]

abbrev is_http : Text → Bool
is_http scheme = same scheme (codes "http") || same scheme (codes "https")

unfoldable pub scrape_url_of : Parts → Option Text
unfolding scrape_path urlunsplit
scrape_url_of parts =
    if is_http parts.scheme
    then elim (scrape_path parts.path) [
      | none ↦ none
      | some new_path ↦ some (urlunsplit (record parts { path = new_path }))
    ]
    else none

-- Host and port, unless one of them is missing.
unfoldable pub target_of : Option Text → Option ℕ → Option (Text × ℕ)
target_of none p = none
target_of (some host) none = none
target_of (some host) (some zero) = none
target_of (some host) (some (suc n)) = some (host, suc n)

unfoldable pub udp_target_of : Parts → Result (Option (Text × ℕ))
unfolding hostname port target_of
udp_target_of parts =
    if same parts.scheme (codes "udp")
    then elim (hostname parts) [
      | none ↦ ok none
      | some host ↦ port parts >>= λ p. ok (target_of (some host) p)
    ]
    else ok none

module _ (bad_netloc : Text → Bool) where
  unfoldable pub derive_scrape_url : Text → Result (Option Text)
  unfolding scrape_url_of
  derive_scrape_url announce_url =
      urlsplit bad_netloc announce_url >>= λ parts. ok (scrape_url_of parts)

  unfoldable pub parse_udp_tracker_url : Text → Result (Option (Text × ℕ))
  unfolding udp_target_of
  parse_udp_tracker_url announce_url = urlsplit bad_netloc announce_url >>= udp_target_of
