-- ===== src/Scrape/Response.antt =====
-- `parse_scrape_response`, and the URL that is asked for.
use linux_iso_seeder.Base.{
  Bool, false, ◌||◌, Option, none, some, ◌++◌, if◌then◌else◌, Result, ok, raised, bencode_error,
  type_error, attribute_error, ◌>>=◌, ◌>>◌, raise_if,
}
use linux_iso_seeder.Base.Int.{pos}
use linux_iso_seeder.Base.Text.{Text, codes, same}
use linux_iso_seeder.Base.Strings.{contains}
use linux_iso_seeder.Bencode.Value.{
  Bytes, Value, Fields, Items, nil, item, int, bytes, list, dict, end,
}
use linux_iso_seeder.Bencode.Decode.{bdecode}
use linux_iso_seeder.Bencode.InfoHash.{get_field}
use linux_iso_seeder.Scrape.Announce.{get_value}
use linux_iso_seeder.Scrape.Url.{has_char}
use linux_iso_seeder.Scrape.Quote.{quote_from_bytes}

unfoldable pub build_scrape_request_url : Text → Bytes → Text
build_scrape_request_url scrape_url info_hash =
    scrape_url
    ++ ((if has_char b'?' scrape_url then codes "&" else codes "?")
        ++ (codes "info_hash=" ++ quote_from_bytes info_hash))

-- What the tracker counts: a value as `bdecode` gives it.
pub record Counts : Type 0 where
  pub seeders : Value
  pub leechers : Value
  pub completed : Value

-- `stats.get(key, 0)`
abbrev count : Fields → Text → Value
count fs key = elim (get_field fs key) [ none ↦ int (pos 0) | some v ↦ v ]

-- `b"failure reason" in parsed` for a list.
has_reason : Items → Bool
has_reason nil = false
has_reason (item (bytes b) vs) = same b (codes "failure reason") || has_reason vs
has_reason (item _ vs) = has_reason vs

-- The test, and the exception if it holds: `parsed[...]` or `decode` may fail before it.
unfoldable pub refuse_failure : Value → Result (Unit {0})
unfolding get_field has_reason contains
refuse_failure (dict fs) = elim (get_field fs (codes "failure reason")) [
  | none ↦ ok tt
  | some (bytes b) ↦ raised bencode_error
  | some _ ↦ raised attribute_error
]
refuse_failure (bytes b) = raise_if (contains (codes "failure reason") b) type_error
refuse_failure (list vs) = raise_if (has_reason vs) type_error
refuse_failure _ = raised type_error

unfoldable pub stats_of : Option Value → Result (Option Counts)
unfolding get_field
stats_of none = ok none
stats_of (some (dict fs)) = ok (
    some (record {
      seeders = count fs (codes "complete");
      leechers = count fs (codes "incomplete");
      completed = count fs (codes "downloaded");
    }))
stats_of (some _) = raised attribute_error

abbrev or_no_files : Option Value → Value
or_no_files none = dict end
or_no_files (some files) = files

unfoldable pub parse_scrape_response : Bytes → Bytes → Result (Option Counts)
unfolding refuse_failure get_value stats_of
parse_scrape_response data_ info_hash = do
  (parsed, rest) ← bdecode data_
  refuse_failure parsed
  files ← get_value parsed (codes "files")
  stats ← get_value (or_no_files files) info_hash
  stats_of stats
