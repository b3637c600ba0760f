-- ===== src/Bencode/Encode.antt =====
-- `bencode(value)`, with the sort of a dict's items by the bytes of their keys.
use linux_iso_seeder.Base.{
  ℕ, suc, ◌+◌, ◌/◌, ◌%◌, ◌&&◌, List, [], ◌∷◌, ◌++◌, length, ltb, leb, if◌then◌else◌, Result, ok,
  raised, bencode_error, value_error, ◌>>=◌, ◌>>◌,
}
use linux_iso_seeder.Base.Int.{ℤ, pos, negsuc}
use linux_iso_seeder.Base.Text.{Text, less}
use linux_iso_seeder.Bencode.Decimal.{show, check_digits}
use linux_iso_seeder.Bencode.Value.{
  Bytes, Key, raw, named, Value, Items, Fields, bool, int, bytes, str, list, dict, other, nil, item,
  end, field,
}

-- One code point in UTF-8; a surrogate has no encoding (UnicodeEncodeError, a ValueError).
utf8_char : ℕ → Result Bytes
utf8_char c =
    if ltb c 0x80
    then ok (c ∷ [])
    else if ltb c 0x800
    then ok ((0xc0 + c / 64) ∷ (0x80 + c % 64) ∷ [])
    else if leb 0xd800 c && leb c 0xdfff
    then raised value_error
    else if ltb c 0x10000
    then ok ((0xe0 + c / 4096) ∷ (0x80 + c / 64 % 64) ∷ (0x80 + c % 64) ∷ [])
    else ok
        ((0xf0 + c / 262144) ∷ (0x80 + c / 4096 % 64) ∷ (0x80 + c / 64 % 64) ∷ (0x80 + c % 64) ∷ [])

-- `value.encode("utf-8")`
unfoldable pub utf8 : Text → Result Bytes
unfolding utf8_char
utf8 [] = ok []
utf8 (c ∷ cs) = do b ← utf8_char c; bs ← utf8 cs; ok (b ++ bs)

-- `str(value).encode()` on an int.
abbrev pub show_int : ℤ → Result Bytes
show_int (pos n) = check_digits (show n) >> ok (show n)
show_int (negsuc n) = check_digits (show (suc n)) >> ok (b'-' ∷ show (suc n))

-- The encoding of a byte string, whose length is taken to have fewer digits than `str()` refuses.
abbrev pub emit_bytes : Bytes → Bytes
emit_bytes b = show (length b) ++ b':' ∷ b

unfoldable pub key_bytes : Key → Result Bytes
key_bytes (raw b) = ok b
key_bytes (named t) = utf8 t

-- A dict's items with the keys as bytes and the values encoded or failed.
abbrev pub Parts : Type 0
Parts = List (Bytes × Result Bytes)

-- Behind the items with smaller keys, and before those with the same key.
unfoldable pub insert_part : Bytes → Result Bytes → Parts → Parts
insert_part k v [] = (k, v) ∷ []
insert_part k v ((j, w) ∷ ps) =
    if less j k then (j, w) ∷ insert_part k v ps else (k, v) ∷ (j, w) ∷ ps

-- `sorted(value.items(), key=...)`, which keeps the order of equal keys.
unfoldable pub sort_parts : Parts → Parts
unfolding insert_part less
sort_parts [] = []
sort_parts ((k, v) ∷ ps) = insert_part k v (sort_parts ps)

-- The loop over the sorted items.
unfoldable pub join_parts : Parts → Result Bytes
join_parts [] = ok []
join_parts ((k, v) ∷ ps) = do s ← v; more ← join_parts ps; ok (emit_bytes k ++ (s ++ more))

unfoldable mutual
  unfolding utf8 key_bytes sort_parts join_parts

  pub bencode : Value → Result Bytes
  bencode (bool b) = raised bencode_error
  bencode (int z) = do s ← show_int z; ok (b'i' ∷ s ++ b'e' ∷ [])
  bencode (bytes b) = ok (emit_bytes b)
  bencode (str t) = do b ← utf8 t; ok (emit_bytes b)
  bencode (list vs) = do s ← encode_items vs; ok (b'l' ∷ s ++ b'e' ∷ [])
  bencode (dict fs) = do
    parts ← encode_fields fs
    s ← join_parts (sort_parts parts)
    ok (b'd' ∷ s ++ b'e' ∷ [])
  bencode other = raised bencode_error

  pub encode_items : Items → Result Bytes
  encode_items nil = ok []
  encode_items (item v vs) = do s ← bencode v; more ← encode_items vs; ok (s ++ more)

  -- The keys are computed for the sort, before any value is encoded.
  pub encode_fields : Fields → Result Parts
  encode_fields end = ok []
  encode_fields (field k v fs) =
      let s = bencode v in do b ← key_bytes k; parts ← encode_fields fs; ok ((b, s) ∷ parts)
