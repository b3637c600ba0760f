-- ===== src/Bencode/Decode.antt =====
-- `bdecode(data, index)`, on the part of the data from the index on. A result is the value with
-- the part of the data behind it.
use linux_iso_seeder.Base.{
  ℕ, zero, suc, ◌+◌, ◌*◌, Bool, false, Option, none, some, [], ◌∷◌, length, take, drop, ltb, ◌==◌,
  raise_if, not, if◌then◌else◌, Result, ok, raised, bencode_error, value_error, out_of_fuel, ◌>>=◌,
  ◌>>◌,
}
use linux_iso_seeder.Base.Int.{ℤ, pos, negsuc}
use linux_iso_seeder.Bencode.Decimal.{check_digits, is_digit, all_digits, decimal}
use linux_iso_seeder.Bencode.Value.{
  Bytes, Value, Items, Fields, int, bytes, list, dict, nil, item, end, put_field,
}

-- `data.find(c, index)`: the bytes before the first `c`, and those behind it.
unfoldable pub find_byte : ℕ → Bytes → Option (Bytes × Bytes)
find_byte c [] = none
find_byte c (x ∷ xs) =
    if x == c
    then some ([], xs)
    else elim (find_byte c xs) [ none ↦ none | some (before, behind) ↦ some (x ∷ before, behind) ]

-- A full match of `_BENCODE_INT`, `-?\d+`.
unfoldable pub is_bencode_int : Bytes → Bool
unfolding all_digits
is_bencode_int [] = false
is_bencode_int (c ∷ cs) = if c == b'-' then all_digits cs else all_digits (c ∷ cs)

abbrev pub negate : ℕ → ℤ
negate zero = pos 0
negate (suc n) = negsuc n

-- `int(digits)` on such a match.
unfoldable pub int_value : Bytes → Result ℤ
unfolding decimal
int_value [] = raised value_error
int_value (c ∷ cs) =
    if c == b'-'
    then check_digits cs >> ok (negate (decimal 0 cs))
    else check_digits (c ∷ cs) >> ok (pos (decimal 0 (c ∷ cs)))

-- The branch on `i`, from the byte behind it.
unfoldable pub finish_int : Option (Bytes × Bytes) → Result (Value × Bytes)
unfolding is_bencode_int int_value
finish_int none = raised bencode_error
finish_int (some (digits, rest)) =
    if is_bencode_int digits
    then (int_value digits >>= λ z. ok (int z, rest))
    else raised bencode_error

unfoldable pub decode_int : Bytes → Result (Value × Bytes)
unfolding find_byte finish_int
decode_int xs = finish_int (find_byte b'e' xs)

-- The branch on a digit, from that digit on.
unfoldable pub finish_bytes : Option (Bytes × Bytes) → Result (Value × Bytes)
unfolding all_digits decimal
finish_bytes none = raised bencode_error
finish_bytes (some (digits, rest)) = if not (all_digits digits) then raised bencode_error else (do
  check_digits digits
  raise_if (ltb (length rest) (decimal 0 digits)) bencode_error
  ok (bytes (take (decimal 0 digits) rest), drop (decimal 0 digits) rest))

unfoldable pub decode_bytes : Bytes → Result (Value × Bytes)
unfolding find_byte finish_bytes
decode_bytes xs = finish_bytes (find_byte b':' xs)

-- `if not isinstance(key, bytes): raise`
unfoldable pub require_bytes : Value → Result Bytes
require_bytes (bytes k) = ok k
require_bytes _ = raised bencode_error

-- `data[index : index + 1] != b"e"` is the test of both loops. At the end of the data it holds, and
-- the call of `bdecode` for the next element raises.
unfoldable mutual
  unfolding decode_int decode_bytes require_bytes

  pub decode : ℕ → Bytes → Result (Value × Bytes)
  decode zero xs = raised out_of_fuel
  decode (suc f) [] = raised bencode_error
  decode (suc f) (c ∷ xs) =
      let items = decode_items f xs in
      let fields = decode_fields f end xs in
      if c == b'i'
      then decode_int xs
      else if is_digit c
      then decode_bytes (c ∷ xs)
      else if c == b'l'
      then (do (vs, rest) ← items; ok (list vs, rest))
      else if c == b'd'
      then (do (fs, rest) ← fields; ok (dict fs, rest))
      else raised bencode_error

  pub decode_items : ℕ → Bytes → Result (Items × Bytes)
  decode_items zero xs = raised out_of_fuel
  decode_items (suc f) [] = raised bencode_error
  decode_items (suc f) (c ∷ xs) =
      let step = do
        (v, rest) ← decode f (c ∷ xs)
        (vs, more) ← decode_items f rest
        ok (item v vs, more)
      in if c == b'e' then ok (nil, xs) else step

  pub decode_fields : ℕ → Fields → Bytes → Result (Fields × Bytes)
  decode_fields zero result xs = raised out_of_fuel
  decode_fields (suc f) result [] = raised bencode_error
  decode_fields (suc f) result (c ∷ xs) =
      let step = do
        (key, rest) ← decode f (c ∷ xs)
        k ← require_bytes key
        (value, more) ← decode f rest
        decode_fields f (put_field result k value) more
      in if c == b'e' then ok (result, xs) else step

-- Each call of `bdecode` and each round of its loops costs a unit of fuel.
unfoldable pub bdecode : Bytes → Result (Value × Bytes)
unfolding decode
bdecode data_ = decode (2 * length data_ + 1) data_
