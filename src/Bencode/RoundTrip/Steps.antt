-- ===== src/Bencode/RoundTrip/Steps.antt =====
-- One call of `bdecode` at the front of an encoding, and one round of each of its loops.
use linux_iso_seeder.Base.{
  ℕ, zero, suc, ◌<◌, ◌≤◌, ◌≡◌, refl, sym, ap, ◌∙◌, subst, true, false, some, [], ◌∷◌, ◌++◌,
  append_assoc, arith, ok, ◌>>=◌, length, length-append, take-append_length, drop-append_length,
  ge→ltb, ◌==◌, all,
}
use linux_iso_seeder.Base.Int.{ℤ, pos, negsuc}
use linux_iso_seeder.Bencode.Decimal.{
  is_digit, all_digits, decimal, show, decimal-show, all_digits-show,
}
use linux_iso_seeder.Bencode.Value.{
  Bytes, Value, Fields, bool, int, bytes, str, list, dict, other, item, put_field,
}
use linux_iso_seeder.Bencode.Encode.{emit_bytes}
use linux_iso_seeder.Bencode.Short.{IsShortInt, IsShortLength, int_text, check_digits-short}
use linux_iso_seeder.Bencode.Decode.{
  find_byte, is_bencode_int, int_value, decode_int, decode_bytes, require_bytes, decode,
  decode_items, decode_fields,
}
use linux_iso_seeder.Bencode.Canonical.{IsCanonical, emit, emit_items, emit_fields}

-- A byte that is no digit is found behind a row of digits.
pub find_byte-digits :
    (c : ℕ) (ds rest : Bytes)
    → is_digit c ≡ false
    → all is_digit ds ≡ true
    → find_byte c (ds ++ c ∷ rest) ≡ some (ds, rest)
unfolding find_byte
find_byte-digits c [] rest h k = ground arith
find_byte-digits c (d ∷ ds) rest h k = ground (arith, find_byte-digits c ds rest h)

-- A nonempty row of digits.
pub digits_cons :
    (s : Bytes)
    → all_digits s ≡ true
    → (d : ℕ) × (ds : Bytes) × (s ≡ d ∷ ds) × (is_digit d ≡ true) × (all is_digit ds ≡ true)
unfolding all_digits
digits_cons [] h = cc
digits_cons (d ∷ ds) h = (d, ds, refl, ground arith, ground arith)

pub all_of_all_digits : (s : Bytes) → all_digits s ≡ true → all is_digit s ≡ true
unfolding all_digits
all_of_all_digits [] h = refl
all_of_all_digits (d ∷ ds) h = h

pub find_byte-show :
    (c n : ℕ) (rest : Bytes)
    → is_digit c ≡ false
    → find_byte c (show n ++ c ∷ rest) ≡ some (show n, rest)
find_byte-show c n rest h =
    find_byte-digits c (show n) rest h (all_of_all_digits (show n) (all_digits-show n))

-- On digits the match succeeds, and the sign is plus.
pub plain_int :
    (s : Bytes)
    → all_digits s ≡ true
    → length s ≤ 4300
    → (is_bencode_int s ≡ true) × (int_value s ≡ ok (pos (decimal 0 s)))
unfolding is_bencode_int int_value
plain_int [] h short = cc
plain_int (d ∷ ds) h short = (ground arith, ground arith)

pub decode_int-show :
    (z : ℤ) (rest : Bytes)
    → IsShortInt z
    → decode_int (int_text z ++ b'e' ∷ rest) ≡ ok (int z, rest)
unfolding decode_int
decode_int-show (pos n) rest short =
    let (matched, value) = plain_int (show n) (all_digits-show n) short in
    rw (find_byte-show b'e' n rest refl, decode_int) (rw (matched, value, decimal-show))
decode_int-show (negsuc n) rest short =
    rw (find_byte-show b'e' (suc n) rest refl, decode_int, find_byte)
      (rw (all_digits-show, decimal-show, check_digits-short (show (suc n)) short))

pub decode_bytes-emit_bytes :
    (b rest : Bytes) → IsShortLength b → decode_bytes (emit_bytes b ++ rest) ≡ ok (bytes b, rest)
unfolding decode_bytes
decode_bytes-emit_bytes b rest short = rw append_assoc (
    rw (find_byte-show b':' (length b) (b ++ rest) refl, decode_bytes)
      (rw (all_digits-show, decimal-show, check_digits-short (show (length b)) short)
        (rw (ge→ltb (length (b ++ rest)) (length b) (omega (arith, length-append b rest)))
          (rw (take-append_length, drop-append_length)))))

decode-digit :
    (f d : ℕ) (xs : Bytes) → is_digit d ≡ true → decode (suc f) (d ∷ xs) ≡ decode_bytes (d ∷ xs)
unfolding decode
decode-digit f d xs h = let other_byte : (d == b'i') ≡ false = ground arith in rw other_byte (rw h)

pub decode-emit_bytes :
    (f : ℕ) (b rest : Bytes)
    → IsShortLength b
    → decode (suc f) (emit_bytes b ++ rest) ≡ ok (bytes b, rest)
decode-emit_bytes f b rest short =
    let (d, ds, e, digit, _) = digits_cons (show (length b)) (all_digits-show (length b)) in
    subst (λ s. decode (suc f) ((s ++ b':' ∷ b) ++ rest) ≡ ok (bytes b, rest)) (sym e)
      (decode-digit f d ((ds ++ b':' ∷ b) ++ rest) digit
        ∙ subst (λ s. decode_bytes ((s ++ b':' ∷ b) ++ rest) ≡ ok (bytes b, rest)) e
            (decode_bytes-emit_bytes b rest short))

pub decode-emit_bytes_pos :
    (f : ℕ) (b rest : Bytes)
    → IsShortLength b
    → 0 < f
    → decode f (emit_bytes b ++ rest) ≡ ok (bytes b, rest)
decode-emit_bytes_pos zero b rest short h = elim h [ ]
decode-emit_bytes_pos (suc f) b rest short h = decode-emit_bytes f b rest short

-- No encoding begins with the byte that ends a list or a dict.
pub emit_bytes-head :
    (b : Bytes) → (c : ℕ) × (xs : Bytes) × (emit_bytes b ≡ c ∷ xs) × ((c == b'e') ≡ false)
emit_bytes-head b =
    let (d, ds, e, digit, _) = digits_cons (show (length b)) (all_digits-show (length b)) in
    (d, ds ++ b':' ∷ b, ap (λ s. s ++ b':' ∷ b) e, ground arith)

pub emit-head :
    (v : Value) → IsCanonical v → (c : ℕ) × (xs : Bytes) × (emit v ≡ c ∷ xs) × ((c == b'e') ≡ false)
unfolding emit
emit-head (bytes b) h = emit_bytes-head b
emit-head (int z) h = (b'i', int_text z ++ b'e' ∷ [], refl, refl)
emit-head (list vs) h = (b'l', emit_items vs ++ b'e' ∷ [], refl, refl)
emit-head (dict fs) h = (b'd', emit_fields fs ++ b'e' ∷ [], refl, refl)
emit-head (bool b) h = absurd h
emit-head (str t) h = absurd h
emit-head other h = absurd h

pub decode_items-item :
    (f : ℕ) (v : Value) (ts : Bytes)
    → IsCanonical v
    → decode_items (suc f) (emit v ++ ts) ≡ (do
      (w, rest) ← decode f (emit v ++ ts)
      (vs, more) ← decode_items f rest
      ok (item w vs, more))
unfolding decode
decode_items-item f v ts h = let (c, xs, e, other_byte) = emit-head v h in rw e (rw other_byte)

pub decode_fields-field :
    (f : ℕ) (result : Fields) (k ts : Bytes)
    → decode_fields (suc f) result (emit_bytes k ++ ts) ≡ (do
      (key, rest) ← decode f (emit_bytes k ++ ts)
      j ← require_bytes key
      (value, more) ← decode f rest
      decode_fields f (put_field result j value) more)
unfolding decode
decode_fields-field f result k ts =
    let (c, xs, e, other_byte) = emit_bytes-head k in
    subst
      (λ s. decode_fields (suc f) result (s ++ ts) ≡ (do
        (key, rest) ← decode f (s ++ ts)
        j ← require_bytes key
        (value, more) ← decode f rest
        decode_fields f (put_field result j value) more))
      (sym e) (rw other_byte)
