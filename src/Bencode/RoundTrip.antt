-- ===== src/Bencode/RoundTrip.antt =====
-- `bencode` and `bdecode` undo one another on canonical values, and only there.
pub mod Encoding
mod Steps
mod Keys
mod Decoding
use linux_iso_seeder.Base.{
  ℕ, ◌≡◌, [], ◌∷◌, ◌++◌, append_assoc, arith, Result, ok, raised, length, length-append,
}
use linux_iso_seeder.Bencode.Decimal.{all_digits, decimal, show}
use linux_iso_seeder.Bencode.Value.{Bytes, Value}
use linux_iso_seeder.Bencode.Decode.{bdecode}
use linux_iso_seeder.Bencode.Encode.{bencode}
use linux_iso_seeder.Bencode.Canonical.{IsCanonical, emit}
use Encoding.{bencode-emit}
use Decoding.{decode-emit}

-- A canonical value, whose ints and lengths of byte strings have at most 4300 digits, is encoded, and its encoding, whatever bytes follow it, decodes to the value
-- and to the bytes that followed.
pub bdecode-bencode :
    (v : Value) (rest : Bytes)
    → IsCanonical v
    → (s : Bytes) × (bencode v ≡ ok s) × (bdecode (s ++ rest) ≡ ok (v, rest))
unfolding bdecode
bdecode-bencode v rest canonical = (
  emit v,
  bencode-emit v canonical,
  decode-emit v _ rest canonical (omega (arith, length-append (emit v) rest)),
)

-- Two canonical values with the same encoding are the same value.
pub bencode-injective :
    (v w : Value) → IsCanonical v → IsCanonical w → bencode v ≡ bencode w → v ≡ w
bencode-injective v w cv cw e =
    let (s, es, ds) = bdecode-bencode v [] cv in let (t, et, dt) = bdecode-bencode w [] cw in cc

-- The numeral of `n` with a zero in front.
abbrev pub padded : ℕ → Bytes
padded n = b'i' ∷ b'0' ∷ show n ++ b'e' ∷ []

abbrev size : Result Bytes → ℕ
size (ok s) = length s
size (raised e) = 0
