-- ===== src/Udp/Words.antt =====
-- `struct.pack` and `struct.unpack` of big-endian 32-bit and 64-bit words (formats I and Q).
use linux_iso_seeder.Base.{
  ℕ, zero, suc, ◌+◌, ◌*◌, ◌/◌, ◌%◌, ◌<◌, ◌≡◌, [], ◌∷◌, ◌++◌, arith, Result, ok, raised,
  struct_error, drop, ltb, if◌then◌else◌, All,
}
use linux_iso_seeder.Base.Text.{Text}

abbrev pub Bytes : Type 0
Bytes = Text

abbrev pub word_bytes : ℕ → Bytes
word_bytes n = n / 16777216 % 256 ∷ (n / 65536 % 256) ∷ (n / 256 % 256) ∷ (n % 256) ∷ []

-- `struct.pack(">I", n)`: out of range is `struct.error`.
unfoldable pub pack_u32 : ℕ → Result Bytes
pack_u32 n = if ltb n 4294967296 then ok (word_bytes n) else raised struct_error

-- `struct.pack(">Q", n)`: the high word, then the low word.
unfoldable pub pack_u64 : ℕ → Result Bytes
pack_u64 n =
    if ltb n 18446744073709551616
    then ok (word_bytes (n / 4294967296) ++ word_bytes (n % 4294967296))
    else raised struct_error

-- The word in the first four bytes.
unfoldable pub unpack_u32 : Bytes → ℕ
unpack_u32 (a ∷ b ∷ c ∷ d ∷ rest) = a * 16777216 + b * 65536 + c * 256 + d
unpack_u32 _ = 0

-- The words at an offset of the data: `struct.unpack` on a slice that is long enough.
unfoldable pub u32_at : ℕ → Bytes → ℕ
unfolding unpack_u32
u32_at i data_ = unpack_u32 (drop i data_)

unfoldable pub u64_at : ℕ → Bytes → ℕ
unfolding u32_at
u64_at i data_ = u32_at i data_ * 4294967296 + u32_at (i + 4) data_

abbrev pub AreBytes : Bytes → Type 0
AreBytes = All (λ b. b < 256)

pub unpack-word_bytes :
    (n : ℕ) (rest : Bytes) → n < 4294967296 → unpack_u32 (word_bytes n ++ rest) ≡ n
unfolding unpack_u32
unpack-word_bytes n rest h = omega arith

pub AreBytes-drop : (i : ℕ) (xs : Bytes) → AreBytes xs → AreBytes (drop i xs)
AreBytes-drop zero xs h = h
AreBytes-drop (suc i) [] h = tt
AreBytes-drop (suc i) (x ∷ xs) h = AreBytes-drop i xs h.1

unpack_u32-lt : (xs : Bytes) → AreBytes xs → unpack_u32 xs < 4294967296
unfolding unpack_u32
unpack_u32-lt [] h = omega arith
unpack_u32-lt (a ∷ []) h = omega arith
unpack_u32-lt (a ∷ b ∷ []) h = omega arith
unpack_u32-lt (a ∷ b ∷ c ∷ []) h = omega arith
unpack_u32-lt (a ∷ b ∷ c ∷ d ∷ rest) h = omega arith

-- A word read from bytes is below 2 ^ 32.
pub u32_at-lt : (i : ℕ) (xs : Bytes) → AreBytes xs → u32_at i xs < 4294967296
unfolding u32_at
u32_at-lt i xs h = unpack_u32-lt (drop i xs) (AreBytes-drop i xs h)

pub u64_at-lt : (i : ℕ) (xs : Bytes) → AreBytes xs → u64_at i xs < 18446744073709551616
unfolding u64_at
u64_at-lt i xs h = omega (arith, u32_at-lt i xs h, u32_at-lt (i + 4) xs h)
