-- ===== src/Scrape/Quote.antt =====
-- `quote_from_bytes(info_hash, safe="")`, and that a tracker can read the hash back.
use linux_iso_seeder.Base.{
  ℕ, ◌+◌, ◌-◌, ◌*◌, ◌/◌, ◌%◌, ◌<◌, ◌≡◌, refl, Bool, true, false, ◌&&◌, ◌||◌, [], ◌∷◌, if◌then◌else◌,
  leb, ltb, ◌==◌, arith, Bool-cases, inl, inr,
}
use linux_iso_seeder.Base.Text.{Text}
use linux_iso_seeder.Udp.Words.{Bytes, AreBytes}

-- A byte that stands for itself.
unfoldable pub is_unreserved : ℕ → Bool
is_unreserved b =
    (leb b'a' b && leb b b'z')
    || ((leb b'A' b && leb b b'Z')
        || ((leb b'0' b && leb b b'9') || (b == b'_' || (b == b'.' || (b == b'-' || b == b'~')))))

abbrev pub hex_digit : ℕ → ℕ
hex_digit n = if ltb n 10 then b'0' + n else b'A' + (n - 10)

unfoldable pub quote_from_bytes : Bytes → Text
quote_from_bytes [] = []
quote_from_bytes (b ∷ bytes) =
    let rest = quote_from_bytes bytes in
    if is_unreserved b then b ∷ rest else b'%' ∷ hex_digit (b / 16) ∷ hex_digit (b % 16) ∷ rest

-- How a tracker reads it: a percent sign goes with two hexadecimal digits.
abbrev pub hex_value : ℕ → ℕ
hex_value c = if ltb c b'A' then c - b'0' else c - b'A' + 10

unfoldable pub unquote : Text → Bytes
unquote [] = []
unquote (c ∷ []) = c ∷ []
unquote (c ∷ d ∷ []) = c ∷ d ∷ []
unquote (c ∷ d ∷ e ∷ text) =
    let plain = unquote (d ∷ e ∷ text) in
    let quoted = unquote text in
    if c == b'%' then (hex_value d * 16 + hex_value e) ∷ quoted else c ∷ plain

unquote-plain : (c : ℕ) (text : Text) → (c == b'%') ≡ false → unquote (c ∷ text) ≡ c ∷ unquote text
unfolding unquote
unquote-plain c [] h = refl
unquote-plain c (d ∷ []) h = refl
unquote-plain c (d ∷ e ∷ text) h = rw h

unquote-quoted :
    (d e : ℕ) (text : Text)
    → unquote (37 ∷ d ∷ e ∷ text) ≡ (hex_value d * 16 + hex_value e) ∷ unquote text
unfolding unquote
unquote-quoted d e text = refl

unreserved-ne-percent : (b : ℕ) → is_unreserved b ≡ true → (b == b'%') ≡ false
unfolding is_unreserved
unreserved-ne-percent b h = ground arith

hex_value-digit : (n : ℕ) → n < 16 → hex_value (hex_digit n) ≡ n
hex_value-digit n h = ground arith

-- A byte string can be read back from its quoted form.
pub unquote-quote_from_bytes :
    (bytes : Bytes) → AreBytes bytes → unquote (quote_from_bytes bytes) ≡ bytes
unfolding quote_from_bytes
unquote-quote_from_bytes [] are = unfold unquote in refl
unquote-quote_from_bytes (b ∷ bytes) are = elim (Bool-cases (is_unreserved b)) [
  | inl plain ↦
      rw (plain, unquote-plain b (quote_from_bytes bytes) (unreserved-ne-percent b plain))
        (rw (unquote-quote_from_bytes bytes are.1) refl)
  | inr reserved ↦
      let high : hex_value (hex_digit (b / 16)) ≡ b / 16 =
        hex_value-digit (b / 16) (omega (arith, are.0)) in
      let low : hex_value (hex_digit (b % 16)) ≡ b % 16 = hex_value-digit (b % 16) (omega arith) in
      let whole : b / 16 * 16 + b % 16 ≡ b = omega arith in
      rw (reserved, unquote-quoted (hex_digit (b / 16)) (hex_digit (b % 16)))
        (rw (high, low, whole) (rw (unquote-quote_from_bytes bytes are.1) refl))
]
