-- ===== src/Bencode/Decimal.antt =====
-- Decimal numerals as bytes: `str(n).encode()`, `digits.isdigit()` and `int(digits)`.
use linux_iso_seeder.Base.{
  ℕ, zero, suc, ◌+◌, ◌-◌, ◌*◌, ◌/◌, ◌%◌, ◌<◌, ◌≡◌, refl, Bool, true, false, ◌&&◌, [], ◌∷◌, ◌++◌,
  ltb, leb, all, arith, Bool-cases, if◌then◌else◌, inl, inr, Result, raise_if, value_error, length,
}
use linux_iso_seeder.Base.Text.{Text}

abbrev pub is_digit : ℕ → Bool
is_digit c = leb b'0' c && leb c b'9'

-- `digits.isdigit()`, and a full match of `\d+`: at least one digit, and nothing else.
unfoldable pub all_digits : Text → Bool
all_digits [] = false
all_digits (c ∷ cs) = is_digit c && all is_digit cs

-- `int(digits)` and `str(n)` raise beyond 4300 digits, by the default of Python 3.11 and later.
abbrev pub check_digits : Text → Result (Unit {0})
check_digits digits = raise_if (ltb 4300 (length digits)) value_error

-- `int(digits)` on digits, from the value of those already read.
unfoldable pub decimal : ℕ → Text → ℕ
decimal n [] = n
decimal n (c ∷ cs) = decimal (n * 10 + (c - b'0')) cs

unfoldable pub show_fuel : ℕ → ℕ → Text
show_fuel zero n = []
show_fuel (suc f) n =
    let longer = show_fuel f (n / 10) ++ (b'0' + n % 10) ∷ [] in
    if ltb n 10 then (b'0' + n) ∷ [] else longer

-- `str(n)` for n >= 0.
unfoldable pub show : ℕ → Text
unfolding show_fuel
show n = show_fuel (suc n) n

decimal-append :
    (n : ℕ) (s : Text) (c : ℕ) → decimal n (s ++ c ∷ []) ≡ decimal n s * 10 + (c - b'0')
unfolding decimal
decimal-append n [] c = refl
decimal-append n (d ∷ s) c = decimal-append (n * 10 + (d - b'0')) s c

all_digits-append :
    (s : Text) (c : ℕ) → all_digits s ≡ true → is_digit c ≡ true → all_digits (s ++ c ∷ []) ≡ true
unfolding all_digits
all_digits-append [] c h k = cc
all_digits-append (d ∷ s) c h k = go s (ground arith)
  where
    go : (s : Text) → all is_digit s ≡ true → is_digit d && all is_digit (s ++ c ∷ []) ≡ true
    go [] e = ground arith
    go (x ∷ s) e = ground (arith, go s)

show_fuel_lem :
    (f n : ℕ) → n < f → (decimal 0 (show_fuel f n) ≡ n) × (all_digits (show_fuel f n) ≡ true)
unfolding show_fuel
show_fuel_lem zero n h = elim h [ ]
show_fuel_lem (suc f) n h = elim (Bool-cases (ltb n 10)) [
  | inl small ↦ rw small (unfold decimal all_digits in (ground arith, ground arith))
  | inr big ↦
      let (value, digits) = show_fuel_lem f (n / 10) (ground arith) in
      rw big (
        rw (decimal-append, value) (omega arith),
        all_digits-append (show_fuel f (n / 10)) (b'0' + n % 10) digits (ground arith),
      )
]

-- The numeral of a number reads back as the number.
pub decimal-show : (n : ℕ) → decimal 0 (show n) ≡ n
unfolding show
decimal-show n = (show_fuel_lem (suc n) n (omega arith)).0

pub all_digits-show : (n : ℕ) → all_digits (show n) ≡ true
unfolding show
all_digits-show n = (show_fuel_lem (suc n) n (omega arith)).1
