-- ===== src/Dates/Texts.antt =====
-- The text of a date reads back as the date.
use linux_iso_seeder.Base.{ℕ, ◌+◌, ◌*◌, ◌/◌, ◌≤◌, ◌≡◌, true, arith, ok}
use linux_iso_seeder.Bencode.Decimal.{is_digit}
use linux_iso_seeder.Dates.{Date, is_date, isoformat, from_isoformat, digit, value, checked}

is_digit-digit : (n : ℕ) → is_digit (digit n) ≡ true
is_digit-digit n = ground arith

-- The ranges of a date's parts.
pub is_date_bounds :
    (d : Date)
    → is_date d ≡ true
    → (1 ≤ d.year) × (d.year ≤ 9999) × (1 ≤ d.month) × (d.month ≤ 12) × (1 ≤ d.day) × (d.day ≤ 31)
unfolding is_date
is_date_bounds d h = ground arith

-- What `isoformat` writes of a date, `fromisoformat` reads as that date.
pub from_isoformat-isoformat : (d : Date) → is_date d ≡ true → from_isoformat (isoformat d) ≡ ok d
unfolding from_isoformat isoformat
from_isoformat-isoformat d h =
    let bounds = is_date_bounds d h in
    let y : value (digit (d.year / 1000)) * 1000
          + value (digit (d.year / 100)) * 100
          + value (digit (d.year / 10)) * 10
          + value (digit d.year)
        ≡ d.year =
      omega arith in
    let m : value (digit (d.month / 10)) * 10 + value (digit d.month) ≡ d.month = omega arith in
    let n : value (digit (d.day / 10)) * 10 + value (digit d.day) ≡ d.day = omega arith in
    simp is_digit-digit (rw (y, m, n) (unfold checked in rw h))
