-- ===== src/Dates.antt =====
-- `datetime.date` as the program uses it: the proleptic Gregorian calendar and ISO texts.
pub mod Texts
pub mod Order
use linux_iso_seeder.Base.{
  ℕ, zero, suc, ◌+◌, ◌-◌, ◌*◌, ◌/◌, ◌%◌, ◌≤◌, ◌≡◌, refl, Bool, true, false, ◌&&◌, ◌||◌, not, Option,
  none, some, List, [], ◌∷◌, ◌++◌, if◌then◌else◌, ltb, leb, ◌==◌, Result, ok, raised, value_error,
  ◌>>=◌,
}
use linux_iso_seeder.Base.Int.{ℤ, sub_ℕ}
use linux_iso_seeder.Base.Text.{Text, codes}
use linux_iso_seeder.Bencode.Decimal.{is_digit}

pub record Date : Type 0 where
  pub year : ℕ
  pub month : ℕ
  pub day : ℕ

abbrev pub is_leap : ℕ → Bool
is_leap y = y % 4 == 0 && (not (y % 100 == 0) || y % 400 == 0)

abbrev pub days_in_month : ℕ → ℕ → ℕ
days_in_month y m =
    if m == 2
    then (if is_leap y then 29 else 28)
    else if m == 4 || (m == 6 || (m == 9 || m == 11))
    then 30
    else 31

-- The days of a year before its month `m`.
abbrev pub days_before_month : ℕ → ℕ → ℕ
days_before_month y zero = 0
days_before_month y (suc zero) = 0
days_before_month y (suc (suc m)) = days_in_month y (suc m) + days_before_month y (suc m)

-- The days before year `suc y`.
abbrev pub days_before_year : ℕ → ℕ
days_before_year zero = 0
days_before_year (suc y) = y * 365 + y / 4 - y / 100 + y / 400

-- `d.toordinal()`
unfoldable pub to_ordinal : Date → ℕ
to_ordinal d = days_before_year d.year + days_before_month d.year d.month + d.day

-- `(a - b).days`
unfoldable pub days_between : Date → Date → ℤ
unfolding to_ordinal
days_between a b = sub_ℕ (to_ordinal a) (to_ordinal b)

-- What `date(year, month, day)` accepts.
unfoldable pub is_date : Date → Bool
is_date d =
    (leb 1 d.year && leb d.year 9999)
    && ((leb 1 d.month && leb d.month 12)
        && (leb 1 d.day && leb d.day (days_in_month d.year d.month)))

abbrev pub digit : ℕ → ℕ
digit n = b'0' + n % 10

-- `d.isoformat()`: YYYY-MM-DD.
unfoldable pub isoformat : Date → Text
isoformat d =
    digit (d.year / 1000)
    ∷ digit (d.year / 100)
    ∷ digit (d.year / 10)
    ∷ digit d.year
    ∷ b'-'
    ∷ digit (d.month / 10)
    ∷ digit d.month
    ∷ b'-'
    ∷ digit (d.day / 10)
    ∷ digit d.day
    ∷ []

abbrev pub value : ℕ → ℕ
value c = c - b'0'

checked : Date → Result Date
checked d = if is_date d then ok d else raised value_error

-- `date.fromisoformat(text)` on the form that `isoformat` writes, the only one this program stores.
unfoldable pub from_isoformat : Text → Result Date
unfolding checked is_date
from_isoformat (a ∷ b ∷ c ∷ d ∷ e ∷ f ∷ g ∷ h ∷ i ∷ j ∷ []) =
    if (e == b'-' && h == b'-')
      && ((is_digit a && (is_digit b && (is_digit c && is_digit d)))
          && (is_digit f && (is_digit g && (is_digit i && is_digit j))))
    then checked (record {
      year = value a * 1000 + value b * 100 + value c * 10 + value d;
      month = value f * 10 + value g;
      day = value i * 10 + value j;
    })
    else raised value_error
from_isoformat _ = raised value_error
