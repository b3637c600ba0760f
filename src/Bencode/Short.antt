-- ===== src/Bencode/Short.antt =====
-- Ints of at most 4300 digits, which are those that Python converts from and to text.
use linux_iso_seeder.Base.{
  ℕ, zero, suc, ◌+◌, ◌-◌, ◌*◌, ◌/◌, ◌%◌, ◌≤◌, ◌<◌, ◌≡◌, refl, true, [], ◌∷◌, arith, Bool-cases, inl,
  inr, all, length, length-append, ltb, ok, ge→ltb,
}
use linux_iso_seeder.Base.Int.{ℤ, pos, negsuc}
use linux_iso_seeder.Bencode.Decimal.{is_digit, all_digits, decimal, show_fuel, show, check_digits}
use linux_iso_seeder.Bencode.Value.{Bytes}
use linux_iso_seeder.Bencode.Decode.{negate}
use linux_iso_seeder.Bencode.Encode.{show_int}

abbrev pub int_text : ℤ → Bytes
int_text (pos n) = show n
int_text (negsuc n) = b'-' ∷ show (suc n)

-- At most 4300 digits, the sign not counted.
abbrev pub IsShortInt : ℤ → Type 0
IsShortInt (pos n) = length (show n) ≤ 4300
IsShortInt (negsuc n) = length (show (suc n)) ≤ 4300

-- The length of the byte string has at most 4300 digits.
abbrev pub IsShortLength : Bytes → Type 0
IsShortLength b = length (show (length b)) ≤ 4300

pub check_digits-short : (ds : Bytes) → length ds ≤ 4300 → check_digits ds ≡ ok tt
check_digits-short ds h = rw (ge→ltb 4300 (length ds) h)

pub show_int-short : (z : ℤ) → IsShortInt z → show_int z ≡ ok (int_text z)
show_int-short (pos n) h = rw (ge→ltb 4300 (length (show n)) h)
show_int-short (negsuc n) h = rw (ge→ltb 4300 (length (show (suc n))) h)

-- `m` with so many zeros behind it.
scale : ℕ → ℕ → ℕ
scale zero m = m
scale (suc k) m = scale k (10 * m)

scale-ten : (k m : ℕ) → scale k (10 * m) ≡ 10 * scale k m
unfolding scale
scale-ten zero m = refl
scale-ten (suc k) m = scale-ten k (10 * m)

decimal-lt :
    (ds : Bytes) (n m : ℕ) → all is_digit ds ≡ true → n < m → decimal n ds < scale (length ds) m
unfolding decimal scale
decimal-lt [] n m h lt = lt
decimal-lt (c ∷ ds) n m h lt =
    decimal-lt ds (n * 10 + (c - b'0')) (10 * m) (ground arith) (ground arith)

length-show_fuel : (f n k : ℕ) → n < scale (suc k) 1 → length (show_fuel f n) ≤ suc k
unfolding show_fuel scale
length-show_fuel zero n k h = omega arith
length-show_fuel (suc f) n zero h =
    let small : ltb n 10 ≡ true = ground arith in rw small (omega arith)
length-show_fuel (suc f) n (suc k) h =
    let smaller : n / 10 < scale (suc k) 1 = omega (arith, scale-ten (suc k) 1, h) in
    let rest = length-show_fuel f (n / 10) k smaller in
    elim (Bool-cases (ltb n 10)) [
      | inl small ↦ rw small (omega arith)
      | inr big ↦
          rw big (omega (arith, length-append (show_fuel f (n / 10)) ((b'0' + n % 10) ∷ []), rest))
    ]

-- A numeral is no shorter than that of its value.
pub length-show-decimal :
    (ds : Bytes) → all_digits ds ≡ true → length (show (decimal 0 ds)) ≤ length ds
unfolding show all_digits
length-show-decimal [] h = cc h
length-show-decimal (d ∷ ds) h =
    length-show_fuel (suc (decimal 0 (d ∷ ds))) (decimal 0 (d ∷ ds)) (length ds)
      (decimal-lt (d ∷ ds) 0 1 h (omega arith))

pub negate-short : (n : ℕ) → length (show n) ≤ 4300 → IsShortInt (negate n)
negate-short zero h = h
negate-short (suc n) h = h
