-- ===== src/Examples/Milli.antt =====
-- Floats that count thousandths: a case in which the laws of Float hold.
use linux_iso_seeder.Base.{
  ◌+◌, ◌*◌, ◌/◌, ◌%◌, [], ◌∷◌, ◌++◌, arith, if◌then◌else◌, ◌==◌, any, ok, ◌>>=◌, not, false,
}
use linux_iso_seeder.Base.Text.{Text}
use linux_iso_seeder.Base.Strings.{int_of}
use linux_iso_seeder.Base.Int.{ℤ, pos, pos_part, neg_part, sub_ℕ, ltb_ℤ}
use linux_iso_seeder.Base.Float.{Float, IsOrdered}
use linux_iso_seeder.Bencode.Decimal.{show}

abbrev milli_times : ℤ → ℤ → ℤ
milli_times (pos a) (pos b) = pos (a * b / 1000)
milli_times a b = sub_ℕ 0 ((pos_part a + neg_part a) * (pos_part b + neg_part b) / 1000)

-- Three digits after the point, and the point left out to read them.
abbrev show_milli : ℤ → Text
show_milli a =
    let n = pos_part a + neg_part a in
    show (n / 1000) ++ (b'.' ∷ (b'0' + n / 100 % 10) ∷ (b'0' + n / 10 % 10) ∷ (b'0' + n % 10) ∷ [])

abbrev without_point : Text → Text
without_point [] = []
without_point (c ∷ text) = if c == b'.' then text else c ∷ without_point text

abbrev pub milli : Float
milli = record {
  F = ℤ;
  zero_float = pos 0;
  one_float = pos 1000;
  lt = ltb_ℤ;
  le = λ a b. not (ltb_ℤ b a);
  is_too_large = λ n. false;
  minus = λ a b. sub_ℕ (pos_part a + neg_part b) (neg_part a + pos_part b);
  times = milli_times;
  percent = λ a b. pos (pos_part a * 100000 / pos_part b);
  from_int = λ n. sub_ℕ (pos_part n * 1000) (neg_part n * 1000);
  round3 = λ a. a;
  literal = pos;
  float_of = λ text.
      if any (λ c. c == b'.') text
      then int_of (without_point text)
      else (int_of text >>= λ n. ok (sub_ℕ (pos_part n * 1000) (neg_part n * 1000)));
  show3 = show_milli;
}

pub milli-IsOrdered : IsOrdered milli
milli-IsOrdered = record {
  lt_irrefl = λ a. ground arith;
  lt_trans = λ a b c h k. ground arith;
  ge_trans = λ a b c h k. ground arith;
}
