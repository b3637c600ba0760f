-- ===== src/Dates/Order.antt =====
-- ISO texts sort as the dates do.
use linux_iso_seeder.Base.{
  ℕ, ◌+◌, ◌*◌, ◌/◌, ◌%◌, ◌≤◌, ◌<◌, ◌≡◌, refl, ◌∙◌, true, ◌&&◌, ◌||◌, [], ◌∷◌, arith, ltb, ◌==◌,
}
use linux_iso_seeder.Base.Text.{Text, less}
use linux_iso_seeder.Dates.{Date, is_date, isoformat, digit}
use linux_iso_seeder.Dates.Texts.{is_date_bounds}

times_lt : (p q b : ℕ) → p < q → p * b + b ≤ q * b
times_lt p q b h = grind arith

-- Two numbers by their quotients and remainders.
lexicographic :
    (p q b u v : ℕ) → u < b → v < b → (ltb p q || (p == q && ltb u v)) ≡ ltb (p * b + u) (q * b + v)
lexicographic p q b u v hu hv = ground (arith, times_lt p q b, times_lt q p b)

less-digits :
    (m n : ℕ) (s t : Text)
    → less (digit m ∷ s) (digit n ∷ t) ≡ (ltb (m % 10) (n % 10) || (m % 10 == n % 10 && less s t))
unfolding less
less-digits m n s t = ground arith

-- One more digit in front of two texts that compare as numbers below `b`.
less-digit :
    (m n b u v : ℕ) (s t : Text)
    → u < b
    → v < b
    → less s t ≡ ltb u v
    → less (digit m ∷ s) (digit n ∷ t) ≡ ltb (m % 10 * b + u) (n % 10 * b + v)
less-digit m n b u v s t hu hv e =
    less-digits m n s t ∙ (rw e (lexicographic (m % 10) (n % 10) b u v hu hv))

less-same : (c : ℕ) (s t : Text) → less (c ∷ s) (c ∷ t) ≡ less s t
unfolding less
less-same c s t = ground arith

-- Two digits in front.
two_digits :
    (m n u v : ℕ) (s t : Text)
    → m < 100
    → n < 100
    → u < 100
    → v < 100
    → less s t ≡ ltb u v
    → less (digit (m / 10) ∷ digit m ∷ s) (digit (n / 10) ∷ digit n ∷ t)
      ≡ ltb (m * 100 + u) (n * 100 + v)
two_digits m n u v s t hm hn hu hv e =
    let last = less-digit m n 100 u v s t hu hv e in
    let both =
      less-digit (m / 10) (n / 10) 1000 (m % 10 * 100 + u) (n % 10 * 100 + v) (digit m ∷ s)
        (digit n ∷ t) (omega arith) (omega arith) last in
    let em : m / 10 % 10 * 1000 + (m % 10 * 100 + u) ≡ m * 100 + u = omega arith in
    let en : n / 10 % 10 * 1000 + (n % 10 * 100 + v) ≡ n * 100 + v = omega arith in
    rw (em, en) at both

four_digits :
    (m n u v : ℕ) (s t : Text)
    → m < 10000
    → n < 10000
    → u < 10000
    → v < 10000
    → less s t ≡ ltb u v
    → less
        (digit (m / 1000) ∷ digit (m / 100) ∷ digit (m / 10) ∷ digit m ∷ s)
        (digit (n / 1000) ∷ digit (n / 100) ∷ digit (n / 10) ∷ digit n ∷ t)
      ≡ ltb (m * 10000 + u) (n * 10000 + v)
four_digits m n u v s t hm hn hu hv e =
    let d1 = less-digit m n 10000 u v s t hu hv e in
    let d2 =
      less-digit (m / 10) (n / 10) 100000 (m % 10 * 10000 + u) (n % 10 * 10000 + v) (digit m ∷ s)
        (digit n ∷ t) (omega arith) (omega arith) d1 in
    let d3 =
      less-digit (m / 100) (n / 100) 1000000 (m / 10 % 10 * 100000 + (m % 10 * 10000 + u))
        (n / 10 % 10 * 100000 + (n % 10 * 10000 + v)) (digit (m / 10) ∷ digit m ∷ s)
        (digit (n / 10) ∷ digit n ∷ t) (omega arith) (omega arith) d2 in
    let d4 =
      less-digit (m / 1000) (n / 1000) 10000000
        (m / 100 % 10 * 1000000 + (m / 10 % 10 * 100000 + (m % 10 * 10000 + u)))
        (n / 100 % 10 * 1000000 + (n / 10 % 10 * 100000 + (n % 10 * 10000 + v)))
        (digit (m / 100) ∷ digit (m / 10) ∷ digit m ∷ s)
        (digit (n / 100) ∷ digit (n / 10) ∷ digit n ∷ t) (omega arith) (omega arith) d3 in
    let em : m / 1000 % 10 * 10000000
          + (m / 100 % 10 * 1000000 + (m / 10 % 10 * 100000 + (m % 10 * 10000 + u)))
        ≡ m * 10000 + u =
      omega arith in
    let en : n / 1000 % 10 * 10000000
          + (n / 100 % 10 * 1000000 + (n / 10 % 10 * 100000 + (n % 10 * 10000 + v)))
        ≡ n * 10000 + v =
      omega arith in
    rw (em, en) at d4

-- YYYYMMDD as a number.
abbrev pub key : Date → ℕ
key d = d.year * 10000 + (d.month * 100 + d.day)

day_digits :
    (m n : ℕ)
    → m < 100
    → n < 100
    → less (digit (m / 10) ∷ digit m ∷ []) (digit (n / 10) ∷ digit n ∷ []) ≡ ltb m n
day_digits m n hm hn =
    let last = less-digit m n 1 0 0 [] [] (omega arith) (omega arith) (unfold less in refl) in
    let both =
      less-digit (m / 10) (n / 10) 10 (m % 10 * 1 + 0) (n % 10 * 1 + 0) (digit m ∷ [])
        (digit n ∷ []) (omega arith) (omega arith) last in
    let em : m / 10 % 10 * 10 + (m % 10 * 1 + 0) ≡ m = omega arith in
    let en : n / 10 % 10 * 10 + (n % 10 * 1 + 0) ≡ n = omega arith in rw (em, en) at both

-- The texts of two dates compare as the numbers YYYYMMDD.
pub less-isoformat-key :
    (a b : Date)
    → is_date a ≡ true
    → is_date b ≡ true
    → less (isoformat a) (isoformat b) ≡ ltb (key a) (key b)
unfolding isoformat
less-isoformat-key a b ha hb =
    let ba = is_date_bounds a ha in
    let bb = is_date_bounds b hb in
    four_digits a.year b.year (a.month * 100 + a.day) (b.month * 100 + b.day) _ _ (omega arith)
      (omega arith) (omega arith) (omega arith)
      (less-same b'-' _ _
        ∙ two_digits a.month b.month a.day b.day _ _ (omega arith) (omega arith) (omega arith)
            (omega arith) (less-same b'-' _ _ ∙ day_digits a.day b.day (omega arith) (omega arith)))
