-- ===== src/Ratios/Lines.antt =====
-- What the search of a line finds: the parts of the pattern one by one.
use linux_iso_seeder.Base.{
  ℕ, zero, suc, ◌≡◌, refl, true, false, none, some, [], ◌∷◌, ◌++◌, ◌==◌, append_assoc, Bool-cases,
  inl, inr, All, all, arith,
}
use linux_iso_seeder.Base.Text.{Text, codes}
use linux_iso_seeder.Base.Strings.{is_ascii_digit, is_space, spaces}
use linux_iso_seeder.LowDemand.{after_prefix}
use linux_iso_seeder.Ratios.{
  span_digits, decimals, skip_spaces, some_spaces, after_name, lazy_name, after_marker,
  search_ratio,
}

-- A decimal number: digits, a point, and digits.
pub record IsDecimal (text : Text) : Type 0 where
  pub whole_first : ℕ
  pub whole : Text
  pub part_first : ℕ
  pub part : Text
  pub first_digit : is_ascii_digit whole_first ≡ true
  pub digits : All (λ c. is_ascii_digit c ≡ true) whole
  pub part_digit : is_ascii_digit part_first ≡ true
  pub part_digits : All (λ c. is_ascii_digit c ≡ true) part
  pub written : text ≡ whole_first ∷ (whole ++ (b'.' ∷ part_first ∷ part))

-- A name that ends in a character that is no space, and has no arrow and no line break.
abbrev pub IsPlain : Text → Type 0
IsPlain [] = ⊥
IsPlain (c ∷ []) = (is_space c ≡ false) × ((c == 0x2192) ≡ false) × ((c == 10) ≡ false)
IsPlain (c ∷ d ∷ name) = ((c == 0x2192) ≡ false) × ((c == 10) ≡ false) × IsPlain (d ∷ name)

span_digits-append :
    (digits : Text) (c : ℕ) (text : Text)
    → All (λ d. is_ascii_digit d ≡ true) digits
    → is_ascii_digit c ≡ false
    → span_digits (digits ++ (c ∷ text)) ≡ (digits, c ∷ text)
unfolding span_digits
span_digits-append [] c text all h = rw h refl
span_digits-append (d ∷ digits) c text all h =
    rw (all.0) (rw (span_digits-append digits c text all.1 h) refl)

digit-not_space : (c : ℕ) → is_ascii_digit c ≡ true → is_space c ≡ false
unfolding is_space
digit-not_space c h = ground arith

decimals-written :
    (a c : ℕ) (whole part : Text)
    → All (λ d. is_ascii_digit d ≡ true) (a ∷ whole)
    → All (λ d. is_ascii_digit d ≡ true) (c ∷ part)
    → decimals (a ∷ (whole ++ (b'.' ∷ c ∷ (part ++ (10 ∷ [])))))
      ≡ some (a ∷ (whole ++ (b'.' ∷ c ∷ part)))
unfolding decimals
decimals-written a c whole part h k =
    rw (span_digits-append (a ∷ whole) b'.' (c ∷ (part ++ (10 ∷ []))) h refl)
      (rw (span_digits-append (c ∷ part) 10 [] k refl) refl)

decimals-line : (text : Text) → IsDecimal text → decimals (text ++ (10 ∷ [])) ≡ some text
decimals-line text h = rw h.written (
    rw (append_assoc h.whole (b'.' ∷ h.part_first ∷ h.part) (10 ∷ [])) (
      decimals-written h.whole_first h.part_first h.whole h.part (h.first_digit, h.digits)
        (h.part_digit, h.part_digits)))

skip_spaces-plain :
    (name text : Text)
    → IsPlain name
    → after_prefix (0x2192 ∷ []) (skip_spaces (name ++ text)) ≡ none
unfolding skip_spaces after_prefix
skip_spaces-plain [] text h = absurd h
skip_spaces-plain (c ∷ []) text h = rw (h.0) (ground (arith, h.1))
skip_spaces-plain (c ∷ d ∷ name) text h = elim (Bool-cases (is_space c)) [
  | inl space ↦ rw space (skip_spaces-plain (d ∷ name) text h.2)
  | inr other ↦ rw other (ground (arith, h.0))
]

-- Within a name, the rest of the pattern does not match.
after_name-plain : (name text : Text) → IsPlain name → after_name (name ++ text) ≡ none
unfolding after_name some_spaces
after_name-plain [] text h = absurd h
after_name-plain (c ∷ []) text h = rw (h.0) refl
after_name-plain (c ∷ d ∷ name) text h = elim (Bool-cases (is_space c)) [
  | inl space ↦ rw space (rw (skip_spaces-plain (d ∷ name) text h.2) refl)
  | inr other ↦ rw other refl
]

skip_spaces-spaces : (n : ℕ) (text : Text) → skip_spaces (spaces n ++ text) ≡ skip_spaces text
unfolding skip_spaces is_space
skip_spaces-spaces zero text = refl
skip_spaces-spaces (suc n) text = skip_spaces-spaces n text

-- The end of a line after the name.
abbrev pub ending : ℕ → Text → Text
ending n text = spaces n ++ (b' ' ∷ 0x2192 ∷ b' ' ∷ (text ++ (10 ∷ [])))

some_spaces-spaces :
    (n : ℕ) (text : Text) → some_spaces (spaces n ++ (b' ' ∷ text)) ≡ some (skip_spaces text)
unfolding some_spaces is_space
some_spaces-spaces zero text = refl
some_spaces-spaces (suc n) text =
    rw (skip_spaces-spaces n (b' ' ∷ text)) (unfold skip_spaces is_space in refl)

skip_spaces-decimal :
    (text : Text) → IsDecimal text → skip_spaces (text ++ (10 ∷ [])) ≡ text ++ (10 ∷ [])
unfolding skip_spaces
skip_spaces-decimal text h = rw h.written (rw (digit-not_space h.whole_first h.first_digit) refl)

after_name-ending : (n : ℕ) (text : Text) → IsDecimal text → after_name (ending n text) ≡ some text
unfolding after_name
after_name-ending n text h = rw (some_spaces-spaces n (0x2192 ∷ b' ' ∷ (text ++ (10 ∷ [])))) (
    unfold skip_spaces is_space after_prefix some_spaces in
    rw (skip_spaces-decimal text h) (decimals-line text h))

-- The name is all that stands before the spaces and the arrow.
pub lazy_name-plain :
    (name : Text) (n : ℕ) (text : Text)
    → IsPlain name
    → IsDecimal text
    → lazy_name (name ++ ending n text) ≡ some (name, text)
unfolding lazy_name
lazy_name-plain [] n text h k = absurd h
lazy_name-plain (c ∷ []) n text h k = rw (h.2) (rw (after_name-ending n text k) refl)
lazy_name-plain (c ∷ d ∷ name) n text h k = rw (h.1) (
    rw (after_name-plain (d ∷ name) (ending n text) h.2)
      (rw (lazy_name-plain (d ∷ name) n text h.2 k) refl))

-- A text without an opening bracket is passed over.
pub search_ratio-skip :
    (before text : Text)
    → All (λ c. (b'[' == c) ≡ false) before
    → search_ratio (before ++ text) ≡ search_ratio text
unfolding search_ratio after_prefix
search_ratio-skip [] text h = refl
search_ratio-skip (c ∷ before) text h = rw (search_ratio, h.0) (search_ratio-skip before text h.1)

-- The pattern is matched where the marker stands.
search_ratio-here :
    (c : ℕ) (text rest : Text) {found : Text × Text}
    → after_prefix (codes "[ratio]") (c ∷ text) ≡ some rest
    → after_marker rest ≡ some found
    → search_ratio (c ∷ text) ≡ some found
unfolding search_ratio
search_ratio-here c text rest prefix h = rw prefix (rw h refl)

pub search_ratio-marker :
    (rest : Text) {found : Text × Text}
    → after_marker rest ≡ some found
    → search_ratio (codes "[ratio]" ++ rest) ≡ some found
search_ratio-marker rest h =
    search_ratio-here b'[' (codes "ratio]" ++ rest) rest (unfold after_prefix in refl) h
