-- ===== src/Base/Strings.antt =====
-- The methods of `str` that the program calls, and `int()` on a `str`.
use Prim.Native.Nat.{ℕ, zero, suc, ◌+◌, ◌-◌, ◌*◌}
use mathlib.Core.Bool.{Bool, true, false, ◌&&◌, ◌||◌}
use mathlib.Core.List.{List, [], ◌∷◌, ◌++◌, reverse}
use mathlib.Core.Option.{Option, none, some}
use linux_iso_seeder.Base.Tests.{leb, ◌==◌, if◌then◌else◌}
use linux_iso_seeder.Base.Outcome.{Result, ok, raised, value_error, index_error}
use linux_iso_seeder.Base.Int.{ℤ, pos, negsuc}
use linux_iso_seeder.Base.Text.{Text, starts_with}

-- `str.isspace` of one character.
unfoldable pub is_space : ℕ → Bool
is_space c =
    (leb 9 c && leb c 13)
    || (leb 28 c && leb c 32)
    || c == 0x85
    || c == 0xa0
    || c == 0x1680
    || (leb 0x2000 c && leb c 0x200a)
    || c == 0x2028
    || c == 0x2029
    || c == 0x202f
    || c == 0x205f
    || c == 0x3000

lstrip : Text → Text
lstrip [] = []
lstrip (c ∷ cs) = let rest = lstrip cs in if is_space c then rest else c ∷ cs

-- `text.strip()`
unfoldable pub strip : Text → Text
unfolding lstrip is_space
strip s = reverse (lstrip (reverse (lstrip s)))

extend : ℕ → List Text → List Text
extend x [] = (x ∷ []) ∷ []
extend x (part ∷ parts) = (x ∷ part) ∷ parts

-- `text.split(c)` for a separator of one character: never the empty list.
unfoldable pub split : ℕ → Text → List Text
unfolding extend
split c [] = [] ∷ []
split c (x ∷ xs) = if x == c then [] ∷ split c xs else extend x (split c xs)

-- `separator.join(parts)`
unfoldable pub join : Text → List Text → Text
join sep [] = []
join sep (part ∷ []) = part
join sep (part ∷ next ∷ parts) = part ++ (sep ++ join sep (next ∷ parts))

-- `parts[i]`
unfoldable pub nth : {A : Type 0} → List A → ℕ → Result A
nth [] i = raised index_error
nth (x ∷ xs) zero = ok x
nth (x ∷ xs) (suc i) = nth xs i

-- `parts[-1 - i]`
unfoldable pub nth_last : {A : Type 0} → List A → ℕ → Result A
unfolding nth
nth_last xs i = nth (reverse xs) i

abbrev pub is_ascii_digit : ℕ → Bool
is_ascii_digit c = leb b'0' c && leb c b'9'

-- The digits of an integer, with single underscores between them; `ready` says that the last
-- character was a digit.
digits_from : Bool → ℕ → Text → Option ℕ
digits_from true n [] = some n
digits_from false n [] = none
digits_from ready n (c ∷ cs) =
    let rest =
      digits_from (is_ascii_digit c) (if is_ascii_digit c then n * 10 + (c - b'0') else n) cs in
    if is_ascii_digit c || (ready && c == b'_') then rest else none

signed : Bool → Option ℕ → Result ℤ
signed minus none = raised value_error
signed minus (some zero) = ok (pos 0)
signed minus (some (suc n)) = ok (if minus then negsuc n else pos (suc n))

int_body : Text → Result ℤ
int_body [] = raised value_error
int_body (c ∷ cs) =
    if c == b'-'
    then signed true (digits_from false 0 cs)
    else if c == b'+'
    then signed false (digits_from false 0 cs)
    else signed false (digits_from false 0 (c ∷ cs))

-- `int(text)` on a text of ASCII digits, spaces and signs.
unfoldable pub int_of : Text → Result ℤ
unfolding int_body signed digits_from strip
int_of s = int_body (strip s)

-- `text.lower()` and `text.upper()` on ASCII letters.
unfoldable pub lower : Text → Text
lower [] = []
lower (c ∷ cs) = (if leb b'A' c && leb c b'Z' then c + 32 else c) ∷ lower cs

unfoldable pub upper : Text → Text
upper [] = []
upper (c ∷ cs) = (if leb b'a' c && leb c b'z' then c - 32 else c) ∷ upper cs

-- `part in text`
unfoldable pub contains : Text → Text → Bool
unfolding starts_with
contains part [] = starts_with part []
contains part (c ∷ cs) = starts_with part (c ∷ cs) || contains part cs

-- So many spaces.
abbrev pub spaces : ℕ → Text
spaces zero = []
spaces (suc n) = b' ' ∷ spaces n
