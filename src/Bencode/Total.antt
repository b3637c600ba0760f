-- ===== src/Bencode/Total.antt =====
-- What `bdecode` does on any bytes: it ends, it consumes, and what it returns can be encoded.
use linux_iso_seeder.Base.{
  ℕ, zero, suc, ◌+◌, ◌*◌, ◌≤◌, ◌<◌, ◌≡◌, ◌≢◌, Bool, true, false, Option, none, some, [], ◌∷◌, arith,
  Result, ok, raised, out_of_fuel, ◌>>=◌, ◌>>◌, length, length-drop, ltb, ◌==◌, if◌then◌else◌,
  Bool-cases, inl, inr,
}
use linux_iso_seeder.Base.Text.{same, same_symm}
use linux_iso_seeder.Bencode.Decimal.{is_digit, all_digits, decimal, check_digits}
use linux_iso_seeder.Bencode.Short.{IsShortInt, negate-short, length-show-decimal}
use linux_iso_seeder.Base.Int.{ℤ}
use linux_iso_seeder.Bencode.Value.{
  Bytes, raw, named, Value, Items, Fields, bool, int, bytes, str, list, dict, other, nil, item, end,
  field, put_field,
}
use linux_iso_seeder.Bencode.Decode.{
  find_byte, is_bencode_int, int_value, finish_int, finish_bytes, decode_int, require_bytes, decode,
  decode_items, decode_fields, bdecode,
}

-- No field has the key `k`.
abbrev pub NoKey : Bytes → Fields → Type 0
NoKey k end = Unit
NoKey k (field (raw j) v fs) = (same j k ≡ false) × NoKey k fs
NoKey k (field (named t) v fs) = ⊥

-- Ints, byte strings, lists, and dicts whose keys are distinct byte strings, in any order.
abbrev mutual
  pub IsDecoded : Value → Type 0
  IsDecoded (bool b) = ⊥
  IsDecoded (int z) = IsShortInt z
  IsDecoded (bytes b) = Unit
  IsDecoded (str t) = ⊥
  IsDecoded (list vs) = AreDecoded vs
  IsDecoded (dict fs) = AreFields fs
  IsDecoded other = ⊥

  pub AreDecoded : Items → Type 0
  AreDecoded nil = Unit
  AreDecoded (item v vs) = IsDecoded v × AreDecoded vs

  pub AreFields : Fields → Type 0
  AreFields end = Unit
  AreFields (field (raw k) v fs) = IsDecoded v × NoKey k fs × AreFields fs
  AreFields (field (named t) v fs) = ⊥

-- The call returned a value with `P` and left less than it was given, or it raised an exception of
-- the program's.
abbrev pub Settles : {A : Type 0} → (A → Type 0) → Bytes → Result (A × Bytes) → Type 0
Settles P xs (ok (a, rest)) = P a × (length rest < length xs)
Settles P xs (raised e) = e ≢ out_of_fuel

Settles-bind :
    {A B : Type 0} (P : A → Type 0) (Q : B → Type 0) (xs ys : Bytes) (r : Result (A × Bytes))
    (f : A × Bytes → Result (B × Bytes))
    → Settles P xs r
    → ((a : A) (rest : Bytes) → P a → length rest < length xs → Settles Q ys (f (a, rest)))
    → Settles Q ys (r >>= f)
Settles-bind P Q xs ys (ok (a, rest)) f h k = k a rest h.0 h.1
Settles-bind P Q xs ys (raised e) f h k = h

Settles-weaken :
    {A : Type 0} (P : A → Type 0) (xs ys : Bytes) (r : Result (A × Bytes))
    → length xs ≤ length ys
    → Settles P xs r
    → Settles P ys r
Settles-weaken P xs ys (ok (a, rest)) le h = (h.0, omega arith)
Settles-weaken P xs ys (raised e) le h = h

-- What is found behind a byte is shorter.
abbrev Left : Bytes → Option (Bytes × Bytes) → Type 0
Left xs none = Unit
Left xs (some (before, behind)) = length behind < length xs

find_byte-Left : (c : ℕ) (xs : Bytes) → Left xs (find_byte c xs)
unfolding find_byte
find_byte-Left c [] = tt
find_byte-Left c (x ∷ xs) = elim (Bool-cases (x == c)) [
  | inl found ↦ rw (found, find_byte) (omega arith)
  | inr later ↦ rw (later, find_byte) (go (find_byte c xs) (find_byte-Left c xs))
]
  where
    go :
        (o : Option (Bytes × Bytes))
        → Left xs o
        → Left (x ∷ xs) (elim o [ none ↦ none | some (before, behind) ↦ some (x ∷ before, behind) ])
    go none h = tt
    go (some (before, behind)) h = omega arith

-- What `int()` gives on digits.
abbrev IsConverted : Result ℤ → Type 0
IsConverted (ok z) = IsShortInt z
IsConverted (raised e) = e ≢ out_of_fuel

after_check :
    (ds : Bytes) (z : ℤ) → (length ds ≤ 4300 → IsShortInt z) → IsConverted (check_digits ds >> ok z)
after_check ds z short = elim (Bool-cases (ltb 4300 (length ds))) [
  | inl long ↦ rw long (cc)
  | inr fits ↦ rw fits (short (ground arith))
]

int_value-short : (digits : Bytes) → is_bencode_int digits ≡ true → IsConverted (int_value digits)
unfolding is_bencode_int int_value
int_value-short [] h = cc
int_value-short (c ∷ cs) h = elim (Bool-cases (c == b'-')) [
  | inl minus ↦ rw minus (
      after_check cs _ λ short.
        negate-short (decimal 0 cs) (omega (arith, length-show-decimal cs (rw minus at h), short)))
  | inr plain ↦ rw plain (
      after_check (c ∷ cs) _
        λ short. omega (arith, length-show-decimal (c ∷ cs) (rw plain at h), short))
]

finish_int-Settles :
    (xs : Bytes) (o : Option (Bytes × Bytes)) → Left xs o → Settles IsDecoded xs (finish_int o)
unfolding finish_int
finish_int-Settles xs none h = cc
finish_int-Settles xs (some (digits, rest)) h = elim (Bool-cases (is_bencode_int digits)) [
  | inl matched ↦ rw matched (converted (int_value digits) (int_value-short digits matched))
  | inr other_text ↦ rw other_text (cc)
]
  where
    converted :
        (value : Result ℤ)
        → IsConverted value
        → Settles IsDecoded xs (value >>= λ z. ok (int z, rest))
    converted (ok z) short = (short, h)
    converted (raised e) other_error = other_error

finish_bytes-Settles :
    (xs : Bytes) (o : Option (Bytes × Bytes)) → Left xs o → Settles IsDecoded xs (finish_bytes o)
unfolding finish_bytes
finish_bytes-Settles xs none h = cc
finish_bytes-Settles xs (some (digits, rest)) h = elim (Bool-cases (all_digits digits)) [
  | inl matched ↦ elim (Bool-cases (ltb 4300 (length digits))) [
    | inl long ↦ rw (matched, long) (cc)
    | inr fits ↦ elim (Bool-cases (ltb (length rest) (decimal 0 digits))) [
      | inl short ↦ rw (matched, fits, short) (cc)
      | inr enough ↦
          rw (matched, fits, enough) (tt, omega (arith, length-drop (decimal 0 digits) rest))
    ]
  ]
  | inr other_text ↦ rw other_text (cc)
]

NoKey-put_field :
    (k j : Bytes) (v : Value) (fs : Fields)
    → same k j ≡ false
    → NoKey j fs
    → NoKey j (put_field fs k v)
unfolding put_field
NoKey-put_field k j v end h n = (h, tt)
NoKey-put_field k j v (field (raw i) w fs) h n = elim (Bool-cases (same i k)) [
  | inl here ↦ rw here n
  | inr later ↦ rw later (n.0, NoKey-put_field k j v fs h n.1)
]
NoKey-put_field k j v (field (named t) w fs) h n = absurd n

AreFields-put_field :
    (fs : Fields) (k : Bytes) (v : Value)
    → AreFields fs
    → IsDecoded v
    → AreFields (put_field fs k v)
unfolding put_field
AreFields-put_field end k v h d = (d, tt, tt)
AreFields-put_field (field (raw i) w fs) k v h d = elim (Bool-cases (same i k)) [
  | inl here ↦ rw here (d, h.1, h.2)
  | inr later ↦
      rw later
        (h.0, NoKey-put_field k i v fs (rw same_symm later) h.1, AreFields-put_field fs k v h.2 d)
]
AreFields-put_field (field (named t) w fs) k v h d = absurd h

Settles-if :
    {A : Type 0} (P : A → Type 0) (xs : Bytes) (b : Bool) (r s : Result (A × Bytes))
    → Settles P xs r
    → Settles P xs s
    → Settles P xs (if b then r else s)
Settles-if P xs true r s hr hs = hr
Settles-if P xs false r s hr hs = hs

Settles-require :
    {B : Type 0} (Q : B → Type 0) (ys : Bytes) (key : Value) (g : Bytes → Result (B × Bytes))
    → ((k : Bytes) → Settles Q ys (g k))
    → Settles Q ys (require_bytes key >>= g)
unfolding require_bytes
Settles-require Q ys (bytes k) g h = h k
Settles-require Q ys _ g h = cc

mutual
  unfolding decode

  value_lem : (f : ℕ) (xs : Bytes) → 2 * length xs < f → Settles IsDecoded xs (decode f xs)
  value_lem zero xs h = absurd (omega arith)
  value_lem (suc f) [] h = cc
  value_lem (suc f) (c ∷ xs) h =
      Settles-if IsDecoded (c ∷ xs) (c == b'i') _ _
        (Settles-weaken IsDecoded xs (c ∷ xs) (decode_int xs) (omega arith)
          (finish_int-Settles xs (find_byte b'e' xs) (find_byte-Left b'e' xs)))
        (Settles-if IsDecoded (c ∷ xs) (is_digit c) _ _
          (finish_bytes-Settles (c ∷ xs) (find_byte b':' (c ∷ xs)) (find_byte-Left b':' (c ∷ xs)))
          (Settles-if IsDecoded (c ∷ xs) (c == b'l') _ _
            (Settles-bind AreDecoded IsDecoded xs (c ∷ xs) (decode_items f xs) _
              (items_lem f xs (omega arith)) (λ vs rest d lt. (d, omega arith)))
            (Settles-if IsDecoded (c ∷ xs) (c == b'd') _ _
              (Settles-bind AreFields IsDecoded xs (c ∷ xs) (decode_fields f end xs) _
                (fields_lem f end xs tt (omega arith)) (λ fs rest d lt. (d, omega arith)))
              (cc))))

  items_lem :
      (f : ℕ) (xs : Bytes) → 2 * length xs + 1 < f → Settles AreDecoded xs (decode_items f xs)
  items_lem zero xs h = absurd (omega arith)
  items_lem (suc f) [] h = cc
  items_lem (suc f) (c ∷ xs) h =
      Settles-if AreDecoded (c ∷ xs) (c == b'e') _ _ (tt, omega arith)
        (Settles-bind IsDecoded AreDecoded (c ∷ xs) (c ∷ xs) (decode f (c ∷ xs)) _
          (value_lem f (c ∷ xs) (omega arith))
          (λ v rest d lt.
            Settles-bind AreDecoded AreDecoded rest (c ∷ xs) (decode_items f rest) _
              (items_lem f rest (omega arith)) (λ vs more ds lt'. ((d, ds), omega arith))))

  fields_lem :
      (f : ℕ) (done : Fields) (xs : Bytes)
      → AreFields done
      → 2 * length xs + 1 < f
      → Settles AreFields xs (decode_fields f done xs)
  fields_lem zero done xs a h = absurd (omega arith)
  fields_lem (suc f) done [] a h = cc
  fields_lem (suc f) done (c ∷ xs) a h =
      Settles-if AreFields (c ∷ xs) (c == b'e') _ _ (a, omega arith)
        (Settles-bind IsDecoded AreFields (c ∷ xs) (c ∷ xs) (decode f (c ∷ xs)) _
          (value_lem f (c ∷ xs) (omega arith))
          (λ key rest d lt. Settles-require AreFields (c ∷ xs) key _ λ k.
            Settles-bind IsDecoded AreFields rest (c ∷ xs) (decode f rest) _
              (value_lem f rest (omega arith))
              (λ v more dv lt'.
                Settles-weaken AreFields more (c ∷ xs) (decode_fields f (put_field done k v) more)
                  (omega arith)
                  (fields_lem f (put_field done k v) more (AreFields-put_field done k v a dv)
                    (omega arith)))))

-- On any bytes `bdecode` ends: it returns a value made of ints, byte strings, lists, and dicts with
-- distinct byte string keys, and consumes at least one byte, or it raises; the fuel never runs out.
pub bdecode-Settles : (data_ : Bytes) → Settles IsDecoded data_ (bdecode data_)
unfolding bdecode
bdecode-Settles data_ = value_lem (2 * length data_ + 1) data_ (omega arith)
