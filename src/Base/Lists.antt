-- ===== src/Base/Lists.antt =====
-- Lists measured and cut by native numbers, under the library's names, and predicates on them.
use Prim.Native.Nat.{ℕ, zero, suc, ◌+◌, ◌-◌, min}
use mathlib.Core.Path.{◌≡◌, refl}
use mathlib.Core.List.{List, [], ◌∷◌, ◌++◌, map}
use mathlib.Core.Logic.{◌⊎◌, inl, inr}
use mathlib.Core.Option.{Option, none, some}
use mathlib.Core.Bool.{Bool, true, false, ◌||◌, ◌&&◌}
use native.Mathlib.Omega.{arith}

module _ {ℓ} {A : Type ℓ} where
  abbrev pub length : List A → ℕ
  length [] = 0
  length (x ∷ xs) = suc (length xs)

  abbrev pub get_elem? : List A → ℕ → Option A
  get_elem? [] i = none
  get_elem? (x ∷ xs) zero = some x
  get_elem? (x ∷ xs) (suc i) = get_elem? xs i

  abbrev pub take : ℕ → List A → List A
  take zero xs = []
  take (suc n) [] = []
  take (suc n) (x ∷ xs) = x ∷ take n xs

  abbrev pub drop : ℕ → List A → List A
  drop zero xs = xs
  drop (suc n) [] = []
  drop (suc n) (x ∷ xs) = drop n xs

  abbrev pub any : (A → Bool) → List A → Bool
  any p [] = false
  any p (x ∷ xs) = p x || any p xs

  abbrev pub all : (A → Bool) → List A → Bool
  all p [] = true
  all p (x ∷ xs) = p x && all p xs

  abbrev pub All {κ} : (A → Type κ) → List A → Type κ
  All P [] = Unit
  All P (x ∷ xs) = P x × All P xs

  pub length-append : (xs ys : List A) → length (xs ++ ys) ≡ length xs + length ys
  length-append [] ys = omega arith
  length-append (x ∷ xs) ys = omega (arith, length-append xs ys)

  -- A cut at the length of the first part gives back the parts.
  pub take-append_length : (xs ys : List A) → take (length xs) (xs ++ ys) ≡ xs
  take-append_length [] ys = refl
  take-append_length (x ∷ xs) ys = rw (take-append_length xs ys)

  pub drop-append_length : (xs ys : List A) → drop (length xs) (xs ++ ys) ≡ ys
  drop-append_length [] ys = refl
  drop-append_length (x ∷ xs) ys = drop-append_length xs ys

  pub length-drop : (n : ℕ) (xs : List A) → length (drop n xs) ≡ length xs - n
  length-drop zero xs = omega arith
  length-drop (suc n) [] = omega arith
  length-drop (suc n) (x ∷ xs) = omega (arith, length-drop n xs)

  pub length-take : (n : ℕ) (xs : List A) → length (take n xs) ≡ min n (length xs)
  length-take zero xs = omega arith
  length-take (suc n) [] = omega arith
  length-take (suc n) (x ∷ xs) = omega (arith, length-take n xs)

module _ {ℓ κ} {A : Type ℓ} (P : A → Type κ) where
  pub All-append : (xs ys : List A) → All P xs → All P ys → All P (xs ++ ys)
  All-append [] ys h k = k
  All-append (x ∷ xs) ys h k = (h.0, All-append xs ys h.1 k)

module _ {ℓ} {A : Type ℓ} where
  -- Some element has `P`.
  abbrev pub AnyOf : (A → Type 0) → List A → Type 0
  AnyOf P [] = ⊥
  AnyOf P (x ∷ xs) = P x ⊎ AnyOf P xs

  pub All-map {κ λ'} :
      {B : Type κ} (P : B → Type λ') (Q : A → Type λ') (f : A → B) (xs : List A)
      → ((x : A) → Q x → P (f x))
      → All Q xs
      → All P (map f xs)
  All-map P Q f [] k h = tt
  All-map P Q f (x ∷ xs) k h = (k x h.0, All-map P Q f xs k h.1)

  pub All-weaken {κ} :
      (P Q : A → Type κ) (xs : List A) → ((x : A) → P x → Q x) → All P xs → All Q xs
  All-weaken P Q [] k h = tt
  All-weaken P Q (x ∷ xs) k h = (k x h.0, All-weaken P Q xs k h.1)

module _ {ℓ} {A : Type ℓ} (P : A → Type 0) where
  pub AnyOf-left : (xs ys : List A) → AnyOf P xs → AnyOf P (xs ++ ys)
  AnyOf-left [] ys h = absurd h
  AnyOf-left (x ∷ xs) ys (inl h) = inl h
  AnyOf-left (x ∷ xs) ys (inr h) = inr (AnyOf-left xs ys h)

  pub AnyOf-right : (xs ys : List A) → AnyOf P ys → AnyOf P (xs ++ ys)
  AnyOf-right [] ys h = h
  AnyOf-right (x ∷ xs) ys h = inr (AnyOf-right xs ys h)

abbrev pub IsIn : {A : Type 0} → A → List A → Type 0
IsIn x xs = AnyOf (λ y. y ≡ x) xs

pub members-IsIn : {A : Type 0} (xs : List A) → All (λ x. IsIn x xs) xs
members-IsIn [] = tt
members-IsIn (x ∷ xs) = (
  inl refl,
  All-weaken (λ y. IsIn y xs) (λ y. IsIn y (x ∷ xs)) xs (λ y there. inr there) (members-IsIn xs),
)
