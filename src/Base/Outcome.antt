-- ===== src/Base/Outcome.antt =====
-- A call of a Python function that may raise: its value, or the exception's class.
use mathlib.Core.Path.{◌≡◌, refl}
use mathlib.Core.Logic.{◌⊎◌, inl, inr}
use mathlib.Core.Bool.{Bool, true, false}

-- The classes that the program's own code raises or tells apart.
pub data Error : Type 0 where
  bencode_error udp_tracker_error value_error index_error key_error : Error
  type_error attribute_error struct_error os_error overflow_error out_of_fuel : Error

pub data Result {ℓ} (A : Type ℓ) : Type ℓ where
  ok : A → Result A
  raised : Error → Result A

module _ {ℓ κ} {A : Type ℓ} {B : Type κ} where
  infixl 5 ◌>>=◌
  -- What follows a call, unless it raises.
  abbrev pub ◌>>=◌ : Result A → (A → Result B) → Result B
  ok value >>= next = next value
  raised error >>= next = raised error

  -- Inversion of a bind that returned.
  pub >>=-eq-ok :
      (call : Result A) (next : A → Result B) {b : B}
      → (call >>= next) ≡ ok b
      → (value : A) × (call ≡ ok value) × (next value ≡ ok b)
  >>=-eq-ok (ok value) next returned = (value, refl, returned)
  >>=-eq-ok (raised error) next returned = cc

infixl 5 ◌>>◌
-- The same for a call that returns nothing.
abbrev pub ◌>>◌ {κ} : {B : Type κ} → Result (Unit {0}) → Result B → Result B
check >> rest = check >>= λ _. rest

-- `if test: raise e`
abbrev pub raise_if : Bool → Error → Result (Unit {0})
raise_if true e = raised e
raise_if false e = ok tt

pub Result-cases {ℓ} :
    {A : Type ℓ} (call : Result A)
    → ((error : Error) × (call ≡ raised error)) ⊎ ((value : A) × (call ≡ ok value))
Result-cases (ok value) = inr (value, refl)
Result-cases (raised error) = inl (error, refl)

pub ok_injective {ℓ} : {A : Type ℓ} {a b : A} → ok a ≡ ok b → a ≡ b
ok_injective h = cc
