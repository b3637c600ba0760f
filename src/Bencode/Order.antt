-- ===== src/Bencode/Order.antt =====
-- The order of byte strings by which a dict's keys are sorted is a strict total order.
use linux_iso_seeder.Base.{◌≡◌, refl, true, false, [], ◌∷◌, arith}
use linux_iso_seeder.Base.Text.{less, same}
use linux_iso_seeder.Bencode.Value.{Bytes}

pub less_irrefl : (k : Bytes) → less k k ≡ false
unfolding less
less_irrefl [] = refl
less_irrefl (x ∷ xs) = ground (arith, less_irrefl xs)

pub less_trans : (a b c : Bytes) → less a b ≡ true → less b c ≡ true → less a c ≡ true
unfolding less
less_trans a b [] h k = cc
less_trans a [] (z ∷ zs) h k = cc
less_trans [] (y ∷ ys) (z ∷ zs) h k = refl
less_trans (x ∷ xs) (y ∷ ys) (z ∷ zs) h k = ground (arith, less_trans xs ys zs)

pub less_asymm : (a b : Bytes) → less a b ≡ true → less b a ≡ false
unfolding less
less_asymm a [] h = cc
less_asymm [] (y ∷ ys) h = refl
less_asymm (x ∷ xs) (y ∷ ys) h = ground (arith, less_asymm xs ys)

-- A smaller key is another key.
pub same_of_less : (a b : Bytes) → less a b ≡ true → same a b ≡ false
unfolding less same
same_of_less a [] h = cc
same_of_less [] (y ∷ ys) h = refl
same_of_less (x ∷ xs) (y ∷ ys) h = ground (arith, same_of_less xs ys)
